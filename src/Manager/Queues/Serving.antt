-- ===== src/Manager/Queues/Serving.antt =====
-- What CheckReadyQueue does with the ready queues, as a whole.
use activitymanager.Prelude.{
  ℕ, zero, suc, ◌≤◌, ◌≡◌, Bool, true, false, not, ◌||◌, arith, List, [], ◌∷◌, ◌++◌, length,
  is_empty, All, refl, ◌==◌, ap, sym, ◌∙◌, Bool-cases, inl, inr, length-append,
}
use mathlib.Core.Path.{subst}
use activitymanager.World.{
  World, Outcome, QueueId, queue_code, ready, ready_interactive, background, background_interactive,
  M, U, ◌>>=◌, ◌>>◌, pure, gets,
}
use activitymanager.World.Returns.{is_done, then-done, bind-done}
use activitymanager.Manager.Run.{
  has_room, running_background_count, run_ready_background, run_while_room, run_all_with_room,
  check_ready_queue, review_yield_timeout,
}
use activitymanager.Manager.Queues.{Queues}
use activitymanager.Manager.Queues.Linked.{LinkedOnce}
use activitymanager.Manager.Queues.Filling.{Alike, CallbacksWork, has_begun, review-Returns}
use activitymanager.Manager.Queues.Lanes.{Lane, waiting_queue, running_queue, Step, step_lem}

-- Nothing waits, or there is no room.
abbrev pub served_out : QueueId → ℕ → World → Bool
served_out from level w = is_empty (w.run_queue from) || not (has_room level w)

-- Between the worlds, the Activities `ran` were taken off the front of the lane's ready queue and put at the
-- end of its running queue, and no other queue was touched.
record Served (l : Lane) (ran : List ℕ) (w v : World) : Type 0 where
  pub works : CallbacksWork v
  pub once : LinkedOnce v.run_queue
  pub background_same : v.background_level ≡ w.background_level
  pub interactive_same : v.interactive_level ≡ w.interactive_level
  pub begun : All (λ i. has_begun v i ≡ true) ran
  pub still_begun : (j : ℕ) → has_begun w j ≡ true → has_begun v j ≡ true
  pub taken : w.run_queue (waiting_queue l) ≡ ran ++ v.run_queue (waiting_queue l)
  pub appended : v.run_queue (running_queue l) ≡ w.run_queue (running_queue l) ++ ran
  pub others :
      (p : QueueId)
      → (queue_code p == queue_code (waiting_queue l)) ≡ false
      → (queue_code p == queue_code (running_queue l)) ≡ false
      → v.run_queue p ≡ w.run_queue p

All-map : {P Q : ℕ → Type 0} → ((i : ℕ) → P i → Q i) → (xs : List ℕ) → All P xs → All Q xs
All-map f [] h = tt
All-map f (x ∷ xs) h = (f x h.0, All-map f xs h.1)

append_nil : (xs : List ℕ) → xs ++ [] ≡ xs
append_nil [] = refl
append_nil (x ∷ xs) = ap (λ ys. x ∷ ys) (append_nil xs)

append_assoc : (xs ys zs : List ℕ) → (xs ++ ys) ++ zs ≡ xs ++ (ys ++ zs)
append_assoc [] ys zs = refl
append_assoc (x ∷ xs) ys zs = ap (λ l. x ∷ l) (append_assoc xs ys zs)

module _ (l : Lane) where
  Served-none : (w : World) → CallbacksWork w → LinkedOnce w.run_queue → Served l [] w w
  Served-none w works once = record {
    works = works;
    once = once;
    background_same = refl;
    interactive_same = refl;
    begun = tt;
    still_begun = λ j h. h;
    taken = refl;
    appended = sym (append_nil (w.run_queue (running_queue l)));
    others = λ p a b. refl;
  }

  Served-one_more :
      (i : ℕ) (q ran : List ℕ) (w v z : World)
      → w.run_queue (waiting_queue l) ≡ i ∷ q
      → Step l i q w v
      → Served l ran v z
      → Served l (i ∷ ran) w z
  Served-one_more i q ran w v z h s r = record {
    works = r.works;
    once = r.once;
    background_same = r.background_same ∙ s.background_same;
    interactive_same = r.interactive_same ∙ s.interactive_same;
    begun = (r.still_begun i s.begun, r.begun);
    still_begun = λ j h. r.still_begun j (s.still_begun j h);
    taken = h ∙ ap (λ xs. i ∷ xs) (sym s.leaves ∙ r.taken);
    appended =
        r.appended
        ∙ ap (λ xs. xs ++ ran) s.joins
        ∙ append_assoc (w.run_queue (running_queue l)) (i ∷ []) ran;
    others = λ p a b. r.others p a b ∙ s.others p a b;
  }

  -- The loop has returned, and has left nothing that there is room for.
  LoopServes : (World → ℕ) → World → Outcome Bool × World → Type 0
  LoopServes level w (r, v) =
      (is_done r ≡ true)
      × (ran : List ℕ) × Served l ran w v
      × (served_out (waiting_queue l) (level v) v ≡ true)

  loop-room :
      (rounds : ℕ) (level : World → ℕ) (b : Bool) (i : ℕ) (q : List ℕ) (w : World)
      → w.run_queue (waiting_queue l) ≡ i ∷ q
      → has_room (level w) w ≡ true
      → run_while_room (suc rounds) (waiting_queue l) (running_queue l) level b w
        ≡ (run_ready_background (running_queue l) i
              >> run_while_room rounds (waiting_queue l) (running_queue l) level true)
            w
  unfolding run_while_room ◌>>=◌ gets
  loop-room rounds level b i q w e room = rw e (rw room refl)

  loop_serves :
      (rounds : ℕ) (level : World → ℕ) (b : Bool) (q : List ℕ) (w : World)
      → CallbacksWork w
      → LinkedOnce w.run_queue
      → w.run_queue (waiting_queue l) ≡ q
      → length q ≤ rounds
      → LoopServes level w (run_while_room rounds (waiting_queue l) (running_queue l) level b w)
  unfolding LoopServes run_while_room ◌>>=◌ gets pure
  loop_serves zero level b [] w works once e le = (refl, [], Served-none w works once, rw e refl)
  loop_serves zero level b (i ∷ q) w works once e le = absurd (omega (arith, le))
  loop_serves (suc rounds) level b [] w works once e le =
      rw e (refl, [], Served-none w works once, rw e refl)
  loop_serves (suc rounds) level b (i ∷ q) w works once e le =
      elim (Bool-cases (has_room (level w) w)) [
        | inl room ↦
            let (returned, s) = step_lem l i q w works once e in
            let v = (run_ready_background (running_queue l) i w).1 in
            let next = run_while_room rounds (waiting_queue l) (running_queue l) level true in
            let (returns, ran, r, full) =
              loop_serves rounds level true q v s.works s.once s.leaves (omega (arith, le)) in
            subst (LoopServes level w)
              (sym (
                loop-room rounds level b i q w e room
                ∙ then-done (run_ready_background (running_queue l) i) next w returned))
              (returns, i ∷ ran, Served-one_more i q ran w v (next v).1 e s r, full)
        | inr full ↦ rw e (rw full (refl, [], Served-none w works once, rw full (rw e refl)))
      ]

  run_all_serves :
      (level : World → ℕ) (w : World)
      → CallbacksWork w
      → LinkedOnce w.run_queue
      → LoopServes level w (run_all_with_room (waiting_queue l) (running_queue l) level w)
  unfolding run_all_with_room ◌>>=◌ gets
  run_all_serves level w works once =
      loop_serves (length (w.run_queue (waiting_queue l))) level false
        (w.run_queue (waiting_queue l)) w works once refl (omega arith)

-- An Activity started in the other lane leaves no more room.
served_out_later :
    (q : List ℕ) (level : ℕ) (v z : World)
    → served_out ready_interactive level v ≡ true
    → z.run_queue ready_interactive ≡ v.run_queue ready_interactive
    → z.run_queue background_interactive ≡ v.run_queue background_interactive
    → z.run_queue background ≡ v.run_queue background ++ q
    → served_out ready_interactive level z ≡ true
unfolding running_background_count
served_out_later q level v z out same running more = ground (
  arith,
  out,
  ap is_empty same,
  ap length running,
  ap length more,
  length-append (v.run_queue background) q,
)

-- A run of CheckReadyQueue that has returned. Of each ready queue it has taken some Activities off the front
-- and put them, in the same order, at the end of the queue of the running; each of them is marked as running then,
-- its power activity, if it has one, is locked or on the way there, and without one its callback, if any, has been
-- called; and each ready queue is empty then, or its concurrency level leaves no room for one more.
abbrev pub ReadyServed : World → Outcome U × World → Type 0
ReadyServed w (r, v) =
    (is_done r ≡ true)
    × (urgent : List ℕ) × (w.run_queue ready_interactive ≡ urgent ++ v.run_queue ready_interactive)
    × (v.run_queue background_interactive ≡ w.run_queue background_interactive ++ urgent)
    × (other : List ℕ) × (w.run_queue ready ≡ other ++ v.run_queue ready)
    × (v.run_queue background ≡ w.run_queue background ++ other)
    × All (λ i. has_begun v i ≡ true) urgent
    × All (λ i. has_begun v i ≡ true) other
    × (served_out ready_interactive w.interactive_level v ≡ true)
    × (served_out ready w.background_level v ≡ true)

abbrev first_loop : M Bool
first_loop = run_all_with_room ready_interactive background_interactive (λ w. w.interactive_level)

abbrev second_loop : M Bool
second_loop = run_all_with_room ready background (λ w. w.background_level)

-- The three parts of CheckReadyQueue one after the other.
module _ (w v x z : World) (urgent other : List ℕ) where
  parts-ReadyServed :
      Served Lane.interactive urgent w v
      → Alike v x
      → Served Lane.plain other x z
      → served_out ready_interactive v.interactive_level v ≡ true
      → served_out ready z.background_level z ≡ true
      → ReadyServed w (pure tt z)
  unfolding pure
  parts-ReadyServed s (works, same, b, n, kept) t out1 out2 = (
    refl,
    urgent,
    s.taken ∙ ap (λ l. urgent ++ l) (sym interactive_kept),
    running_kept ∙ s.appended,
    other,
    sym (s.others ready refl refl) ∙ sym (at ready) ∙ t.taken,
    t.appended ∙ ap (λ l. l ++ other) (at background ∙ s.others background refl refl),
    All-map (λ i h. t.still_begun i (kept i h)) urgent s.begun,
    t.begun,
    served_out_later other w.interactive_level v z
        (subst (λ n. served_out ready_interactive n v ≡ true) s.interactive_same out1)
        interactive_kept running_kept (t.appended ∙ ap (λ l. l ++ other) (at background)),
    subst (λ n. served_out ready n z ≡ true) (t.background_same ∙ b ∙ s.background_same) out2,
  )
    where
      at : (q : QueueId) → x.run_queue q ≡ v.run_queue q
      at q = ap (λ (rq : Queues). rq q) same

      interactive_kept : z.run_queue ready_interactive ≡ v.run_queue ready_interactive
      interactive_kept = t.others ready_interactive refl refl ∙ at ready_interactive

      running_kept : z.run_queue background_interactive ≡ v.run_queue background_interactive
      running_kept = t.others background_interactive refl refl ∙ at background_interactive

-- When no callback fails and every Activity is linked in the run queues at most once, CheckReadyQueue
-- returns, has moved Activities of each ready queue, first come first served, to the running ones, each now marked
-- as running, with its power activity, if any, locked or on the way there, and without one with its callback, if any,
-- called, and leaves none waiting for which the queue's concurrency level leaves room.
pub check_ready_queue_serves :
    (w : World) → CallbacksWork w → LinkedOnce w.run_queue → ReadyServed w (check_ready_queue w)
unfolding check_ready_queue LoopServes
check_ready_queue_serves w works once =
    let (done1, urgent, s, out1) =
      run_all_serves Lane.interactive (λ w. w.interactive_level) w works once in
    let v = (first_loop w).1 in
    let (ran, e) =
      bind-done first_loop (λ ran. review_yield_timeout ran >>= λ _. second_loop >> pure tt) w
        done1 in
    let (done2, alike) = (review-Returns v ran).returns v (s.works, refl, refl, refl, λ j h. h) in
    let x = (review_yield_timeout ran v).1 in
    let (done3, other, t, out2) =
      run_all_serves Lane.plain (λ w. w.background_level) x alike.0
        (subst LinkedOnce (sym alike.1) s.once) in
    let z = (second_loop x).1 in
    subst (ReadyServed w)
      (sym (
        e
        ∙ then-done (review_yield_timeout ran) (second_loop >> pure tt) v done2
        ∙ then-done second_loop (pure tt) x done3))
      (parts-ReadyServed w v x z urgent other s alike t out1 out2)
