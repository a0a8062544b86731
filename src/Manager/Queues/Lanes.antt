-- ===== src/Manager/Queues/Lanes.antt =====
-- The two loops of CheckReadyQueue, one step at a time: an Activity goes from its ready queue to the end of
-- the running ones.
use activitymanager.Prelude.{
  ℕ, ◌≡◌, true, false, arith, List, [], ◌∷◌, ◌++◌, remove, count, refl, ◌==◌, ap, sym, ◌∙◌,
  Bool-cases, inl, inr,
}
use mathlib.Core.Path.{subst}
use activitymanager.World.{
  World, QueueId, queue_code, initialized, scheduled, ready, ready_interactive, background,
  background_interactive, long_background, immediate, ended, ◌>>=◌, pure, gets, modify, done,
  unlinked, pushed, unlink_if_linked, is_linked,
}
use activitymanager.World.Returns.{is_done}
use activitymanager.Manager.Run.{run_ready_background, run_activity}
use activitymanager.Manager.Queues.{Queues, without, joined, unlink_if_linked-unlinked}
use activitymanager.Manager.Queues.Linked.{times_linked, LinkedOnce, LinkedOnce-Movable}
use activitymanager.Manager.Queues.Filling.{Alike, CallbacksWork, has_begun, run_activity-Returns}
use activitymanager.Manager.Queues.Begun.{run_activity-begins}

pub data Lane : Type 0 where
  plain interactive : Lane

abbrev pub waiting_queue : Lane → QueueId
waiting_queue Lane.plain = ready
waiting_queue Lane.interactive = ready_interactive

abbrev pub running_queue : Lane → QueueId
running_queue Lane.plain = background
running_queue Lane.interactive = background_interactive

remove-count_zero : (i : ℕ) (xs : List ℕ) → count i xs ≡ 0 → remove i xs ≡ xs
remove-count_zero i [] h = refl
remove-count_zero i (x ∷ xs) h = ground (arith, remove-count_zero i xs)

module _ (i : ℕ) (q : List ℕ) (rq : Queues) (once : LinkedOnce rq) where
  -- One that waits first in its ready queue is nowhere else.
  rest_without : (l : Lane) → rq (waiting_queue l) ≡ i ∷ q → count i q ≡ 0
  unfolding times_linked
  rest_without Lane.plain h = ground (arith, once i, ap (count i) h)
  rest_without Lane.interactive h = ground (arith, once i, ap (count i) h)

  elsewhere :
      (l : Lane) (p : QueueId)
      → rq (waiting_queue l) ≡ i ∷ q
      → (queue_code p == queue_code (waiting_queue l)) ≡ false
      → count i (rq p) ≡ 0
  unfolding times_linked
  elsewhere Lane.plain initialized h other = ground (arith, once i, ap (count i) h)
  elsewhere Lane.plain scheduled h other = ground (arith, once i, ap (count i) h)
  elsewhere Lane.plain ready h other = ground (arith, other)
  elsewhere Lane.plain ready_interactive h other = ground (arith, once i, ap (count i) h)
  elsewhere Lane.plain background h other = ground (arith, once i, ap (count i) h)
  elsewhere Lane.plain background_interactive h other = ground (arith, once i, ap (count i) h)
  elsewhere Lane.plain long_background h other = ground (arith, once i, ap (count i) h)
  elsewhere Lane.plain immediate h other = ground (arith, once i, ap (count i) h)
  elsewhere Lane.plain ended h other = ground (arith, once i, ap (count i) h)
  elsewhere Lane.interactive initialized h other = ground (arith, once i, ap (count i) h)
  elsewhere Lane.interactive scheduled h other = ground (arith, once i, ap (count i) h)
  elsewhere Lane.interactive ready h other = ground (arith, once i, ap (count i) h)
  elsewhere Lane.interactive ready_interactive h other = ground (arith, other)
  elsewhere Lane.interactive background h other = ground (arith, once i, ap (count i) h)
  elsewhere Lane.interactive background_interactive h other = ground (arith, once i, ap (count i) h)
  elsewhere Lane.interactive long_background h other = ground (arith, once i, ap (count i) h)
  elsewhere Lane.interactive immediate h other = ground (arith, once i, ap (count i) h)
  elsewhere Lane.interactive ended h other = ground (arith, once i, ap (count i) h)

  after_leaves :
      (l : Lane)
      → rq (waiting_queue l) ≡ i ∷ q
      → joined (running_queue l) i (without i rq) (waiting_queue l) ≡ q
  after_leaves Lane.plain h = ground (arith, h, remove-count_zero i q (rest_without Lane.plain h))
  after_leaves Lane.interactive h =
      ground (arith, h, remove-count_zero i q (rest_without Lane.interactive h))

  after_joins :
      (l : Lane)
      → rq (waiting_queue l) ≡ i ∷ q
      → joined (running_queue l) i (without i rq) (running_queue l)
        ≡ rq (running_queue l) ++ (i ∷ [])
  after_joins Lane.plain h =
      ap (λ xs. xs ++ (i ∷ [])) (remove-count_zero i _ (elsewhere Lane.plain background h refl))
  after_joins Lane.interactive h =
      ap (λ xs. xs ++ (i ∷ []))
        (remove-count_zero i _ (elsewhere Lane.interactive background_interactive h refl))

  after_others :
      (l : Lane) (p : QueueId)
      → rq (waiting_queue l) ≡ i ∷ q
      → (queue_code p == queue_code (waiting_queue l)) ≡ false
      → (queue_code p == queue_code (running_queue l)) ≡ false
      → joined (running_queue l) i (without i rq) p ≡ rq p
  after_others l p h not_waiting not_running =
      rw not_running (remove-count_zero i (rq p) (elsewhere l p h not_waiting))

unlink_returns : (i : ℕ) (w : World) → (unlink_if_linked i w).0 ≡ done tt
unfolding ◌>>=◌ gets pure modify
unlink_returns i w = elim (Bool-cases (is_linked i w)) [
  | inl yes_linked ↦ rw yes_linked refl
  | inr not_linked ↦ rw not_linked refl
]

run_ready-eq :
    (q : QueueId) (i : ℕ) (w : World)
    → run_ready_background q i w ≡ run_activity i (pushed q i (unlinked i w))
unfolding run_ready_background ◌>>=◌ modify
run_ready-eq q i w = rw (unlink_returns i w) (rw (unlink_if_linked-unlinked i w) refl)

-- What one step does with the queues.
pub record Step (l : Lane) (i : ℕ) (q : List ℕ) (w v : World) : Type 0 where
  pub works : CallbacksWork v
  pub once : LinkedOnce v.run_queue
  pub background_same : v.background_level ≡ w.background_level
  pub interactive_same : v.interactive_level ≡ w.interactive_level
  pub begun : has_begun v i ≡ true
  pub still_begun : (j : ℕ) → has_begun w j ≡ true → has_begun v j ≡ true
  pub leaves : v.run_queue (waiting_queue l) ≡ q
  pub joins : v.run_queue (running_queue l) ≡ w.run_queue (running_queue l) ++ (i ∷ [])
  pub others :
      (p : QueueId)
      → (queue_code p == queue_code (waiting_queue l)) ≡ false
      → (queue_code p == queue_code (running_queue l)) ≡ false
      → v.run_queue p ≡ w.run_queue p

Alike-after :
    (l : Lane) (i : ℕ) (w : World)
    → CallbacksWork w
    → let (r, v) = run_ready_background (running_queue l) i w in
      (is_done r ≡ true) × Alike (pushed (running_queue l) i (unlinked i w)) v
unfolding pushed unlinked
Alike-after l i w works =
    let o = pushed (running_queue l) i (unlinked i w) in
    rw (run_ready-eq (running_queue l) i w)
      ((run_activity-Returns o i).returns o (works, refl, refl, refl, λ j h. h))

pub step_lem :
    (l : Lane) (i : ℕ) (q : List ℕ) (w : World)
    → CallbacksWork w
    → LinkedOnce w.run_queue
    → w.run_queue (waiting_queue l) ≡ i ∷ q
    → let (r, v) = run_ready_background (running_queue l) i w in (is_done r ≡ true) × Step l i q w v
unfolding pushed unlinked
step_lem l i q w works once h =
    let (returns, (work, queues, b, n, kept)) = Alike-after l i w works in
    (
      returns,
      record {
        works = work;
        once =
            subst LinkedOnce (sym queues)
              (LinkedOnce-Movable.joins (running_queue l) i w.run_queue once);
        background_same = b;
        interactive_same = n;
        begun =
            rw (run_ready-eq (running_queue l) i w)
              (run_activity-begins i (pushed (running_queue l) i (unlinked i w)) works);
        still_begun = kept;
        leaves =
            ap (λ (rq : Queues). rq (waiting_queue l)) queues
            ∙ after_leaves i q w.run_queue once l h;
        joins =
            ap (λ (rq : Queues). rq (running_queue l)) queues
            ∙ after_joins i q w.run_queue once l h;
        others = λ p a b.
            ap (λ (rq : Queues). rq p) queues ∙ after_others i q w.run_queue once l p h a b;
      },
    )
