-- ===== src/Manager/Queues/Levels.antt =====
-- CheckReadyQueue does not run more background Activities than the levels allow.
use activitymanager.Prelude.{
  ℕ, zero, suc, ◌+◌, ◌≤◌, ◌<◌, ◌≡◌, Bool, true, false, arith, Option, none, some, List, [], ◌∷◌,
  length, remove, refl, length-append, Bool-cases, inl, inr, sym,
}
use mathlib.Core.Path.{subst}
use activitymanager.World.{
  World, QueueId, ready, ready_interactive, background, background_interactive, M, ◌>>=◌, pure,
  gets, change, unlinked, pushed, unlink_if_linked, push_back,
}
use activitymanager.World.Keeps.{
  Keeps, Leads, Leads-bind, Leads-modify, Leads-Keeps, Keeps-bind, Keeps-gets, Keeps-modify,
  Keeps-pure, Keeps-if,
}
use activitymanager.Manager.Run.{
  running_background_count, has_room, front, round, run_ready_background, run_while_room,
  run_all_with_room, check_ready_queue, review_yield_timeout, update_yield_timeout,
  cancel_yield_timeout,
}
use activitymanager.Manager.Queues.Running.{Stable, run_activity-Keeps}
use activitymanager.Manager.Queues.{unlink_if_linked-unlinked}

length-remove : (i : ℕ) (xs : List ℕ) → length (remove i xs) ≤ length xs
length-remove i [] = omega arith
length-remove i (x ∷ xs) = ground (arith, length-remove i xs)

count-unlinked :
    (i : ℕ) (w : World) → running_background_count (unlinked i w) ≤ running_background_count w
unfolding running_background_count unlinked
count-unlinked i w = omega (
  arith,
  length-remove i (w.run_queue background),
  length-remove i (w.run_queue background_interactive),
)

count-pushed_background :
    (i : ℕ) (w : World)
    → running_background_count (pushed background i w) ≡ running_background_count w + 1
unfolding running_background_count pushed
count-pushed_background i w = omega (
  arith,
  length-append (w.run_queue background) (i ∷ []),
  length-append (w.run_queue background_interactive) (i ∷ []),
)

count-pushed_interactive :
    (i : ℕ) (w : World)
    → running_background_count (pushed background_interactive i w) ≡ running_background_count w + 1
unfolding running_background_count pushed
count-pushed_interactive i w = omega (
  arith,
  length-append (w.run_queue background) (i ∷ []),
  length-append (w.run_queue background_interactive) (i ∷ []),
)

-- The two levels are `b` and `l`, and at most `bound` background Activities run.
abbrev pub Levels : ℕ → ℕ → World → Type 0
Levels b l w = (w.background_level ≡ b) × (w.interactive_level ≡ l)

abbrev Within : ℕ → ℕ → ℕ → World → Type 0
Within b l bound w = Levels b l w × (running_background_count w ≤ bound)

module _ (b l bound : ℕ) where
  Within-Stable : Stable (Within b l bound)
  unfolding change running_background_count
  Within-Stable = record { changes = λ i f w h. h; emits = λ e w h. h }

  -- The queue that is joined counts for one more.
  abbrev OneMore : QueueId → Type 0
  OneMore q =
      (i : ℕ) (w : World) → running_background_count (pushed q i w) ≡ running_background_count w + 1

  Below : World → Type 0
  Below w = Levels b l w × (running_background_count w < bound)

  unlink-Below : (i : ℕ) → Leads Below Below (unlink_if_linked i)
  unfolding Below unlinked
  unlink-Below i = record {
    leads = λ w h.
        subst Below (sym (unlink_if_linked-unlinked i w))
          (h.0, omega (arith, h.1, count-unlinked i w));
  }

  push-Within : (q : QueueId) (i : ℕ) → OneMore q → Leads Below (Within b l bound) (push_back q i)
  unfolding Below pushed
  push-Within q i one = Leads-modify (pushed q i) (λ w h. (h.0, omega (arith, h.1, one i w)))

  Below-Within : (w : World) → Below w → Within b l bound w
  unfolding Below
  Below-Within w h = (h.0, omega (arith, h.1))

  room-Below :
      (level : World → ℕ) (w : World)
      → ((w : World) → Levels b l w → (1 ≤ level w) × (level w ≤ bound))
      → Levels b l w
      → has_room (level w) w ≡ true
      → Below w
  unfolding Below
  room-Below level w limit h room = (h, ground (arith, limit w h, room))

  run_ready-Within :
      (q : QueueId) (i : ℕ) → OneMore q → Leads Below (Within b l bound) (run_ready_background q i)
  unfolding run_ready_background
  run_ready-Within q i one =
      Leads-bind _ _ (unlink-Below i)
        (λ _.
          Leads-bind _ _ (push-Within q i one)
            (λ _. Leads-Keeps (run_activity-Keeps Within-Stable i)) (λ w h. h))
        Below-Within

  -- A level that is a limit, and at most the bound.
  abbrev Limit : (World → ℕ) → Type 0
  Limit level = (w : World) → Levels b l w → (1 ≤ level w) × (level w ≤ bound)

  round-Within :
      (ran : Bool) (to : QueueId) (i : Option ℕ) (next : M Bool) (level : World → ℕ) (w : World)
      → OneMore to
      → Limit level
      → Keeps (Within b l bound) next
      → Within b l bound w
      → Within b l bound (round ran (has_room (level w) w) to i next w).1
  unfolding pure
  round-Within ran to none next level w one limit k h = h
  round-Within ran to (some i) next level w one limit k h =
      elim (Bool-cases (has_room (level w) w)) [
        | inl room ↦ rw room (
            (Leads-bind (run_ready_background to i) (λ _. next) (run_ready-Within to i one)
                (λ _. Leads-Keeps k) (λ v g. g)).leads
              w (room-Below level w limit h.0 room))
        | inr full ↦ rw full h
      ]

  loop-Within :
      (rounds : ℕ) (from to : QueueId) (level : World → ℕ) (ran : Bool)
      → OneMore to
      → Limit level
      → Keeps (Within b l bound) (run_while_room rounds from to level ran)
  unfolding run_while_room ◌>>=◌ gets
  loop-Within zero from to level ran one limit = Keeps-pure ran
  loop-Within (suc rounds) from to level ran one limit = record {
    keeps = λ w h.
        round-Within ran to (front (w.run_queue from)) (run_while_room rounds from to level true)
          level w one limit (loop-Within rounds from to level true one limit) h;
  }

  run_all-Within :
      (from to : QueueId) (level : World → ℕ)
      → OneMore to
      → Limit level
      → Keeps (Within b l bound) (run_all_with_room from to level)
  unfolding run_all_with_room
  run_all-Within from to level one limit =
      Keeps-bind _ _ (Keeps-gets _) (λ rounds. loop-Within rounds from to level false one limit)

  arm-Within : Keeps (Within b l bound) update_yield_timeout
  unfolding update_yield_timeout running_background_count
  arm-Within =
      Keeps-bind _ _ (Keeps-gets _)
        (λ n. Keeps-bind _ _ (Keeps-modify _ (λ v h. h)) (λ _. Keeps-modify _ (λ v h. h)))

  review-Within : (ran : Bool) → Keeps (Within b l bound) (review_yield_timeout ran)
  unfolding review_yield_timeout update_yield_timeout cancel_yield_timeout running_background_count
  review-Within ran = Keeps-bind _ _ (Keeps-gets _) (λ w.
      Keeps-if _ _ _ (Keeps-if _ _ _ arm-Within (Keeps-pure _))
        (Keeps-if _ _ _ (Keeps-modify _ (λ v h. h)) (Keeps-pure _)))

-- With both levels set, and neither above the bound: if no more than `bound` background Activities run,
-- then no more than that run after CheckReadyQueue either, also where a callback throws.
pub check_ready_queue-bounded :
    (bound : ℕ) (w : World)
    → 1 ≤ w.background_level
    → w.background_level ≤ bound
    → 1 ≤ w.interactive_level
    → w.interactive_level ≤ bound
    → running_background_count w ≤ bound
    → running_background_count (check_ready_queue w).1 ≤ bound
unfolding check_ready_queue
check_ready_queue-bounded bound w hb hb2 hl hl2 h =
    let b = w.background_level in
    let l = w.interactive_level in
    let all_kept =
      Keeps-bind _ _
        (run_all-Within b l bound ready_interactive background_interactive
          (λ v. v.interactive_level) count-pushed_interactive (λ v e. omega (arith, e.1)))
        (λ ran. Keeps-bind _ _ (review-Within b l bound ran) (λ _.
          Keeps-bind _ _
            (run_all-Within b l bound ready background (λ v. v.background_level)
              count-pushed_background (λ v e. omega (arith, e.0)))
            (λ _. Keeps-pure _))) in
    (all_kept.keeps w ((refl, refl), h)).1
