-- ===== src/Manager/Timing/Waking.antt =====
-- The wake-up that DequeueAndUpdateTimeout leaves, whether it returns or an Activity's callback throws.
use activitymanager.Prelude.{
  ℕ, ◌≡◌, refl, ap, sym, ◌∙◌, Bool, true, false, Bool-cases, inl, inr, List, [], ◌∷◌, ◌++◌, All,
  arith,
}
use mathlib.Core.Path.{subst}
use activitymanager.Prelude.Int.{ℤ, ◌+ℤ◌, ◌<ℤ◌}
use activitymanager.Scheduler.{Scheduler, is_idle, update_wake}
use activitymanager.Scheduler.Order.{IsSorted}
use activitymanager.Scheduler.Wakeup.{
  LaterThan, WakesInTime, update_wake-WakesInTime, cancel_wake-WakesInTime,
}
use activitymanager.World.{
  World, Outcome, done, raised, M, U, gets, ◌>>=◌, ◌>>◌, modify, onward, pure, when,
}
use activitymanager.World.Returns.{is_done}
use activitymanager.Manager.Timing.{
  start_of, change_scheduler, with_queue, process_queue, dequeue_and_update_timeout,
}
use activitymanager.Manager.Timing.Due.{Taken, process_queue-Taken}

later-IsSorted :
    (f : ℕ → ℤ) (up later q : List ℕ) → q ≡ up ++ later → IsSorted f q → IsSorted f later
later-IsSorted f up later q e s = behind up (subst (IsSorted f) e s)
  where
    behind : (up : List ℕ) → IsSorted f (up ++ later) → IsSorted f later
    behind [] s = s
    behind (i ∷ up) s = behind up s.1

-- What both runs of ProcessQueue leave.
record Told (w : World) (r : Outcome U) (x : World) : Type 0 where
  queues : Scheduler
  left : x.scheduler ≡ queues
  starts : start_of x ≡ start_of w
  same_wake : queues.wake_scheduled ≡ w.scheduler.wake_scheduled
  same_next : queues.next_wakeup ≡ w.scheduler.next_wakeup
  global_sorted : IsSorted (start_of w) queues.queue
  local_sorted : IsSorted (start_of w) queues.local_queue
  later : is_done r ≡ true → LaterThan (start_of w) w.clock queues

-- If it has returned, the wake-up is right; where a callback has thrown, it is as it was.
abbrev pub Woken : World → Outcome U × World → Type 0
Woken w (r, v) =
    (is_done r ≡ true → WakesInTime (start_of v) w.clock v.scheduler)
    × (is_done r ≡ false
        → (v.scheduler.wake_scheduled ≡ w.scheduler.wake_scheduled)
          × (v.scheduler.next_wakeup ≡ w.scheduler.next_wakeup))

abbrev sets_wake : M U
sets_wake = change_scheduler (λ w. update_wake (start_of w))

finish :
    (w : World) (r : Outcome U) (x : World) → Told w r x → Woken w (onward r (λ u. sets_wake) x)
unfolding modify start_of
finish w (done u) x t = (
  λ d.
      subst (λ f. WakesInTime f w.clock (update_wake f x.scheduler)) (sym t.starts)
        (subst (λ s. WakesInTime (start_of w) w.clock (update_wake (start_of w) s)) (sym t.left)
          (update_wake-WakesInTime (start_of w) w.clock t.queues t.global_sorted t.local_sorted
            (t.later refl))),
  λ d. absurd (ground (arith, d)),
)
finish w (raised e) x t = (
  λ d. absurd (ground (arith, d)),
  λ d. (
    ap (λ (s : Scheduler). s.wake_scheduled) t.left ∙ t.same_wake,
    ap (λ (s : Scheduler). s.next_wakeup) t.left ∙ t.same_next,
  ),
)

module _ (w v : World) (r : Outcome U) (t : Taken false w.clock w.scheduler.queue w r v)
    (sorted : IsSorted (start_of w) w.scheduler.queue)
    (local_sorted : IsSorted (start_of w) w.scheduler.local_queue) where
  Told-global : is_done r ≡ true → w.scheduler.local_offset_set ≡ false → Told w (done tt) v
  Told-global e unset = record {
    queues = with_queue false t.later w.scheduler;
    left = t.left;
    starts = t.starts;
    same_wake = refl;
    same_next = refl;
    global_sorted = later-IsSorted (start_of w) t.up t.later w.scheduler.queue t.parts sorted;
    local_sorted = local_sorted;
    later = λ d. (t.rest e, λ set. absurd (ground (arith, set, unset)));
  }

  Told-both :
      (s : Outcome U) (x : World)
      → is_done r ≡ true
      → Taken true (w.clock +ℤ v.scheduler.local_offset) v.scheduler.local_queue v s x
      → Told w s x
  Told-both s x d u = record {
    queues = with_queue true u.later (with_queue false t.later w.scheduler);
    left = u.left ∙ ap (with_queue true u.later) t.left;
    starts = u.starts ∙ t.starts;
    same_wake = refl;
    same_next = refl;
    global_sorted = later-IsSorted (start_of w) t.up t.later w.scheduler.queue t.parts sorted;
    local_sorted =
        later-IsSorted (start_of w) u.up u.later w.scheduler.local_queue
          (sym (ap (λ (s : Scheduler). s.local_queue) t.left) ∙ u.parts) local_sorted;
    later = λ e. (
      t.rest d,
      λ set.
          subst (λ f. All (λ i. (w.clock +ℤ w.scheduler.local_offset) <ℤ f i) u.later) t.starts
            (subst (λ o. All (λ i. (w.clock +ℤ o) <ℤ start_of v i) u.later)
              (ap (λ (s : Scheduler). s.local_offset) t.left) (u.rest e)),
    );
  }

  -- What follows the first run.
  abbrev then_local : U → M U
  then_local u = do
    y ← gets (λ w. w)
    when y.scheduler.local_offset_set
        (process_queue true (w.clock +ℤ y.scheduler.local_offset) y.scheduler.local_queue)
    sets_wake

  local-IsSorted_then : IsSorted (start_of v) v.scheduler.local_queue
  local-IsSorted_then =
      subst (λ l. IsSorted (start_of v) l) (sym (ap (λ (s : Scheduler). s.local_queue) t.left))
        (subst (λ f. IsSorted f w.scheduler.local_queue) (sym t.starts) local_sorted)

  abbrev local_run : M U
  local_run = process_queue true (w.clock +ℤ v.scheduler.local_offset) v.scheduler.local_queue

  if_known-Woken :
      (known : Bool)
      → v.scheduler.local_offset_set ≡ known
      → is_done r ≡ true
      → Woken w ((when known local_run >> sets_wake) v)
  unfolding ◌>>=◌ pure
  if_known-Woken true set d = finish w (local_run v).0 (local_run v).1 (
      Told-both (local_run v).0 (local_run v).1 d (
        process_queue-Taken true (w.clock +ℤ v.scheduler.local_offset) v.scheduler.local_queue v
          refl local-IsSorted_then))
  if_known-Woken false unset d =
      finish w (done tt) v
        (Told-global d (sym (ap (λ (s : Scheduler). s.local_offset_set) t.left) ∙ unset))

  then_local-Woken : is_done r ≡ true → Woken w (then_local tt v)
  unfolding ◌>>=◌ gets
  then_local-Woken d = if_known-Woken v.scheduler.local_offset_set refl d

  after_global : (s : Outcome U) → s ≡ r → Woken w (onward s then_local v)
  after_global (done u) e = then_local-Woken (sym (ap is_done e))
  after_global (raised f) e = (
    λ d. absurd (ground (arith, d)),
    λ d. (
      ap (λ (s : Scheduler). s.wake_scheduled) t.left,
      ap (λ (s : Scheduler). s.next_wakeup) t.left,
    ),
  )

-- DequeueAndUpdateTimeout on sorted queues: if it returns, a wake-up is set exactly when some item can still come
-- up, and it is then later than the time at which the call was made and no later than the start of any such item in
-- global time; where a callback throws, the wake-up is left as it was.
pub dequeue_and_update_timeout-Woken :
    (w : World)
    → IsSorted (start_of w) w.scheduler.queue
    → IsSorted (start_of w) w.scheduler.local_queue
    → Woken w (dequeue_and_update_timeout w)
unfolding dequeue_and_update_timeout ◌>>=◌ gets modify start_of
dequeue_and_update_timeout-Woken w sorted local_sorted = elim (Bool-cases (is_idle w.scheduler)) [
  | inl idle ↦ rw idle (
    λ d. cancel_wake-WakesInTime (start_of w) w.clock w.scheduler idle,
    λ d. absurd (ground (arith, d)),
  )
  | inr busy ↦ rw busy (
      let first = process_queue false w.clock w.scheduler.queue w in
      after_global w first.1 first.0
        (process_queue-Taken false w.clock w.scheduler.queue w refl sorted) sorted local_sorted
        first.0 refl)
]
