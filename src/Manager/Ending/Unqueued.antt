-- ===== src/Manager/Ending/Unqueued.antt =====
-- Taking a schedule off the Scheduler's queues leaves the Activity off them, also where others come up.
use activitymanager.Prelude.{
  ℕ, ◌≡◌, refl, ap, ◌∙◌, Bool, true, false, Bool-cases, not, inl, inr, ◌⊎◌, ◌||◌, Option, none,
  some, List, [], ◌∷◌, contains, arith, remove, ◌==◌, if◌then◌else◌,
}
use activitymanager.Prelude.Int.{ℤ, eqb_ℤ}
use activitymanager.Schedule.{Schedule}
use activitymanager.Scheduler.{
  Scheduler, cancel_wake, update_wake, set_wake, is_idle, get_next_start_time,
}
use activitymanager.World.{update, World, change, modify, gets, ◌>>=◌, M, pure}
use activitymanager.World.Keeps.{
  Keeps, Keeps-gets, Keeps-bind, Keeps-modify, Keeps-if, keeps_rules, Leads, Leads-bind,
  Leads-Keeps,
}
use activitymanager.Manager.Timing.{
  schedule_comes_up, process_queue, with_queue, queue_of, is_queued, dequeue_and_update_timeout,
  remove_item, is_front, unqueue_schedule,
}
use activitymanager.Activity.{Activity}
use activitymanager.Manager.Ending.{unqueue_if_queued}
use activitymanager.Manager.Ending.Frames.{Steady, when-Keeps, run_if_runnable-Keeps}

-- The Activity is in no queue of the Scheduler.
abbrev pub NotQueued : ℕ → World → Type 0
NotQueued i w = is_queued i w.scheduler ≡ false

NotQueued-Steady : (i : ℕ) → Steady (NotQueued i)
unfolding change
NotQueued-Steady i = record {
  changes = λ j f m w h. h;
  others = λ v w a s h. ap (is_queued i) s ∙ h;
}

update-NotQueued : (i j : ℕ) (f : Activity → Activity) → Keeps (NotQueued i) (update j f)
unfolding change
update-NotQueued i j f = Keeps-modify _ (λ w h. h)

-- What is read is of the state that the property holds of.
read-Keeps :
    {P : World → Type 0} {A : Type 0} (f : World → M A)
    → ((w : World) → P w → Keeps P (f w))
    → Keeps P (gets (λ w. w) >>= f)
unfolding ◌>>=◌ gets
read-Keeps f k = record { keeps = λ w h. (k w h).keeps w h }

not_either : (a b : Bool) → (a || b) ≡ false → (a ≡ false) × (b ≡ false)
not_either a b h = ground (arith, h)

process_queue-NotQueued :
    (i : ℕ) (local : Bool) (now : ℤ) (q : List ℕ)
    → contains i q ≡ false
    → Keeps (NotQueued i) (process_queue local now q)
unfolding process_queue schedule_comes_up
process_queue-NotQueued i local now [] h = search keeps_rules
process_queue-NotQueued i local now (j ∷ rest) h = Keeps-bind _ _ (Keeps-gets _) (λ later.
    when-Keeps (NotQueued-Steady i) _ _ (
      Keeps-bind _ _ (Keeps-modify _ (λ w. taken local w.scheduler)) (λ _.
        Keeps-bind _ _
          (Keeps-bind _ _ (update-NotQueued i j _)
            (λ _. run_if_runnable-Keeps (NotQueued-Steady i) j))
          (λ _.
            process_queue-NotQueued i local now rest (not_either (j == i) (contains i rest) h).1))))
  where
    taken :
        (local : Bool) (s : Scheduler)
        → is_queued i s ≡ false
        → is_queued i (with_queue local rest s) ≡ false
    taken false s g =
        rw (not_either (j == i) (contains i rest) h).1
          ((not_either (contains i s.queue) (contains i s.local_queue) g).1)
    taken true s g =
        rw (not_either (contains i s.queue) (contains i s.local_queue) g).0
          ((not_either (j == i) (contains i rest) h).1)

update_wake-NotQueued :
    (i : ℕ) (start_of : ℕ → ℤ) (s : Scheduler)
    → is_queued i (update_wake start_of s) ≡ is_queued i s
unfolding update_wake cancel_wake
update_wake-NotQueued i start_of s =
    same_if (is_idle s) (cancel_wake s) (set_wake (get_next_start_time start_of s) s) refl
      (set_wake_same (get_next_start_time start_of s))
  where
    same_if :
        (b : Bool) (x y : Scheduler)
        → is_queued i x ≡ is_queued i s
        → is_queued i y ≡ is_queued i s
        → is_queued i (if b then x else y) ≡ is_queued i s
    same_if true x y h k = h
    same_if false x y h k = k

    set_wake_same : (o : Option ℤ) → is_queued i (set_wake o s) ≡ is_queued i s
    set_wake_same none = refl
    set_wake_same (some t) =
        same_if (not s.wake_scheduled || not (eqb_ℤ t s.next_wakeup))
          (record s { next_wakeup = t; wake_scheduled = true }) s refl refl

dequeue-NotQueued : (i : ℕ) → Keeps (NotQueued i) dequeue_and_update_timeout
unfolding dequeue_and_update_timeout cancel_wake
dequeue-NotQueued i = read-Keeps _ (λ w h. Keeps-if _ _ _ (Keeps-modify _ (λ v g. g)) (
    Keeps-bind _ _
      (process_queue-NotQueued i false _ _
        (not_either (contains i w.scheduler.queue) (contains i w.scheduler.local_queue) h).0)
      (λ _. read-Keeps _ (λ v g.
        Keeps-bind _ _
          (when-Keeps (NotQueued-Steady i) _ _ (
            process_queue-NotQueued i true _ _
              (not_either (contains i v.scheduler.queue) (contains i v.scheduler.local_queue) g).1))
          (λ _. Keeps-modify _ (λ u k. update_wake-NotQueued i _ u.scheduler ∙ k))))))

contains-remove_self : (i : ℕ) (q : List ℕ) → contains i (remove i q) ≡ false
contains-remove_self i [] = refl
contains-remove_self i (j ∷ q) = ground (arith, contains-remove_self i q)

remove_item-NotQueued :
    (i : ℕ) (local : Bool) → Leads (λ w. Unit {0}) (NotQueued i) (remove_item i local)
unfolding remove_item ◌>>=◌ gets modify pure
remove_item-NotQueued i local = record { leads = λ w u. by_queued w (is_queued i w.scheduler) refl }
  where
    taken_out :
        (w : World)
        → NotQueued i (record w {
          scheduler = record w.scheduler {
            queue = remove i w.scheduler.queue;
            local_queue = remove i w.scheduler.local_queue;
          };
        })
    taken_out w =
        rw (contains-remove_self i w.scheduler.queue)
          (contains-remove_self i w.scheduler.local_queue)

    by_queued :
        (w : World) (b : Bool) → is_queued i w.scheduler ≡ b → NotQueued i (remove_item i local w).1
    by_queued w true e = rw e (
        (when-Keeps (NotQueued-Steady i) (is_front i (queue_of local w.scheduler)) _
            (dequeue-NotQueued i)).keeps
          _ (taken_out w))
    by_queued w false e = rw e e

-- After the schedule of an Activity has been taken off the queues, they do not have the Activity, unless it has no
-- schedule.
abbrev pub NothingQueued : ℕ → World → Type 0
NothingQueued i w = ((w.acts i).schedule ≡ none) ⊎ NotQueued i w

unqueue_schedule-NotQueued :
    (i : ℕ) (s : Schedule) → Leads (λ w. Unit {0}) (NotQueued i) (unqueue_schedule i s)
unfolding unqueue_schedule
unqueue_schedule-NotQueued i s =
    Leads-bind _ _ (remove_item-NotQueued i s.local) (λ _. Leads-Keeps (update-NotQueued i i _))
      (λ w h. h)

pub unqueue_if_queued-NotQueued :
    (i : ℕ) (s : Schedule) (w : World) → NotQueued i (unqueue_if_queued i (some s) w).1
unfolding ◌>>=◌ gets pure
unqueue_if_queued-NotQueued i s w = elim (Bool-cases (is_queued i w.scheduler)) [
  | inl e ↦ rw e ((unqueue_schedule-NotQueued i s).leads w tt)
  | inr e ↦ rw e e
]
