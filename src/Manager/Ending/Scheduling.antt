-- ===== src/Manager/Ending/Scheduling.antt =====
-- Scheduling an Activity leaves the commands alone.
use activitymanager.Prelude.{
  ℕ, ◌≡◌, refl, ap, sym, ◌∙◌, Bool, Bool-cases, inl, inr, ==_eq, Option, none, some, List, [], ◌∷◌,
  ◌==◌,
}
use activitymanager.Prelude.Int.{ℤ}
use activitymanager.Types.{Command}
use activitymanager.Schedule.{Schedule}
use activitymanager.Scheduler.{Scheduler}
use activitymanager.World.{World, scheduled, initialized, U, update, change, set_act, M}
use activitymanager.Activity.{Activity}
use activitymanager.World.Keeps.{Keeps, Keeps-gets, Keeps-bind, Keeps-modify, Keeps-if, keeps_rules}
use activitymanager.Manager.Timing.{
  change_scheduler, change_schedule, schedule_comes_up, process_round, process_queue, with_queue,
  dequeue_and_update_timeout, add_item, remove_item, unqueue_schedule, queue_schedule, queue_if_any,
  schedule_activity, inform_activity_initialized, request_schedule_activity,
}
use activitymanager.Manager.Ending.Frames.{
  Steady, update-Keeps, unlink-Keeps, push-Keeps, when-Keeps, request_run_activity-Keeps,
  run_if_runnable-Keeps,
}

-- A property that does not see the Scheduler either.
module _ {P : World → Type 0} (steady : Steady P)
    (reschedules : (w : World) (s : Scheduler) → P w → P (record w { scheduler = s }))
    (rewrites : (i : ℕ) (f : Schedule → Schedule) (w : World)
      → P w
      → P (change i (change_schedule f) w)) where
  change_scheduler-Keeps : (f : World → Scheduler → Scheduler) → Keeps P (change_scheduler f)
  change_scheduler-Keeps f = Keeps-modify _ (λ w. reschedules w (f w w.scheduler))

  change_schedule-Keeps : (i : ℕ) (f : Schedule → Schedule) → Keeps P (update i (change_schedule f))
  change_schedule-Keeps i f = Keeps-modify _ (rewrites i f)

  ruleset own_rules = (keeps_rules, change_scheduler-Keeps, change_schedule-Keeps)

  schedule_comes_up-Keeps : (i : ℕ) → Keeps P (schedule_comes_up i)
  unfolding schedule_comes_up
  schedule_comes_up-Keeps i =
      Keeps-bind _ _ (change_schedule-Keeps i _) (λ _. run_if_runnable-Keeps steady i)

  process_round-Keeps :
      (up : Bool) (i : ℕ) (rest : List ℕ) (next : M U)
      → Keeps P next
      → Keeps P (process_round up i rest next)
  process_round-Keeps up i rest next k = search own_rules

  process_queue-Keeps : (local : Bool) (now : ℤ) (q : List ℕ) → Keeps P (process_queue local now q)
  unfolding process_queue
  process_queue-Keeps local now [] = search keeps_rules
  process_queue-Keeps local now (i ∷ rest) = Keeps-bind _ _ (Keeps-gets _) (λ later.
      process_round-Keeps _ i rest _ (
        Keeps-bind _ _ (change_scheduler-Keeps (λ w. with_queue local rest)) (λ _.
          Keeps-bind _ _ (schedule_comes_up-Keeps i) (λ _. process_queue-Keeps local now rest))))

  dequeue-Keeps : Keeps P dequeue_and_update_timeout
  unfolding dequeue_and_update_timeout
  dequeue-Keeps = search (own_rules, process_queue-Keeps) depth 12

  add_item-Keeps : (i : ℕ) (local : Bool) → Keeps P (add_item i local)
  unfolding add_item
  add_item-Keeps i local = search (own_rules, dequeue-Keeps)

  remove_item-Keeps : (i : ℕ) (local : Bool) → Keeps P (remove_item i local)
  unfolding remove_item
  remove_item-Keeps i local = search (own_rules, dequeue-Keeps)

  unqueue_schedule-Keeps : (i : ℕ) (s : Schedule) → Keeps P (unqueue_schedule i s)
  unfolding unqueue_schedule
  unqueue_schedule-Keeps i s = search (own_rules, remove_item-Keeps)

  queue_schedule-Keeps : (i : ℕ) (s : Schedule) → Keeps P (queue_schedule i s)
  unfolding queue_schedule
  queue_schedule-Keeps i s = search (own_rules, add_item-Keeps, unqueue_schedule-Keeps) depth 12

  queue_if_any-Keeps : (i : ℕ) (s : Option Schedule) → Keeps P (queue_if_any i s)
  queue_if_any-Keeps i none = search own_rules
  queue_if_any-Keeps i (some s) = queue_schedule-Keeps i s

  schedule_activity-Keeps : (i : ℕ) → Keeps P (schedule_activity i)
  unfolding schedule_activity
  schedule_activity-Keeps i =
      Keeps-bind _ _ (update-Keeps steady i _ (λ a. (refl, refl, refl))) (λ _.
        Keeps-bind _ _ (Keeps-gets _) (λ a. Keeps-bind _ _ (queue_if_any-Keeps i a.schedule) (λ _.
          Keeps-bind _ _ (update-Keeps steady i _ (λ a. (refl, refl, refl))) (λ _.
            Keeps-bind _ _ (Keeps-gets _)
              (λ b. when-Keeps steady _ _ (request_run_activity-Keeps steady i))))))

  inform_activity_initialized-Keeps : (i : ℕ) → Keeps P (inform_activity_initialized i)
  unfolding inform_activity_initialized
  inform_activity_initialized-Keeps i = Keeps-bind _ _ (unlink-Keeps steady i) (λ _.
      Keeps-bind _ _ (Keeps-gets _) (λ enabled.
        Keeps-if enabled _ _
          (Keeps-bind _ _ (push-Keeps steady scheduled i) (λ _. schedule_activity-Keeps i))
          (push-Keeps steady initialized i)))

  pub request_schedule_activity-Keeps : (i : ℕ) → Keeps P (request_schedule_activity i)
  unfolding request_schedule_activity
  request_schedule_activity-Keeps i =
      Keeps-bind _ _ (update-Keeps steady i _ (λ a. (refl, refl, refl)))
        (λ _. inform_activity_initialized-Keeps i)

-- No command stands.
abbrev pub HasNoCommand : ℕ → World → Type 0
HasNoCommand i w = ((w.acts i).int_command ≡ Command.none) × ((w.acts i).ext_command ≡ Command.none)

HasNoCommand-change :
    (i j : ℕ) (f : Activity → Activity)
    → ((a : Activity) → ((f a).int_command ≡ a.int_command) × ((f a).ext_command ≡ a.ext_command))
    → (w : World) → HasNoCommand i w
    → HasNoCommand i (change j f w)
unfolding change set_act
HasNoCommand-change i j f m w (p, q) = elim (Bool-cases (i == j)) [
  | inl e ↦ rw e (
    (m (w.acts j)).0 ∙ (ap (λ k. (w.acts k).int_command) (sym (==_eq i j e)) ∙ p),
    (m (w.acts j)).1 ∙ (ap (λ k. (w.acts k).ext_command) (sym (==_eq i j e)) ∙ q),
  )
  | inr e ↦ rw e (p, q)
]

HasNoCommand-Steady : (i : ℕ) → Steady (HasNoCommand i)
HasNoCommand-Steady i = record {
  changes = λ j f m w h. HasNoCommand-change i j f (λ a. ((m a).0, (m a).1)) w h;
  others = λ v w a s (p, q). (ap (λ g. (g i).int_command) a ∙ p, ap (λ g. (g i).ext_command) a ∙ q);
}

pub request_schedule_activity-HasNoCommand :
    (i j : ℕ) → Keeps (HasNoCommand i) (request_schedule_activity j)
request_schedule_activity-HasNoCommand i j =
    request_schedule_activity-Keeps (HasNoCommand-Steady i) (λ w s h. h)
      (λ k f w h. HasNoCommand-change i k (change_schedule f) (λ a. (refl, refl)) w h) j
