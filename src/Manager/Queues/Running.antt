-- ===== src/Manager/Queues/Running.antt =====
-- The queues while Activities are run: Manager.Run.
use activitymanager.Prelude.{
  ℕ, zero, suc, Bool, true, false, Option, none, some, List, [], ◌∷◌, ◌++◌,
}
use activitymanager.Types.{Command, Event}
use activitymanager.Activity.{Activity, Callback, PowerActivity, PowerKind, noop, powerd}
use activitymanager.Activity.Events.{event_of}
use activitymanager.World.{World, QueueId, Effect, M, act, update, emit, change}
use activitymanager.World.Keeps.{
  Keeps, Leads-bind, Leads-if, Leads-Keeps, Keeps-Leads, Keeps-gets, Keeps-bind, Keeps-modify,
  keeps_rules,
}
use activitymanager.Manager.Run.{
  do_callback, call_back, broadcast_command, broadcast_as, do_run_activity,
  power_locked_notification, begin_by, request_begin_power_activity, power_or_run, start_running,
  run_activity, run_ready_background, run_while_room, run_all_with_room, round,
  review_yield_timeout, update_yield_timeout, cancel_yield_timeout, check_ready_queue,
  inform_activity_ready, request_run_activity, inform_activity_not_ready, run_if_runnable,
}
use activitymanager.Manager.Queues.{
  Queues, Movable, OnQueues, Away, Away-OnQueues, unlink-Leads, push-Leads, move_keeps,
}

-- The property does not see what is written to an Activity, nor the calls of other parts.
pub record Stable (P : World → Type 0) : Type 0 where
  pub changes : (i : ℕ) (f : Activity → Activity) (w : World) → P w → P (change i f w)
  pub emits : (l : List Effect) (w : World) → P w → P (record w { effects = l })

module _ {P : World → Type 0} (stable : Stable P) where
  pub update-Keeps : (i : ℕ) (f : Activity → Activity) → Keeps P (update i f)
  update-Keeps i f = Keeps-modify (change i f) (stable.changes i f)

  pub emit-Keeps : (e : Effect) → Keeps P (emit e)
  emit-Keeps e = Keeps-modify _ (λ w. stable.emits (w.effects ++ (e ∷ [])) w)

  ruleset own_rules = (keeps_rules, update-Keeps, emit-Keeps)

  call_back-Keeps : (i : ℕ) (c : Option Callback) → Keeps P (call_back i c)
  call_back-Keeps i none = search own_rules
  call_back-Keeps i (some c) = search own_rules

  do_callback-Keeps : (i : ℕ) → Keeps P (do_callback i)
  unfolding do_callback
  do_callback-Keeps i = Keeps-bind (act i) _ (Keeps-gets _) (λ a. call_back-Keeps i a.callback)

  broadcast_as-Keeps : (i : ℕ) (c : Command) (e : Option Event) → Keeps P (broadcast_as i c e)
  broadcast_as-Keeps i c none = search own_rules
  broadcast_as-Keeps i c (some e) = search own_rules

  pub broadcast_command-Keeps : (i : ℕ) (c : Command) → Keeps P (broadcast_command i c)
  unfolding broadcast_command
  broadcast_command-Keeps i c = broadcast_as-Keeps i c (event_of c)

  do_run_activity-Keeps : (i : ℕ) → Keeps P (do_run_activity i)
  unfolding do_run_activity
  do_run_activity-Keeps i = search (own_rules, broadcast_command-Keeps, do_callback-Keeps)

  pub power_locked_notification-Keeps : (i : ℕ) → Keeps P (power_locked_notification i)
  unfolding power_locked_notification
  power_locked_notification-Keeps i = search (own_rules, do_run_activity-Keeps)

  begin_by-Keeps : (i : ℕ) (k : PowerKind) (p : PowerActivity) → Keeps P (begin_by i k p)
  begin_by-Keeps i noop p = search (own_rules, power_locked_notification-Keeps)
  begin_by-Keeps i powerd p = search own_rules

  request_begin-Keeps : (i : ℕ) (p : PowerActivity) → Keeps P (request_begin_power_activity i p)
  unfolding request_begin_power_activity
  request_begin-Keeps i p = search (own_rules, begin_by-Keeps, power_locked_notification-Keeps)

  power_or_run-Keeps : (i : ℕ) (p : Option PowerActivity) → Keeps P (power_or_run i p)
  power_or_run-Keeps i none = do_run_activity-Keeps i
  power_or_run-Keeps i (some p) = search (own_rules, request_begin-Keeps, do_run_activity-Keeps)

  start_running-Keeps : (i : ℕ) → Keeps P (start_running i)
  unfolding start_running
  start_running-Keeps i = search (own_rules, power_or_run-Keeps)

  pub run_activity-Keeps : (i : ℕ) → Keeps P (run_activity i)
  unfolding run_activity
  run_activity-Keeps i = search (own_rules, start_running-Keeps)

-- A property of the queues alone does not see them either.
module _ {R : Queues → Type 0} (movable : Movable R) where
  pub on_queues : Stable (OnQueues movable)
  unfolding change
  on_queues = record { changes = λ i f w h. h; emits = λ l w h. h }

  away : (i : ℕ) → Stable (Away movable i)
  unfolding change
  away i = record { changes = λ j f w h. h; emits = λ l w h. h }

  pub run_ready_background-Keeps :
      (q : QueueId) (i : ℕ) → Keeps (OnQueues movable) (run_ready_background q i)
  unfolding run_ready_background
  run_ready_background-Keeps q i = Keeps-Leads (
      Leads-bind _ _ (unlink-Leads movable i)
        (λ _.
          Leads-bind _ _ (push-Leads movable q i)
            (λ _. Leads-Keeps (run_activity-Keeps on_queues i)) (λ w h. h))
        (Away-OnQueues movable i))

  round-Keeps :
      (ran room : Bool) (to : QueueId) (i : Option ℕ) (next : M Bool)
      → Keeps (OnQueues movable) next
      → Keeps (OnQueues movable) (round ran room to i next)
  round-Keeps ran room to none next k = search keeps_rules
  round-Keeps ran room to (some i) next k = search (keeps_rules, run_ready_background-Keeps)

  run_while_room-Keeps :
      (rounds : ℕ) (from to : QueueId) (level : World → ℕ) (ran : Bool)
      → Keeps (OnQueues movable) (run_while_room rounds from to level ran)
  unfolding run_while_room
  run_while_room-Keeps zero from to level ran = search keeps_rules
  run_while_room-Keeps (suc rounds) from to level ran =
      Keeps-bind _ _ (Keeps-gets _)
        (λ w. round-Keeps ran _ to _ _ (run_while_room-Keeps rounds from to level true))

  run_all_with_room-Keeps :
      (from to : QueueId) (level : World → ℕ)
      → Keeps (OnQueues movable) (run_all_with_room from to level)
  unfolding run_all_with_room
  run_all_with_room-Keeps from to level =
      Keeps-bind _ _ (Keeps-gets _) (λ rounds. run_while_room-Keeps rounds from to level false)

  pub update_yield_timeout-Keeps : Keeps (OnQueues movable) update_yield_timeout
  unfolding update_yield_timeout
  update_yield_timeout-Keeps =
      Keeps-bind _ _ (Keeps-gets _)
        (λ n. Keeps-bind _ _ (Keeps-modify _ (λ w h. h)) (λ _. Keeps-modify _ (λ w h. h)))

  pub cancel_yield_timeout-Keeps : Keeps (OnQueues movable) cancel_yield_timeout
  unfolding cancel_yield_timeout
  cancel_yield_timeout-Keeps = Keeps-modify _ (λ w h. h)

  review-Keeps : (ran : Bool) → Keeps (OnQueues movable) (review_yield_timeout ran)
  unfolding review_yield_timeout
  review-Keeps ran = search (keeps_rules, update_yield_timeout-Keeps, cancel_yield_timeout-Keeps)

  pub check_ready_queue-Keeps : Keeps (OnQueues movable) check_ready_queue
  unfolding check_ready_queue
  check_ready_queue-Keeps = search (keeps_rules, run_all_with_room-Keeps, review-Keeps)

  pub inform_activity_ready-Keeps : (i : ℕ) → Keeps (OnQueues movable) (inform_activity_ready i)
  unfolding inform_activity_ready
  inform_activity_ready-Keeps i = Keeps-Leads (
      Leads-bind _ _ (unlink-Leads movable i)
        (λ _.
          Leads-bind _ _ (Leads-Keeps (Keeps-gets _))
            (λ a.
              Leads-if _ _ _
                (Leads-bind _ _ (push-Leads movable _ i)
                  (λ _. Leads-Keeps (run_activity-Keeps on_queues i)) (λ w h. h))
                (Leads-bind _ _ (push-Leads movable _ i) (λ _. Leads-Keeps check_ready_queue-Keeps)
                  (λ w h. h)))
            (Away-OnQueues movable i))
        (Away-OnQueues movable i))

  pub request_run_activity-Keeps : (i : ℕ) → Keeps (OnQueues movable) (request_run_activity i)
  unfolding request_run_activity
  request_run_activity-Keeps i =
      Keeps-bind _ _ (update-Keeps on_queues i _) (λ _. inform_activity_ready-Keeps i)

  pub inform_activity_not_ready-Keeps :
      (i : ℕ) → Keeps (OnQueues movable) (inform_activity_not_ready i)
  unfolding inform_activity_not_ready
  inform_activity_not_ready-Keeps i = Keeps-Leads (move_keeps movable _ i)

  pub run_if_runnable-Keeps : (i : ℕ) → Keeps (OnQueues movable) (run_if_runnable i)
  unfolding run_if_runnable
  run_if_runnable-Keeps i = search (keeps_rules, request_run_activity-Keeps)
