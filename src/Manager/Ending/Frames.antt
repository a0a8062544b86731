-- ===== src/Manager/Ending/Frames.antt =====
-- What running and scheduling Activities leave alone: their commands and schedules, and, but for the Scheduler's own calls, its
-- queues.
use activitymanager.Prelude.{ℕ, zero, suc, ◌≡◌, refl, Bool, true, false, Option, none, some}
use activitymanager.Types.{Command, Event}
use activitymanager.Activity.{
  Activity, Callback, PowerActivity, PowerKind, noop, powerd, locked, unknown,
}
use activitymanager.Activity.Events.{event_of, broadcast_command_as, broadcast_event}
use activitymanager.World.{
  World, QueueId, Effect, M, U, act, update, emit, change, modify, unlinked, pushed,
  unlink_if_linked, push_back, when,
}
use activitymanager.World.Keeps.{Keeps, Keeps-gets, Keeps-bind, Keeps-modify, keeps_rules}
use activitymanager.Manager.Run.{
  do_callback, call_back, broadcast_command, broadcast_as, do_run_activity, set_power,
  power_locked_notification, begin_by, request_begin_power_activity, power_or_run, start_running,
  run_activity, run_ready_background, run_while_room, run_all_with_room, round,
  review_yield_timeout, update_yield_timeout, cancel_yield_timeout, check_ready_queue,
  inform_activity_ready, request_run_activity, run_if_runnable,
}

-- A write that leaves the commands and the schedule.
abbrev pub IsModest : (Activity → Activity) → Type 0
IsModest f =
    (a : Activity)
    → ((f a).int_command ≡ a.int_command)
      × ((f a).ext_command ≡ a.ext_command)
      × ((f a).schedule ≡ a.schedule)

-- The property does not see modest writes to Activities, nor anything but them and the Scheduler.
pub record Steady (P : World → Type 0) : Type 0 where
  pub changes :
      (i : ℕ) (f : Activity → Activity) → IsModest f → (w : World) → P w → P (change i f w)
  pub others : (v w : World) → v.acts ≡ w.acts → v.scheduler ≡ w.scheduler → P w → P v

module _ {P : World → Type 0} (steady : Steady P) where
  pub update-Keeps : (i : ℕ) (f : Activity → Activity) → IsModest f → Keeps P (update i f)
  update-Keeps i f m = Keeps-modify (change i f) (steady.changes i f m)

  pub emit-Keeps : (e : Effect) → Keeps P (emit e)
  emit-Keeps e = Keeps-modify _ (λ w. steady.others _ w refl refl)

  unlinked-Keeps : (i : ℕ) → Keeps P (modify (unlinked i))
  unfolding unlinked
  unlinked-Keeps i = Keeps-modify _ (λ w. steady.others _ w refl refl)

  pub unlink-Keeps : (i : ℕ) → Keeps P (unlink_if_linked i)
  unlink-Keeps i = search (keeps_rules, unlinked-Keeps)

  pub push-Keeps : (q : QueueId) (i : ℕ) → Keeps P (push_back q i)
  unfolding pushed
  push-Keeps q i = Keeps-modify _ (λ w. steady.others _ w refl refl)

  pub when-Keeps : (b : Bool) (m : M U) → Keeps P m → Keeps P (when b m)
  when-Keeps b m k = search keeps_rules

  ruleset own_rules = (keeps_rules, emit-Keeps, unlink-Keeps, push-Keeps)

  call_back-Keeps : (i : ℕ) (c : Option Callback) → Keeps P (call_back i c)
  call_back-Keeps i none = search own_rules
  call_back-Keeps i (some c) = search own_rules

  do_callback-Keeps : (i : ℕ) → Keeps P (do_callback i)
  unfolding do_callback
  do_callback-Keeps i = Keeps-bind (act i) _ (Keeps-gets _) (λ a. call_back-Keeps i a.callback)

  broadcast_as-Keeps : (i : ℕ) (c : Command) (e : Option Event) → Keeps P (broadcast_as i c e)
  unfolding broadcast_command_as broadcast_event
  broadcast_as-Keeps i c none = search own_rules
  broadcast_as-Keeps i c (some e) = update-Keeps i _ (λ a. (refl, refl, refl))

  broadcast_command-Keeps : (i : ℕ) (c : Command) → Keeps P (broadcast_command i c)
  unfolding broadcast_command
  broadcast_command-Keeps i c = broadcast_as-Keeps i c (event_of c)

  do_run_activity-Keeps : (i : ℕ) → Keeps P (do_run_activity i)
  unfolding do_run_activity
  do_run_activity-Keeps i = search (own_rules, broadcast_command-Keeps, do_callback-Keeps)

  power_locked_notification-Keeps : (i : ℕ) → Keeps P (power_locked_notification i)
  unfolding power_locked_notification
  power_locked_notification-Keeps i = search (own_rules, do_run_activity-Keeps)

  begin_by-Keeps : (i : ℕ) (k : PowerKind) (p : PowerActivity) → Keeps P (begin_by i k p)
  begin_by-Keeps i noop p = when-Keeps _ _ (
      Keeps-bind _ _ (update-Keeps i (set_power locked p.target) (λ a. (refl, refl, refl)))
        (λ _. power_locked_notification-Keeps i))
  begin_by-Keeps i powerd p = when-Keeps _ _ (
      Keeps-bind _ _ (update-Keeps i (set_power unknown locked) (λ a. (refl, refl, refl)))
        (λ _. emit-Keeps _))

  request_begin-Keeps : (i : ℕ) (p : PowerActivity) → Keeps P (request_begin_power_activity i p)
  unfolding request_begin_power_activity
  request_begin-Keeps i p = search (own_rules, begin_by-Keeps, power_locked_notification-Keeps)

  power_or_run-Keeps : (i : ℕ) (p : Option PowerActivity) → Keeps P (power_or_run i p)
  power_or_run-Keeps i none = do_run_activity-Keeps i
  power_or_run-Keeps i (some p) = search (own_rules, request_begin-Keeps, do_run_activity-Keeps)

  start_running-Keeps : (i : ℕ) → Keeps P (start_running i)
  unfolding start_running
  start_running-Keeps i =
      Keeps-bind _ _ (update-Keeps i _ (λ a. (refl, refl, refl)))
        (λ _. Keeps-bind _ _ (Keeps-gets _) (λ a. power_or_run-Keeps i a.power_activity))

  run_activity-Keeps : (i : ℕ) → Keeps P (run_activity i)
  unfolding run_activity
  run_activity-Keeps i = search (own_rules, start_running-Keeps)

  run_ready_background-Keeps : (q : QueueId) (i : ℕ) → Keeps P (run_ready_background q i)
  unfolding run_ready_background
  run_ready_background-Keeps q i = search (own_rules, run_activity-Keeps)

  round-Keeps :
      (ran room : Bool) (to : QueueId) (i : Option ℕ) (next : M Bool)
      → Keeps P next
      → Keeps P (round ran room to i next)
  round-Keeps ran room to none next k = search keeps_rules
  round-Keeps ran room to (some i) next k = search (keeps_rules, run_ready_background-Keeps)

  run_while_room-Keeps :
      (rounds : ℕ) (from to : QueueId) (level : World → ℕ) (ran : Bool)
      → Keeps P (run_while_room rounds from to level ran)
  unfolding run_while_room
  run_while_room-Keeps zero from to level ran = search keeps_rules
  run_while_room-Keeps (suc rounds) from to level ran =
      Keeps-bind _ _ (Keeps-gets _)
        (λ w. round-Keeps ran _ to _ _ (run_while_room-Keeps rounds from to level true))

  run_all_with_room-Keeps :
      (from to : QueueId) (level : World → ℕ) → Keeps P (run_all_with_room from to level)
  unfolding run_all_with_room
  run_all_with_room-Keeps from to level =
      Keeps-bind _ _ (Keeps-gets _) (λ rounds. run_while_room-Keeps rounds from to level false)

  other-Keeps :
      (f : World → World)
      → ((w : World) → ((f w).acts ≡ w.acts) × ((f w).scheduler ≡ w.scheduler))
      → Keeps P (modify f)
  other-Keeps f h = Keeps-modify f (λ w. steady.others (f w) w (h w).0 (h w).1)

  update_yield_timeout-Keeps : Keeps P update_yield_timeout
  unfolding update_yield_timeout
  update_yield_timeout-Keeps =
      Keeps-bind _ _ (Keeps-gets _)
        (λ n. Keeps-bind _ _ (other-Keeps _ (λ w. (refl, refl))) (λ _. emit-Keeps _))

  cancel_yield_timeout-Keeps : Keeps P cancel_yield_timeout
  unfolding cancel_yield_timeout
  cancel_yield_timeout-Keeps = other-Keeps _ (λ w. (refl, refl))

  review-Keeps : (ran : Bool) → Keeps P (review_yield_timeout ran)
  unfolding review_yield_timeout
  review-Keeps ran = search (keeps_rules, update_yield_timeout-Keeps, cancel_yield_timeout-Keeps)

  check_ready_queue-Keeps : Keeps P check_ready_queue
  unfolding check_ready_queue
  check_ready_queue-Keeps = search (keeps_rules, run_all_with_room-Keeps, review-Keeps)

  inform_activity_ready-Keeps : (i : ℕ) → Keeps P (inform_activity_ready i)
  unfolding inform_activity_ready
  inform_activity_ready-Keeps i =
      search (own_rules, run_activity-Keeps, check_ready_queue-Keeps) depth 12

  pub request_run_activity-Keeps : (i : ℕ) → Keeps P (request_run_activity i)
  unfolding request_run_activity
  request_run_activity-Keeps i =
      Keeps-bind _ _ (update-Keeps i _ (λ a. (refl, refl, refl)))
        (λ _. inform_activity_ready-Keeps i)

  pub run_if_runnable-Keeps : (i : ℕ) → Keeps P (run_if_runnable i)
  unfolding run_if_runnable
  run_if_runnable-Keeps i = search (own_rules, request_run_activity-Keeps)
