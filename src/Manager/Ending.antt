-- ===== src/Manager/Ending.antt =====
-- How an Activity ends, restarts or is requeued, and the commands that it is sent (src/Activity.cpp,
-- src/ActivityManager.cpp, src/PowerManager.cpp). EndActivity calls itself through the power
-- activity and through the start command of a restart; `fuel` bounds how deep.
pub mod Frames
pub mod Scheduling
pub mod Unqueued
pub mod Restart
pub mod Tail
pub mod Depth
use activitymanager.Prelude.{
  ℕ, zero, suc, Bool, true, false, not, ◌&&◌, ◌||◌, Option, none, some, List, [], ◌∷◌, is_empty,
  remove, if◌then◌else◌, ◌==◌, contains,
}
use activitymanager.Types.{Command, Event, is, is_final}
use activitymanager.Schedule
use activitymanager.Schedule.{Schedule, get_time}
use activitymanager.Activity.{
  Activity, Trigger, PowerActivity, PowerKind, noop, powerd, unlocked, unknown,
  compute_next_external_command, is_runnable, should_requeue, should_restart,
}
use activitymanager.Activity.Events.{broadcast_event}
use activitymanager.World.{
  World, QueueId, ended, Effect, Error, M, U, pure, raise, gets, ◌>>=◌, ◌>>◌, modify, skip, when,
  act, update, emit, unlink_if_linked, push_back,
}
use activitymanager.Manager.Run.{
  broadcast_command, check_ready_queue, request_run_activity, inform_activity_not_ready, set_power,
  is_unlocked,
}
use activitymanager.Manager.Timing.{
  change_schedule, disarm, is_queued, unqueue_schedule, request_schedule_activity,
}

-- InformActivityEnd.
unfoldable pub inform_activity_end : ℕ → M U
inform_activity_end i = do
  unlink_if_linked i
  push_back ended i
  emit (Effect.dissociates i)
  check_ready_queue

-- EvictQueue and ReleaseActivity. The map keeps the Activity if another one has taken its id.
abbrev pub erase_entry : ℕ → ℕ → List (ℕ × ℕ) → List (ℕ × ℕ)
erase_entry key i [] = []
erase_entry key i ((k, j) ∷ rest) =
    let kept = erase_entry key i rest in if (k == key) && (j == i) then rest else (k, j) ∷ kept

unfoldable pub release_activity : ℕ → M U
release_activity i = do
  unlink_if_linked i
  a ← act i
  modify (λ w. record w { activities = erase_entry a.id i w.activities })
  check_ready_queue

-- RequeueActivity.
unfoldable pub requeue_activity : ℕ → M U
requeue_activity i = do
  update i (λ a. record a {
    running = false;
    ending = false;
    restart = false;
    requeue = false;
    yielding = false;
  })
  a ← act i
  if is_runnable a
      then request_run_activity i
      else update i (λ a. record a { ready = false }) >> inform_activity_not_ready i

-- The first lines of SendCommand: a final command stands. An external start command asks for the
-- Activity to be scheduled before that is looked at.
unfoldable pub take_command : Command → Bool → ℕ → M U
take_command c true i = do
  a ← act i
  if is a.int_command Command.cancel || is a.int_command Command.stop
      then raise Error.final_command_given
      else update i (λ a. record a { int_command = c })
take_command c false i = do
  a ← act i
  when (is c Command.start && (not a.initialized && not a.ending)) (request_schedule_activity i)
  b ← act i
  if is_final b.ext_command
      then raise Error.final_command_given
      else update i (λ a. record a { ext_command = c })

-- The rest of SendCommand, by the command that is to be sent next.
abbrev pub dispatch : M U → ℕ → Command → Activity → M U
dispatch ends i next a =
    if is next a.sent_command
    then skip
    else if is_final next
    then broadcast_command i next >> ends
    else if not a.running && is next Command.start
    then when (is_runnable a && not a.ready) (request_run_activity i)
    else broadcast_command i next

-- SendCommand, given what EndActivity does.
unfoldable pub send_command_with : (ℕ → M U) → Command → Bool → ℕ → M U
send_command_with ends c internal i = do
  take_command c internal i
  a ← act i
  when (not a.ending) (dispatch (ends i) i (compute_next_external_command a) a)

-- RestartActivity.
abbrev pub reset : Activity → Activity
reset a = record a {
  initialized = false;
  scheduled = false;
  ready = false;
  running = false;
  ending = false;
  restart = false;
  requeue = false;
  yielding = false;
  associations = [];
  focused = false;
  int_command = Command.none;
  ext_command = Command.none;
  sent_command = Command.none;
}

unfoldable pub restart_activity : (ℕ → M U) → ℕ → M U
restart_activity ends i = do
  update i reset
  modify (λ w. record w { focused_activities = remove i w.focused_activities })
  send_command_with ends Command.start false i

abbrev pub is_armed : Option Trigger → Bool
is_armed none = false
is_armed (some t) = t.subscribed

abbrev pub unqueue_if_queued : ℕ → Option Schedule → M U
unqueue_if_queued i none = skip
unqueue_if_queued i (some s) = do
  queued ← gets (λ w. is_queued i w.scheduler)
  when queued (unqueue_schedule i s)

-- EndActivity drops the trigger and the schedule of an Activity that is not requeued.
unfoldable pub drop_trigger_and_schedule : ℕ → M U
drop_trigger_and_schedule i = do
  a ← act i
  when (is_armed a.trigger) (update i (λ a. record a { trigger = disarm a.trigger }))
  unqueue_if_queued i a.schedule

-- Schedule::InformActivityFinished.
unfoldable pub inform_schedule_finished : ℕ → M U
inform_schedule_finished i = do
  w ← gets (λ w. w)
  update i (
      change_schedule
        (λ s. Schedule.inform_activity_finished (get_time w.clock w.scheduler.local_offset s) s))

-- This incarnation is done: requeue, restart or release.
unfoldable pub finish_incarnation : (ℕ → M U) → Bool → ℕ → M U
finish_incarnation ends requeue i = do
  inform_activity_end i
  if requeue then requeue_activity i else do
    inform_schedule_finished i
    a ← act i
    if should_restart a then restart_activity ends i else release_activity i

-- Activity::PowerUnlockedNotification.
abbrev pub power_unlocked : (ℕ → M U) → ℕ → M U
power_unlocked ends i = do a ← act i; when a.ending (ends i)

-- NoopPowerActivity::End and PowerdPowerActivity::End.
abbrev pub end_by : (ℕ → M U) → ℕ → PowerKind → PowerActivity → M U
end_by ends i noop p = do update i (set_power unlocked p.target); power_unlocked ends i
end_by ends i powerd p =
    when (not (is_unlocked p.target))
      do update i (set_power unknown unlocked); emit (Effect.unlocks_power i)

-- PowerManager::RequestEndPowerActivity is called only while the power is not unlocked.
abbrev pub end_power_or : (ℕ → M U) → ℕ → Option PowerActivity → M U → M U
end_power_or ends i none rest = rest
end_power_or ends i (some p) rest =
    if not (is_unlocked p.current) then end_by ends i p.kind p else rest

-- EndActivity, given what it does when it is called again from within.
unfoldable pub end_activity_with : (ℕ → M U) → ℕ → M U
end_activity_with ends i = do
  update i (λ a. record a { ending = true })
  a ← act i
  let requeue = should_requeue a
  when (not requeue) (drop_trigger_and_schedule i)
  b ← act i
  when (is_empty b.subscriptions) (
      end_power_or ends i b.power_activity
        (when (is_empty b.persist_commands) (finish_incarnation ends requeue i)))

unfoldable pub end_activity_in : ℕ → ℕ → M U
end_activity_in zero i = raise Error.out_of_fuel
end_activity_in (suc fuel) i = end_activity_with (end_activity_in fuel) i

-- EndActivity and SendCommand. A call of EndActivity is nested in another at most once.
unfoldable pub end_activity : ℕ → M U
end_activity = end_activity_in 2

unfoldable pub send_command : Command → Bool → ℕ → M U
send_command = send_command_with end_activity
