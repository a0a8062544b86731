-- ===== src/Manager/Calls.antt =====
-- The calls that the main loop makes, one at a time: the bus methods of src/ActivityCategory.cpp that reach
-- an Activity, the answers of the other parts, and the timers. Each runs to its end.
use activitymanager.Prelude.{ℕ, Bool, List, [], ◌∷◌}
use activitymanager.Types.{BusId, Text}
use activitymanager.Subscription.{Subscription}
use activitymanager.World.{World, M, U, skip, ◌>>◌}
use activitymanager.Manager.Run.{check_ready_queue}
use activitymanager.Manager.Timing.{request_schedule_activity, dequeue_and_update_timeout}
use activitymanager.Manager.Handlers.{
  fire, callback_failed, yield_activity, add_requirement, remove_requirement,
  remove_requirement_named, requirement_met, requirement_unmet, requirement_updated,
  hook_persist_command, unhook_persist_command, power_locked, power_unlocked,
}
use activitymanager.Manager.Family.{
  add_subscription, remove_subscription, set_parent, adopt, release, complete,
}
use activitymanager.Manager.Control.{
  start_activity, stop_activity, cancel_activity, pause_activity, focus_activity, unfocus_activity,
  add_focus, enable, disable, set_background_concurrency_level, evict_background_activity,
  evict_all_background_activities, run_ready_activity, run_all_ready_activities,
  interactive_yield_timeout,
}

pub data Call : Type 0 where
  starts stops cancels pauses fires yields power_locks power_unlocks : ℕ → Call
  focuses unfocuses evicts runs_ready updates_requirement schedules : ℕ → Call
  completes : BusId → Bool → ℕ → Call
  releases : BusId → ℕ → Call
  adopts : ℕ → Bool → ℕ → Call
  subscribes : Subscription → ℕ → Call
  unsubscribes sets_parent adds_focus : ℕ → ℕ → Call
  callback_fails : Bool → ℕ → Call
  meets unmeets drops_requirement hooks unhooks : ℕ → ℕ → Call
  requires : Text → ℕ → Bool → ℕ → Call
  drops_named : Text → ℕ → Call
  enables disables : Bool → Bool → Bool → Call
  sets_level : ℕ → Call
  evicts_all runs_all_ready yield_times_out wakes_up checks_queue : Call

-- What the call does.
unfoldable pub perform : Call → M U
perform (Call.starts i) = start_activity i
perform (Call.stops i) = stop_activity i
perform (Call.cancels i) = cancel_activity i
perform (Call.pauses i) = pause_activity i
perform (Call.fires i) = fire i
perform (Call.yields i) = yield_activity i
perform (Call.power_locks i) = power_locked i
perform (Call.power_unlocks i) = power_unlocked i
perform (Call.focuses i) = focus_activity i
perform (Call.unfocuses i) = unfocus_activity i
perform (Call.evicts i) = evict_background_activity i
perform (Call.runs_ready i) = run_ready_activity i
perform (Call.updates_requirement i) = requirement_updated i
perform (Call.schedules i) = request_schedule_activity i
perform (Call.completes caller force i) = complete caller force i
perform (Call.releases caller i) = release caller i
perform (Call.adopts sid wait i) = adopt sid wait i >> skip
perform (Call.subscribes s i) = add_subscription s i
perform (Call.unsubscribes sid i) = remove_subscription sid i
perform (Call.sets_parent sid i) = set_parent sid i
perform (Call.adds_focus source target) = add_focus source target
perform (Call.callback_fails transient i) = callback_failed transient i
perform (Call.meets r i) = requirement_met r i
perform (Call.unmeets r i) = requirement_unmet r i
perform (Call.drops_requirement r i) = remove_requirement r i
perform (Call.hooks c i) = hook_persist_command c i
perform (Call.unhooks c i) = unhook_persist_command c i
perform (Call.requires n r met i) = add_requirement n r met i
perform (Call.drops_named n i) = remove_requirement_named n i
perform (Call.enables e u c) = enable e u c
perform (Call.disables e u c) = disable e u c
perform (Call.sets_level level) = set_background_concurrency_level level >> skip
perform Call.evicts_all = evict_all_background_activities
perform Call.runs_all_ready = run_all_ready_activities
perform Call.yield_times_out = interactive_yield_timeout
perform Call.wakes_up = dequeue_and_update_timeout
perform Call.checks_queue = check_ready_queue

-- One call after the other; one that throws leaves what it has written.
unfoldable pub run : List Call → World → World
run [] w = w
run (c ∷ cs) w = run cs (perform c w).1
