-- ===== src/Manager/Run.antt =====
-- Running Activities: Activity::RunActivity and what it calls, and the ready queues
-- (src/Activity.cpp, src/ActivityManager.cpp, src/PowerManager.cpp, src/PowerActivity.cpp and
-- PowerdPowerActivity::Begin). Requests to the power daemon are taken to be issued.
use activitymanager.Prelude.{
  ℕ, zero, suc, ◌+◌, Bool, true, false, not, ◌&&◌, ◌||◌, Option, none, some, List, [], ◌∷◌, length,
  is_empty, is_some, ltb, ◌==◌, if◌then◌else◌,
}
use activitymanager.Types.{Command, Event}
use activitymanager.Activity.{
  Activity, Callback, PowerActivity, PowerKind, noop, powerd, PowerState, locked, unlocked, unknown,
  is_runnable,
}
use activitymanager.Activity.Events.{event_of, broadcast_command_as}
use activitymanager.World.{
  World, QueueId, ready, ready_interactive, background, background_interactive, immediate,
  scheduled, Effect, Error, M, U, pure, raise, gets, ◌>>=◌, ◌>>◌, modify, skip, when, act, update,
  emit, unlink_if_linked, push_back,
}

-- DoCallback.
abbrev pub call_back : ℕ → Option Callback → M U
call_back i none = raise Error.no_callback
call_back i (some c) =
    if c.call_fails then raise Error.callback_failed else emit (Effect.calls_back i)

unfoldable pub do_callback : ℕ → M U
do_callback i = do a ← act i; call_back i a.callback

abbrev pub broadcast_as : ℕ → Command → Option Event → M U
broadcast_as i c none = raise Error.unknown_command
broadcast_as i c (some e) = update i (broadcast_command_as e c)

-- BroadcastCommand.
unfoldable pub broadcast_command : ℕ → Command → M U
broadcast_command i c = broadcast_as i c (event_of c)

-- DoRunActivity.
unfoldable pub do_run_activity : ℕ → M U
do_run_activity i = do
  broadcast_command i Command.start
  a ← act i
  when (is_some a.callback) (do_callback i)

-- Activity::PowerLockedNotification.
unfoldable pub power_locked_notification : ℕ → M U
power_locked_notification i = do a ← act i; when (not a.ending) (do_run_activity i)

abbrev pub is_locked : PowerState → Bool
is_locked locked = true
is_locked _ = false

abbrev pub is_unlocked : PowerState → Bool
is_unlocked unlocked = true
is_unlocked _ = false

abbrev pub set_power : PowerState → PowerState → Activity → Activity
set_power current target a = record a { power_activity = power_after a.power_activity }
  where
    power_after : Option PowerActivity → Option PowerActivity
    power_after none = none
    power_after (some p) = some (record p { current = current; target = target })

-- NoopPowerActivity::Begin and PowerdPowerActivity::Begin.
abbrev pub begin_by : ℕ → PowerKind → PowerActivity → M U
begin_by i noop p =
    when (not (is_locked p.current))
      do update i (set_power locked p.target); power_locked_notification i
begin_by i powerd p =
    when (not (is_locked p.current || is_locked p.target))
      do update i (set_power unknown locked); emit (Effect.locks_power i)

-- PowerManager::RequestBeginPowerActivity.
unfoldable pub request_begin_power_activity : ℕ → PowerActivity → M U
request_begin_power_activity i p =
    if not (is_locked p.current) then begin_by i p.kind p else power_locked_notification i

abbrev pub power_or_run : ℕ → Option PowerActivity → M U
power_or_run i none = do_run_activity i
power_or_run i (some p) =
    if not (is_locked p.current) then request_begin_power_activity i p else do_run_activity i

-- Activity::RunActivity, and ActivityManager::RunActivity around it.
unfoldable pub start_running : ℕ → M U
start_running i = do
  update i (λ a. record a { running = true })
  a ← act i
  power_or_run i a.power_activity

unfoldable pub run_activity : ℕ → M U
run_activity i = do emit (Effect.associates i); start_running i

-- RunReadyBackgroundActivity and RunReadyBackgroundInteractiveActivity, by the queue to go to.
unfoldable pub run_ready_background : QueueId → ℕ → M U
run_ready_background q i = do unlink_if_linked i; push_back q i; run_activity i

-- GetRunningBackgroundActivitiesCount.
unfoldable pub running_background_count : World → ℕ
running_background_count w =
    length (w.run_queue background) + length (w.run_queue background_interactive)

-- Whether a level, of which 0 is no limit, leaves room for one more.
abbrev pub has_room : ℕ → World → Bool
has_room level w = ltb (running_background_count w) level || level == 0

abbrev pub front : List ℕ → Option ℕ
front [] = none
front (i ∷ q) = some i

-- The two loops of CheckReadyQueue: `from` is the ready queue that is emptied, `to` the queue of the
-- running. Every round takes one off `from`; it is called with its length as the rounds left.
-- The result tells whether any was run.
abbrev pub round : Bool → Bool → QueueId → Option ℕ → M Bool → M Bool
round ran room to none next = pure ran
round ran room to (some i) next = if room then run_ready_background to i >> next else pure ran

unfoldable pub run_while_room : ℕ → QueueId → QueueId → (World → ℕ) → Bool → M Bool
run_while_room zero from to level ran = pure ran
run_while_room (suc rounds) from to level ran = do
  w ← gets (λ w. w)
  round ran (has_room (level w) w) to (front (w.run_queue from))
      (run_while_room rounds from to level true)

unfoldable pub run_all_with_room : QueueId → QueueId → (World → ℕ) → M Bool
run_all_with_room from to level = do
  rounds ← gets (λ w. length (w.run_queue from))
  run_while_room rounds from to level false

-- UpdateYieldTimeout and CancelYieldTimeout.
unfoldable pub update_yield_timeout : M U
update_yield_timeout = do
  seconds ← gets (λ w. w.yield_timeout_seconds)
  modify (λ w. record w { yield_armed = true })
  emit (Effect.arms_yield_timeout seconds)

unfoldable pub cancel_yield_timeout : M U
cancel_yield_timeout = modify (λ w. record w { yield_armed = false })

-- The middle of CheckReadyQueue: the timeout runs while interactive Activities wait.
unfoldable pub review_yield_timeout : Bool → M U
review_yield_timeout ran_interactive = do
  w ← gets (λ w. w)
  if not (is_empty (w.run_queue ready_interactive))
      then when (ran_interactive || not w.yield_armed) update_yield_timeout
      else when w.yield_armed cancel_yield_timeout

-- CheckReadyQueue.
unfoldable pub check_ready_queue : M U
check_ready_queue = do
  ran ← run_all_with_room ready_interactive background_interactive (λ w. w.interactive_level)
  review_yield_timeout ran
  run_all_with_room ready background (λ w. w.background_level) >> skip

-- InformActivityReady, and Activity::RequestRunActivity, which calls it.
unfoldable pub inform_activity_ready : ℕ → M U
inform_activity_ready i = do
  unlink_if_linked i
  a ← act i
  if a.immediate
      then push_back immediate i >> run_activity i
      else push_back (if a.user_initiated then ready_interactive else ready) i >> check_ready_queue

unfoldable pub request_run_activity : ℕ → M U
request_run_activity i = do update i (λ a. record a { ready = true }); inform_activity_ready i

-- InformActivityNotReady.
unfoldable pub inform_activity_not_ready : ℕ → M U
inform_activity_not_ready i = do unlink_if_linked i; push_back scheduled i

-- `if (!m_running && !m_ready && IsRunnable()) RequestRunActivity()`.
unfoldable pub run_if_runnable : ℕ → M U
run_if_runnable i = do
  a ← act i
  when (not a.running && (not a.ready && is_runnable a)) (request_run_activity i)
