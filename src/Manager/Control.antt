-- ===== src/Manager/Control.antt =====
-- The manager's own operations (src/ActivityManager.cpp): the commands, focus, enabling and disabling,
-- the background levels and the yield timeout.
pub mod Focus
pub mod Victim
use activitymanager.Prelude.{
  ℕ, zero, suc, ◌+◌, Bool, true, false, not, ◌&&◌, ◌||◌, Option, none, some, List, [], ◌∷◌, ◌++◌,
  is_empty, length, is_some, contains, remove, leb, if◌then◌else◌, ◌==◌,
}
use activitymanager.Types.{Command, Event}
use activitymanager.Activity.{Activity}
use activitymanager.Activity.Events.{broadcast_event}
use activitymanager.World.{
  World, QueueId, ready, ready_interactive, background, background_interactive, long_background,
  Effect, Error, M, U, pure, raise, gets, ◌>>=◌, ◌>>◌, modify, skip, when, act, update, emit,
  unlinked, push_back,
}
use activitymanager.Manager.Run.{
  check_ready_queue, run_ready_background, update_yield_timeout, cancel_yield_timeout, front,
}
use activitymanager.Manager.Timing.{is_enabled, schedule_all_activities}
use activitymanager.Manager.Ending.{send_command}
use activitymanager.Manager.Handlers.{yield_activity}

-- StartActivity, StopActivity, CancelActivity and PauseActivity.
unfoldable pub start_activity : ℕ → M U
start_activity i = send_command Command.start false i

unfoldable pub stop_activity : ℕ → M U
stop_activity i = send_command Command.stop false i

unfoldable pub cancel_activity : ℕ → M U
cancel_activity i = send_command Command.cancel false i

unfoldable pub pause_activity : ℕ → M U
pause_activity i = send_command Command.pause false i

-- Activity::SetFocus.
unfoldable pub set_focus : Bool → ℕ → M U
set_focus true i = do
  a ← act i
  when (not a.focused) (update i (λ a. broadcast_event Event.focused (record a { focused = true })))
set_focus false i = do
  a ← act i
  when a.focused (update i (λ a. broadcast_event Event.unfocused (record a { focused = false })))

-- FocusActivity: the Activities that had focus before lose it.
unfoldable pub unfocus_each : List ℕ → M U
unfocus_each [] = skip
unfocus_each (j ∷ js) = do set_focus false j; emit (Effect.updates_associations j); unfocus_each js

unfoldable pub focus_activity : ℕ → M U
focus_activity i = do
  a ← act i
  if a.focused then skip else do
    set_focus true i
    emit (Effect.updates_associations i)
    old ← gets (λ w. w.focused_activities)
    modify (λ w. record w { focused_activities = i ∷ [] })
    unfocus_each old

unfoldable pub unfocus_activity : ℕ → M U
unfocus_activity i = do
  a ← act i
  if not a.focused then raise Error.invalid_arg else do
    set_focus false i
    emit (Effect.updates_associations i)
    modify (λ w. record w { focused_activities = remove i w.focused_activities })

unfoldable pub add_focus : ℕ → ℕ → M U
add_focus source target = do
  a ← act source
  b ← act target
  if not a.focused then raise Error.invalid_arg else if b.focused then skip else do
    set_focus true target
    emit (Effect.updates_associations target)
    modify (λ w. record w { focused_activities = w.focused_activities ++ (target ∷ []) })

-- Enable and Disable; the three flags are the bits of the mask that are known.
unfoldable pub enable : Bool → Bool → Bool → M U
enable external ui configuration = do
  modify (λ w. record w {
    external_enabled = w.external_enabled || external;
    ui_enabled = w.ui_enabled || ui;
    configuration_loaded = w.configuration_loaded || configuration;
  })
  enabled ← gets is_enabled
  when enabled schedule_all_activities

unfoldable pub disable : Bool → Bool → Bool → M U
disable external ui configuration = modify (λ w. record w {
  external_enabled = w.external_enabled && not external;
  ui_enabled = w.ui_enabled && not ui;
  configuration_loaded = w.configuration_loaded && not configuration;
})

-- SetBackgroundConcurrencyLevel, EvictBackgroundActivity and EvictAllBackgroundActivities.
unfoldable pub set_background_concurrency_level : ℕ → M ℕ
set_background_concurrency_level level = do
  old ← gets (λ w. w.background_level)
  modify (λ w. record w { background_level = level })
  check_ready_queue
  pure old

unfoldable pub evict_background_activity : ℕ → M U
evict_background_activity i = do
  running ← gets (λ w. contains i (w.run_queue background))
  if not running
      then raise Error.not_on_background_queue
      else do modify (unlinked i); push_back long_background i; check_ready_queue

unfoldable pub evict_each : List ℕ → M U
evict_each [] = skip
evict_each (i ∷ is) = do modify (unlinked i); push_back long_background i; evict_each is

unfoldable pub evict_all_background_activities : M U
evict_all_background_activities = do
  running ← gets (λ w. w.run_queue background)
  evict_each running
  check_ready_queue

-- RunReadyBackgroundActivity(act) and RunAllReadyActivities.
unfoldable pub run_ready_activity : ℕ → M U
run_ready_activity i = do
  w ← gets (λ w. w)
  if contains i (w.run_queue ready)
      then run_ready_background background i
      else if contains i (w.run_queue ready_interactive)
      then run_ready_background background_interactive i
      else raise Error.not_on_ready_queue

abbrev pub run_front : QueueId → Option ℕ → M U → M U
run_front to none next = skip
run_front to (some i) next = run_ready_background to i >> next

unfoldable pub run_each : ℕ → QueueId → QueueId → M U
run_each zero from to = skip
run_each (suc rounds) from to = do
  waiting ← gets (λ w. w.run_queue from)
  run_front to (front waiting) (run_each rounds from to)

unfoldable pub run_all_ready_activities : M U
run_all_ready_activities = do
  interactive ← gets (λ w. length (w.run_queue ready_interactive))
  run_each interactive ready_interactive background_interactive
  waiting ← gets (λ w. length (w.run_queue ready))
  run_each waiting ready background

-- The loop of InteractiveYieldTimeout: the first running Activity that does not yield yet, unless as
-- many yield as wait.
unfoldable pub choose_victim : (ℕ → Activity) → ℕ → ℕ → Option ℕ → List ℕ → Option ℕ
choose_victim acts waiting yielding victim [] = victim
choose_victim acts waiting yielding victim (i ∷ is) =
    let after_yielding = choose_victim acts waiting (yielding + 1) victim is in
    let after_first = choose_victim acts waiting yielding (some i) is in
    let after_other = choose_victim acts waiting yielding victim is in
    if (acts i).yielding
    then if leb waiting (yielding + 1) then none else after_yielding
    else if not (is_some victim)
    then after_first
    else after_other

abbrev pub yield_if_any : Option ℕ → M U
yield_if_any none = skip
yield_if_any (some i) = yield_activity i

-- InteractiveYieldTimeout.
unfoldable pub interactive_yield_timeout : M U
interactive_yield_timeout = do
  w ← gets (λ w. w)
  let waiting = w.run_queue ready_interactive
  if is_empty waiting then cancel_yield_timeout else do
    yield_if_any (choose_victim w.acts (length waiting) 0 none (w.run_queue background_interactive))
    update_yield_timeout
