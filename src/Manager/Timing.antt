-- ===== src/Manager/Timing.antt =====
-- Schedules and triggers of Activities: src/Scheduler.cpp and src/Schedule.cpp where they call the
-- Activity, the trigger of src/MojoTrigger.cpp, and ActivityManager's way of scheduling.
pub mod Due
pub mod Waking
use activitymanager.Prelude.{
  ℕ, Bool, true, false, not, ◌&&◌, Option, none, some, List, [], ◌∷◌, contains, ◌||◌, remove,
  if◌then◌else◌, length, zero, suc, ◌==◌,
}
use activitymanager.Prelude.Int.{ℤ, pos, ◌+ℤ◌, ltb_ℤ}
use activitymanager.Schedule
use activitymanager.Schedule.{Schedule, calc_next_start_time, get_time}
use activitymanager.Scheduler.{Scheduler, insert, is_idle, cancel_wake, update_wake}
use activitymanager.Activity.{Activity, Trigger, is_runnable}
use activitymanager.World.{
  World, initialized, scheduled, M, U, gets, ◌>>=◌, ◌>>◌, modify, skip, when, act, update, unlinked,
  unlink_if_linked, push_back,
}
use activitymanager.Manager.Run.{request_run_activity, run_if_runnable, front}

abbrev pub start_of_schedule : Option Schedule → ℤ
start_of_schedule none = pos 0
start_of_schedule (some s) = Schedule.get_next_start_time s

-- The next start of the schedule of an Activity in a queue.
unfoldable pub start_of : World → ℕ → ℤ
start_of w i = start_of_schedule (w.acts i).schedule

abbrev pub change_schedule : (Schedule → Schedule) → Activity → Activity
change_schedule f a = record a { schedule = changed a.schedule }
  where
    changed : Option Schedule → Option Schedule
    changed none = none
    changed (some s) = some (f s)

abbrev pub change_scheduler : (World → Scheduler → Scheduler) → M U
change_scheduler f = modify (λ w. record w { scheduler = f w w.scheduler })

-- Schedule::Scheduled, and Activity::Scheduled, which it calls.
unfoldable pub schedule_comes_up : ℕ → M U
schedule_comes_up i = do
  update i (change_schedule (λ s. record s { scheduled = true }))
  run_if_runnable i

abbrev pub queue_of : Bool → Scheduler → List ℕ
queue_of false s = s.queue
queue_of true s = s.local_queue

abbrev pub with_queue : Bool → List ℕ → Scheduler → Scheduler
with_queue false q s = record s { queue = q }
with_queue true q s = record s { local_queue = q }

-- ProcessQueue, over the queue as it stands: what comes up is taken off and told. Being told touches no
-- queue of the Scheduler, so the loop goes on with the rest of the list.
abbrev pub process_round : Bool → ℕ → List ℕ → M U → M U
process_round up i rest next = if up then next else skip

unfoldable pub process_queue : Bool → ℤ → List ℕ → M U
process_queue local now [] = skip
process_queue local now (i ∷ rest) = do
  later ← gets (λ w. ltb_ℤ now (start_of w i))
  process_round (not later) i rest do
    change_scheduler (λ w. with_queue local rest)
    schedule_comes_up i
    process_queue local now rest

-- DequeueAndUpdateTimeout; the time is read once.
unfoldable pub dequeue_and_update_timeout : M U
dequeue_and_update_timeout = do
  w ← gets (λ w. w)
  if is_idle w.scheduler then change_scheduler (λ w. cancel_wake) else do
    process_queue false w.clock w.scheduler.queue
    v ← gets (λ w. w)
    when v.scheduler.local_offset_set
        (process_queue true (w.clock +ℤ v.scheduler.local_offset) v.scheduler.local_queue)
    change_scheduler (λ w. update_wake (start_of w))

abbrev pub is_front : ℕ → List ℕ → Bool
is_front i [] = false
is_front i (j ∷ q) = j == i

-- AddItem and RemoveItem: the timeout is looked at when the item is, or was, the first.
unfoldable pub add_item : ℕ → Bool → M U
add_item i local = do
  change_scheduler (λ w s. with_queue local (insert (start_of w) i (queue_of local s)) s)
  first ← gets (λ w. is_front i (queue_of local w.scheduler))
  when first dequeue_and_update_timeout

abbrev pub is_queued : ℕ → Scheduler → Bool
is_queued i s = contains i s.queue || contains i s.local_queue

unfoldable pub remove_item : ℕ → Bool → M U
remove_item i local = do
  s ← gets (λ w. w.scheduler)
  when (is_queued i s) do
    change_scheduler
        (λ w s. record s { queue = remove i s.queue; local_queue = remove i s.local_queue })
    when (is_front i (queue_of local s)) dequeue_and_update_timeout

-- Schedule::UnQueue and Schedule::Queue.
unfoldable pub unqueue_schedule : ℕ → Schedule → M U
unqueue_schedule i s = do
  remove_item i s.local
  update i (change_schedule (λ s. record s { scheduled = false }))

unfoldable pub queue_schedule : ℕ → Schedule → M U
queue_schedule i s = do
  queued ← gets (λ w. is_queued i w.scheduler)
  when queued (unqueue_schedule i s)
  w ← gets (λ w. w)
  let now = get_time w.clock w.scheduler.local_offset s
  update i (change_schedule (calc_next_start_time w.scheduler.smart_base now))
  update i (change_schedule (λ s. record s { scheduled = false }))
  add_item i s.local

abbrev pub queue_if_any : ℕ → Option Schedule → M U
queue_if_any i none = skip
queue_if_any i (some s) = queue_schedule i s

-- MojoExclusiveTrigger::Arm and Disarm.
abbrev pub arm : Option Trigger → Option Trigger
arm none = none
arm (some t) = some (record t { triggered = false; subscribed = true })

abbrev pub disarm : Option Trigger → Option Trigger
disarm none = none
disarm (some t) = some (record t { triggered = false; subscribed = false })

-- Activity::ScheduleActivity.
unfoldable pub schedule_activity : ℕ → M U
schedule_activity i = do
  update i (λ a. record a { trigger = arm a.trigger })
  a ← act i
  queue_if_any i a.schedule
  update i (λ a. record a { scheduled = true })
  b ← act i
  when (is_runnable b) (request_run_activity i)

-- IsEnabled: all bits must be set.
abbrev pub is_enabled : World → Bool
is_enabled w = w.external_enabled && (w.ui_enabled && w.configuration_loaded)

-- InformActivityInitialized, and Activity::RequestScheduleActivity, which calls it.
unfoldable pub inform_activity_initialized : ℕ → M U
inform_activity_initialized i = do
  unlink_if_linked i
  enabled ← gets is_enabled
  if enabled then push_back scheduled i >> schedule_activity i else push_back initialized i

unfoldable pub request_schedule_activity : ℕ → M U
request_schedule_activity i = do
  update i (λ a. record a { initialized = true })
  inform_activity_initialized i

-- ScheduleAllActivities: every Activity that waits for the manager to be enabled, in order.
abbrev pub grant : Option ℕ → M U → M U
grant none next = skip
grant (some i) next = do modify (unlinked i); push_back scheduled i; schedule_activity i; next

unfoldable pub grant_each : ℕ → M U
grant_each zero = skip
grant_each (suc rounds) = do
  waiting ← gets (λ w. w.run_queue initialized)
  grant (front waiting) (grant_each rounds)

unfoldable pub schedule_all_activities : M U
schedule_all_activities = do
  rounds ← gets (λ w. length (w.run_queue initialized))
  grant_each rounds
