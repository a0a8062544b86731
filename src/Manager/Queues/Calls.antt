-- ===== src/Manager/Queues/Calls.antt =====
-- The queues through the operations of Manager.Control, and so through every call of Manager.Calls.
use activitymanager.Prelude.{ℕ, zero, suc, Bool, true, false, Option, none, some, List, [], ◌∷◌}
use activitymanager.Activity.{Activity}
use activitymanager.World.{
  World, QueueId, long_background, Effect, M, U, ◌>>◌, modify, update, emit, unlinked, push_back,
}
use activitymanager.World.Keeps.{Keeps, Keeps-bind, Keeps-gets, Keeps-modify, keeps_rules}
use activitymanager.Manager.Run.{check_ready_queue}
use activitymanager.Manager.Control.{
  start_activity, stop_activity, cancel_activity, pause_activity, set_focus, unfocus_each,
  focus_activity, unfocus_activity, add_focus, enable, disable, set_background_concurrency_level,
  evict_each, evict_background_activity, evict_all_background_activities, run_ready_activity,
  run_front, run_each, run_all_ready_activities, yield_if_any, interactive_yield_timeout,
}
use activitymanager.Manager.Calls.{Call, perform, run}
use activitymanager.Manager.Queues.{Queues, Movable, OnQueues, relink_then}
use activitymanager.Manager.Queues.Running.{
  on_queues, update-Keeps, emit-Keeps, check_ready_queue-Keeps, run_ready_background-Keeps,
  update_yield_timeout-Keeps, cancel_yield_timeout-Keeps,
}
use activitymanager.Manager.Queues.Handling.{
  request_schedule_activity-Keeps, dequeue-Keeps, schedule_all-Keeps, send_command-Keeps,
}
use activitymanager.Manager.Queues.Telling.{
  fire-Keeps, callback_failed-Keeps, yield-Keeps, add_requirement-Keeps, remove_requirement-Keeps,
  remove_named-Keeps, requirement_met-Keeps, requirement_unmet-Keeps, requirement_updated-Keeps,
  hook-Keeps, unhook-Keeps, power_locked-Keeps, power_unlocked-Keeps, add_subscription-Keeps,
  remove_subscription-Keeps, set_parent-Keeps, adopt-Keeps, release-Keeps, complete-Keeps,
}

module _ {R : Queues → Type 0} (movable : Movable R) where
  own_update-Keeps : (i : ℕ) (f : Activity → Activity) → Keeps (OnQueues movable) (update i f)
  own_update-Keeps = update-Keeps (on_queues movable)

  own_emit-Keeps : (e : Effect) → Keeps (OnQueues movable) (emit e)
  own_emit-Keeps = emit-Keeps (on_queues movable)

  ruleset own_rules = (keeps_rules, own_update-Keeps, own_emit-Keeps, check_ready_queue-Keeps)

  set_focus-Keeps : (b : Bool) (i : ℕ) → Keeps (OnQueues movable) (set_focus b i)
  unfolding set_focus
  set_focus-Keeps true i = search own_rules
  set_focus-Keeps false i = search own_rules

  unfocus_each-Keeps : (js : List ℕ) → Keeps (OnQueues movable) (unfocus_each js)
  unfolding unfocus_each
  unfocus_each-Keeps [] = search own_rules
  unfocus_each-Keeps (j ∷ js) =
      Keeps-bind _ _ (set_focus-Keeps false j)
        (λ _. Keeps-bind _ _ (own_emit-Keeps _) (λ _. unfocus_each-Keeps js))

  set_focused-Keeps :
      (f : World → List ℕ)
      → Keeps (OnQueues movable) (modify (λ w. record w { focused_activities = f w }))
  set_focused-Keeps f = Keeps-modify _ (λ w h. h)

  focus-Keeps : (i : ℕ) → Keeps (OnQueues movable) (focus_activity i)
  unfolding focus_activity
  focus-Keeps i = search (own_rules, set_focus-Keeps, unfocus_each-Keeps) depth 16

  unfocus-Keeps : (i : ℕ) → Keeps (OnQueues movable) (unfocus_activity i)
  unfolding unfocus_activity
  unfocus-Keeps i = search (own_rules, set_focus-Keeps) depth 16

  add_focus-Keeps : (i j : ℕ) → Keeps (OnQueues movable) (add_focus i j)
  unfolding add_focus
  add_focus-Keeps i j = search (own_rules, set_focus-Keeps) depth 16

  enable-Keeps : (e u c : Bool) → Keeps (OnQueues movable) (enable e u c)
  unfolding enable
  enable-Keeps e u c = search (own_rules, schedule_all-Keeps) depth 12

  disable-Keeps : (e u c : Bool) → Keeps (OnQueues movable) (disable e u c)
  unfolding disable
  disable-Keeps e u c = Keeps-modify _ (λ w h. h)

  set_level-Keeps : (level : ℕ) → Keeps (OnQueues movable) (set_background_concurrency_level level)
  unfolding set_background_concurrency_level
  set_level-Keeps level = search own_rules depth 12

  evict_one-Keeps :
      (i : ℕ)
      → Keeps
          (OnQueues movable)
          (modify (unlinked i) >> (push_back long_background i >> check_ready_queue))
  evict_one-Keeps i = relink_then movable long_background i _ (check_ready_queue-Keeps movable)

  evict-Keeps : (i : ℕ) → Keeps (OnQueues movable) (evict_background_activity i)
  unfolding evict_background_activity
  evict-Keeps i = search (own_rules, evict_one-Keeps) depth 12

  evict_each-Keeps : (js : List ℕ) → Keeps (OnQueues movable) (evict_each js)
  unfolding evict_each
  evict_each-Keeps [] = search own_rules
  evict_each-Keeps (j ∷ js) = relink_then movable long_background j _ (evict_each-Keeps js)

  evict_all-Keeps : Keeps (OnQueues movable) evict_all_background_activities
  unfolding evict_all_background_activities
  evict_all-Keeps = search (own_rules, evict_each-Keeps)

  run_ready-Keeps : (i : ℕ) → Keeps (OnQueues movable) (run_ready_activity i)
  unfolding run_ready_activity
  run_ready-Keeps i = search (own_rules, run_ready_background-Keeps) depth 12

  run_front-Keeps :
      (to : QueueId) (i : Option ℕ) (next : M U)
      → Keeps (OnQueues movable) next
      → Keeps (OnQueues movable) (run_front to i next)
  run_front-Keeps to none next k = search own_rules
  run_front-Keeps to (some i) next k = search (own_rules, run_ready_background-Keeps)

  run_each-Keeps :
      (rounds : ℕ) (from to : QueueId) → Keeps (OnQueues movable) (run_each rounds from to)
  unfolding run_each
  run_each-Keeps zero from to = search own_rules
  run_each-Keeps (suc rounds) from to =
      Keeps-bind _ _ (Keeps-gets _)
        (λ waiting. run_front-Keeps to _ _ (run_each-Keeps rounds from to))

  run_all-Keeps : Keeps (OnQueues movable) run_all_ready_activities
  unfolding run_all_ready_activities
  run_all-Keeps = search (own_rules, run_each-Keeps) depth 12

  yield_if_any-Keeps : (i : Option ℕ) → Keeps (OnQueues movable) (yield_if_any i)
  yield_if_any-Keeps none = search own_rules
  yield_if_any-Keeps (some i) = yield-Keeps movable i

  yield_timeout-Keeps : Keeps (OnQueues movable) interactive_yield_timeout
  unfolding interactive_yield_timeout
  yield_timeout-Keeps =
      search (own_rules, yield_if_any-Keeps, update_yield_timeout-Keeps, cancel_yield_timeout-Keeps)
        depth 12

  pub perform-Keeps : (c : Call) → Keeps (OnQueues movable) (perform c)
  unfolding perform start_activity stop_activity cancel_activity pause_activity
  perform-Keeps (Call.starts i) = send_command-Keeps movable _ _ i
  perform-Keeps (Call.stops i) = send_command-Keeps movable _ _ i
  perform-Keeps (Call.cancels i) = send_command-Keeps movable _ _ i
  perform-Keeps (Call.pauses i) = send_command-Keeps movable _ _ i
  perform-Keeps (Call.fires i) = fire-Keeps movable i
  perform-Keeps (Call.yields i) = yield-Keeps movable i
  perform-Keeps (Call.power_locks i) = power_locked-Keeps movable i
  perform-Keeps (Call.power_unlocks i) = power_unlocked-Keeps movable i
  perform-Keeps (Call.focuses i) = focus-Keeps i
  perform-Keeps (Call.unfocuses i) = unfocus-Keeps i
  perform-Keeps (Call.evicts i) = evict-Keeps i
  perform-Keeps (Call.runs_ready i) = run_ready-Keeps i
  perform-Keeps (Call.updates_requirement i) = requirement_updated-Keeps movable i
  perform-Keeps (Call.schedules i) = request_schedule_activity-Keeps movable i
  perform-Keeps (Call.completes caller force i) = complete-Keeps movable caller force i
  perform-Keeps (Call.releases caller i) = release-Keeps movable caller i
  perform-Keeps (Call.adopts sid wait i) = search (keeps_rules, adopt-Keeps)
  perform-Keeps (Call.subscribes s i) = add_subscription-Keeps movable s i
  perform-Keeps (Call.unsubscribes sid i) = remove_subscription-Keeps movable sid i
  perform-Keeps (Call.sets_parent sid i) = set_parent-Keeps movable sid i
  perform-Keeps (Call.adds_focus source target) = add_focus-Keeps source target
  perform-Keeps (Call.callback_fails transient i) = callback_failed-Keeps movable transient i
  perform-Keeps (Call.meets r i) = requirement_met-Keeps movable r i
  perform-Keeps (Call.unmeets r i) = requirement_unmet-Keeps movable r i
  perform-Keeps (Call.drops_requirement r i) = remove_requirement-Keeps movable r i
  perform-Keeps (Call.hooks c i) = hook-Keeps movable c i
  perform-Keeps (Call.unhooks c i) = unhook-Keeps movable c i
  perform-Keeps (Call.requires n r met i) = add_requirement-Keeps movable n r met i
  perform-Keeps (Call.drops_named n i) = remove_named-Keeps movable n i
  perform-Keeps (Call.enables e u c) = enable-Keeps e u c
  perform-Keeps (Call.disables e u c) = disable-Keeps e u c
  perform-Keeps (Call.sets_level level) = search (keeps_rules, set_level-Keeps)
  perform-Keeps Call.evicts_all = evict_all-Keeps
  perform-Keeps Call.runs_all_ready = run_all-Keeps
  perform-Keeps Call.yield_times_out = yield_timeout-Keeps
  perform-Keeps Call.wakes_up = dequeue-Keeps movable
  perform-Keeps Call.checks_queue = check_ready_queue-Keeps movable

  pub run_keeps : (cs : List Call) (w : World) → OnQueues movable w → OnQueues movable (run cs w)
  unfolding run
  run_keeps [] w h = h
  run_keeps (c ∷ cs) w h = run_keeps cs (perform c w).1 ((perform-Keeps c).keeps w h)
