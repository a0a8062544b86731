-- ===== src/Manager/Queues/Telling.antt =====
-- The queues while Activities are told of things and their families change: Manager.Handlers and
-- Manager.Family.
use activitymanager.Prelude.{ℕ, Bool, Option, none, some, List, [], ◌∷◌}
use activitymanager.Types.{Text, BusId}
use activitymanager.Subscription.{Subscription}
use activitymanager.Activity.{Activity}
use activitymanager.World.{Effect, update, emit}
use activitymanager.World.Keeps.{Keeps, Keeps-bind, keeps_rules}
use activitymanager.Manager.Handlers
use activitymanager.Manager.Handlers.{
  fire, request_requeue_activity, callback_failed, yield_activity, add_requirement,
  remove_requirement, not_ready_if_waiting, remove_requirement_named, requirement_met,
  requirement_unmet, requirement_updated, hook_persist_command, unhook_persist_command,
  power_locked, power_unlocked, lock_power, unlock_power,
}
use activitymanager.Manager.Family
use activitymanager.Manager.Family.{
  add_subscription, orphaned, adopt_first, do_adopt, succeed_parent, remove_if_found,
  remove_subscription, set_parent, adopt, release, complete,
}
use activitymanager.Manager.Queues.{Queues, Movable, OnQueues}
use activitymanager.Manager.Queues.Running.{
  on_queues, update-Keeps, emit-Keeps, run_if_runnable-Keeps, check_ready_queue-Keeps,
  inform_activity_not_ready-Keeps, power_locked_notification-Keeps,
}
use activitymanager.Manager.Queues.Handling.{end_activity-Keeps, send_command-Keeps}
use activitymanager.Activity.{PowerActivity}
use activitymanager.World.Keeps.{Keeps-if, Keeps-pure}

module _ {R : Queues → Type 0} (movable : Movable R) where
  own_update-Keeps : (i : ℕ) (f : Activity → Activity) → Keeps (OnQueues movable) (update i f)
  own_update-Keeps = update-Keeps (on_queues movable)

  own_emit-Keeps : (e : Effect) → Keeps (OnQueues movable) (emit e)
  own_emit-Keeps = emit-Keeps (on_queues movable)

  ruleset own_rules = (
    keeps_rules, own_update-Keeps, own_emit-Keeps, end_activity-Keeps, send_command-Keeps,
    run_if_runnable-Keeps, inform_activity_not_ready-Keeps, check_ready_queue-Keeps,
  )

  pub fire-Keeps : (i : ℕ) → Keeps (OnQueues movable) (fire i)
  unfolding fire
  fire-Keeps i = search own_rules

  pub callback_failed-Keeps : (t : Bool) (i : ℕ) → Keeps (OnQueues movable) (callback_failed t i)
  unfolding callback_failed request_requeue_activity
  callback_failed-Keeps t i = search own_rules

  pub yield-Keeps : (i : ℕ) → Keeps (OnQueues movable) (yield_activity i)
  unfolding yield_activity
  yield-Keeps i = search own_rules depth 12

  not_ready-Keeps : (i : ℕ) → Keeps (OnQueues movable) (not_ready_if_waiting i)
  unfolding not_ready_if_waiting
  not_ready-Keeps i = search own_rules depth 12

  pub add_requirement-Keeps :
      (n : Text) (r : ℕ) (met : Bool) (i : ℕ) → Keeps (OnQueues movable) (add_requirement n r met i)
  unfolding add_requirement
  add_requirement-Keeps n r met i = search (own_rules, not_ready-Keeps) depth 12

  pub remove_requirement-Keeps : (r i : ℕ) → Keeps (OnQueues movable) (remove_requirement r i)
  unfolding remove_requirement
  remove_requirement-Keeps r i = search own_rules

  remove_named_found-Keeps :
      (n : Text) (r : Option ℕ) (i : ℕ) → Keeps (OnQueues movable) (Handlers.remove_found n r i)
  remove_named_found-Keeps n none i = search own_rules
  remove_named_found-Keeps n (some r) i = search own_rules

  pub remove_named-Keeps :
      (n : Text) (i : ℕ) → Keeps (OnQueues movable) (remove_requirement_named n i)
  unfolding remove_requirement_named
  remove_named-Keeps n i = search (own_rules, remove_named_found-Keeps)

  pub requirement_met-Keeps : (r i : ℕ) → Keeps (OnQueues movable) (requirement_met r i)
  unfolding requirement_met
  requirement_met-Keeps r i = search own_rules depth 12

  pub requirement_unmet-Keeps : (r i : ℕ) → Keeps (OnQueues movable) (requirement_unmet r i)
  unfolding requirement_unmet
  requirement_unmet-Keeps r i = search (own_rules, not_ready-Keeps) depth 12

  pub requirement_updated-Keeps : (i : ℕ) → Keeps (OnQueues movable) (requirement_updated i)
  unfolding requirement_updated
  requirement_updated-Keeps i = search own_rules

  pub hook-Keeps : (c i : ℕ) → Keeps (OnQueues movable) (hook_persist_command c i)
  unfolding hook_persist_command
  hook-Keeps c i = search own_rules

  pub unhook-Keeps : (c i : ℕ) → Keeps (OnQueues movable) (unhook_persist_command c i)
  unfolding unhook_persist_command
  unhook-Keeps c i = search own_rules depth 12

  lock_power-Keeps : (i : ℕ) (p : Option PowerActivity) → Keeps (OnQueues movable) (lock_power i p)
  lock_power-Keeps i none = search own_rules
  lock_power-Keeps i (some p) =
      Keeps-if _ _ _
        (Keeps-bind _ _ (own_update-Keeps i _)
          (λ _. power_locked_notification-Keeps (on_queues movable) i))
        (Keeps-pure _)

  pub power_locked-Keeps : (i : ℕ) → Keeps (OnQueues movable) (power_locked i)
  unfolding power_locked
  power_locked-Keeps i = search (own_rules, lock_power-Keeps)

  unlock_power-Keeps :
      (i : ℕ) (p : Option PowerActivity) → Keeps (OnQueues movable) (unlock_power i p)
  unlock_power-Keeps i none = search own_rules
  unlock_power-Keeps i (some p) = search own_rules depth 12

  pub power_unlocked-Keeps : (i : ℕ) → Keeps (OnQueues movable) (power_unlocked i)
  unfolding power_unlocked
  power_unlocked-Keeps i = search (own_rules, unlock_power-Keeps)

  pub add_subscription-Keeps :
      (s : Subscription) (i : ℕ) → Keeps (OnQueues movable) (add_subscription s i)
  unfolding add_subscription
  add_subscription-Keeps s i = search own_rules depth 12

  orphaned-Keeps : (i : ℕ) → Keeps (OnQueues movable) (orphaned i)
  unfolding orphaned
  orphaned-Keeps i = search own_rules depth 12

  adopt_first-Keeps : (i : ℕ) (ps : List ℕ) → Keeps (OnQueues movable) (adopt_first i ps)
  adopt_first-Keeps i [] = search own_rules
  adopt_first-Keeps i (p ∷ rest) = own_update-Keeps i _

  do_adopt-Keeps : (i : ℕ) → Keeps (OnQueues movable) (do_adopt i)
  unfolding do_adopt
  do_adopt-Keeps i = search (own_rules, adopt_first-Keeps)

  succeed_parent-Keeps :
      (i : ℕ) (ps : List ℕ) (left : Bool) → Keeps (OnQueues movable) (succeed_parent i ps left)
  succeed_parent-Keeps i [] left = search (own_rules, orphaned-Keeps)
  succeed_parent-Keeps i (p ∷ rest) left = own_update-Keeps i _

  remove_found-Keeps :
      (sid : ℕ) (s : Subscription) (i : ℕ) → Keeps (OnQueues movable) (Family.remove_found sid s i)
  remove_found-Keeps sid s i = search (own_rules, succeed_parent-Keeps) depth 30 fits 2000

  remove_if_found-Keeps :
      (sid : ℕ) (s : Option Subscription) (i : ℕ)
      → Keeps (OnQueues movable) (remove_if_found sid s i)
  remove_if_found-Keeps sid none i = search own_rules
  remove_if_found-Keeps sid (some s) i = remove_found-Keeps sid s i

  pub remove_subscription-Keeps : (sid i : ℕ) → Keeps (OnQueues movable) (remove_subscription sid i)
  unfolding remove_subscription
  remove_subscription-Keeps sid i = search (own_rules, remove_if_found-Keeps)

  pub set_parent-Keeps : (sid i : ℕ) → Keeps (OnQueues movable) (set_parent sid i)
  unfolding set_parent
  set_parent-Keeps sid i = search own_rules

  pub adopt-Keeps : (sid : ℕ) (wait : Bool) (i : ℕ) → Keeps (OnQueues movable) (adopt sid wait i)
  unfolding adopt
  adopt-Keeps sid wait i = search (own_rules, do_adopt-Keeps) depth 12

  pub release-Keeps : (caller : BusId) (i : ℕ) → Keeps (OnQueues movable) (release caller i)
  unfolding release
  release-Keeps caller i = search (own_rules, do_adopt-Keeps) depth 16

  pub complete-Keeps :
      (caller : BusId) (force : Bool) (i : ℕ) → Keeps (OnQueues movable) (complete caller force i)
  unfolding complete
  complete-Keeps caller force i = search own_rules depth 12
