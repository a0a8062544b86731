-- ===== src/Manager/Queues/Handling.antt =====
-- The queues while Activities are scheduled, end and are told of things: Manager.Timing, Manager.Ending
-- and Manager.Handlers.
use activitymanager.Prelude.{ℕ, zero, suc, Bool, true, false, Option, none, some, List, [], ◌∷◌}
use activitymanager.Prelude.Int.{ℤ}
use activitymanager.Types.{Command}
use activitymanager.Schedule.{Schedule}
use activitymanager.Activity.{Activity, PowerActivity, PowerKind, noop, powerd}
use activitymanager.World.{World, scheduled, initialized, ended, M, U, update, Error}
use activitymanager.World.Keeps.{
  Keeps, Keeps-bind, Keeps-gets, Keeps-modify, Keeps-raise, keeps_rules, Keeps-Leads, Leads-bind,
  Leads-if, Leads-Keeps,
}
use activitymanager.Scheduler.{Scheduler}
use activitymanager.Manager.Run.{broadcast_command}
use activitymanager.Manager.Timing.{
  change_scheduler, schedule_comes_up, process_round, process_queue, with_queue,
  dequeue_and_update_timeout, add_item, remove_item, unqueue_schedule, queue_schedule, queue_if_any,
  schedule_activity, inform_activity_initialized, request_schedule_activity, grant, grant_each,
  schedule_all_activities,
}
use activitymanager.Manager.Ending.{
  inform_activity_end, release_activity, requeue_activity, take_command, send_command_with,
  restart_activity, unqueue_if_queued, drop_trigger_and_schedule, inform_schedule_finished,
  finish_incarnation, end_by, end_power_or, end_activity_with, end_activity_in, end_activity,
  send_command,
}
use activitymanager.Manager.Queues.{
  Queues, Movable, OnQueues, move_then, relink_then, unlink-Keeps, unlink-Leads, push-Leads,
  Away-OnQueues,
}
use activitymanager.Manager.Queues.Running.{
  on_queues, update-Keeps, emit-Keeps, run_if_runnable-Keeps, request_run_activity-Keeps,
  check_ready_queue-Keeps, broadcast_command-Keeps, inform_activity_not_ready-Keeps,
}

module _ {R : Queues → Type 0} (movable : Movable R) where
  own_update-Keeps : (i : ℕ) (f : Activity → Activity) → Keeps (OnQueues movable) (update i f)
  own_update-Keeps = update-Keeps (on_queues movable)

  change_scheduler-Keeps :
      (f : World → Scheduler → Scheduler) → Keeps (OnQueues movable) (change_scheduler f)
  change_scheduler-Keeps f = Keeps-modify _ (λ w h. h)

  ruleset own_rules = (keeps_rules, own_update-Keeps, change_scheduler-Keeps)

  schedule_comes_up-Keeps : (i : ℕ) → Keeps (OnQueues movable) (schedule_comes_up i)
  unfolding schedule_comes_up
  schedule_comes_up-Keeps i = search (own_rules, run_if_runnable-Keeps)

  process_round-Keeps :
      (up : Bool) (i : ℕ) (rest : List ℕ) (next : M U)
      → Keeps (OnQueues movable) next
      → Keeps (OnQueues movable) (process_round up i rest next)
  process_round-Keeps up i rest next k = search own_rules

  process_queue-Keeps :
      (local : Bool) (now : ℤ) (q : List ℕ) → Keeps (OnQueues movable) (process_queue local now q)
  unfolding process_queue
  process_queue-Keeps local now [] = search keeps_rules
  process_queue-Keeps local now (i ∷ rest) = Keeps-bind _ _ (Keeps-gets _) (λ later.
      process_round-Keeps _ i rest _ (
        Keeps-bind _ _ (change_scheduler-Keeps (λ w. with_queue local rest)) (λ _.
          Keeps-bind _ _ (schedule_comes_up-Keeps i) (λ _. process_queue-Keeps local now rest))))

  pub dequeue-Keeps : Keeps (OnQueues movable) dequeue_and_update_timeout
  unfolding dequeue_and_update_timeout
  dequeue-Keeps = search (own_rules, process_queue-Keeps) depth 12

  add_item-Keeps : (i : ℕ) (local : Bool) → Keeps (OnQueues movable) (add_item i local)
  unfolding add_item
  add_item-Keeps i local = search (own_rules, dequeue-Keeps)

  remove_item-Keeps : (i : ℕ) (local : Bool) → Keeps (OnQueues movable) (remove_item i local)
  unfolding remove_item
  remove_item-Keeps i local = search (own_rules, dequeue-Keeps)

  unqueue_schedule-Keeps : (i : ℕ) (s : Schedule) → Keeps (OnQueues movable) (unqueue_schedule i s)
  unfolding unqueue_schedule
  unqueue_schedule-Keeps i s = search (own_rules, remove_item-Keeps)

  queue_schedule-Keeps : (i : ℕ) (s : Schedule) → Keeps (OnQueues movable) (queue_schedule i s)
  unfolding queue_schedule
  queue_schedule-Keeps i s = search (own_rules, add_item-Keeps, unqueue_schedule-Keeps) depth 12

  queue_if_any-Keeps : (i : ℕ) (s : Option Schedule) → Keeps (OnQueues movable) (queue_if_any i s)
  queue_if_any-Keeps i none = search own_rules
  queue_if_any-Keeps i (some s) = queue_schedule-Keeps i s

  schedule_activity-Keeps : (i : ℕ) → Keeps (OnQueues movable) (schedule_activity i)
  unfolding schedule_activity
  schedule_activity-Keeps i =
      search (own_rules, queue_if_any-Keeps, request_run_activity-Keeps) depth 12

  inform_activity_initialized-Keeps :
      (i : ℕ) → Keeps (OnQueues movable) (inform_activity_initialized i)
  unfolding inform_activity_initialized
  inform_activity_initialized-Keeps i = Keeps-Leads (
      Leads-bind _ _ (unlink-Leads movable i)
        (λ _.
          Leads-bind _ _ (Leads-Keeps (Keeps-gets _))
            (λ enabled.
              Leads-if enabled _ _
                (Leads-bind _ _ (push-Leads movable scheduled i)
                  (λ _. Leads-Keeps (schedule_activity-Keeps i)) (λ w h. h))
                (push-Leads movable initialized i))
            (Away-OnQueues movable i))
        (Away-OnQueues movable i))

  pub request_schedule_activity-Keeps :
      (i : ℕ) → Keeps (OnQueues movable) (request_schedule_activity i)
  unfolding request_schedule_activity
  request_schedule_activity-Keeps i = search (own_rules, inform_activity_initialized-Keeps)

  grant-Keeps :
      (i : Option ℕ) (next : M U)
      → Keeps (OnQueues movable) next
      → Keeps (OnQueues movable) (grant i next)
  grant-Keeps none next k = search own_rules
  grant-Keeps (some i) next k =
      relink_then movable scheduled i _ (search (own_rules, schedule_activity-Keeps))

  grant_each-Keeps : (rounds : ℕ) → Keeps (OnQueues movable) (grant_each rounds)
  unfolding grant_each
  grant_each-Keeps zero = search keeps_rules
  grant_each-Keeps (suc rounds) =
      Keeps-bind _ _ (Keeps-gets _) (λ waiting. grant-Keeps _ _ (grant_each-Keeps rounds))

  pub schedule_all-Keeps : Keeps (OnQueues movable) schedule_all_activities
  unfolding schedule_all_activities
  schedule_all-Keeps = search (own_rules, grant_each-Keeps)

  inform_activity_end-Keeps : (i : ℕ) → Keeps (OnQueues movable) (inform_activity_end i)
  unfolding inform_activity_end
  inform_activity_end-Keeps i =
      move_then movable ended i _
        (search (own_rules, emit-Keeps (on_queues movable), check_ready_queue-Keeps))

  release_activity-Keeps : (i : ℕ) → Keeps (OnQueues movable) (release_activity i)
  unfolding release_activity
  release_activity-Keeps i = Keeps-bind _ _ (unlink-Keeps movable i) (λ _.
      Keeps-bind _ _ (Keeps-gets _)
        (λ a. Keeps-bind _ _ (Keeps-modify _ (λ w h. h)) (λ _. check_ready_queue-Keeps movable)))

  requeue_activity-Keeps : (i : ℕ) → Keeps (OnQueues movable) (requeue_activity i)
  unfolding requeue_activity
  requeue_activity-Keeps i =
      search (own_rules, request_run_activity-Keeps, inform_activity_not_ready-Keeps) depth 12

  take_command-Keeps :
      (c : Command) (internal : Bool) (i : ℕ) → Keeps (OnQueues movable) (take_command c internal i)
  unfolding take_command
  take_command-Keeps c true i = search own_rules depth 12
  take_command-Keeps c false i = search (own_rules, request_schedule_activity-Keeps) depth 12

  unqueue_if_queued-Keeps :
      (i : ℕ) (s : Option Schedule) → Keeps (OnQueues movable) (unqueue_if_queued i s)
  unqueue_if_queued-Keeps i none = search own_rules
  unqueue_if_queued-Keeps i (some s) = search (own_rules, unqueue_schedule-Keeps)

  drop-Keeps : (i : ℕ) → Keeps (OnQueues movable) (drop_trigger_and_schedule i)
  unfolding drop_trigger_and_schedule
  drop-Keeps i = search (own_rules, unqueue_if_queued-Keeps) depth 12

  inform_schedule_finished-Keeps : (i : ℕ) → Keeps (OnQueues movable) (inform_schedule_finished i)
  unfolding inform_schedule_finished
  inform_schedule_finished-Keeps i = search own_rules

  -- EndActivity and SendCommand, given a call of EndActivity from within that keeps the property.
  module _ (ends : ℕ → M U) (ends_keep : (i : ℕ) → Keeps (OnQueues movable) (ends i)) where
    own_broadcast-Keeps : (i : ℕ) (c : Command) → Keeps (OnQueues movable) (broadcast_command i c)
    own_broadcast-Keeps = broadcast_command-Keeps (on_queues movable)

    send_command_with-Keeps :
        (c : Command) (internal : Bool) (i : ℕ)
        → Keeps (OnQueues movable) (send_command_with ends c internal i)
    unfolding send_command_with
    send_command_with-Keeps c internal i =
        search
          (
            own_rules, ends_keep, own_broadcast-Keeps, take_command-Keeps,
            request_run_activity-Keeps,
          )
          depth 16

    restart-Keeps : (i : ℕ) → Keeps (OnQueues movable) (restart_activity ends i)
    unfolding restart_activity
    restart-Keeps i =
        Keeps-bind _ _ (own_update-Keeps i _)
          (λ _. Keeps-bind _ _ (Keeps-modify _ (λ w h. h)) (λ _. send_command_with-Keeps _ _ i))

    finish-Keeps :
        (requeue : Bool) (i : ℕ) → Keeps (OnQueues movable) (finish_incarnation ends requeue i)
    unfolding finish_incarnation
    finish-Keeps requeue i =
        search
          (
            own_rules, inform_activity_end-Keeps, requeue_activity-Keeps,
            inform_schedule_finished-Keeps, restart-Keeps, release_activity-Keeps,
          )
          depth 16

    end_by-Keeps :
        (i : ℕ) (k : PowerKind) (p : PowerActivity) → Keeps (OnQueues movable) (end_by ends i k p)
    end_by-Keeps i noop p = search (own_rules, ends_keep) depth 12
    end_by-Keeps i powerd p = search (own_rules, emit-Keeps (on_queues movable)) depth 12

    end_power_or-Keeps :
        (i : ℕ) (p : Option PowerActivity) (rest : M U)
        → Keeps (OnQueues movable) rest
        → Keeps (OnQueues movable) (end_power_or ends i p rest)
    end_power_or-Keeps i none rest k = k
    end_power_or-Keeps i (some p) rest k = search (own_rules, end_by-Keeps)

    end_activity_with-Keeps : (i : ℕ) → Keeps (OnQueues movable) (end_activity_with ends i)
    unfolding end_activity_with
    end_activity_with-Keeps i =
        search (own_rules, drop-Keeps, end_power_or-Keeps, finish-Keeps) depth 16

  end_activity_in-Keeps : (fuel i : ℕ) → Keeps (OnQueues movable) (end_activity_in fuel i)
  unfolding end_activity_in
  end_activity_in-Keeps zero i = Keeps-raise Error.out_of_fuel
  end_activity_in-Keeps (suc fuel) i =
      end_activity_with-Keeps (end_activity_in fuel) (end_activity_in-Keeps fuel) i

  pub end_activity-Keeps : (i : ℕ) → Keeps (OnQueues movable) (end_activity i)
  unfolding end_activity
  end_activity-Keeps i = end_activity_in-Keeps 2 i

  pub send_command-Keeps :
      (c : Command) (internal : Bool) (i : ℕ) → Keeps (OnQueues movable) (send_command c internal i)
  unfolding send_command
  send_command-Keeps = send_command_with-Keeps end_activity end_activity-Keeps
