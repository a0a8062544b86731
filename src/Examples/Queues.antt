-- ===== src/Examples/Queues.antt =====
-- The run queues of a busy manager.
use activitymanager.Prelude.{◌≤◌, ◌≡◌, refl, arith, [], ◌∷◌}
use activitymanager.Activity.{new_activity}
use activitymanager.Activity.Events.{
  broadcast_command_as, broadcast_event, is_persist_command_hooked,
}
use activitymanager.World.{
  ◌>>=◌, gets, modify, pure, linked_in, change, set_act, pushed, unlinked, background_interactive,
}
use activitymanager.Manager.Run.{
  run_all_with_room, run_while_room, run_ready_background, run_activity, start_running,
  do_run_activity, broadcast_command, do_callback, review_yield_timeout, update_yield_timeout,
  check_ready_queue, running_background_count,
}
use activitymanager.Manager.Queues.Linked.{LinkedOnce, times_linked}
use activitymanager.Manager.Queues.Filling.{CallbacksWork}
use activitymanager.Manager.Queues.Levels.{check_ready_queue-bounded}
use activitymanager.Manager.Queues.Serving.{ReadyServed, check_ready_queue_serves}
use activitymanager.Examples.{busy, waiting_activity}

busy-LinkedOnce : LinkedOnce busy.run_queue
unfolding busy times_linked
busy-LinkedOnce i = ground arith

busy-CallbacksWork : CallbacksWork busy
unfolding busy waiting_activity new_activity
busy-CallbacksWork i = refl

check_ready_queue_serves_example : ReadyServed busy (check_ready_queue busy)
check_ready_queue_serves_example = check_ready_queue_serves busy busy-CallbacksWork busy-LinkedOnce

one_runs : running_background_count busy ≤ 2
unfolding running_background_count busy
one_runs = omega arith

check_ready_queue-bounded_example : running_background_count (check_ready_queue busy).1 ≤ 2
unfolding busy
check_ready_queue-bounded_example =
    check_ready_queue-bounded 2 busy (omega arith) (omega arith) (omega arith) (omega arith)
      one_runs

-- The first of the interactive Activities is started, and then there is no room.
check_ready_queue_test : (check_ready_queue busy).1.run_queue background_interactive ≡ 1 ∷ []
unfolding busy check_ready_queue ◌>>=◌ run_all_with_room gets run_while_room
    running_background_count run_ready_background linked_in modify run_activity start_running change
    set_act pushed unlinked waiting_activity do_run_activity broadcast_command_as broadcast_event
    is_persist_command_hooked new_activity broadcast_command do_callback review_yield_timeout
    update_yield_timeout pure
check_ready_queue_test = refl
