-- ===== src/Examples/Timing.antt =====
-- Schedules and the scheduler's queues.
use activitymanager.Prelude.{ℕ, ◌*◌, ◌≡◌, refl, arith, true, false, [], ◌∷◌, some}
use activitymanager.Prelude.Int.{pos, ◌+ℤ◌, ◌≤ℤ◌}
use activitymanager.Schedule.{
  Kind, Schedule, next_tick, get_base_start_time, calc_next_start_time, inform_activity_finished,
  should_reschedule, unbounded,
}
use activitymanager.Schedule
use activitymanager.Schedule.Ticks.{FirstAfter, calc_next_start_time-skip, relative_due_at_once}
use activitymanager.Schedule.Reschedule.{should_reschedule_after_end}
use activitymanager.Scheduler.{Scheduler}
use activitymanager.Scheduler.Order.{IsSorted}
use activitymanager.World.{World}
use activitymanager.Manager.Timing.{start_of, process_queue, dequeue_and_update_timeout}
use activitymanager.Manager.Timing.Due.{Taken, process_queue-Taken}
use activitymanager.Manager.Timing.Waking.{Woken, dequeue_and_update_timeout-Woken}
use activitymanager.Examples.{busy, waiting_activity}

-- Every ten minutes from second 100 on, without the runs that are missed; it has run at 1200.
abbrev ten_minutes : Schedule
ten_minutes = record {
  kind = Kind.precise;
  start = pos 100;
  local = false;
  scheduled = false;
  end = pos 3000;
  interval_secs = 600;
  skip = true;
  next_start = pos 1300;
  last_finished = pos 1200;
}

calc_next_start_time-skip_example :
    let next = Schedule.get_next_start_time (calc_next_start_time (pos 0) (pos 1000) ten_minutes) in
    let base = get_base_start_time (pos 0) ten_minutes in
    ((k : ℕ) × (next ≡ base +ℤ pos (k * 600)))
    × (pos 1000 ≤ℤ next)
    × FirstAfter base 600 (pos 1000) next
calc_next_start_time-skip_example =
    calc_next_start_time-skip (pos 0) (pos 1000) ten_minutes (λ h. cc) (omega arith) refl

abbrev relative : Schedule
relative = record ten_minutes { kind = Kind.relative; skip = false }

relative_due_at_once_example :
    Schedule.get_next_start_time
      (calc_next_start_time (pos 0) (pos 2000) (inform_activity_finished (pos 2000) relative))
    ≡ pos 2000
relative_due_at_once_example =
    relative_due_at_once (pos 0) (pos 2000) relative refl (omega arith) (λ h. cc)

abbrev past_its_end : Schedule
past_its_end = record ten_minutes { next_start = pos 3100 }

should_reschedule_after_end_example : should_reschedule past_its_end ≡ true
unfolding ◌+ℤ◌
should_reschedule_after_end_example =
    should_reschedule_after_end past_its_end 99 (λ h. cc) (λ h. cc) refl (omega arith)

-- Activity `i` is to start at second 10 * i.
abbrev once_at : ℕ → Schedule
once_at i = record ten_minutes { kind = Kind.once; start = pos (10 * i) }

abbrev three_wait : Scheduler
three_wait = record {
  queue = 1 ∷ 2 ∷ 5 ∷ [];
  local_queue = [];
  next_wakeup = pos 10;
  wake_scheduled = true;
  local_offset_set = false;
  local_offset = pos 0;
  smart_base = pos 0;
}

abbrev timed : World
timed = record busy {
  acts = λ i. record (waiting_activity i) { schedule = some (once_at i) };
  scheduler = three_wait;
  clock = pos 20;
}

sorted : IsSorted (start_of timed) (1 ∷ 2 ∷ 5 ∷ [])
unfolding start_of Schedule.get_next_start_time waiting_activity
sorted = ground arith

process_queue-Taken_example :
    let (r, v) = process_queue false (pos 20) (1 ∷ 2 ∷ 5 ∷ []) timed in
    Taken false (pos 20) (1 ∷ 2 ∷ 5 ∷ []) timed r v
unfolding busy
process_queue-Taken_example = process_queue-Taken false (pos 20) (1 ∷ 2 ∷ 5 ∷ []) timed refl sorted

dequeue_and_update_timeout-Woken_example : Woken timed (dequeue_and_update_timeout timed)
unfolding busy
dequeue_and_update_timeout-Woken_example = dequeue_and_update_timeout-Woken timed sorted tt
