-- ===== src/Schedule/Reschedule.antt =====
-- Whether a schedule runs again: IntervalSchedule::ShouldReschedule, and the finished times.
use activitymanager.Prelude.{ℕ, ◌+◌, ◌<◌, ◌≡◌, ◌≢◌, true, suc, ap, arith, ltb}
use activitymanager.Prelude.Int.{
  ℤ, pos, negsuc, ◌+ℤ◌, ◌-ℤ◌, ◌<ℤ◌, eqb_ℤ_iff, ltb_ℤ_iff, -ℤ_parts, +ℤ-cancel_left, one_sided,
}
use activitymanager.Schedule.{
  Schedule, Kind, unbounded, u32_mod, should_reschedule, inform_activity_finished,
}

-- An interval schedule whose end lies 0 to 2 ^ 32 - 1 seconds after its next start runs again
-- exactly when more than one interval is left until the end.
pub should_reschedule_before_end :
    (s : Schedule) (left : ℕ)
    → s.kind ≢ Kind.once
    → s.end ≢ unbounded
    → left < u32_mod
    → s.end ≡ s.next_start +ℤ pos left
    → should_reschedule s ≡ ltb s.interval_secs left
unfolding should_reschedule
should_reschedule_before_end s left interval bounded fits e = ground (
  arith,
  eqb_ℤ_iff s.end unbounded,
  +ℤ-cancel_left s.next_start (pos left),
  ap (λ (x : ℤ). x -ℤ s.next_start) e,
)

minus_of_past : (e n : ℤ) (d : ℕ) → n ≡ e +ℤ pos (suc d) → e -ℤ n ≡ negsuc d
unfolding ◌-ℤ◌ ◌+ℤ◌
minus_of_past e n d h = ground arith

-- An interval schedule whose end has been passed by its next start still runs again, as long as
-- the interval is shorter than 2 ^ 32 less the seconds passed since the end.
pub should_reschedule_after_end :
    (s : Schedule) (past : ℕ)
    → s.kind ≢ Kind.once
    → s.end ≢ unbounded
    → s.next_start ≡ s.end +ℤ pos (suc past)
    → past + s.interval_secs + 1 < u32_mod
    → should_reschedule s ≡ true
unfolding should_reschedule
should_reschedule_after_end s past interval bounded e fits =
    ground (arith, eqb_ℤ_iff s.end unbounded, minus_of_past s.end s.next_start past e)

-- A finished time is recorded only when it lies after the start, and it never moves before the start.
pub inform_activity_finished_after_start :
    (now : ℤ) (s : Schedule)
    → s.kind ≢ Kind.once
    → (s.start <ℤ now → (inform_activity_finished now s).last_finished ≡ now)
      × (¬ (s.start <ℤ now) → inform_activity_finished now s ≡ s)
unfolding inform_activity_finished
inform_activity_finished_after_start now s interval =
    ground
      (arith, ltb_ℤ_iff (pos 0) (now -ℤ s.start), -ℤ_parts now s.start, one_sided (now -ℤ s.start))
