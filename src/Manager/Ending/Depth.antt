-- ===== src/Manager/Ending/Depth.antt =====
-- Activity::EndActivity calls itself at most once from within: what a third nested call would do does not count.
use activitymanager.Prelude.{ℕ, ◌≡◌, ◌⊎◌, Bool, true, false, not, Option}
use activitymanager.Schedule.{Schedule}
use activitymanager.Activity.{Activity, PowerActivity, should_requeue}
use activitymanager.World.{World, M, U, when}
use activitymanager.Manager.Ending.{drop_trigger_and_schedule}
use activitymanager.Manager.Ending.Unqueued.{NothingQueued}
use activitymanager.Manager.Ending.Tail.{calls_back_at_once}

-- A state of an ending Activity from which EndActivity makes no further call of itself.
pub record IsLast (i : ℕ) (w : World) : Type 0 where
  pub no_call : calls_back_at_once (w.acts i).power_activity ≡ false
  pub no_queue : (should_requeue (w.acts i) ≡ true) ⊎ NothingQueued i w

abbrev power_of : ℕ → World → Option PowerActivity
power_of i w = (w.acts i).power_activity

-- The write of `ending`, of the power state.
abbrev ending_set : Activity → Activity
ending_set a = record a { ending = true }

-- The first part of EndActivity.
abbrev dropped : Bool → ℕ → M U
dropped requeue i = when (not requeue) (drop_trigger_and_schedule i)
