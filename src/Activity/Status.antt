-- ===== src/Activity/Status.antt =====
-- What the state that an Activity reports says of it, and when it may run.
use activitymanager.Prelude.{◌≡◌, ◌≢◌, ◌⊎◌, ◌↔◌, true, false, [], arith, if◌then◌else◌}
use activitymanager.Types.{State, Command, is_final}
use activitymanager.Activity.{
  Activity, compute_next_external_command, is_runnable, get_state, untriggered, unscheduled,
}

-- An Activity is runnable exactly when it is scheduled and not ending, the external command is start,
-- no internal cancel, stop or pause command stands, its trigger has fired, its schedule has come
-- up, and no requirement is unmet.
pub is_runnable_iff :
    (a : Activity)
    → (is_runnable a ≡ true) ↔ (
        (a.scheduled ≡ true)
        × (a.ending ≡ false)
        × (a.ext_command ≡ Command.start)
        × (a.int_command ≢ Command.cancel)
        × (a.int_command ≢ Command.stop)
        × (a.int_command ≢ Command.pause)
        × (untriggered a.trigger ≡ false)
        × (unscheduled a.schedule ≡ false)
        × (a.unmet_requirements ≡ []))
unfolding is_runnable
is_runnable_iff a = ground arith

-- The next command is cancel exactly when either command is cancel, and start exactly when the external
-- command is start and no internal cancel, stop or pause command stands; and it is a final one
-- exactly when the external command is final or the internal one is cancel or stop.
pub next_command_priority :
    (a : Activity)
    → let next = compute_next_external_command a in
      ((next ≡ Command.cancel)
        ↔ ((a.int_command ≡ Command.cancel) ⊎ (a.ext_command ≡ Command.cancel)))
      × ((next ≡ Command.start) ↔ (
          (a.ext_command ≡ Command.start)
          × (a.int_command ≢ Command.cancel)
          × (a.int_command ≢ Command.stop)
          × (a.int_command ≢ Command.pause)))
      × ((is_final next ≡ true) ↔ (
          (is_final a.ext_command ≡ true)
          ⊎ ((a.int_command ≡ Command.cancel) ⊎ (a.int_command ≡ Command.stop))))
unfolding compute_next_external_command
next_command_priority a = ground arith

-- A runnable Activity that is not running is reported as queued when it has asked to run, and as
-- waiting when it has not.
pub get_state-is_runnable :
    (a : Activity)
    → is_runnable a ≡ true
    → a.running ≡ false
    → get_state a ≡ (if a.ready then State.queued else State.waiting)
unfolding is_runnable get_state
get_state-is_runnable a runnable idle = ground (arith, runnable, idle)
