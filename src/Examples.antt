-- ===== src/Examples.antt =====
-- Concrete states, and the properties applied to them.
pub mod Queues
pub mod Operations
pub mod Timing
pub mod Data
pub mod Matching
pub mod Entities
pub mod Chains
pub mod Firing
use activitymanager.Prelude.{ℕ, true, false, List, [], ◌∷◌, none, some}
use activitymanager.Prelude.Int.{pos}
use activitymanager.Types.{BusId, BusIdType, Text, bus_app, bus_anon, Command}
use activitymanager.Subscription.{Subscription, new_subscription}
use activitymanager.Activity.{Activity, new_activity}
use activitymanager.Scheduler.{new_scheduler}
use activitymanager.World.{World, QueueId, ready, ready_interactive, background}

abbrev pub mail_text : Text
mail_text = 109 ∷ 97 ∷ 105 ∷ 108 ∷ []

abbrev pub mail : BusId
mail = record { id = mail_text; type = bus_app }

abbrev pub maps : BusId
maps = record { id = 109 ∷ 97 ∷ 112 ∷ 115 ∷ []; type = bus_app }

abbrev pub somebody : BusId
somebody = record { id = 109 ∷ []; type = bus_anon }

-- Activities that are scheduled and have been started, each with a callback that works.
unfoldable pub waiting_activity : ℕ → Activity
unfolding new_activity
waiting_activity i = record (new_activity i) {
  initialized = true;
  scheduled = true;
  ready = true;
  ext_command = Command.start;
  callback = some (record { call_fails = false });
}

-- Two interactive Activities and two others wait; one runs.
abbrev pub crowd : QueueId → List ℕ
crowd ready = 3 ∷ 4 ∷ []
crowd ready_interactive = 1 ∷ 2 ∷ []
crowd background = 5 ∷ []
crowd _ = []

-- At most two background Activities may run.
unfoldable pub busy : World
unfolding new_scheduler
busy = record {
  acts = waiting_activity;
  run_queue = crowd;
  activities = [];
  id_table = 1 ∷ 2 ∷ [];
  name_table = [];
  focused_activities = [];
  next_activity_id = 2;
  external_enabled = true;
  ui_enabled = true;
  configuration_loaded = true;
  background_level = 2;
  interactive_level = 2;
  yield_timeout_seconds = 60;
  yield_armed = false;
  scheduler = new_scheduler (pos 0);
  clock = pos 1000;
  effects = [];
}
