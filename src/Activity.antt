-- ===== src/Activity.antt =====
-- src/Activity.cpp and include/internal/Activity.h: the record of one Activity, and what it computes
-- from its own fields. What an Activity does with the Activity Manager stands in Manager.
-- A shared pointer to an Activity, a Subscription, a Requirement or a persist command is a number.
pub mod Events
pub mod Status
use activitymanager.Prelude.{
  ℕ, Bool, true, false, not, ◌&&◌, ◌||◌, Option, none, some, List, [], ◌∷◌, ◌++◌, map, is_some,
  is_empty, if◌then◌else◌,
}
use activitymanager.Types.{
  State, Command, Event, Priority, BusId, BusIdType, bus_null, Text, is, background_priority,
}
use activitymanager.Subscription.{Subscription}
use activitymanager.Schedule.{Schedule, should_reschedule}

-- MojoExclusiveTrigger of src/MojoTrigger.cpp, with its subscription set, as MojoTriggerManager
-- leaves it: whether it has fired, and whether the subscription is subscribed.
pub record Trigger : Type 0 where
  pub triggered : Bool
  pub subscribed : Bool

-- The callback; Call() reports an error when it cannot be issued, which is known beforehand here.
pub record Callback : Type 0 where
  pub call_fails : Bool

-- PowerActivity of src/PowerActivity.cpp and src/PowerdPowerActivity.cpp.
pub data PowerKind : Type 0 where
  noop powerd : PowerKind

pub data PowerState : Type 0 where
  locked unlocked unknown : PowerState

pub record PowerActivity : Type 0 where
  pub kind : PowerKind
  pub current : PowerState
  pub target : PowerState

pub data BusType : Type 0 where
  public_bus private_bus : BusType

pub record Activity : Type 0 where
  pub id : ℕ
  pub name : Text
  pub creator : BusId
  pub persistent : Bool
  pub explicit : Bool
  pub immediate : Bool
  pub priority : Priority
  pub use_simple_type : Bool
  pub focused : Bool
  pub continuous : Bool
  pub user_initiated : Bool
  pub power_debounce : Bool
  pub bus : BusType
  pub initialized : Bool
  pub scheduled : Bool
  pub ready : Bool
  pub running : Bool
  pub ending : Bool
  pub terminate : Bool
  pub restart : Bool
  pub requeue : Bool
  pub yielding : Bool
  pub released : Bool
  pub int_command : Command
  pub ext_command : Command
  pub sent_command : Command
  pub adopters : List ℕ
  pub subscriptions : List Subscription
  pub subscribers : List BusId
  pub requirements : List (Text × ℕ)
  pub met_requirements : List ℕ
  pub unmet_requirements : List ℕ
  pub parent : Option ℕ
  pub released_parent : Option ℕ
  pub trigger : Option Trigger
  pub callback : Option Callback
  pub schedule : Option Schedule
  pub power_activity : Option PowerActivity
  pub persist_commands : List ℕ
  pub associations : List ℕ

-- The constructor.
unfoldable pub new_activity : ℕ → Activity
new_activity id = record {
  id = id;
  name = [];
  creator = record { id = []; type = bus_null };
  persistent = false;
  explicit = false;
  immediate = false;
  priority = background_priority;
  use_simple_type = true;
  focused = false;
  continuous = false;
  user_initiated = false;
  power_debounce = false;
  bus = BusType.public_bus;
  initialized = false;
  scheduled = false;
  ready = false;
  running = false;
  ending = false;
  terminate = false;
  restart = false;
  requeue = false;
  yielding = false;
  released = true;
  int_command = Command.none;
  ext_command = Command.none;
  sent_command = Command.none;
  adopters = [];
  subscriptions = [];
  subscribers = [];
  requirements = [];
  met_requirements = [];
  unmet_requirements = [];
  parent = none;
  released_parent = none;
  trigger = none;
  callback = none;
  schedule = none;
  power_activity = none;
  persist_commands = [];
  associations = [];
}

-- ComputeNextExternalCommand: cancel, stop, complete, pause and start, in that order of priority.
unfoldable pub compute_next_external_command : Activity → Command
compute_next_external_command a =
    if is a.int_command Command.cancel || is a.ext_command Command.cancel
    then Command.cancel
    else if is a.int_command Command.stop || is a.ext_command Command.stop
    then Command.stop
    else if is a.ext_command Command.complete
    then Command.complete
    else if is a.int_command Command.pause || is a.ext_command Command.pause
    then Command.pause
    else if is a.ext_command Command.start
    then Command.start
    else Command.none

-- Whether there is a trigger that has not fired; a schedule that has not come up.
abbrev pub untriggered : Option Trigger → Bool
untriggered none = false
untriggered (some t) = not t.triggered

abbrev pub unscheduled : Option Schedule → Bool
unscheduled none = false
unscheduled (some s) = not s.scheduled

-- IsRunnable.
unfoldable pub is_runnable : Activity → Bool
unfolding compute_next_external_command
is_runnable a =
    if a.scheduled && not a.ending
    then if not (is (compute_next_external_command a) Command.start)
      then false
      else if untriggered a.trigger
      then false
      else if unscheduled a.schedule
      then false
      else is_empty a.unmet_requirements
    else false

abbrev pub reschedules : Option Schedule → Bool
reschedules none = false
reschedules (some s) = should_reschedule s

-- ShouldRestart and ShouldRequeue.
unfoldable pub should_restart : Activity → Bool
should_restart a =
    is_some a.callback
    && (not a.terminate && (a.restart || (a.persistent || (a.explicit || reschedules a.schedule))))

unfoldable pub should_requeue : Activity → Bool
should_requeue a = is_some a.callback && (not a.terminate && (a.requeue && not a.restart))

abbrev ended_state : Command → State
ended_state Command.cancel = State.cancelled
ended_state Command.stop = State.stopped
ended_state Command.complete = State.complete
ended_state _ = State.unknown

abbrev ending_state : Command → State
ending_state Command.cancel = State.cancelling
ending_state Command.stop = State.stopping
ending_state Command.complete = State.complete
ending_state _ = State.unknown

-- GetState.
unfoldable pub get_state : Activity → State
get_state a =
    if a.ending
    then if is_empty a.subscriptions
      then ended_state a.sent_command
      else ending_state a.sent_command
    else if a.running
    then if is a.sent_command Command.pause
      then State.paused
      else if is a.sent_command Command.start
      then State.running
      else State.starting
    else if a.scheduled
    then if not (is_empty a.unmet_requirements)
      then State.blocked
      else if a.ready && not a.running
      then State.queued
      else State.waiting
    else State.init

-- IsRunning.
unfoldable pub is_running : Activity → Bool
is_running a = a.running && not a.ending
