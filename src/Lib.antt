-- ===== src/Lib.antt =====
-- The Activity Manager: a service that starts, schedules, pauses and ends Activities on behalf of the
-- applications of a device.
--
-- The program. An Activity (src/Activity.cpp) is a piece of work that waits for a trigger, a schedule and
-- requirements, and then runs, which means that its subscribers are told and its callback is called. The
-- Activity Manager (src/ActivityManager.cpp) holds the Activities by id and by name, and in run queues;
-- it decides which of the ready ones may run. The Scheduler (src/Scheduler.cpp) keeps the schedules
-- (src/Schedule.cpp, src/IntervalSchedule.cpp) in order and wakes the service when one comes up. A
-- Subscription (src/Subscription.cpp) brings events to a subscriber, and holds them back while the
-- Activity is being persisted. The classes call each other back and forth, in one thread: the main
-- loop makes one call at a time and that call runs to its end.
--
-- The files.
--   Prelude, Prelude/...   what the components share: library names, tests, lists, integers.
--   Types                  include/internal/ActivityTypes.h and src/BusId.cpp.
--   Schedule               src/Schedule.cpp and src/IntervalSchedule.cpp: one record for the four classes,
--                          `kind` tells which. Schedule/Duration: the durations as text.
--   Subscription           src/Subscription.cpp; Subscription/History: histories of one subscription.
--   Scheduler              src/Scheduler.cpp: the queues and the wake-up.
--   Activity               src/Activity.cpp: the record and what an Activity computes from it; Activity/Events:
--                          what it does with its subscriptions.
--   World                  the state that all handlers share, and the actions on it; World/Keeps and
--                          World/Returns: rules for what actions keep, and for those that return.
--   Manager/Run            CheckReadyQueue, RunActivity and what they call, with PowerActivity::Begin.
--   Manager/Timing         ScheduleActivity and the Scheduler's calls of Activities: ProcessQueue and
--                          DequeueAndUpdateTimeout, also where a callback throws.
--   Manager/Ending         EndActivity, SendCommand, RestartActivity, RequeueActivity.
--   Manager/Handlers       triggers, callbacks, requirements, persist commands, the power daemon's answers.
--   Manager/Family         subscriptions, parents, Adopt, Release, Complete.
--   Manager/Control        commands, focus, Enable and Disable, eviction, the yield timeout.
--   Manager/Registry       ids and names.
--   Manager/Calls          the calls that the main loop makes, as data, and what each does.
--   Manager/Queues         invariants of the run queues through all of these.
--   Json                   the values on the bus, as far as the matchers read them.
--   Matcher                src/MojoMatcher.cpp; Matcher/Where and Matcher/Clauses: the where clauses, plain and of
--                          src/MojoWhereMatcher.cpp, which nest.
--   Trigger                src/MojoTrigger.cpp with src/MojoTriggerSubscription.cpp: a trigger by itself, with the
--                          matcher and the messages of its call.
--   Resources              src/BusEntity.cpp and src/ResourceManager.cpp, with Activity::SetFocus: which Activities
--                          take part in which entity on the bus; Resources/History: histories of calls;
--                          Resources/View: what they promise, without order and pointers.
--   Containers             src/ContainerManager.cpp and src/ResourceContainer.cpp: entities in containers.
--   Powerd                 src/PowerdPowerActivity.cpp by itself: the power lock, with failures and its timer.
--   Persist                src/PersistCommand.cpp: the chain of commands that persist Activities.
--   Requirements           src/RequirementManager.cpp: the registry of requirement managers.
--   Examples               concrete states, tests, and each property at one of them.
-- A method of the source has the name of its definition in snake case: Activity::EndActivity is
-- `end_activity`, ActivityManager::CheckReadyQueue is `check_ready_queue`.
--
-- The model. An Activity, a subscription, a requirement and a persist command are known by a number, their
-- place in memory. An action takes the world and returns a result or an error beside the world that it
-- has reached, since a handler that throws leaves what it has written. Calls of parts that are
-- not modelled are recorded in order as effects. Whether a call of a callback can be issued is a
-- field of the callback. The matchers, triggers with their subscriptions, entities, containers, the power lock, the chain of persist commands and
-- the registry of requirement managers have states of their own; entities read the focus and the
-- priority of the Activities, and containers read the entities.
--
-- Bounds and fuel. `time_t` and ids are unbounded; `unsigned` intervals wrap at 2 ^ 32 where the source
-- casts, and a sum of ints that overflows is an outcome of its own. The loops of CheckReadyQueue, ScheduleAllActivities and RunAllReadyActivities each take one item
-- off a queue per round, and are given its length. The search for a free id is given the number of the
-- Activities that hold one. EndActivity calls itself through the power activity, and then has no
-- further call to make; its fuel is 2, and running out would be an error of its own, which Manager/Ending/Depth
-- rules out. The loops over a chain of persist commands are given more rounds than the chain is long.
--
-- Not modelled: JSON conversion, the tokens of persist commands and the database, the bus methods' parsing
-- and replies, the managers that meet requirements, the writes of control groups, and start-up,
-- logging and main loop. How MojObject compares two values and gives the text of one are parameters.
pub mod Prelude
pub mod Types
pub mod Schedule
pub mod Subscription
pub mod Activity
pub mod Scheduler
pub mod World
pub mod Manager
pub mod Json
pub mod Matcher
pub mod Resources
pub mod Containers
pub mod Powerd
pub mod Persist
pub mod Requirements
pub mod Trigger
pub mod Examples
