-- ===== src/Subscription.antt =====
-- src/Subscription.cpp: the events that an Activity queues to one subscriber.
-- SendEvent, which replies on the bus, is a record of the events sent, oldest first. Whether a
-- persist command is hooked to the Activity is an argument.
pub mod History
pub mod Delivery
pub mod Updates
use activitymanager.Prelude.{
  ℕ, Bool, true, false, not, ◌&&◌, ◌||◌, List, [], ◌∷◌, ◌++◌, if◌then◌else◌, is_empty,
}
use activitymanager.Types.{BusId, Event, is_update}

pub record Subscription : Type 0 where
  pub sid : ℕ
  pub subscriber : BusId
  pub detailed_events : Bool
  pub plugged : Bool
  pub event_queue : List Event
  pub sent : List Event

unfoldable pub new_subscription : ℕ → BusId → Bool → Subscription
new_subscription sid subscriber detailed = record {
  sid = sid;
  subscriber = subscriber;
  detailed_events = detailed;
  plugged = false;
  event_queue = [];
  sent = [];
}

unfoldable pub is_plugged : Bool → Subscription → Bool
is_plugged hooked s = s.plugged || hooked

unfoldable pub send_event : Event → Subscription → Subscription
send_event e s = record s { sent = s.sent ++ (e ∷ []) }

-- QueueEvent. An update is dropped for a subscriber without details, and behind another event.
unfoldable pub queue_event : Bool → Event → Subscription → Subscription
unfolding is_plugged send_event
queue_event hooked e s =
    if is_update e && not s.detailed_events
    then s
    else if not (is_plugged hooked s)
    then send_event e s
    else if is_update e && not (is_empty s.event_queue)
    then s
    else record s { event_queue = s.event_queue ++ (e ∷ []) }

unfoldable pub plug : Subscription → Subscription
plug s = record s { plugged = true }

-- The loop of Unplug that sends what was held back.
unfoldable pub flush : List Event → Subscription → Subscription
flush [] s = s
flush (e ∷ rest) s = flush rest (send_event e (record s { event_queue = rest }))

unfoldable pub unplug : Bool → Subscription → Subscription
unplug hooked s =
    let t = record s { plugged = false } in if hooked then t else flush t.event_queue t
