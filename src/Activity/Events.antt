-- ===== src/Activity/Events.antt =====
-- The subscriptions of an Activity: broadcast, plugging, parents and adoption (src/Activity.cpp).
use activitymanager.Prelude.{ℕ, Bool, not, Option, none, some, map, is_empty, if◌then◌else◌, ◌==◌}
use activitymanager.Types.{Command, Event}
use activitymanager.Subscription.{queue_event, plug, unplug}
use activitymanager.Activity.{Activity}

-- IsPersistCommandHooked.
unfoldable pub is_persist_command_hooked : Activity → Bool
is_persist_command_hooked a = not (is_empty a.persist_commands)

-- BroadcastEvent: every subscription gets the event; the last error is dropped.
unfoldable pub broadcast_event : Event → Activity → Activity
unfolding is_persist_command_hooked
broadcast_event e a = record a {
  subscriptions = map (queue_event (is_persist_command_hooked a) e) a.subscriptions;
}

-- The event goes to one subscription.
unfoldable pub notify : ℕ → Event → Activity → Activity
unfolding is_persist_command_hooked
notify sid e a = record a {
  subscriptions =
      map (λ s. if s.sid == sid then queue_event (is_persist_command_hooked a) e s else s)
        a.subscriptions;
}

unfoldable pub plug_all_subscriptions : Activity → Activity
plug_all_subscriptions a = record a { subscriptions = map plug a.subscriptions }

unfoldable pub unplug_all_subscriptions : Activity → Activity
unfolding is_persist_command_hooked
unplug_all_subscriptions a = record a {
  subscriptions = map (unplug (is_persist_command_hooked a)) a.subscriptions;
}

-- The event that BroadcastCommand sends; `none` where it throws.
abbrev pub event_of : Command → Option Event
event_of Command.start = some Event.start
event_of Command.stop = some Event.stop
event_of Command.cancel = some Event.cancel
event_of Command.pause = some Event.pause
event_of Command.complete = some Event.complete
event_of Command.none = none

-- BroadcastCommand, once the event is known.
unfoldable pub broadcast_command_as : Event → Command → Activity → Activity
unfolding broadcast_event
broadcast_command_as e command a = record (broadcast_event e a) { sent_command = command }
