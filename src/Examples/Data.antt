-- ===== src/Examples/Data.antt =====
-- Identifiers, durations, subscriptions and the state of an Activity.
use activitymanager.Prelude.{
  ℕ, ◌*◌, ◌%◌, ◌<◌, ◌≡◌, ◌≢◌, ◌⊎◌, ◌↔◌, refl, arith, true, false, List, [], ◌∷◌, ◌++◌, ltb,
}
use activitymanager.Types.{Command, Event}
use activitymanager.Subscription.{new_subscription, is_plugged}
use activitymanager.Subscription.History.{Op, run}
use activitymanager.Subscription.Delivery.{essential, queued, delivery_in_order}
use activitymanager.Subscription.Updates.{UpdateFirst, NoUpdate, updates_suppressed}
use activitymanager.Activity.{is_runnable, untriggered, unscheduled}
use activitymanager.Activity.Status.{is_runnable_iff}
use activitymanager.Schedule.Duration.{
  ok, read_group, span_digits, atoi_from, write_group, show, show_before, check_total, check_smart,
  string_to_interval, interval_to_string, among, allowed, int_limit, check_sum,
}
use activitymanager.Schedule.Duration.RoundTrip.{interval_round_trip, smart_round_trip}
use activitymanager.Examples.{maps, waiting_activity}

-- A subscriber without details; two commands are hooked while events come.
abbrev story : List Op
story =
    Op.queues Event.start
    ∷ Op.hooks
    ∷ Op.queues Event.update
    ∷ Op.queues Event.stop
    ∷ Op.unhooks
    ∷ []

delivery_in_order_example :
    let c = run (1, new_subscription 8 maps false) story in
    (essential (c.1.sent ++ c.1.event_queue) ≡ essential (queued story))
    × ((is_plugged (ltb 0 c.0) c.1 ≡ true) ⊎ (c.1.event_queue ≡ []))
delivery_in_order_example = delivery_in_order 1 8 maps false story

updates_suppressed_example :
    let c = run (1, new_subscription 8 maps false) story in
    UpdateFirst c.1.event_queue × ((false ≡ true) ⊎ NoUpdate (c.1.sent ++ c.1.event_queue))
updates_suppressed_example = updates_suppressed 1 8 maps false story

is_runnable_iff_example :
    let a = waiting_activity 3 in
    (is_runnable a ≡ true) ↔ (
      (a.scheduled ≡ true)
      × (a.ending ≡ false)
      × (a.ext_command ≡ Command.start)
      × (a.int_command ≢ Command.cancel)
      × (a.int_command ≢ Command.stop)
      × (a.int_command ≢ Command.pause)
      × (untriggered a.trigger ≡ false)
      × (unscheduled a.schedule ≡ false)
      × (a.unmet_requirements ≡ []))
is_runnable_iff_example = is_runnable_iff (waiting_activity 3)

interval_round_trip_example : string_to_interval (interval_to_string 93784) false ≡ ok 93784
interval_round_trip_example = interval_round_trip 93784 (omega arith)

smart_round_trip_example :
    (◌≡◌ {A = ℕ} 900 900)
    × (0 < 900)
    × (900 < int_limit)
    × ((900 % 86400 ≡ 0) ⊎ ((k : ℕ) × (among k allowed ≡ true) × (900 ≡ k * 60)))
unfolding string_to_interval interval_to_string read_group span_digits atoi_from write_group show
    show_before check_total check_sum check_smart among
smart_round_trip_example = smart_round_trip 900 900 refl
