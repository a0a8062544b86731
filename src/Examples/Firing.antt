-- ===== src/Examples/Firing.antt =====
-- Triggers and the messages that reach them.
use activitymanager.Prelude.{◌≡◌, refl, ◌∷◌, [], List, Bool, true, false, none, some}
use activitymanager.Types.{Text, text_eq}
use activitymanager.Json.{Value, string, object, end, field, Answer, gives}
use activitymanager.Matcher.{Simple, new_simple, simple_match, key_match}
use activitymanager.Trigger.{
  BusCodes, Message, ExclusiveTrigger, Notice, create_trigger, arm_exclusive, fire_exclusive,
  subscribe, basic_match, arrives, run, is_permanent_failure, is_protocol_error, process_message,
  process_response,
}
use activitymanager.Trigger.Firing.{firings, first_firing, left, times, run-first_firing}
use activitymanager.Trigger.Rearmed.{rearmed_fires}

abbrev codes : BusCodes
codes = record {
  error_category = 1 ∷ [];
  permission_denied = 2 ∷ [];
  service_not_exist = 3 ∷ [];
  unknown_method = 4 ∷ [];
}

-- The service is down, which passes; a response without the key "a", and one with it; a lasting error.
abbrev down : Message
down = record {
  category = some (1 ∷ []);
  method = some (5 ∷ []);
  error = true;
  payload = object end;
}

abbrev no_key : Message
no_key = record { category = none; method = none; error = false; payload = object end }

abbrev key : Message
key = record {
  category = none;
  method = none;
  error = false;
  payload = object (field (97 ∷ []) (string (120 ∷ [])) end);
}

abbrev denied : Message
denied = record {
  category = some (1 ∷ []);
  method = some (2 ∷ []);
  error = true;
  payload = object end;
}

abbrev by_key : Text → Value → Answer (Bool × Text)
by_key k v = gives (key_match k v, k)

abbrev keyed : ExclusiveTrigger Text
keyed = record {
  owner = 7;
  matcher = 97 ∷ [];
  subscribed = true;
  triggered = false;
  response = none;
}

keyed_armed : arm_exclusive 7 (create_trigger 7 (97 ∷ [])) ≡ some (keyed, Notice.called ∷ [])
unfolding arm_exclusive create_trigger subscribe
keyed_armed = refl

denied_is_permanent : is_permanent_failure codes denied ≡ true
unfolding is_permanent_failure is_protocol_error text_eq
denied_is_permanent = refl

abbrev messages : List Message
messages = down ∷ no_key ∷ key ∷ key ∷ denied ∷ []

run-first_firing_example :
    ((run by_key codes messages keyed).0
      ≡ left (first_firing codes (key_match (97 ∷ [])) messages) keyed)
    × (firings (run by_key codes messages keyed).1
        ≡ times (first_firing codes (key_match (97 ∷ [])) messages))
run-first_firing_example =
    run-first_firing by_key codes (key_match (97 ∷ [])) keyed refl (λ v. refl) messages

abbrev basic : ExclusiveTrigger Simple
basic = record {
  owner = 7;
  matcher = new_simple;
  subscribed = true;
  triggered = false;
  response = none;
}

-- Armed again after it has fired, as for an Activity that restarts.
abbrev rearmed : ExclusiveTrigger Simple
rearmed = record {
  owner = 7;
  matcher = record { setup_complete = true };
  subscribed = true;
  triggered = false;
  response = some (object (field (97 ∷ []) (string (120 ∷ [])) end));
}

basic-rearmed :
    arm_exclusive 7 (run basic_match codes (no_key ∷ key ∷ []) basic).0
    ≡ some (rearmed, Notice.called ∷ [])
unfolding arm_exclusive subscribe arrives process_message process_response simple_match
basic-rearmed = refl

rearmed_fires_example :
    arrives basic_match codes no_key rearmed ≡ fire_exclusive (object end) rearmed
rearmed_fires_example =
    rearmed_fires codes basic no_key no_key (key ∷ []) 7 (rearmed, Notice.called ∷ []) refl refl
      basic-rearmed refl
