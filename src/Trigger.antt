-- ===== src/Trigger.antt =====
-- src/MojoTrigger.cpp and src/MojoTriggerSubscription.cpp: an exclusive trigger by itself, with its subscription and
-- the matcher, and src/MojoCall.cpp as far as it tells which errors are lasting. What it does to the Activity and
-- to its call is given as notices. Messages come from the Luna bus; the
-- codes of the bus are a parameter. The subscription that CreateTrigger sets is there throughout.
pub mod Firing
pub mod Rearmed
use activitymanager.Prelude.{
  ℕ, Bool, true, false, not, ◌&&◌, ◌||◌, ◌==◌, Option, none, some, List, [], ◌∷◌, ◌++◌,
  if◌then◌else◌,
}
use activitymanager.Types.{Text, text_eq}
use activitymanager.Json.{Value, Answer, gives, throws}
use activitymanager.Matcher.{Simple, simple_match}

-- The codes that luna-service2 gives for errors of the bus itself.
pub record BusCodes : Type 0 where
  pub error_category : Text
  pub permission_denied : Text
  pub service_not_exist : Text
  pub unknown_method : Text

-- A message on the call: category and method, where it has them, whether it carries an error, and its payload.
pub record Message : Type 0 where
  pub category : Option Text
  pub method : Option Text
  pub error : Bool
  pub payload : Value

abbrev in_category : BusCodes → Option Text → Bool
in_category codes none = false
in_category codes (some c) = text_eq codes.error_category c

-- MojoCall::IsProtocolError.
unfoldable pub is_protocol_error : BusCodes → Message → Bool
is_protocol_error codes m = if not m.error then false else in_category codes m.category

abbrev is_lasting : BusCodes → Option Text → Bool
is_lasting codes none = false
is_lasting codes (some c) =
    text_eq c codes.permission_denied
    || (text_eq c codes.service_not_exist || text_eq c codes.unknown_method)

-- MojoCall::IsPermanentFailure.
unfoldable pub is_permanent_failure : BusCodes → Message → Bool
is_permanent_failure codes m =
    if not m.error
    then false
    else if not (is_protocol_error codes m)
    then true
    else is_lasting codes m.method

-- `subscribed` is whether the subscription has its call, m_call; `response` is m_response.
pub record ExclusiveTrigger (M : Type 0) : Type 0 where
  pub owner : ℕ
  pub matcher : M
  pub subscribed : Bool
  pub triggered : Bool
  pub response : Option Value

-- Activity::Triggered, and MojoCall::Call of the subscription's call, a new one or once more.
pub data Notice : Type 0 where
  fired called called_again : Notice

-- A new trigger, as CreateTrigger makes it with its subscription.
unfoldable pub create_trigger : {M : Type 0} → ℕ → M → ExclusiveTrigger M
create_trigger i matcher = record {
  owner = i;
  matcher = matcher;
  subscribed = false;
  triggered = false;
  response = none;
}

-- Subscribe and Unsubscribe of the subscription.
unfoldable pub subscribe : {M : Type 0} → ExclusiveTrigger M → ExclusiveTrigger M × List Notice
subscribe t = if t.subscribed then (t, []) else (record t { subscribed = true }, called ∷ [])

abbrev pub unsubscribe : {M : Type 0} → ExclusiveTrigger M → ExclusiveTrigger M
unsubscribe t = record t { subscribed = false }

-- Arm; none where it throws, for an Activity that is not the owner.
unfoldable pub arm_exclusive :
    {M : Type 0} → ℕ → ExclusiveTrigger M → Option (ExclusiveTrigger M × List Notice)
arm_exclusive i t = if i == t.owner then some (subscribe (record t { triggered = false })) else none

-- Disarm, likewise.
unfoldable pub disarm_exclusive :
    {M : Type 0} → ℕ → ExclusiveTrigger M → Option (ExclusiveTrigger M)
disarm_exclusive i t =
    if i == t.owner then some (unsubscribe (record t { triggered = false })) else none

-- IsArmed and IsTriggered.
abbrev pub is_armed : {M : Type 0} → ℕ → ExclusiveTrigger M → Bool
is_armed i t = (i == t.owner) && t.subscribed

abbrev pub is_triggered : {M : Type 0} → ℕ → ExclusiveTrigger M → Bool
is_triggered i t = (i == t.owner) && t.triggered

-- Fire, after the response has been kept.
abbrev pub fire_exclusive :
    {M : Type 0} → Value → ExclusiveTrigger M → ExclusiveTrigger M × List Notice
fire_exclusive v t =
    (record t { subscribed = false; triggered = true; response = some v }, fired ∷ [])

-- Match of the basic trigger's matcher.
abbrev pub basic_match : Simple → Value → Answer (Bool × Simple)
basic_match m v = gives (simple_match m)

module _ {M : Type 0} (match : M → Value → Answer (Bool × M)) (codes : BusCodes) where
  -- What an exception leaves is the trigger as it was, since MojoCall::HandleResponseWrapper catches it.
  abbrev pub matched :
      Value → ExclusiveTrigger M → Answer (Bool × M) → ExclusiveTrigger M × List Notice
  matched v t (throws e) = (t, [])
  matched v t (gives (true, m)) = fire_exclusive v (record t { matcher = m })
  matched v t (gives (false, m)) = (record t { matcher = m }, [])

  -- MojoExclusiveTrigger::ProcessResponse.
  unfoldable pub process_response :
      Value → Bool → ExclusiveTrigger M → ExclusiveTrigger M × List Notice
  process_response v true t = fire_exclusive v t
  process_response v false t = matched v t (match t.matcher v)

  -- MojoTriggerSubscription::ProcessResponse.
  unfoldable pub process_message : Message → ExclusiveTrigger M → ExclusiveTrigger M × List Notice
  process_message m t =
      if m.error && not (is_permanent_failure codes m)
      then (t, called_again ∷ [])
      else process_response m.payload m.error t

  -- A message reaches the trigger only while the subscription has its call.
  unfoldable pub arrives : Message → ExclusiveTrigger M → ExclusiveTrigger M × List Notice
  arrives m t = if t.subscribed then process_message m t else (t, [])

  abbrev pub run : List Message → ExclusiveTrigger M → ExclusiveTrigger M × List Notice
  run [] t = (t, [])
  run (m ∷ ms) t = let now = arrives m t in let later = run ms now.0 in (later.0, now.1 ++ later.1)
