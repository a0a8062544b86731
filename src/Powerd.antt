-- ===== src/Powerd.antt =====
-- src/PowerdPowerActivity.cpp by itself: the power lock that an Activity holds at the power daemon, with the calls
-- that fail and the timer, as built without ACTIVITYMANAGER_RENEW_POWER_ACTIVITIES: a lock that runs out is not
-- renewed. What it does to the Activity is given as notices.
pub mod Settling
use activitymanager.Prelude.{
  Bool, true, false, not, ◌&&◌, ◌||◌, Option, none, some, List, [], ◌∷◌, ◌++◌, if◌then◌else◌,
}
use activitymanager.Activity.{PowerState, locked, unlocked, unknown}

-- The calls of activityStart, with the duration of a lock or of a debounce, and of activityEnd.
pub data RemoteCall : Type 0 where
  creates debounces removes : RemoteCall

-- `call` is m_call, the call in flight, if any; `armed` is whether m_timeout is there and armed.
pub record Lock : Type 0 where
  pub current : PowerState
  pub target : PowerState
  pub call : Option RemoteCall
  pub armed : Bool

-- PowerLockedNotification and PowerUnlockedNotification of the Activity.
pub data Notice : Type 0 where
  power_locked power_unlocked : Notice

abbrev pub Result : Type 0
Result = Lock × List Notice

abbrev pub is_locked : PowerState → Bool
is_locked locked = true
is_locked _ = false

abbrev pub is_unlocked : PowerState → Bool
is_unlocked unlocked = true
is_unlocked _ = false

-- The constructor.
unfoldable pub new_lock : Lock
new_lock = record { current = unlocked; target = unlocked; call = none; armed = false }

-- The call is issued, or, where its parameters cannot be put together, the notification is faked.
abbrev pub create_or_fake : Bool → Lock → Result
create_or_fake fails l =
    if fails
    then (record l { current = locked }, power_locked ∷ [])
    else (record l { call = some creates }, [])

abbrev pub remote_end : Bool → RemoteCall
remote_end debounce = if debounce then debounces else removes

abbrev pub end_or_fake : Bool → Bool → Lock → Result
end_or_fake debounce fails l =
    if fails
    then (record l { current = unlocked }, power_unlocked ∷ [])
    else (record l { call = some (remote_end debounce) }, [])

-- Begin.
unfoldable pub begin : Bool → Lock → Result
begin fails l =
    if is_locked l.current || is_locked l.target
    then (l, [])
    else create_or_fake fails
        (record { current = unknown; target = locked; call = none; armed = false })

-- End.
unfoldable pub end : Bool → Bool → Lock → Result
end debounce fails l =
    if is_unlocked l.current || is_unlocked l.target
    then (l, [])
    else end_or_fake debounce fails
        (record { current = unknown; target = unlocked; call = none; armed = false })

-- PowerLockedNotification; `error` is that of the answer, `fails` that of the retry.
unfoldable pub power_locked_answer : Bool → Bool → Lock → Result
power_locked_answer false fails l = (
  record l { current = locked; call = none; armed = true },
  if not (is_locked l.current) then power_locked ∷ [] else [],
)
power_locked_answer true fails l =
    let without = record l { call = none } in
    if fails
    then if not (is_locked l.current)
      then (record without { current = locked }, power_locked ∷ [])
      else (without, [])
    else (record without { call = some creates }, [])

-- PowerUnlockedNotification.
unfoldable pub power_unlocked_answer : Bool → Bool → Bool → Lock → Result
power_unlocked_answer debounce false fails l =
    (record l { current = unlocked; call = none }, power_unlocked ∷ [])
power_unlocked_answer debounce true fails l = end_or_fake debounce fails (record l { call = none })

-- The answer to the call in flight: each call has its notification.
unfoldable pub answer : Bool → Bool → Option RemoteCall → Lock → Result
answer error fails none l = (l, [])
answer error fails (some creates) l = power_locked_answer error fails l
answer error fails (some debounces) l = power_unlocked_answer true error fails l
answer error fails (some removes) l = power_unlocked_answer false error fails l

-- TimeoutNotification, of a timer that is armed: it warns, and the timer has run out.
unfoldable pub time_out : Lock → Result
time_out l = (record l { armed = false }, [])

pub data Event : Type 0 where
  begins : Bool → Event
  ends : Bool → Bool → Event
  answers : Bool → Bool → Event
  times_out : Event

unfoldable pub perform : Event → Lock → Result
perform (begins fails) l = begin fails l
perform (ends debounce fails) l = end debounce fails l
perform (answers error fails) l = answer error fails l.call l
perform times_out l = time_out l

unfoldable pub run : List Event → Lock → Lock
run [] l = l
run (e ∷ es) l = run es (perform e l).0
