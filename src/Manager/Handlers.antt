-- ===== src/Manager/Handlers.antt =====
-- What the other parts tell an Activity (src/Activity.cpp): triggers, callbacks, requirements,
-- subscriptions, parents, persist commands and power.
use activitymanager.Prelude.{
  erase_first, ℕ, Bool, true, false, not, ◌&&◌, Option, none, some, List, [], ◌∷◌, ◌++◌, is_empty,
  remove, if◌then◌else◌, ◌==◌,
}
use activitymanager.Types.{Command, Event, Text, text_eq}
use activitymanager.Activity.{Activity, Trigger, PowerActivity, locked, unlocked}
use activitymanager.Activity.Events.{broadcast_event, unplug_all_subscriptions}
use activitymanager.World.{M, U, ◌>>=◌, ◌>>◌, skip, when, act, update}
use activitymanager.Manager.Run.{
  inform_activity_not_ready, run_if_runnable, power_locked_notification, set_power, is_locked,
}
use activitymanager.Manager.Ending.{end_activity, send_command}

-- MojoExclusiveTrigger::Fire, and Activity::Triggered, which it calls.
abbrev pub fired : Option Trigger → Option Trigger
fired none = none
fired (some t) = some (record t { triggered = true; subscribed = false })

unfoldable pub fire : ℕ → M U
fire i = do update i (λ a. record a { trigger = fired a.trigger }); run_if_runnable i

-- RequestRequeueActivity and CallbackFailed.
unfoldable pub request_requeue_activity : ℕ → M U
request_requeue_activity i = do update i (λ a. record a { requeue = true }); end_activity i

unfoldable pub callback_failed : Bool → ℕ → M U
callback_failed transient i =
    if transient
    then request_requeue_activity i
    else do update i (λ a. record a { terminate = true }); send_command Command.cancel true i

-- YieldActivity.
unfoldable pub yield_activity : ℕ → M U
yield_activity i = do
  a ← act i
  when (not a.yielding) do
    update i (λ a. broadcast_event Event.yield (record a { yielding = true; requeue = true }))
    end_activity i

-- Taking a requirement off the list that it is linked in.
abbrev pub unlink_requirement : ℕ → Activity → Activity
unlink_requirement r a = record a {
  met_requirements = remove r a.met_requirements;
  unmet_requirements = remove r a.unmet_requirements;
}

unfoldable pub not_ready_if_waiting : ℕ → M U
not_ready_if_waiting i = do
  a ← act i
  when (not a.running && a.ready)
      do update i (λ a. record a { ready = false }); inform_activity_not_ready i

-- `m_requirements[name] = requirement`: one of that name that was there is destroyed, and so unlinked.
abbrev pub replace_named : Text → ℕ → List (Text × ℕ) → List (Text × ℕ)
replace_named n r [] = (n, r) ∷ []
replace_named n r ((m, s) ∷ rest) =
    let more = replace_named n r rest in if text_eq m n then (n, r) ∷ rest else (m, s) ∷ more

abbrev pub find_named : Text → List (Text × ℕ) → Option ℕ
find_named n [] = none
find_named n ((m, s) ∷ rest) = let more = find_named n rest in if text_eq m n then some s else more

abbrev pub erase_named : Text → List (Text × ℕ) → List (Text × ℕ)
erase_named n [] = []
erase_named n ((m, s) ∷ rest) =
    let more = erase_named n rest in if text_eq m n then rest else (m, s) ∷ more

abbrev pub unlink_old : Option ℕ → Activity → Activity
unlink_old none a = a
unlink_old (some s) a = unlink_requirement s a

-- AddRequirement, of a requirement that is this Activity's own.
unfoldable pub add_requirement : Text → ℕ → Bool → ℕ → M U
add_requirement n r met i = do
  update i (λ a. unlink_requirement r (
      unlink_old (find_named n a.requirements)
        (record a { requirements = replace_named n r a.requirements })))
  if met then update i (λ a. record a { met_requirements = a.met_requirements ++ (r ∷ []) }) else do
    update i (λ a. record a { unmet_requirements = a.unmet_requirements ++ (r ∷ []) })
    not_ready_if_waiting i

-- RemoveRequirement, by the object and by its name.
unfoldable pub remove_requirement : ℕ → ℕ → M U
remove_requirement r i = do update i (unlink_requirement r); run_if_runnable i

abbrev pub remove_found : Text → Option ℕ → ℕ → M U
remove_found n none i = skip
remove_found n (some r) i = do
  update i (λ a. unlink_requirement r (record a { requirements = erase_named n a.requirements }))
  run_if_runnable i

unfoldable pub remove_requirement_named : Text → ℕ → M U
remove_requirement_named n i = do a ← act i; remove_found n (find_named n a.requirements) i

-- RequirementMet, RequirementUnmet and RequirementUpdated, of a requirement of this Activity.
unfoldable pub requirement_met : ℕ → ℕ → M U
requirement_met r i = do
  update i (λ a.
      let b = unlink_requirement r a in
      broadcast_event Event.update (record b { met_requirements = b.met_requirements ++ (r ∷ []) }))
  a ← act i
  when (is_empty a.unmet_requirements) (run_if_runnable i)

unfoldable pub requirement_unmet : ℕ → ℕ → M U
requirement_unmet r i = do
  update i (λ a.
      let b = unlink_requirement r a in
      record b { unmet_requirements = b.unmet_requirements ++ (r ∷ []) })
  not_ready_if_waiting i
  update i (broadcast_event Event.update)

unfoldable pub requirement_updated : ℕ → M U
requirement_updated i = update i (broadcast_event Event.update)

-- HookPersistCommand and UnhookPersistCommand, of a command that is this Activity's own.
unfoldable pub hook_persist_command : ℕ → ℕ → M U
hook_persist_command c i =
    update i (λ a. record a { persist_commands = a.persist_commands ++ (c ∷ []) })

abbrev pub unhooked : ℕ → List ℕ → Activity → Activity
unhooked c [] a = a
unhooked c (front ∷ rest) a =
    if front == c
    then (let b = record a { persist_commands = rest } in
        if is_empty rest then unplug_all_subscriptions b else b)
    else record a { persist_commands = front ∷ erase_first c rest }

unfoldable pub unhook_persist_command : ℕ → ℕ → M U
unhook_persist_command c i = do
  update i (λ a. unhooked c a.persist_commands a)
  a ← act i
  when (a.ending && is_empty a.persist_commands) (end_activity i)

-- The power daemon's answers where it succeeds: PowerdPowerActivity's notifications, which call the Activity's.
abbrev pub lock_power : ℕ → Option PowerActivity → M U
lock_power i none = skip
lock_power i (some p) =
    when (not (is_locked p.current))
      do update i (set_power locked p.target); power_locked_notification i

unfoldable pub power_locked : ℕ → M U
power_locked i = do a ← act i; lock_power i a.power_activity

abbrev pub unlock_power : ℕ → Option PowerActivity → M U
unlock_power i none = skip
unlock_power i (some p) = do
  update i (set_power unlocked p.target)
  a ← act i
  when a.ending (end_activity i)

unfoldable pub power_unlocked : ℕ → M U
power_unlocked i = do a ← act i; unlock_power i a.power_activity
