-- ===== src/Manager/Family.antt =====
-- Subscribers and parents of an Activity: AddSubscription, RemoveSubscription, SetParent, Adopt,
-- Release, Complete and what they call (src/Activity.cpp).
pub mod Rights
use activitymanager.Prelude.{
  erase_first, ℕ, Bool, true, false, not, ◌&&◌, ◌||◌, Option, none, some, List, [], ◌∷◌, ◌++◌,
  is_empty, is_some, remove, contains, if◌then◌else◌, ◌==◌,
}
use activitymanager.Types.{Command, Event, BusId, bus_eq, bus_ne, bus_lt}
use activitymanager.Subscription.{Subscription}
use activitymanager.Activity.{Activity}
use activitymanager.Activity.Events.{notify}
use activitymanager.World.{
  World, Effect, Error, M, U, pure, raise, gets, ◌>>=◌, ◌>>◌, modify, skip, when, act, update, emit,
}
use activitymanager.Manager.Ending.{end_activity, send_command}

abbrev pub subscribed_as : BusId → List BusId → Bool
subscribed_as b [] = false
subscribed_as b (c ∷ cs) = bus_eq c b || subscribed_as b cs

-- Insertion in the multiset of subscribers.
abbrev pub insert_subscriber : BusId → List BusId → List BusId
insert_subscriber b [] = b ∷ []
insert_subscriber b (c ∷ cs) =
    let rest = insert_subscriber b cs in if bus_lt b c then b ∷ c ∷ cs else c ∷ rest

abbrev pub remove_subscriber : BusId → List BusId → List BusId
remove_subscriber b [] = []
remove_subscriber b (c ∷ cs) =
    let rest = remove_subscriber b cs in if bus_eq c b then cs else c ∷ rest

abbrev pub find_subscription : ℕ → List Subscription → Option Subscription
find_subscription sid [] = none
find_subscription sid (s ∷ ss) =
    let more = find_subscription sid ss in if s.sid == sid then some s else more

abbrev pub remove_subscription_from : ℕ → List Subscription → List Subscription
remove_subscription_from sid [] = []
remove_subscription_from sid (s ∷ ss) =
    let rest = remove_subscription_from sid ss in if s.sid == sid then ss else s ∷ rest

-- AddSubscription.
unfoldable pub add_subscription : Subscription → ℕ → M U
add_subscription s i = do
  a ← act i
  let known = subscribed_as s.subscriber a.subscribers
  update i (λ a. record a {
    subscriptions = s ∷ a.subscriptions;
    subscribers = insert_subscriber s.subscriber a.subscribers;
  })
  when (not known && a.running) (emit (Effect.associates_id i s.subscriber))

-- Orphaned.
unfoldable pub orphaned : ℕ → M U
orphaned i = do
  a ← act i
  if a.ending
      then skip
      else if a.running
      then send_command Command.cancel true i
      else if a.scheduled
      then when (not (is_some a.callback)) (send_command Command.cancel true i)
      else send_command Command.cancel true i

-- DoAdopt, given the adopters.
abbrev pub notify_if_any : Option ℕ → Event → Activity → Activity
notify_if_any none e a = a
notify_if_any (some p) e a = notify p e a

abbrev pub adopt_first : ℕ → List ℕ → M U
adopt_first i [] = raise Error.no_adopters
adopt_first i (p ∷ rest) = update i λ a.
    let told = notify_if_any a.released_parent Event.adopted a in
    record (notify p Event.orphan told) {
      released_parent = none;
      parent = some p;
      adopters = rest;
      released = false;
      ending = false;
    }

unfoldable pub do_adopt : ℕ → M U
do_adopt i = do a ← act i; adopt_first i a.adopters

-- The parent that has left is replaced by the first adopter, or the Activity is an orphan.
abbrev pub is_parent : ℕ → Option ℕ → Bool
is_parent sid none = false
is_parent sid (some p) = p == sid

abbrev pub drop_if : ℕ → Option ℕ → Option ℕ
drop_if sid none = none
drop_if sid (some p) = if p == sid then none else some p

abbrev pub succeed_parent : ℕ → List ℕ → Bool → M U
succeed_parent i [] left_over = when left_over (orphaned i)
succeed_parent i (p ∷ rest) left_over =
    update i (λ a. notify p Event.orphan (record a { parent = some p; adopters = rest }))

-- RemoveSubscription, once the subscription is found.
abbrev pub remove_found : ℕ → Subscription → ℕ → M U
remove_found sid s i = do
  update i (λ a. record a {
    subscriptions = remove_subscription_from sid a.subscriptions;
    subscribers = remove_subscriber s.subscriber a.subscribers;
  })
  a ← act i
  when (not (subscribed_as s.subscriber a.subscribers) && a.running)
      (emit (Effect.dissociates_id i s.subscriber))
  update i (λ a. record a {
    adopters = erase_first sid a.adopters;
    released_parent = drop_if sid a.released_parent;
    parent = drop_if sid a.parent;
  })
  b ← act i
  when (is_parent sid a.parent) (succeed_parent i b.adopters (not (is_empty b.subscriptions)))
  c ← act i
  when (is_empty c.subscriptions) (end_activity i)

abbrev pub remove_if_found : ℕ → Option Subscription → ℕ → M U
remove_if_found sid none i = raise Error.invalid_arg
remove_if_found sid (some s) i = remove_found sid s i

unfoldable pub remove_subscription : ℕ → ℕ → M U
remove_subscription sid i = do
  a ← act i
  remove_if_found sid (find_subscription sid a.subscriptions) i

-- SetParent.
unfoldable pub set_parent : ℕ → ℕ → M U
set_parent sid i = do
  a ← act i
  if is_some a.parent
      then raise Error.parent_set
      else update i (λ a. record a { parent = some sid; released = false })

-- Adopt; the result tells whether the caller is the parent now.
unfoldable pub adopt : ℕ → Bool → ℕ → M Bool
adopt sid wait i = do
  update i (λ a. record a { adopters = a.adopters ++ (sid ∷ []) })
  a ← act i
  if is_some a.parent
      then if wait then pure false else raise Error.would_block
      else do_adopt i >> pure true

-- Whether the parent is a subscription of the caller.
abbrev pub owner_of : Option Subscription → Option BusId
owner_of none = none
owner_of (some s) = some s.subscriber

abbrev pub parent_owner : Activity → Option ℕ → Option BusId
parent_owner a none = none
parent_owner a (some p) = owner_of (find_subscription p a.subscriptions)

abbrev pub is_owner : BusId → Option BusId → Bool
is_owner caller none = false
is_owner caller (some b) = bus_eq b caller

unfoldable pub owned_by : BusId → Activity → Bool
owned_by caller a = is_owner caller (parent_owner a a.parent)

-- Release. An Activity that is not released has a parent, which m_parent.lock() relies on.
unfoldable pub release : BusId → ℕ → M U
release caller i = do
  a ← act i
  if a.released
      then raise Error.invalid_arg
      else if not (is_some a.parent)
      then raise Error.null_dereference
      else if not (owned_by caller a)
      then raise Error.access_denied
      else do
        update i (λ a. record a { released_parent = a.parent; parent = none; released = true })
        when (not (is_empty a.adopters)) (do_adopt i)

-- Complete: the parent, while the Activity is not released, and the creator may complete it.
unfoldable pub complete : BusId → Bool → ℕ → M U
complete caller force i = do
  a ← act i
  if not force && ((a.released || not (owned_by caller a)) && bus_ne caller a.creator)
      then raise Error.access_denied
      else send_command Command.complete false i
