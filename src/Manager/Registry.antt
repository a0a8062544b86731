-- ===== src/Manager/Registry.antt =====
-- Activities by id and by name (src/ActivityManager.cpp). Ids are given in sequence, as without
-- ACTIVITYMANAGER_RANDOM_IDS; an id is an unbounded number.
pub mod Fresh
use activitymanager.Prelude.{
  ℕ, zero, suc, ◌+◌, Bool, true, false, not, ◌&&◌, ◌||◌, Option, none, some, List, [], ◌∷◌, ◌++◌,
  contains, remove, length, if◌then◌else◌, ◌==◌,
}
use activitymanager.Types.{BusId, BusIdType, bus_anon, Text, bus_eq, text_eq}
use activitymanager.Activity.{Activity, new_activity}
use activitymanager.World.{
  World, Error, M, U, pure, raise, gets, ◌>>=◌, ◌>>◌, modify, skip, when, act, update,
}

abbrev pub find_entry : ℕ → List (ℕ × ℕ) → Option ℕ
find_entry key [] = none
find_entry key ((k, i) ∷ rest) = let more = find_entry key rest in if k == key then some i else more

abbrev pub or_raise : Option ℕ → Error → M ℕ
or_raise none e = raise e
or_raise (some i) e = pure i

-- RegisterActivityId.
abbrev pub register_at : ℕ → ℕ → Option ℕ → M U
register_at key i none = modify (λ w. record w { activities = (key, i) ∷ w.activities })
register_at key i (some j) = raise Error.id_registered

unfoldable pub register_activity_id : ℕ → M U
register_activity_id i = do
  a ← act i
  w ← gets (λ w. w)
  register_at a.id i (find_entry a.id w.activities)

-- GetActivity by id.
unfoldable pub get_activity : ℕ → M ℕ
get_activity key = do w ← gets (λ w. w); or_raise (find_entry key w.activities) Error.id_not_found

-- The name table holds at most one Activity of a name and creator.
abbrev pub same_key : Text → BusId → Activity → Bool
same_key n b a = text_eq a.name n && bus_eq a.creator b

abbrev pub find_key : (ℕ → Activity) → (Activity → Bool) → List ℕ → Option ℕ
find_key acts p [] = none
find_key acts p (i ∷ is) = let more = find_key acts p is in if p (acts i) then some i else more

abbrev pub insert_name : ℕ → Option ℕ → M U
insert_name i none = modify (λ w. record w { name_table = i ∷ w.name_table })
insert_name i (some j) = raise Error.name_registered

-- RegisterActivityName and UnregisterActivityName.
unfoldable pub register_activity_name : ℕ → M U
register_activity_name i = do
  a ← act i
  w ← gets (λ w. w)
  insert_name i (find_key w.acts (same_key a.name a.creator) w.name_table)

unfoldable pub unregister_activity_name : ℕ → M U
unregister_activity_name i = do
  w ← gets (λ w. w)
  if contains i w.name_table
      then modify (λ w. record w { name_table = remove i w.name_table })
      else raise Error.name_not_registered

abbrev pub key_test : Text → BusId → BusIdType → Activity → Bool
key_test n b bus_anon a = text_eq a.name n
key_test n b _ a = same_key n b a

-- GetActivity by name and creator; an anonymous creator stands for any.
unfoldable pub get_activity_named : Text → BusId → M ℕ
get_activity_named n b = do
  w ← gets (λ w. w)
  or_raise (find_key w.acts (key_test n b b.type) w.name_table) Error.name_not_found

-- Whether an instantiated Activity has the id.
abbrev pub id_taken : (ℕ → Activity) → ℕ → List ℕ → Bool
id_taken acts key [] = false
id_taken acts key (i ∷ is) = ((acts i).id == key) || id_taken acts key is

-- The loop of GetNewActivity: the first id from `key` on that is free. One of the next
-- length + 1 ids is; the rounds are bounded by that.
unfoldable pub free_id : ℕ → (ℕ → Activity) → List ℕ → ℕ → ℕ
free_id zero acts table key = key
free_id (suc rounds) acts table key =
    let next = free_id rounds acts table (key + 1) in if id_taken acts key table then next else key

-- GetNewActivity, at a place in memory that the allocator chooses.
unfoldable pub get_new_activity : ℕ → M ℕ
get_new_activity place = do
  w ← gets (λ w. w)
  let key = free_id (length w.id_table) w.acts w.id_table w.next_activity_id
  update place (λ a. new_activity key)
  modify (λ w. record w { id_table = place ∷ w.id_table; next_activity_id = key + 1 })
  pure key

-- GetNewActivity(id): the id is forced, also when it is in use.
unfoldable pub get_new_activity_with_id : ℕ → ℕ → M U
get_new_activity_with_id place key = do
  update place (λ a. new_activity key)
  modify (λ w. record w { id_table = place ∷ w.id_table })
