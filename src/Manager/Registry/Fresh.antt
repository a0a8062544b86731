-- ===== src/Manager/Registry/Fresh.antt =====
-- New ids, and lookup after registration (src/ActivityManager.cpp).
use activitymanager.Prelude.{
  ℕ, zero, suc, ◌+◌, ◌≤◌, ◌<◌, ◌≡◌, true, false, arith, Option, none, some, List, [], ◌∷◌, ◌==◌,
  refl, if◌then◌else◌, length, Bool-cases, inl, inr, leb,
}
use activitymanager.Activity.{Activity, new_activity}
use activitymanager.World.{
  World, Error, done, raised, raise, gets, modify, pure, ◌>>=◌, change, set_act,
}
use activitymanager.Manager.Registry.{
  find_entry, or_raise, register_at, register_activity_id, get_activity, id_taken, free_id,
  get_new_activity,
}
use activitymanager.Types.{BusIdType, bus_null, bus_app, bus_service, bus_anon}
use activitymanager.Types.BusOrder.{text_eq_refl, bus_eq_iff}
use activitymanager.Manager.Registry.{
  same_key, key_test, find_key, register_activity_name, get_activity_named,
}

-- How many Activities of the table have an id of at least `key`.
unfoldable count_from : ℕ → (ℕ → Activity) → List ℕ → ℕ
count_from key acts [] = 0
count_from key acts (i ∷ is) = (if leb key (acts i).id then 1 else 0) + count_from key acts is

count_from-le : (key : ℕ) (acts : ℕ → Activity) (is : List ℕ) → count_from key acts is ≤ length is
unfolding count_from
count_from-le key acts [] = omega arith
count_from-le key acts (i ∷ is) = ground (arith, count_from-le key acts is)

count_from_mono :
    (key : ℕ) (acts : ℕ → Activity) (is : List ℕ)
    → count_from (key + 1) acts is ≤ count_from key acts is
unfolding count_from
count_from_mono key acts [] = omega arith
count_from_mono key acts (i ∷ is) = ground (arith, count_from_mono key acts is)

-- Fewer are left above an id that is taken.
count_from_taken :
    (key : ℕ) (acts : ℕ → Activity) (is : List ℕ)
    → id_taken acts key is ≡ true
    → count_from (key + 1) acts is < count_from key acts is
unfolding count_from
count_from_taken key acts [] h = ground arith
count_from_taken key acts (i ∷ is) h =
    ground (arith, count_from_taken key acts is, count_from_mono key acts is)

-- None is taken when there is no Activity from it on.
untaken :
    (key : ℕ) (acts : ℕ → Activity) (is : List ℕ)
    → count_from key acts is ≡ 0
    → id_taken acts key is ≡ false
unfolding count_from
untaken key acts [] h = refl
untaken key acts (i ∷ is) h = ground (arith, untaken key acts is)

free_id-free :
    (rounds : ℕ) (acts : ℕ → Activity) (table : List ℕ) (key : ℕ)
    → count_from key acts table ≤ rounds
    → id_taken acts (free_id rounds acts table key) table ≡ false
unfolding free_id
free_id-free zero acts table key h = ground (arith, untaken key acts table)
free_id-free (suc rounds) acts table key h =
    ground (arith, count_from_taken key acts table, free_id-free rounds acts table (key + 1))

free_id-le :
    (rounds : ℕ) (acts : ℕ → Activity) (table : List ℕ) (key : ℕ)
    → key ≤ free_id rounds acts table key
unfolding free_id
free_id-le zero acts table key = omega arith
free_id-le (suc rounds) acts table key = ground (arith, free_id-le rounds acts table (key + 1))

-- GetNewActivity returns, the id it gives was free, is at least the counter, and the next call will try
-- a larger one; the Activity stands at its place with that id, freshly constructed.
pub get_new_activity_fresh :
    (place : ℕ) (w : World)
    → (key : ℕ) × ((get_new_activity place w).0 ≡ done key)
      × (id_taken w.acts key w.id_table ≡ false)
      × (w.next_activity_id ≤ key)
      × ((get_new_activity place w).1.next_activity_id ≡ key + 1)
      × ((get_new_activity place w).1.acts place ≡ new_activity key)
unfolding get_new_activity ◌>>=◌ gets modify pure change set_act
get_new_activity_fresh place w =
    let n = length w.id_table in
    (
      free_id n w.acts w.id_table w.next_activity_id,
      refl,
      free_id-free n w.acts w.id_table w.next_activity_id
          (count_from-le w.next_activity_id w.acts w.id_table),
      free_id-le n w.acts w.id_table w.next_activity_id,
      refl,
      ground arith,
    )

-- What a lookup answers, in a world that it leaves as it is.
found-get :
    (key : ℕ) (w : World)
    → get_activity key w ≡ or_raise (find_entry key w.activities) Error.id_not_found w
unfolding get_activity ◌>>=◌ gets
found-get key w = refl

or_raise-same :
    (e : Option ℕ) (w v : World)
    → or_raise e Error.id_not_found v ≡ ((or_raise e Error.id_not_found w).0, v)
unfolding pure raise
or_raise-same none w v = refl
or_raise-same (some i) w v = refl

-- What stands in front of the map is found.
registered_found :
    (k key i j : ℕ) (w : World)
    → k ≡ key
    → let v = record w { activities = (key, i) ∷ w.activities } in
      register_at k j (find_entry k v.activities) v ≡ (raised Error.id_registered, v)
unfolding raise
registered_found k key i j w same =
    let found : (key == k) ≡ true = ground (arith, same) in rw found refl

-- An Activity registered while its id is not in use: the call returns, afterwards the Activity is found
-- by its id, the lookup of every other id answers what it did before, and registering any Activity of that id is
-- refused and changes nothing.
pub register-get_activity :
    (i key : ℕ) (w : World)
    → find_entry (w.acts i).id w.activities ≡ none
    → let (r, v) = register_activity_id i w in
      (r ≡ done tt)
      × (get_activity key v
          ≡ (if (w.acts i).id == key then (done i, v) else ((get_activity key w).0, v)))
      × ((j : ℕ)
          → (w.acts j).id ≡ (w.acts i).id
          → register_activity_id j v ≡ (raised Error.id_registered, v))
unfolding register_activity_id get_activity ◌>>=◌ gets modify pure raise
register-get_activity i key w free = rw free (
  refl,
  elim (Bool-cases ((w.acts i).id == key)) [
    | inl same ↦ rw same refl
    | inr other ↦ rw other (
        or_raise-same (find_entry key w.activities) w
          (record w { activities = ((w.acts i).id, i) ∷ w.activities }))
  ],
  λ j same. registered_found (w.acts j).id (w.acts i).id i j w same,
)

same_key_refl : (a : Activity) → same_key a.name a.creator a ≡ true
same_key_refl a = rw (text_eq_refl a.name) ((bus_eq_iff a.creator a.creator).0.1 refl)

key_test_refl : (a : Activity) (t : BusIdType) → key_test a.name a.creator t a ≡ true
key_test_refl a bus_null = same_key_refl a
key_test_refl a bus_app = same_key_refl a
key_test_refl a bus_service = same_key_refl a
key_test_refl a bus_anon = text_eq_refl a.name

-- An Activity registered by name while its creator has none of that name in the table: the call returns,
-- afterwards the Activity is found by its name and creator, and registering it again is refused.
pub register-get_activity_named :
    (i : ℕ) (w : World)
    → find_key w.acts (same_key (w.acts i).name (w.acts i).creator) w.name_table ≡ none
    → let (r, v) = register_activity_name i w in
      (r ≡ done tt)
      × (get_activity_named (w.acts i).name (w.acts i).creator v ≡ (done i, v))
      × (register_activity_name i v ≡ (raised Error.name_registered, v))
unfolding register_activity_name get_activity_named ◌>>=◌ gets modify pure raise
register-get_activity_named i w free =
    let a = w.acts i in
    rw free (refl, rw (key_test_refl a a.creator.type) refl, rw (same_key_refl a) refl)
