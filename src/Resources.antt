-- ===== src/Resources.antt =====
-- src/BusEntity.cpp, the associations of src/Activity.cpp, and src/ResourceManager.cpp: which Activities an
-- entity on the bus takes part in, and the focus and the priority it has from them. A shared pointer to an
-- entity is a number, as one to an Activity is.
pub mod Rank
pub mod Order
pub mod Invariant
pub mod Refocus
pub mod History
pub mod Listed
pub mod View
use activitymanager.Prelude.{
  ℕ, suc, Bool, true, false, not, ◌&&◌, Option, none, some, List, [], ◌∷◌, ltb, ◌==◌, if◌then◌else◌,
  contains, remove,
}
use activitymanager.Types.{Priority, BusId, bus_eq, bus_ne, Text, text_eq}
use activitymanager.Activity.{Activity}

abbrev pub priority_code : Priority → ℕ
priority_code Priority.none = 0
priority_code Priority.lowest = 1
priority_code Priority.low = 2
priority_code Priority.normal = 3
priority_code Priority.high = 4
priority_code Priority.highest = 5

-- BusEntity::ActivityPriorityCompare: focus, then priority, then the pointers.
abbrev pub ranks_before : Bool → Priority → ℕ → Bool → Priority → ℕ → Bool
ranks_before true p i true q j =
    if priority_code p == priority_code q then ltb i j else ltb (priority_code q) (priority_code p)
ranks_before false p i false q j =
    if priority_code p == priority_code q then ltb i j else ltb (priority_code q) (priority_code p)
ranks_before true p i false q j = true
ranks_before false p i true q j = false

unfoldable pub before : (ℕ → Activity) → ℕ → ℕ → Bool
before acts i j =
    ranks_before (acts i).focused (acts i).priority i (acts j).focused (acts j).priority j

-- insert_check and insert of the ordered set: an element that is neither before nor after is there already.
unfoldable pub insert : (ℕ → Activity) → ℕ → List ℕ → List ℕ
insert acts i [] = i ∷ []
insert acts i (x ∷ xs) =
    let rest = insert acts i xs in
    if before acts x i then x ∷ rest else if before acts i x then i ∷ x ∷ xs else x ∷ xs

-- find.
unfoldable pub is_found : (ℕ → Activity) → ℕ → List ℕ → Bool
is_found acts i [] = false
is_found acts i (x ∷ xs) =
    let rest = is_found acts i xs in if before acts x i then rest else not (before acts i x)

-- The element that find comes to, erased.
unfoldable pub erase_found : (ℕ → Activity) → ℕ → List ℕ → List ℕ
erase_found acts i [] = []
erase_found acts i (x ∷ xs) =
    let rest = erase_found acts i xs in
    if before acts x i then x ∷ rest else if before acts i x then x ∷ xs else xs

-- BusEntity::GetPriority and IsFocused: what the first association has.
unfoldable pub get_priority : (ℕ → Activity) → List ℕ → Priority
get_priority acts [] = Priority.none
get_priority acts (i ∷ is) = (acts i).priority

unfoldable pub is_focused : (ℕ → Activity) → List ℕ → Bool
is_focused acts [] = false
is_focused acts (i ∷ is) = (acts i).focused

-- `entities` is m_entities of MasterResourceManager; the other two are what the objects it points to hold.
-- The set Activity::m_associations is a list whose order does not count: each member is in another entity.
pub record Resources : Type 0 where
  pub acts : ℕ → Activity
  pub entity : ℕ → List ℕ
  pub entities : List (BusId × ℕ)
  pub next_entity : ℕ

abbrev pub set_entity : ℕ → List ℕ → Resources → Resources
set_entity e xs r = record r { entity = λ d. if d == e then xs else r.entity d }

abbrev pub set_associations : ℕ → List ℕ → Resources → Resources
set_associations i es r = record r {
  acts = λ j. if j == i then record (r.acts i) { associations = es } else r.acts j;
}

-- Activity::AddEntityAssociation and RemoveEntityAssociation.
unfoldable pub add_entity_association : ℕ → ℕ → Resources → Resources
add_entity_association i e r =
    if contains e (r.acts i).associations
    then r
    else set_associations i (e ∷ (r.acts i).associations) r

unfoldable pub remove_entity_association : ℕ → ℕ → Resources → Resources
remove_entity_association i e r = set_associations i (remove e (r.acts i).associations) r

-- BusEntity::AssociateActivity and DissociateActivity.
unfoldable pub associate_activity : ℕ → ℕ → Resources → Resources
associate_activity i e r =
    if is_found r.acts i (r.entity e)
    then r
    else add_entity_association i e (set_entity e (insert r.acts i (r.entity e)) r)

unfoldable pub dissociate_activity : ℕ → ℕ → Resources → Resources
dissociate_activity i e r =
    if is_found r.acts i (r.entity e)
    then remove_entity_association i e (set_entity e (erase_found r.acts i (r.entity e)) r)
    else r

-- BusEntity::ReassociateActivity: the association is unlinked, wherever it is, and inserted.
unfoldable pub reassociate_activity : ℕ → ℕ → Resources → Resources
reassociate_activity i e r = set_entity e (insert r.acts i (remove i (r.entity e))) r

unfoldable pub reassociate_all : ℕ → List ℕ → Resources → Resources
reassociate_all i [] r = r
reassociate_all i (e ∷ es) r = reassociate_all i es (reassociate_activity i e r)

abbrev same : Bool → Bool → Bool
same true b = b
same false b = not b

-- Activity::SetFocus, but for the event that it broadcasts.
unfoldable pub set_activity_focus : Bool → ℕ → Resources → Resources
set_activity_focus b i r =
    let focused = record r {
      acts = λ j. if j == i then record (r.acts i) { focused = b } else r.acts j;
    } in
    if same (r.acts i).focused b then r else reassociate_all i (r.acts i).associations focused

-- MasterResourceManager::GetEntity.
abbrev pub entity_at : BusId → List (BusId × ℕ) → Option ℕ
entity_at b [] = none
entity_at b ((c, e) ∷ rest) = let later = entity_at b rest in if bus_eq c b then some e else later

abbrev pub known_or_new : BusId → Option ℕ → Resources → ℕ × Resources
known_or_new b (some e) r = (e, r)
known_or_new b none r = (
  r.next_entity,
  record r {
    entity = λ d. if d == r.next_entity then [] else r.entity d;
    entities = (b, r.next_entity) ∷ r.entities;
    next_entity = suc r.next_entity;
  },
)

unfoldable pub get_entity : BusId → Resources → ℕ × Resources
get_entity b r = known_or_new b (entity_at b r.entities) r

-- Activity::GetUniqueSubscribers: of equal neighbours the first.
unfoldable pub unique_copy : List BusId → List BusId
unique_copy [] = []
unique_copy (b ∷ []) = b ∷ []
unique_copy (b ∷ c ∷ rest) =
    let more = unique_copy (c ∷ rest) in if bus_eq b c then more else b ∷ more

-- MasterResourceManager::Associate and Dissociate.
unfoldable pub associate_each : ℕ → List BusId → Resources → Resources
associate_each i [] r = r
associate_each i (b ∷ bs) r =
    let found = get_entity b r in associate_each i bs (associate_activity i found.0 found.1)

unfoldable pub associate : ℕ → Resources → Resources
associate i r = associate_each i (unique_copy (r.acts i).subscribers) r

unfoldable pub dissociate_each : ℕ → List BusId → Resources → Resources
dissociate_each i [] r = r
dissociate_each i (b ∷ bs) r =
    let found = get_entity b r in dissociate_each i bs (dissociate_activity i found.0 found.1)

unfoldable pub dissociate : ℕ → Resources → Resources
dissociate i r = dissociate_each i (unique_copy (r.acts i).subscribers) r
