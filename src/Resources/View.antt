-- ===== src/Resources/View.antt =====
-- What MasterResourceManager promises: which Activities take part in an entity, with no order and no pointers.
use activitymanager.Prelude.{
  ℕ, ◌≡◌, refl, sym, ap, ◌∙◌, ◌||◌, ◌&&◌, inl, inr, Bool, false, not, List, [], ◌∷◌, ◌==◌,
  if◌then◌else◌, contains, arith, Bool-cases, Option-cases, ==_lt, ==_self, Option, none, some,
}
use mathlib.Core.Path.{subst}
use activitymanager.Types.{BusId, bus_eq}
use activitymanager.Types.BusOrder.{bus_eq_iff}
use activitymanager.Activity.{Activity}
use activitymanager.Resources.{
  Resources, associate_activity, dissociate_activity, set_activity_focus, get_entity, known_or_new,
  entity_at, same,
}
use activitymanager.Resources.Invariant.{IsWellFormed, get_entity-IsWellFormed}
use activitymanager.Resources.Refocus.{SameMembers, reassociate_all-SameMembers, refocused}
use activitymanager.Resources.History.{
  Call, associates, dissociates, focuses, perform, run, no_entities, perform-IsWellFormed,
  no_entities-IsWellFormed,
}
use activitymanager.Resources.Listed.{
  associate_activity-contains, dissociate_activity-contains, entity_of_id, other_id,
  associate_activity-entities, dissociate_activity-entities,
}

-- The abstract state: which Activity takes part in which entity.
abbrev pub Members : Type 0
Members = ℕ → BusId → Bool

unfoldable pub nobody : Members
nobody i b = false

unfoldable pub note : Call → Members → Members
note (associates i b) m j c = ((j == i) && bus_eq b c) || m j c
note (dissociates i b) m j c = not ((j == i) && bus_eq b c) && m j c
note (focuses f i) m j c = m j c

unfoldable pub noted : List Call → Members → Members
noted [] m = m
noted (c ∷ cs) m = noted cs (note c m)

-- What the detailed state says: whether the identifier's entity, if it has one, lists the Activity.
abbrev member_of : (ℕ → List ℕ) → ℕ → Option ℕ → Bool
member_of entity i none = false
member_of entity i (some e) = contains i (entity e)

unfoldable pub takes_part : Resources → Members
takes_part r i b = member_of r.entity i (entity_at b r.entities)

-- An identifier looked up has its entity afterwards, and all take part as before.
pub get_entity-takes_part :
    (b : BusId) (r : Resources)
    → IsWellFormed r
    → (entity_at b (get_entity b r).1.entities ≡ some (get_entity b r).0)
      × ((j : ℕ) (c : BusId) → takes_part (get_entity b r).1 j c ≡ takes_part r j c)
unfolding get_entity takes_part
get_entity-takes_part b r w = elim (Option-cases (entity_at b r.entities)) [
  | inr (e, h) ↦ rw h (h, λ j c. refl)
  | inl h ↦ rw h (rw ((bus_eq_iff b b).0.1 refl) refl, new_takes_part h)
]
  where
    seen :
        (h : entity_at b r.entities ≡ none) (j : ℕ) (c : BusId) (o : Option ℕ)
        → entity_at c r.entities ≡ o
        → member_of
            (known_or_new b none r).1.entity
            j
            (if bus_eq b c then some r.next_entity else o)
          ≡ member_of r.entity j o
    seen h j c none k = elim (Bool-cases (bus_eq b c)) [
      | inl g ↦ rw g (rw (==_self r.next_entity) refl)
      | inr g ↦ rw g refl
    ]
    seen h j c (some e) k = elim (Bool-cases (bus_eq b c)) [
      | inl g ↦ absurd (
          ground (
            arith,
            h,
            subst (λ x. entity_at x r.entities ≡ some e) (sym ((bus_eq_iff b c).0.0 g)) k,
          ))
      | inr g ↦ rw g (rw (==_lt e r.next_entity (w.handed_out c e k)) refl)
    ]

    new_takes_part :
        entity_at b r.entities ≡ none
        → (j : ℕ) (c : BusId) → takes_part (known_or_new b none r).1 j c ≡ takes_part r j c
    new_takes_part h j c = seen h j c (entity_at c r.entities) refl

-- The write of one entity's members seen through the identifiers.
seen_through :
    (b : BusId) (e : ℕ) (r s : Resources)
    → IsWellFormed r
    → s.entities ≡ r.entities
    → entity_at b r.entities ≡ some e
    → (f : Bool → Bool → Bool) → (i j : ℕ)
    → ((d : ℕ) → contains j (s.entity d) ≡ f ((j == i) && (d == e)) (contains j (r.entity d)))
    → f ((j == i) && false) false ≡ false
    → (c : BusId) → takes_part s j c ≡ f ((j == i) && bus_eq b c) (takes_part r j c)
unfolding takes_part
seen_through b e r s w g h f i j m z c = rw g (elim (Option-cases (entity_at c r.entities)) [
  | inl k ↦ rw k (rw (other_id b c e r h k) (sym z))
  | inr (d, k) ↦
      rw k
        (m d ∙ ap (λ x. f ((j == i) && x) (contains j (r.entity d))) (entity_of_id b c e d r w h k))
])

set_activity_focus-takes_part :
    (f : Bool) (i : ℕ) (r : Resources)
    → IsWellFormed r
    → (j : ℕ) (c : BusId) → takes_part (set_activity_focus f i r) j c ≡ takes_part r j c
unfolding set_activity_focus refocused takes_part
set_activity_focus-takes_part f i r w j c = elim (Bool-cases (same (r.acts i).focused f)) [
  | inl h ↦ rw h refl
  | inr h ↦ rw h (
      kept _ (
        reassociate_all-SameMembers i (r.acts i).associations (refocused f i r)
          (λ e k. sym (w.linked i e) ∙ k)))
]
  where
    listed :
        (s : Resources) (o : Option ℕ)
        → ((d : ℕ) → contains j (s.entity d) ≡ contains j (r.entity d))
        → member_of s.entity j o ≡ member_of r.entity j o
    listed s none m = refl
    listed s (some d) m = m d

    kept :
        (s : Resources)
        → SameMembers (refocused f i r) s
        → member_of s.entity j (entity_at c s.entities)
          ≡ member_of r.entity j (entity_at c r.entities)
    kept s (m, a, g, n) = rw g (listed s (entity_at c r.entities) (m j))

perform-takes_part :
    (c : Call) (r : Resources) (m : Members)
    → IsWellFormed r
    → ((j : ℕ) (b : BusId) → takes_part r j b ≡ m j b)
    → (j : ℕ) (b : BusId) → takes_part (perform c r) j b ≡ note c m j b
unfolding perform note
perform-takes_part (associates i b) r m w h j c =
    seen_through b e s (associate_activity i e s) (get_entity-IsWellFormed b r w).0
      (associate_activity-entities i e s) (get_entity-takes_part b r w).0 (λ x y. x || y) i j
      (associate_activity-contains i e s (get_entity-IsWellFormed b r w).0 j) (ground arith) c
    ∙ ap (λ x. ((j == i) && bus_eq b c) || x) ((get_entity-takes_part b r w).1 j c ∙ h j c)
  where
    s : Resources
    s = (get_entity b r).1

    e : ℕ
    e = (get_entity b r).0
perform-takes_part (dissociates i b) r m w h j c =
    seen_through b e s (dissociate_activity i e s) (get_entity-IsWellFormed b r w).0
      (dissociate_activity-entities i e s) (get_entity-takes_part b r w).0 (λ x y. not x && y) i j
      (dissociate_activity-contains i e s (get_entity-IsWellFormed b r w).0 j) (ground arith) c
    ∙ ap (λ x. not ((j == i) && bus_eq b c) && x) ((get_entity-takes_part b r w).1 j c ∙ h j c)
  where
    s : Resources
    s = (get_entity b r).1

    e : ℕ
    e = (get_entity b r).0
perform-takes_part (focuses f i) r m w h j c = focus_keeps ∙ h j c
  where
    focus_keeps : takes_part (set_activity_focus f i r) j c ≡ takes_part r j c
    focus_keeps = set_activity_focus-takes_part f i r w j c

runs :
    (cs : List Call) (r : Resources) (m : Members)
    → IsWellFormed r
    → ((j : ℕ) (b : BusId) → takes_part r j b ≡ m j b)
    → (j : ℕ) (b : BusId) → takes_part (run cs r) j b ≡ noted cs m j b
unfolding run noted
runs [] r m w h = h
runs (c ∷ cs) r m w h =
    runs cs (perform c r) (note c m) (perform-IsWellFormed c r w) (perform-takes_part c r m w h)

nobody_yet :
    (acts : ℕ → Activity) (j : ℕ) (b : BusId) → takes_part (no_entities acts) j b ≡ nobody j b
unfolding takes_part no_entities nobody
nobody_yet acts j b = refl

-- The detailed state implements the abstract one: after every history of calls from no entities, an Activity is
-- listed by the entity of an identifier exactly when the last call that associated or dissociated the two
-- associated them.
pub run-takes_part :
    (acts : ℕ → Activity)
    → ((i : ℕ) → (acts i).associations ≡ [])
    → (cs : List Call) (i : ℕ) (b : BusId)
    → takes_part (run cs (no_entities acts)) i b ≡ noted cs nobody i b
run-takes_part acts h cs =
    runs cs (no_entities acts) nobody (no_entities-IsWellFormed acts h) (λ j b. nobody_yet acts j b)
