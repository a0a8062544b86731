-- ===== src/Resources/Invariant.antt =====
-- That entities and Activities list each other, in order, is kept by the methods of BusEntity and
-- MasterResourceManager.
use activitymanager.Prelude.{
  ℕ, ◌≡◌, refl, sym, ap, ◌∙◌, ◌⊎◌, inl, inr, true, false, List, [], ◌∷◌, ◌==◌, if◌then◌else◌,
  contains, remove, arith, Bool-cases, ==_eq, ==_ne, Option-cases, ◌≤◌, ◌<◌, Option, none, some,
}
use mathlib.Core.Path.{subst}
use activitymanager.Types.{BusId, bus_eq}
use activitymanager.Types.BusOrder.{bus_eq_iff}
use activitymanager.Resources.{
  Resources, set_entity, set_associations, insert, add_entity_association,
  remove_entity_association, associate_activity, dissociate_activity, get_entity, known_or_new,
  entity_at,
}
use activitymanager.Resources.Order.{
  IsSorted, SameRank, insert-IsSorted, remove-IsSorted, contains-remove, contains-insert,
  IsSorted-SameRank, All-everywhere, is_found-contains, erase_found-remove,
}

-- Every entity's associations are in order and each once, and an Activity lists the entities that list it;
-- entities that are not handed out have no association, and no two identifiers have the same entity.
pub record IsWellFormed (r : Resources) : Type 0 where
  pub sorted : (e : ℕ) → IsSorted r.acts (r.entity e)
  pub linked : (i e : ℕ) → contains e (r.acts i).associations ≡ contains i (r.entity e)
  pub unused : (e : ℕ) → r.next_entity ≤ e → r.entity e ≡ []
  pub handed_out : (b : BusId) (e : ℕ) → entity_at b r.entities ≡ some e → e < r.next_entity
  pub distinct :
      (b c : BusId) (e : ℕ)
      → entity_at b r.entities ≡ some e
      → entity_at c r.entities ≡ some e
      → b ≡ c

-- A write of the associations of one Activity changes no rank.
set_associations-SameRank :
    (i : ℕ) (es : List ℕ) (r : Resources) (j : ℕ) → SameRank r.acts (set_associations i es r).acts j
set_associations-SameRank i es r j = elim (Bool-cases (j == i)) [
  | inl e ↦ rw e (rw (==_eq j i e) (refl, refl))
  | inr e ↦ rw e (refl, refl)
]

-- With the associations of one entity written, and those of one Activity with it.
written :
    (i e : ℕ) (xs es : List ℕ) (r : Resources)
    → IsWellFormed r
    → e < r.next_entity
    → IsSorted r.acts xs
    → ((j : ℕ) → contains j xs ≡ (if j == i then contains e es else contains j (r.entity e)))
    → ((d : ℕ) → (d == e) ≡ false → contains d es ≡ contains d (r.acts i).associations)
    → IsWellFormed (set_associations i es (set_entity e xs r))
written i e xs es r w lt s m n = record {
  sorted = λ d. elim (Bool-cases (d == e)) [
    | inl g ↦
        rw g
          (IsSorted-SameRank r.acts _ xs (All-everywhere (set_associations-SameRank i es r) xs) s)
    | inr g ↦ rw g (
        IsSorted-SameRank r.acts _ (r.entity d)
          (All-everywhere (set_associations-SameRank i es r) (r.entity d)) (w.sorted d))
  ];
  linked = λ j d. elim (Bool-cases (j == i)) [
    | inl ji ↦ elim (Bool-cases (d == e)) [
      | inl de ↦ rw ji (
          rw de (
            ap (λ x. contains x es) (==_eq d e de)
            ∙ sym (m j ∙ ap (λ b. if b then contains e es else contains j (r.entity e)) ji)))
      | inr de ↦
          rw ji (
            rw de
              (n d de ∙ (w.linked i d ∙ ap (λ x. contains x (r.entity d)) (sym (==_eq j i ji)))))
    ]
    | inr ji ↦ elim (Bool-cases (d == e)) [
      | inl de ↦ rw ji (
          rw de (
            w.linked j d
            ∙ (ap (λ x. contains j (r.entity x)) (==_eq d e de)
                ∙ sym (m j ∙ ap (λ b. if b then contains e es else contains j (r.entity e)) ji))))
      | inr de ↦ rw ji (rw de (w.linked j d))
    ]
  ];
  unused = λ d h. rw (==_ne e d r.next_entity lt h) (w.unused d h);
  handed_out = w.handed_out;
  distinct = w.distinct;
}

pub contains-head : (e : ℕ) (es : List ℕ) → contains e (e ∷ es) ≡ true
contains-head e es = ground arith

pub later_contains : (e d : ℕ) (es : List ℕ) → contains e es ≡ true → contains e (d ∷ es) ≡ true
later_contains e d es h = ground (arith, h)

pub associate_activity-IsWellFormed :
    (i e : ℕ) (r : Resources)
    → IsWellFormed r
    → e < r.next_entity
    → IsWellFormed (associate_activity i e r)
unfolding associate_activity add_entity_association
associate_activity-IsWellFormed i e r w lt = elim (Bool-cases (contains i (r.entity e))) [
  | inl h ↦ rw (is_found-contains r.acts i (r.entity e) (w.sorted e)) (rw h w)
  | inr h ↦ rw (is_found-contains r.acts i (r.entity e) (w.sorted e)) (
      rw h (
        rw (w.linked i e ∙ h) (
          written i e (insert r.acts i (r.entity e)) (e ∷ (r.acts i).associations) r w lt
            (insert-IsSorted r.acts i (r.entity e) (w.sorted e))
            (λ j. rw (contains-insert r.acts i j (r.entity e)) (ground arith))
            (λ d h. ground (arith, h)))))
]

pub dissociate_activity-IsWellFormed :
    (i e : ℕ) (r : Resources)
    → IsWellFormed r
    → e < r.next_entity
    → IsWellFormed (dissociate_activity i e r)
unfolding dissociate_activity remove_entity_association
dissociate_activity-IsWellFormed i e r w lt = elim (Bool-cases (contains i (r.entity e))) [
  | inr h ↦ rw (is_found-contains r.acts i (r.entity e) (w.sorted e)) (rw h w)
  | inl h ↦ rw (is_found-contains r.acts i (r.entity e) (w.sorted e)) (
      rw h (
        rw (erase_found-remove r.acts i (r.entity e) (w.sorted e)) (
          written i e (remove i (r.entity e)) (remove e (r.acts i).associations) r w lt
            (remove-IsSorted r.acts i (r.entity e) (w.sorted e))
            (λ j.
              rw (contains-remove i j (r.entity e))
                (rw (contains-remove e e (r.acts i).associations) (ground arith)))
            (λ d h. rw (contains-remove e d (r.acts i).associations) (ground (arith, h))))))
]

entity_of_new :
    (b c : BusId) (n e : ℕ) (o : Option ℕ)
    → (if bus_eq b c then some n else o) ≡ some e
    → ((b ≡ c) × (n ≡ e)) ⊎ (o ≡ some e)
entity_of_new b c n e o h = elim (Bool-cases (bus_eq b c)) [
  | inl g ↦
      inl ((bus_eq_iff b c).0.0 g, ground (arith, ap (λ x. if x then some n else o) (sym g) ∙ h))
  | inr g ↦ inr (ap (λ x. if x then some n else o) (sym g) ∙ h)
]

new_entity :
    (b : BusId) (r : Resources)
    → IsWellFormed r
    → entity_at b r.entities ≡ none
    → IsWellFormed (known_or_new b none r).1
new_entity b r w h = record {
  sorted = λ e. subst (IsSorted r.acts) (sym (fresh e)) (w.sorted e);
  linked = λ i e. w.linked i e ∙ ap (contains i) (sym (fresh e));
  unused = λ e k. fresh e ∙ w.unused e (omega (arith, k));
  handed_out = λ c e k. elim (entity_of_new b c r.next_entity e (entity_at c r.entities) k) [
    | inl (g, n) ↦ omega (arith, n)
    | inr old ↦ omega (arith, w.handed_out c e old)
  ];
  distinct = λ c d e k l. elim (entity_of_new b c r.next_entity e (entity_at c r.entities) k) [
    | inl (g, n) ↦ elim (entity_of_new b d r.next_entity e (entity_at d r.entities) l) [
      | inl (g', n') ↦ sym g ∙ g'
      | inr old ↦ absurd (omega (arith, n, w.handed_out d e old))
    ]
    | inr older ↦ elim (entity_of_new b d r.next_entity e (entity_at d r.entities) l) [
      | inl (g', n') ↦ absurd (omega (arith, n', w.handed_out c e older))
      | inr old ↦ w.distinct c d e older old
    ]
  ];
}
  where
    fresh : (e : ℕ) → (if e == r.next_entity then [] else r.entity e) ≡ r.entity e
    fresh e = elim (Bool-cases (e == r.next_entity)) [
      | inl g ↦ rw g (sym (w.unused e (omega (arith, ==_eq e r.next_entity g))))
      | inr g ↦ rw g refl
    ]

pub get_entity-IsWellFormed :
    (b : BusId) (r : Resources)
    → IsWellFormed r
    → IsWellFormed (get_entity b r).1 × ((get_entity b r).0 < (get_entity b r).1.next_entity)
unfolding get_entity
get_entity-IsWellFormed b r w = elim (Option-cases (entity_at b r.entities)) [
  | inr (e, h) ↦ rw h (w, w.handed_out b e h)
  | inl h ↦ rw h (new_entity b r w h, omega arith)
]
