-- ===== src/Resources/Listed.antt =====
-- Whom the entities list after AssociateActivity and DissociateActivity.
use activitymanager.Prelude.{
  ℕ, ◌≡◌, refl, ap, ◌∙◌, ◌||◌, ◌&&◌, inl, inr, false, not, ◌==◌, contains, arith, Bool-cases, ==_eq,
  none, some,
}
use activitymanager.Types.{BusId, bus_eq}
use activitymanager.Types.BusOrder.{bus_eq_iff}
use activitymanager.Resources.{
  Resources, associate_activity, dissociate_activity, add_entity_association,
  remove_entity_association, entity_at,
}
use activitymanager.Resources.Order.{
  contains-remove, contains-insert, is_found-contains, erase_found-remove,
}
use activitymanager.Resources.Invariant.{IsWellFormed}

pub associate_activity-contains :
    (i e : ℕ) (r : Resources)
    → IsWellFormed r
    → (j d : ℕ)
    → contains j ((associate_activity i e r).entity d)
      ≡ ((j == i) && (d == e)) || contains j (r.entity d)
unfolding associate_activity add_entity_association
associate_activity-contains i e r w j d =
    rw (is_found-contains r.acts i (r.entity e) (w.sorted e))
      (elim (Bool-cases (contains i (r.entity e))) [
        | inl h ↦ rw h (elim (Bool-cases (j == i)) [
          | inl ji ↦ elim (Bool-cases (d == e)) [
            | inl de ↦ rw ji (
                rw de (
                  ap (λ x. contains x (r.entity d)) (==_eq j i ji)
                  ∙ (ap (λ x. contains i (r.entity x)) (==_eq d e de) ∙ h)))
            | inr de ↦ rw ji (rw de refl)
          ]
          | inr ji ↦ rw ji refl
        ])
        | inr h ↦ rw h (
            rw (w.linked i e ∙ h) (elim (Bool-cases (d == e)) [
              | inl de ↦
                  rw de (
                    rw (contains-insert r.acts i j (r.entity e)) (rw (==_eq d e de) (ground arith)))
              | inr de ↦ rw de (ground arith)
            ]))
      ])

pub dissociate_activity-contains :
    (i e : ℕ) (r : Resources)
    → IsWellFormed r
    → (j d : ℕ)
    → contains j ((dissociate_activity i e r).entity d)
      ≡ not ((j == i) && (d == e)) && contains j (r.entity d)
unfolding dissociate_activity remove_entity_association
dissociate_activity-contains i e r w j d =
    rw (is_found-contains r.acts i (r.entity e) (w.sorted e))
      (elim (Bool-cases (contains i (r.entity e))) [
        | inr h ↦ rw h (elim (Bool-cases (j == i)) [
          | inl ji ↦ elim (Bool-cases (d == e)) [
            | inl de ↦ rw ji (
                rw de (
                  ap (λ x. contains x (r.entity d)) (==_eq j i ji)
                  ∙ (ap (λ x. contains i (r.entity x)) (==_eq d e de) ∙ h)))
            | inr de ↦ rw ji (rw de refl)
          ]
          | inr ji ↦ rw ji refl
        ])
        | inl h ↦ rw h (
            rw (erase_found-remove r.acts i (r.entity e) (w.sorted e)) (elim (Bool-cases (d == e)) [
              | inl de ↦
                  rw de (rw (contains-remove i j (r.entity e)) (rw (==_eq d e de) (ground arith)))
              | inr de ↦ rw de (ground arith)
            ]))
      ])

-- An identifier with an entity stands for it, and no other does.
pub entity_of_id :
    (b c : BusId) (e d : ℕ) (r : Resources)
    → IsWellFormed r
    → entity_at b r.entities ≡ some e
    → entity_at c r.entities ≡ some d
    → (d == e) ≡ bus_eq b c
entity_of_id b c e d r w h k = elim (Bool-cases (bus_eq b c)) [
  | inl g ↦ rw g (ground (arith, h, k, ap (λ x. entity_at x r.entities) ((bus_eq_iff b c).0.0 g)))
  | inr g ↦ rw g (elim (Bool-cases (d == e)) [
    | inl de ↦
        absurd (
          ground (arith, g, (bus_eq_iff b c).0.1 (w.distinct b c e h (k ∙ ap some (==_eq d e de)))))
    | inr de ↦ de
  ])
]

pub other_id :
    (b c : BusId) (e : ℕ) (r : Resources)
    → entity_at b r.entities ≡ some e
    → entity_at c r.entities ≡ none
    → bus_eq b c ≡ false
other_id b c e r h k = elim (Bool-cases (bus_eq b c)) [
  | inl g ↦ absurd (ground (arith, h, k, ap (λ x. entity_at x r.entities) ((bus_eq_iff b c).0.0 g)))
  | inr g ↦ g
]

pub associate_activity-entities :
    (i e : ℕ) (r : Resources) → (associate_activity i e r).entities ≡ r.entities
unfolding associate_activity add_entity_association
associate_activity-entities i e r = ground arith

pub dissociate_activity-entities :
    (i e : ℕ) (r : Resources) → (dissociate_activity i e r).entities ≡ r.entities
unfolding dissociate_activity remove_entity_association
dissociate_activity-entities i e r = ground arith
