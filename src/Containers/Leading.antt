-- ===== src/Containers/Leading.antt =====
-- ResourceContainer::GetPriority and IsFocused speak for the foremost Activity of the container's entities.
use activitymanager.Prelude.{
  ℕ, ◌≡◌, refl, ap, ◌∙◌, ◌||◌, ◌⊎◌, inl, inr, Bool, true, false, List, [], ◌∷◌, ◌==◌, contains,
  arith, ◌≤◌, ◌<◌, Bool-cases, ==_eq,
}
use mathlib.Core.Path.{subst}
use activitymanager.Types.{Priority, Text}
use activitymanager.Resources.{Resources, get_priority, is_focused, priority_code}
use activitymanager.Resources.Invariant.{IsWellFormed}
use activitymanager.Resources.History.{weight, first_leads}
use activitymanager.Containers.{
  Containers, less, focus_less, max_element, held_priority, any_focused, container_priority,
  container_focused, or_default,
}

-- No less: less focus, or the same and no higher priority.
abbrev pub NoMore : Bool → Priority → Bool → Priority → Type 0
NoMore f p g q =
    (weight f < weight g) ⊎ ((weight f ≡ weight g) × (priority_code p ≤ priority_code q))

abbrev EntityNoMore : Resources → ℕ → ℕ → Type 0
EntityNoMore r d e =
    NoMore (is_focused r.acts (r.entity d)) (get_priority r.acts (r.entity d))
      (is_focused r.acts (r.entity e)) (get_priority r.acts (r.entity e))

NoMore-trans : (f g h : Bool) (p q s : Priority) → NoMore f p g q → NoMore g q h s → NoMore f p h s
NoMore-trans f g h p q s (inl a) (inl b) = inl (omega (arith, a, b))
NoMore-trans f g h p q s (inl a) (inr (b, k)) = inl (omega (arith, a, b))
NoMore-trans f g h p q s (inr (a, k)) (inl b) = inl (omega (arith, a, b))
NoMore-trans f g h p q s (inr (a, k)) (inr (b, l)) = inr (a ∙ b, omega (arith, k, l))

NoMore-refl : (f : Bool) (p : Priority) → NoMore f p f p
NoMore-refl f p = inr (refl, omega arith)

of_less : (f g : Bool) (p q : Priority) → focus_less f p g q ≡ true → NoMore f p g q
of_less true true p q h = inr (refl, ground (arith, h))
of_less true false p q h = absurd (ground (arith, h))
of_less false true p q h = inl (omega arith)
of_less false false p q h = inr (refl, ground (arith, h))

of_not_less : (f g : Bool) (p q : Priority) → focus_less f p g q ≡ false → NoMore g q f p
of_not_less true true p q h = inr (refl, ground (arith, h))
of_not_less true false p q h = inl (omega arith)
of_not_less false true p q h = absurd (ground (arith, h))
of_not_less false false p q h = inr (refl, ground (arith, h))

-- The largest is no less than the one kept so far.
max_element-start : (r : Resources) (e : ℕ) (es : List ℕ) → EntityNoMore r e (max_element r e es)
unfolding max_element less
max_element-start r e [] = NoMore-refl _ _
max_element-start r e (d ∷ es) = elim (Bool-cases (less r e d)) [
  | inl h ↦ rw h (NoMore-trans _ _ _ _ _ _ (of_less _ _ _ _ h) (max_element-start r d es))
  | inr h ↦ rw h (max_element-start r e es)
]

max_element-NoMore :
    (r : Resources) (e d : ℕ) (es : List ℕ)
    → contains d (e ∷ es) ≡ true
    → EntityNoMore r d (max_element r e es)
unfolding max_element less
max_element-NoMore r e d [] h = elim (Bool-cases (e == d)) [
  | inl k ↦ subst (λ x. EntityNoMore r x e) (==_eq e d k) (NoMore-refl _ _)
  | inr k ↦ absurd (ground (arith, h, k))
]
max_element-NoMore r e d (x ∷ xs) h = elim (Bool-cases (e == d)) [
  | inl k ↦
      subst (λ y. EntityNoMore r y (max_element r e (x ∷ xs))) (==_eq e d k)
        (max_element-start r e (x ∷ xs))
  | inr k ↦ elim (Bool-cases (less r e x)) [
    | inl l ↦ rw l (max_element-NoMore r x d xs (ground (arith, h, k)))
    | inr l ↦ rw l (elim (Bool-cases (x == d)) [
      | inl j ↦
          subst (λ y. EntityNoMore r y (max_element r e xs)) (==_eq x d j)
            (NoMore-trans _ _ _ _ _ _ (of_not_less _ _ _ _ l) (max_element-start r e xs))
      | inr j ↦ max_element-NoMore r e d xs (ground (arith, h, k, j))
    ])
  ]
]

-- The container has the focus of the largest.
focus_of_less : (f g : Bool) (p q : Priority) → focus_less f p g q ≡ true → (f || g) ≡ g
focus_of_less true true p q h = refl
focus_of_less true false p q h = absurd (ground (arith, h))
focus_of_less false g p q h = refl

focus_of_not_less : (f g : Bool) (p q : Priority) → focus_less f p g q ≡ false → (f || g) ≡ f
focus_of_not_less true g p q h = refl
focus_of_not_less false true p q h = absurd (ground (arith, h))
focus_of_not_less false false p q h = refl

or_assoc : (a b c : Bool) → (a || (b || c)) ≡ ((a || b) || c)
or_assoc a b c = ground arith

any_focused-max_element :
    (r : Resources) (e : ℕ) (es : List ℕ)
    → any_focused r (e ∷ es) ≡ is_focused r.acts (r.entity (max_element r e es))
unfolding max_element less
any_focused-max_element r e [] = ground arith
any_focused-max_element r e (x ∷ xs) = elim (Bool-cases (less r e x)) [
  | inl h ↦ rw h (
      or_assoc (is_focused r.acts (r.entity e)) (is_focused r.acts (r.entity x)) (any_focused r xs)
      ∙ (ap (λ b. b || any_focused r xs) (focus_of_less _ _ _ _ h)
          ∙ any_focused-max_element r x xs))
  | inr h ↦ rw h (
      or_assoc (is_focused r.acts (r.entity e)) (is_focused r.acts (r.entity x)) (any_focused r xs)
      ∙ (ap (λ b. b || any_focused r xs) (focus_of_not_less _ _ _ _ h)
          ∙ any_focused-max_element r e xs))
]

of_default : (f g : Bool) (p q : Priority) → NoMore f p g q → NoMore f p g (or_default q)
of_default f g p Priority.none (inl h) = inl h
of_default f g p Priority.none (inr (e, h)) = inr (e, omega (arith, h))
of_default f g p Priority.lowest h = h
of_default f g p Priority.low h = h
of_default f g p Priority.normal h = h
of_default f g p Priority.high h = h
of_default f g p Priority.highest h = h

held-NoMore :
    (r : Resources) (d : ℕ) (es : List ℕ) (f : Bool) (p : Priority)
    → contains d es ≡ true
    → NoMore f p (is_focused r.acts (r.entity d)) (get_priority r.acts (r.entity d))
    → NoMore f p (any_focused r es) (held_priority r es)
held-NoMore r d [] f p h k = absurd (ground (arith, h))
held-NoMore r d (e ∷ es) f p h k =
    rw (any_focused-max_element r e es)
      (of_default _ _ _ _ (NoMore-trans _ _ _ _ _ _ k (max_element-NoMore r e d es h)))

-- In well-formed entities: while the container manager is enabled, an Activity that takes part in an entity of a
-- container has less focus than the container, or the same focus and no higher priority.
pub container-leads :
    (r : Resources) (c : Containers) (n : Text) (e i : ℕ)
    → IsWellFormed r
    → c.enabled ≡ true
    → contains e (c.held n) ≡ true
    → contains i (r.entity e) ≡ true
    → NoMore
        (r.acts i).focused
        (r.acts i).priority
        (container_focused r c n)
        (container_priority r c n)
unfolding container_focused container_priority
container-leads r c n e i w on h k = rw on (
    held-NoMore r e (c.held n) (r.acts i).focused (r.acts i).priority h
      (first_leads r.acts i (r.entity e) (w.sorted e) k).1)
