-- ===== src/Resources/Refocus.antt =====
-- Activity::SetFocus sorts the Activity's associations anew, and changes nothing else of them.
use activitymanager.Prelude.{
  ℕ, ◌≡◌, refl, sym, ap, ◌∙◌, ◌||◌, ◌&&◌, ◌⊎◌, inl, inr, Bool, true, false, not, List, [], ◌∷◌,
  ◌==◌, if◌then◌else◌, contains, remove, arith, Bool-cases, ==_eq,
}
use mathlib.Core.Path.{subst}
use activitymanager.Resources.{
  Resources, reassociate_activity, reassociate_all, set_activity_focus, entity_at, same,
}
use activitymanager.Resources.Order.{
  IsSorted, SameRank, insert-IsSorted, remove-IsSorted, contains-remove, contains-insert,
  IsSorted-SameRank, All-contains,
}
use activitymanager.Resources.Invariant.{IsWellFormed, contains-head, later_contains}

-- While the associations of one Activity are being sorted anew: those of the entities to come are in order but
-- for that Activity, and the others are in order.
abbrev Resorting : ℕ → List ℕ → Resources → Type 0
Resorting i es r =
    ((e : ℕ) → IsSorted r.acts (remove i (r.entity e)))
    × ((e : ℕ) → (contains e es ≡ true) ⊎ IsSorted r.acts (r.entity e))

reassociate_activity-Resorting :
    (i e : ℕ) (es : List ℕ) (r : Resources)
    → Resorting i (e ∷ es) r
    → Resorting i es (reassociate_activity i e r)
unfolding reassociate_activity
reassociate_activity-Resorting i e es r (but, done) = (
  λ d. elim (Bool-cases (d == e)) [
    | inl g ↦ rw g (remove-IsSorted r.acts i _ (insert-IsSorted r.acts i _ (but e)))
    | inr g ↦ rw g (but d)
  ],
  λ d. elim (Bool-cases (d == e)) [
    | inl g ↦ rw g (inr (insert-IsSorted r.acts i _ (but e)))
    | inr g ↦ rw g (elim (done d) [ inl c ↦ inl (ground (arith, c, g)) | inr s ↦ inr s ])
  ],
)

reassociate_all-IsSorted :
    (i : ℕ) (es : List ℕ) (r : Resources)
    → Resorting i es r
    → (e : ℕ) → IsSorted (reassociate_all i es r).acts ((reassociate_all i es r).entity e)
unfolding reassociate_all
reassociate_all-IsSorted i [] r (but, done) e = elim (done e) [
  | inl c ↦ absurd (ground (arith, c))
  | inr s ↦ s
]
reassociate_all-IsSorted i (d ∷ es) r h e =
    reassociate_all-IsSorted i es (reassociate_activity i d r)
      (reassociate_activity-Resorting i d es r h) e

-- Nothing else changes: who is associated with what, the Activities and the entities.
abbrev pub SameMembers : Resources → Resources → Type 0
SameMembers r s =
    ((j e : ℕ) → contains j (s.entity e) ≡ contains j (r.entity e))
    × (s.acts ≡ r.acts)
    × (s.entities ≡ r.entities)
    × (s.next_entity ≡ r.next_entity)

reassociate_activity-contains :
    (i d : ℕ) (r : Resources)
    → contains i (r.entity d) ≡ true
    → (j e : ℕ) → contains j ((reassociate_activity i d r).entity e) ≡ contains j (r.entity e)
unfolding reassociate_activity
reassociate_activity-contains i d r h j e = elim (Bool-cases (e == d)) [
  | inl g ↦ rw g (
      rw (contains-insert r.acts i j (remove i (r.entity d))) (
        rw (contains-remove i j (r.entity d)) (
          rw (==_eq e d g) (
            back (contains j (r.entity d)) (elim (Bool-cases (i == j)) [
              | inl k ↦ inl (k, subst (λ x. contains x (r.entity d) ≡ true) (==_eq i j k) h)
              | inr k ↦ inr k
            ])))))
  | inr g ↦ rw g refl
]
  where
    back :
        (m : Bool)
        → (((i == j) ≡ true) × (m ≡ true)) ⊎ ((i == j) ≡ false)
        → ((i == j) || (not (i == j) && m)) ≡ m
    back m (inl (k, t)) = rw k (sym t)
    back m (inr k) = rw k refl

SameMembers-trans : (r s t : Resources) → SameMembers r s → SameMembers s t → SameMembers r t
SameMembers-trans r s t (a, b, c, d) (a', b', c', d') =
    (λ j e. a' j e ∙ a j e, b' ∙ b, c' ∙ c, d' ∙ d)

pub reassociate_all-SameMembers :
    (i : ℕ) (es : List ℕ) (r : Resources)
    → ((e : ℕ) → contains e es ≡ true → contains i (r.entity e) ≡ true)
    → SameMembers r (reassociate_all i es r)
unfolding reassociate_all reassociate_activity
reassociate_all-SameMembers i [] r h = (λ j e. refl, refl, refl, refl)
reassociate_all-SameMembers i (d ∷ es) r h =
    SameMembers-trans r (reassociate_activity i d r) _ (step, refl, refl, refl)
      (reassociate_all-SameMembers i es (reassociate_activity i d r)
        (λ e m. step i e ∙ h e (later_contains e d es m)))
  where
    step : (j e : ℕ) → contains j ((reassociate_activity i d r).entity e) ≡ contains j (r.entity e)
    step = reassociate_activity-contains i d r (h d (contains-head d es))

-- Activity::SetFocus: the Activity's rank changes, and no other's.
unfoldable pub refocused : Bool → ℕ → Resources → Resources
refocused b i r = record r {
  acts = λ j. if j == i then record (r.acts i) { focused = b } else r.acts j;
}

refocused-SameRank :
    (b : Bool) (i j : ℕ) (r : Resources)
    → (j == i) ≡ false
    → SameRank r.acts (refocused b i r).acts j
unfolding refocused
refocused-SameRank b i j r h = rw h (refl, refl)

pub refocused-associations :
    (b : Bool) (i j : ℕ) (r : Resources)
    → ((refocused b i r).acts j).associations ≡ (r.acts j).associations
unfolding refocused
refocused-associations b i j r = elim (Bool-cases (j == i)) [
  | inl e ↦ rw e (ap (λ k. (r.acts k).associations) (sym (==_eq j i e)))
  | inr e ↦ rw e refl
]

other : (i j : ℕ) (xs : List ℕ) → (contains i xs ≡ false) → contains j xs ≡ true → (j == i) ≡ false
other i j xs h k = elim (Bool-cases (j == i)) [
  | inl e ↦ absurd (ground (arith, h, subst (λ x. contains x xs ≡ true) (==_eq j i e) k))
  | inr e ↦ e
]

refocused-Resorting :
    (b : Bool) (i : ℕ) (r : Resources)
    → IsWellFormed r
    → Resorting i (r.acts i).associations (refocused b i r)
unfolding refocused
refocused-Resorting b i r w = (
  λ e.
      unranked (remove i (r.entity e))
        (λ j h. other i j _ (contains-remove i i (r.entity e) ∙ ground arith) h)
        (remove-IsSorted r.acts i (r.entity e) (w.sorted e)),
  λ e. elim (Bool-cases (contains i (r.entity e))) [
    | inl h ↦ inl (w.linked i e ∙ h)
    | inr h ↦ inr (unranked (r.entity e) (λ j k. other i j (r.entity e) h k) (w.sorted e))
  ],
)
  where
    unranked :
        (xs : List ℕ)
        → ((j : ℕ) → contains j xs ≡ true → (j == i) ≡ false)
        → IsSorted r.acts xs
        → IsSorted (refocused b i r).acts xs
    unranked xs h =
        IsSorted-SameRank r.acts _ xs (All-contains xs (λ j k. refocused-SameRank b i j r (h j k)))

empty_of_none : (xs : List ℕ) → ((j : ℕ) → contains j xs ≡ false) → xs ≡ []
empty_of_none [] h = refl
empty_of_none (x ∷ xs) h = absurd (ground (arith, h x, contains-head x xs))

pub set_activity_focus-IsWellFormed :
    (b : Bool) (i : ℕ) (r : Resources) → IsWellFormed r → IsWellFormed (set_activity_focus b i r)
unfolding set_activity_focus refocused
set_activity_focus-IsWellFormed b i r w = elim (Bool-cases (same (r.acts i).focused b)) [
  | inl h ↦ rw h w
  | inr h ↦ rw h (
      all_sorted (
        reassociate_all-SameMembers i (r.acts i).associations (refocused b i r)
          (λ e k. sym (w.linked i e) ∙ k)))
]
  where
    all_sorted :
        SameMembers (refocused b i r) (reassociate_all i (r.acts i).associations (refocused b i r))
        → IsWellFormed (reassociate_all i (r.acts i).associations (refocused b i r))
    all_sorted (m, a, e, n) = record {
      sorted =
          reassociate_all-IsSorted i (r.acts i).associations (refocused b i r)
            (refocused-Resorting b i r w);
      linked = λ j d.
          ap (λ f. contains d (f j).associations) a
          ∙ (ap (contains d) (refocused-associations b i j r) ∙ (w.linked j d ∙ sym (m j d)));
      unused =
          λ d h. empty_of_none _ (λ j. m j d ∙ ap (contains j) (w.unused d (omega (arith, n, h))));
      handed_out = λ c d h. omega (arith, n, w.handed_out c d (sym (ap (entity_at c) e) ∙ h));
      distinct = λ c d x h k.
          w.distinct c d x (sym (ap (entity_at c) e) ∙ h) (sym (ap (entity_at d) e) ∙ k);
    }
