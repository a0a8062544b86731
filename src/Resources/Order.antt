-- ===== src/Resources/Order.antt =====
-- The order of an entity's associations.
use activitymanager.Prelude.{
  ℕ, ◌≡◌, refl, sym, ap, ◌∙◌, ◌||◌, ◌&&◌, inl, inr, true, false, not, List, [], ◌∷◌, ◌==◌, contains,
  remove, All, arith, Bool-cases,
}
use mathlib.Core.Path.{subst}
use activitymanager.Activity.{Activity}
use activitymanager.Resources.{before, insert, is_found, erase_found}
use activitymanager.Resources.Rank.{
  before_trans, not_before_self, ==_of, at_or_past, differs_from_later,
}

-- Each stands before all after it.
abbrev pub IsSorted : (ℕ → Activity) → List ℕ → Type 0
IsSorted acts [] = Unit {0}
IsSorted acts (x ∷ xs) = All (λ y. before acts x y ≡ true) xs × IsSorted acts xs

All-insert :
    (acts : ℕ → Activity) (i x : ℕ) (xs : List ℕ)
    → before acts x i ≡ true
    → All (λ y. before acts x y ≡ true) xs
    → All (λ y. before acts x y ≡ true) (insert acts i xs)
unfolding insert
All-insert acts i x [] b h = (b, tt)
All-insert acts i x (y ∷ ys) b (h, hs) = elim (Bool-cases (before acts y i)) [
  | inl e ↦ rw e (h, All-insert acts i x ys b hs)
  | inr e ↦
      rw e
        (elim (Bool-cases (before acts i y)) [ inl d ↦ rw d (b, (h, hs)) | inr d ↦ rw d (h, hs) ])
]

All-before :
    (acts : ℕ → Activity) (i x : ℕ) (xs : List ℕ)
    → before acts i x ≡ true
    → All (λ y. before acts x y ≡ true) xs
    → All (λ y. before acts i y ≡ true) xs
All-before acts i x [] b h = tt
All-before acts i x (y ∷ ys) b (h, hs) = (before_trans acts i x y b h, All-before acts i x ys b hs)

pub insert-IsSorted :
    (acts : ℕ → Activity) (i : ℕ) (xs : List ℕ)
    → IsSorted acts xs
    → IsSorted acts (insert acts i xs)
unfolding insert
insert-IsSorted acts i [] h = (tt, tt)
insert-IsSorted acts i (x ∷ xs) (h, hs) = elim (Bool-cases (before acts x i)) [
  | inl e ↦ rw e (All-insert acts i x xs e h, insert-IsSorted acts i xs hs)
  | inr e ↦ rw e (elim (Bool-cases (before acts i x)) [
    | inl d ↦ rw d ((d, All-before acts i x xs d h), (h, hs))
    | inr d ↦ rw d (h, hs)
  ])
]

All-remove : (P : ℕ → Type 0) (i : ℕ) (xs : List ℕ) → All P xs → All P (remove i xs)
All-remove P i [] h = tt
All-remove P i (x ∷ xs) (h, hs) = elim (Bool-cases (x == i)) [
  | inl e ↦ rw e (All-remove P i xs hs)
  | inr e ↦ rw e (h, All-remove P i xs hs)
]

pub remove-IsSorted :
    (acts : ℕ → Activity) (i : ℕ) (xs : List ℕ) → IsSorted acts xs → IsSorted acts (remove i xs)
remove-IsSorted acts i [] h = tt
remove-IsSorted acts i (x ∷ xs) (h, hs) = elim (Bool-cases (x == i)) [
  | inl e ↦ rw e (remove-IsSorted acts i xs hs)
  | inr e ↦ rw e (All-remove _ i xs h, remove-IsSorted acts i xs hs)
]

pub contains-remove :
    (i j : ℕ) (xs : List ℕ) → contains j (remove i xs) ≡ not (i == j) && contains j xs
contains-remove i j [] = ground arith
contains-remove i j (x ∷ xs) = ground (arith, contains-remove i j xs)

-- What an order may depend on: whether the members are focused, and their priorities.
abbrev pub SameRank : (ℕ → Activity) → (ℕ → Activity) → ℕ → Type 0
SameRank acts bs i = ((acts i).focused ≡ (bs i).focused) × ((acts i).priority ≡ (bs i).priority)

before-SameRank :
    (acts bs : ℕ → Activity) (i j : ℕ)
    → SameRank acts bs i
    → SameRank acts bs j
    → before acts i j ≡ before bs i j
unfolding before
before-SameRank acts bs i j (f, p) (g, q) = rw f (rw p (rw g (rw q refl)))

All-SameRank :
    (acts bs : ℕ → Activity) (x : ℕ) (xs : List ℕ)
    → SameRank acts bs x
    → All (SameRank acts bs) xs
    → All (λ y. before acts x y ≡ true) xs
    → All (λ y. before bs x y ≡ true) xs
All-SameRank acts bs x [] r rs h = tt
All-SameRank acts bs x (y ∷ ys) r (s, ss) (h, hs) =
    (sym (before-SameRank acts bs x y r s) ∙ h, All-SameRank acts bs x ys r ss hs)

pub IsSorted-SameRank :
    (acts bs : ℕ → Activity) (xs : List ℕ)
    → All (SameRank acts bs) xs
    → IsSorted acts xs
    → IsSorted bs xs
IsSorted-SameRank acts bs [] r h = tt
IsSorted-SameRank acts bs (x ∷ xs) (r, rs) (h, hs) =
    (All-SameRank acts bs x xs r rs h, IsSorted-SameRank acts bs xs rs hs)

pub All-everywhere : {P : ℕ → Type 0} → ((i : ℕ) → P i) → (xs : List ℕ) → All P xs
All-everywhere f [] = tt
All-everywhere f (x ∷ xs) = (f x, All-everywhere f xs)

-- Of those in a list.
pub All-contains :
    {P : ℕ → Type 0} (xs : List ℕ) → ((i : ℕ) → contains i xs ≡ true → P i) → All P xs
All-contains [] f = tt
All-contains (x ∷ xs) f = (f x (ground arith), All-contains xs (λ i h. f i (ground (arith, h))))

-- No element stands before itself, so a sorted list has none twice; the search by order finds just the members.
All-before-absent :
    (acts : ℕ → Activity) (i : ℕ) (xs : List ℕ)
    → All (λ y. before acts i y ≡ true) xs
    → contains i xs ≡ false
All-before-absent acts i [] h = refl
All-before-absent acts i (x ∷ xs) (h, hs) = elim (Bool-cases (x == i)) [
  | inl e ↦ absurd (not_before_self acts i x (ground (arith, e)) h)
  | inr e ↦ rw e (All-before-absent acts i xs hs)
]

remove_absent : (i : ℕ) (xs : List ℕ) → contains i xs ≡ false → remove i xs ≡ xs
remove_absent i [] h = refl
remove_absent i (x ∷ xs) h = ground (arith, h, remove_absent i xs)

pub is_found-contains :
    (acts : ℕ → Activity) (i : ℕ) (xs : List ℕ)
    → IsSorted acts xs
    → is_found acts i xs ≡ contains i xs
unfolding is_found
is_found-contains acts i [] h = refl
is_found-contains acts i (x ∷ xs) (h, hs) = elim (Bool-cases (before acts x i)) [
  | inl e ↦ rw e (rw (differs_from_later acts i x e) (is_found-contains acts i xs hs))
  | inr e ↦ rw e (elim (at_or_past acts i x e) [
    | inl (g, d) ↦ rw d (ground (arith, g))
    | inr (d, g) ↦ rw d (rw g (sym (All-before-absent acts i xs (All-before acts i x xs d h))))
  ])
]

pub erase_found-remove :
    (acts : ℕ → Activity) (i : ℕ) (xs : List ℕ)
    → IsSorted acts xs
    → erase_found acts i xs ≡ remove i xs
unfolding erase_found
erase_found-remove acts i [] h = refl
erase_found-remove acts i (x ∷ xs) (h, hs) = elim (Bool-cases (before acts x i)) [
  | inl e ↦
      rw e (rw (differs_from_later acts i x e) (ap (λ l. x ∷ l) (erase_found-remove acts i xs hs)))
  | inr e ↦ rw e (elim (at_or_past acts i x e) [
    | inl (g, d) ↦ rw d (
        rw (==_of x i g) (
          sym (
            remove_absent i xs (
              All-before-absent acts i xs
                (subst (λ y. All (λ z. before acts y z ≡ true) xs) g h)))))
    | inr (d, g) ↦ rw d (
        rw g (
          ap (λ l. x ∷ l)
            (sym (remove_absent i xs (All-before-absent acts i xs (All-before acts i x xs d h))))))
  ])
]

pub contains-insert :
    (acts : ℕ → Activity) (i j : ℕ) (xs : List ℕ)
    → contains j (insert acts i xs) ≡ (i == j) || contains j xs
unfolding insert
contains-insert acts i j [] = refl
contains-insert acts i j (x ∷ xs) = elim (Bool-cases (before acts x i)) [
  | inl e ↦ rw e (rw (contains-insert acts i j xs) (ground arith))
  | inr e ↦ rw e (elim (at_or_past acts i x e) [
    | inl (g, d) ↦ rw d (ground (arith, g))
    | inr (d, g) ↦ rw d refl
  ])
]
