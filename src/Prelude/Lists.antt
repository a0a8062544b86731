-- ===== src/Prelude/Lists.antt =====
-- Lists measured by native numbers, and lists of identifiers.
use Prim.Native.Nat.{ℕ, suc, ◌+◌, ◌≤◌}
use mathlib.Core.Path.{◌≡◌, refl}
use mathlib.Core.Bool.{Bool, true, false, ◌||◌}
use mathlib.Core.List.{List, [], ◌∷◌, ◌++◌}
use native.Mathlib.Omega.{arith}
use activitymanager.Prelude.Tests.{◌==◌, if◌then◌else◌}

module _ {ℓ} {A : Type ℓ} where
  abbrev pub length : List A → ℕ
  length [] = 0
  length (x ∷ xs) = suc (length xs)

  abbrev pub is_empty : List A → Bool
  is_empty [] = true
  is_empty (x ∷ xs) = false

  -- A predicate that computes to a tuple.
  abbrev pub All {κ} : (A → Type κ) → List A → Type κ
  All P [] = Unit
  All P (x ∷ xs) = P x × All P xs

  pub length-append : (xs ys : List A) → length (xs ++ ys) ≡ length xs + length ys
  length-append [] ys = omega arith
  length-append (x ∷ xs) ys = omega (arith, length-append xs ys)

-- Whether the identifier is in the list.
abbrev pub contains : ℕ → List ℕ → Bool
contains i [] = false
contains i (x ∷ xs) = (x == i) || contains i xs

-- How often it is.
abbrev pub count : ℕ → List ℕ → ℕ
count i [] = 0
count i (x ∷ xs) = (if x == i then 1 else 0) + count i xs

-- The list without it.
abbrev pub remove : ℕ → List ℕ → List ℕ
remove i [] = []
remove i (x ∷ xs) = let rest = remove i xs in if x == i then rest else x ∷ rest

-- The list without its first occurrence.
abbrev pub erase_first : ℕ → List ℕ → List ℕ
erase_first i [] = []
erase_first i (x ∷ xs) = let rest = erase_first i xs in if x == i then xs else x ∷ rest

pub count-append : (i : ℕ) (xs ys : List ℕ) → count i (xs ++ ys) ≡ count i xs + count i ys
count-append i [] ys = omega arith
count-append i (x ∷ xs) ys = omega (arith, count-append i xs ys)

pub count-remove_self : (i : ℕ) (xs : List ℕ) → count i (remove i xs) ≡ 0
count-remove_self i [] = refl
count-remove_self i (x ∷ xs) = ground (arith, count-remove_self i xs)

pub count-remove-le : (i j : ℕ) (xs : List ℕ) → count i (remove j xs) ≤ count i xs
count-remove-le i j [] = omega arith
count-remove-le i j (x ∷ xs) = ground (arith, count-remove-le i j xs)

pub count-remove_ne : (i j : ℕ) (xs : List ℕ) → (i ≡ j → ⊥) → count i (remove j xs) ≡ count i xs
count-remove_ne i j [] h = refl
count-remove_ne i j (x ∷ xs) h = ground (arith, count-remove_ne i j xs h)
