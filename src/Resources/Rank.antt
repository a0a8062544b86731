-- ===== src/Resources/Rank.antt =====
-- BusEntity::ActivityPriorityCompare is a strict total order.
use activitymanager.Prelude.{
  ℕ, ◌≡◌, refl, sym, ◌⊎◌, inl, inr, Bool, true, false, ◌==◌, arith, Bool-cases,
}
use mathlib.Core.Path.{subst}
use activitymanager.Types.{Priority}
use activitymanager.Activity.{Activity}
use activitymanager.Resources.{priority_code, before, ranks_before}

pub before_irrefl : (acts : ℕ → Activity) (i : ℕ) → before acts i i ≡ false
unfolding before
before_irrefl acts i = elim (Bool-cases (acts i).focused) [
  | inl f ↦ rw f (ground arith)
  | inr f ↦ rw f (ground arith)
]

pub ranks_trans :
    (a b c : Bool) (p q s : Priority) (i j k : ℕ)
    → ranks_before a p i b q j ≡ true
    → ranks_before b q j c s k ≡ true
    → ranks_before a p i c s k ≡ true
ranks_trans true true true p q s i j k g h = ground (arith, g, h)
ranks_trans true true false p q s i j k g h = refl
ranks_trans true false true p q s i j k g h = ground (arith, h)
ranks_trans true false false p q s i j k g h = refl
ranks_trans false true c p q s i j k g h = ground (arith, g)
ranks_trans false false true p q s i j k g h = h
ranks_trans false false false p q s i j k g h = ground (arith, g, h)

pub before_trans :
    (acts : ℕ → Activity) (i j k : ℕ)
    → before acts i j ≡ true
    → before acts j k ≡ true
    → before acts i k ≡ true
unfolding before
before_trans acts i j k g h =
    ranks_trans (acts i).focused (acts j).focused (acts k).focused (acts i).priority
      (acts j).priority (acts k).priority i j k g h

pub priority_code_injective : (p q : Priority) → priority_code p ≡ priority_code q → p ≡ q
priority_code_injective p q h = ground arith

pub ranks_total :
    (a b : Bool) (p q : Priority) (i j : ℕ)
    → ranks_before a p i b q j ≡ false
    → ranks_before b q j a p i ≡ false
    → i ≡ j
ranks_total true true p q i j g h = ground (arith, g, h)
ranks_total true false p q i j g h = ground (arith, g)
ranks_total false true p q i j g h = ground (arith, h)
ranks_total false false p q i j g h = ground (arith, g, h)

pub before_total :
    (acts : ℕ → Activity) (i j : ℕ) → before acts i j ≡ false → before acts j i ≡ false → i ≡ j
unfolding before
before_total acts i j g h =
    ranks_total (acts i).focused (acts j).focused (acts i).priority (acts j).priority i j g h

pub not_before_self : (acts : ℕ → Activity) (i j : ℕ) → i ≡ j → before acts i j ≡ true → ⊥
not_before_self acts i j e h =
    ground (arith, subst (λ y. before acts i y ≡ true) (sym e) h, before_irrefl acts i)

pub ==_of : (i j : ℕ) → i ≡ j → (i == j) ≡ true
==_of i j e = ground arith

pub before-asym : (acts : ℕ → Activity) (i j : ℕ) → before acts i j ≡ true → before acts j i ≡ false
before-asym acts i j h = elim (Bool-cases (before acts j i)) [
  | inl e ↦ absurd (ground (arith, before_trans acts i j i h e, before_irrefl acts i))
  | inr e ↦ e
]

-- What the searches by order do at the first element that is not before the one searched.
pub at_or_past :
    (acts : ℕ → Activity) (i x : ℕ)
    → before acts x i ≡ false
    → ((x ≡ i) × (before acts i x ≡ false)) ⊎ ((before acts i x ≡ true) × ((x == i) ≡ false))
at_or_past acts i x e = elim (Bool-cases (before acts i x)) [
  | inl d ↦ elim (Bool-cases (x == i)) [
    | inl g ↦ absurd (not_before_self acts i x (ground (arith, g)) d)
    | inr g ↦ inr (d, g)
  ]
  | inr d ↦ inl (before_total acts x i e d, d)
]

pub differs_from_later : (acts : ℕ → Activity) (i x : ℕ) → before acts x i ≡ true → (x == i) ≡ false
differs_from_later acts i x h = elim (Bool-cases (x == i)) [
  | inl g ↦ absurd (not_before_self acts x i (ground (arith, g)) h)
  | inr g ↦ g
]
