-- ===== src/Scheduler/Order.antt =====
-- The queues stay sorted and keep their items.
use activitymanager.Prelude.{
  ℕ, ◌+◌, ◌≡◌, refl, List, [], ◌∷◌, All, arith, count, Bool-cases, inl, inr,
}
use activitymanager.Prelude.Int.{ℤ, ltb_ℤ, ◌≤ℤ◌, ◌<ℤ◌, ltb_ℤ_iff}
use activitymanager.Scheduler.{insert, insert_all}

module _ (start_of : ℕ → ℤ) where
  abbrev pub NotBefore : ℤ → List ℕ → Type 0
  NotBefore t = All (λ i. t ≤ℤ start_of i)

  -- Each item starts no later than those behind it.
  abbrev pub IsSorted : List ℕ → Type 0
  IsSorted [] = Unit {0}
  IsSorted (i ∷ q) = NotBefore (start_of i) q × IsSorted q

  NotBefore-mono : (s t : ℤ) (q : List ℕ) → s ≤ℤ t → NotBefore t q → NotBefore s q
  NotBefore-mono s t [] h n = tt
  NotBefore-mono s t (i ∷ q) h n = (omega arith, NotBefore-mono s t q h n.1)

  NotBefore-insert :
      (t : ℤ) (i : ℕ) (q : List ℕ)
      → t ≤ℤ start_of i
      → NotBefore t q
      → NotBefore t (insert start_of i q)
  unfolding insert
  NotBefore-insert t i [] h n = (h, tt)
  NotBefore-insert t i (j ∷ q) h n = elim (Bool-cases (ltb_ℤ (start_of i) (start_of j))) [
    | inl lt ↦ rw lt (h, n)
    | inr ge ↦ rw ge (n.0, NotBefore-insert t i q h n.1)
  ]

  pub insert-IsSorted : (i : ℕ) (q : List ℕ) → IsSorted q → IsSorted (insert start_of i q)
  unfolding insert
  insert-IsSorted i [] s = (tt, tt)
  insert-IsSorted i (j ∷ q) s = elim (Bool-cases (ltb_ℤ (start_of i) (start_of j))) [
    | inl lt ↦ rw lt (
      (
        ground (arith, ltb_ℤ_iff (start_of i) (start_of j)),
        NotBefore-mono (start_of i) (start_of j) q
            (ground (arith, ltb_ℤ_iff (start_of i) (start_of j))) s.0,
      ),
      s,
    )
    | inr ge ↦ rw ge (NotBefore-insert (start_of j) i q (ground arith) s.0, insert-IsSorted i q s.1)
  ]

  count-insert : (k i : ℕ) (q : List ℕ) → count k (insert start_of i q) ≡ count k (i ∷ q)
  unfolding insert
  count-insert k i [] = refl
  count-insert k i (j ∷ q) = ground (arith, count-insert k i q)

  count-insert_all :
      (k : ℕ) (is q : List ℕ) → count k (insert_all start_of is q) ≡ count k is + count k q
  unfolding insert_all
  count-insert_all k [] q = omega arith
  count-insert_all k (i ∷ is) q =
      omega (arith, count-insert_all k is (insert start_of i q), count-insert k i q)

  insert_all-IsSorted : (is q : List ℕ) → IsSorted q → IsSorted (insert_all start_of is q)
  unfolding insert_all
  insert_all-IsSorted [] q s = s
  insert_all-IsSorted (i ∷ is) q s =
      insert_all-IsSorted is (insert start_of i q) (insert-IsSorted i q s)

  pub NotBefore-later :
      (now t : ℤ) (q : List ℕ) → now <ℤ t → NotBefore t q → All (λ i. now <ℤ start_of i) q
  NotBefore-later now t [] h n = tt
  NotBefore-later now t (i ∷ q) h n = (omega arith, NotBefore-later now t q h n.1)

  -- Requeuing the items in any order, under whatever new starts, gives a sorted queue that holds each
  -- of them as often as before.
  pub insert_all_lem :
      (is : List ℕ)
      → IsSorted (insert_all start_of is [])
        × ((k : ℕ) → count k (insert_all start_of is []) ≡ count k is)
  insert_all_lem is = (insert_all-IsSorted is [] tt, λ k. omega (arith, count-insert_all k is []))
