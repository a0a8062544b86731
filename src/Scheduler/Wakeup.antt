-- ===== src/Scheduler/Wakeup.antt =====
-- The wake-up that the end of DequeueAndUpdateTimeout sets.
use activitymanager.Prelude.{
  ℕ, ◌≡◌, refl, sym, ap, ◌∙◌, true, false, not, some, List, [], ◌∷◌, All, arith, ◌⊎◌, inl, inr,
  Bool-cases,
}
use activitymanager.Prelude.Int.{ℤ, pos, ◌+ℤ◌, ◌-ℤ◌, ◌≤ℤ◌, ◌<ℤ◌, ltb_ℤ_iff, +ℤ_parts, -ℤ_parts}
use activitymanager.Scheduler.{Scheduler, is_idle, cancel_wake, get_next_start_time, update_wake}
use activitymanager.Scheduler.Order.{IsSorted, NotBefore}

module _ (start_of : ℕ → ℤ) where
  -- The wake-up is set exactly when some item can come up, and then for the next start.
  record Awake (s : Scheduler) : Type 0 where
    idle : is_idle s ≡ true → s.wake_scheduled ≡ false
    busy : is_idle s ≡ false → s.wake_scheduled ≡ true
    next : is_idle s ≡ false → get_next_start_time start_of s ≡ some s.next_wakeup

  update_wake-Awake : (s : Scheduler) → Awake (update_wake start_of s)
  unfolding update_wake
  update_wake-Awake s = ground arith

  -- `t` is no later than any item, in global time; local items count once the offset is known.
  abbrev pub NoLaterThan : ℤ → Scheduler → Type 0
  NoLaterThan t s =
      All (λ i. t ≤ℤ start_of i) s.queue
      × (s.local_offset_set ≡ true → All (λ i. t ≤ℤ start_of i -ℤ s.local_offset) s.local_queue)

  lower :
      (t : ℤ) (i : ℕ) (q : List ℕ)
      → t ≤ℤ start_of i
      → IsSorted start_of (i ∷ q)
      → All (λ j. t ≤ℤ start_of j) (i ∷ q)
  lower t i q h s = (h, lower_rest q s.0)
    where
      lower_rest : (q : List ℕ) → NotBefore start_of (start_of i) q → All (λ j. t ≤ℤ start_of j) q
      lower_rest [] n = tt
      lower_rest (j ∷ q) n = (omega arith, lower_rest q n.1)

  lower_local :
      (t offset : ℤ) (i : ℕ) (q : List ℕ)
      → t ≤ℤ start_of i -ℤ offset
      → IsSorted start_of (i ∷ q)
      → All (λ j. t ≤ℤ start_of j -ℤ offset) (i ∷ q)
  lower_local t offset i q h s = (h, lower_rest q s.0)
    where
      lower_rest :
          (q : List ℕ) → NotBefore start_of (start_of i) q → All (λ j. t ≤ℤ start_of j -ℤ offset) q
      lower_rest [] n = tt
      lower_rest (j ∷ q) n = (
        omega (arith, -ℤ_parts (start_of i) offset, -ℤ_parts (start_of j) offset),
        lower_rest q n.1,
      )

  next-NoLaterThan :
      (s : Scheduler) (q l : List ℕ) (t : ℤ)
      → s.queue ≡ q
      → s.local_queue ≡ l
      → IsSorted start_of q
      → IsSorted start_of l
      → get_next_start_time start_of s ≡ some t
      → All (λ i. t ≤ℤ start_of i) q
        × (s.local_offset_set ≡ true → All (λ i. t ≤ℤ start_of i -ℤ s.local_offset) l)
  unfolding get_next_start_time
  next-NoLaterThan s [] [] t eq el sq sl e = ground arith
  next-NoLaterThan s [] (j ∷ l) t eq el sq sl e =
      (tt, λ h. lower_local t s.local_offset j l (ground arith) sl)
  next-NoLaterThan s (i ∷ q) [] t eq el sq sl e =
      (lower t i q (ground (arith, -ℤ_parts (start_of i) (pos 0))) sq, λ h. tt)
  next-NoLaterThan s (i ∷ q) (j ∷ l) t eq el sq sl e = (
    lower t i q
        (ground (
          arith,
          -ℤ_parts (start_of i) (pos 0),
          ltb_ℤ_iff (start_of i -ℤ pos 0) (start_of j -ℤ s.local_offset),
        ))
        sq,
    λ h.
        lower_local t s.local_offset j l
          (ground (
            arith,
            -ℤ_parts (start_of i) (pos 0),
            ltb_ℤ_iff (start_of i -ℤ pos 0) (start_of j -ℤ s.local_offset),
          ))
          sl,
  )

  next-later :
      (now : ℤ) (s : Scheduler) (q l : List ℕ) (t : ℤ)
      → s.queue ≡ q
      → s.local_queue ≡ l
      → All (λ i. now <ℤ start_of i) q
      → (s.local_offset_set ≡ true → All (λ i. (now +ℤ s.local_offset) <ℤ start_of i) l)
      → get_next_start_time start_of s ≡ some t
      → now <ℤ t
  unfolding get_next_start_time
  next-later now s [] [] t eq el hq hl e = ground arith
  next-later now s [] (j ∷ l) t eq el hq hl e =
      ground (arith, +ℤ_parts now s.local_offset, -ℤ_parts (start_of j) s.local_offset)
  next-later now s (i ∷ q) [] t eq el hq hl e = ground (arith, -ℤ_parts (start_of i) (pos 0))
  next-later now s (i ∷ q) (j ∷ l) t eq el hq hl e = ground (
    arith,
    -ℤ_parts (start_of i) (pos 0),
    +ℤ_parts now s.local_offset,
    -ℤ_parts (start_of j) s.local_offset,
  )

  update_wake-keeps :
      (s : Scheduler)
      → ((update_wake start_of s).queue ≡ s.queue)
        × ((update_wake start_of s).local_queue ≡ s.local_queue)
        × ((update_wake start_of s).local_offset_set ≡ s.local_offset_set)
        × ((update_wake start_of s).local_offset ≡ s.local_offset)
        × (get_next_start_time start_of (update_wake start_of s) ≡ get_next_start_time start_of s)
  unfolding update_wake get_next_start_time
  update_wake-keeps s = ground arith

  Awake-not-idle : (s : Scheduler) → Awake s → s.wake_scheduled ≡ not (is_idle s)
  Awake-not-idle s a = ground (arith, a.idle, a.busy)

  -- Nothing that can come up does so at `now` or before.
  abbrev pub LaterThan : ℤ → Scheduler → Type 0
  LaterThan now s =
      All (λ i. now <ℤ start_of i) s.queue
      × (s.local_offset_set ≡ true → All (λ i. (now +ℤ s.local_offset) <ℤ start_of i) s.local_queue)

  -- A wake-up is set exactly when some item can still come up; it is then later than now, and no later than the
  -- start of any such item in global time.
  abbrev pub WakesInTime : ℤ → Scheduler → Type 0
  WakesInTime now s =
      (s.wake_scheduled ≡ not (is_idle s))
      × ((is_idle s ≡ true) ⊎ ((now <ℤ s.next_wakeup) × NoLaterThan s.next_wakeup s))

  updated_next :
      (now : ℤ) (p : Scheduler)
      → IsSorted start_of p.queue
      → IsSorted start_of p.local_queue
      → LaterThan now p
      → let u = update_wake start_of p in
        is_idle u ≡ false → (now <ℤ u.next_wakeup) × NoLaterThan u.next_wakeup u
  updated_next now p sq sl h busy =
      let u = update_wake start_of p in
      let k = update_wake-keeps p in
      let e = sym k.4 ∙ (update_wake-Awake p).next busy in
      let (global, local) =
        next-NoLaterThan p p.queue p.local_queue u.next_wakeup refl refl sq sl e in
      (
        next-later now p p.queue p.local_queue u.next_wakeup refl refl h.0 h.1 e,
        (rw k.0 global, λ set. rw (k.1, k.3) (local (sym k.2 ∙ set))),
      )

  pub update_wake-WakesInTime :
      (now : ℤ) (p : Scheduler)
      → IsSorted start_of p.queue
      → IsSorted start_of p.local_queue
      → LaterThan now p
      → WakesInTime now (update_wake start_of p)
  update_wake-WakesInTime now p sq sl h = (
    Awake-not-idle (update_wake start_of p) (update_wake-Awake p),
    elim (Bool-cases (is_idle (update_wake start_of p))) [
      | inl idle ↦ inl idle
      | inr busy ↦ inr (updated_next now p sq sl h busy)
    ],
  )

  pub cancel_wake-WakesInTime :
      (now : ℤ) (s : Scheduler) → is_idle s ≡ true → WakesInTime now (cancel_wake s)
  unfolding is_idle cancel_wake
  cancel_wake-WakesInTime now s h = (sym (ap not h), inl h)
