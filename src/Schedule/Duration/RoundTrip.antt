-- ===== src/Schedule/Duration/RoundTrip.antt =====
-- What IntervalToString writes, StringToInterval reads back.
use activitymanager.Prelude.{
  ℕ, ◌+◌, ◌*◌, ◌/◌, ◌%◌, ◌<◌, ◌≤◌, ◌≡◌, sym, ap, ◌∙◌, ◌⊎◌, refl, ◌≢◌, inl, inr, ltb, Bool, true,
  false, [], ◌∷◌, ◌++◌, arith, Bool-cases, ◌==◌, ==_iff, if◌then◌else◌,
}
use activitymanager.Schedule.Duration.{
  Text, ok, is_letter, span_digits, after_digits, read_group, write_group, show, int_limit,
  undefined, check_sum, among, allowed, check_total, check_smart, string_to_interval,
  interval_to_string,
}
use activitymanager.Schedule.Duration.Decimal.{
  span_digits-append, show-Digits, atoi-show, show-not-empty,
}
use mathlib.Core.List.{append_assoc, append-nil}

-- A letter of a group: a small letter.
abbrev Small : ℕ → Type 0
Small l = (97 ≤ l) × (l ≤ 122)

-- The group that reads `l` finds nothing at the head of the text.
abbrev Skips : ℕ → Text → Type 0
Skips l t = read_group l t ≡ (0, t)

span_digits-show :
    (n l : ℕ) (t : Text) → Small l → span_digits ((show n ++ (l ∷ [])) ++ t) ≡ (show n, l ∷ t)
span_digits-show n l t small =
    rw (append_assoc (show n) (l ∷ []) t)
      (span_digits-append (show n) l t (show-Digits n) (ground arith))

read_group-show :
    (n l m : ℕ) (t : Text)
    → Small m
    → read_group l ((show n ++ (m ∷ [])) ++ t)
      ≡ (if is_letter l m then (n, t) else (0, (show n ++ (m ∷ [])) ++ t))
unfolding read_group
read_group-show n l m t small =
    ap (λ (p : Text × Text). after_digits l ((show n ++ (m ∷ [])) ++ t) p.0 p.1)
      (span_digits-show n m t small)
    ∙ rw (show-not-empty n, atoi-show n)

read_group-write_group :
    (n l : ℕ) (t : Text) → Small l → Skips l t → read_group l (write_group n l ++ t) ≡ (n, t)
unfolding write_group
read_group-write_group n l t small skips = elim (Bool-cases (n == 0)) [
  | inl zero_written ↦
      rw zero_written (skips ∙ ap (λ k. (k, t)) (sym ((==_iff n 0).0 zero_written)))
  | inr written ↦ rw written (read_group-show n l l t small ∙ ground arith)
]

Skips-write_group :
    (n l m : ℕ) (t : Text) → Small l → Small m → l ≢ m → Skips l t → Skips l (write_group n m ++ t)
unfolding write_group
Skips-write_group n l m t sl sm other skips = elim (Bool-cases (n == 0)) [
  | inl zero_written ↦ rw zero_written skips
  | inr written ↦ rw written (read_group-show n l m t sm ∙ ground arith)
]

Skips-nil : (l : ℕ) → Skips l []
unfolding read_group span_digits
Skips-nil l = refl

-- The four groups, in the order of the expression.
abbrev seconds_text : ℕ → Text
seconds_text s = write_group s 115

abbrev minutes_text : ℕ → ℕ → Text
minutes_text m s = write_group m 109 ++ seconds_text s

abbrev hours_text : ℕ → ℕ → ℕ → Text
hours_text h m s = write_group h 104 ++ minutes_text m s

Skips-seconds : (l s : ℕ) → Small l → l ≢ 115 → Skips l (seconds_text s)
Skips-seconds l s small other =
    rw (← append-nil (seconds_text s))
      (Skips-write_group s l 115 [] small (omega arith) other (Skips-nil l))

Skips-minutes : (l m s : ℕ) → Small l → l ≢ 115 → l ≢ 109 → Skips l (minutes_text m s)
Skips-minutes l m s small o1 o2 =
    Skips-write_group m l 109 (seconds_text s) small (omega arith) o2 (Skips-seconds l s small o1)

Skips-hours : (l h m s : ℕ) → Small l → l ≢ 115 → l ≢ 109 → l ≢ 104 → Skips l (hours_text h m s)
Skips-hours l h m s small o1 o2 o3 =
    Skips-write_group h l 104 (minutes_text m s) small (omega arith) o3
      (Skips-minutes l m s small o1 o2)

read-seconds : (s : ℕ) → read_group 115 (seconds_text s) ≡ (s, [])
read-seconds s =
    rw (← append-nil (seconds_text s))
      (read_group-write_group s 115 [] (omega arith) (Skips-nil 115))

-- A text of four groups reads back as their sum, checked.
string_to_interval-groups :
    (d h m s : ℕ) (smart : Bool)
    → string_to_interval (write_group d 100 ++ hours_text h m s) smart
      ≡ check_sum smart (s + m * 60 + h * 3600 + d * 86400)
unfolding string_to_interval
string_to_interval-groups d h m s smart = rw (
  read_group-write_group d 100 (hours_text h m s) (omega arith)
      (Skips-hours 100 h m s (omega arith) (omega arith) (omega arith) (omega arith)),
  read_group-write_group h 104 (minutes_text m s) (omega arith)
      (Skips-minutes 104 m s (omega arith) (omega arith) (omega arith)),
  read_group-write_group m 109 (seconds_text s) (omega arith)
      (Skips-seconds 109 s (omega arith) (omega arith)),
  read-seconds s,
)

recombine :
    (n : ℕ) → n % 60 + n / 60 % 60 * 60 + n / 60 / 60 % 24 * 3600 + n / 60 / 60 / 24 * 86400 ≡ n
recombine n = omega arith

-- Reading back what was written for an interval gives the interval, checked as any sum is.
string_to_interval-interval_to_string :
    (n : ℕ) (smart : Bool) → string_to_interval (interval_to_string n) smart ≡ check_sum smart n
unfolding interval_to_string
string_to_interval-interval_to_string n smart =
    string_to_interval-groups (n / 60 / 60 / 24) (n / 60 / 60 % 24) (n / 60 % 60) (n % 60) smart
    ∙ ap (check_sum smart) (recombine n)

-- Every interval of at least 1 second is read back from its text as it was if it is below 2 ^ 31 seconds; from
-- there on reading its text is undefined.
pub interval_round_trip :
    (n : ℕ)
    → 0 < n
    → string_to_interval (interval_to_string n) false
      ≡ (if ltb n int_limit then ok n else undefined)
unfolding check_total check_sum
interval_round_trip n some_time = string_to_interval-interval_to_string n false ∙ ground arith

check_smart-ok :
    (n q : ℕ)
    → check_smart n ≡ ok q
    → (q ≡ n) × ((n % 86400 ≡ 0) ⊎ ((k : ℕ) × (among k allowed ≡ true) × (n ≡ k * 60)))
unfolding check_smart
check_smart-ok n q e = elim (Bool-cases (among (n / 60) allowed)) [
  | inl listed ↦ (ground arith, inr (n / 60, listed, ground arith))
  | inr other ↦ (ground arith, inl (ground arith))
]

-- The text of an interval is read back as a smart one only if the interval is below 2 ^ 31 seconds and a whole
-- number of days or one of the nine lengths of the table, and then as it was.
pub smart_round_trip :
    (n q : ℕ)
    → string_to_interval (interval_to_string n) true ≡ ok q
    → (q ≡ n)
      × (0 < n)
      × (n < int_limit)
      × ((n % 86400 ≡ 0) ⊎ ((k : ℕ) × (among k allowed ≡ true) × (n ≡ k * 60)))
unfolding check_total check_sum
smart_round_trip n q e =
    let e' : check_sum true n ≡ ok q = sym (string_to_interval-interval_to_string n true) ∙ e in
    let fits = check_smart-ok n q (ground (arith, e')) in
    (fits.0, ground (arith, e'), ground (arith, e'), fits.1)
