-- ===== src/Schedule/Duration.antt =====
-- src/IntervalSchedule.cpp: StringToInterval and IntervalToString, over the bytes of a text.
-- The regular expression is four optional groups, digits and then a letter of either case; no
-- letter is a digit, so each group is read without going back. atoi is the number that the digits
-- write, and the sum is one of ints: where either passes the largest int the source is undefined. No
-- part is negative, so that one of them does just when the whole sum is 2 ^ 31 or more.
pub mod Decimal
pub mod RoundTrip
use activitymanager.Prelude.{
  ℕ, zero, suc, ◌+◌, ◌-◌, ◌*◌, ◌/◌, ◌%◌, Bool, true, false, not, ◌&&◌, ◌||◌, List, [], ◌∷◌, ◌++◌,
  ltb, leb, ◌==◌, if◌then◌else◌, is_empty,
}

abbrev pub Text : Type 0
Text = List ℕ

pub data Error : Type 0 where
  parse_failed zero_duration not_even_minutes not_allowed : Error

pub data Result (A : Type 0) : Type 0 where
  ok : A → Result A
  throw : Error → Result A
  undefined : Result A

abbrev pub is_digit : ℕ → Bool
is_digit c = leb 48 c && leb c 57

abbrev consed : Bool → ℕ → Text → Text × Text → Text × Text
consed true c rest (ds, t) = (c ∷ ds, t)
consed false c rest _ = ([], c ∷ rest)

-- The digits that the text begins with, and the rest.
unfoldable pub span_digits : Text → Text × Text
span_digits [] = ([], [])
span_digits (c ∷ rest) = consed (is_digit c) c rest (span_digits rest)

unfoldable pub atoi_from : ℕ → Text → ℕ
atoi_from acc [] = acc
atoi_from acc (c ∷ cs) = atoi_from (acc * 10 + (c - 48)) cs

-- Whether `c` is the small letter `l` or its capital.
abbrev pub is_letter : ℕ → ℕ → Bool
is_letter l c = (c == l) || (c + 32 == l)

abbrev after_digits : ℕ → Text → Text → Text → ℕ × Text
after_digits l text ds [] = (0, text)
after_digits l text ds (c ∷ rest) =
    if not (is_empty ds) && is_letter l c then (atoi_from 0 ds, rest) else (0, text)

-- One group of the expression: the number before the letter `l`, or 0 and the text as it was.
unfoldable pub read_group : ℕ → Text → ℕ × Text
read_group l text = let (ds, rest) = span_digits text in after_digits l text ds rest

-- The table of intervals, in minutes, that a smart schedule may have.
abbrev pub allowed : List ℕ
allowed = 5 ∷ 10 ∷ 15 ∷ 20 ∷ 30 ∷ 60 ∷ 180 ∷ 360 ∷ 720 ∷ []

unfoldable pub among : ℕ → List ℕ → Bool
among x [] = false
among x (a ∷ as') = (x == a) || among x as'

unfoldable pub check_smart : ℕ → Result ℕ
unfolding among
check_smart secs =
    if not (secs % 60 == 0)
    then throw not_even_minutes
    else if among (secs / 60) allowed
    then ok secs
    else if secs / 60 % 1440 == 0
    then ok secs
    else throw not_allowed

abbrev pub int_limit : ℕ
int_limit = 2147483648

unfoldable pub check_total : Bool → ℕ → Result ℕ
check_total smart secs =
    if secs == 0 then throw zero_duration else if not smart then ok secs else check_smart secs

-- The sum of the groups, as ints, goes on to the checks.
unfoldable pub check_sum : Bool → ℕ → Result ℕ
check_sum smart total = if ltb total int_limit then check_total smart total else undefined

unfoldable pub string_to_interval : Text → Bool → Result ℕ
string_to_interval text smart =
    let (days, t1) = read_group 100 text in
    let (hours, t2) = read_group 104 t1 in
    let (minutes, t3) = read_group 109 t2 in
    let (seconds, t4) = read_group 115 t3 in
    if is_empty t4
    then check_sum smart (seconds + minutes * 60 + hours * 3600 + days * 86400)
    else throw parse_failed

-- The decimal digits of a number, before `ds`; a number has fewer digits than the fuel `n + 1`.
unfoldable pub show_before : ℕ → ℕ → Text → Text
show_before zero n ds = ds
show_before (suc fuel) n ds =
    let more = show_before fuel (n / 10) ((48 + n % 10) ∷ ds) in
    if ltb n 10 then (48 + n) ∷ ds else more

unfoldable pub show : ℕ → Text
show n = show_before (suc n) n []

-- `<< n << "d"`, if n is not 0.
unfoldable pub write_group : ℕ → ℕ → Text
write_group n l = if n == 0 then [] else show n ++ (l ∷ [])

unfoldable pub interval_to_string : ℕ → Text
interval_to_string interval =
    write_group (interval / 60 / 60 / 24) 100
    ++ (write_group (interval / 60 / 60 % 24) 104
        ++ (write_group (interval / 60 % 60) 109 ++ write_group (interval % 60) 115))
