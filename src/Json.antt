-- ===== src/Json.antt =====
-- The values that arrive on the bus, MojObject: what src/MojoMatcher.cpp and src/MojoWhereMatcher.cpp read of
-- them. How two of them compare is a parameter where it is used. A value that is no object holds no property.
use activitymanager.Prelude.{ℕ, Bool, Option, none, some, List, [], ◌∷◌, if◌then◌else◌}
use activitymanager.Prelude.Int.{ℤ}
use activitymanager.Types.{Text, text_eq}

mutual
  pub data Value : Type 0 where
    undefined null : Value
    bool : Bool → Value
    int : ℤ → Value
    decimal : ℤ → ℕ → Value
    string : Text → Value
    array : Items → Value
    object : Fields → Value

  pub data Items : Type 0 where
    nil : Items
    cons : Value → Items → Items

  pub data Fields : Type 0 where
    end : Fields
    field : Text → Value → Fields → Fields

-- What stands under a key; the first of that name counts.
abbrev pub find : {A : Type 0} → Text → List (Text × A) → Option A
find k [] = none
find k ((j, a) ∷ rest) = let more = find k rest in if text_eq j k then some a else more

abbrev pub find_field : Text → Fields → Option Value
find_field k end = none
find_field k (field j v rest) = let more = find_field k rest in if text_eq j k then some v else more

-- MojObject::get; contains is `is_some` of it.
abbrev pub get : Text → Value → Option Value
get k (object fs) = find_field k fs
get k _ = none

-- What a check throws: the clause is of no known form, or lacks a part of it, or the key or the operation
-- is not one.
pub data Fault : Type 0 where
  not_a_clause not_an_array several_forms no_form : Fault
  no_property_named no_operation no_value bad_key bad_operation : Fault

pub data Answer (A : Type 0) : Type 0 where
  gives : A → Answer A
  throws : Fault → Answer A

infixl 10 ◌>>=◌ ◌>>◌
abbrev pub ◌>>=◌ : {A B : Type 0} → Answer A → (A → Answer B) → Answer B
gives a >>= f = f a
throws e >>= f = throws e

abbrev pub ◌>>◌ : {A B : Type 0} → Answer A → Answer B → Answer B
m >> k = m >>= λ _. k

-- The comparisons of a where clause.
pub data Test : Type 0 where
  less less_equal equal not_equal greater_equal greater : Test

abbrev pub and_text : Text
and_text = 97 ∷ 110 ∷ 100 ∷ []

abbrev pub or_text : Text
or_text = 111 ∷ 114 ∷ []

abbrev pub prop_text : Text
prop_text = 112 ∷ 114 ∷ 111 ∷ 112 ∷ []

abbrev pub op_text : Text
op_text = 111 ∷ 112 ∷ []

abbrev pub val_text : Text
val_text = 118 ∷ 97 ∷ 108 ∷ []

abbrev pub where_text : Text
where_text = 119 ∷ 104 ∷ 101 ∷ 114 ∷ 101 ∷ []

-- The name of a comparison, byte by byte: `<` is 60, `=` is 61, `>` is 62 and `!` is 33.
abbrev pub test_named : Text → Option Test
test_named t =
    if text_eq t (60 ∷ [])
    then some Test.less
    else if text_eq t (60 ∷ 61 ∷ [])
    then some Test.less_equal
    else if text_eq t (61 ∷ [])
    then some Test.equal
    else if text_eq t (33 ∷ 61 ∷ [])
    then some Test.not_equal
    else if text_eq t (62 ∷ 61 ∷ [])
    then some Test.greater_equal
    else if text_eq t (62 ∷ [])
    then some Test.greater
    else none
