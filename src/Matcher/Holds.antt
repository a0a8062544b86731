-- ===== src/Matcher/Holds.antt =====
-- Where clauses of MojoWhereMatcher of src/MojoMatcher.cpp read as a condition on the response.
use activitymanager.Prelude.{
  ◌≡◌, refl, Bool, true, false, Option, none, some, ◌&&◌, arith, Bool-cases, inl, inr,
}
use activitymanager.Types.{Text}
use activitymanager.Json.{
  Value, Items, string, array, object, nil, cons, get, Answer, gives, throws, ◌>>=◌, ◌>>◌, Test,
  prop_text, op_text, val_text, test_named, Fault,
}
use activitymanager.Matcher.Where.{
  U, validate_key, validate_keys, validate_op, validate_clause, validate_members, validate_clauses,
  known_operation, or_throw, step_in, get_path, get_object_value, run_test, compare_value,
  check_clause, check_all, check_clauses,
}
use activitymanager.Matcher.Safe.{is_given, first_given, second_given}

-- What stands in a value at the end of a path.
abbrev pub next_value : (Value → Option Value) → Option Value → Option Value
next_value f none = none
next_value f (some v) = f v

abbrev pub at_item : Value → Value → (Value → Option Value) → Option Value
at_item (string s) v next = next_value next (get s v)
at_item _ v next = none

unfoldable pub at_path : Items → Value → Option Value
at_path nil v = some v
at_path (cons k ks) v = at_item k v (at_path ks)

abbrev pub at : Option Value → Value → Option Value
at (some (string s)) v = get s v
at (some (array ks)) v = at_path ks v
at _ v = none

-- A value, an operation and what to compare with: the comparison, if all three are there.
abbrev pub passes : (Test → Value → Value → Bool) → Option Test → Value → Value → Bool
passes test none v w = false
passes test (some t) v w = test t v w

abbrev pub compares :
    (Test → Value → Value → Bool) → Option Value → Option Value → Option Value → Bool
compares test (some v) (some (string o)) (some w) = passes test (test_named o) v w
compares test _ _ _ = false

module _ (test : Test → Value → Value → Bool) where
  -- A clause holds of a response when its property is there and compares as it says.
  abbrev pub clause_holds : Value → Value → Bool
  clause_holds c response =
      compares test (at (get prop_text c) response) (get op_text c) (get val_text c)

  abbrev pub all_hold : Items → Value → Bool
  all_hold nil response = true
  all_hold (cons c cs) response = clause_holds c response && all_hold cs response

  -- One clause, or each of several.
  abbrev pub holds : Value → Value → Bool
  holds (array cs) response = all_hold cs response
  holds c response = clause_holds c response

module _ (test : Test → Value → Value → Bool) (text_of : Value → Option Text)
    (string_text : (s : Text) → text_of (string s) ≡ some s) where
  step_in-next :
      (f : Value → Answer (Option Value)) (g : Value → Option Value)
      → ((w : Value) → f w ≡ gives (g w))
      → (o : Option Value) → step_in test text_of f o ≡ gives (next_value g o)
  step_in-next f g e none = refl
  step_in-next f g e (some w) = e w

  get_path-at :
      (ks : Items) (v : Value)
      → is_given (validate_keys ks) ≡ true
      → get_path test text_of ks v ≡ gives (at_path ks v)
  unfolding get_path at_path validate_keys
  get_path-at nil v h = refl
  get_path-at (cons (string s) ks) v h =
      rw (string_text s)
        (step_in-next (get_path test text_of ks) (at_path ks) (λ w. get_path-at ks w h) (get s v))
  get_path-at (cons _ ks) v h = absurd (ground (arith, h))

  get_object_value-at :
      (key v : Value)
      → is_given (validate_key key) ≡ true
      → get_object_value test text_of key v ≡ gives (at (some key) v)
  unfolding get_object_value validate_key
  get_object_value-at (string s) v h = rw (string_text s) refl
  get_object_value-at (array ks) v h = get_path-at ks v h
  get_object_value-at _ v h = absurd (ground (arith, h))

  run_test-passes :
      (t : Option Test) (v w : Value)
      → is_given (◌>>◌ {B = U} (known_operation t) (gives tt)) ≡ true
      → run_test test text_of t v w ≡ gives (passes test t v w)
  run_test-passes none v w k = absurd (ground (arith, k))
  run_test-passes (some t) v w k = refl

  compare_value-compares :
      (op val v : Option Value)
      → is_given (
          or_throw op Fault.no_operation >>= λ o.
          validate_op o >> (or_throw val Fault.no_value >>= λ w. gives tt))
        ≡ true
      → compare_value test text_of op val v ≡ gives (compares test v op val)
  unfolding validate_op
  compare_value-compares op val none h = refl
  compare_value-compares none val (some v) h = absurd (ground (arith, h))
  compare_value-compares (some o) none (some v) h =
      absurd (ground (arith, second_given (validate_op o) (throws Fault.no_value) h))
  compare_value-compares (some (string s)) (some w) (some v) h =
      rw (string_text s) (run_test-passes (test_named s) v w h)
  compare_value-compares (some _) (some w) (some v) h = absurd (ground (arith, h))

  parts-compares :
      (prop op val : Option Value) (response : Value)
      → is_given (
          or_throw prop Fault.no_property_named >>= λ p.
          validate_key p
          >> (or_throw op Fault.no_operation >>= λ o.
              validate_op o >> (or_throw val Fault.no_value >>= λ w. gives tt)))
        ≡ true
      → (or_throw prop Fault.no_property_named >>= λ p.
          get_object_value test text_of p response >>= λ v. compare_value test text_of op val v)
        ≡ gives (compares test (at prop response) op val)
  parts-compares none op val response h = absurd (ground (arith, h))
  parts-compares (some p) op val response h =
      rw
        (get_object_value-at p response (
          first_given (validate_key p)
            (λ x. or_throw op Fault.no_operation >>= λ o.
              validate_op o >> (or_throw val Fault.no_value >>= λ w. gives tt))
            h))
        (compare_value-compares op val (at (some p) response) (second_given (validate_key p) _ h))

  check_all-holds :
      (cs : Items) (response : Value)
      → is_given (validate_members cs) ≡ true
      → check_all test text_of cs response ≡ gives (all_hold test cs response)
  unfolding check_all check_clause validate_members validate_clause
  check_all-holds nil response h = refl
  check_all-holds (cons (object fs) cs) response h =
      rw
        (parts-compares (get prop_text (object fs)) (get op_text (object fs))
          (get val_text (object fs)) response
          (first_given (validate_clause (object fs)) (λ x. validate_members cs) h))
        (elim (Bool-cases (clause_holds test (object fs) response)) [
          | inl e ↦ rw e (
              check_all-holds cs response
                (second_given (validate_clause (object fs)) (validate_members cs) h))
          | inr e ↦ rw e refl
        ])
  check_all-holds (cons _ cs) response h = absurd (ground (arith, h))

  -- When MojObject gives the text of a string: a where clause, or an array of them, that passes validation
  -- is matched exactly when each clause's property is in the response and compares as the clause says;
  -- nothing is thrown.
  pub check_clauses-holds :
      (clauses response : Value)
      → is_given (validate_clauses clauses) ≡ true
      → check_clauses test text_of clauses response ≡ gives (holds test clauses response)
  unfolding check_clauses validate_clauses validate_clause check_clause
  check_clauses-holds (object fs) response h =
      parts-compares (get prop_text (object fs)) (get op_text (object fs))
        (get val_text (object fs)) response h
  check_clauses-holds (array cs) response h = check_all-holds cs response h
  check_clauses-holds _ response h = absurd (ground (arith, h))
