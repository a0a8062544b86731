-- ===== src/Examples/Matching.antt =====
-- Where clauses on a response.
use activitymanager.Prelude.{◌≡◌, refl, ◌∷◌, [], Bool, true, false, Option, none, some}
use activitymanager.Types.{Text, text_eq}
use activitymanager.Json.{
  Value, string, array, object, nil, cons, end, field, gives, Test, prop_text, op_text, val_text,
}
use activitymanager.Matcher.{new_simple, simple_match, simple_reset, key_match}
use activitymanager.Matcher.Where
use activitymanager.Matcher.Where.{check_clauses, validate_clauses}
use activitymanager.Matcher.Clauses
use activitymanager.Matcher.Clauses.{where_match, not_matched}
use activitymanager.Matcher.Safe.{is_given, validate_clauses-where_match}
use activitymanager.Matcher.Holds.{holds, check_clauses-holds}
use activitymanager.Matcher.Nested.{nested_in, where_match_nested}

-- Strings compare for equality, and a string's text is it.
abbrev compare_strings : Test → Value → Value → Bool
compare_strings Test.equal (string a) (string b) = text_eq a b
compare_strings _ v w = false

abbrev text_of_string : Value → Option Text
text_of_string (string s) = some s
text_of_string _ = none

-- {"a": {"b": "x"}}
abbrev response : Value
response = object (field (97 ∷ []) (object (field (98 ∷ []) (string (120 ∷ [])) end)) end)

-- The property ["a", "b"] is equal to a text.
abbrev at_a_b : Text → Value
at_a_b t = object (
    field prop_text (array (cons (string (97 ∷ [])) (cons (string (98 ∷ [])) nil)))
      (field op_text (string (61 ∷ [])) (field val_text (string t) end)))

abbrev both : Value
both = array (cons (at_a_b (120 ∷ [])) (cons (at_a_b (121 ∷ [])) nil))

check_clauses_runs :
    check_clauses compare_strings text_of_string (at_a_b (120 ∷ [])) response ≡ gives true
unfolding check_clauses Where.check_clause Where.get_object_value Where.get_path text_eq
check_clauses_runs = refl

validate_clauses-where_match_example :
    is_given (where_match compare_strings text_of_string both response) ≡ true
unfolding Clauses.validate_clauses Clauses.validate_parts Clauses.validate_op text_eq
    Where.validate_key Where.validate_keys
validate_clauses-where_match_example =
    validate_clauses-where_match compare_strings text_of_string (λ s. refl) both response refl

check_clauses-holds_example :
    check_clauses compare_strings text_of_string both response
    ≡ gives (holds compare_strings both response)
unfolding validate_clauses Where.validate_members Where.validate_clause Where.validate_op
    Where.validate_key Where.validate_keys text_eq
check_clauses-holds_example =
    check_clauses-holds compare_strings text_of_string (λ s. refl) both response refl

-- {"b": "x"} under "a" does not have "y" under "b", and the clause matches.
abbrev b_is_y : Value
b_is_y = object (
    field prop_text (string (98 ∷ []))
      (field op_text (string (61 ∷ [])) (field val_text (string (121 ∷ [])) end)))

where_match_nested_example :
    where_match compare_strings text_of_string (nested_in (97 ∷ []) b_is_y) response ≡ gives true
unfolding Clauses.check_clause Clauses.check_parts Clauses.check_property Clauses.check_match
    text_eq
where_match_nested_example =
    where_match_nested compare_strings text_of_string (λ s. refl) (97 ∷ []) b_is_y response
      (object (field (98 ∷ []) (string (120 ∷ [])) end)) not_matched refl refl

-- The first response sets the simple matcher up, and each later one matches until it is reset.
simple_match_runs :
    let first = simple_match new_simple in
    (first.0 ≡ false)
    × ((simple_match first.1).0 ≡ true)
    × ((simple_match (simple_reset first.1)).0 ≡ false)
unfolding simple_match simple_reset
simple_match_runs = (refl, refl, refl)

key_match_runs : (key_match (97 ∷ []) response ≡ true) × (key_match (98 ∷ []) response ≡ false)
unfolding key_match text_eq
key_match_runs = (refl, refl)
