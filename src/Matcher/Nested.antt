-- ===== src/Matcher/Nested.antt =====
-- What the operation `where` does with the result of its nested clauses (MojoNewWhereMatcher).
use activitymanager.Prelude.{◌≡◌, refl, Bool, Option, some}
use activitymanager.Types.{Text, text_eq}
use activitymanager.Json.{
  Value, string, object, end, field, get, gives, Test, prop_text, op_text, val_text, where_text,
}
use activitymanager.Matcher.Clauses.{
  and_mode, MatchResult, no_property, matched, not_matched, check_clause, check_parts,
  check_property, check_match, where_match, to_bool, match_of,
}

-- A clause that holds what a property is to the clauses in `val`.
abbrev pub nested_in : Text → Value → Value
nested_in s val =
    object (field prop_text (string s) (field op_text (string where_text) (field val_text val end)))

module _ (test : Test → Value → Value → Bool) (text_of : Value → Option Text)
    (string_text : (s : Text) → text_of (string s) ≡ some s) where
  check_match_where :
      (rhs val : Value) (r : MatchResult)
      → check_clause test text_of val rhs and_mode ≡ gives r
      → check_match test text_of rhs (string where_text) val (check_clause test text_of val)
        ≡ gives (match_of (to_bool r))
  unfolding check_match text_eq
  check_match_where rhs val r h = rw (string_text where_text) (rw h refl)

  -- When MojObject gives the text of a string: of a response that has the property, a clause with the
  -- operation `where` is matched as soon as its nested clauses find their own property there, also where they
  -- do not match; it is unmatched only where a property is missing.
  pub where_match_nested :
      (s : Text) (val response rhs : Value) (r : MatchResult)
      → get s response ≡ some rhs
      → check_clause test text_of val rhs and_mode ≡ gives r
      → where_match test text_of (nested_in s val) response ≡ gives (to_bool r)
  unfolding where_match check_clause check_parts check_property text_eq
  where_match_nested s val response rhs no_property e h =
      rw e (rw (check_match_where rhs val no_property h) refl)
  where_match_nested s val response rhs matched e h =
      rw e (rw (check_match_where rhs val matched h) refl)
  where_match_nested s val response rhs not_matched e h =
      rw e (rw (check_match_where rhs val not_matched h) refl)
