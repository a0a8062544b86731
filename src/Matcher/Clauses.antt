-- ===== src/Matcher/Clauses.antt =====
-- src/MojoWhereMatcher.cpp: nested where clauses. A clause is an object: `and` or `or` with further clauses,
-- or a property, an operation and a value; the operation `where` takes clauses as its value.
-- Both walks, of validation and of the check, go down the clause: what stands under each key of an
-- object is walked, and the clause looks up what it needs, which is what the source walks.
use activitymanager.Prelude.{
  Bool, true, false, Option, none, some, not, List, [], ◌∷◌, if◌then◌else◌,
}
use activitymanager.Types.{Text, text_eq}
use activitymanager.Json.{
  Value, Items, Fields, string, array, object, nil, cons, end, field, find, find_field, get, Fault,
  Answer, gives, throws, ◌>>=◌, ◌>>◌, Test, and_text, or_text, prop_text, op_text, val_text,
  where_text, test_named,
}
use activitymanager.Matcher.Where.{U, validate_key}

pub data Mode : Type 0 where
  and_mode or_mode : Mode

-- NoProperty is 0, so that a conversion to bool makes it false and the others true.
pub data MatchResult : Type 0 where
  no_property matched not_matched : MatchResult

-- The parts of a clause that are looked up, each with what a walk of it gives.
abbrev pub Parts : Type 0 → Type 0
Parts A = List (Text × (Value × A))

-- ValidateOp, given the validation of the value.
abbrev pub validate_named : Text → Answer U → Option Test → Answer U
validate_named s nested (some t) = gives tt
validate_named s nested none = if text_eq s where_text then nested else throws Fault.bad_operation

unfoldable pub validate_op : Value → Answer U → Answer U
validate_op (string s) nested = validate_named s nested (test_named s)
validate_op _ nested = throws Fault.bad_operation

-- ValidateClause, given the parts.
abbrev pub validate_comparison : Option (Value × Answer U) → Option (Value × Answer U) → Answer U
validate_comparison none op = throws Fault.no_value
validate_comparison (some v) none = throws Fault.no_operation
validate_comparison (some (v, nested)) (some (op, _)) = validate_op op nested

abbrev pub validate_rest : Bool → Option (Value × Answer U) → Answer U → Answer U
validate_rest found none rest = if found then gives tt else throws Fault.no_form
validate_rest found (some (prop, _)) rest =
    if found then throws Fault.several_forms else validate_key prop >> rest

abbrev pub validate_or : Bool → Option (Value × Answer U) → (Bool → Answer U) → Answer U
validate_or found none next = next found
validate_or found (some (v, nested)) next =
    if found then throws Fault.several_forms else nested >>= λ _. next true

abbrev pub validate_and : Option (Value × Answer U) → (Bool → Answer U) → Answer U
validate_and none next = next false
validate_and (some (v, nested)) next = nested >>= λ _. next true

unfoldable pub validate_parts : Parts (Answer U) → Answer U
validate_parts ps = validate_and (find and_text ps) λ found.
    validate_or found (find or_text ps) λ found.
      validate_rest found (find prop_text ps)
        (validate_comparison (find val_text ps) (find op_text ps))

-- ValidateClauses: an object, or an array of objects.
unfoldable mutual
  pub validate_clauses : Value → Answer U
  validate_clauses (object fs) = validate_parts (validated fs)
  validate_clauses (array cs) = validate_members cs
  validate_clauses _ = throws Fault.not_a_clause

  pub validate_member : Value → Answer U
  validate_member (object fs) = validate_parts (validated fs)
  validate_member _ = throws Fault.not_a_clause

  pub validate_members : Items → Answer U
  validate_members nil = gives tt
  validate_members (cons c cs) = validate_member c >> validate_members cs

  pub validated : Fields → Parts (Answer U)
  validated end = []
  validated (field k v rest) = (k, (v, validate_clauses v)) ∷ validated rest

-- How a loop over results goes on, and what it gives at the end.
abbrev pub is_matched : MatchResult → Bool
is_matched matched = true
is_matched _ = false

abbrev pub to_bool : MatchResult → Bool
to_bool no_property = false
to_bool _ = true

abbrev pub go_on : Mode → MatchResult → Answer MatchResult → Answer MatchResult
go_on and_mode r rest = if not (is_matched r) then gives not_matched else rest
go_on or_mode r rest = if is_matched r then gives matched else rest

abbrev pub exhausted : Mode → MatchResult
exhausted and_mode = matched
exhausted or_mode = not_matched

abbrev pub match_of : Bool → MatchResult
match_of b = if b then matched else not_matched

-- What CheckClause does with a response, in a mode.
abbrev pub Check : Type 0
Check = Value → Mode → Answer MatchResult

module _ (test : Test → Value → Value → Bool) (text_of : Value → Option Text) where
  -- CheckMatch, given the check of the value as a clause. The result of that is kept in a `bool`.
  abbrev pub match_named : Text → Option Test → Value → Value → Check → Answer MatchResult
  match_named s (some t) rhs val nested = gives (match_of (test t rhs val))
  match_named s none rhs val nested =
      if text_eq s where_text
      then (nested rhs and_mode >>= λ r. gives (match_of (to_bool r)))
      else throws Fault.bad_operation

  abbrev pub match_text : Option Text → Value → Value → Check → Answer MatchResult
  match_text none rhs val nested = throws Fault.bad_operation
  match_text (some s) rhs val nested = match_named s (test_named s) rhs val nested

  unfoldable pub check_match : Value → Value → Value → Check → Answer MatchResult
  check_match rhs op val nested = match_text (text_of op) rhs val nested

-- CheckProperty along an array of keys: an array in the response is gone into, in the mode.
abbrev pub step_in : (Value → Answer MatchResult) → Option Value → Answer MatchResult
step_in next none = gives no_property
step_in next (some v) = next v

abbrev pub with_key : (Value → Answer MatchResult) → Option Text → Fields → Answer MatchResult
with_key next none fs = throws Fault.bad_key
with_key next (some s) fs = step_in next (find_field s fs)

unfoldable mutual
  pub walk : (Fields → Answer MatchResult) → Mode → Value → Answer MatchResult
  walk next mode (array xs) = walk_items next mode xs
  walk next mode (object fs) = next fs
  walk next mode _ = gives no_property

  pub walk_items : (Fields → Answer MatchResult) → Mode → Items → Answer MatchResult
  walk_items next mode nil = gives (exhausted mode)
  walk_items next mode (cons x xs) =
      walk next mode x >>= λ r. go_on mode r (walk_items next mode xs)

-- The clause under `or`, and under `and`.
abbrev pub check_or : Option (Value × Check) → Check → Check
check_or none rest response mode = rest response mode
check_or (some (v, nested)) rest response mode = nested response or_mode

abbrev pub check_and : Option (Value × Check) → Check → Check
check_and none rest response mode = rest response mode
check_and (some (v, nested)) rest response mode = nested response and_mode

module _ (test : Test → Value → Value → Bool) (text_of : Value → Option Text) where
  unfoldable pub check_path :
      Items → Value → Mode → (Value → Answer MatchResult) → Answer MatchResult
  check_path nil onion mode last = last onion
  check_path (cons k ks) onion mode last =
      walk (with_key (λ v. check_path ks v mode last) (text_of k)) mode onion

  -- CheckProperty, by the kind of key.
  unfoldable pub check_property : Value → Value → Value → Value → Check → Mode → Answer MatchResult
  check_property (string s) response op val nested mode =
      step_in (λ v. check_match test text_of v op val nested) (get s response)
  check_property (array ks) response op val nested mode =
      check_path ks response mode (λ v. check_match test text_of v op val nested)
  check_property _ response op val nested mode = throws Fault.bad_key

  -- CheckClause, given the parts.
  abbrev pub check_comparison :
      Option (Value × Check) → Option (Value × Check) → Option (Value × Check) → Check
  check_comparison none op val response mode = throws Fault.no_property_named
  check_comparison (some p) none val response mode = throws Fault.no_operation
  check_comparison (some p) (some o) none response mode = throws Fault.no_value
  check_comparison (some (prop, _)) (some (op, _)) (some (val, nested)) response mode =
      check_property prop response op val nested mode

  unfoldable pub check_parts : Parts Check → Check
  check_parts ps = check_and (find and_text ps) (
      check_or (find or_text ps)
        (check_comparison (find prop_text ps) (find op_text ps) (find val_text ps)))

  -- CheckClause, and CheckClauses for an array.
  unfoldable mutual
    pub check_clause : Value → Check
    check_clause (array cs) response mode = check_each cs response mode
    check_clause (object fs) response mode = check_parts (checked fs) response mode
    check_clause _ response mode = throws Fault.not_a_clause

    pub check_each : Items → Check
    check_each nil response mode = gives (exhausted mode)
    check_each (cons c cs) response mode =
        check_clause c response mode >>= λ r. go_on mode r (check_each cs response mode)

    pub checked : Fields → Parts Check
    checked end = []
    checked (field k v rest) = (k, (v, check_clause v)) ∷ checked rest

  -- Match.
  unfoldable pub where_match : Value → Value → Answer Bool
  where_match clauses response =
      check_clause clauses response and_mode >>= λ r. gives (is_matched r)
