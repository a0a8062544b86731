-- ===== src/Matcher/Where.antt =====
-- MojoWhereMatcher of src/MojoMatcher.cpp: a where clause, or an array of them that must all hold.
-- `test` is how MojObject compares values; `text_of` is MojObject::stringValue, `none` where it returns an error.
use activitymanager.Prelude.{Bool, true, false, Option, none, some, if◌then◌else◌}
use activitymanager.Types.{Text}
use activitymanager.Json.{
  Value, Items, string, array, object, nil, cons, get, Fault, Answer, gives, throws, ◌>>=◌, ◌>>◌,
  Test, prop_text, op_text, val_text, test_named,
}

abbrev pub U : Type 0
U = Unit {0}

-- ValidateKey: a string or an array of strings.
abbrev pub validate_key_item : Value → Answer U
validate_key_item (string s) = gives tt
validate_key_item _ = throws Fault.bad_key

unfoldable pub validate_keys : Items → Answer U
validate_keys nil = gives tt
validate_keys (cons k ks) = validate_key_item k >> validate_keys ks

unfoldable pub validate_key : Value → Answer U
validate_key (array ks) = validate_keys ks
validate_key (string s) = gives tt
validate_key _ = throws Fault.bad_key

-- ValidateOp.
abbrev pub known_operation : Option Test → Answer U
known_operation none = throws Fault.bad_operation
known_operation (some t) = gives tt

unfoldable pub validate_op : Value → Answer U
validate_op (string s) = known_operation (test_named s)
validate_op _ = throws Fault.bad_operation

abbrev pub or_throw : {A : Type 0} → Option A → Fault → Answer A
or_throw none e = throws e
or_throw (some a) e = gives a

-- ValidateClause and ValidateClauses.
unfoldable pub validate_clause : Value → Answer U
validate_clause clause = do
  prop ← or_throw (get prop_text clause) Fault.no_property_named
  validate_key prop
  op ← or_throw (get op_text clause) Fault.no_operation
  validate_op op
  val ← or_throw (get val_text clause) Fault.no_value
  gives tt

abbrev pub validate_member : Value → Answer U
validate_member (object fs) = validate_clause (object fs)
validate_member _ = throws Fault.not_a_clause

unfoldable pub validate_members : Items → Answer U
validate_members nil = gives tt
validate_members (cons c cs) = validate_member c >> validate_members cs

unfoldable pub validate_clauses : Value → Answer U
validate_clauses (object fs) = validate_clause (object fs)
validate_clauses (array cs) = validate_members cs
validate_clauses _ = throws Fault.not_a_clause

module _ (test : Test → Value → Value → Bool) (text_of : Value → Option Text) where
  -- GetObjectValue: the value that a property, or a path of them, names; `none` where it is missing.
  abbrev pub key_text : Value → Answer Text
  key_text (string s) = or_throw (text_of (string s)) Fault.bad_key
  key_text _ = throws Fault.bad_key

  abbrev pub step_in : (Value → Answer (Option Value)) → Option Value → Answer (Option Value)
  step_in next none = gives none
  step_in next (some v) = next v

  unfoldable pub get_path : Items → Value → Answer (Option Value)
  get_path nil cur = gives (some cur)
  get_path (cons k ks) cur = do s ← key_text k; step_in (get_path ks) (get s cur)

  unfoldable pub get_object_value : Value → Value → Answer (Option Value)
  get_object_value (string s) response = do t ← key_text (string s); gives (get t response)
  get_object_value (array ks) response = get_path ks response
  get_object_value _ response = throws Fault.bad_key

  -- CheckClause: a property that is missing does not match.
  abbrev pub run_test : Option Test → Value → Value → Answer Bool
  run_test none v w = throws Fault.bad_operation
  run_test (some t) v w = gives (test t v w)

  abbrev pub compare_value : Option Value → Option Value → Option Value → Answer Bool
  compare_value op val none = gives false
  compare_value op val (some v) = do
    val ← or_throw val Fault.no_value
    op ← or_throw op Fault.no_operation
    s ← or_throw (text_of op) Fault.no_operation
    run_test (test_named s) v val

  unfoldable pub check_clause : Value → Value → Answer Bool
  check_clause (object fs) response = do
    prop ← or_throw (get prop_text (object fs)) Fault.no_property_named
    v ← get_object_value prop response
    compare_value (get op_text (object fs)) (get val_text (object fs)) v
  check_clause _ response = throws Fault.not_a_clause

  -- CheckClauses: the first clause that does not match ends the loop.
  unfoldable pub check_all : Items → Value → Answer Bool
  check_all nil response = gives true
  check_all (cons c cs) response = do
    held ← check_clause c response
    if held then check_all cs response else gives false

  unfoldable pub check_clauses : Value → Value → Answer Bool
  check_clauses (object fs) response = check_clause (object fs) response
  check_clauses (array cs) response = check_all cs response
  check_clauses _ response = throws Fault.not_a_clause
