-- ===== src/Matcher/Safe.antt =====
-- A nested where clause that passed validation never throws.
use activitymanager.Prelude.{
  ◌≡◌, refl, ap, sym, ◌∙◌, Bool, true, false, Option, none, some, [], ◌∷◌, if◌then◌else◌, arith,
  Bool-cases, inl, inr,
}
use activitymanager.Types.{Text, text_eq}
use activitymanager.Json.{
  Value, Items, Fields, string, array, object, undefined, null, bool, int, decimal, nil, cons, end,
  field, find, find_field, get, Fault, Answer, gives, throws, ◌>>=◌, ◌>>◌, Test, and_text, or_text,
  prop_text, op_text, val_text, where_text, test_named,
}
use activitymanager.Matcher.Where.{U, validate_key, validate_keys, validate_key_item}
use activitymanager.Matcher.Clauses.{
  Mode, and_mode, or_mode, MatchResult, Parts, Check, validate_op, validate_parts, validate_clauses,
  validate_member, validate_members, validated, check_match, walk, walk_items, check_path,
  check_property, check_parts, check_comparison, check_or, check_and, check_clause, check_each,
  checked, where_match, go_on, validate_named, validate_comparison, validate_rest, validate_or,
  validate_and, match_named, step_in, with_key,
}

abbrev pub is_given : {A : Type 0} → Answer A → Bool
is_given (gives a) = true
is_given (throws e) = false

abbrev Safe : Check → Type 0
Safe c = (response : Value) (mode : Mode) → is_given (c response mode) ≡ true

abbrev Valid : Answer U → Type 0
Valid a = is_given a ≡ true

then_given :
    {A B : Type 0} (a : Answer A) (f : A → Answer B)
    → is_given a ≡ true
    → ((x : A) → is_given (f x) ≡ true)
    → is_given (a >>= f) ≡ true
then_given (gives x) f h k = k x
then_given (throws e) f h k = h

pub first_given :
    {A B : Type 0} (a : Answer A) (f : A → Answer B) → is_given (a >>= f) ≡ true → is_given a ≡ true
first_given (gives x) f h = refl
first_given (throws e) f h = h

pub second_given :
    {A : Type 0} (a : Answer U) (b : Answer A) → is_given (a >> b) ≡ true → is_given b ≡ true
second_given (gives x) b h = h
second_given (throws e) b h = ground (arith, h)

go_on_given :
    (m : Mode) (r : MatchResult) (a : Answer MatchResult)
    → is_given a ≡ true
    → is_given (go_on m r a) ≡ true
go_on_given and_mode r a h = ground (arith, h)
go_on_given or_mode r a h = ground (arith, h)

mutual
  unfolding walk

  walk-given :
      (next : Fields → Answer MatchResult) (m : Mode) (v : Value)
      → ((fs : Fields) → is_given (next fs) ≡ true)
      → is_given (walk next m v) ≡ true
  walk-given next m (array xs) h = walk_items-given next m xs h
  walk-given next m (object fs) h = h fs
  walk-given next m undefined h = refl
  walk-given next m null h = refl
  walk-given next m (bool b) h = refl
  walk-given next m (int i) h = refl
  walk-given next m (decimal i f) h = refl
  walk-given next m (string s) h = refl

  walk_items-given :
      (next : Fields → Answer MatchResult) (m : Mode) (xs : Items)
      → ((fs : Fields) → is_given (next fs) ≡ true)
      → is_given (walk_items next m xs) ≡ true
  walk_items-given next m nil h = refl
  walk_items-given next m (cons x xs) h =
      then_given (walk next m x) _ (walk-given next m x h)
        (λ r. go_on_given m r (walk_items next m xs) (walk_items-given next m xs h))

-- The same parts, of which each that is valid is safe.
abbrev SamePart : (Value × Answer U) → (Value × Check) → Type 0
SamePart (v, a) (w, c) = (v ≡ w) × (Valid a → Safe c)

abbrev SameOption : Option (Value × Answer U) → Option (Value × Check) → Type 0
SameOption none none = Unit {0}
SameOption (some p) (some q) = SamePart p q
SameOption _ _ = ⊥

abbrev Same : Parts (Answer U) → Parts Check → Type 0
Same [] [] = Unit {0}
Same ((k, p) ∷ ps) ((j, q) ∷ qs) = (k ≡ j) × SamePart p q × Same ps qs
Same _ _ = ⊥

find-Same :
    (t : Text) (ps : Parts (Answer U)) (qs : Parts Check)
    → Same ps qs
    → SameOption (find t ps) (find t qs)
find-Same t [] [] h = tt
find-Same t [] (q ∷ qs) h = absurd h
find-Same t (p ∷ ps) [] h = absurd h
find-Same t ((k, p) ∷ ps) ((j, q) ∷ qs) (e, same, rest) = rw e (elim (Bool-cases (text_eq j t)) [
  | inl here ↦ rw here same
  | inr later ↦ rw later (find-Same t ps qs rest)
])

-- MojObject gives the text of a string.
module _ (test : Test → Value → Value → Bool) (text_of : Value → Option Text)
    (string_text : (s : Text) → text_of (string s) ≡ some s) where
  match_named-given :
      (s : Text) (t : Option Test) (rhs val : Value) (a : Answer U) (c : Check)
      → (Valid a → Safe c)
      → Valid (validate_named s a t)
      → is_given (match_named test text_of s t rhs val c) ≡ true
  match_named-given s (some t) rhs val a c safe h = refl
  match_named-given s none rhs val a c safe h = elim (Bool-cases (text_eq s where_text)) [
    | inl nested ↦ rw nested (
        then_given (c rhs and_mode) _
          (safe (ap (λ b. is_given (if b then a else throws Fault.bad_operation)) (sym nested) ∙ h)
            rhs and_mode)
          (λ r. refl))
    | inr other ↦ absurd (
        ground
          (arith, ap (λ b. is_given (if b then a else throws Fault.bad_operation)) (sym other) ∙ h))
  ]

  check_match-given :
      (rhs op val : Value) (a : Answer U) (c : Check)
      → (Valid a → Safe c)
      → Valid (validate_op op a)
      → is_given (check_match test text_of rhs op val c) ≡ true
  unfolding check_match validate_op
  check_match-given rhs (string s) val a c safe h =
      rw (string_text s) (match_named-given s (test_named s) rhs val a c safe h)
  check_match-given rhs _ val a c safe h = absurd (ground (arith, h))

  with_key-given :
      (k : Value) (next : Value → Answer MatchResult)
      → is_given (validate_key_item k) ≡ true
      → ((v : Value) → is_given (next v) ≡ true)
      → (fs : Fields) → is_given (with_key next (text_of k) fs) ≡ true
  with_key-given (string s) next h n fs = rw (string_text s) (step_given (find_field s fs))
    where
      step_given : (v : Option Value) → is_given (step_in next v) ≡ true
      step_given none = refl
      step_given (some v) = n v
  with_key-given _ next h n fs = absurd (ground (arith, h))

  check_path-given :
      (ks : Items) (onion : Value) (mode : Mode) (last : Value → Answer MatchResult)
      → is_given (validate_keys ks) ≡ true
      → ((v : Value) → is_given (last v) ≡ true)
      → is_given (check_path test text_of ks onion mode last) ≡ true
  unfolding check_path validate_keys
  check_path-given nil onion mode last h l = l onion
  check_path-given (cons k ks) onion mode last h l = walk-given _ mode onion (
      with_key-given k _ (first_given (validate_key_item k) (λ _. validate_keys ks) h) (λ v.
        check_path-given ks v mode last (second_given (validate_key_item k) (validate_keys ks) h)
          l))

  check_property-given :
      (key response op val : Value) (a : Answer U) (c : Check) (mode : Mode)
      → (Valid a → Safe c)
      → is_given (validate_key key) ≡ true
      → Valid (validate_op op a)
      → is_given (check_property test text_of key response op val c mode) ≡ true
  unfolding check_property validate_key
  check_property-given (string s) response op val a c mode safe hk ho = step_given (get s response)
    where
      step_given :
          (v : Option Value)
          → is_given (step_in (λ v. check_match test text_of v op val c) v) ≡ true
      step_given none = refl
      step_given (some v) = check_match-given v op val a c safe ho
  check_property-given (array ks) response op val a c mode safe hk ho =
      check_path-given ks response mode _ hk (λ v. check_match-given v op val a c safe ho)
  check_property-given _ response op val a c mode safe hk ho = absurd (ground (arith, hk))

  -- A comparison that is valid is safe.
  comparison-Safe :
      (prop op val : Option (Value × Answer U)) (prop' op' val' : Option (Value × Check))
      → SameOption prop prop'
      → SameOption op op'
      → SameOption val val'
      → Valid (validate_rest false prop (validate_comparison val op))
      → Safe (check_comparison test text_of prop' op' val')
  comparison-Safe none op val p' o' v' sp so sv h = absurd (ground (arith, h))
  comparison-Safe (some p) op none p' o' v' sp so sv h =
      absurd (ground (arith, second_given (validate_key p.0) (throws Fault.no_value) h))
  comparison-Safe (some p) none (some v) p' o' v' sp so sv h =
      absurd (ground (arith, second_given (validate_key p.0) (throws Fault.no_operation) h))
  comparison-Safe (some p) (some o) (some v) none o' v' sp so sv h = absurd sp
  comparison-Safe (some p) (some o) (some v) (some p') none v' sp so sv h = absurd so
  comparison-Safe (some p) (some o) (some v) (some p') (some o') none sp so sv h = absurd sv
  comparison-Safe (some p) (some o) (some v) (some p') (some o') (some v') sp so sv h =
      λ response mode.
        check_property-given p'.0 response o'.0 v'.0 v.1 v'.1 mode sv.1
          (rw (← sp.0) (first_given (validate_key p.0) (λ _. validate_op o.0 v.1) h))
          (rw (← so.0) (second_given (validate_key p.0) (validate_op o.0 v.1) h))

  or-Safe :
      (o : Option (Value × Answer U)) (o' : Option (Value × Check)) (next : Bool → Answer U)
      (c : Check)
      → SameOption o o'
      → (Valid (next false) → Safe c)
      → Valid (validate_or false o next)
      → Safe (check_or o' c)
  or-Safe none none next c same rest h = rest h
  or-Safe none (some q) next c same rest h = absurd same
  or-Safe (some p) none next c same rest h = absurd same
  or-Safe (some p) (some q) next c same rest h =
      λ response mode. same.1 (first_given p.1 (λ _. next true) h) response or_mode

  and-Safe :
      (o : Option (Value × Answer U)) (o' : Option (Value × Check)) (next : Bool → Answer U)
      (c : Check)
      → SameOption o o'
      → (Valid (next false) → Safe c)
      → Valid (validate_and o next)
      → Safe (check_and o' c)
  and-Safe none none next c same rest h = rest h
  and-Safe none (some q) next c same rest h = absurd same
  and-Safe (some p) none next c same rest h = absurd same
  and-Safe (some p) (some q) next c same rest h =
      λ response mode. same.1 (first_given p.1 (λ _. next true) h) response and_mode

  parts-Safe :
      (ps : Parts (Answer U)) (qs : Parts Check)
      → Same ps qs
      → Valid (validate_parts ps)
      → Safe (check_parts test text_of qs)
  unfolding validate_parts check_parts
  parts-Safe ps qs same =
      and-Safe (find and_text ps) (find and_text qs) _ _ (find-Same and_text ps qs same) (
        or-Safe (find or_text ps) (find or_text qs) _ _ (find-Same or_text ps qs same) (
          comparison-Safe (find prop_text ps) (find op_text ps) (find val_text ps)
            (find prop_text qs) (find op_text qs) (find val_text qs)
            (find-Same prop_text ps qs same) (find-Same op_text ps qs same)
            (find-Same val_text ps qs same)))

  mutual
    unfolding validate_clauses check_clause

    clause-Safe : (c : Value) → Valid (validate_clauses c) → Safe (check_clause test text_of c)
    clause-Safe (object fs) h =
        parts-Safe (validated fs) (checked test text_of fs) (fields-Same fs) h
    clause-Safe (array cs) h = each-Safe cs h
    clause-Safe undefined h = absurd (ground (arith, h))
    clause-Safe null h = absurd (ground (arith, h))
    clause-Safe (bool b) h = absurd (ground (arith, h))
    clause-Safe (int i) h = absurd (ground (arith, h))
    clause-Safe (decimal i f) h = absurd (ground (arith, h))
    clause-Safe (string s) h = absurd (ground (arith, h))

    member-Safe : (c : Value) → Valid (validate_member c) → Safe (check_clause test text_of c)
    member-Safe (object fs) h =
        parts-Safe (validated fs) (checked test text_of fs) (fields-Same fs) h
    member-Safe (array cs) h = absurd (ground (arith, h))
    member-Safe undefined h = absurd (ground (arith, h))
    member-Safe null h = absurd (ground (arith, h))
    member-Safe (bool b) h = absurd (ground (arith, h))
    member-Safe (int i) h = absurd (ground (arith, h))
    member-Safe (decimal i f) h = absurd (ground (arith, h))
    member-Safe (string s) h = absurd (ground (arith, h))

    each-Safe : (cs : Items) → Valid (validate_members cs) → Safe (check_each test text_of cs)
    each-Safe nil h response mode = refl
    each-Safe (cons c cs) h response mode =
        then_given (check_clause test text_of c response mode) _
          (member-Safe c (first_given (validate_member c) (λ _. validate_members cs) h) response
            mode)
          (λ r.
            go_on_given mode r (check_each test text_of cs response mode) (
              each-Safe cs (second_given (validate_member c) (validate_members cs) h) response
                mode))

    fields-Same : (fs : Fields) → Same (validated fs) (checked test text_of fs)
    fields-Same end = tt
    fields-Same (field k v rest) = (refl, (refl, clause-Safe v), fields-Same rest)

  -- When MojObject gives the text of a string: where clauses that pass validation, which the constructor
  -- runs, are matched against any response without an exception.
  pub validate_clauses-where_match :
      (clauses response : Value)
      → is_given (validate_clauses clauses) ≡ true
      → is_given (where_match test text_of clauses response) ≡ true
  unfolding where_match
  validate_clauses-where_match clauses response h =
      then_given (check_clause test text_of clauses response and_mode) _
        (clause-Safe clauses h response and_mode) (λ r. refl)
