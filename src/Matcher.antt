-- ===== src/Matcher.antt =====
-- src/MojoMatcher.cpp but for its where clauses: whether a response fires a trigger.
pub mod Where
pub mod Clauses
pub mod Safe
pub mod Holds
pub mod Nested
use activitymanager.Prelude.{Bool, true, false, Option, none, some, is_some, not, if◌then◌else◌}
use activitymanager.Types.{Text}
use activitymanager.Json.{Value, get}

-- MojoSimpleMatcher: the first response sets it up.
pub record Simple : Type 0 where
  pub setup_complete : Bool

abbrev pub new_simple : Simple
new_simple = record { setup_complete = false }

unfoldable pub simple_match : Simple → Bool × Simple
simple_match m =
    if not m.setup_complete then (false, record { setup_complete = true }) else (true, m)

unfoldable pub simple_reset : Simple → Simple
simple_reset m = record { setup_complete = false }

-- MojoKeyMatcher.
unfoldable pub key_match : Text → Value → Bool
key_match key response = is_some (get key response)

-- MojoCompareMatcher; `differ` is MojObject's `!=`.
abbrev changed : (Value → Value → Bool) → Value → Option Value → Bool
changed differ old none = false
changed differ old (some new) = differ new old

unfoldable pub compare_match : (Value → Value → Bool) → Text → Value → Value → Bool
compare_match differ key old response = changed differ old (get key response)
