-- ===== src/Types.antt =====
-- include/internal/ActivityTypes.h: the states, commands, events and priorities of an Activity, and
-- include/internal/BusId.h: who is on the other end of the bus.
pub mod BusOrder
use activitymanager.Prelude.{
  ℕ, Bool, true, false, not, ◌&&◌, ◌||◌, List, [], ◌∷◌, ◌++◌, ltb, ◌==◌, if◌then◌else◌,
}

pub data State : Type 0 where
  init waiting blocked queued starting running paused complete : State
  stopping stopped cancelling cancelled unknown : State

pub data Command : Type 0 where
  none start stop pause cancel complete : Command

pub data Event : Type 0 where
  start stop pause cancel complete yield : Event
  orphan adopted focused unfocused update : Event

pub data Priority : Type 0 where
  none lowest low normal high highest : Priority

abbrev pub foreground_priority : Priority
foreground_priority = Priority.normal

abbrev pub background_priority : Priority
background_priority = Priority.low

-- Equality of commands.
abbrev pub code_of : Command → ℕ
code_of Command.none = 0
code_of Command.start = 1
code_of Command.stop = 2
code_of Command.pause = 3
code_of Command.cancel = 4
code_of Command.complete = 5

abbrev pub is : Command → Command → Bool
is a b = code_of a == code_of b

abbrev pub is_update : Event → Bool
is_update Event.update = true
is_update _ = false

-- Cancel, stop or complete.
abbrev pub is_final : Command → Bool
is_final Command.cancel = true
is_final Command.stop = true
is_final Command.complete = true
is_final _ = false

-- The bytes of a text.
abbrev pub Text : Type 0
Text = List ℕ

pub data BusIdType : Type 0 where
  bus_null bus_app bus_service bus_anon : BusIdType

pub record BusId : Type 0 where
  pub id : Text
  pub type : BusIdType

-- std::string's `==` and `<`, byte by byte.
unfoldable pub text_eq : Text → Text → Bool
text_eq [] [] = true
text_eq [] (b ∷ bs) = false
text_eq (a ∷ as') [] = false
text_eq (a ∷ as') (b ∷ bs) = (a == b) && text_eq as' bs

unfoldable pub text_lt : Text → Text → Bool
text_lt [] [] = false
text_lt [] (b ∷ bs) = true
text_lt (a ∷ as') [] = false
text_lt (a ∷ as') (b ∷ bs) = ltb a b || ((a == b) && text_lt as' bs)

abbrev pub type_code : BusIdType → ℕ
type_code bus_null = 0
type_code bus_app = 1
type_code bus_service = 2
type_code bus_anon = 3

-- BusId::operator==, != and <.
unfoldable pub bus_eq : BusId → BusId → Bool
bus_eq a b = text_eq a.id b.id && (type_code a.type == type_code b.type)

unfoldable pub bus_ne : BusId → BusId → Bool
bus_ne a b = not (text_eq a.id b.id) || not (type_code a.type == type_code b.type)

unfoldable pub bus_lt : BusId → BusId → Bool
bus_lt a b =
    if not (type_code a.type == type_code b.type)
    then ltb (type_code a.type) (type_code b.type)
    else text_lt a.id b.id

abbrev app_prefix : Text
app_prefix = 97 ∷ 112 ∷ 112 ∷ 73 ∷ 100 ∷ 58 ∷ []

abbrev service_prefix : Text
service_prefix = 115 ∷ 101 ∷ 114 ∷ 118 ∷ 105 ∷ 99 ∷ 101 ∷ 73 ∷ 100 ∷ 58 ∷ []

abbrev anon_prefix : Text
anon_prefix = 97 ∷ 110 ∷ 111 ∷ 110 ∷ 73 ∷ 100 ∷ 58 ∷ []

abbrev invalid_text : Text
invalid_text = 105 ∷ 110 ∷ 118 ∷ 97 ∷ 108 ∷ 105 ∷ 100 ∷ []

abbrev string_of : BusIdType → Text → Text
string_of bus_null id = invalid_text
string_of bus_app id = app_prefix ++ id
string_of bus_service id = service_prefix ++ id
string_of bus_anon id = anon_prefix ++ id

-- BusId::GetString: "invalid", or a prefix that tells the type, and the id.
unfoldable pub get_string : BusId → Text
get_string b = string_of b.type b.id
