-- ===== src/Persist.antt =====
-- src/PersistCommand.cpp: the chain of commands that persist Activities, one after the other. A command is known by
-- a number, as in the Activity that it is hooked to.
pub mod Chain
use activitymanager.Prelude.{
  ℕ, zero, suc, Bool, true, false, Option, none, some, List, [], ◌∷◌, ◌++◌, ◌==◌, if◌then◌else◌,
}

-- m_next of each command.
abbrev pub Next : Type 0
Next = ℕ → Option ℕ

abbrev pub set_next : ℕ → ℕ → Next → Next
set_next t c next = λ d. if d == t then some c else next d

pub data Appended : Type 0 where
  appended : Next → Appended
  to_itself makes_loop out_of_fuel : Appended

-- The loop of Append, from a target on.
abbrev append_at : ℕ → ℕ → ℕ → Next → (ℕ → Appended) → Option ℕ → Appended
append_at this command target next more none = appended (set_next target command next)
append_at this command target next more (some n) = if n == this then makes_loop else more n

unfoldable pub append_from : ℕ → ℕ → ℕ → Next → ℕ → Appended
append_from zero this command next target = out_of_fuel
append_from (suc fuel) this command next target =
    append_at this command target next (append_from fuel this command next) (next target)

-- Append.
unfoldable pub append : ℕ → ℕ → ℕ → Next → Appended
append fuel this command next =
    if command == this then to_itself else append_from fuel this command next this

-- A NoopCommand completes as soon as it is to persist. The others ask the database, or, where putting the call
-- together or issuing it throws, complete with failure at once.
pub data Kind : Type 0 where
  noop stored unissued : Kind

-- What happens to the commands; an exception of a completion, or of unhooking, is caught.
pub data Happening : Type 0 where
  completes : ℕ → Bool → Happening
  completion_throws unhooks asks_database : ℕ → Happening

abbrev pub completion : (ℕ → Bool) → ℕ → Bool → Happening
completion throws c success = if throws c then completion_throws c else completes c success

abbrev then_more : List Happening → Option (List Happening) → Option (List Happening)
then_more hs none = none
then_more hs (some rest) = some (hs ++ rest)

-- Persist, of NoopCommand and of MojoPersistCommand.
abbrev persist_as : Kind → ℕ → (Bool → ℕ → Option (List Happening)) → Option (List Happening)
persist_as noop n complete = complete true n
persist_as stored n complete = some (asks_database n ∷ [])
persist_as unissued n complete = complete false n

abbrev after_complete :
    (ℕ → Kind) → (Bool → ℕ → Option (List Happening)) → Option ℕ → Option (List Happening)
after_complete kind complete none = some []
after_complete kind complete (some n) = persist_as (kind n) n complete

-- `writes` is what the completions and the unhooking, which run other code, do to the links of the commands.
module _ (throws : ℕ → Bool) (kind : ℕ → Kind) (writes : Happening → Next → Next) where
  -- Complete, and the Persist of the next command, whose link is read between the completion and the unhooking;
  -- `none` is out of fuel.
  unfoldable pub complete : ℕ → Next → Bool → ℕ → Option (List Happening)
  complete zero next success c = none
  complete (suc fuel) next success c =
      let completed = completion throws c success in
      let mid = writes completed next in
      then_more (completed ∷ unhooks c ∷ [])
        (after_complete kind (complete fuel (writes (unhooks c) mid)) (mid c))
