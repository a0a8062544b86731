-- ===== src/Requirements.antt =====
-- src/RequirementManager.cpp: which manager makes the requirements of a name. A manager is known by a number, and
-- `offers` are the names that its RegisterRequirements registers, as that of src/DefaultRequirementManager.cpp
-- registers "never".
pub mod Registering
use activitymanager.Prelude.{
  ℕ, Bool, true, false, Option, none, some, List, [], ◌∷◌, ◌==◌, if◌then◌else◌, contains,
}
use activitymanager.Types.{Text, text_eq}

-- MasterRequirementManager: m_requirements and m_managers.
pub record Master : Type 0 where
  pub requirements : Text → Option ℕ
  pub managers : List ℕ

unfoldable pub new_master : Master
new_master = record { requirements = λ n. none; managers = [] }

-- What a method that does not return leaves; `undefined` is an access that the language does not define.
pub data Result : Type 0 where
  returns : Master → Result
  throws : Master → Result
  undefined : Result

abbrev set_requirement : Text → Option ℕ → Master → Master
set_requirement n o r = record r { requirements = λ k. if text_eq k n then o else r.requirements k }

-- RegisterRequirement.
unfoldable pub register_requirement : Text → ℕ → Master → Master
register_requirement n m r = set_requirement n (some m) r

-- UnregisterRequirement: only of the manager that is registered.
abbrev unregister_of : Text → ℕ → Master → Option ℕ → Master
unregister_of n m r none = r
unregister_of n m r (some k) = if k == m then set_requirement n none r else r

unfoldable pub unregister_requirement : Text → ℕ → Master → Master
unregister_requirement n m r = unregister_of n m r (r.requirements n)

-- RegisterRequirements and UnregisterRequirements of a manager.
unfoldable pub register_requirements : List Text → ℕ → Master → Master
register_requirements [] m r = r
register_requirements (n ∷ ns) m r = register_requirements ns m (register_requirement n m r)

unfoldable pub unregister_requirements : List Text → ℕ → Master → Master
unregister_requirements [] m r = r
unregister_requirements (n ∷ ns) m r = unregister_requirements ns m (unregister_requirement n m r)

-- InstantiateRequirement: the manager that it goes to; `none` where it throws.
unfoldable pub instantiated_by : Text → Master → Option ℕ
instantiated_by n r = r.requirements n

-- AddManager.
unfoldable pub add_manager : (ℕ → List Text) → ℕ → Master → Result
add_manager offers m r =
    if contains m r.managers
    then throws r
    else returns (register_requirements (offers m) m (record r { managers = m ∷ r.managers }))

-- RemoveManager: the test is for a manager that is found, and the erasure of one that is not.
unfoldable pub remove_manager : (ℕ → List Text) → ℕ → Master → Result
remove_manager offers m r = if contains m r.managers then throws r else undefined
