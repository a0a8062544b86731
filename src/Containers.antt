-- ===== src/Containers.antt =====
-- src/ContainerManager.cpp, src/ResourceContainer.cpp and the priorities of src/ControlGroupManager.cpp: the
-- containers that entities are mapped into. A container is known by its name, under which the one pointer
-- to it is kept. UpdatePriority and MapProcess of src/ControlGroup.cpp do nothing, and are left out.
pub mod Placement
pub mod Mapping
pub mod Leading
use activitymanager.Prelude.{
  ℕ, Bool, true, false, not, ◌&&◌, ◌||◌, Option, none, some, List, [], ◌∷◌, ltb, if◌then◌else◌,
  contains, remove, ◌==◌,
}
use activitymanager.Types.{Priority, BusId, Text, text_eq}
use activitymanager.Activity.{Activity}
use activitymanager.Resources.{Resources, get_entity, get_priority, is_focused, priority_code}

-- `names` are the keys of m_containers, `held` the entities of each container, and `place` is
-- m_entityContainers.
pub record Containers : Type 0 where
  pub enabled : Bool
  pub names : List Text
  pub held : Text → List ℕ
  pub place : ℕ → Option Text

unfoldable pub new_containers : Containers
new_containers = record { enabled = false; names = []; held = λ n. []; place = λ e. none }

abbrev pub is_known : Text → List Text → Bool
is_known n [] = false
is_known n (m ∷ ms) = text_eq m n || is_known n ms

abbrev pub set_held : Text → List ℕ → Containers → Containers
set_held n es c = record c { held = λ m. if text_eq m n then es else c.held m }

abbrev pub set_place : ℕ → Text → Containers → Containers
set_place e n c = record c { place = λ d. if d == e then some n else c.place d }

-- ContainerManager::GetContainer.
unfoldable pub get_container : Text → Containers → Containers
get_container n c = if is_known n c.names then c else record c { names = n ∷ c.names }

-- ResourceContainer::AddEntity and RemoveEntity. The order of the set does not count.
unfoldable pub add_entity : ℕ → Text → Containers → Containers
add_entity e n c = if contains e (c.held n) then c else set_held n (e ∷ c.held n) c

unfoldable pub remove_entity : ℕ → Text → Containers → Containers
remove_entity e n c = if contains e (c.held n) then set_held n (remove e (c.held n)) c else c

-- The loop body of ContainerManager::MapContainer.
abbrev place_in : ℕ → Text → Option Text → Containers → Containers
place_in e n none c = set_place e n (add_entity e n c)
place_in e n (some m) c =
    if text_eq m n then c else set_place e n (add_entity e n (remove_entity e m c))

unfoldable pub map_entity : ℕ → Text → Containers → Containers
map_entity e n c = place_in e n (c.place e) c

unfoldable pub map_each : Text → List BusId → Resources → Containers → Resources × Containers
map_each n [] r c = (r, c)
map_each n (b ∷ bs) r c =
    let found = get_entity b r in map_each n bs found.1 (map_entity found.0 n c)

-- ContainerManager::MapContainer.
unfoldable pub map_container : Text → List BusId → Resources → Containers → Resources × Containers
map_container n bs r c = map_each n bs r (get_container n c)

unfoldable pub enable : Containers → Containers
enable c = record c { enabled = true }

unfoldable pub disable : Containers → Containers
disable c = record c { enabled = false }

-- ControlGroupManager::GetDefaultPriority and GetDisabledPriority.
abbrev pub default_priority : Priority
default_priority = Priority.low

abbrev pub disabled_priority : Priority
disabled_priority = Priority.high

-- ResourceContainer::EntityPriorityCompare.
abbrev pub focus_less : Bool → Priority → Bool → Priority → Bool
focus_less true p true q = ltb (priority_code p) (priority_code q)
focus_less false p false q = ltb (priority_code p) (priority_code q)
focus_less true p false q = false
focus_less false p true q = true

unfoldable pub less : Resources → ℕ → ℕ → Bool
less r d e =
    focus_less (is_focused r.acts (r.entity d)) (get_priority r.acts (r.entity d))
      (is_focused r.acts (r.entity e)) (get_priority r.acts (r.entity e))

-- std::max_element: the first of the largest.
unfoldable pub max_element : Resources → ℕ → List ℕ → ℕ
max_element r best [] = best
max_element r best (e ∷ es) = if less r best e then max_element r e es else max_element r best es

abbrev pub or_default : Priority → Priority
or_default Priority.none = default_priority
or_default p = p

abbrev pub held_priority : Resources → List ℕ → Priority
held_priority r [] = default_priority
held_priority r (e ∷ es) = or_default (get_priority r.acts (r.entity (max_element r e es)))

-- ResourceContainer::GetPriority and IsFocused.
unfoldable pub container_priority : Resources → Containers → Text → Priority
container_priority r c n = if not c.enabled then disabled_priority else held_priority r (c.held n)

abbrev pub any_focused : Resources → List ℕ → Bool
any_focused r [] = false
any_focused r (e ∷ es) = is_focused r.acts (r.entity e) || any_focused r es

unfoldable pub container_focused : Resources → Containers → Text → Bool
container_focused r c n = any_focused r (c.held n)
