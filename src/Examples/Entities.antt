-- ===== src/Examples/Entities.antt =====
-- Entities on the bus, containers and the power lock.
use activitymanager.Prelude.{
  ℕ, ◌≡◌, ◌⊎◌, ◌<◌, ◌≤◌, refl, ◌∷◌, [], true, false, List, All, contains, Option,
}
use activitymanager.Activity.{new_activity}
use activitymanager.Types.{bus_eq, text_eq}
use activitymanager.Resources.{Resources, get_priority, is_focused, priority_code}
use activitymanager.Resources
use activitymanager.Resources.Invariant.{IsWellFormed}
use activitymanager.Resources.History.{
  Call, associates, dissociates, focuses, run, no_entities, run-IsWellFormed,
  no_entities-IsWellFormed, run-leads, weight,
}
use activitymanager.Resources.History
use activitymanager.Resources.View
use activitymanager.Resources.View.{takes_part, noted, nobody, run-takes_part}
use activitymanager.Containers.{
  Containers, new_containers, map_container, enable, container_focused, container_priority,
}
use activitymanager.Containers.Placement.{IsPlaced, is_at}
use activitymanager.Containers.Mapping.{IsIn, map_container-IsPlaced}
use activitymanager.Containers.Leading.{NoMore, container-leads}
use activitymanager.Examples.{mail, maps, mail_text}

-- Two Activities of the mail program and one of the maps; one of them comes into focus and another leaves.
abbrev calls : List Call
calls =
    associates 1 mail
    ∷ associates 2 mail
    ∷ associates 3 maps
    ∷ focuses true 2
    ∷ dissociates 1 maps
    ∷ []

no_associations : (i : ℕ) → (new_activity i).associations ≡ []
unfolding new_activity
no_associations i = refl

abbrev after_calls : Resources
after_calls = run calls (no_entities new_activity)

after_calls-IsWellFormed : IsWellFormed after_calls
after_calls-IsWellFormed =
    run-IsWellFormed calls (no_entities new_activity)
      (no_entities-IsWellFormed new_activity no_associations)

run-IsWellFormed_example : IsWellFormed after_calls
run-IsWellFormed_example =
    run-IsWellFormed calls (no_entities new_activity)
      (no_entities-IsWellFormed new_activity no_associations)

run_order : (after_calls.entity 0 ≡ 2 ∷ 1 ∷ []) × (after_calls.entity 1 ≡ 3 ∷ [])
unfolding run History.perform no_entities new_activity Resources.get_entity
    Resources.associate_activity Resources.dissociate_activity Resources.add_entity_association
    Resources.remove_entity_association Resources.set_activity_focus Resources.reassociate_all
    Resources.reassociate_activity Resources.insert Resources.before Resources.is_found
    Resources.erase_found bus_eq text_eq
run_order = (refl, refl)

members_of_mail :
    (contains 1 (after_calls.entity 0) ≡ true) × (contains 2 (after_calls.entity 0) ≡ true)
members_of_mail = rw run_order.0 (refl, refl)

run-leads_example :
    ((k : ℕ) × (contains k (after_calls.entity 0) ≡ true)
      × (is_focused after_calls.acts (after_calls.entity 0) ≡ (after_calls.acts k).focused)
      × (get_priority after_calls.acts (after_calls.entity 0) ≡ (after_calls.acts k).priority))
    × ((weight (after_calls.acts 1).focused
          < weight (is_focused after_calls.acts (after_calls.entity 0)))
        ⊎ ((weight (after_calls.acts 1).focused
              ≡ weight (is_focused after_calls.acts (after_calls.entity 0)))
            × (priority_code (after_calls.acts 1).priority
                ≤ priority_code (get_priority after_calls.acts (after_calls.entity 0)))))
run-leads_example = run-leads new_activity no_associations calls 0 1 members_of_mail.0

run-takes_part_example : takes_part after_calls 2 mail ≡ noted calls nobody 2 mail
run-takes_part_example = run-takes_part new_activity no_associations calls 2 mail

noted-calls :
    (noted calls nobody 2 mail ≡ true)
    × (noted calls nobody 3 maps ≡ true)
    × (noted calls nobody 1 maps ≡ false)
unfolding noted View.note nobody bus_eq text_eq
noted-calls = (refl, refl, refl)

-- The mail program in a container, which then takes the maps in.
abbrev placed : Resources × Containers
placed = map_container mail_text (mail ∷ []) after_calls (enable new_containers)

new_containers-IsPlaced : IsPlaced (enable new_containers)
unfolding enable new_containers
new_containers-IsPlaced e n = refl

map_container-IsPlaced_example :
    let after = map_container mail_text (mail ∷ maps ∷ []) after_calls (enable new_containers) in
    IsPlaced after.1
    × All (IsIn mail_text after.0 after.1) (mail ∷ maps ∷ [])
    × ((d : ℕ)
        → (after.1.place d ≡ (enable new_containers).place d)
          ⊎ (is_at mail_text (after.1.place d) ≡ true))
map_container-IsPlaced_example =
    map_container-IsPlaced mail_text (mail ∷ maps ∷ []) after_calls (enable new_containers)
      after_calls-IsWellFormed new_containers-IsPlaced

-- Entity 0 is held by a container.
abbrev holding : Containers
holding = record {
  enabled = true;
  names = mail_text ∷ [];
  held = λ n. 0 ∷ [];
  place = λ e. Option.none;
}

container-leads_example :
    NoMore
      (after_calls.acts 2).focused
      (after_calls.acts 2).priority
      (container_focused after_calls holding mail_text)
      (container_priority after_calls holding mail_text)
container-leads_example =
    container-leads after_calls holding mail_text 0 2 after_calls-IsWellFormed refl refl
      members_of_mail.1
