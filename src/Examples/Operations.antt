-- ===== src/Examples/Operations.antt =====
-- Operations on Activities.
use activitymanager.Prelude.{
  ℕ, ◌+◌, ◌≤◌, ◌≡◌, refl, arith, true, false, [], ◌∷◌, none, some, if◌then◌else◌, leb, ◌==◌,
}
use activitymanager.Types.{bus_ne, bus_eq, text_eq}
use activitymanager.Subscription.{new_subscription}
use activitymanager.Activity.{Activity, new_activity, noop, locked}
use activitymanager.World.{World, ◌>>=◌, gets, modify, pure, Error, raised, done}
use activitymanager.Manager.Family.{owned_by, complete, release}
use activitymanager.Manager.Family.Rights.{release-complete}
use activitymanager.Manager.Control.{focus_activity, unfocus_activity, add_focus, choose_victim}
use activitymanager.Manager.Control.Focus.{
  FocusAgrees, focus_activity_alone, focus_operations-FocusAgrees,
}
use activitymanager.Manager.Control.Victim.{choose_victim_lem, count_yielding, first_staying}
use activitymanager.Manager.Registry.{
  get_new_activity, register_activity_id, get_activity, id_taken, free_id,
}
use activitymanager.Manager.Registry.Fresh.{get_new_activity_fresh, register-get_activity}
use activitymanager.Examples.{busy, waiting_activity, mail, maps}

unfocused : FocusAgrees busy
unfolding FocusAgrees busy waiting_activity new_activity
unfocused k = refl

focus_activity_alone_example :
    let (r, v) = focus_activity 2 busy in
    (r ≡ done tt) × (v.focused_activities ≡ 2 ∷ []) × ((k : ℕ) → (v.acts k).focused ≡ (k == 2))
unfolding busy waiting_activity new_activity
focus_activity_alone_example = focus_activity_alone 2 busy unfocused refl

focus_operations-FocusAgrees_example :
    FocusAgrees (focus_activity 1 busy).1
    × FocusAgrees (unfocus_activity 1 busy).1
    × FocusAgrees (add_focus 1 2 busy).1
focus_operations-FocusAgrees_example = focus_operations-FocusAgrees 1 2 busy unfocused

get_new_activity_fresh_example :
    (key : ℕ) × ((get_new_activity 9 busy).0 ≡ done key)
    × (id_taken busy.acts key busy.id_table ≡ false)
    × (busy.next_activity_id ≤ key)
    × ((get_new_activity 9 busy).1.next_activity_id ≡ key + 1)
    × ((get_new_activity 9 busy).1.acts 9 ≡ new_activity key)
get_new_activity_fresh_example = get_new_activity_fresh 9 busy

-- The id that the counter stands at is in use.
get_new_activity_test : (get_new_activity 9 busy).0 ≡ done 3
unfolding busy waiting_activity new_activity get_new_activity free_id ◌>>=◌ gets modify pure
get_new_activity_test = refl

register-get_activity_example :
    let (r, v) = register_activity_id 3 busy in
    (r ≡ done tt)
    × (get_activity 7 v
        ≡ (if (busy.acts 3).id == 7 then (done 3, v) else ((get_activity 7 busy).0, v)))
    × ((j : ℕ)
        → (busy.acts j).id ≡ (busy.acts 3).id
        → register_activity_id j v ≡ (raised Error.id_registered, v))
unfolding busy
register-get_activity_example = register-get_activity 3 7 busy refl

-- The first of the running yields.
abbrev yields_first : ℕ → Activity
yields_first i = record (waiting_activity i) { yielding = i == 1 }

choose_victim_lem_example : choose_victim yields_first 2 0 none (1 ∷ 5 ∷ []) ≡ (
    if leb 2 (count_yielding yields_first (1 ∷ 5 ∷ []))
    then none
    else first_staying yields_first (1 ∷ 5 ∷ []))
choose_victim_lem_example = choose_victim_lem yields_first 2 (1 ∷ 5 ∷ []) (omega arith)

-- Every Activity has been created by one application and is watched over by another.
abbrev owned_activity : ℕ → Activity
owned_activity i = record (waiting_activity i) {
  creator = mail;
  released = false;
  parent = some 8;
  subscriptions = new_subscription 8 maps true ∷ [];
}

abbrev owned : World
owned = record busy { acts = owned_activity }

release-complete_example :
    let (r, v) = release maps 3 owned in
    (r ≡ done tt) × (complete maps false 3 v ≡ (raised Error.access_denied, v))
unfolding waiting_activity new_activity owned_by new_subscription bus_ne bus_eq text_eq
release-complete_example = release-complete maps 8 3 owned refl refl refl refl refl

-- Two others wait to adopt it.
abbrev wanted : World
wanted = record busy { acts = λ i. record (owned_activity i) { adopters = 9 ∷ 7 ∷ [] } }

-- An Activity with a noop power activity that is locked, so that EndActivity is called from within.
abbrev powered_activity : ℕ → Activity
powered_activity i = record (waiting_activity i) {
  running = true;
  power_activity = some (record { kind = noop; current = locked; target = locked });
}
