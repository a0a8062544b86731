-- ===== src/Manager/Family/Rights.antt =====
-- Who may complete and who may release an Activity: Activity::Complete and Activity::Release.
use activitymanager.Prelude.{ℕ, ◌≡◌, true, false, arith, some, is_empty}
use activitymanager.Types.{BusId, bus_ne}
use activitymanager.World.{
  World, Error, raised, done, gets, raise, pure, ◌>>=◌, modify, change, set_act,
}
use activitymanager.Manager.Family.{owned_by, complete, release}
use activitymanager.Prelude.{List, ◌∷◌}
use activitymanager.Activity.Events.{notify}
use activitymanager.Manager.Family.{do_adopt}

-- A parent that has released an Activity that no one waits to adopt, and is not its creator, can
-- no longer complete it without force: the release returns, and then the call is denied and
-- changes nothing.
pub release-complete :
    (caller : BusId) (p i : ℕ) (w : World)
    → (w.acts i).released ≡ false
    → (w.acts i).parent ≡ some p
    → owned_by caller (w.acts i) ≡ true
    → is_empty (w.acts i).adopters ≡ true
    → bus_ne caller (w.acts i).creator ≡ true
    → let (r, v) = release caller i w in
      (r ≡ done tt) × (complete caller false i v ≡ (raised Error.access_denied, v))
unfolding release ◌>>=◌ gets raise modify pure change set_act complete
release-complete caller p i w kept parent own alone other = ground arith

-- Release by the owner of an Activity that others wait to adopt: the call returns, the first of them is the
-- parent, the others still wait, and the Activity is neither released nor ending.
pub release-do_adopt :
    (caller : BusId) (p q i : ℕ) (rest : List ℕ) (w : World)
    → (w.acts i).released ≡ false
    → (w.acts i).parent ≡ some p
    → owned_by caller (w.acts i) ≡ true
    → (w.acts i).adopters ≡ q ∷ rest
    → let (r, v) = release caller i w in
      (r ≡ done tt)
      × ((v.acts i).parent ≡ some q)
      × ((v.acts i).adopters ≡ rest)
      × ((v.acts i).released ≡ false)
      × ((v.acts i).ending ≡ false)
unfolding release do_adopt ◌>>=◌ gets modify pure change set_act notify
release-do_adopt caller p q i rest w kept parent own waiting = ground arith
