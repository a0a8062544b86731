-- ===== src/Requirements/Registering.antt =====
-- Where requirements go after managers are added, and that none is ever removed.
use activitymanager.Prelude.{
  ℕ, ◌≡◌, refl, ap, ◌∙◌, inl, inr, Bool, true, false, Option, none, some, List, [], ◌∷◌, ◌||◌, ◌&&◌,
  Option-cases, ◌==◌, if◌then◌else◌, contains, arith, Bool-cases, ==_self,
}
use activitymanager.Types.{Text, text_eq}
use activitymanager.Types.BusOrder.{text_eq-eq}
use activitymanager.Requirements.{
  Master, returns, throws, undefined, register_requirement, unregister_requirement,
  register_requirements, unregister_requirements, instantiated_by, add_manager, remove_manager,
}

-- Whether a name is offered.
abbrev pub is_offered : Text → List Text → Bool
is_offered n [] = false
is_offered n (k ∷ ks) = text_eq n k || is_offered n ks

register_requirements-instantiated_by :
    (ns : List Text) (m : ℕ) (r : Master) (n : Text)
    → instantiated_by n (register_requirements ns m r)
      ≡ (if is_offered n ns then some m else instantiated_by n r)
unfolding register_requirements register_requirement instantiated_by
register_requirements-instantiated_by [] m r n = refl
register_requirements-instantiated_by (k ∷ ks) m r n =
    register_requirements-instantiated_by ks m (register_requirement k m r) n ∙ ground arith

register_requirements-managers :
    (ns : List Text) (m : ℕ) (r : Master) → (register_requirements ns m r).managers ≡ r.managers
unfolding register_requirements register_requirement
register_requirements-managers [] m r = refl
register_requirements-managers (k ∷ ks) m r =
    register_requirements-managers ks m (register_requirement k m r)

unmoved :
    (m : ℕ) (r : Master) (n : Text)
    → instantiated_by n (record r { managers = m ∷ r.managers }) ≡ instantiated_by n r
unfolding instantiated_by
unmoved m r n = refl

-- The set with a manager more, and its requirements registered.
abbrev added : (ℕ → List Text) → ℕ → Master → Master
added offers m r = register_requirements (offers m) m (record r { managers = m ∷ r.managers })

contains-added :
    (offers : ℕ → List Text) (m : ℕ) (r : Master) → contains m (added offers m r).managers ≡ true
contains-added offers m r =
    ap (contains m)
      (register_requirements-managers (offers m) m (record r { managers = m ∷ r.managers }))
    ∙ ap (λ b. b || contains m r.managers) (==_self m)

-- A manager that is new to the set is added: then requirements of the names it offers go to it, those of other names
-- go where they went, and adding it again is refused and changes nothing.
pub add_manager-instantiated_by :
    (offers : ℕ → List Text) (m : ℕ) (r : Master) (n : Text)
    → contains m r.managers ≡ false
    → (after : Master) × (add_manager offers m r ≡ returns after)
      × (instantiated_by n after
          ≡ (if is_offered n (offers m) then some m else instantiated_by n r))
      × (add_manager offers m after ≡ throws after)
unfolding add_manager
add_manager-instantiated_by offers m r n h = (
  added offers m r,
  rw h refl,
  register_requirements-instantiated_by (offers m) m (record r { managers = m ∷ r.managers }) n
      ∙ ap (λ o. if is_offered n (offers m) then some m else o) (unmoved m r n),
  rw (contains-added offers m r) refl,
)

-- A manager that was added cannot be removed: RemoveManager throws and changes nothing, so that its requirements stay
-- registered. Of one that was never in the set it erases what is not there.
pub add_manager-remove_manager :
    (offers : ℕ → List Text) (m : ℕ) (r : Master)
    → contains m r.managers ≡ false
    → (remove_manager offers m r ≡ undefined)
      × ((after : Master) × (add_manager offers m r ≡ returns after)
          × (remove_manager offers m after ≡ throws after))
unfolding add_manager remove_manager
add_manager-remove_manager offers m r h =
    (rw h refl, (added offers m r, rw h refl, rw (contains-added offers m r) refl))

-- Whether a requirement goes to a manager.
abbrev goes_to : ℕ → Option ℕ → Bool
goes_to m none = false
goes_to m (some k) = k == m

abbrev dropped : Bool → ℕ → Option ℕ → Option ℕ
dropped offered m o = if offered && goes_to m o then none else o

unregister_requirement-instantiated_by :
    (k : Text) (m : ℕ) (r : Master) (n : Text)
    → instantiated_by n (unregister_requirement k m r)
      ≡ dropped (text_eq n k) m (instantiated_by n r)
unfolding unregister_requirement instantiated_by
unregister_requirement-instantiated_by k m r n = elim (Option-cases (r.requirements k)) [
  | inl e ↦ rw e (elim (Bool-cases (text_eq n k)) [
    | inl g ↦ rw g (rw (text_eq-eq n k g) (rw e refl))
    | inr g ↦ rw g refl
  ])
  | inr (j, e) ↦ rw e (elim (Bool-cases (j == m)) [
    | inl t ↦ rw t (elim (Bool-cases (text_eq n k)) [
      | inl g ↦ rw g (rw (text_eq-eq n k g) (rw e (rw t refl)))
      | inr g ↦ rw g refl
    ])
    | inr t ↦ rw t (elim (Bool-cases (text_eq n k)) [
      | inl g ↦ rw g (rw (text_eq-eq n k g) (rw e (rw t refl)))
      | inr g ↦ rw g refl
    ])
  ])
]

dropped_twice :
    (a b : Bool) (m : ℕ) (o : Option ℕ) → dropped b m (dropped a m o) ≡ dropped (a || b) m o
dropped_twice true b m none = ground arith
dropped_twice true b m (some k) = ground arith
dropped_twice false b m o = refl

unregister_requirements-instantiated_by :
    (ns : List Text) (m : ℕ) (r : Master) (n : Text)
    → instantiated_by n (unregister_requirements ns m r)
      ≡ dropped (is_offered n ns) m (instantiated_by n r)
unfolding unregister_requirements
unregister_requirements-instantiated_by [] m r n = refl
unregister_requirements-instantiated_by (k ∷ ks) m r n =
    unregister_requirements-instantiated_by ks m (unregister_requirement k m r) n
    ∙ (ap (dropped (is_offered n ks) m) (unregister_requirement-instantiated_by k m r n)
        ∙ dropped_twice (text_eq n k) (is_offered n ks) m (instantiated_by n r))

-- After a manager has registered its names and unregistered them, no name of it has a manager, and every other name
-- has the one that it had.
pub unregister-register :
    (ns : List Text) (m : ℕ) (r : Master) (n : Text)
    → instantiated_by n (unregister_requirements ns m (register_requirements ns m r))
      ≡ (if is_offered n ns then none else instantiated_by n r)
unregister-register ns m r n =
    unregister_requirements-instantiated_by ns m (register_requirements ns m r) n
    ∙ (ap (dropped (is_offered n ns) m) (register_requirements-instantiated_by ns m r n)
        ∙ elim (Bool-cases (is_offered n ns)) [
          | inl h ↦ rw h (rw (==_self m) refl)
          | inr h ↦ rw h refl
        ])
