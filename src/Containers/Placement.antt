-- ===== src/Containers/Placement.antt =====
-- An entity is in the container it is mapped to, and in no other.
use activitymanager.Prelude.{
  ℕ, ◌≡◌, refl, sym, ap, ◌∙◌, ◌||◌, ◌&&◌, inl, inr, Bool, true, false, not, ◌==◌, if◌then◌else◌,
  contains, arith, Bool-cases, Option-cases, ==_eq, Option, none, some,
}
use activitymanager.Types.{Text, text_eq}
use activitymanager.Types.BusOrder.{text_eq-eq, text_eq_refl}
use activitymanager.Resources.Order.{contains-remove}
use activitymanager.Containers.{
  Containers, add_entity, remove_entity, map_entity, place_in, set_place,
}

-- Whether a place is the container of a name.
abbrev pub is_at : Text → Option Text → Bool
is_at n none = false
is_at n (some m) = text_eq n m

-- Every container holds exactly the entities that are mapped to it.
abbrev pub IsPlaced : Containers → Type 0
IsPlaced c = (e : ℕ) (n : Text) → contains e (c.held n) ≡ is_at n (c.place e)

add_entity-contains :
    (e : ℕ) (n : Text) (c : Containers) (d : ℕ) (m : Text)
    → contains d ((add_entity e n c).held m) ≡ ((d == e) && text_eq m n) || contains d (c.held m)
unfolding add_entity
add_entity-contains e n c d m = elim (Bool-cases (contains e (c.held n))) [
  | inl h ↦ rw h (elim (Bool-cases (d == e)) [
    | inl de ↦ elim (Bool-cases (text_eq m n)) [
      | inl mn ↦ rw de (
          rw mn (
            ap (λ x. contains x (c.held m)) (==_eq d e de)
            ∙ (ap (λ x. contains e (c.held x)) (text_eq-eq m n mn) ∙ h)))
      | inr mn ↦ rw de (rw mn refl)
    ]
    | inr de ↦ rw de refl
  ])
  | inr h ↦ rw h (elim (Bool-cases (text_eq m n)) [
    | inl mn ↦ rw mn (rw (text_eq-eq m n mn) (ground arith))
    | inr mn ↦ rw mn (ground arith)
  ])
]

remove_entity-contains :
    (e : ℕ) (n : Text) (c : Containers) (d : ℕ) (m : Text)
    → contains d ((remove_entity e n c).held m)
      ≡ not ((d == e) && text_eq m n) && contains d (c.held m)
unfolding remove_entity
remove_entity-contains e n c d m = elim (Bool-cases (contains e (c.held n))) [
  | inr h ↦ rw h (elim (Bool-cases (d == e)) [
    | inl de ↦ elim (Bool-cases (text_eq m n)) [
      | inl mn ↦ rw de (
          rw mn (
            ap (λ x. contains x (c.held m)) (==_eq d e de)
            ∙ (ap (λ x. contains e (c.held x)) (text_eq-eq m n mn) ∙ h)))
      | inr mn ↦ rw de (rw mn refl)
    ]
    | inr de ↦ rw de refl
  ])
  | inl h ↦ rw h (elim (Bool-cases (text_eq m n)) [
    | inl mn ↦ rw mn (rw (text_eq-eq m n mn) (rw (contains-remove e d (c.held n)) (ground arith)))
    | inr mn ↦ rw mn (ground arith)
  ])
]

pub add_entity-place : (e : ℕ) (n : Text) (c : Containers) → (add_entity e n c).place ≡ c.place
unfolding add_entity
add_entity-place e n c = ground arith

pub remove_entity-place :
    (e : ℕ) (n : Text) (c : Containers) → (remove_entity e n c).place ≡ c.place
unfolding remove_entity
remove_entity-place e n c = ground arith

-- Once the containers hold what the places will say, a place can be written.
set_place-IsPlaced :
    (e : ℕ) (n : Text) (c : Containers)
    → ((d : ℕ) (m : Text)
        → contains d (c.held m) ≡ (if d == e then text_eq m n else is_at m (c.place d)))
    → IsPlaced (set_place e n c)
set_place-IsPlaced e n c h d m = elim (Bool-cases (d == e)) [
  | inl de ↦ rw de (h d m ∙ ap (λ b. if b then text_eq m n else is_at m (c.place d)) de)
  | inr de ↦ rw de (h d m ∙ ap (λ b. if b then text_eq m n else is_at m (c.place d)) de)
]

added_to_place :
    (same here : Bool) (old : Bool)
    → (same ≡ true → old ≡ false)
    → ((same && here) || old) ≡ (if same then here else old)
added_to_place true here old h = rw (h refl) (ground arith)
added_to_place false here old h = refl

moved_to_place :
    (same here there : Bool) (old : Bool)
    → (same ≡ true → old ≡ there)
    → ((same && here) || (not (same && there) && old)) ≡ (if same then here else old)
moved_to_place true here there old h = rw (h refl) (ground arith)
moved_to_place false here there old h = refl

place_in-IsPlaced :
    (e : ℕ) (n : Text) (o : Option Text) (c : Containers)
    → IsPlaced c
    → c.place e ≡ o
    → IsPlaced (place_in e n o c)
place_in-IsPlaced e n none c p h = set_place-IsPlaced e n (add_entity e n c) λ d m.
    add_entity-contains e n c d m
    ∙ (ap (λ x. ((d == e) && text_eq m n) || x) (p d m)
        ∙ (added_to_place (d == e) (text_eq m n) (is_at m (c.place d))
              (λ de. ap (λ x. is_at m (c.place x)) (==_eq d e de) ∙ ap (is_at m) h)
            ∙ ap (λ f. if d == e then text_eq m n else is_at m (f d))
                (sym (add_entity-place e n c))))
place_in-IsPlaced e n (some k) c p h = elim (Bool-cases (text_eq k n)) [
  | inl kn ↦ rw kn p
  | inr kn ↦ rw kn (
      set_place-IsPlaced e n (add_entity e n (remove_entity e k c)) λ d m.
        add_entity-contains e n (remove_entity e k c) d m
        ∙ (ap (λ x. ((d == e) && text_eq m n) || x)
              (remove_entity-contains e k c d m
                ∙ ap (λ x. not ((d == e) && text_eq m k) && x) (p d m))
            ∙ (moved_to_place (d == e) (text_eq m n) (text_eq m k) (is_at m (c.place d))
                  (λ de. ap (λ x. is_at m (c.place x)) (==_eq d e de) ∙ ap (is_at m) h)
                ∙ ap (λ f. if d == e then text_eq m n else is_at m (f d))
                    (sym
                      (add_entity-place e n (remove_entity e k c) ∙ remove_entity-place e k c)))))
]

pub map_entity-IsPlaced :
    (e : ℕ) (n : Text) (c : Containers) → IsPlaced c → IsPlaced (map_entity e n c)
unfolding map_entity
map_entity-IsPlaced e n c p = place_in-IsPlaced e n (c.place e) c p refl

-- The entity is at the name afterwards, and no other entity has moved.
pub map_entity-is_at :
    (e : ℕ) (n : Text) (c : Containers) (d : ℕ)
    → is_at n ((map_entity e n c).place d) ≡ (d == e) || is_at n (c.place d)
unfolding map_entity
map_entity-is_at e n c d = elim (Option-cases (c.place e)) [
  | inl h ↦ rw h (
      rw (add_entity-place e n c)
        (elim (Bool-cases (d == e)) [ inl de ↦ rw de (text_eq_refl n) | inr de ↦ rw de refl ]))
  | inr (k, h) ↦ rw h (elim (Bool-cases (text_eq k n)) [
    | inl kn ↦ rw kn (elim (Bool-cases (d == e)) [
      | inl de ↦ rw de (rw (==_eq d e de) (rw h (rw (text_eq-eq k n kn) (text_eq_refl n))))
      | inr de ↦ rw de refl
    ])
    | inr kn ↦ rw kn (
        rw (add_entity-place e n (remove_entity e k c) ∙ remove_entity-place e k c)
          (elim (Bool-cases (d == e)) [ inl de ↦ rw de (text_eq_refl n) | inr de ↦ rw de refl ]))
  ])
]
