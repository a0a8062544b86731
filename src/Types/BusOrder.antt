-- ===== src/Types/BusOrder.antt =====
-- BusId's comparisons are an equality and a strict total order, as the sets and maps keyed by them
-- need, and GetString tells identifiers apart.
use activitymanager.Prelude.{◌≡◌, refl, ◌⊎◌, inl, inr, ◌↔◌, true, false, [], ◌∷◌, arith, ◌≢◌, not}
use activitymanager.Types.{
  Text, BusId, BusIdType, bus_null, text_eq, text_lt, type_code, bus_eq, bus_ne, bus_lt, get_string,
}

pub text_eq-eq : (a b : Text) → text_eq a b ≡ true → a ≡ b
unfolding text_eq
text_eq-eq [] [] h = refl
text_eq-eq [] (y ∷ ys) h = cc
text_eq-eq (x ∷ xs) [] h = cc
text_eq-eq (x ∷ xs) (y ∷ ys) h = ground (arith, text_eq-eq xs ys)

pub text_eq_refl : (a : Text) → text_eq a a ≡ true
unfolding text_eq
text_eq_refl [] = refl
text_eq_refl (x ∷ xs) = ground (arith, text_eq_refl xs)

text_lt_irrefl : (a : Text) → text_lt a a ≡ false
unfolding text_lt
text_lt_irrefl [] = refl
text_lt_irrefl (x ∷ xs) = ground (arith, text_lt_irrefl xs)

text_lt_trans : (a b c : Text) → text_lt a b ≡ true → text_lt b c ≡ true → text_lt a c ≡ true
unfolding text_lt
text_lt_trans [] [] c p q = cc
text_lt_trans [] (y ∷ ys) [] p q = cc
text_lt_trans [] (y ∷ ys) (z ∷ zs) p q = refl
text_lt_trans (x ∷ xs) [] c p q = cc
text_lt_trans (x ∷ xs) (y ∷ ys) [] p q = cc
text_lt_trans (x ∷ xs) (y ∷ ys) (z ∷ zs) p q = ground (arith, text_lt_trans xs ys zs)

text_lt_total : (a b : Text) → (text_lt a b ≡ true) ⊎ ((a ≡ b) ⊎ (text_lt b a ≡ true))
unfolding text_lt
text_lt_total [] [] = inr (inl refl)
text_lt_total [] (y ∷ ys) = inl refl
text_lt_total (x ∷ xs) [] = inr (inr refl)
text_lt_total (x ∷ xs) (y ∷ ys) = ground (arith, text_lt_total xs ys)

type_code_injective : (s t : BusIdType) → type_code s ≡ type_code t → s ≡ t
type_code_injective s t h = ground arith

-- Two identifiers compare equal exactly when they are equal, and `!=` is the negation of `==`.
pub bus_eq_iff : (a b : BusId) → ((bus_eq a b ≡ true) ↔ (a ≡ b)) × (bus_ne a b ≡ not (bus_eq a b))
unfolding bus_eq bus_ne
bus_eq_iff a b =
    ground (arith, text_eq-eq a.id b.id, text_eq_refl a.id, type_code_injective a.type b.type)

-- Of two identifiers exactly one of three holds: the first is less, they are equal, the second is less.
pub bus_lt_trichotomy :
    (a b : BusId)
    → ((bus_lt a b ≡ true) × (bus_eq a b ≡ false) × (bus_lt b a ≡ false))
      ⊎ (((bus_lt a b ≡ false) × (bus_eq a b ≡ true) × (bus_lt b a ≡ false))
          ⊎ ((bus_lt a b ≡ false) × (bus_eq a b ≡ false) × (bus_lt b a ≡ true)))
unfolding bus_lt bus_eq
bus_lt_trichotomy a b = ground (
  arith,
  text_lt_total a.id b.id,
  text_lt_irrefl a.id,
  text_lt_irrefl b.id,
  text_lt_trans a.id b.id a.id,
  text_lt_trans b.id a.id b.id,
  text_eq-eq a.id b.id,
  text_eq_refl a.id,
  type_code_injective a.type b.type,
)

-- The order is transitive.
pub bus_lt_trans : (a b c : BusId) → bus_lt a b ≡ true → bus_lt b c ≡ true → bus_lt a c ≡ true
unfolding bus_lt
bus_lt_trans a b c p q = ground (arith, p, q, text_lt_trans a.id b.id c.id)

-- Two identifiers of which none is null have the same string only if they are equal.
pub get_string_injective :
    (a b : BusId) → a.type ≢ bus_null → b.type ≢ bus_null → get_string a ≡ get_string b → a ≡ b
unfolding get_string
get_string_injective a b ha hb e = ground arith
