-- ===== src/Persist/Chain.antt =====
-- Chains of persist commands: Append and Complete come to an end on them.
use activitymanager.Prelude.{
  ℕ, zero, suc, ◌<◌, ◌≡◌, refl, ap, ◌⊎◌, inl, inr, Bool, true, false, none, some, List, [], ◌∷◌,
  ◌++◌, ◌==◌, length, contains, arith, Bool-cases, ==_eq, ==_self,
}
use mathlib.Core.Path.{subst}
use activitymanager.Persist.{
  Next, set_next, appended, append_from, append, Kind, noop, stored, unissued, Happening,
  completion, unhooks, asks_database, complete,
}

-- The commands that follow one, to the end of its chain.
unfoldable pub Follows : Next → ℕ → List ℕ → Type 0
Follows next c [] = next c ≡ none
Follows next c (x ∷ xs) = (next c ≡ some x) × Follows next x xs

-- The last of a chain.
abbrev pub last_of : ℕ → List ℕ → ℕ
last_of c [] = c
last_of c (x ∷ xs) = last_of x xs

not_first : (t c : ℕ) (xs : List ℕ) → contains t (c ∷ xs) ≡ false → (c == t) ≡ false
not_first t c xs k = ground (arith, k)

not_later : (t c : ℕ) (xs : List ℕ) → contains t (c ∷ xs) ≡ false → contains t xs ≡ false
not_later t c xs k = ground (arith, k)

append_from-last :
    (fuel this command : ℕ) (next : Next) (c : ℕ) (xs : List ℕ)
    → length xs < fuel
    → Follows next c xs
    → contains this xs ≡ false
    → append_from fuel this command next c ≡ appended (set_next (last_of c xs) command next)
unfolding append_from Follows
append_from-last zero this command next c xs l h k = absurd (omega (arith, l))
append_from-last (suc fuel) this command next c [] l h k = rw h refl
append_from-last (suc fuel) this command next c (x ∷ xs) l (h, hs) k = rw h (
    rw (not_first this x xs k)
      (append_from-last fuel this command next x xs (omega (arith, l)) hs (not_later this x xs k)))

-- A write at a command that the chain does not pass through leaves the chain.
set_next-Follows :
    (t d : ℕ) (next : Next) (c : ℕ) (xs : List ℕ)
    → Follows next c xs
    → contains t (c ∷ xs) ≡ false
    → Follows (set_next t d next) c xs
unfolding Follows
set_next-Follows t d next c [] h k = rw (not_first t c [] k) h
set_next-Follows t d next c (x ∷ xs) (h, hs) k =
    (rw (not_first t c (x ∷ xs) k) h, set_next-Follows t d next x xs hs (not_later t c (x ∷ xs) k))

-- The end of a chain has no next command, so that no command before it is the same.
last_of-next : (next : Next) (c : ℕ) (xs : List ℕ) → Follows next c xs → next (last_of c xs) ≡ none
unfolding Follows
last_of-next next c [] h = h
last_of-next next c (x ∷ xs) (h, hs) = last_of-next next x xs hs

not_last :
    (next : Next) (c x : ℕ) (xs : List ℕ)
    → next c ≡ some x
    → Follows next x xs
    → (c == last_of x xs) ≡ false
not_last next c x xs h hs = elim (Bool-cases (c == last_of x xs)) [
  | inl e ↦
      absurd (ground (arith, ap next (==_eq c (last_of x xs) e), h, last_of-next next x xs hs))
  | inr e ↦ e
]

extended :
    (next : Next) (c : ℕ) (xs : List ℕ) (d : ℕ) (ys : List ℕ)
    → Follows next c xs
    → Follows next d ys
    → contains (last_of c xs) (d ∷ ys) ≡ false
    → Follows (set_next (last_of c xs) d next) c (xs ++ d ∷ ys)
unfolding Follows
extended next c [] d ys h g k = (rw (==_self c) refl, set_next-Follows c d next d ys g k)
extended next c (x ∷ xs) d ys (h, hs) g k =
    (rw (not_last next c x xs h hs) h, extended next x xs d ys hs g k)

-- For a command with a chain of a known length, which does not come back to it, and another that is not reached
-- from it and does not reach the end of it: Append comes to an end in no more rounds than the chain is long, and
-- then the other command and its chain follow at the end of the first.
pub append-Follows :
    (this command : ℕ) (next : Next) (xs ys : List ℕ)
    → Follows next this xs
    → contains this xs ≡ false
    → Follows next command ys
    → (command == this) ≡ false
    → contains (last_of this xs) (command ∷ ys) ≡ false
    → (after : Next) × (append (suc (length xs)) this command next ≡ appended after)
      × Follows after this (xs ++ command ∷ ys)
unfolding append
append-Follows this command next xs ys h n g k m = (
  set_next (last_of this xs) command next,
  rw k (append_from-last (suc (length xs)) this command next this xs (omega arith) h n),
  extended next this xs command ys h g m,
)

-- On the way from a command whose chain leads to one that has been linked back to it, no chain ends.
no_end :
    (next : Next) (command e : ℕ)
    → (c : ℕ) (ys : List ℕ) → Follows next c ys
    → last_of c ys ≡ e
    → (zs : List ℕ) → Follows (set_next e command next) c zs
    → (ws : List ℕ) × Follows (set_next e command next) command ws × (length ws < length zs)
unfolding Follows
no_end next command e c [] h l [] f = absurd (ground (arith, f, l))
no_end next command e c [] h l (z ∷ zs) (f, fs) =
    let same : z ≡ command = ground (arith, f, l) in
    (zs, subst (λ d. Follows (set_next e command next) d zs) same fs, omega arith)
no_end next command e c (y ∷ ys) (h, hs) l [] f =
    absurd (ground (arith, f, h, l, not_last next c y ys h hs))
no_end next command e c (y ∷ ys) (h, hs) l (z ∷ zs) (f, fs) =
    let same : z ≡ y = ground (arith, f, h, l, not_last next c y ys h hs) in
    let (ws, g, shorter) =
      no_end next command e y ys hs l zs
        (subst (λ d. Follows (set_next e command next) d zs) same fs) in
    (ws, g, omega (arith, shorter))

endless :
    (next : Next) (command e : ℕ) (ys : List ℕ)
    → Follows next command ys
    → last_of command ys ≡ e
    → (bound : ℕ) (zs : List ℕ) → length zs < bound
    → ¬ Follows (set_next e command next) command zs
endless next command e ys h l zero zs lt f = omega (arith, lt)
endless next command e ys h l (suc bound) zs lt f =
    let (ws, g, shorter) = no_end next command e command ys h l zs f in
    endless next command e ys h l bound ws (omega (arith, lt, shorter)) g

-- For a command with a chain of a known length, which does not come back to it, and another whose chain ends at the
-- same command: Append does not refuse to append the other, and then the chain of the other has no end.
pub append_unseen_loop :
    (this command : ℕ) (next : Next) (xs ys : List ℕ)
    → (command == this) ≡ false
    → Follows next this xs
    → contains this xs ≡ false
    → Follows next command ys
    → last_of command ys ≡ last_of this xs
    → (after : Next) × (append (suc (length xs)) this command next ≡ appended after)
      × ((zs : List ℕ) → ¬ Follows after command zs)
unfolding append
append_unseen_loop this command next xs ys k h n g same = (
  set_next (last_of this xs) command next,
  rw k (append_from-last (suc (length xs)) this command next this xs (omega arith) h n),
  λ zs. endless next command (last_of this xs) ys g same (suc (length zs)) zs (omega arith),
)

-- What the commands of a chain do after the first: each noop completes, and each that cannot be issued, with
-- failure, and the first that is stored asks the database, and those after it wait.
abbrev pub as_kind : (ℕ → Bool) → ℕ → List Happening → Kind → List Happening
as_kind throws x more noop = completion throws x true ∷ unhooks x ∷ more
as_kind throws x more stored = asks_database x ∷ []
as_kind throws x more unissued = completion throws x false ∷ unhooks x ∷ more

abbrev pub rest_of : (ℕ → Bool) → (ℕ → Kind) → List ℕ → List Happening
rest_of throws kind [] = []
rest_of throws kind (x ∷ xs) = as_kind throws x (rest_of throws kind xs) (kind x)

kind_cases : (k : Kind) → (k ≡ noop) ⊎ ((k ≡ stored) ⊎ (k ≡ unissued))
kind_cases noop = inl refl
kind_cases stored = inr (inl refl)
kind_cases unissued = inr (inr refl)

module _ (throws : ℕ → Bool) (kind : ℕ → Kind) (writes : Happening → Next → Next)
    (links_stay : (h : Happening) (next : Next) (d x : ℕ)
      → next d ≡ some x
      → writes h next d ≡ some x) where
  writes-Follows :
      (h : Happening) (next : Next) (c : ℕ) (xs : List ℕ)
      → ((g : Happening) (n : Next) → n (last_of c xs) ≡ none → writes g n (last_of c xs) ≡ none)
      → Follows next c xs
      → Follows (writes h next) c xs
  unfolding Follows
  writes-Follows h next c [] end f = end h next f
  writes-Follows h next c (x ∷ xs) end (f, fs) =
      (links_stay h next c x f, writes-Follows h next x xs end fs)

  -- When what completions and unhooking do only adds links where there is none, and not after the last command
  -- of the chain: Complete of a command comes to an end in no more rounds than its chain is long. The command
  -- completes with the result given, also when the completion throws, is unhooked, and then the chain goes on, each
  -- noop completing with success and each command that cannot be issued with failure, to the first that asks the
  -- database.
  pub complete-rest_of :
      (next : Next) (success : Bool) (c : ℕ) (xs : List ℕ) (fuel : ℕ)
      → ((g : Happening) (n : Next) → n (last_of c xs) ≡ none → writes g n (last_of c xs) ≡ none)
      → Follows next c xs
      → length xs < fuel
      → complete throws kind writes fuel next success c
        ≡ some (completion throws c success ∷ unhooks c ∷ rest_of throws kind xs)
  unfolding complete Follows
  complete-rest_of next success c xs zero end h l = absurd (omega (arith, l))
  complete-rest_of next success c [] (suc fuel) end h l =
      rw (end (completion throws c success) next h) refl
  complete-rest_of next success c (x ∷ xs) (suc fuel) end h l =
      let done = completion throws c success in
      let mid = writes done next in
      let after = writes (unhooks c) mid in
      let f = writes-Follows done next c (x ∷ xs) end h in
      let rest = (writes-Follows (unhooks c) mid c (x ∷ xs) end f).1 in
      rw (f.0) (elim (kind_cases (kind x)) [
        | inl e ↦ rw e (rw (complete-rest_of after true x xs fuel end rest (omega (arith, l))) refl)
        | inr (inl e) ↦ rw e refl
        | inr (inr e) ↦
            rw e (rw (complete-rest_of after false x xs fuel end rest (omega (arith, l))) refl)
      ])
