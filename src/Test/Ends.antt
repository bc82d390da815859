-- ===== src/Test/Ends.antt =====
-- How a run of the parser of tests ends: the proof rules for its monad.
use gwsh.Base.{
  ℕ, zero, suc, ◌<◌, ◌≡◌, refl, Bool, true, false, Option, none, some, [], ◌∷◌, Bytes,
  if◌then◌else◌, length, arith,
}
use gwsh.Test.Monad.{Argv, Cursor, Error, out_of_fuel, Outcome, ok, err, T, ◌>>=◌, slot}

-- An error of the program.
abbrev pub IsReal : Error → Type 0
IsReal out_of_fuel = ⊥
IsReal _ = Unit

-- `P` of the value and the cursor of a run that ends well; another run ends with an error of the program.
abbrev pub Ends : {A : Type 0} → (A → Cursor → Type 0) → Outcome A → Type 0
Ends P (ok a c) = P a c
Ends P (err e) = IsReal e

pub Ends-bind :
    {A B : Type 0} (P : A → Cursor → Type 0) (Q : B → Cursor → Type 0) (m : T A) (k : A → T B)
    (c : Cursor)
    → Ends P (m c)
    → ((a : A) (c' : Cursor) → P a c' → Ends Q (k a c'))
    → Ends Q ((m >>= k) c)
Ends-bind {A} {B} P Q m k c h next = go (m c) h
  where
    go : (o : Outcome A) → Ends P o → Ends Q (elim o [ ok a c' ↦ k a c' | err e ↦ err e ])
    go (ok a c') h = next a c' h
    go (err e) h = h

pub Ends-if :
    {A : Type 0} (P : A → Cursor → Type 0) (b : Bool) (m m' : T A) (c : Cursor)
    → Ends P (m c)
    → Ends P (m' c)
    → Ends P ((if b then m else m') c)
Ends-if P true m m' c h h' = h
Ends-if P false m m' c h h' = h'

pub Ends-map :
    {A : Type 0} (P Q : A → Cursor → Type 0) (o : Outcome A)
    → ((a : A) (c : Cursor) → P a c → Q a c)
    → Ends P o
    → Ends Q o
Ends-map P Q (ok a c) f h = f a c h
Ends-map P Q (err e) f h = h

pub Ends-option :
    {A : Type 0} (P : A → Cursor → Type 0) (w : Option Bytes) (m : T A) (k : Bytes → T A)
    (c : Cursor)
    → Ends P (m c)
    → ((s : Bytes) → Ends P (k s c))
    → Ends P ((elim w as (λ _. T A) [ none ↦ m | some s ↦ k s ]) c)
Ends-option P none m k c h next = h
Ends-option P (some s) m k c h next = next s

-- A slot that was read lies inside the vector.
abbrev pub Inside : {A : Type 0} → Argv → ℕ → Cursor → A → Cursor → Type 0
Inside argv i c a c' = (c'.t_wp ≡ c.t_wp) × (i < length argv)

pub slot-Ends : (argv : Argv) (i : ℕ) (c : Cursor) → Ends (Inside argv i c) (slot argv i c)
slot-Ends [] i c = tt
slot-Ends (w ∷ argv) zero c = (refl, omega arith)
slot-Ends (w ∷ argv) (suc i) c =
    Ends-map (Inside argv i c) (Inside (w ∷ argv) (suc i) c) (slot argv i c)
      (λ a c' h. (h.0, omega (arith, h.1))) (slot-Ends argv i c)
