-- ===== src/Arith/Parse/Ends.antt =====
-- How a run of the parser ends: the proof rules for its monad.
use gwsh.Base.{ℕ, ◌≡◌, refl, Bool, true, false, if◌then◌else◌}
use gwsh.Arith.Token.{tok_var}
use gwsh.Arith.Ops.{Error, fault, out_of_fuel}
use gwsh.Arith.Parse.{Parser, Yystype, val, name, Outcome, ok, err, M, ◌>>=◌}

-- `P` of the value and the state of a run that ends well, `Q` of the error and the variables of one
-- that does not.
abbrev pub Ends {κ} :
    {S A : Type 0} → (A → Parser S → Type κ) → (Error → S → Type κ) → Outcome S A → Type κ
Ends P Q (ok a st) = P a st
Ends P Q (err e s) = Q e s

pub Ends-bind {κ} :
    {S A B : Type 0} (P : A → Parser S → Type κ) (P' : B → Parser S → Type κ)
    (Q : Error → S → Type κ) (m : M S A) (k : A → M S B) (st : Parser S)
    → Ends P Q (m st)
    → ((a : A) (st' : Parser S) → P a st' → Ends P' Q (k a st'))
    → Ends P' Q ((m >>= k) st)
Ends-bind {S} {A} {B} P P' Q m k st h next = go (m st) h
  where
    go :
        (o : Outcome S A)
        → Ends P Q o
        → Ends P' Q (elim o [ ok a st' ↦ k a st' | err e s ↦ err e s ])
    go (ok a st') h = next a st' h
    go (err e s) h = h

pub Ends-map {κ} :
    {S A : Type 0} (P P' : A → Parser S → Type κ) (Q : Error → S → Type κ) (o : Outcome S A)
    → ((a : A) (st : Parser S) → P a st → P' a st)
    → Ends P Q o
    → Ends P' Q o
Ends-map P P' Q (ok a st) f h = f a st h
Ends-map P P' Q (err e s) f h = h

-- The value goes with the token: a name with ARITH_VAR.
abbrev pub IsName : Yystype → Type 0
IsName (val v) = ⊥
IsName (name w) = Unit

abbrev pub Goes : ℕ → Yystype → Type 0
Goes t v = t ≡ tok_var → IsName v

-- An error that the program reports.
abbrev pub IsReported : Error → Type 0
IsReported fault = ⊥
IsReported out_of_fuel = ⊥
IsReported _ = Unit

pub Ends-if {κ} :
    {S A : Type 0} (P : A → Parser S → Type κ) (Q : Error → S → Type κ) (b : Bool) (m m' : M S A)
    (st : Parser S)
    → (b ≡ true → Ends P Q (m st))
    → (b ≡ false → Ends P Q (m' st))
    → Ends P Q ((if b then m else m') st)
Ends-if P Q true m m' st h h' = h refl
Ends-if P Q false m m' st h h' = h' refl
