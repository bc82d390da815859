-- ===== src/Base/Run.antt =====
-- Runs on a state that can end with an error, which keeps the state that it finds, as a longjmp does.
use mathlib.Core.Path.{◌≡◌, refl}
use mathlib.Core.Bool.{Bool, true, false}
use gwsh.Base.Tests.{if◌then◌else◌}

pub data Outcome (E : Type 0) (S : Type 0) (A : Type 0) : Type 0 where
  ok : A → S → Outcome E S A
  err : E → S → Outcome E S A

abbrev pub Run : Type 0 → Type 0 → Type 0 → Type 0
Run E S A = S → Outcome E S A

infixl 5 ◌>>=◌
abbrev pub ◌>>=◌ : {E S A B : Type 0} → Run E S A → (A → Run E S B) → Run E S B
◌>>=◌ m k s = elim (m s) [ ok a s' ↦ k a s' | err e s' ↦ err e s' ]

abbrev pub ret : {E S A : Type 0} → A → Run E S A
ret a s = ok a s

abbrev pub fail : {E S A : Type 0} → E → Run E S A
fail e s = err e s

abbrev pub gets : {E S A : Type 0} → (S → A) → Run E S A
gets f s = ok (f s) s

abbrev pub modify : {E S : Type 0} → (S → S) → Run E S Unit
modify f s = ok tt (f s)

-- The state that a run leaves, whichever way it ends.
abbrev pub state_of : {E S A : Type 0} → Outcome E S A → S
state_of (ok a s) = s
state_of (err e s) = s

-- `P` of the value and the state of a run that ends well, `Q` of the error and the state of one that
-- does not.
abbrev pub Ends {κ} :
    {E S A : Type 0} → (A → S → Type κ) → (E → S → Type κ) → Outcome E S A → Type κ
Ends P Q (ok a s) = P a s
Ends P Q (err e s) = Q e s

pub Ends-bind {κ} :
    {E S A B : Type 0} (P : A → S → Type κ) (P' : B → S → Type κ) (Q : E → S → Type κ)
    (m : Run E S A) (k : A → Run E S B) (s : S)
    → Ends P Q (m s)
    → ((a : A) (s' : S) → P a s' → Ends P' Q (k a s'))
    → Ends P' Q ((m >>= k) s)
Ends-bind {E} {S} {A} {B} P P' Q m k s h next = go (m s) h
  where
    go :
        (o : Outcome E S A)
        → Ends P Q o
        → Ends P' Q (elim o [ ok a s' ↦ k a s' | err e s' ↦ err e s' ])
    go (ok a s') h = next a s' h
    go (err e s') h = h

pub Ends-map {κ} :
    {E S A : Type 0} (P P' : A → S → Type κ) (Q Q' : E → S → Type κ) (o : Outcome E S A)
    → ((a : A) (s : S) → P a s → P' a s)
    → ((e : E) (s : S) → Q e s → Q' e s)
    → Ends P Q o
    → Ends P' Q' o
Ends-map P P' Q Q' (ok a s) f g h = f a s h
Ends-map P P' Q Q' (err e s) f g h = g e s h

pub Ends-if {κ} :
    {E S A : Type 0} (P : A → S → Type κ) (Q : E → S → Type κ) (b : Bool) (m m' : Run E S A) (s : S)
    → (b ≡ true → Ends P Q (m s))
    → (b ≡ false → Ends P Q (m' s))
    → Ends P Q ((if b then m else m') s)
Ends-if P Q true m m' s h h' = h refl
Ends-if P Q false m m' s h h' = h' refl
