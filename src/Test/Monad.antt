-- ===== src/Test/Monad.antt =====
-- src/bltin/test.c: the argument vector, the static variables, and how a test can end.
use gwsh.Base.{ℕ, zero, suc, ◌+◌, ◌≡◌, Option, none, some, List, [], ◌∷◌, Bytes}
use gwsh.Test.Ops.{Op}

-- The slots of argv from the first argument on: words, and null pointers where the vector ends.
abbrev pub Argv : Type 0
Argv = List (Option Bytes)

-- t_wp as an index into the vector, and t_wp_op.
pub record Cursor : Type 0 where
  pub t_wp : ℕ
  pub t_wp_op : Option Op

-- The messages of syntax(), with the operator that they name. `out_of_bounds` is a read behind the
-- last slot, `out_of_fuel` belongs to the model only.
pub data Error : Type 0 where
  missing_bracket closing_paren_expected illegal_number : Error
  unexpected_operator : Bytes → Error
  argument_expected : Bytes → Error
  out_of_bounds out_of_fuel : Error

pub data Outcome (A : Type 0) : Type 0 where
  ok : A → Cursor → Outcome A
  err : Error → Outcome A

abbrev pub T : Type 0 → Type 0
T A = Cursor → Outcome A

infixl 5 ◌>>=◌
abbrev pub ◌>>=◌ : {A B : Type 0} → T A → (A → T B) → T B
◌>>=◌ m k c = elim (m c) [ ok a c' ↦ k a c' | err e ↦ err e ]

abbrev pub ret : {A : Type 0} → A → T A
ret a c = ok a c

abbrev pub fail : {A : Type 0} → Error → T A
fail e c = err e

abbrev pub get_wp : T ℕ
get_wp c = ok c.t_wp c

abbrev pub get_op : T (Option Op)
get_op c = ok c.t_wp_op c

-- t_wp_op = op, then the value
abbrev pub set_op : {A : Type 0} → Option Op → A → T A
set_op op a c = ok a (record c { t_wp_op = op })

-- t_wp += n, which is the value too
abbrev pub advance : ℕ → T ℕ
advance n c = ok (c.t_wp + n) (record c { t_wp = c.t_wp + n })

abbrev pub slot_at : Argv → ℕ → Option (Option Bytes)
slot_at [] i = none
slot_at (x ∷ argv) zero = some x
slot_at (x ∷ argv) (suc i) = slot_at argv i

abbrev slot_read : Option (Option Bytes) → T (Option Bytes)
slot_read none c = err out_of_bounds
slot_read (some w) c = ok w c

-- argv[i]
abbrev pub slot : Argv → ℕ → T (Option Bytes)
slot argv i = slot_read (slot_at argv i)

-- A sequence whose first part is known goes on with the rest.
pub >>=-ok :
    {A B : Type 0} (m : T A) (k : A → T B) (c c' : Cursor) (a : A)
    → m c ≡ ok a c'
    → (m >>= k) c ≡ k a c'
>>=-ok {A} {B} m k c c' a e = go (m c) e
  where
    go : (o : Outcome A) → o ≡ ok a c' → elim o [ ok b d ↦ k b d | err x ↦ err x ] ≡ k a c'
    go (ok b d) e' = cc e'
    go (err x) e' = cc

pub >>=-err :
    {A B : Type 0} (m : T A) (k : A → T B) (c : Cursor) (x : Error)
    → m c ≡ err x
    → (m >>= k) c ≡ err x
>>=-err {A} {B} m k c x e = go (m c) e
  where
    go : (o : Outcome A) → o ≡ err x → elim o [ ok b d ↦ k b d | err y ↦ err y ] ≡ err x
    go (ok b d) e' = cc
    go (err y) e' = cc e'
