-- ===== src/Var/Number.antt =====
-- src/var.c: variables as integers, and as the variables of arithmetic.
use gwsh.Base.{
  length, ℕ, ◌≡◌, ◌∙◌, sym, refl, ap, true, false, Option, some, [], ◌∷◌, Bytes, head_byte, ◌==◌,
  if◌then◌else◌, arith, subst, ==_iff, ◌≢◌, Bool-cases, inl, inr,
}
use gwsh.Base.Run.{Outcome, ok, err, Ends, Ends-bind, Ends-map}
use gwsh.MyString.{Strtoimax, atomax, skip_spaces}
use gwsh.Syntax.{is_name-letters}
use gwsh.Arith.Ops.{VariableError, not_a_number, parameter_not_set, read_only, bad_variable_name}
use gwsh.Arith.Parse.{Answer, answer, refused, Variables}
use gwsh.Var.Table.{Flags, no_flags, before_eq}
use gwsh.Var.Set.{
  Vars, Error, is_read_only, parameter_unset, bad_number, is_good_name, value_text, value_flags,
  lookupvar, lookupvarint, setvareq, setvar, setvarint,
}
use gwsh.Var.Lookup.{IsValid, setvareq_lem}
use gwsh.Var.Restore.{varequal-before_eq}

-- The errors of the calls that arithmetic makes. The others do not come from them.
abbrev pub variable_error : Error → VariableError
variable_error (is_read_only n) = read_only
variable_error (parameter_unset n) = parameter_not_set
variable_error (bad_number s) = not_a_number
variable_error _ = bad_variable_name

abbrev pub answer_of : Outcome Error Vars ℕ → Answer Vars
answer_of (ok v t) = answer v t
answer_of (err e t) = refused (variable_error e) t

-- The shell's variables, for $((...)). `fmtstr` is the text of "%" PRIdMAX.
abbrev pub shell_variables : Strtoimax → (ℕ → Bytes) → Variables Vars
shell_variables strtoimax fmtstr = record {
  lookupvarint = λ name t. answer_of (lookupvarint strtoimax name t);
  setvarint = λ name val t. answer_of (setvarint fmtstr name val no_flags t);
}

not_name : (c : ℕ) (s : Bytes) → c ≡ b'=' → is_good_name (c ∷ s) ≢ true
not_name c s e h = ground (arith, is_name-letters c)

is_good_name-head : (name : Bytes) → is_good_name name ≡ true → (head_byte name == b'=') ≡ false
is_good_name-head [] h = refl
is_good_name-head (c ∷ s) h = elim (Bool-cases (c == b'=')) [
  | inl e ↦ absurd (not_name c s ((==_iff c b'=').0 e) h)
  | inr e ↦ e
]

setvar-good :
    (name : Bytes) (val : Option Bytes) (flags : Flags) (t : Vars)
    → is_good_name name ≡ true
    → setvar name val flags t ≡ setvareq (before_eq name) (value_text val) (value_flags val flags) t
unfolding setvar
setvar-good [] val flags t h = cc
setvar-good (c ∷ s) val flags t h = rw h refl

-- What setvar leaves for its own name.
setvar-sets :
    (name val : Bytes) (t : Vars)
    → IsValid t
    → is_good_name name ≡ true
    → Ends
        (λ _ t'. IsValid t' × (lookupvar name t' ≡ some val))
        (λ e t'. t' ≡ t)
        (setvar name (some val) no_flags t)
setvar-sets name val t valid good =
    subst (Ends (λ _ t'. IsValid t' × (lookupvar name t' ≡ some val)) (λ e t'. t' ≡ t))
      (sym (setvar-good name (some val) no_flags t good))
      (Ends-map _ (λ _ t'. IsValid t' × (lookupvar name t' ≡ some val)) _ (λ e t'. t' ≡ t)
        (setvareq (before_eq name) val no_flags t)
        (λ _ t' h. (
          h.1,
          h.2 name
              ∙ ap (λ b. if b then some val else lookupvar name t)
                  (varequal-before_eq name (is_good_name-head name good)),
        ))
        (λ e t' h. h.2) (setvareq_lem (before_eq name) val no_flags t valid))

-- atomax on a text of which strtoimax takes all.
atomax-read :
    (strtoimax : Strtoimax) (s : Bytes) (val : ℕ)
    → strtoimax 0 s ≡ record { value = val; rest = []; erange = false }
    → atomax strtoimax s 0 ≡ some val
unfolding atomax skip_spaces
atomax-read strtoimax s val reads = elim (Bool-cases (length {A = ℕ} [] == length s)) [
  | inl e ↦ rw (reads, e) refl
  | inr e ↦ rw (reads, e) refl
]

-- An integer that is assigned to a variable with a good name is what is read from it, where the two
-- functions of the C library agree on it: strtoimax with base 0 takes the whole text that is printed of
-- the integer, without an error, and returns the integer. An assignment that is refused changes
-- nothing.
pub lookupvarint-setvarint :
    (strtoimax : Strtoimax) (fmtstr : ℕ → Bytes) (name : Bytes) (val : ℕ) (t : Vars)
    → IsValid t
    → is_good_name name ≡ true
    → strtoimax 0 (fmtstr val) ≡ record { value = val; rest = []; erange = false }
    → Ends
        (λ r t'. (r ≡ val) × IsValid t' × (lookupvarint strtoimax name t' ≡ ok val t'))
        (λ e t'. t' ≡ t)
        (setvarint fmtstr name val no_flags t)
unfolding setvarint lookupvarint lookupvar
lookupvarint-setvarint strtoimax fmtstr name val t valid good reads =
    Ends-bind (λ _ t'. IsValid t' × (lookupvar name t' ≡ some (fmtstr val)))
      (λ r t'. (r ≡ val) × IsValid t' × (lookupvarint strtoimax name t' ≡ ok val t'))
      (λ e t'. t' ≡ t) (setvar name (some (fmtstr val)) no_flags) _ t
      (setvar-sets name (fmtstr val) t valid good)
      (λ _ t' h. (refl, h.0, rw (h.1, atomax-read strtoimax (fmtstr val) val reads) refl))
