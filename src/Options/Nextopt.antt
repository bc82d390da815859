-- ===== src/Options/Nextopt.antt =====
-- src/options.c: nextopt, nextarg and endargs, by which the builtins read their arguments.
pub mod Progress
use gwsh.Base.{
  ℕ, zero, suc, ◌+◌, ◌≤◌, ◌<◌, ◌≡◌, refl, Bool, true, false, not, ◌&&◌, ◌||◌, Option, none, some,
  List, [], ◌∷◌, Bytes, ◌==◌, if◌then◌else◌, length, arith,
}

-- argptr, optptr and optionarg. optptr is `none` for NULL.
pub record Reader : Type 0 where
  pub argptr : List Bytes
  pub optptr : Option Bytes
  pub optionarg : Option Bytes

-- The loop over the option string: whether the letter wants an argument.
unfoldable pub wants_arg : ℕ → Bytes → Option Bool
wants_arg c [] = none
wants_arg c (o ∷ []) = if o == c then some false else none
wants_arg c (o ∷ k ∷ rest) =
    let found : Option Bool = some (k == b':') in
    let next = wants_arg c (k ∷ rest) in
    let past = wants_arg c rest in if o == c then found else if k == b':' then past else next

-- The letter that was read, the end of the options, or an error.
pub data Opt : Type 0 where
  option : ℕ → Reader → Opt
  at_end : Reader → Opt
  illegal_option : ℕ → Opt
  no_arg : ℕ → Opt

abbrev is_colon : Bytes → Bool
is_colon [] = false
is_colon (c ∷ s) = c == b':'

-- the text of the letter behind `c`, and where the arguments go on
abbrev pub with_arg : ℕ → Bytes → List Bytes → Opt
with_arg c (d ∷ p) args =
    option c (record { argptr = args; optptr = none; optionarg = some (d ∷ p) })
with_arg c [] [] = no_arg c
with_arg c [] (a ∷ args) = option c (record { argptr = args; optptr = none; optionarg = some a })

abbrev found_letter : ℕ → Bytes → Reader → Option Bool → Opt
found_letter c p r none = illegal_option c
found_letter c p r (some true) = with_arg c p r.argptr
found_letter c p r (some false) = option c (record r { optptr = some p })

-- c = *p++, and what follows
abbrev pub read_letter : Bytes → ℕ → Bytes → Reader → Opt
read_letter optstring c p r = found_letter c p r (wants_arg c optstring)

-- A new argument is taken where it has the form of options.
abbrev pub new_word : Bytes → Reader → List Bytes → Opt
new_word optstring r [] = at_end r
new_word optstring r ([] ∷ args) = at_end r
new_word optstring r ((m ∷ []) ∷ args) = at_end r
new_word optstring r ((m ∷ c ∷ []) ∷ args) =
    if not (m == b'-')
    then at_end r
    else if c == b'-'
    then at_end (record r { argptr = args })
    else read_letter optstring c [] (record r { argptr = args })
new_word optstring r ((m ∷ c ∷ d ∷ p) ∷ args) =
    if not (m == b'-')
    then at_end r
    else read_letter optstring c (d ∷ p) (record r { argptr = args })

abbrev pub next_in : Bytes → Reader → Option Bytes → Opt
next_in optstring r none = new_word optstring r r.argptr
next_in optstring r (some []) = new_word optstring r r.argptr
next_in optstring r (some (c ∷ p)) = read_letter optstring c p r

unfoldable pub nextopt : Bytes → Reader → Opt
unfolding wants_arg
nextopt optstring r = next_in optstring r r.optptr

-- `none` is the error "missing argument"; the argument is `none` where there is none.
unfoldable pub nextarg : Bool → Reader → Option (Option Bytes × Reader)
nextarg req r = elim r.argptr [
  | [] ↦ if req then none else some (none, r)
  | a ∷ args ↦ some (some a, record r { argptr = args })
]

-- `none` is the error "too many arguments".
unfoldable pub endargs : Reader → Option Reader
endargs r = elim r.argptr [ [] ↦ some r | a ∷ args ↦ none ]
