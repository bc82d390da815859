-- ===== src/Options/Set.antt =====
-- src/options.c: setoption, minus_o and options, which set and the command line use.
use gwsh.Base.{
  ℕ, zero, suc, ◌+◌, Bool, true, false, ◌&&◌, Option, none, some, List, [], ◌∷◌, Bytes, bytes_eq,
  ◌==◌, leb, if◌then◌else◌,
}
use gwsh.Options.Table.{
  firstsetopt, xflagind, vflagind, vi_flagind, emacs_flagind, optnames, optletters,
}

-- char optlist[NOPTS]
abbrev pub Optlist : Type 0
Optlist = List ℕ

abbrev pub set_at : ℕ → ℕ → Optlist → Optlist
set_at i v [] = []
set_at zero v (x ∷ l) = v ∷ l
set_at (suc i) v (x ∷ l) = x ∷ set_at i v l

-- The first position from `i` on, of those not below `from`, at which the letter stands.
unfoldable pub find_letter : ℕ → ℕ → ℕ → List ℕ → Option ℕ
find_letter from flag i [] = none
find_letter from flag i (c ∷ letters) =
    if leb from i && c == flag then some i else find_letter from flag (i + 1) letters

abbrev name_eq : Bytes → Option Bytes → Bool
name_eq name none = false
name_eq name (some s) = bytes_eq name s

unfoldable pub find_name : ℕ → Bytes → ℕ → List (Option Bytes) → Option ℕ
unfolding bytes_eq
find_name from name i [] = none
find_name from name i (s ∷ names) =
    if leb from i && name_eq name s then some i else find_name from name (i + 1) names

abbrev pub first_option : Bool → ℕ → ℕ
first_option true n = n
first_option false n = firstsetopt

-- ksh: vi and emacs exclude each other
abbrev ksh_hack : ℕ → Bool → Optlist → Optlist
ksh_hack flag false l = l
ksh_hack flag true l =
    if flag == b'V'
    then set_at emacs_flagind 0 l
    else if flag == b'E'
    then set_at vi_flagind 0 l
    else l

abbrev pub of_flag : Bool → ℕ
of_flag true = 1
of_flag false = 0

-- `none` is the error "Illegal option".
abbrev set_letter : ℕ → Bool → Optlist → Option ℕ → Option Optlist
set_letter flag val l none = none
set_letter flag val l (some i) = some (ksh_hack flag val (set_at i (of_flag val) l))

unfoldable pub setoption : Bool → ℕ → Bool → Optlist → Option Optlist
unfolding find_letter
setoption cmdline flag val l =
    set_letter flag val l (find_letter (first_option cmdline 0) flag 0 optletters)

abbrev set_named : Bool → Optlist → Option ℕ → Option Optlist
set_named val l none = none
set_named val l (some i) = some (set_at i (of_flag val) l)

-- minus_o with a name; without one it only prints.
unfoldable pub minus_o : Bool → Option Bytes → Bool → Optlist → Option Optlist
unfolding find_name
minus_o cmdline none val l = some l
minus_o cmdline (some name) val l =
    set_named val l (find_name (first_option cmdline 2) name 0 optnames)

-- The letters of one argument: done, or the text behind an `o`.
pub data Letters : Type 0 where
  all_set : Optlist → Letters
  at_o : Bytes → Optlist → Letters
  illegal : Letters

unfoldable pub letters : Bool → Bool → Bytes → Optlist → Letters
unfolding setoption
letters cmdline val [] l = all_set l
letters cmdline val (c ∷ p) l = elim (c == b'o') [
  | true ↦ at_o p l
  | false ↦ elim (setoption cmdline c val l) [ none ↦ illegal | some l' ↦ letters cmdline val p l' ]
]

-- What options returns, the arguments left at argptr, and the options.
pub data Parsed : Type 0 where
  parsed : Bool → List Bytes → Optlist → Parsed
  illegal_option : Parsed

abbrev more_args : List Bytes → Bool
more_args [] = false
more_args (a ∷ args) = true

abbrev stop_at : List Bytes → Optlist → Parsed
stop_at args l = parsed (more_args args) args l

-- `set -` turns off -x and -v
abbrev lone_minus : Bool → Optlist → Optlist
lone_minus true l = l
lone_minus false l = set_at xflagind 0 (set_at vflagind 0 l)

abbrev go_on : (Optlist → Parsed) → Option Optlist → Parsed
go_on rest none = illegal_option
go_on rest (some l) = rest l

-- the label opto: the name is the text behind the `o`, or the next argument
abbrev opto :
    Bool → Bool → Bytes → List Bytes → Optlist → (Optlist → Parsed) → (Optlist → Parsed) → Parsed
opto cmdline val (c ∷ p) args l rest skip = go_on rest (minus_o cmdline (some (c ∷ p)) val l)
opto cmdline val [] [] l rest skip = go_on (stop_at []) (minus_o cmdline none val l)
opto cmdline val [] (name ∷ args) l rest skip = go_on skip (minus_o cmdline (some name) val l)

abbrev after_letters :
    Bool → Bool → List Bytes → (Optlist → Parsed) → (Optlist → Parsed) → Letters → Parsed
after_letters cmdline val args rest skip illegal = illegal_option
after_letters cmdline val args rest skip (all_set l) = rest l
after_letters cmdline val args rest skip (at_o p l) = opto cmdline val p args l rest skip

abbrev pub is_double : Bytes → Bool
is_double (c ∷ []) = c == b'-'
is_double _ = false

-- The argument behind its `-`: end of options, or letters.
abbrev minus_word :
    Bool → Bytes → List Bytes → Optlist → (Optlist → Parsed) → (Optlist → Parsed) → Parsed
minus_word cmdline [] args l rest skip = stop_at args (lone_minus cmdline l)
minus_word cmdline (c ∷ p) args l rest skip =
    if is_double (c ∷ p)
    then parsed true args l
    else after_letters cmdline true args rest skip (letters cmdline true (c ∷ p) l)

-- One round of the loop. `rest` goes on with the next argument, `skip` with the one after it.
unfoldable pub options_step :
    Bool → Bytes → List Bytes → Optlist → (Optlist → Parsed) → (Optlist → Parsed) → Parsed
unfolding letters minus_o
options_step cmdline [] args l rest skip = stop_at ([] ∷ args) l
options_step cmdline (c ∷ p) args l rest skip =
    if c == b'-'
    then minus_word cmdline p args l rest skip
    else if c == b'+'
    then after_letters cmdline false args rest skip (letters cmdline false p l)
    else stop_at ((c ∷ p) ∷ args) l

unfoldable pub options : Bool → List Bytes → Optlist → Parsed
unfolding options_step
options cmdline [] l = stop_at [] l
options cmdline (a ∷ []) l = options_step cmdline a [] l (stop_at []) (stop_at [])
options cmdline (a ∷ b ∷ args) l =
    options_step cmdline a (b ∷ args) l (options cmdline (b ∷ args)) (options cmdline args)
