-- ===== src/Options/Table.antt =====
-- src/options.c and src/options.h: the tables of option names and letters, and their positions.
use gwsh.Base.{ℕ, List, [], ◌∷◌, Option, none, some, Bytes, String, codes}

abbrev pub firstsetopt : ℕ
firstsetopt = 4

abbrev pub xflagind : ℕ
xflagind = 9

abbrev pub vflagind : ℕ
vflagind = 10

-- vi
abbrev pub vi_flagind : ℕ
vi_flagind = 11

-- emacs
abbrev pub emacs_flagind : ℕ
emacs_flagind = 12

abbrev named : String → Option Bytes
named s = some (codes s)

-- NULL where the option has no name
abbrev pub optnames : List (Option Bytes)
optnames =
    none
    ∷ none
    ∷ named "interactive"
    ∷ named "stdin"
    ∷ named "errexit"
    ∷ named "noglob"
    ∷ named "ignoreeof"
    ∷ named "monitor"
    ∷ named "noexec"
    ∷ named "xtrace"
    ∷ named "verbose"
    ∷ named "vi"
    ∷ named "emacs"
    ∷ named "noclobber"
    ∷ named "allexport"
    ∷ named "notify"
    ∷ named "nounset"
    ∷ named "privileged"
    ∷ named "nolog"
    ∷ named "debug"
    ∷ named "pipefail"
    ∷ []

-- 0 where the option has no letter
abbrev pub optletters : List ℕ
optletters =
    b'c' ∷ b'l' ∷ b'i' ∷ b's' ∷ b'e' ∷ b'f' ∷ b'I' ∷ b'm' ∷ b'n' ∷ b'x' ∷ b'v' ∷ b'V' ∷ b'E' ∷ b'C'
    ∷ b'a' ∷ b'b' ∷ b'u' ∷ b'p' ∷ 0 ∷ 0 ∷ 0 ∷ []
