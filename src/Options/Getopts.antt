-- ===== src/Options/Getopts.antt =====
-- src/options.c: the getopts builtin. The variables that it assigns are in its result.
pub mod Bounds
use gwsh.Base.{
  ℕ, zero, suc, ◌+◌, ◌-◌, Bool, true, false, not, ◌&&◌, ◌||◌, Option, none, some, List, [], ◌∷◌,
  Bytes, ◌==◌, leb, ltb, if◌then◌else◌, length, head_byte,
}
use gwsh.Options.Nextopt.{wants_arg}

-- What becomes of OPTARG: it is assigned, unset, or left alone.
pub data Optarg : Type 0 where
  assigned : Bytes → Optarg
  unset kept : Optarg

-- The message on standard error.
pub data Message : Type 0 where
  illegal_option no_arg : ℕ → Message
  silent : Message

-- `ind` is the new OPTIND. `off` is the place in the word before it, `none` for -1. `value` is the
-- byte that the named variable gets.
pub record Result : Type 0 where
  pub done : Bool
  pub value : ℕ
  pub ind : ℕ
  pub off : Option ℕ
  pub optarg : Optarg
  pub message : Message

abbrev pub word_at : List Bytes → ℕ → Option Bytes
word_at [] i = none
word_at (a ∷ args) zero = some a
word_at (a ∷ args) (suc i) = word_at args i

abbrev pub drop : ℕ → Bytes → Bytes
drop zero s = s
drop (suc n) [] = []
drop (suc n) (c ∷ s) = drop n s

abbrev pub at_end : ℕ → Result
at_end next = record {
  done = true;
  value = b'?';
  ind = next + 1;
  off = none;
  optarg = kept;
  message = silent;
}

-- An option that the string lacks; `:` at the front of the string asks for no message.
abbrev unknown : Bytes → ℕ → ℕ → Option ℕ → Result
unknown optstr c next off =
    if head_byte optstr == b':'
    then record {
      done = false;
      value = b'?';
      ind = next + 1;
      off = off;
      optarg = assigned (c ∷ []);
      message = silent;
    }
    else record {
      done = false;
      value = b'?';
      ind = next + 1;
      off = off;
      optarg = unset;
      message = illegal_option c;
    }

abbrev missing : Bytes → ℕ → ℕ → Result
missing optstr c next =
    if head_byte optstr == b':'
    then record {
      done = false;
      value = b':';
      ind = next + 1;
      off = none;
      optarg = assigned (c ∷ []);
      message = silent;
    }
    else record {
      done = false;
      value = b'?';
      ind = next + 1;
      off = none;
      optarg = unset;
      message = no_arg c;
    }

abbrev pub with_arg : Bytes → ℕ → ℕ → Bytes → Option Bytes → Result
with_arg optstr c next (d ∷ p) word = record {
  done = false;
  value = c;
  ind = next + 1;
  off = none;
  optarg = assigned (d ∷ p);
  message = silent;
}
with_arg optstr c next [] none = missing optstr c next
with_arg optstr c next [] (some a) = record {
  done = false;
  value = c;
  ind = next + 2;
  off = none;
  optarg = assigned a;
  message = silent;
}

abbrev pub found : Bytes → List Bytes → ℕ → ℕ → ℕ → Bytes → Option Bool → Result
found optstr args c next off p none = unknown optstr c next (some off)
found optstr args c next off p (some true) = with_arg optstr c next p (word_at args next)
found optstr args c next off p (some false) = record {
  done = false;
  value = c;
  ind = next + 1;
  off = some off;
  optarg = unset;
  message = silent;
}

-- From `c = *p++` on: `p` is the text behind `c`, at `off` in the word before `next`.
abbrev pub letter : Bytes → List Bytes → ℕ → ℕ → ℕ → Bytes → Result
letter optstr args c next off p = found optstr args c next off p (wants_arg c optstr)

abbrev pub is_dash : Bytes → Bool
is_dash [] = true
is_dash (d ∷ p) = false

-- The next word, if the one before is done.
unfoldable pub advance : Bytes → List Bytes → ℕ → Option Bytes → Result
advance optstr args next none = at_end next
advance optstr args next (some []) = at_end next
advance optstr args next (some (m ∷ [])) = at_end next
advance optstr args next (some (m ∷ c ∷ p)) =
    if not (m == b'-')
    then at_end next
    else if c == b'-' && is_dash p
    then at_end (next + 1)
    else letter optstr args c (next + 1) 2 p

-- `optnext[-1] + off`, where it is in the word
abbrev pub rest_of_word : ℕ → Option ℕ → Option Bytes → Bytes
rest_of_word ind none word = []
rest_of_word ind (some off) none = []
rest_of_word ind (some off) (some w) = if leb ind 1 || ltb (length w) off then [] else drop off w

abbrev pub off_or : Option ℕ → ℕ
off_or none = 0
off_or (some off) = off

abbrev pub resume : Bytes → List Bytes → ℕ → Option ℕ → Bytes → Result
resume optstr args ind off [] = advance optstr args (ind - 1) (word_at args (ind - 1))
resume optstr args ind off (c ∷ p) = letter optstr args c (ind - 1) (off_or off + 1) p

-- `ind` is at least 1.
unfoldable pub getopts : Bytes → List Bytes → ℕ → Option ℕ → Result
unfolding advance wants_arg
getopts optstr args ind off =
    resume optstr args ind off (rest_of_word ind off (word_at args (ind - 2)))

-- The check of OPTIND in getoptscmd, with the unsigned comparison: an index that is not in 1 ..
-- count + 1 starts afresh.
unfoldable pub getoptscmd : Bytes → List Bytes → ℕ → Option ℕ → Result
unfolding getopts
getoptscmd optstr args ind off =
    if ind == 0 || ltb (length args) (ind - 1)
    then getopts optstr args 1 none
    else getopts optstr args ind off
