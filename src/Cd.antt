-- ===== src/Cd.antt =====
-- src/cd.c: the options of cd, the new working directory by its name, and the path that is given to
-- chdir. stat and getcwd are parameters.
pub mod Stacked
pub mod Walk
pub mod Names
use gwsh.Base.{
  ℕ, zero, suc, ◌+◌, Bool, true, false, not, ◌&&◌, ◌||◌, Option, none, some, List, [], ◌∷◌, ◌++◌,
  Bytes, ◌==◌, ltb, if◌then◌else◌, length, head_byte, tail_bytes, codes, bytes_eq,
}

-- The bytes up to a slash or the end, and the rest from there on.
unfoldable pub before_slash : Bytes → Bytes
before_slash [] = []
before_slash (c ∷ p) = let rest = before_slash p in if c == b'/' then [] else c ∷ rest

unfoldable pub from_slash : Bytes → Bytes
from_slash [] = []
from_slash (c ∷ p) = let rest = from_slash p in if c == b'/' then c ∷ p else rest

-- The text on the stack is kept with its last byte first.
unfoldable pub reverse_onto : Bytes → Bytes → Bytes
reverse_onto [] new = new
reverse_onto (c ∷ s) new = reverse_onto s (c ∷ new)

-- while (new > lim) { STUNPUTC(new); if (*new == '/') break; }
unfoldable pub drop_last : ℕ → Bytes → Bytes
drop_last lim [] = []
drop_last lim (c ∷ new) =
    let rest = drop_last lim new in
    if ltb lim (suc (length new)) then (if c == b'/' then new else rest) else c ∷ new

-- A `/` before the next name, if there is none.
abbrev pub put_slash : Bytes → Bytes
put_slash [] = []
put_slash (c ∷ new) = if c == b'/' then c ∷ new else b'/' ∷ c ∷ new

abbrev pub put_name : Bytes → Bytes → Bytes
put_name name new = reverse_onto name (put_slash new)

abbrev pub dot : Bytes
dot = codes "."

abbrev pub dot_dot : Bytes
dot_dot = codes ".."

-- The name of the directory; no name; a directory before .. that is not there; a read by a null
-- pointer. `out_of_fuel` belongs to the model only.
pub data Updated : Type 0 where
  pwd_is : Bytes → Updated
  no_pwd cannot_stat null_pointer out_of_fuel : Updated

-- The loop of updatepwd. `exists` is whether stat finds a path.
unfoldable pub walk : ℕ → (Bytes → Bool) → ℕ → Bytes → Bytes → Updated
unfolding before_slash from_slash drop_last reverse_onto bytes_eq
walk zero exists lim new p = out_of_fuel
walk (suc f) exists lim new p =
    let name = before_slash p in
    let end = from_slash p in
    let past = walk f exists lim new (tail_bytes p) in
    let goes_on : Bytes → Updated = λ new'. walk f exists lim new' (tail_bytes end) in
    let next : Bytes → Updated = λ new'. elim end as (λ _. Updated) [
      | [] ↦ pwd_is (reverse_onto new' [])
      | c ∷ s ↦ goes_on new'
    ] in
    let up = next (drop_last lim new) in
    elim name as (λ _. Updated) [
      | [] ↦ elim end as (λ _. Updated) [ [] ↦ pwd_is (reverse_onto new []) | c ∷ s ↦ past ]
      | c ∷ s ↦
          if bytes_eq (c ∷ s) dot_dot
          then (if exists (reverse_onto (b'/' ∷ new) []) then up else cannot_stat)
          else if bytes_eq (c ∷ s) dot
          then next new
          else next (put_name (c ∷ s) new)
    ]

-- An absolute name: one slash, or two where there are exactly two.
abbrev pub from_root : (Bytes → Bool) → Bytes → Updated
from_root exists p =
    if head_byte p == b'/' && not (head_byte (tail_bytes p) == b'/')
    then walk (suc (length p)) exists 2 (b'/' ∷ b'/' ∷ []) (tail_bytes p)
    else walk (suc (length p)) exists 1 (b'/' ∷ []) p

abbrev pub from_curdir : (Bytes → Bool) → Option Bytes → Bytes → Updated
from_curdir exists none p = null_pointer
from_curdir exists (some []) p = no_pwd
from_curdir exists (some (c ∷ curdir)) p =
    walk (suc (length p)) exists 1 (reverse_onto (c ∷ curdir) []) p

-- `curdir` is none where it is NULL.
unfoldable pub updatepwd : (Bytes → Bool) → Option Bytes → Bytes → Updated
unfolding walk reverse_onto
updatepwd exists curdir dir =
    if head_byte dir == b'/'
    then from_root exists (tail_bytes dir)
    else from_curdir exists curdir dir

-- What getpwd finds without CD_PHYSICAL: $PWD if it is the directory that `.` is, or what getcwd says.
abbrev pub getpwd : (Bytes → Bool) → Option Bytes → Bool → Bytes → Option Bytes
getpwd is_same_as_dot getcwd physical pwdval =
    if not physical && is_same_as_dot pwdval then some pwdval else getcwd

-- The text behind a prefix, where it starts with it (strncmp).
unfoldable pub behind : Bytes → Bytes → Option Bytes
behind [] dir = some dir
behind (c ∷ s) [] = none
behind (c ∷ s) (d ∷ dir) = if c == d then behind s dir else none

abbrev pub is_long : Bytes → Bool
is_long [] = false
is_long (c ∷ s) = true

abbrev pub relative : Bytes → Option Bytes → Bytes
relative dir none = dir
relative dir (some rest) =
    if head_byte rest == b'/' && is_long (tail_bytes rest) then tail_bytes rest else dir

-- The path for chdir: relative to curdir where curdir is a prefix.
unfoldable pub chdir_path : Option Bytes → Bytes → Bytes
unfolding behind
chdir_path none dir = dir
chdir_path (some curdir) dir =
    if head_byte curdir == b'/'
    then relative dir (behind (if length curdir == 1 then [] else curdir) dir)
    else dir

-- CD_PHYSICAL, after the letters that nextopt finds.
unfoldable pub cdopt : ℕ → Bool → List ℕ → Bool
cdopt j flags [] = flags
cdopt j flags (i ∷ letters) = cdopt i (if i == j then flags else not flags) letters
