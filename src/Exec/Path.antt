-- ===== src/Exec/Path.antt =====
-- src/exec.c: padvance, and the files that it gives for a path.
pub mod Split
use gwsh.Base.{
  ℕ, zero, suc, ◌≡◌, Bool, true, false, not, ◌&&◌, ◌||◌, Option, none, some, List, [], ◌∷◌, ◌++◌,
  Bytes, ◌==◌, if◌then◌else◌,
}

-- From start to p, and what stands at p.
unfoldable pub entry_of : Bool → Bytes → Bytes × Bytes
entry_of with_opt [] = ([], [])
entry_of with_opt (c ∷ p) =
    let (entry, rest) = entry_of with_opt p in
    if c == b':' || (with_opt && c == b'%') then ([], c ∷ p) else (c ∷ entry, rest)

-- p[-1] != '/'
unfoldable pub wants_slash : Bytes → Bool
wants_slash [] = false
wants_slash (c ∷ []) = not (c == b'/')
wants_slash (c ∷ d ∷ p) = wants_slash (d ∷ p)

-- What is put on the stack.
abbrev pub full_name : Bytes → Bytes → Bytes
full_name entry name = entry ++ (if wants_slash entry then b'/' ∷ name else name)

-- From an option on: to the colon.
unfoldable pub skip_option : Bytes → Bytes
skip_option [] = []
skip_option (c ∷ p) = let rest = skip_option p in if c == b':' then c ∷ p else rest

-- *pathopt, and p
abbrev pub path_option : Bool → Bytes → Option Bytes × Bytes
path_option with_opt [] = (none, [])
path_option with_opt (c ∷ p) =
    if with_opt && c == b'%' then (some p, skip_option p) else (none, c ∷ p)

-- *path
abbrev pub next_path : Bytes → Option Bytes
next_path [] = none
next_path (c ∷ p) = if c == b':' then some p else none

-- The file, *pathopt and *path.
pub record Advance : Type 0 where
  pub fullname : Bytes
  pub pathopt : Option Bytes
  pub path : Option Bytes

-- `with_opt` is that pathopt is not NULL. `none` is -1.
unfoldable pub padvance : Bool → Option Bytes → Bytes → Option Advance
unfolding entry_of wants_slash skip_option
padvance with_opt none name = none
padvance with_opt (some start) name =
    let (entry, p) = entry_of with_opt start in
    let (option, rest) = path_option with_opt p in
    some (record { fullname = full_name entry name; pathopt = option; path = next_path rest })
