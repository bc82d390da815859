-- ===== src/Exec/Path/Split.antt =====
-- The files that padvance gives one after the other are those of the entries between the colons.
use gwsh.Base.{
  ℕ, zero, suc, ◌≤◌, ◌≡◌, refl, sym, ap, true, false, Option, none, some, List, [], ◌∷◌, Bytes,
  ◌==◌, if◌then◌else◌, length, arith, Bool-cases, inl, inr,
}
use gwsh.Exec.Path.{entry_of, full_name, padvance, next_path, path_option}

-- The entries of a path: a colon ends one and begins the next.
abbrev pub cons_first : ℕ → List Bytes → List Bytes
cons_first c [] = (c ∷ []) ∷ []
cons_first c (e ∷ es) = (c ∷ e) ∷ es

unfoldable pub split_path : Bytes → List Bytes
split_path [] = [] ∷ []
split_path (c ∷ p) = let rest = split_path p in if c == b':' then [] ∷ rest else cons_first c rest

unfoldable pub names_in : List Bytes → Bytes → List Bytes
names_in [] name = []
names_in (e ∷ es) name = full_name e name ∷ names_in es name

-- What `fuel` calls of padvance give.
unfoldable pub advances : ℕ → Option Bytes → Bytes → List Bytes
unfolding padvance
advances zero path name = []
advances (suc fuel) path name = elim (padvance false path name) as (λ _. List Bytes) [
  | none ↦ []
  | some a ↦ a.fullname ∷ advances fuel a.path name
]

-- The entry at the front, and the path behind its colon.
abbrev pub entries_from : Option Bytes → List Bytes
entries_from none = []
entries_from (some p) = split_path p

pub next_path_colon : (c : ℕ) (p : Bytes) → (c == b':') ≡ true → next_path (c ∷ p) ≡ some p
next_path_colon c p h = rw h refl

pub path_option_plain : (p : Bytes) → (path_option false p).1 ≡ p
path_option_plain [] = refl
path_option_plain (c ∷ p) = refl

pub split-entry_of :
    (p : Bytes)
    → split_path p ≡ (entry_of false p).0 ∷ entries_from (next_path (entry_of false p).1)
unfolding split_path entry_of
split-entry_of [] = refl
split-entry_of (c ∷ p) = elim (Bool-cases (c == b':')) [
  | inl colon ↦ rw colon (ap (λ path. [] ∷ entries_from path) (sym (next_path_colon c p colon)))
  | inr other ↦ rw other (ap (cons_first c) (split-entry_of p))
]

-- Enough calls of padvance give the files of the entries of the path, in order, the empty ones included,
-- and no more: an entry is cut off at each colon and at none else, and a slash is put behind an entry
-- that does not end in one.
pub advances-split :
    (fuel : ℕ) (path : Option Bytes) (name : Bytes)
    → length (entries_from path) ≤ fuel
    → advances fuel path name ≡ names_in (entries_from path) name
unfolding advances names_in padvance
advances-split zero none name h = refl
advances-split zero (some p) name h =
    let same = ap length (split-entry_of p) in absurd (omega (arith, h, same))
advances-split (suc fuel) none name h = refl
advances-split (suc fuel) (some p) name h =
    let path = next_path (entry_of false p).1 in
    let same = ap length (split-entry_of p) in
    rw (path_option_plain (entry_of false p).1, split-entry_of p)
      (ap (λ rest. full_name (entry_of false p).0 name ∷ rest)
        (advances-split fuel path name (omega (arith, h, same))))
