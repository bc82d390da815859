-- ===== src/Exec/Find/Search.antt =====
-- The search for a program, and a reference that goes over the list of the files.
use gwsh.Base.{
  bools_apart, ℕ, zero, suc, ◌≤◌, ◌≡◌, ◌∙◌, refl, sym, ap, subst, Bool, true, false, not, ◌&&◌,
  Option, none, some, List, [], ◌∷◌, Bytes, ◌==◌, if◌then◌else◌, if_cases, length, head_byte, arith,
  Bool-cases, inl, inr,
}
use gwsh.Exec.Path.{padvance, entry_of, next_path, full_name}
use gwsh.Exec.Path.Split.{
  split_path, names_in, entries_from, split-entry_of, cons_first, next_path_colon,
  path_option_plain,
}
use gwsh.Exec.Find.{
  Stat, found, failed, Calls, Hit, program, search, with_stat, with_name, goes_in, fuel_of,
}

abbrev regular_of : Stat → Bool
regular_of (found b) = b
regular_of (failed errno) = false

-- A regular file that may be executed.
abbrev pub is_program : {F B S : Type 0} → Calls F B S → S → Bytes → Bool
is_program calls env file = regular_of (calls.stat env file) && calls.may_exec env file

-- Where the first program is among the files, counted from `idx`.
unfoldable pub first_program : {F B S : Type 0} → Calls F B S → S → List Bytes → ℕ → Option ℕ
first_program calls env [] idx = none
first_program calls env (file ∷ files) idx =
    let rest = first_program calls env files (suc idx) in
    if is_program calls env file then some idx else rest

abbrev pub program_of : Hit → Option ℕ
program_of (program idx) = some idx
program_of _ = none

-- The path has a byte, and the last one is not a colon.
unfoldable pub ends_in_entry : Bytes → Bool
ends_in_entry [] = false
ends_in_entry (c ∷ []) = not (c == b':')
ends_in_entry (c ∷ d ∷ p) = ends_in_entry (d ∷ p)

abbrev pub good : Option Bytes → Bool
good none = true
good (some p) = ends_in_entry p

pub good-next_path :
    (p : Bytes) → ends_in_entry p ≡ true → good (next_path (entry_of false p).1) ≡ true
unfolding ends_in_entry entry_of
good-next_path [] h = absurd cc
good-next_path (c ∷ []) h = elim (Bool-cases (c == b':')) [
  | inl colon ↦ absurd (bools_apart (sym h ∙ ap not colon))
  | inr other ↦ rw other refl
]
good-next_path (c ∷ d ∷ p) h = elim (Bool-cases (c == b':')) [
  | inl colon ↦
      rw colon (subst (λ path. good path ≡ true) (sym (next_path_colon c (d ∷ p) colon)) h)
  | inr other ↦ rw other (good-next_path (d ∷ p) h)
]

good-goes_in :
    (at_label : Bool) (p : Bytes) → ends_in_entry p ≡ true → goes_in at_label (some p) ≡ true
unfolding ends_in_entry
good-goes_in at_label [] h = absurd cc
good-goes_in at_label (c ∷ p) h = refl

length-cons_first :
    (c : ℕ) (es : List Bytes) (n : ℕ) → length es ≤ n → length (cons_first c es) ≤ suc n
length-cons_first c [] n h = omega arith
length-cons_first c (e ∷ es) n h = omega (arith, h)

pub length-split_path : (p : Bytes) → length (split_path p) ≤ suc (length p)
unfolding split_path
length-split_path [] = omega arith
length-split_path (c ∷ p) =
    if_cases (λ (es : List Bytes). length es ≤ suc (suc (length p))) (c == b':')
      (λ _. omega (arith, length-split_path p))
      (λ _. length-cons_first c (split_path p) (suc (length p)) (length-split_path p))

pub and_false : (b : Bool) → (b && false) ≡ false
and_false true = refl
and_false false = refl

module _ {F B S : Type 0} (calls : Calls F B S) (env : S) (name : Bytes) where
  -- What is done with one file.
  with_name-first :
      (file : Bytes) (idx e : ℕ) (next : Bool → ℕ → Hit) (rest : Option ℕ)
      → ((at_label : Bool) (e' : ℕ) → program_of (next at_label e') ≡ rest)
      → program_of (with_name calls env true none file idx e next)
        ≡ (if is_program calls env file then some idx else rest)
  with_name-first file idx e next rest same =
      rw (and_false (head_byte file == b'/')) (with_stat-first (calls.stat env file))
    where
      with_stat-first :
          (s : Stat)
          → program_of (with_stat calls env true file idx e next s)
            ≡ (if regular_of s && calls.may_exec env file then some idx else rest)
      with_stat-first (failed errno) = same true _
      with_stat-first (found false) = same false _
      with_stat-first (found true) = elim (Bool-cases (calls.may_exec env file)) [
        | inl may ↦ rw may refl
        | inr may_not ↦ rw may_not (same false calls.eacces)
      ]

  search-first :
      (fuel : ℕ) (at_label : Bool) (path : Option Bytes) (idx e : ℕ)
      → length (entries_from path) ≤ fuel
      → good path ≡ true
      → program_of (search calls env true none name fuel at_label path idx e)
        ≡ first_program calls env (names_in (entries_from path) name) idx
  unfolding search first_program names_in padvance
  search-first zero at_label none idx e h g = refl
  search-first zero at_label (some p) idx e h g =
      let same = ap length (split-entry_of p) in absurd (omega (arith, h, same))
  search-first (suc fuel) at_label none idx e h g = refl
  search-first (suc fuel) at_label (some p) idx e h g =
      let path = next_path (entry_of false p).1 in
      let same = ap length (split-entry_of p) in
      rw (good-goes_in at_label p g, path_option_plain (entry_of false p).1, split-entry_of p)
        (with_name-first (full_name (entry_of false p).0 name) idx e _ _ λ at_label' e'.
          search-first fuel at_label' path (suc idx) e' (omega (arith, h, same))
            (good-next_path p g))

  -- For a path whose last byte is not a colon, and a name that is not hashed, the search finds the first
  -- program among the files of the entries of the path, in order, and finds none where none is one.
  pub search-first_program :
      (p : Bytes) (e : ℕ)
      → ends_in_entry p ≡ true
      → program_of (search calls env true none name (fuel_of (some p)) true (some p) 0 e)
        ≡ first_program calls env (names_in (split_path p) name) 0
  search-first_program p e g =
      search-first (suc (length p)) true (some p) 0 e (length-split_path p) g
