-- ===== src/Exec/Find/Edges.antt =====
-- A path that ends in a colon: its last entry, the current directory.
use gwsh.Base.{
  ℕ, zero, suc, ◌≡◌, ◌∙◌, refl, sym, ap, subst, Bool, true, false, Option, none, some, List, [],
  ◌∷◌, ◌++◌, Bytes, ◌==◌, Bool-cases, inl, inr, head_byte,
}
use gwsh.Exec.Path.{padvance, entry_of, next_path, full_name}
use gwsh.Exec.Path.Split.{
  split_path, names_in, entries_from, split-entry_of, path_option_plain, next_path_colon,
}
use gwsh.Exec.Find.{failed, Calls, Hit, search, with_stat, with_name, goes_in, fuel_of, keep_errno}
use gwsh.Exec.Find.Search.{program_of, ends_in_entry, good, good-next_path, and_false}

-- stat fails for each of the files.
unfoldable pub NoneThere : {F B S : Type 0} → Calls F B S → S → List Bytes → Type 0
NoneThere calls env [] = Unit
NoneThere calls env (file ∷ files) =
    ((errno : ℕ) × (calls.stat env file ≡ failed errno)) × NoneThere calls env files

abbrev with_colon : Option Bytes → Bytes
with_colon none = []
with_colon (some q) = q ++ (b':' ∷ [])

next_path-colon :
    (q : Bytes)
    → next_path (entry_of false (q ++ (b':' ∷ []))).1
      ≡ some (with_colon (next_path (entry_of false q).1))
unfolding entry_of
next_path-colon [] = refl
next_path-colon (c ∷ q) = elim (Bool-cases (c == b':')) [
  | inl colon ↦ rw colon (
      next_path_colon c (q ++ (b':' ∷ [])) colon
      ∙ ap (λ o. some (with_colon o)) (sym (next_path_colon c q colon)))
  | inr other ↦ rw other (next_path-colon q)
]

entry_of-colon : (q : Bytes) → (entry_of false (q ++ (b':' ∷ []))).0 ≡ (entry_of false q).0
unfolding entry_of
entry_of-colon [] = refl
entry_of-colon (c ∷ q) = elim (Bool-cases (c == b':')) [
  | inl colon ↦ rw colon refl
  | inr other ↦ rw other (ap (λ e. c ∷ e) (entry_of-colon q))
]

goes_in-colon : (q : Bytes) → goes_in true (some (q ++ (b':' ∷ []))) ≡ true
goes_in-colon [] = refl
goes_in-colon (c ∷ q) = refl

module _ {F B S : Type 0} (calls : Calls F B S) (env : S) (name : Bytes) where
  with_name-failed :
      (file : Bytes) (idx e errno : ℕ) (next : Bool → ℕ → Hit)
      → calls.stat env file ≡ failed errno
      → with_name calls env true none file idx e next ≡ next true (keep_errno calls errno e)
  with_name-failed file idx e errno next h =
      rw (and_false (head_byte file == b'/'))
        (ap (λ s. with_stat calls env true file idx e next s) h)

  search-colon :
      (fuel : ℕ) (path : Option Bytes) (idx e : ℕ)
      → good path ≡ true
      → NoneThere calls env (names_in (entries_from path) name)
      → program_of (search calls env true none name fuel true (some (with_colon path)) idx e) ≡ none
  unfolding search padvance NoneThere names_in
  search-colon zero path idx e g none_there = refl
  search-colon (suc fuel) none idx e g none_there = refl
  search-colon (suc fuel) (some q) idx e g none_there =
      let here =
        subst (λ es. NoneThere calls env (names_in es name)) (split-entry_of q) none_there in
      rw
        (
          goes_in-colon q,
          path_option_plain (entry_of false (q ++ (b':' ∷ []))).1,
          entry_of-colon q,
          next_path-colon q,
        )
        (ap program_of (
            with_name-failed (full_name (entry_of false q).0 name) idx e here.0.0
              (λ at_label e'.
                search calls env true none name fuel at_label
                  (some (with_colon (next_path (entry_of false q).1))) (suc idx) e')
              here.0.1)
          ∙ search-colon fuel (next_path (entry_of false q).1) (suc idx)
              (keep_errno calls here.0.0 e) (good-next_path q g) here.1)

  -- Where stat fails for the files of all entries of a path, the search does not look at the empty entry
  -- that a colon behind the path adds: it finds nothing, though the file of that name in the current
  -- directory may be a program.
  pub search_misses_last :
      (p : Bytes)
      → ends_in_entry p ≡ true
      → NoneThere calls env (names_in (split_path p) name)
      → program_of (
          search calls env true none name
            (fuel_of (some (p ++ (b':' ∷ []))))
            true
            (some (p ++ (b':' ∷ [])))
            0
            0)
        ≡ none
  search_misses_last p g none_there =
      search-colon (fuel_of (some (p ++ (b':' ∷ [])))) (some p) 0 0 g none_there
