-- ===== src/Exec/Table/Refine.antt =====
-- The table of commands is a finite map from names.
use gwsh.Base.{
  ℕ, ◌≡◌, ◌∙◌, refl, sym, ap, subst, true, false, Option, none, some, List, Bytes, if◌then◌else◌,
  bytes_eq, bytes_eq_iff, Bool-cases, inl, inr,
}
use gwsh.Exec.Table.{
  Cmd, function, Tblentry, Commands, bucket, position, entry_at, last_entry, looked_up,
  append_if_none, cmdlookup, delete_cmd_entry, addcmdentry, defun, unsetfunc, hashcd, clearcmdentry,
  changepath, is_function, entry_is, write_at,
}
use gwsh.Exec.Table.Lookup.{
  entry_of, Distinct, changed, or_new, entry_at-position, entry_of-write_at, entry_of-remove_at,
  entry_of-append, Distinct-append, position-append, Distinct-write_at, Distinct-remove_at,
  bytes_eq_refl,
}
use gwsh.Exec.Table.Sweep.{
  entry_of-mark_all, Distinct-mark_all, entry_of-drop_cached, Distinct-drop_cached,
}
use gwsh.Exec.Table.Maps.{
  cmd_of, Refines, with_command, not_function, without_function, not_cached, entry_of-put_chain,
  Distinct-put_chain, function_gone, function_kept, cmd_of-mark, cmd_of-kept, cmd_of-changed,
  put_chain_here,
}

module _ {F B S : Type 0} (st : Commands F B S) (map : Bytes → Option (Cmd F B))
    (is : Refines st map) where
  last_entry-looked_up :
      (n : Bytes) → last_entry (looked_up n st) ≡ entry_of n (st.cmdtable (bucket n))
  last_entry-looked_up n = entry_at-position n (st.cmdtable (bucket n))

  unsetfunc-Refines : (n : Bytes) → Refines (unsetfunc n st) (without_function n map)
  unfolding unsetfunc cmdlookup delete_cmd_entry
  unsetfunc-Refines n =
      elim (Bool-cases (
        entry_is is_function
          (entry_at (position n (st.cmdtable (bucket n))) (st.cmdtable (bucket n))))) [
            | inl h ↦ rw h (
              (λ i.
                  Distinct-put_chain (bucket n) i _ st.cmdtable
                    (Distinct-remove_at n (st.cmdtable (bucket n)) (is.0 (bucket n))) (is.0 i)),
              λ m.
                  ap cmd_of (
                    entry_of-put_chain n m _ st.cmdtable none
                      (entry_of-remove_at n m (st.cmdtable (bucket n)) (is.0 (bucket n))))
                  ∙ removed m (ap (entry_is is_function) (sym (last_entry-looked_up n)) ∙ h),
            )
            | inr h ↦ rw h (
              is.0,
              λ m. is.1 m ∙ stays m (ap (entry_is is_function) (sym (last_entry-looked_up n)) ∙ h),
            )
          ]
    where
      removed :
          (m : Bytes)
          → entry_is is_function (entry_of n (st.cmdtable (bucket n))) ≡ true
          → cmd_of (if bytes_eq n m then none else entry_of m (st.cmdtable (bucket m)))
            ≡ without_function n map m
      removed m h = elim (Bool-cases (bytes_eq n m)) [
        | inl c ↦
            let at_n =
              ap not_function (sym (is.1 n))
              ∙ function_gone (entry_of n (st.cmdtable (bucket n))) h in
            rw c (sym (subst (λ x. not_function (map x) ≡ none) ((bytes_eq_iff n m).0 c) at_n))
        | inr c ↦ rw c (is.1 m)
      ]

      stays :
          (m : Bytes)
          → entry_is is_function (entry_of n (st.cmdtable (bucket n))) ≡ false
          → map m ≡ without_function n map m
      stays m h = elim (Bool-cases (bytes_eq n m)) [
        | inl c ↦
            let at_n =
              ap not_function (sym (is.1 n))
              ∙ function_kept (entry_of n (st.cmdtable (bucket n))) h
              ∙ is.1 n in
            rw c (sym (subst (λ x. not_function (map x) ≡ map x) ((bytes_eq_iff n m).0 c) at_n))
        | inr c ↦ rw c refl
      ]

  hashcd-Refines : Refines (hashcd st) map
  unfolding hashcd
  hashcd-Refines = (
    (λ i. Distinct-mark_all (st.cmdtable i) (is.0 i)),
    λ m.
        ap cmd_of (entry_of-mark_all m (st.cmdtable (bucket m)))
        ∙ cmd_of-mark (entry_of m (st.cmdtable (bucket m)))
        ∙ is.1 m,
  )

  changepath-Refines : (newval : Bytes) → Refines (changepath newval st) (λ m. not_cached (map m))
  unfolding changepath clearcmdentry
  changepath-Refines newval = (
    (λ i. Distinct-drop_cached (st.cmdtable i) (is.0 i)),
    λ m.
        ap cmd_of (entry_of-drop_cached m (st.cmdtable (bucket m)) (is.0 (bucket m)))
        ∙ cmd_of-kept (entry_of m (st.cmdtable (bucket m)))
        ∙ ap not_cached (is.1 m),
  )

  added-Distinct : (n : Bytes) (i : ℕ) → Distinct ((cmdlookup n true st).cmdtable i)
  unfolding cmdlookup
  added-Distinct n i =
      Distinct-put_chain (bucket n) i _ st.cmdtable
        (subst (λ o. Distinct (append_if_none n o (st.cmdtable (bucket n))))
          (sym (last_entry-looked_up n))
          (Distinct-append n (st.cmdtable (bucket n)) (is.0 (bucket n))))
        (is.0 i)

  entry_of-added :
      (n m : Bytes)
      → entry_of m ((cmdlookup n true st).cmdtable (bucket m)) ≡ (
          if bytes_eq n m
          then or_new n (entry_of n (st.cmdtable (bucket n)))
          else entry_of m (st.cmdtable (bucket m)))
  unfolding cmdlookup
  entry_of-added n m =
      entry_of-put_chain n m _ st.cmdtable (or_new n (entry_of n (st.cmdtable (bucket n)))) (
        ap (λ o. entry_of m (append_if_none n o (st.cmdtable (bucket n)))) (last_entry-looked_up n)
        ∙ entry_of-append n m (st.cmdtable (bucket n)))

  position-added :
      (n : Bytes)
      → position n (st.cmdtable (bucket n)) ≡ position n ((cmdlookup n true st).cmdtable (bucket n))
  unfolding cmdlookup
  position-added n = sym (
      ap (position n) (put_chain_here (bucket n) _ st.cmdtable)
      ∙ ap (λ o. position n (append_if_none n o (st.cmdtable (bucket n)))) (last_entry-looked_up n)
      ∙ position-append n (st.cmdtable (bucket n)))

  abbrev put_cmd : Cmd F B → Tblentry F B → Tblentry F B
  put_cmd cmd cmdp = record cmdp { cmd = cmd; rehash = false }

  entry_of-added_here :
      (n : Bytes)
      → entry_of n ((cmdlookup n true st).cmdtable (bucket n))
        ≡ or_new n (entry_of n (st.cmdtable (bucket n)))
  entry_of-added_here n = entry_of-added n n ∙ (rw (bytes_eq_refl n) refl)

  cmd_of-added :
      (n m : Bytes) (cmd : Cmd F B)
      → cmd_of (
          if bytes_eq n m
          then changed (put_cmd cmd) (entry_of m ((cmdlookup n true st).cmdtable (bucket n)))
          else entry_of m ((cmdlookup n true st).cmdtable (bucket m)))
        ≡ with_command n cmd map m
  cmd_of-added n m cmd = elim (Bool-cases (bytes_eq n m)) [
    | inl c ↦ rw c (
        subst
          (λ x.
            cmd_of (changed (put_cmd cmd) (entry_of x ((cmdlookup n true st).cmdtable (bucket n))))
            ≡ some cmd)
          ((bytes_eq_iff n m).0 c)
          (ap (λ o. cmd_of (changed (put_cmd cmd) o)) (entry_of-added_here n)
            ∙ cmd_of-changed n cmd (entry_of n (st.cmdtable (bucket n)))))
    | inr c ↦ rw c (ap cmd_of (entry_of-added n m ∙ (rw c refl)) ∙ is.1 m)
  ]

  addcmdentry-Refines :
      (n : Bytes) (cmd : Cmd F B) → Refines (addcmdentry n cmd st) (with_command n cmd map)
  unfolding addcmdentry cmdlookup
  addcmdentry-Refines n cmd =
      let t : ℕ → List (Tblentry F B) = (cmdlookup n true st).cmdtable in
      (
        (λ i.
            Distinct-put_chain (bucket n) i _ t
              (subst (λ k. Distinct (write_at k (put_cmd cmd) (t (bucket n))))
                (sym (position-added n))
                (Distinct-write_at (put_cmd cmd) n (t (bucket n)) (λ _. refl)
                  (added-Distinct n (bucket n))))
              (added-Distinct n i)),
        λ m.
            ap cmd_of (
              entry_of-put_chain n m _ t (changed (put_cmd cmd) (entry_of m (t (bucket n)))) (
                ap (λ k. entry_of m (write_at k (put_cmd cmd) (t (bucket n)))) (position-added n)
                ∙ entry_of-write_at (put_cmd cmd) n m (t (bucket n)) (λ _. refl)))
            ∙ cmd_of-added n m cmd,
      )

  -- Where the table has each name at most once in a chain, it is a finite map from the names, and stays
  -- one: defun sets the command of its name alone, unsetfunc takes it away where it is a function and
  -- changes nothing else, hashcd changes no command, and changepath keeps the functions of all names and
  -- forgets the programs and the builtins.
  pub table-Refines :
      (n text newval : Bytes) (func : F)
      → Refines (defun text func st) (with_command text (function func) map)
        × Refines (unsetfunc n st) (without_function n map)
        × Refines (hashcd st) map
        × Refines (changepath newval st) (λ m. not_cached (map m))
  unfolding defun
  table-Refines n text newval func = (
    addcmdentry-Refines text (function func),
    unsetfunc-Refines n,
    hashcd-Refines,
    changepath-Refines newval,
  )
