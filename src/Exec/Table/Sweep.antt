-- ===== src/Exec/Table/Sweep.antt =====
-- hashcd and clearcmdentry on one chain.
use gwsh.Base.{
  ◌≡◌, ◌∙◌, refl, ap, subst, true, false, Option, none, some, List, [], ◌∷◌, Bytes, if◌then◌else◌,
  bytes_eq, bytes_eq_iff, Bool-cases, inl, inr,
}
use gwsh.Exec.Table.{Tblentry, mark, mark_all, drop_cached, is_cached, is_normal}
use gwsh.Exec.Table.Lookup.{entry_of, Distinct, changed}

abbrev pub kept : {F B : Type 0} → Option (Tblentry F B) → Option (Tblentry F B)
kept none = none
kept (some cmdp) = if is_cached cmdp.cmd then none else some cmdp

module _ {F B : Type 0} where
  mark_name : (cmdp : Tblentry F B) → (mark cmdp).cmdname ≡ cmdp.cmdname
  mark_name cmdp =
      elim (is_normal cmdp.cmd)
        as (λ b. (if b then record cmdp { rehash = true } else cmdp).cmdname ≡ cmdp.cmdname) [
          | true ↦ refl
          | false ↦ refl
        ]

  pub entry_of-mark_all :
      (m : Bytes) (chain : List (Tblentry F B))
      → entry_of m (mark_all chain) ≡ changed mark (entry_of m chain)
  unfolding entry_of mark_all
  entry_of-mark_all m [] = refl
  entry_of-mark_all m (cmdp ∷ chain) =
      ap (λ x. if bytes_eq x m then some (mark cmdp) else entry_of m (mark_all chain))
        (mark_name cmdp)
      ∙ (elim (Bool-cases (bytes_eq cmdp.cmdname m)) [
        | inl a ↦ rw a refl
        | inr a ↦ rw a (entry_of-mark_all m chain)
      ])

  pub Distinct-mark_all : (chain : List (Tblentry F B)) → Distinct chain → Distinct (mark_all chain)
  unfolding Distinct mark_all
  Distinct-mark_all [] d = d
  Distinct-mark_all (cmdp ∷ chain) d = (
    ap (λ x. entry_of x (mark_all chain)) (mark_name cmdp)
        ∙ entry_of-mark_all cmdp.cmdname chain
        ∙ ap (changed mark) d.0,
    Distinct-mark_all chain d.1,
  )

  pub entry_of-drop_cached :
      (m : Bytes) (chain : List (Tblentry F B))
      → Distinct chain
      → entry_of m (drop_cached chain) ≡ kept (entry_of m chain)
  unfolding entry_of drop_cached Distinct
  entry_of-drop_cached m [] d = refl
  entry_of-drop_cached m (cmdp ∷ chain) d = elim (Bool-cases (bytes_eq cmdp.cmdname m)) [
    | inl a ↦ elim (Bool-cases (is_cached cmdp.cmd)) [
      | inl b ↦
          rw (a, b)
            (entry_of-drop_cached m chain d.1
              ∙ ap kept
                  (subst (λ x. entry_of x chain ≡ none) ((bytes_eq_iff cmdp.cmdname m).0 a) d.0))
      | inr b ↦ rw (a, b, a) refl
    ]
    | inr a ↦ elim (Bool-cases (is_cached cmdp.cmd)) [
      | inl b ↦ rw (a, b) (entry_of-drop_cached m chain d.1)
      | inr b ↦ rw (a, b, a) (entry_of-drop_cached m chain d.1)
    ]
  ]

  pub Distinct-drop_cached :
      (chain : List (Tblentry F B)) → Distinct chain → Distinct (drop_cached chain)
  unfolding Distinct drop_cached
  Distinct-drop_cached [] d = d
  Distinct-drop_cached (cmdp ∷ chain) d = elim (Bool-cases (is_cached cmdp.cmd)) [
    | inl b ↦ rw b (Distinct-drop_cached chain d.1)
    | inr b ↦
        rw b (
          entry_of-drop_cached cmdp.cmdname chain d.1 ∙ ap kept d.0,
          Distinct-drop_cached chain d.1,
        )
  ]
