-- ===== src/Exec/Table/Maps.antt =====
-- The finite map from names to commands that the table of src/exec.c stands for, with its operations.
use gwsh.Base.{
  bools_apart, ℕ, ◌≡◌, ◌∙◌, refl, sym, ap, subst, true, false, Option, none, some, List, Bytes,
  ◌==◌, if◌then◌else◌, if_cases, if_split, bytes_eq, bytes_eq_iff, Bool-cases, inl, inr, ==_iff,
}
use gwsh.Exec.Table.{
  Cmd, unknown, normal, function, builtin, Tblentry, Commands, bucket, put_chain, is_function,
  is_cached, is_normal, mark, entry_is,
}
use gwsh.Exec.Table.Lookup.{entry_of, Distinct, changed, or_new}
use gwsh.Exec.Table.Sweep.{kept}

abbrev pub cmd_of : {F B : Type 0} → Option (Tblentry F B) → Option (Cmd F B)
cmd_of none = none
cmd_of (some cmdp) = some cmdp.cmd

-- Each chain has a name once, and `map` gives the command of each name.
abbrev pub Refines : {F B S : Type 0} → Commands F B S → (Bytes → Option (Cmd F B)) → Type 0
Refines st map =
    ((i : ℕ) → Distinct (st.cmdtable i))
    × ((m : Bytes) → cmd_of (entry_of m (st.cmdtable (bucket m))) ≡ map m)

-- What the operations do to the map.
abbrev pub with_command :
    {F B : Type 0} → Bytes → Cmd F B → (Bytes → Option (Cmd F B)) → Bytes → Option (Cmd F B)
with_command n cmd map m = if bytes_eq n m then some cmd else map m

abbrev pub not_function : {F B : Type 0} → Option (Cmd F B) → Option (Cmd F B)
not_function none = none
not_function (some unknown) = some unknown
not_function (some (normal i)) = some (normal i)
not_function (some (function f)) = none
not_function (some (builtin b)) = some (builtin b)

abbrev pub without_function :
    {F B : Type 0} → Bytes → (Bytes → Option (Cmd F B)) → Bytes → Option (Cmd F B)
without_function n map m = if bytes_eq n m then not_function (map m) else map m

abbrev pub not_cached : {F B : Type 0} → Option (Cmd F B) → Option (Cmd F B)
not_cached none = none
not_cached (some unknown) = some unknown
not_cached (some (normal i)) = none
not_cached (some (function f)) = some (function f)
not_cached (some (builtin b)) = none

module _ {F B : Type 0} where
  pub put_chain_here :
      (i : ℕ) (chain : List (Tblentry F B)) (table : ℕ → List (Tblentry F B))
      → put_chain i chain table i ≡ chain
  put_chain_here i chain table =
      if_cases (λ (c : List (Tblentry F B)). c ≡ chain) (i == i) (λ _. refl)
        (λ h. absurd (bools_apart (sym ((==_iff i i).1 refl) ∙ h)))

  -- A chain is put in, in which the entry of `n` is another.
  pub entry_of-put_chain :
      (n m : Bytes) (chain : List (Tblentry F B)) (table : ℕ → List (Tblentry F B))
      (r : Option (Tblentry F B))
      → entry_of m chain ≡ (if bytes_eq n m then r else entry_of m (table (bucket n)))
      → entry_of m (put_chain (bucket n) chain table (bucket m))
        ≡ (if bytes_eq n m then r else entry_of m (table (bucket m)))
  entry_of-put_chain n m chain table r h = elim (Bool-cases (bytes_eq n m)) [
    | inl c ↦
        let same : bucket n ≡ bucket m = ap bucket ((bytes_eq_iff n m).0 c) in
        subst
          (λ i.
            entry_of m (put_chain (bucket n) chain table i)
            ≡ (if bytes_eq n m then r else entry_of m (table i)))
          same (ap (entry_of m) (put_chain_here (bucket n) chain table) ∙ h)
    | inr c ↦ elim (Bool-cases (bucket m == bucket n)) [
      | inl e ↦
          let same : bucket n ≡ bucket m = sym ((==_iff (bucket m) (bucket n)).0 e) in
          subst
            (λ i.
              entry_of m (put_chain (bucket n) chain table i)
              ≡ (if bytes_eq n m then r else entry_of m (table i)))
            same (ap (entry_of m) (put_chain_here (bucket n) chain table) ∙ h)
      | inr e ↦ rw (e, c) refl
    ]
  ]

  pub Distinct-put_chain :
      (i j : ℕ) (chain : List (Tblentry F B)) (table : ℕ → List (Tblentry F B))
      → Distinct chain
      → Distinct (table j)
      → Distinct (put_chain i chain table j)
  Distinct-put_chain i j chain table d d' = if_split Distinct (j == i) d d'

  gone_by : (cmd : Cmd F B) → is_function cmd ≡ true → not_function (some cmd) ≡ none
  gone_by unknown h = absurd (bools_apart (sym h))
  gone_by (normal i) h = absurd (bools_apart (sym h))
  gone_by (function f) h = refl
  gone_by (builtin b) h = absurd (bools_apart (sym h))

  stays_by : (cmd : Cmd F B) → is_function cmd ≡ false → not_function (some cmd) ≡ some cmd
  stays_by unknown h = refl
  stays_by (normal i) h = refl
  stays_by (function f) h = absurd (bools_apart h)
  stays_by (builtin b) h = refl

  kept_by :
      (cmd : Cmd F B) (cmdp : Tblentry F B)
      → cmd_of (if is_cached cmd then none else some (record cmdp { cmd = cmd }))
        ≡ not_cached (some cmd)
  kept_by unknown cmdp = refl
  kept_by (normal i) cmdp = refl
  kept_by (function f) cmdp = refl
  kept_by (builtin b) cmdp = refl

  pub function_gone :
      (o : Option (Tblentry F B)) → entry_is is_function o ≡ true → not_function (cmd_of o) ≡ none
  function_gone none h = refl
  function_gone (some cmdp) h = gone_by cmdp.cmd h

  pub function_kept :
      (o : Option (Tblentry F B))
      → entry_is is_function o ≡ false
      → not_function (cmd_of o) ≡ cmd_of o
  function_kept none h = refl
  function_kept (some cmdp) h = stays_by cmdp.cmd h

  pub cmd_of-mark : (o : Option (Tblentry F B)) → cmd_of (changed mark o) ≡ cmd_of o
  cmd_of-mark none = refl
  cmd_of-mark (some cmdp) =
      elim (is_normal cmdp.cmd)
        as (λ b. some (if b then record cmdp { rehash = true } else cmdp).cmd ≡ some cmdp.cmd) [
          | true ↦ refl
          | false ↦ refl
        ]

  pub cmd_of-kept : (o : Option (Tblentry F B)) → cmd_of (kept o) ≡ not_cached (cmd_of o)
  cmd_of-kept none = refl
  cmd_of-kept (some cmdp) = kept_by cmdp.cmd cmdp

  pub cmd_of-changed :
      (n : Bytes) (cmd : Cmd F B) (o : Option (Tblentry F B))
      → cmd_of (changed (λ cmdp. record cmdp { cmd = cmd; rehash = false }) (or_new n o)) ≡ some cmd
  cmd_of-changed n cmd none = refl
  cmd_of-changed n cmd (some cmdp) = refl
