-- ===== src/Exec/Table/Lookup.antt =====
-- The chains of the table of commands, by the names in them.
use gwsh.Base.{
  suc, ◌≡◌, ◌≢◌, ◌∙◌, refl, sym, ap, subst, Bool, true, false, Option, none, some, List, [], ◌∷◌,
  ◌++◌, Bytes, if◌then◌else◌, if_cases, bytes_eq, bytes_eq_iff, bytes_eq_sym, Option-cases,
  Bool-cases, inl, inr,
}
use gwsh.Exec.Table.{Tblentry, position, entry_at, remove_at, write_at, new_entry, append_if_none}

-- The entry of a name.
unfoldable pub entry_of : {F B : Type 0} → Bytes → List (Tblentry F B) → Option (Tblentry F B)
entry_of name [] = none
entry_of name (cmdp ∷ chain) =
    let rest = entry_of name chain in if bytes_eq cmdp.cmdname name then some cmdp else rest

-- No two entries have one name.
unfoldable pub Distinct : {F B : Type 0} → List (Tblentry F B) → Type 0
unfolding entry_of
Distinct [] = Unit
Distinct (cmdp ∷ chain) = (entry_of cmdp.cmdname chain ≡ none) × Distinct chain

abbrev pub changed :
    {F B : Type 0} → (Tblentry F B → Tblentry F B) → Option (Tblentry F B) → Option (Tblentry F B)
changed f none = none
changed f (some cmdp) = some (f cmdp)

some_none : {A : Type 0} {a : A} → some a ≢ none
some_none h = cc

pub bytes_eq_refl : (s : Bytes) → bytes_eq s s ≡ true
bytes_eq_refl s = (bytes_eq_iff s s).1 refl

if_none : {A : Type 0} (b : Bool) → ◌≡◌ {A = Option A} (if b then none else none) none
if_none true = refl
if_none false = refl

bytes_eq_subst : (x n m : Bytes) → bytes_eq x n ≡ true → bytes_eq x m ≡ bytes_eq n m
bytes_eq_subst x n m h = ap (λ y. bytes_eq y m) ((bytes_eq_iff x n).0 h)

bytes_eq_apart : (x n m : Bytes) → bytes_eq x n ≡ false → bytes_eq n m ≡ true → bytes_eq x m ≡ false
bytes_eq_apart x n m h e = subst (λ y. bytes_eq x y ≡ false) ((bytes_eq_iff n m).0 e) h

abbrev pub or_new : {F B : Type 0} → Bytes → Option (Tblentry F B) → Option (Tblentry F B)
or_new n none = some (new_entry n)
or_new n (some cmdp) = some cmdp

module _ {F B : Type 0} where
  entry_of-end :
      (n m : Bytes) (chain : List (Tblentry F B))
      → entry_of n chain ≡ none
      → entry_of m (chain ++ (new_entry n ∷ []))
        ≡ (if bytes_eq n m then some (new_entry n) else entry_of m chain)
  unfolding entry_of
  entry_of-end n m [] h = refl
  entry_of-end n m (cmdp ∷ chain) h = elim (Bool-cases (bytes_eq cmdp.cmdname n)) [
    | inl a ↦ absurd (some_none (sym (ap (λ b. if b then some cmdp else entry_of n chain) a) ∙ h))
    | inr a ↦
        let h' = sym (ap (λ b. if b then some cmdp else entry_of n chain) a) ∙ h in
        elim (Bool-cases (bytes_eq n m)) [
          | inl c ↦ rw (bytes_eq_apart cmdp.cmdname n m a c) (entry_of-end n m chain h')
          | inr c ↦ elim (Bool-cases (bytes_eq cmdp.cmdname m)) [
            | inl b ↦ rw (b, c) refl
            | inr b ↦ rw b (entry_of-end n m chain h')
          ]
        ]
  ]

  Distinct-end :
      (n : Bytes) (chain : List (Tblentry F B))
      → entry_of n chain ≡ none
      → Distinct chain
      → Distinct (chain ++ (new_entry n ∷ []))
  unfolding Distinct entry_of
  Distinct-end n [] h d = (refl, tt)
  Distinct-end n (cmdp ∷ chain) h d = elim (Bool-cases (bytes_eq cmdp.cmdname n)) [
    | inl a ↦ absurd (some_none (sym (ap (λ b. if b then some cmdp else entry_of n chain) a) ∙ h))
    | inr a ↦
        let h' = sym (ap (λ b. if b then some cmdp else entry_of n chain) a) ∙ h in
        (
          entry_of-end n cmdp.cmdname chain h' ∙ (rw (bytes_eq_sym n cmdp.cmdname, a) d.0),
          Distinct-end n chain h' d.1,
        )
  ]

  position-end :
      (n : Bytes) (chain : List (Tblentry F B))
      → entry_of n chain ≡ none
      → position n (chain ++ (new_entry n ∷ [])) ≡ position n chain
  unfolding position entry_of
  position-end n [] h = rw (bytes_eq_refl n) refl
  position-end n (cmdp ∷ chain) h = elim (Bool-cases (bytes_eq cmdp.cmdname n)) [
    | inl a ↦ rw a refl
    | inr a ↦ rw a (
        ap suc
          (position-end n chain (sym (ap (λ b. if b then some cmdp else entry_of n chain) a) ∙ h)))
  ]

  pub entry_at-position :
      (name : Bytes) (chain : List (Tblentry F B))
      → entry_at (position name chain) chain ≡ entry_of name chain
  unfolding entry_at position entry_of
  entry_at-position name [] = refl
  entry_at-position name (cmdp ∷ chain) = elim (Bool-cases (bytes_eq cmdp.cmdname name)) [
    | inl here ↦ rw here refl
    | inr other ↦ rw other (entry_at-position name chain)
  ]

  pub entry_of-write_at :
      (f : Tblentry F B → Tblentry F B) (n m : Bytes) (chain : List (Tblentry F B))
      → ((cmdp : Tblentry F B) → (f cmdp).cmdname ≡ cmdp.cmdname)
      → entry_of m (write_at (position n chain) f chain)
        ≡ (if bytes_eq n m then changed f (entry_of m chain) else entry_of m chain)
  unfolding position entry_of write_at
  entry_of-write_at f n m [] keep = sym (if_none (bytes_eq n m))
  entry_of-write_at f n m (cmdp ∷ chain) keep = elim (Bool-cases (bytes_eq cmdp.cmdname n)) [
    | inl a ↦
        rw
          (
            a,
            ap (λ x. bytes_eq x m) (keep cmdp) ∙ bytes_eq_subst cmdp.cmdname n m a,
            bytes_eq_subst cmdp.cmdname n m a,
          )
          (elim (Bool-cases (bytes_eq n m)) [ inl c ↦ rw c refl | inr c ↦ rw c refl ])
    | inr a ↦ elim (Bool-cases (bytes_eq n m)) [
      | inl c ↦ rw (a, bytes_eq_apart cmdp.cmdname n m a c) (entry_of-write_at f n m chain keep)
      | inr c ↦ elim (Bool-cases (bytes_eq cmdp.cmdname m)) [
        | inl b ↦ rw (a, b, c) refl
        | inr b ↦ rw (a, b) (entry_of-write_at f n m chain keep)
      ]
    ]
  ]

  pub entry_of-remove_at :
      (n m : Bytes) (chain : List (Tblentry F B))
      → Distinct chain
      → entry_of m (remove_at (position n chain) chain)
        ≡ (if bytes_eq n m then none else entry_of m chain)
  unfolding position entry_of remove_at Distinct
  entry_of-remove_at n m [] d = sym (if_none (bytes_eq n m))
  entry_of-remove_at n m (cmdp ∷ chain) d = elim (Bool-cases (bytes_eq cmdp.cmdname n)) [
    | inl a ↦ elim (Bool-cases (bytes_eq n m)) [
      | inl c ↦
          rw (a, c)
            (subst (λ x. entry_of x chain ≡ none)
              (((bytes_eq_iff cmdp.cmdname n).0 a) ∙ (bytes_eq_iff n m).0 c) d.0)
      | inr c ↦ rw (a, bytes_eq_subst cmdp.cmdname n m a, c) refl
    ]
    | inr a ↦ elim (Bool-cases (bytes_eq n m)) [
      | inl c ↦ rw (a, bytes_eq_apart cmdp.cmdname n m a c) (entry_of-remove_at n m chain d.1)
      | inr c ↦ elim (Bool-cases (bytes_eq cmdp.cmdname m)) [
        | inl b ↦ rw (a, b, c) refl
        | inr b ↦ rw (a, b) (entry_of-remove_at n m chain d.1)
      ]
    ]
  ]

  pub entry_of-append :
      (n m : Bytes) (chain : List (Tblentry F B))
      → entry_of m (append_if_none n (entry_of n chain) chain)
        ≡ (if bytes_eq n m then or_new n (entry_of n chain) else entry_of m chain)
  entry_of-append n m chain = elim (Option-cases (entry_of n chain)) [
    | inl h ↦ rw h (entry_of-end n m chain h)
    | inr (cmdp, h) ↦ rw h (
        if_cases (λ o. entry_of m chain ≡ o) (bytes_eq n m)
          (λ c. ap (λ x. entry_of x chain) (sym ((bytes_eq_iff n m).0 c)) ∙ h) (λ _. refl))
  ]

  pub Distinct-append :
      (n : Bytes) (chain : List (Tblentry F B))
      → Distinct chain
      → Distinct (append_if_none n (entry_of n chain) chain)
  Distinct-append n chain d = elim (Option-cases (entry_of n chain)) [
    | inl h ↦ rw h (Distinct-end n chain h d)
    | inr (cmdp, h) ↦ rw h d
  ]

  pub position-append :
      (n : Bytes) (chain : List (Tblentry F B))
      → position n (append_if_none n (entry_of n chain) chain) ≡ position n chain
  position-append n chain = elim (Option-cases (entry_of n chain)) [
    | inl h ↦ rw h (position-end n chain h)
    | inr (cmdp, h) ↦ rw h refl
  ]

  -- What writes an entry and keeps its name, and what takes one out, leave the names distinct.
  pub Distinct-write_at :
      (f : Tblentry F B → Tblentry F B) (n : Bytes) (chain : List (Tblentry F B))
      → ((cmdp : Tblentry F B) → (f cmdp).cmdname ≡ cmdp.cmdname)
      → Distinct chain
      → Distinct (write_at (position n chain) f chain)
  unfolding Distinct position write_at
  Distinct-write_at f n [] keep d = d
  Distinct-write_at f n (cmdp ∷ chain) keep d = elim (Bool-cases (bytes_eq cmdp.cmdname n)) [
    | inl a ↦ rw a (ap (λ x. entry_of x chain) (keep cmdp) ∙ d.0, d.1)
    | inr a ↦ rw a (
      entry_of-write_at f n cmdp.cmdname chain keep ∙ (rw (bytes_eq_sym n cmdp.cmdname, a) d.0),
      Distinct-write_at f n chain keep d.1,
    )
  ]

  pub Distinct-remove_at :
      (n : Bytes) (chain : List (Tblentry F B))
      → Distinct chain
      → Distinct (remove_at (position n chain) chain)
  unfolding Distinct position remove_at
  Distinct-remove_at n [] d = d
  Distinct-remove_at n (cmdp ∷ chain) d = elim (Bool-cases (bytes_eq cmdp.cmdname n)) [
    | inl a ↦ rw a d.1
    | inr a ↦ rw a (
      entry_of-remove_at n cmdp.cmdname chain d.1 ∙ (rw (bytes_eq_sym n cmdp.cmdname, a) d.0),
      Distinct-remove_at n chain d.1,
    )
  ]
