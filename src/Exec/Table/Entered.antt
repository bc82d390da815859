-- ===== src/Exec/Table/Entered.antt =====
-- What is written to an entry after a lookup that adds it is what is read.
use gwsh.Base.{ℕ, zero, suc, ◌≡◌, ◌∙◌, refl, sym, ap, true, List, [], ◌∷◌, Bytes}
use gwsh.Exec.Table.{
  Tblentry, Commands, bucket, position, entry_at, last_entry, put_chain, append_if_none, cmdlookup,
  set_entry, write_at,
}
use gwsh.Exec.Table.Lookup.{
  entry_of, changed, or_new, entry_at-position, entry_of-append, position-append, bytes_eq_refl,
}
use gwsh.Exec.Table.Maps.{put_chain_here}

module _ {F B : Type 0} where
  entry_at-write_at :
      (f : Tblentry F B → Tblentry F B) (n : ℕ) (chain : List (Tblentry F B))
      → entry_at n (write_at n f chain) ≡ changed f (entry_at n chain)
  unfolding entry_at write_at
  entry_at-write_at f zero [] = refl
  entry_at-write_at f (suc n) [] = refl
  entry_at-write_at f zero (cmdp ∷ chain) = refl
  entry_at-write_at f (suc n) (cmdp ∷ chain) = entry_at-write_at f n chain

  entry_at-added :
      (name : Bytes) (chain : List (Tblentry F B))
      → entry_at (position name chain) (append_if_none name (entry_of name chain) chain)
        ≡ or_new name (entry_of name chain)
  entry_at-added name chain =
      ap (λ k. entry_at k (append_if_none name (entry_of name chain) chain))
        (sym (position-append name chain))
      ∙ entry_at-position name (append_if_none name (entry_of name chain) chain)
      ∙ entry_of-append name name chain
      ∙ (rw (bytes_eq_refl name) refl)

  pub last_entry-entered :
      {S : Type 0} (f : Tblentry F B → Tblentry F B) (name : Bytes) (st : Commands F B S)
      → last_entry (set_entry f (cmdlookup name true st))
        ≡ changed f (or_new name (entry_of name (st.cmdtable (bucket name))))
  unfolding set_entry cmdlookup
  last_entry-entered f name st =
      let chain : List (Tblentry F B) = st.cmdtable (bucket name) in
      let n : ℕ = position name chain in
      ap (entry_at n) (put_chain_here (bucket name) _ ((cmdlookup name true st).cmdtable))
      ∙ entry_at-write_at f n (put_chain (bucket name) _ st.cmdtable (bucket name))
      ∙ ap (λ c. changed f (entry_at n c)) (put_chain_here (bucket name) _ st.cmdtable)
      ∙ ap (λ o. changed f (entry_at n (append_if_none name o chain)))
          (entry_at-position name chain)
      ∙ ap (changed f) (entry_at-added name chain)
