-- ===== src/Redir/Nested.antt =====
-- unwindredir undoes redirections that stand inside of each other.
use gwsh.Base.{ℕ, zero, suc, ◌∙◌, refl, false, Option, List, [], ◌∷◌, Bytes, length}
use gwsh.Base.Run.{Outcome, ok, err, Ends-bind}
use gwsh.Redir.System.{Os, IsOs}
use gwsh.Redir.Saved.{Saves-same}
use gwsh.Redir.{Redir, State, Error, popredir, unwindredir}
use gwsh.Redir.Undo.{
  Under, AreDigits, push_and_redirect, push_and_redirect-Under, popredir-Back, Back, Ends-Back,
}

module _ {K : Type 0} (os : Os K) (is_os : IsOs os) where
  unfoldable pub push_all : (Bytes → Option Bytes) → List (List Redir) → State K → State K
  push_all expand [] st = st
  push_all expand (ns ∷ nss) st = push_all expand nss (push_and_redirect os is_os expand ns st)

  abbrev pub AllDigits : List (List Redir) → Type 0
  AllDigits [] = Unit
  AllDigits ([] ∷ nss) = ⊥
  AllDigits ((n ∷ ns) ∷ nss) = AreDigits os is_os (n ∷ ns) × AllDigits nss

  abbrev Returns : State K → Outcome Error (State K) Unit → Type 0
  Returns st o = Ends-Back os is_os st o

  -- The table that was pushed first is popped last.
  unwindredir-suc :
      (n : ℕ) (st st₁ st' : State K)
      → Under os is_os (os.at st.os) st.redirlist st₁
      → Returns st₁ (unwindredir os n false st')
      → Returns st (unwindredir os (suc n) false st')
  unfolding unwindredir
  unwindredir-suc zero st st₁ st' (t, l, s) h =
      Ends-bind (λ _ u. Back os is_os st u) (λ _ u. Back os is_os st u) (λ _ _. ⊥)
        (popredir os false) _ st'
        (popredir-Back os is_os st st'
          (t, h.1 ∙ l, Saves-same t (os.at st₁.os) (os.at st'.os) (os.at st.os) h.0 s))
        λ _ u b. b
  unwindredir-suc (suc n) st st₁ st' u h =
      by (popredir os false st') h λ s h'. unwindredir-suc n st st₁ s u h'
    where
      by :
          (o : Outcome Error (State K) Unit)
          → Returns st₁ (elim o as (λ _. Outcome Error (State K) Unit) [
            | ok _ s ↦ unwindredir os n false s
            | err e s ↦ err e s
          ])
          → ((s : State K)
              → Returns st₁ (unwindredir os n false s)
              → Returns st (unwindredir os (suc n) false s))
          → Returns st (elim o as (λ _. Outcome Error (State K) Unit) [
            | ok _ s ↦ unwindredir os (suc n) false s
            | err e s ↦ err e s
          ])
      by (ok a s) h ih = ih s h
      by (err e s) h ih = h

  -- Redirections are made inside of each other, each after pushredir, and some of them may fail, anywhere.
  -- Then unwindredir gives every descriptor back that was open, closes the others, and leaves no
  -- copy open; redirlist is what it was. Redirections are for descriptors below 10.
  pub unwindredir_restores :
      (expand : Bytes → Option Bytes) (nss : List (List Redir)) (st : State K)
      → AllDigits nss
      → Ends-Back os is_os st (unwindredir os (length nss) false (push_all expand nss st))
  unfolding push_all unwindredir
  unwindredir_restores expand [] st d = ((λ i. refl), refl)
  unwindredir_restores expand ([] ∷ nss) st d = elim d [ ]
  unwindredir_restores expand ((n ∷ ns) ∷ nss) st d =
      let st₁ = push_and_redirect os is_os expand (n ∷ ns) st in
      unwindredir-suc (length nss) st st₁ (push_all expand nss st₁)
        (push_and_redirect-Under os is_os expand n ns st d.0)
        (unwindredir_restores expand nss st₁ d.1)
