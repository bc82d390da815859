-- ===== src/Expand/Pmatch/Correct.antt =====
-- pmatch without flags against the reference: its single star to go back to is enough.
use gwsh.Base.{
  ℕ, zero, suc, ◌≡◌, ◌∙◌, ◌⊎◌, inl, inr, refl, sym, ap, subst, Bool, true, false, ◌||◌, Option,
  none, some, List, [], ◌∷◌, Bytes, if◌then◌else◌, length, arith, if_cases,
}
use gwsh.Expand.Bracket.{Ctype, getc}
use gwsh.Expand.Pmatch.{
  Star, Pointers, Step, match_is, next, wild, no_fuel, no_pm_flags, Found, found, reads_past_end,
  out_of_fuel, broken, step, rounds, initial_pointers, bound, pmatch,
}
use gwsh.Expand.Pmatch.Total.{pmatch_ends}
use gwsh.Expand.Pmatch.Reference.{Item, any_text, one, any_suffix, glob, Means}
use gwsh.Expand.Pmatch.Rounds.{take_char, at_end, Follows, step-Follows}

any_suffix_here : (f : Bytes → Bool) (s : Bytes) → f s ≡ true → any_suffix f s ≡ true
any_suffix_here f [] h = h
any_suffix_here f (c ∷ s) h = ground (arith, h)

-- A suffix of a suffix is a suffix.
any_suffix-any_suffix :
    (f : Bytes → Bool) (s : Bytes) → any_suffix (any_suffix f) s ≡ true → any_suffix f s ≡ true
any_suffix-any_suffix f [] h = h
any_suffix-any_suffix f (c ∷ s) h = ground (arith, any_suffix-any_suffix f s)

-- An item that takes one character, before some suffix, leaves a suffix that is shorter.
any_suffix-one :
    (f : ℕ → Bool) (is : List Item) (s : Bytes)
    → any_suffix (glob (one f ∷ is)) s ≡ true
    → any_suffix (glob is) s ≡ true
any_suffix-one f is [] h = cc
any_suffix-one f is (c ∷ s) h = ground (arith, any_suffix_here (glob is) s, any_suffix-one f is s)

any_suffix-tail :
    (f : ℕ → Bool) (is : List Item) (c : ℕ) (s : Bytes)
    → any_suffix (glob (one f ∷ is)) (c ∷ s) ≡ true
    → any_suffix (glob is) s ≡ true
any_suffix-tail f is c s h = ground (arith, any_suffix_here (glob is) s, any_suffix-one f is s)

-- What the last star can still reach, from where it was tried.
abbrev beyond : List Item → Bytes → Bool
beyond js [] = false
beyond js (c ∷ s) = any_suffix (glob js) s

beyond_or : (js : List Item) (s : Bytes) → (glob js s || beyond js s) ≡ any_suffix (glob js) s
beyond_or js [] = ground arith
beyond_or js (c ∷ s) = refl

beyond_any : (js : List Item) (s : Bytes) → beyond js s ≡ true → any_suffix (glob js) s ≡ true
beyond_any js [] h = cc
beyond_any js (c ∷ s) h = ground (arith, h)

abbrev later : List Item → Option Star → Bool
later js none = false
later js (some star) = beyond js star.aq

module _ (ctype : Ctype) (pattern : Bytes) (answer : Bool) where
  abbrev StarMeans : Option Star → List Item → Type 0
  StarMeans none js = Unit
  StarMeans (some star) js = Means ctype star.ap js

  -- The answer is that of what is left, or of the last star; and the last star can reach no more than a
  -- star that would stand here.
  abbrev Leads : Pointers → Bytes → List Item → List Item → Type 0
  Leads k q is js =
      StarMeans k.star js
      × ((glob is q || later js k.star) ≡ answer)
      × (later js k.star ≡ true → any_suffix (glob is) q ≡ true)
      × (k.r ≡ none)

  abbrev Right : Step → Type 0
  Right (match_is r) = r ≡ (if answer then some [] else none)
  Right (next k) = (is : List Item) × (js : List Item) × Means ctype k.p is × Leads k k.q is js
  Right wild = ⊥
  Right no_fuel = ⊥

  broken-Right :
      (k : Pointers) (star : Option Star) (js : List Item)
      → StarMeans star js
      → later js star ≡ answer
      → k.r ≡ none
      → Right (broken ctype pattern no_pm_flags k star)
  unfolding getc
  broken-Right k none js m e r = r ∙ ap (λ b. if b then some [] else none) e
  broken-Right k (some star) js m e r = at star.ap star.aq m e
    where
      at :
          (ap aq : Bytes)
          → Means ctype ap js
          → beyond js aq ≡ answer
          → Right (broken ctype pattern no_pm_flags k (some (record { ap = ap; aq = aq })))
      at ap' [] m e = r ∙ ap (λ b. if b then some [] else none) e
      at ap' (c ∷ aq) m e = (js, js, m, (m, beyond_or js aq ∙ e, beyond_any js aq, r))

  take_char-Right :
      (k : Pointers) (f : ℕ → Bool) (p q : Bytes) (is js : List Item)
      → Means ctype p is
      → Leads k q (one f ∷ is) js
      → Right (take_char ctype pattern k f p q)
  take_char-Right k f p [] is js m l = broken-Right k k.star js l.0 l.1 l.3
  take_char-Right k f p (chr ∷ q) is js m l =
      if_cases Right (f chr)
        (λ yes'. (
          is,
          js,
          m,
          (l.0, ground (arith, yes', l.1), (λ h. any_suffix-tail f is chr q (l.2 h)), l.3),
        ))
        (λ no'. broken-Right k k.star js l.0 (ground (arith, no', l.1)) l.3)

  at_end-Right :
      (k : Pointers) (q : Bytes) (js : List Item)
      → k.q ≡ q
      → Leads k q [] js
      → Right (at_end ctype pattern k q)
  at_end-Right k [] js e l = ap some e ∙ ap (λ b. if b then some [] else none) l.1
  at_end-Right k (c ∷ q) js e l = broken-Right k k.star js l.0 l.1 l.3

  star-Right :
      (k : Pointers) (p : Bytes) (is js : List Item)
      → Means ctype p is
      → Leads k k.q (any_text ∷ is) js
      → Right (next (record k { p = p; star = some (record { ap = p; aq = k.q }) }))
  star-Right k p is js m l = (
    is,
    is,
    m,
    (
      m,
      beyond_or is k.q ∙ ground (arith, l.1, l.2, any_suffix-any_suffix (glob is) k.q),
      beyond_any is k.q,
      l.3,
    ),
  )

  -- The round that goes with the first item.
  round-Right :
      (k : Pointers) (is js : List Item)
      → Means ctype k.p is
      → Leads k k.q is js
      → Right (step ctype pattern no_pm_flags k k.p)
  round-Right k [] js m l =
      subst Right
        (sym (
          subst (Follows ctype pattern k k.q (step ctype pattern no_pm_flags k k.p)) m
            (step-Follows ctype pattern k k.p)))
        (at_end-Right k k.q js refl l)
  round-Right k (any_text ∷ is) js (p, e, m) l =
      subst Right
        (sym (
          subst (Follows ctype pattern k k.q (step ctype pattern no_pm_flags k k.p)) e
            (step-Follows ctype pattern k k.p)))
        (star-Right k p is js m l)
  round-Right k (one f ∷ is) js (p, e, m) l =
      subst Right
        (sym (
          subst (Follows ctype pattern k k.q (step ctype pattern no_pm_flags k k.p)) e
            (step-Follows ctype pattern k k.p)))
        (take_char-Right k f p k.q is js m l)

  abbrev result : Found
  result = found (if answer then some [] else none)

  rounds-Right :
      (f : ℕ) (k : Pointers) (is js : List Item)
      → Means ctype k.p is
      → Leads k k.q is js
      → (rounds ctype pattern no_pm_flags f k ≡ out_of_fuel)
        ⊎ (rounds ctype pattern no_pm_flags f k ≡ result)
  unfolding rounds
  rounds-Right zero k is js m l = inl refl
  rounds-Right (suc f) k is js m l =
      after (step ctype pattern no_pm_flags k k.p) (round-Right k is js m l)
        λ k' is' js' m' l'. rounds-Right f k' is' js' m' l'
    where
      after :
          (st : Step)
          → Right st
          → ((k' : Pointers) (is' js' : List Item)
              → Means ctype k'.p is'
              → Leads k' k'.q is' js'
              → (rounds ctype pattern no_pm_flags f k' ≡ out_of_fuel)
                ⊎ (rounds ctype pattern no_pm_flags f k' ≡ result))
          → ((elim st as (λ _. Found) [
            | match_is r ↦ found r
            | next k' ↦ rounds ctype pattern no_pm_flags f k'
            | wild ↦ reads_past_end
            | no_fuel ↦ out_of_fuel
          ])
              ≡ out_of_fuel)
            ⊎ ((elim st as (λ _. Found) [
              | match_is r ↦ found r
              | next k' ↦ rounds ctype pattern no_pm_flags f k'
              | wild ↦ reads_past_end
              | no_fuel ↦ out_of_fuel
            ])
                ≡ result)
      after (match_is r) h ih = inr (ap found h)
      after (next k') (is', js', m', l') ih = ih k' is' js' m' l'
      after wild h ih = elim h [ ]
      after no_fuel h ih = elim h [ ]

-- pmatch without flags, on a pattern that does not end inside of an item, returns the end of the string
-- exactly if the items of the pattern match the whole string, and NULL otherwise. It never reads
-- behind the end of either.
pub pmatch-glob :
    (ctype : Ctype) (pattern string : Bytes) (is : List Item)
    → Means ctype pattern is
    → pmatch ctype pattern string no_pm_flags ≡ found (if glob is string then some [] else none)
unfolding pmatch
pmatch-glob ctype pattern string is m =
    elim (rounds-Right ctype pattern (glob is string) (suc (bound (length pattern) (length string)))
      (initial_pointers ctype pattern no_pm_flags string) is [] m
      (tt, ground arith, (λ h. cc), refl)) [
        | inl stops ↦ absurd (pmatch_ends ctype pattern string no_pm_flags stops)
        | inr e ↦ e
      ]
