-- ===== src/Expand/Pmatch/Rounds.antt =====
-- What a round of pmatch does, without flags, by the first item of what is left of the pattern.
use gwsh.Base.{
  ℕ, suc, ◌≡◌, ◌∙◌, refl, sym, ap, subst, Bool, true, false, some, [], ◌∷◌, Bytes, ◌==◌,
  if◌then◌else◌, head_byte, tail_bytes, length,
}
use gwsh.Expand.Bracket.{
  Ctype, Got, got, at_nul, getc, Bracket, closed, no_bracket, bracket_wild, bracket_fuel,
  bracket_loop,
}
use gwsh.Expand.Bracket.Ends.{if_split_both, end_of, bracket_loop-Same}
use gwsh.Expand.Pmatch.{
  Pointers, Step, match_is, next, no_pm_flags, broken, dft2, dft0, backslash, any_char, bracketed,
  enter_bracket, pattern_end, step,
}
use gwsh.Expand.Pmatch.Reference.{
  Parsed, text, single, pattern_ends, cut_off, is, literal, quoted, in_set, set_of, set_from,
  first_item,
}

module _ (ctype : Ctype) (pattern : Bytes) where
  abbrev pub take_char : Pointers → (ℕ → Bool) → Bytes → Bytes → Step
  take_char k f p [] = broken ctype pattern no_pm_flags k k.star
  take_char k f p (chr ∷ q) =
      if f chr then next (record k { p = p; q = q }) else broken ctype pattern no_pm_flags k k.star

  abbrev pub at_end : Pointers → Bytes → Step
  at_end k [] = match_is (some k.q)
  at_end k (c ∷ q) = broken ctype pattern no_pm_flags k k.star

  -- The round for an item, where `q` is what is left of the string.
  abbrev pub Follows : Pointers → Bytes → Step → Parsed → Type 0
  Follows k q st cut_off = Unit
  Follows k q st pattern_ends = st ≡ at_end k q
  Follows k q st (text p) =
      st ≡ next (record k { p = p; star = some (record { ap = p; aq = k.q }) })
  Follows k q st (single f p) = st ≡ take_char k f p q

  dft2-take_char :
      (k : Pointers) (c : ℕ) (p q : Bytes)
      → dft2 ctype pattern no_pm_flags k c p (getc false q) ≡ take_char k (is c) p q
  unfolding getc
  dft2-take_char k c p [] = refl
  dft2-take_char k c p (chr ∷ q) = refl

  any_char-take_char :
      (k : Pointers) (p q : Bytes)
      → any_char ctype pattern no_pm_flags k p (getc false q) ≡ take_char k (λ chr. true) p q
  unfolding getc
  any_char-take_char k p [] = refl
  any_char-take_char k p (chr ∷ q) = refl

  pattern_end-at_end :
      (k : Pointers) (q : Bytes) → pattern_end ctype pattern no_pm_flags k q ≡ at_end k q
  pattern_end-at_end k [] = refl
  pattern_end-at_end k (c ∷ q) = refl

  literal-Follows :
      (k : Pointers) (g : Got) → Follows k k.q (dft0 ctype pattern no_pm_flags k g) (literal g)
  literal-Follows k at_nul = tt
  literal-Follows k (got c p) = dft2-take_char k c p k.q

  quoted-Follows :
      (k : Pointers) (p : Bytes)
      → Follows k k.q (backslash ctype pattern no_pm_flags k p) (quoted p)
  quoted-Follows k [] = dft2-take_char k b'\\' [] k.q
  quoted-Follows k (c ∷ p) = literal-Follows k (getc true (c ∷ p))

  -- The answer of a set does not matter for what kind of item it is.
  set_of-end_of :
      (startp : Bytes) (f : ℕ → Bool) (b : Bracket) → set_of startp f b ≡ set_of startp f (end_of b)
  set_of-end_of startp f (closed hit p) = refl
  set_of-end_of startp f no_bracket = refl
  set_of-end_of startp f bracket_wild = refl
  set_of-end_of startp f bracket_fuel = refl

  set_nul-Follows :
      (k : Pointers) (startp : Bytes) (f : ℕ → Bool) (b : Bracket)
      → Follows k [] (broken ctype pattern no_pm_flags k k.star) (set_of startp f b)
  set_nul-Follows k startp f (closed hit p) = refl
  set_nul-Follows k startp f no_bracket = refl
  set_nul-Follows k startp f bracket_wild = tt
  set_nul-Follows k startp f bracket_fuel = tt

  set_char-Follows :
      (k : Pointers) (startp : Bytes) (f : ℕ → Bool) (invert : Bool) (chr : ℕ) (q : Bytes)
      (b : Bracket)
      → f chr ≡ in_set invert b
      → Follows k
          (chr ∷ q)
          (bracketed ctype pattern no_pm_flags k startp invert chr q b)
          (set_of startp f b)
  set_char-Follows k startp f true chr q (closed true p) e = rw e refl
  set_char-Follows k startp f true chr q (closed false p) e = rw e refl
  set_char-Follows k startp f false chr q (closed true p) e = rw e refl
  set_char-Follows k startp f false chr q (closed false p) e = rw e refl
  set_char-Follows k startp f invert chr q no_bracket e = refl
  set_char-Follows k startp f invert chr q bracket_wild e = tt
  set_char-Follows k startp f invert chr q bracket_fuel e = tt

  set-Follows :
      (k : Pointers) (startp : Bytes) (invert : Bool) (q : Bytes)
      → Follows k q
          (enter_bracket ctype pattern no_pm_flags k startp invert (getc false q))
          (set_from ctype startp invert)
  unfolding getc
  set-Follows k startp invert [] =
      let p = if invert then tail_bytes startp else startp in
      set_nul-Follows k startp
        (λ chr. in_set invert (bracket_loop (suc (length p)) ctype chr p false))
        (bracket_loop (suc (length p)) ctype 0 p false)
  set-Follows k startp invert (chr ∷ q) =
      let p = if invert then tail_bytes startp else startp in
      let b : ℕ → Bracket = λ c. bracket_loop (suc (length p)) ctype c p false in
      let f : ℕ → Bool = λ c. in_set invert (b c) in
      subst
        (Follows k (chr ∷ q) (bracketed ctype pattern no_pm_flags k startp invert chr q (b chr)))
        (set_of-end_of startp f (b chr)
          ∙ ap (set_of startp f) (bracket_loop-Same (suc (length p)) ctype chr 0 p false false)
          ∙ sym (set_of-end_of startp f (b 0)))
        (set_char-Follows k startp f invert chr q (b chr) refl)

  pub step-Follows :
      (k : Pointers) (p : Bytes)
      → Follows k k.q (step ctype pattern no_pm_flags k p) (first_item ctype p)
  unfolding step first_item
  step-Follows k [] = pattern_end-at_end k k.q
  step-Follows k (c ∷ p) = if_split_both (Follows k k.q) (c == b'\\') (quoted-Follows k p) (
      if_split_both (Follows k k.q) (c == b'?') (any_char-take_char k p k.q) (
        if_split_both (Follows k k.q) (c == b'*') refl (
          if_split_both (Follows k k.q) (c == b'[') (set-Follows k p (head_byte p == b'!') k.q)
            (literal-Follows k (getc true (c ∷ p))))))
