-- ===== src/Options/Nextopt/Progress.antt =====
-- src/options.c: what each call of nextopt reads, and that something is read.
use gwsh.Base.{
  ℕ, suc, ◌+◌, ◌<◌, ◌≡◌, ◌≢◌, ◌⊎◌, ◌∙◌, refl, sym, ap, subst, Bool, true, false, not, Option, none,
  some, List, [], ◌∷◌, Bytes, codes, length, arith, if◌then◌else◌, if_cases, Bool-cases,
  Option-cases, inl, inr, ◌==◌,
}
use gwsh.Options.Nextopt.{
  Reader, Opt, option, at_end, illegal_option, no_arg, wants_arg, with_arg, read_letter, new_word,
  next_in, nextopt,
}

-- The bytes of the arguments that are left, with their NULs.
abbrev pub args_size : List Bytes → ℕ
args_size [] = 0
args_size (a ∷ args) = suc (length a + args_size args)

abbrev pub word_size : Option Bytes → ℕ
word_size none = 0
word_size (some p) = length p

abbrev pub size : Reader → ℕ
size r = word_size r.optptr + args_size r.argptr

-- An option string is a list of letters, with a colon behind those that take an argument.
unfoldable pub letters : Bytes → List (ℕ × Bool)
letters [] = []
letters (o ∷ []) = (o, false) ∷ []
letters (o ∷ k ∷ rest) =
    let plain = letters (k ∷ rest) in
    let past = letters rest in if k == b':' then (o, true) ∷ past else (o, false) ∷ plain

-- Whether the letter takes an argument, where it is in the list.
unfoldable pub wanted : ℕ → List (ℕ × Bool) → Option Bool
wanted c [] = none
wanted c ((o, arg) ∷ rest) = if o == c then some arg else wanted c rest

-- The last word of options is used up.
abbrev pub IsDone : Option Bytes → Type 0
IsDone o = (o ≡ none) ⊎ (o ≡ some [])

-- The next letter is `c`, `p` stands behind it in its word, and `args` are the arguments behind that
-- word: it goes on with a word of options, or begins one, which is not `--`.
abbrev pub Starts : Reader → ℕ → Bytes → List Bytes → Type 0
Starts r c p args =
    ((r.optptr ≡ some (c ∷ p)) × (r.argptr ≡ args))
    ⊎ (IsDone r.optptr × (r.argptr ≡ (b'-' ∷ c ∷ p) ∷ args) × ((c ∷ p) ≢ b'-' ∷ []))

-- The arguments do not begin with a word of options.
abbrev pub NoOption : List Bytes → Type 0
NoOption [] = Unit
NoOption ([] ∷ args) = Unit
NoOption ((m ∷ []) ∷ args) = Unit
NoOption ((m ∷ c ∷ p) ∷ args) = m ≢ b'-'

-- What is left where the letter takes no argument, and where it takes one: the text behind it in its
-- word, or, where that is empty, the next argument.
abbrev pub Plain : Reader → Bytes → List Bytes → Reader → Type 0
Plain r p args r' = r' ≡ record { argptr = args; optptr = some p; optionarg = r.optionarg }

abbrev pub WithArg : Bytes → List Bytes → Reader → Type 0
WithArg p args r' =
    (r'.optptr ≡ none)
    × (((p ≢ []) × (r'.optionarg ≡ some p) × (r'.argptr ≡ args))
        ⊎ ((p ≡ []) × ((a : Bytes) × (r'.optionarg ≡ some a) × (args ≡ a ∷ r'.argptr))))

abbrev pub Reads : Bytes → Reader → Opt → Type 0
Reads optstring r (option c r') =
    (size r' < size r)
    × ((p : Bytes) × (args : List Bytes) × Starts r c p args
        × (((wanted c (letters optstring) ≡ some false) × Plain r p args r')
            ⊎ ((wanted c (letters optstring) ≡ some true) × WithArg p args r')))
Reads optstring r (at_end r') =
    IsDone r.optptr
    × (((r' ≡ r) × NoOption r.argptr)
        ⊎ ((r' ≡ record r { argptr = r'.argptr }) × (r.argptr ≡ codes "--" ∷ r'.argptr)))
Reads optstring r (illegal_option c) =
    (p : Bytes) × (args : List Bytes) × Starts r c p args × (wanted c (letters optstring) ≡ none)
Reads optstring r (no_arg c) = Starts r c [] [] × (wanted c (letters optstring) ≡ some true)

wants_arg-wanted : (c : ℕ) (s : Bytes) → wants_arg c s ≡ wanted c (letters s)
unfolding wants_arg letters wanted
wants_arg-wanted c [] = refl
wants_arg-wanted c (o ∷ []) = refl
wants_arg-wanted c (o ∷ k ∷ rest) = elim (Bool-cases (k == b':')) [
  | inl e ↦ rw (e, wants_arg-wanted c rest) refl
  | inr e ↦ rw (e, wants_arg-wanted c (k ∷ rest)) refl
]

Starts-size :
    (r : Reader) (c : ℕ) (p : Bytes) (args : List Bytes)
    → Starts r c p args
    → length p + args_size args < size r
Starts-size r c p args (inl (e, e')) =
    let word = ap word_size e in let all = ap args_size e' in omega (arith, word, all)
Starts-size r c p args (inr (done, e, plain)) = let all = ap args_size e in omega (arith, all)

module _ (optstring : Bytes) (r : Reader) where
  with_arg-Reads :
      (c : ℕ) (p : Bytes) (args : List Bytes)
      → Starts r c p args
      → wanted c (letters optstring) ≡ some true
      → Reads optstring r (with_arg c p args)
  with_arg-Reads c (d ∷ p) args st e =
      let less = Starts-size r c (d ∷ p) args st in
      (omega (arith, less), (d ∷ p, args, st, inr (e, (refl, inl (λ q. cc, refl, refl)))))
  with_arg-Reads c [] [] st e = (st, e)
  with_arg-Reads c [] (a ∷ args) st e =
      let less = Starts-size r c [] (a ∷ args) st in
      (omega (arith, less), ([], a ∷ args, st, inr (e, (refl, inr (refl, (a, refl, refl))))))

  read_letter-Reads :
      (c : ℕ) (p : Bytes) (args : List Bytes)
      → Starts r c p args
      → Reads optstring r (read_letter optstring c p (record r { argptr = args }))
  read_letter-Reads c p args st = elim (Option-cases (wants_arg c optstring)) [
    | inl e ↦ rw e (p, args, st, same ∙ e)
    | inr (true, e) ↦ rw e (with_arg-Reads c p args st (same ∙ e))
    | inr (false, e) ↦ rw e (Starts-size r c p args st, (p, args, st, inl (same ∙ e, refl)))
  ]
    where
      same : wanted c (letters optstring) ≡ wants_arg c optstring
      same = sym (wants_arg-wanted c optstring)

  -- A word of options begins.
  word-Reads :
      (m c : ℕ) (p : Bytes) (args : List Bytes)
      → IsDone r.optptr
      → r.argptr ≡ (m ∷ c ∷ p) ∷ args
      → not (m == b'-') ≡ false
      → (c ∷ p) ≢ b'-' ∷ []
      → Reads optstring r (read_letter optstring c p (record r { argptr = args }))
  word-Reads m c p args done e dash plain =
      read_letter-Reads c p args
        (inr (done, e ∙ ap (λ k. (k ∷ c ∷ p) ∷ args) (is_dash m dash), plain))
    where
      is_dash : (k : ℕ) → not (k == b'-') ≡ false → k ≡ b'-'
      is_dash k h = ground arith

  new_word-Reads :
      (args : List Bytes)
      → IsDone r.optptr
      → r.argptr ≡ args
      → Reads optstring r (new_word optstring r args)
  new_word-Reads [] done e = (done, inl (refl, subst NoOption (sym e) tt))
  new_word-Reads ([] ∷ args) done e = (done, inl (refl, subst NoOption (sym e) tt))
  new_word-Reads ((m ∷ []) ∷ args) done e = (done, inl (refl, subst NoOption (sym e) tt))
  new_word-Reads ((m ∷ c ∷ []) ∷ args) done e =
      if_cases (Reads optstring r) (not (m == b'-'))
        (λ h. (done, inl (refl, subst NoOption (sym e) (λ q. ground arith))))
        (λ dash.
          if_cases (Reads optstring r) (c == b'-') (λ h. (done, inr (refl, e ∙ two m c dash h)))
            (λ h. word-Reads m c [] args done e dash (λ q. one c h q)))
    where
      two :
          (m c : ℕ)
          → not (m == b'-') ≡ false
          → (c == b'-') ≡ true
          → (m ∷ c ∷ []) ∷ args ≡ codes "--" ∷ args
      two m c h k =
          let hm : m ≡ b'-' = ground arith in let hc : c ≡ b'-' = ground arith in rw (hm, hc) refl

      one : (c : ℕ) → (c == b'-') ≡ false → (c ∷ []) ≡ b'-' ∷ [] → ⊥
      one c h q = let same : c ≡ b'-' = cc in ground arith
  new_word-Reads ((m ∷ c ∷ d ∷ p) ∷ args) done e =
      if_cases (Reads optstring r) (not (m == b'-'))
        (λ h. (done, inl (refl, subst NoOption (sym e) (λ q. ground arith))))
        (λ dash. word-Reads m c (d ∷ p) args done e dash (λ q. cc))

  next_in-Reads : (o : Option Bytes) → r.optptr ≡ o → Reads optstring r (next_in optstring r o)
  next_in-Reads none e = new_word-Reads r.argptr (inl e) refl
  next_in-Reads (some []) e = new_word-Reads r.argptr (inr e) refl
  next_in-Reads (some (c ∷ p)) e = read_letter-Reads c p r.argptr (inl (e, refl))

-- Each call of nextopt reads the next letter of the word of options that it is in, or begins the next
-- word, where that is one. A letter that the option string has without a colon is given and its word
-- goes on; one that it has with a colon is given with its argument, the rest of the word, or the next
-- argument where the word ends; in both cases less is left to read. A letter that the string lacks is
-- reported as illegal, and one with a colon at the end of the last word as without its argument. The
-- options end, with no word left unfinished, in front of an argument that is not a word of options, or
-- behind `--`.
pub nextopt-Reads : (optstring : Bytes) (r : Reader) → Reads optstring r (nextopt optstring r)
unfolding nextopt
nextopt-Reads optstring r = next_in-Reads optstring r r.optptr refl
