-- ===== src/Cd/Stacked.antt =====
-- src/cd.c: texts of names behind a root, as updatepwd has them on the stack.
use gwsh.Base.{
  ℕ, suc, ◌≤◌, ◌≡◌, ◌∙◌, refl, sym, ap, subst, false, List, [], ◌∷◌, Bytes, ◌==◌, length, arith,
  bytes_eq, if_split,
}
use gwsh.Cd.{reverse_onto, drop_last, put_slash, put_name, dot, dot_dot}

-- No byte is a slash.
abbrev pub IsPlain : Bytes → Type 0
IsPlain [] = Unit
IsPlain (c ∷ s) = ((c == b'/') ≡ false) × IsPlain s

-- A name that a normal path can have: not empty, without slashes, and neither . nor ..
abbrev pub IsName : Bytes → Type 0
IsName [] = ⊥
IsName (c ∷ s) =
    IsPlain (c ∷ s) × (bytes_eq (c ∷ s) dot ≡ false) × (bytes_eq (c ∷ s) dot_dot ≡ false)

abbrev pub AreNames : List Bytes → Type 0
AreNames [] = Unit
AreNames (n ∷ ns) = IsName n × AreNames ns

-- The text on the stack for some names, the last one first, behind the slashes at the start.
abbrev pub stacked : Bytes → List Bytes → Bytes
stacked root [] = root
stacked root (n ∷ ns) = put_name n (stacked root ns)

length-reverse_onto : (s t : Bytes) → length t ≤ length (reverse_onto s t)
unfolding reverse_onto
length-reverse_onto [] t = omega arith
length-reverse_onto (c ∷ s) t = omega (arith, length-reverse_onto s (c ∷ t))

length-put_slash : (s : Bytes) → length s ≤ length (put_slash s)
length-put_slash [] = omega arith
length-put_slash (c ∷ s) =
    let same : suc (length s) ≤ length (c ∷ s) = omega arith in
    let more : suc (length s) ≤ length (b'/' ∷ c ∷ s) = omega arith in
    if_split (λ (t : Bytes). suc (length s) ≤ length t) (c == b'/') same more

-- Dropping goes on over the bytes of a name.
drop_last-reverse_onto :
    (lim : ℕ) (s t : Bytes)
    → IsPlain s
    → lim ≤ length t
    → drop_last lim (reverse_onto s t) ≡ drop_last lim t
unfolding drop_last reverse_onto
drop_last-reverse_onto lim [] t plain h = refl
drop_last-reverse_onto lim (c ∷ s) t plain h =
    drop_last-reverse_onto lim s (c ∷ t) plain.1 (omega arith) ∙ ground (arith, plain.0)

put_slash-reverse_onto :
    (s t : Bytes) (c : ℕ)
    → IsPlain s
    → (c == b'/') ≡ false
    → put_slash (reverse_onto s (c ∷ t)) ≡ b'/' ∷ reverse_onto s (c ∷ t)
unfolding reverse_onto
put_slash-reverse_onto [] t c plain h = rw h refl
put_slash-reverse_onto (d ∷ s) t c plain h = put_slash-reverse_onto s (c ∷ t) d plain.1 plain.0

pub drop_last_short : (lim : ℕ) (s : Bytes) → length s ≤ lim → drop_last lim s ≡ s
unfolding drop_last
drop_last_short lim [] h = refl
drop_last_short lim (c ∷ s) h = ground arith

drop_last_slash : (lim : ℕ) (s : Bytes) → lim ≤ length s → drop_last lim (b'/' ∷ s) ≡ s
unfolding drop_last
drop_last_slash lim s h = ground arith

-- The text is that of some names behind the root.
abbrev pub Stacked : Bytes → Bytes → Type 0
Stacked root new = (ns : List Bytes) × AreNames ns × (new ≡ stacked root ns)

module _ (root : Bytes) (slash : put_slash root ≡ root) (lim : ℕ) (fits : lim ≤ length root) where
  length-stacked : (ns : List Bytes) → length root ≤ length (stacked root ns)
  length-stacked [] = omega arith
  length-stacked (n ∷ ns) = omega (
    arith,
    length-stacked ns,
    length-put_slash (stacked root ns),
    length-reverse_onto n (put_slash (stacked root ns)),
  )

  drop_last-put_slash :
      (n : Bytes) (ns : List Bytes)
      → AreNames (n ∷ ns)
      → drop_last lim (put_slash (stacked root (n ∷ ns))) ≡ stacked root (n ∷ ns)
  unfolding reverse_onto
  drop_last-put_slash [] ns h = elim h.0 [ ]
  drop_last-put_slash (c ∷ s) ns h =
      let bottom = put_slash (stacked root ns) in
      ap (drop_last lim) (put_slash-reverse_onto s bottom c h.0.0.1 h.0.0.0)
      ∙ drop_last_slash lim (reverse_onto s (c ∷ bottom)) (
          omega (
            arith,
            fits,
            length-stacked ns,
            length-put_slash (stacked root ns),
            length-reverse_onto s (c ∷ bottom),
          ))

  drop_last-name :
      (n : Bytes) (ns : List Bytes)
      → AreNames (n ∷ ns)
      → drop_last lim (stacked root (n ∷ ns)) ≡ drop_last lim (put_slash (stacked root ns))
  drop_last-name [] ns h = elim h.0 [ ]
  drop_last-name (c ∷ s) ns h =
      drop_last-reverse_onto lim (c ∷ s) (put_slash (stacked root ns)) h.0.0
        (omega (arith, fits, length-stacked ns, length-put_slash (stacked root ns)))

  -- What holds of the bottom, and of the text of the names, holds of what is left of them.
  pub drops :
      (S : Bytes → Type 0)
      → S (drop_last lim root)
      → ((ns : List Bytes) → AreNames ns → S (stacked root ns))
      → (ns : List Bytes) → AreNames ns
      → S (drop_last lim (stacked root ns))
  drops S bottom holds [] h = bottom
  drops S bottom holds (n ∷ []) h =
      subst S (ap (drop_last lim) (sym slash) ∙ sym (drop_last-name n [] h)) bottom
  drops S bottom holds (n ∷ m ∷ ns) h =
      subst S (sym (drop_last-put_slash m ns h.1) ∙ sym (drop_last-name n (m ∷ ns) h))
        (holds (m ∷ ns) h.1)

-- The texts that the loop of updatepwd keeps to.
pub record Kept (lim : ℕ) (S : Bytes → Type 0) : Type 0 where
  pub puts : (new name : Bytes) → S new → IsName name → S (put_name name new)
  pub drops_one : (new : Bytes) → S new → S (drop_last lim new)

pub puts-Stacked :
    (root new name : Bytes) → Stacked root new → IsName name → Stacked root (put_name name new)
puts-Stacked root new name (ns, h, e) is = (name ∷ ns, (is, h), ap (put_name name) e)

pub Stacked-Kept : (root : Bytes) → put_slash root ≡ root → Kept (length root) (Stacked root)
Stacked-Kept root slash = record {
  puts = puts-Stacked root;
  drops_one = λ new (ns, h, e).
      subst (λ t. Stacked root (drop_last (length root) t)) (sym e)
        (drops root slash (length root) (omega arith) (Stacked root)
          ([], tt, drop_last_short (length root) root (omega arith)) (λ ms k. (ms, k, refl)) ns h);
}
