-- ===== src/Options/Getopts/Bounds.antt =====
-- src/options.c: getopts keeps its index and its place inside the arguments.
use gwsh.Base.{
  ℕ, zero, suc, ◌+◌, ◌-◌, ◌≤◌, ◌<◌, ◌≡◌, refl, Bool, true, false, Option, none, some, List, [], ◌∷◌,
  Bytes, length, arith, if_split, if_cases, Option-cases, inl, inr, not, ◌&&◌, ◌||◌, ◌==◌, leb, ltb,
  Bool-cases, head_byte,
}
use gwsh.Options.Getopts.{
  Result, word_at, drop, advance, found, is_dash, rest_of_word, resume, off_or, getoptscmd,
}
use gwsh.Options.Nextopt.{wants_arg}

-- The index lies in 1 .. count + 1, and where there is a place, it is at most the length of the word
-- before the index.
abbrev PlaceIn : Option ℕ → Option Bytes → Type 0
PlaceIn none word = Unit
PlaceIn (some off) none = ⊥
PlaceIn (some off) (some w) = off ≤ length w

abbrev pub InBounds : List Bytes → ℕ → Option ℕ → Type 0
InBounds args ind off = (1 ≤ ind) × (ind ≤ length args + 1) × PlaceIn off (word_at args (ind - 2))

word_at-lt : (args : List Bytes) (i : ℕ) (w : Bytes) → word_at args i ≡ some w → i < length args
word_at-lt [] i w e = cc
word_at-lt (a ∷ args) zero w e = omega arith
word_at-lt (a ∷ args) (suc i) w e = omega (arith, word_at-lt args i w e)

place :
    (args : List Bytes) (ind k off : ℕ) (w : Bytes)
    → ind - 2 ≡ k
    → word_at args k ≡ some w
    → off ≤ length w
    → PlaceIn (some off) (word_at args (ind - 2))
place args ind k off w e word h = rw (e, word) h

-- One letter, read at `off` in the word with index `k`.
found-InBounds :
    (optstr : Bytes) (args : List Bytes) (c k off : ℕ) (p w : Bytes) (wants : Option Bool)
    → word_at args k ≡ some w
    → off ≤ length w
    → let r = found optstr args c (k + 1) off p wants in InBounds args r.ind r.off
found-InBounds optstr args c k off p w none word h =
    let b = place args (k + 1 + 1) k off w (omega arith) word h in
    let i = word_at-lt args k w word in
    if_split (λ (r : Result). InBounds args r.ind r.off) (head_byte optstr == b':')
      (omega arith, omega arith, b) (omega arith, omega arith, b)
found-InBounds optstr args c k off p w (some false) word h = (
  omega arith,
  omega (arith, word_at-lt args k w word),
  place args (k + 1 + 1) k off w (omega arith) word h,
)
found-InBounds optstr args c k off (d ∷ p) w (some true) word h =
    (omega arith, omega (arith, word_at-lt args k w word), tt)
found-InBounds optstr args c k off [] w (some true) word h =
    elim (Option-cases (word_at args (k + 1))) [
      | inl e ↦ rw e (
          let i = word_at-lt args k w word in
          if_split (λ (r : Result). InBounds args r.ind r.off) (head_byte optstr == b':')
            (omega arith, omega arith, tt) (omega arith, omega arith, tt))
      | inr (a, e) ↦ rw e (omega arith, omega (arith, word_at-lt args (k + 1) a e), tt)
    ]

-- A new word, at the index `k`.
advance-InBounds :
    (optstr : Bytes) (args : List Bytes) (k : ℕ) (word : Option Bytes)
    → k ≤ length args
    → word_at args k ≡ word
    → let r = advance optstr args k word in InBounds args r.ind r.off
unfolding advance
advance-InBounds optstr args k none h e = (omega arith, omega arith, tt)
advance-InBounds optstr args k (some []) h e = (omega arith, omega arith, tt)
advance-InBounds optstr args k (some (m ∷ [])) h e = (omega arith, omega arith, tt)
advance-InBounds optstr args k (some (m ∷ c ∷ p)) h e =
    let i = word_at-lt args k (m ∷ c ∷ p) e in
    if_split (λ (r : Result). InBounds args r.ind r.off) (not (m == b'-'))
      (omega arith, omega arith, tt)
      (if_split (λ (r : Result). InBounds args r.ind r.off) (c == b'-' && is_dash p)
        (omega arith, omega arith, tt)
        (found-InBounds optstr args c k 2 p (m ∷ c ∷ p) (wants_arg c optstr) e (omega arith)))

drop-some : (n : ℕ) (s : Bytes) {c : ℕ} {p : Bytes} → drop n s ≡ c ∷ p → n + 1 ≤ length s
drop-some zero [] e = cc
drop-some zero (x ∷ s) e = omega arith
drop-some (suc n) [] e = cc
drop-some (suc n) (x ∷ s) e = omega (arith, drop-some n s e)

nil-ne-cons : {c : ℕ} {p : Bytes} → ¬ (◌≡◌ {A = Bytes} [] (c ∷ p))
nil-ne-cons e = cc

-- What is left of a word that was begun lies in that word, which stands before the index.
rest-some :
    (args : List Bytes) (ind : ℕ) (off : Option ℕ) (word : Option Bytes) {c : ℕ} {p : Bytes}
    → rest_of_word ind off word ≡ c ∷ p
    → (w : Bytes) × (word ≡ some w) × (off_or off + 1 ≤ length w) × (2 ≤ ind)
rest-some args ind none word e = cc
rest-some args ind (some off) none e = cc
rest-some args ind (some off) (some w) e = elim (Bool-cases (leb ind 1 || ltb (length w) off)) [
  | inl b ↦ absurd (nil-ne-cons (rw b at e))
  | inr b ↦ (w, refl, drop-some off w (rw b at e), ground arith)
]

resume-InBounds :
    (optstr : Bytes) (args : List Bytes) (ind : ℕ) (off : Option ℕ) (s : Bytes)
    → 1 ≤ ind
    → ind ≤ length args + 1
    → rest_of_word ind off (word_at args (ind - 2)) ≡ s
    → let r = resume optstr args ind off s in InBounds args r.ind r.off
resume-InBounds optstr args ind off [] lo hi e =
    advance-InBounds optstr args (ind - 1) (word_at args (ind - 1)) (omega arith) refl
resume-InBounds optstr args ind off (c ∷ p) lo hi e =
    let (w, word, here, two) = rest-some args ind off (word_at args (ind - 2)) e in
    let next : ind - 1 ≡ ind - 2 + 1 = omega arith in
    rw next
      (found-InBounds optstr args c (ind - 2) (off_or off + 1) p w (wants_arg c optstr) word here)

-- Whatever OPTIND and the place were, the new ones lie inside the arguments.
pub getoptscmd-InBounds :
    (optstr : Bytes) (args : List Bytes) (ind : ℕ) (off : Option ℕ)
    → let r = getoptscmd optstr args ind off in InBounds args r.ind r.off
unfolding getoptscmd
getoptscmd-InBounds optstr args ind off =
    if_cases (λ (r : Result). InBounds args r.ind r.off) (ind == 0 || ltb (length args) (ind - 1))
      (λ _. resume-InBounds optstr args 1 none [] (omega arith) (omega arith) refl)
      (λ e. resume-InBounds optstr args ind off _ (ground arith) (ground arith) refl)
