-- ===== src/Var/Name.antt =====
-- src/var.c and src/var.h: varcmp and hashval, which read a text up to its first `=` behind the first
-- byte, or up to NUL.
use gwsh.Base.{
  ◌&&◌, ◌||◌, ℕ, ◌+◌, ◌*◌, ◌%◌, ◌^◌, ◌≡◌, refl, Bool, true, false, arith, [], ◌∷◌, Bytes, bytes_eq,
  ◌==◌, bytes_eq_iff, bytes_eq_sym, sym, ap, ◌∙◌, if◌then◌else◌,
}

-- `=` ends a name as NUL does.
abbrev pub stop : ℕ → ℕ
stop c = if c == b'=' then 0 else c

-- The loop of varcmp, with the bytes at hand and what follows them.
unfoldable pub varequal_loop : ℕ → Bytes → ℕ → Bytes → Bool
varequal_loop c [] d [] = c == d
varequal_loop c [] d (q ∷ qs) = c == d && (c == 0 || stop q == 0)
varequal_loop c (p ∷ ps) d [] = c == d && (c == 0 || stop p == 0)
varequal_loop c (p ∷ ps) d (q ∷ qs) =
    let rest = varequal_loop (stop p) ps (stop q) qs in c == d && (c == 0 || rest)

-- !varcmp(a, b)
unfoldable pub varequal : Bytes → Bytes → Bool
unfolding varequal_loop
varequal [] [] = true
varequal [] (d ∷ q) = d == 0
varequal (c ∷ p) [] = c == 0
varequal (c ∷ p) (d ∷ q) = varequal_loop c p d q

-- unsigned int
abbrev unsigned_mod : ℕ
unsigned_mod = 2 ^ 32

-- The rest of the loop of hashval, behind the first byte.
unfoldable pub hash_loop : ℕ → Bytes → ℕ
hash_loop h [] = h
hash_loop h (c ∷ s) =
    let more = hash_loop ((h + c) % unsigned_mod) s in if stop c == 0 then h else more

unfoldable pub hashval : Bytes → ℕ
unfolding hash_loop
hashval [] = 0
hashval (c ∷ s) = let more = hash_loop ((c * 16 + c) % unsigned_mod) s in if c == 0 then 0 else more

-- The bytes that count: the first, and those before the next `=`.
abbrev pub until_eq : Bytes → Bytes
until_eq [] = []
until_eq (c ∷ s) = if stop c == 0 then [] else c ∷ until_eq s

abbrev pub key : Bytes → Bytes
key [] = []
key (c ∷ s) = if c == 0 then [] else c ∷ until_eq s

-- The hash is that of the bytes that count.
hash_loop-until_eq : (h : ℕ) (s : Bytes) → hash_loop h (until_eq s) ≡ hash_loop h s
unfolding hash_loop
hash_loop-until_eq h [] = refl
hash_loop-until_eq h (c ∷ s) = ground (arith, hash_loop-until_eq ((h + c) % unsigned_mod) s)

pub hashval-key : (s : Bytes) → hashval (key s) ≡ hashval s
unfolding hashval
hashval-key [] = refl
hashval-key (c ∷ s) = ground (arith, hash_loop-until_eq ((c * 16 + c) % unsigned_mod) s)

-- Behind the end of both names nothing is compared.
varequal_loop-ends : (p q : Bytes) → varequal_loop 0 p 0 q ≡ true
unfolding varequal_loop
varequal_loop-ends [] [] = refl
varequal_loop-ends [] (q ∷ qs) = refl
varequal_loop-ends (p ∷ ps) [] = refl
varequal_loop-ends (p ∷ ps) (q ∷ qs) = refl

-- Bytes that differ end the loop.
varequal_loop-differ :
    (c : ℕ) (p : Bytes) (d : ℕ) (q : Bytes) → (c == d) ≡ false → varequal_loop c p d q ≡ false
unfolding varequal_loop
varequal_loop-differ c [] d [] h = ground arith
varequal_loop-differ c [] d (q ∷ qs) h = ground arith
varequal_loop-differ c (p ∷ ps) d [] h = ground arith
varequal_loop-differ c (p ∷ ps) d (q ∷ qs) h = ground arith

varequal_loop-key :
    (c : ℕ) (p : Bytes) (d : ℕ) (q : Bytes)
    → (c == 0) ≡ false
    → (d == 0) ≡ false
    → varequal_loop c p d q ≡ (c == d && bytes_eq (until_eq p) (until_eq q))
unfolding varequal_loop bytes_eq
varequal_loop-key c [] d [] hc hd = ground arith
varequal_loop-key c [] d (q ∷ qs) hc hd = ground arith
varequal_loop-key c (p ∷ ps) d [] hc hd = ground arith
varequal_loop-key c (p ∷ ps) d (q ∷ qs) hc hd = ground (
  arith,
  varequal_loop-ends ps qs,
  varequal_loop-differ (stop p) ps (stop q) qs,
  varequal_loop-key (stop p) ps (stop q) qs,
)

-- Two texts are equal to varcmp exactly if the bytes that count are.
pub varequal-key : (a b : Bytes) → varequal a b ≡ bytes_eq (key a) (key b)
unfolding varequal bytes_eq
varequal-key [] [] = refl
varequal-key [] (d ∷ q) = ground arith
varequal-key (c ∷ p) [] = ground arith
varequal-key (c ∷ p) (d ∷ q) =
    ground (arith, varequal_loop-ends p q, varequal_loop-differ c p d q, varequal_loop-key c p d q)

-- Names that varcmp takes for equal have the same hash, so that they stand in the same chain of a table.
pub varequal-hashval : (a b : Bytes) → varequal a b ≡ true → hashval a ≡ hashval b
varequal-hashval a b h =
    sym (hashval-key a)
    ∙ ap hashval ((bytes_eq_iff (key a) (key b)).0 (sym (varequal-key a b) ∙ h))
    ∙ hashval-key b

-- A name that is equal to another can take its place.
pub varequal-subst : (m n a : Bytes) → varequal n a ≡ true → varequal m a ≡ varequal m n
varequal-subst m n a h =
    varequal-key m a
    ∙ ap (bytes_eq (key m)) (sym ((bytes_eq_iff (key n) (key a)).0 (sym (varequal-key n a) ∙ h)))
    ∙ sym (varequal-key m n)

pub varequal_sym : (a b : Bytes) → varequal a b ≡ varequal b a
varequal_sym a b = varequal-key a b ∙ bytes_eq_sym (key a) (key b) ∙ sym (varequal-key b a)

pub varequal_refl : (a : Bytes) → varequal a a ≡ true
varequal_refl a = varequal-key a a ∙ (bytes_eq_iff (key a) (key a)).1 refl

pub varequal-agree : (m n a : Bytes) → varequal m n ≡ true → varequal m a ≡ varequal n a
varequal-agree m n a h = varequal_sym m a ∙ sym (varequal-subst a m n h) ∙ varequal_sym a n
