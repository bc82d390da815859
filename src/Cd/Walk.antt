-- ===== src/Cd/Walk.antt =====
-- src/cd.c: the loop of updatepwd keeps to normal paths.
use gwsh.Base.{
  ℕ, zero, suc, ◌≤◌, ◌<◌, ◌≡◌, refl, Bool, [], ◌∷◌, Bytes, ◌==◌, if◌then◌else◌, length, arith,
  tail_bytes, bytes_eq, if_cases, if_split,
}
use gwsh.Cd.Stacked.{IsPlain, Kept}
use gwsh.Cd.{
  before_slash, from_slash, reverse_onto, drop_last, put_name, dot, dot_dot, Updated, pwd_is,
  cannot_stat, null_pointer, out_of_fuel, walk,
}

-- The result is a text of which S holds, or one of the errors that come from outside.
abbrev pub Normal : (Bytes → Type 0) → Updated → Type 0
Normal S (pwd_is s) = (new : Bytes) × S new × (s ≡ reverse_onto new [])
Normal S out_of_fuel = ⊥
Normal S null_pointer = ⊥
Normal S _ = Unit

before_slash-IsPlain : (p : Bytes) → IsPlain (before_slash p)
unfolding before_slash
before_slash-IsPlain [] = tt
before_slash-IsPlain (c ∷ p) =
    if_cases IsPlain (c == b'/') (λ h. tt) (λ h. (h, before_slash-IsPlain p))

pub length-tail_bytes : (s : Bytes) → length (tail_bytes s) ≤ length s
length-tail_bytes [] = omega arith
length-tail_bytes (c ∷ s) = omega arith

length-from_slash : (p : Bytes) → length (from_slash p) ≤ length p
unfolding from_slash
length-from_slash [] = omega arith
length-from_slash (c ∷ p) =
    let shorter : length (from_slash p) ≤ suc (length p) = omega (arith, length-from_slash p) in
    let same : length (c ∷ p) ≤ suc (length p) = omega arith in
    if_split (λ (s : Bytes). length s ≤ suc (length p)) (c == b'/') same shorter

module _ (lim : ℕ) (S : Bytes → Type 0) (kept : Kept lim S) (exists : Bytes → Bool) where
  -- The rest of the walk, with less fuel.
  abbrev Rest : ℕ → Type 0
  Rest f = (new p : Bytes) → S new → length p < f → Normal S (walk f exists lim new p)

  next-Normal :
      (f : ℕ) (new end : Bytes)
      → S new
      → length end ≤ f
      → Rest f
      → Normal S (elim end as (λ _. Updated) [
        | [] ↦ pwd_is (reverse_onto new [])
        | c ∷ s ↦ walk f exists lim new (tail_bytes end)
      ])
  next-Normal f new [] h hf rest = (new, h, refl)
  next-Normal f new (c ∷ s) h hf rest = rest new s h (omega arith)

  past-Normal :
      (f : ℕ) (new p end : Bytes)
      → S new
      → length end ≤ length p
      → length p ≤ f
      → Rest f
      → Normal S (elim end as (λ _. Updated) [
        | [] ↦ pwd_is (reverse_onto new [])
        | c ∷ s ↦ walk f exists lim new (tail_bytes p)
      ])
  past-Normal f new p [] h he hf rest = (new, h, refl)
  past-Normal f new [] (c ∷ s) h he hf rest = absurd (omega arith)
  past-Normal f new (d ∷ p) (c ∷ s) h he hf rest = rest new p h (omega arith)

  pub walk-Normal :
      (f : ℕ) (new p : Bytes) → S new → length p < f → Normal S (walk f exists lim new p)
  unfolding walk
  walk-Normal zero new p h hf = absurd (omega arith)
  walk-Normal (suc f) new p h hf =
      let end = from_slash p in
      let short : length end ≤ f = omega (arith, length-from_slash p) in
      let rest : Rest f = λ new' p' h' hf'. walk-Normal f new' p' h' hf' in
      named (before_slash p) (before_slash-IsPlain p) (length-from_slash p) short (omega arith) rest
    where
      named :
          (name : Bytes)
          → IsPlain name
          → length (from_slash p) ≤ length p
          → length (from_slash p) ≤ f
          → length p ≤ f
          → Rest f
          → Normal S (elim name as (λ _. Updated) [
            | [] ↦ elim (from_slash p) as (λ _. Updated) [
              | [] ↦ pwd_is (reverse_onto new [])
              | c ∷ s ↦ walk f exists lim new (tail_bytes p)
            ]
            | c ∷ s ↦
                if bytes_eq (c ∷ s) dot_dot
                then (if exists (reverse_onto (b'/' ∷ new) [])
                    then (elim (from_slash p) as (λ _. Updated) [
                      | [] ↦ pwd_is (reverse_onto (drop_last lim new) [])
                      | c ∷ s ↦ walk f exists lim (drop_last lim new) (tail_bytes (from_slash p))
                    ])
                    else cannot_stat)
                else if bytes_eq (c ∷ s) dot
                then (elim (from_slash p) as (λ _. Updated) [
                  | [] ↦ pwd_is (reverse_onto new [])
                  | c ∷ s ↦ walk f exists lim new (tail_bytes (from_slash p))
                ])
                else (elim (from_slash p) as (λ _. Updated) [
                  | [] ↦ pwd_is (reverse_onto (put_name (c ∷ s) new) [])
                  | d ∷ t ↦ walk f exists lim (put_name (c ∷ s) new) (tail_bytes (from_slash p))
                ])
          ])
      named [] plain le short hp rest = past-Normal f new p (from_slash p) h le hp rest
      named (c ∷ s) plain le short hp rest =
          if_cases (Normal S) (bytes_eq (c ∷ s) dot_dot)
            (λ up.
              if_split (Normal S) (exists (reverse_onto (b'/' ∷ new) []))
                (next-Normal f (drop_last lim new) (from_slash p) (kept.drops_one new h) short rest)
                tt)
            (λ not_up.
              if_cases (Normal S) (bytes_eq (c ∷ s) dot)
                (λ here. next-Normal f new (from_slash p) h short rest)
                (λ not_here.
                  next-Normal f (put_name (c ∷ s) new) (from_slash p)
                    (kept.puts new (c ∷ s) h (plain, not_here, not_up)) short rest))
