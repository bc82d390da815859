-- ===== src/Expand/Pmatch/Edges.antt =====
-- A pattern that ends inside of a range of characters.
use gwsh.Base.{ℕ, suc, ◌≡◌, refl, Bool, true, false, [], ◌∷◌, Bytes, ◌==◌, length, ap}
use gwsh.Expand.Bracket.{Ctype, ctlesc, got, getc, bracket_loop, bracket_wild}
use gwsh.Expand.Pmatch.{
  no_pm_flags, bound, Found, found, match_is, next, no_fuel, out_of_fuel, Pointers,
  initial_pointers, enter_bracket, reads_past_end, bracketed, wild, step, rounds, pmatch,
}

range-wild :
    (f : ℕ) (ctype : Ctype) (chr c : ℕ)
    → (c == b'[') ≡ false
    → (c == b'\\') ≡ false
    → (c == ctlesc) ≡ false
    → bracket_loop (suc f) ctype chr (c ∷ b'-' ∷ []) false ≡ bracket_wild
unfolding bracket_loop getc
range-wild f ctype chr c open' slash esc = rw (open', slash, esc) refl

enter-wild :
    (ctype : Ctype) (pattern : Bytes) (k : Pointers) (c chr : ℕ) (q : Bytes) (invert : Bool)
    → invert ≡ false
    → bracket_loop 3 ctype chr (c ∷ b'-' ∷ []) false ≡ bracket_wild
    → enter_bracket ctype pattern no_pm_flags k (c ∷ b'-' ∷ []) invert (got chr q) ≡ wild
enter-wild ctype pattern k c chr q true h e = cc
enter-wild ctype pattern k c chr q false h e =
    ap (bracketed ctype pattern no_pm_flags k (c ∷ b'-' ∷ []) false chr q) e

rounds-wild :
    (f : ℕ) (ctype : Ctype) (pattern : Bytes) (k : Pointers)
    → step ctype pattern no_pm_flags k k.p ≡ wild
    → rounds ctype pattern no_pm_flags (suc f) k ≡ reads_past_end
unfolding rounds
rounds-wild f ctype pattern k h =
    ap
      (λ st. elim st as (λ _. Found) [
        | match_is r ↦ found r
        | next k' ↦ rounds ctype pattern no_pm_flags f k'
        | wild ↦ reads_past_end
        | no_fuel ↦ out_of_fuel
      ])
      h

-- For a pattern that is [, a character that is not special there, and -, pmatch reads behind the end of
-- the pattern, whatever the string is, if it is not empty.
pub pmatch_cut_range :
    (ctype : Ctype) (c chr : ℕ) (q : Bytes)
    → (c == b'[') ≡ false
    → (c == b'!') ≡ false
    → (c == b'\\') ≡ false
    → (c == ctlesc) ≡ false
    → pmatch ctype (b'[' ∷ c ∷ b'-' ∷ []) (chr ∷ q) no_pm_flags ≡ reads_past_end
unfolding pmatch step
pmatch_cut_range ctype c chr q open' bang slash esc =
    let pattern = b'[' ∷ c ∷ b'-' ∷ [] in
    rounds-wild (bound 3 (length (chr ∷ q))) ctype pattern
      (initial_pointers ctype pattern no_pm_flags (chr ∷ q))
      (enter-wild ctype pattern (initial_pointers ctype pattern no_pm_flags (chr ∷ q)) c chr q
        (c == b'!') bang (range-wild 2 ctype chr c open' slash esc))
