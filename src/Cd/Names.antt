-- ===== src/Cd/Names.antt =====
-- What updatepwd makes of a normal path: a normal path.
use gwsh.Base.{
  bools_apart, Option, none, true, ◌++◌, ◌⊎◌, inl, inr, head_byte, suc, ◌≡◌, ◌∙◌, refl, sym, ap,
  subst, Bool, false, not, ◌&&◌, some, List, [], ◌∷◌, Bytes, ◌==◌, length, arith, tail_bytes,
  if_cases,
}
use gwsh.Cd.Stacked.{IsName, AreNames, stacked, Stacked, Kept, puts-Stacked, Stacked-Kept, drops}
use gwsh.Cd.Walk.{Normal, length-tail_bytes, walk-Normal}
use gwsh.Cd.{
  reverse_onto, drop_last, put_name, from_root, from_curdir, updatepwd, Updated, pwd_is, no_pwd,
  cannot_stat, null_pointer, out_of_fuel,
}

reverse_onto-reverse_onto :
    (s t u : Bytes) → reverse_onto (reverse_onto s t) u ≡ reverse_onto t (s ++ u)
unfolding reverse_onto
reverse_onto-reverse_onto [] t u = refl
reverse_onto-reverse_onto (c ∷ s) t u = reverse_onto-reverse_onto s (c ∷ t) u

append_nil : (s : Bytes) → s ++ [] ≡ s
append_nil [] = refl
append_nil (c ∷ s) = ap (λ t. c ∷ t) (append_nil s)

abbrev pub one_slash : Bytes
one_slash = b'/' ∷ []

abbrev pub two_slashes : Bytes
two_slashes = b'/' ∷ b'/' ∷ []

-- The path of some names, the last one first, behind one slash or two.
abbrev pub path_of : Bytes → List Bytes → Bytes
path_of root ns = reverse_onto (stacked root ns) []

abbrev pub IsNormal : Updated → Type 0
IsNormal r = Normal (λ new. Stacked one_slash new ⊎ Stacked two_slashes new) r

-- The name of the working directory: empty, or a normal path. It is not NULL.
abbrev pub IsDirectory : Option Bytes → Type 0
IsDirectory none = ⊥
IsDirectory (some s) =
    (s ≡ [])
    ⊎ ((ns : List Bytes) × AreNames ns
        × ((s ≡ path_of one_slash ns) ⊎ (s ≡ path_of two_slashes ns)))

one_slash-Kept : Kept 1 (Stacked one_slash)
one_slash-Kept = Stacked-Kept one_slash refl

-- Behind a working directory that begins with two slashes, only the first is kept from dropping.
both-Kept : Kept 1 (λ new. Stacked one_slash new ⊎ Stacked two_slashes new)
unfolding drop_last
both-Kept = record {
  puts = λ new name st is. by_root new name is st;
  drops_one = λ new st. dropped new st;
}
  where
    by_root :
        (new name : Bytes)
        → IsName name
        → Stacked one_slash new ⊎ Stacked two_slashes new
        → Stacked one_slash (put_name name new) ⊎ Stacked two_slashes (put_name name new)
    by_root new name is (inl one) = inl (puts-Stacked one_slash new name one is)
    by_root new name is (inr two) = inr (puts-Stacked two_slashes new name two is)

    dropped :
        (new : Bytes)
        → Stacked one_slash new ⊎ Stacked two_slashes new
        → Stacked one_slash (drop_last 1 new) ⊎ Stacked two_slashes (drop_last 1 new)
    dropped new (inl one) = inl (one_slash-Kept.drops_one new one)
    dropped new (inr (ns, h, e)) =
        subst (λ t. Stacked one_slash (drop_last 1 t) ⊎ Stacked two_slashes (drop_last 1 t)) (sym e)
          (drops two_slashes refl 1 (omega arith) (λ t. Stacked one_slash t ⊎ Stacked two_slashes t)
            (inl ([], tt, refl)) (λ ms k. inr (ms, k, refl)) ns h)

Normal-map :
    (S T : Bytes → Type 0) (r : Updated) → ((new : Bytes) → S new → T new) → Normal S r → Normal T r
Normal-map S T (pwd_is s) f (new, h, e) = (new, f new h, e)
Normal-map S T no_pwd f h = tt
Normal-map S T cannot_stat f h = tt
Normal-map S T null_pointer f h = h
Normal-map S T out_of_fuel f h = h

from_root-IsNormal : (exists : Bytes → Bool) (p : Bytes) → IsNormal (from_root exists p)
from_root-IsNormal exists p =
    if_cases IsNormal (head_byte p == b'/' && not (head_byte (tail_bytes p) == b'/'))
      (λ two.
        Normal-map (Stacked two_slashes) _ _ (λ new h. inr h)
          (walk-Normal 2 (Stacked two_slashes) (Stacked-Kept two_slashes refl) exists
            (suc (length p)) two_slashes (tail_bytes p) ([], tt, refl)
            (omega (arith, length-tail_bytes p))))
      (λ other.
        Normal-map (Stacked one_slash) _ _ (λ new h. inl h)
          (walk-Normal 1 (Stacked one_slash) one_slash-Kept exists (suc (length p)) one_slash p
            ([], tt, refl) (omega arith)))

-- The text of the working directory, on the stack.
directory_stacked :
    (root : Bytes) (ns : List Bytes) (s : Bytes)
    → s ≡ path_of root ns
    → reverse_onto s [] ≡ stacked root ns
unfolding reverse_onto
directory_stacked root ns s e =
    ap (λ t. reverse_onto t []) e
    ∙ reverse_onto-reverse_onto (stacked root ns) [] []
    ∙ append_nil (stacked root ns)

from_curdir-IsNormal :
    (exists : Bytes → Bool) (curdir : Option Bytes) (dir : Bytes)
    → IsDirectory curdir
    → IsNormal (from_curdir exists curdir dir)
from_curdir-IsNormal exists none dir h = h
from_curdir-IsNormal exists (some []) dir h = tt
from_curdir-IsNormal exists (some (c ∷ s)) dir (inl e) = absurd cc
from_curdir-IsNormal exists (some (c ∷ s)) dir (inr (ns, h, root)) =
    walk-Normal 1 (λ new. Stacked one_slash new ⊎ Stacked two_slashes new) both-Kept exists
      (suc (length dir)) (reverse_onto (c ∷ s) []) dir (by_slashes root) (omega arith)
  where
    by_slashes :
        ((c ∷ s) ≡ path_of one_slash ns) ⊎ ((c ∷ s) ≡ path_of two_slashes ns)
        → Stacked one_slash (reverse_onto (c ∷ s) [])
          ⊎ Stacked two_slashes (reverse_onto (c ∷ s) [])
    by_slashes (inl e) = inl (ns, h, directory_stacked one_slash ns (c ∷ s) e)
    by_slashes (inr e) = inr (ns, h, directory_stacked two_slashes ns (c ∷ s) e)

-- Where its argument begins with a slash, or else the name of the working directory is empty or a
-- normal path, updatepwd ends with a normal path, with no name, or with the error that a directory
-- before .. is not there. A normal path starts with one slash, or with two, and what follows are names,
-- none of them empty, . or .., with one slash between two of them.
pub updatepwd-IsNormal :
    (exists : Bytes → Bool) (curdir : Option Bytes) (dir : Bytes)
    → ((head_byte dir == b'/') ≡ true) ⊎ IsDirectory curdir
    → IsNormal (updatepwd exists curdir dir)
unfolding updatepwd
updatepwd-IsNormal exists curdir dir given =
    if_cases IsNormal (head_byte dir == b'/')
      (λ absolute. from_root-IsNormal exists (tail_bytes dir))
      (λ relative'. from_curdir-IsNormal exists curdir dir (directory relative' given))
  where
    directory :
        (head_byte dir == b'/') ≡ false
        → ((head_byte dir == b'/') ≡ true) ⊎ IsDirectory curdir
        → IsDirectory curdir
    directory h (inl k) = absurd (bools_apart (sym k ∙ h))
    directory h (inr d) = d
