-- ===== src/Options/Params.antt =====
-- src/options.c: the positional parameters, setparam and shiftcmd.
use gwsh.Base.{
  ℕ, zero, suc, ◌-◌, ◌≡◌, false, Option, none, some, List, [], ◌∷◌, Bytes, ltb, if◌then◌else◌,
  length, arith,
}
use gwsh.MyString.{Strtoimax, number}
use gwsh.Options.Nextopt.{Reader, nextarg, endargs}

-- struct shparam, without the mark of how it was allocated.
pub record Shparam : Type 0 where
  pub nparam : ℕ
  pub p : List Bytes

unfoldable pub setparam : List Bytes → Shparam
setparam argv = record { nparam = length argv; p = argv }

pub data Shifted : Type 0 where
  shifted : Shparam → Shifted
  illegal_number too_many_arguments cannot_shift : Shifted

abbrev pub drop_args : ℕ → List Bytes → List Bytes
drop_args zero p = p
drop_args (suc n) [] = []
drop_args (suc n) (a ∷ p) = drop_args n p

abbrev shift_by : Shparam → Option ℕ → Shifted
shift_by s none = illegal_number
shift_by s (some n) =
    if ltb s.nparam n
    then cannot_shift
    else shifted (record { nparam = s.nparam - n; p = drop_args n s.p })

abbrev count_of : Strtoimax → Option Bytes → Option ℕ
count_of strtoimax none = some 1
count_of strtoimax (some ns) = number strtoimax ns

abbrev after_nextarg : Strtoimax → Shparam → Option (Option Bytes × Reader) → Shifted
after_nextarg strtoimax s none = too_many_arguments
after_nextarg strtoimax s (some (ns, r)) = elim (endargs r) [
  | none ↦ too_many_arguments
  | some _ ↦ shift_by s (count_of strtoimax ns)
]

unfoldable pub shiftcmd : Strtoimax → Reader → Shparam → Shifted
unfolding nextarg endargs
shiftcmd strtoimax args s = after_nextarg strtoimax s (nextarg false args)

-- The count goes with the list.
abbrev pub IsCounted : Shparam → Type 0
IsCounted s = s.nparam ≡ length s.p

length-drop_args : (n : ℕ) (p : List Bytes) → length (drop_args n p) ≡ length p - n
length-drop_args zero p = omega arith
length-drop_args (suc n) [] = omega arith
length-drop_args (suc n) (a ∷ p) = omega (arith, length-drop_args n p)

-- shift with a number: an error where there are fewer parameters, and else the parameters become
-- those behind the dropped ones, counted anew.
pub shiftcmd_lem :
    (strtoimax : Strtoimax) (a : Bytes) (n : ℕ) (s : Shparam)
    → number strtoimax a ≡ some n
    → IsCounted s
    → shiftcmd strtoimax (record { argptr = a ∷ []; optptr = none; optionarg = none }) s
      ≡ (if ltb (length s.p) n then cannot_shift else shifted (setparam (drop_args n s.p)))
unfolding shiftcmd setparam
shiftcmd_lem strtoimax a n s e counted = rw e (ground (arith, length-drop_args n s.p))
