-- ===== src/Samples/Options.antt =====
-- The parsing of options on concrete arguments.
use gwsh.Base.{◌≡◌, refl, false, none, some, List, [], ◌∷◌, Bytes, String, codes}
use gwsh.Intmax.{is_neg}
use gwsh.MyString.{number, skip_spaces}
use gwsh.Options.Nextopt.{Reader, nextopt}
use gwsh.Options.Nextopt.Progress.{Reads, nextopt-Reads}
use gwsh.Options.Getopts.{getoptscmd, assigned, silent}
use gwsh.Options.Getopts.Bounds.{InBounds, getoptscmd-InBounds}
use gwsh.Options.Params.{shifted, setparam, shiftcmd, shiftcmd_lem}
use gwsh.Samples.Libc.{decimal, digits}

abbrev words : List String → List Bytes
words [] = []
words (s ∷ ss) = codes s ∷ words ss

-- -a with an argument in the next word
separate_arg : getoptscmd (codes "a:b") (words ("-ba" ∷ "x" ∷ "y" ∷ [])) 2 (some 2) ≡ record {
  done = false;
  value = b'a';
  ind = 3;
  off = none;
  optarg = assigned (codes "x");
  message = silent;
}
unfolding getoptscmd
separate_arg = refl

getoptscmd-InBounds_example :
    InBounds
      (words ("-ba" ∷ "x" ∷ []))
      (getoptscmd (codes "a:b") (words ("-ba" ∷ "x" ∷ [])) 9 (some 7)).ind
      (getoptscmd (codes "a:b") (words ("-ba" ∷ "x" ∷ [])) 9 (some 7)).off
getoptscmd-InBounds_example =
    getoptscmd-InBounds (codes "a:b") (words ("-ba" ∷ "x" ∷ [])) 9 (some 7)

abbrev vf : Reader
vf = record { argptr = words ("-vf" ∷ "x" ∷ []); optptr = none; optionarg = none }

nextopt-Reads_example : Reads (codes "v:f") vf (nextopt (codes "v:f") vf)
nextopt-Reads_example = nextopt-Reads (codes "v:f") vf

two_is : number decimal (codes "2") ≡ some 2
unfolding number digits skip_spaces is_neg
two_is = refl

shiftcmd_example :
    shiftcmd decimal
      (record { argptr = words ("2" ∷ []); optptr = none; optionarg = none })
      (setparam (words ("a" ∷ "b" ∷ "c" ∷ [])))
    ≡ shifted (setparam (words ("c" ∷ [])))
unfolding setparam
shiftcmd_example =
    shiftcmd_lem decimal (codes "2") 2 (setparam (words ("a" ∷ "b" ∷ "c" ∷ []))) two_is refl
