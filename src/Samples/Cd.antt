-- ===== src/Samples/Cd.antt =====
-- Names of directories, on concrete texts.
use gwsh.Base.{
  inr, ◌≡◌, refl, Bool, true, false, some, none, String, bytes_eq, List, [], ◌∷◌, Bytes, codes,
}
use gwsh.Cd.{Updated, pwd_is, cannot_stat, null_pointer, updatepwd, chdir_path, cdopt}
use gwsh.Cd.Stacked.{AreNames}
use gwsh.Cd.Names.{path_of, two_slashes, IsNormal, updatepwd-IsNormal}

abbrev everywhere : Bytes → Bool
everywhere path = true

abbrev from : String → String → Updated
from curdir dir = updatepwd everywhere (some (codes curdir)) (codes dir)

goes_up : from "/usr/local/bin" "../../share//./man/" ≡ pwd_is (codes "/usr/share/man")
unfolding updatepwd bytes_eq
goes_up = refl

stays_at_root : from "/usr" "../../.." ≡ pwd_is (codes "/")
unfolding updatepwd bytes_eq
stays_at_root = refl

keeps_two_slashes : from "/usr" "//net/../x" ≡ pwd_is (codes "//x")
unfolding updatepwd bytes_eq
keeps_two_slashes = refl

three_slashes : from "/usr" "///net" ≡ pwd_is (codes "/net")
unfolding updatepwd bytes_eq
three_slashes = refl

not_there : updatepwd (λ path. false) (some (codes "/a")) (codes "b/..") ≡ cannot_stat
unfolding updatepwd bytes_eq
not_there = refl

-- getpwd gave NULL.
no_current_directory : updatepwd everywhere none (codes "a") ≡ null_pointer
unfolding updatepwd bytes_eq
no_current_directory = refl

made_relative : chdir_path (some (codes "/usr")) (codes "/usr/share") ≡ codes "share"
unfolding chdir_path
made_relative = refl

last_option_wins : cdopt b'L' false (b'P' ∷ b'P' ∷ b'L' ∷ []) ≡ false
unfolding cdopt
last_option_wins = refl

abbrev usr_bin : List Bytes
usr_bin = codes "bin" ∷ codes "usr" ∷ []

usr_bin-AreNames : AreNames usr_bin
unfolding bytes_eq
usr_bin-AreNames =
    (((refl, (refl, (refl, tt))), refl, refl), (((refl, (refl, (refl, tt))), refl, refl), tt))

updatepwd_example :
    IsNormal (updatepwd everywhere (some (path_of two_slashes usr_bin)) (codes "../lib"))
updatepwd_example =
    updatepwd-IsNormal everywhere (some (path_of two_slashes usr_bin)) (codes "../lib")
      (inr (inr (usr_bin, usr_bin-AreNames, inr refl)))
