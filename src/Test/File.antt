-- ===== src/Test/File.antt =====
-- src/bltin/test.c: the tests on files. What the system calls answer is a parameter.
use Prim.Native.Nat.{bit_and}
use gwsh.Base.{ℕ, Bool, true, false, not, ◌&&◌, ◌||◌, Option, none, some, Bytes, ltb, ◌==◌}
use gwsh.Test.Ops.{
  Token, filexist, filreg, fildir, filcdev, filbdev, filfifo, filsock, filsym, filgz, filsuid,
  filsgid, filstck, filuid, filgid,
}

-- struct stat, as far as the tests read it.
pub record Stat : Type 0 where
  pub st_mode : ℕ
  pub st_size : ℕ
  pub st_uid : ℕ
  pub st_gid : ℕ
  pub st_dev : ℕ
  pub st_ino : ℕ
  pub mtim_sec : ℕ
  pub mtim_nsec : ℕ

-- The calls that the builtin makes: `none` is a failing stat; times are after the epoch.
pub record System : Type 0 where
  pub stat : Bytes → Option Stat
  pub lstat : Bytes → Option Stat
  pub isatty : ℕ → Bool
  pub access_ok : Bytes → Token → Bool
  pub geteuid : ℕ
  pub getegid : ℕ

-- S_ISREG and its like: the bits of S_IFMT have the value given.
abbrev is_format : ℕ → Stat → Bool
is_format format s = bit_and s.st_mode 0o170000 == format

abbrev has_bit : ℕ → Stat → Bool
has_bit bit s = not (bit_and s.st_mode bit == 0)

abbrev pub stat_test : System → Token → Stat → Bool
stat_test sys filexist s = true
stat_test sys filreg s = is_format 0o100000 s
stat_test sys fildir s = is_format 0o040000 s
stat_test sys filcdev s = is_format 0o020000 s
stat_test sys filbdev s = is_format 0o060000 s
stat_test sys filfifo s = is_format 0o010000 s
stat_test sys filsock s = is_format 0o140000 s
stat_test sys filsym s = is_format 0o120000 s
stat_test sys filsuid s = has_bit 0o4000 s
stat_test sys filsgid s = has_bit 0o2000 s
stat_test sys filstck s = has_bit 0o1000 s
stat_test sys filgz s = not (s.st_size == 0)
stat_test sys filuid s = s.st_uid == sys.geteuid
stat_test sys filgid s = s.st_gid == sys.getegid
stat_test sys _ s = true

abbrev on_stat : Option Stat → (Stat → Bool) → Bool
on_stat none test = false
on_stat (some s) test = test s

unfoldable pub filstat : System → Bytes → Token → Bool
filstat sys nm mode =
    on_stat (elim mode [ filsym ↦ sys.lstat nm | _ ↦ sys.stat nm ]) (stat_test sys mode)

-- with HAVE_ST_MTIM
abbrev later : Stat → Stat → Bool
later b1 b2 =
    ltb b2.mtim_sec b1.mtim_sec || b1.mtim_sec == b2.mtim_sec && ltb b2.mtim_nsec b1.mtim_nsec

abbrev or_missing : Option Stat → (Stat → Bool) → Bool
or_missing none test = true
or_missing (some s) test = test s

unfoldable pub newerf : System → Bytes → Bytes → Bool
newerf sys f1 f2 = on_stat (sys.stat f1) λ b1. or_missing (sys.stat f2) λ b2. later b1 b2

unfoldable pub olderf : System → Bytes → Bytes → Bool
olderf sys f1 f2 = on_stat (sys.stat f2) λ b2. or_missing (sys.stat f1) λ b1. later b2 b1

unfoldable pub equalf : System → Bytes → Bytes → Bool
equalf sys f1 f2 =
    on_stat (sys.stat f1)
      λ b1. on_stat (sys.stat f2) λ b2. b1.st_dev == b2.st_dev && b1.st_ino == b2.st_ino
