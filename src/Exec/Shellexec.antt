-- ===== src/Exec/Shellexec.antt =====
-- src/exec.c: shellexec and tryexec.
pub mod First
use gwsh.Base.{
  ℕ, zero, suc, ◌≡◌, Bool, true, false, not, ◌&&◌, ◌||◌, Option, none, some, List, [], ◌∷◌, Bytes,
  ◌==◌, if◌then◌else◌, length, codes,
}
use gwsh.Base.Int.{ℤ, pos, negsuc}
use gwsh.Exec.Path.{padvance, Advance}
use gwsh.Exec.Find.{has_slash, fuel_of}

-- execve of a file with these arguments either replaces the shell, or sets errno. path_shell is the shell
-- itself.
pub record Kernel : Type 0 where
  pub execve : Bytes → List Bytes → Option ℕ
  pub path_shell : Bytes
  pub enoexec : ℕ
  pub eloop : ℕ
  pub enametoolong : ℕ
  pub enoent : ℕ
  pub enotdir : ℕ

-- The file runs with these arguments, or it does not: errno, and what argv[0] is then.
pub data Tried : Type 0 where
  runs : Bytes → List Bytes → Tried
  refused : ℕ → Bytes → Tried

-- A script without #! is given to the shell: `cmd` takes the place of argv[0].
unfoldable pub tryexec : Kernel → Bytes → Bytes → List Bytes → Tried
tryexec k cmd name args = elim (k.execve cmd (name ∷ args)) as (λ _. Tried) [
  | none ↦ runs cmd (name ∷ args)
  | some errno ↦
      if errno == k.enoexec
      then (elim (k.execve k.path_shell (codes "sh" ∷ codes "-" ∷ cmd ∷ args)) as (λ _. Tried) [
        | none ↦ runs k.path_shell (codes "sh" ∷ codes "-" ∷ cmd ∷ args)
        | some errno' ↦ refused errno' cmd
      ])
      else refused errno name
]

-- The shell is replaced, or it ends with the status.
pub data Gone : Type 0 where
  replaced : Bytes → List Bytes → Gone
  exits : ℕ → Gone

-- The switch: e is 0 where no file was there.
abbrev pub exerrno : Kernel → ℕ → ℕ
exerrno k e =
    if e == 0 || e == k.eloop || e == k.enametoolong || e == k.enoent || e == k.enotdir
    then 127
    else 126

abbrev pub keeps : Kernel → ℕ → ℕ → ℕ
keeps k errno e = if errno == k.enoent || errno == k.enotdir then e else errno

-- --idx, and whether it is below 0
abbrev pub less : ℤ → ℤ
less (pos zero) = negsuc zero
less (pos (suc n)) = pos n
less (negsuc n) = negsuc (suc n)

abbrev pub below_zero : ℤ → Bool
below_zero (pos n) = false
below_zero (negsuc n) = true

-- What is done with the next file.
abbrev pub after_try : Kernel → ℕ → (ℕ → Bytes → Gone) → Tried → Gone
after_try k e next (runs file args) = replaced file args
after_try k e next (refused errno name) = next (keeps k errno e) name

-- The loop over the path; tryexec has changed argv[0] where it gave the file to the shell.
unfoldable pub exec_path : Kernel → List Bytes → ℕ → Option Bytes → ℤ → ℕ → Bytes → Gone
unfolding padvance tryexec
exec_path k args zero path idx e name = exits (exerrno k e)
exec_path k args (suc fuel) path idx e name = elim (padvance false path name) as (λ _. Gone) [
  | none ↦ exits (exerrno k e)
  | some a ↦
      let next : ℕ → Bytes → Gone = λ e' name'. exec_path k args fuel a.path (less idx) e' name' in
      if below_zero (less idx)
      then after_try k e next (tryexec k a.fullname name args)
      else next e name
]

abbrev pub by_path : Kernel → List Bytes → Option Bytes → ℤ → Bytes → Gone
by_path k args none idx name = exits (exerrno k 0)
by_path k args (some []) idx name = exits (exerrno k 0)
by_path k args (some (c ∷ p)) idx name =
    exec_path k args (fuel_of (some (c ∷ p))) (some (c ∷ p)) idx 0 name

abbrev pub by_name : Kernel → Tried → Gone
by_name k (runs file args) = replaced file args
by_name k (refused errno name) = exits (exerrno k errno)

-- `name` is argv[0].
unfoldable pub shellexec : Kernel → Bytes → List Bytes → Option Bytes → ℤ → Gone
unfolding has_slash exec_path tryexec
shellexec k name args path idx =
    if has_slash name then by_name k (tryexec k name name args) else by_path k args path idx name
