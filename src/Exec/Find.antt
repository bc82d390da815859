-- ===== src/Exec/Find.antt =====
-- src/exec.c: find_command and hashcmd.
pub mod Search
pub mod Edges
use gwsh.Base.{
  ℕ, zero, suc, ◌+◌, ◌-◌, ◌≡◌, Bool, true, false, not, ◌&&◌, ◌||◌, Option, none, some, List, [],
  ◌∷◌, ◌++◌, Bytes, ◌==◌, ltb, if◌then◌else◌, bytes_eq, head_byte, length, codes,
}
use gwsh.Base.Int.{ℤ, pos, negsuc}
use gwsh.Base.Run.{Outcome, ok, err, Run, ◌>>=◌}
use gwsh.Options.Nextopt.{Reader, Opt, nextopt}
use gwsh.Exec.Path.{padvance, Advance}
use gwsh.Exec.Table.{
  Cmd, unknown, normal, function, builtin, Tblentry, Commands, cmdlookup, delete_cmd_entry,
  set_entry, last_entry, entry_is, is_function, is_normal, clearcmdentry,
}

-- What stat says: whether the file is regular, or errno.
pub data Stat : Type 0 where
  found : Bool → Stat
  failed : ℕ → Stat

-- The system, and the parts of the shell that are called: stat, test_file_access with X_OK, the table of
-- the builtins, and readcmdfile, which runs commands. `S` is the rest of the shell.
pub record Calls (F B S : Type 0) : Type 0 where
  pub stat : S → Bytes → Stat
  pub may_exec : S → Bytes → Bool
  pub find_builtin : Bytes → Option B
  pub readcmdfile : Bytes → Run ℕ (Commands F B S) Unit
  pub enoent : ℕ
  pub enotdir : ℕ
  pub eacces : ℕ
  -- the exception of sh_error
  pub exerror : ℕ

-- The bits of `act`, but for DO_ERR, by which messages are printed.
pub record Act : Type 0 where
  pub do_abs : Bool
  pub do_nofunc : Bool
  pub do_altpath : Bool

-- `path`, and whether it is the pointer that pathval returns.
pub record PathArg : Type 0 where
  pub path : Option Bytes
  pub is_pathval : Bool

-- strchr(name, '/') != NULL
unfoldable pub has_slash : Bytes → Bool
has_slash [] = false
has_slash (c ∷ s) = c == b'/' || has_slash s

-- What becomes of the loops over one path: nothing is found, the file of the entry that is hashed is
-- reached, a program is found, or a file of FPATH.
pub data Hit : Type 0 where
  missed : ℕ → ℕ → Hit
  no_change : Hit
  program : ℕ → Hit
  defining : Bytes → Hit

-- Whether a name is asked of padvance: at the label `loop` the rest of the path is looked at, and a
-- `continue` goes to the call.
abbrev pub goes_in : Bool → Option Bytes → Bool
goes_in at_label none = false
goes_in at_label (some []) = not at_label
goes_in at_label (some (c ∷ p)) = true

-- The error that is kept, where stat fails.
abbrev pub keep_errno : {F B S : Type 0} → Calls F B S → ℕ → ℕ → ℕ
keep_errno calls errno e = if errno == calls.enoent || errno == calls.enotdir then e else errno

-- What is done with a file: `next` goes on, from the label or by `continue`.
abbrev pub with_stat :
    {F B S : Type 0} → Calls F B S → S → Bool → Bytes → ℕ → ℕ → (Bool → ℕ → Hit) → Stat → Hit
with_stat calls env checkexec fullname idx e next (failed errno) =
    next true (keep_errno calls errno e)
with_stat calls env checkexec fullname idx e next (found false) = next false calls.eacces
with_stat calls env checkexec fullname idx e next (found true) =
    if not checkexec
    then defining fullname
    else if calls.may_exec env fullname
    then program idx
    else next false calls.eacces

-- Where an entry is hashed again, how its index compares: `idx <= prev`, `idx < prev`.
abbrev pub is_before : ℕ → Option ℕ → Bool
is_before idx none = false
is_before idx (some prev) = ltb idx prev

abbrev pub is_prev : ℕ → Option ℕ → Bool
is_prev idx none = false
is_prev idx (some prev) = idx == prev

abbrev pub with_name :
    {F B S : Type 0} → Calls F B S → S → Bool → Option ℕ → Bytes → ℕ → ℕ → (Bool → ℕ → Hit) → Hit
with_name calls env checkexec prev fullname idx e next =
    let rest : Hit = with_stat calls env checkexec fullname idx e next (calls.stat env fullname) in
    if head_byte fullname == b'/' && is_before idx prev
    then next false e
    else if head_byte fullname == b'/' && is_prev idx prev
    then no_change
    else rest

-- The loops over a path; `idx` is that of the next name.
unfoldable pub search :
    {F B S : Type 0}
    → Calls F B S
    → S
    → Bool
    → Option ℕ
    → Bytes
    → ℕ
    → Bool
    → Option Bytes
    → ℕ
    → ℕ
    → Hit
unfolding padvance
search calls env checkexec prev name zero at_label path idx e = missed idx e
search calls env checkexec prev name (suc fuel) at_label path idx e =
    elim (padvance false path name) as (λ _. Hit) [
      | none ↦ missed idx e
      | some a ↦
          if goes_in at_label path
          then with_name calls env checkexec prev a.fullname idx e (λ at_label' e'.
            search calls env checkexec prev name fuel at_label' a.path (suc idx) e')
          else missed idx e
    ]

-- A path has no more entries than bytes and one more.
abbrev pub fuel_of : Option Bytes → ℕ
fuel_of none = 1
fuel_of (some p) = suc (length p)

-- The whole search: PATH, then FPATH.
abbrev pub search_paths :
    {F B S : Type 0} → Calls F B S → S → Option ℕ → Bytes → Option Bytes → Option Bytes → Hit
search_paths calls env prev name path fpath =
    elim (search calls env true prev name (fuel_of path) true path 0 0) as (λ _. Hit) [
      | missed idx e ↦ search calls env false prev name (fuel_of fpath) true fpath idx e
      | no_change ↦ no_change
      | program idx ↦ program idx
      | defining file ↦ defining file
    ]

-- errno, or 0, and the entry.
abbrev pub Answer : Type 0 → Type 0 → Type 0
Answer F B = ℕ × Cmd F B

abbrev pub C : Type 0 → Type 0 → Type 0 → Type 0 → Type 0
C F B S A = Run ℕ (Commands F B S) A

abbrev pub entry_cmd : {F B : Type 0} → Option (Tblentry F B) → Cmd F B
entry_cmd none = unknown
entry_cmd (some cmdp) = cmdp.cmd

-- `success`: cmdp is the entry of the last lookup.
abbrev pub success : {F B S : Type 0} → C F B S (Answer F B)
success st =
    ok (0, entry_cmd (last_entry st)) (set_entry (λ cmdp. record cmdp { rehash = false }) st)

-- What is found is put into the table, or only returned.
abbrev pub enter : {F B S : Type 0} → Bytes → Bool → Cmd F B → C F B S (Answer F B)
enter name updatetbl cmd st =
    if updatetbl
    then success (set_entry (λ cmdp. record cmdp { cmd = cmd }) (cmdlookup name true st))
    else ok (0, cmd) st

abbrev pub loaded : {F B S : Type 0} → Calls F B S → Bytes → C F B S (Answer F B)
loaded calls name st =
    let st' = cmdlookup name false st in
    if entry_is is_function (last_entry st') then success st' else err calls.exerror st'

-- `hashed` is that cmdp is not NULL.
abbrev pub by_hit :
    {F B S : Type 0} → Calls F B S → Bytes → Bool → Bool → Hit → C F B S (Answer F B)
by_hit calls name hashed updatetbl (missed idx e) st =
    ok (e, unknown) (if hashed && updatetbl then delete_cmd_entry st else st)
by_hit calls name hashed updatetbl no_change st = success st
by_hit calls name hashed updatetbl (program idx) st = enter name updatetbl (normal (pos idx)) st
by_hit calls name hashed updatetbl (defining file) st =
    (calls.readcmdfile file >>= λ _. loaded calls name) st

-- The index of an entry that is hashed again; hashcd marks programs only.
abbrev pub prev_of : {F B : Type 0} → Option (Tblentry F B) → Option ℕ
prev_of none = none
prev_of (some cmdp) = elim cmdp.cmd as (λ _. Option ℕ) [
  | normal i ↦ elim i as (λ _. Option ℕ) [ pos n ↦ some n | negsuc n ↦ none ]
  | unknown ↦ none
  | function f ↦ none
  | builtin b ↦ none
]

-- The builtins, and then the search.
abbrev pub look_for :
    {F B S : Type 0}
    → Calls F B S
    → Bytes
    → Option (Tblentry F B)
    → Bool
    → Option Bytes
    → Option Bytes
    → C F B S (Answer F B)
look_for {F} {B} {S} calls name cmdp updatetbl path fpath st =
    elim (calls.find_builtin name) as (λ _. Outcome ℕ (Commands F B S) (Answer F B)) [
      | some bcmd ↦ enter name updatetbl (builtin bcmd) st
      | none ↦
          by_hit calls name (entry_is (λ _. true) cmdp) updatetbl
            (search_paths calls st.env (prev_of cmdp) name path fpath) st
    ]

-- The bit of `act` for which an entry is passed over.
abbrev pub passed_over : {F B : Type 0} → Act → Cmd F B → Bool
passed_over act (function f) = act.do_nofunc
passed_over act (builtin b) = false
passed_over act _ = act.do_altpath

abbrev pub by_entry :
    {F B S : Type 0}
    → Calls F B S
    → Bytes
    → Act
    → Bool
    → Option Bytes
    → Option Bytes
    → Option (Tblentry F B)
    → C F B S (Answer F B)
by_entry calls name act updatetbl path fpath none st =
    look_for calls name none updatetbl path fpath st
by_entry calls name act updatetbl path fpath (some cmdp) st =
    if passed_over act cmdp.cmd
    then look_for calls name none false path fpath st
    else if cmdp.rehash
    then look_for calls name (some cmdp) updatetbl path fpath st
    else success st

-- A name with a slash is a file.
abbrev pub absolute : {F B S : Type 0} → Calls F B S → S → Bytes → Bool → Stat → Answer F B
absolute calls env name false stat = (0, normal (negsuc 0))
absolute calls env name true (failed errno) = (errno, unknown)
absolute calls env name true (found regular) =
    if not regular || not (calls.may_exec env name)
    then (calls.eacces, unknown)
    else (0, normal (negsuc 0))

abbrev pub updates : PathArg → Bool
updates path = elim path.path as (λ _. Bool) [ none ↦ true | some p ↦ path.is_pathval ]

abbrev pub with_altpath : Bool → Act → Act
with_altpath updatetbl act = if updatetbl then act else record act { do_altpath = true }

unfoldable pub find_command :
    {F B S : Type 0} → Calls F B S → Bytes → Act → PathArg → Option Bytes → C F B S (Answer F B)
unfolding has_slash cmdlookup search set_entry delete_cmd_entry
find_command calls name act path fpath st =
    if has_slash name
    then ok (absolute calls st.env name act.do_abs (calls.stat st.env name)) st
    else (let st' = cmdlookup name false st in
        by_entry calls name (with_altpath (updates path) act) (updates path) path.path fpath
          (last_entry st') st')

-- The names that hash is given, with the status so far.
unfoldable pub hash_each :
    {F B S : Type 0}
    → Calls F B S
    → (S → Option Bytes)
    → (S → Option Bytes)
    → List Bytes
    → ℕ
    → C F B S ℕ
unfolding find_command cmdlookup delete_cmd_entry
hash_each calls pathval fpathval [] c st = ok c st
hash_each calls pathval fpathval (name ∷ names) c st =
    let st' = cmdlookup name false st in
    let st'' = if entry_is is_normal (last_entry st') then delete_cmd_entry st' else st' in
    (find_command calls name (record { do_abs = false; do_nofunc = false; do_altpath = false })
          (record { path = pathval st''.env; is_pathval = true }) (fpathval st''.env)
        >>= λ answer.
            hash_each calls pathval fpathval names
              (elim answer.1 [ unknown ↦ 1 | normal i ↦ c | function f ↦ c | builtin b ↦ c ]))
      st''
