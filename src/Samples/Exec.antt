-- ===== src/Samples/Exec.antt =====
-- A few files, and the search for commands over them.
use gwsh.Base.{
  ◌≡◌, refl, Bool, true, false, ◌||◌, Option, none, some, [], ◌∷◌, Bytes, ◌==◌, if◌then◌else◌,
  codes, bytes_eq, if_split,
}
use gwsh.Base.Int.{pos}
use gwsh.Base.Run.{ok}
use gwsh.Exec.Path.{wants_slash}
use gwsh.Exec.Path.Split.{advances, names_in, split_path}
use gwsh.Exec.Table.{
  Cmd, normal, function, Tblentry, Commands, cmdlookup, defun, unsetfunc, hashcd, changepath,
  bucket,
}
use gwsh.Exec.Table.Maps.{Refines, with_command, without_function, not_cached, cmd_of}
use gwsh.Exec.Table.Refine.{table-Refines}
use gwsh.Exec.Table.Lookup.{entry_of, Distinct}
use gwsh.Exec.Find.{found, failed, Calls, Act, find_command, search, fuel_of, has_slash}
use gwsh.Exec.Find.Search.{
  is_program, first_program, program_of, ends_in_entry, search-first_program,
}
use gwsh.Exec.Find.Edges.{NoneThere, search_misses_last}
use gwsh.Exec.Shellexec.{Kernel, replaced, shellexec}
use gwsh.Exec.Shellexec.First.{find_command-shellexec}

abbrev is_tool : Bytes → Bool
is_tool file =
    bytes_eq file (codes "/bin/tool")
    || bytes_eq file (codes "/usr/bin/tool")
    || bytes_eq file (codes "mine")

abbrev Hashed : Type 0
Hashed = Commands Bytes Bytes Unit

-- /bin/tool and /usr/bin/tool are programs, and so is `mine` in the current directory; readcmdfile
-- defines nothing.
abbrev files : Calls Bytes Bytes Unit
files = record {
  stat = λ _ file. if is_tool file then found true else failed 2;
  may_exec = λ _ file. true;
  find_builtin = λ name. if bytes_eq name (codes "cd") then some name else none;
  readcmdfile = λ file st. ok tt st;
  enoent = 2;
  enotdir = 20;
  eacces = 13;
  exerror = 1;
}

-- execve takes what is a program.
abbrev kernel : Kernel
kernel = record {
  execve = λ file args. if is_tool file then none else some 2;
  path_shell = codes "/bin/sh";
  enoexec = 8;
  eloop = 40;
  enametoolong = 36;
  enoent = 2;
  enotdir = 20;
}

abbrev act : Act
act = record { do_abs = false; do_nofunc = false; do_altpath = false }

abbrev entry : Bytes → Cmd Bytes Bytes → Tblentry Bytes Bytes
entry name cmd = record { cmdname = name; cmd = cmd; rehash = false }

abbrev nothing_hashed : Hashed
nothing_hashed = record { cmdtable = λ _. []; lastcmdentry = (0, 0); env = tt }

-- The function `f` and the program `G`, which have one chain.
abbrev hashed : Hashed
hashed = record nothing_hashed {
  cmdtable = λ i.
      if i == bucket (codes "f")
      then entry (codes "f") (function (codes "body")) ∷ entry (codes "G") (normal (pos 1)) ∷ []
      else [];
}

tested_advances :
    advances 3 (some (codes "/bin::a/")) (codes "x") ≡ codes "/bin/x" ∷ codes "x" ∷ codes "a/x" ∷ []
unfolding advances wants_slash
tested_advances = refl

search-first_program_example :
    program_of (
      search files tt true none
        (codes "tool")
        (fuel_of (some (codes "/sbin:/usr/bin:/bin")))
        true
        (some (codes "/sbin:/usr/bin:/bin"))
        0
        0)
    ≡ some 1
unfolding first_program split_path names_in bytes_eq ends_in_entry wants_slash
search-first_program_example =
    search-first_program files tt (codes "tool") (codes "/sbin:/usr/bin:/bin") 0 refl

find_command-shellexec_example :
    ((st' : Hashed) × (find_command files
          (codes "tool")
          act
          (record { path = some (codes "/sbin:/usr/bin:/bin"); is_pathval = true })
          none
          nothing_hashed
        ≡ ok (0, normal (pos 1)) st'))
    × (is_program files tt (codes "/usr/bin/tool") ≡ true)
    × (shellexec kernel
          (codes "tool")
          (codes "-x" ∷ [])
          (some (codes "/sbin:/usr/bin:/bin"))
          (pos 1)
        ≡ replaced (codes "/usr/bin/tool") (codes "tool" ∷ codes "-x" ∷ []))
unfolding cmdlookup has_slash first_program split_path names_in bytes_eq ends_in_entry wants_slash
find_command-shellexec_example =
    find_command-shellexec files kernel (codes "tool") (codes "/sbin:/usr/bin:/bin")
      (codes "-x" ∷ []) act none 1 (codes "/usr/bin/tool") nothing_hashed refl refl refl refl refl
      refl refl

search_misses_last_example :
    program_of (
      search files tt true none
        (codes "mine")
        (fuel_of (some (codes "/sbin:/bin:")))
        true
        (some (codes "/sbin:/bin:"))
        0
        0)
    ≡ none
unfolding split_path names_in bytes_eq ends_in_entry wants_slash NoneThere
search_misses_last_example =
    search_misses_last files tt (codes "mine") (codes "/sbin:/bin") refl
      ((2, refl), ((2, refl), tt))

-- shellexec with the same path runs the file.
tested_shellexec_last :
    shellexec kernel (codes "mine") [] (some (codes "/sbin:/bin:")) (pos 0)
    ≡ replaced (codes "mine") (codes "mine" ∷ [])
unfolding shellexec wants_slash bytes_eq
tested_shellexec_last = refl

abbrev hashed_map : Bytes → Option (Cmd Bytes Bytes)
hashed_map m = cmd_of (entry_of m (hashed.cmdtable (bucket m)))

hashed-Refines : Refines hashed hashed_map
unfolding Distinct entry_of bytes_eq
hashed-Refines =
    ((λ i. if_split Distinct (i == bucket (codes "f")) (refl, (refl, tt)) tt), λ m. refl)

table-Refines_example :
    Refines
      (defun (codes "G") (codes "new") hashed)
      (with_command (codes "G") (function (codes "new")) hashed_map)
    × Refines (unsetfunc (codes "f") hashed) (without_function (codes "f") hashed_map)
    × Refines (hashcd hashed) hashed_map
    × Refines (changepath (codes "/bin") hashed) (λ m. not_cached (hashed_map m))
table-Refines_example =
    table-Refines hashed hashed_map hashed-Refines (codes "f") (codes "G") (codes "/bin")
      (codes "new")
