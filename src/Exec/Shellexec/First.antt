-- ===== src/Exec/Shellexec/First.antt =====
-- shellexec begins with the file that find_command found.
use gwsh.Base.{
  ℕ, zero, suc, ◌+◌, ◌≤◌, ◌≡◌, ◌∙◌, refl, sym, ap, subst, Bool, true, false, Option, none, some,
  List, [], ◌∷◌, Bytes, if◌then◌else◌, length, arith, Bool-cases, inl, inr,
}
use gwsh.Base.Int.{ℤ, pos, negsuc}
use gwsh.Exec.Path.{padvance, entry_of, next_path, full_name, path_option}
use gwsh.Exec.Path.Split.{split_path, names_in, entries_from, split-entry_of, path_option_plain}
use gwsh.Base.Run.{Outcome, ok}
use gwsh.Exec.Table.{
  Cmd, Tblentry, Commands, bucket, builtin, normal, cmdlookup, last_entry, set_entry,
}
use gwsh.Exec.Table.Entered.{last_entry-entered}
use gwsh.Exec.Table.Lookup.{changed, or_new}
use gwsh.Exec.Table.Lookup
use gwsh.Exec.Find.{
  Calls, Act, Hit, missed, no_change, program, defining, search, search_paths, enter, find_command,
  look_for, by_hit, by_entry, entry_cmd, Answer, fuel_of, has_slash,
}
use gwsh.Exec.Find.Search.{
  first_program, is_program, program_of, length-split_path, ends_in_entry, search-first_program,
}
use gwsh.Exec.Shellexec.{
  Kernel, Tried, Gone, replaced, exec_path, by_path, shellexec, tryexec, runs, after_try,
}

-- The file at a place of the list.
abbrev pub file_at : List Bytes → ℕ → Option Bytes
file_at [] i = none
file_at (f ∷ fs) zero = some f
file_at (f ∷ fs) (suc i) = file_at fs i

some-injective : {A : Type 0} {a b : A} → some a ≡ some b → a ≡ b
some-injective h = cc

-- The file of the first program, by its place.
later :
    {F B S : Type 0} (calls : Calls F B S) (env : S) (fs : List Bytes) (start i : ℕ) (f : Bytes)
    → is_program calls env f ≡ false
    → first_program calls env (f ∷ fs) start ≡ some i
    → first_program calls env fs (suc start) ≡ some i
unfolding first_program
later calls env fs start i f is_not h =
    sym (ap (λ b. if b then some start else first_program calls env fs (suc start)) is_not) ∙ h

first_program_at :
    {F B S : Type 0} (calls : Calls F B S) (env : S) (files : List Bytes) (start i : ℕ)
    → first_program calls env files start ≡ some i
    → (n : ℕ) × (i ≡ start + n)
      × ((file : Bytes) × (file_at files n ≡ some file) × (is_program calls env file ≡ true))
unfolding first_program
first_program_at calls env [] start i h = absurd cc
first_program_at calls env (f ∷ fs) start i h = elim (Bool-cases (is_program calls env f)) [
  | inl is_one ↦ (0, grind arith, (f, refl, is_one))
  | inr is_not ↦
      let (n, e, rest) =
        first_program_at calls env fs (suc start) i (later calls env fs start i f is_not h) in
      let moved : i ≡ start + suc n = omega (arith, e) in (suc n, moved, rest)
]

tryexec_runs :
    (k : Kernel) (cmd name : Bytes) (args : List Bytes)
    → k.execve cmd (name ∷ args) ≡ none
    → tryexec k cmd name args ≡ runs cmd (name ∷ args)
unfolding tryexec
tryexec_runs k cmd name args h = rw (h, tryexec) refl

after_try_replaced :
    (k : Kernel) (e : ℕ) (next : ℕ → Bytes → Gone) (t : Tried) (file : Bytes) (args : List Bytes)
    → t ≡ runs file args
    → after_try k e next t ≡ replaced file args
after_try_replaced k e next t file args h = ap (after_try k e next) h

exec_path-replaced :
    (k : Kernel) (args : List Bytes) (fuel n e : ℕ) (path : Option Bytes) (name file : Bytes)
    → length (entries_from path) ≤ fuel
    → file_at (names_in (entries_from path) name) n ≡ some file
    → k.execve file (name ∷ args) ≡ none
    → exec_path k args fuel path (pos n) e name ≡ replaced file (name ∷ args)
unfolding exec_path names_in padvance tryexec
exec_path-replaced k args fuel n e none name file h at run = absurd cc
exec_path-replaced k args zero n e (some p) name file h at run =
    let same = ap length (split-entry_of p) in absurd (omega (arith, h, same))
exec_path-replaced k args (suc fuel) zero e (some p) name file h at run =
    let here : full_name (entry_of false p).0 name ≡ file =
      some-injective (ap (λ es. file_at (names_in es name) 0) (sym (split-entry_of p)) ∙ at) in
    rw here (
      after_try_replaced k e
        (λ e' name'.
          exec_path k args fuel (next_path (path_option false (entry_of false p).1).1) (negsuc zero)
            e' name')
        _ file (name ∷ args) (tryexec_runs k file name args run))
exec_path-replaced k args (suc fuel) (suc n) e (some p) name file h at run =
    let same = ap length (split-entry_of p) in
    rw (path_option_plain (entry_of false p).1) (
      exec_path-replaced k args fuel n e (next_path (entry_of false p).1) name file
        (omega (arith, h, same))
        (ap (λ es. file_at (names_in es name) (suc n)) (sym (split-entry_of p)) ∙ at) run)

hit_program : (hit : Hit) (i : ℕ) → program_of hit ≡ some i → hit ≡ program i
hit_program (missed idx e) i h = absurd cc
hit_program no_change i h = absurd cc
hit_program (program idx) i h = ap program (some-injective h)
hit_program (defining file) i h = absurd cc

entry_cmd-changed :
    {F B : Type 0} (name : Bytes) (cmd : Cmd F B) (o : Option (Tblentry F B))
    → entry_cmd (changed (λ cmdp. record cmdp { cmd = cmd }) (or_new name o)) ≡ cmd
entry_cmd-changed name cmd none = refl
entry_cmd-changed name cmd (some cmdp) = refl

abbrev answered :
    {F B S : Type 0} → Cmd F B → Commands F B S → Outcome ℕ (Commands F B S) (Answer F B)
answered cmd st = ok (0, cmd) st

-- A program that is found is put into the table.
enter_program :
    {F B S : Type 0} (name : Bytes) (i : ℕ) (st : Commands F B S)
    → (st' : Commands F B S) × (enter name true (normal (pos i)) st ≡ ok (0, normal (pos i)) st')
enter_program {F} {B} {S} name i st =
    let entered : Commands F B S =
      set_entry (λ cmdp. record cmdp { cmd = normal (pos i) }) (cmdlookup name true st) in
    let final : Commands F B S = set_entry (λ cmdp. record cmdp { rehash = false }) entered in
    (
      final,
      ap (λ (cmd : Cmd F B). answered cmd final)
          (ap entry_cmd (last_entry-entered (λ cmdp. record cmdp { cmd = normal (pos i) }) name st)
            ∙ entry_cmd-changed name (normal (pos i))
                (Lookup.entry_of name (st.cmdtable (bucket name)))),
    )

found_by :
    {F B S : Type 0} (calls : Calls F B S) (env : S) (name p : Bytes) (fpath : Option Bytes) (i : ℕ)
    → ends_in_entry p ≡ true
    → first_program calls env (names_in (split_path p) name) 0 ≡ some i
    → search_paths calls env none name (some p) fpath ≡ program i
found_by calls env name p fpath i g h =
    ap
      (λ (hit : Hit). elim hit as (λ _. Hit) [
        | missed idx e ↦ search calls env false none name (fuel_of fpath) true fpath idx e
        | no_change ↦ no_change
        | program idx ↦ program idx
        | defining file ↦ defining file
      ])
      (hit_program _ i (search-first_program calls env name p 0 g ∙ h))

look_for_program :
    {F B S : Type 0} (calls : Calls F B S) (name : Bytes) (updatetbl : Bool)
    (path fpath : Option Bytes) (i : ℕ) (st : Commands F B S)
    → calls.find_builtin name ≡ none
    → search_paths calls st.env none name path fpath ≡ program i
    → look_for calls name none updatetbl path fpath st ≡ enter name updatetbl (normal (pos i)) st
look_for_program {F} {B} {S} calls name updatetbl path fpath i st no_builtin hit =
    ap
      (λ (o : Option B). elim o as (λ _. Outcome ℕ (Commands F B S) (Answer F B)) [
        | some bcmd ↦ enter name updatetbl (builtin bcmd) st
        | none ↦
            by_hit calls name false updatetbl (search_paths calls st.env none name path fpath) st
      ])
      no_builtin
    ∙ ap (λ (h : Hit). by_hit calls name false updatetbl h st) hit

by_path-exec_path :
    (k : Kernel) (args : List Bytes) (p : Bytes) (idx : ℤ) (name : Bytes)
    → ends_in_entry p ≡ true
    → by_path k args (some p) idx name ≡ exec_path k args (fuel_of (some p)) (some p) idx 0 name
unfolding ends_in_entry
by_path-exec_path k args [] idx name g = absurd cc
by_path-exec_path k args (c ∷ p) idx name g = refl

-- The shell looks for a name without a slash that is not hashed and is not a builtin, in a path whose
-- last byte is not a colon. Where the first program stands at a place of the path, find_command gives
-- that place, and where the kernel executes the file at that place, shellexec called with the place and
-- the path replaces the shell by that file, passing over the files before it.
pub find_command-shellexec :
    {F B S : Type 0} (calls : Calls F B S) (k : Kernel) (name p : Bytes) (args : List Bytes)
    (act : Act) (fpath : Option Bytes) (i : ℕ) (file : Bytes) (st : Commands F B S)
    → has_slash name ≡ false
    → last_entry (cmdlookup name false st) ≡ none
    → calls.find_builtin name ≡ none
    → ends_in_entry p ≡ true
    → first_program calls st.env (names_in (split_path p) name) 0 ≡ some i
    → file_at (names_in (split_path p) name) i ≡ some file
    → k.execve file (name ∷ args) ≡ none
    → ((st' : Commands F B S) × (find_command calls name act
            (record { path = some p; is_pathval = true })
            fpath
            st
          ≡ ok (0, normal (pos i)) st'))
      × (is_program calls st.env file ≡ true)
      × (shellexec k name args (some p) (pos i) ≡ replaced file (name ∷ args))
unfolding find_command shellexec
find_command-shellexec calls k name p args act fpath i file st plain absent no_builtin g h at run =
    let hit = found_by calls st.env name p fpath i g h in
    let (st', entered) = enter_program name i (cmdlookup name false st) in
    let (n, e, (first, here, is_one)) =
      first_program_at calls st.env (names_in (split_path p) name) 0 i h in
    let place : n ≡ i = omega (arith, e) in
    (
      (
        st',
        (rw plain (
            ap (λ o. by_entry calls name act true (some p) fpath o (cmdlookup name false st)) absent
            ∙ look_for_program calls name true (some p) fpath i (cmdlookup name false st) no_builtin
                hit
            ∙ entered)),
      ),
      subst (λ f. is_program calls st.env f ≡ true)
          (some-injective (
            sym (subst (λ j. file_at (names_in (split_path p) name) j ≡ some first) place here)
            ∙ at))
          is_one,
      rw plain (
          by_path-exec_path k args p (pos i) name g
          ∙ exec_path-replaced k args (suc (length p)) i 0 (some p) name file (length-split_path p)
              at run),
    )
