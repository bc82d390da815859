-- ===== src/Exec/Table.antt =====
-- src/exec.c: the hash table of commands.
pub mod Lookup
pub mod Sweep
pub mod Maps
pub mod Refine
pub mod Entered
use gwsh.Base.{
  ℕ, zero, suc, ◌+◌, ◌*◌, ◌%◌, ◌≡◌, Bool, true, false, not, ◌&&◌, ◌||◌, Option, none, some, List,
  [], ◌∷◌, ◌++◌, Bytes, ◌==◌, if◌then◌else◌, bytes_eq, head_byte,
}
use gwsh.Base.Int.{ℤ}

-- cmdtype with the member of `union param` that it calls for. `F` are the functions, `B` the builtins.
pub data Cmd (F B : Type 0) : Type 0 where
  unknown : Cmd F B
  normal : ℤ → Cmd F B
  function : F → Cmd F B
  builtin : B → Cmd F B

pub record Tblentry (F B : Type 0) : Type 0 where
  pub cmdname : Bytes
  pub cmd : Cmd F B
  pub rehash : Bool

abbrev pub cmdtablesize : ℕ
cmdtablesize = 31

-- cmdtable, the chains; and lastcmdentry, the chain and how many entries of it stand before the link.
-- `env` is the rest of the shell.
pub record Commands (F B S : Type 0) : Type 0 where
  pub cmdtable : ℕ → List (Tblentry F B)
  pub lastcmdentry : ℕ × ℕ
  pub env : S

abbrev pub add_bytes : ℕ → Bytes → ℕ
add_bytes h [] = h
add_bytes h (c ∷ p) = add_bytes (h + c) p

abbrev pub bucket : Bytes → ℕ
bucket name = add_bytes (head_byte name * 16) name % 32768 % cmdtablesize

-- How many entries stand before the link to the entry of the name, or to the end.
unfoldable pub position : {F B : Type 0} → Bytes → List (Tblentry F B) → ℕ
position name [] = 0
position name (cmdp ∷ chain) =
    let rest = suc (position name chain) in if bytes_eq cmdp.cmdname name then 0 else rest

unfoldable pub entry_at : {F B : Type 0} → ℕ → List (Tblentry F B) → Option (Tblentry F B)
entry_at n [] = none
entry_at zero (cmdp ∷ chain) = some cmdp
entry_at (suc n) (cmdp ∷ chain) = entry_at n chain

unfoldable pub remove_at : {F B : Type 0} → ℕ → List (Tblentry F B) → List (Tblentry F B)
remove_at n [] = []
remove_at zero (cmdp ∷ chain) = chain
remove_at (suc n) (cmdp ∷ chain) = cmdp ∷ remove_at n chain

-- A write through the pointer to the entry.
unfoldable pub write_at :
    {F B : Type 0} → ℕ → (Tblentry F B → Tblentry F B) → List (Tblentry F B) → List (Tblentry F B)
write_at n f [] = []
write_at zero f (cmdp ∷ chain) = f cmdp ∷ chain
write_at (suc n) f (cmdp ∷ chain) = cmdp ∷ write_at n f chain

abbrev pub new_entry : {F B : Type 0} → Bytes → Tblentry F B
new_entry name = record { cmdname = name; cmd = unknown; rehash = false }

abbrev pub put_chain :
    {F B : Type 0} → ℕ → List (Tblentry F B) → (ℕ → List (Tblentry F B)) → ℕ → List (Tblentry F B)
put_chain i chain table j = if j == i then chain else table j

-- cmdlookup(name, 0): lastcmdentry is set.
abbrev pub looked_up : {F B S : Type 0} → Bytes → Commands F B S → Commands F B S
looked_up name st = record st {
  lastcmdentry = (bucket name, position name (st.cmdtable (bucket name)));
}

-- *lastcmdentry
abbrev pub last_entry : {F B S : Type 0} → Commands F B S → Option (Tblentry F B)
last_entry st = entry_at st.lastcmdentry.1 (st.cmdtable st.lastcmdentry.0)

abbrev pub change_last :
    {F B S : Type 0}
    → (ℕ → List (Tblentry F B) → List (Tblentry F B))
    → Commands F B S
    → Commands F B S
change_last f st = record st {
  cmdtable =
      put_chain st.lastcmdentry.0 (f st.lastcmdentry.1 (st.cmdtable st.lastcmdentry.0)) st.cmdtable;
}

abbrev pub append_if_none :
    {F B : Type 0} → Bytes → Option (Tblentry F B) → List (Tblentry F B) → List (Tblentry F B)
append_if_none name none chain = chain ++ (new_entry name ∷ [])
append_if_none name (some cmdp) chain = chain

-- The result is *lastcmdentry afterwards. A new entry's rehash is not set; who adds one sets it.
unfoldable pub cmdlookup : {F B S : Type 0} → Bytes → Bool → Commands F B S → Commands F B S
unfolding position entry_at
cmdlookup name add st =
    let st' = looked_up name st in
    if add then change_last (λ _ chain. append_if_none name (last_entry st') chain) st' else st'

-- The entry that the last lookup gave is taken out.
unfoldable pub delete_cmd_entry : {F B S : Type 0} → Commands F B S → Commands F B S
unfolding remove_at
delete_cmd_entry st = change_last remove_at st

-- What is written to the entry of the last lookup.
unfoldable pub set_entry :
    {F B S : Type 0} → (Tblentry F B → Tblentry F B) → Commands F B S → Commands F B S
unfolding write_at
set_entry f st = change_last (λ n. write_at n f) st

unfoldable pub addcmdentry : {F B S : Type 0} → Bytes → Cmd F B → Commands F B S → Commands F B S
unfolding cmdlookup set_entry
addcmdentry name entry st =
    set_entry (λ cmdp. record cmdp { cmd = entry; rehash = false }) (cmdlookup name true st)

unfoldable pub defun : {F B S : Type 0} → Bytes → F → Commands F B S → Commands F B S
unfolding addcmdentry
defun text func st = addcmdentry text (function func) st

abbrev pub is_function : {F B : Type 0} → Cmd F B → Bool
is_function (function f) = true
is_function _ = false

abbrev pub is_normal : {F B : Type 0} → Cmd F B → Bool
is_normal (normal i) = true
is_normal _ = false

abbrev pub is_cached : {F B : Type 0} → Cmd F B → Bool
is_cached (normal i) = true
is_cached (builtin b) = true
is_cached _ = false

-- Whether there is an entry, of that kind.
abbrev pub entry_is : {F B : Type 0} → (Cmd F B → Bool) → Option (Tblentry F B) → Bool
entry_is kind none = false
entry_is kind (some cmdp) = kind cmdp.cmd

unfoldable pub unsetfunc : {F B S : Type 0} → Bytes → Commands F B S → Commands F B S
unfolding cmdlookup delete_cmd_entry entry_at
unsetfunc name st =
    let st' = cmdlookup name false st in
    if entry_is is_function (last_entry st') then delete_cmd_entry st' else st'

abbrev pub mark : {F B : Type 0} → Tblentry F B → Tblentry F B
mark cmdp = if is_normal cmdp.cmd then record cmdp { rehash = true } else cmdp

unfoldable pub mark_all : {F B : Type 0} → List (Tblentry F B) → List (Tblentry F B)
mark_all [] = []
mark_all (cmdp ∷ chain) = mark cmdp ∷ mark_all chain

-- The chains are below cmdtablesize; no other is read.
unfoldable pub hashcd : {F B S : Type 0} → Commands F B S → Commands F B S
unfolding mark_all
hashcd st = record st { cmdtable = λ i. mark_all (st.cmdtable i) }

unfoldable pub drop_cached : {F B : Type 0} → List (Tblentry F B) → List (Tblentry F B)
drop_cached [] = []
drop_cached (cmdp ∷ chain) =
    let rest = drop_cached chain in if is_cached cmdp.cmd then rest else cmdp ∷ rest

unfoldable pub clearcmdentry : {F B S : Type 0} → Commands F B S → Commands F B S
unfolding drop_cached
clearcmdentry st = record st { cmdtable = λ i. drop_cached (st.cmdtable i) }

unfoldable pub changepath : {F B S : Type 0} → Bytes → Commands F B S → Commands F B S
unfolding clearcmdentry
changepath newval st = clearcmdentry st
