-- ===== src/Var/Table.antt =====
-- src/var.h and src/var.c: struct var, the flags, and the table of chains. The flags that say only who
-- frees a text (VTEXTFIXED, VSTACK and VNOSAVE) are left out, as are the addresses of texts.
use gwsh.Base.{
  ℕ, ◌%◌, Bool, true, false, ◌||◌, Option, none, some, List, [], ◌∷◌, Bytes, String, codes, ◌==◌,
  if◌then◌else◌,
}
use gwsh.Var.Name.{stop, varequal, hashval}

pub record Flags : Type 0 where
  pub vexport : Bool
  pub vreadonly : Bool
  pub vstrfixed : Bool
  pub vunset : Bool
  pub vnofunc : Bool
  pub vlatefunc : Bool
  pub vuser1 : Bool

abbrev pub no_flags : Flags
no_flags = record {
  vexport = false;
  vreadonly = false;
  vstrfixed = false;
  vunset = false;
  vnofunc = false;
  vlatefunc = false;
  vuser1 = false;
}

-- a | b
abbrev pub or_flags : Flags → Flags → Flags
or_flags a b = record {
  vexport = a.vexport || b.vexport;
  vreadonly = a.vreadonly || b.vreadonly;
  vstrfixed = a.vstrfixed || b.vstrfixed;
  vunset = a.vunset || b.vunset;
  vnofunc = a.vnofunc || b.vnofunc;
  vlatefunc = a.vlatefunc || b.vlatefunc;
  vuser1 = a.vuser1 || b.vuser1;
}

-- The functions that are called when a variable is set or unset.
pub data Callback : Type 0 where
  changemail changepath getoptsreset changelocale sethistsize : Callback

-- `name` and `value` are the text up to its first `=` or NUL, and behind that. `local` is the length
-- of the list of environments at the one in which the variable was made local, 0 for NULL.
pub record Var : Type 0 where
  pub name : Bytes
  pub value : Bytes
  pub flags : Flags
  pub func : Option Callback
  pub local : ℕ

abbrev pub vtabsize : ℕ
vtabsize = 39

-- hashvar: the index of the chain
abbrev pub hashvar : Bytes → ℕ
hashvar p = hashval p % vtabsize

-- *findvar(vpp, name)
unfoldable pub findvar : Bytes → List Var → Option Var
findvar name [] = none
findvar name (vp ∷ vars) =
    let rest = findvar name vars in if varequal vp.name name then some vp else rest

abbrev pub place : Option Var → List Var → List Var
place none vars = vars
place (some vp) vars = vp ∷ vars

-- What is stored through the pointer that findvar returns: the entry there, if there is one, is
-- changed or taken out, and else one is added at the end.
unfoldable pub at_var : Bytes → (Option Var → Option Var) → List Var → List Var
at_var name f [] = place (f none) []
at_var name f (vp ∷ vars) =
    let rest = at_var name f vars in
    if varequal vp.name name then place (f (some vp)) vars else vp ∷ rest

-- The part of a text before its first `=`, and behind it.
unfoldable pub before_eq : Bytes → Bytes
before_eq [] = []
before_eq (c ∷ s) = let rest = before_eq s in if stop c == 0 then [] else c ∷ rest

unfoldable pub value_of : Bytes → Bytes
value_of [] = []
value_of (c ∷ s) = let rest = value_of s in if stop c == 0 then s else rest

-- strchr(s, '=') != NULL
unfoldable pub has_eq : Bytes → Bool
has_eq [] = false
has_eq (c ∷ s) = c == b'=' || has_eq s

abbrev initial : String → String → Bool → Option Callback → Bool → Var
initial name value unset func late = record {
  name = codes name;
  value = codes value;
  flags = record no_flags { vstrfixed = true; vunset = unset; vlatefunc = late };
  func = func;
  local = 0;
}

abbrev ifs_chars : Bytes
ifs_chars = b' ' ∷ 9 ∷ 10 ∷ []

-- varinit, without the variables of WITH_LINENO and WITH_LOCALE
abbrev pub varinit : List Var
varinit =
    record (initial "IFS" "" false none false) { value = ifs_chars }
    ∷ initial "MAIL" "" true (some changemail) false
    ∷ initial "MAILPATH" "" true (some changemail) false
    ∷ initial "PATH" "/usr/local/sbin:/usr/local/bin:/usr/sbin:/usr/bin:/sbin:/bin" false
        (some changepath) false
    ∷ initial "FPATH" "" true none false
    ∷ initial "PS1" "$ " false none false
    ∷ initial "PS2" "> " false none false
    ∷ initial "PS4" "+ " false none false
    ∷ initial "OPTIND" "1" false (some getoptsreset) true
    ∷ initial "PWD" "" true none false
    ∷ initial "TERM" "" true none false
    ∷ initial "HISTSIZE" "" true (some sethistsize) false
    ∷ []

abbrev push_front : Var → (ℕ → List Var) → ℕ → List Var
push_front vp tab i = if i == hashvar vp.name then vp ∷ tab i else tab i

-- The loop of initvar.
unfoldable pub initvar : List Var → (ℕ → List Var) → ℕ → List Var
initvar [] tab = tab
initvar (vp ∷ vars) tab = initvar vars (push_front vp tab)
