-- ===== src/Redir.antt =====
-- src/redir.c: redirections, and the descriptors that are saved to undo them. The system calls are the
-- interface Os, over the state K of the system. F_DUPFD_CLOEXEC is taken to be there.
pub mod System
pub mod Frame
pub mod Saved
pub mod Undo
pub mod Nested
use gwsh.Base.{
  ℕ, zero, suc, ◌+◌, Bool, true, false, not, ◌&&◌, Option, none, some, List, [], ◌∷◌, Bytes, ◌==◌,
  leb, if◌then◌else◌, length,
}
use gwsh.Base.Run.{Outcome, ok, err, Run, ◌>>=◌, ret, fail, gets, modify}
use gwsh.Redir.System.{
  Dupfd, dup_is, dup_ebadf, dup_failed, Stat, absent, regular, other_file, Mode, rdonly, rdwr_creat,
  wronly_creat_excl, wronly, wronly_creat_trunc, wronly_creat_append, Open, opened, open_failed,
  Pipe, pipe_is, pipe_failed, Os,
}

-- The type of a redirection with the name of the file, the other descriptor (none for -), or the text of
-- the here document; that of nxhere is to be expanded.
pub data Kind : Type 0 where
  nfrom nfromto nto nclobber nappend : Bytes → Kind
  ntofd nfromfd : Option ℕ → Kind
  nhere nxhere : Bytes → Kind

pub record Redir : Type 0 where
  pub fd : ℕ
  pub kind : Kind

-- A slot of renamed: EMPTY, CLOSED, or the descriptor that holds what was there.
pub data Slot : Type 0 where
  empty closed : Slot
  saved : ℕ → Slot

abbrev pub Renamed : Type 0
Renamed = ℕ → Slot

pub record State (K : Type 0) : Type 0 where
  pub os : K
  pub redirlist : List Renamed
  pub preverrout : ℕ
  pub cflag : Bool

-- What sh_error is called with. `null_list` is a read by the null pointer redirlist.
pub data Error : Type 0 where
  cannot_open cannot_create : Bytes → Error
  bad_fd : ℕ → Error
  no_pipe no_expansion null_list : Error

abbrev pub R : Type 0 → Type 0 → Type 0
R K A = Run Error (State K) A

abbrev pub is_empty : Slot → Bool
is_empty empty = true
is_empty _ = false

abbrev pub put_slot : ℕ → Slot → Renamed → Renamed
put_slot i slot renamed j = if j == i then slot else renamed j

module _ {K : Type 0} (os : Os K) where
  abbrev pub with_os : K → State K → State K
  with_os k st = record st { os = k }

  -- A call that changes the system only.
  abbrev pub sys : (K → K) → R K Unit
  sys f st = ok tt (with_os (f st.os) st)

  -- close(-1) does nothing.
  abbrev pub close_opt : Option ℕ → K → K
  close_opt none k = k
  close_opt (some fd) k = os.close fd k

  abbrev pub saved_as : ℕ → Option ℕ → State K → Dupfd × K → Outcome Error (State K) Slot
  saved_as from ofd st (dup_is n, k) = ok (saved n) (with_os (close_opt ofd k) st)
  saved_as from ofd st (dup_ebadf, k) = ok closed (with_os k st)
  saved_as from ofd st (dup_failed, k) = err (bad_fd from) (with_os (close_opt ofd k) st)

  -- The result -1, for a descriptor that is not open, is CLOSED.
  unfoldable pub savefd : ℕ → Option ℕ → R K Slot
  savefd from ofd st = saved_as from ofd st (os.dupfd from 10 st.os)

  abbrev pub opened_as : Error → State K → Open K → Outcome Error (State K) (Option ℕ)
  opened_as e st (opened f k) = ok (some f) (with_os k st)
  opened_as e st open_failed = err e st

  abbrev pub open_or : Error → Mode → Bytes → R K (Option ℕ)
  open_or e mode fname st = opened_as e st (os.open_file mode fname st.os)

  -- noclobber, where the name is not that of a regular file: it may have become one since.
  abbrev pub not_regular : Bytes → Option ℕ → R K (Option ℕ)
  not_regular fname none st = ok none st
  not_regular fname (some f) st =
      if os.fstat_is_regular f st.os
      then err (cannot_create fname) (with_os (os.close f st.os) st)
      else ok (some f) st

  abbrev pub noclobber : Bytes → Stat → R K (Option ℕ)
  noclobber fname absent = open_or (cannot_create fname) wronly_creat_excl fname
  noclobber fname other_file = do
    f ← open_or (cannot_create fname) wronly fname
    not_regular fname f
  noclobber fname regular = fail (cannot_create fname)

  abbrev pub truncate : Bytes → R K (Option ℕ)
  truncate fname = open_or (cannot_create fname) wronly_creat_trunc fname

  abbrev pub truncate_or_not : Bytes → R K (Option ℕ)
  truncate_or_not fname st =
      if st.cflag then noclobber fname (os.stat fname st.os) st else truncate fname st

  -- fcntl(f, F_GETFD)
  abbrev pub checked : Option ℕ → Option ℕ → R K (Option ℕ)
  checked none file = ret none
  checked (some f) none = fail (bad_fd f)
  checked (some f) (some file) = ret (some f)

  abbrev pub check_fd : Option ℕ → R K (Option ℕ)
  check_fd none st = ok none st
  check_fd (some f) st = checked (some f) (os.at st.os f) st

  abbrev pub here_text : ℕ → Bytes → K → K
  here_text w text k =
      if leb (length text) os.pipesize then os.write w text k else os.write_forked w text k

  abbrev pub here_pipe : Bytes → State K → Pipe K → Outcome Error (State K) (Option ℕ)
  here_pipe text st (pipe_is r w k) = ok (some r) (with_os (os.close w (here_text w text k)) st)
  here_pipe text st pipe_failed = err no_pipe st

  unfoldable pub openhere : Bytes → R K (Option ℕ)
  openhere text st = here_pipe text st (os.pipe st.os)

  -- `expand` is expandarg, which may raise.
  abbrev pub expanded : Option Bytes → R K (Option ℕ)
  expanded none = fail no_expansion
  expanded (some text) = openhere text

  -- The result is none for -1.
  unfoldable pub openredirect : (Bytes → Option Bytes) → Kind → R K (Option ℕ)
  unfolding openhere
  openredirect expand (nfrom fname) = open_or (cannot_open fname) rdonly fname
  openredirect expand (nfromto fname) = open_or (cannot_create fname) rdwr_creat fname
  openredirect expand (nto fname) = truncate_or_not fname
  openredirect expand (nclobber fname) = truncate fname
  openredirect expand (nappend fname) = open_or (cannot_create fname) wronly_creat_append fname
  openredirect expand (ntofd f) = check_fd f
  openredirect expand (nfromfd f) = check_fd f
  openredirect expand (nhere text) = openhere text
  openredirect expand (nxhere text) = expanded (expand text)

  abbrev pub duplicated : ℕ → State K → Bool × K → Outcome Error (State K) Unit
  duplicated fd st (true, k) = ok tt (with_os k st)
  duplicated fd st (false, k) = err (bad_fd fd) (with_os k st)

  abbrev pub moved : ℕ → ℕ → State K → Bool × K → Outcome Error (State K) Unit
  moved fd f st (b, k) = duplicated fd st (b, os.close f k)

  abbrev pub is_dup : Kind → Bool
  is_dup (ntofd f) = true
  is_dup (nfromfd f) = true
  is_dup _ = false

  unfoldable pub dupredirect : ℕ → Bool → Option ℕ → R K Unit
  dupredirect fd dup none st = ok tt (with_os (os.close fd st.os) st)
  dupredirect fd dup (some f) st =
      if dup then duplicated fd st (os.dup2 f fd st.os) else moved fd f st (os.dup2 f fd st.os)

  abbrev pub is_fd : Option ℕ → ℕ → Bool
  is_fd none fd = false
  is_fd (some f) fd = f == fd

  abbrev pub put_top : ℕ → Slot → List Renamed → List Renamed
  put_top fd slot [] = []
  put_top fd slot (t ∷ ts) = put_slot fd slot t ∷ ts

  -- *p = savefd(fd, -1), where the slot is EMPTY
  abbrev pub fill_slot : ℕ → Slot → State K → Outcome Error (State K) Unit
  fill_slot fd slot st = ok tt (record st { redirlist = put_top fd slot st.redirlist })

  abbrev pub save_in : ℕ → List Renamed → R K Unit
  save_in fd [] = ret tt
  save_in fd (t ∷ ts) =
      if is_empty (t fd) then (do slot ← savefd fd none; fill_slot fd slot) else ret tt

  -- `push` is REDIR_PUSH; sv is NULL where redirlist is.
  unfoldable pub save_slot : Bool → ℕ → R K Unit
  unfolding savefd
  save_slot push fd st = if push then save_in fd st.redirlist st else ok tt st

  -- The body of the loop of redirect.
  unfoldable pub redirect_one : (Bytes → Option Bytes) → Bool → Redir → R K Unit
  unfolding save_slot openredirect dupredirect
  redirect_one expand push n = do
    _ ← save_slot push n.fd
    newfd ← openredirect expand n.kind
    if is_fd newfd n.fd then ret tt else dupredirect n.fd (is_dup n.kind) newfd

  unfoldable pub redirect_each : (Bytes → Option Bytes) → Bool → List Redir → R K Unit
  unfolding redirect_one
  redirect_each expand push [] = ret tt
  redirect_each expand push (n ∷ ns) = do
    _ ← redirect_one expand push n
    redirect_each expand push ns

  abbrev pub errout_of : Slot → ℕ → ℕ
  errout_of (saved n) preverrout = n
  errout_of _ preverrout = preverrout

  abbrev pub errout_in : List Renamed → ℕ → ℕ
  errout_in [] preverrout = preverrout
  errout_in (t ∷ ts) preverrout = errout_of (t 2) preverrout

  -- preverrout goes where standard error went before.
  abbrev pub note_errout : Bool → R K Unit
  note_errout push st =
      ok tt (if push then record st { preverrout = errout_in st.redirlist st.preverrout } else st)

  unfoldable pub redirect : (Bytes → Option Bytes) → Bool → List Redir → R K Unit
  unfolding redirect_each
  redirect expand push [] = ret tt
  redirect expand push (n ∷ ns) = do _ ← redirect_each expand push (n ∷ ns); note_errout push

  -- The status, 2 where an error was raised; each of these errors is EXERROR.
  abbrev pub status_of : Outcome Error (State K) Unit → ℕ × State K
  status_of (ok _ st) = (0, st)
  status_of (err e st) = (2, st)

  unfoldable pub redirectsafe : (Bytes → Option Bytes) → Bool → List Redir → State K → ℕ × State K
  unfolding redirect
  redirectsafe expand push redir st = status_of (redirect expand push redir st)

  unfoldable pub pushredir : List Redir → State K → State K
  pushredir [] st = st
  pushredir (n ∷ ns) st = record st { redirlist = (λ i. empty) ∷ st.redirlist }

  abbrev pub pop_slot : Bool → ℕ → Slot → K → K
  pop_slot drop i closed k = if drop then k else os.close i k
  pop_slot drop i empty k = k
  pop_slot drop i (saved n) k = os.close n (if drop then k else (os.dup2 n i k).1)

  -- The loop of popredir from i on, with n slots to go.
  unfoldable pub pop_slots : Bool → Renamed → ℕ → ℕ → K → K
  pop_slots drop renamed zero i k = k
  pop_slots drop renamed (suc n) i k =
      pop_slots drop renamed n (suc i) (pop_slot drop i (renamed i) k)

  abbrev pub pop_top : Bool → List Renamed → R K Unit
  pop_top drop [] st = err null_list st
  pop_top drop (t ∷ ts) st = ok tt (record st { os = pop_slots drop t 10 0 st.os; redirlist = ts })

  unfoldable pub popredir : Bool → R K Unit
  unfolding pop_slots
  popredir drop st = pop_top drop st.redirlist st

  -- unwindredir, of the `n` tables above stop
  unfoldable pub unwindredir : ℕ → Bool → R K Unit
  unfolding popredir
  unwindredir zero drop = ret tt
  unwindredir (suc n) drop = do _ ← popredir drop; unwindredir n drop
