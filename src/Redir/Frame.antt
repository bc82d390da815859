-- ===== src/Redir/Frame.antt =====
-- A redirection changes the descriptor that it is for, and no other, also where it fails.
use gwsh.Base.{
  ℕ, ◌≡◌, ◌≢◌, ◌∙◌, ◌⊎◌, inl, inr, refl, sym, subst, Bool, true, false, Option, none, some, Bytes,
  ◌==◌, leb, if◌then◌else◌, length, arith, ==_iff, Bool-cases, if_split, if_cases,
}
use gwsh.Base.Run.{Outcome, ok, err, ◌>>=◌, ret, state_of}
use gwsh.Redir.System.{
  Stat, absent, regular, other_file, Mode, wronly, Open, opened, open_failed, Pipe, pipe_is,
  pipe_failed, Os, IsOs, SameBut, SameFiles, NewAt, Dup2Ok, OpenOk, PipeOk,
}
use gwsh.Redir.{
  Kind, nfrom, nfromto, nto, nclobber, nappend, ntofd, nfromfd, nhere, nxhere, Redir, State, Error,
  R, opened_as, open_or, not_regular, noclobber, checked, check_fd, here_text, here_pipe, openhere,
  expanded, openredirect, cannot_create, duplicated, moved, is_dup, dupredirect, is_fd,
}

pub ≡-cases : (a b : ℕ) → (a ≡ b) ⊎ (a ≢ b)
≡-cases a b = elim (Bool-cases (a == b)) [
  | inl h ↦ inl ((==_iff a b).0 h)
  | inr h ↦ inr (λ e. ground (arith, e, h))
]

module _ {K : Type 0} (os : Os K) (is_os : IsOs os) where
  abbrev pub SameList : State K → State K → Type 0
  SameList st st' = st'.redirlist ≡ st.redirlist

  -- The result of openredirect, for >& and <& and for the others.
  abbrev OpenedAs : Bool → State K → Outcome Error (State K) (Option ℕ) → Type 0
  OpenedAs dup st (err e st') = SameFiles os st.os st'.os × SameList st st'
  OpenedAs true st (ok r st') = SameFiles os st.os st'.os × SameList st st'
  OpenedAs false st (ok none st') = ⊥
  OpenedAs false st (ok (some f) st') = NewAt os f st.os st'.os × SameList st st'

  abbrev pub Frame : {A : Type 0} → ℕ → State K → Outcome Error (State K) A → Type 0
  Frame fd st o = SameBut os fd st.os (state_of o).os × SameList st (state_of o)

  open_or-OpenedAs :
      (e : Error) (mode : Mode) (name : Bytes) (st : State K)
      → OpenedAs false st (open_or os e mode name st)
  open_or-OpenedAs e mode name st =
      by (os.open_file mode name st.os) (is_os.open_ok mode name st.os)
    where
      by : (o : Open K) → OpenOk os st.os o → OpenedAs false st (opened_as os e st o)
      by (opened f k) h = (h, refl)
      by open_failed h = (λ i. refl, refl)

  closed_again : (f : ℕ) (k k' : K) → NewAt os f k k' → SameFiles os k (os.close f k')
  closed_again f k k' new i = elim (≡-cases i f) [
    | inl e ↦ rw e (is_os.close_none f k' ∙ sym new.0)
    | inr n ↦ is_os.close_other f k' i n ∙ new.1 i n
  ]

  noclobber-OpenedAs :
      (fname : Bytes) (st : State K) (s : Stat) → OpenedAs false st (noclobber os fname s st)
  noclobber-OpenedAs fname st absent = open_or-OpenedAs _ _ fname st
  noclobber-OpenedAs fname st regular = (λ i. refl, refl)
  noclobber-OpenedAs fname st other_file =
      by (os.open_file wronly fname st.os) (is_os.open_ok wronly fname st.os)
    where
      by :
          (o : Open K)
          → OpenOk os st.os o
          → OpenedAs false st
              (elim (opened_as os (cannot_create fname) st o)
                as (λ _. Outcome Error (State K) (Option ℕ)) [
                  | ok a s' ↦ not_regular os fname a s'
                  | err e s' ↦ err e s'
                ])
      by open_failed h = (λ i. refl, refl)
      by (opened f k) h =
          if_split (OpenedAs false st) (os.fstat_is_regular f k) (closed_again f st.os k h, refl)
            (h, refl)

  here_text-same : (w : ℕ) (text : Bytes) (k : K) → SameFiles os k (here_text os w text k)
  here_text-same w text k =
      if_split (SameFiles os k) (leb (length text) os.pipesize) (is_os.write_ok w text k)
        (is_os.forked_ok w text k)

  openhere-OpenedAs : (text : Bytes) (st : State K) → OpenedAs false st (openhere os text st)
  unfolding openhere
  openhere-OpenedAs text st = by (os.pipe st.os) (is_os.pipe_ok st.os)
    where
      by : (o : Pipe K) → PipeOk os st.os o → OpenedAs false st (here_pipe os text st o)
      by pipe_failed h = (λ i. refl, refl)
      by (pipe_is r w k) h = ((h.0, λ i n. without w k r h i n), refl)
        where
          without :
              (w : ℕ) (k : K) (r : ℕ)
              → PipeOk os st.os (pipe_is r w k)
              → SameBut os r st.os (os.close w (here_text os w text k))
          without w k r h i n = elim (≡-cases i w) [
            | inl e ↦ rw e (is_os.close_none w (here_text os w text k) ∙ sym h.1)
            | inr n' ↦
                is_os.close_other w (here_text os w text k) i n'
                ∙ here_text-same w text k i
                ∙ h.2 i n n'
          ]

  check_fd-OpenedAs : (f : Option ℕ) (st : State K) → OpenedAs true st (check_fd os f st)
  check_fd-OpenedAs none st = (λ i. refl, refl)
  check_fd-OpenedAs (some f) st = by (os.at st.os f)
    where
      by : (file : Option ℕ) → OpenedAs true st (checked os (some f) file st)
      by none = (λ i. refl, refl)
      by (some file) = (λ i. refl, refl)

  expanded-OpenedAs : (text : Option Bytes) (st : State K) → OpenedAs false st (expanded os text st)
  expanded-OpenedAs none st = (λ i. refl, refl)
  expanded-OpenedAs (some text) st = openhere-OpenedAs text st

  openredirect-OpenedAs :
      (expand : Bytes → Option Bytes) (kind : Kind) (st : State K)
      → OpenedAs (is_dup os kind) st (openredirect os expand kind st)
  unfolding openredirect
  openredirect-OpenedAs expand (nfrom fname) st = open_or-OpenedAs _ _ fname st
  openredirect-OpenedAs expand (nfromto fname) st = open_or-OpenedAs _ _ fname st
  openredirect-OpenedAs expand (nto fname) st =
      if_split (OpenedAs false st) st.cflag (noclobber-OpenedAs fname st (os.stat fname st.os))
        (open_or-OpenedAs _ _ fname st)
  openredirect-OpenedAs expand (nclobber fname) st = open_or-OpenedAs _ _ fname st
  openredirect-OpenedAs expand (nappend fname) st = open_or-OpenedAs _ _ fname st
  openredirect-OpenedAs expand (ntofd f) st = check_fd-OpenedAs f st
  openredirect-OpenedAs expand (nfromfd f) st = check_fd-OpenedAs f st
  openredirect-OpenedAs expand (nhere text) st = openhere-OpenedAs text st
  openredirect-OpenedAs expand (nxhere text) st = expanded-OpenedAs (expand text) st

  dup2-same : (f fd : ℕ) (k : K) (r : Bool × K) → Dup2Ok os f fd k r → SameBut os fd k r.1
  dup2-same f fd k (true, k') h i n = h.1 i n
  dup2-same f fd k (false, k') h i n = h i

  duplicated-Frame :
      (fd : ℕ) (st : State K) (r : Bool × K)
      → SameBut os fd st.os r.1
      → Frame fd st (duplicated os fd st r)
  duplicated-Frame fd st (true, k) h = (h, refl)
  duplicated-Frame fd st (false, k) h = (h, refl)

  -- A new descriptor is moved to fd.
  moved-same :
      (fd f : ℕ) (k k' : K) → NewAt os f k k' → SameBut os fd k (os.close f (os.dup2 f fd k').1)
  moved-same fd f k k' new i n = elim (≡-cases i f) [
    | inl e ↦ rw e (is_os.close_none f (os.dup2 f fd k').1 ∙ sym new.0)
    | inr n' ↦
        is_os.close_other f (os.dup2 f fd k').1 i n'
        ∙ dup2-same f fd k' (os.dup2 f fd k') (is_os.dup2_ok f fd k') i n
        ∙ new.1 i n'
  ]

  -- What follows openredirect.
  abbrev placed : ℕ → Bool → Option ℕ → R K Unit
  placed fd dup newfd = if is_fd os newfd fd then ret tt else dupredirect os fd dup newfd

  close-Frame :
      (fd : ℕ) (st st' : State K)
      → SameFiles os st.os st'.os
      → SameList st st'
      → Frame fd st (dupredirect os fd true none st')
  unfolding dupredirect
  close-Frame fd st st' h l = ((λ i n. is_os.close_other fd st'.os i n ∙ h i), l)

  dup-Frame :
      (fd f : ℕ) (st st' : State K)
      → SameFiles os st.os st'.os
      → SameList st st'
      → Frame fd st (duplicated os fd st' (os.dup2 f fd st'.os))
  dup-Frame fd f st st' h l = by (os.dup2 f fd st'.os) (is_os.dup2_ok f fd st'.os)
    where
      by : (r : Bool × K) → Dup2Ok os f fd st'.os r → Frame fd st (duplicated os fd st' r)
      by (true, k) d = ((λ i n. d.1 i n ∙ h i), l)
      by (false, k) d = ((λ i n. d i ∙ h i), l)

  move-Frame :
      (fd f : ℕ) (st st' : State K)
      → NewAt os f st.os st'.os
      → SameList st st'
      → Frame fd st (moved os fd f st' (os.dup2 f fd st'.os))
  move-Frame fd f st st' h l = by (os.dup2 f fd st'.os) (moved-same fd f st.os st'.os h)
    where
      by : (r : Bool × K) → SameBut os fd st.os (os.close f r.1) → Frame fd st (moved os fd f st' r)
      by (true, k) d = (d, l)
      by (false, k) d = (d, l)

  placed-Frame :
      (fd : ℕ) (dup : Bool) (newfd : Option ℕ) (st st' : State K)
      → OpenedAs dup st (ok newfd st')
      → Frame fd st (placed fd dup newfd st')
  unfolding dupredirect
  placed-Frame fd true none st st' h = close-Frame fd st st' h.0 h.1
  placed-Frame fd false none st st' h = elim h [ ]
  placed-Frame fd true (some f) st st' h =
      if_split (λ (m : R K Unit). Frame fd st (m st')) (f == fd) ((λ i n. h.0 i), h.1)
        (dup-Frame fd f st st' h.0 h.1)
  placed-Frame fd false (some f) st st' h =
      if_cases (λ (m : R K Unit). Frame fd st (m st')) (f == fd)
        (λ e. (subst (λ j. SameBut os j st.os st'.os) ((==_iff f fd).0 e) h.0.1, h.1))
        (λ _. move-Frame fd f st st' h.0 h.1)

  -- One redirection, after the descriptor is saved.
  pub opened-Frame :
      (expand : Bytes → Option Bytes) (n : Redir) (st : State K)
      → Frame n.fd st
          ((openredirect os expand n.kind >>= λ newfd. placed n.fd (is_dup os n.kind) newfd) st)
  opened-Frame expand n st =
      by (openredirect os expand n.kind st) (openredirect-OpenedAs expand n.kind st)
    where
      by :
          (o : Outcome Error (State K) (Option ℕ))
          → OpenedAs (is_dup os n.kind) st o
          → Frame n.fd st (elim o as (λ _. Outcome Error (State K) Unit) [
            | ok newfd st' ↦ placed n.fd (is_dup os n.kind) newfd st'
            | err e st' ↦ err e st'
          ])
      by (ok newfd st') h = placed-Frame n.fd (is_dup os n.kind) newfd st st' h
      by (err e st') h = ((λ i n. h.0 i), h.1)
