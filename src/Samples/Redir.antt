-- ===== src/Samples/Redir.antt =====
-- Descriptors as a list, and redirections over them.
use gwsh.Base.{
  ℕ, zero, suc, ◌≤◌, ◌≡◌, ◌≢◌, ◌∙◌, refl, sym, ap, Bool, true, false, Option, none, some, List, [],
  ◌∷◌, Bytes, arith, codes, length,
}
use gwsh.Redir.System.{
  Dupfd, dup_is, dup_ebadf, regular, opened, pipe_is, Os, IsOs, DupfdOk, Dup2Ok,
}
use gwsh.Redir.{Redir, nfrom, nto, ntofd, State, redirectsafe, pushredir, unwindredir}
use gwsh.Redir.Undo.{push_and_redirect, Ends-Back}
use gwsh.Redir.Nested.{push_all, unwindredir_restores}

-- The files by their descriptors; those behind the end are not open.
abbrev Table : Type 0
Table = List (Option ℕ)

unfoldable file_at : Table → ℕ → Option ℕ
file_at [] i = none
file_at (f ∷ fs) zero = f
file_at (f ∷ fs) (suc i) = file_at fs i

unfoldable put : ℕ → Option ℕ → Table → Table
put zero f [] = f ∷ []
put (suc i) f [] = none ∷ put i f []
put zero f (g ∷ fs) = f ∷ fs
put (suc i) f (g ∷ fs) = g ∷ put i f fs

-- The lowest descriptor from `least` on that is free.
unfoldable free : ℕ → Table → ℕ
free least [] = least
free (suc least) (f ∷ fs) = suc (free least fs)
free zero (none ∷ fs) = zero
free zero (some f ∷ fs) = suc (free zero fs)

file_at-put : (i : ℕ) (f : Option ℕ) (fs : Table) → file_at (put i f fs) i ≡ f
unfolding file_at put
file_at-put zero f [] = refl
file_at-put (suc i) f [] = file_at-put i f []
file_at-put zero f (g ∷ fs) = refl
file_at-put (suc i) f (g ∷ fs) = file_at-put i f fs

file_at-put_other :
    (i j : ℕ) (f : Option ℕ) (fs : Table) → j ≢ i → file_at (put i f fs) j ≡ file_at fs j
unfolding file_at put
file_at-put_other zero zero f fs n = absurd (n refl)
file_at-put_other zero (suc j) f [] n = refl
file_at-put_other zero (suc j) f (g ∷ fs) n = refl
file_at-put_other (suc i) zero f [] n = refl
file_at-put_other (suc i) zero f (g ∷ fs) n = refl
file_at-put_other (suc i) (suc j) f [] n = file_at-put_other i j f [] λ e. n (ap suc e)
file_at-put_other (suc i) (suc j) f (g ∷ fs) n = file_at-put_other i j f fs λ e. n (ap suc e)

file_at-free : (least : ℕ) (fs : Table) → file_at fs (free least fs) ≡ none
unfolding file_at free
file_at-free least [] = refl
file_at-free (suc least) (f ∷ fs) = file_at-free least fs
file_at-free zero (none ∷ fs) = refl
file_at-free zero (some f ∷ fs) = file_at-free zero fs

free_least : (least : ℕ) (fs : Table) → least ≤ free least fs
unfolding free
free_least least [] = omega arith
free_least (suc least) (f ∷ fs) = omega (arith, free_least least fs)
free_least zero fs = omega arith

abbrev dup_of : ℕ → Table → Option ℕ → Dupfd × Table
dup_of least fs none = (dup_ebadf, fs)
dup_of least fs (some f) = (dup_is (free least fs), put (free least fs) (some f) fs)

abbrev dup2_of : ℕ → Table → Option ℕ → Bool × Table
dup2_of to fs none = (false, fs)
dup2_of to fs (some f) = (true, put to (some f) fs)

-- A file is known by the length of its name; here documents are the file 99.
abbrev table_os : Os Table
table_os = record {
  at = file_at;
  close = λ j fs. put j none fs;
  dup2 = λ from to fs. dup2_of to fs (file_at fs from);
  dupfd = λ from least fs. dup_of least fs (file_at fs from);
  open_file = λ mode name fs. opened (free 0 fs) (put (free 0 fs) (some (length name)) fs);
  stat = λ name fs. regular;
  fstat_is_regular = λ fd fs. true;
  pipe = λ fs.
      let r = free 0 fs in
      let fs' = put r (some 99) fs in
      pipe_is r (free (suc r) fs) (put (free (suc r) fs) (some 99) fs');
  pipesize = 4096;
  write = λ fd text fs. fs;
  write_forked = λ fd text fs. fs;
}

dup2_of-Ok :
    (from to : ℕ) (fs : Table) (f : Option ℕ)
    → file_at fs from ≡ f
    → Dup2Ok table_os from to fs (dup2_of to fs f)
dup2_of-Ok from to fs none e = λ i. refl
dup2_of-Ok from to fs (some f) e =
    (file_at-put to (some f) fs ∙ sym e, λ i n. file_at-put_other to i (some f) fs n)

dup2_of-true : (to f : ℕ) (fs : Table) (g : Option ℕ) → g ≡ some f → (dup2_of to fs g).0 ≡ true
dup2_of-true to f fs none e = cc
dup2_of-true to f fs (some g) e = refl

dup_of-Ok :
    (from least : ℕ) (fs : Table) (f : Option ℕ)
    → file_at fs from ≡ f
    → DupfdOk table_os from least fs (dup_of least fs f)
dup_of-Ok from least fs none e = (e, λ i. refl)
dup_of-Ok from least fs (some f) e = (
  free_least least fs,
  (file_at-free least fs, λ i n. file_at-put_other (free least fs) i (some f) fs n),
  file_at-put (free least fs) (some f) fs ∙ sym e,
  (f, e),
)

table_os-IsOs : IsOs table_os
table_os-IsOs = record {
  close_none = λ j fs. file_at-put j none fs;
  close_other = λ j fs i n. file_at-put_other j i none fs n;
  dup2_ok = λ from to fs. dup2_of-Ok from to fs (file_at fs from) refl;
  dup2_open = λ from to f fs e _. dup2_of-true to f fs (file_at fs from) e;
  dupfd_ok = λ from least fs. dup_of-Ok from least fs (file_at fs from) refl;
  open_ok = λ mode name fs.
      (file_at-free 0 fs, λ i n. file_at-put_other (free 0 fs) i (some (length name)) fs n);
  pipe_ok = λ fs. (
    file_at-free 0 fs,
    file_at-free (suc (free 0 fs)) fs,
    λ i n m.
        file_at-put_other (free (suc (free 0 fs)) fs) i (some 99) (put (free 0 fs) (some 99) fs) m
        ∙ file_at-put_other (free 0 fs) i (some 99) fs n,
  );
  write_ok = λ fd text fs i. refl;
  forked_ok = λ fd text fs i. refl;
}

abbrev fresh : State Table
fresh = record { os = some 1 ∷ some 2 ∷ some 3 ∷ []; redirlist = []; preverrout = 2; cflag = true }

abbrev no_expansion : Bytes → Option Bytes
no_expansion text = some text

-- <abc 2>&1 3>&-
abbrev first_group : List Redir
first_group =
    record { fd = 0; kind = nfrom (codes "abc") }
    ∷ record { fd = 2; kind = ntofd (some 1) }
    ∷ record { fd = 3; kind = ntofd none }
    ∷ []

-- 1>&2 and then >x with noclobber, which fails
abbrev second_group : List Redir
second_group =
    record { fd = 1; kind = ntofd (some 2) } ∷ record { fd = 1; kind = nto (codes "x") } ∷ []

in_place :
    (push_and_redirect table_os table_os-IsOs no_expansion first_group fresh).os
    ≡ some 3
      ∷ some 2
      ∷ some 2
      ∷ none
      ∷ none
      ∷ none
      ∷ none
      ∷ none
      ∷ none
      ∷ none
      ∷ some 1
      ∷ some 3
      ∷ []
unfolding push_and_redirect redirectsafe pushredir file_at free put
in_place = refl

unwindredir_example : Ends-Back table_os table_os-IsOs fresh (
    unwindredir table_os 2 false
      (push_all table_os table_os-IsOs no_expansion (first_group ∷ second_group ∷ []) fresh))
unwindredir_example =
    unwindredir_restores table_os table_os-IsOs no_expansion (first_group ∷ second_group ∷ []) fresh
      ((omega arith, (omega arith, (omega arith, tt))), ((omega arith, (omega arith, tt)), tt))
