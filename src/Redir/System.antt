-- ===== src/Redir/System.antt =====
-- What src/redir.c asks of the operating system, and what it relies on. An open file is a number; which
-- one a descriptor stands for is `at`.
use gwsh.Base.{ℕ, ◌≤◌, ◌<◌, ◌≡◌, ◌≢◌, Bool, true, false, Option, none, some, Bytes}

-- fcntl with F_DUPFD: the new descriptor, EBADF, or another error
pub data Dupfd : Type 0 where
  dup_is : ℕ → Dupfd
  dup_ebadf dup_failed : Dupfd

-- What stat says of a name.
pub data Stat : Type 0 where
  absent regular other_file : Stat

-- The flags that the files are opened with.
pub data Mode : Type 0 where
  rdonly rdwr_creat wronly_creat_excl wronly wronly_creat_trunc wronly_creat_append : Mode

pub data Open (K : Type 0) : Type 0 where
  opened : ℕ → K → Open K
  open_failed : Open K

pub data Pipe (K : Type 0) : Type 0 where
  pipe_is : ℕ → ℕ → K → Pipe K
  pipe_failed : Pipe K

pub record Os (K : Type 0) : Type 0 where
  pub at : K → ℕ → Option ℕ
  pub close : ℕ → K → K
  pub dup2 : ℕ → ℕ → K → Bool × K
  pub dupfd : ℕ → ℕ → K → Dupfd × K
  pub open_file : Mode → Bytes → K → Open K
  pub stat : Bytes → K → Stat
  pub fstat_is_regular : ℕ → K → Bool
  pub pipe : K → Pipe K
  pub pipesize : ℕ
  -- xwrite, by this process and by a child that is forked for it
  pub write : ℕ → Bytes → K → K
  pub write_forked : ℕ → Bytes → K → K

-- The descriptors other than j are as before.
abbrev pub SameBut : {K : Type 0} → Os K → ℕ → K → K → Type 0
SameBut os j k k' = (i : ℕ) → i ≢ j → os.at k' i ≡ os.at k i

abbrev pub SameFiles : {K : Type 0} → Os K → K → K → Type 0
SameFiles os k k' = (i : ℕ) → os.at k' i ≡ os.at k i

abbrev pub NewAt : {K : Type 0} → Os K → ℕ → K → K → Type 0
NewAt os n k k' = (os.at k n ≡ none) × SameBut os n k k'

abbrev pub DupfdOk : {K : Type 0} → Os K → ℕ → ℕ → K → Dupfd × K → Type 0
DupfdOk os from least k (dup_is n, k') =
    (least ≤ n)
    × NewAt os n k k'
    × (os.at k' n ≡ os.at k from)
    × ((f : ℕ) × (os.at k from ≡ some f))
DupfdOk os from least k (dup_ebadf, k') = (os.at k from ≡ none) × SameFiles os k k'
DupfdOk os from least k (dup_failed, k') = SameFiles os k k'

abbrev pub Dup2Ok : {K : Type 0} → Os K → ℕ → ℕ → K → Bool × K → Type 0
Dup2Ok os from to k (true, k') = (os.at k' to ≡ os.at k from) × SameBut os to k k'
Dup2Ok os from to k (false, k') = SameFiles os k k'

abbrev pub OpenOk : {K : Type 0} → Os K → K → Open K → Type 0
OpenOk os k (opened n k') = NewAt os n k k'
OpenOk os k open_failed = Unit

abbrev pub PipeOk : {K : Type 0} → Os K → K → Pipe K → Type 0
PipeOk os k (pipe_is r w k') =
    (os.at k r ≡ none) × (os.at k w ≡ none) × ((i : ℕ) → i ≢ r → i ≢ w → os.at k' i ≡ os.at k i)
PipeOk os k pipe_failed = Unit

-- What POSIX says of these calls: new descriptors were not open, closing and duplicating touch no other
-- descriptor, and an open descriptor can be duplicated onto one below 10.
pub record IsOs {K : Type 0} (os : Os K) : Type 0 where
  pub close_none : (j : ℕ) (k : K) → os.at (os.close j k) j ≡ none
  pub close_other : (j : ℕ) (k : K) → SameBut os j k (os.close j k)
  pub dup2_ok : (from to : ℕ) (k : K) → Dup2Ok os from to k (os.dup2 from to k)
  pub dup2_open :
      (from to f : ℕ) (k : K) → os.at k from ≡ some f → to < 10 → (os.dup2 from to k).0 ≡ true
  pub dupfd_ok : (from least : ℕ) (k : K) → DupfdOk os from least k (os.dupfd from least k)
  pub open_ok : (mode : Mode) (name : Bytes) (k : K) → OpenOk os k (os.open_file mode name k)
  pub pipe_ok : (k : K) → PipeOk os k (os.pipe k)
  pub write_ok : (fd : ℕ) (text : Bytes) (k : K) → SameFiles os k (os.write fd text k)
  pub forked_ok : (fd : ℕ) (text : Bytes) (k : K) → SameFiles os k (os.write_forked fd text k)
