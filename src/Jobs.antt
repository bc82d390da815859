-- ===== src/Jobs.antt =====
-- src/jobs.c and src/jobs.h: the table of jobs, their order, and the names of jobs.
pub mod Order
pub mod Table
pub mod Place
pub mod Make
pub mod Names
pub mod Wait
use gwsh.Base.{
  ℕ, zero, suc, ◌+◌, ◌≡◌, Bool, true, false, not, ◌&&◌, ◌||◌, Option, none, some, List, [], ◌∷◌,
  ◌++◌, Bytes, ◌==◌, if◌then◌else◌, length,
}

-- struct procstat; the status of a process that runs, -1, is none.
pub record Procstat : Type 0 where
  pub pid : ℕ
  pub status : Option ℕ
  pub cmd : Bytes

pub data JobState : Type 0 where
  job_running job_stopped job_done : JobState

-- struct job; `ps` has the nprocs processes.
pub record Job : Type 0 where
  pub ps : List Procstat
  pub stopstatus : ℕ
  pub state : JobState
  pub sigint : Bool
  pub jobctl : Bool
  pub waited : Bool
  pub used : Bool
  pub changed : Bool
  pub pipefail : Bool

-- jobtab, of njobs jobs; the jobs by their places in it, from curjob along prev_job; and the variables
-- that are read.
pub record Jobs : Type 0 where
  pub jobtab : List Job
  pub order : List ℕ
  pub parjob : Bool
  pub mflag : Bool
  pub optpipefail : Bool

abbrev pub is_stopped : JobState → Bool
is_stopped job_stopped = true
is_stopped _ = false

abbrev pub is_done : JobState → Bool
is_done job_done = true
is_done _ = false

unfoldable pub job_at : ℕ → List Job → Option Job
job_at i [] = none
job_at zero (jp ∷ jobs) = some jp
job_at (suc i) (jp ∷ jobs) = job_at i jobs

unfoldable pub change_job : ℕ → (Job → Job) → List Job → List Job
change_job i f [] = []
change_job zero f (jp ∷ jobs) = f jp ∷ jobs
change_job (suc i) f (jp ∷ jobs) = jp ∷ change_job i f jobs

abbrev pub stopped_at : Option Job → Bool
stopped_at none = false
stopped_at (some jp) = is_stopped jp.state

-- The modes of set_curjob.
pub data Mode : Type 0 where
  cur_delete cur_running cur_stopped : Mode

-- The job is taken out of the list; where it is not in it, a link is read by a null pointer.
unfoldable pub unlink : ℕ → List ℕ → Option (List ℕ)
unlink jp [] = none
unlink jp (jp1 ∷ order) =
    let rest = unlink jp order in
    if jp1 == jp
    then some order
    else elim rest as (λ _. Option (List ℕ)) [ none ↦ none | some order' ↦ some (jp1 ∷ order') ]

-- Behind the stopped jobs.
unfoldable pub insert_running : List Job → ℕ → List ℕ → List ℕ
unfolding job_at
insert_running jobs jp [] = jp ∷ []
insert_running jobs jp (jp1 ∷ order) =
    let rest = insert_running jobs jp order in
    if stopped_at (job_at jp1 jobs) then jp1 ∷ rest else jp ∷ jp1 ∷ order

abbrev pub reinsert : Mode → List Job → ℕ → List ℕ → List ℕ
reinsert cur_delete jobs jp order = order
reinsert cur_running jobs jp order = insert_running jobs jp order
reinsert cur_stopped jobs jp order = jp ∷ order

unfoldable pub set_curjob : ℕ → Mode → Jobs → Option Jobs
unfolding unlink insert_running
set_curjob jp mode st = elim (unlink jp st.order) as (λ _. Option Jobs) [
  | none ↦ none
  | some order ↦ some (record st { order = reinsert mode st.jobtab jp order })
]

unfoldable pub freejob : ℕ → Jobs → Option Jobs
unfolding set_curjob change_job
freejob jp st =
    set_curjob jp cur_delete
      (record st { jobtab = change_job jp (λ job. record job { used = false }) st.jobtab })

-- The loop goes along the links of the jobs that it frees.
unfoldable pub free_each : List ℕ → Jobs → Option Jobs
unfolding freejob
free_each [] st = some st
free_each (jp ∷ order) st = elim (freejob jp st) as (λ _. Option Jobs) [
  | none ↦ none
  | some st' ↦ free_each order st'
]

unfoldable pub freejobs : Jobs → Option Jobs
unfolding free_each
freejobs st = elim (free_each st.order st) as (λ _. Option Jobs) [
  | none ↦ none
  | some st' ↦ some (record st' { parjob = false })
]

unfoldable pub resetjobs : Jobs → Option Jobs
unfolding freejobs
resetjobs st = if st.parjob then freejobs st else some (record st { parjob = true })

abbrev pub no_job : Job
no_job = record {
  ps = [];
  stopstatus = 0;
  state = job_running;
  sigint = false;
  jobctl = false;
  waited = false;
  used = false;
  changed = false;
  pipefail = false;
}

-- Four more; what they hold but for `used` is not read.
abbrev pub growjobtab : Jobs → Jobs
growjobtab st = record st { jobtab = st.jobtab ++ (no_job ∷ no_job ∷ no_job ∷ no_job ∷ []) }

-- The loop of makejob, from the place `i` on: where it stops, and whether the job there is freed.
pub data Slot : Type 0 where
  at_unused at_waited : ℕ → Slot
  at_end : Slot

unfoldable pub find_slot : Bool → ℕ → List Job → Slot
find_slot mflag i [] = at_end
find_slot mflag i (jp ∷ jobs) =
    let rest = find_slot mflag (suc i) jobs in
    if not jp.used
    then at_unused i
    else if not (is_done jp.state) || not jp.waited
    then rest
    else if mflag
    then rest
    else at_waited i

abbrev pub start_job : ℕ → Jobs → Jobs
start_job jp st = record st {
  jobtab =
      change_job jp
        (λ _. record no_job { pipefail = st.optpipefail; jobctl = st.mflag; used = true })
        st.jobtab;
  order = jp ∷ st.order;
}

abbrev pub by_slot : Slot → Jobs → Option (ℕ × Jobs)
by_slot (at_unused jp) st = some (jp, start_job jp st)
by_slot (at_waited jp) st = elim (freejob jp st) as (λ _. Option (ℕ × Jobs)) [
  | none ↦ none
  | some st' ↦ some (jp, start_job jp st')
]
by_slot at_end st = some (length st.jobtab, start_job (length st.jobtab) (growjobtab st))

abbrev pub own_jobs : Jobs → Option Jobs
own_jobs st = if st.parjob then freejobs st else some st

-- The place of the job that is made.
unfoldable pub makejob : Jobs → Option (ℕ × Jobs)
unfolding freejobs find_slot change_job
makejob st = elim (own_jobs st) as (λ _. Option (ℕ × Jobs)) [
  | none ↦ none
  | some st' ↦ by_slot (find_slot st'.mflag 0 st'.jobtab) st'
]
