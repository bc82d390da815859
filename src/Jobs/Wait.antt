-- ===== src/Jobs/Wait.antt =====
-- src/jobs.c: dowait, what a status that wait gives does to the jobs.
pub mod Status
pub mod Kept
use gwsh.Base.{
  ℕ, zero, suc, ◌+◌, ◌≡◌, ◌≢◌, ◌∙◌, refl, sym, ap, subst, Bool, true, false, not, ◌&&◌, ◌||◌,
  Option, none, some, List, [], ◌∷◌, ◌==◌, if◌then◌else◌, if_cases, if_split, Bool-cases, inl, inr,
  ==_iff, ◌≤◌, arith,
}
use gwsh.Jobs.{
  Procstat, Job, Jobs, JobState, job_running, job_stopped, job_done, Mode, cur_stopped, cur_delete,
  is_done, job_at, change_job, set_curjob,
}
use gwsh.Jobs.Order.{is_used, count, one_if}
use gwsh.Jobs.Table.{used_at, IsOrdered, Holds, used_counted, set_curjob-IsOrdered}

-- The variables of the loop over the processes: what they are now, stopstatus, state, and whether the
-- process is one of them.
pub record Scan : Type 0 where
  pub ps : List Procstat
  pub stopstatus : ℕ
  pub state : JobState
  pub hit : Bool

abbrev pub is_running : JobState → Bool
is_running job_running = true
is_running _ = false

abbrev pub with_status : ℕ → ℕ → Procstat → Procstat
with_status pid status sp = if sp.pid == pid then record sp { status = some status } else sp

abbrev pub stopped_or : Bool → ℕ → JobState → ℕ → JobState × ℕ
stopped_or stopped status state stopstatus =
    if stopped then (job_stopped, status) else (state, stopstatus)

-- The state and stopstatus behind a process; `stops` is WIFSTOPPED.
abbrev pub next_state : (ℕ → Bool) → Option ℕ → JobState → ℕ → JobState × ℕ
next_state stops none state stopstatus = (job_running, stopstatus)
next_state stops (some status) state stopstatus =
    if is_running state
    then (state, stopstatus)
    else stopped_or (stops status) status state stopstatus

unfoldable pub scan : (ℕ → Bool) → ℕ → ℕ → List Procstat → ℕ → JobState → Bool → Scan
scan stops pid status [] stopstatus state hit = record {
  ps = [];
  stopstatus = stopstatus;
  state = state;
  hit = hit;
}
scan stops pid status (sp ∷ rest) stopstatus state hit =
    let sp' : Procstat = with_status pid status sp in
    let next : JobState × ℕ = next_state stops sp'.status state stopstatus in
    let last : Scan = scan stops pid status rest next.1 next.0 (hit || sp.pid == pid) in
    record last { ps = sp' ∷ last.ps }

abbrev pub same_state : JobState → JobState → Bool
same_state job_running job_running = true
same_state job_stopped job_stopped = true
same_state job_done job_done = true
same_state _ _ = false

-- gotjob
abbrev pub got_job : ℕ → JobState → Job → Jobs → Option Jobs
got_job jp job_running job st = some st
got_job jp state job st =
    if same_state job.state state
    then some (record st { jobtab = change_job jp (λ j. record j { changed = true }) st.jobtab })
    else (let st' = record st {
      jobtab = change_job jp (λ j. record j { changed = true; state = state }) st.jobtab;
    } in
        if same_state state job_stopped then set_curjob jp cur_stopped st' else some st')

abbrev pub put_scan : Scan → Job → Job
put_scan s j = record j { ps = s.ps; stopstatus = s.stopstatus }

-- The loop over the jobs.
unfoldable pub wait_each : (ℕ → Bool) → ℕ → ℕ → List ℕ → Jobs → Option Jobs
unfolding job_at change_job scan set_curjob
wait_each stops pid status [] st = some st
wait_each stops pid status (jp ∷ order) st = elim (job_at jp st.jobtab) as (λ _. Option Jobs) [
  | none ↦ none
  | some job ↦
      let s : Scan = scan stops pid status job.ps job.stopstatus job_done false in
      let st' : Jobs = record st { jobtab = change_job jp (put_scan s) st.jobtab } in
      let skipped : Option Jobs = wait_each stops pid status order st in
      let missed : Option Jobs = wait_each stops pid status order st' in
      if is_done job.state then skipped else if s.hit then got_job jp s.state job st' else missed
]

-- What dowait does with the process and the status that waitproc gives.
unfoldable pub dowait : (ℕ → Bool) → ℕ → ℕ → Jobs → Option Jobs
unfolding wait_each
dowait stops pid status st = wait_each stops pid status st.order st
