-- ===== src/Jobs/Wait/Status.antt =====
-- The state that dowait finds for a job.
use gwsh.Base.{
  ℕ, ◌≡◌, ◌∙◌, refl, ap, Bool, true, false, ◌||◌, Option, none, some, List, [], ◌∷◌, ◌==◌,
  if◌then◌else◌,
}
use gwsh.Jobs.{Procstat, JobState, job_running, job_stopped, job_done}
use gwsh.Jobs.Wait.{Scan, is_running, with_status, stopped_or, next_state, scan}

-- The state of a job by those of its processes.
abbrev runs_one : Option ℕ → Bool
runs_one none = true
runs_one (some status) = false

abbrev stops_one : (ℕ → Bool) → Option ℕ → Bool
stops_one stops none = false
stops_one stops (some status) = stops status

abbrev any_runs : List Procstat → Bool
any_runs [] = false
any_runs (sp ∷ rest) = runs_one sp.status || any_runs rest

abbrev any_stops : (ℕ → Bool) → List Procstat → Bool
any_stops stops [] = false
any_stops stops (sp ∷ rest) = stops_one stops sp.status || any_stops stops rest

abbrev state_by : JobState → Bool → Bool → JobState
state_by state runs stops =
    if is_running state || runs then job_running else if stops then job_stopped else state

abbrev pub state_of : (ℕ → Bool) → List Procstat → JobState
state_of stops ps =
    if any_runs ps then job_running else if any_stops stops ps then job_stopped else job_done

next-stopped :
    (t a b : Bool) (s c : ℕ)
    → state_by (stopped_or t s job_stopped c).0 a b ≡ state_by job_stopped a (t || b)
next-stopped true true b s c = refl
next-stopped true false true s c = refl
next-stopped true false false s c = refl
next-stopped false a b s c = refl

next-done :
    (t a b : Bool) (s c : ℕ)
    → state_by (stopped_or t s job_done c).0 a b ≡ state_by job_done a (t || b)
next-done true true b s c = refl
next-done true false true s c = refl
next-done true false false s c = refl
next-done false a b s c = refl

next_state-by :
    (stops : ℕ → Bool) (o : Option ℕ) (state : JobState) (c : ℕ) (a b : Bool)
    → state_by (next_state stops o state c).0 a b
      ≡ state_by state (runs_one o || a) (stops_one stops o || b)
next_state-by stops none job_running c a b = refl
next_state-by stops none job_stopped c a b = refl
next_state-by stops none job_done c a b = refl
next_state-by stops (some s) job_running c a b = refl
next_state-by stops (some s) job_stopped c a b = next-stopped (stops s) a b s c
next_state-by stops (some s) job_done c a b = next-done (stops s) a b s c

scan-by :
    (stops : ℕ → Bool) (pid status : ℕ) (ps : List Procstat) (c : ℕ) (state : JobState) (hit : Bool)
    → (scan stops pid status ps c state hit).state
      ≡ state_by state
          (any_runs (scan stops pid status ps c state hit).ps)
          (any_stops stops (scan stops pid status ps c state hit).ps)
unfolding scan
scan-by stops pid status [] c job_running hit = refl
scan-by stops pid status [] c job_stopped hit = refl
scan-by stops pid status [] c job_done hit = refl
scan-by stops pid status (sp ∷ rest) c state hit =
    let o : Option ℕ = (with_status pid status sp).status in
    let next : JobState × ℕ = next_state stops o state c in
    let last : Scan = scan stops pid status rest next.1 next.0 (hit || sp.pid == pid) in
    scan-by stops pid status rest next.1 next.0 (hit || sp.pid == pid)
    ∙ next_state-by stops o state c (any_runs last.ps) (any_stops stops last.ps)

unfoldable pub statuses : ℕ → ℕ → List Procstat → List Procstat
statuses pid status [] = []
statuses pid status (sp ∷ rest) =
    (if sp.pid == pid then record { pid = sp.pid; status = some status; cmd = sp.cmd } else sp)
    ∷ statuses pid status rest

scan-ps :
    (stops : ℕ → Bool) (pid status : ℕ) (ps : List Procstat) (c : ℕ) (state : JobState) (hit : Bool)
    → (scan stops pid status ps c state hit).ps ≡ statuses pid status ps
unfolding scan statuses
scan-ps stops pid status [] c state hit = refl
scan-ps stops pid status (sp ∷ rest) c state hit =
    let next : JobState × ℕ = next_state stops (with_status pid status sp).status state c in
    ap (λ l. with_status pid status sp ∷ l)
      (scan-ps stops pid status rest next.1 next.0 (hit || sp.pid == pid))

-- The loop of dowait over the processes of a job gives the status to the process of that number and to no
-- other, and the state that it finds is that of the processes then: the job runs if one of them runs, is
-- stopped if none runs and one is stopped, and is over otherwise.
pub scan-state_of :
    (stops : ℕ → Bool) (pid status : ℕ) (ps : List Procstat) (stopstatus : ℕ)
    → ((scan stops pid status ps stopstatus job_done false).ps ≡ statuses pid status ps)
      × ((scan stops pid status ps stopstatus job_done false).state
          ≡ state_of stops (statuses pid status ps))
scan-state_of stops pid status ps stopstatus =
    let same = scan-ps stops pid status ps stopstatus job_done false in
    (same, scan-by stops pid status ps stopstatus job_done false ∙ ap (λ l. state_of stops l) same)
