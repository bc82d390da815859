-- ===== src/Samples/Jobs.antt =====
-- A table of three jobs.
use gwsh.Base.{
  ◌==◌, Bool, arith, bytes_eq, codes, ℕ, zero, suc, ◌≡◌, refl, true, false, Option, none, some,
  List, [], ◌∷◌,
}
use gwsh.Jobs.{
  Procstat, Job, Jobs, job_stopped, job_done, cur_running, no_job, job_at, set_curjob, resetjobs,
  makejob,
}
use gwsh.Jobs.Table.{IsOrdered, Holds}
use gwsh.Jobs.Names.{Strings, job_is, getjob}
use gwsh.Jobs.Wait.{scan}
use gwsh.Jobs.Wait.Status.{statuses, scan-state_of}
use gwsh.Jobs.Make.{Makes, Resets, makejob_lem}

abbrev stopped : Job
stopped = record no_job { used = true; state = job_stopped }

abbrev running : Job
running = record no_job { used = true }

abbrev over : Job
over = record no_job { used = true; state = job_done; waited = true }

-- The jobs 0, a stopped one, 1, one that is over, and 2, which runs.
abbrev three : Jobs
three = record {
  jobtab = stopped ∷ over ∷ running ∷ [];
  order = 2 ∷ 0 ∷ 1 ∷ [];
  parjob = false;
  mflag = false;
  optpipefail = false;
}

three-IsOrdered : IsOrdered three
unfolding job_at
three-IsOrdered zero = refl
three-IsOrdered (suc zero) = refl
three-IsOrdered (suc (suc zero)) = refl
three-IsOrdered (suc (suc (suc k))) = ground arith

-- The same jobs, in a subshell.
abbrev of_parent : Jobs
of_parent = record three { parjob = true }

of_parent-IsOrdered : IsOrdered of_parent
of_parent-IsOrdered = three-IsOrdered

makejob_example :
    Holds (Resets of_parent) (resetjobs of_parent) × Makes of_parent (makejob of_parent)
makejob_example = makejob_lem of_parent of_parent-IsOrdered

-- A job that goes on running is put behind the stopped one.
abbrev order_of : Option Jobs → List ℕ
order_of none = []
order_of (some st) = st.order

tested_set_curjob : order_of (set_curjob 2 cur_running three) ≡ 0 ∷ 2 ∷ 1 ∷ []
unfolding set_curjob
tested_set_curjob = refl

abbrev strings : Strings
strings = record { strstr = λ s part. bytes_eq s part; atoi = λ s. 1 }

tested_getjob : getjob strings three (some (codes "%-")) ≡ job_is 0
unfolding getjob
tested_getjob = refl

abbrev stops : ℕ → Bool
stops status = status == 127

-- A pipeline whose second process runs.
abbrev pipeline : List Procstat
pipeline =
    record { pid = 7; status = some 0; cmd = [] } ∷ record { pid = 8; status = none; cmd = [] } ∷ []

scan-state_of_example :
    ((scan stops 8 127 pipeline 0 job_done false).ps ≡ statuses 8 127 pipeline)
    × ((scan stops 8 127 pipeline 0 job_done false).state ≡ job_stopped)
unfolding statuses
scan-state_of_example = scan-state_of stops 8 127 pipeline 0

abbrev place_of : Option (ℕ × Jobs) → Option ℕ
place_of none = none
place_of (some (jp, st)) = some jp

tested_makejob : place_of (makejob three) ≡ some 1
unfolding makejob
tested_makejob = refl
