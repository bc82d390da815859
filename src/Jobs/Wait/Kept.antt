-- ===== src/Jobs/Wait/Kept.antt =====
-- dowait keeps the list of the jobs in order.
use gwsh.Base.{
  ℕ, zero, suc, ◌+◌, ◌≡◌, ◌∙◌, refl, sym, ap, subst, Bool, true, false, Option, none, some, List,
  [], ◌∷◌, if◌then◌else◌, if_split, ==_iff, ◌≤◌, arith,
}
use gwsh.Jobs.{
  Job, Jobs, JobState, job_running, job_stopped, job_done, cur_stopped, is_done, job_at, change_job,
}
use gwsh.Jobs.Order.{is_used, count, one_if}
use gwsh.Jobs.Table.{used_at, IsOrdered, Holds, used_counted, set_curjob-IsOrdered}
use gwsh.Jobs.Wait.{Scan, scan, same_state, got_job, put_scan, wait_each, dowait}

change_job-used :
    (k i : ℕ) (f : Job → Job) (jobs : List Job)
    → ((jp : Job) → (f jp).used ≡ jp.used)
    → is_used (job_at k (change_job i f jobs)) ≡ is_used (job_at k jobs)
unfolding job_at change_job
change_job-used k i f [] h = refl
change_job-used zero zero f (jp ∷ jobs) h = h jp
change_job-used (suc k) zero f (jp ∷ jobs) h = refl
change_job-used zero (suc i) f (jp ∷ jobs) h = refl
change_job-used (suc k) (suc i) f (jp ∷ jobs) h = change_job-used k i f jobs h

IsOrdered-change :
    (i : ℕ) (f : Job → Job) (st : Jobs)
    → ((jp : Job) → (f jp).used ≡ jp.used)
    → IsOrdered st
    → IsOrdered (record st { jobtab = change_job i f st.jobtab })
IsOrdered-change i f st h is k = is k ∙ ap one_if (sym (change_job-used k i f st.jobtab h))

got_job-IsOrdered :
    (jp : ℕ) (state : JobState) (job : Job) (st : Jobs)
    → IsOrdered st
    → used_at jp st ≡ true
    → Holds IsOrdered (got_job jp state job st)
got_job-IsOrdered jp job_running job st is used = is
got_job-IsOrdered jp job_stopped job st is used =
    if_split (Holds IsOrdered) (same_state job.state job_stopped)
      (IsOrdered-change jp (λ j. record j { changed = true }) st (λ _. refl) is)
      (set_curjob-IsOrdered jp cur_stopped
        (record st {
          jobtab = change_job jp (λ j. record j { changed = true; state = job_stopped }) st.jobtab;
        })
        (λ e. absurd cc)
        (IsOrdered-change jp (λ j. record j { changed = true; state = job_stopped }) st (λ _. refl)
          is)
        (change_job-used jp jp (λ j. record j { changed = true; state = job_stopped }) st.jobtab
            (λ _. refl)
          ∙ used))
got_job-IsOrdered jp job_done job st is used =
    if_split (Holds IsOrdered) (same_state job.state job_done)
      (IsOrdered-change jp (λ j. record j { changed = true }) st (λ _. refl) is)
      (IsOrdered-change jp (λ j. record j { changed = true; state = job_done }) st (λ _. refl) is)

wait_each-IsOrdered :
    (stops : ℕ → Bool) (pid status : ℕ) (order : List ℕ) (st : Jobs)
    → IsOrdered st
    → ((k : ℕ) → 1 ≤ count k order → used_at k st ≡ true)
    → Holds IsOrdered (wait_each stops pid status order st)
unfolding wait_each
wait_each-IsOrdered stops pid status [] st is all = is
wait_each-IsOrdered stops pid status (jp ∷ order) st is all =
    let used =
      all jp
        (subst (λ b. 1 ≤ one_if b + count jp order) (sym ((==_iff jp jp).1 refl)) (omega arith)) in
    let later : (k : ℕ) → 1 ≤ count k order → used_at k st ≡ true =
      λ k h. all k (omega (arith, h)) in
    (elim (job_at jp st.jobtab)
        as (λ o.
          is_used o ≡ true
          → Holds IsOrdered (elim o as (λ _. Option Jobs) [
            | none ↦ none
            | some job ↦
                let s : Scan = scan stops pid status job.ps job.stopstatus job_done false in
                let st' : Jobs = record st { jobtab = change_job jp (put_scan s) st.jobtab } in
                if is_done job.state
                then wait_each stops pid status order st
                else if s.hit
                then got_job jp s.state job st'
                else wait_each stops pid status order st'
          ])) [
            | none ↦ λ h. absurd cc
            | some job ↦ λ h.
                let s : Scan = scan stops pid status job.ps job.stopstatus job_done false in
                let st' : Jobs = record st { jobtab = change_job jp (put_scan s) st.jobtab } in
                let is' : IsOrdered st' = IsOrdered-change jp (put_scan s) st (λ _. refl) is in
                if_split (Holds IsOrdered) (is_done job.state)
                  (wait_each-IsOrdered stops pid status order st is later)
                  (if_split (Holds IsOrdered) s.hit
                    (got_job-IsOrdered jp s.state job st' is'
                      (change_job-used jp jp (put_scan s) st.jobtab (λ _. refl) ∙ used))
                    (wait_each-IsOrdered stops pid status order st' is'
                      λ k h. change_job-used k jp (put_scan s) st.jobtab (λ _. refl) ∙ later k h))
          ])
      used

-- A status that wait gives leaves the list of the jobs in order: each job that is used stands in it once,
-- and no other, and no link is read by a null pointer.
pub dowait-IsOrdered :
    (stops : ℕ → Bool) (pid status : ℕ) (st : Jobs)
    → IsOrdered st
    → Holds IsOrdered (dowait stops pid status st)
unfolding dowait
dowait-IsOrdered stops pid status st is =
    wait_each-IsOrdered stops pid status st.order st is (λ k h. used_counted k st is h)
