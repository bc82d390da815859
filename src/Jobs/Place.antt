-- ===== src/Jobs/Place.antt =====
-- src/jobs.c: where set_curjob puts a job that is stopped or that goes on running.
use gwsh.Base.{
  ℕ, ◌≡◌, ◌≢◌, refl, ap, true, false, Option, none, some, List, [], ◌∷◌, ◌++◌, Bool-cases, inl, inr,
}
use gwsh.Jobs.{
  Job, Jobs, Mode, cur_delete, cur_running, cur_stopped, job_at, stopped_at, unlink, insert_running,
  reinsert, set_curjob,
}
use gwsh.Jobs.Table.{used_at, IsOrdered, Holds, set_curjob-IsOrdered}

abbrev pub AllStopped : List Job → List ℕ → Type 0
AllStopped jobs [] = Unit
AllStopped jobs (jp ∷ order) = (stopped_at (job_at jp jobs) ≡ true) × AllStopped jobs order

-- The first of the jobs, if there is one, is not stopped.
abbrev pub FirstRuns : List Job → List ℕ → Type 0
FirstRuns jobs [] = Unit
FirstRuns jobs (jp ∷ order) = stopped_at (job_at jp jobs) ≡ false

-- Which jobs stand before the one that is put in, and which behind it.
abbrev pub Between : Mode → List Job → List ℕ → List ℕ → Type 0
Between cur_delete jobs before behind = ⊥
Between cur_running jobs before behind = AllStopped jobs before × FirstRuns jobs behind
Between cur_stopped jobs before behind = before ≡ []

abbrev pub Inserts : Mode → List Job → ℕ → List ℕ → List ℕ → Type 0
Inserts mode jobs jp order order' =
    (before : List ℕ) × (behind : List ℕ) × (order ≡ before ++ behind)
    × (order' ≡ before ++ jp ∷ behind)
    × Between mode jobs before behind

-- What set_curjob leaves: the job is taken out of the list and put in at its place.
abbrev pub Placed : ℕ → Mode → Jobs → Jobs → Type 0
Placed jp mode st st' =
    IsOrdered st'
    × ((order : List ℕ) × (unlink jp st.order ≡ some order)
        × Inserts mode st.jobtab jp order st'.order)

insert_running-Inserts :
    (jobs : List Job) (jp : ℕ) (order : List ℕ)
    → Inserts cur_running jobs jp order (insert_running jobs jp order)
unfolding insert_running
insert_running-Inserts jobs jp [] = ([], [], refl, refl, (tt, tt))
insert_running-Inserts jobs jp (jp1 ∷ order) = elim (Bool-cases (stopped_at (job_at jp1 jobs))) [
  | inl e ↦
      let (before, behind, same, same', (stopped, runs)) = insert_running-Inserts jobs jp order in
      rw e (
        jp1 ∷ before,
        behind,
        ap (λ l. jp1 ∷ l) same,
        ap (λ l. jp1 ∷ l) same',
        ((e, stopped), runs),
      )
  | inr e ↦ rw e ([], jp1 ∷ order, refl, refl, (tt, e))
]

reinsert-Inserts :
    (mode : Mode) (jobs : List Job) (jp : ℕ) (order : List ℕ)
    → mode ≢ cur_delete
    → Inserts mode jobs jp order (reinsert mode jobs jp order)
reinsert-Inserts cur_delete jobs jp order moves = absurd (moves refl)
reinsert-Inserts cur_running jobs jp order moves = insert_running-Inserts jobs jp order
reinsert-Inserts cur_stopped jobs jp order moves = ([], order, refl, refl, refl)

pub set_curjob-Placed :
    (jp : ℕ) (mode : Mode) (st : Jobs)
    → mode ≢ cur_delete
    → IsOrdered st
    → used_at jp st ≡ true
    → Holds (Placed jp mode st) (set_curjob jp mode st)
unfolding set_curjob
set_curjob-Placed jp mode st moves is used =
    placed (unlink jp st.order) refl (set_curjob-IsOrdered jp mode st moves is used)
  where
    placed :
        (o : Option (List ℕ))
        → unlink jp st.order ≡ o
        → Holds IsOrdered (elim o as (λ _. Option Jobs) [
          | none ↦ none
          | some order ↦ some (record st { order = reinsert mode st.jobtab jp order })
        ])
        → Holds (Placed jp mode st) (elim o as (λ _. Option Jobs) [
          | none ↦ none
          | some order ↦ some (record st { order = reinsert mode st.jobtab jp order })
        ])
    placed none e h = h
    placed (some order) e h = (h, (order, e, reinsert-Inserts mode st.jobtab jp order moves))
