-- ===== src/Jobs/Make.antt =====
-- makejob takes a place that no live job has.
use gwsh.Base.{
  bools_apart, ℕ, zero, suc, ◌+◌, ◌<◌, ◌≡◌, ◌⊎◌, ◌∙◌, refl, sym, ap, subst, Bool, true, false, not,
  ◌&&◌, ◌||◌, Option, none, some, List, [], ◌∷◌, ◌++◌, if◌then◌else◌, if_cases, arith, length,
  Bool-cases, inl, inr,
}
use gwsh.Jobs.{
  Job, Jobs, free_each, job_at, freejob, freejobs, resetjobs, no_job, growjobtab, Slot, at_unused,
  at_waited, at_end, find_slot, start_job, by_slot, makejob, is_done,
}
use gwsh.Jobs.Order.{one_if, count, is_used, used_below}
use gwsh.Jobs.Table.{
  used_at, IsOrdered, Holds, Freed, freejob-Freed, freejobs-IsOrdered, free_each-IsOrdered,
  start_job-IsOrdered,
}

-- The job is over, and wait has seen it.
abbrev pub is_over : Option Job → Bool
is_over none = false
is_over (some jp) = is_done jp.state && jp.waited

abbrev Fits : ℕ → List Job → Slot → Type 0
Fits i jobs (at_unused j) =
    (n : ℕ) × (j ≡ i + n) × (n < length jobs) × (is_used (job_at n jobs) ≡ false)
Fits i jobs (at_waited j) =
    (n : ℕ) × (j ≡ i + n) × (is_used (job_at n jobs) ≡ true) × (is_over (job_at n jobs) ≡ true)
Fits i jobs at_end = Unit

not_used : (b : Bool) → not b ≡ true → b ≡ false
not_used true h = absurd (bools_apart (sym h))
not_used false h = refl

used_then : (b : Bool) → not b ≡ false → b ≡ true
used_then true h = refl
used_then false h = absurd (bools_apart h)

both : (a b : Bool) → (not a || not b) ≡ false → (a && b) ≡ true
both true true h = refl
both true false h = absurd (bools_apart h)
both false b h = absurd (bools_apart h)

find_slot-Fits : (mflag : Bool) (i : ℕ) (jobs : List Job) → Fits i jobs (find_slot mflag i jobs)
unfolding find_slot job_at
find_slot-Fits mflag i [] = tt
find_slot-Fits mflag i (jp ∷ jobs) =
    let later = Fits-cons (find_slot mflag (suc i) jobs) (find_slot-Fits mflag (suc i) jobs) in
    if_cases (Fits i (jp ∷ jobs)) (not jp.used)
      (λ h. (0, omega arith, omega arith, not_used jp.used h))
      (λ u.
        if_cases (Fits i (jp ∷ jobs)) (not (is_done jp.state) || not jp.waited) (λ _. later)
          (λ h.
            if_cases (Fits i (jp ∷ jobs)) mflag (λ _. later)
              (λ _. (0, omega arith, used_then jp.used u, both (is_done jp.state) jp.waited h))))
  where
    Fits-cons : (slot : Slot) → Fits (suc i) jobs slot → Fits i (jp ∷ jobs) slot
    Fits-cons (at_unused j) (n, e, lt, h) = (suc n, omega (arith, e), omega (arith, lt), h)
    Fits-cons (at_waited j) (n, e, u, h) = (suc n, omega (arith, e), u, h)
    Fits-cons at_end h = h

used-grow :
    (k : ℕ) (jobs : List Job)
    → is_used (job_at k (jobs ++ (no_job ∷ no_job ∷ no_job ∷ no_job ∷ [])))
      ≡ is_used (job_at k jobs)
unfolding job_at
used-grow zero [] = refl
used-grow (suc zero) [] = refl
used-grow (suc (suc zero)) [] = refl
used-grow (suc (suc (suc zero))) [] = refl
used-grow (suc (suc (suc (suc k)))) [] = refl
used-grow zero (jp ∷ jobs) = refl
used-grow (suc k) (jp ∷ jobs) = used-grow k jobs

length-grow :
    (jobs : List Job) → length jobs < length (jobs ++ (no_job ∷ no_job ∷ no_job ∷ no_job ∷ []))
length-grow [] = omega arith
length-grow (jp ∷ jobs) = omega (arith, length-grow jobs)

beyond_unused : (jobs : List Job) → is_used (job_at (length jobs) jobs) ≡ false
beyond_unused jobs = elim (Bool-cases (is_used (job_at (length jobs) jobs))) [
  | inl u ↦ let lt = used_below (length jobs) jobs u in absurd (omega (arith, lt))
  | inr u ↦ u
]

-- What a new job takes of one's own jobs: a place that was that of no live job.
abbrev pub Takes : Jobs → Option (ℕ × Jobs) → Type 0
Takes st none = ⊥
Takes st (some (jp, st')) =
    IsOrdered st'
    × (used_at jp st' ≡ true)
    × ((used_at jp st ≡ false) ⊎ (is_over (job_at jp st.jobtab) ≡ true))

-- What makejob gives: where the jobs were the parent's they are gone and the new one is the only one;
-- and else it took a place that was that of no live job.
abbrev pub Makes : Jobs → Option (ℕ × Jobs) → Type 0
Makes st none = ⊥
Makes st (some (jp, st')) =
    IsOrdered st'
    × (used_at jp st' ≡ true)
    × (((st.parjob ≡ true) × (st'.order ≡ jp ∷ []))
        ⊎ ((st.parjob ≡ false)
            × ((used_at jp st ≡ false) ⊎ (is_over (job_at jp st.jobtab) ≡ true))))

-- What resetjobs gives: the parent's jobs are freed, one's own are the parent's from now on.
abbrev pub Resets : Jobs → Jobs → Type 0
Resets st st' =
    IsOrdered st'
    × (st'.parjob ≡ not st.parjob)
    × (st'.order ≡ (if st.parjob then [] else st.order))

by_waited :
    (jp : ℕ) (st : Jobs)
    → used_at jp st ≡ true
    → is_over (job_at jp st.jobtab) ≡ true
    → (o : Option Jobs) → Holds (Freed jp st) o
    → Takes st (elim o as (λ _. Option (ℕ × Jobs)) [
      | none ↦ none
      | some st' ↦ some (jp, start_job jp st')
    ])
by_waited jp st used over none h = h
by_waited jp st used over (some st') h =
    let lt = used_below jp st.jobtab used in
    let same = h.3 in
    let (ordered, now) = start_job-IsOrdered jp st' (omega (arith, lt, same)) h.2 h.0 in
    (ordered, now, inr over)

by_slot-Takes :
    (slot : Slot) (st : Jobs) → IsOrdered st → Fits 0 st.jobtab slot → Takes st (by_slot slot st)
by_slot-Takes (at_unused jp) st is (n, e, lt, u) =
    let place : n ≡ jp = omega (arith, e) in
    let unused = subst (λ k. used_at k st ≡ false) place u in
    let (ordered, now) = start_job-IsOrdered jp st (omega (arith, lt, place)) unused is in
    (ordered, now, inl unused)
by_slot-Takes (at_waited jp) st is (n, e, u, over) =
    let place : n ≡ jp = omega (arith, e) in
    let used = subst (λ k. used_at k st ≡ true) place u in
    by_waited jp st used (subst (λ k. is_over (job_at k st.jobtab) ≡ true) place over)
      (freejob jp st) (freejob-Freed jp st is used)
by_slot-Takes at_end st is h =
    let jp : ℕ = length st.jobtab in
    let unused = beyond_unused st.jobtab in
    let (ordered, now) =
      start_job-IsOrdered jp (growjobtab st) (length-grow st.jobtab)
        (used-grow jp st.jobtab ∙ unused) (λ k. is k ∙ ap one_if (sym (used-grow k st.jobtab))) in
    (ordered, now, inl unused)

-- No job is left, and one is made.
alone :
    (slot : Slot) (par : Bool) (st st' : Jobs)
    → par ≡ true
    → st.parjob ≡ par
    → IsOrdered st'
    → st'.order ≡ []
    → Fits 0 st'.jobtab slot
    → Makes st (by_slot slot st')
alone (at_unused jp) par st st' on own is empty fits =
    let (ordered, now, place) = by_slot-Takes (at_unused jp) st' is fits in
    (ordered, now, inl (own ∙ on, ap (λ o. jp ∷ o) empty))
alone (at_waited jp) par st st' on own is empty (n, e, used, over) =
    let none_left = ap (count n) (sym empty) ∙ is n ∙ ap one_if used in
    absurd (omega (arith, none_left))
alone at_end par st st' on own is empty fits =
    let (ordered, now, place) = by_slot-Takes at_end st' is fits in
    (ordered, now, inl (own ∙ on, ap (λ o. length st'.jobtab ∷ o) empty))

made_alone :
    (st : Jobs)
    → st.parjob ≡ true
    → (o : Option Jobs) → Holds (λ st'. IsOrdered st' × (st'.order ≡ [])) o
    → Makes st (elim o as (λ _. Option (ℕ × Jobs)) [
      | none ↦ none
      | some st' ↦ by_slot (find_slot st'.mflag 0 st'.jobtab) st'
    ])
made_alone st par none h = h
made_alone st par (some st') h =
    alone (find_slot st'.mflag 0 st'.jobtab) true st st' refl par h.0 h.1
      (find_slot-Fits st'.mflag 0 st'.jobtab)

made_own : (st : Jobs) (o : Option (ℕ × Jobs)) → st.parjob ≡ false → Takes st o → Makes st o
made_own st none own h = h
made_own st (some (jp, st')) own h = (h.0, h.1, inr (own, h.2))

reset :
    (st : Jobs)
    → st.parjob ≡ true
    → (o : Option Jobs) → Holds (λ st'. IsOrdered st' × (st'.order ≡ [])) o
    → Holds (Resets st) (elim o as (λ _. Option Jobs) [
      | none ↦ none
      | some st' ↦ some (record st' { parjob = false })
    ])
reset st par none h = h
reset st par (some st') h = rw par (h.0, refl, h.1)

-- From a list that has each job that is used once and no other, resetjobs on the way into a subshell
-- and makejob read no link by a null pointer, and the list has each job once again. resetjobs frees the
-- jobs where they are the parent's, and else keeps them and marks them so. makejob frees the parent's
-- jobs first, so that the new job is the only one; where the jobs are the shell's own, the new job takes
-- a place that is not used, or one whose job is over and waited for.
pub makejob_lem :
    (st : Jobs) → IsOrdered st → Holds (Resets st) (resetjobs st) × Makes st (makejob st)
unfolding resetjobs makejob freejobs
makejob_lem st is = (
  if_cases (Holds (Resets st)) st.parjob
      (λ par. reset st par (free_each st.order st) (free_each-IsOrdered st.order st refl is))
      (λ own. (is, sym (ap not own), sym (ap (λ b. if b then [] else st.order) own))),
  if_cases
      (λ (o : Option Jobs). Makes st (elim o as (λ _. Option (ℕ × Jobs)) [
        | none ↦ none
        | some st' ↦ by_slot (find_slot st'.mflag 0 st'.jobtab) st'
      ]))
      st.parjob (λ par. made_alone st par (freejobs st) (freejobs-IsOrdered st is))
      (λ own. made_own st _ own (
        by_slot-Takes (find_slot st.mflag 0 st.jobtab) st is
          (find_slot-Fits st.mflag 0 st.jobtab))),
)
