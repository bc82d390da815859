-- ===== src/Jobs/Order.antt =====
-- The list of the jobs: how often a job stands in it.
use gwsh.Base.{
  ℕ, zero, suc, ◌+◌, ◌≤◌, ◌<◌, ◌≡◌, ◌∙◌, refl, ap, subst, Bool, true, false, Option, none, some,
  List, [], ◌∷◌, ◌==◌, if◌then◌else◌, if_cases, arith, length, Bool-cases, inl, inr, ==_iff,
}
use gwsh.Jobs.{Job, job_at, change_job, unlink, insert_running, stopped_at}

abbrev pub one_if : Bool → ℕ
one_if true = 1
one_if false = 0

abbrev pub count : ℕ → List ℕ → ℕ
count k [] = 0
count k (jp ∷ order) = one_if (k == jp) + count k order

-- The job that is taken out is counted once less, and the others as before.
abbrev pub Unlinked : ℕ → List ℕ → Option (List ℕ) → Type 0
Unlinked jp order none = ⊥
Unlinked jp order (some order') = (k : ℕ) → count k order' + one_if (k == jp) ≡ count k order

flip : (a b : ℕ) → (a == b) ≡ false → (b == a) ≡ false
flip a b h = ground (arith, h)

Unlinked-cons :
    (jp jp1 : ℕ) (order : List ℕ) (o : Option (List ℕ))
    → Unlinked jp order o
    → Unlinked jp
        (jp1 ∷ order)
        (elim o as (λ _. Option (List ℕ)) [ none ↦ none | some order' ↦ some (jp1 ∷ order') ])
Unlinked-cons jp jp1 order none h = h
Unlinked-cons jp jp1 order (some order') h = λ k. let here = h k in omega (arith, here)

pub unlink-Unlinked :
    (jp : ℕ) (order : List ℕ) → 1 ≤ count jp order → Unlinked jp order (unlink jp order)
unfolding unlink
unlink-Unlinked jp [] h = absurd (omega (arith, h))
unlink-Unlinked jp (jp1 ∷ order) h = elim (Bool-cases (jp1 == jp)) [
  | inl same ↦
      rw same (λ k. let e = ap (λ j. one_if (k == j)) ((==_iff jp1 jp).0 same) in omega (arith, e))
  | inr other ↦ rw other (
      Unlinked-cons jp jp1 order (unlink jp order) (
        unlink-Unlinked jp order (
          let h' = subst (λ b. 1 ≤ one_if b + count jp order) (flip jp1 jp other) h in
          omega (arith, h'))))
]

pub count-insert_running :
    (k : ℕ) (jobs : List Job) (jp : ℕ) (order : List ℕ)
    → count k (insert_running jobs jp order) ≡ one_if (k == jp) + count k order
unfolding insert_running
count-insert_running k jobs jp [] = refl
count-insert_running k jobs jp (jp1 ∷ order) =
    if_cases (λ (o : List ℕ). count k o ≡ one_if (k == jp) + (one_if (k == jp1) + count k order))
      (stopped_at (job_at jp1 jobs))
      (λ _. let rest = count-insert_running k jobs jp order in omega (arith, rest)) (λ _. refl)

abbrev pub is_used : Option Job → Bool
is_used none = false
is_used (some jp) = jp.used

pub used_at-change_job :
    (k i : ℕ) (f : Job → Job) (b : Bool) (jobs : List Job)
    → ((jp : Job) → (f jp).used ≡ b)
    → i < length jobs
    → is_used (job_at k (change_job i f jobs)) ≡ (if k == i then b else is_used (job_at k jobs))
unfolding job_at change_job
used_at-change_job k i f b [] h lt = absurd (omega (arith, lt))
used_at-change_job zero zero f b (jp ∷ jobs) h lt = h jp
used_at-change_job (suc k) zero f b (jp ∷ jobs) h lt = ground arith
used_at-change_job zero (suc i) f b (jp ∷ jobs) h lt = ground arith
used_at-change_job (suc k) (suc i) f b (jp ∷ jobs) h lt =
    used_at-change_job k i f b jobs h (omega (arith, lt)) ∙ (ground arith)

pub used_below : (k : ℕ) (jobs : List Job) → is_used (job_at k jobs) ≡ true → k < length jobs
unfolding job_at
used_below k [] h = absurd cc
used_below zero (jp ∷ jobs) h = omega arith
used_below (suc k) (jp ∷ jobs) h = omega (arith, used_below k jobs h)

pub length-change_job :
    (i : ℕ) (f : Job → Job) (jobs : List Job) → length (change_job i f jobs) ≡ length jobs
unfolding change_job
length-change_job i f [] = refl
length-change_job zero f (jp ∷ jobs) = refl
length-change_job (suc i) f (jp ∷ jobs) = ap suc (length-change_job i f jobs)

pub unlink_first : (jp : ℕ) (order : List ℕ) → unlink jp (jp ∷ order) ≡ some order
unfolding unlink
unlink_first jp order = rw ((==_iff jp jp).1 refl) refl
