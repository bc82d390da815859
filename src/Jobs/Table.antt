-- ===== src/Jobs/Table.antt =====
-- The list of the jobs has each job that is used once, and no other.
use gwsh.Base.{
  bools_apart, ℕ, ◌+◌, ◌≤◌, ◌<◌, ◌≡◌, ◌∙◌, refl, sym, ap, subst, Bool, true, false, Option, none,
  some, List, [], ◌∷◌, ◌==◌, if◌then◌else◌, if_cases, if_split, arith, length, Bool-cases, inl, inr,
  ==_iff,
}
use gwsh.Jobs.{
  Job, Jobs, Mode, cur_delete, cur_running, cur_stopped, job_at, change_job, unlink, reinsert,
  set_curjob, freejob, free_each, freejobs, start_job, own_jobs,
}
use gwsh.Jobs.Order.{
  one_if, count, Unlinked, unlink-Unlinked, count-insert_running, is_used, used_at-change_job,
  used_below, length-change_job, unlink_first,
}

abbrev pub used_at : ℕ → Jobs → Bool
used_at k st = is_used (job_at k st.jobtab)

abbrev pub IsOrdered : Jobs → Type 0
IsOrdered st = (k : ℕ) → count k st.order ≡ one_if (used_at k st)

-- What holds of the state, where there is one: no link is read by a null pointer.
abbrev pub Holds : (Jobs → Type 0) → Option Jobs → Type 0
Holds P none = ⊥
Holds P (some st) = P st

count_used : (jp : ℕ) (st : Jobs) → IsOrdered st → used_at jp st ≡ true → 1 ≤ count jp st.order
count_used jp st is used = let here = is jp ∙ ap one_if used in omega (arith, here)

pub used_counted :
    (jp : ℕ) (st : Jobs) → IsOrdered st → 1 ≤ count jp st.order → used_at jp st ≡ true
used_counted jp st is h = elim (Bool-cases (used_at jp st)) [
  | inl u ↦ u
  | inr u ↦ let here = is jp ∙ ap one_if u in absurd (omega (arith, here, h))
]

one_if_most : (b : Bool) → one_if b ≤ 1
one_if_most true = omega arith
one_if_most false = omega arith

reinsert-count :
    (mode : Mode) (k jp : ℕ) (jobs : List Job) (order : List ℕ)
    → (mode ≡ cur_delete → ⊥)
    → count k (reinsert mode jobs jp order) ≡ one_if (k == jp) + count k order
reinsert-count cur_delete k jp jobs order h = absurd (h refl)
reinsert-count cur_running k jp jobs order h = count-insert_running k jobs jp order
reinsert-count cur_stopped k jp jobs order h = refl

-- A job that is used changes its place in the list.
pub set_curjob-IsOrdered :
    (jp : ℕ) (mode : Mode) (st : Jobs)
    → (mode ≡ cur_delete → ⊥)
    → IsOrdered st
    → used_at jp st ≡ true
    → Holds IsOrdered (set_curjob jp mode st)
unfolding set_curjob
set_curjob-IsOrdered jp mode st moves is used =
    moved (unlink jp st.order) (unlink-Unlinked jp st.order (count_used jp st is used))
  where
    moved :
        (o : Option (List ℕ))
        → Unlinked jp st.order o
        → Holds IsOrdered (elim o as (λ _. Option Jobs) [
          | none ↦ none
          | some order ↦ some (record st { order = reinsert mode st.jobtab jp order })
        ])
    moved none h = h
    moved (some order) h = λ k.
        let one = h k in
        let all = is k in
        let put = reinsert-count mode k jp st.jobtab order moves in omega (arith, one, all, put)

-- What is left where the job was taken out.
abbrev pub Freed : ℕ → Jobs → Jobs → Type 0
Freed jp st st' =
    IsOrdered st'
    × (unlink jp st.order ≡ some st'.order)
    × (used_at jp st' ≡ false)
    × (length st'.jobtab ≡ length st.jobtab)

pub freejob-Freed :
    (jp : ℕ) (st : Jobs) → IsOrdered st → used_at jp st ≡ true → Holds (Freed jp st) (freejob jp st)
unfolding freejob set_curjob
freejob-Freed jp st is used =
    freed (unlink jp st.order) refl (unlink-Unlinked jp st.order (count_used jp st is used))
  where
    jobs : List Job
    jobs = change_job jp (λ job. record job { used = false }) st.jobtab

    now : (k : ℕ) → is_used (job_at k jobs) ≡ (if k == jp then false else used_at k st)
    now k = used_at-change_job k jp _ false st.jobtab (λ _. refl) (used_below jp st.jobtab used)

    counted :
        (order : List ℕ)
        → Unlinked jp st.order (some order)
        → (k : ℕ) → count k order ≡ one_if (if k == jp then false else used_at k st)
    counted order h k = elim (Bool-cases (k == jp)) [
      | inl c ↦
          let here = subst (λ b. count k order + one_if b ≡ count k st.order) c (h k) in
          let all = is k in
          let most = one_if_most (used_at k st) in rw c (omega (arith, here, all, most))
      | inr c ↦
          let here = subst (λ b. count k order + one_if b ≡ count k st.order) c (h k) in
          let all = is k in rw c (omega (arith, here, all))
    ]

    freed :
        (o : Option (List ℕ))
        → unlink jp st.order ≡ o
        → Unlinked jp st.order o
        → Holds (Freed jp st) (elim o as (λ _. Option Jobs) [
          | none ↦ none
          | some order ↦ some (record st { jobtab = jobs; order = order })
        ])
    freed none e h = h
    freed (some order) e h = (
      (λ k. counted order h k ∙ ap one_if (sym (now k))),
      e,
      now jp
          ∙ if_cases (λ b. b ≡ false) (jp == jp) (λ _. refl)
              (λ x. absurd (bools_apart (sym ((==_iff jp jp).1 refl) ∙ x))),
      length-change_job jp _ st.jobtab,
    )

Holds-then :
    (P Q : Jobs → Type 0) (f : Jobs → Option Jobs) (o : Option Jobs)
    → Holds P o
    → ((st : Jobs) → P st → Holds Q (f st))
    → Holds Q (elim o as (λ _. Option Jobs) [ none ↦ none | some st ↦ f st ])
Holds-then P Q f none h g = h
Holds-then P Q f (some st) h g = g st h

pub some-injective : {A : Type 0} {a b : A} → some a ≡ some b → a ≡ b
some-injective h = cc

-- The jobs of the list are freed from the first on.
pub free_each-IsOrdered :
    (order : List ℕ) (st : Jobs)
    → st.order ≡ order
    → IsOrdered st
    → Holds (λ st'. IsOrdered st' × (st'.order ≡ [])) (free_each order st)
unfolding free_each
free_each-IsOrdered [] st same is = (is, same)
free_each-IsOrdered (jp ∷ order) st same is =
    let here =
      subst (λ b. 1 ≤ one_if b + count jp order) (sym ((==_iff jp jp).1 refl)) (omega arith) in
    let first = subst (λ o. 1 ≤ count jp o) (sym same) here in
    Holds-then (Freed jp st) (λ st'. IsOrdered st' × (st'.order ≡ [])) (free_each order)
      (freejob jp st) (freejob-Freed jp st is (used_counted jp st is first))
      λ st' h.
        free_each-IsOrdered order st'
          (some-injective (sym h.1 ∙ ap (unlink jp) same ∙ unlink_first jp order)) h.0

pub freejobs-IsOrdered :
    (st : Jobs) → IsOrdered st → Holds (λ st'. IsOrdered st' × (st'.order ≡ [])) (freejobs st)
unfolding freejobs
freejobs-IsOrdered st is =
    Holds-then (λ st'. IsOrdered st' × (st'.order ≡ [])) (λ st'. IsOrdered st' × (st'.order ≡ []))
      (λ st'. some (record st' { parjob = false })) (free_each st.order st)
      (free_each-IsOrdered st.order st refl is) λ st' h. h

pub own_jobs-IsOrdered : (st : Jobs) → IsOrdered st → Holds IsOrdered (own_jobs st)
own_jobs-IsOrdered st is =
    if_split (Holds IsOrdered) st.parjob (Holds-map (freejobs st) (freejobs-IsOrdered st is)) is
  where
    Holds-map :
        (o : Option Jobs) → Holds (λ st'. IsOrdered st' × (st'.order ≡ [])) o → Holds IsOrdered o
    Holds-map none h = h
    Holds-map (some st') h = h.0

pub start_job-IsOrdered :
    (jp : ℕ) (st : Jobs)
    → jp < length st.jobtab
    → used_at jp st ≡ false
    → IsOrdered st
    → IsOrdered (start_job jp st) × (used_at jp (start_job jp st) ≡ true)
unfolding change_job
start_job-IsOrdered jp st lt unused is = ((λ k. started k ∙ ap one_if (sym (now k))), now jp ∙ here)
  where
    now : (k : ℕ) → used_at k (start_job jp st) ≡ (if k == jp then true else used_at k st)
    now k = used_at-change_job k jp _ true st.jobtab (λ _. refl) lt

    here : (if jp == jp then true else used_at jp st) ≡ true
    here =
        if_cases (λ b. b ≡ true) (jp == jp) (λ _. refl)
          (λ x. absurd (bools_apart (sym ((==_iff jp jp).1 refl) ∙ x)))

    started :
        (k : ℕ)
        → one_if (k == jp) + count k st.order ≡ one_if (if k == jp then true else used_at k st)
    started k = elim (Bool-cases (k == jp)) [
      | inl c ↦
          let same = (==_iff k jp).0 c in
          let none_yet = is k ∙ ap (λ j. one_if (used_at j st)) same ∙ ap one_if unused in
          rw c (omega (arith, none_yet))
      | inr c ↦ let all = is k in rw c (omega (arith, all))
    ]
