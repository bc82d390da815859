-- ===== src/Jobs/Names.antt =====
-- src/jobs.c: getjob, the names of jobs.
use gwsh.Base.{
  ℕ, ◌+◌, ◌-◌, ◌≤◌, ◌≡◌, refl, sym, subst, Bool, true, false, not, ◌&&◌, ◌||◌, Option, none, some,
  List, [], ◌∷◌, Bytes, ◌==◌, leb, if◌then◌else◌, if_cases, if_split, arith, length, ==_iff,
}
use gwsh.MyString.{is_number, prefix}
use gwsh.Jobs.{Procstat, Job, Jobs, job_at}
use gwsh.Jobs.Order.{one_if, count, is_used}
use gwsh.Jobs.Table.{used_at, IsOrdered, used_counted}

-- strstr and atoi of the C library: whether a string is in the other, and the number as an unsigned one.
pub record Strings : Type 0 where
  pub strstr : Bytes → Bytes → Bool
  pub atoi : Bytes → ℕ

-- The job, or what sh_error says. A job without a process has no text of its command.
pub data Found : Type 0 where
  job_is : ℕ → Found
  no_such_job no_current_job no_previous_job is_ambiguous null_cmd : Found

abbrev pub first_cmd : List Procstat → Option Bytes
first_cmd [] = none
first_cmd (ps ∷ rest) = some ps.cmd

-- jp->ps[0].cmd
abbrev pub cmd_at : Option Job → Option Bytes
cmd_at none = none
cmd_at (some jp) = first_cmd jp.ps

abbrev pub result_of : Option ℕ → Found
result_of none = no_such_job
result_of (some jp) = job_is jp

-- The loop over the jobs; `hit` is the one that is found.
unfoldable pub match_each : (Bytes → Bool) → List Job → List ℕ → Option ℕ → Found
unfolding job_at
match_each matches jobs [] hit = result_of hit
match_each matches jobs (jp ∷ order) hit =
    let next : Option ℕ → Found = λ hit'. match_each matches jobs order hit' in
    elim (cmd_at (job_at jp jobs)) as (λ _. Found) [
      | none ↦ null_cmd
      | some cmd ↦
          if not (matches cmd)
          then next hit
          else (elim hit as (λ _. Found) [ none ↦ next (some jp) | some other ↦ is_ambiguous ])
    ]

abbrev pub is_prefix : Bytes → Bytes → Bool
is_prefix p cmd = elim (prefix cmd p) as (λ _. Bool) [ none ↦ false | some rest ↦ true ]

abbrev pub by_text : Strings → Jobs → Bytes → Found
by_text strings st [] = match_each (is_prefix []) st.jobtab st.order none
by_text strings st (c ∷ p) =
    if c == b'?'
    then match_each (λ cmd. strings.strstr cmd p) st.jobtab st.order none
    else match_each (is_prefix (c ∷ p)) st.jobtab st.order none

abbrev pub by_number : Strings → Jobs → Bytes → Found
by_number strings st p =
    if is_number p && (leb 1 (strings.atoi p) && leb (strings.atoi p) (length st.jobtab))
    then (if is_used (job_at (strings.atoi p - 1) st.jobtab)
        then job_is (strings.atoi p - 1)
        else no_such_job)
    else by_text strings st p

abbrev pub current_job : List ℕ → Found
current_job [] = no_current_job
current_job (jp ∷ order) = job_is jp

abbrev pub previous_job : List ℕ → Found
previous_job (jp ∷ prev ∷ order) = job_is prev
previous_job _ = no_previous_job

-- Behind the `%`.
abbrev pub by_name : Strings → Jobs → Bytes → Found
by_name strings st [] = current_job st.order
by_name strings st (c ∷ []) =
    if c == b'+' || c == b'%'
    then current_job st.order
    else if c == b'-'
    then previous_job st.order
    else by_number strings st (c ∷ [])
by_name strings st (c ∷ d ∷ p) = by_number strings st (c ∷ d ∷ p)

unfoldable pub getjob : Strings → Jobs → Option Bytes → Found
unfolding match_each is_number prefix
getjob strings st none = current_job st.order
getjob strings st (some []) = no_such_job
getjob strings st (some (c ∷ p)) = if c == b'%' then by_name strings st p else no_such_job

abbrev pub IsJob : Jobs → Found → Type 0
IsJob st (job_is jp) = used_at jp st ≡ true
IsJob st _ = Unit

module _ (st : Jobs) where
  abbrev AllUsed : List ℕ → Type 0
  AllUsed order = (k : ℕ) → 1 ≤ count k order → used_at k st ≡ true

  AllUsed-tail : (jp : ℕ) (order : List ℕ) → AllUsed (jp ∷ order) → AllUsed order
  AllUsed-tail jp order all k h = all k (omega (arith, h))

  AllUsed-head : (jp : ℕ) (order : List ℕ) → AllUsed (jp ∷ order) → used_at jp st ≡ true
  AllUsed-head jp order all =
      all jp
        (subst (λ b. 1 ≤ one_if b + count jp order) (sym ((==_iff jp jp).1 refl)) (omega arith))

  match_each-IsJob :
      (matches : Bytes → Bool) (order : List ℕ) (hit : Option ℕ)
      → AllUsed order
      → IsJob st (result_of hit)
      → IsJob st (match_each matches st.jobtab order hit)
  unfolding match_each
  match_each-IsJob matches [] hit all h = h
  match_each-IsJob matches (jp ∷ order) hit all h =
      elim (cmd_at (job_at jp st.jobtab))
        as (λ o. IsJob st (elim o as (λ _. Found) [
          | none ↦ null_cmd
          | some cmd ↦
              if not (matches cmd)
              then match_each matches st.jobtab order hit
              else (elim hit as (λ _. Found) [
                | none ↦ match_each matches st.jobtab order (some jp)
                | some other ↦ is_ambiguous
              ])
        ])) [
          | none ↦ tt
          | some cmd ↦
              if_split (IsJob st) (not (matches cmd))
                (match_each-IsJob matches order hit (AllUsed-tail jp order all) h)
                (elim hit
                  as (λ o. IsJob st (elim o as (λ _. Found) [
                    | none ↦ match_each matches st.jobtab order (some jp)
                    | some other ↦ is_ambiguous
                  ])) [
                    | none ↦
                        match_each-IsJob matches order (some jp) (AllUsed-tail jp order all)
                          (AllUsed-head jp order all)
                    | some other ↦ tt
                  ])
        ]

  current_job-IsJob : (order : List ℕ) → AllUsed order → IsJob st (current_job order)
  current_job-IsJob [] all = tt
  current_job-IsJob (jp ∷ order) all = AllUsed-head jp order all

  previous_job-IsJob : (order : List ℕ) → AllUsed order → IsJob st (previous_job order)
  previous_job-IsJob [] all = tt
  previous_job-IsJob (jp ∷ []) all = tt
  previous_job-IsJob (jp ∷ prev ∷ order) all =
      AllUsed-head prev order (AllUsed-tail jp (prev ∷ order) all)

  by_text-IsJob :
      (strings : Strings) (p : Bytes) → AllUsed st.order → IsJob st (by_text strings st p)
  by_text-IsJob strings [] all = match_each-IsJob (is_prefix []) st.order none all tt
  by_text-IsJob strings (c ∷ p) all =
      if_split (IsJob st) (c == b'?')
        (match_each-IsJob (λ cmd. strings.strstr cmd p) st.order none all tt)
        (match_each-IsJob (is_prefix (c ∷ p)) st.order none all tt)

  by_number-IsJob :
      (strings : Strings) (p : Bytes) → AllUsed st.order → IsJob st (by_number strings st p)
  by_number-IsJob strings p all =
      if_split (IsJob st)
        (is_number p && (leb 1 (strings.atoi p) && leb (strings.atoi p) (length st.jobtab)))
        (if_cases (IsJob st) (is_used (job_at (strings.atoi p - 1) st.jobtab)) (λ used. used)
          (λ _. tt))
        (by_text-IsJob strings p all)

  by_name-IsJob :
      (strings : Strings) (p : Bytes) → AllUsed st.order → IsJob st (by_name strings st p)
  by_name-IsJob strings [] all = current_job-IsJob st.order all
  by_name-IsJob strings (c ∷ []) all =
      if_split (IsJob st) (c == b'+' || c == b'%') (current_job-IsJob st.order all) (
        if_split (IsJob st) (c == b'-') (previous_job-IsJob st.order all)
          (by_number-IsJob strings (c ∷ []) all))
  by_name-IsJob strings (c ∷ d ∷ p) all = by_number-IsJob strings (c ∷ d ∷ p) all

-- Where the list of the jobs has each job that is used and no other, a name of a job gives a job that is
-- used, or an error.
pub getjob-IsJob :
    (strings : Strings) (st : Jobs)
    → IsOrdered st
    → (name : Option Bytes) → IsJob st (getjob strings st name)
unfolding getjob
getjob-IsJob strings st is none = current_job-IsJob st st.order (λ k h. used_counted k st is h)
getjob-IsJob strings st is (some []) = tt
getjob-IsJob strings st is (some (c ∷ p)) =
    if_split (IsJob st) (c == b'%') (by_name-IsJob st strings p (λ k h. used_counted k st is h)) tt
