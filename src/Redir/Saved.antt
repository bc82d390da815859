-- ===== src/Redir/Saved.antt =====
-- What a table of saved descriptors holds, and that it is kept while descriptors are saved and replaced.
use gwsh.Base.{
  ℕ, suc, ◌≤◌, ◌<◌, ◌≡◌, ◌≢◌, ◌∙◌, ◌⊎◌, inl, inr, refl, sym, ap, subst, Option, none, some, arith,
}
use gwsh.Redir.{Slot, empty, closed, saved, Renamed, put_slot}
use gwsh.Redir.Frame.{≡-cases}

abbrev pub Files : Type 0
Files = ℕ → Option ℕ

-- What is known of a descriptor i by its slot: `tab` are the files now, `tab₀` those at the start.
abbrev pub SlotOk : ℕ → Slot → Files → Files → Type 0
SlotOk i empty tab tab₀ = tab i ≡ tab₀ i
SlotOk i closed tab tab₀ = tab₀ i ≡ none
SlotOk i (saved n) tab tab₀ =
    (10 ≤ n) × (tab n ≡ tab₀ i) × (tab₀ n ≡ none) × ((f : ℕ) × (tab n ≡ some f))

-- The descriptors below c are given back, and those from c to 9 are known by their slots. No descriptor
-- from 10 on has changed, but for those that the slots hold, and these are distinct.
pub record Saves (c : ℕ) (t : Renamed) (tab tab₀ : Files) : Type 0 where
  pub given_back : (i : ℕ) → i < c → tab i ≡ tab₀ i
  pub slots : (i : ℕ) → c ≤ i → i < 10 → SlotOk i (t i) tab tab₀
  pub rest : (j : ℕ) → 10 ≤ j → ((i : ℕ) → c ≤ i → i < 10 → t i ≢ saved j) → tab j ≡ tab₀ j
  pub distinct : (i j n : ℕ) → i < 10 → j < 10 → t i ≡ saved n → t j ≡ saved n → i ≡ j

pub Saves-start : (tab : Files) → Saves 0 (λ i. empty) tab tab
Saves-start tab = record {
  given_back = λ i h. absurd (omega (arith, h));
  slots = λ i _ _. refl;
  rest = λ j _ _. refl;
  distinct = λ i j n _ _ e _. cc;
}

pub Saves-done : (t : Renamed) (tab tab₀ : Files) → Saves 10 t tab tab₀ → (i : ℕ) → tab i ≡ tab₀ i
Saves-done t tab tab₀ s i = elim (below i) [
  | inl h ↦ s.given_back i h
  | inr h ↦ s.rest i h λ j a b. absurd (omega (arith, a, b))
]
  where
    below : (i : ℕ) → (i < 10) ⊎ (10 ≤ i)
    below i = omega arith

-- The files that a slot speaks of are the same.
pub slot_same :
    (i : ℕ) (slot : Slot) (tab tab' tab₀ : Files)
    → (slot ≡ empty → tab' i ≡ tab i)
    → ((n : ℕ) → 10 ≤ n → slot ≡ saved n → tab' n ≡ tab n)
    → SlotOk i slot tab tab₀
    → SlotOk i slot tab' tab₀
slot_same i empty tab tab' tab₀ e n h = e refl ∙ h
slot_same i closed tab tab' tab₀ e n h = h
slot_same i (saved m) tab tab' tab₀ e n h =
    let same = n m h.0 refl in (h.0, same ∙ h.1, h.2, (h.3.0, same ∙ h.3.1))

pub Saves-same :
    (t : Renamed) (tab tab' tab₀ : Files)
    → ((i : ℕ) → tab' i ≡ tab i)
    → Saves 0 t tab tab₀
    → Saves 0 t tab' tab₀
Saves-same t tab tab' tab₀ same s = record {
  given_back = λ i h. absurd (omega (arith, h));
  slots = λ i a b. slot_same i (t i) tab tab' tab₀ (λ _. same i) (λ n _ _. same n) (s.slots i a b);
  rest = λ j h free. same j ∙ s.rest j h free;
  distinct = s.distinct;
}

-- A descriptor that is saved may be replaced.
pub Saves-replace :
    (fd : ℕ) (t : Renamed) (tab tab' tab₀ : Files)
    → fd < 10
    → t fd ≢ empty
    → ((i : ℕ) → i ≢ fd → tab' i ≡ tab i)
    → Saves 0 t tab tab₀
    → Saves 0 t tab' tab₀
Saves-replace fd t tab tab' tab₀ hf full same s = record {
  given_back = λ i h. absurd (omega (arith, h));
  slots = λ i a b.
      slot_same i (t i) tab tab' tab₀ (λ e. same i λ f. full (subst (λ j. t j ≡ empty) f e))
        (λ n h e. same n (omega (arith, h, hf))) (s.slots i a b);
  rest = λ j h free. same j (omega (arith, h, hf)) ∙ s.rest j h free;
  distinct = s.distinct;
}

-- A slot that holds an open file.
saved_open :
    (t : Renamed) (tab tab₀ : Files) (i n : ℕ)
    → Saves 0 t tab tab₀
    → i < 10
    → t i ≡ saved n
    → (f : ℕ) × (tab n ≡ some f)
saved_open t tab tab₀ i n s h e =
    (subst (λ slot. SlotOk i slot tab tab₀) e (s.slots i (omega arith) h)).3

pub put_slot_here : (fd : ℕ) (slot : Slot) (t : Renamed) → put_slot fd slot t fd ≡ slot
put_slot_here fd slot t = ground arith

put_slot_other : (fd : ℕ) (slot : Slot) (t : Renamed) (i : ℕ) → i ≢ fd → put_slot fd slot t i ≡ t i
put_slot_other fd slot t i h = ground arith

-- A slot that was EMPTY is filled.
Saves-fill :
    (fd : ℕ) (slot : Slot) (t : Renamed) (tab' tab₀ : Files)
    → fd < 10
    → t fd ≡ empty
    → SlotOk fd slot tab' tab₀
    → ((i : ℕ) → i < 10 → i ≢ fd → SlotOk i (t i) tab' tab₀)
    → ((n i : ℕ) → slot ≡ saved n → i < 10 → t i ≢ saved n)
    → ((j : ℕ) → 10 ≤ j → slot ≢ saved j → ((i : ℕ) → i < 10 → t i ≢ saved j) → tab' j ≡ tab₀ j)
    → ((i j n : ℕ) → i < 10 → j < 10 → t i ≡ saved n → t j ≡ saved n → i ≡ j)
    → Saves 0 (put_slot fd slot t) tab' tab₀
Saves-fill fd slot t tab' tab₀ hf gap new old fresh rest distinct = record {
  given_back = λ i h. absurd (omega (arith, h));
  slots = λ i a b. slots i b (≡-cases i fd);
  rest = λ j h free.
      rest j h (λ e. free fd (omega arith) hf (put_slot_here fd slot t ∙ e))
        (λ i b e. not_saved j free i b e (≡-cases i fd));
  distinct = λ i j n a b e e'. distinct' i j n a b e e' (≡-cases i fd) (≡-cases j fd);
}
  where
    slots : (i : ℕ) → i < 10 → (i ≡ fd) ⊎ (i ≢ fd) → SlotOk i (put_slot fd slot t i) tab' tab₀
    slots i b (inl e) =
        subst (λ j. SlotOk j (put_slot fd slot t j) tab' tab₀) (sym e)
          (subst (λ x. SlotOk fd x tab' tab₀) (sym (put_slot_here fd slot t)) new)
    slots i b (inr n) =
        subst (λ x. SlotOk i x tab' tab₀) (sym (put_slot_other fd slot t i n)) (old i b n)

    not_saved :
        (j : ℕ)
        → ((i : ℕ) → 0 ≤ i → i < 10 → put_slot fd slot t i ≢ saved j)
        → (i : ℕ) → i < 10
        → t i ≡ saved j
        → (i ≡ fd) ⊎ (i ≢ fd)
        → ⊥
    not_saved j free i b e (inl f) = let gap' = subst (λ x. t x ≡ saved j) f e in cc
    not_saved j free i b e (inr n) = free i (omega arith) b (put_slot_other fd slot t i n ∙ e)

    here : (i n : ℕ) → i ≡ fd → put_slot fd slot t i ≡ saved n → slot ≡ saved n
    here i n e h = sym (put_slot_here fd slot t) ∙ ap (put_slot fd slot t) (sym e) ∙ h

    there : (i n : ℕ) → i ≢ fd → put_slot fd slot t i ≡ saved n → t i ≡ saved n
    there i n e h = sym (put_slot_other fd slot t i e) ∙ h

    distinct' :
        (i j n : ℕ)
        → i < 10
        → j < 10
        → put_slot fd slot t i ≡ saved n
        → put_slot fd slot t j ≡ saved n
        → (i ≡ fd) ⊎ (i ≢ fd)
        → (j ≡ fd) ⊎ (j ≢ fd)
        → i ≡ j
    distinct' i j n a b e e' (inl x) (inl y) = x ∙ sym y
    distinct' i j n a b e e' (inl x) (inr y) = absurd (fresh n j (here i n x e) b (there j n y e'))
    distinct' i j n a b e e' (inr x) (inl y) = absurd (fresh n i (here j n y e') a (there i n x e))
    distinct' i j n a b e e' (inr x) (inr y) = distinct i j n a b (there i n x e) (there j n y e')

module _ (fd : ℕ) (t : Renamed) (tab tab' tab₀ : Files) (hf : fd < 10) (gap : t fd ≡ empty)
    (s : Saves 0 t tab tab₀) where
  was_there : tab fd ≡ tab₀ fd
  was_there = subst (λ slot. SlotOk fd slot tab tab₀) gap (s.slots fd (omega arith) hf)

  -- A descriptor that is not open is noted.
  pub Saves-closed :
      tab fd ≡ none → ((i : ℕ) → tab' i ≡ tab i) → Saves 0 (put_slot fd closed t) tab' tab₀
  Saves-closed shut same =
      Saves-fill fd closed t tab' tab₀ hf gap (sym was_there ∙ shut)
        (λ i b _.
          slot_same i (t i) tab tab' tab₀ (λ _. same i) (λ n _ _. same n)
            (s.slots i (omega arith) b))
        (λ n i e. cc) (λ j h _ free. same j ∙ s.rest j h λ i _ b. free i b) s.distinct

  -- An open one is saved under a descriptor that is free.
  pub Saves-saved :
      (n f : ℕ)
      → 10 ≤ n
      → tab n ≡ none
      → ((i : ℕ) → i ≢ n → tab' i ≡ tab i)
      → tab' n ≡ tab fd
      → tab fd ≡ some f
      → Saves 0 (put_slot fd (saved n) t) tab' tab₀
  Saves-saved n f hn free same copy shown =
      Saves-fill fd (saved n) t tab' tab₀ hf gap
        (hn, copy ∙ was_there, sym (s.rest n hn λ i _ b. fresh i b) ∙ free, (f, copy ∙ shown))
        (λ i b _.
          slot_same i (t i) tab tab' tab₀ (λ _. same i (omega (arith, b, hn)))
            (λ m _ e. same m λ e'. fresh i b (e ∙ ap saved e')) (s.slots i (omega arith) b))
        (λ m i e b e'. fresh i b (e' ∙ sym e))
        (λ j h other unused.
          same j (λ e. other (ap saved (sym e))) ∙ s.rest j h λ i _ b. unused i b)
        s.distinct
    where
      fresh : (i : ℕ) → i < 10 → t i ≢ saved n
      fresh i b e = let open' = saved_open t tab tab₀ i n s b e in let shut = open'.1 in cc

saved-cases : (slot : Slot) (j : ℕ) → (slot ≡ saved j) ⊎ (slot ≢ saved j)
saved-cases empty j = inr λ e. cc
saved-cases closed j = inr λ e. cc
saved-cases (saved n) j = elim (≡-cases n j) [ inl e ↦ inl (ap saved e) | inr h ↦ inr λ e. h (cc) ]

-- The descriptor c is given back, and what its slot held is closed.
module _ (c : ℕ) (slot : Slot) (t : Renamed) (tab tab' tab₀ : Files) (hc : c < 10)
    (at_c : t c ≡ slot) (back : tab' c ≡ tab₀ c)
    (same : (i : ℕ) → i ≢ c → slot ≢ saved i → tab' i ≡ tab i)
    (held : (n : ℕ) → slot ≡ saved n → tab' n ≡ tab₀ n) (s : Saves c t tab tab₀) where
  high : (n : ℕ) → slot ≡ saved n → 10 ≤ n
  high n e = (subst (λ x. SlotOk c x tab tab₀) (at_c ∙ e) (s.slots c (omega arith) hc)).0

  low_same : (i : ℕ) → i < 10 → i ≢ c → tab' i ≡ tab i
  low_same i b n = same i n λ e. let h = high i e in omega (arith, h, b)

  pub Saves-give_back : Saves (suc c) t tab' tab₀
  Saves-give_back = record {
    given_back = λ i h. given i h (≡-cases i c);
    slots = λ i a b.
        slot_same i (t i) tab tab' tab₀ (λ _. low_same i b (omega (arith, a)))
          (λ m h e.
            same m (omega (arith, h, hc))
              λ e'. let both = s.distinct i c m b hc e (at_c ∙ e') in omega (arith, a, both))
          (s.slots i (omega (arith, a)) b);
    rest = λ j h free. rest j h free (saved-cases slot j);
    distinct = s.distinct;
  }
    where
      given : (i : ℕ) → i < suc c → (i ≡ c) ⊎ (i ≢ c) → tab' i ≡ tab₀ i
      given i h (inl e) = ap tab' e ∙ back ∙ ap tab₀ (sym e)
      given i h (inr n) = low_same i (omega (arith, h, hc)) n ∙ s.given_back i (omega (arith, h, n))

      rest :
          (j : ℕ)
          → 10 ≤ j
          → ((i : ℕ) → suc c ≤ i → i < 10 → t i ≢ saved j)
          → (slot ≡ saved j) ⊎ (slot ≢ saved j)
          → tab' j ≡ tab₀ j
      rest j h free (inl e) = held j e
      rest j h free (inr n) =
          same j (omega (arith, h, hc)) n
          ∙ s.rest j h λ i a b e. elim (≡-cases i c) [
            | inl x ↦ n (sym at_c ∙ ap t (sym x) ∙ e)
            | inr y ↦ free i (omega (arith, a, y)) b e
          ]
