-- ===== src/Redir/Undo.antt =====
-- popredir undoes the redirections since pushredir.
use gwsh.Base.{
  ℕ, zero, suc, ◌+◌, ◌<◌, ◌≡◌, ◌≢◌, ◌∙◌, refl, sym, ap, subst, Bool, true, false, Option, none,
  List, [], ◌∷◌, Bytes, arith, if_cases,
}
use gwsh.Base.Run.{Outcome, ok, err, Ends, Ends-bind}
use gwsh.Redir.System.{Dupfd, dup_is, dup_ebadf, dup_failed, Os, IsOs, SameFiles, DupfdOk, Dup2Ok}
use gwsh.Redir.Frame.{Frame, opened-Frame}
use gwsh.Redir.Saved.{
  put_slot_here, Saves-same, Files, SlotOk, Saves, Saves-start, Saves-done, Saves-replace,
  Saves-closed, Saves-saved, Saves-give_back,
}
use gwsh.Redir.{
  Slot, empty, closed, saved, Renamed, put_slot, is_empty, Redir, State, Error, R, savefd, saved_as,
  save_slot, save_in, redirect_one, redirect_each, redirect, redirectsafe, pushredir, pop_slot,
  pop_slots, popredir, fill_slot, with_os, put_top, status_of, pop_top,
}

module _ {K : Type 0} (os : Os K) (is_os : IsOs os) where
  -- dup2(n, c) of an open descriptor, and close(n)
  moved_back :
      (n c f : ℕ) (k : K) (r : Bool × K)
      → r.0 ≡ true
      → Dup2Ok os n c k r
      → n ≢ c
      → (os.at (os.close n r.1) c ≡ os.at k n)
        × ((i : ℕ) → i ≢ c → i ≢ n → os.at (os.close n r.1) i ≡ os.at k i)
  moved_back n c f k (true, k') e h other = (
    is_os.close_other n k' c (λ x. other (sym x)) ∙ h.0,
    λ i a b. is_os.close_other n k' i b ∙ h.1 i a,
  )
  moved_back n c f k (false, k') e h other = cc

  pop_slot-Saves :
      (c : ℕ) (slot : Slot) (t : Renamed) (k : K) (tab₀ : Files)
      → c < 10
      → t c ≡ slot
      → Saves c t (os.at k) tab₀
      → Saves (suc c) t (os.at (pop_slot os false c slot k)) tab₀
  pop_slot-Saves c empty t k tab₀ hc e s =
      Saves-give_back c empty t (os.at k) (os.at k) tab₀ hc e
        (subst (λ x. SlotOk c x (os.at k) tab₀) e (s.slots c (omega arith) hc)) (λ i _ _. refl)
        (λ n x. cc) s
  pop_slot-Saves c closed t k tab₀ hc e s =
      Saves-give_back c closed t (os.at k) (os.at (os.close c k)) tab₀ hc e
        (is_os.close_none c k
          ∙ sym (subst (λ x. SlotOk c x (os.at k) tab₀) e (s.slots c (omega arith) hc)))
        (λ i n _. is_os.close_other c k i n) (λ n x. cc) s
  pop_slot-Saves c (saved n) t k tab₀ hc e s =
      let held : SlotOk c (saved n) (os.at k) tab₀ =
        subst (λ x. SlotOk c x (os.at k) tab₀) e (s.slots c (omega arith) hc) in
      let f = held.3.0 in
      let back =
        moved_back n c f k (os.dup2 n c k) (is_os.dup2_open n c f k held.3.1 hc)
          (is_os.dup2_ok n c k) (λ x. let low = held.0 in omega (arith, low, hc, x)) in
      Saves-give_back c (saved n) t (os.at k) (os.at (os.close n (os.dup2 n c k).1)) tab₀ hc e
        (back.0 ∙ held.1) (λ i a b. back.1 i a λ x. b (ap saved (sym x)))
        (λ m x.
          let same : n ≡ m = cc in
          subst (λ j. os.at (os.close n (os.dup2 n c k).1) j ≡ tab₀ j) same
            (is_os.close_none n (os.dup2 n c k).1 ∙ sym held.2))
        s

  pop_slots-Saves :
      (n c : ℕ) (t : Renamed) (k : K) (tab₀ : Files)
      → c + n ≡ 10
      → Saves c t (os.at k) tab₀
      → Saves 10 t (os.at (pop_slots os false t n c k)) tab₀
  unfolding pop_slots
  pop_slots-Saves zero c t k tab₀ e s =
      let done : c ≡ 10 = omega (arith, e) in subst (λ x. Saves x t (os.at k) tab₀) done s
  pop_slots-Saves (suc n) c t k tab₀ e s =
      pop_slots-Saves n (suc c) t (pop_slot os false c (t c) k) tab₀ (omega (arith, e))
        (pop_slot-Saves c (t c) t k tab₀ (omega (arith, e)) refl s)

  -- The table on top of redirlist saves what was there; below it is `ts`.
  abbrev pub Under : Files → List Renamed → State K → Type 0
  Under tab₀ ts st = (t : Renamed) × (st.redirlist ≡ t ∷ ts) × Saves 0 t (os.at st.os) tab₀

  -- Moreover, the slot of fd is not EMPTY.
  abbrev Filled : ℕ → Files → List Renamed → State K → Type 0
  Filled fd tab₀ ts st =
      (t : Renamed) × (st.redirlist ≡ t ∷ ts) × Saves 0 t (os.at st.os) tab₀ × (t fd ≢ empty)

  abbrev Stays :
      {A : Type 0}
      → (A → State K → Type 0)
      → Files
      → List Renamed
      → Outcome Error (State K) A
      → Type 0
  Stays P tab₀ ts = Ends P (λ _ st. Under tab₀ ts st)

  is_empty-true : (slot : Slot) → is_empty slot ≡ true → slot ≡ empty
  is_empty-true empty e = refl
  is_empty-true closed e = cc
  is_empty-true (saved n) e = cc

  is_empty-false : (slot : Slot) → is_empty slot ≡ false → slot ≢ empty
  is_empty-false empty e x = cc
  is_empty-false closed e x = cc
  is_empty-false (saved n) e x = cc

  -- The slot that savefd gave is put in.
  filled :
      (fd : ℕ) (slot : Slot) (t : Renamed) (ts : List Renamed) (tab₀ : Files) (st : State K)
      → slot ≢ empty
      → st.redirlist ≡ t ∷ ts
      → Saves 0 (put_slot fd slot t) (os.at st.os) tab₀
      → Stays (λ _. Filled fd tab₀ ts) tab₀ ts (fill_slot os fd slot st)
  filled fd slot t ts tab₀ st full l s = (
    put_slot fd slot t,
    ap (put_top os fd slot) l,
    s,
    λ e. full (sym (put_slot_here fd slot t) ∙ e),
  )

  save_in-Filled :
      (fd : ℕ) (t : Renamed) (ts : List Renamed) (tab₀ : Files) (st : State K)
      → fd < 10
      → st.redirlist ≡ t ∷ ts
      → Saves 0 t (os.at st.os) tab₀
      → Stays (λ _. Filled fd tab₀ ts) tab₀ ts (save_in os fd (t ∷ ts) st)
  unfolding savefd
  save_in-Filled fd t ts tab₀ st hf l s =
      if_cases (λ (m : R K Unit). Stays (λ _. Filled fd tab₀ ts) tab₀ ts (m st)) (is_empty (t fd))
        (λ e. by (is_empty-true (t fd) e) (os.dupfd fd 10 st.os) (is_os.dupfd_ok fd 10 st.os))
        (λ e. (t, l, s, is_empty-false (t fd) e))
    where
      by :
          t fd ≡ empty
          → (r : Dupfd × K) → DupfdOk os fd 10 st.os r
          → Stays
              (λ _. Filled fd tab₀ ts)
              tab₀
              ts
              (elim (saved_as os fd none st r) as (λ _. Outcome Error (State K) Unit) [
                | ok slot st' ↦ fill_slot os fd slot st'
                | err e st' ↦ err e st'
              ])
      by gap (dup_is n, k) h =
          filled fd (saved n) t ts tab₀ (with_os os k st) (λ e. cc) l
            (Saves-saved fd t (os.at st.os) (os.at k) tab₀ hf gap s n h.3.0 h.0 h.1.0 h.1.1 h.2
              h.3.1)
      by gap (dup_ebadf, k) h =
          filled fd closed t ts tab₀ (with_os os k st) (λ e. cc) l
            (Saves-closed fd t (os.at st.os) (os.at k) tab₀ hf gap s h.0 h.1)
      by gap (dup_failed, k) h = (t, l, Saves-same t (os.at st.os) (os.at k) tab₀ h s)

  save_slot-Filled :
      (fd : ℕ) (ts : List Renamed) (tab₀ : Files) (st : State K)
      → fd < 10
      → Under tab₀ ts st
      → Stays (λ _. Filled fd tab₀ ts) tab₀ ts (save_slot os true fd st)
  unfolding save_slot
  save_slot-Filled fd ts tab₀ st hf (t, l, s) =
      subst (λ list. Stays (λ _. Filled fd tab₀ ts) tab₀ ts (save_in os fd list st)) (sym l)
        (save_in-Filled fd t ts tab₀ st hf l s)

  -- What a redirection does to its descriptor is undone later.
  framed :
      (fd : ℕ) (ts : List Renamed) (tab₀ : Files) (st : State K) (o : Outcome Error (State K) Unit)
      → fd < 10
      → Filled fd tab₀ ts st
      → Frame os is_os fd st o
      → Stays (λ _. Under tab₀ ts) tab₀ ts o
  framed fd ts tab₀ st (ok a st') hf (t, l, s, full) h =
      (t, h.1 ∙ l, Saves-replace fd t (os.at st.os) (os.at st'.os) tab₀ hf full h.0 s)
  framed fd ts tab₀ st (err e st') hf (t, l, s, full) h =
      (t, h.1 ∙ l, Saves-replace fd t (os.at st.os) (os.at st'.os) tab₀ hf full h.0 s)

  redirect_one-Under :
      (expand : Bytes → Option Bytes) (n : Redir) (ts : List Renamed) (tab₀ : Files) (st : State K)
      → n.fd < 10
      → Under tab₀ ts st
      → Stays (λ _. Under tab₀ ts) tab₀ ts (redirect_one os expand true n st)
  unfolding redirect_one
  redirect_one-Under expand n ts tab₀ st hf u =
      Ends-bind (λ _. Filled n.fd tab₀ ts) (λ _. Under tab₀ ts) (λ _. Under tab₀ ts)
        (save_slot os true n.fd) _ st (save_slot-Filled n.fd ts tab₀ st hf u)
        λ _ st' h. framed n.fd ts tab₀ st' _ hf h (opened-Frame os is_os expand n st')

  -- The descriptors that the redirections are for are single digits.
  abbrev pub AreDigits : List Redir → Type 0
  AreDigits [] = Unit
  AreDigits (n ∷ ns) = (n.fd < 10) × AreDigits ns

  redirect_each-Under :
      (expand : Bytes → Option Bytes) (ns : List Redir) (ts : List Renamed) (tab₀ : Files)
      (st : State K)
      → AreDigits ns
      → Under tab₀ ts st
      → Stays (λ _. Under tab₀ ts) tab₀ ts (redirect_each os expand true ns st)
  unfolding redirect_each
  redirect_each-Under expand [] ts tab₀ st d u = u
  redirect_each-Under expand (n ∷ ns) ts tab₀ st d u =
      Ends-bind (λ _. Under tab₀ ts) (λ _. Under tab₀ ts) (λ _. Under tab₀ ts)
        (redirect_one os expand true n) _ st (redirect_one-Under expand n ts tab₀ st d.0 u)
        λ _ st' h. redirect_each-Under expand ns ts tab₀ st' d.1 h

  redirect-Under :
      (expand : Bytes → Option Bytes) (ns : List Redir) (ts : List Renamed) (tab₀ : Files)
      (st : State K)
      → AreDigits ns
      → Under tab₀ ts st
      → Stays (λ _. Under tab₀ ts) tab₀ ts (redirect os expand true ns st)
  unfolding redirect
  redirect-Under expand [] ts tab₀ st d u = u
  redirect-Under expand (n ∷ ns) ts tab₀ st d u =
      Ends-bind (λ _. Under tab₀ ts) (λ _. Under tab₀ ts) (λ _. Under tab₀ ts)
        (redirect_each os expand true (n ∷ ns)) _ st
        (redirect_each-Under expand (n ∷ ns) ts tab₀ st d u) λ _ st' h. h

  status_of-Under :
      (ts : List Renamed) (tab₀ : Files) (o : Outcome Error (State K) Unit)
      → Stays (λ _. Under tab₀ ts) tab₀ ts o
      → Under tab₀ ts (status_of os o).1
  status_of-Under ts tab₀ (ok _ st) h = h
  status_of-Under ts tab₀ (err e st) h = h

  -- pushredir and redirectsafe, as they stand before a command.
  unfoldable pub push_and_redirect : (Bytes → Option Bytes) → List Redir → State K → State K
  push_and_redirect expand ns st = (redirectsafe os expand true ns (pushredir os ns st)).1

  pub push_and_redirect-Under :
      (expand : Bytes → Option Bytes) (n : Redir) (ns : List Redir) (st : State K)
      → AreDigits (n ∷ ns)
      → Under (os.at st.os) st.redirlist (push_and_redirect expand (n ∷ ns) st)
  unfolding push_and_redirect redirectsafe pushredir
  push_and_redirect-Under expand n ns st d =
      let pushed = pushredir os (n ∷ ns) st in
      status_of-Under st.redirlist (os.at st.os) (redirect os expand true (n ∷ ns) pushed) (
        redirect-Under expand (n ∷ ns) st.redirlist (os.at st.os) pushed d
          ((λ i. empty), refl, Saves-start (os.at st.os)))

  -- All descriptors are those of `st`, and so is redirlist.
  abbrev pub Back : State K → State K → Type 0
  Back st st' = SameFiles os st.os st'.os × (st'.redirlist ≡ st.redirlist)

  abbrev pub Ends-Back : {A : Type 0} → State K → Outcome Error (State K) A → Type 0
  Ends-Back st = Ends (λ _ st'. Back st st') (λ _ _. ⊥)

  pub popredir-Back :
      (st st' : State K)
      → Under (os.at st.os) st.redirlist st'
      → Ends-Back st (popredir os false st')
  unfolding popredir
  popredir-Back st st' (t, l, s) =
      subst (λ list. Ends-Back st (pop_top os false list st')) (sym l)
        (
          Saves-done t (os.at (pop_slots os false t 10 0 st'.os)) (os.at st.os)
              (pop_slots-Saves 10 0 t st'.os (os.at st.os) refl s),
          refl,
        )
