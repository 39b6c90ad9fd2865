-- ===== src/Pdu/CalLog.antt =====
-- A save loses no calibration: what the log gives after it.
use open_skyhawk.Base.{
  ℕ, zero, suc, ◌+◌, ◌*◌, ◌%◌, ◌≤◌, ◌<◌, ◌≡◌, ◌≢◌, ◌⊎◌, refl, true, false, ◌∷◌, ◌∙◌, ap, ap₂,
  Bool-cases, arith, if◌then◌else◌, leb, ◌==◌, inl, inr,
}
use open_skyhawk.Pdu.Cal.{
  CalRecord, Mem, Hal, IsHal, read, cal_valid, cal_slots, slot_empty, slot, used_from, used_slots,
  load_from, load, program_words, next_record, write_slot, save, get32,
}

read_congr :
    (m m' : Mem) (a n : ℕ) → ((x : ℕ) → a ≤ x → x < a + n → m' x ≡ m x) → read m' a n ≡ read m a n
read_congr m m' a zero h = refl
read_congr m m' a (suc n) h =
    ap₂ (λ u v. u % 256 ∷ v) (h a (omega arith) (omega arith))
      (read_congr m m' (a + 1) n (λ x p q. h x (omega arith) (omega arith)))

valid-slot_empty : (r : CalRecord) → cal_valid r ≡ true → slot_empty r ≡ false
unfolding cal_valid slot_empty
valid-slot_empty r v = ground arith

module _ (base : ℕ) where
  used_from-congr :
      (m m' : Mem) (n k : ℕ)
      → ((j : ℕ) → slot base m' j ≡ slot base m j)
      → used_from base m' n k ≡ used_from base m n k
  unfolding used_from
  used_from-congr m m' n zero h = refl
  used_from-congr m m' n (suc k) h = rw (h n, used_from-congr m m' (n + 1) k h) refl

  load_from-congr :
      (m m' : Mem) (n : ℕ)
      → ((j : ℕ) → j < n → slot base m' j ≡ slot base m j)
      → load_from base m' n ≡ load_from base m n
  unfolding load_from
  load_from-congr m m' zero h = refl
  load_from-congr m m' (suc n) h =
      rw (h n (omega arith), load_from-congr m m' n (λ j p. h j (omega arith))) refl

  -- The count stops at the first empty slot.
  used_from-stops :
      (m : Mem) (n k u : ℕ)
      → n ≤ u
      → u < n + k
      → ((j : ℕ) → n ≤ j → j < u → slot_empty (slot base m j) ≡ false)
      → slot_empty (slot base m u) ≡ true
      → used_from base m n k ≡ u
  unfolding used_from
  used_from-stops m n zero u p q full e = absurd (omega arith)
  used_from-stops m n (suc k) u p q full e = elim (Bool-cases (n == u)) [
    | inl here ↦ let same : n ≡ u = ground arith in ground (arith, same)
    | inr later ↦
        let more : n < u = ground arith in
        let first = full n (omega arith) more in
        let rest =
          used_from-stops m (n + 1) k u (omega (arith, more)) (omega arith)
            (λ j a b. full j (omega (arith, a)) b) e in
        rw (first, rest) refl
  ]

  used_from-full :
      (m : Mem) (n k : ℕ) (j : ℕ)
      → n ≤ j
      → j < used_from base m n k
      → slot_empty (slot base m j) ≡ false
  unfolding used_from
  used_from-full m n zero j p q = absurd (omega arith)
  used_from-full m n (suc k) j p q = ground (arith, used_from-full m (n + 1) k j)

  used_from-empty :
      (m : Mem) (n k : ℕ)
      → used_from base m n k < n + k
      → slot_empty (slot base m (used_from base m n k)) ≡ true
  unfolding used_from
  used_from-empty m n zero q = absurd (omega arith)
  used_from-empty m n (suc k) q = ground (arith, used_from-empty m (n + 1) k)

  used_from-all :
      (m : Mem) (n k : ℕ)
      → ((j : ℕ) → n ≤ j → j < n + k → slot_empty (slot base m j) ≡ false)
      → used_from base m n k ≡ n + k
  unfolding used_from
  used_from-all m n zero full = omega arith
  used_from-all m n (suc k) full =
      let first = full n (omega arith) (omega arith) in
      let rest =
        used_from-all m (n + 1) k (λ j a b. full j (omega (arith, a)) (omega (arith, b))) in
      rw (first, rest) (omega arith)

  load_from_suc :
      (m : Mem) (n : ℕ)
      → load_from base m (n + 1)
        ≡ (if cal_valid (slot base m n) then (true, slot base m n) else load_from base m n)
  unfolding load_from
  load_from_suc m n = (let next : n + 1 ≡ suc n = omega arith in ap (load_from base m) next)

module _ (h : Hal) (base : ℕ) (i : IsHal h) where
  program_words_keeps :
      (n k : ℕ) (r : CalRecord) (addr : ℕ) (m : Mem) (x : ℕ)
      → (x < addr + k * 4) ⊎ (addr + k * 4 + n * 4 ≤ x)
      → (program_words h base n k r addr m).1 x ≡ m x
  unfolding program_words
  program_words_keeps zero k r addr m x o = refl
  program_words_keeps (suc n) k r addr m x o = ground (
    arith,
    i.program_keeps m (addr + k * 4) (get32 r (k * 4)) x,
    program_words_keeps n (k + 1) r addr (h.program m (addr + k * 4) (get32 r (k * 4))).1 x,
  )

  write_slot_keeps :
      (n : ℕ) (r : CalRecord) (m : Mem) (j : ℕ)
      → j ≢ n
      → slot base (write_slot h base n r m).1 j ≡ slot base m j
  unfolding write_slot slot
  write_slot_keeps n r m j d =
      read_congr m (program_words h base 8 0 r (base + n * 32) m).1 (base + j * 32) 32
        (λ x p q. program_words_keeps 8 0 r (base + n * 32) m x (omega arith))

-- A log after a write to its first free slot, given what stayed.
module _ (base : ℕ) (m m' : Mem) where
  unwritten :
      (u : ℕ)
      → u < cal_slots
      → used_slots base m ≡ u
      → ((j : ℕ) → j ≢ u → slot base m' j ≡ slot base m j)
      → slot_empty (slot base m' u) ≡ true
      → load base m' ≡ load base m
  unfolding load
  unwritten u p e keeps blank =
      let full : (j : ℕ) → 0 ≤ j → j < u → slot_empty (slot base m' j) ≡ false = λ j a b.
        ap slot_empty (keeps j (omega (arith, b)))
        ∙ used_from-full base m 0 32 j a (omega (arith, e, b)) in
      let used = used_from-stops base m' 0 32 u (omega arith) (omega arith) full blank in
      rw (used, e) (load_from-congr base m m' u (λ j b. keeps j (omega (arith, b))))

  written :
      (u : ℕ)
      → u < cal_slots
      → used_slots base m ≡ u
      → ((j : ℕ) → j ≢ u → slot base m' j ≡ slot base m j)
      → ((j : ℕ) → u < j → j < cal_slots → slot_empty (slot base m j) ≡ true)
      → slot_empty (slot base m' u) ≡ false
      → used_slots base m' ≡ u + 1
  written u p e keeps tail some =
      let full : (j : ℕ) → 0 ≤ j → j < u + 1 → slot_empty (slot base m' j) ≡ false = λ j a b.
        elim (Bool-cases (j == u)) [
          | inl here ↦ let same : j ≡ u = ground arith in rw same some
          | inr other ↦
              let ne : j ≢ u = ground arith in
              ap slot_empty (keeps j ne) ∙ used_from-full base m 0 32 j a (omega (arith, e, b, ne))
        ] in
      elim (Bool-cases (u == 31)) [
        | inl last ↦
            let top : u ≡ 31 = ground arith in
            used_from-all base m' 0 32 (λ j a b. full j a (omega (arith, top, b)))
            ∙ omega (arith, top)
        | inr inner ↦
            let low : u + 1 < 32 = ground arith in
            used_from-stops base m' 0 32 (u + 1) (omega arith) low full
              (ap slot_empty (keeps (u + 1) (omega arith)) ∙ tail (u + 1) (omega arith) low)
      ]

  kept :
      (u : ℕ)
      → u < cal_slots
      → used_slots base m ≡ u
      → ((j : ℕ) → j ≢ u → slot base m' j ≡ slot base m j)
      → ((j : ℕ) → u < j → j < cal_slots → slot_empty (slot base m j) ≡ true)
      → load base m' ≡ (if cal_valid (slot base m' u) then (true, slot base m' u) else load base m)
  unfolding load
  kept u p e keeps tail = elim (Bool-cases (slot_empty (slot base m' u))) [
    | inl blank ↦
        let same = unwritten u p e keeps blank in
        let bad = valid-slot_empty (slot base m' u) in ground (arith, same, bad)
    | inr some ↦
        let used = written u p e keeps tail some in
        let below = load_from-congr base m m' u (λ j b. keeps j (omega (arith, b))) in
        rw (used, e) (load_from_suc base m' u ∙ rw below refl)
  ]

-- A save into a page that is not full, whose slots after the first free one are empty too, leaves in
-- the log the record in that slot if it is valid, and what the log gave before if it is not: however
-- the writes of its words fail, no calibration is lost.
pub save-load :
    (h : Hal) (base : ℕ)
    → IsHal h
    → (r : CalRecord) (m : Mem) → used_slots base m < cal_slots
    → ((j : ℕ) → used_slots base m < j → j < cal_slots → slot_empty (slot base m j) ≡ true)
    → load base (save h base r m).1 ≡ (
        if cal_valid (slot base (save h base r m).1 (used_slots base m))
        then (true, slot base (save h base r m).1 (used_slots base m))
        else load base m)
unfolding save
save-load h base i r m p tail =
    let u = used_slots base m in
    let at : leb cal_slots u ≡ false = ground (arith, p) in
    rw at (
      kept base m (write_slot h base u (next_record h base r m) m).1 u p refl
        (write_slot_keeps h base i u (next_record h base r m) m) tail)

-- A save that returns true, into such a page, is what the log gives: the record in the slot that was
-- free, valid.
pub save-load_ok :
    (h : Hal) (base : ℕ)
    → IsHal h
    → (r : CalRecord) (m : Mem) → used_slots base m < cal_slots
    → ((j : ℕ) → used_slots base m < j → j < cal_slots → slot_empty (slot base m j) ≡ true)
    → (save h base r m).0 ≡ true
    → load base (save h base r m).1 ≡ (true, slot base (save h base r m).1 (used_slots base m))
unfolding save write_slot
save-load_ok h base i r m p tail ok =
    let l = save-load h base i r m p tail in
    let valid : cal_valid (slot base (save h base r m).1 (used_slots base m)) ≡ true =
      ground (arith, p, ok) in
    l ∙ rw valid refl
