-- ===== src/Pdu/Latch.antt =====
-- `Pdu::Latch` (PowerMonitor/RailMonitor.h and .cpp): a condition that must last.
use open_skyhawk.Base.{
  ◌⊎◌, inl, ◌&&◌, ℕ, ◌+◌, ◌-◌, ◌%◌, ◌^◌, ◌≤◌, ◌<◌, ◌≡◌, Bool, true, false, not, List, [], ◌∷◌,
  arith, leb, if◌then◌else◌,
}

pub record Latch : Type 0 where
  pub on : Bool
  pub pending : Bool
  pub since : ℕ

-- `nowMs - since` on uint32_t
abbrev pub elapsed : ℕ → ℕ → ℕ
elapsed now since = (now + 2 ^ 32 - since) % 2 ^ 32

-- `update(cond, clear, setMs, clearMs, nowMs)`
unfoldable pub update : Bool → Bool → ℕ → ℕ → ℕ → Latch → Latch
update cond clear set_ms clear_ms now l =
    let want = if l.on then clear else cond in
    let hold = if l.on then clear_ms else set_ms in
    let since = if l.pending then l.since else now in
    if want
    then (if leb hold (elapsed now since)
        then record { on = not l.on; pending = false; since = since }
        else record { on = l.on; pending = true; since = since })
    else record l { pending = false }

-- `reset()`
unfoldable pub reset : Latch → Latch
reset l = record l { on = false; pending = false }

-- A sample: the condition, the clear condition and the time.
pub record Sample : Type 0 where
  pub cond : Bool
  pub clear : Bool
  pub now : ℕ

module _ (set_ms clear_ms : ℕ) where
  -- the latch over the samples of one channel
  unfoldable pub run : Latch → List Sample → Latch
  run l [] = l
  run l (s ∷ ss) = run (update s.cond s.clear set_ms clear_ms s.now l) ss

  -- The samples come in order of time, from `lo` on and before `hi`.
  abbrev pub Ordered : ℕ → ℕ → List Sample → Type 0
  Ordered lo hi [] = Unit
  Ordered lo hi (s ∷ ss) = (lo ≤ s.now) × (s.now < hi) × Ordered s.now hi ss

  abbrev pub all_cond : List Sample → Bool
  all_cond [] = true
  all_cond (s ∷ ss) = s.cond && all_cond ss

  -- off, and waiting, if at all, since a time from `first` to `last`
  record Waits (first last : ℕ) (l : Latch) : Type 0 where
    off : l.on ≡ false
    window : (l.pending ≡ false) ⊎ ((first ≤ l.since) × (l.since ≤ last))

  update-Waits :
      (first last : ℕ) (s : Sample) (l : Latch)
      → first + set_ms ≤ 2 ^ 32
      → first ≤ last
      → last ≤ s.now
      → s.now < first + set_ms
      → Waits first last l
      → Waits first s.now (update s.cond s.clear set_ms clear_ms s.now l)
  unfolding update
  update-Waits first last s l b o p q w = ground arith

  run-Waits :
      (first last : ℕ) (ss : List Sample) (l : Latch)
      → first + set_ms ≤ 2 ^ 32
      → first ≤ last
      → Ordered last (first + set_ms) ss
      → Waits first last l
      → (run l ss).on ≡ false
  unfolding run
  run-Waits first last [] l b o t w = w.off
  run-Waits first last (s ∷ ss) l b o t w =
      run-Waits first s.now ss (update s.cond s.clear set_ms clear_ms s.now l) b (omega arith) t.2
        (update-Waits first last s l b o t.0 t.1 w)

  -- A condition shorter than the set time raises nothing: a latch that is off and not waiting is still
  -- off after any samples, in order, that lie within less than that time.
  pub run_short :
      (first : ℕ) (ss : List Sample) (l : Latch)
      → first + set_ms ≤ 2 ^ 32
      → l.on ≡ false
      → l.pending ≡ false
      → Ordered first (first + set_ms) ss
      → (run l ss).on ≡ false
  run_short first ss l b off idle t =
      run-Waits first first ss l b (omega arith) t (record { off = off; window = inl idle })

  record WaitsSince (start : ℕ) (l : Latch) : Type 0 where
    off : l.on ≡ false
    pending : l.pending ≡ true
    since : l.since ≡ start

  run-WaitsSince :
      (start last : ℕ) (ss : List Sample) (l : Latch)
      → start + set_ms ≤ 2 ^ 32
      → start ≤ last
      → all_cond ss ≡ true
      → Ordered last (start + set_ms) ss
      → WaitsSince start l
      → WaitsSince start (run l ss)
  unfolding run update
  run-WaitsSince start last [] l b o c t w = w
  run-WaitsSince start last (s ∷ ss) l b o c t w =
      run-WaitsSince start s.now ss (update s.cond s.clear set_ms clear_ms s.now l) b (omega arith)
        (ground arith) t.2 (ground arith)

  -- A condition that lasts raises the latch: one that has been waiting since `start`, with the
  -- condition true at every sample, is on at the first sample that comes the set time after `start`.
  pub run_lasting :
      (start : ℕ) (ss : List Sample) (s : Sample) (l : Latch)
      → start + set_ms ≤ 2 ^ 32
      → l.on ≡ false
      → l.pending ≡ true
      → l.since ≡ start
      → all_cond ss ≡ true
      → Ordered start (start + set_ms) ss
      → s.cond ≡ true
      → start + set_ms ≤ s.now
      → s.now < start + 2 ^ 32
      → (update s.cond s.clear set_ms clear_ms s.now (run l ss)).on ≡ true
  unfolding update
  run_lasting start ss s l b off pending since c t now p q = ground (
    arith,
    run-WaitsSince start start ss l b (omega arith) c t
        (record { off = off; pending = pending; since = since }),
  )
