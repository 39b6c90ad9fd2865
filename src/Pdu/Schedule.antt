-- ===== src/Pdu/Schedule.antt =====
-- `Pdu::TelemSchedule` (PowerMonitor/TelemSchedule.h and .cpp): which page goes out, and when.
use open_skyhawk.Base.{
  ℕ, zero, suc, ◌+◌, ◌-◌, ◌%◌, ◌^◌, ◌≤◌, ◌<◌, ◌≡◌, ◌≢◌, refl, ◌⊎◌, Bool, true, false, not, ◌&&◌,
  Option, none, some, List, [], ◌∷◌, arith, length, get_or, set, ◌==◌, ltb, leb, if◌then◌else◌,
}
use open_skyhawk.Pdu.Latch.{elapsed}

abbrev pub pages : ℕ
pages = 3

abbrev pub telem_period_ms : ℕ
telem_period_ms = 1000

abbrev pub edge_min_ms : ℕ
edge_min_ms = 100

pub record TelemSchedule : Type 0 where
  pub last_periodic : ℕ
  pub rr : ℕ
  pub last_sent : List ℕ
  pub last_flags : List ℕ

-- `start(nowMs)`
unfoldable pub telem_start : ℕ → TelemSchedule
telem_start now =
    let before = (now + 2 ^ 32 - edge_min_ms) % 2 ^ 32 in
    record {
      last_periodic = now;
      rr = 0;
      last_sent = before ∷ before ∷ before ∷ [];
      last_flags = 0 ∷ 0 ∷ 0 ∷ [];
    }

-- whether page `i` has an edge to send: its flags differ from those sent, and its hold-off is over
abbrev pub edge_due : ℕ → List ℕ → TelemSchedule → ℕ → Bool
edge_due now flags t i =
    not (get_or flags i 0 == get_or t.last_flags i 0)
    && not (ltb (elapsed now (get_or t.last_sent i 0)) edge_min_ms)

-- the loop over the pages, from page `i` with `k` of them left
unfoldable pub first_edge : ℕ → List ℕ → TelemSchedule → ℕ → ℕ → Option ℕ
first_edge now flags t i zero = none
first_edge now flags t i (suc k) =
    let rest = first_edge now flags t (i + 1) k in if edge_due now flags t i then some i else rest

-- `next(nowMs, flags, periodic)`: the slot and the flag `periodic`, if any is due
unfoldable pub telem_next : ℕ → List ℕ → TelemSchedule → Option (ℕ × Bool) × TelemSchedule
telem_next now flags t =
    if leb telem_period_ms (elapsed now t.last_periodic)
    then (let last = (t.last_periodic + telem_period_ms) % 2 ^ 32 in
        let last = if leb telem_period_ms (elapsed now last) then now else last in
        (some (t.rr, true), record t { last_periodic = last; rr = (t.rr + 1) % pages }))
    else elim (first_edge now flags t 0 pages) [ none ↦ (none, t) | some i ↦ (some (i, false), t) ]

-- `sent(slot, flags, nowMs)`
unfoldable pub telem_sent : ℕ → ℕ → ℕ → TelemSchedule → TelemSchedule
telem_sent slot flags now t =
    if leb pages slot
    then t
    else record t { last_sent = set t.last_sent slot now; last_flags = set t.last_flags slot flags }

-- the node's calls, in any order
pub data Event : Type 0 where
  poll : ℕ → List ℕ → Event
  sent : ℕ → ℕ → ℕ → Event

abbrev pub periodic_slot : Option (ℕ × Bool) → List ℕ → List ℕ
periodic_slot none rest = rest
periodic_slot (some (i, true)) rest = i ∷ rest
periodic_slot (some (i, false)) rest = rest

-- the pages of the periodic sends, in order
unfoldable pub periodic_slots : TelemSchedule → List Event → List ℕ
periodic_slots t [] = []
periodic_slots t (poll now flags ∷ es) =
    periodic_slot (telem_next now flags t).0 (periodic_slots (telem_next now flags t).1 es)
periodic_slots t (sent slot flags now ∷ es) = periodic_slots (telem_sent slot flags now t) es

-- `n` pages in rotation from page `i`
abbrev pub rotation : ℕ → ℕ → List ℕ
rotation i zero = []
rotation i (suc n) = i ∷ rotation ((i + 1) % 3) n

length-periodic_slot :
    (o : Option (ℕ × Bool)) (rest : List ℕ) → length (periodic_slot o rest) ≤ suc (length rest)
length-periodic_slot o rest = ground arith

next_slot :
    (now : ℕ) (flags : List ℕ) (t : TelemSchedule) (rest : List ℕ)
    → ((periodic_slot (telem_next now flags t).0 rest ≡ t.rr ∷ rest)
        × ((telem_next now flags t).1.rr ≡ (t.rr + 1) % 3))
      ⊎ ((periodic_slot (telem_next now flags t).0 rest ≡ rest)
          × ((telem_next now flags t).1.rr ≡ t.rr))
unfolding telem_next
next_slot now flags t rest = ground arith

-- Over any calls of next() and sent(), whatever the clock and the flags, the periodic sends go through
-- the three pages in rotation, from the one whose turn it is.
pub periodic_slots_rotate :
    (es : List Event) (t : TelemSchedule)
    → periodic_slots t es ≡ rotation t.rr (length (periodic_slots t es))
unfolding periodic_slots telem_sent
periodic_slots_rotate [] t = refl
periodic_slots_rotate (poll now flags ∷ es) t = grind (
  arith,
  periodic_slots_rotate es (telem_next now flags t).1,
  next_slot now flags t (periodic_slots (telem_next now flags t).1 es),
)
periodic_slots_rotate (sent slot flags now ∷ es) t =
    grind (arith, periodic_slots_rotate es (telem_sent slot flags now t))

abbrev pub is_periodic : Option (ℕ × Bool) → Bool
is_periodic none = false
is_periodic (some (i, p)) = p

-- Periodic frames never come in a burst: of two calls of next() at one time the second is not periodic,
-- however late the first one was.
pub next_no_burst :
    (now : ℕ) (flags flags' : List ℕ) (t : TelemSchedule)
    → now < 2 ^ 32
    → t.last_periodic < 2 ^ 32
    → is_periodic (telem_next now flags' (telem_next now flags t).1).0 ≡ false
unfolding telem_next
next_no_burst now flags flags' t p q = ground arith

first_edge-none :
    (now : ℕ) (flags : List ℕ) (t : TelemSchedule) (i k j : ℕ)
    → first_edge now flags t i k ≡ none
    → i ≤ j
    → j < i + k
    → edge_due now flags t j ≡ false
unfolding first_edge
first_edge-none now flags t i zero j h p q = ground arith
first_edge-none now flags t i (suc k) j h p q =
    ground (arith, first_edge-none now flags t (i + 1) k j)

first_edge-some :
    (now : ℕ) (flags : List ℕ) (t : TelemSchedule) (i k j : ℕ)
    → first_edge now flags t i k ≡ some j
    → (edge_due now flags t j ≡ true) × (i ≤ j) × (j < i + k)
unfolding first_edge
first_edge-some now flags t i zero j h = ground arith
first_edge-some now flags t i (suc k) j h = ground (arith, first_edge-some now flags t (i + 1) k j)

-- When next() finds nothing to send, no period is over, and each page's flags are those last sent for
-- it or the page is in its hold-off.
pub next_quiet :
    (now : ℕ) (flags : List ℕ) (t : TelemSchedule) (j : ℕ)
    → (telem_next now flags t).0 ≡ none
    → j < pages
    → (elapsed now t.last_periodic < 1000)
      × ((get_or flags j 0 ≡ get_or t.last_flags j 0)
          ⊎ (elapsed now (get_or t.last_sent j 0) < 100))
unfolding telem_next
next_quiet now flags t j h p = ground (arith, first_edge-none now flags t 0 pages j)

-- An edge send is of a page whose flags differ from those last sent for it and whose hold-off is over,
-- and it leaves the schedule as it was.
pub next_edge :
    (now : ℕ) (flags : List ℕ) (t : TelemSchedule) (j : ℕ)
    → (telem_next now flags t).0 ≡ some (j, false)
    → (j < pages)
      × (get_or flags j 0 ≢ get_or t.last_flags j 0)
      × (100 ≤ elapsed now (get_or t.last_sent j 0))
      × ((telem_next now flags t).1 ≡ t)
unfolding telem_next
next_edge now flags t j h = ground (arith, first_edge-some now flags t 0 pages j)
