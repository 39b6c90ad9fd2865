-- ===== src/Bridge/First.antt =====
-- The lowest index that satisfies a test, which SYNC_REQ and the roster look for (PanelBridge.cpp).
use open_skyhawk.Base.{
  ℕ, zero, suc, ◌+◌, ◌≤◌, ◌<◌, ◌≡◌, inl, inr, refl, Bool, true, false, Option, none, some, arith,
  Bool-cases, ◌==◌,
}
use open_skyhawk.Bridge.State.{NodeState}
use open_skyhawk.Bridge.Sync.{first_set, next_alive}

-- an answer for the indices from `i` on and below `n`
abbrev pub IsFirst : (ℕ → Bool) → ℕ → ℕ → Option ℕ → Type 0
IsFirst q i n none = (m : ℕ) → i ≤ m → m < n → q m ≡ false
IsFirst q i n (some j) = (i ≤ j) × (j < n) × (q j ≡ true) × ((m : ℕ) → i ≤ m → m < j → q m ≡ false)

below :
    (q : ℕ → Bool) (i n : ℕ)
    → q i ≡ false
    → ((m : ℕ) → i + 1 ≤ m → m < n → q m ≡ false)
    → (m : ℕ) → i ≤ m
    → m < n
    → q m ≡ false
below q i n e f m l h = elim (Bool-cases (m == i)) [
  | inl s ↦ let same : m ≡ i = ground (arith, s) in rw same e
  | inr s ↦ f m (ground (arith, s)) h
]

IsFirst-widen :
    (q : ℕ → Bool) (i n : ℕ) (o : Option ℕ) → q i ≡ false → IsFirst q (i + 1) n o → IsFirst q i n o
IsFirst-widen q i n none e f = below q i n e f
IsFirst-widen q i n (some j) e (l, h, t, f) = (omega arith, h, t, below q i j e f)

pub first_set-IsFirst : (k i : ℕ) (q : ℕ → Bool) → IsFirst q i (i + k) (first_set k i q)
unfolding first_set
first_set-IsFirst zero i q = λ m l h. ground arith
first_set-IsFirst (suc k) i q =
    let same : i + suc k ≡ i + 1 + k = omega arith in
    elim (Bool-cases (q i)) [
      | inl e ↦ rw (e, first_set) (omega arith, omega arith, e, λ m l h. ground arith)
      | inr e ↦
          rw (e, first_set) (rw same (IsFirst-widen q i _ _ e (first_set-IsFirst k (i + 1) q)))
    ]

-- the roster's search is the same one
pub next_alive-first_set :
    (k i : ℕ) (ns : ℕ → NodeState) → next_alive k i ns ≡ first_set k i (λ j. (ns j).alive)
unfolding next_alive first_set
next_alive-first_set zero i ns = refl
next_alive-first_set (suc k) i ns = rw (next_alive-first_set k (i + 1) ns) refl

pub next_alive-IsFirst :
    (k i : ℕ) (ns : ℕ → NodeState) → IsFirst (λ j. (ns j).alive) i (i + k) (next_alive k i ns)
next_alive-IsFirst k i ns =
    rw (next_alive-first_set k i ns) (first_set-IsFirst k i (λ j. (ns j).alive))
