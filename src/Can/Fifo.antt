-- ===== src/Can/Fifo.antt =====
-- The ring of received frames (CANProtocol.cpp) is a bounded queue.
use native.Mathlib.Nat.{mod_self, mod-eq_of_lt}
use open_skyhawk.Base.{
  ℕ, ◌+◌, ◌-◌, ◌%◌, ◌<◌, ◌≡◌, ◌⊎◌, inl, inr, ap, ◌∙◌, false, List, [], ◌∷◌, ◌++◌, length,
  length-append, ◌==◌, leb, if◌then◌else◌, arith, Bool-cases,
}
use open_skyhawk.Can.Node.{RxQueueEntry, Node}
use open_skyhawk.Can.Transmit.{put}
use open_skyhawk.Can.Ring.{enqueue_rx_frame}

-- the place after `h` in a ring of `s`
pub step :
    (h s : ℕ) → h < s → (((h + 1) % s ≡ h + 1) × (h + 1 < s)) ⊎ (((h + 1) % s ≡ 0) × (h + 1 ≡ s))
step h s l = elim (Bool-cases (h + 1 == s)) [
  | inl e ↦ let whole : h + 1 ≡ s = ground (arith, e) in inr (rw whole (mod_self s), whole)
  | inr e ↦ let inside : h + 1 < s = ground (arith, e) in inl (mod-eq_of_lt inside, inside)
]

-- From `h` on, up to the tail `t`, the ring of `s` places holds the queue.
abbrev pub IsRing : (ℕ → RxQueueEntry) → ℕ → ℕ → List RxQueueEntry → ℕ → Type 0
IsRing r s h [] t = h ≡ t
IsRing r s h (e ∷ q) t = (r h ≡ e) × IsRing r s ((h + 1) % s) q t

-- from `h` on to `t`, around the ring
abbrev span : ℕ → ℕ → ℕ → ℕ
span s h t = if leb h t then t - h else t + s - h

module _ (r : ℕ → RxQueueEntry) (s t : ℕ) where
  pub span-IsRing :
      (h : ℕ) (q : List RxQueueEntry)
      → h < s
      → t < s
      → length q < s
      → IsRing r s h q t
      → span s h t ≡ length q
  span-IsRing h [] a b c w = ground arith
  span-IsRing h (e ∷ q) a b c (x, w) = elim (step h s a) [
    | inl (f, g) ↦
        let i = span-IsRing ((h + 1) % s) q (omega arith) b (omega arith) w in ground (arith, i, f)
    | inr (f, g) ↦
        let i = span-IsRing ((h + 1) % s) q (omega arith) b (omega arith) w in ground (arith, i, f)
  ]

  put-IsRing :
      (v : RxQueueEntry) (h : ℕ) (q : List RxQueueEntry)
      → h < s
      → t < s
      → length q < s
      → IsRing r s h q t
      → IsRing (put r t v) s h q t
  put-IsRing v h [] a b c w = w
  put-IsRing v h (e ∷ q) a b c (x, w) =
      let d = span-IsRing h (e ∷ q) a b c (x, w) in
      let apart : (h == t) ≡ false = ground arith in
      let next : (h + 1) % s < s = elim (step h s a) [
        | inl (f, g) ↦ omega arith
        | inr (f, g) ↦ omega arith
      ] in
      (rw apart x, put-IsRing v ((h + 1) % s) q next b (omega arith) w)

  IsRing-snoc :
      (e : RxQueueEntry) (h : ℕ) (q : List RxQueueEntry)
      → r t ≡ e
      → IsRing r s h q t
      → IsRing r s h (q ++ e ∷ []) ((t + 1) % s)
  IsRing-snoc e h [] x w = (ap r w ∙ x, ap (λ i. (i + 1) % s) w)
  IsRing-snoc e h (f ∷ q) x (y, w) = (y, IsRing-snoc e ((h + 1) % s) q x w)

-- the queue that the ring is: frames in the order of their arrival, one fewer than the ring has places
unfoldable pub add_bounded : ℕ → RxQueueEntry → List RxQueueEntry → List RxQueueEntry
add_bounded s e q = if length q + 1 == s then q else q ++ e ∷ []

-- The ring and its indices show the queue.
pub record Shows (s : ℕ) (n : Node) (q : List RxQueueEntry) : Type 0 where
  pub ring : IsRing n.rx_ring s n.rx_head q n.rx_tail
  pub room : length q < s
  pub head : n.rx_head < s
  pub tail : n.rx_tail < s

-- The test of the ring is whether the queue is full.
pub full-length :
    (s : ℕ) (n : Node) (q : List RxQueueEntry)
    → Shows s n q
    → ((n.rx_tail + 1) % s == n.rx_head) ≡ (length q + 1 == s)
full-length s n q w =
    let d = span-IsRing n.rx_ring s n.rx_tail n.rx_head q (w.head) (w.tail) (w.room) (w.ring) in
    let hd = w.head in
    let rm = w.room in
    elim (step n.rx_tail s (w.tail)) [
      | inl (f, g) ↦ ground (arith, d, f)
      | inr (f, g) ↦ ground (arith, d, f)
    ]

-- A frame is added to the queue, or counted as dropped where the queue is full.
pub enqueue_rx_frame-Shows :
    (s : ℕ) (e : RxQueueEntry) (n : Node) (q : List RxQueueEntry)
    → Shows s n q
    → Shows s (enqueue_rx_frame s e n) (add_bounded s e q)
unfolding enqueue_rx_frame add_bounded
enqueue_rx_frame-Shows s e n q w =
    let hd = w.head in
    let tl = w.tail in
    let rm = w.room in
    let next : (n.rx_tail + 1) % s < s = elim (step n.rx_tail s tl) [
      | inl (f, g) ↦ omega arith
      | inr (f, g) ↦ omega arith
    ] in
    let full = full-length s n q w in
    elim (Bool-cases (length q + 1 == s)) [
      | inl e' ↦ rw (full, e') (record { ring = w.ring; room = rm; head = hd; tail = tl })
      | inr e' ↦
          let kept = put-IsRing n.rx_ring s n.rx_tail e n.rx_head q hd tl rm (w.ring) in
          let here : put n.rx_ring n.rx_tail e n.rx_tail ≡ e = ground arith in
          let grown : length (q ++ e ∷ []) ≡ length q + 1 = length-append q (e ∷ []) in
          rw (full, e')
            (record {
              ring = IsRing-snoc (put n.rx_ring n.rx_tail e) s n.rx_tail e n.rx_head q here kept;
              room = ground (arith, grown, e');
              head = hd;
              tail = next;
            })
    ]
