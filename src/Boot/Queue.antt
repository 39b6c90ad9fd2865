-- ===== src/Boot/Queue.antt =====
-- The ring of frames (main.cpp) as a queue.
use open_skyhawk.Base.{
  ℕ, zero, suc, ◌+◌, ◌-◌, ◌%◌, ◌<◌, ◌≡◌, ◌≢◌, refl, false, List, [], ◌∷◌, ◌++◌, length, ◌⊎◌, inl,
  inr, Bool-cases, none, some, arith, ◌==◌, if◌then◌else◌,
}
use open_skyhawk.Boot.Serial.{Ring, ring_size, ring_full, push, pop}

pub record IsRing (r : Ring) : Type 0 where
  pub head : r.head < ring_size
  pub tail : r.tail < ring_size

-- `n` slots from `i` on, round the ring
unfoldable pub collect : ℕ → ℕ → (ℕ → List ℕ) → List (List ℕ)
collect zero i s = []
collect (suc n) i s = s (i % ring_size) ∷ collect n (i + 1) s

abbrev pub count : Ring → ℕ
count r = (r.head + ring_size - r.tail) % ring_size

-- the frames that wait, the oldest first
unfoldable pub queued : Ring → List (List ℕ)
queued r = collect (count r) r.tail r.slot

pub length-collect : (n i : ℕ) (s : ℕ → List ℕ) → length (collect n i s) ≡ n
unfolding collect
length-collect zero i s = refl
length-collect (suc n) i s = omega (arith, length-collect n (i + 1) s)

collect_mod :
    (n i j : ℕ) (s : ℕ → List ℕ) → i % ring_size ≡ j % ring_size → collect n i s ≡ collect n j s
unfolding collect
collect_mod zero i j s e = refl
collect_mod (suc n) i j s e = rw (e, collect_mod n (i + 1) (j + 1) s (omega arith)) refl

-- The slot after the last is not among them.
collect-push :
    (n i h : ℕ) (f : List ℕ) (s : ℕ → List ℕ)
    → n < ring_size
    → (i + n) % ring_size ≡ h
    → collect (suc n) i (λ x. if x == h then f else s x) ≡ collect n i s ++ f ∷ []
unfolding collect
collect-push zero i h f s l e = ground (arith, e)
collect-push (suc n) i h f s l e =
    let other : i % ring_size ≢ h = omega arith in
    let rest = collect-push n (i + 1) h f s (omega arith) (omega arith) in
    ground (arith, other, rest)

pub push-IsRing : (f : List ℕ) (r : Ring) → IsRing r → IsRing (push f r)
unfolding push
push-IsRing f r h = ground (arith, h.head, h.tail)

-- A frame that is put into a ring with room waits behind the others.
pub push-queued :
    (f : List ℕ) (r : Ring)
    → IsRing r
    → ring_full r ≡ false
    → queued (push f r) ≡ queued r ++ f ∷ []
unfolding push queued ring_full
push-queued f r h room =
    let n = count r in
    let grows : count (push f r) ≡ suc n = ground (arith, h.head, h.tail) in
    let added =
      collect-push n r.tail r.head f r.slot (omega arith) (omega (arith, h.head, h.tail)) in
    rw grows added

collect_suc :
    (n i : ℕ) (s : ℕ → List ℕ)
    → 0 < n
    → i < ring_size
    → collect n i s ≡ s i ∷ collect (n - 1) ((i + 1) % 256 % ring_size) s
unfolding collect
collect_suc zero i s p l = absurd (omega arith)
collect_suc (suc n) i s p l =
    let here : i % ring_size ≡ i = omega arith in
    let less : suc n - 1 ≡ n = omega arith in
    rw (here, less, collect_mod n (i + 1) ((i + 1) % 256 % ring_size) s (omega arith)) refl

-- What is taken out of a ring is the frame that waits longest, if one waits.
pub pop-queued :
    (r : Ring)
    → IsRing r
    → ((queued r ≡ []) × ((pop r).0 ≡ none))
      ⊎ ((f : List ℕ) × ((pop r).0 ≡ some f) × (queued r ≡ f ∷ queued (pop r).1))
unfolding pop queued collect
pop-queued r h = elim (Bool-cases (r.tail == r.head)) [
  | inl e ↦ let empty : count r ≡ 0 = ground (arith, e, h.head) in inl ((rw empty refl), rw e refl)
  | inr e ↦
      let less : count (record r { tail = (r.tail + 1) % 256 % ring_size }) ≡ count r - 1 =
        ground (arith, e, h.head, h.tail) in
      inr (
        r.slot r.tail,
        rw e refl,
        rw e (
            rw less
              (collect_suc (count r) r.tail r.slot (ground (arith, e, h.head, h.tail)) h.tail)),
      )
]

-- A ring that is full holds a frame less than its size.
pub has_room : (r : Ring) → IsRing r → length (queued r) + 1 < ring_size → ring_full r ≡ false
unfolding queued ring_full
has_room r h l = ground (arith, h.head, h.tail, length-collect (count r) r.tail r.slot)
