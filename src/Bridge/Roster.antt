-- ===== src/Bridge/Roster.antt =====
-- The roster (PanelBridge.cpp) and what the uploader knows after it.
use open_skyhawk.Base.{
  ℕ, zero, suc, ◌+◌, ◌-◌, ◌≤◌, ◌<◌, ◌≡◌, inl, inr, refl, subst, Bool, true, false, Option, none,
  some, arith, Bool-cases, ◌==◌, ◌∙◌, ap, List, [], ◌∷◌, replicate,
}
use open_skyhawk.Upload.Session.{Uploader}
use open_skyhawk.Bridge.Relay.{max_node_id}
use open_skyhawk.Bridge.State.{NodeState, Bridge, self_row, row_from}
use open_skyhawk.Bridge.Rows.{Row, node_row, emit_node, decimal}
use open_skyhawk.Bridge.Nodes.{emit_all_nodes}
use open_skyhawk.Bridge.Sync.{next_alive, next_row, roster_turn, service_roster}
use open_skyhawk.Bridge.Hex.{seen_of, heard-row, heard-end}
use open_skyhawk.Bridge.Heard.{heard}
use open_skyhawk.Bridge.First.{IsFirst, next_alive-IsFirst}

-- what the uploader is to know of the node at an index
abbrev pub row_at : (ℕ → NodeState) → ℕ → Row
row_at ns j = node_row (j + 1) true (ns j)

module _ (now : ℕ) (u : Uploader) (self : Row) (ns : ℕ → NodeState) where
  -- The bridge's nodes are `ns`, and the uploader knows those alive of the first `n`.
  record Told (n : ℕ) (b : Bridge) : Type 0 where
    same : b.nodes ≡ ns
    known :
        (j : ℕ)
        → j < n
        → (ns j).alive ≡ true
        → (heard b.out now u).seen (j + 1) ≡ seen_of (row_at ns j) now

  next_row-known :
      (n i : ℕ) (b : Bridge)
      → IsFirst (λ j. (ns j).alive) n 63 (some i)
      → Told n b
      → (j : ℕ) → j < i + 1
      → (ns j).alive ≡ true
      → (heard (next_row (some i) b).out now u).seen (j + 1) ≡ seen_of (row_at ns j) now
  unfolding next_row emit_node
  next_row-known n i b (l, h, a, f) t j m e =
      let r = node_row (i + 1) true (b.nodes (i + 1 - 1)) in
      let told = ap (λ v. v.seen (j + 1)) (heard-row b.out r now u (omega arith)) in
      told ∙ elim (Bool-cases (j == i)) [
        | inl s ↦
            let eq : j ≡ i = ground (arith, s) in
            let pred : i + 1 - 1 ≡ i = omega arith in
            let hit : (j + 1 == i + 1) ≡ true = ground (arith, s) in rw (hit, pred, t.same, eq) refl
        | inr s ↦
            let other : (j + 1 == i + 1) ≡ false = ground (arith, s) in
            let early : j < n = ground (arith, s, e, f j) in rw other (t.known j early e)
      ]

  -- the roster is over, and the uploader knows every node that is alive
  record Over (b : Bridge) : Type 0 where
    idle : b.roster_pending ≡ false
    told : Told 63 b

  -- the roster waits for the row at `n`
  record Waits (n : ℕ) (b : Bridge) : Type 0 where
    pending : b.roster_pending ≡ true
    next : b.roster_next ≡ row_from n
    told : Told n b

  service_roster-idle :
      (rooms : List Bool) (b : Bridge) → Over b → Over (service_roster rooms self b)
  unfolding service_roster
  service_roster-idle [] b v = v
  service_roster-idle (room ∷ rooms) b v = simp (v.idle) v

  end-Over :
      (n : ℕ) (b : Bridge)
      → IsFirst (λ j. (ns j).alive) n 63 none
      → Told n b
      → Over (next_row none b)
  unfolding next_row
  end-Over n b f t = record {
    idle = refl;
    told = record {
      same = t.same;
      known = λ j m e.
          let early : j < n = ground (arith, e, f j) in
          ap (λ v. v.seen (j + 1)) (heard-end b.out (decimal 3 b.roster_count) now u)
          ∙ t.known j early e;
    };
  }

  row-Waits :
      (n i : ℕ) (b : Bridge)
      → IsFirst (λ j. (ns j).alive) n 63 (some i)
      → Waits n b
      → Waits (i + 1) (next_row (some i) b)
  unfolding next_row emit_node
  row-Waits n i b f w = record {
    pending = w.pending;
    next = refl;
    told = record { same = w.told.same; known = next_row-known n i b f w.told };
  }

  turn-IsFirst :
      (n : ℕ) (b : Bridge)
      → n ≤ 63
      → Told n b
      → IsFirst (λ j. (ns j).alive) n 63 (next_alive (max_node_id - n) n b.nodes)
  turn-IsFirst n b l t =
      let all : n + (63 - n) ≡ 63 = omega arith in
      rw (t.same) (
        subst (λ m. IsFirst (λ j. (ns j).alive) n m (next_alive (63 - n) n ns)) all
          (next_alive-IsFirst (63 - n) n ns))

  after_turn :
      (n k : ℕ) (o : Option ℕ) (b : Bridge)
      → ((i : ℕ) (c : Bridge)
          → i ≤ 63
          → 64 ≤ i + k
          → Waits i c
          → Over (service_roster (replicate k true) self c))
      → 64 ≤ n + suc k
      → IsFirst (λ j. (ns j).alive) n 63 o
      → Waits n b
      → Over (service_roster (replicate k true) self (next_row o b))
  after_turn n k none b more e f w =
      service_roster-idle (replicate k true) (next_row none b) (end-Over n b f w.told)
  after_turn n k (some i) b more e f w =
      more (i + 1) (next_row (some i) b) (omega arith) (omega arith) (row-Waits n i b f w)

  service_roster-Over :
      (k n : ℕ) (b : Bridge)
      → n ≤ 63
      → 64 ≤ n + k
      → Waits n b
      → Over (service_roster (replicate k true) self b)
  unfolding service_roster roster_turn
  service_roster-Over zero n b l e w = ground arith
  service_roster-Over (suc k) n b l e w =
      simp (w.pending, w.next)
        (after_turn n k (next_alive (max_node_id - n) n b.nodes) b (service_roster-Over k) e
          (turn-IsFirst n b l w.told) w)

-- A roster that the UART has room for, of sixty-five lines or more, is over after that, and the
-- uploader, having read its lines, knows of a node between 1 and 63 that is alive what the bridge
-- knows of its presence, its version and its bootloader, as bytes.
pub service_roster-known :
    (now k : ℕ) (u : Uploader) (self : Row) (b : Bridge) (j : ℕ)
    → 65 ≤ k
    → j < 63
    → (b.nodes j).alive ≡ true
    → (let e = service_roster (replicate k true) self (emit_all_nodes b) in
        (e.roster_pending ≡ false)
        × ((heard e.out now u).seen (j + 1) ≡ seen_of (node_row (j + 1) true (b.nodes j)) now))
unfolding service_roster roster_turn emit_all_nodes
service_roster-known now zero u self b j e l a = ground arith
service_roster-known now (suc k) u self b j e l a =
    let first = roster_turn self_row self (emit_all_nodes b) in
    let start : Waits now u self b.nodes 0 first = record {
      pending = refl;
      next = refl;
      told = record { same = refl; known = λ m h t. ground arith };
    } in
    let v = service_roster-Over now u self b.nodes k 0 first (omega arith) (omega arith) start in
    (v.idle, v.told.known j l a)
