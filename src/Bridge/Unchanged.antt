-- ===== src/Bridge/Unchanged.antt =====
-- What leaves the life of every node alone (PanelBridge.cpp).
use open_skyhawk.Base.{
  ℕ, zero, suc, ◌+◌, ◌-◌, ◌%◌, ◌≡◌, inl, inr, refl, ◌∙◌, Bool, false, ◌&&◌, ◌||◌, List, [], ◌∷◌,
  length, Option, none, some, ◌==◌, ltb, if◌then◌else◌, if_intro, Option-cases,
}
use open_skyhawk.Boot.Session.{at16}
use open_skyhawk.Bridge.State.{Bridge, put, RosterNext, self_row, row_from}
use open_skyhawk.Bridge.Rows.{emit_node, Row, emit_telem, send_hid_frame}
use open_skyhawk.Bridge.Sync.{ask_next, service_sync, next_row, roster_turn, service_roster}
use open_skyhawk.Bridge.Dispatch.{
  DcsBiosInputEntry, lookup_dcs_entry, send_dcs, dispatch_dcs_input, dispatch_dcs_rel,
  dispatch_dcs_dir, dispatch_dcs_action, dispatch_evt_slot, dispatch_rel_slot, dispatch_dir_slot,
  dispatch_action_slot, dispatch_pair,
}
use open_skyhawk.Bridge.Export.{
  handle_dcs_bios_export, queue_alive, new_model_time, on_model_time_change, set_char,
  latch_model_time,
}

-- what does not touch a node's life
pub record Same (b c : Bridge) : Type 0 where
  pub nodes : c.nodes ≡ b.nodes
  pub count : c.dead_count ≡ b.dead_count
  pub warning : c.warning ≡ b.warning

pub Same-refl : (b : Bridge) → Same b b
Same-refl b = record { nodes = refl; count = refl; warning = refl }

pub Same-trans : (b c d : Bridge) → Same b c → Same c d → Same b d
Same-trans b c d p q = record {
  nodes = q.nodes ∙ p.nodes;
  count = q.count ∙ p.count;
  warning = q.warning ∙ p.warning;
}

-- A slot of an event frame is put out, and no more.
module _ (map : List DcsBiosInputEntry) where
  send_dcs-Same : (id : ℕ) (arg : List ℕ) (b : Bridge) → Same b (send_dcs map id arg b)
  unfolding send_dcs
  send_dcs-Same id arg b = elim (Option-cases (lookup_dcs_entry map id)) [
    | inl e ↦ rw (e, send_dcs) (Same-refl b)
    | inr (x, e) ↦ rw (e, send_dcs) (record { nodes = refl; count = refl; warning = refl })
  ]

  pub dispatch_evt_slot-Same : (id v : ℕ) (b : Bridge) → Same b (dispatch_evt_slot map id v b)
  unfolding dispatch_evt_slot dispatch_dcs_input send_hid_frame
  dispatch_evt_slot-Same id v b =
      let P = Same b in
      let hid : Same b (send_hid_frame id v b) = record {
        nodes = refl;
        count = refl;
        warning = refl;
      } in
      if_intro P (id == 0) (Same-refl b)
        (if_intro P _ (send_dcs-Same id _ b) (if_intro P _ hid (Same-refl b)))

  pub dispatch_rel_slot-Same : (id v : ℕ) (b : Bridge) → Same b (dispatch_rel_slot map id v b)
  unfolding dispatch_rel_slot dispatch_dcs_rel
  dispatch_rel_slot-Same id v b =
      let P = Same b in
      if_intro P (id == 0) (Same-refl b) (if_intro P _ (send_dcs-Same id _ b) (Same-refl b))

  pub dispatch_dir_slot-Same : (id v : ℕ) (b : Bridge) → Same b (dispatch_dir_slot map id v b)
  unfolding dispatch_dir_slot dispatch_dcs_dir
  dispatch_dir_slot-Same id v b =
      let P = Same b in
      let step =
        if_intro P (v == 1) (send_dcs-Same id _ b)
          (if_intro P _ (send_dcs-Same id _ b) (Same-refl b)) in
      if_intro P (id == 0) (Same-refl b) (if_intro P _ step (Same-refl b))

  pub dispatch_action_slot-Same : (id v : ℕ) (b : Bridge) → Same b (dispatch_action_slot map id v b)
  unfolding dispatch_action_slot dispatch_dcs_action
  dispatch_action_slot-Same id v b =
      let P = Same b in
      let act = if_intro P (v == 0) (send_dcs-Same id _ b) (Same-refl b) in
      if_intro P (id == 0) (Same-refl b) (if_intro P _ act (Same-refl b))

pub dispatch_pair-Same :
    (slot : ℕ → ℕ → Bridge → Bridge)
    → ((id v : ℕ) (b : Bridge) → Same b (slot id v b))
    → (d : List ℕ) (b : Bridge) → Same b (dispatch_pair slot d b)
unfolding dispatch_pair
dispatch_pair-Same slot h d b =
    let P = Same b in
    let first = h (at16 d 0) (at16 d 2) b in
    let c = slot (at16 d 0) (at16 d 2) b in
    if_intro P (ltb (length d) 8) (Same-refl b)
      (if_intro P (at16 d 4 == 0) first (Same-trans b c _ first (h (at16 d 4) (at16 d 6) c)))

module _ (b : Bridge) where
  ask_next-Same : (o : Option ℕ) (now : ℕ) → Same b (ask_next o now b)
  unfolding ask_next
  ask_next-Same none now = record { nodes = refl; count = refl; warning = refl }
  ask_next-Same (some i) now = record { nodes = refl; count = refl; warning = refl }

  pub service_sync-Same : (now : ℕ) → Same b (service_sync now b)
  unfolding service_sync
  service_sync-Same now = if_intro (Same b) _ (Same-refl b) (ask_next-Same _ now)

  next_row-Same : (o : Option ℕ) → Same b (next_row o b)
  unfolding next_row emit_node
  next_row-Same none = record { nodes = refl; count = refl; warning = refl }
  next_row-Same (some i) = record { nodes = refl; count = refl; warning = refl }

  roster_turn-Same : (n : RosterNext) (self : Row) → Same b (roster_turn n self b)
  unfolding roster_turn
  roster_turn-Same self_row self = record { nodes = refl; count = refl; warning = refl }
  roster_turn-Same (row_from n) self = next_row-Same _

pub service_roster-Same :
    (rooms : List Bool) (self : Row) (b : Bridge) → Same b (service_roster rooms self b)
unfolding service_roster
service_roster-Same [] self b = Same-refl b
service_roster-Same (room ∷ rooms) self b =
    let c = roster_turn b.roster_next self b in
    if_intro (Same b) _
      (Same-trans b c _ (roster_turn-Same b b.roster_next self) (service_roster-Same rooms self c))
      (Same-refl b)

-- The model time changes only what waits for a sync.
queue_alive-Same : (k i : ℕ) (b : Bridge) → Same b (queue_alive k i b)
unfolding queue_alive
queue_alive-Same zero i b = Same-refl b
queue_alive-Same (suc k) i b =
    let c = record b { sync_queue = put b.sync_queue i ((b.nodes i).alive || b.sync_queue i) } in
    Same-trans b c _ (record { nodes = refl; count = refl; warning = refl })
      (queue_alive-Same k (i + 1) c)

new_model_time-Same : (o : Option ℕ) (sec : ℕ) (b : Bridge) → Same b (new_model_time o sec b)
unfolding new_model_time
new_model_time-Same none sec b = record { nodes = refl; count = refl; warning = refl }
new_model_time-Same (some last) sec b =
    let s = if_intro (Same b) (ltb sec last) (queue_alive-Same 63 0 b) (Same-refl b) in
    record { nodes = s.nodes; count = s.count; warning = s.warning }

set_char-Same : (i c : ℕ) (b : Bridge) → Same b (set_char i c b)
unfolding set_char
set_char-Same i c b =
    if_intro (Same b) _ (Same-refl b) (record { nodes = refl; count = refl; warning = refl })

pub latch_model_time-Same : (m a v : ℕ) (b : Bridge) → Same b (latch_model_time m a v b)
unfolding latch_model_time on_model_time_change
latch_model_time-Same m a v b =
    let b0 = record b { model_time_dirty = false } in
    let s0 : Same b b0 = record { nodes = refl; count = refl; warning = refl } in
    let last = b.model_time_dirty && ltb (m + 5 - 1) a in
    let c = if last then on_model_time_change b0 else b in
    let s1 : Same b c =
      if_intro (Same b) last (Same-trans b b0 _ s0 (new_model_time-Same _ _ b0)) (Same-refl b) in
    let i = a - m in
    let e = set_char i (v % 256) c in
    let s2 = Same-trans b c e s1 (set_char-Same i (v % 256) c) in
    if_intro (Same b) _ (if_intro (Same b) _ (Same-trans b e _ s2 (set_char-Same (i + 1) _ e)) s2)
      s1

pub emit_telem-Same : (id : ℕ) (d : List ℕ) (b : Bridge) → Same b (emit_telem id d b)
unfolding emit_telem
emit_telem-Same id d b = record { nodes = refl; count = refl; warning = refl }

pub handle_dcs_bios_export-Same : (a v : ℕ) (b : Bridge) → Same b (handle_dcs_bios_export a v b)
unfolding handle_dcs_bios_export
handle_dcs_bios_export-Same a v b =
    if_intro (Same b) _ (Same-refl b) (record { nodes = refl; count = refl; warning = refl })
