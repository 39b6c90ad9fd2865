-- ===== src/Bridge/Handlers.antt =====
-- What frames, words of the host and time do to the count of dead nodes (PanelBridge.cpp).
use open_skyhawk.Base.{
  ℕ, zero, suc, ◌+◌, ◌-◌, ◌%◌, ◌≤◌, ◌<◌, ◌≡◌, ◌⊎◌, inl, inr, refl, sym, ap, subst, ◌∙◌, Bool, true,
  false, not, ◌&&◌, ◌||◌, List, [], ◌∷◌, length, ◌==◌, ltb, leb, arith, if◌then◌else◌, if_intro,
  Bool-cases,
}
use open_skyhawk.Boot.Reply
use open_skyhawk.Boot.Session.{at}
use open_skyhawk.Upload.Wire.{CanFrame}
use open_skyhawk.Upload.Reply.{st_ok}
use open_skyhawk.Bridge.Relay.{on_write}
use open_skyhawk.Bridge.State.{NodeState, Bridge, can_frame, enter_bootloader, put, emit, node}
use open_skyhawk.Bridge.Rows.{emit_node, emit_boot_rsp}
use open_skyhawk.Bridge.Nodes.{
  forget_node, emit_all_nodes, on_boot_rsp, end_update, time_out, check_from,
}
use open_skyhawk.Bridge.Dispatch.{
  DcsBiosInputEntry, dispatch_evt_slot, dispatch_rel_slot, dispatch_dir_slot, dispatch_action_slot,
  dispatch_pair,
}
use open_skyhawk.Bridge.Receive.{from_node, on_can_rx}
use open_skyhawk.Bridge.Export.{
  on_forget_request, relay_frame, relay_frames, latch_model_time, on_dcs_bios_write,
}
use open_skyhawk.Bridge.Dead.{
  Tracks, dead_total, dead_total_le, dead_total-put, forget_node-Tracks, note_boot_traffic-Tracks,
  on_boot_reply-Tracks, on_heartbeat-Tracks, on_health-Tracks, on_ready-Tracks,
}
use open_skyhawk.Bridge.Unchanged.{
  Same, dispatch_evt_slot-Same, dispatch_rel_slot-Same, dispatch_dir_slot-Same,
  dispatch_action_slot-Same, dispatch_pair-Same, latch_model_time-Same, emit_telem-Same,
  handle_dcs_bios_export-Same,
}

pub Same-Tracks : {r : Bool} (b c : Bridge) → Same b c → Tracks r b → Tracks r c
Same-Tracks {r} b c s t = record {
  counted = s.count ∙ (t.counted ∙ ap (λ f. dead_total 63 f) (sym s.nodes));
  lit = s.warning ∙ t.lit ∙ rw (s.warning, s.count) refl;
  seen =
      subst (λ (f : ℕ → NodeState). (i : ℕ) → ((f i).alive ≡ false) ⊎ ((f i).ever_seen ≡ true))
        (sym s.nodes) t.seen;
}

module _ {r : Bool} (now : ℕ) where
  end_update-Tracks : (i : ℕ) (b : Bridge) → i < 63 → Tracks r b → Tracks r (end_update i now b)
  unfolding end_update emit_node
  end_update-Tracks i b l t =
      let v = record (b.nodes i) { updating = false } in
      let sum = dead_total-put 63 i v b.nodes l in
      record {
        counted = ground (arith, sum, t.counted);
        lit = ground (arith, t.lit);
        seen = λ j. ground (arith, t.seen j);
      }

  time_out-Tracks : (i : ℕ) (b : Bridge) → i < 63 → Tracks r b → Tracks r (time_out i now b)
  unfolding time_out emit_node
  time_out-Tracks i b l t =
      let v = record (b.nodes i) { alive = false } in
      let sum = dead_total-put 63 i v b.nodes l in
      let most = dead_total_le 63 (put b.nodes i v) in
      record {
        counted = ground (arith, sum, most, t.counted, t.seen i);
        lit = ground (arith, sum, most, t.counted, t.lit, t.seen i);
        seen = λ j. ground (arith, t.seen j);
      }

  pub check_from-Tracks :
      (k i : ℕ) (b : Bridge) → i + k ≤ 63 → Tracks r b → Tracks r (check_from k i now b)
  unfolding check_from
  check_from-Tracks zero i b l t = t
  check_from-Tracks (suc k) i b l t =
      check_from-Tracks k (i + 1) _ (omega arith)
        (time_out-Tracks i _ (omega arith) (end_update-Tracks i b (omega arith) t))

relay_frame-Tracks :
    {r : Bool} (f : CanFrame) (now : ℕ) (b : Bridge) → Tracks r b → Tracks r (relay_frame f now b)
unfolding relay_frame
relay_frame-Tracks {r} f now b t =
    let id = f.id - 0x740 in
    let c = emit (can_frame f) b in
    let s : Tracks r c = record { counted = t.counted; lit = t.lit; seen = t.seen } in
    let to_node = leb 0x741 f.id && leb f.id 0x77F in
    elim (Bool-cases (to_node && not ((node id b).bootloader == 0))) [
      | inl e ↦
          rw (e, relay_frame)
            (note_boot_traffic-Tracks id (ground (arith, e)) (ground (arith, e)) now c s)
      | inr e ↦ rw (e, relay_frame) s
    ]

relay_frames-Tracks :
    {r : Bool} (fs : List CanFrame) (now : ℕ) (b : Bridge)
    → Tracks r b
    → Tracks r (relay_frames fs now b)
unfolding relay_frames
relay_frames-Tracks {r} [] now b t = t
relay_frames-Tracks {r} (f ∷ fs) now b t =
    relay_frames-Tracks fs now (relay_frame f now b) (relay_frame-Tracks f now b t)

on_forget_request-Tracks :
    {r : Bool} (v : ℕ) (b : Bridge) → Tracks r b → Tracks r (on_forget_request v b)
unfolding on_forget_request emit_all_nodes
on_forget_request-Tracks {r} v b t =
    let id = v % 256 in
    let refuse = ltb id 1 || (ltb 63 id || (not (node id b).ever_seen || (node id b).alive)) in
    elim (Bool-cases refuse) [
      | inl e ↦ rw (e, on_forget_request) t
      | inr e ↦
          let s = forget_node-Tracks id (ground (arith, e)) (ground (arith, e)) b t in
          rw (e, on_forget_request) (record { counted = s.counted; lit = s.lit; seen = s.seen })
    ]

emit_boot_rsp-Tracks :
    {r : Bool} (id : ℕ) (d : List ℕ) (b : Bridge) → Tracks r b → Tracks r (emit_boot_rsp id d b)
unfolding emit_boot_rsp
emit_boot_rsp-Tracks {r} id d b t = record { counted = t.counted; lit = t.lit; seen = t.seen }

on_boot_rsp-Tracks :
    {r : Bool} (can_id : ℕ) (d : List ℕ) (now : ℕ) (b : Bridge)
    → (from_node 0x780 can_id || can_id == 0x7C1) ≡ true
    → Tracks r b
    → Tracks r (on_boot_rsp can_id d now b)
unfolding on_boot_rsp emit_all_nodes
on_boot_rsp-Tracks {r} can_id d now b k t =
    let id = can_id - 0x780 in
    let c = emit_boot_rsp can_id d b in
    let s = emit_boot_rsp-Tracks can_id d b t in
    elim (Bool-cases (can_id == 0x7C1)) [
      | inl e ↦ rw (e, on_boot_rsp) s
      | inr e ↦
          let low : 1 ≤ id = ground (arith, e, k) in
          let high : id ≤ 63 = ground (arith, e, k) in
          let gone = forget_node-Tracks id low high c s in
          let told : Tracks r (emit_all_nodes (forget_node id c)) = record {
            counted = gone.counted;
            lit = gone.lit;
            seen = gone.seen;
          } in
          rw (e, on_boot_rsp)
            (if_intro (Tracks r) (leb 2 (length d) && (at d 0 == Reply.node_set && at d 1 == st_ok))
              told (on_boot_reply-Tracks id low high d now c s))
    ]

-- A branch that is taken only if its test holds.
when_true {ℓ κ} :
    {A : Type ℓ} {x y : A} (Q : A → Type κ) (c : Bool)
    → (c ≡ true → Q x)
    → Q y
    → Q (if c then x else y)
when_true Q true left right = left refl
when_true Q false left right = right

-- the node's number behind an identifier
low_node : (base id : ℕ) → from_node base id ≡ true → 1 ≤ id - base
low_node base id e = ground (arith, e)

high_node : (base id : ℕ) → from_node base id ≡ true → id - base ≤ 63
high_node base id e = ground (arith, e)

module _ {r : Bool} (map : List DcsBiosInputEntry) where
  pub on_can_rx-Tracks :
      (id : ℕ) (d : List ℕ) (now : ℕ) (b : Bridge)
      → Tracks r b
      → Tracks r (on_can_rx map id d now b)
  unfolding on_can_rx
  on_can_rx-Tracks id d now b t =
      let P = Tracks r in
      let slots =
        λ (slot : ℕ → ℕ → Bridge → Bridge) (h : (i v : ℕ) (c : Bridge) → Same c (slot i v c)).
          Same-Tracks b (dispatch_pair slot d b) (dispatch_pair-Same slot h d b) t in
      let telem =
        if_intro P (length d == 8 && not (at d 0 == 0))
          (Same-Tracks b _ (emit_telem-Same (id - 0x180) d b) t) t in
      when_true P _ (λ e. on_boot_rsp-Tracks id d now b e t)
        (when_true P _
          (λ e. on_heartbeat-Tracks _ (low_node 0x100 id e) (high_node 0x100 id e) d now b t)
          (when_true P _
            (λ e. on_health-Tracks _ (low_node 0x140 id e) (high_node 0x140 id e) d b t)
            (if_intro P _ telem (
              if_intro P _ (slots (dispatch_evt_slot map) (dispatch_evt_slot-Same map)) (
                if_intro P _ (slots (dispatch_rel_slot map) (dispatch_rel_slot-Same map)) (
                  if_intro P _ (slots (dispatch_dir_slot map) (dispatch_dir_slot-Same map)) (
                    if_intro P _ (slots (dispatch_action_slot map) (dispatch_action_slot-Same map))
                      (if_intro P _ t (
                        when_true P _
                          (λ e.
                            on_ready-Tracks _ (low_node 0x400 id e) (high_node 0x400 id e) d now b
                              t)
                          t)))))))))

pub on_dcs_bios_write-Tracks :
    {r : Bool} (m a v now : ℕ) (b : Bridge) → Tracks r b → Tracks r (on_dcs_bios_write m a v now b)
unfolding on_dcs_bios_write emit_all_nodes
on_dcs_bios_write-Tracks {r} m a v now b t =
    let c = latch_model_time m a v b in
    let s = Same-Tracks b c (latch_model_time-Same m a v b) t in
    let same = λ (x : Tracks r c). x in
    let (fs, y) = on_write a v c.relay in
    let roster : Tracks r (emit_all_nodes c) = record {
      counted = s.counted;
      lit = s.lit;
      seen = s.seen;
    } in
    let enter : Tracks r (emit enter_bootloader c) = record {
      counted = s.counted;
      lit = s.lit;
      seen = s.seen;
    } in
    let moved : Tracks r (record c { relay = y }) = record {
      counted = s.counted;
      lit = s.lit;
      seen = s.seen;
    } in
    if_intro (Tracks r) _ roster (
      if_intro (Tracks r) _ (on_forget_request-Tracks v c s) (
        if_intro (Tracks r) _ enter (
          if_intro (Tracks r) _ (relay_frames-Tracks fs now _ moved)
            (Same-Tracks c _ (handle_dcs_bios_export-Same _ _ c) s))))
