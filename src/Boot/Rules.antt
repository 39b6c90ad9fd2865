-- ===== src/Boot/Rules.antt =====
-- The rules on identity and on starting an app: SET_NODE_ID, GO, an unconfigured board, and the boot
-- decision (main.cpp).
use open_skyhawk.Base.{
  ℕ, zero, suc, ◌+◌, ◌-◌, ◌*◌, ◌/◌, ◌%◌, ◌≤◌, ◌<◌, ◌≡◌, ◌≢◌, ◌⊎◌, refl, ◌∙◌, arith, ◌==◌, true,
  false, get_or, set, ltb, List, length, length-set, get_or-set, if◌then◌else◌,
}
use open_skyhawk.Boot.Protocol.{
  ok, app_unstable, caught, app_addr, unset, kind_bridge, attempt_limit, u32, page, block_size,
}
use open_skyhawk.Boot.Cmd
use open_skyhawk.Boot.Flash.{Chip, IsFlash, le32}
use open_skyhawk.Boot.Image.{app_valid}
use open_skyhawk.Boot.Options.{
  ob_data0, ob_data1, ob_wrp0, ob_count, options_match, option_bytes_set,
}
use open_skyhawk.Boot.Session.{Board, at, announce, service, erase_pages, begin, block, end_}
use open_skyhawk.Boot.Handle.{
  set_node_id, handle, dispatch, on_go, on_set_node_id, on_begin, on_block, on_end, on_data,
}
use open_skyhawk.Boot.Erase.{app_valid_of_IsBlank}
use open_skyhawk.Boot.Startup.{
  settled, Wake, reset_again, jump, stay, main, options_differ, boot_state, opt_at, entry_magic,
  fresh, want_node, want_kind, protected,
}

module _ (c : Chip) where
  options_match-at :
      (k i : ℕ) (v o : List ℕ) (j : ℕ)
      → options_match c k i v o ≡ true
      → i ≤ j
      → j < i + k
      → get_or o j 0 % 256 ≡ get_or v j 0
  unfolding options_match
  options_match-at zero i v o j h p q = absurd (omega arith)
  options_match-at (suc k) i v o j h p q =
      let where_j : (j ≡ i) ⊎ (i + 1 ≤ j) = omega arith in
      ground (arith, options_match-at k (i + 1) v o j)

  -- Eight option bytes, rewritten with success, read back with the three values asked for.
  option_bytes_set_lem :
      (d0 d1 wrp : ℕ) (opt : List ℕ)
      → length opt ≡ 8
      → (option_bytes_set c d0 d1 wrp opt).0 ≡ true
      → let o = (option_bytes_set c d0 d1 wrp opt).1 in
        (opt_at o ob_data0 ≡ d0) × (opt_at o ob_data1 ≡ d1) × (opt_at o ob_wrp0 ≡ wrp)
  unfolding option_bytes_set
  option_bytes_set_lem d0 d1 wrp opt len h =
      let v1 = set opt ob_data0 d0 in
      let v2 = set v1 ob_data1 d1 in
      let v = set v2 ob_wrp0 wrp in
      let o = (option_bytes_set c d0 d1 wrp opt).1 in
      let l1 : length v1 ≡ 8 = length-set opt ob_data0 d0 ∙ len in
      let l2 : length v2 ≡ 8 = length-set v1 ob_data1 d1 ∙ l1 in
      let good : options_match c ob_count 0 v o ≡ true = ground arith in
      let a = get_or-set opt ob_data0 ob_data0 d0 0 (omega arith) in
      let b1 = get_or-set v1 ob_data1 ob_data0 d1 0 (omega arith) in
      let b2 = get_or-set v1 ob_data1 ob_data1 d1 0 (omega arith) in
      let c1 = get_or-set v2 ob_wrp0 ob_data0 wrp 0 (omega arith) in
      let c2 = get_or-set v2 ob_wrp0 ob_data1 wrp 0 (omega arith) in
      let c3 = get_or-set v2 ob_wrp0 ob_wrp0 wrp 0 (omega arith) in
      (
        options_match-at ob_count 0 v o ob_data0 good (omega arith) (omega arith) ∙ (c1 ∙ (b1 ∙ a)),
        options_match-at ob_count 0 v o ob_data1 good (omega arith) (omega arith) ∙ (c2 ∙ b2),
        options_match-at ob_count 0 v o ob_wrp0 good (omega arith) (omega arith) ∙ c3,
      )

  -- SET_NODE_ID answers OK only to a connected board that has a NODE_ID and is no bridge, and only for
  -- an id from 1 to 63; then the board's app is invalid and the id is stored with the kind kept.
  pub set_node_id_lem :
      (id : ℕ) (b : Board) {b' : Board}
      → IsFlash c
      → length b.opt ≡ 8
      → set_node_id c id b ≡ (ok, b')
      → (b.connected ≡ true)
        × (b.node ≢ unset)
        × (b.kind ≢ kind_bridge)
        × (0 < id)
        × (id ≤ 63)
        × (app_valid c b'.mem ≡ false)
        × (opt_at b'.opt ob_data0 ≡ id)
        × (opt_at b'.opt ob_data1 ≡ b.kind)
  unfolding set_node_id
  set_node_id_lem id b f len h =
      let e = c.erase b.mem app_addr in
      let invalid : e.done ≡ true → app_valid c e.mem ≡ false = λ done.
        app_valid_of_IsBlank c e.mem
          (λ x p q. f.erase_clears b.mem app_addr x done (omega arith)) in
      ground (arith, option_bytes_set_lem id b.kind (get_or b.opt ob_wrp0 0) b.opt len)

  -- No command asks for a reset but by its handler.
  erase_pages-reset : (n a end : ℕ) (b : Board) → (erase_pages c n a end b).1.reset ≡ b.reset
  unfolding erase_pages
  erase_pages-reset zero a end b = refl
  erase_pages-reset (suc n) a end b =
      let e = c.erase b.mem a in
      let b1 = record b { mem = e.mem; ms = u32 (b.ms + e.took_ms) } in
      let rest = erase_pages-reset n (a + page) end (service c b1) in
      ground (arith, service-reset b1)
    where
      service-reset : (b : Board) → (service c b).reset ≡ b.reset
      service-reset b = unfold service announce in ground arith

  begin-reset : (len : ℕ) (b : Board) → (begin c len b).1.reset ≡ b.reset
  unfolding begin
  begin-reset len b =
      let total = u32 (len + (block_size - 1)) / block_size * block_size in
      let b1 = record b { ses = record (b.ses) { active = false; total = total; next = 0 } } in
      let end = u32 (app_addr + total) in
      ground (arith, erase_pages-reset ((end - app_addr) / page + 1) app_addr end b1)

  end-reset : (want : ℕ) (b : Board) → (end_ c want b).2.reset ≡ b.reset
  unfolding end_
  end-reset want b = ground arith

  set_node_id-reset : (id : ℕ) (b : Board) → (set_node_id c id b).1.reset ≡ b.reset
  unfolding set_node_id
  set_node_id-reset id b = ground arith

  on_data-reset : (m : List ℕ) (b : Board) → (on_data c m b).reset ≡ b.reset
  unfolding on_data block
  on_data-reset m b = ground arith

  dispatch_resets :
      (m : List ℕ) (b : Board)
      → b.reset ≡ false
      → (dispatch c m b).reset ≡ true
      → ((at m 0 ≡ Cmd.go) × (app_valid c b.mem ≡ true)) ⊎ (at m 0 ≡ Cmd.set_node_id)
  unfolding dispatch announce on_begin on_block on_end on_go on_set_node_id
  dispatch_resets m b q h = ground (
    arith,
    begin-reset (le32 (at m) 1) b,
    end-reset (le32 (at m) 1) b,
    set_node_id-reset (at m 1) b,
    on_data-reset m b,
  )

  -- A frame resets the board only if it is a GO and the app is valid, or a SET_NODE_ID.
  pub handle_resets :
      (m : List ℕ) (b : Board)
      → b.reset ≡ false
      → (handle c m b).reset ≡ true
      → ((at m 0 ≡ Cmd.go) × (app_valid c b.mem ≡ true)) ⊎ (at m 0 ≡ Cmd.set_node_id)
  unfolding handle
  handle_resets m b q h =
      let b1 = if at m 0 == Cmd.connect then record b { connected = true } else b in
      ground (arith, dispatch_resets m (record b1 { last_cmd = b1.ms }))

  -- The app is started only if it is valid, was not asked to stay, has crashed fewer times than the
  -- limit and nobody connects; the start is counted.
  pub main_jump :
      (w : Wake) {b : Board}
      → main c w ≡ (jump, b)
      → (app_valid c w.mem ≡ true)
        × (w.entry ≢ entry_magic)
        × (w.attempts < attempt_limit)
        × (w.connect ≡ false)
        × (b.attempts ≡ w.attempts + 1)
  unfolding main boot_state
  main_jump w h = ground arith

  -- A crash loop: an app that is started and resets before it is healthy, with nothing else wrong, is
  -- started again below the limit and held in the bootloader, marked unstable, from the limit on.
  pub main_crash_loop :
      (w : Wake)
      → app_valid c w.mem ≡ true
      → options_differ c w ≡ false
      → w.entry ≢ entry_magic
      → w.connect ≡ false
      → main c w ≡ (
          if ltb w.attempts attempt_limit
          then (jump, record (fresh w caught) { attempts = w.attempts + 1 })
          else (stay, settled c (fresh w app_unstable)))
  unfolding main boot_state
  main_crash_loop w v same e n = ground arith

  options_differ_of :
      (w : Wake) (o : List ℕ)
      → opt_at o ob_data0 ≡ want_node c w
      → opt_at o ob_data1 ≡ want_kind c w
      → opt_at o ob_wrp0 ≡ protected c (opt_at w.opt ob_wrp0)
      → options_differ c (record w { opt = o }) ≡ false
  unfolding options_differ want_node want_kind
  options_differ_of w o p q r = ground arith

  -- No reset loop: once the option bytes have been rewritten and the board has reset, the next start
  -- finds nothing to rewrite.
  pub main_settles :
      (w : Wake) {b : Board}
      → length w.opt ≡ 8
      → main c w ≡ (reset_again, b)
      → options_differ c (record w { opt = b.opt }) ≡ false
  unfolding main
  main_settles w {b} len h =
      let set =
        option_bytes_set_lem (want_node c w) (want_kind c w) (protected c (opt_at w.opt ob_wrp0))
          w.opt len in
      let good : (option_bytes_set c (want_node c w) (want_kind c w)
            (protected c (opt_at w.opt ob_wrp0)) w.opt).0
          ≡ true =
        ground arith in
      let stored : b.opt
          ≡ (option_bytes_set c (want_node c w) (want_kind c w) (protected c (opt_at w.opt ob_wrp0))
              w.opt).1 =
        ground arith in
      let (p, q, r) = set good in rw stored (options_differ_of w _ p q r)
