-- ===== src/Boot/Blank.antt =====
-- Commit last: no frame but an END that passes its checks writes the first block (main.cpp).
use open_skyhawk.Base.{
  ℕ, zero, suc, ◌+◌, ◌-◌, ◌*◌, ◌/◌, ◌%◌, ◌^◌, ◌≡◌, refl, ◌∙◌, arith, ◌==◌, Bool, true, false, inl,
  inr, Bool-cases, ltb, List, [], ◌∷◌, ◌&&◌, ◌||◌, not, if◌then◌else◌, length,
}
use open_skyhawk.Boot.Protocol.{app_addr, block_size, page, u32, data_bytes}
use open_skyhawk.Boot.Cmd
use open_skyhawk.Boot.Flash.{Mem, le32, Chip, IsFlash}
use open_skyhawk.Boot.Flash.Write.{flash_write_keeps}
use open_skyhawk.Boot.Image.{app_valid}
use open_skyhawk.Boot.Session.{
  Board, at, service, erase_pages, begin, block, end_checks, end_, is_ok, announce, copy_in,
  held_crc,
}
use open_skyhawk.Boot.Handle.{
  loop_step, set_node_id, on_begin, on_block, on_end, on_go, on_set_node_id, on_data, dispatch,
  handle, run,
}
use open_skyhawk.Boot.Erase.{IsBlank, app_valid_of_IsBlank, service_keeps}

module _ (c : Chip) where
  -- an END frame whose checks pass on this board
  unfoldable pub commits : List ℕ → Board → Bool
  commits m b = at m 0 == Cmd.end && is_ok (end_checks c (le32 (at m) 1) b).0

  -- The checks read neither the open session's mark nor the clock of the last command.
  end_checks_inactive :
      (want : ℕ) (b : Board)
      → end_checks c want (record b { ses = record (b.ses) { active = false } })
        ≡ end_checks c want b
  unfolding end_checks held_crc
  end_checks_inactive want b = refl

  module _ (f : IsFlash c) where
    erase-IsBlank : (m : Mem) (a : ℕ) → IsBlank m → IsBlank (c.erase m a).mem
    erase-IsBlank m a h x p q = f.erase_blank m a x (h x p q)

    erase_pages-IsBlank :
        (n a end : ℕ) (b : Board) → IsBlank b.mem → IsBlank (erase_pages c n a end b).1.mem
    unfolding erase_pages
    erase_pages-IsBlank zero a end b h x p q = h x p q
    erase_pages-IsBlank (suc n) a end b h x p q =
        let e = c.erase b.mem a in
        let b1 = record b { mem = e.mem; ms = u32 (b.ms + e.took_ms) } in
        let same = (service_keeps c b1).0 in
        let blank : IsBlank (service c b1).mem = rw same (erase-IsBlank b.mem a h) in
        let rest = erase_pages-IsBlank n (a + page) end (service c b1) blank x p q in
        ground (arith, h x p q, f.erase_blank b.mem a x)

    begin-IsBlank : (len : ℕ) (b : Board) → IsBlank b.mem → IsBlank (begin c len b).1.mem
    unfolding begin
    begin-IsBlank len b h x p q =
        let total = u32 (len + (block_size - 1)) / block_size * block_size in
        let b1 = record b { ses = record (b.ses) { active = false; total = total; next = 0 } } in
        let end = u32 (app_addr + total) in
        ground (
          arith,
          h x p q,
          erase_pages-IsBlank ((end - app_addr) / page + 1) app_addr end b1 h x p q,
        )

    block-IsBlank : (b : Board) → IsBlank b.mem → IsBlank (block c b).1.mem
    unfolding block
    block-IsBlank b h x p q = ground (
      arith,
      h x p q,
      flash_write_keeps c f b.mem (app_addr + b.ses.index * block_size) b.ses.buf block_size x,
    )

    set_node_id-IsBlank : (id : ℕ) (b : Board) → IsBlank b.mem → IsBlank (set_node_id c id b).1.mem
    unfolding set_node_id
    set_node_id-IsBlank id b h x p q = ground (arith, h x p q, f.erase_blank b.mem app_addr x)

    end_keeps :
        (want : ℕ) (b : Board) (x : ℕ)
        → is_ok (end_checks c want b).0 ≡ false
        → (end_ c want b).2.mem x ≡ b.mem x
    unfolding end_
    end_keeps want b x k = ground (arith, end_checks_inactive want b)

    on_data-IsBlank : (m : List ℕ) (b : Board) → IsBlank b.mem → IsBlank (on_data c m b).mem
    unfolding on_data
    on_data-IsBlank m b h x p q =
        let k = at m 0 - Cmd.data_0 in
        let to = k * data_bytes in
        let n = length m - 1 in
        let cnt = if ltb n (block_size - to) then n else block_size - to in
        let b0 = record b {
          ses = record (b.ses) { buf = copy_in cnt 0 to m b.ses.buf; have = 0 };
        } in
        ground (arith, h x p q, block-IsBlank b0 h x p q)

    -- A frame other than a committing END leaves an erased first block erased.
    dispatch-IsBlank :
        (m : List ℕ) (b : Board)
        → commits m b ≡ false
        → IsBlank b.mem
        → IsBlank (dispatch c m b).mem
    unfolding dispatch on_begin on_block on_end on_go on_set_node_id announce commits
    dispatch-IsBlank m b k h x p q = ground (
      arith,
      h x p q,
      begin-IsBlank (le32 (at m) 1) b h x p q,
      on_data-IsBlank m b h x p q,
      set_node_id-IsBlank (at m 1) b h x p q,
      end_keeps (le32 (at m) 1) b x,
    )

  -- what `handle` hands to `dispatch`
  entered : List ℕ → Board → Board
  entered m b = record (if at m 0 == Cmd.connect then record b { connected = true } else b) {
    last_cmd = b.ms;
  }

  commits-entered : (m : List ℕ) (b : Board) → commits m (entered m b) ≡ commits m b
  unfolding commits end_checks held_crc entered
  commits-entered m b = elim (Bool-cases (at m 0 == Cmd.connect)) [
    | inl e ↦ rw e refl
    | inr e ↦ rw e refl
  ]

  entered-mem : (m : List ℕ) (b : Board) → (entered m b).mem ≡ b.mem
  unfolding entered
  entered-mem m b = ground arith

  handle-IsBlank :
      (f : IsFlash c) (m : List ℕ) (b : Board)
      → commits m b ≡ false
      → IsBlank b.mem
      → IsBlank (handle c m b).mem
  unfolding handle entered
  handle-IsBlank f m b k h x p q =
      let blank : IsBlank (entered m b).mem = rw (entered-mem m b) h in
      ground
        (arith, h x p q, dispatch-IsBlank f m (entered m b) (commits-entered m b ∙ k) blank x p q)

  -- A pass of the loop does no more to the first block than its frame does.
  loop_step-IsBlank :
      (f : IsFlash c) (m : List ℕ) (b : Board)
      → commits m (service c b) ≡ false
      → IsBlank b.mem
      → IsBlank (loop_step c m b).mem
  unfolding loop_step
  loop_step-IsBlank f m b k h x p q =
      let blank : IsBlank (service c b).mem = rw (service_keeps c b).0 h in
      ground (arith, blank x p q, handle-IsBlank f m (service c b) k blank x p q)

  -- whether some frame of a run commits
  unfoldable pub any_commits : List (ℕ × List ℕ) → Board → Bool
  any_commits [] b = false
  any_commits ((dt, m) ∷ ms) b =
      let b1 = record b { ms = (b.ms + dt) % 2 ^ 32 } in
      (not b.reset && commits m (service c b1))
      || any_commits ms (if b.reset then b else loop_step c m b1)

  step-IsBlank :
      (f : IsFlash c) (dt : ℕ) (m : List ℕ) (b : Board)
      → not b.reset && commits m (service c (record b { ms = (b.ms + dt) % 2 ^ 32 })) ≡ false
      → IsBlank b.mem
      → IsBlank (if b.reset then b else loop_step c m (record b { ms = (b.ms + dt) % 2 ^ 32 })).mem
  step-IsBlank f dt m b k h x p q = elim (Bool-cases b.reset) [
    | inl e ↦ ground (arith, h x p q)
    | inr e ↦
        let b1 = record b { ms = (b.ms + dt) % 2 ^ 32 } in
        let quiet : commits m (service c b1) ≡ false = ground arith in
        ground (arith, loop_step-IsBlank f m b1 quiet h x p q)
  ]

  or_false : (p q : Bool) → p || q ≡ false → (p ≡ false) × (q ≡ false)
  or_false p q h = ground arith

  run-IsBlank :
      (f : IsFlash c) (ms : List (ℕ × List ℕ)) (b : Board)
      → any_commits ms b ≡ false
      → IsBlank b.mem
      → IsBlank (run c ms b).mem
  unfolding run any_commits
  run-IsBlank f [] b k h = h
  run-IsBlank f ((dt, m) ∷ ms) b k h =
      let (one, more) = or_false _ _ k in
      run-IsBlank f ms
        (if b.reset then b else loop_step c m (record b { ms = (b.ms + dt) % 2 ^ 32 })) more
        (step-IsBlank f dt m b one h)

  -- From a board whose first block is erased, as BEGIN leaves it, no frames make the app valid unless
  -- one of them is an END whose checks pass on the board that it reaches.
  pub run-app_valid :
      (f : IsFlash c) (ms : List (ℕ × List ℕ)) (b : Board)
      → IsBlank b.mem
      → app_valid c (run c ms b).mem ≡ true
      → any_commits ms b ≡ true
  run-app_valid f ms b h v = elim (Bool-cases (any_commits ms b)) [
    | inl e ↦ e
    | inr e ↦ cc (app_valid_of_IsBlank c _ (run-IsBlank f ms b e h))
  ]
