-- ===== src/Boot/Commit.antt =====
-- `end` commits only an image that `app_valid` accepts (main.cpp).
use open_skyhawk.Base.{
  ◌⊎◌, inl, Bool-cases, ◌==◌, ℕ, ◌+◌, ◌-◌, ◌*◌, ◌/◌, ◌%◌, ◌≤◌, ◌<◌, ◌≡◌, ◌≢◌, refl, ◌∙◌, ap, sym,
  arith, true, false, get_or, inr, ==_iff, List,
}
use open_skyhawk.Boot.Protocol.{ok, app_addr, block_size, unset}
use open_skyhawk.Boot.Flash.{Mem, rd8, le32, Chip, IsFlash, flash_write}
use open_skyhawk.Boot.Flash.Write.{flash_write_keeps, flash_write_reads}
use open_skyhawk.Boot.Image.{
  identity, id_magic, id_layout, id_length, id_crc, id_node, id_kind, crc_feed_from, crc_feed,
  crc_reset, identity_ok, image_crc, app_valid,
}
use open_skyhawk.Boot.Image.Crc.{le32_congr, crc_feed_from_congr, crc_feed_from_add}
use open_skyhawk.Boot.Session.{Board, held_crc, end_checks, end_}

-- Two memories that agree from the second block on carry one identity block.
SameTail : Mem → Mem → Type 0
SameTail m m' = (x : ℕ) → app_addr + block_size ≤ x → m' x ≡ m x

module _ (m m' : Mem) (same : SameTail m m') where
  tail8 : (x : ℕ) → app_addr + block_size ≤ x → rd8 m' x ≡ rd8 m x
  unfolding SameTail
  tail8 x h = ap (λ y. y % 256) (same x h)

  tail32 : (x : ℕ) → app_addr + block_size ≤ x → le32 m' x ≡ le32 m x
  tail32 x h =
      le32_congr m' m x x (tail8 x h) (tail8 (x + 1) (omega arith)) (tail8 (x + 2) (omega arith))
        (tail8 (x + 3) (omega arith))

  tail-id_length : id_length m' ≡ id_length m
  tail-id_length = tail32 (identity + 8) (omega arith)

  tail-id_crc : id_crc m' ≡ id_crc m
  tail-id_crc = tail32 (identity + 12) (omega arith)

  tail-identity_ok : (c : Chip) (sp pc : ℕ) → identity_ok c m' sp pc ≡ identity_ok c m sp pc
  unfolding identity_ok
  tail-identity_ok c sp pc =
      let p : id_magic m' ≡ id_magic m = tail32 identity (omega arith) in
      let q : id_layout m' ≡ id_layout m =
        omega (arith, tail8 (identity + 4) (omega arith), tail8 (identity + 5) (omega arith)) in
      rw (p, q, tail-id_length)

  -- The sum of `end` over the block in RAM and the rest in flash is the sum of the whole image, once
  -- the block is in flash.
  image_crc_of_parts :
      (c : Chip) (blk0 : List ℕ)
      → ((i : ℕ) → i < block_size → rd8 m' (app_addr + i) ≡ get_or blk0 i 0 % 256)
      → id_length m % 4 ≡ 0
      → block_size ≤ id_length m
      → crc_feed c
          (λ i. m (app_addr + block_size + i))
          (id_length m - block_size)
          block_size
          (crc_feed c (λ i. get_or blk0 i 0) block_size 0 crc_reset)
        ≡ image_crc c m'
  unfolding image_crc crc_feed
  image_crc_of_parts c blk0 wrote aligned long =
      let d = λ (i : ℕ). m' (app_addr + i) in
      let r = (id_length m - block_size + 3) / 4 in
      let rounds : (id_length m' + 3) / 4 ≡ 16 + r = omega (arith, tail-id_length) in
      let head : crc_feed_from c 16 0 (λ i. get_or blk0 i 0) 0 crc_reset
          ≡ crc_feed_from c 16 0 d 0 crc_reset =
        crc_feed_from_congr c 16 0 0 0 0 (λ i. get_or blk0 i 0) d crc_reset refl
          (λ j p q. sym (wrote j (omega arith)) ∙ ap (λ x. rd8 d x) (omega arith)) in
      let rest : (dr : ℕ)
          → crc_feed_from c r 0 (λ i. m (app_addr + block_size + i)) block_size dr
            ≡ crc_feed_from c r 64 d 0 dr =
        λ dr.
          crc_feed_from_congr c r 0 64 64 0 (λ i. m (app_addr + block_size + i)) d dr refl
            (λ j p q.
              sym (tail8 (app_addr + 64 + j) (omega arith)) ∙ ap (λ x. rd8 m' x) (omega arith)) in
      rw rounds (
        rw (crc_feed_from_add c 16 r 0 0 d crc_reset)
          (rest _ ∙ ap (λ x. crc_feed_from c r 64 d 0 x) head))

module _ (c : Chip) where
  -- What passes the checks of `end`.
  record Checked (want : ℕ) (b : Board) : Type 0 where
    ident :
        identity_ok c b.mem
          (le32 (λ i. get_or b.ses.blk0 i 0) 0)
          (le32 (λ i. get_or b.ses.blk0 i 0) 4)
        ≡ true
    sum : held_crc c b ≡ want
    crc : id_crc b.mem ≡ want
    node : b.node ≢ unset → id_node b.mem ≡ b.node
    kind : b.node ≢ unset → id_kind b.mem ≡ b.kind

  end_checks-Checked : (want : ℕ) (b : Board) → (end_checks c want b).0 ≡ ok → Checked want b
  unfolding end_checks
  end_checks-Checked want b h = ground arith

  identity_ok-length :
      (m : Mem) (sp pc : ℕ)
      → identity_ok c m sp pc ≡ true
      → (id_length m % 4 ≡ 0) × (544 < id_length m)
  unfolding identity_ok
  identity_ok-length m sp pc h = ground arith

  -- What a successful `end` has done.
  pub record Committed (want : ℕ) (b b' : Board) : Type 0 where
    pub whole : b.ses.total ≤ b.ses.next * block_size
    pub checks : (end_checks c want (record b { ses = record (b.ses) { active = false } })).0 ≡ ok
    pub written : (flash_write c b.mem app_addr b.ses.blk0 block_size).done ≡ true
    pub mem : b'.mem ≡ (flash_write c b.mem app_addr b.ses.blk0 block_size).mem
    pub attempts : b'.attempts ≡ 0

  pub end_-Committed :
      (want : ℕ) (b : Board) {got : ℕ} {b' : Board}
      → end_ c want b ≡ (ok, got, b')
      → Committed want b b'
  unfolding end_
  end_-Committed want b h = ground arith

  -- The block written over a checked image makes it one that `app_valid` accepts.
  app_valid_of_written :
      (want : ℕ) (b : Board) (m' : Mem)
      → SameTail b.mem m'
      → ((i : ℕ) → i < block_size → rd8 m' (app_addr + i) ≡ get_or b.ses.blk0 i 0 % 256)
      → Checked want b
      → app_valid c m' ≡ true
  unfolding app_valid held_crc SameTail
  app_valid_of_written want b m' same wrote k =
      let blk0 = λ (i : ℕ). get_or b.ses.blk0 i 0 in
      let len = identity_ok-length b.mem (le32 blk0 0) (le32 blk0 4) k.ident in
      let sp : le32 m' app_addr ≡ le32 blk0 0 =
        le32_congr m' blk0 app_addr 0 (ap (λ x. rd8 m' x) (omega arith) ∙ wrote 0 (omega arith))
          (wrote 1 (omega arith)) (wrote 2 (omega arith)) (wrote 3 (omega arith)) in
      let pc : le32 m' (app_addr + 4) ≡ le32 blk0 4 =
        le32_congr m' blk0 (app_addr + 4) 4 (wrote 4 (omega arith)) (wrote 5 (omega arith))
          (wrote 6 (omega arith)) (wrote 7 (omega arith)) in
      let ident : identity_ok c m' (le32 m' app_addr) (le32 m' (app_addr + 4)) ≡ true =
        rw (sp, pc) (tail-identity_ok b.mem m' same c (le32 blk0 0) (le32 blk0 4) ∙ k.ident) in
      let crc : image_crc c m' ≡ id_crc m' =
        sym (image_crc_of_parts b.mem m' same c b.ses.blk0 wrote len.0 (omega arith))
        ∙ (k.sum ∙ (sym k.crc ∙ sym (tail-id_crc b.mem m' same))) in
      rw ident ((==_iff _ _).1 crc)

  -- If END answers OK, the image now in flash is one that `app_valid` accepts, its imageCrc is the
  -- host's CRC, and on a board with a NODE_ID its node and kind are the board's; every block of it
  -- had been taken and the crash-loop count is 0.
  pub end-app_valid :
      (want : ℕ) (b : Board) {got : ℕ} {b' : Board}
      → IsFlash c
      → end_ c want b ≡ (ok, got, b')
      → (app_valid c b'.mem ≡ true)
        × (id_crc b'.mem ≡ want)
        × ((b.node ≡ unset) ⊎ ((id_node b'.mem ≡ b.node) × (id_kind b'.mem ≡ b.kind)))
        × (b.ses.total ≤ b.ses.next * block_size)
        × (b'.attempts ≡ 0)
  unfolding SameTail
  end-app_valid want b {got} {b'} f h =
      let k = end_-Committed want b h in
      let b1 = record b { ses = record (b.ses) { active = false } } in
      let m' = (flash_write c b.mem app_addr b.ses.blk0 block_size).mem in
      let ck = end_checks-Checked want b1 k.checks in
      let same : SameTail b.mem m' =
        λ x p. flash_write_keeps c f b.mem app_addr b.ses.blk0 block_size x (inr p) in
      let wrote : (i : ℕ) → i < block_size → rd8 m' (app_addr + i) ≡ get_or b.ses.blk0 i 0 % 256 =
        λ i p. flash_write_reads c f b.mem app_addr b.ses.blk0 block_size i k.written refl p in
      rw k.mem (
        app_valid_of_written want b1 m' same wrote ck,
        tail-id_crc b.mem m' same ∙ ck.crc,
        elim (Bool-cases (b.node == unset)) [
          | inl e ↦ inl ((==_iff _ _).0 e)
          | inr e ↦ inr (
            tail8 b.mem m' same (identity + 16) (omega arith) ∙ ck.node (ground arith),
            tail8 b.mem m' same (identity + 17) (omega arith) ∙ ck.kind (ground arith),
          )
        ],
        k.whole,
        k.attempts,
      )
