-- ===== src/Boot/Stream.antt =====
-- The stream of blocks as a host sees it: go-back-N over `block`, and what END finds (main.cpp).
use open_skyhawk.Base.{◌⊎◌, ℕ, ◌+◌, ◌-◌, ◌*◌, ◌%◌, ◌^◌, ◌≤◌, ◌<◌, ◌≡◌, arith, false, get_or}
use open_skyhawk.Boot.Protocol.{ok, app_addr, block_size}
use open_skyhawk.Boot.Flash.{rd8, Chip, IsFlash}
use open_skyhawk.Boot.Flash.Write.{flash_write_keeps, flash_write_reads}
use open_skyhawk.Boot.Session.{Board, is_ok, block, end_}
use open_skyhawk.Boot.Commit.{end_-Committed}

-- The board holds the first `next` blocks of the image: block 0 in RAM, the others in flash.
pub record Stored (img : ℕ → ℕ) (b : Board) : Type 0 where
  pub head : (i : ℕ) → 0 < b.ses.next → i < block_size → get_or b.ses.blk0 i 0 % 256 ≡ img i
  pub body :
      (x : ℕ) → block_size ≤ x → x < block_size * b.ses.next → rd8 b.mem (app_addr + x) ≡ img x

-- The buffer holds block `index` of the image.
abbrev pub Received : (ℕ → ℕ) → Board → Type 0
Received img b =
    (i : ℕ) → i < block_size → get_or b.ses.buf i 0 % 256 ≡ img (block_size * b.ses.index + i)

module _ (c : Chip) where
  -- An OK says that the block named is among those held, and `next` moves by at most one block.
  block_progress :
      (b : Board)
      → b.ses.next < 2 ^ 16
      → (b.ses.next ≤ (block c b).1.ses.next)
        × ((block c b).1.ses.next ≤ b.ses.next + 1)
        × ((is_ok (block c b).0 ≡ false) ⊎ (b.ses.index < (block c b).1.ses.next))
  unfolding block
  block_progress b h = ground arith

  module _ (f : IsFlash c) (img : ℕ → ℕ) where
    block-head :
        (b : Board) (i : ℕ)
        → b.ses.next < 2 ^ 16
        → Stored img b
        → Received img b
        → 0 < (block c b).1.ses.next
        → i < block_size
        → get_or (block c b).1.ses.blk0 i 0 % 256 ≡ img i
    unfolding block
    block-head b i n s r p q = ground (arith, s.head i, r i)

    block-body :
        (b : Board) (x : ℕ)
        → b.ses.next < 2 ^ 16
        → Stored img b
        → Received img b
        → block_size ≤ x
        → x < block_size * (block c b).1.ses.next
        → rd8 (block c b).1.mem (app_addr + x) ≡ img x
    unfolding block
    block-body b x n s r p q =
        let addr = app_addr + b.ses.index * block_size in
        ground (
          arith,
          s.body x,
          r (x - block_size * b.ses.index),
          flash_write_keeps c f b.mem addr b.ses.buf block_size (app_addr + x),
          flash_write_reads c f b.mem addr b.ses.buf block_size (x - block_size * b.ses.index),
        )

    -- Whatever `block` answers to a block of the image, the board still holds the image's first
    -- `next` blocks. `next` never falls and moves by one at most, and after an OK the block named is
    -- among those held, so a block sent again after a lost ack does no harm.
    pub block_stores :
        (b : Board)
        → b.ses.next < 2 ^ 16
        → Stored img b
        → Received img b
        → Stored img (block c b).1
          × (b.ses.next ≤ (block c b).1.ses.next)
          × ((block c b).1.ses.next ≤ b.ses.next + 1)
          × ((is_ok (block c b).0 ≡ false) ⊎ (b.ses.index < (block c b).1.ses.next))
    block_stores b n s r =
        let (up, one, took) = block_progress b n in
        (
          record {
            head = λ i p q. block-head b i n s r p q;
            body = λ x p q. block-body b x n s r p q;
          },
          up,
          one,
          took,
        )

    -- If END answers OK over a session that holds the image's blocks, the flash holds the image, every
    -- byte that BEGIN announced.
    pub end_stores :
        (want : ℕ) (b : Board) {got : ℕ} {b' : Board}
        → Stored img b
        → 0 < b.ses.total
        → end_ c want b ≡ (ok, got, b')
        → (x : ℕ) → x < b.ses.total
        → rd8 b'.mem (app_addr + x) ≡ img x
    end_stores want b s t h x p =
        let k = end_-Committed c want b h in
        ground (
          arith,
          k.whole,
          k.mem,
          k.written,
          s.head x,
          s.body x,
          flash_write_keeps c f b.mem app_addr b.ses.blk0 block_size (app_addr + x),
          flash_write_reads c f b.mem app_addr b.ses.blk0 block_size x,
        )
