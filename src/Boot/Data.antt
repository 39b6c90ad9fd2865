-- ===== src/Boot/Data.antt =====
-- DATA frames (main.cpp): the bytes land inside the block's buffer, where the frame says.
use open_skyhawk.Base.{
  ℕ, zero, suc, ◌+◌, ◌-◌, ◌*◌, ◌^◌, ◌≤◌, ◌<◌, ◌≡◌, refl, ◌∙◌, arith, ◌==◌, get_or, set, ltb, List,
  length, length-set, get_or-set, bit_or, ◌&&◌, if◌then◌else◌, leb,
}
use open_skyhawk.Boot.Protocol.{block_size, data_bytes, data_frames}
use open_skyhawk.Boot.Cmd
use open_skyhawk.Boot.Flash.{Chip}
use open_skyhawk.Boot.Session.{at, copy_in, Board, block}
use open_skyhawk.Boot.Handle.{on_data}

pub length-copy_in : (n j to : ℕ) (m buf : List ℕ) → length (copy_in n j to m buf) ≡ length buf
unfolding copy_in
length-copy_in zero j to m buf = refl
length-copy_in (suc n) j to m buf =
    length-copy_in n (j + 1) to m (set buf (to + j) (at m (j + 1))) ∙ length-set buf (to + j) _

pub get_or-copy_in :
    (n j to : ℕ) (m buf : List ℕ) (x : ℕ)
    → to + j + n ≤ length buf
    → get_or (copy_in n j to m buf) x 0 ≡ (
        if leb (to + j) x
        then if ltb x (to + j + n) then at m (x - to + 1) else get_or buf x 0
        else get_or buf x 0)
unfolding copy_in
get_or-copy_in zero j to m buf x h = ground arith
get_or-copy_in (suc n) j to m buf x h = ground (
  arith,
  get_or-copy_in n (j + 1) to m (set buf (to + j) (at m (j + 1))) x,
  get_or-set buf (to + j) x (at m (j + 1)) 0,
  length-set buf (to + j) (at m (j + 1)),
)

module _ (c : Chip) where
  block-buf : (b : Board) → (block c b).1.ses.buf ≡ b.ses.buf
  unfolding block
  block-buf b = ground arith

  block-have : (b : Board) → (block c b).1.ses.have ≡ b.ses.have
  unfolding block
  block-have b = ground arith

  -- A DATA_k frame of n bytes, the code included, puts its n - 1 bytes at 7 k on, cut off at the end
  -- of the 64-byte buffer, and changes no other byte of the buffer nor its length. The count of
  -- frames is marked, and starts again once all ten have come.
  pub on_data_lands :
      (m : List ℕ) (b : Board) (k x : ℕ)
      → length b.ses.buf ≡ block_size
      → 0 < length m
      → at m 0 ≡ Cmd.data_0 + k
      → k < data_frames
      → (length (on_data c m b).ses.buf ≡ block_size)
        × (get_or (on_data c m b).ses.buf x 0 ≡ (
            if leb (data_bytes * k) x
              && (ltb x (data_bytes * k + (length m - 1)) && ltb x block_size)
            then at m (x - data_bytes * k + 1)
            else get_or b.ses.buf x 0))
        × ((on_data c m b).ses.have
            ≡ (if bit_or b.ses.have (2 ^ k) == 1023 then 0 else bit_or b.ses.have (2 ^ k)))
  unfolding on_data
  on_data_lands m b k x len some_byte cmd small =
      let j = at m 0 - Cmd.data_0 in
      let to = j * data_bytes in
      let n = length m - 1 in
      let cnt = if ltb n (block_size - to) then n else block_size - to in
      let buf = copy_in cnt 0 to m b.ses.buf in
      let b0 = record b { ses = record (b.ses) { buf = buf; have = 0 } } in
      let jk : j ≡ k = omega arith in
      let same : (on_data c m b).ses.buf ≡ buf = ground (arith, block-buf b0) in
      (
        rw same (length-copy_in cnt 0 to m b.ses.buf ∙ len),
        rw same (ground (arith, get_or-copy_in cnt 0 to m b.ses.buf x, jk)),
        rw (← jk) (ground (arith, block-have b0)),
      )
