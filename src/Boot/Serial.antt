-- ===== src/Boot/Serial.antt =====
-- The bridge's transport (main.cpp): frames on USART2, and the ring of frames that waits for the loop.
use open_skyhawk.Base.{
  ℕ, zero, suc, ◌+◌, ◌-◌, ◌*◌, ◌/◌, ◌%◌, ◌^◌, Bool, not, ◌&&◌, ◌||◌, List, [], ◌∷◌, ◌++◌, length,
  get_or, drop, take, Option, none, some, ◌==◌, ltb, if◌then◌else◌,
}

-- Boot::SERIAL_FRAME_START, RING and `sizeof g_ubuf`
abbrev pub frame_start : ℕ
frame_start = 0xAA

abbrev pub ring_size : ℕ
ring_size = 4 * (10 + 1) + 4

abbrev pub ubuf_size : ℕ
ubuf_size = 256

-- `g_ring`, each slot the bytes of its RxFrame, with `g_head` and `g_tail`
pub record Ring : Type 0 where
  pub slot : ℕ → List ℕ
  pub head : ℕ
  pub tail : ℕ

unfoldable pub ring_full : Ring → Bool
ring_full r = (r.head + 1) % 256 % ring_size == r.tail

-- a frame put at the head
unfoldable pub push : List ℕ → Ring → Ring
push f r = record r {
  slot = λ i. if i == r.head then f else r.slot i;
  head = (r.head + 1) % 256 % ring_size;
}

-- the oldest frame, if there is one: `next_frame` after its poll
unfoldable pub pop : Ring → Option (List ℕ) × Ring
pop r =
    if r.tail == r.head
    then (none, r)
    else (some (r.slot r.tail), record r { tail = (r.tail + 1) % 256 % ring_size })

-- the sum of bytes, mod 256
unfoldable pub sum8 : ℕ → List ℕ → ℕ
sum8 s [] = s
sum8 s (x ∷ xs) = sum8 ((s + x) % 256) xs

-- What `uart_poll` does with a byte: the bytes of `g_uf` so far, and the data of a whole frame whose sum
-- is right and that is for this board.
unfoldable pub uart_byte : ℕ → ℕ → List ℕ → Option (List ℕ) × List ℕ
uart_byte cmd_id c uf =
    let f = uf ++ c ∷ [] in
    let n = get_or f 3 0 in
    let id = get_or f 1 0 + 2 ^ 8 * get_or f 2 0 in
    if length uf == 0 && not (c == frame_start)
    then (none, uf)
    else if ltb (length f) 4
    then (none, f)
    else if ltb 8 n
    then (none, [])
    else if ltb (length f) (5 + n)
    then (none, f)
    else (
      (if sum8 0 (take (3 + n) (drop 1 f)) == get_or f (4 + n) 0 && id == cmd_id
          then some (take n (drop 4 f))
          else none),
      [],
    )

-- The buffer that DMA fills, `g_upos`, the frame being received and the ring.
pub record Uart : Type 0 where
  pub ubuf : ℕ → ℕ
  pub upos : ℕ
  pub uf : List ℕ
  pub ring : Ring

-- a whole frame goes into the ring
abbrev pub keep : Option (List ℕ) → Ring → Ring
keep none r = r
keep (some f) r = push f r

-- a turn of the loop of `uart_poll`
unfoldable pub read_byte : ℕ → Uart → Uart
read_byte cmd_id u =
    let (got, uf) = uart_byte cmd_id (u.ubuf u.upos) u.uf in
    record u { upos = (u.upos + 1) % ubuf_size; uf = uf; ring = keep got u.ring }

-- the loop, up to `fin`, with `k` turns to go
unfoldable pub poll_from : ℕ → ℕ → ℕ → Uart → Uart
poll_from zero cmd_id fin u = u
poll_from (suc k) cmd_id fin u =
    let rest = poll_from k cmd_id fin (read_byte cmd_id u) in
    if u.upos == fin || ring_full u.ring then u else rest

-- `uart_poll` with CNDTR at `left`
unfoldable pub uart_poll : ℕ → ℕ → Uart → Uart
unfolding poll_from
uart_poll cmd_id left u = poll_from ubuf_size cmd_id ((ubuf_size - left) % ubuf_size) u

-- `next_frame` of the bridge build
unfoldable pub next_frame : ℕ → ℕ → Uart → Option (List ℕ) × Uart
next_frame cmd_id left u =
    let v = uart_poll cmd_id left u in let (f, r) = pop v.ring in (f, record v { ring = r })

-- the bytes of `uart_send` from the identifier `rsp_id`
unfoldable pub uart_send : ℕ → List ℕ → List ℕ
uart_send rsp_id d =
    let lo = rsp_id % 256 in
    let hi = rsp_id / 256 % 256 in
    let len = length d in frame_start ∷ lo ∷ hi ∷ len ∷ (d ++ sum8 ((lo + hi + len) % 256) d ∷ [])
