-- ===== src/Upload/Poll.antt =====
-- The bridge's bootloader polls what the uploader writes on the UART (main.cpp, Uploader.cpp).
use open_skyhawk.Base.{
  ℕ, zero, suc, ◌+◌, ◌-◌, ◌%◌, ◌^◌, ◌≤◌, ◌<◌, ◌≡◌, ◌≢◌, refl, sym, ap, ap₂, ◌∙◌, true, false, List,
  [], ◌∷◌, ◌++◌, ◌⊎◌, inl, inr, append_assoc, append-nil, length, length-append, map, Option, none,
  some, arith,
}
use open_skyhawk.Boot.Serial.{
  Ring, ring_size, ring_full, uart_byte, Uart, keep, read_byte, poll_from, uart_poll, next_frame,
  ubuf_size,
}
use open_skyhawk.Boot.Queue.{IsRing, queued, push-IsRing, push-queued, has_room, pop-queued}
use open_skyhawk.Upload.Records.{concat, concat_one, length-zero}
use open_skyhawk.Upload.Wire.{
  CanFrame, Wire, begin_frames, add_serial_frame, add_frame, add_frames, end_frames, send_frames,
  serial_bytes,
}
use open_skyhawk.Upload.Serial.{taken, reads, AllShort, reads-frames}

-- `n` bytes that DMA has put into the buffer, from `i` on
unfoldable pub held : ℕ → ℕ → (ℕ → ℕ) → List ℕ
held zero i b = []
held (suc n) i b = b i ∷ held n ((i + 1) % ubuf_size) b

abbrev pub unread : ℕ → Uart → ℕ
unread fin u = (fin + ubuf_size - u.upos) % ubuf_size

keep-queued :
    (got : Option (List ℕ)) (r : Ring) (fs : List (List ℕ))
    → IsRing r
    → ring_full r ≡ false
    → IsRing (keep got r) × (queued (keep got r) ++ fs ≡ queued r ++ taken got fs)
keep-queued none r fs h room = (h, refl)
keep-queued (some f) r fs h room =
    let waits = push-queued f r h room in
    (push-IsRing f r h, ap (λ t. t ++ fs) waits ∙ append_assoc (queued r) (f ∷ []) fs)

-- The loop reads all the bytes that wait, if the ring has room for the frames
-- among them and one more.
poll_from-reads :
    (n k cmd_id fin : ℕ) (u : Uart)
    → n ≤ k
    → n ≡ unread fin u
    → fin < ubuf_size
    → u.upos < ubuf_size
    → IsRing u.ring
    → length (queued u.ring) + length (reads cmd_id (held n u.upos u.ubuf) u.uf).0 + 1 < ring_size
    → (queued (poll_from k cmd_id fin u).ring
        ≡ queued u.ring ++ (reads cmd_id (held n u.upos u.ubuf) u.uf).0)
      × ((poll_from k cmd_id fin u).uf ≡ (reads cmd_id (held n u.upos u.ubuf) u.uf).1)
      × ((poll_from k cmd_id fin u).upos ≡ fin)
      × IsRing (poll_from k cmd_id fin u).ring
unfolding poll_from reads held read_byte
poll_from-reads zero zero cmd_id fin u l e f p r room =
    (sym (append-nil (queued u.ring)), refl, omega arith, r)
poll_from-reads zero (suc k) cmd_id fin u l e f p r room =
    let there : u.upos ≡ fin = omega arith in ground (arith, there, r, append-nil (queued u.ring))
poll_from-reads (suc n) zero cmd_id fin u l e f p r room = absurd (omega arith)
poll_from-reads (suc n) (suc k) cmd_id fin u l e f p r room =
    let (got, uf) = uart_byte cmd_id (u.ubuf u.upos) u.uf in
    let v = read_byte cmd_id u in
    let later = (reads cmd_id (held n v.upos u.ubuf) uf).0 in
    let free = has_room u.ring r (omega (arith, room)) in
    let apart : u.upos ≢ fin = omega (arith, e) in
    let (ring, queue) = keep-queued got u.ring later r free in
    let sizes = ap length queue in
    let (q, b, x, y) =
      poll_from-reads n k cmd_id fin v (omega arith) (omega (arith, e)) f (omega arith) ring (
        omega (
          arith,
          room,
          sizes,
          length-append (queued v.ring) later,
          length-append (queued u.ring) (taken got later),
        )) in
    ground (arith, apart, free, q, b, x, y, queue)

abbrev pub serial_frame : ℕ → List ℕ → CanFrame
serial_frame id d = record { id = id; bytes = d }

add_serial_frame-bytes :
    (id : ℕ) (d : List ℕ) (w : Wire)
    → (let v = add_serial_frame id d w in concat v.uart ++ v.out)
      ≡ (concat w.uart ++ w.out) ++ serial_bytes id d
unfolding add_serial_frame
add_serial_frame-bytes id d w =
    ground (arith, concat_one w.out w.uart, append_assoc (concat w.uart) w.out (serial_bytes id d))

-- What waits to be written is written before anything else.
add_serial-bytes :
    (id : ℕ) (ds : List (List ℕ)) (w : Wire)
    → concat (end_frames true (add_frames true (map (serial_frame id) ds) w)).uart
      ≡ (concat w.uart ++ w.out) ++ concat (map (serial_bytes id) ds)
unfolding add_frames add_frame add_serial_frame end_frames concat
add_serial-bytes id [] w = ground (
  arith,
  concat_one w.out w.uart,
  length-zero w.out,
  append-nil (concat w.uart),
  append-nil (concat w.uart ++ w.out),
)
add_serial-bytes id (d ∷ ds) w =
    let v = add_frame true (serial_frame id d) w in
    let rest = concat (map (serial_bytes id) ds) in
    add_serial-bytes id ds v
    ∙ (ap (λ t. t ++ rest) (add_serial_frame-bytes id d w)
        ∙ append_assoc (concat w.uart ++ w.out) (serial_bytes id d) rest)

-- A poll that finds what the uploader writes for frames to the bridge's bootloader puts them into its
-- ring, each once and in order behind those that waited, if the ring has room for them and one more.
uart_poll-frames :
    (id left : ℕ) (ds : List (List ℕ)) (w : Wire) (u : Uart)
    → id < 2 ^ 16
    → AllShort ds
    → w.uart ≡ []
    → u.upos < ubuf_size
    → u.uf ≡ []
    → IsRing u.ring
    → held (unread ((ubuf_size - left) % ubuf_size) u) u.upos u.ubuf
      ≡ concat (send_frames true (map (serial_frame id) ds) w).uart
    → length (queued u.ring) + length ds + 1 < ring_size
    → (queued (uart_poll id left u).ring ≡ queued u.ring ++ ds) × IsRing (uart_poll id left u).ring
unfolding uart_poll send_frames begin_frames concat
uart_poll-frames id left ds w u fits short quiet pos fresh r bytes room =
    let fin = (ubuf_size - left) % ubuf_size in
    let n = unread fin u in
    let sent = add_serial-bytes id ds (begin_frames true w) in
    let all = reads-frames id ds fits short in
    let whole : held n u.upos u.ubuf ≡ concat (map (serial_bytes id) ds) =
      bytes ∙ (sent ∙ ap (λ t. (concat t ++ []) ++ concat (map (serial_bytes id) ds)) quiet) in
    let read : reads id (held n u.upos u.ubuf) u.uf ≡ (ds, []) =
      ap₂ (λ x y. reads id x y) whole fresh ∙ all in
    let polled =
      poll_from-reads n ubuf_size id fin u (omega arith) refl (omega arith) pos r
        (omega (arith, room, ap (λ t. length t.0) read)) in
    (polled.0 ∙ ap (λ t. queued u.ring ++ t.0) read, polled.3)

-- A call of next_frame() that finds what the uploader writes for frames to the bridge's bootloader gives
-- the first of the frames that waited and, behind them, these, and keeps the others in order; there is
-- none only if there are no frames at all. The bytes are those between the last poll and DMA's place, no
-- frame is half received, and the ring has room for the frames and one more.
pub next_frame-frames :
    (id left : ℕ) (ds : List (List ℕ)) (w : Wire) (u : Uart)
    → id < 2 ^ 16
    → AllShort ds
    → w.uart ≡ []
    → u.upos < ubuf_size
    → u.uf ≡ []
    → IsRing u.ring
    → held (unread ((ubuf_size - left) % ubuf_size) u) u.upos u.ubuf
      ≡ concat (send_frames true (map (serial_frame id) ds) w).uart
    → length (queued u.ring) + length ds + 1 < ring_size
    → ((queued u.ring ++ ds ≡ []) × ((next_frame id left u).0 ≡ none))
      ⊎ ((f : List ℕ) × ((next_frame id left u).0 ≡ some f)
          × (queued u.ring ++ ds ≡ f ∷ queued (next_frame id left u).1.ring))
unfolding next_frame
next_frame-frames id left ds w u fits short quiet pos fresh r bytes room =
    let (all, ring) = uart_poll-frames id left ds w u fits short quiet pos fresh r bytes room in
    elim (pop-queued (uart_poll id left u).ring ring) [
      | inl (empty, e) ↦ inl (sym all ∙ empty, e)
      | inr (f, e, rest) ↦ inr (f, e, sym all ∙ rest)
    ]
