-- ===== src/Gateway/LineTrip.antt =====
-- A line of the bridge (SimGateway.cpp) goes to the uploader, and to the host unless that keeps it.
use open_skyhawk.Base.{
  ℕ, ◌+◌, ◌-◌, ◌≤◌, ◌<◌, ◌≡◌, refl, sym, ap, ◌∙◌, Bool, true, false, ◌&&◌, not, List, [], ◌∷◌, ◌++◌,
  length, length-append, append_assoc, append-nil, take, ◌==◌, ltb, if◌then◌else◌, arith,
}
use open_skyhawk.Upload.Serial.{take_front}
use open_skyhawk.Upload.Lines.{on_bridge_line}
use open_skyhawk.Gateway.Uplink.{
  idle, Controls, cdc, Uplink, bump, is_noise, end_line, relay_byte, process_in, process_byte,
  process_bytes,
}

-- text that a line may have
unfoldable pub all_printable : List ℕ → Bool
all_printable [] = true
all_printable (b ∷ bs) = not (is_noise b) && all_printable bs

-- between lines, with `s` received of one
abbrev pub receiving : List ℕ → Uplink → Uplink
receiving s x = record x { state = idle; line = s; corrupt = false; overlong = false }

module _ (w : Controls) (now room : ℕ) where
  process_byte-text :
      (b : ℕ) (l : List ℕ) (x : Uplink)
      → is_noise b ≡ false
      → length l < 128
      → process_byte w now room b (receiving l x) ≡ receiving (l ++ b ∷ []) x
  unfolding process_byte process_in relay_byte
  process_byte-text b l x h k =
      let no_aa : (b == 0xAA) ≡ false = ground (arith, h) in
      let no_end : (b == 0x0A) ≡ false = ground (arith, h) in
      let room_left : ltb (length l) 128 ≡ true = ground arith in
      let keep : (length l == 0 && (not (b == 0x0A) && is_noise b)) ≡ false = rw h (ground arith) in
      rw (no_aa, process_in) (rw keep (rw no_end (rw h (rw room_left refl))))

  process_bytes-text :
      (s l : List ℕ) (x : Uplink)
      → all_printable s ≡ true
      → length l + length s ≤ 128
      → process_bytes w now room s (receiving l x) ≡ receiving (l ++ s) x
  unfolding process_bytes all_printable
  process_bytes-text [] l x h k = ap (λ t. receiving t x) (sym (append-nil l))
  process_bytes-text (b ∷ s) l x h k =
      let grown = length-append l (b ∷ []) in
      let clear : is_noise b ≡ false = ground (arith, h) in
      let others : all_printable s ≡ true = ground (arith, h) in
      ap (process_bytes w now room s) (process_byte-text b l x clear (omega arith))
      ∙ process_bytes-text s (l ++ b ∷ []) x others (omega (arith, grown))
      ∙ ap (λ t. receiving t x) (append_assoc l (b ∷ []) s)

  pub process_bytes-append :
      (s t : List ℕ) (x : Uplink)
      → process_bytes w now room (s ++ t) x
        ≡ process_bytes w now room t (process_bytes w now room s x)
  unfolding process_bytes
  process_bytes-append [] t x = refl
  process_bytes-append (b ∷ s) t x = process_bytes-append s t (process_byte w now room b x)

  -- what becomes of a whole line
  unfoldable pub relay_line : List ℕ → Uplink → Uplink
  relay_line s x =
      let (taken, u) = on_bridge_line s now x.uploader in
      let y = record x { uploader = u } in
      if taken
      then y
      else if ltb room (length s + 1)
      then record y { lines_dropped = bump x.lines_dropped }
      else record y { out = x.out ++ cdc (s ++ 0x0A ∷ []) ∷ [] }

  process_byte-end :
      (s : List ℕ) (x : Uplink)
      → length s ≤ 127
      → process_byte w now room 0x0A (receiving s x) ≡ receiving [] (relay_line s x)
  unfolding process_byte process_in relay_byte end_line relay_line
  process_byte-end s x k =
      let grown = length-append s (0x0A ∷ []) in
      let room_left : ltb (length s) 128 ≡ true = ground arith in
      let line : length (s ++ 0x0A ∷ []) ≡ length s + 1 = omega (arith, grown) in
      let front : take (length (s ++ 0x0A ∷ []) - 1) (s ++ 0x0A ∷ []) ≡ s =
        ap (λ n. take n (s ++ 0x0A ∷ [])) (omega (arith, line)) ∙ take_front s (0x0A ∷ []) in
      rw room_left (rw front (rw line (ground arith)))

  pub process_bytes-relay_line :
      (s : List ℕ) (x : Uplink)
      → all_printable s ≡ true
      → length s ≤ 127
      → process_bytes w now room (s ++ 0x0A ∷ []) (receiving [] x) ≡ receiving [] (relay_line s x)
  unfolding process_bytes
  process_bytes-relay_line s x h k =
      process_bytes-append s (0x0A ∷ []) (receiving [] x)
      ∙ ap (process_byte w now room 0x0A) (process_bytes-text s [] x h (omega arith))
      ∙ process_byte-end s x k
