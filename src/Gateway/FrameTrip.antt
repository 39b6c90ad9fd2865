-- ===== src/Gateway/FrameTrip.antt =====
-- A frame that the client builds (AxisCal.cpp) is handled by the inbound parser (SimGateway.cpp).
use open_skyhawk.Base.{
  ℕ, suc, ◌+◌, ◌*◌, ◌/◌, ◌%◌, ◌^◌, ◌≤◌, ◌<◌, ◌≡◌, refl, ap, ◌∙◌, Bool, true, false, not, List, [],
  ◌∷◌, ◌++◌, length, length-append, append_assoc, take, get_or, map, ltb, ◌==◌, if◌then◌else◌,
  arith,
}
use open_skyhawk.Boot.Session.{at16}
use open_skyhawk.Upload.Serial.{get_or-front, take_front}
use open_skyhawk.Gateway.AxisCal.{cal_crc16_from, cal_crc16, bytes16}
use open_skyhawk.Gateway.Frame.{
  cal_frame_magic, cal_envelope_bytes, cal_len_valid_for_type, payload_length, covered,
  cal_build_frame, cal_frame_crc_ok,
}
use open_skyhawk.Gateway.Inbound.{
  Fate, handled, Inbound, magic_byte, end_frame, later_byte, cal_inbound_byte, client_byte,
  client_bytes,
}

cal_crc16_from-bound : (bs : List ℕ) (c : ℕ) → c < 2 ^ 16 → cal_crc16_from c bs < 2 ^ 16
unfolding cal_crc16_from
cal_crc16_from-bound [] c l = l
cal_crc16_from-bound (b ∷ bs) c l = cal_crc16_from-bound bs _ (omega arith)

cal_crc16-bound : (bs : List ℕ) → cal_crc16 bs < 2 ^ 16
unfolding cal_crc16
cal_crc16-bound bs = cal_crc16_from-bound bs 0xFFFF (omega arith)

abbrev pub framed : ℕ → ℕ → List ℕ → List ℕ
framed t seq payload =
    let c = covered t seq payload in cal_frame_magic ++ (c ++ bytes16 (cal_crc16 c))

-- the places behind a list
get_or-behind : (xs ys : List ℕ) (i : ℕ) → get_or (xs ++ ys) (length xs + i) 0 ≡ get_or ys i 0
get_or-behind [] ys i = let here : 0 + i ≡ i = omega arith in rw here refl
get_or-behind (x ∷ xs) ys i =
    let next : suc (length xs) + i ≡ suc (length xs + i) = omega arith in
    rw next (get_or-behind xs ys i)

at16-behind : (xs : List ℕ) (v : ℕ) → v < 2 ^ 16 → at16 (xs ++ bytes16 v) (length xs) ≡ v
at16-behind xs v l =
    let here : length xs ≡ length xs + 0 = omega arith in
    let low : get_or (xs ++ bytes16 v) (length xs) 0 ≡ v % 256 =
      ap (λ i. get_or (xs ++ bytes16 v) i 0) here ∙ get_or-behind xs (bytes16 v) 0 in
    let high = get_or-behind xs (bytes16 v) 1 in rw (low, high) (omega arith)

framed-crc_ok :
    (t seq : ℕ) (payload : List ℕ)
    → length payload ≤ 260
    → cal_frame_crc_ok (framed t seq payload) ≡ true
unfolding cal_frame_crc_ok
framed-crc_ok t seq payload l =
    let c = covered t seq payload in
    let len : at16 (framed t seq payload) 6 ≡ length payload = omega arith in
    let check = cal_crc16 c in
    let body = cal_frame_magic ++ c in
    let place : 8 + length payload ≡ length body = omega arith in
    let count : 4 + length payload ≡ length c = omega arith in
    let got : at16 (framed t seq payload) (8 + length payload) ≡ check =
      ap (at16 (framed t seq payload)) place ∙ at16-behind body check (cal_crc16-bound c) in
    let front : take (4 + length payload) (c ++ bytes16 check) ≡ c =
      ap (λ n. take n (c ++ bytes16 check)) count ∙ take_front c (bytes16 check) in
    let sum : length (payload ++ bytes16 check) ≡ length payload + 2 =
      length-append payload (bytes16 check) in
    let long : not (ltb (length (framed t seq payload)) 10) ≡ true = ground (arith, sum) in
    let whole : ((10 + length payload) % 2 ^ 16 == length (framed t seq payload)) ≡ true =
      ground (arith, sum) in
    let same : (check == check) ≡ true = ground arith in
    rw (len, cal_frame_crc_ok) (rw (long, whole, got, front) same)

at16-front : (h ys : List ℕ) → 8 ≤ length h → at16 (h ++ ys) 6 ≡ at16 h 6
at16-front h ys l = rw (get_or-front 6 h ys (omega arith), get_or-front 7 h ys (omega arith)) refl

module _ (owns : Bool) (fs : List Fate) where
  abbrev holding : List ℕ → Inbound
  holding h = record { held = h; fates = fs }

  -- A byte behind the header is held, or ends the candidate.
  client_byte-body :
      (b : ℕ) (h : List ℕ)
      → 8 ≤ length h
      → client_byte owns b (holding h) ≡ (
          if ltb (length h + 1) ((cal_envelope_bytes + at16 h 6) % 2 ^ 16)
          then holding (h ++ b ∷ [])
          else end_frame owns (holding (h ++ b ∷ [])))
  unfolding client_byte cal_inbound_byte later_byte
  client_byte-body b h l =
      let past : ltb (length h) 4 ≡ false = ground arith in
      let grown : length (h ++ b ∷ []) ≡ length h + 1 = length-append h (b ∷ []) in
      let no_head : (length h + 1 == 8) ≡ false = ground arith in
      let no_start : ltb (length h + 1) 8 ≡ false = ground arith in
      rw past (rw grown (rw (no_head, no_start, at16-front h (b ∷ []) l) refl))

  each : List ℕ → List (ℕ × Bool)
  each bs = map (λ b. (b, owns)) bs

  client_bytes-body :
      (b : ℕ) (bs h : List ℕ)
      → 8 ≤ length h
      → (cal_envelope_bytes + at16 h 6) % 2 ^ 16 ≡ length h + length (b ∷ bs)
      → client_bytes (each (b ∷ bs)) (holding h) ≡ end_frame owns (holding (h ++ b ∷ bs))
  unfolding client_bytes each
  client_bytes-body b [] h l e =
      let last : ltb (length h + 1) ((cal_envelope_bytes + at16 h 6) % 2 ^ 16) ≡ false =
        ground (arith, e) in
      client_byte-body b h l ∙ rw last refl
  client_bytes-body b (d ∷ bs) h l e =
      let more : ltb (length h + 1) ((cal_envelope_bytes + at16 h 6) % 2 ^ 16) ≡ true =
        ground (arith, e) in
      let grown : length (h ++ b ∷ []) ≡ length h + 1 = length-append h (b ∷ []) in
      let same = at16-front h (b ∷ []) l in
      let first : client_byte owns b (holding h) ≡ holding (h ++ b ∷ []) =
        client_byte-body b h l ∙ rw more refl in
      ap (client_bytes (each (d ∷ bs))) first
      ∙ client_bytes-body d bs (h ++ b ∷ []) (omega (arith, grown))
          (rw (same, grown) (e ∙ omega arith))
      ∙ ap (λ r. end_frame owns (holding r)) (append_assoc h (b ∷ []) (d ∷ bs))

  client_bytes-rest :
      (rest h : List ℕ)
      → 8 ≤ length h
      → 1 ≤ length rest
      → (cal_envelope_bytes + at16 h 6) % 2 ^ 16 ≡ length h + length rest
      → client_bytes (each rest) (holding h) ≡ end_frame owns (holding (h ++ rest))
  client_bytes-rest [] h l n e = ground arith
  client_bytes-rest (b ∷ bs) h l n e = client_bytes-body b bs h l e

  -- The magic and the header, of a type and a length that fit, are held.
  client_bytes-head :
      (t seq : ℕ) (payload rest : List ℕ)
      → t < 256
      → length payload ≤ 260
      → cal_len_valid_for_type t (length payload) ≡ true
      → client_bytes
          (each (cal_frame_magic ++ t ∷ seq ∷ (bytes16 (length payload) ++ rest)))
          (holding [])
        ≡ client_bytes (each rest) (holding (cal_frame_magic ++ t ∷ seq ∷ bytes16 (length payload)))
  unfolding client_bytes client_byte cal_inbound_byte magic_byte later_byte each
  client_bytes-head t seq payload rest small short valid =
      let type : t % 256 ≡ t = omega arith in
      let len : length payload % 256 % 256 + 256 * (length payload / 256 % 256 % 256)
          ≡ length payload =
        omega arith in
      rw type (rw len (rw valid refl))

valid_length : (t n : ℕ) → cal_len_valid_for_type t n ≡ true → n ≤ 260
unfolding cal_len_valid_for_type payload_length
valid_length t n e = ground (arith, e)

-- A frame that calBuildFrame() builds, of a type below 256 and a payload that fits the type and the buffer, is
-- handled as it is by the inbound parser, if that holds nothing; then it holds nothing again.
pub client_bytes-cal_build_frame :
    (out_cap t seq : ℕ) (payload : List ℕ) (owns : Bool) (fs : List Fate)
    → t < 256
    → cal_len_valid_for_type t (length payload) ≡ true
    → 10 + length payload ≤ out_cap
    → (let f = cal_build_frame out_cap t seq payload in
        client_bytes (map (λ b. (b, owns)) f) (record { held = []; fates = fs })
        ≡ record { held = []; fates = fs ++ handled f ∷ [] })
unfolding cal_build_frame each end_frame
client_bytes-cal_build_frame out_cap t seq payload owns fs small valid fits =
    let short = valid_length t (length payload) valid in
    let c = covered t seq payload in
    let rest = payload ++ bytes16 (cal_crc16 c) in
    let count = length-append payload (bytes16 (cal_crc16 c)) in
    let h = cal_frame_magic ++ t ∷ seq ∷ bytes16 (length payload) in
    let says : (cal_envelope_bytes + at16 h 6) % 2 ^ 16 ≡ length h + length rest =
      omega (arith, count) in
    let room : ltb out_cap ((10 + length payload) % 2 ^ 16) ≡ false = ground arith in
    let good = framed-crc_ok t seq payload short in
    rw (valid, room)
      (client_bytes-head owns fs t seq payload rest small short valid
        ∙ client_bytes-rest owns fs rest h (omega arith) (omega (arith, count)) says
        ∙ rw good refl)
