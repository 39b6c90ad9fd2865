-- ===== src/Gateway/Frame.antt =====
-- The frames between the client and the Gateway (AxisCal.cpp).
use open_skyhawk.Base.{
  ℕ, ◌+◌, ◌%◌, ◌^◌, Bool, false, ◌&&◌, ◌||◌, not, List, [], ◌∷◌, ◌++◌, length, take, drop, Option,
  none, some, ◌==◌, ltb, if◌then◌else◌,
}
use open_skyhawk.Boot.Session.{at16}
use open_skyhawk.Upload.Kind
use open_skyhawk.Gateway.CalType
use open_skyhawk.Gateway.AxisCal.{cal_crc16, bytes16}

-- CAL_DIAG_BYTES, CAL_ENVELOPE_BYTES and CAL_FRAME_MAGIC
abbrev pub cal_diag_bytes : ℕ
cal_diag_bytes = 64

abbrev pub cal_envelope_bytes : ℕ
cal_envelope_bytes = 10

abbrev pub cal_frame_magic : List ℕ
cal_frame_magic = 0xAA ∷ 0x53 ∷ 0x4B ∷ 0x43 ∷ []

-- the length of a type's payload; a type that is unknown has none
unfoldable pub payload_length : ℕ → Option ℕ
payload_length t =
    if t == CalType.hello
      || (t == CalType.get_cal
          || (t == CalType.session_close || (t == CalType.keepalive || t == CalType.get_diag)))
    then some 0
    else if t == CalType.session_open
        || (t == CalType.stream_select || (t == CalType.reset || t == CalType.ack))
    then some 1
    else if t == CalType.nack
    then some 3
    else if t == CalType.raw || t == CalType.session_ack
    then some 5
    else if t == CalType.hello_ack
    then some 6
    else if t == CalType.commit
    then some 9
    else if t == CalType.cal_data
    then some 82
    else if t == CalType.diag
    then some cal_diag_bytes
    else if t == Kind.info || (t == Kind.upl_end || t == Kind.abort)
    then some 0
    else if t == Kind.flash
    then some 2
    else if t == Kind.upl_begin || (t == Kind.status || t == Kind.result)
    then some 8
    else if t == Kind.info_ack
    then some 16
    else if t == Kind.chunk
    then some 260
    else none

abbrev is_length : Option ℕ → ℕ → Bool
is_length none len = false
is_length (some n) len = len == n

-- `calLenValidForType(type, len)`
unfoldable pub cal_len_valid_for_type : ℕ → ℕ → Bool
cal_len_valid_for_type t len = is_length (payload_length t) len

-- what the checksum covers
abbrev pub covered : ℕ → ℕ → List ℕ → List ℕ
covered t seq payload = t ∷ seq ∷ (bytes16 (length payload) ++ payload)

-- `calBuildFrame`: the frame's bytes, or none where it returns 0
unfoldable pub cal_build_frame : ℕ → ℕ → ℕ → List ℕ → List ℕ
cal_build_frame out_cap t seq payload =
    let c = covered t seq payload in
    if not (cal_len_valid_for_type t (length payload))
      || ltb out_cap ((cal_envelope_bytes + length payload) % 2 ^ 16)
    then []
    else cal_frame_magic ++ (c ++ bytes16 (cal_crc16 c))

-- `calFrameCrcOk`, of a frame's bytes
unfoldable pub cal_frame_crc_ok : List ℕ → Bool
cal_frame_crc_ok f =
    let len = at16 f 6 in
    not (ltb (length f) cal_envelope_bytes)
    && ((cal_envelope_bytes + len) % 2 ^ 16 == length f
        && cal_crc16 (take (4 + len) (drop 4 f)) == at16 f (8 + len))
