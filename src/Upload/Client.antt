-- ===== src/Upload/Client.antt =====
-- The client's frames (`onFrame`, Uploader.cpp), which stage an image and start its flash.
use open_skyhawk.Base.{
  ℕ, ◌+◌, ◌-◌, ◌*◌, ◌/◌, ◌%◌, ◌^◌, Bool, true, false, not, ◌&&◌, ◌||◌, List, [], ◌∷◌, Option, none,
  some, ◌==◌, ltb, leb, if◌then◌else◌,
}
use open_skyhawk.Boot.Flash.{Mem}
use open_skyhawk.Boot.Protocol.{block_size, identity_offset, identity_magic}
use open_skyhawk.Boot.Session.{at}
use open_skyhawk.Upload.Protocol.{
  UplState, idle, staging, staged, flashing, state_code, result_code, entering_boot,
  upl_proto_version, upl_max_image_bytes, upl_chunk_bytes, upl_target_bridge,
  upl_target_unconfigured,
}
use open_skyhawk.Upload.Kind
use open_skyhawk.Upload.Nack
use open_skyhawk.Upload.Image.{id_magic, id_length, id_crc, id_fw, image_crc}
use open_skyhawk.Upload.Session.{Uploader, reply, ack, nack, lo, hi, emit, enter, address}
use open_skyhawk.Upload.Reply.{is_flashing, unconfigured_rsp_id}

-- The bridge image that the build bundles: `osh_bundled_bridge` and its length.
pub record Bundle : Type 0 where
  pub image : Mem
  pub length : ℕ

-- `get32(p + i)`
abbrev pub get32 : List ℕ → ℕ → ℕ
get32 p i = at p i + 2 ^ 8 * at p (i + 1) + 2 ^ 16 * at p (i + 2) + 2 ^ 24 * at p (i + 3)

abbrev pub is_idle : UplState → Bool
is_idle idle = true
is_idle _ = false

abbrev pub is_staging : UplState → Bool
is_staging staging = true
is_staging _ = false

abbrev pub is_staged : UplState → Bool
is_staged staged = true
is_staged _ = false

-- `_img` after `memset(_img, 0xFF)`
abbrev pub blank : Mem
blank i = 0xFF

abbrev pub unconfigured_cmd_id : ℕ
unconfigured_cmd_id = 0x7C0

-- whether the bundle has an identity block: `bundledIdentity` is not null
unfoldable pub has_identity : Option Bundle → Bool
has_identity none = false
has_identity (some b) =
    ltb (identity_offset + 32) b.length
    && (id_magic b.image == identity_magic && leb (id_length b.image) b.length)

-- `_img` after the bundle is copied into it
abbrev pub bundle_image : Bundle → Mem
bundle_image b i = if ltb i (id_length b.image) then b.image i else 0xFF

-- the bundle staged
unfoldable pub stage_bundle : Option Bundle → Uploader → Uploader
stage_bundle none u = u
stage_bundle (some b) u = record u {
  img = bundle_image b;
  len = id_length b.image;
  crc = id_crc b.image;
  state = staged;
}

abbrev pub bundle_fw : Option Bundle → ℕ × ℕ × ℕ
bundle_fw none = (0, 0, 0)
bundle_fw (some b) = id_fw b.image

-- CAL_T_UPL_INFO
unfoldable pub on_info : Option Bundle → ℕ → Uploader → Uploader
on_info bundle seq u =
    let fw = if has_identity bundle then bundle_fw bundle else (0, 0, 0) in
    emit
      (reply Kind.info_ack seq (
        upl_proto_version
        ∷ upl_max_image_bytes / 1024
        ∷ lo upl_chunk_bytes
        ∷ hi upl_chunk_bytes
        ∷ state_code u.state
        ∷ u.last_target
        ∷ result_code u.last_result
        ∷ u.last_fw.0
        ∷ u.last_fw.1
        ∷ u.last_fw.2
        ∷ fw.0
        ∷ fw.1
        ∷ fw.2
        ∷ 0
        ∷ 0
        ∷ 0
        ∷ []))
      u

-- CAL_T_UPL_BEGIN
unfoldable pub on_upl_begin : ℕ → List ℕ → Uploader → Uploader
on_upl_begin seq p u =
    let n = get32 p 0 in
    if is_flashing u.state
    then emit (nack Kind.upl_begin seq Nack.busy 0xFF) u
    else if n == 0 || (ltb upl_max_image_bytes n || not (n % 4 == 0))
    then emit (nack Kind.upl_begin seq Nack.too_large 0xFF) u
    else emit (ack Kind.upl_begin seq)
        (record u { img = blank; len = n; crc = get32 p 4; state = staging })

-- CAL_T_UPL_DATA
unfoldable pub on_chunk : ℕ → List ℕ → Uploader → Uploader
on_chunk seq p u =
    let off = get32 p 0 in
    let cnt = if ltb (u.len - off) upl_chunk_bytes then u.len - off else upl_chunk_bytes in
    let img = λ (i : ℕ). if leb off i && ltb i (off + cnt) then at p (4 + (i - off)) else u.img i in
    if not (is_staging u.state)
    then emit (nack Kind.chunk seq Nack.no_session 0xFF) u
    else if not (off % upl_chunk_bytes == 0) || leb u.len off
    then emit (nack Kind.chunk seq Nack.bad_offset 0xFF) u
    else emit (ack Kind.chunk seq) (record u { img = img })

-- CAL_T_UPL_END
unfoldable pub on_upl_end : ℕ → Uploader → Uploader
on_upl_end seq u =
    if not (is_staging u.state)
    then emit (nack Kind.upl_end seq Nack.no_session 0xFF) u
    else if not (image_crc u.img u.len == u.crc)
    then emit (nack Kind.upl_end seq Nack.image_crc 0xFF) u
    else if not (id_magic u.img == identity_magic)
        || (not (id_length u.img == u.len) || not (id_crc u.img == u.crc))
    then emit (nack Kind.upl_end seq Nack.bad_image 0xFF) u
    else emit (ack Kind.upl_end seq) (record u { state = staged })

-- the globals at the start of a flash of `t`
unfoldable pub flash_reset : ℕ → ℕ → ℕ → Uploader → Uploader
flash_reset t new_id now u = record u {
  state = flashing;
  flash_ms = now;
  attempt = 0;
  new_id = new_id;
  unconfigured = t == upl_target_unconfigured;
  uid_known = false;
  bridge = t == upl_target_bridge;
  bridge_heard = false;
  sf = [];
  blocks = (u.len + (block_size - 1)) / block_size % 2 ^ 16;
  acked = 0;
}

-- the identifiers that it speaks to
unfoldable pub flash_target : ℕ → Uploader → Uploader
unfolding address
flash_target t v =
    if t == upl_target_unconfigured
    then record v { target = 0xFF; cmd_id = unconfigured_cmd_id; rsp_id = unconfigured_rsp_id }
    else address t v

-- the start of a flash of `t`
unfoldable pub start_flash : ℕ → ℕ → ℕ → Uploader → Uploader
unfolding flash_reset flash_target
start_flash t new_id now u = enter entering_boot now (flash_target t (flash_reset t new_id now u))

-- CAL_T_UPL_FLASH, of an image that is staged or not
unfoldable pub flash_staged : ℕ → List ℕ → ℕ → Uploader → Uploader
flash_staged seq p now u =
    let t = at p 0 in
    if is_idle u.state || is_flashing u.state
    then emit (nack Kind.flash seq (if is_idle u.state then Nack.no_session else Nack.busy) 0xFF) u
    else if not (is_staged u.state)
    then emit (nack Kind.flash seq Nack.not_staged 0xFF) u
    else if not (t == upl_target_unconfigured) && ltb 63 t
    then emit (nack Kind.flash seq Nack.bad_index t) u
    else start_flash t (at p 1) now (emit (ack Kind.flash seq) u)

-- CAL_T_UPL_FLASH: the bridge with nothing staged takes the bundle
unfoldable pub on_flash : Option Bundle → ℕ → List ℕ → ℕ → Uploader → Uploader
on_flash bundle seq p now u =
    let t = at p 0 in
    if t == upl_target_bridge && is_idle u.state
    then (if not (has_identity bundle)
        then emit (nack Kind.flash seq Nack.not_staged 0xFF) u
        else flash_staged seq p now (stage_bundle bundle u))
    else flash_staged seq p now u

-- CAL_T_UPL_ABORT
unfoldable pub on_abort : ℕ → Uploader → Uploader
on_abort seq u =
    if is_flashing u.state
    then emit (nack Kind.abort seq Nack.busy 0xFF) u
    else emit (ack Kind.abort seq) (record u { state = idle })

-- `onFrame(type, seq, p, len, now)`
unfoldable pub on_frame : Option Bundle → ℕ → ℕ → List ℕ → ℕ → Uploader → Uploader
on_frame bundle kind seq p now u =
    let u = record u { last_client_ms = now } in
    if kind == Kind.info
    then on_info bundle seq u
    else if kind == Kind.upl_begin
    then on_upl_begin seq p u
    else if kind == Kind.chunk
    then on_chunk seq p u
    else if kind == Kind.upl_end
    then on_upl_end seq u
    else if kind == Kind.flash
    then on_flash bundle seq p now u
    else if kind == Kind.abort
    then on_abort seq u
    else u

-- `onClientFrame(now)`
unfoldable pub on_client_frame : ℕ → Uploader → Uploader
on_client_frame now u = record u { last_client_ms = now }

-- `begin`: the buffer is cleared
unfoldable pub begin : Uploader → Uploader
begin u = record u { img = blank }

-- `handles(type)`
unfoldable pub handles : ℕ → Bool
handles kind =
    kind == Kind.info
    || (kind == Kind.upl_begin
        || (kind == Kind.chunk
            || (kind == Kind.upl_end || (kind == Kind.flash || kind == Kind.abort))))

-- `busy`
unfoldable pub busy : Uploader → Bool
busy u = not (is_idle u.state)
