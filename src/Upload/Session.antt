-- ===== src/Upload/Session.antt =====
-- The uploader's globals (Uploader.cpp), what it reports to the client, and how a flash ends or is
-- tried again.
use open_skyhawk.Base.{
  ℕ, ◌+◌, ◌-◌, ◌/◌, ◌%◌, ◌^◌, Bool, true, false, not, List, [], ◌∷◌, ◌++◌, ltb, leb, if◌then◌else◌,
}
use open_skyhawk.Boot.Flash.{Mem}
use open_skyhawk.Upload.Wire.{Wire, send_frames}
use open_skyhawk.Upload.Protocol.{
  UplState, staged, UplPhase, entering_boot, UplResult, ok, version_mismatch, phase_code,
  result_code, client_gone_ms, upl_target_unconfigured, upl_retries,
}
use open_skyhawk.Upload.Kind
use open_skyhawk.Upload.Image.{id_node}

-- what PanelBridge reports of a node
pub record Seen : Type 0 where
  pub present : Bool
  pub bootloader : ℕ
  pub boot_state : ℕ
  pub fw : ℕ × ℕ × ℕ
  pub ms : ℕ

-- what the client gets: the calls of `Io`
pub data ToClient : Type 0 where
  reply : ℕ → ℕ → List ℕ → ToClient
  ack : ℕ → ℕ → ToClient
  nack : ℕ → ℕ → ℕ → ℕ → ToClient

-- The globals. `sf` holds the bytes of `_sf` below `_sn`; `client` is what went to the client so far.
pub record Uploader : Type 0 where
  pub img : Mem
  pub len : ℕ
  pub crc : ℕ
  pub state : UplState
  pub last_client_ms : ℕ
  pub seen : ℕ → Seen
  pub phase : UplPhase
  pub target : ℕ
  pub new_id : ℕ
  pub attempt : ℕ
  pub stalls : ℕ
  pub cmd_id : ℕ
  pub rsp_id : ℕ
  pub uid : ℕ
  pub unconfigured : Bool
  pub uid_known : Bool
  pub sent_once : Bool
  pub bridge : Bool
  pub bridge_heard : Bool
  pub last_enter_ms : ℕ
  pub sf : List ℕ
  pub phase_ms : ℕ
  pub flash_ms : ℕ
  pub last_send_ms : ℕ
  pub last_status_ms : ℕ
  pub ack_deadline : ℕ
  pub confirm_from_ms : ℕ
  pub blocks : ℕ
  pub acked : ℕ
  pub sent : ℕ
  pub goback : ℕ
  pub last_target : ℕ
  pub last_result : UplResult
  pub last_fw : ℕ × ℕ × ℕ
  pub wire : Wire
  pub client : List ToClient

-- `now - since` on uint32_t
abbrev pub elapsed : ℕ → ℕ → ℕ
elapsed now since = (now + 2 ^ 32 - since) % 2 ^ 32

abbrev pub lo : ℕ → ℕ
lo v = v % 256

abbrev pub hi : ℕ → ℕ
hi v = v / 256 % 256

abbrev pub emit : ToClient → Uploader → Uploader
emit e u = record u { client = u.client ++ e ∷ [] }

-- `clientHere`
abbrev pub client_here : ℕ → Uploader → Bool
client_here now u = ltb (elapsed now u.last_client_ms) client_gone_ms

-- `sendCmd`
unfoldable pub send_cmd : List ℕ → Uploader → Uploader
send_cmd d u = record u {
  wire = send_frames u.bridge (record { id = u.cmd_id; bytes = d } ∷ []) u.wire;
}

-- `sendStatus`
unfoldable pub send_status : ℕ → Uploader → Uploader
send_status now u =
    let u = record u { last_status_ms = now } in
    if not (client_here now u)
    then u
    else emit
        (reply Kind.status 0 (
          phase_code u.phase
          ∷ (if u.unconfigured then upl_target_unconfigured else u.target)
          ∷ u.attempt
          ∷ lo u.acked
          ∷ hi u.acked
          ∷ lo u.blocks
          ∷ hi u.blocks
          ∷ 0
          ∷ []))
        u

-- `enter`
unfoldable pub enter : UplPhase → ℕ → Uploader → Uploader
enter ph now u = send_status now (record u { phase = ph; phase_ms = now; sent_once = false })

abbrev pub is_ok : UplResult → Bool
is_ok ok = true
is_ok _ = false

-- the results that name the version that the board reported
abbrev pub names_version : UplResult → Bool
names_version ok = true
names_version version_mismatch = true
names_version _ = false

-- `finish`
unfoldable pub finish : UplResult → ℕ → Uploader → Uploader
finish r now u =
    let node = id_node u.img in
    let target =
      if not u.unconfigured then u.target else if is_ok r then node else upl_target_unconfigured in
    let fw = if names_version r then (u.seen (node % 64)).fw else (0, 0, 0) in
    let secs = elapsed now u.flash_ms / 1000 in
    let u = record u { last_target = target; last_result = r; last_fw = fw; state = staged } in
    if client_here now u
    then emit
        (reply Kind.result 0 (
          result_code r
          ∷ target
          ∷ fw.0
          ∷ fw.1
          ∷ fw.2
          ∷ lo (u.attempt + 1)
          ∷ lo secs
          ∷ hi secs
          ∷ []))
        u
    else u

-- `address`
unfoldable pub address : ℕ → Uploader → Uploader
address node u = record u { target = node; cmd_id = 0x740 + node; rsp_id = 0x780 + node }

-- `retry`
unfoldable pub retry : UplResult → ℕ → Uploader → Uploader
retry if_exhausted now u =
    if leb upl_retries u.attempt
    then finish if_exhausted now u
    else enter entering_boot now (record u { attempt = (u.attempt + 1) % 256 })
