-- ===== src/Can/Payloads.antt =====
-- The frames that a node reports itself with (CANProtocol.cpp), and the fault that it reports
-- (NodeStatus.cpp).
use open_skyhawk.Base.{
  ℕ, ◌+◌, ◌*◌, ◌/◌, ◌%◌, ◌^◌, Bool, false, ◌&&◌, not, List, [], ◌∷◌, ◌++◌, Option, none, some, ◌==◌,
  ltb, leb, if◌then◌else◌,
}
use open_skyhawk.Can.Node.{Build, Health, le16}

-- an object that can fault: `faultCode()` and `faultDetail()`, which may be null
pub record FaultSource : Type 0 where
  pub code : ℕ
  pub detail : Option (List ℕ)

-- NodeFaultCode::DUPLICATE_NODE_ID
abbrev pub duplicate_node_id : ℕ
duplicate_node_id = 0x09

abbrev pub text_or_empty : Option (List ℕ) → List ℕ
text_or_empty none = []
text_or_empty (some s) = s

-- `aggregateFaults`, of the sources in the order of the registry
unfoldable pub aggregate_faults : List FaultSource → ℕ × List ℕ
aggregate_faults [] = (0, [])
aggregate_faults (s ∷ ss) =
    let rest = aggregate_faults ss in
    if not (s.code == 0) then (s.code, text_or_empty s.detail) else rest

-- `makeHeartbeatPayload`, of the controller's ESR at `now`
unfoldable pub make_heartbeat_payload : ℕ → ℕ → ℕ → ℕ → List ℕ
make_heartbeat_payload id rx_count esr now =
    let flags = (if esr / 2 ^ 2 % 2 == 1 then 1 else 0) + (if esr / 2 % 2 == 1 then 2 else 0) in
    id
    ∷ flags
    ∷ (le16 (now / 1000 % 2 ^ 16)
        ++ (le16 rx_count ++ le16 (esr / 2 ^ 16 % 256 + esr / 2 ^ 24 % 256 * 256)))

-- `makeReadyPayload`
unfoldable pub make_ready_payload : Build → ℕ → List ℕ
make_ready_payload w flags =
    w.fw_major ∷ w.fw_minor ∷ w.fw_patch ∷ w.bootloader ∷ flags ∷ 0 ∷ 0 ∷ 0 ∷ []

-- ReadyFlag::RESYNC
abbrev pub resync_flag : ℕ
resync_flag = 0x01

-- A die temperature, as an int8_t's byte, at the threshold or above; NODE_OVERHEAT_C is not negative.
unfoldable pub is_hot : Option ℕ → ℕ → Bool
is_hot none t = false
is_hot (some c) t = ltb t 0x80 && leb c t

-- `makeNodeHealthPayload`
unfoldable pub make_node_health_payload : Build → ℕ → ℕ → ℕ → Health
make_node_health_payload w kind die_temp fault = record {
  die_temp = die_temp;
  flags = (if is_hot w.overheat_c die_temp then 1 else 0) + (if not (fault == 0) then 2 else 0);
  fault_id = fault;
  node_kind = kind;
}

-- the frame's bytes: the fault mask and the last two are 0
abbrev pub health_bytes : ℕ → Health → List ℕ
health_bytes id h = id ∷ h.die_temp ∷ h.flags ∷ 0 ∷ h.fault_id ∷ h.node_kind ∷ 0 ∷ 0 ∷ []
