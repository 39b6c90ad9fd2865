-- ===== src/Upload/Examples.antt =====
-- The uploader's theorems at concrete images, clients and boards.
use open_skyhawk.Base.{ℕ, ◌+◌, true, false, List, [], ◌∷◌, ◌==◌, if◌then◌else◌}
use open_skyhawk.Boot.Flash.{Mem}
use open_skyhawk.Boot.Protocol.{identity_offset}
use open_skyhawk.Upload.Kind
use open_skyhawk.Upload.Wire.{Wire}
use open_skyhawk.Upload.Protocol.{idle, flashing, entering_boot, confirming, UplResult}
use open_skyhawk.Upload.Session.{Seen, Uploader}
use open_skyhawk.Upload.Client.{blank}
use open_skyhawk.Upload.Events.{Event, frame, client_frame, bridge_line, uart_byte, pass}

abbrev pub quiet : Wire
quiet = record { rec = []; out = []; uart = [] }

abbrev pub unseen : ℕ → Seen
unseen n = record { present = false; bootloader = 0; boot_state = 0; fw = (0, 0, 0); ms = 0 }

-- the globals after `begin`
abbrev pub fresh : Uploader
fresh = record {
  img = blank;
  len = 0;
  crc = 0;
  state = idle;
  last_client_ms = 0;
  seen = unseen;
  phase = entering_boot;
  target = 0;
  new_id = 0;
  attempt = 0;
  stalls = 0;
  cmd_id = 0;
  rsp_id = 0;
  uid = 0;
  unconfigured = false;
  uid_known = false;
  sent_once = false;
  bridge = false;
  bridge_heard = false;
  last_enter_ms = 0;
  sf = [];
  phase_ms = 0;
  flash_ms = 0;
  last_send_ms = 0;
  last_status_ms = 0;
  ack_deadline = 0;
  confirm_from_ms = 0;
  blocks = 0;
  acked = 0;
  sent = 0;
  goback = 0;
  last_target = 0;
  last_result = UplResult.none;
  last_fw = (0, 0, 0);
  wire = quiet;
  client = [];
}

-- a client that stages eight bytes and asks for a flash of node 5
abbrev session : List (Event × ℕ)
session =
    (frame Kind.upl_begin 1 (8 ∷ 0 ∷ 0 ∷ 0 ∷ 1 ∷ 2 ∷ 3 ∷ 4 ∷ []), 10)
    ∷ (frame Kind.chunk 2 (0 ∷ 0 ∷ 0 ∷ 0 ∷ 9 ∷ 9 ∷ 9 ∷ 9 ∷ 9 ∷ 9 ∷ 9 ∷ 9 ∷ []), 20)
    ∷ (frame Kind.upl_end 3 [], 30)
    ∷ (frame Kind.flash 4 (5 ∷ 5 ∷ []), 40)
    ∷ (pass, 50)
    ∷ (uart_byte 0xAA, 60)
    ∷ (bridge_line (b'_' ∷ []), 70)
    ∷ (client_frame, 80)
    ∷ []

-- an image of node 5, version 1.2.3
abbrev image : Mem
image i =
    if i == identity_offset + 16
    then 5
    else if i == identity_offset + 18
    then 1
    else if i == identity_offset + 19
    then 2
    else if i == identity_offset + 20
    then 3
    else 0xFF

abbrev back_up : ℕ → Seen
back_up n = record { present = true; bootloader = 1; boot_state = 0; fw = (1, 2, 3); ms = 900 }

-- a flash of node 5 after GO, its row in
abbrev restarted : Uploader
restarted = record fresh {
  img = image;
  state = flashing;
  phase = confirming;
  target = 5;
  seen = back_up;
  confirm_from_ms = 800;
  phase_ms = 800;
}
