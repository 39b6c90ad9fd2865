-- ===== src/Boot/Startup.antt =====
-- What `main` decides at a reset (main.cpp): rewrite the option bytes, jump to the app, or stay.
use open_skyhawk.Base.{
  ◌^◌, ℕ, ◌+◌, ◌-◌, ◌%◌, Bool, true, false, not, ◌&&◌, ◌||◌, List, [], replicate, get_or, ◌==◌, leb,
  if◌then◌else◌,
}
use open_skyhawk.Boot.Protocol.{
  announce_interval_ms, BootState, requested, app_invalid, unconfigured, app_unstable, caught,
  attempt_limit, block_size, unset,
}
use open_skyhawk.Boot.Reply
use open_skyhawk.Boot.Flash.{Mem, Chip}
use open_skyhawk.Boot.Image.{id_node, id_kind, app_valid}
use open_skyhawk.Boot.Options.{ob_data0, ob_data1, ob_wrp0, option_bytes_set}
use open_skyhawk.Boot.Session.{Board, announce}

-- Boot::ENTRY_MAGIC
abbrev pub entry_magic : ℕ
entry_magic = 0xB007

pub data Outcome : Type 0 where
  reset_again jump stay : Outcome

-- What a reset finds: the flash, the stored option bytes, the entry flag (DR1), the crash-loop count
-- (DR2), and whether a CONNECT comes within the catch window.
pub record Wake : Type 0 where
  pub mem : Mem
  pub opt : List ℕ
  pub entry : ℕ
  pub attempts : ℕ
  pub connect : Bool

abbrev pub opt_at : List ℕ → ℕ → ℕ
opt_at o i = get_or o i 0 % 256

abbrev pub is_caught : BootState → Bool
is_caught caught = true
is_caught _ = false

-- the globals of a board just reset
unfoldable pub fresh : Wake → BootState → Board
fresh w st = record {
  mem = w.mem;
  opt = w.opt;
  ses = record {
    buf = replicate block_size 0;
    blk0 = replicate block_size 0;
    total = 0;
    next = 0;
    index = 0;
    want = 0;
    have = 0;
    active = false;
  };
  node = opt_at w.opt ob_data0;
  kind = opt_at w.opt ob_data1;
  state = st;
  connected = false;
  last_cmd = 0;
  last_announce = 0;
  ms = 0;
  attempts = w.attempts;
  entry = 0;
  led = (false, false);
  sent = [];
  reset = false;
}

module _ (c : Chip) where
  -- Data0 and Data1 as they should be
  unfoldable pub want_node : Wake → ℕ
  want_node w = if app_valid c w.mem then id_node w.mem else opt_at w.opt ob_data0

  unfoldable pub want_kind : Wake → ℕ
  want_kind w = if app_valid c w.mem then id_kind w.mem else opt_at w.opt ob_data1

  -- WRP0 with the bootloader's bit cleared: `wrp0() & ~WRP_BOOTLOADER`
  abbrev pub protected : ℕ → ℕ
  protected wrp0 = wrp0 - wrp0 % 2

  unfoldable pub options_differ : Wake → Bool
  options_differ w =
      not (want_node w == opt_at w.opt ob_data0)
      || (not (want_kind w == opt_at w.opt ob_data1) || opt_at w.opt ob_wrp0 % 2 == 1)

  unfoldable pub boot_state : Wake → BootState
  boot_state w =
      if w.entry == entry_magic
      then requested
      else if not (app_valid c w.mem)
      then (if opt_at w.opt ob_data0 == unset then unconfigured else app_invalid)
      else if leb attempt_limit w.attempts
      then app_unstable
      else caught

  -- the clocks of `main`'s loop at its start
  unfoldable pub settled : Board → Board
  settled b = record b {
    last_announce = (b.ms + 2 ^ 32 - announce_interval_ms) % 2 ^ 32;
    last_cmd = b.ms;
  }

  -- `main` up to its loop
  unfoldable pub main : Wake → Outcome × Board
  main w =
      let (good, opt) =
        option_bytes_set c (want_node w) (want_kind w) (protected (opt_at w.opt ob_wrp0)) w.opt in
      let b = fresh w (boot_state w) in
      let tried = if options_differ w then record b { opt = opt } else b in
      if options_differ w && good
      then (reset_again, tried)
      else if app_valid c w.mem && is_caught (boot_state w)
      then (if w.connect
          then (stay, settled (announce c Reply.connected (record tried { connected = true })))
          else (jump, record tried { attempts = w.attempts + 1 }))
      else (stay, settled tried)
