-- ===== src/Boot/Examples.antt =====
-- The bootloader's theorems at concrete boards, on a chip whose flash and CRC unit are functions.
use open_skyhawk.Base.{
  ap, ℕ, zero, suc, ◌+◌, ◌-◌, ◌*◌, ◌/◌, ◌%◌, ◌^◌, ◌≤◌, ◌<◌, ◌≡◌, ◌≢◌, ◌⊎◌, refl, arith, ◌==◌, true,
  false, get_or, set, List, [], ◌∷◌, length, replicate, if◌then◌else◌, leb, ltb, ◌&&◌,
}
use open_skyhawk.Boot.Protocol.{ok, app_invalid, app_addr, block_size}
use open_skyhawk.Boot.Cmd
use open_skyhawk.Boot.Flash.{Mem, rd8, Chip, IsFlash, flash_program, flash_write, flash_end}
use open_skyhawk.Boot.Image.{
  identity, id_crc, id_node, id_kind, crc_feed, identity_ok, image_crc, app_valid,
}
use open_skyhawk.Boot.Options.{program_options, options_match, option_bytes_set, ob_data0, ob_data1}
use open_skyhawk.Boot.Session.{
  Board, crc16, service, announce, erase_pages, begin, block, held_crc, end_checks, end_, is_ok,
}
use open_skyhawk.Boot.Handle.{loop_step, set_node_id, on_end, on_data, dispatch, handle, run}
use open_skyhawk.Boot.Commit.{end-app_valid}
use open_skyhawk.Boot.Erase.{IsBlank, begin_erases, begin_wraps}
use open_skyhawk.Boot.Blank.{any_commits, run-app_valid}
use open_skyhawk.Boot.Stream.{Stored, block_stores, end_stores}
use open_skyhawk.Boot.Data.{on_data_lands}
use open_skyhawk.Boot.Startup.{Wake, main, options_differ, boot_state, want_node, want_kind, opt_at}
use open_skyhawk.Boot.Rules.{set_node_id_lem, main_jump, main_settles}

-- The option bytes are programmed as given; the CRC unit adds words.
abbrev chip : Chip
chip = record {
  erase = λ m a. record {
    done = true;
    mem = λ x. if x / 1024 == a / 1024 then 255 else m x;
    took_ms = 20;
  };
  program = λ m a v. record {
    done = true;
    mem = λ x. if x == a then v % 256 else if x == a + 1 then v / 256 else m x;
  };
  erase_options = λ o. (true, replicate 8 255);
  program_option = λ o i x. (true, set o i x);
  crc_word = λ dr w. (dr + w) % 2 ^ 32;
  flash_kb = 64;
  uid16 = 0xBEEF;
}

chip-IsFlash : IsFlash chip
chip-IsFlash = record {
  erase_clears = λ m a x h p. ground arith;
  erase_blank = λ m a x h. ground arith;
  erase_keeps = λ m a x h. ground arith;
  program_keeps = λ m a v x p q. ground arith;
}

-- the first 21 bytes of the identity block of a 576-byte image for node 5, a PanelGroup
abbrev ident : List ℕ
ident =
    0x4F ∷ 0x53 ∷ 0x4B ∷ 0x59 ∷ 1 ∷ 0 ∷ 32 ∷ 0 ∷ 0x40 ∷ 2 ∷ 0 ∷ 0 ∷ 30 ∷ 182 ∷ 108 ∷ 131 ∷ 5 ∷ 1 ∷ 1
    ∷ 2 ∷ 3 ∷ []

-- The image past its first block is in flash, erased but for the identity block.
abbrev staged : Mem
staged x = if leb identity x && ltb x (identity + 21) then get_or ident (x - identity) 255 else 255

-- the vector table: a stack pointer at the top of RAM, and an entry point
abbrev vectors : List ℕ
vectors = 0 ∷ 0x50 ∷ 0 ∷ 0x20 ∷ 1 ∷ 0x11 ∷ 0 ∷ 8 ∷ replicate 56 0

abbrev want : ℕ
want = 0x836cb61e

abbrev options : List ℕ
options = 0xA5 ∷ 0xFF ∷ 5 ∷ 1 ∷ 0xFE ∷ 0xFF ∷ 0xFF ∷ 0xFF ∷ []

abbrev woken : Wake
woken = record { mem = staged; opt = options; entry = 0; attempts = 0; connect = true }

-- all nine blocks taken, on a connected node 5
abbrev ready : Board
ready = record {
  mem = staged;
  opt = options;
  ses = record {
    buf = replicate 64 255;
    blk0 = vectors;
    total = 576;
    next = 9;
    index = 8;
    want = 0;
    have = 0;
    active = true;
  };
  node = 5;
  kind = 1;
  state = app_invalid;
  connected = true;
  last_cmd = 0;
  last_announce = 0;
  ms = 0;
  attempts = 2;
  entry = 0;
  led = (false, false);
  sent = [];
  reset = false;
}

end_runs : (end_ chip want ready).0 ≡ ok
unfolding end_ end_checks held_crc crc_feed identity_ok flash_end flash_write flash_program
end_runs = refl

abbrev done : Board
done = (end_ chip want ready).2

end-app_valid_example :
    (app_valid chip done.mem ≡ true)
    × (id_crc done.mem ≡ want)
    × ((ready.node ≡ 255) ⊎ ((id_node done.mem ≡ 5) × (id_kind done.mem ≡ 1)))
    × (576 ≤ 9 * block_size)
    × (done.attempts ≡ 0)
unfolding end_ end_checks held_crc crc_feed identity_ok flash_end flash_write flash_program
end-app_valid_example = end-app_valid chip want ready {b' = done} chip-IsFlash refl

staged-IsBlank : IsBlank staged
staged-IsBlank x p q = ground arith

abbrev closing : List (ℕ × List ℕ)
closing = (5, Cmd.end ∷ 0x1E ∷ 0xB6 ∷ 0x6C ∷ 0x83 ∷ []) ∷ []

run-app_valid_example : any_commits chip closing ready ≡ true
unfolding run loop_step service announce handle dispatch on_end end_ end_checks held_crc crc_feed
    identity_ok flash_end flash_write flash_program app_valid image_crc
run-app_valid_example = run-app_valid chip chip-IsFlash closing ready staged-IsBlank refl

abbrev blank_image : ℕ → ℕ
blank_image x = 255

get_or-replicate : (n i v d : ℕ) → i < n → get_or (replicate n v) i d ≡ v
get_or-replicate zero i v d h = absurd (omega arith)
get_or-replicate (suc n) zero v d h = refl
get_or-replicate (suc n) (suc i) v d h = get_or-replicate n i v d (omega arith)

-- block 1 of a blank image has come, after block 0
abbrev arriving : Board
arriving = record ready {
  ses = record (ready.ses) {
    blk0 = replicate 64 255;
    next = 1;
    index = 1;
    want = crc16 (replicate 64 255);
  };
}

arriving-Stored : Stored blank_image arriving
arriving-Stored = record {
  head = λ i p q. ap (λ x. x % 256) (get_or-replicate 64 i 255 0 q);
  body = λ x p q. ground arith;
}

block_runs : (block chip arriving).0 ≡ ok
unfolding block flash_write flash_program crc16
block_runs = refl

block_stores_example :
    let (st, b) = block chip arriving in
    Stored blank_image b
    × (1 ≤ b.ses.next)
    × (b.ses.next ≤ 1 + 1)
    × ((is_ok st ≡ false) ⊎ (1 < b.ses.next))
block_stores_example =
    block_stores chip chip-IsFlash blank_image arriving (omega arith) arriving-Stored
      (λ i p. ap (λ x. x % 256) (get_or-replicate 64 i 255 0 p))

abbrev image : ℕ → ℕ
image x = if ltb x 64 then get_or vectors x 0 % 256 else staged (app_addr + x) % 256

ready-Stored : Stored image ready
ready-Stored = record { head = λ i p q. ground arith; body = λ x p q. ground arith }

end_stores_example : rd8 done.mem (app_addr + 5) ≡ 0x11
unfolding end_ end_checks held_crc crc_feed identity_ok flash_end flash_write flash_program
end_stores_example =
    end_stores chip chip-IsFlash image want ready {b' = done} ready-Stored (omega arith) refl 5
      (omega arith)

abbrev begun : Board
begun = (begin chip 576 ready).1

begin_erases_example :
    (0 < 576)
    × (app_addr + 576 ≤ flash_end chip)
    × (begun.mem identity ≡ 255)
    × (begun.ses.active ≡ true)
    × (begun.ses.next ≡ 0)
    × (576 ≤ begun.ses.total)
unfolding begin erase_pages service announce flash_end
begin_erases_example =
    begin_erases chip 576 ready {b' = begun} identity chip-IsFlash (omega arith) refl

begin_wraps_example :
    ((begin chip 0xFFFF_FF00 ready).0 ≡ ok)
    × ((begin chip 0xFFFF_FF00 ready).1.mem ≡ ready.mem)
    × ((begin chip 0xFFFF_FF00 ready).1.ses.active ≡ true)
begin_wraps_example = begin_wraps chip 0xFFFF_FF00 ready (omega arith) (omega arith) (omega arith)

abbrev renamed : Board
renamed = (set_node_id chip 7 ready).1

set_node_id_lem_example :
    (ready.connected ≡ true)
    × (ready.node ≢ 255)
    × (ready.kind ≢ 3)
    × (0 < 7)
    × (7 ≤ 63)
    × (app_valid chip renamed.mem ≡ false)
    × (opt_at renamed.opt ob_data0 ≡ 7)
    × (opt_at renamed.opt ob_data1 ≡ 1)
unfolding set_node_id option_bytes_set program_options options_match
set_node_id_lem_example = set_node_id_lem chip 7 ready {b' = renamed} chip-IsFlash refl refl

abbrev partly : List ℕ
partly = 0x29 ∷ 70 ∷ 71 ∷ 72 ∷ []

on_data_lands_example :
    (length (on_data chip partly ready).ses.buf ≡ 64)
    × (get_or (on_data chip partly ready).ses.buf 63 0 ≡ 70)
    × ((on_data chip partly ready).ses.have ≡ 512)
on_data_lands_example = on_data_lands chip partly ready 9 63 refl (omega arith) refl (omega arith)

-- the committed board, reset
abbrev installed : Wake
installed = record { mem = done.mem; opt = options; entry = 0; attempts = 0; connect = false }

main_jump_example :
    (app_valid chip installed.mem ≡ true)
    × (installed.entry ≢ 0xB007)
    × (0 < 3)
    × (installed.connect ≡ false)
    × ((main chip installed).1.attempts ≡ 0 + 1)
unfolding end_ end_checks held_crc crc_feed identity_ok flash_end flash_write flash_program
    app_valid image_crc main boot_state options_differ want_node want_kind option_bytes_set
    program_options options_match
main_jump_example = main_jump chip installed {b = (main chip installed).1} refl

-- the same app on a board whose option bytes say node 9
abbrev moved : Wake
moved = record installed { opt = set options 2 9 }

main_settles_example : options_differ chip (record moved { opt = (main chip moved).1.opt }) ≡ false
unfolding end_ end_checks held_crc crc_feed identity_ok flash_end flash_write flash_program
    app_valid image_crc main boot_state options_differ want_node want_kind option_bytes_set
    program_options options_match
main_settles_example = main_settles chip moved {b = (main chip moved).1} refl refl
