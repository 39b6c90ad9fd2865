-- ===== src/Upload/BoardExamples.antt =====
-- The uploader and a board's bootloader together, at a concrete image and concrete bytes.
use open_skyhawk.Base.{
  ℕ, ◌+◌, ◌-◌, ◌/◌, ◌%◌, ◌^◌, ◌≡◌, ◌⊎◌, refl, true, false, List, [], ◌∷◌, ◌++◌, get_or, map, none,
  some, ◌==◌, ltb, leb, ◌&&◌, if◌then◌else◌, arith,
}
use open_skyhawk.Boot.Flash.{Mem, Chip}
use open_skyhawk.Boot.Protocol.{app_addr, identity_offset, identity_magic}
use open_skyhawk.Boot.Image
use open_skyhawk.Boot.Serial.{Uart, next_frame}
use open_skyhawk.Boot.Queue.{IsRing, queued, collect}
use open_skyhawk.Upload.Records.{concat}
use open_skyhawk.Upload.Wire.{
  begin_frames, add_serial_frame, add_frame, add_frames, end_frames, send_frames, serial_bytes,
  sum_from,
}
use open_skyhawk.Upload.Image.{crc32_word, crc32_steps, image_crc, image_crc_from}
use open_skyhawk.Upload.Kind
use open_skyhawk.Upload.Protocol.{staging, flashing}
use open_skyhawk.Upload.Session.{Uploader, enter, send_status, address}
use open_skyhawk.Upload.Tick.{tick, tick_state, tick_phase, tick_entering}
use open_skyhawk.Upload.Client.{
  Bundle, has_identity, stage_bundle, on_upl_end, start_flash, flash_staged, on_flash, on_frame,
}
use open_skyhawk.Upload.Events.{Event, frame, pass, step, run}
use open_skyhawk.Upload.Staging.{Verified}
use open_skyhawk.Upload.Crc.{Verified-image_crc}
use open_skyhawk.Upload.Poll.{held, serial_frame, next_frame-frames}
use open_skyhawk.Upload.Examples.{fresh, quiet}

-- `v` as four bytes at `a`
abbrev put32 : Mem → ℕ → ℕ → Mem
put32 m a v i =
    if leb a i && ltb i (a + 4)
    then (if i == a
        then v % 256
        else if i == a + 1
        then v / 256 % 256
        else if i == a + 2
        then v / 2 ^ 16 % 256
        else v / 2 ^ 24 % 256)
    else m i

-- an image of 137 words with its identity block and checksum
abbrev image : Mem
image =
    put32 (put32 (put32 (λ i. i % 256) identity_offset identity_magic) (identity_offset + 8) 548)
      (identity_offset + 12) 2255742688

abbrev loaded : Uploader
loaded = record fresh { img = image; len = 548; crc = 2255742688 }

loaded-Verified : Verified loaded
unfolding image_crc image_crc_from crc32_word crc32_steps
loaded-Verified = record { checked = refl; magic = refl; length = refl; crc = refl }

abbrev chip : Chip
chip = record {
  erase = λ m a. record { done = false; mem = m; took_ms = 0 };
  program = λ m a v. record { done = false; mem = m };
  erase_options = λ o. (false, o);
  program_option = λ o i v. (false, o);
  crc_word = crc32_word;
  flash_kb = 64;
  uid16 = 0;
}

abbrev flashed : Mem
flashed a = image (a - app_addr)

Verified-image_crc_example :
    (Image.id_magic flashed ≡ identity_magic)
    × (Image.id_length flashed ≡ 548)
    × (Image.image_crc chip flashed ≡ Image.id_crc flashed)
Verified-image_crc_example =
    Verified-image_crc chip flashed loaded (λ s w. refl) loaded-Verified (λ x l. rw (back x) refl)
      refl (omega arith)
  where
    back : (x : ℕ) → app_addr + x - app_addr ≡ x
    back x = omega arith

-- two frames to the board with CMD id 0x740
abbrev frames : List (List ℕ)
frames = (1 ∷ 2 ∷ []) ∷ (0xAA ∷ []) ∷ []

abbrev wire_bytes : List ℕ
wire_bytes = 0xAA ∷ 0x40 ∷ 7 ∷ 2 ∷ 1 ∷ 2 ∷ 76 ∷ 0xAA ∷ 0x40 ∷ 7 ∷ 1 ∷ 0xAA ∷ 242 ∷ []

-- a buffer in which they wrap round, and one frame that waits
abbrev waiting : Uart
waiting = record {
  ubuf = λ i. get_or wire_bytes ((i + 6) % 256) 0;
  upos = 250;
  uf = [];
  ring = record { slot = λ i. 9 ∷ []; head = 47; tail = 46 };
}

waiting-IsRing : IsRing waiting.ring
waiting-IsRing = record { head = omega arith; tail = omega arith }

waiting-bytes :
    held 13 250 waiting.ubuf
    ≡ concat (send_frames true (map (serial_frame 0x740) frames) quiet).uart
unfolding held concat send_frames begin_frames add_frames add_frame add_serial_frame end_frames
    serial_bytes sum_from
waiting-bytes = refl

queued_one : queued waiting.ring ≡ (9 ∷ []) ∷ []
unfolding queued collect
queued_one = refl

next_frame-frames_example :
    ((queued waiting.ring ++ frames ≡ []) × ((next_frame 0x740 249 waiting).0 ≡ none))
    ⊎ ((f : List ℕ) × ((next_frame 0x740 249 waiting).0 ≡ some f)
        × (queued waiting.ring ++ frames ≡ f ∷ queued (next_frame 0x740 249 waiting).1.ring))
next_frame-frames_example =
    next_frame-frames 0x740 249 frames quiet waiting (omega arith) (omega arith, (omega arith, tt))
      refl (omega arith) refl waiting-IsRing waiting-bytes (rw queued_one (omega arith))

-- all of the image is in the buffer, of a build with a bundle
abbrev received : Uploader
received = record fresh {
  img = λ i. if ltb i 548 then image i else 0xFF;
  len = 548;
  crc = 2255742688;
  state = staging;
}

abbrev built : Bundle
built = record { image = image; length = 548 }

abbrev finished : List (Event × ℕ)
finished = (frame Kind.upl_end 3 [], 30) ∷ (frame Kind.flash 4 (5 ∷ 0 ∷ []), 40) ∷ (pass, 50) ∷ []

-- the image is accepted and is being flashed at the end
run_flashing : (run (some built) finished received).state ≡ flashing
unfolding run step on_frame on_upl_end on_flash flash_staged start_flash enter send_status address
    image_crc image_crc_from crc32_word crc32_steps tick tick_state tick_phase tick_entering
run_flashing = refl

-- so is the bundle, if the bridge is to be flashed and nothing is staged
run_bundle : (run (some built) ((frame Kind.flash 1 (0 ∷ 0 ∷ []), 10) ∷ []) fresh).state ≡ flashing
unfolding run step on_frame on_flash stage_bundle has_identity flash_staged start_flash enter
    send_status address
run_bundle = refl
