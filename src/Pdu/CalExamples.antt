-- ===== src/Pdu/CalExamples.antt =====
-- The calibration log's theorems on a blank page.
use open_skyhawk.Base.{
  ℕ, ◌+◌, ◌/◌, ◌%◌, ◌*◌, ◌≡◌, refl, true, arith, ltb, leb, ◌&&◌, if◌then◌else◌, ◌==◌, ◌-◌, ◌^◌,
}
use open_skyhawk.Pdu.Cal.{
  Mem, Hal, IsHal, cal_valid, cal_defaults, cal_seal, crc32, crc32_from, crc32_bits, slot,
  slot_empty, used_from, used_slots, load_from, load, program_words, next_record, write_slot, save,
}
use open_skyhawk.Pdu.CalLog.{save-load}

abbrev hal : Hal
hal = record {
  erase = λ m a. (true, λ x. if x / 1024 == a / 1024 then 255 else m x);
  program =
      λ m a v. (true, λ x. if leb a x && ltb x (a + 4) then v / 2 ^ (8 * (x - a)) % 256 else m x);
}

hal-IsHal : IsHal hal
hal-IsHal = record { program_keeps = λ m a v x o. ground arith }

abbrev page : ℕ
page = 0x0800FC00

abbrev blank : Mem
blank x = 255

blank_used : used_slots page blank ≡ 0
unfolding used_from slot slot_empty
blank_used = refl

blank-slot_empty : (j : ℕ) → slot_empty (slot page blank j) ≡ true
unfolding slot slot_empty
blank-slot_empty j = refl

defaults_valid : cal_valid cal_defaults ≡ true
unfolding cal_valid cal_defaults cal_seal crc32 crc32_from crc32_bits
defaults_valid = refl

blank_saves : (save hal page cal_defaults blank).0 ≡ true
unfolding save write_slot next_record program_words load load_from used_from slot slot_empty
    cal_valid cal_defaults cal_seal crc32 crc32_from crc32_bits
blank_saves = refl

save-load_example : load page (save hal page cal_defaults blank).1 ≡ (
    if cal_valid (slot page (save hal page cal_defaults blank).1 (used_slots page blank))
    then (true, slot page (save hal page cal_defaults blank).1 (used_slots page blank))
    else load page blank)
save-load_example =
    save-load hal page hal-IsHal cal_defaults blank (omega (arith, blank_used))
      (λ j p q. blank-slot_empty j)
