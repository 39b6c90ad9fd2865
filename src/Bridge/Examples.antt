-- ===== src/Bridge/Examples.antt =====
-- The delivery of frames at a concrete parser and concrete frames.
use open_skyhawk.Base.{
  ℕ, zero, suc, ◌+◌, ◌*◌, ◌%◌, ◌≤◌, ◌≡◌, refl, ap, true, false, List, [], ◌∷◌, ◌++◌, length,
  length-append, take, drop, map, arith,
}
use open_skyhawk.Upload.Wire.{CanFrame, Wire, export_record, send_frames}
use open_skyhawk.Upload.Records.{concat}
use open_skyhawk.Bridge.Relay.{BootRelay, on_writes}
use open_skyhawk.Bridge.Stream.{AllPlain, words_from, words, ExportParser}
use open_skyhawk.Bridge.Payload.{AllSendable}
use open_skyhawk.Bridge.Delivery.{send_frames-relayed}

-- The records of a stream after its sync bytes, `k` of them at most.
abbrev read_records : ℕ → List ℕ → List (ℕ × ℕ)
read_records zero bs = []
read_records (suc k) (al ∷ ah ∷ n ∷ nh ∷ bs) =
    words_from (al + 256 * ah) (take n bs) ++ read_records k (drop n bs)
read_records (suc k) bs = []

take_front : (xs ys : List ℕ) → take (length xs) (xs ++ ys) ≡ xs
take_front [] ys = refl
take_front (x ∷ xs) ys = ap (λ t. x ∷ t) (take_front xs ys)

drop_front : (xs ys : List ℕ) → drop (length xs) (xs ++ ys) ≡ ys
drop_front [] ys = refl
drop_front (x ∷ xs) ys = drop_front xs ys

read_records-records :
    (ps : List (List ℕ)) (k : ℕ)
    → AllPlain ps
    → length ps ≤ k
    → read_records k (concat (map export_record ps)) ≡ concat (map words ps)
unfolding concat
read_records-records [] zero h l = refl
read_records-records [] (suc k) h l = refl
read_records-records (p ∷ ps) zero h l = absurd (omega arith)
read_records-records (p ∷ ps) (suc k) h l =
    let rest = concat (map export_record ps) in
    let n : length p % 256 ≡ length p = omega (arith, h.0.fits) in
    rw (n, take_front p rest, drop_front p rest)
      (ap (λ t. words p ++ t) (read_records-records ps k h.1 (omega arith)))

records_length : (ps : List (List ℕ)) → length ps ≤ length (concat (map export_record ps))
unfolding concat
records_length [] = omega arith
records_length (p ∷ ps) =
    omega (arith, records_length ps, length-append p (concat (map export_record ps)))

abbrev reader : ExportParser
reader = record {
  parse = λ bs. read_records (length bs) (drop 4 bs);
  parse_records = λ ps h.
      let k = suc (suc (suc (suc (length (concat (map export_record ps)))))) in
      read_records-records ps k h (omega (arith, records_length ps));
}

abbrev frames : List CanFrame
frames =
    record { id = 0x745; bytes = 0x55 ∷ 0x56 ∷ 7 ∷ [] }
    ∷ record { id = 0x7C0; bytes = 1 ∷ 2 ∷ 3 ∷ 4 ∷ 5 ∷ 6 ∷ 7 ∷ 8 ∷ [] }
    ∷ []

abbrev quiet : Wire
quiet = record { rec = []; out = []; uart = [] }

abbrev midway : BootRelay
midway = record { f = 1 ∷ []; need = 5; esc = true }

frames-AllSendable : AllSendable frames
frames-AllSendable = (
  record { allowed = refl; short = omega arith; bytes = refl },
  (record { allowed = refl; short = omega arith; bytes = refl }, tt),
)

send_frames-relayed_example :
    (on_writes (reader.parse (concat (send_frames false frames quiet).uart)) midway).0 ≡ frames
send_frames-relayed_example = send_frames-relayed reader frames quiet midway frames-AllSendable refl
