-- ===== src/Bridge/Delivery.antt =====
-- From the uploader's UART bytes to the frames on CAN.
use open_skyhawk.Base.{
  ◌+◌, ◌≤◌, ◌<◌, ◌≡◌, refl, ap, ap₂, ◌∙◌, false, List, [], ◌∷◌, ◌++◌, append_assoc, append-nil,
  length, length-append, take, map, arith, ltb, Bool-cases, inl, inr,
}
use open_skyhawk.Upload.Wire.{CanFrame, Wire, relay_bytes, export_record, send_frames}
use open_skyhawk.Upload.Records.{
  concat, encode, encode-append, groups, records, length-relay_bytes, send_frames-bytes,
}
use open_skyhawk.Bridge.Relay.{BootRelay, on_writes}
use open_skyhawk.Bridge.Stream.{
  ExportParser, Plain, AllPlain, words, on_writes-append, on_writes-words,
}
use open_skyhawk.Bridge.Payload.{
  AllSendable, AllSendable-append, payload, feed-payload, plain_bytes-append, plain_bytes-encode,
}

-- A group: some frames, all sendable, that fit a record.
record Group (g : List CanFrame) : Type 0 where
  held : AllSendable g
  some_frame : 0 < length (encode g)
  fits : length (encode g) ≤ 64

payload-Plain : (g : List CanFrame) → Group g → Plain (payload g)
payload-Plain g h =
    let plain = plain_bytes-encode g h.held in
    let padded = plain_bytes-append (encode g) (0 ∷ []) plain refl in
    let len = length-append (encode g) (0 ∷ []) in
    record {
      plain = ground (arith, plain, padded);
      whole = ground (arith, len);
      fits = ground (arith, len, h.fits);
      some_byte = ground (arith, len, h.some_frame);
    }

abbrev AllGroups : List (List CanFrame) → Type 0
AllGroups [] = Unit
AllGroups (g ∷ gs) = Group g × AllGroups gs

records-map : (gs : List (List CanFrame)) → records gs ≡ concat (map export_record (map payload gs))
unfolding records concat
records-map [] = refl
records-map (g ∷ gs) = ap (λ t. export_record (payload g) ++ t) (records-map gs)

payloads-AllPlain : (gs : List (List CanFrame)) → AllGroups gs → AllPlain (map payload gs)
payloads-AllPlain [] h = tt
payloads-AllPlain (g ∷ gs) h = (payload-Plain g h.0, payloads-AllPlain gs h.1)

-- The writes of the records give the frames of the groups, whatever the relay was in the middle of.
on_writes-payloads :
    (gs : List (List CanFrame)) (r : BootRelay)
    → AllGroups gs
    → (on_writes (concat (map words (map payload gs))) r).0 ≡ concat gs
unfolding concat on_writes
on_writes-payloads [] r h = refl
on_writes-payloads (g ∷ gs) r h =
    let p = payload g in
    let plain = payload-Plain g h.0 in
    let split = on_writes-append (words p) (concat (map words (map payload gs))) r in
    let fed = on_writes-words p r plain in
    let out = feed-payload g (record r { need = 0 }) h.0.held refl in
    let rest = on_writes-payloads gs (on_writes (words p) r).1 h.1 in
    ap (λ t. t.0) split ∙ ap₂ (λ x y. x ++ y) (ap (λ t. t.0) fed ∙ out) rest

length-encode_one : (f : CanFrame) → length (encode (f ∷ [])) ≤ 21
unfolding encode
length-encode_one f =
    let b = relay_bytes f.id (take 8 f.bytes) in
    omega (arith, length-relay_bytes f, ap length (append-nil b))

encode_pos : (f : CanFrame) (fs : List CanFrame) → 0 < length (encode (f ∷ fs))
unfolding encode relay_bytes
encode_pos f fs = omega arith

encode-append_pos : (cur : List CanFrame) (f : CanFrame) → 0 < length (encode (cur ++ f ∷ []))
encode-append_pos [] f = encode_pos f []
encode-append_pos (c ∷ cur) f = encode_pos c (cur ++ f ∷ [])

encode_nil : length (encode []) ≡ 0
unfolding encode
encode_nil = refl

groups-AllGroups :
    (fs cur : List CanFrame)
    → AllSendable fs
    → AllSendable cur
    → length (encode cur) ≤ 64
    → AllGroups (groups fs cur) × (concat (groups fs cur) ≡ cur ++ fs)
unfolding groups concat
groups-AllGroups [] [] h k l = (tt, refl)
groups-AllGroups [] (g ∷ gs) h k l =
    ((record { held = k; some_frame = encode_pos g gs; fits = l }, tt), refl)
groups-AllGroups (f ∷ fs) cur h k l =
    let one = length-encode_one f in
    let both = length-encode-append cur f in
    elim (Bool-cases (ltb 64 (length (encode cur) + length (encode (f ∷ []))))) [
      | inl full ↦
          let (all, whole) = groups-AllGroups fs (f ∷ []) h.1 (h.0, tt) (omega (arith, one)) in
          let held : 0 < length (encode cur) = ground (arith, full, one) in
          (
            rw full ((record { held = k; some_frame = held; fits = l }, all)),
            rw full (ap (λ t. cur ++ t) whole),
          )
      | inr room ↦
          let (all, whole) =
            groups-AllGroups fs (cur ++ f ∷ []) h.1 (AllSendable-append cur (f ∷ []) k (h.0, tt))
              (ground (arith, room, both)) in
          (rw room all, rw room (whole ∙ append_assoc cur (f ∷ []) fs))
    ]
  where
    length-encode-append :
        (cur : List CanFrame) (f : CanFrame)
        → length (encode (cur ++ f ∷ [])) ≡ length (encode cur) + length (encode (f ∷ []))
    length-encode-append cur f =
        ap length (encode-append cur (f ∷ [])) ∙ length-append (encode cur) (encode (f ∷ []))

-- The frames that the uploader sends through the relay are put on CAN, each once, in order and with
-- their bytes, whatever the relay was in the middle of: for frames of at most eight bytes, with
-- identifiers that the relay lets pass.
pub send_frames-relayed :
    (p : ExportParser) (fs : List CanFrame) (w : Wire) (r : BootRelay)
    → AllSendable fs
    → w.uart ≡ []
    → (on_writes (p.parse (concat (send_frames false fs w).uart)) r).0 ≡ fs
send_frames-relayed p fs w r h e =
    let gs = groups fs [] in
    let (all, whole) = groups-AllGroups fs [] h tt (omega (arith, encode_nil)) in
    let sent = send_frames-bytes fs w e in
    let read = p.parse_records (map payload gs) (payloads-AllPlain gs all) in
    rw (sent, records-map gs, read) (on_writes-payloads gs r all ∙ whole)
