-- ===== src/Upload/Records.antt =====
-- What the uploader's UART bytes are: the sync bytes and one export record for each group of frames.
use open_skyhawk.Base.{
  ℕ, ◌+◌, ◌≤◌, ◌<◌, ◌≡◌, refl, sym, ap, ap₂, ◌∙◌, true, false, List, [], ◌∷◌, ◌++◌, append_assoc,
  append-nil, length, length-append, length-take, take, ◌*◌, ◌/◌, ◌%◌, arith, ◌==◌, ltb,
  if◌then◌else◌, Bool-cases, inl, inr,
}
use open_skyhawk.Upload.Wire.{
  CanFrame, Wire, rec_size, pad, export_record, rec_flush, begin_frames, escape, escape_byte,
  relay_bytes, add_frame, add_frames, end_frames, send_frames,
}

unfoldable pub concat {ℓ} : {A : Type ℓ} → List (List A) → List A
concat [] = []
concat (x ∷ xs) = x ++ concat xs

pub concat-append {ℓ} :
    {A : Type ℓ} (xs ys : List (List A)) → concat (xs ++ ys) ≡ concat xs ++ concat ys
unfolding concat
concat-append [] ys = refl
concat-append (x ∷ xs) ys =
    ap (λ t. x ++ t) (concat-append xs ys) ∙ sym (append_assoc x (concat xs) (concat ys))

-- the relayed bytes of frames
unfoldable pub encode : List CanFrame → List ℕ
encode [] = []
encode (f ∷ fs) = relay_bytes f.id (take 8 f.bytes) ++ encode fs

pub encode-append : (fs gs : List CanFrame) → encode (fs ++ gs) ≡ encode fs ++ encode gs
unfolding encode
encode-append [] gs = refl
encode-append (f ∷ fs) gs =
    ap (λ t. relay_bytes f.id (take 8 f.bytes) ++ t) (encode-append fs gs)
    ∙ sym (append_assoc (relay_bytes f.id (take 8 f.bytes)) (encode fs) (encode gs))

-- The frames of each record: as many as fit, never one in two records. `cur` is the record so far.
unfoldable pub groups : List CanFrame → List CanFrame → List (List CanFrame)
groups [] [] = []
groups [] (g ∷ gs) = (g ∷ gs) ∷ []
groups (f ∷ fs) cur =
    let later = cur ∷ groups fs (f ∷ []) in
    let same = groups fs (cur ++ f ∷ []) in
    if ltb rec_size (length (encode cur) + length (encode (f ∷ []))) then later else same

unfoldable pub records : List (List CanFrame) → List ℕ
records [] = []
records (g ∷ gs) = export_record (pad (encode g)) ++ records gs

-- the bytes written, and those that wait in `_out`
abbrev bytes : Wire → List ℕ
bytes w = concat w.uart ++ w.out

-- what a flush writes
abbrev flushed : List ℕ → List ℕ
flushed r = if length r == 0 then [] else export_record (pad r)

pub concat_one : (x : List ℕ) (xs : List (List ℕ)) → concat (xs ++ x ∷ []) ≡ concat xs ++ x
unfolding concat
concat_one x xs = concat-append xs (x ∷ []) ∙ ap (λ t. concat xs ++ t) (append-nil x)

rec_flush-bytes : (w : Wire) → bytes (rec_flush w) ≡ bytes w ++ flushed w.rec
unfolding rec_flush
rec_flush-bytes w =
    let out = w.out ++ export_record (pad w.rec) in
    ground (
      arith,
      concat_one out w.uart,
      append-nil (concat w.uart ++ out),
      append-nil (bytes w),
      append_assoc (concat w.uart) w.out (export_record (pad w.rec)),
    )

rec_flush-rec : (w : Wire) → (rec_flush w).rec ≡ []
unfolding rec_flush
rec_flush-rec w = ground arith

pub length-zero {ℓ} : {A : Type ℓ} (xs : List A) → length xs ≡ 0 → xs ≡ []
length-zero [] h = refl
length-zero (x ∷ xs) h = absurd (omega arith)

end_frames-bytes : (w : Wire) → concat (end_frames false w).uart ≡ bytes w ++ flushed w.rec
unfolding end_frames
end_frames-bytes w =
    let v = rec_flush w in
    let b = rec_flush-bytes w in
    ground (arith, concat_one v.out v.uart, append-nil (concat v.uart), b, length-zero v.out)

length-escape : (xs : List ℕ) → length (escape xs) ≤ 2 * length xs
unfolding escape escape_byte
length-escape [] = omega arith
length-escape (x ∷ xs) = ground (arith, length-escape xs, length-append (escape_byte x) (escape xs))

-- A frame takes 21 bytes of a record at most.
pub length-relay_bytes : (f : CanFrame) → length (relay_bytes f.id (take 8 f.bytes)) ≤ 21
unfolding relay_bytes
length-relay_bytes f =
    let d = take 8 f.bytes in
    omega (arith, length-escape (f.id % 256 ∷ f.id / 256 % 256 ∷ d), length-take 8 f.bytes)

length-encode_one :
    (f : CanFrame) → length (encode (f ∷ [])) ≡ length (relay_bytes f.id (take 8 f.bytes))
unfolding encode
length-encode_one f = ap length (append-nil (relay_bytes f.id (take 8 f.bytes)))

length-encode_pos : (g : CanFrame) (gs : List CanFrame) → 0 < length (encode (g ∷ gs))
unfolding encode relay_bytes
length-encode_pos g gs = omega arith

encode_nil : encode [] ≡ []
unfolding encode
encode_nil = refl

flushed-records : (cur : List CanFrame) → flushed (encode cur) ≡ records (groups [] cur)
unfolding records groups
flushed-records [] = (let none_held : encode [] ≡ [] = encode_nil in rw none_held refl)
flushed-records (g ∷ gs) =
    ground (arith, length-encode_pos g gs, append-nil (export_record (pad (encode (g ∷ gs)))))

add_frame_full :
    (f : CanFrame) (w : Wire)
    → ltb rec_size (length w.rec + length (relay_bytes f.id (take 8 f.bytes))) ≡ true
    → (bytes (add_frame false f w) ≡ bytes w ++ flushed w.rec)
      × ((add_frame false f w).rec ≡ relay_bytes f.id (take 8 f.bytes))
unfolding add_frame
add_frame_full f w h =
    let b = rec_flush-bytes w in
    let r = rec_flush-rec w in (rw h b, rw h (ap (λ x. x ++ relay_bytes f.id (take 8 f.bytes)) r))

add_frame_room :
    (f : CanFrame) (w : Wire)
    → ltb rec_size (length w.rec + length (relay_bytes f.id (take 8 f.bytes))) ≡ false
    → (bytes (add_frame false f w) ≡ bytes w)
      × ((add_frame false f w).rec ≡ w.rec ++ relay_bytes f.id (take 8 f.bytes))
unfolding add_frame
add_frame_room f w h = (rw h refl, rw h refl)

encode_one : (f : CanFrame) → encode (f ∷ []) ≡ relay_bytes f.id (take 8 f.bytes)
unfolding encode
encode_one f = append-nil (relay_bytes f.id (take 8 f.bytes))

-- A full record closes the group, and a record with room goes on.
later :
    (f : CanFrame) (fs cur : List CanFrame) (w : Wire)
    → w.rec ≡ encode cur
    → ltb rec_size (length w.rec + length (relay_bytes f.id (take 8 f.bytes))) ≡ true
    → flushed w.rec ++ records (groups fs (f ∷ [])) ≡ records (groups (f ∷ fs) cur)
unfolding groups records
later f fs cur w e h =
    ground
      (arith, encode_one f, e, h, length-relay_bytes f, append-nil (records (groups fs (f ∷ []))))

same :
    (f : CanFrame) (fs cur : List CanFrame) (w : Wire)
    → w.rec ≡ encode cur
    → ltb rec_size (length w.rec + length (relay_bytes f.id (take 8 f.bytes))) ≡ false
    → records (groups fs (cur ++ f ∷ [])) ≡ records (groups (f ∷ fs) cur)
unfolding groups
same f fs cur w e h = ground (arith, encode_one f, e, h)

-- From `add_frame` on, the bytes are those of the records.
pub add_frames-bytes :
    (fs : List CanFrame) (cur : List CanFrame) (w : Wire)
    → w.rec ≡ encode cur
    → concat (end_frames false (add_frames false fs w)).uart ≡ bytes w ++ records (groups fs cur)
unfolding add_frames
add_frames-bytes [] cur w e =
    end_frames-bytes w ∙ ap (λ t. bytes w ++ t) (ap flushed e ∙ flushed-records cur)
add_frames-bytes (f ∷ fs) cur w e =
    let r = relay_bytes f.id (take 8 f.bytes) in
    let one = encode_one f in
    let v = add_frame false f w in
    elim (Bool-cases (ltb rec_size (length w.rec + length r))) [
      | inl full ↦
          let (b, held) = add_frame_full f w full in
          add_frames-bytes fs (f ∷ []) v (held ∙ sym one)
          ∙ (ap (λ t. t ++ records (groups fs (f ∷ []))) b
              ∙ (append_assoc (bytes w) (flushed w.rec) (records (groups fs (f ∷ [])))
                  ∙ ap (λ t. bytes w ++ t) (later f fs cur w e full)))
      | inr room ↦
          let (b, held) = add_frame_room f w room in
          add_frames-bytes fs (cur ++ f ∷ []) v
            (held ∙ (ap₂ (λ x y. x ++ y) e (sym one) ∙ sym (encode-append cur (f ∷ []))))
          ∙ (ap (λ t. t ++ records (groups fs (cur ++ f ∷ []))) b
              ∙ ap (λ t. bytes w ++ t) (same f fs cur w e room))
    ]

-- What one `beginFrames` to `endFrames` writes: the sync bytes, then a record for each group of frames.
pub send_frames-bytes :
    (fs : List CanFrame) (w : Wire)
    → w.uart ≡ []
    → concat (send_frames false fs w).uart
      ≡ (0x55 ∷ 0x55 ∷ 0x55 ∷ 0x55 ∷ []) ++ records (groups fs [])
unfolding send_frames begin_frames concat encode
send_frames-bytes fs w e =
    add_frames-bytes fs [] (begin_frames false w) refl
    ∙ ap (λ u. concat u ++ (0x55 ∷ 0x55 ∷ 0x55 ∷ 0x55 ∷ []) ++ records (groups fs [])) e
