-- ===== src/Upload/Serial.antt =====
-- The serial transport between the uploader (Uploader.cpp) and the bridge's bootloader (main.cpp).
use open_skyhawk.Base.{
  ℕ, zero, suc, ◌+◌, ◌*◌, ◌/◌, ◌%◌, ◌^◌, ◌≤◌, ◌<◌, ◌≡◌, refl, sym, ap, ◌∙◌, List, [], ◌∷◌, ◌++◌,
  append_assoc, length, length-append, get_or, take, drop, map, Option, none, some, arith,
}
use open_skyhawk.Boot.Serial.{sum8, uart_byte, uart_send}
use open_skyhawk.Upload.Records.{concat}
use open_skyhawk.Upload.Wire.{sum_from, serial_bytes}

sum8-sum_from : (s : ℕ) (xs : List ℕ) → sum8 s xs ≡ sum_from s xs
unfolding sum8 sum_from
sum8-sum_from s [] = refl
sum8-sum_from s (x ∷ xs) = sum8-sum_from ((s + x) % 256) xs

-- The two sides write the same frames.
uart_send-serial_bytes : (id : ℕ) (d : List ℕ) → uart_send id d ≡ serial_bytes id d
unfolding uart_send serial_bytes
uart_send-serial_bytes id d =
    rw (sum8-sum_from ((id % 256 + id / 256 % 256 + length d) % 256) d) refl

pub get_or-front : (i : ℕ) (xs ys : List ℕ) → i < length xs → get_or (xs ++ ys) i 0 ≡ get_or xs i 0
get_or-front i [] ys l = absurd (omega arith)
get_or-front zero (x ∷ xs) ys l = refl
get_or-front (suc i) (x ∷ xs) ys l = get_or-front i xs ys (omega arith)

pub get_or-back : (xs : List ℕ) (y : ℕ) → get_or (xs ++ y ∷ []) (length xs) 0 ≡ y
get_or-back [] y = refl
get_or-back (x ∷ xs) y = get_or-back xs y

pub take_front : (xs ys : List ℕ) → take (length xs) (xs ++ ys) ≡ xs
take_front [] ys = refl
take_front (x ∷ xs) ys = ap (λ t. x ∷ t) (take_front xs ys)

-- the sum of a header and the data, as it is checked
header_sum :
    (id : ℕ) (d : List ℕ)
    → sum8 0 (id % 256 ∷ id / 256 % 256 ∷ length d ∷ d)
      ≡ sum_from ((id % 256 + id / 256 % 256 + length d) % 256) d
unfolding sum8
header_sum id d =
    let e : (((0 + id % 256) % 256 + id / 256 % 256) % 256 + length d) % 256
        ≡ (id % 256 + id / 256 % 256 + length d) % 256 =
      omega arith in
    rw e (sum8-sum_from ((id % 256 + id / 256 % 256 + length d) % 256) d)

length-serial_bytes : (id : ℕ) (d : List ℕ) → length (serial_bytes id d) ≡ 5 + length d
unfolding serial_bytes
length-serial_bytes id d =
    omega (arith, length-append d (sum_from ((id % 256 + id / 256 % 256 + length d) % 256) d ∷ []))

count_at : (id : ℕ) (d : List ℕ) → get_or (serial_bytes id d) 3 0 ≡ length d
unfolding serial_bytes
count_at id d = refl

id_at :
    (id : ℕ) (d : List ℕ)
    → id < 2 ^ 16
    → get_or (serial_bytes id d) 1 0 + 2 ^ 8 * get_or (serial_bytes id d) 2 0 ≡ id
unfolding serial_bytes
id_at id d l = omega arith

data_at : (id : ℕ) (d : List ℕ) → take (length d) (drop 4 (serial_bytes id d)) ≡ d
unfolding serial_bytes
data_at id d = take_front d (sum_from ((id % 256 + id / 256 % 256 + length d) % 256) d ∷ [])

sum_at :
    (id : ℕ) (d : List ℕ)
    → sum8 0 (take (3 + length d) (drop 1 (serial_bytes id d)))
      ≡ get_or (serial_bytes id d) (4 + length d) 0
unfolding serial_bytes
sum_at id d =
    let s = sum_from ((id % 256 + id / 256 % 256 + length d) % 256) d in
    let h = id % 256 ∷ id / 256 % 256 ∷ length d ∷ d in
    let three : 3 + length d ≡ length h = omega arith in
    let four : 4 + length d ≡ length (0xAA ∷ h) = omega arith in
    rw (three, four, take_front h (s ∷ []), get_or-back h s) (header_sum id d)

-- A frame begun is not over before its last byte.
uart_byte_more :
    (cmd id c : ℕ) (d uf rest : List ℕ)
    → length d ≤ 8
    → 0 < length uf
    → 0 < length rest
    → serial_bytes id d ≡ uf ++ c ∷ rest
    → uart_byte cmd c uf ≡ (none, uf ++ c ∷ [])
unfolding uart_byte
uart_byte_more cmd id c d uf rest short begun more e =
    let f = uf ++ c ∷ [] in
    let whole : serial_bytes id d ≡ f ++ rest = e ∙ sym (append_assoc uf (c ∷ []) rest) in
    let len = ap length whole ∙ length-append f rest in
    ground (
      arith,
      length-serial_bytes id d,
      len,
      count_at id d,
      whole,
      length-append uf (c ∷ []),
      get_or-front 3 f rest,
    )

-- The last byte ends it.
uart_byte_last :
    (id c : ℕ) (d uf : List ℕ)
    → length d ≤ 8
    → id < 2 ^ 16
    → serial_bytes id d ≡ uf ++ c ∷ []
    → uart_byte id c uf ≡ (some d, [])
unfolding uart_byte
uart_byte_last id c d uf short fits e =
    let len = ap length e ∙ length-append uf (c ∷ []) in
    rw (← e) (
      ground (
        arith,
        length-serial_bytes id d,
        len,
        count_at id d,
        sum_at id d,
        id_at id d fits,
        data_at id d,
      ))

abbrev pub taken : Option (List ℕ) → List (List ℕ) → List (List ℕ)
taken none fs = fs
taken (some f) fs = f ∷ fs

-- what the bytes of a stream give, one after the other
unfoldable pub reads : ℕ → List ℕ → List ℕ → List (List ℕ) × List ℕ
reads cmd_id [] uf = ([], uf)
reads cmd_id (c ∷ cs) uf =
    let (got, uf') = uart_byte cmd_id c uf in
    let (fs, uf'') = reads cmd_id cs uf' in (taken got fs, uf'')

reads-step :
    (cmd_id c : ℕ) (cs uf : List ℕ) (o : Option (List ℕ) × List ℕ)
    → uart_byte cmd_id c uf ≡ o
    → reads cmd_id (c ∷ cs) uf ≡ (taken o.0 (reads cmd_id cs o.1).0, (reads cmd_id cs o.1).1)
unfolding reads
reads-step cmd_id c cs uf o e =
    ap (λ t. (taken t.0 (reads cmd_id cs t.1).0, (reads cmd_id cs t.1).1)) e

-- The rest of a frame, then the others.
reads-rest :
    (xs : List ℕ) (id c : ℕ) (d uf cs : List ℕ)
    → length d ≤ 8
    → id < 2 ^ 16
    → 0 < length uf
    → serial_bytes id d ≡ uf ++ c ∷ xs
    → reads id (c ∷ xs ++ cs) uf ≡ (d ∷ (reads id cs []).0, (reads id cs []).1)
unfolding reads
reads-rest [] id c d uf cs short fits begun e =
    reads-step id c cs uf (some d, []) (uart_byte_last id c d uf short fits e)
reads-rest (x ∷ xs) id c d uf cs short fits begun e =
    let f = uf ++ c ∷ [] in
    let more = uart_byte_more id id c d uf (x ∷ xs) short begun (omega arith) e in
    let grown : 0 < length f = omega (arith, length-append uf (c ∷ [])) in
    let whole : serial_bytes id d ≡ f ++ x ∷ xs = e ∙ sym (append_assoc uf (c ∷ []) (x ∷ xs)) in
    reads-step id c (x ∷ xs ++ cs) uf (none, f) more
    ∙ reads-rest xs id x d f cs short fits grown whole

abbrev pub AllShort : List (List ℕ) → Type 0
AllShort [] = Unit
AllShort (d ∷ ds) = (length d ≤ 8) × AllShort ds

reads-frame :
    (id : ℕ) (d cs : List ℕ)
    → length d ≤ 8
    → id < 2 ^ 16
    → reads id (serial_bytes id d ++ cs) [] ≡ (d ∷ (reads id cs []).0, (reads id cs []).1)
unfolding reads uart_byte serial_bytes
reads-frame id d cs short fits =
    let s = sum_from ((id % 256 + id / 256 % 256 + length d) % 256) d in
    reads-rest (id / 256 % 256 ∷ length d ∷ (d ++ s ∷ [])) id (id % 256) d (0xAA ∷ []) cs short fits
      (omega arith) refl

-- The bytes of frames give the frames.
pub reads-frames :
    (id : ℕ) (ds : List (List ℕ))
    → id < 2 ^ 16
    → AllShort ds
    → reads id (concat (map (serial_bytes id) ds)) [] ≡ (ds, [])
unfolding reads concat
reads-frames id [] fits h = refl
reads-frames id (d ∷ ds) fits h =
    let one = reads-frame id d (concat (map (serial_bytes id) ds)) h.0 fits in
    let rest = reads-frames id ds fits h.1 in one ∙ rw rest refl
