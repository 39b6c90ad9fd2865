-- ===== src/Gateway/Lossless.antt =====
-- No byte of the client is lost in the inbound parser (SimGateway.cpp).
use open_skyhawk.Base.{
  ℕ, ◌≡◌, refl, sym, ap, ◌∙◌, Bool, true, false, List, [], ◌∷◌, ◌++◌, length, append-nil,
  append_assoc, Bool-cases, inl, inr, if_intro, if◌then◌else◌, ltb, ◌==◌, get_or, ◌+◌, ◌%◌, ◌^◌,
}
use open_skyhawk.Boot.Session.{at, at16}
use open_skyhawk.Gateway.Frame.{
  cal_frame_magic, cal_envelope_bytes, cal_len_valid_for_type, cal_frame_crc_ok,
}
use open_skyhawk.Gateway.Inbound.{
  Fate, to_uart, dropped, handled, passed_on, Inbound, give, cal_flush_held, hold, magic_byte,
  end_frame, later_byte, cal_inbound_byte, client_byte, client_bytes,
}
use open_skyhawk.Gateway.Owner.{Follows, client_bytes-Follows}

abbrev pub bytes_in : Fate → List ℕ
bytes_in (to_uart bs) = bs
bytes_in (dropped bs) = bs
bytes_in (handled bs) = bs

-- the bytes behind the fates, in order
unfoldable pub all_bytes : List Fate → List ℕ
all_bytes [] = []
all_bytes (f ∷ fs) = bytes_in f ++ all_bytes fs

-- all bytes so far: those with a fate, and those held
abbrev pub taken : Inbound → List ℕ
taken x = all_bytes x.fates ++ x.held

unfoldable pub only_bytes : List (ℕ × Bool) → List ℕ
only_bytes [] = []
only_bytes ((b, owns) ∷ bs) = b ∷ only_bytes bs

-- Each frame that was handled has the length that it says and the checksum.
unfoldable pub AllFrames : List Fate → Type 0
AllFrames [] = true ≡ true
AllFrames (to_uart bs ∷ fs) = AllFrames fs
AllFrames (dropped bs ∷ fs) = AllFrames fs
AllFrames (handled f ∷ fs) = (cal_frame_crc_ok f ≡ true) × AllFrames fs

all_bytes-snoc : (fs : List Fate) (f : Fate) → all_bytes (fs ++ f ∷ []) ≡ all_bytes fs ++ bytes_in f
unfolding all_bytes
all_bytes-snoc [] f = append-nil (bytes_in f)
all_bytes-snoc (g ∷ fs) f =
    ap (λ r. bytes_in g ++ r) (all_bytes-snoc fs f)
    ∙ sym (append_assoc (bytes_in g) (all_bytes fs) (bytes_in f))

passed-bytes : (owns : Bool) (bs : List ℕ) → bytes_in (passed_on owns bs) ≡ bs
passed-bytes true bs = refl
passed-bytes false bs = refl

taken-give :
    (f : Fate) (fs : List Fate)
    → taken (record { held = []; fates = fs ++ f ∷ [] }) ≡ all_bytes fs ++ bytes_in f
taken-give f fs = append-nil (all_bytes (fs ++ f ∷ [])) ∙ all_bytes-snoc fs f

taken-flush : (owns : Bool) (x : Inbound) → taken (cal_flush_held owns x) ≡ taken x
taken-flush owns x =
    taken-give (passed_on owns x.held) x.fates
    ∙ ap (λ r. all_bytes x.fates ++ r) (passed-bytes owns x.held)

taken-hold : (owns : Bool) (b : ℕ) (x : Inbound) → taken (hold owns b x) ≡ taken x ++ b ∷ []
taken-hold owns b x = sym (append_assoc (all_bytes x.fates) x.held (b ∷ []))

AllFrames-snoc :
    (fs : List Fate) (f : Fate) → AllFrames (f ∷ []) → AllFrames fs → AllFrames (fs ++ f ∷ [])
unfolding AllFrames
AllFrames-snoc [] f h a = h
AllFrames-snoc (to_uart bs ∷ fs) f h a = AllFrames-snoc fs f h a
AllFrames-snoc (dropped bs ∷ fs) f h a = AllFrames-snoc fs f h a
AllFrames-snoc (handled g ∷ fs) f h (e, a) = (e, AllFrames-snoc fs f h a)

AllFrames-pass :
    (owns : Bool) (bs : List ℕ) (fs : List Fate)
    → AllFrames fs
    → AllFrames (fs ++ passed_on owns bs ∷ [])
unfolding AllFrames
AllFrames-pass true bs fs a = AllFrames-snoc fs (dropped bs) refl a
AllFrames-pass false bs fs a = AllFrames-snoc fs (to_uart bs) refl a

module _ (owns : Bool) (b : ℕ) where
  end_frame-AllFrames : (y : Inbound) → AllFrames y.fates → AllFrames (end_frame owns y).fates
  unfolding end_frame AllFrames
  end_frame-AllFrames y a = elim (Bool-cases (cal_frame_crc_ok y.held)) [
    | inl e ↦ rw (e, end_frame) (AllFrames-snoc y.fates (handled y.held) (e, refl) a)
    | inr e ↦ rw (e, end_frame) (AllFrames-pass owns y.held y.fates a)
  ]

  later_byte-AllFrames : (y : Inbound) → AllFrames y.fates → AllFrames (later_byte owns y).fates
  unfolding later_byte
  later_byte-AllFrames y a =
      let P = λ (z : Inbound). AllFrames z.fates in
      if_intro P (length y.held == 8)
        (if_intro P (cal_len_valid_for_type (at y.held 4) (at16 y.held 6)) a
          (AllFrames-pass owns y.held y.fates a))
        (if_intro P (ltb (length y.held) 8) a (
          if_intro P (ltb (length y.held) ((cal_envelope_bytes + at16 y.held 6) % 2 ^ 16)) a
            (end_frame-AllFrames y a)))

  client_byte-AllFrames : (x : Inbound) → AllFrames x.fates → AllFrames (client_byte owns b x).fates
  unfolding client_byte cal_inbound_byte magic_byte
  client_byte-AllFrames x a =
      let c = AllFrames-pass owns x.held x.fates a in
      let Q = λ (r : Bool × Inbound).
        AllFrames (if r.0 then r.1 else give (passed_on owns (b ∷ [])) r.1).fates in
      if_intro Q (ltb (length x.held) 4)
        (if_intro Q (b == get_or cal_frame_magic (length x.held) 0) a (
          if_intro Q (b == get_or cal_frame_magic 0 0) c
            (AllFrames-pass owns (b ∷ []) (cal_flush_held owns x).fates c)))
        (later_byte-AllFrames (hold owns b x) a)

module _ (owns : Bool) (b : ℕ) where
  end_frame-taken : (y : Inbound) → taken (end_frame owns y) ≡ taken y
  unfolding end_frame
  end_frame-taken y =
      if_intro (λ (z : Inbound). taken z ≡ taken y) (cal_frame_crc_ok y.held)
        (taken-give (handled y.held) y.fates) (taken-flush owns y)

  later_byte-taken : (y : Inbound) → taken (later_byte owns y) ≡ taken y
  unfolding later_byte
  later_byte-taken y =
      let P = λ (z : Inbound). taken z ≡ taken y in
      if_intro P (length y.held == 8)
        (if_intro P (cal_len_valid_for_type (at y.held 4) (at16 y.held 6)) refl
          (taken-flush owns y))
        (if_intro P (ltb (length y.held) 8) refl (
          if_intro P (ltb (length y.held) ((cal_envelope_bytes + at16 y.held 6) % 2 ^ 16)) refl
            (end_frame-taken y)))

  client_byte-taken : (x : Inbound) → taken (client_byte owns b x) ≡ taken x ++ b ∷ []
  unfolding client_byte cal_inbound_byte magic_byte
  client_byte-taken x =
      let y = cal_flush_held owns x in
      let flushed = taken-hold owns b y ∙ ap (λ r. r ++ b ∷ []) (taken-flush owns x) in
      let passed : taken (give (passed_on owns (b ∷ [])) y) ≡ taken x ++ b ∷ [] =
        taken-give (passed_on owns (b ∷ [])) y.fates
        ∙ ap (λ r. all_bytes y.fates ++ r) (passed-bytes owns (b ∷ []))
        ∙ ap (λ r. r ++ b ∷ []) (sym (append-nil (all_bytes y.fates)) ∙ taken-flush owns x) in
      let Q = λ (r : Bool × Inbound).
        taken (if r.0 then r.1 else give (passed_on owns (b ∷ [])) r.1) ≡ taken x ++ b ∷ [] in
      if_intro Q (ltb (length x.held) 4)
        (if_intro Q (b == get_or cal_frame_magic (length x.held) 0) (taken-hold owns b x)
          (if_intro Q (b == get_or cal_frame_magic 0 0) flushed passed))
        (later_byte-taken (hold owns b x) ∙ taken-hold owns b x)

client_bytes-taken :
    (bs : List (ℕ × Bool)) (x : Inbound) → taken (client_bytes bs x) ≡ taken x ++ only_bytes bs
unfolding client_bytes only_bytes
client_bytes-taken [] x = sym (append-nil (taken x))
client_bytes-taken ((b, owns) ∷ bs) x =
    client_bytes-taken bs (client_byte owns b x)
    ∙ ap (λ r. r ++ only_bytes bs) (client_byte-taken owns b x)
    ∙ append_assoc (taken x) (b ∷ []) (only_bytes bs)

client_bytes-AllFrames :
    (bs : List (ℕ × Bool)) (x : Inbound) → AllFrames x.fates → AllFrames (client_bytes bs x).fates
unfolding client_bytes
client_bytes-AllFrames [] x a = a
client_bytes-AllFrames ((b, owns) ∷ bs) x a =
    client_bytes-AllFrames bs (client_byte owns b x) (client_byte-AllFrames owns b x a)

-- Whatever bytes come from the client, each is held, or has gone to the bridge, or was dropped, or belongs
-- to a frame that was handled, all in the order of their arrival. What a byte settles, itself and those
-- held before it, goes to the bridge only if the uploader does not own the UART as it comes, and is dropped
-- only if it does. Every frame handled has the length that it says and the right checksum, if those before
-- had.
pub client_bytes-lossless :
    (bs : List (ℕ × Bool)) (x : Inbound)
    → AllFrames x.fates
    → (taken (client_bytes bs x) ≡ taken x ++ only_bytes bs)
      × Follows bs x.fates (client_bytes bs x).fates
      × AllFrames (client_bytes bs x).fates
client_bytes-lossless bs x a =
    (client_bytes-taken bs x, client_bytes-Follows bs x, client_bytes-AllFrames bs x a)
