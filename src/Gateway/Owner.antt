-- ===== src/Gateway/Owner.antt =====
-- Bytes of the client that are not the Gateway's (SimGateway.cpp) go to the bridge, or are dropped while the
-- uploader owns the UART.
use open_skyhawk.Base.{
  ℕ, ◌≡◌, refl, sym, subst, Bool, true, false, List, [], ◌∷◌, ◌++◌, length, append-nil,
  append_assoc, if_intro, if◌then◌else◌, ltb, ◌==◌, get_or, ◌+◌, ◌%◌, ◌^◌,
}
use open_skyhawk.Boot.Session.{at, at16}
use open_skyhawk.Gateway.Frame.{
  cal_frame_magic, cal_envelope_bytes, cal_len_valid_for_type, cal_frame_crc_ok,
}
use open_skyhawk.Gateway.Inbound.{
  Fate, to_uart, dropped, handled, passed_on, Inbound, give, cal_flush_held, hold, magic_byte,
  end_frame, later_byte, cal_inbound_byte, client_byte, client_bytes,
}

-- What has become of bytes while the uploader owned the UART, or did not: none went to the bridge while it
-- did, and none was dropped while it did not.
unfoldable pub Obeys : Bool → List Fate → Type 0
Obeys owns [] = true ≡ true
Obeys owns (to_uart bs ∷ fs) = (owns ≡ false) × Obeys owns fs
Obeys owns (dropped bs ∷ fs) = (owns ≡ true) × Obeys owns fs
Obeys owns (handled f ∷ fs) = Obeys owns fs

-- From the first fates to the last ones, each byte adds some that obey the owner of the UART as it comes.
unfoldable pub Follows : List (ℕ × Bool) → List Fate → List Fate → Type 0
Follows [] fs gs = gs ≡ fs
Follows ((b, owns) ∷ bs) fs gs = (new : List Fate) × (Obeys owns new × Follows bs (fs ++ new) gs)

-- The second list of fates is the first with some that obey the owner of the UART.
abbrev Adds : Bool → List Fate → List Fate → Type 0
Adds owns fs gs = (new : List Fate) × (Obeys owns new × (gs ≡ fs ++ new))

passed-Obeys :
    (owns : Bool) (bs : List ℕ) (fs : List Fate)
    → Obeys owns fs
    → Obeys owns (passed_on owns bs ∷ fs)
unfolding Obeys
passed-Obeys true bs fs o = (refl, o)
passed-Obeys false bs fs o = (refl, o)

module _ (owns : Bool) (b : ℕ) where
  nothing-Adds : (fs : List Fate) → Adds owns fs fs
  unfolding Obeys
  nothing-Adds fs = ([], (refl, sym (append-nil fs)))

  passed-Adds : (bs : List ℕ) (fs : List Fate) → Adds owns fs (fs ++ passed_on owns bs ∷ [])
  unfolding Obeys
  passed-Adds bs fs = (passed_on owns bs ∷ [], (passed-Obeys owns bs [] refl, refl))

  end_frame-Adds : (y : Inbound) → Adds owns y.fates (end_frame owns y).fates
  unfolding end_frame Obeys
  end_frame-Adds y =
      if_intro (λ (z : Inbound). Adds owns y.fates z.fates) (cal_frame_crc_ok y.held)
        (handled y.held ∷ [], (refl, refl)) (passed-Adds y.held y.fates)

  later_byte-Adds : (y : Inbound) → Adds owns y.fates (later_byte owns y).fates
  unfolding later_byte
  later_byte-Adds y =
      let P = λ (z : Inbound). Adds owns y.fates z.fates in
      let nothing = nothing-Adds y.fates in
      if_intro P (length y.held == 8)
        (if_intro P (cal_len_valid_for_type (at y.held 4) (at16 y.held 6)) nothing
          (passed-Adds y.held y.fates))
        (if_intro P (ltb (length y.held) 8) nothing (
          if_intro P (ltb (length y.held) ((cal_envelope_bytes + at16 y.held 6) % 2 ^ 16)) nothing
            (end_frame-Adds y)))

  client_byte-Adds : (x : Inbound) → Adds owns x.fates (client_byte owns b x).fates
  unfolding client_byte cal_inbound_byte magic_byte Obeys
  client_byte-Adds x =
      let Q = λ (r : Bool × Inbound).
        Adds owns x.fates (if r.0 then r.1 else give (passed_on owns (b ∷ [])) r.1).fates in
      let both : Adds owns x.fates (give (passed_on owns (b ∷ [])) (cal_flush_held owns x)).fates =
        (
          passed_on owns x.held ∷ passed_on owns (b ∷ []) ∷ [],
          (
            passed-Obeys owns x.held _ (passed-Obeys owns (b ∷ []) [] refl),
            append_assoc x.fates (passed_on owns x.held ∷ []) (passed_on owns (b ∷ []) ∷ []),
          ),
        ) in
      if_intro Q (ltb (length x.held) 4)
        (if_intro Q (b == get_or cal_frame_magic (length x.held) 0) (nothing-Adds x.fates)
          (if_intro Q (b == get_or cal_frame_magic 0 0) (passed-Adds x.held x.fates) both))
        (later_byte-Adds (hold owns b x))

pub client_bytes-Follows :
    (bs : List (ℕ × Bool)) (x : Inbound) → Follows bs x.fates (client_bytes bs x).fates
unfolding client_bytes Follows
client_bytes-Follows [] x = refl
client_bytes-Follows ((b, owns) ∷ bs) x =
    let (new, (o, e)) = client_byte-Adds owns b x in
    let y = client_byte owns b x in
    (new, (o, subst (λ fs. Follows bs fs (client_bytes bs y).fates) e (client_bytes-Follows bs y)))
