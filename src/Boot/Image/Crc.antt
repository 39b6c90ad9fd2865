-- ===== src/Boot/Image/Crc.antt =====
-- Laws of `crc_feed`: it reads only the bytes that it is given, and it may be fed in parts.
use open_skyhawk.Base.{
  ℕ, zero, suc, ◌+◌, ◌*◌, ◌≤◌, ◌<◌, ◌≡◌, refl, ◌∙◌, ap, arith, ◌==◌, if◌then◌else◌,
}
use open_skyhawk.Boot.Flash.{Mem, rd8, le32, Chip}
use open_skyhawk.Boot.Image.{crc_skip, crc_feed_from}

pub le32_congr :
    (d e : Mem) (i j : ℕ)
    → rd8 d i ≡ rd8 e j
    → rd8 d (i + 1) ≡ rd8 e (j + 1)
    → rd8 d (i + 2) ≡ rd8 e (j + 2)
    → rd8 d (i + 3) ≡ rd8 e (j + 3)
    → le32 d i ≡ le32 e j
le32_congr d e i j p q r s = omega arith

module _ (c : Chip) where
  -- Two runs over the same bytes, the second `s` bytes further on in its own buffer.
  pub crc_feed_from_congr :
      (k i s base base' : ℕ) (d e : Mem) (dr : ℕ)
      → base + i ≡ base' + (s + i)
      → ((j : ℕ) → i ≤ j → j < i + 4 * k → rd8 d j ≡ rd8 e (s + j))
      → crc_feed_from c k i d base dr ≡ crc_feed_from c k (s + i) e base' dr
  unfolding crc_feed_from
  crc_feed_from_congr zero i s base base' d e dr b h = refl
  crc_feed_from_congr (suc k) i s base base' d e dr b h =
      let w : le32 d i ≡ le32 e (s + i) =
        le32_congr d e i (s + i) (h i (omega arith) (omega arith))
          (ap (λ x. rd8 d x) (omega arith)
            ∙ (h (i + 1) (omega arith) (omega arith) ∙ ap (λ x. rd8 e x) (omega arith)))
          (h (i + 2) (omega arith) (omega arith) ∙ ap (λ x. rd8 e x) (omega arith))
          (h (i + 3) (omega arith) (omega arith) ∙ ap (λ x. rd8 e x) (omega arith)) in
      let next = if base' + (s + i) == crc_skip then dr else c.crc_word dr (le32 e (s + i)) in
      rw (b, w)
        (crc_feed_from_congr k (i + 4) s base base' d e next (omega arith)
            (λ j p q. h j (omega arith) (omega arith))
          ∙ ap (λ x. crc_feed_from c k x e base' next) (omega arith))

  -- Feeding a + b words is feeding a words and then b.
  pub crc_feed_from_add :
      (a b i base : ℕ) (d : Mem) (dr : ℕ)
      → crc_feed_from c (a + b) i d base dr
        ≡ crc_feed_from c b (i + 4 * a) d base (crc_feed_from c a i d base dr)
  unfolding crc_feed_from
  crc_feed_from_add zero b i base d dr =
      let p : 0 + b ≡ b = omega arith in let q : i + 4 * 0 ≡ i = omega arith in rw (p, q)
  crc_feed_from_add (suc a) b i base d dr =
      let next = if base + i == crc_skip then dr else c.crc_word dr (le32 d i) in
      let e : suc a + b ≡ suc (a + b) = omega arith in
      rw e (
        crc_feed_from_add a b (i + 4) base d next
        ∙ ap (λ x. crc_feed_from c b x d base (crc_feed_from c a (i + 4) d base next))
            (omega arith))
