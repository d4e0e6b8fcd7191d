-- ===== src/Packed/Tag.antt =====
-- internal/packed/packed.go: the tag of a word and its bytes that are not zero.
use go_capnproto.Prelude.{
  ℕ, suc, ◌+◌, ◌*◌, ◌/◌, ◌%◌, ◌^◌, ◌≤◌, ◌<◌, ◌≡◌, refl, arith, ap, ap₂, ◌∙◌, sym, bit_or, List, [],
  ◌∷◌, ◌++◌, length, ◌==◌, u8, if◌then◌else◌, Bool-cases, inl, inr, true,
}
use go_capnproto.Prelude.{append-nil, append_assoc, take, drop, take-append, drop-append, ==_iff}
use native.Mathlib.Nat.{pow-suc}
use go_capnproto.Prelude.Bit.{below_eight}
use go_capnproto.Prelude.Bits.{bit_or_low_high}
use go_capnproto.Packed.{scan_byte, scan}
use go_capnproto.Packed.Format.{first_word, spread}

-- The tag of a word, and its bytes that are not zero.
abbrev digit_of : ℕ → ℕ
digit_of b = if b == 0 then 0 else 1

unfoldable pub tag : List ℕ → ℕ
tag [] = 0
tag (b ∷ bs) = digit_of b + 2 * tag bs

unfoldable pub nonzero : List ℕ → List ℕ
nonzero [] = []
nonzero (b ∷ bs) = if b == 0 then nonzero bs else b ∷ nonzero bs

pub small_power : (i : ℕ) → i < 8 → u8 (2 ^ i) ≡ 2 ^ i
small_power i h =
    below_eight (λ j. u8 (2 ^ j) ≡ 2 ^ j) (refl, refl, refl, refl, refl, refl, refl, refl) i h

power_next : (i : ℕ) → 2 ^ (i + 1) ≡ 2 * 2 ^ i
power_next i = ap (λ k. 2 ^ k) (next i) ∙ omega (arith, pow-suc 2 i)
  where
    next : (i : ℕ) → i + 1 ≡ suc i
    next i = omega arith

shifted : (p q hdr t : ℕ) → q ≡ 2 * p → hdr + q * t ≡ hdr + p * (0 + 2 * t)
shifted p q hdr t e = omega (arith, ap (λ (k : ℕ). k * t) e)

shifted_one : (p q hdr t : ℕ) → q ≡ 2 * p → hdr + p + q * t ≡ hdr + p * (1 + 2 * t)
shifted_one p q hdr t e = omega (arith, ap (λ (k : ℕ). k * t) e)

new_bit : (hdr i : ℕ) → hdr < 2 ^ i → i < 8 → bit_or hdr (u8 (2 ^ i)) ≡ hdr + 2 ^ i
new_bit hdr i small lt =
    ap (bit_or hdr) (small_power i lt ∙ once (2 ^ i))
    ∙ bit_or_low_high i hdr 1 small
    ∙ ap (λ k. hdr + k) (sym (once (2 ^ i)))
  where
    once : (k : ℕ) → k ≡ 1 * k
    once k = omega arith

pub scan_lem :
    (i : ℕ) (bs : List ℕ) (hdr : ℕ) (buf : List ℕ)
    → hdr < 2 ^ i
    → i + length bs ≤ 8
    → scan i bs hdr buf ≡ (hdr + 2 ^ i * tag bs, buf ++ nonzero bs)
unfolding scan scan_byte tag nonzero
scan_lem i [] hdr buf small fits = ap₂ (λ x y. (x, y)) (omega arith) (sym (append-nil buf))
scan_lem i (b ∷ bs) hdr buf small fits = elim (Bool-cases (b == 0)) [
  | inl z ↦ rw z (
      scan_lem (i + 1) bs hdr buf (omega (arith, power_next i)) (omega arith)
      ∙ ap₂ (λ x y. (x, y)) (shifted (2 ^ i) (2 ^ (i + 1)) hdr (tag bs) (power_next i)) refl)
  | inr nz ↦ rw nz (
      ap (λ h. scan (i + 1) bs h (buf ++ (b ∷ []))) (new_bit hdr i small (omega arith))
      ∙ scan_lem (i + 1) bs (hdr + 2 ^ i) (buf ++ (b ∷ [])) (omega (arith, power_next i))
          (omega arith)
      ∙ ap₂ (λ x y. (x, y)) (shifted_one (2 ^ i) (2 ^ (i + 1)) hdr (tag bs) (power_next i))
          (append_assoc buf (b ∷ []) (nonzero bs)))
]

even_low : (t : ℕ) → (0 + 2 * t) % 2 ≡ 0
even_low t = omega arith

even_half : (t : ℕ) → (0 + 2 * t) / 2 ≡ t
even_half t = omega arith

odd_low : (t : ℕ) → (1 + 2 * t) % 2 ≡ 1
odd_low t = omega arith

odd_half : (t : ℕ) → (1 + 2 * t) / 2 ≡ t
odd_half t = omega arith

pub zero_of : (b : ℕ) → (b == 0) ≡ true → 0 ≡ b
zero_of b z = ground arith

pub spread_lem : (w rest : List ℕ) → spread (length w) (tag w) (nonzero w ++ rest) ≡ (w, rest)
unfolding spread tag nonzero
spread_lem [] rest = refl
spread_lem (b ∷ w) rest = elim (Bool-cases (b == 0)) [
  | inl z ↦
      rw (z, even_low (tag w), even_half (tag w), spread_lem w rest)
        (ap (λ x. (x ∷ w, rest)) (zero_of b z))
  | inr nz ↦ rw (nz, odd_low (tag w), odd_half (tag w), spread_lem w rest) refl
]

-- A tag with all its bits set.
pub tag-lt : (w : List ℕ) → tag w < 2 ^ length w
unfolding tag
tag-lt [] = omega arith
tag-lt (b ∷ w) = ground (arith, tag-lt w, pow-suc 2 (length w))

pub nonzero_full : (w : List ℕ) → tag w + 1 ≡ 2 ^ length w → nonzero w ≡ w
unfolding tag nonzero
nonzero_full [] e = refl
nonzero_full (b ∷ w) e = elim (Bool-cases (b == 0)) [
  | inl z ↦ absurd (ground (arith, z, e, tag-lt w, pow-suc 2 (length w)))
  | inr nz ↦ rw nz (ap (λ t. b ∷ t) (nonzero_full w (ground (arith, nz, e, pow-suc 2 (length w)))))
]

pub first_word_lem :
    (w rest : List ℕ) → length w ≡ 8 → first_word (tag w) (nonzero w ++ rest) ≡ (w, rest)
unfolding first_word
first_word_lem w rest h = elim (Bool-cases (tag w == 0xff)) [
  | inl full ↦ rw full (
      ap (λ t. (take 8 (t ++ rest), drop 8 (t ++ rest)))
        (nonzero_full w (ap (λ k. k + 1) ((==_iff (tag w) 0xff).0 full) ∙ ap (λ k. 2 ^ k) (sym h)))
      ∙ ap (λ k. (take k (w ++ rest), drop k (w ++ rest))) (sym h)
      ∙ ap₂ (λ x y. (x, y)) (take-append w rest) (drop-append w rest))
  | inr some ↦ rw some (ap (λ n. spread n (tag w) (nonzero w ++ rest)) (sym h) ∙ spread_lem w rest)
]
