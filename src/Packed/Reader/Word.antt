-- ===== src/Packed/Reader/Word.antt =====
-- internal/packed/packed.go: the bytes of a word that the decompressor places by the tag's bits.
use go_capnproto.Prelude.{
  ℕ, zero, suc, ◌+◌, ◌*◌, ◌/◌, ◌%◌, ◌^◌, ◌≤◌, ◌<◌, ◌≡◌, refl, sym, arith, ap, ap₂, ◌∙◌, bit_and,
  List, [], ◌∷◌, length, drop, ◌==◌, u8, if◌then◌else◌, true, false,
}
use native.Mathlib.Decide.{ℕ_discrete}
use native.Mathlib.Nat.{pow-suc}
use go_capnproto.Prelude.Bit.{digit, bit_and-digit}
use go_capnproto.Packed.Format.{head_or, put_byte, spread}
use go_capnproto.Packed.Stream.{ones}
use go_capnproto.Packed.Tag.{small_power}
use go_capnproto.Packed.Reader.{count_ones, place_byte, place_bytes}

power_pos : (i : ℕ) → 0 < 2 ^ i
power_pos zero = omega arith
power_pos (suc i) = omega (arith, pow-suc 2 i, power_pos i)

mask_clear : (t i : ℕ) → i < 8 → digit t i ≡ 0 → (bit_and t (u8 (2 ^ i)) == 0) ≡ true
mask_clear t i h z =
    ap (λ k. bit_and t k == 0) (small_power i h)
    ∙ ap (λ k. k == 0) (bit_and-digit t i ∙ ap (λ k. k * 2 ^ i) z)
    ∙ none_of (2 ^ i)
  where
    none_of : (p : ℕ) → (0 * p == 0) ≡ true
    none_of p = ground arith

mask_set : (t i : ℕ) → i < 8 → digit t i ≡ 1 → (bit_and t (u8 (2 ^ i)) == 0) ≡ false
mask_set t i h e =
    ap (λ k. bit_and t k == 0) (small_power i h)
    ∙ ap (λ k. k == 0) (bit_and-digit t i ∙ ap (λ k. k * 2 ^ i) e)
    ∙ positive (2 ^ i) (power_pos i)
  where
    positive : (p : ℕ) → 0 < p → (1 * p == 0) ≡ false
    positive p h = ground arith

-- `s` has the bits of `t` from `i` on.
abbrev pub Shifted : ℕ → ℕ → ℕ → Type 0
Shifted t i s = (j : ℕ) → digit t (i + j) ≡ digit s j

bit_here : (t i s : ℕ) → Shifted t i s → digit t i ≡ s % 2
bit_here t i s h = ap (digit t) {x = i} {y = i + 0} (omega arith) ∙ h 0

bits_next : (t i s : ℕ) → Shifted t i s → Shifted t (i + 1) (s / 2)
bits_next t i s h j = ap (digit t) {x = i + 1 + j} {y = i + suc j} (omega arith) ∙ h (suc j)

parity : (s : ℕ) → (s % 2 ≡ 0 → ⊥) → s % 2 ≡ 1
parity s h = omega arith

pub count_ones_lem : (n i t s : ℕ) → i + n ≤ 8 → Shifted t i s → count_ones n i t ≡ ones n s
unfolding count_ones ones
count_ones_lem zero i t s fits h = refl
count_ones_lem (suc n) i t s fits h =
    let rest : count_ones n (i + 1) t ≡ ones n (s / 2) =
      count_ones_lem n (i + 1) t (s / 2) (omega arith) (bits_next t i s h) in
    elim (ℕ_discrete (s % 2) 0) [
      | yes e ↦
          ap (λ c. (if c then 0 else 1) + count_ones n (i + 1) t)
            (mask_clear t i (omega arith) (bit_here t i s h ∙ e))
          ∙ ap₂ (λ a b. a + b) (sym e) rest
      | no ne ↦
          ap (λ c. (if c then 0 else 1) + count_ones n (i + 1) t)
            (mask_set t i (omega arith) (bit_here t i s h ∙ parity s ne))
          ∙ ap₂ (λ a b. a + b) (sym (parity s ne)) rest
    ]

place_set : (b : List ℕ) → place_byte false b ≡ (head_or 0 b, drop 1 b)
unfolding place_byte
place_set [] = refl
place_set (b ∷ bs) = refl

pub place_bytes_lem :
    (n i t s : ℕ) (buf : List ℕ)
    → i + n ≤ 8
    → Shifted t i s
    → place_bytes n i t buf ≡ (spread n s buf).0
unfolding place_bytes spread place_byte
place_bytes_lem zero i t s buf fits h = refl
place_bytes_lem (suc n) i t s buf fits h =
    let rest : (xs : List ℕ) → place_bytes n (i + 1) t xs ≡ (spread n (s / 2) xs).0 =
      λ xs. place_bytes_lem n (i + 1) t (s / 2) xs (omega arith) (bits_next t i s h) in
    elim (ℕ_discrete (s % 2) 0) [
      | yes e ↦
          ap (λ c. (place_byte c buf).0 ∷ place_bytes n (i + 1) t (place_byte c buf).1)
            (mask_clear t i (omega arith) (bit_here t i s h ∙ e))
          ∙ ap (λ r. 0 ∷ r) (rest buf)
          ∙ ap (λ k. (put_byte k (head_or 0 buf) (spread n (s / 2) (drop k buf))).0) (sym e)
      | no ne ↦
          ap (λ c. (place_byte c buf).0 ∷ place_bytes n (i + 1) t (place_byte c buf).1)
            (mask_set t i (omega arith) (bit_here t i s h ∙ parity s ne))
          ∙ ap (λ r. r.0 ∷ place_bytes n (i + 1) t r.1) (place_set buf)
          ∙ ap (λ r. head_or 0 buf ∷ r) (rest (drop 1 buf))
          ∙ ap (λ k. (put_byte k (head_or 0 buf) (spread n (s / 2) (drop k buf))).0)
              (sym (parity s ne))
    ]

pub length-spread : (n t : ℕ) (buf : List ℕ) → length (spread n t buf).0 ≡ n
unfolding spread
length-spread zero t buf = refl
length-spread (suc n) t buf =
    longer (t % 2) (head_or 0 buf) (spread n (t / 2) (drop (t % 2) buf))
    ∙ ap suc (length-spread n (t / 2) (drop (t % 2) buf))
  where
    longer : (k b : ℕ) (r : List ℕ × List ℕ) → length (put_byte k b r).0 ≡ suc (length r.0)
    longer zero b r = refl
    longer (suc k) b r = refl
