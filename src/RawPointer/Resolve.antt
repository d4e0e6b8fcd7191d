-- ===== src/RawPointer/Resolve.antt =====
-- rawpointer.go: `makePointerOffset` and `resolve`, where a pointer leads, and landing pads.
use go_capnproto.Prelude.{
  ℕ, suc, ◌+◌, ◌-◌, ◌*◌, ◌/◌, ◌%◌, ◌^◌, ◌≤◌, ◌<◌, ◌≡◌, ◌≢◌, arith, ap, ap₂, ◌∙◌,
}
use go_capnproto.Prelude.{negsuc, FitsSigned, IsU16, IsU32, ok, some, shl64, sub32}
use go_capnproto.Prelude.{bit_or}
use go_capnproto.Prelude.Bits.{bit_or_halves, bit_or_low_high, bit_or_comm}
use go_capnproto.RawPointer.{resolve, make_pointer_offset, landing_pad_near_pointer, offset}
use go_capnproto.RawPointer.{raw_struct_pointer, object_size, raw_far_pointer}
use go_capnproto.RawPointer.Fields.{far_address_lem, offset_lem, raw_far_pointer_lem}
use go_capnproto.RawPointer.RoundTrip.{raw_struct_pointer_roundtrip}

-- An offset between two words of a segment takes 30 bits.
pub make_pointer_offset-FitsSigned :
    (a b : ℕ) → a < 2 ^ 29 → b < 2 ^ 29 → FitsSigned 30 (make_pointer_offset (8 * a) (8 * b))
unfolding make_pointer_offset
make_pointer_offset-FitsSigned a b ha hb = ground arith

-- Following the offset that `makePointerOffset` computes leads from the pointer's word back to the
-- target word, for any two words of a 4 GB segment that are not both its first word.
pub resolve-make_pointer_offset :
    (a b : ℕ)
    → a < 2 ^ 29
    → b < 2 ^ 29
    → 0 < a + b
    → resolve (make_pointer_offset (8 * a) (8 * b)) (8 * a) ≡ some (8 * b)
unfolding resolve make_pointer_offset
resolve-make_pointer_offset a b ha hb h = ground arith

-- A struct pointer written at word `a` for an object at word `b` leads to `b` when it is read.
pub struct_pointer_reaches :
    (a b words pointers : ℕ)
    → a < 2 ^ 29
    → b < 2 ^ 29
    → 0 < a + b
    → IsU16 words
    → IsU16 pointers
    → (p : ℕ) × (raw_struct_pointer
          (make_pointer_offset (8 * a) (8 * b))
          (object_size (8 * words) pointers)
        ≡ ok p)
      × (resolve (offset p) (8 * a) ≡ some (8 * b))
struct_pointer_reaches a b words pointers ha hb h hw hp =
    let fits = make_pointer_offset-FitsSigned a b ha hb in
    let (p, built, kind, off, size) = raw_struct_pointer_roundtrip _ words pointers fits hw hp in
    (p, built, rw off (resolve-make_pointer_offset a b ha hb h))

-- An offset back by `k` words that stays in the segment leads there exactly.
pub resolve_back :
    (paddr k : ℕ)
    → paddr < 2 ^ 32 - 8
    → 8 * suc k ≤ paddr + 8
    → 0 < paddr
    → resolve (negsuc k) paddr ≡ some (paddr + 8 - 8 * suc k)
unfolding resolve
resolve_back paddr k hp hk h0 = ground arith

-- The test of `resolve` compares an offset in words with an address in bytes. In a pointer at an
-- address below 2 ^ 29, an offset back by more bytes than lie before the pointer's end, but by no
-- more words than the pointer's address counts bytes, is let through, and the address wraps round
-- to one above the pointer.
pub resolve_wraps :
    (paddr k : ℕ)
    → paddr < 2 ^ 29
    → paddr + 8 < 8 * suc k
    → suc k ≤ paddr
    → (addr : ℕ) × (resolve (negsuc k) paddr ≡ some addr)
      × (addr + 8 * suc k ≡ 2 ^ 32 + paddr + 8)
      × (paddr < addr)
unfolding resolve
resolve_wraps paddr k hp hk h =
    (2 ^ 32 + paddr + 8 - 8 * suc k, ground arith, omega arith, omega arith)

-- A tag whose offset is zero, joined with bits 2 to 31.
tag_with_offset :
    (t high x : ℕ)
    → t < 4
    → x < 2 ^ 30
    → bit_or (t + high * 2 ^ 32) (x * 4) ≡ t + x * 4 + high * 2 ^ 32
tag_with_offset t high x ht hx = omega (
  arith,
  bit_or_halves (t + high * 2 ^ 32) (x * 4),
  bit_or_halves ((t + high * 2 ^ 32) / 2) (x * 4 / 2),
  ap₂ bit_or upper lower,
  bit_or_comm (high * 2 ^ 30) x,
  bit_or_low_high 30 x high hx,
)
  where
    upper : (t + high * 2 ^ 32) / 2 / 2 ≡ high * 2 ^ 30
    upper = omega arith

    lower : x * 4 / 2 / 2 ≡ x
    lower = omega arith

-- `landingPadNearPointer` shifts the target's byte address, not its word address, into the offset.
-- From the start of the segment the near pointer leads to 64 * k - 56 for an object at word `k`.
pub landing_pad_near_pointer_lem :
    (seg k t high : ℕ)
    → IsU32 seg
    → 1 ≤ k
    → k < 2 ^ 26
    → t < 4
    → (near : ℕ) × (landing_pad_near_pointer (raw_far_pointer seg (8 * k)) (t + high * 2 ^ 32)
        ≡ ok near)
      × (resolve (offset near) 0 ≡ some (64 * k - 56))
unfolding landing_pad_near_pointer resolve
landing_pad_near_pointer_lem seg k t high hs hk hk' ht = (
  t + (8 * k - 8) * 4 + high * 2 ^ 32,
  rw (raw_far_pointer_lem seg (8 * k) hs (omega arith), far_address_lem)
      (ap ok (
        ap (bit_or (t + high * 2 ^ 32)) shifted
        ∙ tag_with_offset t high (8 * k - 8) ht (omega arith))),
  ground (arith, offset_lem (t + (8 * k - 8) * 4 + high * 2 ^ 32)),
)
  where
    shifted :
        shl64 (sub32 (8 * ((2 + 8 * k / 8 * 8 + seg * 2 ^ 32) % 2 ^ 32 / 8)) 8) 2 ≡ (8 * k - 8) * 4
    shifted = omega arith

-- So the object behind a double far pointer is found only if it lies at the segment's second word.
pub landing_pad_misses :
    (seg k t high : ℕ)
    → IsU32 seg
    → 2 ≤ k
    → k < 2 ^ 26
    → t < 4
    → (near : ℕ) × (landing_pad_near_pointer (raw_far_pointer seg (8 * k)) (t + high * 2 ^ 32)
        ≡ ok near)
      × (resolve (offset near) 0 ≢ some (8 * k))
landing_pad_misses seg k t high hs hk hk' ht =
    let (near, built, leads) = landing_pad_near_pointer_lem seg k t high hs (omega arith) hk' ht in
    (near, built, λ e. ground (arith, leads, e))
