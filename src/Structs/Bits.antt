-- ===== src/Structs/Bits.antt =====
-- struct.go: `Bit` and `SetBit`.
use go_capnproto.Prelude.{
  ℕ, zero, suc, ◌+◌, ◌*◌, ◌/◌, ◌%◌, ◌^◌, ◌≤◌, ◌<◌, ◌≡◌, ◌≢◌, ◌⊎◌, inl, inr, refl, arith, ap, ap₂,
  ◌∙◌, sym, some, none, Option, IsU32, length, ok, panic, out_of_bounds, Result, Bool, true, false,
  not, ◌==◌, bit_and, bit_or, u8, little_endian, put_little_endian, Bool-cases, if◌then◌else◌,
}
use native.Mathlib.Decide.{ℕ_discrete}
use native.Mathlib.Nat.{one-le-pow}
use go_capnproto.Prelude.Bits.{and_not}
use go_capnproto.Prelude.Bit.{
  below_eight, digit, digit-lt, bit_and-digit, digit-bit_or_self, digit-bit_or_ne,
  digit-and_not_self, digit-and_not_ne,
}
use go_capnproto.Address.{bit_mask, bit_byte_offset, add_offset}
use go_capnproto.Prelude
use go_capnproto.Prelude.{ok-injective, copy_at, List, [], ◌∷◌}
use go_capnproto.Segment.{Segment, slice, read_uint, write_uint}
use go_capnproto.Segment.Laws.{write_uint_lem, read_uint_inside}
use go_capnproto.Segment.Bounds.{bytes_at}
use go_capnproto.Message.{◌>>=◌, return, lift, Message, >>=-ok}
use go_capnproto.Pointer.{Struct}
use go_capnproto.Structs.{bit, set_bit, bit_in_data, bit_address, with_bit, read_at, write_at}
use go_capnproto.Structs.Fields.{Placed, read_at_held, write_at_held, storing, storing-Placed}

bit_mask_lem : (n : ℕ) → bit_mask n ≡ 2 ^ (n % 8)
unfolding bit_mask
bit_mask_lem n =
    below_eight (λ j. u8 (2 ^ j) ≡ 2 ^ j) (refl, refl, refl, refl, refl, refl, refl, refl) (n % 8)
      (omega arith)

-- A byte keeps the low eight bits.
digit-byte : (a j : ℕ) → j < 8 → digit (a % 256) j ≡ digit a j
digit-byte a j h =
    below_eight (λ j. digit (a % 256) j ≡ digit a j)
      (
        omega arith,
        omega arith,
        omega arith,
        omega arith,
        omega arith,
        omega arith,
        omega arith,
        omega arith,
      )
      j h

write_uint8_byte :
    (s : Segment) (addr v : ℕ) → write_uint 1 s addr v ≡ write_uint 1 s addr (v % 256)
unfolding write_uint
write_uint8_byte s addr v =
    ap
      (λ y.
        Prelude.◌>>=◌ (slice s addr 1) λ x. ok (record s { bytes = copy_at s.bytes addr (y ∷ []) }))
      (twice v)
  where
    twice : (v : ℕ) → v % 256 ≡ v % 256 % 256
    twice v = omega arith

-- The test of the mask is the bit.
mask_test : (b n : ℕ) → not (bit_and b (bit_mask n) == 0) ≡ (digit b (n % 8) == 1)
mask_test b n =
    ap (λ k. not (bit_and b k == 0)) (bit_mask_lem n)
    ∙ ap (λ k. not (k == 0)) (bit_and-digit b (n % 8))
    ∙ by_digit (digit b (n % 8)) (2 ^ (n % 8)) (digit-lt b (n % 8))
        (one-le-pow (n % 8) 2 (omega arith))
  where
    by_digit : (d p : ℕ) → d < 2 → 1 ≤ p → not (d * p == 0) ≡ (d == 1)
    by_digit zero p h k = ground arith
    by_digit (suc zero) p h k = ground arith
    by_digit (suc (suc d)) p h k = absurd (omega arith)

with_bit_self : (b n : ℕ) (v : Bool) → (digit (with_bit b (bit_mask n) v % 256) (n % 8) == 1) ≡ v
with_bit_self b n true = ground (
  arith,
  digit-byte (bit_or b (bit_mask n)) (n % 8) (omega arith),
  ap (λ k. digit (bit_or b k) (n % 8)) (bit_mask_lem n),
  digit-bit_or_self b (n % 8),
)
with_bit_self b n false = ground (
  arith,
  digit-byte (and_not b (bit_mask n)) (n % 8) (omega arith),
  ap (λ k. digit (and_not b k) (n % 8)) (bit_mask_lem n),
  digit-and_not_self b (n % 8),
)

with_bit_ne :
    (b n k : ℕ) (v : Bool)
    → n % 8 ≢ k % 8
    → digit (with_bit b (bit_mask n) v % 256) (k % 8) ≡ digit b (k % 8)
with_bit_ne b n k true ne =
    digit-byte (bit_or b (bit_mask n)) (k % 8) (omega arith)
    ∙ ap (λ t. digit (bit_or b t) (k % 8)) (bit_mask_lem n)
    ∙ digit-bit_or_ne b (n % 8) (k % 8) ne
with_bit_ne b n k false ne =
    digit-byte (and_not b (bit_mask n)) (k % 8) (omega arith)
    ∙ ap (λ t. digit (and_not b t) (k % 8)) (bit_mask_lem n)
    ∙ digit-and_not_ne b (n % 8) (k % 8) ne

in_data :
    (m : Message) (p : Struct) (s : Segment) (n : ℕ)
    → Placed m p s
    → p.size.data_size * 8 < 2 ^ 32
    → n < p.size.data_size * 8
    → bit_in_data p n ≡ true
unfolding bit_in_data
in_data m p s n h small lt = rw (h.in_segment) (ground arith)

out :
    (p : Struct) (n : ℕ)
    → p.size.data_size * 8 < 2 ^ 32
    → p.size.data_size * 8 ≤ n
    → bit_in_data p n ≡ false
unfolding bit_in_data
out p n small le = ground (arith, small, le)

bit_address_lem :
    (m : Message) (p : Struct) (s : Segment) (n : ℕ)
    → Placed m p s
    → n < p.size.data_size * 8
    → bit_address p n ≡ p.off + n / 8
unfolding add_offset bit_byte_offset
bit_address_lem m p s n h lt = omega (arith, h.small, h.inside)

bit_at :
    (m : Message) (p : Struct) (s : Segment) (n b : ℕ)
    → Placed m p s
    → p.size.data_size * 8 < 2 ^ 32
    → n < p.size.data_size * 8
    → read_uint 1 s (p.off + n / 8) ≡ ok b
    → bit p n m ≡ ok (digit b (n % 8) == 1, m)
unfolding bit
bit_at m p s n b h small lt r =
    ap
      (λ c.
        (if c
            then (read_at 1 p.seg (bit_address p n) >>= λ x.
                return (not (bit_and x (bit_mask n) == 0)))
            else return false)
          m)
      (in_data m p s n h small lt)
    ∙ >>=-ok (read_at 1 p.seg (bit_address p n)) (λ x. return (not (bit_and x (bit_mask n) == 0))) m
        m b
        (read_at_held m p.seg s 1 (bit_address p n) b h.in_segment h.held
          (ap (read_uint 1 s) (bit_address_lem m p s n h lt) ∙ r))
    ∙ ap (λ c. ok (c, m)) (mask_test b n)

set_bit_at :
    (m : Message) (p : Struct) (s s' : Segment) (n b : ℕ) (v : Bool)
    → Placed m p s
    → p.size.data_size * 8 < 2 ^ 32
    → n < p.size.data_size * 8
    → read_uint 1 s (p.off + n / 8) ≡ ok b
    → write_uint 1 s (p.off + n / 8) (with_bit b (bit_mask n) v % 256) ≡ ok s'
    → set_bit p n v m ≡ ok (tt, storing m s')
unfolding set_bit
set_bit_at m p s s' n b v h small lt r w =
    ap
      (λ c.
        (if c
            then (read_at 1 p.seg (bit_address p n) >>= λ x.
                write_at 1 p.seg (bit_address p n) (with_bit x (bit_mask n) v))
            else lift (panic out_of_bounds))
          m)
      (in_data m p s n h small lt)
    ∙ >>=-ok (read_at 1 p.seg (bit_address p n))
        (λ x. write_at 1 p.seg (bit_address p n) (with_bit x (bit_mask n) v)) m m b
        (read_at_held m p.seg s 1 (bit_address p n) b h.in_segment h.held
          (ap (read_uint 1 s) at ∙ r))
    ∙ write_at_held m p.seg s s' 1 (bit_address p n) (with_bit b (bit_mask n) v) h.in_segment h.held
        (ap (λ a. write_uint 1 s a (with_bit b (bit_mask n) v)) at
          ∙ write_uint8_byte s (p.off + n / 8) (with_bit b (bit_mask n) v)
          ∙ w)
  where
    at : bit_address p n ≡ p.off + n / 8
    at = bit_address_lem m p s n h lt

-- The bit of the byte that `SetBit` writes, for the bit that is set and for another one of it.
other_byte :
    (s s' : Segment) (off n k b c w : ℕ)
    → read_uint 1 s (off + n / 8) ≡ ok b
    → read_uint 1 s (off + k / 8) ≡ ok c
    → read_uint 1 s' (off + n / 8) ≡ ok w
    → n / 8 ≡ k / 8
    → (b ≡ c) × (read_uint 1 s' (off + k / 8) ≡ ok w)
other_byte s s' off n k b c w rb rc rw' same = (
  ok-injective (sym rb ∙ ap (λ t. read_uint 1 s (off + t)) same ∙ rc),
  ap (λ t. read_uint 1 s' (off + t)) (sym same) ∙ rw',
)

-- In a struct whose data section lies in a segment that the message holds, and has fewer than 2 ^ 29
-- bytes: a bit of the section that is set to a value is read back with it, and every other bit of
-- the section reads as before.
pub set_bit-bit :
    (m : Message) (p : Struct) (s : Segment) (n k : ℕ) (v : Bool)
    → Placed m p s
    → p.size.data_size * 8 < 2 ^ 32
    → n < p.size.data_size * 8
    → k < p.size.data_size * 8
    → n ≢ k
    → (m' : Message) × (old : Bool) × (set_bit p n v m ≡ ok (tt, m'))
      × (bit p n m' ≡ ok (v, m'))
      × (bit p k m ≡ ok (old, m))
      × (bit p k m' ≡ ok (old, m'))
set_bit-bit m p s n k v h small ln lk ne = elim (ℕ_discrete (n / 8) (k / 8)) [
  | yes same ↦
      let (s', wrote, back, kept, len, sid, cap) =
        write_uint_lem 1 s (p.off + n / 8) w 0 0 h.small (omega (arith, h.inside)) byte
          (omega arith) (inl (omega arith)) in
      let placed = storing-Placed m p s s' h len sid in
      let (eq, back') = other_byte s s' p.off n k b c w rb rc back same in
      (
        storing m s',
        digit c (k % 8) == 1,
        set_bit_at m p s s' n b v h small ln rb wrote,
        bit_at (storing m s') p s' n w placed small ln back
            ∙ ap (λ x. ok (x, storing m s')) (with_bit_self b n v),
        bit_at m p s k c h small lk rc,
        bit_at (storing m s') p s' k w placed small lk back'
            ∙ ap (λ x. ok (x == 1, storing m s'))
                (with_bit_ne b n k v (λ e. ne (omega arith)) ∙ ap (λ x. digit x (k % 8)) eq),
      )
  | no apart ↦
      let (s', wrote, back, kept, len, sid, cap) =
        write_uint_lem 1 s (p.off + n / 8) w (p.off + k / 8) 1 h.small (omega (arith, h.inside))
          byte (omega (arith, h.inside)) (side apart) in
      let placed = storing-Placed m p s s' h len sid in
      (
        storing m s',
        digit c (k % 8) == 1,
        set_bit_at m p s s' n b v h small ln rb wrote,
        bit_at (storing m s') p s' n w placed small ln back
            ∙ ap (λ x. ok (x, storing m s')) (with_bit_self b n v),
        bit_at m p s k c h small lk rc,
        bit_at (storing m s') p s' k c placed small lk (kept ∙ rc),
      )
]
  where
    b : ℕ
    b = little_endian (bytes_at s (p.off + n / 8) 1)

    c : ℕ
    c = little_endian (bytes_at s (p.off + k / 8) 1)

    w : ℕ
    w = with_bit b (bit_mask n) v % 256

    byte : w < 256 ^ 1
    byte = omega arith

    rb : read_uint 1 s (p.off + n / 8) ≡ ok b
    rb = read_uint_inside 1 s (p.off + n / 8) h.small (omega (arith, h.inside))

    rc : read_uint 1 s (p.off + k / 8) ≡ ok c
    rc = read_uint_inside 1 s (p.off + k / 8) h.small (omega (arith, h.inside))

    side : n / 8 ≢ k / 8 → (p.off + k / 8 + 1 ≤ p.off + n / 8) ⊎ (p.off + n / 8 + 1 ≤ p.off + k / 8)
    side apart = ground (arith, apart)

-- Beyond the data section a bit reads as false and cannot be set.
pub bit_beyond :
    (m : Message) (p : Struct) (n : ℕ) (v : Bool)
    → p.size.data_size * 8 < 2 ^ 32
    → p.size.data_size * 8 ≤ n
    → (bit p n m ≡ ok (false, m)) × (set_bit p n v m ≡ panic out_of_bounds)
unfolding bit set_bit
bit_beyond m p n v small le = rw (out p n small le) (refl, refl)
