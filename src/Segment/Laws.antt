-- ===== src/Segment/Laws.antt =====
-- capn.go: integers written to a segment and read back.
use go_capnproto.Prelude.{ℕ, ◌+◌, ◌^◌, ◌≤◌, ◌<◌, ◌≡◌, ◌⊎◌, inl, inr, refl, arith, ap, ◌∙◌, sym}
use go_capnproto.Prelude.{
  length, take, drop, copy_at, little_endian, put_little_endian, IsU32, List,
}
use go_capnproto.Prelude.{
  length-put_little_endian, little_endian-put, length-copy_at, slice-copy_at_self,
}
use go_capnproto.Prelude.{drop-copy_at, slice-copy_at_before, ok, panic, out_of_bounds}
use go_capnproto.Segment.{Segment, read_uint, write_uint}
use go_capnproto.Segment.Bounds.{bytes_at, slice_inside, slice_outside}

-- A segment with a region overwritten.
abbrev pub written : Segment → ℕ → List ℕ → Segment
written s addr ys = record s { bytes = copy_at s.bytes addr ys }

-- A read inside the segment gives the little-endian number of its bytes.
pub read_uint_inside :
    (size : ℕ) (s : Segment) (addr : ℕ)
    → IsU32 (length s.bytes)
    → addr + size ≤ length s.bytes
    → read_uint size s addr ≡ ok (little_endian (bytes_at s addr size))
unfolding read_uint
read_uint_inside size s addr hl h = rw (slice_inside s addr size hl h)

pub write_uint_inside :
    (size : ℕ) (s : Segment) (addr v : ℕ)
    → IsU32 (length s.bytes)
    → addr + size ≤ length s.bytes
    → write_uint size s addr v ≡ ok (written s addr (put_little_endian size v))
unfolding write_uint
write_uint_inside size s addr v hl h = rw (slice_inside s addr size hl h)

-- Reads and writes that leave the segment panic, and write nothing.
pub read_write_outside :
    (size : ℕ) (s : Segment) (addr v : ℕ)
    → IsU32 (addr + size)
    → IsU32 (length s.bytes)
    → length s.bytes < addr + size
    → (read_uint size s addr ≡ panic out_of_bounds)
      × (write_uint size s addr v ≡ panic out_of_bounds)
unfolding read_uint write_uint
read_write_outside size s addr v ha hl h = rw (slice_outside s addr size ha hl h) (refl, refl)

-- The bytes of a region that does not meet the one overwritten.
pub bytes_at-written :
    (s : Segment) (addr : ℕ) (ys : List ℕ) (b n : ℕ)
    → (b + n ≤ addr) ⊎ (addr + length ys ≤ b)
    → bytes_at (written s addr ys) b n ≡ bytes_at s b n
bytes_at-written s addr ys b n (inl h) = slice-copy_at_before s.bytes addr ys b n h
bytes_at-written s addr ys b n (inr h) = ap (take n) (drop-copy_at s.bytes addr ys b h)

pub read_uint-written :
    (s : Segment) (addr : ℕ) (ys : List ℕ) (b n : ℕ)
    → IsU32 (length s.bytes)
    → b + n ≤ length s.bytes
    → (b + n ≤ addr) ⊎ (addr + length ys ≤ b)
    → read_uint n (written s addr ys) b ≡ read_uint n s b
read_uint-written s addr ys b n hl h apart =
    read_uint_inside n (written s addr ys) b (omega (arith, length-copy_at s.bytes addr ys))
      (omega (arith, length-copy_at s.bytes addr ys))
    ∙ ap (λ t. ok (little_endian t)) (bytes_at-written s addr ys b n apart)
    ∙ sym (read_uint_inside n s b hl h)

-- An integer that fits its width and is written inside the segment is read back; a read of any
-- width inside the segment that does not meet it gives what it gave before; the segment keeps its
-- identity, its length and its capacity.
pub write_uint_lem :
    (size : ℕ) (s : Segment) (addr v b n : ℕ)
    → IsU32 (length s.bytes)
    → addr + size ≤ length s.bytes
    → v < 256 ^ size
    → b + n ≤ length s.bytes
    → (b + n ≤ addr) ⊎ (addr + size ≤ b)
    → (s' : Segment) × (write_uint size s addr v ≡ ok s')
      × (read_uint size s' addr ≡ ok v)
      × (read_uint n s' b ≡ read_uint n s b)
      × (length s'.bytes ≡ length s.bytes)
      × (s'.id ≡ s.id)
      × (s'.capacity ≡ s.capacity)
write_uint_lem size s addr v b n hl h hv hb apart = (
  written s addr word,
  write_uint_inside size s addr v hl h,
  read_uint_inside size (written s addr word) addr (omega (arith, kept)) (omega (arith, kept))
      ∙ ap (λ k. ok (little_endian (take k (drop addr (copy_at s.bytes addr word))))) (sym wide)
      ∙ ap ok at_self,
  read_uint-written s addr word b n hl hb (rw wide apart),
  kept,
  refl,
  refl,
)
  where
    word : List ℕ
    word = put_little_endian size v

    wide : length word ≡ size
    wide = length-put_little_endian size v

    kept : length (copy_at s.bytes addr word) ≡ length s.bytes
    kept = length-copy_at s.bytes addr word

    at_self : little_endian (take (length word) (drop addr (copy_at s.bytes addr word))) ≡ v
    at_self =
        ap little_endian (slice-copy_at_self s.bytes addr word (omega (arith, wide)))
        ∙ little_endian-put size v hv
