-- ===== src/Message/Framing/Header.antt =====
-- mem.go: the stream header that `marshalStreamHeader` writes is read back.
use go_capnproto.Prelude.{
  ℕ, zero, suc, ◌+◌, ◌-◌, ◌*◌, ◌/◌, ◌%◌, ◌^◌, ◌≤◌, ◌<◌, ◌≡◌, refl, arith, ap, ◌∙◌, sym,
}
use go_capnproto.Prelude.{
  List, [], ◌∷◌, ◌++◌, length, take, drop, copy_at, little_endian, put_little_endian,
}
use go_capnproto.Prelude.{little_endian-put, slice-copy_at_self, length-copy_at}
use go_capnproto.Prelude.{slice-copy_at_before, slice-append, le→leb, ok, pos, int32, u32, sub32}
use go_capnproto.Prelude.{length-append, drop-append}
use go_capnproto.Prelude.Bits.{bit_and_mask}
use go_capnproto.Address.{times, word_size}
use go_capnproto.Address.Laws.{times_fits}
use go_capnproto.Message.Framing.{
  stream_header_size, uint32_at, put_uint32_at, put_sizes, read_sizes,
}
use go_capnproto.Message.Framing.{marshal_stream_header, unmarshal_stream_header}

-- Sizes of whole words, below 4 GB.
abbrev pub AllSizes : List ℕ → Type 0
AllSizes [] = Unit {0}
AllSizes (sz ∷ sizes) = ((sz % 8 ≡ 0) × (sz < 2 ^ 32)) × AllSizes sizes

pub stream_header_size_lem :
    (n : ℕ)
    → (stream_header_size n % 8 ≡ 0)
      × (8 + 4 * n ≤ stream_header_size n)
      × (stream_header_size n < 16 + 4 * n)
unfolding stream_header_size
stream_header_size_lem n = omega (arith, bit_and_mask 3 (4 + 4 * (n + 1) + 7))

pub uint32_at_inside :
    (b : List ℕ) (loc : ℕ)
    → loc + 4 ≤ length b
    → uint32_at b loc ≡ ok (little_endian (take 4 (drop loc b)))
unfolding uint32_at
uint32_at_inside b loc h = rw (le→leb (loc + 4) (length b) h)

pub uint32_at-append :
    (b tail : List ℕ) (loc : ℕ) → loc + 4 ≤ length b → uint32_at (b ++ tail) loc ≡ uint32_at b loc
uint32_at-append b tail loc h =
    uint32_at_inside (b ++ tail) loc (omega (arith, length-append b tail))
    ∙ ap (λ (t : List ℕ). ok (little_endian t)) (slice-append loc 4 b tail h)
    ∙ sym (uint32_at_inside b loc h)

-- What `put_uint32_at` leaves in the buffer.
record Put (b : List ℕ) (loc v : ℕ) (b' : List ℕ) : Type 0 where
  runs : put_uint32_at b loc v ≡ ok b'
  same_length : length b' ≡ length b
  reads : uint32_at b' loc ≡ ok v
  before : (at : ℕ) → at + 4 ≤ loc → uint32_at b' at ≡ uint32_at b at

put_uint32_at_lem :
    (b : List ℕ) (loc v : ℕ) → loc + 4 ≤ length b → v < 2 ^ 32 → (b' : List ℕ) × Put b loc v b'
unfolding put_uint32_at
put_uint32_at_lem b loc v h hv =
    let kept = length-copy_at b loc (put_little_endian 4 v) in
    (
      copy_at b loc (put_little_endian 4 v),
      record {
        runs = rw (le→leb (loc + 4) (length b) h);
        same_length = kept;
        reads =
            uint32_at_inside _ loc (omega (arith, kept))
            ∙ ap (λ (t : List ℕ). ok (little_endian t))
                (slice-copy_at_self b loc (put_little_endian 4 v) h)
            ∙ ap ok (little_endian-put 4 v hv);
        before = λ at h'.
            uint32_at_inside _ at (omega (arith, kept, h'))
            ∙ ap (λ (t : List ℕ). ok (little_endian t))
                (slice-copy_at_before b loc (put_little_endian 4 v) at 4 h')
            ∙ sym (uint32_at_inside b at (omega (arith, h')));
      },
    )

-- What `put_sizes` leaves in the buffer.
record PutSizes (b : List ℕ) (i : ℕ) (sizes b' : List ℕ) : Type 0 where
  runs : put_sizes b i sizes ≡ ok b'
  same_length : length b' ≡ length b
  reads : read_sizes b' (length sizes) i ≡ ok sizes
  before : (at : ℕ) → at + 4 ≤ 4 + i * 4 → uint32_at b' at ≡ uint32_at b at

size_read_back :
    (sz : ℕ) → sz % 8 ≡ 0 → sz < 2 ^ 32 → times word_size (int32 (u32 (sz / 8))) ≡ ok sz
size_read_back sz h lt =
    ap (times word_size) small ∙ times_fits 8 (sz / 8) (omega arith) ∙ ap ok (omega arith)
  where
    small : int32 (u32 (sz / 8)) ≡ pos (sz / 8)
    small = ground arith

put_sizes_lem :
    (sizes b : List ℕ) (i : ℕ)
    → 4 + (i + length sizes) * 4 ≤ length b
    → AllSizes sizes
    → (b' : List ℕ) × PutSizes b i sizes b'
unfolding put_sizes read_sizes
put_sizes_lem [] b i h all =
    (b, record { runs = refl; same_length = refl; reads = refl; before = λ at h'. refl })
put_sizes_lem (sz ∷ sizes) b i h ((whole, small), all) =
    let (b₁, p) = put_uint32_at_lem b (4 + i * 4) (u32 (sz / 8)) (omega arith) (omega arith) in
    let (b₂, q) = put_sizes_lem sizes b₁ (i + 1) (omega (arith, p.same_length)) all in
    (
      b₂,
      record {
        runs = rw p.runs q.runs;
        same_length = q.same_length ∙ p.same_length;
        reads =
            rw (
              q.before (4 + i * 4) (omega arith) ∙ p.reads,
              size_read_back sz whole small,
              q.reads,
            );
        before = λ at h'. q.before at (omega (arith, h')) ∙ p.before at h';
      },
    )

pub read_sizes-append :
    (n : ℕ) (b tail : List ℕ) (i : ℕ)
    → 4 + (i + n) * 4 ≤ length b
    → read_sizes (b ++ tail) n i ≡ read_sizes b n i
unfolding read_sizes
read_sizes-append zero b tail i h = refl
read_sizes-append (suc n) b tail i h = rw (
  uint32_at-append b tail (4 + i * 4) (omega arith),
  read_sizes-append n b tail (i + 1) (omega arith),
)

unmarshal_header_runs :
    (h tail sizes : List ℕ) (n : ℕ)
    → length h ≡ stream_header_size n
    → uint32_at h 0 ≡ ok n
    → read_sizes h (suc n) 0 ≡ ok sizes
    → n < 2 ^ 32 - 1
    → unmarshal_stream_header (h ++ tail) ≡ ok (sizes, tail)
unfolding unmarshal_stream_header
unmarshal_header_runs h tail sizes n size first rest few =
    let big = stream_header_size_lem n in
    let longer = length-append h tail in
    let count : (n + 1) % 2 ^ 32 ≡ suc n = omega arith in
    rw
      (
        le→leb (stream_header_size 0) (length (h ++ tail))
            (omega (arith, big, stream_header_size_lem 0, longer)),
        uint32_at-append h tail 0 (omega (arith, big)) ∙ first,
      )
      (rw
        (
          le→leb (stream_header_size n) (length (h ++ tail)) (omega (arith, longer)),
          count,
          read_sizes-append (suc n) h tail 0 (omega (arith, big)) ∙ rest,
        )
        (ap (λ (t : List ℕ). ok (sizes, t))
          (ap (λ k. drop k (h ++ tail)) (sym size) ∙ drop-append h tail)))

-- The header that is written into a buffer of its size, whatever the buffer held, is read back with
-- the same sizes, and what follows it in the stream is the rest. The sizes are whole words below
-- 4 GB, and there is one at least.
pub stream_header_roundtrip :
    (b tail : List ℕ) (sz : ℕ) (sizes : List ℕ)
    → AllSizes (sz ∷ sizes)
    → length sizes < 2 ^ 32 - 1
    → length b ≡ stream_header_size (length sizes)
    → (h : List ℕ) × (marshal_stream_header b (sz ∷ sizes) ≡ ok h)
      × (length h ≡ length b)
      × (unmarshal_stream_header (h ++ tail) ≡ ok (sz ∷ sizes, tail))
unfolding marshal_stream_header
stream_header_roundtrip b tail sz sizes all few size =
    let n : ℕ = length sizes in
    let (b₁, p) =
      put_uint32_at_lem b 0 (sub32 (u32 (suc n)) 1) (omega (arith, stream_header_size_lem n))
        (omega arith) in
    let (h, q) =
      put_sizes_lem (sz ∷ sizes) b₁ 0 (omega (arith, p.same_length, stream_header_size_lem n))
        all in
    (
      h,
      rw p.runs q.runs,
      q.same_length ∙ p.same_length,
      unmarshal_header_runs h tail (sz ∷ sizes) n (q.same_length ∙ p.same_length ∙ size)
          (q.before 0 (omega arith) ∙ p.reads ∙ ap ok (omega arith)) q.reads few,
    )
