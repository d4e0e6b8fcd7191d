-- ===== src/Message/Marshal/RoundTrip.antt =====
-- mem.go: `Unmarshal` of what `Marshal` wrote.
use go_capnproto.Prelude.{
  ◌%◌, length-append, ℕ, zero, suc, ◌+◌, ◌-◌, ◌^◌, ◌≤◌, ◌<◌, ◌≡◌, refl, arith, ap, ap₂, ◌∙◌, sym,
  List, [], ◌∷◌, ◌++◌, append_assoc, append-nil, length, replicate, ok, le→leb, leb,
  length-replicate, map, false, if◌then◌else◌, ◌==◌, err, message_empty, length-map, check,
  overlarge, u32,
}
use go_capnproto.Message.{multi_segment, Message, segment, num_segments, >>=-ok, lift}
use native.Mathlib.Nat.{mod-eq_of_lt}
use go_capnproto.Segment.{Segment}
use go_capnproto.Message.Valid.{IsValid}
use go_capnproto.Message.Views.{view}
use go_capnproto.Message.Framing.{
  unmarshal, stream_header_size, marshal_stream_header, unmarshal_stream_header,
}
use go_capnproto.Message.Framing.Header.{AllSizes, stream_header_roundtrip, stream_header_size_lem}
use go_capnproto.Message.Marshal.{segment_sizes, append_segments, marshal_segments, marshal}
use go_capnproto.Message.Marshal.Concat.{concat, exact, unmarshal_runs}
use go_capnproto.Message.Marshal.View.{segment_lem, view_whole}

-- The bytes of segments `i` to `i + n`.
abbrev pub views : Message → ℕ → ℕ → List (List ℕ)
views m zero i = []
views m (suc n) i = view m i ∷ views m n (i + 1)

views-same :
    (m m' : Message) (n i : ℕ) → ((j : ℕ) → view m' j ≡ view m j) → views m' n i ≡ views m n i
views-same m m' zero i h = refl
views-same m m' (suc n) i h = ap₂ ◌∷◌ (h i) (views-same m m' n (i + 1) h)

-- A message that differs from `m` only in what is loaded.
record Same (m m' : Message) : Type 0 where
  arena : m'.arena ≡ m.arena
  view_same : (j : ℕ) → view m' j ≡ view m j

Same-refl : (m : Message) → Same m m
Same-refl m = record { arena = refl; view_same = λ j. refl }

Same-trans : (m m₁ m₂ : Message) → Same m m₁ → Same m₁ m₂ → Same m m₂
Same-trans m m₁ m₂ p q = record {
  arena = q.arena ∙ p.arena;
  view_same = λ j. q.view_same j ∙ p.view_same j;
}

module _ (m₀ : Message) (small : num_segments m₀.arena < 2 ^ 32) (valid : IsValid 0 m₀) where
  read_lem :
      (m : Message) (i : ℕ)
      → Same m₀ m
      → i < num_segments m₀.arena
      → (s : Segment) × (m' : Message) × (segment (u32 i) m ≡ ok (s, m'))
        × (s.bytes ≡ view m₀ i)
        × Same m₀ m'
  read_lem m i same h =
      let (s, m', r) = segment_lem m i (rw same.arena h) in
      (
        s,
        m',
        ap (λ k. segment k m) (mod-eq_of_lt {n = i} {m = 2 ^ 32} (omega arith)) ∙ r.runs,
        r.bytes ∙ same.view_same i,
        Same-trans m₀ m m' same (record { arena = r.arena; view_same = r.same }),
      )

  segment_sizes_lem :
      (n i : ℕ) (m : Message)
      → Same m₀ m
      → i + n ≤ num_segments m₀.arena
      → (m' : Message) × (segment_sizes n i m ≡ ok (map length (views m₀ n i), m')) × Same m₀ m'
  unfolding segment_sizes
  segment_sizes_lem zero i m same h = (m, refl, same)
  segment_sizes_lem (suc n) i m same h =
      let (s, m₁, runs, bytes, same₁) = read_lem m i same (omega arith) in
      let (m₂, rest, same₂) = segment_sizes_lem n (i + 1) m₁ same₁ (omega arith) in
      let fits : length s.bytes ≤ 2 ^ 32 - 1 =
        omega (arith, ap (length {A = ℕ}) bytes, (view_whole m₀ i valid (omega arith)).1) in
      (
        m₂,
        >>=-ok (segment (u32 i)) _ m m₁ s runs
            ∙ >>=-ok (lift (check (leb (length s.bytes) (2 ^ 32 - 1)) overlarge)) _ m₁ m₁ tt
                (rw (le→leb (length s.bytes) (2 ^ 32 - 1) fits))
            ∙ >>=-ok (segment_sizes n (i + 1)) _ m₁ m₂ (map length (views m₀ n (i + 1))) rest
            ∙ ap (λ (b : List ℕ). ok (length b ∷ map length (views m₀ n (i + 1)), m₂)) bytes,
        same₂,
      )

  append_segments_lem :
      (n i : ℕ) (buf : List ℕ) (m : Message)
      → Same m₀ m
      → i + n ≤ num_segments m₀.arena
      → (m' : Message) × (append_segments n i buf m ≡ ok (buf ++ concat (views m₀ n i), m'))
        × Same m₀ m'
  unfolding append_segments
  append_segments_lem zero i buf m same h =
      (m, ap (λ (b : List ℕ). ok (b, m)) (sym (append-nil buf)), same)
  append_segments_lem (suc n) i buf m same h =
      let (s, m₁, runs, bytes, same₁) = read_lem m i same (omega arith) in
      let (m₂, rest, same₂) =
        append_segments_lem n (i + 1) (buf ++ s.bytes) m₁ same₁ (omega arith) in
      (
        m₂,
        >>=-ok (segment (u32 i)) _ m m₁ s runs
            ∙ rest
            ∙ ap (λ (b : List ℕ). ok ((buf ++ b) ++ concat (views m₀ n (i + 1)), m₂)) bytes
            ∙ ap (λ (b : List ℕ). ok (b, m₂))
                (append_assoc buf (view m₀ i) (concat (views m₀ n (i + 1)))),
        same₂,
      )

  views-AllSizes : (n i : ℕ) → i + n ≤ num_segments m₀.arena → AllSizes (map length (views m₀ n i))
  views-AllSizes zero i h = tt
  views-AllSizes (suc n) i h =
      (view_whole m₀ i valid (omega arith), views-AllSizes n (i + 1) (omega arith))

length-views : (m : Message) (n i : ℕ) → length (views m n i) ≡ n
length-views m zero i = refl
length-views m (suc n) i = ap suc (length-views m n (i + 1))

-- The bytes of a message's segments in order.
abbrev pub all_bytes : Message → List (List ℕ)
all_bytes m = views m (num_segments m.arena) 0

pub suc-not_zero : (n : ℕ) → (suc n == 0) ≡ false
suc-not_zero n = ground arith

-- Segments of whole words take whole words together.
concat_words :
    (sizes : List ℕ) (bs : List (List ℕ))
    → AllSizes sizes
    → sizes ≡ map length bs
    → length (concat bs) % 8 ≡ 0
concat_words sizes [] h e = refl
concat_words [] (b ∷ bs) h e = cc
concat_words (n ∷ sizes) (b ∷ bs) (hn, h) e =
    let same : n ≡ length b = cc in
    let rest : sizes ≡ map length bs = cc in
    omega (arith, hn, same, concat_words sizes bs h rest, length-append b (concat bs))

-- The stream of a message, with `more` bytes behind it.
pub record Streamed (stream : List ℕ) (bs : List (List ℕ)) (more : List ℕ) : Type 0 where
  pub header : unmarshal_stream_header (stream ++ more) ≡ ok (map length bs, concat bs ++ more)
  pub arena : unmarshal (stream ++ more) ≡ ok (multi_segment (map exact bs))
  pub words : length stream % 8 ≡ 0

-- The header in any buffer of its size, with the segments behind it.
pub header-Streamed :
    (n : ℕ) (m : Message) (b more : List ℕ)
    → IsValid 0 m
    → num_segments m.arena ≡ suc n
    → suc n < 2 ^ 32
    → length b ≡ stream_header_size n
    → (h : List ℕ) × (marshal_stream_header b (map length (views m (suc n) 0)) ≡ ok h)
      × Streamed (h ++ concat (views m (suc n) 0)) (views m (suc n) 0) more
header-Streamed n m b more v count small sized =
    let bs : List (List ℕ) = views m (suc n) 0 in
    let fewer : num_segments m.arena < 2 ^ 32 = rw count small in
    let rest_count : length (map length (views m n 1)) ≡ n =
      length-map (views m n 1) length ∙ length-views m n 1 in
    let (h, written, size, read) =
      stream_header_roundtrip b (concat bs ++ more) (length (view m 0)) (map length (views m n 1))
        (views-AllSizes m fewer v (suc n) 0 (rw count (omega arith))) (omega (arith, rest_count))
        (sized ∙ ap stream_header_size (sym rest_count)) in
    let whole : (h ++ concat bs) ++ more ≡ h ++ (concat bs ++ more) =
      append_assoc h (concat bs) more in
    (
      h,
      written,
      record {
        header = ap unmarshal_stream_header whole ∙ read;
        arena =
            ap unmarshal whole
            ∙ unmarshal_runs h bs more (omega (arith, size, sized, stream_header_size_lem n)) read;
        words = omega (
          arith,
          size,
          sized,
          stream_header_size_lem n,
          length-append h (concat bs),
          concat_words (map length bs) bs
              (views-AllSizes m fewer v (suc n) 0 (rw count (omega arith))) refl,
        );
      },
    )

-- What the loops over the segments give.
pub loops_lem :
    (n : ℕ) (m : Message)
    → IsValid 0 m
    → num_segments m.arena ≡ suc n
    → suc n < 2 ^ 32
    → (m₁ : Message) × (segment_sizes (suc n) 0 m ≡ ok (map length (views m (suc n) 0), m₁))
      × ((h : List ℕ)
          → (m₂ : Message) × (append_segments (suc n) 0 h m₁
              ≡ ok (h ++ concat (views m (suc n) 0), m₂)))
loops_lem n m v count small =
    let fewer : num_segments m.arena < 2 ^ 32 = rw count small in
    let (m₁, sizes, same₁) =
      segment_sizes_lem m fewer v (suc n) 0 m (Same-refl m) (rw count (omega arith)) in
    (
      m₁,
      sizes,
      λ h.
          let (m₂, appended, same₂) =
            append_segments_lem m fewer v (suc n) 0 h m₁ same₁ (rw count (omega arith)) in
          (m₂, appended),
    )

marshal_segments_lem :
    (n : ℕ) (m : Message) (more : List ℕ)
    → IsValid 0 m
    → num_segments m.arena ≡ suc n
    → suc n < 2 ^ 32
    → (stream : List ℕ) × (m' : Message) × (marshal_segments (suc n) m ≡ ok (stream, m'))
      × Streamed stream (views m (suc n) 0) more
unfolding marshal_segments
marshal_segments_lem n m more v count small =
    let bs : List (List ℕ) = views m (suc n) 0 in
    let one_less : u32 (suc n - 1) ≡ n = omega arith in
    let (m₁, sizes, append) = loops_lem n m v count small in
    let (h, written, streamed) =
      header-Streamed n m (replicate (stream_header_size n) 0) more v count small
        (length-replicate {A = ℕ} (stream_header_size n) 0) in
    let (m₂, appended) = append h in
    (
      h ++ concat bs,
      m₂,
      >>=-ok (segment_sizes (suc n) 0) _ m m₁ (map length bs) sizes
          ∙ >>=-ok
              (lift (
                marshal_stream_header (replicate (stream_header_size (u32 (suc n - 1))) 0)
                  (map length bs)))
              (append_segments (suc n) 0) m₁ m₁ h
              (ap
                  (λ k.
                    lift
                      (marshal_stream_header (replicate (stream_header_size k) 0) (map length bs))
                      m₁)
                  one_less
                ∙ rw written)
          ∙ appended,
      streamed,
    )

pub marshal-Streamed :
    (m : Message) (more : List ℕ)
    → IsValid 0 m
    → 0 < num_segments m.arena
    → num_segments m.arena < 2 ^ 32
    → (stream : List ℕ) × (m' : Message) × (marshal m ≡ ok (stream, m'))
      × Streamed stream (all_bytes m) more
unfolding marshal
marshal-Streamed m more v some_segment few = by_count (num_segments m.arena) refl
  where
    by_count :
        (k : ℕ)
        → num_segments m.arena ≡ k
        → (stream : List ℕ) × (m' : Message) × ((if num_segments m.arena == 0
              then err message_empty
              else marshal_segments (num_segments m.arena) m)
            ≡ ok (stream, m'))
          × Streamed stream (all_bytes m) more
    by_count zero e = absurd (omega arith)
    by_count (suc n) e =
        rw e (rw (suc-not_zero n) (marshal_segments_lem n m more v e (omega (arith, few, e))))

-- A valid message with at least one segment, and fewer than 2 ^ 32, marshals, and `Unmarshal` of
-- the stream gives an arena whose segments have the bytes of the message's, in order, with no
-- capacity to spare.
pub unmarshal-marshal :
    (m : Message)
    → IsValid 0 m
    → 0 < num_segments m.arena
    → num_segments m.arena < 2 ^ 32
    → (stream : List ℕ) × (m' : Message) × (marshal m ≡ ok (stream, m'))
      × (unmarshal stream ≡ ok (multi_segment (map exact (all_bytes m))))
unmarshal-marshal m v some_segment few =
    let (stream, m', runs, r) = marshal-Streamed m [] v some_segment few in
    (stream, m', runs, ap unmarshal (sym (append-nil stream)) ∙ r.arena)
