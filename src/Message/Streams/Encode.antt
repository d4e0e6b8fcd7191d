-- ===== src/Message/Streams/Encode.antt =====
-- mem.go: `Encode` against `Marshal`.
use go_capnproto.Prelude.{
  ◌≤◌, length-take, length-replicate, length, ℕ, zero, suc, ◌+◌, ◌-◌, ◌≡◌, refl, arith, ap, ◌∙◌,
  List, [], ◌++◌, append_assoc, take, drop, replicate, ltb, lt→ltb, Bool, true, false, none,
  if◌then◌else◌, u32, ◌==◌, Result, ok, err, panic, message_empty,
}
use go_capnproto.Message.{Message, M, ◌>>=◌, >>=-ok, lift, segment, num_segments}
use go_capnproto.Message.Framing.{stream_header_size, marshal_stream_header}
use go_capnproto.Message.Framing.Header.{stream_header_size_lem}
use go_capnproto.Message.Marshal.{segment_sizes, append_segments, marshal_segments, marshal}
use go_capnproto.Message.Streams.Encoder.{
  Writer, Encoder, new_encoder, header_buf, write, encode_segments, encode_parts, encode,
}

-- A method that returned: its first part did, and so did the rest.
ran :
    {A B : Type 0} (p : M A) (f : A → M B) (m m' : Message) (b : B)
    → (p >>= f) m ≡ ok (b, m')
    → (a : A) × (m₁ : Message) × (p m ≡ ok (a, m₁)) × (f a m₁ ≡ ok (b, m'))
ran {A} p f m m' b h = by_result (p m) refl h
  where
    by_result :
        (r : Result (A × Message))
        → p m ≡ r
        → elim r [ ok (a, s') ↦ f a s' | err e ↦ err e | panic e ↦ panic e ] ≡ ok (b, m')
        → (a : A) × (m₁ : Message) × (p m ≡ ok (a, m₁)) × (f a m₁ ≡ ok (b, m'))
    by_result (ok (a, m₁)) e h = (a, m₁, e, h)
    by_result (err x) e h = cc
    by_result (panic x) e h = cc

lift-ran :
    {A : Type 0} (r : Result A) (a : A) (m m' : Message)
    → lift r m ≡ ok (a, m')
    → (r ≡ ok a) × (m ≡ m')
lift-ran (ok x) a m m' h = (cc, cc)
lift-ran (err x) a m m' h = cc
lift-ran (panic x) a m m' h = cc

not_taken :
    {A : Type 0} (c : Bool) (x : Result A) (a : A)
    → (if c then err message_empty else x) ≡ ok a
    → (c ≡ false) × (x ≡ ok a)
not_taken true x a h = cc
not_taken false x a h = (refl, h)

take-replicate : (n : ℕ) → take {A = ℕ} n (replicate n 0) ≡ replicate n 0
take-replicate zero = refl
take-replicate (suc n) = rw (take-replicate n)

new_buffer : (size : ℕ) → 8 ≤ size → take size (header_buf [] size) ≡ replicate size 0
new_buffer size h =
    ap (λ c. take size (if c then replicate size 0 else [])) (lt→ltb 0 size (omega (arith, h)))
    ∙ take-replicate size

not_ltb→le : (a b : ℕ) → ltb a b ≡ false → b ≤ a
not_ltb→le a b h = ground arith

-- The part of the buffer that takes the header has its size.
pub length-header_buf : (b : List ℕ) (size : ℕ) → length (take size (header_buf b size)) ≡ size
length-header_buf b size = by_room (ltb (length b) size) refl
  where
    by_room :
        (c : Bool)
        → ltb (length b) size ≡ c
        → length (take size (if c then replicate size 0 else b)) ≡ size
    by_room true e =
        omega (arith, length-take {A = ℕ} size (replicate size 0), length-replicate {A = ℕ} size 0)
    by_room false e = omega (arith, length-take size b, not_ltb→le (length b) size e)

module _ {W : Type 0} (io : Writer W) (content : W → List ℕ)
    (appends : (w : W) (b : List ℕ)
      → (w' : W) × (io.write w b ≡ (none, w')) × (content w' ≡ content w ++ b)) where
  write_lem :
      (e : Encoder W) (b : List ℕ)
      → e.packed ≡ false
      → (w' : W) × (write io e b ≡ ok w') × (content w' ≡ content e.w ++ b)
  unfolding write
  write_lem e b plain = let (w', runs, more) = appends e.w b in (w', rw (plain, runs), more)

  -- What a run of the loop, or of the whole, leaves: `stream` behind what was there.
  pub record Wrote (e : Encoder W) (before stream : List ℕ) : Type 0 where
    pub plain : e.packed ≡ false
    pub total : content e.w ≡ before ++ stream

  encode_segments_lem :
      (n i : ℕ) (e : Encoder W) (before buf stream : List ℕ) (m m' : Message)
      → Wrote e before buf
      → append_segments n i buf m ≡ ok (stream, m')
      → (e' : Encoder W) × (encode_segments io n i e m ≡ ok (e', m')) × Wrote e' before stream
  unfolding encode_segments append_segments
  encode_segments_lem zero i e before buf stream m m' h runs =
      let same : buf ≡ stream = cc in
      let same_message : m ≡ m' = cc in
      (
        e,
        ap (λ t. ok (e, t)) same_message,
        record { plain = h.plain; total = h.total ∙ ap (λ t. before ++ t) same },
      )
  encode_segments_lem (suc n) i e before buf stream m m' h runs =
      let (s, m₁, found, rest) = ran (segment (u32 i)) _ m m' stream runs in
      let (w', wrote, more) = write_lem e s.bytes h.plain in
      let (e', ends, done) =
        encode_segments_lem n (i + 1) (record e { w = w' }) before (buf ++ s.bytes) stream m₁ m'
          (record {
            plain = h.plain;
            total = more ∙ ap (λ t. t ++ s.bytes) h.total ∙ append_assoc before buf s.bytes;
          })
          rest in
      (
        e',
        >>=-ok (segment (u32 i)) _ m m₁ s found
            ∙ >>=-ok (lift (write io e s.bytes)) _ m₁ m₁ w' (ap (λ r. lift r m₁) wrote)
            ∙ ends,
        done,
      )

  encode_parts_lem :
      (nsegs : ℕ) (e : Encoder W) (sizes header stream : List ℕ) (m m' : Message)
      → e.packed ≡ false
      → marshal_stream_header
          (take
            (stream_header_size (u32 (nsegs - 1)))
            (header_buf e.hdrbuf (stream_header_size (u32 (nsegs - 1)))))
          sizes
        ≡ ok header
      → append_segments nsegs 0 header m ≡ ok (stream, m')
      → (e' : Encoder W) × (encode_parts io nsegs e sizes m ≡ ok (e', m'))
        × Wrote e' (content e.w) stream
  unfolding encode_parts
  encode_parts_lem nsegs e sizes header stream m m' plain h runs =
      let size : ℕ = stream_header_size (u32 (nsegs - 1)) in
      let buf : List ℕ = header_buf e.hdrbuf size in
      let e₁ : Encoder W = record e { hdrbuf = header ++ drop size buf } in
      let (w', wrote, more) = write_lem e₁ header plain in
      let (e', ends, done) =
        encode_segments_lem nsegs 0 (record e₁ { w = w' }) (content e.w) header stream m m'
          (record { plain = plain; total = more }) runs in
      (
        e',
        >>=-ok (lift (marshal_stream_header (take size buf) sizes)) _ m m header
              (ap (λ r. lift r m) h)
            ∙ >>=-ok (lift (write io e₁ header)) _ m m w' (ap (λ r. lift r m) wrote)
            ∙ ends,
        done,
      )

  -- An encoder in any state.
  pub encode_lem :
      (e : Encoder W) (sizes header stream : List ℕ) (m m₁ m' : Message)
      → e.packed ≡ false
      → (num_segments m.arena == 0) ≡ false
      → segment_sizes (num_segments m.arena) 0 m ≡ ok (sizes, m₁)
      → marshal_stream_header
          (take
            (stream_header_size (u32 (num_segments m.arena - 1)))
            (header_buf e.hdrbuf (stream_header_size (u32 (num_segments m.arena - 1)))))
          sizes
        ≡ ok header
      → append_segments (num_segments m.arena) 0 header m₁ ≡ ok (stream, m')
      → (e' : Encoder W) × (encode io e m ≡ ok (e', m')) × Wrote e' (content e.w) stream
  unfolding encode
  encode_lem e sizes header stream m m₁ m' plain some_segment sized headed appended =
      let n : ℕ = num_segments m.arena in
      let (e', encoded, done) =
        encode_parts_lem n e sizes header stream m₁ m' plain headed appended in
      (
        e',
        ap (λ c. if c then err message_empty else (segment_sizes n 0 >>= encode_parts io n e) m)
              some_segment
            ∙ >>=-ok (segment_sizes n 0) _ m m₁ sizes sized
            ∙ encoded,
        done,
      )

  -- With a writer below that takes all that it is given: where `Marshal` of a message gives a
  -- stream, `Encode` of the message by a new encoder that does not pack returns, has written
  -- exactly that stream, and leaves the message as `Marshal` does.
  pub encode-marshal :
      (w : W) (m m' : Message) (stream : List ℕ)
      → marshal m ≡ ok (stream, m')
      → (e : Encoder W) × (encode io (new_encoder false w) m ≡ ok (e, m'))
        × (content e.w ≡ content w ++ stream)
  unfolding marshal marshal_segments new_encoder
  encode-marshal w m m' stream h =
      let n : ℕ = num_segments m.arena in
      let size : ℕ = stream_header_size (u32 (n - 1)) in
      let (some_segment, runs) = not_taken (n == 0) (marshal_segments n m) (stream, m') h in
      let (sizes, m₁, sized, rest) = ran (segment_sizes n 0) _ m m' stream runs in
      let (header, m₂, headed, appended) =
        ran (lift (marshal_stream_header (replicate size 0) sizes)) (append_segments n 0) m₁ m'
          stream rest in
      let (header_ok, same) =
        lift-ran (marshal_stream_header (replicate size 0) sizes) header m₁ m₂ headed in
      let (e, encoded, done) =
        encode_lem (new_encoder false w) sizes header stream m m₁ m' refl some_segment sized
          (ap (λ t. marshal_stream_header t sizes)
              (new_buffer size (omega (arith, stream_header_size_lem (u32 (n - 1)))))
            ∙ header_ok)
          (ap (append_segments n 0 header) same ∙ appended) in
      (e, encoded, done.total)
