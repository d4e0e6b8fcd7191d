-- ===== src/Message/Packed.antt =====
-- mem.go: `MarshalPacked`, against the decompressor and `Unmarshal`.
use go_capnproto.Prelude.{
  ℕ, arith, append-nil, ◌+◌, ◌*◌, ◌^◌, ◌<◌, ◌≡◌, ap, ◌∙◌, sym, List, [], length, map, Option, some,
  Error, ok,
}
use go_capnproto.Packed.{pack}
use go_capnproto.Packed.Conform.{pack-Unpacks}
use go_capnproto.Packed.Reader.{Source, Frame, new_reader, read}
use go_capnproto.Packed.Reader.Remaining.{Reliable}
use go_capnproto.Packed.Reader.Total.{pack-read}
use go_capnproto.Message.{M, ◌>>=◌, >>=-ok, lift, Message, multi_segment, num_segments}
use go_capnproto.Message.Valid.{IsValid}
use go_capnproto.Message.Framing.{unmarshal}
use go_capnproto.Message.Marshal.{marshal}
use go_capnproto.Message.Marshal.Concat.{exact}
use go_capnproto.Message.Marshal.RoundTrip.{all_bytes, marshal-Streamed}

-- `MarshalPacked`
unfoldable pub marshal_packed : M (List ℕ)
marshal_packed = do b ← marshal; lift (pack [] b)

-- A valid message with at least one segment, and fewer than 2 ^ 32, is packed by `MarshalPacked`.
-- With a reader below that gives those bytes in order, and rounds enough, a `Read` from a new
-- decompressor of as many bytes as `Marshal` gives returns what `Marshal` gives, and `Unmarshal`
-- makes of it an arena whose segments have the bytes of the message's, in order, with no capacity
-- to spare.
pub read-marshal_packed :
    {S : Type 0} (left : S → List ℕ) (io : Source S) (open_on : List ℕ → S) (m : Message)
    → Reliable left io
    → ((b : List ℕ) → left (open_on b) ≡ b)
    → IsValid 0 m
    → 0 < num_segments m.arena
    → num_segments m.arena < 2 ^ 32
    → (stream : List ℕ) × (packed : List ℕ) × (m' : Message) × (f : Frame S) × (e : Option Error)
      × (marshal m ≡ ok (stream, m'))
      × (marshal_packed m ≡ ok (packed, m'))
      × (read io
            (3 * (length stream + length packed) + 3)
            new_reader
            (open_on packed)
            (length stream)
          ≡ some (f, e))
      × (f.out ≡ stream)
      × (unmarshal f.out ≡ ok (multi_segment (map exact (all_bytes m))))
unfolding marshal_packed
read-marshal_packed left io open_on m good opens v some_segment few =
    let (stream, m', runs, r) = marshal-Streamed m [] v some_segment few in
    let (packed, wrote, u) = pack-Unpacks [] stream r.words in
    let behind : left (open_on packed) ≡ packed = opens packed in
    let (f, e, gives, same) =
      pack-read left io (open_on packed) stream (3 * (length stream + length packed) + 3) good
        r.words (wrote ∙ ap ok (sym behind)) (omega (arith, ap (length {A = ℕ}) behind)) in
    (
      stream,
      packed,
      m',
      f,
      e,
      runs,
      >>=-ok marshal (λ b. lift (pack [] b)) m m' stream runs ∙ ap (λ t. lift t m') wrote,
      gives,
      same,
      ap unmarshal (same ∙ sym (append-nil stream)) ∙ r.arena,
    )
