-- ===== src/Message/Streams/Tests.antt =====
-- mem.go: a message of two segments, read from a stream that goes on behind it.
use go_capnproto.Address.{times}
use go_capnproto.Message.{update, Message, num_segments, Arena, multi_segment}
use go_capnproto.Prelude.{
  length-take, ℕ, ◌≡◌, refl, sym, arith, ap, List, [], ◌∷◌, length, take, drop, none, some, eof,
  unexpected_eof, leb, le→leb, if◌then◌else◌, ok, take-append-drop, ◌<◌,
}
use mathlib.Core.Path.{subst}
use go_capnproto.Message.Packed.{marshal_packed, read-marshal_packed}
use go_capnproto.Prelude.{◌+◌, ◌*◌, Option, Error}
use go_capnproto.Packed.Reader.{Frame, read, new_reader, Source, Got}
use go_capnproto.Packed.Reader.Remaining.{Part, AtEnd, Reliable}
use go_capnproto.Message.Framing.{
  unmarshal, unmarshal_stream_header, uint32_at, read_sizes, stream_header_size, sum_sizes, demux,
}
use go_capnproto.Message.Streams.{decode}
use go_capnproto.Message.Streams.Decode.{decode-unmarshal}
use go_capnproto.Message.{Message, update, segment, set_segment, num_segments, arena_data}
use go_capnproto.Message.Valid.{IsValid}
use go_capnproto.Message.Framing.{marshal_stream_header, put_sizes, put_uint32_at}
use go_capnproto.Message.Marshal.{marshal, marshal_segments, segment_sizes, append_segments}
use go_capnproto.Message.Streams.Encoder.{
  encode_parts, encode_segments, write, Writer, Encoder, new_encoder, encode,
}
use go_capnproto.Message.Streams.Encode.{encode-marshal}
use go_capnproto.Message.Streams.RoundTrip.{decode-encode}
use go_capnproto.Prelude.{◌++◌, false, replicate}

-- A reader over a list, which gives all that it is asked for.
abbrev give_all : List ℕ → ℕ → Got (List ℕ)
give_all [] n = record { bytes = []; error = some eof; after = [] }
give_all (x ∷ xs) n = record { bytes = take n (x ∷ xs); error = none; after = drop n (x ∷ xs) }

abbrev buffer : Source (List ℕ)
buffer = record {
  read = give_all;
  read_full = λ xs n. record {
    bytes = take n xs;
    error = if leb n (length xs) then none else some unexpected_eof;
    after = drop n xs;
  };
}

give_all-Part : (xs : List ℕ) (n : ℕ) → 0 < n → 0 < length xs → Part (λ l. l) xs n (give_all xs n)
give_all-Part [] n h k = absurd (omega arith)
give_all-Part (x ∷ xs) n h k = record {
  succeeds = refl;
  some_bytes = omega (arith, length-take n (x ∷ xs));
  fits = omega (arith, length-take n (x ∷ xs));
  in_order = take-append-drop n (x ∷ xs);
}

buffer-Reliable : Reliable (λ l. l) buffer
buffer-Reliable = record {
  read_some = give_all-Part;
  read_none = λ s n h e.
      subst (λ r. AtEnd (λ l. l) (give_all r n)) (sym e)
        (record { eof = eof; fails = refl; no_bytes = refl; still = refl });
  read_full = λ s n h. record {
    succeeds = ap (λ c. if c then none else some unexpected_eof) (le→leb n (length s) h);
    all_bytes = refl;
    in_order = refl;
  };
}

-- Segments of a word and of none, and three bytes more.
abbrev stream : List ℕ
stream =
    1 ∷ 0 ∷ 0 ∷ 0 ∷ 1 ∷ 0 ∷ 0 ∷ 0 ∷ 0 ∷ 0 ∷ 0 ∷ 0 ∷ 7 ∷ 7 ∷ 7 ∷ 7 ∷ 1 ∷ 2 ∷ 3 ∷ 4 ∷ 5 ∷ 6 ∷ 7 ∷ 8
    ∷ 9 ∷ 9 ∷ 9 ∷ []

abbrev tail : List ℕ
tail = 1 ∷ 2 ∷ 3 ∷ 4 ∷ 5 ∷ 6 ∷ 7 ∷ 8 ∷ 9 ∷ 9 ∷ 9 ∷ []

abbrev two : Arena
two = multi_segment (
    record { bytes = 1 ∷ 2 ∷ 3 ∷ 4 ∷ 5 ∷ 6 ∷ 7 ∷ 8 ∷ []; capacity = 8 }
    ∷ record { bytes = []; capacity = 0 }
    ∷ [])

stream_header : unmarshal_stream_header stream ≡ ok (8 ∷ 0 ∷ [], tail)
unfolding unmarshal_stream_header uint32_at read_sizes stream_header_size times
stream_header = refl

stream_arena : unmarshal stream ≡ ok two
unfolding unmarshal unmarshal_stream_header uint32_at read_sizes stream_header_size sum_sizes demux
    times
stream_arena = refl

decode-unmarshal_example :
    (s : List ℕ) × (decode buffer stream ≡ ok (two, s)) × (s ≡ 9 ∷ 9 ∷ 9 ∷ [])
unfolding sum_sizes
decode-unmarshal_example =
    decode-unmarshal (λ l. l) buffer buffer-Reliable stream (8 ∷ 0 ∷ []) tail two stream_header
      stream_arena

abbrev appender : Writer (List ℕ)
appender = record { write = λ w b. (none, w ++ b) }

abbrev two_message : Message
two_message = record { arena = two; cap_table = []; segs = λ id. none }

abbrev two_loaded : Message
two_loaded = record {
  arena = two;
  cap_table = [];
  segs =
      update
        (update (λ id. none) 0
          (record { id = 0; bytes = 1 ∷ 2 ∷ 3 ∷ 4 ∷ 5 ∷ 6 ∷ 7 ∷ 8 ∷ []; capacity = 8 }))
        1 (record { id = 1; bytes = []; capacity = 0 });
}

-- The padding of the header is zero in a new buffer.
abbrev framed : List ℕ
framed =
    1 ∷ 0 ∷ 0 ∷ 0 ∷ 1 ∷ 0 ∷ 0 ∷ 0 ∷ 0 ∷ 0 ∷ 0 ∷ 0 ∷ 0 ∷ 0 ∷ 0 ∷ 0 ∷ 1 ∷ 2 ∷ 3 ∷ 4 ∷ 5 ∷ 6 ∷ 7 ∷ 8
    ∷ []

marshal_two : marshal two_message ≡ ok (framed, two_loaded)
unfolding marshal marshal_segments segment_sizes append_segments marshal_stream_header put_sizes
    put_uint32_at stream_header_size times num_segments segment set_segment arena_data
marshal_two = refl

encode-marshal_example :
    (e : Encoder (List ℕ)) × (encode appender (new_encoder false (9 ∷ [])) two_message
      ≡ ok (e, two_loaded))
    × (e.w ≡ 9 ∷ framed)
encode-marshal_example =
    encode-marshal appender (λ w. w) (λ w b. (w ++ b, refl, refl)) (9 ∷ []) two_message two_loaded
      framed marshal_two

two_message-IsValid : IsValid 0 two_message
unfolding num_segments
two_message-IsValid = record {
  arena_ok = omega arith;
  table_ok = λ i s e. cc;
  unloaded = λ i h. refl;
}

-- An encoder that has written a message of four segments.
abbrev used : Encoder (List ℕ)
used = record { w = []; hdrbuf = replicate 24 6; packed = false }

decode-encode_example :
    (stream : List ℕ) × (e : Encoder (List ℕ)) × (m : Message) × (s : List ℕ) × (encode appender
        used two_message
      ≡ ok (e, m))
    × (e.packed ≡ false)
    × (e.w ≡ stream)
    × (decode buffer (stream ++ (9 ∷ [])) ≡ ok (two, s))
    × (s ≡ 9 ∷ [])
unfolding num_segments
decode-encode_example =
    decode-encode appender (λ w. w) (λ w b. (w ++ b, refl, refl)) buffer (λ l. l) buffer-Reliable
      (λ l. l) (λ b. refl) used two_message (9 ∷ []) refl two_message-IsValid (omega arith)
      (omega arith)

-- The padding keeps what the buffer held.
stale_padding :
    encode appender used two_message
    ≡ ok (
      record {
        w = take 12 framed ++ (6 ∷ 6 ∷ 6 ∷ 6 ∷ []) ++ drop 16 framed;
        hdrbuf = take 12 framed ++ replicate 12 6;
        packed = false;
      },
      two_loaded,
    )
unfolding encode encode_parts encode_segments write segment_sizes marshal_stream_header put_sizes
    put_uint32_at stream_header_size times num_segments segment set_segment arena_data
stale_padding = refl

read-marshal_packed_example :
    (stream : List ℕ) × (packed : List ℕ) × (m : Message) × (f : Frame (List ℕ)) × (e : Option
      Error)
    × (marshal two_message ≡ ok (stream, m))
    × (marshal_packed two_message ≡ ok (packed, m))
    × (read buffer (3 * (length stream + length packed) + 3) new_reader packed (length stream)
        ≡ some (f, e))
    × (f.out ≡ stream)
    × (unmarshal f.out ≡ ok two)
unfolding num_segments
read-marshal_packed_example =
    read-marshal_packed (λ l. l) buffer (λ l. l) two_message buffer-Reliable (λ b. refl)
      two_message-IsValid (omega arith) (omega arith)
