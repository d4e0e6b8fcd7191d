-- ===== src/Packed/Reader/Tests.antt =====
-- internal/packed/packed.go: a decompressor over a list of bytes that gives three at a time.
use go_capnproto.Prelude.{
  ℕ, ◌<◌, min, ◌≡◌, refl, sym, arith, ap, List, [], ◌∷◌, length, take, drop, length-take,
  take-append-drop, Option, none, some, Error, eof, unexpected_eof, leb, le→leb, if◌then◌else◌, ok,
}
use mathlib.Core.Path.{subst}
use go_capnproto.Packed.{
  pack, pack_words, pack_word, pack_run, scan, scan_byte, num_zero_words, leading_zeros, raw_words,
  count_zeros,
}
use go_capnproto.Packed.Stream.{Unpacks, nothing, zero_run, plain_word, raw_run, ones}
use go_capnproto.Packed.Format.{spread}
use go_capnproto.Packed.Reader.{Source, Got, Frame, read, new_reader}
use go_capnproto.Packed.Reader.Remaining.{Part, AtEnd, Reliable}
use go_capnproto.Packed.Reader.Total.{
  Delivers, read-Delivers, pack-read, new_reader-Remaining, new_reader-Sized,
}

abbrev give_some : List ℕ → ℕ → Got (List ℕ)
give_some [] n = record { bytes = []; error = some eof; after = [] }
give_some (x ∷ xs) n = record {
  bytes = take (min n 3) (x ∷ xs);
  error = none;
  after = drop (min n 3) (x ∷ xs);
}

abbrev three_bytes : Source (List ℕ)
three_bytes = record {
  read = give_some;
  read_full = λ xs n. record {
    bytes = take n xs;
    error = if leb n (length xs) then none else some unexpected_eof;
    after = drop n xs;
  };
}

give_some-Part : (xs : List ℕ) (n : ℕ) → 0 < n → 0 < length xs → Part (λ l. l) xs n (give_some xs n)
give_some-Part [] n h k = absurd (omega arith)
give_some-Part (x ∷ xs) n h k = record {
  succeeds = refl;
  some_bytes = omega (arith, length-take (min n 3) (x ∷ xs));
  fits = omega (arith, length-take (min n 3) (x ∷ xs));
  in_order = take-append-drop (min n 3) (x ∷ xs);
}

three_bytes-Reliable : Reliable (λ l. l) three_bytes
three_bytes-Reliable = record {
  read_some = give_some-Part;
  read_none = λ s n h e.
      subst (λ r. AtEnd (λ l. l) (give_some r n)) (sym e)
        (record { eof = eof; fails = refl; no_bytes = refl; still = refl });
  read_full = λ s n h. record {
    succeeds = ap (λ c. if c then none else some unexpected_eof) (le→leb n (length s) h);
    all_bytes = refl;
    in_order = refl;
  };
}

-- A word, two zero words, and two raw words.
abbrev packed_bytes : List ℕ
packed_bytes =
    0x51 ∷ 8 ∷ 3 ∷ 2 ∷ 0 ∷ 1 ∷ 0xff ∷ 1 ∷ 2 ∷ 3 ∷ 4 ∷ 5 ∷ 6 ∷ 7 ∷ 8 ∷ 1 ∷ 9 ∷ 8 ∷ 7 ∷ 0 ∷ 5 ∷ 4 ∷ 3
    ∷ 2 ∷ []

abbrev raw_bytes : List ℕ
raw_bytes = 1 ∷ 2 ∷ 3 ∷ 4 ∷ 5 ∷ 6 ∷ 7 ∷ 8 ∷ 9 ∷ 8 ∷ 7 ∷ 0 ∷ 5 ∷ 4 ∷ 3 ∷ 2 ∷ []

abbrev plain_bytes : List ℕ
plain_bytes =
    8 ∷ 0 ∷ 0 ∷ 0 ∷ 3 ∷ 0 ∷ 2 ∷ 0 ∷ 0 ∷ 0 ∷ 0 ∷ 0 ∷ 0 ∷ 0 ∷ 0 ∷ 0 ∷ 0 ∷ 0 ∷ 0 ∷ 0 ∷ 0 ∷ 0 ∷ 0 ∷ 0
    ∷ raw_bytes

packed_bytes-Unpacks : Unpacks packed_bytes plain_bytes
unfolding spread ones
packed_bytes-Unpacks =
    plain_word 0x51 (8 ∷ 3 ∷ 2 ∷ [])
      (0 ∷ 1 ∷ 0xff ∷ 1 ∷ 2 ∷ 3 ∷ 4 ∷ 5 ∷ 6 ∷ 7 ∷ 8 ∷ 1 ∷ 9 ∷ 8 ∷ 7 ∷ 0 ∷ 5 ∷ 4 ∷ 3 ∷ 2 ∷ [])
      (0 ∷ 0 ∷ 0 ∷ 0 ∷ 0 ∷ 0 ∷ 0 ∷ 0 ∷ 0 ∷ 0 ∷ 0 ∷ 0 ∷ 0 ∷ 0 ∷ 0 ∷ 0 ∷ raw_bytes) (omega arith)
      (omega arith) refl
      (zero_run 1 (0xff ∷ 1 ∷ 2 ∷ 3 ∷ 4 ∷ 5 ∷ 6 ∷ 7 ∷ 8 ∷ 1 ∷ 9 ∷ 8 ∷ 7 ∷ 0 ∷ 5 ∷ 4 ∷ 3 ∷ 2 ∷ [])
        raw_bytes
        (raw_run (1 ∷ 2 ∷ 3 ∷ 4 ∷ 5 ∷ 6 ∷ 7 ∷ 8 ∷ []) 1 (9 ∷ 8 ∷ 7 ∷ 0 ∷ 5 ∷ 4 ∷ 3 ∷ 2 ∷ []) [] []
          refl refl nothing))

read-Delivers_example :
    Delivers (λ l. l) 13 plain_bytes (read three_bytes 120 new_reader packed_bytes 13)
read-Delivers_example =
    read-Delivers (λ l. l) three_bytes new_reader packed_bytes plain_bytes 120 13
      three_bytes-Reliable new_reader-Sized
      (new_reader-Remaining packed_bytes plain_bytes packed_bytes-Unpacks) (omega arith)

pack_two :
    pack [] raw_bytes
    ≡ ok (0xff ∷ 1 ∷ 2 ∷ 3 ∷ 4 ∷ 5 ∷ 6 ∷ 7 ∷ 8 ∷ 1 ∷ 9 ∷ 8 ∷ 7 ∷ 0 ∷ 5 ∷ 4 ∷ 3 ∷ 2 ∷ [])
unfolding pack pack_words pack_word pack_run scan scan_byte num_zero_words leading_zeros raw_words
    count_zeros
pack_two = refl

pack-read_example :
    (f : Frame (List ℕ)) × (e : Option Error) × (read three_bytes 150 new_reader
        (0xff ∷ 1 ∷ 2 ∷ 3 ∷ 4 ∷ 5 ∷ 6 ∷ 7 ∷ 8 ∷ 1 ∷ 9 ∷ 8 ∷ 7 ∷ 0 ∷ 5 ∷ 4 ∷ 3 ∷ 2 ∷ [])
        16
      ≡ some (f, e))
    × (f.out ≡ raw_bytes)
pack-read_example =
    pack-read (λ l. l) three_bytes
      (0xff ∷ 1 ∷ 2 ∷ 3 ∷ 4 ∷ 5 ∷ 6 ∷ 7 ∷ 8 ∷ 1 ∷ 9 ∷ 8 ∷ 7 ∷ 0 ∷ 5 ∷ 4 ∷ 3 ∷ 2 ∷ []) raw_bytes 150
      three_bytes-Reliable (omega arith) pack_two (omega arith)
