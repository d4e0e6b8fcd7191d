-- ===== src/Packed/Tests.antt =====
-- internal/packed/packed.go: four words, one of each kind and a word of the run behind it.
use go_capnproto.Prelude.{ℕ, List, [], ◌∷◌, ◌++◌, ◌≡◌, refl, arith, ok}
use go_capnproto.Packed.{
  pack, pack_words, pack_word, pack_run, scan, scan_byte, num_zero_words, leading_zeros, raw_words,
  count_zeros,
}
use go_capnproto.Packed.Format.{unpack}
use go_capnproto.Packed.RoundTrip.{pack-unpack}

abbrev four_words : List ℕ
four_words =
    8 ∷ 0 ∷ 0 ∷ 0 ∷ 3 ∷ 0 ∷ 2 ∷ 0 ∷ 0 ∷ 0 ∷ 0 ∷ 0 ∷ 0 ∷ 0 ∷ 0 ∷ 0 ∷ 1 ∷ 2 ∷ 3 ∷ 4 ∷ 5 ∷ 6 ∷ 7 ∷ 8
    ∷ 9 ∷ 8 ∷ 7 ∷ 0 ∷ 5 ∷ 4 ∷ 3 ∷ 2 ∷ []

-- The bytes that the encoding's documentation gives for such words.
pack_four :
    pack [] four_words
    ≡ ok (
        0x51 ∷ 8 ∷ 3 ∷ 2 ∷ 0 ∷ 0 ∷ 0xff ∷ 1 ∷ 2 ∷ 3 ∷ 4 ∷ 5 ∷ 6 ∷ 7 ∷ 8 ∷ 1 ∷ 9 ∷ 8 ∷ 7 ∷ 0 ∷ 5 ∷ 4
        ∷ 3 ∷ 2 ∷ [])
unfolding pack pack_words pack_word pack_run scan scan_byte num_zero_words leading_zeros raw_words
    count_zeros
pack_four = refl

pack-unpack_example :
    (out : List ℕ) × (pack (7 ∷ []) four_words ≡ ok ((7 ∷ []) ++ out)) × (unpack 4 out ≡ four_words)
pack-unpack_example = pack-unpack (7 ∷ []) four_words 4 (omega arith) (omega arith)
