-- ===== src/Packed.antt =====
-- internal/packed/packed.go: `Pack`, which writes a word as a tag and its bytes that are not zero.
pub mod Format
pub mod Tag
pub mod Run
pub mod RoundTrip
pub mod Stream
pub mod Conform
pub mod Decode
pub mod Reader
mod Tests
use go_capnproto.Prelude.{
  ℕ, zero, suc, ◌+◌, ◌*◌, ◌/◌, ◌%◌, ◌^◌, min, bit_or, List, [], ◌∷◌, ◌++◌, length, take, drop, ltb,
  ◌==◌, u8, if◌then◌else◌, Result, ok, packed_length, ◌>>=◌, ◌>>◌, must,
}
use go_capnproto.Address.{word_size}

-- The bytes of a word are scanned from bit `i` of the tag on; `buf` keeps those that are not zero.
unfoldable pub scan_byte : ℕ → ℕ → ℕ → List ℕ → ℕ × List ℕ
scan_byte i b hdr buf = if b == 0 then (hdr, buf) else (bit_or hdr (u8 (2 ^ i)), buf ++ (b ∷ []))

unfoldable pub scan : ℕ → List ℕ → ℕ → List ℕ → ℕ × List ℕ
scan i [] hdr buf = (hdr, buf)
scan i (b ∷ bs) hdr buf = let (hdr', buf') = scan_byte i b hdr buf in scan (i + 1) bs hdr' buf'

-- The index of the first byte that is not zero, or the length.
unfoldable pub leading_zeros : List ℕ → ℕ
leading_zeros [] = 0
leading_zeros (b ∷ bs) = if b == 0 then suc (leading_zeros bs) else 0

unfoldable pub num_zero_words : List ℕ → ℕ
num_zero_words b = leading_zeros b / word_size

unfoldable pub count_zeros : List ℕ → ℕ
count_zeros [] = 0
count_zeros (b ∷ bs) = if b == 0 then suc (count_zeros bs) else count_zeros bs

-- The words, at most as many as given, that have no more than one zero byte.
unfoldable pub raw_words : ℕ → List ℕ → ℕ
raw_words zero src = 0
raw_words (suc n) src =
    let more = raw_words n (drop word_size src) in
    if ltb 1 (count_zeros (take word_size src)) then 0 else suc more

-- What is written after a word and its tag, and the words that are left.
unfoldable pub pack_run : ℕ → List ℕ → List ℕ × List ℕ
pack_run hdr src =
    let z = min (num_zero_words src) 0xff in
    let raw = raw_words (min (length src) (0xff * word_size) / word_size) src in
    if hdr == 0
    then (u8 z ∷ [], drop (z * word_size) src)
    else if hdr == 0xff
    then (u8 raw ∷ take (raw * word_size) src, drop (raw * word_size) src)
    else ([], src)

-- One round of the loop.
unfoldable pub pack_word : List ℕ → List ℕ × List ℕ
pack_word src =
    let (hdr, buf) = scan 0 (take word_size src) 0 [] in
    let (run, rest) = pack_run hdr (drop word_size src) in (hdr ∷ (buf ++ run), rest)

-- The loop takes a word or more each round.
unfoldable pub pack_words : ℕ → List ℕ → List ℕ
pack_words zero src = []
pack_words (suc n) src =
    let (out, rest) = pack_word src in
    let more = pack_words n rest in if length src == 0 then [] else out ++ more

unfoldable pub pack : List ℕ → List ℕ → Result (List ℕ)
pack dst src = do
  must (length src % word_size == 0) packed_length
  ok (dst ++ pack_words (length src / word_size) src)
