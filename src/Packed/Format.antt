-- ===== src/Packed/Format.antt =====
-- The packed format as its documentation has it: a decoder of whole streams, to compare with.
use go_capnproto.Prelude.{
  ℕ, zero, suc, ◌*◌, ◌/◌, ◌%◌, List, [], ◌∷◌, ◌++◌, length, take, drop, replicate, ◌==◌,
  if◌then◌else◌,
}

-- `n` bytes of a word: where the tag has a bit, the next byte of the stream, and zero elsewhere.
abbrev pub put_byte : ℕ → ℕ → List ℕ × List ℕ → List ℕ × List ℕ
put_byte zero b (w, xs) = (0 ∷ w, xs)
put_byte (suc k) b (w, xs) = (b ∷ w, xs)

abbrev pub head_or : ℕ → List ℕ → ℕ
head_or d [] = d
head_or d (x ∷ xs) = x

unfoldable pub spread : ℕ → ℕ → List ℕ → List ℕ × List ℕ
spread zero t xs = ([], xs)
spread (suc n) t xs = put_byte (t % 2) (head_or 0 xs) (spread n (t / 2) (drop (t % 2) xs))

-- The words behind a word with the tag 0, which are zero, and those behind one with the tag 0xff,
-- which are copied. Their number is the next byte.
unfoldable pub run : ℕ → List ℕ → List ℕ × List ℕ
run t xs =
    let n = head_or 0 xs in
    if t == 0
    then (replicate (n * 8) 0, drop 1 xs)
    else if t == 0xff
    then (take (n * 8) (drop 1 xs), drop (n * 8) (drop 1 xs))
    else ([], xs)

-- The first word of a run: all its bytes stand behind a tag of 0xff.
unfoldable pub first_word : ℕ → List ℕ → List ℕ × List ℕ
first_word t xs = if t == 0xff then (take 8 xs, drop 8 xs) else spread 8 t xs

unfoldable pub unpack_word : List ℕ → List ℕ × List ℕ
unpack_word [] = ([], [])
unpack_word (t ∷ xs) =
    let (w, ys) = first_word t xs in let (words, zs) = run t ys in (w ++ words, zs)

unfoldable pub unpack : ℕ → List ℕ → List ℕ
unpack zero xs = []
unpack (suc n) xs =
    let (w, rest) = unpack_word xs in
    let more = unpack n rest in if length xs == 0 then [] else w ++ more
