-- ===== src/Packed/Stream.antt =====
-- The streams of the packed format as its documentation has them, with the bytes they stand for.
use go_capnproto.Prelude.{
  ℕ, zero, suc, ◌+◌, ◌*◌, ◌/◌, ◌%◌, ◌<◌, ◌≡◌, ◌≢◌, List, [], ◌∷◌, ◌++◌, length, replicate,
}
use go_capnproto.Packed.Format.{spread}

-- The number of bytes behind a tag.
unfoldable pub ones : ℕ → ℕ → ℕ
ones zero t = 0
ones (suc n) t = t % 2 + ones n (t / 2)

-- A tag of 0 has a count of zero words behind it; one of 0xff has a word, and a count of words
-- that are copied; any other has the bytes of a word that its bits are set for.
pub data Unpacks : List ℕ → List ℕ → Type 0 where
  nothing : Unpacks [] []
  zero_run :
      (n : ℕ) (xs ys : List ℕ)
      → Unpacks xs ys
      → Unpacks (0 ∷ (n ∷ xs)) (replicate ((n + 1) * 8) 0 ++ ys)
  plain_word :
      (t : ℕ) (bytes xs ys : List ℕ)
      → t ≢ 0
      → t < 0xff
      → length bytes ≡ ones 8 t
      → Unpacks xs ys
      → Unpacks (t ∷ (bytes ++ xs)) ((spread 8 t bytes).0 ++ ys)
  raw_run :
      (w : List ℕ) (n : ℕ) (r xs ys : List ℕ)
      → length w ≡ 8
      → length r ≡ n * 8
      → Unpacks xs ys
      → Unpacks (0xff ∷ (w ++ (n ∷ (r ++ xs)))) (w ++ (r ++ ys))
