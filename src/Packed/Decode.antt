-- ===== src/Packed/Decode.antt =====
-- internal/packed/packed.go: the streams of the packed format, and the decoder of whole streams.
use go_capnproto.Prelude.{
  ℕ, zero, suc, ◌+◌, ◌*◌, ◌≤◌, ◌<◌, ◌≡◌, ◌≢◌, refl, sym, arith, ap, ap₂, ◌∙◌, List, [], ◌∷◌, ◌++◌,
  length, take, drop, replicate, append_assoc, length-append, take-append, drop-append, ◌==◌, false,
  ◌%◌, ◌/◌, append-nil,
}
use native.Mathlib.Decide.{ℕ_discrete}
use go_capnproto.Packed.Format.{spread, first_word, run, unpack_word, unpack, put_byte, head_or}
use go_capnproto.Packed.Stream.{Unpacks, nothing, zero_run, plain_word, raw_run, ones}
use go_capnproto.Packed.RoundTrip.{unpack-empty, unpack_next}

-- The bytes behind the ones of a tag are not looked at.
spread_behind :
    (n t : ℕ) (bytes xs : List ℕ)
    → length bytes ≡ ones n t
    → spread n t (bytes ++ xs) ≡ ((spread n t bytes).0, xs)
unfolding spread ones
spread_behind zero t [] xs h = refl
spread_behind zero t (b ∷ bytes) xs h = absurd (omega arith)
spread_behind (suc n) t bytes xs h = elim (ℕ_discrete (t % 2) 0) [
  | yes e ↦ rw e (
      ap (put_byte 0 (head_or 0 (bytes ++ xs)))
        (spread_behind n (t / 2) bytes xs (omega (arith, h, e))))
  | no ne ↦ odd bytes h (omega (arith, ne)) (λ bs k. spread_behind n (t / 2) bs xs k)
]
  where
    odd :
        (bytes : List ℕ)
        → length bytes ≡ t % 2 + ones n (t / 2)
        → t % 2 ≡ 1
        → ((bs : List ℕ)
            → length bs ≡ ones n (t / 2)
            → spread n (t / 2) (bs ++ xs) ≡ ((spread n (t / 2) bs).0, xs))
        → put_byte (t % 2) (head_or 0 (bytes ++ xs)) (spread n (t / 2) (drop (t % 2) (bytes ++ xs)))
          ≡ ((put_byte (t % 2) (head_or 0 bytes) (spread n (t / 2) (drop (t % 2) bytes))).0, xs)
    odd [] h o more = absurd (omega arith)
    odd (b ∷ bytes) h o more = rw o (ap (put_byte 1 b) (more bytes (omega arith)))

zero_word : (n : ℕ) (xs : List ℕ) → unpack_word (0 ∷ (n ∷ xs)) ≡ (replicate ((n + 1) * 8) 0, xs)
unfolding unpack_word first_word run spread
zero_word n xs =
    ap (λ k. (replicate k 0, xs)) {x = suc (suc (suc (suc (suc (suc (suc (suc (n * 8))))))))}
      {y = (n + 1) * 8} (omega arith)

plain_word_lem :
    (t : ℕ) (bytes xs : List ℕ)
    → t ≢ 0
    → t < 0xff
    → length bytes ≡ ones 8 t
    → unpack_word (t ∷ (bytes ++ xs)) ≡ ((spread 8 t bytes).0, xs)
unfolding unpack_word first_word run
plain_word_lem t bytes xs nz lt h =
    rw (no_eq 0xff (λ e. absurd (omega (arith, e, lt))), no_eq 0 nz)
      (ap (λ r. (r.0 ++ [], r.1)) (spread_behind 8 t bytes xs h)
        ∙ ap (λ w. (w, xs)) (append-nil (spread 8 t bytes).0))
  where
    no_eq : (b : ℕ) → t ≢ b → (t == b) ≡ false
    no_eq b h = ground (arith, h)

raw_word :
    (w : List ℕ) (n : ℕ) (r xs : List ℕ)
    → length w ≡ 8
    → length r ≡ n * 8
    → unpack_word (0xff ∷ (w ++ (n ∷ (r ++ xs)))) ≡ (w ++ r, xs)
unfolding unpack_word first_word run
raw_word w n r xs h k =
    ap (λ (s : List ℕ × List ℕ). (s.0 ++ (run 0xff s.1).0, (run 0xff s.1).1))
      (ap (λ j. (take j (w ++ (n ∷ (r ++ xs))), drop j (w ++ (n ∷ (r ++ xs))))) (sym h)
        ∙ ap₂ (λ x y. (x, y)) (take-append w (n ∷ (r ++ xs))) (drop-append w (n ∷ (r ++ xs))))
    ∙ ap (λ (s : List ℕ × List ℕ). (w ++ s.0, s.1))
        (ap (λ j. (take j (r ++ xs), drop j (r ++ xs))) (sym k)
          ∙ ap₂ (λ x y. (x, y)) (take-append r xs) (drop-append r xs))

-- The decoder of whole streams reads a stream of the packed format as the bytes it stands for,
-- with a round for each of its bytes or more.
pub unpack-Unpacks : (n : ℕ) (xs ys : List ℕ) → Unpacks xs ys → length xs ≤ n → unpack n xs ≡ ys
unpack-Unpacks n xs ys nothing h = unpack-empty n
unpack-Unpacks zero xs ys (zero_run k rest more u) h = absurd (omega arith)
unpack-Unpacks (suc n) xs ys (zero_run k rest more u) h =
    unpack_next n 0 (k ∷ rest) (replicate ((k + 1) * 8) 0) rest (zero_word k rest)
    ∙ ap (λ t. replicate ((k + 1) * 8) 0 ++ t) (unpack-Unpacks n rest more u (omega arith))
unpack-Unpacks zero xs ys (plain_word t bytes rest more nz lt k u) h = absurd (omega arith)
unpack-Unpacks (suc n) xs ys (plain_word t bytes rest more nz lt k u) h =
    unpack_next n t (bytes ++ rest) (spread 8 t bytes).0 rest (plain_word_lem t bytes rest nz lt k)
    ∙ ap (λ s. (spread 8 t bytes).0 ++ s)
        (unpack-Unpacks n rest more u (omega (arith, length-append bytes rest)))
unpack-Unpacks zero xs ys (raw_run w k r rest more e₁ e₂ u) h = absurd (omega arith)
unpack-Unpacks (suc n) xs ys (raw_run w k r rest more e₁ e₂ u) h =
    unpack_next n 0xff (w ++ (k ∷ (r ++ rest))) (w ++ r) rest (raw_word w k r rest e₁ e₂)
    ∙ append_assoc w r (unpack n rest)
    ∙ ap (λ s. w ++ (r ++ s))
        (unpack-Unpacks n rest more u
          (omega (arith, length-append w (k ∷ (r ++ rest)), length-append r rest)))
