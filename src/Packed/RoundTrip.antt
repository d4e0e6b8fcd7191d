-- ===== src/Packed/RoundTrip.antt =====
-- internal/packed/packed.go: what `Pack` writes unpacks to the words that it was given.
use go_capnproto.Prelude.{
  ℕ, zero, suc, ◌+◌, ◌*◌, ◌/◌, ◌%◌, ◌^◌, ◌≤◌, ◌≡◌, refl, arith, ap, ◌∙◌, List, [], ◌∷◌, ◌++◌,
  length, take, drop, ◌==◌, if◌then◌else◌, false,
}
use go_capnproto.Prelude.{ok, append_assoc, take-append-drop, length-take, length-drop}
use go_capnproto.Packed.{pack_run, pack_word, pack_words, pack}
use go_capnproto.Packed.Format.{run, unpack_word, unpack}
use go_capnproto.Packed.Tag.{tag, nonzero, scan_lem, first_word_lem}
use go_capnproto.Packed.Run.{Taken, run-Taken}

pub pack_word_lem :
    (src : List ℕ)
    → 8 ≤ length src
    → pack_word src ≡ (
      tag (take 8 src) ∷ (nonzero (take 8 src) ++ (pack_run (tag (take 8 src)) (drop 8 src)).0),
      (pack_run (tag (take 8 src)) (drop 8 src)).1,
    )
unfolding pack_word
pack_word_lem src h =
    ap (λ s. (s.0 ∷ (s.1 ++ (pack_run s.0 (drop 8 src)).0), (pack_run s.0 (drop 8 src)).1))
      (scan_lem 0 (take 8 src) 0 [] (omega arith) (omega (arith, length-take 8 src))
        ∙ ap (λ k. (k, nonzero (take 8 src))) (once (tag (take 8 src))))
  where
    once : (t : ℕ) → 0 + 2 ^ 0 * t ≡ t
    once t = omega arith

unpack_word_lem :
    (w src more : List ℕ) (k : Taken (tag w) src more)
    → length w ≡ 8
    → unpack_word (tag w ∷ (nonzero w ++ ((pack_run (tag w) src).0 ++ more)))
      ≡ (w ++ take k.bytes src, more)
unfolding unpack_word
unpack_word_lem w src more k h =
    ap (λ s. (s.0 ++ (run (tag w) s.1).0, (run (tag w) s.1).1))
      (first_word_lem w ((pack_run (tag w) src).0 ++ more) h)
    ∙ ap (λ r. (w ++ r.0, r.1)) k.read_back

pub pack_words-empty : (n : ℕ) → pack_words n [] ≡ []
unfolding pack_words
pack_words-empty zero = refl
pack_words-empty (suc n) = refl

pub unpack-empty : (m : ℕ) → unpack m [] ≡ []
unfolding unpack
unpack-empty zero = refl
unpack-empty (suc m) = refl

-- A round of both loops.
pub pack_words_next :
    (n : ℕ) (src : List ℕ)
    → 8 ≤ length src
    → pack_words (suc n) src ≡ (pack_word src).0 ++ pack_words n (pack_word src).1
unfolding pack_words
pack_words_next n src h = rw (not_empty (length src) h) refl
  where
    not_empty : (k : ℕ) → 8 ≤ k → (k == 0) ≡ false
    not_empty k h = ground arith

pub unpack_next :
    (m t : ℕ) (xs w rest : List ℕ)
    → unpack_word (t ∷ xs) ≡ (w, rest)
    → unpack (suc m) (t ∷ xs) ≡ w ++ unpack m rest
unfolding unpack
unpack_next m t xs w rest e =
    ap (λ b. if b then [] else (unpack_word (t ∷ xs)).0 ++ unpack m (unpack_word (t ∷ xs)).1)
      (not_empty (length xs))
    ∙ ap (λ r. r.0 ++ unpack m r.1) e
  where
    not_empty : (k : ℕ) → (suc k == 0) ≡ false
    not_empty k = ground arith

words_lem :
    (n m : ℕ) (src : List ℕ)
    → length src ≤ 8 * n
    → length src % 8 ≡ 0
    → n ≤ m
    → unpack m (pack_words n src) ≡ src
words_lem n m [] fits whole le = ap (unpack m) (pack_words-empty n) ∙ unpack-empty m
words_lem zero m (b ∷ bs) fits whole le = absurd (omega arith)
words_lem (suc n) zero (b ∷ bs) fits whole le = absurd (omega arith)
words_lem (suc n) (suc m) (b ∷ bs) fits whole le =
    ap (unpack (suc m)) (
      pack_words_next n src word
      ∙ ap (λ r. r.0 ++ pack_words n r.1) (pack_word_lem src word)
      ∙ ap (λ x. tag w ∷ x) (append_assoc (nonzero w) (pack_run (tag w) (drop 8 src)).0 more))
    ∙ unpack_next m (tag w) (nonzero w ++ ((pack_run (tag w) (drop 8 src)).0 ++ more))
        (w ++ take k.bytes (drop 8 src)) more
        (unpack_word_lem w (drop 8 src) more k (omega (arith, length-take 8 src)))
    ∙ ap (λ x. (w ++ take k.bytes (drop 8 src)) ++ x)
        (ap (λ x. unpack m (pack_words n x)) k.left
          ∙ words_lem n m rest (omega (arith, length-drop k.bytes (drop 8 src), length-drop 8 src))
              (omega (arith, k.whole, length-drop k.bytes (drop 8 src), length-drop 8 src))
              (omega arith))
    ∙ append_assoc w (take k.bytes (drop 8 src)) rest
    ∙ ap (λ x. w ++ x) (take-append-drop k.bytes (drop 8 src))
    ∙ take-append-drop 8 src
  where
    src : List ℕ
    src = b ∷ bs

    w : List ℕ
    w = take 8 src

    word : 8 ≤ length src
    word = omega arith

    more : List ℕ
    more = pack_words n (pack_run (tag w) (drop 8 src)).1

    k : Taken (tag w) (drop 8 src) more
    k = run-Taken (tag w) (drop 8 src) more

    rest : List ℕ
    rest = drop k.bytes (drop 8 src)

-- `Pack` appends to `dst` a stream that unpacks to the bytes that it was given, whole words, with
-- a round of the decoder for each of them or more.
pub pack-unpack :
    (dst src : List ℕ) (rounds : ℕ)
    → length src % 8 ≡ 0
    → length src / 8 ≤ rounds
    → (out : List ℕ) × (pack dst src ≡ ok (dst ++ out)) × (unpack rounds out ≡ src)
unfolding pack
pack-unpack dst src rounds whole enough = (
  pack_words (length src / 8) src,
  rw whole refl,
  words_lem (length src / 8) rounds src (omega arith) whole enough,
)
