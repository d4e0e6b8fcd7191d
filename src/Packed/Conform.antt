-- ===== src/Packed/Conform.antt =====
-- internal/packed/packed.go: what `Pack` writes is a stream of the packed format.
use go_capnproto.Prelude.{
  ℕ, zero, suc, ◌+◌, ◌*◌, ◌/◌, ◌%◌, ◌^◌, ◌≤◌, min, ◌≡◌, ◌≢◌, refl, sym, arith, ap, ap₂, ◌∙◌, List,
  [], ◌∷◌, ◌++◌, length, take, drop, replicate, append_assoc, append-nil, length-take, length-drop,
  take-append-drop, ◌==◌, u8, Bool-cases, inl, inr, false, ok,
}
use mathlib.Core.Path.{subst}
use native.Mathlib.Decide.{ℕ_discrete}
use go_capnproto.Packed.{pack, pack_words, pack_run, leading_zeros, num_zero_words, raw_words}
use go_capnproto.Packed.Format.{spread}
use go_capnproto.Packed.Stream.{Unpacks, nothing, zero_run, plain_word, raw_run, ones}
use go_capnproto.Packed.Tag.{tag, nonzero, tag-lt, nonzero_full, zero_of, spread_lem}
use go_capnproto.Packed.Run.{leading, raw_words-le}
use go_capnproto.Packed.RoundTrip.{pack_word_lem, pack_words-empty, pack_words_next}

no_bits : (w : List ℕ) → tag w ≡ 0 → (nonzero w ≡ []) × (w ≡ replicate (length w) 0)
unfolding tag nonzero
no_bits [] e = (refl, refl)
no_bits (b ∷ w) e = elim (Bool-cases (b == 0)) [
  | inl z ↦
      let (n, r) = no_bits w (ground (arith, z, e)) in
      (rw z n, ap₂ (λ x xs. x ∷ xs) (sym (zero_of b z)) r)
  | inr nz ↦ absurd (ground (arith, nz, e))
]

length-nonzero : (w : List ℕ) → length (nonzero w) ≡ ones (length w) (tag w)
unfolding tag nonzero ones
length-nonzero [] = refl
length-nonzero (b ∷ w) = elim (Bool-cases (b == 0)) [
  | inl z ↦ rw z (length-nonzero w ∙ even (tag w))
  | inr nz ↦ rw nz (ap suc (length-nonzero w) ∙ odd (tag w))
]
  where
    even : (t : ℕ) → ones (length w) t ≡ (0 + 2 * t) % 2 + ones (length w) ((0 + 2 * t) / 2)
    even t = omega (arith, ap (ones (length w)) {x = (0 + 2 * t) / 2} {y = t} (omega arith))

    odd : (t : ℕ) → suc (ones (length w) t) ≡ (1 + 2 * t) % 2 + ones (length w) ((1 + 2 * t) / 2)
    odd t = omega (arith, ap (ones (length w)) {x = (1 + 2 * t) / 2} {y = t} (omega arith))

-- The words that a round of `Pack` takes, and their place in a stream.
record Packs (t : ℕ) (w src : List ℕ) : Type 0 where
  bytes : ℕ
  whole : bytes % 8 ≡ 0
  left : (pack_run t src).1 ≡ drop bytes src
  conforms :
      (xs ys : List ℕ)
      → Unpacks xs ys
      → Unpacks (t ∷ ((nonzero w ++ (pack_run t src).0) ++ xs)) (w ++ (take bytes src ++ ys))

plain-Packs : (w src : List ℕ) → length w ≡ 8 → tag w ≢ 0 → tag w ≢ 0xff → Packs (tag w) w src
unfolding pack_run
plain-Packs w src h nz nf = record {
  bytes = 0;
  whole = omega arith;
  left = rw (no_eq (tag w) 0 nz, no_eq (tag w) 0xff nf) refl;
  conforms = λ xs ys u.
      rw (no_eq (tag w) 0 nz, no_eq (tag w) 0xff nf, append-nil (nonzero w))
        (subst (λ r. Unpacks (tag w ∷ (nonzero w ++ xs)) (r ++ ys)) (word (nonzero w))
          (plain_word (tag w) (nonzero w) xs ys nz (omega (arith, nf, tag-lt w, ap (λ k. 2 ^ k) h))
            (length-nonzero w ∙ ap (λ n. ones n (tag w)) h) u));
}
  where
    no_eq : (a b : ℕ) → a ≢ b → (a == b) ≡ false
    no_eq a b h = ground (arith, h)

    word : (n : List ℕ) → (spread 8 (tag w) (nonzero w)).0 ≡ w
    word n =
        ap₂ (λ k l. (spread k (tag w) l).0) (sym h) (sym (append-nil (nonzero w)))
        ∙ ap (λ r. r.0) (spread_lem w [])

zeros-Packs : (w src : List ℕ) → length w ≡ 8 → tag w ≡ 0 → Packs 0 w src
unfolding pack_run num_zero_words
zeros-Packs w src h e = record {
  bytes = z * 8;
  whole = omega arith;
  left = refl;
  conforms = λ xs ys u.
      subst (λ p. Unpacks (0 ∷ ((p ++ (u8 z ∷ [])) ++ xs)) (w ++ (take (z * 8) src ++ ys)))
        (sym (no_bits w e).0)
        (subst (λ l. Unpacks (0 ∷ (u8 z ∷ xs)) l) (words ys) (zero_run (u8 z) xs ys u));
}
  where
    z : ℕ
    z = min (leading_zeros src / 8) 0xff

    words : (ys : List ℕ) → replicate ((u8 z + 1) * 8) 0 ++ ys ≡ w ++ (take (z * 8) src ++ ys)
    words ys =
        ap (λ k. replicate k 0 ++ ys) {x = (u8 z + 1) * 8}
          {y = suc (suc (suc (suc (suc (suc (suc (suc (z * 8))))))))} (omega arith)
        ∙ ap₂ (λ a b. a ++ (b ++ ys)) (ap (λ k. replicate k 0) (sym h) ∙ sym (no_bits w e).1)
            (sym (leading src (z * 8) (omega arith)))

raw-Packs : (w src : List ℕ) → length w ≡ 8 → tag w ≡ 0xff → Packs 0xff w src
unfolding pack_run
raw-Packs w src h e = record {
  bytes = k * 8;
  whole = omega arith;
  left = refl;
  conforms = λ xs ys u.
      subst (λ l. Unpacks l (w ++ (take (k * 8) src ++ ys))) (same xs)
        (raw_run w (u8 k) (take (k * 8) src) xs ys h (omega (arith, bound, length-take (k * 8) src))
          u);
}
  where
    k : ℕ
    k = raw_words (min (length src) 2040 / 8) src

    bound : k ≤ min (length src) 2040 / 8
    bound = raw_words-le (min (length src) 2040 / 8) src

    same :
        (xs : List ℕ)
        → 0xff ∷ (w ++ (u8 k ∷ (take (k * 8) src ++ xs)))
          ≡ 0xff ∷ ((nonzero w ++ (u8 k ∷ take (k * 8) src)) ++ xs)
    same xs =
        ap (λ l. 0xff ∷ l)
          (sym (append_assoc w (u8 k ∷ take (k * 8) src) xs)
            ∙ ap (λ l. (l ++ (u8 k ∷ take (k * 8) src)) ++ xs)
                (sym (nonzero_full w (ap (λ n. n + 1) e ∙ ap (λ n. 2 ^ n) (sym h)))))

word-Packs : (w src : List ℕ) → length w ≡ 8 → Packs (tag w) w src
word-Packs w src h = elim (ℕ_discrete (tag w) 0) [
  | yes z ↦ subst (λ t. Packs t w src) (sym z) (zeros-Packs w src h z)
  | no nz ↦ elim (ℕ_discrete (tag w) 0xff) [
    | yes f ↦ subst (λ t. Packs t w src) (sym f) (raw-Packs w src h f)
    | no nf ↦ plain-Packs w src h nz nf
  ]
]

round_lem :
    (n : ℕ) (src : List ℕ) (p : Packs (tag (take 8 src)) (take 8 src) (drop 8 src))
    → 8 ≤ length src
    → Unpacks (pack_words n (drop p.bytes (drop 8 src))) (drop p.bytes (drop 8 src))
    → Unpacks (pack_words (suc n) src) src
round_lem n src p h u =
    subst (λ l. Unpacks l src) (sym out)
      (subst
        (λ l.
          Unpacks (tag w ∷ ((nonzero w ++ (pack_run (tag w) (drop 8 src)).0) ++ pack_words n rest))
            l)
        plain (p.conforms (pack_words n rest) rest u))
  where
    w : List ℕ
    w = take 8 src

    rest : List ℕ
    rest = drop p.bytes (drop 8 src)

    plain : w ++ (take p.bytes (drop 8 src) ++ rest) ≡ src
    plain = ap (λ t. w ++ t) (take-append-drop p.bytes (drop 8 src)) ∙ take-append-drop 8 src

    out :
        pack_words (suc n) src
        ≡ tag w ∷ ((nonzero w ++ (pack_run (tag w) (drop 8 src)).0) ++ pack_words n rest)
    out =
        pack_words_next n src h
        ∙ ap (λ r. r.0 ++ pack_words n r.1) (pack_word_lem src h)
        ∙ ap (λ l. tag w ∷ ((nonzero w ++ (pack_run (tag w) (drop 8 src)).0) ++ pack_words n l))
            p.left

pub pack_words-Unpacks :
    (n : ℕ) (src : List ℕ)
    → length src ≤ 8 * n
    → length src % 8 ≡ 0
    → Unpacks (pack_words n src) src
pack_words-Unpacks n [] fits whole = subst (λ l. Unpacks l []) (sym (pack_words-empty n)) nothing
pack_words-Unpacks zero (b ∷ bs) fits whole = absurd (omega arith)
pack_words-Unpacks (suc n) (b ∷ bs) fits whole =
    let src : List ℕ = b ∷ bs in
    let p : Packs (tag (take 8 src)) (take 8 src) (drop 8 src) =
      word-Packs (take 8 src) (drop 8 src) (omega (arith, length-take 8 src)) in
    round_lem n src p (omega arith) (
      pack_words-Unpacks n (drop p.bytes (drop 8 src))
        (omega (arith, length-drop p.bytes (drop 8 src), length-drop 8 src))
        (omega (arith, p.whole, length-drop p.bytes (drop 8 src), length-drop 8 src)))

-- `Pack` of whole words appends to `dst` a stream of the packed format that stands for them.
pub pack-Unpacks :
    (dst src : List ℕ)
    → length src % 8 ≡ 0
    → (out : List ℕ) × (pack dst src ≡ ok (dst ++ out)) × Unpacks out src
unfolding pack
pack-Unpacks dst src whole = (
  pack_words (length src / 8) src,
  rw whole refl,
  pack_words-Unpacks (length src / 8) src (omega arith) whole,
)
