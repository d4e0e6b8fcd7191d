-- ===== src/Packed/Run.antt =====
-- internal/packed/packed.go: the runs of zero words and of raw words.
use go_capnproto.Prelude.{
  ℕ, zero, suc, ◌*◌, ◌/◌, ◌%◌, ◌≤◌, min, ◌≡◌, refl, arith, ap, ap₂, ◌∙◌, sym, List, [], ◌∷◌, ◌++◌,
  length, take, drop, replicate, ◌==◌, u8, if◌then◌else◌, Bool-cases, inl, inr, true, false,
}
use go_capnproto.Prelude.{length-take, take-append, drop-append}
use mathlib.Core.Path.{subst}
use native.Mathlib.Decide.{ℕ_discrete}
use go_capnproto.Packed.{leading_zeros, num_zero_words, raw_words, pack_run}
use go_capnproto.Packed.Format.{run}
use go_capnproto.Packed.Tag.{zero_of}

-- The zero bytes at the front.
pub leading : (b : List ℕ) (k : ℕ) → k ≤ leading_zeros b → take k b ≡ replicate k 0
unfolding leading_zeros
leading b zero h = refl
leading [] (suc k) h = absurd (omega arith)
leading (b ∷ bs) (suc k) h = elim (Bool-cases (b == 0)) [
  | inl z ↦ ap₂ (λ x xs. x ∷ xs) (sym (zero_of b z)) (leading bs k (more z h))
  | inr nz ↦ absurd (none_there nz h)
]
  where
    more :
        (b == 0) ≡ true
        → suc k ≤ (if b == 0 then suc (leading_zeros bs) else 0)
        → k ≤ leading_zeros bs
    more z h = ground arith

    none_there : (b == 0) ≡ false → suc k ≤ (if b == 0 then suc (leading_zeros bs) else 0) → ⊥
    none_there nz h = ground arith

pub raw_words-le : (n : ℕ) (src : List ℕ) → raw_words n src ≤ n
unfolding raw_words
raw_words-le zero src = omega arith
raw_words-le (suc n) src = ground (arith, raw_words-le n (drop 8 src))

-- The bytes behind a word that its run takes, and what `run` reads of them.
pub record Taken (t : ℕ) (src more : List ℕ) : Type 0 where
  pub bytes : ℕ
  pub whole : bytes % 8 ≡ 0
  pub read_back : run t ((pack_run t src).0 ++ more) ≡ (take bytes src, more)
  pub left : (pack_run t src).1 ≡ drop bytes src

plain-Taken :
    (t : ℕ) (src more : List ℕ) → (t == 0) ≡ false → (t == 0xff) ≡ false → Taken t src more
unfolding run pack_run
plain-Taken t src more nz nf = record {
  bytes = 0;
  whole = omega arith;
  read_back = rw (nz, nf) refl;
  left = rw (nz, nf) refl;
}

zeros-Taken : (src more : List ℕ) → Taken 0 src more
unfolding run pack_run num_zero_words
zeros-Taken src more = record {
  bytes = z * 8;
  whole = omega arith;
  read_back =
      ap (λ k. (replicate (k * 8) 0, more)) byte
      ∙ ap (λ x. (x, more)) (sym (leading src (z * 8) (omega arith)));
  left = refl;
}
  where
    z : ℕ
    z = min (leading_zeros src / 8) 0xff

    byte : u8 z ≡ z
    byte = omega arith

raw-Taken : (src more : List ℕ) → Taken 0xff src more
unfolding run pack_run
raw-Taken src more = record {
  bytes = raw * 8;
  whole = omega arith;
  read_back =
      ap
        (λ k.
          (take (k * 8) (take (raw * 8) src ++ more), drop (k * 8) (take (raw * 8) src ++ more)))
        byte
      ∙ ap (λ k. (take k (take (raw * 8) src ++ more), drop k (take (raw * 8) src ++ more)))
          (sym full)
      ∙ ap₂ (λ x y. (x, y)) (take-append (take (raw * 8) src) more)
          (drop-append (take (raw * 8) src) more);
  left = refl;
}
  where
    raw : ℕ
    raw = raw_words (min (length src) 2040 / 8) src

    bound : raw ≤ min (length src) 2040 / 8
    bound = raw_words-le (min (length src) 2040 / 8) src

    byte : u8 raw ≡ raw
    byte = omega (arith, bound)

    full : length (take (raw * 8) src) ≡ raw * 8
    full = omega (arith, bound, length-take (raw * 8) src)

pub run-Taken : (t : ℕ) (src more : List ℕ) → Taken t src more
run-Taken t src more = elim (ℕ_discrete t 0) [
  | yes e ↦ subst (λ k. Taken k src more) (sym e) (zeros-Taken src more)
  | no nz ↦ elim (ℕ_discrete t 0xff) [
    | yes e ↦ subst (λ k. Taken k src more) (sym e) (raw-Taken src more)
    | no nf ↦ plain-Taken t src more (ground (arith, nz)) (ground (arith, nf))
  ]
]
