-- ===== src/Prelude/Slices.antt =====
-- Go slices as lists: slice expressions, `copy`, and the little-endian words of encoding/binary.
use Prim.Native.Nat.{ℕ, zero, suc, ◌+◌, ◌-◌, ◌*◌, ◌/◌, ◌%◌, ◌^◌, ◌≤◌, ◌<◌}
use mathlib.Core.Path.{◌≡◌, refl, ap}
use mathlib.Core.List.{List, [], ◌∷◌}
use native.Mathlib.Nat.{pow-suc}
use native.Mathlib.Omega.{arith}
use go_capnproto.Prelude.Lists.{length, take, drop, length-take, length-drop}
use go_capnproto.Prelude.Tests.{leb, if◌then◌else◌}
use go_capnproto.Prelude.Outcome.{Result, ok, panic, slice_bounds}

module _ {ℓ} {A : Type ℓ} where
  -- `s[lo:hi]` with `hi` within the slice's capacity.
  abbrev pub go_slice : List A → ℕ → ℕ → Result (List A)
  go_slice xs lo hi = if leb lo hi then ok (take (hi - lo) (drop lo xs)) else panic slice_bounds

  -- `copy(dst, src)`: as many elements as both have.
  abbrev pub copy : List A → List A → List A
  copy xs [] = xs
  copy [] (y ∷ ys) = []
  copy (x ∷ xs) (y ∷ ys) = y ∷ copy xs ys

  -- `copy(dst[i:], src)`
  abbrev pub copy_at : List A → ℕ → List A → List A
  copy_at xs zero ys = copy xs ys
  copy_at [] (suc i) ys = []
  copy_at (x ∷ xs) (suc i) ys = x ∷ copy_at xs i ys

  pub length-copy : (xs ys : List A) → length (copy xs ys) ≡ length xs
  length-copy xs [] = refl
  length-copy [] (y ∷ ys) = refl
  length-copy (x ∷ xs) (y ∷ ys) = ap suc (length-copy xs ys)

  pub length-copy_at : (xs : List A) (i : ℕ) (ys : List A) → length (copy_at xs i ys) ≡ length xs
  length-copy_at xs zero ys = length-copy xs ys
  length-copy_at [] (suc i) ys = refl
  length-copy_at (x ∷ xs) (suc i) ys = ap suc (length-copy_at xs i ys)

  take-copy : (xs ys : List A) → length ys ≤ length xs → take (length ys) (copy xs ys) ≡ ys
  take-copy xs [] h = refl
  take-copy [] (y ∷ ys) h = absurd (omega arith)
  take-copy (x ∷ xs) (y ∷ ys) h = ap (λ t. y ∷ t) (take-copy xs ys (omega arith))

  -- What `copy` wrote is read back.
  pub slice-copy_at_self :
      (xs : List A) (i : ℕ) (ys : List A)
      → i + length ys ≤ length xs
      → take (length ys) (drop i (copy_at xs i ys)) ≡ ys
  slice-copy_at_self xs zero ys h = take-copy xs ys (omega arith)
  slice-copy_at_self [] (suc i) [] h = refl
  slice-copy_at_self [] (suc i) (y ∷ ys) h = absurd (omega arith)
  slice-copy_at_self (x ∷ xs) (suc i) ys h = slice-copy_at_self xs i ys (omega arith)

  drop-copy : (xs ys : List A) (j : ℕ) → length ys ≤ j → drop j (copy xs ys) ≡ drop j xs
  drop-copy xs [] j h = refl
  drop-copy [] (y ∷ ys) j h = refl
  drop-copy (x ∷ xs) (y ∷ ys) zero h = absurd (omega arith)
  drop-copy (x ∷ xs) (y ∷ ys) (suc j) h = drop-copy xs ys j (omega arith)

  -- It changes nothing behind what it wrote,
  pub drop-copy_at :
      (xs : List A) (i : ℕ) (ys : List A) (j : ℕ)
      → i + length ys ≤ j
      → drop j (copy_at xs i ys) ≡ drop j xs
  drop-copy_at xs zero ys j h = drop-copy xs ys j (omega arith)
  drop-copy_at [] (suc i) ys j h = refl
  drop-copy_at (x ∷ xs) (suc i) ys zero h = absurd (omega arith)
  drop-copy_at (x ∷ xs) (suc i) ys (suc j) h = drop-copy_at xs i ys j (omega arith)

  take-copy_at :
      (xs : List A) (i : ℕ) (ys : List A) (n : ℕ) → n ≤ i → take n (copy_at xs i ys) ≡ take n xs
  take-copy_at xs i ys zero h = refl
  take-copy_at xs zero ys (suc n) h = absurd (omega arith)
  take-copy_at [] (suc i) ys (suc n) h = refl
  take-copy_at (x ∷ xs) (suc i) ys (suc n) h =
      ap (λ t. x ∷ t) (take-copy_at xs i ys n (omega arith))

  -- nor before it.
  pub slice-copy_at_before :
      (xs : List A) (i : ℕ) (ys : List A) (j n : ℕ)
      → j + n ≤ i
      → take n (drop j (copy_at xs i ys)) ≡ take n (drop j xs)
  slice-copy_at_before xs i ys zero n h = take-copy_at xs i ys n (omega arith)
  slice-copy_at_before xs zero ys (suc j) n h = absurd (omega arith)
  slice-copy_at_before [] (suc i) ys (suc j) n h = refl
  slice-copy_at_before (x ∷ xs) (suc i) ys (suc j) n h =
      slice-copy_at_before xs i ys j n (omega arith)

  pub length-slice : (xs : List A) (i n : ℕ) → i + n ≤ length xs → length (take n (drop i xs)) ≡ n
  length-slice xs i n h = omega (arith, length-take n (drop i xs), length-drop i xs)

-- `binary.LittleEndian.Uint16` and its like read all the bytes of their slice, `Put…` write `n`.
abbrev pub little_endian : List ℕ → ℕ
little_endian [] = 0
little_endian (b ∷ bs) = b + 256 * little_endian bs

abbrev pub put_little_endian : ℕ → ℕ → List ℕ
put_little_endian zero v = []
put_little_endian (suc n) v = v % 256 ∷ put_little_endian n (v / 256)

pub length-put_little_endian : (n v : ℕ) → length (put_little_endian n v) ≡ n
length-put_little_endian zero v = refl
length-put_little_endian (suc n) v = ap suc (length-put_little_endian n (v / 256))

pub little_endian-put : (n v : ℕ) → v < 256 ^ n → little_endian (put_little_endian n v) ≡ v
little_endian-put zero v h = omega arith
little_endian-put (suc n) v h =
    omega (arith, little_endian-put n (v / 256) (omega (arith, pow-suc 256 n)))
