-- ===== src/Lists/Integers/Signed.antt =====
-- list.go: signed elements written and read back.
use go_capnproto.Prelude.{
  ℕ, zero, suc, sym, ◌-◌, ◌*◌, ◌^◌, ◌≤◌, ◌<◌, ◌≡◌, ◌≢◌, refl, arith, ap, ◌∙◌, ok, pos, negsuc, ℤ,
  FitsSigned,
}
use native.Mathlib.Nat.{pow-suc, one-le-pow, mod-eq_of_lt, mod-lt}
use go_capnproto.Message.{return, Message, >>=-ok, ◌>>=◌}
use go_capnproto.Segment.{Segment}
use go_capnproto.Pointer.{ObjectList}
use go_capnproto.Lists.{uint_elem}
use go_capnproto.Lists.Elements.{Listed, set_uint_elem-uint_elem}
use go_capnproto.Lists.Integers.{int_elem, set_int_elem, to_signed, to_unsigned}

powers : (h : ℕ) → 1 ≤ h → 2 ^ h ≡ 2 * 2 ^ (h - 1)
powers zero one = absurd (omega arith)
powers (suc h) one = omega (arith, pow-suc 2 h, ap (λ k. 2 ^ k) (less h))
  where
    less : (h : ℕ) → h ≡ suc h - 1
    less h = omega arith

signed-unsigned : (h : ℕ) (z : ℤ) → 1 ≤ h → FitsSigned h z → to_signed h (to_unsigned h z) ≡ z
signed-unsigned h (pos n) one fits = ground (arith, powers h one, mod-eq_of_lt {n = n} {m = 2 ^ h})
signed-unsigned h (negsuc n) one fits =
    ground (arith, powers h one, mod-eq_of_lt {n = n} {m = 2 ^ h})

wraps : (w : ℕ) (z : ℤ) → to_unsigned w z < 2 ^ w
wraps w (pos n) = mod-lt n (one-le-pow w 2 (omega arith))
wraps w (negsuc n) = omega (arith, one-le-pow w 2 (omega arith))

bits : (n : ℕ) → 2 ^ (8 * n) ≡ 256 ^ n
bits zero = refl
bits (suc n) =
    ap (λ k. 2 ^ k) (eight n)
    ∙ omega (
      arith,
      bits n,
      pow-suc 256 n,
      pow-suc 2 (8 * n),
      pow-suc 2 (suc (8 * n)),
      pow-suc 2 (suc (suc (8 * n))),
      pow-suc 2 (suc (suc (suc (8 * n)))),
      pow-suc 2 (suc (suc (suc (suc (8 * n))))),
      pow-suc 2 (suc (suc (suc (suc (suc (8 * n)))))),
      pow-suc 2 (suc (suc (suc (suc (suc (suc (8 * n))))))),
      pow-suc 2 (suc (suc (suc (suc (suc (suc (suc (8 * n)))))))),
    )
  where
    eight : (n : ℕ) → 8 * suc n ≡ suc (suc (suc (suc (suc (suc (suc (suc (8 * n))))))))
    eight n = omega arith

unsigned-lt : (size : ℕ) (z : ℤ) → to_unsigned (8 * size) z < 256 ^ size
unsigned-lt size z = rw (sym (bits size)) (wraps (8 * size) z)

-- A signed value that fits the width of the list's elements is read back, and every other element
-- reads as before.
pub set_int_elem-int_elem :
    (m : Message) (p : ObjectList) (s : Segment) (count width i j : ℕ) (v : ℤ)
    → Listed m p s count width
    → i < count
    → j < count
    → i ≢ j
    → 1 ≤ width
    → FitsSigned (8 * width) v
    → (m' : Message) × (old : ℤ) × (set_int_elem width p (pos i) v m ≡ ok (tt, m'))
      × (int_elem width p (pos i) m' ≡ ok (v, m'))
      × (int_elem width p (pos j) m ≡ ok (old, m))
      × (int_elem width p (pos j) m' ≡ ok (old, m'))
unfolding set_int_elem int_elem
set_int_elem-int_elem m p s count width i j v h li lj ne one fits =
    let (m', old, wrote, back, before, kept) =
      set_uint_elem-uint_elem m p s count width i j (to_unsigned (8 * width) v) h li lj ne
        (unsigned-lt width v) in
    (
      m',
      to_signed (8 * width) old,
      wrote,
      signed_read width p (pos i) m' _ back
          ∙ ap (λ z. ok (z, m')) (signed-unsigned (8 * width) v (omega arith) fits),
      signed_read width p (pos j) m old before,
      signed_read width p (pos j) m' old kept,
    )
  where
    signed_read :
        (width : ℕ) (p : ObjectList) (i : ℤ) (m : Message) (u : ℕ)
        → uint_elem width p i m ≡ ok (u, m)
        → (uint_elem width p i >>= λ x. return (to_signed (8 * width) x)) m
          ≡ ok (to_signed (8 * width) u, m)
    signed_read width p i m u e =
        >>=-ok (uint_elem width p i) (λ x. return (to_signed (8 * width) x)) m m u e
