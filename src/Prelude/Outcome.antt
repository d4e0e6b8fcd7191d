-- ===== src/Prelude/Outcome.antt =====
-- Go's two ways to fail: an error value that a function returns, and a panic.
use mathlib.Core.Path.{◌≡◌, refl}
use mathlib.Core.Bool.{Bool, true, false}

-- The error variables of capn.go and mem.go, and the panics with a text or of the Go runtime.
pub data Error : Type 0 where
  overlarge out_of_bounds copy_depth overlap list_size object_type : Error
  pointer_address bad_landing_pad bad_tag other_pointer object_size : Error
  segment_out_of_bounds segment_32bit message_empty has_data segment_too_small : Error
  bit_list_struct eof unexpected_eof : Error
  data_not_aligned element_size packed_length slice_bounds nil_pointer empty_queue : Error
  called_twice nil_error closed_channel : Error

-- `ok` is a return with a nil error, `err` one with an error, and `panic` no return.
pub data Result {ℓ} (A : Type ℓ) : Type ℓ where
  panic : Error → Result A
  err : Error → Result A
  ok : A → Result A

-- `if !b { panic(e) }` and `if !b { return e }`
abbrev pub must : Bool → Error → Result (Unit {0})
must false e = panic e
must true e = ok tt

abbrev pub check : Bool → Error → Result (Unit {0})
check false e = err e
check true e = ok tt

-- The statements after a call run only when it returns without an error.
infixl 5 ◌>>=◌
abbrev pub ◌>>=◌ {ℓ κ} : {A : Type ℓ} {B : Type κ} → Result A → (A → Result B) → Result B
panic e >>= rest = panic e
err e >>= rest = err e
ok a >>= rest = rest a

infixl 5 ◌>>◌
abbrev pub ◌>>◌ {ℓ} : {B : Type ℓ} → Result (Unit {0}) → Result B → Result B
first >> rest = first >>= λ done. rest

-- A chain that returned: its first step returned, and so did the rest.
pub returned {ℓ κ} :
    {A : Type ℓ} {B : Type κ} (first : Result A) {rest : A → Result B} {b : B}
    → (first >>= rest) ≡ ok b
    → (a : A) × (first ≡ ok a) × (rest a ≡ ok b)
returned (ok a) e = (a, refl, e)
returned (err x) e = cc
returned (panic x) e = cc

pub ok-injective : {A : Type 0} {a b : A} → ok a ≡ ok b → a ≡ b
ok-injective e = cc
