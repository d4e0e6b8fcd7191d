-- ===== src/Queue/Calls.antt =====
-- internal/fulfiller/fulfiller.go: `ecallList`, the store of the queue of embargoed calls. A call
-- and its fulfiller are known by numbers, and the zero `ecall` has neither.
use go_capnproto.Prelude.{
  ℕ, zero, suc, ◌<◌, ◌≡◌, ◌≢◌, refl, arith, ap, List, [], ◌∷◌, Option, none, some,
}
use go_capnproto.Prelude.{length, get_or, set, length-set}
use go_capnproto.Queue.{Store}

pub record Ecall : Type 0 where
  pub call : Option ℕ
  pub f : Option ℕ

abbrev pub no_call : Ecall
no_call = record { call = none; f = none }

-- `x.(ecall)`, or the zero value for nil.
abbrev pub or_cleared : Option Ecall → Ecall
or_cleared none = no_call
or_cleared (some c) = c

-- Go panics on an index out of range; the queue's indices are in range.
unfoldable pub at_call : List Ecall → ℕ → Ecall
at_call el i = get_or el i no_call

unfoldable pub set_call : List Ecall → ℕ → Option Ecall → List Ecall
set_call el i x = set el i (or_cleared x)

pub at-set_self :
    (el : List Ecall) (i : ℕ) (c : Ecall) → i < length el → at_call (set_call el i (some c)) i ≡ c
unfolding at_call set_call
at-set_self [] i c h = absurd (omega arith)
at-set_self (d ∷ el) zero c h = refl
at-set_self (d ∷ el) (suc i) c h = at-set_self el i c (omega arith)

pub at-set_ne :
    (el : List Ecall) (i j : ℕ) (o : Option Ecall)
    → i ≢ j
    → at_call (set_call el i o) j ≡ at_call el j
unfolding at_call set_call
at-set_ne [] i j o ne = refl
at-set_ne (d ∷ el) zero zero o ne = absurd (ne refl)
at-set_ne (d ∷ el) zero (suc j) o ne = refl
at-set_ne (d ∷ el) (suc i) zero o ne = refl
at-set_ne (d ∷ el) (suc i) (suc j) o ne = at-set_ne el i j o (λ e. ne (ap suc e))

pub length-set_call :
    (el : List Ecall) (i : ℕ) (o : Option Ecall) → length (set_call el i o) ≡ length el
unfolding set_call
length-set_call el i o = length-set el i (or_cleared o)

-- The list keeps what the queue relies on.
unfoldable pub call_store : Store (List Ecall) Ecall
call_store = record {
  len = length;
  at = at_call;
  set = set_call;
  len-set = length-set_call;
  at-set_self = at-set_self;
  at-set_ne = at-set_ne;
}
