-- ===== src/Queue.antt =====
-- internal/queue/queue.go: a FIFO queue over a store of elements that its user implements.
pub mod Refine
pub mod Calls
mod Tests
use go_capnproto.Prelude.{
  ℕ, ◌+◌, ◌-◌, ◌%◌, ◌<◌, ◌≡◌, ◌≢◌, Bool, true, false, Option, none, some, leb, ◌==◌,
}
use go_capnproto.Prelude.{if◌then◌else◌, Result, ok, panic, empty_queue}

-- `Interface`: a store `S` of elements `X`, with what a queue relies on. `set` with `none` is the
-- `Set(i, nil)` that clears an element.
pub record Store (S X : Type 0) : Type 0 where
  pub len : S → ℕ
  pub at : S → ℕ → X
  pub set : S → ℕ → Option X → S
  pub len-set : (s : S) (i : ℕ) (o : Option X) → len (set s i o) ≡ len s
  pub at-set_self : (s : S) (i : ℕ) (x : X) → i < len s → at (set s i (some x)) i ≡ x
  pub at-set_ne : (s : S) (i j : ℕ) (o : Option X) → i ≢ j → at (set s i o) j ≡ at s j

pub record Queue (S : Type 0) : Type 0 where
  pub q : S
  pub start : ℕ
  pub n : ℕ

-- `New` and `Init`: the queue starts with the first `n` elements of the store.
pub init : {S : Type 0} → S → ℕ → Queue S
init r n = record { q = r; start = 0; n = n }

pub len : {S : Type 0} → Queue S → ℕ
len q = q.n

module _ {S X : Type 0} (store : Store S X) where
  pub push : Queue S → Option X → Bool × Queue S
  push q x =
      let n = store.len q.q in
      if leb n q.n
      then (false, q)
      else (true, record q { q = store.set q.q ((q.start + q.n) % n) x; n = q.n + 1 })

  pub peek : Queue S → Result X
  peek q = if q.n == 0 then panic empty_queue else ok (store.at q.q q.start)

  -- `Pop` peeks first, so it panics where `Peek` does.
  pub pop : Queue S → Result (X × Queue S)
  pop q =
      if q.n == 0
      then panic empty_queue
      else ok (
        store.at q.q q.start,
        record {
          q = store.set q.q q.start none;
          start = (q.start + 1) % store.len q.q;
          n = q.n - 1;
        },
      )
