-- ===== src/Server/Dispatch/Order.antt =====
-- server/server.go: the dispatch goroutine takes the calls in order, one at a time.
use go_capnproto.Prelude.{
  inr, inl, Bool-cases, ℕ, ◌≤◌, ◌≡◌, refl, ap, Bool, true, Option, none, some, List, [], ◌∷◌, ◌++◌,
  length, ◌==◌, if◌then◌else◌,
}
use go_capnproto.Server.Dispatch.{
  Event, started, released, rejected, Dispatcher, selecting, flushing, finished, starting, waiting,
  Server,
}

-- The calls that were started or rejected, in order.
unfoldable pub handled : List Event → List ℕ
handled [] = []
handled (started cl ∷ events) = cl ∷ handled events
handled (released cl ∷ events) = handled events
handled (rejected cl ∷ events) = cl ∷ handled events

-- Read from a point where `pending` waits: a call is started or rejected only when no other one waits,
-- and the one that is released is the one that waits. It gives what waits at the end.
unfoldable pub serial : Option ℕ → List Event → Option (Option ℕ)
serial pending [] = some pending
serial none (started cl ∷ events) = serial (some cl) events
serial none (released cl ∷ events) = none
serial none (rejected cl ∷ events) = serial none events
serial (some d) (started cl ∷ events) = none
serial (some d) (released cl ∷ events) =
    let rest = serial none events in if d == cl then rest else none
serial (some d) (rejected cl ∷ events) = none

unfoldable pub in_hand : Dispatcher → List ℕ
in_hand selecting = []
in_hand flushing = []
in_hand finished = []
in_hand (starting cl) = cl ∷ []
in_hand (waiting cl) = []

unfoldable pub awaited : Dispatcher → Option ℕ
awaited selecting = none
awaited flushing = none
awaited finished = none
awaited (starting cl) = none
awaited (waiting cl) = some cl

-- At its end the goroutine leaves nothing in the queue, which takes no calls any more.
unfoldable pub Ending : Dispatcher → List ℕ → Bool → Type 0
Ending selecting queue closed = Unit {0}
Ending flushing queue closed = closed ≡ true
Ending finished queue closed = (queue ≡ []) × (closed ≡ true)
Ending (starting cl) queue closed = Unit {0}
Ending (waiting cl) queue closed = Unit {0}

pub record InOrder (accepted : List ℕ) (s : Server) : Type 0 where
  pub order : handled s.events ++ (in_hand s.dispatcher ++ s.queue) ≡ accepted
  pub one_at_a_time : serial none s.events ≡ some (awaited s.dispatcher)
  pub fits : length s.queue ≤ 64
  pub ending : Ending s.dispatcher s.queue s.closed

pub handled-append :
    (events : List Event) (e : Event)
    → handled (events ++ (e ∷ [])) ≡ handled events ++ handled (e ∷ [])
unfolding handled
handled-append [] e = refl
handled-append (started cl ∷ events) e = ap (λ l. cl ∷ l) (handled-append events e)
handled-append (released cl ∷ events) e = handled-append events e
handled-append (rejected cl ∷ events) e = ap (λ l. cl ∷ l) (handled-append events e)

unfoldable pub after_serial : Option (Option ℕ) → Event → Option (Option ℕ)
after_serial none e = none
after_serial (some o) e = serial o (e ∷ [])

pub serial-append :
    (o : Option ℕ) (events : List Event) (e : Event)
    → serial o (events ++ (e ∷ [])) ≡ after_serial (serial o events) e
unfolding serial after_serial
serial-append o [] e = refl
serial-append none (started cl ∷ events) e = serial-append (some cl) events e
serial-append none (released cl ∷ events) e = refl
serial-append none (rejected cl ∷ events) e = serial-append none events e
serial-append (some d) (started cl ∷ events) e = refl
serial-append (some d) (released cl ∷ events) e = elim (Bool-cases (d == cl)) [
  | inl same ↦ rw same (serial-append none events e)
  | inr other ↦ rw other refl
]
serial-append (some d) (rejected cl ∷ events) e = refl
