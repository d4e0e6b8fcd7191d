-- ===== src/Server/Dispatch.antt =====
-- server/server.go: the queue of a server and its dispatch goroutine. Calls are known by numbers.
pub mod Order
pub mod Steps
use go_capnproto.Prelude.{
  ℕ, ◌≡◌, Bool, true, false, Option, none, some, List, [], ◌∷◌, ◌++◌, length, ltb, if◌then◌else◌,
  Result, ok, panic, closed_channel,
}

abbrev pub queue_size : ℕ
queue_size = 64

-- What happened to the calls, in order: an implementation was started, the wait behind it ended (by
-- Ack, by its return or by the end of its context), or the call was rejected.
pub data Event : Type 0 where
  started released rejected : ℕ → Event

-- Where the goroutine of `dispatch` is: at its select, in `startCall` before or behind the start of
-- the implementation, in the loop behind Close, or at its end.
pub data Dispatcher : Type 0 where
  selecting flushing finished : Dispatcher
  starting waiting : ℕ → Dispatcher

pub record Server : Type 0 where
  pub queue : List ℕ
  pub closed : Bool
  pub dispatcher : Dispatcher
  pub events : List Event

-- `New`
unfoldable pub new_server : Server
new_server = record { queue = []; closed = false; dispatcher = selecting; events = [] }

-- The send of `Call`: it blocks while the queue is full, and panics on a closed channel.
unfoldable pub send_call : Server → ℕ → Result (Option Server)
send_call s cl =
    if s.closed
    then panic closed_channel
    else if ltb (length s.queue) queue_size
    then ok (some (record s { queue = s.queue ++ (cl ∷ []) }))
    else ok none

-- `Close`, up to the call of the closer: a second one closes a closed channel.
unfoldable pub close_server : Server → Result Server
close_server s = if s.closed then panic closed_channel else ok (record s { closed = true })

-- A receive from the queue: a call, the end of a closed queue, or none while it blocks.
abbrev receive : Server → (ℕ → Dispatcher) → (ℕ → List Event) → Option Server
receive s next event = elim s.queue [
  | [] ↦ if s.closed then some (record s { dispatcher = finished }) else none
  | cl ∷ rest ↦
      some (record s { queue = rest; dispatcher = next cl; events = s.events ++ event cl })
]

-- `select` takes either case that is ready: `stopped` says that it took the stop.
unfoldable pub select_step : Bool → Server → Option Server
select_step true s = if s.closed then some (record s { dispatcher = flushing }) else none
select_step false s = receive s starting (λ cl. [])

-- `startCall` fails or starts the implementation.
unfoldable pub start_call : Bool → ℕ → Server → Server
start_call true cl s = record s { dispatcher = waiting cl; events = s.events ++ (started cl ∷ []) }
start_call false cl s = record s { dispatcher = selecting; events = s.events ++ (rejected cl ∷ []) }

-- The select at the end of `startCall`.
unfoldable pub release_call : ℕ → Server → Server
release_call cl s = record s { dispatcher = selecting; events = s.events ++ (released cl ∷ []) }

-- The loop behind Close.
unfoldable pub reject_step : Server → Option Server
reject_step s = receive s (λ cl. flushing) (λ cl. rejected cl ∷ [])

-- A step of a caller or of the goroutine, with the calls that it accepts.
pub data Step (s : Server) : List ℕ → Server → Type 0 where
  calls : (cl : ℕ) (s' : Server) → send_call s cl ≡ ok (some s') → Step s (cl ∷ []) s'
  closes : (s' : Server) → close_server s ≡ ok s' → Step s [] s'
  selects :
      (stopped : Bool) (s' : Server)
      → s.dispatcher ≡ selecting
      → select_step stopped s ≡ some s'
      → Step s [] s'
  starts : (done : Bool) (cl : ℕ) → s.dispatcher ≡ starting cl → Step s [] (start_call done cl s)
  releases : (cl : ℕ) → s.dispatcher ≡ waiting cl → Step s [] (release_call cl s)
  flushes : (s' : Server) → s.dispatcher ≡ flushing → reject_step s ≡ some s' → Step s [] s'

pub data Run (s : Server) : List ℕ → Server → Type 0 where
  here : Run s [] s
  then_ : (cs ds : List ℕ) (s' s'' : Server) → Run s cs s' → Step s' ds s'' → Run s (cs ++ ds) s''
