-- ===== src/Fulfiller/Embargo.antt =====
-- internal/fulfiller/fulfiller.go: an embargoClient, which one caller uses while `flushQueue` runs in
-- its own goroutine. A step is what a goroutine does with the lock held, or a call of the client.
pub mod Held
pub mod Order
pub mod Accepts
pub mod Drain
use go_capnproto.Prelude.{
  ℕ, zero, suc, Bool, true, false, Option, none, some, List, [], ◌∷◌, ◌++◌, ◌==◌, if◌then◌else◌,
  Result, ok, panic, nil_pointer, called_twice, ◌>>=◌, ◌⊎◌, inl, inr, ◌≡◌,
}
use go_capnproto.Queue.{Queue, push, peek, pop}
use go_capnproto.Queue.Calls.{Ecall, no_call, call_store}
use go_capnproto.Fulfiller.{CallError, call_queue_full, queue_call_cancel, Rejection}

-- Where the goroutine of `flushQueue` is: before its first peek, before a call of the client,
-- behind it, or at its end.
pub data Flusher : Type 0 where
  starting popping flushed : Flusher
  calling : ℕ → Option ℕ → Flusher

-- Where the caller is in `Call`: outside of it, between its two tests, or before the call that it
-- passes to the client.
pub data Caller : Type 0 where
  idle : Caller
  retrying passing : ℕ → Caller

-- `sent` has the calls that the client below was given, in order.
pub record EmbargoClient : Type 0 where
  pub q : Queue (List Ecall)
  pub flusher : Flusher
  pub caller : Caller
  pub sent : List ℕ

unfoldable pub peek_call : Queue (List Ecall) → Result Ecall
peek_call q = if q.n == 0 then ok no_call else peek call_store q

unfoldable pub pop_call : Queue (List Ecall) → Result (Ecall × Queue (List Ecall))
pop_call q = if q.n == 0 then ok (no_call, q) else pop call_store q

-- The test of the loop, on the call that was peeked.
unfoldable pub loop_test : Ecall → Flusher
loop_test c = elim c.call [ none ↦ flushed | some n ↦ calling n c.f ]

unfoldable pub flush_at : Flusher → EmbargoClient → Result EmbargoClient
flush_at starting ec = peek_call ec.q >>= λ c. ok (record ec { flusher = loop_test c })
flush_at (calling n f) ec = ok (record ec { sent = ec.sent ++ (n ∷ []); flusher = popping })
flush_at popping ec =
    pop_call ec.q >>= λ r. peek_call r.1 >>= λ c. ok (record ec { q = r.1; flusher = loop_test c })
flush_at flushed ec = ok ec

unfoldable pub flush_step : EmbargoClient → Result EmbargoClient
unfolding flush_at
flush_step ec = flush_at ec.flusher ec

-- `flushQueue` by itself, by the steps allowed; no step is taken at its end.
unfoldable pub flush_queue : ℕ → EmbargoClient → Result EmbargoClient
flush_queue zero ec = ok ec
flush_queue (suc n) ec = flush_step ec >>= λ ec'. flush_queue n ec'

unfoldable pub is_passthrough : EmbargoClient → Bool
is_passthrough ec = ec.q.n == 0

-- `push`: a copy of the call, or an error, and the number of the new Fulfiller.
unfoldable pub push_call : EmbargoClient → (CallError ⊎ ℕ) → ℕ → EmbargoClient × (CallError ⊎ ℕ)
push_call ec (inl e) g = (ec, inl e)
push_call ec (inr c) g =
    let (done, q) = push call_store ec.q (some (record { call = some c; f = some g })) in
    if done then (record ec { q = q }, inr g) else (ec, inl call_queue_full)

-- `Call`: the fast path's test, the test with the lock held, and the call that is passed on.
unfoldable pub call_fast : EmbargoClient → ℕ → EmbargoClient
unfolding is_passthrough
call_fast ec cl = record ec { caller = if is_passthrough ec then passing cl else retrying cl }

unfoldable pub call_slow : EmbargoClient → ℕ → (CallError ⊎ ℕ) → ℕ → EmbargoClient
unfolding is_passthrough push_call
call_slow ec cl copied g =
    if is_passthrough ec
    then record ec { caller = passing cl }
    else record (push_call ec copied g).0 { caller = idle }

unfoldable pub call_client : EmbargoClient → ℕ → EmbargoClient
call_client ec cl = record ec { sent = ec.sent ++ (cl ∷ []); caller = idle }

-- `c.f.Reject(errQueueCallCancel)`. A call that was sent stays in the queue until it is popped, so
-- its fulfiller may be resolved by then: `resolved` says which ones are, when they are rejected.
unfoldable pub reject_queued : (ℕ → Bool) → Option ℕ → Result Rejection
reject_queued resolved none = panic nil_pointer
reject_queued resolved (some f) =
    if resolved f then panic called_twice else ok (record { f = some f; error = queue_call_cancel })

-- The loop of `Close`, by the calls that it rejects.
unfoldable pub close_calls :
    (ℕ → Bool) → ℕ → Queue (List Ecall) → Result (Queue (List Ecall) × List Rejection)
unfolding pop_call reject_queued
close_calls resolved zero q = ok (q, [])
close_calls resolved (suc n) q =
    let rest = λ (r : Ecall × Queue (List Ecall)).
      reject_queued resolved r.0.f >>= λ c. close_calls resolved n r.1 >>= λ s. ok (s.0, c ∷ s.1) in
    if q.n == 0 then ok (q, []) else pop_call q >>= rest

-- One step, with the calls that it accepts: a call is accepted when it is put into the queue or is
-- to be passed on.
pub data Step (ec : EmbargoClient) : List ℕ → EmbargoClient → Type 0 where
  flushes : (ec' : EmbargoClient) → flush_step ec ≡ ok ec' → Step ec [] ec'
  call_passes :
      (cl : ℕ) → ec.caller ≡ idle → is_passthrough ec ≡ true → Step ec (cl ∷ []) (call_fast ec cl)
  call_waits :
      (cl : ℕ) → ec.caller ≡ idle → is_passthrough ec ≡ false → Step ec [] (call_fast ec cl)
  retry_passes :
      (cl : ℕ) (copied : CallError ⊎ ℕ) (g : ℕ)
      → ec.caller ≡ retrying cl
      → is_passthrough ec ≡ true
      → Step ec (cl ∷ []) (call_slow ec cl copied g)
  retry_pushes :
      (cl c g : ℕ) (ec' : EmbargoClient)
      → ec.caller ≡ retrying cl
      → is_passthrough ec ≡ false
      → push_call ec (inr c) g ≡ (ec', inr g)
      → Step ec (c ∷ []) (call_slow ec cl (inr c) g)
  retry_fails :
      (cl : ℕ) (copied : CallError ⊎ ℕ) (g : ℕ) (e : CallError) (ec' : EmbargoClient)
      → ec.caller ≡ retrying cl
      → is_passthrough ec ≡ false
      → push_call ec copied g ≡ (ec', inl e)
      → Step ec [] (call_slow ec cl copied g)
  passes : (cl : ℕ) → ec.caller ≡ passing cl → Step ec [] (call_client ec cl)

pub data Run (ec : EmbargoClient) : List ℕ → EmbargoClient → Type 0 where
  here : Run ec [] ec
  then_ :
      (cs ds : List ℕ) (ec' ec'' : EmbargoClient)
      → Run ec cs ec'
      → Step ec' ds ec''
      → Run ec (cs ++ ds) ec''

-- `newEmbargoClient`, on a queue with the calls that wait.
unfoldable pub start_embargo : Queue (List Ecall) → EmbargoClient
start_embargo q = record { q = q; flusher = starting; caller = idle; sent = [] }
