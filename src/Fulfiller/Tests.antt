-- ===== src/Fulfiller/Tests.antt =====
-- internal/fulfiller/fulfiller.go: a promise with three queued calls, and an embargo on two of them.
use go_capnproto.Prelude.{
  Bool, ◌==◌, ◌<◌, ◌>>=◌, ap, ℕ, zero, suc, ◌≡◌, refl, arith, Option, none, some, List, [], ◌∷◌,
  ◌++◌, ok, panic, called_twice, nil_pointer, true, false, inr, ◌+◌,
}
use go_capnproto.Fulfiller.{
  promised, Fulfiller, error_answer, Pcall, Target, no_interface, capability, failed, Client, plain,
  fulfill, reject, pipeline_call, queue_call, peek, passed, unresolved, empty_queue,
}
use go_capnproto.Queue.{Queue}
use go_capnproto.Queue.Calls.{Ecall, no_call, call_store, at_call}
use go_capnproto.Fulfiller.Groups.{calls_of, calls_on, rejections, empty_queue-splits}
use go_capnproto.Fulfiller.Resolve.{Fulfilled, fulfill-Fulfilled, TargetsIn}
use go_capnproto.Fulfiller.Once.{Steps, start, next, called, Sound, steps-Sound, steps-answered}
use go_capnproto.Fulfiller.Embargo.{
  EmbargoClient, calling, idle, Run, here, then_, flushes, start_embargo, flush_step, flush_queue,
  close_calls, flush_at, loop_test,
}
use go_capnproto.Fulfiller.Embargo.Held.{Holds, peek_call_lem}
use go_capnproto.Fulfiller.Embargo.Order.{InOrder, numbers}
use go_capnproto.Fulfiller.Embargo.Accepts.{run-InOrder}
use go_capnproto.Fulfiller.Embargo.Drain.{Drained, flush_queue-Drained, close_calls_lem, canceled}

-- The transform is the number of a pointer field: 0 and 1 hold capabilities, 2 is no interface.
abbrev field : ℕ → ℕ → Target
field s zero = capability 1
field s (suc zero) = capability 0
field s (suc (suc t)) = no_interface

abbrev call_nth : ℕ → ℕ → Pcall ℕ
call_nth t k = record { transform = t; ecall = record { call = some k; f = some (k + 10) } }

abbrev three_calls : Fulfiller ℕ ℕ
three_calls = record {
  resolved = false;
  answer = none;
  queue = call_nth 0 5 ∷ call_nth 2 6 ∷ call_nth 0 7 ∷ [];
}

abbrev two_clients : List (Client ℕ)
two_clients = plain 3 ∷ plain 4 ∷ []

three_calls-TargetsIn : TargetsIn field 9 2 three_calls.queue
unfolding TargetsIn
three_calls-TargetsIn =
    ((λ cn e. first cn e), ((λ cn e. absurd (neither cn e)), ((λ cn e. first cn e), tt)))
  where
    first : (cn : ℕ) → capability 1 ≡ capability cn → cn < 2
    first cn e = let same : 1 ≡ cn = cc in omega (arith, same)

    neither : (cn : ℕ) → no_interface ≡ capability cn → ⊥
    neither cn e = cc

empty_queue-splits_example :
    ((empty_queue field 9 three_calls).0.queue ≡ [])
    × (calls_of 1 (empty_queue field 9 three_calls).1.0 ≡ calls_on field 9 1 three_calls.queue)
    × ((empty_queue field 9 three_calls).1.1 ≡ rejections field 9 three_calls.queue)
empty_queue-splits_example = empty_queue-splits field 9 three_calls 1

fulfill-Fulfilled_example :
    Fulfilled field 9 three_calls two_clients (fulfill field three_calls 9 (some two_clients))
    × (fulfill {C = ℕ} field three_calls 9 none ≡ panic nil_pointer)
fulfill-Fulfilled_example =
    fulfill-Fulfilled field 9 three_calls two_clients refl three_calls-TargetsIn

abbrev one_call : Fulfiller ℕ ℕ
one_call = record { resolved = false; answer = none; queue = call_nth 0 5 ∷ [] }

one_queued : pipeline_call unresolved 0 (inr 5) 15 ≡ (one_call, promised 15)
unfolding pipeline_call queue_call
one_queued = refl

called_once : Steps ℕ field 0 unresolved (pipeline_call unresolved 0 (inr 5) 15).0
called_once = next unresolved (pipeline_call unresolved 0 (inr 5) 15).0 start (called 0 (inr 5) 15)

steps-Sound_example : Sound {Tr = ℕ} (pipeline_call (unresolved {St = ℕ}) 0 (inr 5) 15).0
steps-Sound_example = steps-Sound ℕ field 0 (pipeline_call unresolved 0 (inr 5) 15).0 called_once

abbrev failed_promise : Fulfiller ℕ ℕ
failed_promise = record { resolved = true; answer = some (error_answer (failed 4)); queue = [] }

failed_peek : peek failed_promise ≡ some (error_answer (failed 4))
unfolding peek
failed_peek = refl

steps-answered_example :
    (peek failed_promise ≡ some (error_answer (failed 4)))
    × (fulfill field failed_promise 9 (some two_clients) ≡ panic called_twice)
    × (reject 0 failed_promise (some (failed 8)) ≡ panic called_twice)
    × (pipeline_call failed_promise 0 (inr 6) 16
        ≡ (failed_promise, passed (error_answer (failed 4))))
steps-answered_example =
    steps-answered ℕ field 0 failed_promise failed_promise (error_answer (failed 4)) 9
      (some two_clients) (failed 8) 0 (inr 6) 16 failed_peek start

-- Two calls in a queue with room for three; the goroutine sends the first, and a third call waits.
abbrev call_at : ℕ → Ecall
call_at k = record { call = some k; f = some (k + 10) }

abbrev two_waiting : Queue (List Ecall)
two_waiting = record { q = call_at 5 ∷ call_at 6 ∷ no_call ∷ []; start = 0; n = 2 }

abbrev waiting_calls : List (ℕ × Option ℕ)
waiting_calls = (5, some 15) ∷ (6, some 16) ∷ []

two_waiting-Holds : Holds two_waiting waiting_calls
unfolding call_store at_call
two_waiting-Holds = record {
  valid = record { fits = omega arith; in_store = omega arith };
  held = refl;
}

abbrev sending : EmbargoClient
sending = record { q = two_waiting; flusher = calling 5 (some 15); caller = idle; sent = [] }

sending-Run : Run (start_embargo two_waiting) [] sending
unfolding start_embargo flush_step flush_at loop_test
sending-Run = then_ [] [] (start_embargo two_waiting) sending here (
    flushes sending (
      ap
        (λ r. r >>= λ c.
          ok (record { q = two_waiting; flusher = loop_test c; caller = idle; sent = [] }))
        (peek_call_lem two_waiting waiting_calls two_waiting-Holds)))

run-InOrder_example : InOrder (numbers waiting_calls ++ []) sending
run-InOrder_example = run-InOrder two_waiting waiting_calls [] sending two_waiting-Holds sending-Run

flush_queue-Drained_example : Drained (numbers waiting_calls ++ []) (flush_queue 5 sending)
flush_queue-Drained_example =
    flush_queue-Drained two_waiting waiting_calls [] sending 5 two_waiting-Holds sending-Run refl
      (omega arith)

-- The first call's fulfiller is resolved, if that is the number.
abbrev is_resolved : ℕ → ℕ → Bool
is_resolved k f = k == f

close_calls_example :
    (q' : Queue (List Ecall)) × (q'.n ≡ 0)
    × (close_calls (is_resolved 17) 2 two_waiting ≡ ok (q', canceled 15 ∷ canceled 16 ∷ []))
close_calls_example =
    close_calls_lem (is_resolved 17) 2 two_waiting ((5, 15) ∷ (6, 16) ∷ []) two_waiting-Holds
      (omega arith)

-- The call that was sent was answered before it was popped.
close_panics : close_calls (is_resolved 15) 2 two_waiting ≡ panic called_twice
close_panics =
    let (_, _, e) =
      close_calls_lem (is_resolved 15) 2 two_waiting ((5, 15) ∷ (6, 16) ∷ []) two_waiting-Holds
        (omega arith) in
    e
