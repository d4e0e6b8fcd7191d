-- ===== src/Queue/Tests.antt =====
-- internal/queue/queue.go: a queue of calls round the end of its store.
use go_capnproto.Prelude.{ℕ, ◌≡◌, arith, List, [], ◌∷◌, some, ok, ltb, length, if◌then◌else◌}
use go_capnproto.Queue.{Queue, push, pop, peek}
use go_capnproto.Queue.Refine.{IsValid, contents, push_refines, pop_refines}
use go_capnproto.Queue.Calls.{Ecall, no_call, call_store, at_call}

abbrev nth : ℕ → Ecall
nth k = record { call = some k; f = some k }

-- The calls 8 and 9, in the last place and the first.
abbrev wrapped : Queue (List Ecall)
wrapped = record { q = nth 9 ∷ no_call ∷ nth 8 ∷ []; start = 2; n = 2 }

wrapped-IsValid : IsValid call_store wrapped
unfolding call_store
wrapped-IsValid = record { fits = omega arith; in_store = omega arith }

push_refines_example :
    let (done, q) = push call_store wrapped (some (nth 7)) in
    (done ≡ ltb 2 3)
    × (contents call_store q
        ≡ (if done then nth 8 ∷ nth 9 ∷ nth 7 ∷ [] else contents call_store wrapped))
    × (length q.q ≡ 3)
    × IsValid call_store q
unfolding call_store at_call
push_refines_example = push_refines call_store wrapped (nth 7) wrapped-IsValid

pop_refines_example :
    (q : Queue (List Ecall)) × (pop call_store wrapped ≡ ok (nth 8, q))
    × (peek call_store wrapped ≡ ok (nth 8))
    × (contents call_store q ≡ nth 9 ∷ [])
    × (length q.q ≡ 3)
    × IsValid call_store q
unfolding call_store at_call
pop_refines_example = pop_refines call_store wrapped wrapped-IsValid
