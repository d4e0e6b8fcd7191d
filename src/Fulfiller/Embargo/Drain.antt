-- ===== src/Fulfiller/Embargo/Drain.antt =====
-- internal/fulfiller/fulfiller.go: `flushQueue` ends, and passes on all the calls that waited.
use go_capnproto.Fulfiller.Embargo.Held.{
  count_suc, count_zero, entry, pop_call_lem, count_held, Holds,
}
use go_capnproto.Fulfiller.Embargo.{
  pop_call, Rejection, ◌∷◌, queue_call_cancel, close_calls, reject_queued, EmbargoClient, Flusher,
  starting, popping, flushed, calling, idle, flush_queue, Run, start_embargo,
}
use go_capnproto.Prelude.{
  Bool, true, false, some, panic, called_twice, Bool-cases, inl, inr, if◌then◌else◌, map, ℕ, zero,
  suc, ◌≡◌, refl, sym, arith, ap, ◌∙◌, Option, List, [], ◌++◌, length, append-nil, Result, ok,
  ◌>>=◌, ◌≤◌, ◌+◌, ◌*◌,
}
use go_capnproto.Queue.{Queue}
use go_capnproto.Queue.Calls.{Ecall}
use go_capnproto.Fulfiller.Embargo.Order.{
  numbers, unsent, in_hand, At, InOrder, flush_step-Flushed, steps_left,
}
use go_capnproto.Fulfiller.Embargo.Accepts.{run-InOrder}

-- The end: nothing waits, and all that was accepted is sent.
pub record Drained (acc : List ℕ) (r : Result EmbargoClient) : Type 0 where
  pub after : EmbargoClient
  pub returns : r ≡ ok after
  pub ended : after.flusher ≡ flushed
  pub all_sent : after.sent ≡ acc

no_steps :
    (fl : Flusher) (calls : List (ℕ × Option ℕ))
    → At fl calls
    → steps_left fl (length calls) ≤ 0
    → (fl ≡ flushed) × (calls ≡ [])
unfolding At steps_left
no_steps starting calls a h = absurd (omega arith)
no_steps popping calls a h = absurd (omega arith)
no_steps flushed calls a h = (refl, a)
no_steps (calling n f) calls (rest, e) h = absurd (omega (arith, ap length e))

at_end :
    (acc : List ℕ) (ec : EmbargoClient) (i : InOrder acc ec)
    → ec.caller ≡ idle
    → steps_left ec.flusher (length i.calls) ≤ 0
    → (ec.flusher ≡ flushed) × (ec.sent ≡ acc)
unfolding unsent in_hand numbers
at_end acc ec i e h =
    let (f, n) = no_steps ec.flusher i.calls i.at h in
    (
      f,
      sym (append-nil ec.sent)
          ∙ ap (λ c. ec.sent ++ ([] ++ in_hand c)) (sym e)
          ∙ ap (λ l. ec.sent ++ (numbers l ++ in_hand ec.caller)) (sym n)
          ∙ ap (λ g. ec.sent ++ (numbers (unsent g i.calls) ++ in_hand ec.caller)) (sym f)
          ∙ i.order,
    )

drain_lem :
    (n : ℕ) (acc : List ℕ) (ec : EmbargoClient) (i : InOrder acc ec)
    → ec.caller ≡ idle
    → steps_left ec.flusher (length i.calls) ≤ n
    → Drained acc (flush_queue n ec)
unfolding flush_queue
drain_lem zero acc ec i e h =
    let (f, s) = at_end acc ec i e h in
    record { after = ec; returns = refl; ended = f; all_sent = s }
drain_lem (suc n) acc ec i e h =
    let f = flush_step-Flushed acc ec i in
    let d = drain_lem n acc f.after f.in_order (f.same_caller ∙ e) (omega (arith, f.fewer)) in
    record {
      after = d.after;
      returns = ap (λ r. r >>= λ ec'. flush_queue n ec') f.returns ∙ d.returns;
      ended = d.ended;
      all_sent = d.all_sent;
    }

steps-bound : (fl : Flusher) (k : ℕ) → steps_left fl k ≤ 2 * k + 1
unfolding steps_left
steps-bound starting k = omega arith
steps-bound popping k = omega arith
steps-bound flushed k = omega arith
steps-bound (calling m f) k = omega arith

-- From any point that the goroutine and the caller reach, with the caller outside of `Call` and no
-- further calls, `flushQueue` ends within two steps for each call in the queue and one more. Then
-- the client was given all the calls that waited at the start and that were accepted, in order.
pub flush_queue-Drained :
    (q : Queue (List Ecall)) (calls : List (ℕ × Option ℕ)) (cs : List ℕ) (ec : EmbargoClient)
    (n : ℕ)
    → Holds q calls
    → Run (start_embargo q) cs ec
    → ec.caller ≡ idle
    → 2 * ec.q.n + 1 ≤ n
    → Drained (numbers calls ++ cs) (flush_queue n ec)
flush_queue-Drained q calls cs ec n h r e enough =
    let i = run-InOrder q calls cs ec h r in
    drain_lem n (numbers calls ++ cs) ec i e
      (omega (arith, steps-bound ec.flusher (length i.calls), count_held ec.q i.calls i.holds))

abbrev pub canceled : ℕ → Rejection
canceled f = record { f = some f; error = queue_call_cancel }

abbrev pub with_fulfiller : ℕ × ℕ → ℕ × Option ℕ
with_fulfiller (call, f) = (call, some f)

abbrev pub any_resolved : (ℕ → Bool) → List (ℕ × ℕ) → Bool
any_resolved resolved [] = false
any_resolved resolved ((call, f) ∷ calls) =
    let rest = any_resolved resolved calls in if resolved f then true else rest

module _ (resolved : ℕ → Bool) where
  abbrev close_next : ℕ → Ecall × Queue (List Ecall) → Result (Queue (List Ecall) × List Rejection)
  close_next n r =
      reject_queued resolved r.0.f >>= λ c. close_calls resolved n r.1 >>= λ s. ok (s.0, c ∷ s.1)

  close_empty :
      (n : ℕ) (q : Queue (List Ecall)) → q.n ≡ 0 → close_calls resolved (suc n) q ≡ ok (q, [])
  unfolding close_calls
  close_empty n q e =
      ap (λ b. if b then ok (q, []) else pop_call q >>= close_next n) (count_zero q.n e)

  close_more :
      (n k : ℕ) (q r : Queue (List Ecall)) (c : Ecall)
      → q.n ≡ suc k
      → pop_call q ≡ ok (c, r)
      → close_calls resolved (suc n) q ≡ close_next n (c, r)
  unfolding close_calls
  close_more n k q r c e popped =
      ap (λ b. if b then ok (q, []) else pop_call q >>= close_next n) (count_suc q.n k e)
      ∙ ap (λ x. x >>= close_next n) popped

  -- The call at the front is rejected, or its fulfiller is resolved.
  close_front :
      (n call f : ℕ) (calls : List (ℕ × ℕ)) (q' r : Queue (List Ecall))
      → close_calls resolved n r ≡ (
          if any_resolved resolved calls
          then panic called_twice
          else ok (q', map (λ p. canceled p.1) calls))
      → close_next n (entry (call, some f), r) ≡ (
          if any_resolved resolved ((call, f) ∷ calls)
          then panic called_twice
          else ok (q', canceled f ∷ map (λ p. canceled p.1) calls))
  unfolding reject_queued
  close_front n call f calls q' r rest = elim (Bool-cases (resolved f)) [
    | inl e ↦ rw e refl
    | inr e ↦ rw e (
        ap (λ x. x >>= λ s. ok (s.0, canceled f ∷ s.1)) rest
        ∙ elim (Bool-cases (any_resolved resolved calls)) [ inl h ↦ rw h refl | inr h ↦ rw h refl ])
  ]

  -- The loop of `Close`, with a round allowed for each call in the queue: where a fulfiller of the
  -- calls in the queue is resolved when it is to be rejected, the loop panics. Else it rejects all
  -- the calls, oldest first, and leaves the queue empty.
  pub close_calls_lem :
      (n : ℕ) (q : Queue (List Ecall)) (calls : List (ℕ × ℕ))
      → Holds q (map with_fulfiller calls)
      → q.n ≤ n
      → (q' : Queue (List Ecall)) × (q'.n ≡ 0)
        × (close_calls resolved n q ≡ (
            if any_resolved resolved calls
            then panic called_twice
            else ok (q', map (λ p. canceled p.1) calls)))
  unfolding close_calls
  close_calls_lem zero q [] h le = (q, count_held q [] h, refl)
  close_calls_lem zero q (p ∷ calls) h le =
      absurd (omega (arith, count_held q (map with_fulfiller (p ∷ calls)) h))
  close_calls_lem (suc n) q [] h le = (q, count_held q [] h, close_empty n q (count_held q [] h))
  close_calls_lem (suc n) q ((call, f) ∷ calls) h le =
      let all : List (ℕ × Option ℕ) = map with_fulfiller calls in
      let r = pop_call_lem q (call, some f) all h in
      let count = count_held q ((call, some f) ∷ all) h in
      let (q', z, e) =
        close_calls_lem n r.after calls r.holds
          (omega (arith, count, count_held r.after all r.holds)) in
      (
        q',
        z,
        close_more n (length all) q r.after (entry (call, some f)) count r.returns
            ∙ close_front n call f calls q' r.after e,
      )
