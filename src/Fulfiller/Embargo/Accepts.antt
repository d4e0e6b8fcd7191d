-- ===== src/Fulfiller/Embargo/Accepts.antt =====
-- internal/fulfiller/fulfiller.go: an embargoClient accepts calls at the end of those before.
use go_capnproto.Prelude.{
  if◌then◌else◌, some, ok-injective, ◌==◌, append-nil, ap₂, length-append, ◌<◌, ℕ, ◌≡◌, refl, sym,
  arith, ap, ◌∙◌, Option, List, [], ◌∷◌, ◌++◌, length, append_assoc,
}
use go_capnproto.Fulfiller.Embargo.Held.{
  push_call_keeps, push_call_fails, push_call_lem, count_held, Holds,
}
use go_capnproto.Fulfiller.Embargo.{
  retry_passes, some, call_waits, inr, call_passes, push_call, false, true, flushes, Step,
  is_passthrough, call_client, call_slow, call_fast, EmbargoClient, Flusher, starting, popping,
  flushed, calling, Caller, idle, retrying, passing, retry_pushes, retry_fails, passes, Run, here,
  then_, start_embargo,
}
use mathlib.Core.Path.{subst}
use go_capnproto.Queue.{Queue}
use go_capnproto.Queue.Calls.{Ecall}
use go_capnproto.Fulfiller.Embargo.Order.{
  numbers, unsent, in_hand, At, Passing, InOrder, flush_step-Flushed,
}

unsent-append :
    (fl : Flusher) (calls : List (ℕ × Option ℕ)) (p : ℕ × Option ℕ)
    → 0 < length calls
    → unsent fl (calls ++ (p ∷ [])) ≡ unsent fl calls ++ (p ∷ [])
unfolding unsent
unsent-append starting calls p h = refl
unsent-append popping [] p h = absurd (omega arith)
unsent-append popping (c ∷ calls) p h = refl
unsent-append flushed calls p h = refl
unsent-append (calling n f) calls p h = refl

At-append :
    (fl : Flusher) (calls : List (ℕ × Option ℕ)) (p : ℕ × Option ℕ)
    → 0 < length calls
    → At fl calls
    → At fl (calls ++ (p ∷ []))
unfolding At
At-append starting calls p h a = tt
At-append popping calls p h a = omega (arith, length-append calls (p ∷ []))
At-append flushed calls p h a = absurd (omega (arith, h, ap length a))
At-append (calling n f) calls p h (rest, e) = (rest ++ (p ∷ []), ap (λ l. l ++ (p ∷ [])) e)

numbers-append :
    (calls : List (ℕ × Option ℕ)) (p : ℕ × Option ℕ)
    → numbers (calls ++ (p ∷ [])) ≡ numbers calls ++ (p.0 ∷ [])
unfolding numbers
numbers-append [] p = refl
numbers-append (c ∷ calls) p = ap (λ l. c.0 ∷ l) (numbers-append calls p)

empty_of :
    (q : Queue (List Ecall)) (calls : List (ℕ × Option ℕ))
    → Holds q calls
    → (q.n == 0) ≡ true
    → calls ≡ []
empty_of q [] h e = refl
empty_of q (p ∷ calls) h e = absurd (ground (arith, e, count_held q (p ∷ calls) h))

some_of :
    (q : Queue (List Ecall)) (calls : List (ℕ × Option ℕ))
    → Holds q calls
    → (q.n == 0) ≡ false
    → 0 < length calls
some_of q calls h e = ground (arith, e, count_held q calls h)

-- A call is accepted at the end.
at_end :
    (sent queued : List ℕ) (c : ℕ) {acc : List ℕ}
    → sent ++ (queued ++ []) ≡ acc
    → sent ++ (queued ++ (c ∷ [])) ≡ acc ++ (c ∷ [])
at_end sent queued c e =
    sym (append_assoc sent queued (c ∷ []))
    ∙ ap (λ l. (sent ++ l) ++ (c ∷ [])) (sym (append-nil queued))
    ∙ ap (λ l. l ++ (c ∷ [])) e

accepted_pass :
    (acc : List ℕ) (ec : EmbargoClient) (cl : ℕ)
    → InOrder acc ec
    → in_hand ec.caller ≡ []
    → (ec.q.n == 0) ≡ true
    → InOrder (acc ++ (cl ∷ [])) (record ec { caller = passing cl })
unfolding Passing in_hand
accepted_pass acc ec cl i hand e = record {
  calls = i.calls;
  holds = i.holds;
  at = i.at;
  passed = empty_of ec.q i.calls i.holds e;
  order =
      at_end ec.sent (numbers (unsent ec.flusher i.calls)) cl
        (ap (λ l. ec.sent ++ (numbers (unsent ec.flusher i.calls) ++ l)) (sym hand) ∙ i.order);
}

waits :
    (acc : List ℕ) (ec : EmbargoClient) (c : Caller)
    → InOrder acc ec
    → in_hand ec.caller ≡ []
    → in_hand c ≡ []
    → ((calls : List (ℕ × Option ℕ)) → Passing c calls)
    → InOrder acc (record ec { caller = c })
waits acc ec c i hand none_ p = record {
  calls = i.calls;
  holds = i.holds;
  at = i.at;
  passed = p i.calls;
  order =
      ap (λ l. ec.sent ++ (numbers (unsent ec.flusher i.calls) ++ l)) (none_ ∙ sym hand) ∙ i.order;
}

pushed :
    (acc : List ℕ) (ec ec' : EmbargoClient) (c g : ℕ)
    → InOrder acc ec
    → in_hand ec.caller ≡ []
    → (ec.q.n == 0) ≡ false
    → push_call ec (inr c) g ≡ (ec', inr g)
    → InOrder (acc ++ (c ∷ [])) (record ec { q = ec'.q; caller = idle })
unfolding Passing in_hand
pushed acc ec ec' c g i hand e h = record {
  calls = i.calls ++ ((c, some g) ∷ []);
  holds = push_call_lem ec ec' c g i.calls i.holds h;
  at = At-append ec.flusher i.calls (c, some g) more i.at;
  passed = tt;
  order =
      ap (λ l. ec.sent ++ l)
        (append-nil (numbers (unsent ec.flusher (i.calls ++ ((c, some g) ∷ []))))
          ∙ ap numbers (unsent-append ec.flusher i.calls (c, some g) more)
          ∙ numbers-append (unsent ec.flusher i.calls) (c, some g))
      ∙ at_end ec.sent (numbers (unsent ec.flusher i.calls)) c
          (ap (λ l. ec.sent ++ (numbers (unsent ec.flusher i.calls) ++ l)) (sym hand) ∙ i.order);
}
  where
    more : 0 < length i.calls
    more = some_of ec.q i.calls i.holds e

no_more : (fl : Flusher) → numbers (unsent fl []) ≡ []
unfolding numbers unsent
no_more starting = refl
no_more popping = refl
no_more flushed = refl
no_more (calling n f) = refl

passed_on :
    (acc : List ℕ) (ec : EmbargoClient) (cl : ℕ)
    → InOrder acc ec
    → ec.caller ≡ passing cl
    → InOrder acc (record ec { sent = ec.sent ++ (cl ∷ []); caller = idle })
unfolding Passing in_hand
passed_on acc ec cl i e = record {
  calls = i.calls;
  holds = i.holds;
  at = i.at;
  passed = tt;
  order =
      append_assoc ec.sent (cl ∷ []) (numbers (unsent ec.flusher i.calls) ++ [])
      ∙ ap (λ l. ec.sent ++ (cl ∷ (l ++ [])))
          (ap (λ l. numbers (unsent ec.flusher l)) none_left ∙ no_more ec.flusher)
      ∙ ap₂ (λ l c. ec.sent ++ (l ++ in_hand c))
          (sym (ap (λ l. numbers (unsent ec.flusher l)) none_left ∙ no_more ec.flusher)) (sym e)
      ∙ i.order;
}
  where
    none_left : i.calls ≡ []
    none_left = subst (λ c. Passing c i.calls) e i.passed

-- Every step accepts its calls behind those before.
step-InOrder :
    (acc cs : List ℕ) (ec ec' : EmbargoClient)
    → InOrder acc ec
    → Step ec cs ec'
    → InOrder (acc ++ cs) ec'
unfolding call_fast call_slow call_client is_passthrough in_hand Passing
step-InOrder acc cs ec ec' i (flushes _ h) =
    let f = flush_step-Flushed acc ec i in
    subst (λ a. InOrder a ec') (sym (append-nil acc))
      (subst (InOrder acc) (ok-injective (sym f.returns ∙ h)) f.in_order)
step-InOrder acc cs ec ec' i (call_passes cl e h) =
    rw h (accepted_pass acc ec cl i (ap in_hand e) h)
step-InOrder acc cs ec ec' i (call_waits cl e h) =
    subst (λ a. InOrder a ec') (sym (append-nil acc))
      (rw h (waits acc ec (retrying cl) i (ap in_hand e) refl (λ _. tt)))
step-InOrder acc cs ec ec' i (retry_passes cl copied g e h) =
    rw h (accepted_pass acc ec cl i (ap in_hand e) h)
step-InOrder acc cs ec ec' i (retry_pushes cl c g ec₁ e h pushed_) =
    subst
      (λ b. InOrder (acc ++ (c ∷ [])) (
        if b
        then record ec { caller = passing cl }
        else record (push_call ec (inr c) g).0 { caller = idle }))
      (sym h)
      (subst (InOrder (acc ++ (c ∷ [])))
        (ap (λ q. record ec { q = q; caller = idle }) (sym (ap (λ r. r.0.q) pushed_))
          ∙ ap (λ (x : EmbargoClient). record x { caller = idle })
              (sym (push_call_keeps ec (inr c) g)))
        (pushed acc ec ec₁ c g i (ap in_hand e) h pushed_))
step-InOrder acc cs ec ec' i (retry_fails cl copied g err ec₁ e h failed_) =
    subst (λ a. InOrder a ec') (sym (append-nil acc))
      (subst
        (λ b. InOrder acc (
          if b
          then record ec { caller = passing cl }
          else record (push_call ec copied g).0 { caller = idle }))
        (sym h)
        (subst (InOrder acc)
          (ap (λ (x : EmbargoClient). record x { caller = idle })
            (push_call_fails ec ec₁ copied g err failed_ ∙ sym (ap (λ r. r.0) failed_)))
          (waits acc ec idle i (ap in_hand e) refl (λ _. tt))))
step-InOrder acc cs ec ec' i (passes cl e) =
    subst (λ a. InOrder a ec') (sym (append-nil acc)) (passed_on acc ec cl i e)

-- Whatever the goroutine and the caller do, from a valid queue of waiting calls on: the calls that
-- the client was given, then those that wait, then the one about to be passed on, are the calls of
-- the queue at the start and the calls that were accepted, in order.
pub run-InOrder :
    (q : Queue (List Ecall)) (calls : List (ℕ × Option ℕ)) (cs : List ℕ) (ec : EmbargoClient)
    → Holds q calls
    → Run (start_embargo q) cs ec
    → InOrder (numbers calls ++ cs) ec
unfolding start_embargo At Passing unsent in_hand
run-InOrder q calls cs ec h here = record {
  calls = calls;
  holds = h;
  at = tt;
  passed = tt;
  order = refl;
}
run-InOrder q calls cs ec h (then_ ds es ec₁ _ r s) =
    subst (λ a. InOrder a ec) (append_assoc (numbers calls) ds es)
      (step-InOrder (numbers calls ++ ds) es ec₁ ec (run-InOrder q calls ds ec₁ h r) s)
