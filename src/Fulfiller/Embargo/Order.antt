-- ===== src/Fulfiller/Embargo/Order.antt =====
-- internal/fulfiller/fulfiller.go: an embargoClient passes calls on in the order that they are made.
use go_capnproto.Prelude.{
  ◌+◌, ◌-◌, ◌*◌, ◌≤◌, ◌<◌, ℕ, ◌≡◌, refl, sym, arith, ap, ◌∙◌, Option, List, [], ◌∷◌, ◌++◌, length,
  append_assoc, Result, ok, drop, ◌>>=◌,
}
use go_capnproto.Fulfiller.Embargo.{
  flush_at, EmbargoClient, Flusher, starting, popping, flushed, calling, Caller, idle, retrying,
  passing, peek_call, loop_test, flush_step,
}
use mathlib.Core.Path.{subst}
use go_capnproto.Queue.{Queue}
use go_capnproto.Queue.Calls.{Ecall}
use go_capnproto.Fulfiller.Embargo.Held.{Holds, first_of, peek_call_lem, pop_call_lem}

unfoldable pub numbers : List (ℕ × Option ℕ) → List ℕ
numbers [] = []
numbers (p ∷ calls) = p.0 ∷ numbers calls

-- What is in the queue and was not sent.
unfoldable pub unsent : Flusher → List (ℕ × Option ℕ) → List (ℕ × Option ℕ)
unsent starting calls = calls
unsent popping calls = drop 1 calls
unsent flushed calls = calls
unsent (calling n f) calls = calls

-- What the caller is about to pass on.
unfoldable pub in_hand : Caller → List ℕ
in_hand idle = []
in_hand (retrying cl) = []
in_hand (passing cl) = cl ∷ []

-- Where the goroutine stands, with the calls in the queue.
unfoldable pub At : Flusher → List (ℕ × Option ℕ) → Type 0
At starting calls = Unit {0}
At popping calls = 0 < length calls
At flushed calls = calls ≡ []
At (calling n f) calls = (rest : List (ℕ × Option ℕ)) × (calls ≡ (n, f) ∷ rest)

-- A call is passed on only when the queue is empty.
unfoldable pub Passing : Caller → List (ℕ × Option ℕ) → Type 0
Passing idle calls = Unit {0}
Passing (retrying cl) calls = Unit {0}
Passing (passing cl) calls = calls ≡ []

pub record InOrder (accepted : List ℕ) (ec : EmbargoClient) : Type 0 where
  pub calls : List (ℕ × Option ℕ)
  pub holds : Holds ec.q calls
  pub at : At ec.flusher calls
  pub passed : Passing ec.caller calls
  pub order : ec.sent ++ (numbers (unsent ec.flusher calls) ++ in_hand ec.caller) ≡ accepted

tested-At : (calls : List (ℕ × Option ℕ)) → At (loop_test (first_of calls)) calls
unfolding At loop_test
tested-At [] = refl
tested-At ((n, f) ∷ calls) = (calls, refl)

unsent-tested : (calls : List (ℕ × Option ℕ)) → unsent (loop_test (first_of calls)) calls ≡ calls
unfolding unsent loop_test
unsent-tested [] = refl
unsent-tested (p ∷ calls) = refl

-- The steps that are left to the goroutine, when no calls are added.
unfoldable pub steps_left : Flusher → ℕ → ℕ
steps_left starting n = 2 * n + 1
steps_left (calling m f) n = 2 * n
steps_left popping n = 2 * n - 1
steps_left flushed n = 0

-- What a step of the goroutine gives: it does not panic, the calls stay in order, and there are
-- fewer steps left.
pub record Flushed (accepted : List ℕ) (caller : Caller) (n : ℕ) (r : Result EmbargoClient)
    : Type 0 where
  pub after : EmbargoClient
  pub returns : r ≡ ok after
  pub in_order : InOrder accepted after
  pub same_caller : after.caller ≡ caller
  pub fewer : steps_left after.flusher (length in_order.calls) ≤ n - 1

tested-steps :
    (calls : List (ℕ × Option ℕ))
    → steps_left (loop_test (first_of calls)) (length calls) ≤ 2 * length calls
unfolding steps_left loop_test
tested-steps [] = omega arith
tested-steps (p ∷ calls) = omega arith

-- The goroutine tests the call that it peeked.
tested :
    (acc : List ℕ) (ec : EmbargoClient) (q : Queue (List Ecall)) (calls : List (ℕ × Option ℕ))
    → Holds q calls
    → Passing ec.caller calls
    → ec.sent ++ (numbers calls ++ in_hand ec.caller) ≡ acc
    → InOrder acc (record ec { q = q; flusher = loop_test (first_of calls) })
tested acc ec q calls h p o = record {
  calls = calls;
  holds = h;
  at = tested-At calls;
  passed = p;
  order = ap (λ l. ec.sent ++ (numbers l ++ in_hand ec.caller)) (unsent-tested calls) ∙ o;
}

fewer-Passing :
    (c : Caller) (p : ℕ × Option ℕ) (calls : List (ℕ × Option ℕ))
    → Passing c (p ∷ calls)
    → Passing c calls
unfolding Passing
fewer-Passing idle p calls h = tt
fewer-Passing (retrying cl) p calls h = tt
fewer-Passing (passing cl) p calls h = cc

flush_at-Flushed :
    (acc : List ℕ) (fl : Flusher) (ec : EmbargoClient) (calls : List (ℕ × Option ℕ))
    → Holds ec.q calls
    → At fl calls
    → Passing ec.caller calls
    → ec.sent ++ (numbers (unsent fl calls) ++ in_hand ec.caller) ≡ acc
    → ec.flusher ≡ fl
    → Flushed acc ec.caller (steps_left fl (length calls)) (flush_at fl ec)
unfolding flush_at unsent At numbers steps_left loop_test tested
flush_at-Flushed acc starting ec calls h a p o e = record {
  after = record ec { flusher = loop_test (first_of calls) };
  returns =
      ap (λ r. r >>= λ c. ok (record ec { flusher = loop_test c })) (peek_call_lem ec.q calls h);
  in_order = tested acc ec ec.q calls h p o;
  same_caller = refl;
  fewer = omega (arith, tested-steps calls);
}
flush_at-Flushed acc (calling n f) ec calls h (rest, same) p o e = record {
  after = record ec { sent = ec.sent ++ (n ∷ []); flusher = popping };
  returns = refl;
  in_order = record {
    calls = (n, f) ∷ rest;
    holds = subst (Holds ec.q) same h;
    at = omega arith;
    passed = subst (Passing ec.caller) same p;
    order =
        append_assoc ec.sent (n ∷ []) (numbers rest ++ in_hand ec.caller)
        ∙ ap (λ l. ec.sent ++ (numbers l ++ in_hand ec.caller)) (sym same)
        ∙ o;
  };
  same_caller = refl;
  fewer = omega (arith, ap length same);
}
flush_at-Flushed acc popping ec [] h a p o e = absurd (omega arith)
flush_at-Flushed acc popping ec (c ∷ calls) h a p o e =
    let r = pop_call_lem ec.q c calls h in
    record {
      after = record ec { q = r.after; flusher = loop_test (first_of calls) };
      returns =
          ap
            (λ s.
              s >>= λ x. peek_call x.1 >>= λ d. ok (record ec { q = x.1; flusher = loop_test d }))
            r.returns
          ∙ ap (λ s. s >>= λ d. ok (record ec { q = r.after; flusher = loop_test d }))
              (peek_call_lem r.after calls r.holds);
      in_order = tested acc ec r.after calls r.holds (fewer-Passing ec.caller c calls p) o;
      same_caller = refl;
      fewer = omega (arith, tested-steps calls);
    }
flush_at-Flushed acc flushed ec calls h a p o e = record {
  after = ec;
  returns = refl;
  in_order = record {
    calls = calls;
    holds = h;
    at = subst (λ f. At f calls) (sym e) a;
    passed = p;
    order = ap (λ f. ec.sent ++ (numbers (unsent f calls) ++ in_hand ec.caller)) e ∙ o;
  };
  same_caller = refl;
  fewer = ended;
}
  where
    ended : steps_left ec.flusher (length calls) ≤ 0 - 1
    ended = subst (λ f. steps_left f (length calls) ≤ 0 - 1) (sym e) (omega arith)

pub flush_step-Flushed :
    (acc : List ℕ) (ec : EmbargoClient)
    → (i : InOrder acc ec)
    → Flushed acc ec.caller (steps_left ec.flusher (length i.calls)) (flush_step ec)
unfolding flush_step
flush_step-Flushed acc ec i =
    flush_at-Flushed acc ec.flusher ec i.calls i.holds i.at i.passed i.order refl
