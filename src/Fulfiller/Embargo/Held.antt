-- ===== src/Fulfiller/Embargo/Held.antt =====
-- internal/fulfiller/fulfiller.go: the calls that an embargoClient's queue holds, oldest first.
use go_capnproto.Prelude.{
  ◌+◌, ◌%◌, branch, length-map, ℕ, zero, suc, ◌≡◌, refl, sym, arith, ap, ◌∙◌, Option, some, List,
  [], ◌∷◌, ◌++◌, map, length, ◌==◌, Bool-cases, inl, inr, true, false, ok, ◌⊎◌, if◌then◌else◌,
}
use mathlib.Core.Path.{subst}
use go_capnproto.Prelude.{inl, inr, Bool-cases, ◌⊎◌}
use go_capnproto.Fulfiller.{CallError}
use go_capnproto.Queue.{Queue, push, peek, pop}
use go_capnproto.Queue.Calls.{Ecall, no_call, call_store}
use go_capnproto.Queue.Refine.{IsValid, contents, elements, push_refines, pop_refines, PopOf}
use go_capnproto.Fulfiller.{CallError}
use go_capnproto.Fulfiller.Embargo.{EmbargoClient, peek_call, pop_call, push_call}

-- A call and its fulfiller.
abbrev pub entry : ℕ × Option ℕ → Ecall
entry p = record { call = some p.0; f = p.1 }

pub record Holds (q : Queue (List Ecall)) (calls : List (ℕ × Option ℕ)) : Type 0 where
  pub valid : IsValid call_store q
  pub held : contents call_store q ≡ map entry calls

abbrev pub first_of : List (ℕ × Option ℕ) → Ecall
first_of [] = no_call
first_of (p ∷ calls) = entry p

length-elements : (s : List Ecall) (l start n : ℕ) → length (elements call_store s l start n) ≡ n
length-elements s l start zero = refl
length-elements s l start (suc n) = ap suc (length-elements s l ((start + 1) % l) n)

pub count_held :
    (q : Queue (List Ecall)) (calls : List (ℕ × Option ℕ)) → Holds q calls → q.n ≡ length calls
count_held q calls h =
    sym (length-elements q.q (call_store.len q.q) q.start q.n)
    ∙ ap length h.held
    ∙ length-map calls entry

pub count_zero : (n : ℕ) → n ≡ 0 → (n == 0) ≡ true
count_zero n e = ground (arith, e)

pub count_suc : (n k : ℕ) → n ≡ suc k → (n == 0) ≡ false
count_suc n k e = ground (arith, e)

pub peek_call_lem :
    (q : Queue (List Ecall)) (calls : List (ℕ × Option ℕ))
    → Holds q calls
    → peek_call q ≡ ok (first_of calls)
unfolding peek_call
peek_call_lem q [] h =
    ap (λ b. if b then ok no_call else peek call_store q) (count_zero q.n (count_held q [] h))
peek_call_lem q (p ∷ calls) h =
    let (_, _, peeked, _, _, _) =
      subst (PopOf call_store q) h.held (pop_refines call_store q h.valid) in
    ap (λ b. if b then ok no_call else peek call_store q)
      (count_suc q.n (length calls) (count_held q (p ∷ calls) h))
    ∙ peeked

pub record Popped (q : Queue (List Ecall)) (p : ℕ × Option ℕ) (calls : List (ℕ × Option ℕ))
    : Type 0 where
  pub after : Queue (List Ecall)
  pub returns : pop_call q ≡ ok (entry p, after)
  pub holds : Holds after calls

pub pop_call_lem :
    (q : Queue (List Ecall)) (p : ℕ × Option ℕ) (calls : List (ℕ × Option ℕ))
    → Holds q (p ∷ calls)
    → Popped q p calls
unfolding pop_call
pop_call_lem q p calls h =
    let (q', done, _, rest, _, v) =
      subst (PopOf call_store q) h.held (pop_refines call_store q h.valid) in
    record {
      after = q';
      returns =
          ap (λ b. if b then ok (no_call, q) else pop call_store q)
            (count_suc q.n (length calls) (count_held q (p ∷ calls) h))
          ∙ done;
      holds = record { valid = v; held = rest };
    }

pub push_call_lem :
    (ec ec' : EmbargoClient) (c g : ℕ) (calls : List (ℕ × Option ℕ))
    → Holds ec.q calls
    → push_call ec (inr c) g ≡ (ec', inr g)
    → Holds ec'.q (calls ++ ((c, some g) ∷ []))
unfolding push_call
push_call_lem ec ec' c g calls h e =
    let (_, added, _, v) =
      push_refines call_store ec.q (record { call = some c; f = some g }) h.valid in
    branch (push call_store ec.q (some (record { call = some c; f = some g }))).0 e
      (λ done r.
        subst (λ q. Holds q (calls ++ ((c, some g) ∷ []))) (ap (λ s. s.0.q) r)
          (record {
            valid = v;
            held =
                added
                ∙ ap
                    (λ b.
                      if b
                      then contents call_store ec.q ++ (record { call = some c; f = some g } ∷ [])
                      else contents call_store ec.q)
                    done
                ∙ ap (λ l. l ++ (record { call = some c; f = some g } ∷ [])) h.held
                ∙ sym (map-append calls (c, some g));
          }))
      (λ full r. cc)
  where
    map-append :
        (calls : List (ℕ × Option ℕ)) (p : ℕ × Option ℕ)
        → map entry (calls ++ (p ∷ [])) ≡ map entry calls ++ (entry p ∷ [])
    map-append [] p = refl
    map-append (d ∷ calls) p = ap (λ l. entry d ∷ l) (map-append calls p)

-- `push` changes the queue alone, and nothing when it fails.
pub push_call_keeps :
    (ec : EmbargoClient) (copied : CallError ⊎ ℕ) (g : ℕ)
    → (push_call ec copied g).0 ≡ record ec { q = (push_call ec copied g).0.q }
unfolding push_call
push_call_keeps ec (inl e) g = refl
push_call_keeps ec (inr c) g =
    elim (Bool-cases (push call_store ec.q (some (record { call = some c; f = some g }))).0) [
      | inl e ↦ rw e refl
      | inr e ↦ rw e refl
    ]

pub push_call_fails :
    (ec ec' : EmbargoClient) (copied : CallError ⊎ ℕ) (g : ℕ) (e : CallError)
    → push_call ec copied g ≡ (ec', inl e)
    → ec ≡ ec'
unfolding push_call
push_call_fails ec ec' (inl x) g e h = ap (λ r. r.0) h
push_call_fails ec ec' (inr c) g e h =
    branch (push call_store ec.q (some (record { call = some c; f = some g }))).0 h (λ done r. cc)
      (λ full r. ap (λ s. s.0) r)
