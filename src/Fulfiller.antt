-- ===== src/Fulfiller.antt =====
-- internal/fulfiller/fulfiller.go: a promise of a struct, with a queue of the calls made on it. The
-- fulfillers of queued calls are known by numbers, so what happens to them is part of a result.
pub mod Groups
pub mod Resolve
pub mod Once
pub mod Embargo
mod Tests
use go_capnproto.Prelude.{
  inr, inl, suc, ◌⊎◌, ℕ, ◌+◌, min, Bool, true, false, Option, none, some, List, [], ◌∷◌, ◌++◌, map,
  length, replicate, ltb, ◌==◌, if◌then◌else◌, set, get_or, copy, Result, ok, panic, slice_bounds,
  called_twice, nil_error, nil_pointer, ◌>>=◌, zero,
}
use go_capnproto.Queue.{Queue, init}
use go_capnproto.Queue.Calls.{Ecall, no_call}

abbrev pub call_queue_size : ℕ
call_queue_size = 64

-- `failed` numbers the errors of other code.
pub data CallError : Type 0 where
  call_queue_full queue_call_cancel null_client : CallError
  failed : ℕ → CallError

pub data Answer (St : Type 0) : Type 0 where
  immediate_answer : St → Answer St
  error_answer : CallError → Answer St

pub record Pcall (Tr : Type 0) : Type 0 where
  pub transform : Tr
  pub ecall : Ecall

pub record Fulfiller (St Tr : Type 0) : Type 0 where
  pub resolved : Bool
  pub answer : Option (Answer St)
  pub queue : List (Pcall Tr)

-- A call of `Reject` on the fulfiller of a queued call.
pub record Rejection : Type 0 where
  pub f : Option ℕ
  pub error : CallError

-- Where a transform of a struct leads: `Transform` and `ToInterface`, up to the test of `IsValid`.
pub data Target : Type 0 where
  no_pointer : CallError → Target
  no_interface : Target
  capability : ℕ → Target

-- A client of the capability table: one that was there, or an embargoClient round one.
pub data Client (C : Type 0) : Type 0 where
  plain : C → Client C
  embargo_client : Client C → Queue (List Ecall) → Client C

unfoldable pub new_embargo_client : {C : Type 0} → Client C → List Ecall → Client C
new_embargo_client client queue =
    embargo_client client
      (init (copy (replicate call_queue_size no_call) queue) (min call_queue_size (length queue)))

-- `qs[cn] = append(qs[cn], ecall)`
unfoldable pub add_call : List (ℕ × List Ecall) → ℕ → Ecall → List (ℕ × List Ecall)
add_call [] cn c = (cn, c ∷ []) ∷ []
add_call ((k, calls) ∷ qs) cn c =
    let rest = add_call qs cn c in
    if k == cn then (k, calls ++ (c ∷ [])) ∷ qs else (k, calls) ∷ rest

unfoldable pub place_call :
    Target → Ecall → List (ℕ × List Ecall) × List Rejection → List (ℕ × List Ecall) × List Rejection
place_call (no_pointer e) c (qs, rejected) = (qs, rejected ++ (record { f = c.f; error = e } ∷ []))
place_call no_interface c (qs, rejected) =
    (qs, rejected ++ (record { f = c.f; error = null_client } ∷ []))
place_call (capability cn) c (qs, rejected) = (add_call qs cn c, rejected)

module _ {St Tr : Type 0} where
  -- The zero value.
  abbrev pub unresolved : Fulfiller St Tr
  unresolved = record { resolved = false; answer = none; queue = [] }

  unfoldable pub place_calls :
      (St → Tr → Target)
      → St
      → List (Pcall Tr)
      → List (ℕ × List Ecall) × List Rejection
      → List (ℕ × List Ecall) × List Rejection
  unfolding place_call
  place_calls target s [] acc = acc
  place_calls target s (pc ∷ queue) acc =
      place_calls target s queue (place_call (target s pc.transform) pc.ecall acc)

  unfoldable pub empty_queue :
      (St → Tr → Target)
      → St
      → Fulfiller St Tr
      → Fulfiller St Tr × (List (ℕ × List Ecall) × List Rejection)
  unfolding place_calls
  empty_queue target s f = (record f { queue = [] }, place_calls target s f.queue ([], []))

-- `ctab[capIdx] = newEmbargoClient(ctab[capIdx], q)`, in range.
unfoldable pub embargo_at : {C : Type 0} → List (Client C) → ℕ → List Ecall → List (Client C)
embargo_at [] i q = []
embargo_at (c ∷ ctab) zero q = new_embargo_client c q ∷ ctab
embargo_at (c ∷ ctab) (suc i) q = c ∷ embargo_at ctab i q

-- A client is put round each capability that calls wait for. Go panics on an index out of range.
unfoldable pub embargo :
    {C : Type 0} → List (ℕ × List Ecall) → List (Client C) → Result (List (Client C))
embargo [] ctab = ok ctab
embargo ((cap_idx, q) ∷ queues) ctab =
    let rest = embargo queues (embargo_at ctab cap_idx q) in
    if ltb cap_idx (length ctab) then rest else panic slice_bounds

-- What `PipelineCall` returns: what the answer's own PipelineCall does, an error, or a new Fulfiller.
pub data Pipelined (St : Type 0) : Type 0 where
  passed : Answer St → Pipelined St
  refused : CallError → Pipelined St
  promised : ℕ → Pipelined St

-- `s.Segment().Message().CapTable`, with none for the table of a struct that has no segment.
abbrev pub cap_table : {C : Type 0} → Option (List (Client C)) → Result (List (Client C))
cap_table none = panic nil_pointer
cap_table (some ctab) = ok ctab

module _ {St Tr C : Type 0} where
  unfoldable pub fulfill :
      (St → Tr → Target)
      → Fulfiller St Tr
      → St
      → Option (List (Client C))
      → Result (Fulfiller St Tr × (List (Client C) × List Rejection))
  fulfill target f s caps = elim f.answer [
    | some a ↦ panic called_twice
    | none ↦
        let (f', (queues, rejected)) = empty_queue target s f in
        cap_table caps >>= λ ctab. embargo queues ctab >>= λ ctab'.
        ok (record f' { answer = some (immediate_answer s); resolved = true }, (ctab', rejected))
  ]

abbrev pub no_pcall : {Tr : Type 0} → Tr → Pcall Tr
no_pcall t = record { transform = t; ecall = no_call }

module _ {St Tr : Type 0} where
  -- The zero `pcall` has a nil transform.
  unfoldable pub reject :
      Tr → Fulfiller St Tr → Option CallError → Result (Fulfiller St Tr × List Rejection)
  reject nil f none = panic nil_error
  reject nil f (some e) = elim f.answer [
    | some a ↦ panic called_twice
    | none ↦ ok (
      record f {
        answer = some (error_answer e);
        queue = map (λ pc. no_pcall nil) f.queue;
        resolved = true;
      },
      map (λ pc. record { f = pc.ecall.f; error = e }) f.queue,
    )
  ]

  unfoldable pub peek : Fulfiller St Tr → Option (Answer St)
  peek f = f.answer

  -- The call is queued, with the lock held and no answer. `call.Copy(nil)` gives the copy of the
  -- call, or an error; `g` is the new Fulfiller's number.
  unfoldable pub queue_call :
      Fulfiller St Tr → Tr → (CallError ⊎ ℕ) → ℕ → Fulfiller St Tr × Pipelined St
  queue_call f transform copied g =
      if length f.queue == call_queue_size then (f, refused call_queue_full) else elim copied [
        | inl e ↦ (f, refused e)
        | inr c ↦
            let pc : Pcall Tr = record {
              transform = transform;
              ecall = record { call = some c; f = some g };
            } in
            (record f { queue = f.queue ++ (pc ∷ []) }, promised g)
      ]

  unfoldable pub pipeline_call :
      Fulfiller St Tr → Tr → (CallError ⊎ ℕ) → ℕ → Fulfiller St Tr × Pipelined St
  unfolding queue_call
  pipeline_call f transform copied g = elim f.answer [
    | some a ↦ (f, passed a)
    | none ↦ queue_call f transform copied g
  ]
