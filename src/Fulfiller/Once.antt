-- ===== src/Fulfiller/Once.antt =====
-- internal/fulfiller/fulfiller.go: a promise over the calls of its methods, from the zero value on.
use go_capnproto.Fulfiller.{
  queue_call, no_pcall, error_answer, immediate_answer, Fulfiller, Answer, Pcall, Target, Rejection,
  CallError, Client, Pipelined, passed, unresolved, cap_table, embargo, empty_queue, fulfill,
  reject, peek, pipeline_call,
}
use go_capnproto.Prelude.{
  ℕ, ◌≤◌, ◌≡◌, refl, sym, arith, ap, ◌∙◌, List, [], ◌∷◌, ◌++◌, map, length, length-append,
  length-map, Option, none, some, Option-cases, ◌==◌, Bool-cases, inl, inr, true, false, ◌⊎◌, ok,
  panic, called_twice, returned, ok-injective, ◌>>=◌,
}
use mathlib.Core.Path.{subst}
use mathlib.Core.Bool.{true≢false}

-- The queue has its capacity at most, and the promise has an answer when it is resolved, and only
-- then.
module _ {St Tr : Type 0} where
  pub record Sound (f : Fulfiller St Tr) : Type 0 where
    pub fits : length f.queue ≤ 64
    pub closed : f.resolved ≡ true → (a : Answer St) × (f.answer ≡ some a)
    pub pending : f.resolved ≡ false → f.answer ≡ none

module _ {St Tr : Type 0} (C : Type 0) (target : St → Tr → Target) (nil : Tr) where
  -- A method that was called and returned.
  pub data Step (f : Fulfiller St Tr) : Fulfiller St Tr → Type 0 where
    fulfilled :
        (s : St) (ctab : Option (List (Client C))) (ctab' : List (Client C)) (f' : Fulfiller St Tr)
        (rejected : List Rejection)
        → fulfill target f s ctab ≡ ok (f', (ctab', rejected))
        → Step f f'
    rejected :
        (e : Option CallError) (f' : Fulfiller St Tr) (rs : List Rejection)
        → reject nil f e ≡ ok (f', rs)
        → Step f f'
    called : (t : Tr) (copied : CallError ⊎ ℕ) (g : ℕ) → Step f (pipeline_call f t copied g).0

  pub data Steps (f : Fulfiller St Tr) : Fulfiller St Tr → Type 0 where
    start : Steps f f
    next : (g h : Fulfiller St Tr) → Steps f g → Step g h → Steps f h

  fulfill-answered :
      (f : Fulfiller St Tr) (a : Answer St) (s : St) (ctab : Option (List (Client C)))
      → f.answer ≡ some a
      → fulfill target f s ctab ≡ panic called_twice
  unfolding fulfill
  fulfill-answered f a s ctab e = rw e refl

  reject-answered :
      (f : Fulfiller St Tr) (a : Answer St) (err : CallError)
      → f.answer ≡ some a
      → reject nil f (some err) ≡ panic called_twice
  unfolding reject
  reject-answered f a err e = rw e refl

  call-answered :
      (f : Fulfiller St Tr) (a : Answer St) (t : Tr) (copied : CallError ⊎ ℕ) (g : ℕ)
      → f.answer ≡ some a
      → pipeline_call f t copied g ≡ (f, passed a)
  unfolding pipeline_call
  call-answered f a t copied g e = rw e refl

  -- A step from an answered promise changes nothing.
  answered_keeps :
      (f g : Fulfiller St Tr) (a : Answer St) → f.answer ≡ some a → Step f g → g.answer ≡ some a
  unfolding reject
  answered_keeps f g a e (fulfilled s ctab ctab' f' rs r) =
      absurd (clash (sym (fulfill-answered f a s ctab e) ∙ r))
    where
      clash : {A : Type 0} {x : A} → panic called_twice ≡ ok x → ⊥
      clash e = cc
  answered_keeps f g a e (rejected none f' rs r) = cc
  answered_keeps f g a e (rejected (some err) f' rs r) =
      absurd (clash (sym (reject-answered f a err e) ∙ r))
    where
      clash : {A : Type 0} {x : A} → panic called_twice ≡ ok x → ⊥
      clash e = cc
  answered_keeps f g a e (called t copied k) =
      ap (λ r. r.0.answer) (call-answered f a t copied k e) ∙ e

  -- A promise is resolved once: whatever methods are called on it then, it keeps its answer.
  -- `Fulfill` panics then, and so does `Reject` with an error; `PipelineCall` is passed on.
  pub steps-answered :
      (f g : Fulfiller St Tr) (a : Answer St) (s : St) (ctab : Option (List (Client C)))
      (err : CallError) (t : Tr) (copied : CallError ⊎ ℕ) (k : ℕ)
      → peek f ≡ some a
      → Steps f g
      → (peek g ≡ some a)
        × (fulfill target g s ctab ≡ panic called_twice)
        × (reject nil g (some err) ≡ panic called_twice)
        × (pipeline_call g t copied k ≡ (g, passed a))
  unfolding peek
  steps-answered f g a s ctab err t copied k e r =
      let h = keeps g r in
      (h, fulfill-answered g a s ctab h, reject-answered g a err h, call-answered g a t copied k h)
    where
      keeps : (g : Fulfiller St Tr) → Steps f g → g.answer ≡ some a
      keeps g start = e
      keeps h (next g _ r st) = answered_keeps g h a (keeps g r) st

  fulfill-unanswered :
      (f : Fulfiller St Tr) (s : St) (ctab : Option (List (Client C)))
      → f.answer ≡ none
      → fulfill target f s ctab ≡ (
          cap_table ctab >>= λ tab. embargo (empty_queue target s f).1.0 tab >>= λ ctab'. ok (
            record f { queue = []; answer = some (immediate_answer s); resolved = true },
            (ctab', (empty_queue target s f).1.1),
          ))
  unfolding fulfill empty_queue
  fulfill-unanswered f s ctab e = rw e refl

  answered-Sound :
      (f f' : Fulfiller St Tr) (a : Answer St)
      → f'.answer ≡ some a
      → f'.resolved ≡ true
      → length f'.queue ≤ 64
      → Sound f'
  answered-Sound f f' a e r h = record {
    fits = h;
    closed = λ _. (a, e);
    pending = λ n. absurd (true≢false (sym r ∙ n));
  }

  fulfilled-Sound :
      (f f' : Fulfiller St Tr) (s : St) (ctab : Option (List (Client C))) (ctab' : List (Client C))
      (rs : List Rejection)
      → fulfill target f s ctab ≡ ok (f', (ctab', rs))
      → Sound f'
  fulfilled-Sound f f' s ctab ctab' rs r = elim (Option-cases f.answer) [
    | inl e ↦
        let (tab, _, embargoed) =
          returned (cap_table ctab) (sym (fulfill-unanswered f s ctab e) ∙ r) in
        let (t, _, done) = returned (embargo (empty_queue target s f).1.0 tab) embargoed in
        let same : record f { queue = []; answer = some (immediate_answer s); resolved = true }
            ≡ f' =
          ap (λ x. x.0) (ok-injective done) in
        answered-Sound f f' (immediate_answer s) (ap (λ g. g.answer) (sym same))
          (ap (λ g. g.resolved) (sym same)) (omega (arith, ap (λ g. length g.queue) (sym same)))
    | inr (a, e) ↦ absurd (clash (sym (fulfill-answered f a s ctab e) ∙ r))
  ]
    where
      clash : {A : Type 0} {x : A} → panic called_twice ≡ ok x → ⊥
      clash e = cc

  rejected-Sound :
      (f f' : Fulfiller St Tr) (err : CallError) (rs : List Rejection)
      → Sound f
      → reject nil f (some err) ≡ ok (f', rs)
      → Sound f'
  unfolding reject
  rejected-Sound f f' err rs sound r = elim (Option-cases f.answer) [
    | inl e ↦
        let same : after f err ≡ f' = ap (λ x. x.0) (ok-injective (sym (unanswered f err e) ∙ r)) in
        answered-Sound f f' (error_answer err) (ap (λ g. g.answer) (sym same))
          (ap (λ g. g.resolved) (sym same))
          (omega (
            arith,
            ap (λ g. length g.queue) (sym same),
            sound.fits,
            length-map f.queue (λ pc. no_pcall nil),
          ))
    | inr (a, e) ↦ absurd (clash (sym (reject-answered f a err e) ∙ r))
  ]
    where
      clash : {A : Type 0} {x : A} → panic called_twice ≡ ok x → ⊥
      clash e = cc

      after : Fulfiller St Tr → CallError → Fulfiller St Tr
      after f err = record f {
        answer = some (error_answer err);
        queue = map (λ pc. no_pcall nil) f.queue;
        resolved = true;
      }

      unanswered :
          (f : Fulfiller St Tr) (err : CallError)
          → f.answer ≡ none
          → reject nil f (some err)
            ≡ ok (after f err, map (λ pc. record { f = pc.ecall.f; error = err }) f.queue)
      unanswered f err e = rw e refl

  queued-Sound :
      (f : Fulfiller St Tr) (t : Tr) (copied : CallError ⊎ ℕ) (g : ℕ)
      → Sound f
      → Sound (queue_call f t copied g).0
  unfolding queue_call
  queued-Sound f t (inl err) g sound = elim (Bool-cases (length f.queue == 64)) [
    | inl full ↦ rw full sound
    | inr room ↦ rw room sound
  ]
  queued-Sound f t (inr c) g sound = elim (Bool-cases (length f.queue == 64)) [
    | inl full ↦ rw full sound
    | inr room ↦ rw room (record {
      fits = longer (record { transform = t; ecall = record { call = some c; f = some g } }) room;
      closed = sound.closed;
      pending = sound.pending;
    })
  ]
    where
      longer : (pc : Pcall Tr) → (length f.queue == 64) ≡ false → length (f.queue ++ (pc ∷ [])) ≤ 64
      longer pc room = ground (arith, room, sound.fits, length-append f.queue (pc ∷ []))

  called-Sound :
      (f : Fulfiller St Tr) (t : Tr) (copied : CallError ⊎ ℕ) (g : ℕ)
      → Sound f
      → Sound (pipeline_call f t copied g).0
  unfolding pipeline_call
  called-Sound f t copied g sound = elim (Option-cases f.answer) [
    | inr (a, e) ↦ subst Sound (sym (ap (λ r. r.0) (call-answered f a t copied g e))) sound
    | inl e ↦ subst Sound (sym (ap (λ o. (by_answer o).0) e)) (queued-Sound f t copied g sound)
  ]
    where
      by_answer : Option (Answer St) → Fulfiller St Tr × Pipelined St
      by_answer o = elim o [ some a ↦ (f, passed a) | none ↦ queue_call f t copied g ]

  -- From the zero value on, whatever methods are called, the queue has its capacity at most, and
  -- the promise has an answer exactly when it is resolved.
  pub steps-Sound : (f : Fulfiller St Tr) → Steps unresolved f → Sound f
  unfolding reject
  steps-Sound f start = record {
    fits = omega arith;
    closed = λ e. absurd (true≢false (sym e));
    pending = λ e. refl;
  }
  steps-Sound f (next g _ r (fulfilled s ctab ctab' _ rs e)) = fulfilled-Sound g f s ctab ctab' rs e
  steps-Sound f (next g _ r (rejected (some err) _ rs e)) =
      rejected-Sound g f err rs (steps-Sound g r) e
  steps-Sound f (next g _ r (rejected none _ rs e)) = cc
  steps-Sound _ (next g _ r (called t copied k)) = called-Sound g t copied k (steps-Sound g r)
