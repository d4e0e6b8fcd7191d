-- ===== src/Pointer/Read/Known.antt =====
-- capn.go: the segments that `readPtr` finds are the message's.
use go_capnproto.Prelude.{
  ℕ, ◌≡◌, ◌⊎◌, inl, inr, refl, ap, ap₂, ◌∙◌, ok-injective, branch, pointer_address, bad_landing_pad,
  sym, some, Result, ok, err, panic, ◌==◌, check, Error,
}
use mathlib.Core.Path.{subst}
use go_capnproto.Address.{word_size, times, add_size}
use go_capnproto.Prelude.{pos, ◌&&◌}
use go_capnproto.Segment.{Segment, read_raw_pointer, region_in_bounds}
use go_capnproto.RawPointer.{
  far_segment, far_address, pointer_type, double_far_pointer, far_pointer, landing_pad_near_pointer,
  offset,
}
use go_capnproto.Message.{Message, segment}
use go_capnproto.Message.Load.{segment_held}
use go_capnproto.Pointer.{Pointer}
use go_capnproto.Pointer.Near.Inside.{ObjectInside, near_pointer-Inside}
use go_capnproto.Pointer.Read.{
  Reader, lookup_segment, go_on, resolve_single_far, resolve_double_far, resolve_far_pointer,
  read_ptr, relabel, error_as, outcome, is_zero_ℤ,
}

-- The segment is the one that the reader started from, or one that the message holds.
abbrev pub Known : Segment → Message → Segment → Type 0
Known s m t = (t ≡ s) ⊎ ((i : ℕ) × (m.segs i ≡ some t))

-- A chain of readers that returned: a step that only computes, and one that changes the message.
after_pure :
    {A B G : Type 0} (r : Result A) {m m' : Message} {b : B} (rest : A → Reader B)
    → go_on (r, m) rest ≡ (ok b, m')
    → ((a : A) → r ≡ ok a → rest a m ≡ (ok b, m') → G)
    → G
after_pure (ok a) rest e k = k a refl e
after_pure (err x) rest e k = absurd (cc (ap (λ t. t.0) e))
after_pure (panic x) rest e k = absurd (cc (ap (λ t. t.0) e))

after :
    {A B G : Type 0} (first : Result A × Message) {m' : Message} {b : B} (rest : A → Reader B)
    → go_on first rest ≡ (ok b, m')
    → ((a : A) (m : Message) → first ≡ (ok a, m) → rest a m ≡ (ok b, m') → G)
    → G
after (ok a, m) rest e k = k a m refl e
after (err x, m) rest e k = absurd (cc (ap (λ t. t.0) e))
after (panic x, m) rest e k = absurd (cc (ap (λ t. t.0) e))

ends : {A B : Type 0} {a a' : A} {b b' : B} → ◌≡◌ {A = A × B} (a, b) (a', b') → (a ≡ a') × (b ≡ b')
ends e = (ap (λ t. t.0) e, ap (λ t. t.1) e)

outcome-ok :
    {A : Type 0} (r : Result (A × Message)) (m m' : Message) (a : A)
    → outcome r m ≡ (ok a, m')
    → r ≡ ok (a, m')
outcome-ok (ok (b, m₁)) m m' a e =
    let (value, after) = ends e in ap₂ (λ x y. ok (x, y)) (ok-injective value) after
outcome-ok (err x) m m' a e = absurd (cc (ap (λ t. t.0) e))
outcome-ok (panic x) m m' a e = absurd (cc (ap (λ t. t.0) e))

-- A segment that a lookup gives.
abbrev Looked : Segment → Message → Message → Segment → Type 0
Looked s m m' t = ((t ≡ s) × (m' ≡ m)) ⊎ ((i : ℕ) × (m'.segs i ≡ some t))

lookup-Known :
    (s : Segment) (id : ℕ) (m m' : Message) (t : Segment)
    → lookup_segment s id m ≡ (ok t, m')
    → Looked s m m' t
unfolding lookup_segment
lookup-Known s id m m' t e =
    branch (s.id == id) e
      (λ own r. let (value, after) = ends r in inl (sym (ok-injective value), sym after))
      (λ other r. inr (id, segment_held id t m m' (outcome-ok (segment id m) m m' t r)))

Looked-Known : (s : Segment) (m m' : Message) (t : Segment) → Looked s m m' t → Known s m' t
Looked-Known s m m' t (inl (same, after)) = inl same
Looked-Known s m m' t (inr held) = inr held

relabelled : {A : Type 0} (x : Error) (r : Result A) (a : A) → error_as x r ≡ ok a → r ≡ ok a
relabelled x (ok b) a e = e
relabelled x (err y) a e = absurd (cc e)
relabelled x (panic y) a e = absurd (cc e)

-- A lookup from a segment that an earlier lookup gave.
Looked-Looked :
    (s : Segment) (m m₁ m' : Message) (t u : Segment)
    → Looked s m m₁ t
    → Looked t m₁ m' u
    → Known s m' u
Looked-Looked s m m₁ m' t u (inl (same, after)) (inl (same', after')) = inl (same' ∙ same)
Looked-Looked s m m₁ m' t u (inr (i, held)) (inl (same', after')) = inr (i, rw (after', same') held)
Looked-Looked s m m₁ m' t u first (inr held) = inr held

-- The segment of a landing pad.
abbrev Target : Type 0
Target = Segment × ℕ × ℕ

relabel-ok :
    {A : Type 0} (x : Error) (first : Result A × Message) (a : A) (m : Message)
    → ◌≡◌ {A = Result A × Message} (error_as x first.0, first.1) (ok a, m)
    → first ≡ (ok a, m)
relabel-ok x (r, m₁) a m e =
    let (value, held) = ends e in ap₂ (λ y w. (y, w)) (relabelled x r a value) held

single-Known :
    (s : Segment) (val : ℕ) (m m' : Message) (f : Target)
    → resolve_single_far s val m ≡ (ok f, m')
    → Known s m' f.0
unfolding resolve_single_far
single-Known s val m m' f e = after_pure (far_address val) _ e λ faroff e₁ r₁.
    after (lookup_segment s (far_segment val) m) _ r₁ λ u m₁ e₂ r₂.
      after_pure (region_in_bounds u faroff word_size) _ r₂ λ inside e₃ r₃.
        after_pure (check inside pointer_address) _ r₃ λ x e₄ r₄.
          after_pure (read_raw_pointer u faroff) _ r₄ λ pad e₅ r₅.
            let (value, held) = ends r₅ in
            subst (λ (g : Target). Known s m' g.0) (ok-injective value)
              (subst (λ w. Known s w u) held
                (Looked-Known s m m₁ u (lookup-Known s (far_segment val) m m₁ u e₂)))

double-Known :
    (s : Segment) (val : ℕ) (m m' : Message) (f : Target)
    → resolve_double_far s val m ≡ (ok f, m')
    → Known s m' f.0
unfolding resolve_double_far
double-Known s val m m' f e = after_pure (far_address val) _ e λ faroff e₁ r₁.
    after (lookup_segment s (far_segment val) m) _ r₁ λ t m₁ e₂ r₂.
      after_pure (times word_size (pos 2)) _ r₂ λ size e₃ r₃.
        after_pure (region_in_bounds t faroff size) _ r₃ λ inside e₄ r₄.
          after_pure (check inside pointer_address) _ r₄ λ x e₅ r₅.
            after_pure (read_raw_pointer t faroff) _ r₅ λ far e₆ r₆.
              after_pure (add_size faroff word_size) _ r₆ λ tag_address e₇ r₇.
                after_pure (read_raw_pointer t tag_address) _ r₇ λ tag e₈ r₈.
                  after_pure
                    (check (pointer_type far == far_pointer && is_zero_ℤ (offset tag))
                      pointer_address)
                    _ r₈
                    λ y e₉ r₉.
                      after (relabel bad_landing_pad (lookup_segment t (far_segment far)) m₁) _ r₉
                        λ u m₂ f₁ q₁.
                          after_pure (landing_pad_near_pointer far tag) _ q₁ λ near f₂ q₂.
                            let (value, held) = ends q₂ in
                            subst (λ (g : Target). Known s m' g.0) (ok-injective value)
                              (subst (λ w. Known s w u) held
                                (Looked-Looked s m m₁ m₂ t u
                                  (lookup-Known s (far_segment val) m m₁ t e₂)
                                  (lookup-Known t (far_segment far) m₁ m₂ u (
                                    relabel-ok bad_landing_pad
                                      (lookup_segment t (far_segment far) m₁) u m₂ f₁))))

far-Known :
    (s : Segment) (off val : ℕ) (m m' : Message) (f : Target)
    → resolve_far_pointer s off val m ≡ (ok f, m')
    → Known s m' f.0
unfolding resolve_far_pointer
far-Known s off val m m' f e =
    branch (pointer_type val == double_far_pointer) e (λ double r. double-Known s val m m' f r)
      (λ not r.
        branch (pointer_type val == far_pointer) r (λ single q. single-Known s val m m' f q)
          (λ near q. let (value, held) = ends q in inl (sym (ap (λ t. t.0) (ok-injective value)))))

-- A pointer that `readPtr` returns, through far pointers or not, is an object of the segment that
-- was read or of one that the message holds, and lies inside it: the object's bytes end before the
-- segment does, unless their end is beyond the 32-bit address space or a composite list has a
-- negative count.
pub read_ptr-Inside :
    (s : Segment) (off : ℕ) (m m' : Message) (p : Pointer)
    → read_ptr s off m ≡ (ok p, m')
    → (t : Segment) × (Known s m' t × ObjectInside t p)
unfolding read_ptr
read_ptr-Inside s off m m' p e = after_pure (read_raw_pointer s off) _ e λ val e₁ r₁.
    after (resolve_far_pointer s off val m) _ r₁ λ far m₁ e₂ r₂.
      let (value, held) = ends r₂ in
      (
        far.0,
        (
          subst (λ w. Known s w far.0) held (far-Known s off val m m₁ far e₂),
          near_pointer-Inside far.0 far.1 far.2 value,
        ),
      )
