-- ===== src/Message/Load.antt =====
-- mem.go: `Message.Segment` gives a segment of the table.
use go_capnproto.Prelude.{ℕ, ◌≡◌, refl, ap, ◌∙◌, Option, none, some, Result, ok, err, panic, leb}
use mathlib.Core.Path.{subst}
use go_capnproto.Prelude.{branch, ok-injective}
use go_capnproto.Message.Pick.{update_self}
use go_capnproto.Segment.{Segment}
use go_capnproto.Message.{
  Buffer, Message, segment, set_segment, segment_of, segment_or_load, read_segment, arena_data,
  num_segments,
}

abbrev Held : ℕ → Segment → Result (Segment × Message) → Type 0
Held id t r = (m' : Message) → r ≡ ok (t, m') → m'.segs id ≡ some t

ok-pair :
    {A B : Type 0} {a a' : A} {b b' : B}
    → ◌≡◌ {A = Result (A × B)} (ok (a, b)) (ok (a', b'))
    → (a ≡ a') × (b ≡ b')
ok-pair e = let same = ok-injective e in (ap (λ t. t.0) same, ap (λ t. t.1) same)

read_into :
    (id : ℕ) (t : Segment) (r : Result Buffer) (m : Message) → Held id t (read_segment id r m)
unfolding set_segment
read_into id t (ok b) m m' e =
    let (same, after) = ok-pair e in
    subst (λ w. w.segs id ≡ some t) after (update_self m.segs id (segment_of id b) ∙ ap some same)
read_into id t (err x) m m' e = absurd (cc e)
read_into id t (panic x) m m' e = absurd (cc e)

load_into :
    (id : ℕ) (t : Segment) (o : Option Segment) (m : Message)
    → m.segs id ≡ o
    → Held id t (segment_or_load id o m)
unfolding segment_or_load
load_into id t (some s) m held m' e =
    let (same, after) = ok-pair e in subst (λ w. w.segs id ≡ some t) after (held ∙ ap some same)
load_into id t none m held m' e =
    branch (leb (num_segments m.arena) id) e (λ beyond r. absurd (cc r))
      (λ within r. read_into id t (arena_data m.arena id) m m' r)

pub segment_held :
    (id : ℕ) (t : Segment) (m m' : Message) → segment id m ≡ ok (t, m') → m'.segs id ≡ some t
unfolding segment
segment_held id t m m' e = load_into id t (m.segs id) m refl m' e

-- A segment that is loaded is found, and the message stays as it is.
pub segment_loaded :
    (id : ℕ) (m : Message) (s : Segment) → m.segs id ≡ some s → segment id m ≡ ok (s, m)
unfolding segment segment_or_load
segment_loaded id m s e = ap (λ o. segment_or_load id o m) e
