-- ===== src/Packed/Reader/Total.antt =====
-- internal/packed/packed.go: `Read` gives the bytes that the packed stream stands for.
use go_capnproto.Packed.Stream.{Unpacks}
use go_capnproto.Packed.{pack}
use go_capnproto.Packed.Conform.{pack-Unpacks}
use go_capnproto.Packed.Reader.{
  new_reader, DecompressorState, Decompressor, raw_state, readn_state, post_ff_state, suc, tag_step,
  again, stop, rounds, step, read, Error, Option, Progress, normal_state, Source, Frame, by_state,
}
use go_capnproto.Prelude.{
  ok, ok-injective, take, take-append, take_all, sym, ◌∙◌, ap₂, ◌%◌, zero, suc, ◌⊎◌, ◌≢◌, refl,
  arith, [], ap, length, ◌==◌, ==_iff, inr, if◌then◌else◌, some, none, inl, Bool-cases, ℕ, ◌+◌, ◌*◌,
  ◌≤◌, ◌<◌, ◌≡◌, List, ◌++◌, false,
}
use go_capnproto.Packed.Reader.Remaining.{
  Sized, Ended, full, Advances, advances, ends, weight, either, Reading, rank, finished, Idle,
  Reliable, Remaining, in_normal, in_post_ff, in_readn, in_raw,
}
use go_capnproto.Packed.Reader.Tags.{tag_step_lem}
use go_capnproto.Packed.Reader.Raw.{kept, raw_step_lem, readn_step_lem}
use mathlib.Core.Path.{subst}
use mathlib.Core.Bool.{true≢false}
use go_capnproto.Packed.Reader.Flush.{flush_lem}
use go_capnproto.Packed.Reader.Unpacked.{post_ff_step_lem}

module _ {S : Type 0} (left : S → List ℕ) (io : Source S) (good : Reliable left io) (all : List ℕ)
    (size : ℕ) where
  in_state :
      (w : ℕ) (f : Frame S) (ys : List ℕ)
      → Reading left all size f
      → f.in_tags ≡ false
      → 0 < f.room
      → Remaining f.dec (left f.src) ys
      → f.out ++ ys ≡ all
      → 3 * (f.room + length (left f.src)) + rank false f.dec.state ≤ w
      → Advances left all size w (by_state io f.dec.state f)
  unfolding by_state rank
  in_state w f ys r out room (in_normal st zs u e) order small =
      subst (λ s. Advances left all size w (by_state io s f)) (sym st)
        (flush_lem left all size w f
          (record {
            reading = r;
            outer = out;
            has_room = room;
            normal = st;
            zs = zs;
            stream = u;
            in_order = ap (λ t. f.out ++ t) (sym e) ∙ order;
          })
          (subst (λ s. 3 * (f.room + length (left f.src)) + rank false s ≤ w) st small))
  in_state w f ys r out room (in_post_ff st idle used word cs zs rest c l e) order small =
      subst (λ s. Advances left all size w (by_state io s f)) (sym st)
        (post_ff_step_lem left io good all size w f
          (record {
            sized = r.sized;
            fits = r.fits;
            outer = out;
            state = st;
            idle = idle;
            used = used;
            word = word;
            cs = cs;
            zs = zs;
            rest = rest;
            counted = c;
            packed = l;
            in_order = ap (λ t. f.out ++ t) (sym e) ∙ order;
          })
          room (subst (λ s. 3 * (f.room + length (left f.src)) + rank false s ≤ w) st small))
  in_state w f ys r out room (in_readn st idle c) order small =
      subst (λ s. Advances left all size w (by_state io s f)) (sym st)
        (readn_step_lem left io good all size w f (left f.src) ys
          (record { sized = r.sized; fits = r.fits; outer = out; idle = idle }) c refl order
          (omega (arith, small)))
  in_state w f ys r out room (in_raw st idle copied rest more n u l e) order small =
      subst (λ s. Advances left all size w (by_state io s f)) (sym st)
        (raw_step_lem left io good all size w f copied rest more
          (record { sized = r.sized; fits = r.fits; outer = out; idle = idle }) st room n u l
          (ap (λ t. f.out ++ t) (sym e) ∙ order)
          (subst (λ s. 3 * (f.room + length (left f.src)) + rank false s ≤ w) st small))

  abbrev outer_step : Frame S → Progress S
  outer_step f = if f.room == 0 then stop f none else by_state io f.dec.state f

  in_tag :
      (f : Frame S) (ys : List ℕ)
      → Reading left all size f
      → 0 < f.room
      → f.dec.state ≡ normal_state
      → Idle f.dec
      → Remaining f.dec (left f.src) ys
      → f.out ++ ys ≡ all
      → Advances left all size (3 * (f.room + length (left f.src)) + 0) (tag_step io f)
  in_tag f ys r room st idle (in_normal _ zs u e) order =
      tag_step_lem left io good all size (3 * (f.room + length (left f.src)) + 0) f (left f.src) zs
        (record { sized = r.sized; fits = r.fits; has_room = room; normal = st; idle = idle }) u
        refl
        (ap (λ t. f.out ++ t) (kept left io good all size f.dec zs r.sized idle ∙ sym e) ∙ order)
        (omega arith)
  in_tag f ys r room st idle (in_post_ff s _ _ _ _ _ _ _ _ _) order = absurd (clash (sym st ∙ s))
    where
      clash : normal_state ≡ post_ff_state → ⊥
      clash e = ground (arith, e)
  in_tag f ys r room st idle (in_readn s _ _) order = absurd (clash (sym st ∙ s))
    where
      clash : normal_state ≡ readn_state → ⊥
      clash e = ground (arith, e)
  in_tag f ys r room st idle (in_raw s _ _ _ _ _ _ _ _) order = absurd (clash (sym st ∙ s))
    where
      clash : normal_state ≡ raw_state → ⊥
      clash e = ground (arith, e)

  step_lem :
      (f : Frame S)
      → Reading left all size f
      → Advances left all size (weight left all size f) (step io f)
  unfolding step weight rank
  step_lem f r = elim (Bool-cases f.in_tags) [
    | inl e ↦
        let (room, st, idle) = r.in_loop e in
        subst
          (λ c.
            Advances left all size (3 * (f.room + length (left f.src)) + rank c f.dec.state)
              (if c then tag_step io f else outer_step f))
          (sym e) (in_tag f r.to_come r room st idle r.remaining r.in_order)
    | inr e ↦
        subst
          (λ c.
            Advances left all size (3 * (f.room + length (left f.src)) + rank c f.dec.state)
              (if c then tag_step io f else outer_step f))
          (sym e)
          (either left all size (3 * (f.room + length (left f.src)) + rank false f.dec.state)
            (f.room == 0) (λ z. ends f none r (full refl ((==_iff f.room 0).0 z)))
            (λ nz.
              in_state (3 * (f.room + length (left f.src)) + rank false f.dec.state) f r.to_come r e
                (ground (arith, nz)) r.remaining r.in_order (omega arith)))
  ]

  -- What the loop gives, with rounds enough.
  pub record Finishes (result : Option (Frame S × Option Error)) : Type 0 where
    pub frame : Frame S
    pub error : Option Error
    pub returns : result ≡ some (frame, error)
    pub reading : Reading left all size frame
    pub ended : Ended left all size frame error

  after_round : ℕ → Progress S → Option (Frame S × Option Error)
  after_round n (again g) = rounds io n g
  after_round n (stop g e) = some (g, e)

  finish_round :
      (n w : ℕ) (p : Progress S)
      → ((g : Frame S)
          → Reading left all size g
          → weight left all size g < n
          → Finishes (rounds io n g))
      → w ≤ n
      → Advances left all size w p
      → Finishes (after_round n p)
  unfolding after_round
  finish_round n w p more h (advances g r lt) = more g r (omega (arith, lt, h))
  finish_round n w p more h (ends g e r end) = record {
    frame = g;
    error = e;
    returns = refl;
    reading = r;
    ended = end;
  }

  same :
      (n : ℕ) (p : Progress S)
      → after_round n p ≡ elim p [ again g ↦ rounds io n g | stop g e ↦ some (g, e) ]
  unfolding after_round
  same n (again g) = refl
  same n (stop g e) = refl

  pub rounds_lem :
      (n : ℕ) (f : Frame S)
      → Reading left all size f
      → weight left all size f < n
      → Finishes (rounds io n f)
  unfolding rounds after_round
  rounds_lem zero f r h = absurd (omega arith)
  rounds_lem (suc n) f r h = subst Finishes (same n (step io f)) (
      finish_round n (weight left all size f) (step io f) (λ g r k. rounds_lem n g r k)
        (omega (arith, h)) (step_lem f r))

-- What a `Read` of `size` bytes promises, when `ys` is still to come.
pub record Delivers {S : Type 0} (left : S → List ℕ) (size : ℕ) (ys : List ℕ)
    (result : Option (Frame S × Option Error)) : Type 0 where
  pub frame : Frame S
  pub error : Option Error
  pub to_come : List ℕ
  pub returns : result ≡ some (frame, error)
  pub in_order : frame.out ++ to_come ≡ ys
  pub sized : Sized frame.dec
  pub remaining : Remaining frame.dec (left frame.src) to_come
  pub full_or_end :
      ((error ≡ none) × (length frame.out ≡ size)) ⊎ ((error ≢ none) × (frame.out ≡ ys))

-- With a reader below that gives what is left in order, and rounds enough for the bytes that are
-- asked for and left below, `Read` returns. It gives the next bytes that the packed stream stands
-- for: as many as were asked for and no error, or all that were still to come and an error. The
-- decompressor then stands for the bytes behind those.
pub read-Delivers :
    {S : Type 0} (left : S → List ℕ) (io : Source S) (dec : Decompressor) (src : S) (ys : List ℕ)
    (n size : ℕ)
    → Reliable left io
    → Sized dec
    → Remaining dec (left src) ys
    → 3 * (size + length (left src)) + 2 < n
    → Delivers left size ys (read io n dec src size)
unfolding read weight rank
read-Delivers {S} left io dec src ys n size good sized rem enough =
    let r : Finishes left io good ys size (rounds io n start) =
      rounds_lem left io good ys size n start
        (record {
          sized = sized;
          to_come = ys;
          remaining = rem;
          in_order = refl;
          fits = omega arith;
          in_loop = λ e. absurd (true≢false (sym e));
        })
        (rank_small dec.state (3 * (size + length (left src))) n enough) in
    record {
      frame = r.frame;
      error = r.error;
      to_come = r.reading.to_come;
      returns = r.returns;
      in_order = r.reading.in_order;
      sized = r.reading.sized;
      remaining = r.reading.remaining;
      full_or_end = how r.frame r.error r.reading.fits r.ended;
    }
  where
    start : Frame S
    start = record { dec = dec; src = src; room = size; out = []; byte = 0; in_tags = false }

    rank_small : (s : DecompressorState) (b n : ℕ) → b + 2 < n → b + rank false s < n
    rank_small normal_state b n h = omega (arith, h)
    rank_small post_ff_state b n h = omega (arith, h)
    rank_small readn_state b n h = omega (arith, h)
    rank_small raw_state b n h = omega (arith, h)

    how :
        (f : Frame S) (e : Option Error)
        → length f.out + f.room ≡ size
        → Ended left ys size f e
        → ((e ≡ none) × (length f.out ≡ size)) ⊎ ((e ≢ none) × (f.out ≡ ys))
    how f e fits (full h z) = inl (h, omega (arith, fits, z))
    how f e fits (finished err h all) = inr ((λ z. absurd (ground (arith, z, h))), all)

-- A decompressor that was made by NewReader has all of the stream to come.
pub new_reader-Remaining : (xs ys : List ℕ) → Unpacks xs ys → Remaining new_reader xs ys
unfolding new_reader
new_reader-Remaining xs ys u = in_normal refl ys u refl

pub new_reader-Sized : Sized new_reader
unfolding new_reader
new_reader-Sized = record { buf_word = refl; ff_buf_word = refl; bufsz_bound = omega arith }

-- With a reader below that gives the bytes that `Pack` wrote for whole words in order, and rounds
-- enough, a `Read` from a new decompressor of as many bytes as were packed returns them.
pub pack-read :
    {S : Type 0} (left : S → List ℕ) (io : Source S) (src : S) (plain : List ℕ) (n : ℕ)
    → Reliable left io
    → length plain % 8 ≡ 0
    → pack [] plain ≡ ok (left src)
    → 3 * (length plain + length (left src)) + 2 < n
    → (f : Frame S) × (e : Option Error) × (read io n new_reader src (length plain) ≡ some (f, e))
      × (f.out ≡ plain)
pack-read left io src plain n good whole packed enough =
    let (out, wrote, u) = pack-Unpacks [] plain whole in
    let same : out ≡ left src = ok-injective (sym wrote ∙ packed) in
    let d =
      read-Delivers left io new_reader src plain n (length plain) good new_reader-Sized
        (new_reader-Remaining (left src) plain (subst (λ l. Unpacks l plain) same u)) enough in
    (d.frame, d.error, d.returns, whole_read d.frame.out d.to_come d.error d.in_order d.full_or_end)
  where
    whole_read :
        (out more : List ℕ) (e : Option Error)
        → out ++ more ≡ plain
        → ((e ≡ none) × (length out ≡ length plain)) ⊎ ((e ≢ none) × (out ≡ plain))
        → out ≡ plain
    whole_read out more e order (inl (_, h)) =
        sym (take-append out more) ∙ ap₂ take h order ∙ take_all plain (length plain) (omega arith)
    whole_read out more e order (inr (_, h)) = h
