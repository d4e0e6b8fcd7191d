-- ===== src/Packed/Reader/Unpacked.antt =====
-- internal/packed/packed.go: the decompressor's state behind a tag of 0xff, which loads a word.
use go_capnproto.Prelude.{
  inl, Bool-cases, leb→le, ltb→lt, ℕ, zero, suc, ◌+◌, ◌-◌, ◌*◌, ◌≤◌, ◌<◌, min, ◌≡◌, refl, sym,
  arith, ap, ap₂, ◌∙◌, List, [], ◌∷◌, ◌++◌, length, take, drop, length-append, length-drop,
  length-take, ltb, leb, ◌==◌, false, append_assoc, copy, copy_at, length-copy_at, take_all,
  take-append, drop-append, if◌then◌else◌, inr,
}
use mathlib.Core.Path.{subst}
use mathlib.Core.Bool.{true≢false}
use go_capnproto.Packed.Reader.{
  Source, Got, Decompressor, post_ff_state, readn_state, Frame, Progress, post_ff_step, load_step,
  give, enter,
}
use go_capnproto.Packed.Reader.Remaining.{
  Full, Reliable, Counted, Idle, in_post_ff, in_readn, Sized, Reading, Advances, advances,
  no_failure, weight, rank, either, stored_fits,
}
use go_capnproto.Packed.Reader.Flush.{drop_more}

pub copy_whole : (xs ys : List ℕ) → length xs ≡ length ys → copy xs ys ≡ ys
copy_whole [] [] h = refl
copy_whole [] (y ∷ ys) h = absurd (omega arith)
copy_whole (x ∷ xs) [] h = absurd (omega arith)
copy_whole (x ∷ xs) (y ∷ ys) h = ap (λ t. y ∷ t) (copy_whole xs ys (omega arith))

-- The word is complete, and `k` bytes of what there was before are not given yet.
filled :
    (buf w : List ℕ) (l u k : ℕ)
    → k + u ≡ l
    → l + length w ≡ length buf
    → drop u (copy_at buf l w) ≡ take k (drop u buf) ++ w
filled buf w zero zero zero e h = copy_whole buf w (omega arith)
filled buf w zero zero (suc k) e h = absurd (omega arith)
filled buf w zero (suc u) k e h = absurd (omega arith)
filled [] w (suc l) u k e h = absurd (omega arith)
filled (b ∷ buf) w (suc l) zero zero e h = absurd (omega arith)
filled (b ∷ buf) w (suc l) zero (suc k) e h =
    ap (λ t. b ∷ t) (filled buf w l zero k (omega arith) (omega arith))
filled (b ∷ buf) w (suc l) (suc u) k e h = filled buf w l u k (omega arith) (omega arith)

pub take_more : (j k : ℕ) (xs : List ℕ) → take (j + k) xs ≡ take j xs ++ take k (drop j xs)
take_more zero k xs = ap (λ n. take n xs) {x = 0 + k} {y = k} (omega arith)
take_more (suc j) k [] = none_left (suc j + k) ∙ sym (none_left k)
  where
    none_left : (n : ℕ) → take {A = ℕ} n [] ≡ []
    none_left zero = refl
    none_left (suc n) = refl
take_more (suc j) k (x ∷ xs) =
    ap (λ n. take n (x ∷ xs)) {x = suc j + k} {y = suc (j + k)} (omega arith)
    ∙ ap (λ t. x ∷ t) (take_more j k xs)

module _ {S : Type 0} (left : S → List ℕ) (io : Source S) (good : Reliable left io) (all : List ℕ)
    (size : ℕ) where
  -- A frame behind a tag of 0xff, whose word and count are not read in full.
  pub record Loading (f : Frame S) : Type 0 where
    pub sized : Sized f.dec
    pub fits : length f.out + f.room ≡ size
    pub outer : f.in_tags ≡ false
    pub state : f.dec.state ≡ post_ff_state
    pub idle : Idle f.dec
    pub used : f.dec.ff_buf_used_count ≤ f.dec.ff_buf_load_count
    pub word : List ℕ
    pub cs : List ℕ
    pub zs : List ℕ
    pub rest : length word + f.dec.ff_buf_load_count ≡ 8
    pub counted : Counted cs zs
    pub packed : left f.src ≡ word ++ cs
    pub in_order :
        f.out
          ++ (take
                (f.dec.ff_buf_load_count - f.dec.ff_buf_used_count)
                (drop f.dec.ff_buf_used_count f.dec.ff_buf)
              ++ (word ++ zs))
        ≡ all

  Loading-Reading : (f : Frame S) → Loading f → Reading left all size f
  Loading-Reading f l = record {
    sized = l.sized;
    to_come =
        take (f.dec.ff_buf_load_count - f.dec.ff_buf_used_count)
          (drop f.dec.ff_buf_used_count f.dec.ff_buf)
        ++ (l.word ++ l.zs);
    remaining = in_post_ff l.state l.idle l.used l.word l.cs l.zs l.rest l.counted l.packed refl;
    in_order = l.in_order;
    fits = l.fits;
    in_loop = λ e. absurd (true≢false (sym e ∙ l.outer));
  }

  lighter :
      (w b : ℕ) (f : Frame S)
      → f.in_tags ≡ false
      → f.dec.state ≡ post_ff_state
      → b + 1 < w
      → b + rank f.in_tags f.dec.state < w
  unfolding rank
  lighter w b f o s h =
      subst (λ c. b + rank c f.dec.state < w) (sym o) (subst (λ s. b + rank false s < w) (sym s) h)

  -- The whole word is given out.
  word_done :
      (w : ℕ) (f : Frame S)
      → Loading f
      → 8 ≤ f.dec.ff_buf_used_count
      → 3 * (f.room + length (left f.src)) + 1 ≤ w
      → Advances left all size w (enter f readn_state)
  unfolding weight rank
  word_done w f l done small =
      let nil : l.word ≡ [] = empty l.word (omega (arith, l.rest, l.used, done)) in
      let none_left : f.dec.ff_buf_load_count - f.dec.ff_buf_used_count ≡ 0 =
        omega (arith, l.rest, l.used, done) in
      advances _
        (record {
          sized = record {
            buf_word = l.sized.buf_word;
            ff_buf_word = l.sized.ff_buf_word;
            bufsz_bound = l.sized.bufsz_bound;
          };
          to_come = l.zs;
          remaining =
              in_readn refl (record { no_zeros = l.idle.no_zeros; no_buf = l.idle.no_buf })
                (subst (λ x. Counted x l.zs) (ap (λ t. t ++ l.cs) (sym nil) ∙ sym l.packed)
                  l.counted);
          in_order =
              ap₂
                (λ n t.
                  f.out ++ (take n (drop f.dec.ff_buf_used_count f.dec.ff_buf) ++ (t ++ l.zs)))
                (sym none_left) (sym nil)
              ∙ l.in_order;
          fits = l.fits;
          in_loop = λ e. absurd (true≢false (sym e ∙ l.outer));
        })
        (subst (λ c. 3 * (f.room + length (left f.src)) + rank c readn_state < w) (sym l.outer)
          (omega (arith, small)))
    where
      empty : (xs : List ℕ) → length xs ≡ 0 → xs ≡ []
      empty [] e = refl
      empty (x ∷ xs) e = absurd (omega arith)

  load_lem :
      (w : ℕ) (f : Frame S)
      → Loading f
      → (f.dec.ff_buf_load_count ≡ 8 → 3 * (f.room + length (left f.src)) + 1 < w)
      → 3 * (f.room + length (left f.src)) + 1 ≤ w
      → Advances left all size w (load_step io f)
  unfolding load_step weight
  load_lem w f l loaded small =
      either left all size w (ltb n 8)
        (λ some_.
          either left all size w (length got.bytes == 0)
            (λ z. absurd (ground (arith, z, some_, l.rest, ap length word)))
            (λ nz. no_failure left all size w _ _ full.succeeds (
              advances _
                (Loading-Reading (record f { src = got.after; dec = dec })
                  (record {
                    sized = record {
                      buf_word = l.sized.buf_word;
                      ff_buf_word = length-copy_at f.dec.ff_buf n got.bytes ∙ l.sized.ff_buf_word;
                      bufsz_bound = l.sized.bufsz_bound;
                    };
                    fits = l.fits;
                    outer = l.outer;
                    state = l.state;
                    idle = record { no_zeros = l.idle.no_zeros; no_buf = l.idle.no_buf };
                    used = omega (arith, l.used);
                    word = [];
                    cs = l.cs;
                    zs = l.zs;
                    rest = omega (arith, l.rest, ap length word);
                    counted = l.counted;
                    packed = full.in_order ∙ ap₂ drop missing l.packed ∙ drop-append l.word l.cs;
                    in_order = ap (λ t. f.out ++ t) order ∙ l.in_order;
                  }))
                (lighter w (3 * (f.room + length (left got.after))) f l.outer l.state
                  (fewer (ltb→lt n 8 some_))))))
        (λ full_. advances _ (Loading-Reading f l) (
          lighter w (3 * (f.room + length (left f.src))) f l.outer l.state
            (loaded (ground (arith, full_, l.rest)))))
    where
      n : ℕ
      n = f.dec.ff_buf_load_count

      u : ℕ
      u = f.dec.ff_buf_used_count

      got : Got S
      got = io.read_full f.src (8 - n)

      full : Full left (left f.src) (8 - n) got
      full =
          good.read_full f.src (8 - n)
            (omega (arith, l.rest, ap length l.packed, length-append l.word l.cs))

      missing : 8 - n ≡ length l.word
      missing = omega (arith, l.rest)

      word : got.bytes ≡ l.word
      word = full.all_bytes ∙ ap₂ take missing l.packed ∙ take-append l.word l.cs

      dec : Decompressor
      dec = record f.dec {
        ff_buf = copy_at f.dec.ff_buf n got.bytes;
        ff_buf_load_count = n + length got.bytes;
      }

      order :
          take (n + length got.bytes - u) (drop u (copy_at f.dec.ff_buf n got.bytes)) ++ l.zs
          ≡ take (n - u) (drop u f.dec.ff_buf) ++ (l.word ++ l.zs)
      order =
          ap (λ t. t ++ l.zs)
            (take_all (drop u (copy_at f.dec.ff_buf n got.bytes)) (n + length got.bytes - u) (
                omega (
                  arith,
                  length-drop u (copy_at f.dec.ff_buf n got.bytes),
                  length-copy_at f.dec.ff_buf n got.bytes,
                  l.sized.ff_buf_word,
                  l.rest,
                  ap length word,
                ))
              ∙ filled f.dec.ff_buf got.bytes n u (n - u) (omega (arith, l.used))
                  (omega (arith, l.sized.ff_buf_word, l.rest, ap length word))
              ∙ ap (λ t. take (n - u) (drop u f.dec.ff_buf) ++ t) word)
          ∙ append_assoc (take (n - u) (drop u f.dec.ff_buf)) l.word l.zs

      fewer : n < 8 → 3 * (f.room + length (left got.after)) + 1 < w
      fewer h = omega (
        arith,
        h,
        small,
        l.rest,
        ap length l.packed,
        length-append l.word l.cs,
        ap length (full.in_order ∙ ap₂ drop missing l.packed ∙ drop-append l.word l.cs),
      )

  give_lem : (f : Frame S) → Loading f → Loading (give io f)
  give_lem f l = record {
    sized = record {
      buf_word = l.sized.buf_word;
      ff_buf_word = l.sized.ff_buf_word;
      bufsz_bound = l.sized.bufsz_bound;
    };
    fits =
        stored_fits f.out (take k (drop u f.dec.ff_buf)) f.room size l.fits
          (omega (arith, length-take k (drop u f.dec.ff_buf)));
    outer = l.outer;
    state = l.state;
    idle = record { no_zeros = l.idle.no_zeros; no_buf = l.idle.no_buf };
    used = omega (arith, l.used);
    word = l.word;
    cs = l.cs;
    zs = l.zs;
    rest = l.rest;
    counted = l.counted;
    packed = l.packed;
    in_order =
        append_assoc f.out (take k (drop u f.dec.ff_buf))
          (take (n - (u + k)) (drop (u + k) f.dec.ff_buf) ++ (l.word ++ l.zs))
        ∙ ap (λ t. f.out ++ t)
            (sym (
                append_assoc (take k (drop u f.dec.ff_buf))
                  (take (n - (u + k)) (drop (u + k) f.dec.ff_buf)) (l.word ++ l.zs))
              ∙ ap (λ t. t ++ (l.word ++ l.zs)) (sym parts))
        ∙ l.in_order;
  }
    where
      n : ℕ
      n = f.dec.ff_buf_load_count

      u : ℕ
      u = f.dec.ff_buf_used_count

      k : ℕ
      k = min f.room (n - u)

      parts :
          take (n - u) (drop u f.dec.ff_buf)
          ≡ take k (drop u f.dec.ff_buf) ++ take (n - (u + k)) (drop (u + k) f.dec.ff_buf)
      parts =
          ap (λ j. take j (drop u f.dec.ff_buf)) {x = n - u} {y = k + (n - (u + k))} (omega arith)
          ∙ take_more k (n - (u + k)) (drop u f.dec.ff_buf)
          ∙ ap (λ t. take k (drop u f.dec.ff_buf) ++ take (n - (u + k)) t)
              (drop_more f.dec.ff_buf u k)

  abbrev finish : Frame S → Frame S → Progress S
  finish f g =
      if leb 8 f.dec.ff_buf_used_count
      then enter f readn_state
      else if leb 8 g.dec.ff_buf_used_count
      then enter g readn_state
      else load_step io g

  post_ff_step_given :
      (w : ℕ) (f : Frame S)
      → Loading f
      → 0 < f.room
      → f.dec.ff_buf_used_count < f.dec.ff_buf_load_count
      → 3 * (f.room + length (left f.src)) + 1 ≤ w
      → Advances left all size w (finish f (give io f))
  post_ff_step_given w f l room lt small =
      either left all size w (leb 8 f.dec.ff_buf_used_count)
        (λ done. absurd (ground (arith, done, lt, l.rest)))
        (λ _.
          either left all size w (leb 8 (give io f).dec.ff_buf_used_count)
            (λ done.
              word_done w (give io f) (give_lem f l)
                (leb→le 8 (give io f).dec.ff_buf_used_count done) (omega (arith, small)))
            (λ _.
              load_lem w (give io f) (give_lem f l)
                (λ _. omega (
                  arith,
                  small,
                  room,
                  lt,
                  l.sized.ff_buf_word,
                  l.rest,
                  length-take (min f.room (f.dec.ff_buf_load_count - f.dec.ff_buf_used_count))
                      (drop f.dec.ff_buf_used_count f.dec.ff_buf),
                  length-drop f.dec.ff_buf_used_count f.dec.ff_buf,
                ))
                (omega (arith, small))))

  post_ff_step_kept :
      (w : ℕ) (f : Frame S)
      → Loading f
      → f.dec.ff_buf_load_count ≤ f.dec.ff_buf_used_count
      → 3 * (f.room + length (left f.src)) + 1 ≤ w
      → Advances left all size w (finish f f)
  post_ff_step_kept w f l ge small =
      either left all size w (leb 8 f.dec.ff_buf_used_count)
        (λ done. word_done w f l (leb→le 8 f.dec.ff_buf_used_count done) small)
        (λ more.
          either left all size w (leb 8 f.dec.ff_buf_used_count)
            (λ done. word_done w f l (leb→le 8 f.dec.ff_buf_used_count done) small)
            (λ _. load_lem w f l (λ h. absurd (ground (arith, more, ge, h))) small))

  pub post_ff_step_lem :
      (w : ℕ) (f : Frame S)
      → Loading f
      → 0 < f.room
      → 3 * (f.room + length (left f.src)) + 1 ≤ w
      → Advances left all size w (post_ff_step io f)
  unfolding post_ff_step
  post_ff_step_lem w f l room small =
      elim (Bool-cases (ltb f.dec.ff_buf_used_count f.dec.ff_buf_load_count)) [
        | inl e ↦
            subst (λ c. Advances left all size w (finish f (if c then give io f else f))) (sym e)
              (post_ff_step_given w f l room
                (ltb→lt f.dec.ff_buf_used_count f.dec.ff_buf_load_count e) small)
        | inr e ↦
            subst (λ c. Advances left all size w (finish f (if c then give io f else f))) (sym e)
              (post_ff_step_kept w f l (ground (arith, e)) small)
      ]
