-- ===== src/Packed/Reader/Raw.antt =====
-- internal/packed/packed.go: the decompressor's states that read a count and copy the words it counts.
use go_capnproto.Packed.Reader.{
  Got, replicate, Source, Decompressor, normal_state, raw_state, Frame, byte_of, raw_step,
  readn_step, enter,
}
use go_capnproto.Prelude.{
  ℕ, ◌+◌, ◌-◌, ◌*◌, ◌≤◌, ◌<◌, min, ◌≡◌, refl, sym, arith, ap, ap₂, ◌∙◌, List, [], ◌∷◌, ◌++◌, length,
  drop, length-append, length-drop, ltb, ◌==◌, false, true, append_assoc,
}
use mathlib.Core.Path.{subst}
use mathlib.Core.Bool.{true≢false}
use go_capnproto.Packed.Format.{head_or}
use go_capnproto.Packed.Stream.{Unpacks}
use go_capnproto.Packed.Reader.Remaining.{
  Part, Reliable, Counted, Idle, in_normal, in_raw, Sized, Advances, advances, no_failure, weight,
  rank, either,
}
use go_capnproto.Packed.Reader.Tags.{read_byte, nothing_kept}
use go_capnproto.Packed.Reader.Flush.{store_lem}

-- Fewer bytes than are copied.
front :
    (bytes more copied rest : List ℕ)
    → bytes ++ more ≡ copied ++ rest
    → length bytes ≤ length copied
    → (copied ≡ bytes ++ drop (length bytes) copied) × (more ≡ drop (length bytes) copied ++ rest)
front [] more copied rest e h = (refl, e)
front (b ∷ bytes) more [] rest e h = absurd (omega arith)
front (b ∷ bytes) more (c ∷ copied) rest e h =
    let (p, q) = front bytes more copied rest (ap (drop 1) e) (omega arith) in
    (ap₂ (λ x xs. x ∷ xs) (sym (ap (head_or 0) e)) p, q)

module _ {S : Type 0} (left : S → List ℕ) (io : Source S) (good : Reliable left io) (all : List ℕ)
    (size : ℕ) where
  -- A frame outside the inner loop, with nothing buffered.
  pub record Outer (f : Frame S) : Type 0 where
    pub sized : Sized f.dec
    pub fits : length f.out + f.room ≡ size
    pub outer : f.in_tags ≡ false
    pub idle : Idle f.dec

  pub kept :
      (dec : Decompressor) (zs : List ℕ)
      → Sized dec
      → Idle dec
      → zs ≡ replicate dec.zeros 0 ++ (drop (8 - dec.bufsz) dec.buf ++ zs)
  kept dec zs sized idle =
      ap₂ (λ z b. replicate z 0 ++ (b ++ zs)) (sym idle.no_zeros)
        (sym (nothing_kept dec.buf dec.bufsz sized.buf_word idle.no_buf))

  raw_done :
      (w : ℕ) (f : Frame S) (rest more : List ℕ)
      → Outer f
      → Unpacks rest more
      → left f.src ≡ rest
      → f.out ++ more ≡ all
      → 3 * (f.room + length (left f.src)) + 2 ≤ w
      → Advances left all size w (enter f normal_state)
  unfolding weight rank
  raw_done w f rest more o u l order small =
      advances _
        (record {
          sized = record {
            buf_word = o.sized.buf_word;
            ff_buf_word = o.sized.ff_buf_word;
            bufsz_bound = o.sized.bufsz_bound;
          };
          to_come = more;
          remaining =
              in_normal refl more (subst (λ l. Unpacks l more) (sym l) u)
                (kept f.dec more o.sized o.idle);
          in_order = order;
          fits = o.fits;
          in_loop = λ e. absurd (true≢false (sym e ∙ o.outer));
        })
        (subst (λ c. 3 * (f.room + length (left f.src)) + rank c normal_state < w) (sym o.outer)
          (omega (arith, small)))

  pub raw_step_lem :
      (w : ℕ) (f : Frame S) (copied rest more : List ℕ)
      → Outer f
      → f.dec.state ≡ raw_state
      → 0 < f.room
      → length copied ≡ f.dec.raw
      → Unpacks rest more
      → left f.src ≡ copied ++ rest
      → f.out ++ (copied ++ more) ≡ all
      → 3 * (f.room + length (left f.src)) + 2 ≤ w
      → Advances left all size w (raw_step io f)
  unfolding raw_step weight rank
  raw_step_lem w f copied rest more o st room n u l order small =
      either left all size w (ltb 0 f.dec.raw)
        (λ some_.
          let p : Part left (left f.src) k got =
            good.read_some f.src k (ground (arith, some_, room))
              (omega (arith, some_bytes some_)) in
          let (c, m) =
            front got.bytes (left got.after) copied rest (p.in_order ∙ l)
              (omega (arith, p.fits, n)) in
          let later : List ℕ = drop (length got.bytes) copied in
          let dec : Decompressor = record f.dec { raw = f.dec.raw - length got.bytes } in
          no_failure left all size w _ _ p.succeeds (
            advances _
              (store_lem (record f { src = got.after }) got.bytes (later ++ more) dec o.fits o.outer
                (ap (λ t. f.out ++ t)
                    (sym (append_assoc got.bytes later more) ∙ ap (λ t. t ++ more) (sym c))
                  ∙ order)
                (omega (arith, p.fits))
                (record {
                  buf_word = o.sized.buf_word;
                  ff_buf_word = o.sized.ff_buf_word;
                  bufsz_bound = o.sized.bufsz_bound;
                })
                (in_raw st (record { no_zeros = o.idle.no_zeros; no_buf = o.idle.no_buf }) later
                  rest more
                  (length-drop (length got.bytes) copied ∙ ap (λ k. k - length got.bytes) n) u m
                  refl))
              (subst
                (λ c.
                  3 * (f.room - length got.bytes + length (left got.after)) + rank c f.dec.state
                  < w)
                (sym o.outer)
                (subst
                  (λ s.
                    3 * (f.room - length got.bytes + length (left got.after)) + rank false s < w)
                  (sym st)
                  (smaller got.bytes (left got.after) (left f.src) f.room w p.some_bytes p.in_order
                    small)))))
        (λ none_.
          let nil : copied ≡ [] = empty copied (ground (arith, n, none_)) in
          raw_done w f rest more o u (l ∙ ap (λ t. t ++ rest) nil)
            (ap (λ t. f.out ++ (t ++ more)) (sym nil) ∙ order) small)
    where
      k : ℕ
      k = min f.room f.dec.raw

      got : Got S
      got = io.read f.src k

      some_bytes : ltb 0 f.dec.raw ≡ true → 0 < length (left f.src)
      some_bytes e = ground (arith, e, n, ap length l, length-append copied rest)

      empty : (xs : List ℕ) → length xs ≡ 0 → xs ≡ []
      empty [] e = refl
      empty (x ∷ xs) e = absurd (omega arith)

      smaller :
          (bytes after before : List ℕ) (room w : ℕ)
          → 0 < length bytes
          → bytes ++ after ≡ before
          → 3 * (room + length before) + 2 ≤ w
          → 3 * (room - length bytes + length after) + 2 < w
      smaller bytes after before room w h e le =
          omega (arith, ap length e, length-append bytes after)

  pub readn_step_lem :
      (w : ℕ) (f : Frame S) (xs ys : List ℕ)
      → Outer f
      → Counted xs ys
      → left f.src ≡ xs
      → f.out ++ ys ≡ all
      → 3 * (f.room + length (left f.src)) ≤ w
      → Advances left all size w (readn_step io f)
  unfolding readn_step weight rank
  readn_step_lem w f xs ys o c l order small =
      let (e, b, a) =
        read_byte left io good f.src c.count f.byte (c.copied ++ c.rest) (l ∙ c.packed) in
      no_failure left all size w _ _ e (
        either left all size w (length (io.read f.src 1).bytes == 0)
          (λ z. absurd (ground (arith, z, ap length b)))
          (λ nz.
            advances _
              (record {
                sized = record {
                  buf_word = o.sized.buf_word;
                  ff_buf_word = o.sized.ff_buf_word;
                  bufsz_bound = o.sized.bufsz_bound;
                };
                to_come = ys;
                remaining =
                    in_raw refl (record { no_zeros = o.idle.no_zeros; no_buf = o.idle.no_buf })
                      c.copied c.rest c.more
                      (c.whole ∙ ap (λ n. n * 8) (sym (ap (byte_of f.byte) b))) c.stream a c.plain;
                in_order = order;
                fits = o.fits;
                in_loop = λ e. absurd (true≢false (sym e ∙ o.outer));
              })
              (subst
                (λ c. 3 * (f.room + length (left (io.read f.src 1).after)) + rank c raw_state < w)
                (sym o.outer)
                (counted (left f.src) (left (io.read f.src 1).after) f.room w (l ∙ c.packed) a
                  small))))
    where
      counted :
          (before after : List ℕ) (room w : ℕ)
          → before ≡ c.count ∷ (c.copied ++ c.rest)
          → after ≡ c.copied ++ c.rest
          → 3 * (room + length before) ≤ w
          → 3 * (room + length after) + 2 < w
      counted before after room w l a h = omega (arith, ap length l, ap length a)
