-- ===== src/Packed/Reader/Tags.antt =====
-- internal/packed/packed.go: the inner loop of the decompressor's normal state, which reads tags.
use go_capnproto.Prelude.{
  ==_iff, append_assoc, ap₂, ℕ, ◌+◌, ◌-◌, ◌*◌, ◌≤◌, ◌<◌, min, ◌≡◌, refl, sym, arith, ap, ◌∙◌, List,
  [], ◌∷◌, ◌++◌, length, drop, replicate, length-replicate, false, none, take, append-nil,
  length-append, length-take, take-append, drop-append, take-append-drop, ◌==◌, if◌then◌else◌,
}
use go_capnproto.Packed.Reader.Remaining.{
  either, Full, Counted, in_post_ff, advances, failure, weight, rank, Part, Reliable, Idle,
  Remaining, in_normal, Sized, Advances, no_failure,
}
use go_capnproto.Packed.Format.{spread, head_or}
use go_capnproto.Prelude.Bit.{digit}
use go_capnproto.Packed.Stream.{nothing, zero_run, plain_word, raw_run, ones, Unpacks}
use go_capnproto.Packed.Reader.{
  Progress, tag_step, word_tag, unpacked_tag, count_ones, place_bytes, Source, Got, Decompressor,
  normal_state, Frame, next_tag, store, byte_of, zero_tag,
}
use go_capnproto.Packed.Reader.Word.{count_ones_lem, place_bytes_lem, length-spread}
use mathlib.Core.Path.{subst}
use mathlib.Core.Bool.{true≢false}
use go_capnproto.Packed.Reader.Flush.{next_tag_lem, store_lem, replicate_more}

-- A read of one byte gives the first that is left.
pub one_byte :
    {S : Type 0} (left : S → List ℕ) (t : ℕ) (xs : List ℕ) (got : Got S)
    → Part left (t ∷ xs) 1 got
    → (got.bytes ≡ t ∷ []) × (left got.after ≡ xs)
one_byte left t xs got p = alone got.bytes (left got.after) p.some_bytes p.fits p.in_order
  where
    alone :
        (bytes more : List ℕ)
        → 0 < length bytes
        → length bytes ≤ 1
        → bytes ++ more ≡ t ∷ xs
        → (bytes ≡ t ∷ []) × (more ≡ xs)
    alone [] more h k e = absurd (omega arith)
    alone (b ∷ []) more h k e = (ap (λ z. head_or 0 z ∷ []) e, ap (drop 1) e)
    alone (b ∷ (c ∷ bs)) more h k e = absurd (omega arith)

-- Nothing of a word is kept.
pub nothing_kept : (buf : List ℕ) (n : ℕ) → length buf ≡ 8 → n ≡ 0 → drop (8 - n) buf ≡ []
nothing_kept buf n h z = ap (λ k. drop (8 - k) buf) z ∙ ap (λ k. drop k buf) (sym h) ∙ dropped buf
  where
    dropped : (xs : List ℕ) → drop (length xs) xs ≡ []
    dropped [] = refl
    dropped (x ∷ xs) = dropped xs

module _ {S : Type 0} (left : S → List ℕ) (io : Source S) (good : Reliable left io) where
  -- The next byte, read into `b`.
  pub read_byte :
      (s : S) (t old : ℕ) (xs : List ℕ)
      → left s ≡ t ∷ xs
      → ((io.read s 1).error ≡ none)
        × ((io.read s 1).bytes ≡ t ∷ [])
        × (left (io.read s 1).after ≡ xs)
  read_byte s t old xs e =
      let p : Part left (t ∷ xs) 1 (io.read s 1) =
        subst (λ l. Part left l 1 (io.read s 1)) e
          (good.read_some s 1 (omega arith)
            (subst (λ (l : List ℕ). 0 < length l) (sym e) (omega arith))) in
      let (b, a) = one_byte left t xs (io.read s 1) p in (p.succeeds, b, a)

module _ {S : Type 0} (left : S → List ℕ) (io : Source S) (good : Reliable left io) (all : List ℕ)
    (size : ℕ) where
  -- A frame of the inner loop.
  pub record Tagging (f : Frame S) : Type 0 where
    pub sized : Sized f.dec
    pub fits : length f.out + f.room ≡ size
    pub has_room : 0 < f.room
    pub normal : f.dec.state ≡ normal_state
    pub idle : Idle f.dec

  -- The words that are read are stored as far as there is room; the rest is kept.
  read_lem :
      (w : ℕ) (f : Frame S) (bytes zs : List ℕ) (dec : Decompressor)
      → Tagging f
      → f.out ++ (bytes ++ zs) ≡ all
      → length bytes ≤ f.room
      → Sized dec
      → Remaining dec (left f.src) zs
      → dec.state ≡ normal_state
      → (0 < f.room - length bytes → Idle dec)
      → 3 * (f.room + length (left f.src)) + 1 < w
      → Advances left all size w (next_tag (record (store f bytes) { dec = dec }))
  read_lem w f bytes zs dec tg order le sized remaining normal idle small =
      next_tag_lem w (record (store (record f { in_tags = false }) bytes) { dec = dec })
        (store_lem (record f { in_tags = false }) bytes zs dec tg.fits refl order le sized
          remaining)
        normal idle (omega (arith, small)) (λ h. omega (arith, small))

  abbrev store_zeros : Frame S → S → ℕ → Progress S
  store_zeros f after n =
      let zeros = min ((n + 1) * 8) f.room in
      next_tag (record (store (record f { src = after; byte = n }) (replicate zeros 0)) {
        dec = record f.dec { zeros = (n + 1) * 8 - zeros };
      })

  zero_tag_lem :
      (w n : ℕ) (f : Frame S) (xs ys : List ℕ)
      → Tagging f
      → left f.src ≡ n ∷ xs
      → Unpacks xs ys
      → f.out ++ (replicate ((n + 1) * 8) 0 ++ ys) ≡ all
      → 3 * (f.room + length (left f.src)) ≤ w
      → Advances left all size w (zero_tag io f)
  unfolding zero_tag
  zero_tag_lem w n f xs ys tg l u order small =
      let (e, b, a) = read_byte left io good f.src n f.byte xs l in
      no_failure left all size w _ _ e (
        subst (λ c. Advances left all size w (store_zeros f (io.read f.src 1).after c))
          (sym (ap (byte_of f.byte) b))
          (read_lem w (record f { src = (io.read f.src 1).after; byte = n }) (replicate k 0)
            (replicate ((n + 1) * 8 - k) 0 ++ ys) (record f.dec { zeros = (n + 1) * 8 - k })
            (record {
              sized = tg.sized;
              fits = tg.fits;
              has_room = tg.has_room;
              normal = tg.normal;
              idle = tg.idle;
            })
            (ap (λ t. f.out ++ t) (sym (replicate_more ((n + 1) * 8) k ys (omega arith))) ∙ order)
            (omega (arith, length-replicate {A = ℕ} k 0))
            (record {
              buf_word = tg.sized.buf_word;
              ff_buf_word = tg.sized.ff_buf_word;
              bufsz_bound = tg.sized.bufsz_bound;
            })
            (in_normal tg.normal ys (subst (λ l. Unpacks l ys) (sym a) u) (
              ap (λ t. replicate ((n + 1) * 8 - k) 0 ++ (t ++ ys))
                (sym (nothing_kept f.dec.buf f.dec.bufsz tg.sized.buf_word tg.idle.no_buf))))
            tg.normal
            (λ h. record {
              no_zeros = ground (arith, h, length-replicate {A = ℕ} k 0);
              no_buf = tg.idle.no_buf;
            })
            (consumed f.src (io.read f.src 1).after f.room k w l a small)))
    where
      k : ℕ
      k = min ((n + 1) * 8) f.room

      consumed :
          (s after : S) (room k w : ℕ)
          → left s ≡ n ∷ xs
          → left after ≡ xs
          → 3 * (room + length (left s)) ≤ w
          → 3 * (room + length (left after)) + 1 < w
      consumed s after room k w l a h = omega (arith, ap length l, ap length a)

  abbrev store_word : Frame S → S → List ℕ → Progress S
  store_word f after buf =
      let used = min f.room 8 in
      next_tag (record (store (record f { src = after }) (take used buf)) {
        dec = record f.dec { buf = buf; bufsz = 8 - used };
      })

  -- The bytes behind a tag, as `io.ReadFull` gives them.
  word_bytes :
      (t : ℕ) (f : Frame S) (bytes xs : List ℕ)
      → f.byte ≡ t
      → length bytes ≡ ones 8 t
      → left f.src ≡ bytes ++ xs
      → ((io.read_full f.src (count_ones 8 0 f.byte)).error ≡ none)
        × (place_bytes 8 0 f.byte (io.read_full f.src (count_ones 8 0 f.byte)).bytes
            ≡ (spread 8 t bytes).0)
        × (left (io.read_full f.src (count_ones 8 0 f.byte)).after ≡ xs)
  word_bytes t f bytes xs e n l = (
    got.succeeds,
    place_bytes_lem 8 0 f.byte t (io.read_full f.src (count_ones 8 0 f.byte)).bytes (omega arith)
          same
        ∙ ap (λ b. (spread 8 t b).0) (got.all_bytes ∙ ap₂ take count l ∙ take-append bytes xs),
    got.in_order ∙ ap₂ drop count l ∙ drop-append bytes xs,
  )
    where
      plain : (j : ℕ) → 0 + j ≡ j
      plain j = omega arith

      same : (j : ℕ) → digit f.byte (0 + j) ≡ digit t j
      same j = ap₂ digit e (plain j)

      count : count_ones 8 0 f.byte ≡ length bytes
      count = count_ones_lem 8 0 f.byte t (omega arith) same ∙ sym n

      got :
          Full left
            (left f.src)
            (count_ones 8 0 f.byte)
            (io.read_full f.src (count_ones 8 0 f.byte))
      got =
          good.read_full f.src (count_ones 8 0 f.byte)
            (omega (arith, count, ap length l, length-append bytes xs))

  word_tag_lem :
      (w t : ℕ) (f : Frame S) (bytes xs ys : List ℕ)
      → Tagging f
      → f.byte ≡ t
      → length bytes ≡ ones 8 t
      → left f.src ≡ bytes ++ xs
      → Unpacks xs ys
      → f.out ++ ((spread 8 t bytes).0 ++ ys) ≡ all
      → 3 * (f.room + length (left f.src)) + 1 < w
      → Advances left all size w (word_tag io f)
  unfolding word_tag
  word_tag_lem w t f bytes xs ys tg eb n l u order small =
      let (e, b, a) = word_bytes t f bytes xs eb n l in
      no_failure left all size w _ _ e (
        subst
          (λ c.
            Advances left all size w
              (store_word f (io.read_full f.src (count_ones 8 0 f.byte)).after c))
          (sym b)
          (read_lem w (record f { src = (io.read_full f.src (count_ones 8 0 f.byte)).after })
            (take k wd) (drop k wd ++ ys) (record f.dec { buf = wd; bufsz = 8 - k })
            (record {
              sized = tg.sized;
              fits = tg.fits;
              has_room = tg.has_room;
              normal = tg.normal;
              idle = tg.idle;
            })
            (ap (λ t. f.out ++ t)
                (sym (append_assoc (take k wd) (drop k wd) ys)
                  ∙ ap (λ t. t ++ ys) (take-append-drop k wd))
              ∙ order)
            (omega (arith, length-take k wd))
            (record {
              buf_word = length-spread 8 t bytes;
              ff_buf_word = tg.sized.ff_buf_word;
              bufsz_bound = omega arith;
            })
            (in_normal tg.normal ys (subst (λ l. Unpacks l ys) (sym a) u) (
              ap₂ (λ j z. replicate z 0 ++ (drop j wd ++ ys)) {x = k} {y = 8 - (8 - k)}
                (omega arith) (sym tg.idle.no_zeros)))
            tg.normal
            (λ h. record {
              no_zeros = tg.idle.no_zeros;
              no_buf = ground (arith, h, length-take k wd, length-spread 8 t bytes);
            })
            (omega (arith, small, ap length a, ap length l, length-append bytes xs))))
    where
      k : ℕ
      k = min f.room 8

      wd : List ℕ
      wd = (spread 8 t bytes).0

  abbrev by_tag : Frame S → S → ℕ → Progress S
  by_tag f after c =
      let g = record f { src = after; byte = c } in
      if c == 0xff then unpacked_tag io g else if c == 0 then zero_tag io g else word_tag io g

  dispatched :
      (w t : ℕ) (f : Frame S) (rest : List ℕ)
      → left f.src ≡ t ∷ rest
      → ((after : S) → left after ≡ rest → Advances left all size w (by_tag f after t))
      → Advances left all size w (tag_step io f)
  unfolding tag_step
  dispatched w t f rest l then_ =
      let (e, b, a) = read_byte left io good f.src t f.byte rest l in
      no_failure left all size w _ _ e (
        subst (λ c. Advances left all size w (by_tag f (io.read f.src 1).after c))
          (sym (ap (byte_of f.byte) b)) (then_ (io.read f.src 1).after a))

  no_more :
      (w : ℕ) (f : Frame S)
      → Tagging f
      → left f.src ≡ []
      → f.out ++ [] ≡ all
      → Advances left all size w (tag_step io f)
  unfolding tag_step
  no_more w f tg l order =
      let end = good.read_none f.src 1 (omega arith) l in
      failure left all size w _ _ end.eof end.fails
        (record {
          sized = tg.sized;
          to_come = [];
          remaining = in_normal tg.normal [] (subst (λ l. Unpacks l []) (sym end.still) nothing) (
              ap₂ (λ z b. replicate z 0 ++ (b ++ [])) (sym tg.idle.no_zeros)
                (sym (nothing_kept f.dec.buf f.dec.bufsz tg.sized.buf_word tg.idle.no_buf)));
          in_order = order;
          fits = tg.fits;
          in_loop = λ e. (tg.has_room, tg.normal, tg.idle);
        })
        (sym (append-nil f.out) ∙ order)

  moved :
      (f : Frame S) (after : S) (c : ℕ) → Tagging f → Tagging (record f { src = after; byte = c })
  moved f after c tg = record {
    sized = tg.sized;
    fits = tg.fits;
    has_room = tg.has_room;
    normal = tg.normal;
    idle = tg.idle;
  }

  -- A tag of 0xff, and a word that is not loaded yet.
  unpacked_lem :
      (w : ℕ) (f : Frame S) (word cs zs : List ℕ)
      → Tagging f
      → length word ≡ 8
      → Counted cs zs
      → left f.src ≡ word ++ cs
      → f.out ++ (word ++ zs) ≡ all
      → 3 * (f.room + length (left f.src)) + 1 < w
      → Advances left all size w (unpacked_tag io f)
  unfolding weight rank
  unpacked_lem w f word cs zs tg h c l order small =
      advances _
        (record {
          sized = record {
            buf_word = tg.sized.buf_word;
            ff_buf_word = tg.sized.ff_buf_word;
            bufsz_bound = tg.sized.bufsz_bound;
          };
          to_come = word ++ zs;
          remaining =
              in_post_ff refl (record { no_zeros = tg.idle.no_zeros; no_buf = tg.idle.no_buf })
                (omega arith) word cs zs (omega (arith, h)) c l refl;
          in_order = order;
          fits = tg.fits;
          in_loop = λ e. absurd (true≢false (sym e));
        })
        small

  pub tag_step_lem :
      (w : ℕ) (f : Frame S) (xs zs : List ℕ)
      → Tagging f
      → Unpacks xs zs
      → left f.src ≡ xs
      → f.out ++ zs ≡ all
      → 3 * (f.room + length (left f.src)) ≤ w
      → Advances left all size w (tag_step io f)
  tag_step_lem w f xs zs tg nothing l order small = no_more w f tg l order
  tag_step_lem w f xs zs tg (zero_run n ys ms u) l order small =
      dispatched w 0 f (n ∷ ys) l λ after a.
        zero_tag_lem w n (record f { src = after; byte = 0 }) ys ms (moved f after 0 tg) a u order
          (omega (arith, ap length a, ap length l, small))
  tag_step_lem w f xs zs tg (plain_word t bytes ys ms nz nf n u) l order small =
      dispatched w t f (bytes ++ ys) l λ after a.
        either left all size w (t == 0xff) (λ e. absurd (ground (arith, e, nf)))
          (λ e.
            either left all size w (t == 0) (λ e. absurd (nz ((==_iff t 0).0 e)))
              (λ e.
                word_tag_lem w t (record f { src = after; byte = t }) bytes ys ms
                  (moved f after t tg) refl n a u order
                  (omega (arith, ap length a, ap length l, small))))
  tag_step_lem w f xs zs tg (raw_run word n r ys ms h k u) l order small =
      dispatched w 0xff f (word ++ (n ∷ (r ++ ys))) l λ after a.
        unpacked_lem w (record f { src = after; byte = 0xff }) word (n ∷ (r ++ ys)) (r ++ ms)
          (moved f after 0xff tg) h
          (record {
            count = n;
            copied = r;
            rest = ys;
            more = ms;
            whole = k;
            stream = u;
            packed = refl;
            plain = refl;
          })
          a order (omega (arith, ap length a, ap length l, small))
