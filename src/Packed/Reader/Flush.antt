-- ===== src/Packed/Reader/Flush.antt =====
-- internal/packed/packed.go: the decompressor's normal state, before the next tag is read.
use go_capnproto.Prelude.{
  ℕ, zero, suc, ◌+◌, ◌-◌, ◌*◌, ◌≤◌, ◌<◌, min, ◌≡◌, refl, sym, arith, ap, ◌∙◌, List, [], ◌∷◌, ◌++◌,
  length, take, drop, replicate, append_assoc, length-take, length-drop, length-replicate,
  take-append-drop, ltb, ltb→lt, ◌==◌, true, false, none,
}
use mathlib.Core.Path.{subst}
use mathlib.Core.Bool.{true≢false}
use go_capnproto.Prelude.{Bool}
use go_capnproto.Packed.Reader.{DecompressorState}
use go_capnproto.Packed.Reader.{
  Decompressor, normal_state, Frame, next_tag, store, flush_buf, flush,
}
use go_capnproto.Packed.Stream.{Unpacks}
use go_capnproto.Packed.Reader.Remaining.{
  Remaining, in_normal, Reading, full, Advances, advances, ends, either, Idle, weight, rank,
  stored_fits, Sized,
}

pub drop_more : (xs : List ℕ) (n k : ℕ) → drop k (drop n xs) ≡ drop (n + k) xs
drop_more xs zero k = ap (λ j. drop j xs) {x = k} {y = 0 + k} (omega arith)
drop_more [] (suc n) k = drop_none k ∙ sym (drop_none (suc n + k))
  where
    drop_none : (j : ℕ) → drop {A = ℕ} j [] ≡ []
    drop_none zero = refl
    drop_none (suc j) = refl
drop_more (x ∷ xs) (suc n) k =
    drop_more xs n k ∙ ap (λ j. drop j (x ∷ xs)) {x = suc (n + k)} {y = suc n + k} (omega arith)

pub replicate_more :
    (n k : ℕ) (xs : List ℕ)
    → k ≤ n
    → replicate n 0 ++ xs ≡ replicate k 0 ++ (replicate (n - k) 0 ++ xs)
replicate_more n zero xs h = ap (λ j. replicate j 0 ++ xs) {x = n} {y = n - 0} (omega arith)
replicate_more zero (suc k) xs h = absurd (omega arith)
replicate_more (suc n) (suc k) xs h =
    ap (λ t. 0 ∷ t)
      (replicate_more n k xs (omega arith)
        ∙ ap (λ j. replicate k 0 ++ (replicate j 0 ++ xs)) {x = n - k} {y = suc n - suc k}
            (omega arith))

slice_more :
    (buf : List ℕ) (n k : ℕ) (xs : List ℕ)
    → k ≤ n
    → n ≤ 8
    → drop (8 - n) buf ++ xs ≡ take k (drop (8 - n) buf) ++ (drop (8 - (n - k)) buf ++ xs)
slice_more buf n k xs h h₈ =
    ap (λ t. t ++ xs) (sym (take-append-drop k (drop (8 - n) buf)))
    ∙ append_assoc (take k (drop (8 - n) buf)) (drop k (drop (8 - n) buf)) xs
    ∙ ap (λ t. take k (drop (8 - n) buf) ++ (t ++ xs))
        (drop_more buf (8 - n) k
          ∙ ap (λ j. drop j buf) {x = 8 - n + k} {y = 8 - (n - k)} (omega arith))

slice_length :
    (buf : List ℕ) (n k : ℕ)
    → length buf ≡ 8
    → n ≤ 8
    → k ≤ n
    → length (take k (drop (8 - n) buf)) ≡ k
slice_length buf n k h h₈ le =
    omega (arith, length-take k (drop (8 - n) buf), length-drop (8 - n) buf)

rank_normal :
    (b w : ℕ) (c : Bool) (s : DecompressorState)
    → s ≡ normal_state
    → (c ≡ true → b < w)
    → (c ≡ false → b + 1 < w)
    → b + rank c s < w
unfolding rank
rank_normal b w true s e h k = omega (arith, h refl)
rank_normal b w false s e h k = subst (λ s. b + rank false s < w) (sym e) (k refl)

module _ {S : Type 0} {left : S → List ℕ} {all : List ℕ} {size : ℕ} where
  -- Back at the test of the inner loop: nothing is buffered, or no room is left.
  pub next_tag_lem :
      (w : ℕ) (f : Frame S)
      → Reading left all size f
      → f.dec.state ≡ normal_state
      → (0 < f.room → Idle f.dec)
      → 3 * (f.room + length (left f.src)) < w
      → (f.room ≡ 0 → 3 * (f.room + length (left f.src)) + 1 < w)
      → Advances left all size w (next_tag f)
  unfolding weight
  next_tag_lem w f r state idle small smaller =
      advances g
        (record {
          sized = r.sized;
          to_come = r.to_come;
          remaining = r.remaining;
          in_order = r.in_order;
          fits = r.fits;
          in_loop = λ e. (ltb→lt 0 f.room e, state, idle (ltb→lt 0 f.room e));
        })
        (rank_normal (3 * (f.room + length (left f.src))) w (ltb 0 f.room) f.dec.state state
          (λ e. small) (λ e. smaller (ground (arith, e))))
    where
      g : Frame S
      g = record f { in_tags = ltb 0 f.room }

  -- The first bytes that are still to come are stored; the decompressor has the others.
  pub store_lem :
      (f : Frame S) (bytes zs : List ℕ) (dec : Decompressor)
      → length f.out + f.room ≡ size
      → f.in_tags ≡ false
      → f.out ++ (bytes ++ zs) ≡ all
      → length bytes ≤ f.room
      → Sized dec
      → Remaining dec (left f.src) zs
      → Reading left all size (record (store f bytes) { dec = dec })
  store_lem f bytes zs dec fits out e h sized remaining = record {
    sized = sized;
    to_come = zs;
    remaining = remaining;
    in_order = append_assoc f.out bytes zs ∙ e;
    fits = stored_fits f.out bytes f.room size fits h;
    in_loop = λ i. absurd (true≢false (sym i ∙ out));
  }

abbrev from_buf : {S : Type 0} → Frame S → List ℕ
from_buf f = take (min f.room f.dec.bufsz) (drop (8 - f.dec.bufsz) f.dec.buf)

module _ {S : Type 0} (left : S → List ℕ) (all : List ℕ) (size : ℕ) where
  -- A frame in the normal state, with room for more, and what it has buffered.
  pub record Flushing (f : Frame S) : Type 0 where
    pub reading : Reading left all size f
    pub outer : f.in_tags ≡ false
    pub has_room : 0 < f.room
    pub normal : f.dec.state ≡ normal_state
    pub zs : List ℕ
    pub stream : Unpacks (left f.src) zs
    pub in_order :
        f.out ++ (replicate f.dec.zeros 0 ++ (drop (8 - f.dec.bufsz) f.dec.buf ++ zs)) ≡ all

  pub flush_buf_lem :
      (w : ℕ) (f : Frame S)
      → Flushing f
      → f.dec.zeros ≡ 0
      → 3 * (f.room + length (left f.src)) + 1 ≤ w
      → Advances left all size w (flush_buf f)
  unfolding flush_buf
  flush_buf_lem w f fl z small =
      either left all size w (ltb 0 f.dec.bufsz)
        (λ some_.
          either left all size w (ltb 0 (f.dec.bufsz - min f.room f.dec.bufsz))
            (λ rest. ends g none reading (full refl (ground (arith, count, rest))))
            (λ rest.
              next_tag_lem w g reading fl.normal
                (λ h. record { no_zeros = z; no_buf = ground (arith, rest) })
                (ground (arith, some_, count, fl.has_room, small))
                (λ h. ground (arith, some_, count, fl.has_room, small))))
        (λ none_.
          next_tag_lem w f fl.reading fl.normal
            (λ h. record { no_zeros = z; no_buf = ground (arith, none_) }) (omega (arith, small))
            (λ h. absurd (omega (arith, h, fl.has_room))))
    where
      k : ℕ
      k = min f.room f.dec.bufsz

      count : length (from_buf f) ≡ k
      count =
          slice_length f.dec.buf f.dec.bufsz k fl.reading.sized.buf_word
            fl.reading.sized.bufsz_bound (omega arith)

      dec : Decompressor
      dec = record f.dec { bufsz = f.dec.bufsz - k }

      g : Frame S
      g = record (store f (from_buf f)) { dec = dec }

      order : f.out ++ (from_buf f ++ (drop (8 - (f.dec.bufsz - k)) f.dec.buf ++ fl.zs)) ≡ all
      order =
          ap (λ t. f.out ++ t)
            (sym (
                slice_more f.dec.buf f.dec.bufsz k fl.zs (omega arith) fl.reading.sized.bufsz_bound)
              ∙ ap (λ n. replicate n 0 ++ (drop (8 - f.dec.bufsz) f.dec.buf ++ fl.zs)) (sym z))
          ∙ fl.in_order

      reading : Reading left all size g
      reading =
          store_lem f (from_buf f) (drop (8 - (f.dec.bufsz - k)) f.dec.buf ++ fl.zs) dec
            fl.reading.fits fl.outer order (omega (arith, count))
            (record {
              buf_word = fl.reading.sized.buf_word;
              ff_buf_word = fl.reading.sized.ff_buf_word;
              bufsz_bound = omega (arith, fl.reading.sized.bufsz_bound);
            })
            (in_normal fl.normal fl.zs fl.stream (
              ap (λ n. replicate n 0 ++ (drop (8 - (f.dec.bufsz - k)) f.dec.buf ++ fl.zs)) (sym z)))

  pub flush_lem :
      (w : ℕ) (f : Frame S)
      → Flushing f
      → 3 * (f.room + length (left f.src)) + 1 ≤ w
      → Advances left all size w (flush f)
  unfolding flush
  flush_lem w f fl small =
      either left all size w (ltb 0 f.dec.zeros)
        (λ some_.
          either left all size w (ltb 0 (f.dec.zeros - k))
            (λ rest. ends g none reading (full refl (ground (arith, count, rest))))
            (λ rest.
              either left all size w (f.room - length {A = ℕ} (replicate k 0) == 0)
                (λ e. ends g none reading (full refl (ground (arith, e))))
                (λ e.
                  flush_buf_lem w g
                    (record {
                      reading = reading;
                      outer = fl.outer;
                      has_room = ground (arith, e);
                      normal = fl.normal;
                      zs = fl.zs;
                      stream = fl.stream;
                      in_order =
                          append_assoc f.out (replicate k 0)
                            (replicate (f.dec.zeros - k) 0 ++ behind)
                          ∙ order;
                    })
                    (ground (arith, rest)) (omega (arith, small)))))
        (λ none_. flush_buf_lem w f fl (ground (arith, none_)) small)
    where
      k : ℕ
      k = min f.room f.dec.zeros

      count : length {A = ℕ} (replicate k 0) ≡ k
      count = length-replicate k 0

      dec : Decompressor
      dec = record f.dec { zeros = f.dec.zeros - k }

      g : Frame S
      g = record (store f (replicate k 0)) { dec = dec }

      behind : List ℕ
      behind = drop (8 - f.dec.bufsz) f.dec.buf ++ fl.zs

      order : f.out ++ (replicate k 0 ++ (replicate (f.dec.zeros - k) 0 ++ behind)) ≡ all
      order =
          ap (λ t. f.out ++ t) (sym (replicate_more f.dec.zeros k behind (omega arith)))
          ∙ fl.in_order

      reading : Reading left all size g
      reading =
          store_lem f (replicate k 0) (replicate (f.dec.zeros - k) 0 ++ behind) dec fl.reading.fits
            fl.outer order (omega (arith, count))
            (record {
              buf_word = fl.reading.sized.buf_word;
              ff_buf_word = fl.reading.sized.ff_buf_word;
              bufsz_bound = fl.reading.sized.bufsz_bound;
            })
            (in_normal fl.normal fl.zs fl.stream refl)
