-- ===== src/Packed/Reader/Remaining.antt =====
-- internal/packed/packed.go: the bytes that a decompressor has yet to give, between two rounds.
use go_capnproto.Prelude.{
  ℕ, ◌+◌, ◌-◌, ◌*◌, ◌≤◌, ◌<◌, ◌≡◌, refl, sym, arith, ap, ◌∙◌, List, [], ◌∷◌, ◌++◌, length, take,
  drop, replicate, append_assoc, length-append, Option, none, some, Bool, true, false, Error,
  if◌then◌else◌,
}
use mathlib.Core.Path.{subst}
use go_capnproto.Packed.Stream.{Unpacks}
use go_capnproto.Packed.Reader.{
  Got, Source, Decompressor, normal_state, post_ff_state, readn_state, raw_state, DecompressorState,
  Frame, Progress, again, stop, or_fail,
}

-- A reader that gives what is left in order: something while bytes are left, and then an error.
-- io.ReadFull gives as many bytes as it is asked for, when so many are left.
module _ {S : Type 0} where
  pub record Part (left : S → List ℕ) (xs : List ℕ) (n : ℕ) (got : Got S) : Type 0 where
    pub succeeds : got.error ≡ none
    pub some_bytes : 0 < length got.bytes
    pub fits : length got.bytes ≤ n
    pub in_order : got.bytes ++ left got.after ≡ xs

  pub record AtEnd (left : S → List ℕ) (got : Got S) : Type 0 where
    pub eof : Error
    pub fails : got.error ≡ some eof
    pub no_bytes : got.bytes ≡ []
    pub still : left got.after ≡ []

  pub record Full (left : S → List ℕ) (xs : List ℕ) (n : ℕ) (got : Got S) : Type 0 where
    pub succeeds : got.error ≡ none
    pub all_bytes : got.bytes ≡ take n xs
    pub in_order : left got.after ≡ drop n xs

  pub record Reliable (left : S → List ℕ) (io : Source S) : Type 0 where
    pub read_some :
        (s : S) (n : ℕ) → 0 < n → 0 < length (left s) → Part left (left s) n (io.read s n)
    pub read_none : (s : S) (n : ℕ) → 0 < n → left s ≡ [] → AtEnd left (io.read s n)
    pub read_full : (s : S) (n : ℕ) → n ≤ length (left s) → Full left (left s) n (io.read_full s n)

-- A count, the words that are copied, and a stream.
pub record Counted (xs ys : List ℕ) : Type 0 where
  pub count : ℕ
  pub copied : List ℕ
  pub rest : List ℕ
  pub more : List ℕ
  pub whole : length copied ≡ count * 8
  pub stream : Unpacks rest more
  pub packed : xs ≡ count ∷ (copied ++ rest)
  pub plain : ys ≡ copied ++ more

pub record Idle (dec : Decompressor) : Type 0 where
  pub no_zeros : dec.zeros ≡ 0
  pub no_buf : dec.bufsz ≡ 0

-- The bytes left to read are `xs`, and they stand with what is buffered for `ys`.
pub data Remaining (dec : Decompressor) (xs ys : List ℕ) : Type 0 where
  in_normal :
      dec.state ≡ normal_state
      → (zs : List ℕ) → Unpacks xs zs
      → ys ≡ replicate dec.zeros 0 ++ (drop (8 - dec.bufsz) dec.buf ++ zs)
      → Remaining dec xs ys
  in_post_ff :
      dec.state ≡ post_ff_state
      → Idle dec
      → dec.ff_buf_used_count ≤ dec.ff_buf_load_count
      → (w cs zs : List ℕ) → length w + dec.ff_buf_load_count ≡ 8
      → Counted cs zs
      → xs ≡ w ++ cs
      → ys
        ≡ take
            (dec.ff_buf_load_count - dec.ff_buf_used_count)
            (drop dec.ff_buf_used_count dec.ff_buf)
          ++ (w ++ zs)
      → Remaining dec xs ys
  in_readn : dec.state ≡ readn_state → Idle dec → Counted xs ys → Remaining dec xs ys
  in_raw :
      dec.state ≡ raw_state
      → Idle dec
      → (copied rest more : List ℕ) → length copied ≡ dec.raw
      → Unpacks rest more
      → xs ≡ copied ++ rest
      → ys ≡ copied ++ more
      → Remaining dec xs ys

pub record Sized (dec : Decompressor) : Type 0 where
  pub buf_word : length dec.buf ≡ 8
  pub ff_buf_word : length dec.ff_buf ≡ 8
  pub bufsz_bound : dec.bufsz ≤ 8

unfoldable pub rank : Bool → DecompressorState → ℕ
rank true s = 0
rank false normal_state = 1
rank false post_ff_state = 1
rank false readn_state = 0
rank false raw_state = 2

-- A `Read` of `size` bytes, where `all` is still to come when it starts.
module _ {S : Type 0} (left : S → List ℕ) (all : List ℕ) (size : ℕ) where
  pub record Reading (f : Frame S) : Type 0 where
    pub sized : Sized f.dec
    pub to_come : List ℕ
    pub remaining : Remaining f.dec (left f.src) to_come
    pub in_order : f.out ++ to_come ≡ all
    pub fits : length f.out + f.room ≡ size
    pub in_loop : f.in_tags ≡ true → (0 < f.room) × (f.dec.state ≡ normal_state) × Idle f.dec

  pub data Ended (f : Frame S) (e : Option Error) : Type 0 where
    full : e ≡ none → f.room ≡ 0 → Ended f e
    finished : (err : Error) → e ≡ some err → f.out ≡ all → Ended f e

  -- What a round makes smaller.
  unfoldable pub weight : Frame S → ℕ
  weight f = 3 * (f.room + length (left f.src)) + rank f.in_tags f.dec.state

  pub data Advances (w : ℕ) : Progress S → Type 0 where
    advances : (g : Frame S) → Reading g → weight g < w → Advances w (again g)
    ends : (g : Frame S) (e : Option Error) → Reading g → Ended g e → Advances w (stop g e)

  pub either :
      (w : ℕ) (c : Bool) {p q : Progress S}
      → (c ≡ true → Advances w p)
      → (c ≡ false → Advances w q)
      → Advances w (if c then p else q)
  either w true yes_ no_ = yes_ refl
  either w false yes_ no_ = no_ refl

  pub no_failure :
      (w : ℕ) {e : Option Error} (f : Frame S) (p : Progress S)
      → e ≡ none
      → Advances w p
      → Advances w (or_fail e f p)
  unfolding or_fail
  no_failure w f p h a = subst (λ e. Advances w (or_fail e f p)) (sym h) a

  pub failure :
      (w : ℕ) {e : Option Error} (f : Frame S) (p : Progress S) (err : Error)
      → e ≡ some err
      → Reading f
      → f.out ≡ all
      → Advances w (or_fail e f p)
  unfolding or_fail
  failure w f p err h r end =
      subst (λ e. Advances w (or_fail e f p)) (sym h) (ends f (some err) r (finished err refl end))

-- Bytes that are stored, and those that come then.
pub stored :
    (out bytes ys zs : List ℕ) {all : List ℕ}
    → out ++ ys ≡ all
    → ys ≡ bytes ++ zs
    → (out ++ bytes) ++ zs ≡ all
stored out bytes ys zs e h = append_assoc out bytes zs ∙ ap (λ t. out ++ t) (sym h) ∙ e

pub stored_fits :
    (out bytes : List ℕ) (room size : ℕ)
    → length out + room ≡ size
    → length bytes ≤ room
    → length (out ++ bytes) + (room - length bytes) ≡ size
stored_fits out bytes room size e h = omega (arith, length-append out bytes)
