-- ===== src/Message/Streams/Decode.antt =====
-- mem.go: `Decode` reads the message that `Unmarshal` finds at the front of the bytes that are left.
use go_capnproto.Message.{err, Bool, Arena}
use go_capnproto.Prelude.{
  Error, ℕ, zero, suc, ◌+◌, ◌-◌, ◌≤◌, ◌≡◌, refl, sym, arith, ap, ap₂, ◌∙◌, List, [], ◌∷◌, ◌++◌,
  length, take, drop, replicate, copy, copy_at, length-append, length-take, length-drop,
  length-replicate, take-append-drop, take-append_le, leb, leb→le, le→leb, ltb, Result, ok,
  ok-injective, returned, ◌>>=◌, u32, check, Option, none, some, unexpected_eof, true, false, eof,
}
use mathlib.Core.Path.{subst}
use go_capnproto.Packed.Reader.{Source, Got}
use go_capnproto.Packed.Reader.Remaining.{Reliable}
use go_capnproto.Packed.Reader.Unpacked.{copy_whole}
use go_capnproto.Packed.Reader.Flush.{drop_more}
use go_capnproto.Message.Framing.{
  unmarshal, stream_header_size, unmarshal_stream_header, uint32_at, read_sizes, sum_sizes, demux,
}
use go_capnproto.Message.Framing.Header.{
  stream_header_size_lem, uint32_at-append, read_sizes-append,
}
use go_capnproto.Message.Streams.{read_all, decode_segments, decode}

passed : (c : Bool) (e : Error) {u : Unit {0}} → check c e ≡ ok u → c ≡ true
passed true e h = refl
passed false e h = cc

-- What a header that was read is.
record Header (b sizes tail : List ℕ) : Type 0 where
  max_seg : ℕ
  long : stream_header_size max_seg ≤ length b
  first : uint32_at b 0 ≡ ok max_seg
  rest : read_sizes b (u32 (max_seg + 1)) 0 ≡ ok sizes
  behind : drop (stream_header_size max_seg) b ≡ tail

Header-read :
    (b sizes tail : List ℕ) → unmarshal_stream_header b ≡ ok (sizes, tail) → Header b sizes tail
unfolding unmarshal_stream_header
Header-read b sizes tail h =
    let (_, _, h₁) = returned (check (leb (stream_header_size 0) (length b)) unexpected_eof) h in
    let (n, first, h₂) = returned (uint32_at b 0) h₁ in
    let (_, long, h₃) =
      returned (check (leb (stream_header_size n) (length b)) unexpected_eof) h₂ in
    let (ss, rest, h₄) = returned (read_sizes b (u32 (n + 1)) 0) h₃ in
    record {
      max_seg = n;
      long =
          leb→le (stream_header_size n) (length b)
            (passed (leb (stream_header_size n) (length b)) unexpected_eof long);
      first = first;
      rest = rest ∙ ap (λ r. ok r.0) (ok-injective h₄);
      behind = ap (λ r. r.1) (ok-injective h₄);
    }

-- The header alone reads as the header in front of its tail.
header_alone :
    (hd tail sizes : List ℕ) (n : ℕ)
    → length hd ≡ stream_header_size n
    → uint32_at (hd ++ tail) 0 ≡ ok n
    → read_sizes (hd ++ tail) (u32 (n + 1)) 0 ≡ ok sizes
    → unmarshal_stream_header hd ≡ ok (sizes, drop (stream_header_size n) hd)
unfolding unmarshal_stream_header
header_alone hd tail sizes n size first rest =
    let big = stream_header_size_lem n in
    rw
      (
        le→leb (stream_header_size 0) (length hd)
            (omega (arith, big, size, stream_header_size_lem 0)),
        sym (uint32_at-append hd tail 0 (omega (arith, big, size))) ∙ first,
      )
      (rw
        (
          le→leb (stream_header_size n) (length hd) (omega (arith, size)),
          sym (read_sizes-append (u32 (n + 1)) hd tail 0 (omega (arith, big, size))) ∙ rest,
        )
        refl)

-- The segments are cut out of the bytes that they take.
drop-append_le : (n : ℕ) (xs ys : List ℕ) → n ≤ length xs → drop n (xs ++ ys) ≡ drop n xs ++ ys
drop-append_le zero xs ys h = refl
drop-append_le (suc n) [] ys h = absurd (omega arith)
drop-append_le (suc n) (x ∷ xs) ys h = drop-append_le n xs ys (omega arith)

demux-append :
    (sizes xs ys : List ℕ) → sum_sizes sizes ≤ length xs → demux sizes (xs ++ ys) ≡ demux sizes xs
unfolding demux sum_sizes
demux-append [] xs ys h = refl
demux-append (sz ∷ sizes) xs ys h =
    rw
      (
        le→leb sz (length (xs ++ ys)) (omega (arith, length-append xs ys)),
        le→leb sz (length xs) (omega arith),
      )
      (ap₂ (λ d t. d >>= λ rest. ok (record { bytes = t; capacity = sz } ∷ rest))
        (ap (demux sizes) (drop-append_le sz xs ys (omega arith))
          ∙ demux-append sizes (drop sz xs) ys (omega (arith, length-drop sz xs)))
        (take-append_le sz xs ys (omega arith)))

-- The header as Decode builds it.
built :
    (h : ℕ) (b : List ℕ)
    → 4 ≤ h
    → h ≤ length b
    → copy_at (copy (replicate h 0) (take 4 b)) 4 (take (h - 4) (drop 4 b)) ≡ take h b
built h b h₄ le =
    ap (λ k. copy_at (copy (replicate k 0) (take 4 b)) 4 (take (h - 4) (drop 4 b))) {x = h}
      {y = suc (suc (suc (suc (h - 4))))} (omega (arith, h₄))
    ∙ four b (h - 4) (omega (arith, h₄, le))
    ∙ ap (λ k. take k b) {x = 4 + (h - 4)} {y = h} (omega (arith, h₄))
  where
    four :
        (b : List ℕ) (k : ℕ)
        → 4 + k ≤ length b
        → copy_at (copy (replicate (suc (suc (suc (suc k)))) 0) (take 4 b)) 4 (take k (drop 4 b))
          ≡ take (4 + k) b
    four [] k h = absurd (omega arith)
    four (a ∷ []) k h = absurd (omega arith)
    four (a ∷ (c ∷ [])) k h = absurd (omega arith)
    four (a ∷ (c ∷ (d ∷ []))) k h = absurd (omega arith)
    four (a ∷ (c ∷ (d ∷ (e ∷ b)))) k h =
        ap (λ t. a ∷ (c ∷ (d ∷ (e ∷ t))))
          (copy_whole (replicate k 0) (take k b)
            (omega (arith, h, length-replicate {A = ℕ} k 0, length-take k b)))
        ∙ ap (λ j. take j (a ∷ (c ∷ (d ∷ (e ∷ b))))) {x = suc (suc (suc (suc k)))} {y = 4 + k}
            (omega arith)

module _ {S : Type 0} (left : S → List ℕ) (io : Source S) (good : Reliable left io) where
  -- A read of bytes that are left.
  record ReadAll (s : S) (n : ℕ) : Type 0 where
    after : S
    runs : read_all io s n ≡ ok (take n (left s), after)
    rest : left after ≡ drop n (left s)

  read_all_lem : (s : S) (n : ℕ) → n ≤ length (left s) → ReadAll s n
  unfolding read_all
  read_all_lem s n h =
      let f = good.read_full s n h in
      record {
        after = (io.read_full s n).after;
        runs =
            ap (λ e. got_all (io.read_full s n) e) f.succeeds
            ∙ ap (λ b. ok (b, (io.read_full s n).after)) f.all_bytes;
        rest = f.in_order;
      }
    where
      got_all : Got S → Option Error → Result (List ℕ × S)
      got_all got none = ok (got.bytes, got.after)
      got_all got (some e) = err e

  -- With a reader below that gives what is left in order: when `Unmarshal` of the bytes that are
  -- left gives an arena, `Decode` gives the same arena, and leaves the bytes behind its segments.
  pub decode-unmarshal :
      (s : S) (sizes tail : List ℕ) (a : Arena)
      → unmarshal_stream_header (left s) ≡ ok (sizes, tail)
      → unmarshal (left s) ≡ ok a
      → (s' : S) × (decode io s ≡ ok (a, s')) × (left s' ≡ drop (sum_sizes sizes) tail)
  unfolding unmarshal decode decode_segments
  decode-unmarshal s sizes tail a hdr h =
      let hd = Header-read (left s) sizes tail hdr in
      let n : ℕ = hd.max_seg in
      let size : ℕ = stream_header_size n in
      let big = stream_header_size_lem n in
      let (_, _, u₁) = returned (check (ltb 0 (length (left s))) eof) h in
      let (r, e₂, u₂) = returned (unmarshal_stream_header (left s)) u₁ in
      let (_, enough, u₃) = returned (check (leb (sum_sizes r.0) (length r.1)) unexpected_eof) u₂ in
      let (bufs, cut, u₄) = returned (demux r.0 r.1) u₃ in
      let same : ◌≡◌ {A = List ℕ × List ℕ} r (sizes, tail) = ok-injective (sym e₂ ∙ hdr) in
      let room : sum_sizes sizes ≤ length tail =
        subst (λ (x : List ℕ × List ℕ). sum_sizes x.0 ≤ length x.1) same
          (leb→le (sum_sizes r.0) (length r.1)
            (passed (leb (sum_sizes r.0) (length r.1)) unexpected_eof enough)) in
      let cut' : demux sizes tail ≡ ok bufs =
        ap (λ (x : List ℕ × List ℕ). demux x.0 x.1) (sym same) ∙ cut in
      let r₁ = read_all_lem s 4 (omega (arith, hd.long, big)) in
      let r₂ =
        read_all_lem r₁.after (size - 4)
          (omega (arith, ap (length {A = ℕ}) r₁.rest, length-drop 4 (left s), hd.long)) in
      let at_tail : left r₂.after ≡ tail =
        r₂.rest
        ∙ ap (drop (size - 4)) r₁.rest
        ∙ drop_more (left s) 4 (size - 4)
        ∙ ap (λ k. drop k (left s)) {x = 4 + (size - 4)} {y = size} (omega (arith, big))
        ∙ hd.behind in
      let r₃ =
        read_all_lem r₂.after (sum_sizes sizes)
          (omega (arith, room, ap (length {A = ℕ}) at_tail)) in
      let max : uint32_at (take 4 (left s)) 0 ≡ ok n = number (left s) n hd.long hd.first in
      let header : unmarshal_stream_header (
            copy_at (copy (replicate size 0) (take 4 (left s))) 4 (take (size - 4) (left r₁.after)))
          ≡ ok (sizes, drop size (take size (left s))) =
        ap
          (λ l.
            unmarshal_stream_header
              (copy_at (copy (replicate size 0) (take 4 (left s))) 4 (take (size - 4) l)))
          r₁.rest
        ∙ ap unmarshal_stream_header (built size (left s) (omega (arith, big)) hd.long)
        ∙ header_alone (take size (left s)) (drop size (left s)) sizes n
            (omega (arith, length-take size (left s), hd.long))
            (ap (λ l. uint32_at l 0) (take-append-drop size (left s)) ∙ hd.first)
            (ap (λ l. read_sizes l (u32 (n + 1)) 0) (take-append-drop size (left s)) ∙ hd.rest) in
      let cut_here : demux sizes (take (sum_sizes sizes) (left r₂.after)) ≡ ok bufs =
        ap (λ l. demux sizes (take (sum_sizes sizes) l)) at_tail
        ∙ sym (
            demux-append sizes (take (sum_sizes sizes) tail) (drop (sum_sizes sizes) tail)
              (omega (arith, length-take (sum_sizes sizes) tail, room)))
        ∙ ap (demux sizes) (take-append-drop (sum_sizes sizes) tail)
        ∙ cut' in
      (
        r₃.after,
        rw (r₁.runs, max, r₂.runs, header, r₃.runs, cut_here)
            (ap (λ x. ok (x, r₃.after)) (ok-injective u₄)),
        r₃.rest ∙ ap (drop (sum_sizes sizes)) at_tail,
      )
    where
      number :
          (b : List ℕ) (n : ℕ)
          → stream_header_size n ≤ length b
          → uint32_at b 0 ≡ ok n
          → uint32_at (take 4 b) 0 ≡ ok n
      number b n long first =
          sym (
            uint32_at-append (take 4 b) (drop 4 b) 0
              (omega (arith, long, stream_header_size_lem n, length-take 4 b)))
          ∙ ap (λ l. uint32_at l 0) (take-append-drop 4 b)
          ∙ first
