-- ===== src/Message/Marshal/Concat.antt =====
-- mem.go: `Unmarshal` of a header that has segments behind it.
use go_capnproto.Prelude.{
  ℕ, ◌<◌, ◌≡◌, refl, arith, ap, List, [], ◌∷◌, ◌++◌, append_assoc, length, ok, le→leb, lt→ltb,
  length-append, take-append, drop-append, map,
}
use go_capnproto.Message.{Buffer, multi_segment}
use go_capnproto.Message.Framing.{unmarshal, demux, sum_sizes, unmarshal_stream_header}

abbrev pub concat : List (List ℕ) → List ℕ
concat [] = []
concat (b ∷ bs) = b ++ concat bs

abbrev pub exact : List ℕ → Buffer
exact b = record { bytes = b; capacity = length b }

demux-concat :
    (bs : List (List ℕ)) (more : List ℕ)
    → demux (map length bs) (concat bs ++ more) ≡ ok (map exact bs)
unfolding demux
demux-concat [] more = refl
demux-concat (b ∷ bs) more = rw (append_assoc b (concat bs) more) (
    rw
      (
        le→leb (length b) (length (b ++ (concat bs ++ more)))
            (omega (arith, length-append b (concat bs ++ more))),
        drop-append b (concat bs ++ more),
      )
      (rw (demux-concat bs more) (
        ap (λ (t : List ℕ). ok (record { bytes = t; capacity = length b } ∷ map exact bs))
          (take-append b (concat bs ++ more)))))

pub sum_sizes-concat : (bs : List (List ℕ)) → sum_sizes (map length bs) ≡ length (concat bs)
unfolding sum_sizes
sum_sizes-concat [] = refl
sum_sizes-concat (b ∷ bs) = omega (arith, sum_sizes-concat bs, length-append b (concat bs))

pub unmarshal_runs :
    (h : List ℕ) (bs : List (List ℕ)) (more : List ℕ)
    → 0 < length h
    → unmarshal_stream_header (h ++ (concat bs ++ more)) ≡ ok (map length bs, concat bs ++ more)
    → unmarshal (h ++ (concat bs ++ more)) ≡ ok (multi_segment (map exact bs))
unfolding unmarshal
unmarshal_runs h bs more long header =
    rw
      (
        lt→ltb 0 (length (h ++ (concat bs ++ more)))
            (omega (arith, length-append h (concat bs ++ more))),
        header,
      )
      (rw (
        le→leb (sum_sizes (map length bs)) (length (concat bs ++ more))
            (omega (arith, sum_sizes-concat bs, length-append (concat bs) more)),
        demux-concat bs more,
      ))
