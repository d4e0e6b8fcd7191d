-- ===== src/Packed/Reader.antt =====
-- internal/packed/packed.go: the decompressor, a reader of the words of a packed stream.
pub mod Word
pub mod Remaining
pub mod Flush
pub mod Tags
pub mod Raw
pub mod Unpacked
pub mod Total
mod Tests
use go_capnproto.Prelude.{
  ℕ, zero, suc, ◌+◌, ◌-◌, ◌*◌, ◌^◌, min, bit_and, Bool, true, false, Option, none, some,
}
use go_capnproto.Prelude.{
  List, [], ◌∷◌, ◌++◌, length, take, drop, replicate, copy_at, ltb, leb, ◌==◌, u8, if◌then◌else◌,
  Error,
}
use go_capnproto.Address.{word_size}

-- What a Read or an io.ReadFull gives: the bytes that it stored, and the error or none for nil.
pub record Got (S : Type 0) : Type 0 where
  pub bytes : List ℕ
  pub error : Option Error
  pub after : S

-- The reader below, with io.ReadFull on it; it is not part of the package.
pub record Source (S : Type 0) : Type 0 where
  pub read : S → ℕ → Got S
  pub read_full : S → ℕ → Got S

pub data DecompressorState : Type 0 where
  normal_state post_ff_state readn_state raw_state : DecompressorState

pub record Decompressor : Type 0 where
  pub buf : List ℕ
  pub bufsz : ℕ
  pub ff_buf : List ℕ
  pub ff_buf_load_count : ℕ
  pub ff_buf_used_count : ℕ
  pub zeros : ℕ
  pub raw : ℕ
  pub state : DecompressorState

unfoldable pub new_reader : Decompressor
new_reader = record {
  buf = replicate word_size 0;
  bufsz = 0;
  ff_buf = replicate word_size 0;
  ff_buf_load_count = 0;
  ff_buf_used_count = 0;
  zeros = 0;
  raw = 0;
  state = normal_state;
}

-- The variables of `Read`: `room` is the length of `v`, `out` holds the bytes that were stored in
-- it so far, and `byte` is `b[0]`. `in_tags` says that the inner loop of the normal state runs.
pub record Frame (S : Type 0) : Type 0 where
  pub dec : Decompressor
  pub src : S
  pub room : ℕ
  pub out : List ℕ
  pub byte : ℕ
  pub in_tags : Bool

pub data Progress (S : Type 0) : Type 0 where
  again : Frame S → Progress S
  stop : Frame S → Option Error → Progress S

-- `b[0]` after a read into `b`.
abbrev pub byte_of : ℕ → List ℕ → ℕ
byte_of old [] = old
byte_of old (b ∷ bs) = b

-- The bits of a tag, from `i` on.
unfoldable pub count_ones : ℕ → ℕ → ℕ → ℕ
count_ones zero i tag = 0
count_ones (suc n) i tag =
    (if bit_and tag (u8 (2 ^ i)) == 0 then 0 else 1) + count_ones n (i + 1) tag

-- The bytes of a word, from `i` on: `buf` has those for the bits of the tag that are set.
unfoldable pub place_byte : Bool → List ℕ → ℕ × List ℕ
place_byte true buf = (0, buf)
place_byte false [] = (0, [])
place_byte false (b ∷ buf) = (b, buf)

unfoldable pub place_bytes : ℕ → ℕ → ℕ → List ℕ → List ℕ
place_bytes zero i tag buf = []
place_bytes (suc n) i tag buf =
    let (b, rest) = place_byte (bit_and tag (u8 (2 ^ i)) == 0) buf in
    b ∷ place_bytes n (i + 1) tag rest

module _ {S : Type 0} where
  -- `n` bytes go to `v`.
  abbrev pub store : Frame S → List ℕ → Frame S
  store f bytes = record f { room = f.room - length bytes; out = f.out ++ bytes }

  abbrev pub enter : Frame S → DecompressorState → Progress S
  enter f state = again (record f { dec = record f.dec { state = state } })

  -- Back at the test of the inner loop, which is in the normal state.
  abbrev pub next_tag : Frame S → Progress S
  next_tag f = again (record f { in_tags = ltb 0 f.room })

  unfoldable pub or_fail : Option Error → Frame S → Progress S → Progress S
  or_fail none f p = p
  or_fail (some e) f p = stop f (some e)

  -- The flush of the normal state: zeros first, and then the bytes of a word that is in `buf`.
  unfoldable pub flush_buf : Frame S → Progress S
  flush_buf f =
      let nc = min f.room f.dec.bufsz in
      let bytes = take nc (drop (word_size - f.dec.bufsz) f.dec.buf) in
      let f' = record (store f bytes) { dec = record f.dec { bufsz = f.dec.bufsz - nc } } in
      if ltb 0 f.dec.bufsz
      then if ltb 0 f'.dec.bufsz then stop f' none else next_tag f'
      else next_tag f

  unfoldable pub flush : Frame S → Progress S
  unfolding flush_buf
  flush f =
      let num0 = min f.room f.dec.zeros in
      let f' = record (store f (replicate num0 0)) {
        dec = record f.dec { zeros = f.dec.zeros - num0 };
      } in
      if ltb 0 f.dec.zeros
      then if ltb 0 f'.dec.zeros
        then stop f' none
        else if f'.room == 0
        then stop f' none
        else flush_buf f'
      else flush_buf f

module _ {S : Type 0} (io : Source S) where
  -- A tag of zero, and the byte that counts the zero words behind it.
  unfoldable pub zero_tag : Frame S → Progress S
  unfolding or_fail
  zero_tag f =
      let got = io.read f.src 1 in
      let count = byte_of f.byte got.bytes in
      let requested = (count + 1) * word_size in
      let zeros = min requested f.room in
      let g = record f { src = got.after; byte = count } in
      or_fail got.error g (
        next_tag (record (store g (replicate zeros 0)) {
          dec = record f.dec { zeros = requested - zeros };
        }))

  -- Any tag but zero and 0xff.
  unfoldable pub word_tag : Frame S → Progress S
  unfolding or_fail
  word_tag f =
      let got = io.read_full f.src (count_ones word_size 0 f.byte) in
      let buf = place_bytes word_size 0 f.byte got.bytes in
      let used = min f.room word_size in
      let g = record f { src = got.after } in
      or_fail got.error g (
        next_tag (record (store g (take used buf)) {
          dec = record f.dec { buf = buf; bufsz = word_size - used };
        }))

  abbrev pub unpacked_tag : Frame S → Progress S
  unpacked_tag f = again (record f {
    in_tags = false;
    dec = record f.dec { ff_buf_load_count = 0; ff_buf_used_count = 0; state = post_ff_state };
  })

  -- A round of the inner loop.
  unfoldable pub tag_step : Frame S → Progress S
  unfolding or_fail zero_tag word_tag
  tag_step f =
      let got = io.read f.src 1 in
      let tag = byte_of f.byte got.bytes in
      let g = record f { src = got.after; byte = tag } in
      or_fail got.error g
        (if tag == 0xff then unpacked_tag g else if tag == 0 then zero_tag g else word_tag g)

  unfoldable pub raw_step : Frame S → Progress S
  unfolding or_fail
  raw_step f =
      let got = io.read f.src (min f.room f.dec.raw) in
      let g = record (store f got.bytes) {
        src = got.after;
        dec = record f.dec { raw = f.dec.raw - length got.bytes };
      } in
      if ltb 0 f.dec.raw then or_fail got.error g (again g) else enter f normal_state

  unfoldable pub readn_step : Frame S → Progress S
  unfolding or_fail
  readn_step f =
      let got = io.read f.src 1 in
      let count = byte_of f.byte got.bytes in
      let g = record f { src = got.after; byte = count } in
      or_fail got.error g (
        if length got.bytes == 0
        then stop g none
        else again (record g { dec = record f.dec { raw = count * word_size; state = raw_state } }))

  -- More of the word behind a tag of 0xff is loaded. The word is not yet given out.
  unfoldable pub load_step : Frame S → Progress S
  unfolding or_fail
  load_step f =
      let loaded = f.dec.ff_buf_load_count in
      let got = io.read_full f.src (word_size - loaded) in
      let g = record f {
        src = got.after;
        dec = record f.dec {
          ff_buf = copy_at f.dec.ff_buf loaded got.bytes;
          ff_buf_load_count = loaded + length got.bytes;
        };
      } in
      if ltb loaded word_size
      then if length got.bytes == 0 then stop g got.error else or_fail got.error g (again g)
      else again f

  -- What is loaded and not yet given out goes to `v` first.
  abbrev pub give : Frame S → Frame S
  give f =
      let used = f.dec.ff_buf_used_count in
      let br = min f.room (f.dec.ff_buf_load_count - used) in
      record (store f (take br (drop used f.dec.ff_buf))) {
        dec = record f.dec { ff_buf_used_count = used + br };
      }

  unfoldable pub post_ff_step : Frame S → Progress S
  unfolding load_step
  post_ff_step f =
      let g = if ltb f.dec.ff_buf_used_count f.dec.ff_buf_load_count then give f else f in
      if leb word_size f.dec.ff_buf_used_count
      then enter f readn_state
      else if leb word_size g.dec.ff_buf_used_count
      then enter g readn_state
      else load_step g

  unfoldable pub by_state : DecompressorState → Frame S → Progress S
  by_state normal_state f = flush f
  by_state post_ff_state f = post_ff_step f
  by_state readn_state f = readn_step f
  by_state raw_state f = raw_step f

  -- A round of the outer loop, or of the inner one while that runs.
  unfoldable pub step : Frame S → Progress S
  unfolding by_state
  step f =
      if f.in_tags then tag_step f else if f.room == 0 then stop f none else by_state f.dec.state f

  -- The loop, by the rounds allowed: none when they do not suffice.
  unfoldable pub rounds : ℕ → Frame S → Option (Frame S × Option Error)
  rounds zero f = none
  rounds (suc n) f = elim (step f) [ again g ↦ rounds n g | stop g e ↦ some (g, e) ]

  -- `Read` of `size` bytes.
  unfoldable pub read : ℕ → Decompressor → S → ℕ → Option (Frame S × Option Error)
  read n dec src size =
      rounds n (record { dec = dec; src = src; room = size; out = []; byte = 0; in_tags = false })
