-- ===== src/Wire/FrameLaws.antt =====
-- Framing: what `read_frame` makes of whole, cut and damaged frames.
use naitron_c.Prelude.{
  ℕ, ◌+◌, ◌^◌, ◌≤◌, ◌<◌, [], ◌++◌, some, Bytes, length, drop, ◌≡◌, refl, sym, ap, ◌∙◌, arith,
  append-nil, length-append, get_or-append_front, drop-append_front, take-append_front,
  take-length_append, length-take, length-drop,
}
use naitron_c.Wire.Frame.{
  FrameResult, incomplete, parse_header, malformed, WireHeader, write_header, wire_version,
  read_frame, frame,
}
use naitron_c.Wire.Buffer.{get_u32}

-- A written frame is read back whole, with the sent fields, whatever bytes follow it.
pub read_frame-write_header :
    (type request_id : ℕ) (payload rest : Bytes)
    → type < 256
    → request_id < 2 ^ 32
    → length payload < 2 ^ 32
    → read_frame (write_header type request_id (length payload) ++ (payload ++ rest))
      ≡ frame
          (record {
            version = wire_version;
            type = type;
            request_id = request_id;
            length = length payload;
          })
          payload
          (16 + length payload)
unfolding read_frame write_header
read_frame-write_header type request_id payload rest ht hr hp =
    ground (arith, length-append payload rest, take-length_append payload rest)

word_at-append :
    (n : ℕ) (buf more : Bytes)
    → n + 4 ≤ length buf
    → get_u32 (drop n (buf ++ more)) ≡ get_u32 (drop n buf)
word_at-append n buf more h = ground (
  arith,
  drop-append_front n buf more,
  length-drop n buf,
  get_or-append_front (drop n buf) more 0 0,
  get_or-append_front (drop n buf) more 1 0,
  get_or-append_front (drop n buf) more 2 0,
  get_or-append_front (drop n buf) more 3 0,
)

module _ (buf more : Bytes) where
  -- A frame that is whole stays as it is when more bytes arrive behind it.
  pub read_frame-append :
      {h : WireHeader} {payload : Bytes} {consumed : ℕ}
      → read_frame buf ≡ frame h payload consumed
      → read_frame (buf ++ more) ≡ frame h payload consumed
  unfolding read_frame
  read_frame-append e = ground (
    arith,
    length-append buf more,
    length-drop 16 buf,
    word_at-append 0 buf more,
    word_at-append 8 buf more,
    word_at-append 12 buf more,
    get_or-append_front buf more 4 0,
    get_or-append_front buf more 5 0,
    drop-append_front 16 buf more,
    take-append_front (get_u32 (drop 12 buf)) (drop 16 buf) more,
  )

  -- More bytes do not mend a bad magic or version.
  pub read_frame-append_malformed :
      read_frame buf ≡ malformed → read_frame (buf ++ more) ≡ malformed
  unfolding read_frame
  read_frame-append_malformed e =
      ground
        (arith, length-append buf more, word_at-append 0 buf more, get_or-append_front buf more 4 0)

-- A frame takes its header and its payload, which are there.
pub read_frame_bounds :
    (buf : Bytes) {h : WireHeader} {payload : Bytes} {consumed : ℕ}
    → read_frame buf ≡ frame h payload consumed
    → (consumed ≡ 16 + h.length) × (length payload ≡ h.length) × (consumed ≤ length buf)
unfolding read_frame
read_frame_bounds buf e =
    ground (arith, length-take (get_u32 (drop 12 buf)) (drop 16 buf), length-drop 16 buf)

-- The blocking reader, which parses the header alone, takes the same header.
pub parse_header-read_frame :
    (buf : Bytes) {h : WireHeader} {payload : Bytes} {consumed : ℕ}
    → read_frame buf ≡ frame h payload consumed
    → parse_header buf ≡ some h
unfolding read_frame parse_header
parse_header-read_frame buf e = ground arith

pub length_write_header :
    (type request_id payload_len : ℕ) → length (write_header type request_id payload_len) ≡ 16
unfolding write_header
length_write_header type request_id payload_len = refl

-- A frame that is cut anywhere before its end is incomplete: never malformed, and never a
-- shorter frame.
pub read_frame_cut :
    (type request_id : ℕ) (payload front back : Bytes)
    → type < 256
    → request_id < 2 ^ 32
    → length payload < 2 ^ 32
    → write_header type request_id (length payload) ++ payload ≡ front ++ back
    → 0 < length back
    → read_frame front ≡ incomplete
read_frame_cut type request_id payload front back ht hr hp e hb = go (read_frame front) refl
  where
    whole :
        read_frame (front ++ back)
        ≡ frame
            (record {
              version = wire_version;
              type = type;
              request_id = request_id;
              length = length payload;
            })
            payload
            (16 + length payload)
    whole = rw (append-nil, e) at (read_frame-write_header type request_id payload [] ht hr hp)

    go : (r : FrameResult) → read_frame front ≡ r → read_frame front ≡ incomplete
    go incomplete p = p
    go malformed p = cc (whole, read_frame-append_malformed front back p)
    go (frame h pl consumed) p =
        let (at_end, _, within) = read_frame_bounds front p in
        let same = sym whole ∙ read_frame-append front back p in
        absurd (
          ground (
            arith,
            same,
            within,
            read_frame_bounds (front ++ back) whole,
            length-append front back,
            ap length e,
            length_write_header type request_id (length payload),
            length-append (write_header type request_id (length payload)) payload,
          ))
