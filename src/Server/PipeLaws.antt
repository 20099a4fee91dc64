-- ===== src/Server/PipeLaws.antt =====
-- The pipe of src/core/server.c between a controller and the gateway carries a queue of messages,
-- however its bytes are cut into reads.
use naitron_c.Prelude.{
  ℕ, zero, suc, ◌+◌, ◌^◌, ◌≤◌, ◌<◌, false, List, [], ◌∷◌, ◌++◌, some, ltb, Bytes, length, take,
  drop, ◌≡◌, refl, sym, ap, ◌∙◌, inl, inr, arith, Bool-cases, map, All, append_assoc, length-append,
  drop-append_front, take-append_front, drop-length_append, take-length_append, length-drop,
  take-append-drop, ltb→lt,
}
use naitron_c.Wire.FrameLaws.{
  read_frame_cut, read_frame-write_header, read_frame_bounds, length_write_header,
}
use naitron_c.Server.Pipe.{Message, drain_next, drain_loop}
use mathlib.Core.Path.{subst}
use naitron_c.Wire.Frame.{WireHeader, incomplete, frame, read_frame, write_header, wire_version}

-- Reading `buf` gives the messages and stops at the bytes of an incomplete frame.
pub data Drains : Bytes → List Message → Bytes → Type 0 where
  stop : {buf : Bytes} → read_frame buf ≡ incomplete → Drains buf [] buf
  next :
      {buf : Bytes} {h : WireHeader} {payload : Bytes} {consumed : ℕ} {ms : List Message}
      {rest : Bytes}
      → read_frame buf ≡ frame h payload consumed
      → Drains (drop consumed buf) ms rest
      → Drains buf ((h, payload) ∷ ms) rest

-- What is left is an incomplete frame.
pub Drains-incomplete :
    {buf : Bytes} {ms : List Message} {rest : Bytes}
    → Drains buf ms rest
    → read_frame rest ≡ incomplete
Drains-incomplete (stop e) = e
Drains-incomplete (next e d) = Drains-incomplete d

-- The loop has enough fuel.
pub drain_loop-Drains :
    {buf : Bytes} {ms : List Message} {rest : Bytes} (fuel : ℕ)
    → Drains buf ms rest
    → length buf < fuel
    → drain_loop fuel buf ≡ record { messages = ms; left = some rest }
unfolding drain_loop drain_next
drain_loop-Drains zero d h = absurd (omega arith)
drain_loop-Drains (suc fuel) (stop e) h = rw e refl
drain_loop-Drains (suc fuel) (next {buf = buf} {consumed = consumed} e d) h =
    rw
      (
        e,
        drain_loop-Drains fuel d (omega (arith, length-drop consumed buf, read_frame_bounds buf e)),
      )
      refl

-- A message of a sender: a type, an id and a payload that fit into the header.
pub record Sent : Type 0 where
  pub type : ℕ
  pub rid : ℕ
  pub payload : Bytes
  pub type_fits : type < 256
  pub rid_fits : rid < 2 ^ 32
  pub payload_fits : length payload < 2 ^ 32

abbrev pub frame_bytes : Sent → Bytes
frame_bytes s = write_header s.type s.rid (length s.payload) ++ s.payload

unfoldable pub written : List Sent → Bytes
written [] = []
written (s ∷ ss) = frame_bytes s ++ written ss

abbrev pub message_of : Sent → Message
message_of s = (
  record { version = wire_version; type = s.type; request_id = s.rid; length = length s.payload },
  s.payload,
)

length-frame_bytes : (s : Sent) → length (frame_bytes s) ≡ 16 + length s.payload
length-frame_bytes s = omega (
  arith,
  length-append (write_header s.type s.rid (length s.payload)) s.payload,
  length_write_header s.type s.rid (length s.payload),
)

-- The frame has at most `biggest` bytes.
abbrev pub IsSmall : ℕ → Sent → Type 0
IsSmall biggest s = length (frame_bytes s) ≤ biggest

-- A run of bytes of what was written: the whole messages in it are read, and what is left is the
-- start of what is still to come.
pub record Progress (biggest : ℕ) (buf more : Bytes) (ss : List Sent) : Type 0 where
  pub done : List Sent
  pub todo : List Sent
  pub rest : Bytes
  pub in_order : ss ≡ done ++ todo
  pub drains : Drains buf (map message_of done) rest
  pub ahead : rest ++ more ≡ written todo
  pub small : length rest ≤ biggest
  pub all_small : All (IsSmall biggest) todo

pub empty-incomplete : read_frame [] ≡ incomplete
unfolding read_frame
empty-incomplete = refl

pub whole_first :
    (s : Sent) (buf : Bytes)
    → read_frame (frame_bytes s ++ buf) ≡ frame (message_of s).0 s.payload (16 + length s.payload)
whole_first s buf =
    ap read_frame (append_assoc (write_header s.type s.rid (length s.payload)) s.payload buf)
    ∙ read_frame-write_header s.type s.rid s.payload buf s.type_fits s.rid_fits s.payload_fits

Progress-whole :
    {biggest : ℕ} (s : Sent) (buf more : Bytes) (ss : List Sent)
    → Progress biggest buf more ss
    → Progress biggest (frame_bytes s ++ buf) more (s ∷ ss)
Progress-whole s buf more ss p = record {
  done = s ∷ p.done;
  todo = p.todo;
  rest = p.rest;
  in_order = ap (◌∷◌ s) p.in_order;
  drains =
      next (whole_first s buf)
        (subst (λ b. Drains b (map message_of p.done) p.rest) (sym (past s buf)) p.drains);
  ahead = p.ahead;
  small = p.small;
  all_small = p.all_small;
}
  where
    past : (s : Sent) (buf : Bytes) → drop (16 + length s.payload) (frame_bytes s ++ buf) ≡ buf
    past s buf =
        ap (λ n. drop n (frame_bytes s ++ buf)) (sym (length-frame_bytes s))
        ∙ drop-length_append (frame_bytes s) buf

ltb_false→le : (a b : ℕ) → ltb a b ≡ false → b ≤ a
ltb_false→le a b h = ground arith

pub le→ltb_false : (a b : ℕ) → b ≤ a → ltb a b ≡ false
le→ltb_false a b h = ground arith

-- Two cuts of one run of bytes, at a point that the second part reaches.
module _ (a b f w : Bytes) (e : a ++ b ≡ f ++ w) where
  shorter_part : length a ≤ length f → f ≡ a ++ drop (length a) f
  shorter_part h =
      sym (take-append-drop (length a) f)
      ∙ ap (λ t. t ++ drop (length a) f)
          (sym (take-append_front (length a) f w h)
            ∙ (ap (take (length a)) (sym e) ∙ take-length_append a b))

  longer_part : length f ≤ length a → a ≡ f ++ drop (length f) a
  longer_part h =
      sym (take-append-drop (length f) a)
      ∙ ap (λ t. t ++ drop (length f) a)
          (sym (take-append_front (length f) a b h)
            ∙ (ap (take (length f)) e ∙ take-length_append f w))

  longer_rest : length f ≤ length a → drop (length f) a ++ b ≡ w
  longer_rest h =
      sym (drop-append_front (length f) a b h) ∙ (ap (drop (length f)) e ∙ drop-length_append f w)

Progress-cut :
    {biggest : ℕ} (s : Sent) (buf more : Bytes) (ss : List Sent)
    → buf ++ more ≡ written (s ∷ ss)
    → length buf < length (frame_bytes s)
    → All (IsSmall biggest) (s ∷ ss)
    → Progress biggest buf more (s ∷ ss)
unfolding written
Progress-cut s buf more ss e h all = record {
  done = [];
  todo = s ∷ ss;
  rest = buf;
  in_order = refl;
  drains = stop (
      read_frame_cut s.type s.rid s.payload buf (drop (length buf) (frame_bytes s)) s.type_fits
        s.rid_fits s.payload_fits
        (shorter_part buf more (frame_bytes s) (written ss) e (omega arith))
        (omega (arith, length-drop (length buf) (frame_bytes s))));
  ahead = e;
  small = omega (arith, all.0);
  all_small = all;
}

pub progress :
    {biggest : ℕ} (ss : List Sent) (buf more : Bytes)
    → buf ++ more ≡ written ss
    → All (IsSmall biggest) ss
    → Progress biggest buf more ss
unfolding written
progress [] [] more e all = record {
  done = [];
  todo = [];
  rest = [];
  in_order = refl;
  drains = stop empty-incomplete;
  ahead = e;
  small = omega arith;
  all_small = tt;
}
progress [] (x ∷ buf) more e all = absurd (omega (arith, ap length e))
progress {biggest} (s ∷ ss) buf more e all =
    elim (Bool-cases (ltb (length buf) (length (frame_bytes s)))) [
      | inl t ↦ Progress-cut s buf more ss e (ltb→lt (length buf) (length (frame_bytes s)) t) all
      | inr g ↦
          let f = frame_bytes s in
          let long : length f ≤ length buf = ltb_false→le (length buf) (length f) g in
          subst (λ b. Progress biggest b more (s ∷ ss))
            (sym (longer_part buf more f (written ss) e long))
            (Progress-whole s (drop (length f) buf) more ss (
              progress ss (drop (length f) buf) more (longer_rest buf more f (written ss) e long)
                all.1))
    ]
