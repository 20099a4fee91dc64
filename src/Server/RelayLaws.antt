-- ===== src/Server/RelayLaws.antt =====
-- What the client of a streamed response gets: stream_push of src/core/server.c.
use naitron_c.Prelude.{
  ℕ, zero, suc, ◌+◌, ◌≤◌, Bool, true, false, List, [], ◌∷◌, ◌++◌, some, ltb, ◌==◌, if◌then◌else◌,
  Bytes, length, take, drop, ◌≡◌, refl, sym, ap, ◌∙◌, inl, inr, arith, Bool-cases, Option-cases,
  append-nil, append_assoc, drop-nil, drop-add, take-append-drop, some-inj, >>=-eq_some,
  unless-eq_some,
}
use naitron_c.Server.Relay.{
  stream_max_buf, StreamConn, Io, shut, has_unsent, send_some, drained, flush_stream, stream_kick,
  compact, append_bytes, push_bytes, stream_push, push_next,
}
use naitron_c.Server.Pipe.{buf_reserve, SendResult, sent, interrupted, would_block, broken}
use mathlib.Core.Path.{subst}

-- The bytes that are still to be sent.
abbrev pub unsent : StreamConn → Bytes
unsent c = drop c.swsent c.swbuf

-- The client has got a beginning of the bytes s, and the rest stands in the buffer.
pub record Buffers (sse : Bool) (c : StreamConn) (s : Bytes) : Type 0 where
  pub streaming : c.streaming ≡ true
  pub framing : c.stream_sse ≡ sse
  pub whole : c.out ++ unsent c ≡ s

-- The same of a connection that may be closed: then the client has got a beginning of s.
pub record Owes (sse : Bool) (c : StreamConn) (s : Bytes) : Type 0 where
  pub streaming : c.streaming ≡ true
  pub framing : c.stream_sse ≡ sse
  pub kept : c.closed ≡ false → c.out ++ unsent c ≡ s
  pub front : (rest : Bytes) × (c.out ++ rest ≡ s)

pub drop-all : (n : ℕ) (xs : Bytes) → length xs ≤ n → drop n xs ≡ []
drop-all n [] h = drop-nil n
drop-all zero (x ∷ xs) h = absurd (omega arith)
drop-all (suc n) (x ∷ xs) h = drop-all n xs (omega arith)

module _ (sse : Bool) where
  whole-Owes : (c : StreamConn) (s : Bytes) → Buffers sse c s → Owes sse c s
  whole-Owes c s b = record {
    streaming = b.streaming;
    framing = b.framing;
    kept = λ _. b.whole;
    front = (unsent c, b.whole);
  }

  shut-Owes : (c : StreamConn) (s : Bytes) → Owes sse c s → Owes sse (shut c) s
  unfolding shut
  shut-Owes c s o = record {
    streaming = o.streaming;
    framing = o.framing;
    kept = λ e. cc e;
    front = o.front;
  }

  pub if-Owes :
      (t : Bool) (c c' : StreamConn) (s : Bytes)
      → (t ≡ true → Owes sse c s)
      → (t ≡ false → Owes sse c' s)
      → Owes sse (if t then c else c') s
  if-Owes true c c' s o o' = o refl
  if-Owes false c c' s o o' = o' refl

  pub more-Owes :
      (c : StreamConn) (s more : Bytes) → Owes sse c s → c.closed ≡ true → Owes sse c (s ++ more)
  more-Owes c s more o shut_now = record {
    streaming = o.streaming;
    framing = o.framing;
    kept = λ e. cc (e, shut_now);
    front = (
      o.front.0 ++ more,
      sym (append_assoc c.out o.front.0 more) ∙ ap (λ xs. xs ++ more) o.front.1,
    );
  }

  drained-Owes :
      (rearmed : Bool) (c : StreamConn) (s : Bytes)
      → has_unsent c ≡ false
      → Buffers sse c s
      → Owes sse (drained rearmed c) s
  unfolding drained has_unsent
  drained-Owes rearmed c s all b =
      let empty : unsent c ≡ [] = drop-all c.swsent c.swbuf (ground (arith, all)) in
      let c' = record c { swbuf = []; swsent = 0 } in
      let now : Owes sse c' s = whole-Owes c' s (record {
        streaming = b.streaming;
        framing = b.framing;
        whole = ap (λ xs. c.out ++ xs) (sym empty) ∙ b.whole;
      }) in
      if-Owes c.stream_ended (shut c') (if rearmed then c' else shut c') s (λ _. shut-Owes c' s now)
        (λ _. if-Owes rearmed c' (shut c') s (λ _. now) (λ _. shut-Owes c' s now))

  pub send_some-Buffers :
      (c : StreamConn) (n : ℕ) (s : Bytes) → Buffers sse c s → Buffers sse (send_some c n) s
  unfolding send_some
  send_some-Buffers c n s b = record {
    streaming = b.streaming;
    framing = b.framing;
    whole =
        (let left = drop c.swsent c.swbuf in
          append_assoc c.out (take n left) (drop (c.swsent + n) c.swbuf)
          ∙ (ap (λ xs. c.out ++ xs)
                (ap (λ xs. take n left ++ xs) (drop-add c.swsent n c.swbuf)
                  ∙ take-append-drop n left)
              ∙ b.whole));
  }

  flush_stream-Owes :
      (rearmed : Bool) (c : StreamConn) (rs : List SendResult) (s : Bytes)
      → Buffers sse c s
      → Owes sse (flush_stream rearmed c rs) s
  unfolding flush_stream
  flush_stream-Owes rearmed c [] s b = elim (Bool-cases (has_unsent c)) [
    | inl t ↦ rw t (whole-Owes c s b)
    | inr f ↦ rw f (drained-Owes rearmed c s f b)
  ]
  flush_stream-Owes rearmed c (sent zero ∷ rs) s b = elim (Bool-cases (has_unsent c)) [
    | inl t ↦ rw t (shut-Owes c s (whole-Owes c s b))
    | inr f ↦ rw f (drained-Owes rearmed c s f b)
  ]
  flush_stream-Owes rearmed c (sent (suc n) ∷ rs) s b = elim (Bool-cases (has_unsent c)) [
    | inl t ↦
        rw t
          (flush_stream-Owes rearmed (send_some c (suc n)) rs s (send_some-Buffers c (suc n) s b))
    | inr f ↦ rw f (drained-Owes rearmed c s f b)
  ]
  flush_stream-Owes rearmed c (interrupted ∷ rs) s b = elim (Bool-cases (has_unsent c)) [
    | inl t ↦ rw t (flush_stream-Owes rearmed c rs s b)
    | inr f ↦ rw f (drained-Owes rearmed c s f b)
  ]
  flush_stream-Owes rearmed c (would_block ∷ rs) s b = elim (Bool-cases (has_unsent c)) [
    | inl t ↦ rw t (whole-Owes c s b)
    | inr f ↦ rw f (drained-Owes rearmed c s f b)
  ]
  flush_stream-Owes rearmed c (broken ∷ rs) s b = elim (Bool-cases (has_unsent c)) [
    | inl t ↦ rw t (shut-Owes c s (whole-Owes c s b))
    | inr f ↦ rw f (drained-Owes rearmed c s f b)
  ]

  stream_kick-Owes :
      (io : Io) (c : StreamConn) (s : Bytes) → Buffers sse c s → Owes sse (stream_kick io c) s
  unfolding stream_kick
  stream_kick-Owes io c s b = elim (Bool-cases io.armed) [
    | inl t ↦ rw t (flush_stream-Owes io.rearmed c io.sends s b)
    | inr f ↦ rw f (shut-Owes c s (whole-Owes c s b))
  ]

  pub append_bytes-Buffers :
      (memory : Bool) (c : StreamConn) (bytes s : Bytes) {c' : StreamConn}
      → c.swsent ≡ 0
      → Buffers sse c s
      → append_bytes memory c bytes ≡ some c'
      → Buffers sse c' (s ++ bytes)
  unfolding append_bytes
  append_bytes-Buffers memory c bytes s start b h =
      let need : ℕ = length c.swbuf + length bytes in
      let (_, h') = unless-eq_some (ltb stream_max_buf need) _ h in
      let (cap, _, e) = >>=-eq_some (buf_reserve memory c.swcap need) _ h' in
      subst (λ c'. Buffers sse c' (s ++ bytes)) (some-inj e)
        (record {
          streaming = b.streaming;
          framing = b.framing;
          whole =
              ap (λ n. c.out ++ drop n (c.swbuf ++ bytes)) start
              ∙ (sym (append_assoc c.out c.swbuf bytes)
                  ∙ ap (λ xs. xs ++ bytes)
                      (sym (ap (λ n. c.out ++ drop n c.swbuf) start) ∙ b.whole));
        })

  -- A push adds its bytes to what the client is owed.
  push_bytes-Owes :
      (io : Io) (c : StreamConn) (bytes s : Bytes)
      → c.swsent ≡ 0
      → Buffers sse c s
      → Owes sse (push_bytes io c (append_bytes io.memory c bytes)) (s ++ bytes)
  unfolding push_bytes shut
  push_bytes-Owes io c bytes s start b = elim (Option-cases (append_bytes io.memory c bytes)) [
    | inl n ↦ rw n (more-Owes (shut c) s bytes (shut-Owes c s (whole-Owes c s b)) refl)
    | inr (c', e) ↦
        rw e
          (stream_kick-Owes io c' (s ++ bytes) (append_bytes-Buffers io.memory c bytes s start b e))
  ]

  pub stream_push-Owes :
      (io : Io) (c : StreamConn) (bytes s : Bytes)
      → Buffers sse c s
      → Owes sse (stream_push io c bytes) (s ++ bytes)
  unfolding stream_push compact
  stream_push-Owes io c [] s b =
      subst (λ s. Owes sse (stream_kick io c) s) (sym (append-nil s)) (stream_kick-Owes io c s b)
  stream_push-Owes io c (x ∷ bytes) s b =
      let full : (length (x ∷ bytes) == 0) ≡ false = ground arith in
      let c' = record c { swbuf = drop c.swsent c.swbuf; swsent = 0 } in
      rw full (
        push_bytes-Owes io c' (x ∷ bytes) s refl
          (record { streaming = b.streaming; framing = b.framing; whole = b.whole }))

  pub push_next-Owes :
      (io : Io) (c : StreamConn) (bytes s : Bytes)
      → Owes sse c s
      → Owes sse (push_next io c bytes) (s ++ bytes)
  unfolding push_next
  push_next-Owes io c bytes s o =
      if-Owes c.closed c (stream_push io c bytes) (s ++ bytes) (more-Owes c s bytes o)
        (λ open_still.
          stream_push-Owes io c bytes s
            (record { streaming = o.streaming; framing = o.framing; whole = o.kept open_still }))
