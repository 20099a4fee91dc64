-- ===== src/Server/Written.antt =====
-- What src/core/server.c writes of a stream that has ended, once the socket takes bytes again.
use naitron_c.Prelude.{
  zero, suc, ◌+◌, ◌≤◌, Bool, true, List, [], ◌∷◌, ltb, if◌then◌else◌, Bytes, length, ◌≡◌, refl, ap,
  ◌∙◌, inl, inr, arith, Bool-cases, All, length-append, length-drop,
}
use naitron_c.Server.Relay.{StreamConn, flush_stream, drained, has_unsent, send_some, shut}
use naitron_c.Server.RelayLaws.{unsent}
use naitron_c.Server.Pipe.{SendResult, sent, interrupted, would_block, broken}
use naitron_c.Server.Working.{Goes, flush_stream-Kept, Kept}

-- A send that takes some bytes.
abbrev pub Takes : SendResult → Type 0
Takes (sent zero) = ⊥
Takes (sent (suc n)) = Unit
Takes interrupted = ⊥
Takes would_block = ⊥
Takes broken = ⊥

Takes-Goes : (rs : List SendResult) → All Takes rs → All Goes rs
Takes-Goes [] h = tt
Takes-Goes (sent zero ∷ rs) h = absurd h.0
Takes-Goes (sent (suc n) ∷ rs) h = (tt, Takes-Goes rs h.1)
Takes-Goes (interrupted ∷ rs) h = absurd h.0
Takes-Goes (would_block ∷ rs) h = absurd h.0
Takes-Goes (broken ∷ rs) h = absurd h.0

-- With a send for each byte of the buffer, a stream that has ended is closed.
flush_stream-ends :
    (c : StreamConn) (rs : List SendResult)
    → All Takes rs
    → c.stream_ended ≡ true
    → length c.swbuf ≤ c.swsent + length rs
    → (flush_stream true c rs).closed ≡ true
unfolding flush_stream drained shut has_unsent send_some
flush_stream-ends c [] h e b = ground (arith, e, b)
flush_stream-ends c (sent zero ∷ rs) h e b = absurd h.0
flush_stream-ends c (sent (suc n) ∷ rs) h e b = elim (Bool-cases (ltb c.swsent (length c.swbuf))) [
  | inl t ↦ rw t (flush_stream-ends (send_some c (suc n)) rs h.1 e (omega (arith, b)))
  | inr f ↦ rw (f, e) refl
]
flush_stream-ends c (interrupted ∷ rs) h e b = absurd h.0
flush_stream-ends c (would_block ∷ rs) h e b = absurd h.0
flush_stream-ends c (broken ∷ rs) h e b = absurd h.0

-- An event at which the socket can be written and the poller succeeds; a connection that is closed
-- has none.
abbrev pub once_writable : List SendResult → StreamConn → StreamConn
once_writable rs c = if c.closed then c else flush_stream true c rs

pub once_writable-Kept :
    (sse : Bool) (rs : List SendResult) (c : StreamConn) (s : Bytes)
    → All Takes rs
    → length s ≤ length rs
    → Kept true sse c s
    → ((once_writable rs c).out ≡ s) × ((once_writable rs c).closed ≡ true)
once_writable-Kept sse rs c s h b k = elim (Bool-cases c.closed) [
  | inl t ↦
      let same : once_writable rs c ≡ c =
        ap (λ (b : Bool). if b then c else flush_stream true c rs) t in
      (
        ap (λ (d : StreamConn). d.out) same ∙ (k.finished t).1,
        ap (λ (d : StreamConn). d.closed) same ∙ t,
      )
  | inr f ↦
      let left : length c.swbuf ≤ c.swsent + length rs = omega (
        arith,
        b,
        ap length k.buffers.whole,
        length-append c.out (unsent c),
        length-drop c.swsent c.swbuf,
      ) in
      let closed = flush_stream-ends c rs h k.same_end left in
      let done =
        flush_stream-Kept true sse true c rs s refl (Takes-Goes rs h) f k.same_end k.buffers in
      let same : once_writable rs c ≡ flush_stream true c rs =
        ap (λ (b : Bool). if b then c else flush_stream true c rs) f in
      (
        ap (λ (d : StreamConn). d.out) same ∙ (done.finished closed).1,
        ap (λ (d : StreamConn). d.closed) same ∙ closed,
      )
]
