-- ===== src/Server/Ended.antt =====
-- The end of a streamed response: gw_deliver_end of src/core/server.c.
use naitron_c.Prelude.{
  ℕ, zero, suc, ◌+◌, Bool, true, false, not, List, [], ◌∷◌, some, ltb, ◌==◌, if◌then◌else◌, Bytes,
  length, ◌≡◌, refl, sym, ap, ◌∙◌, inl, inr, Option-cases, some-inj, >>=-eq_some, unless-eq_some,
}
use naitron_c.Server.Pipe.{SendResult, sent, interrupted, would_block, broken, buf_reserve}
use naitron_c.Server.Relay.{
  StreamConn, Io, shut, has_unsent, send_some, drained, flush_stream, stream_kick, compact,
  append_bytes, push_bytes, stream_push, stream_max_buf, deliver_end,
}

-- The connection is closed or has bytes to send.
abbrev pub Waits : StreamConn → Type 0
Waits c = c.closed ≡ false → has_unsent c ≡ true

shut-Waits : (c : StreamConn) → Waits (shut c)
unfolding shut
shut-Waits c e = cc e

if-Waits :
    (t : Bool) (c c' : StreamConn)
    → (t ≡ true → Waits c)
    → (t ≡ false → Waits c')
    → Waits (if t then c else c')
if-Waits true c c' w w' = w refl
if-Waits false c c' w w' = w' refl

drained-Waits :
    (rearmed : Bool) (c : StreamConn) → c.stream_ended ≡ true → Waits (drained rearmed c)
unfolding drained
drained-Waits rearmed c ended =
    let c' = record c { swbuf = []; swsent = 0 } in
    if-Waits c.stream_ended (shut c') _ (λ _. shut-Waits c') (λ f. cc (f, ended))

flush_stream-Waits :
    (rearmed : Bool) (c : StreamConn) (rs : List SendResult)
    → c.stream_ended ≡ true
    → Waits (flush_stream rearmed c rs)
unfolding flush_stream send_some
flush_stream-Waits rearmed c [] ended =
    if-Waits (has_unsent c) c _ (λ t _. t) (λ _. drained-Waits rearmed c ended)
flush_stream-Waits rearmed c (sent zero ∷ rs) ended =
    if-Waits (has_unsent c) _ _ (λ _. shut-Waits c) (λ _. drained-Waits rearmed c ended)
flush_stream-Waits rearmed c (sent (suc n) ∷ rs) ended =
    if-Waits (has_unsent c) _ _ (λ _. flush_stream-Waits rearmed (send_some c (suc n)) rs ended)
      (λ _. drained-Waits rearmed c ended)
flush_stream-Waits rearmed c (interrupted ∷ rs) ended =
    if-Waits (has_unsent c) _ _ (λ _. flush_stream-Waits rearmed c rs ended)
      (λ _. drained-Waits rearmed c ended)
flush_stream-Waits rearmed c (would_block ∷ rs) ended =
    if-Waits (has_unsent c) c _ (λ t _. t) (λ _. drained-Waits rearmed c ended)
flush_stream-Waits rearmed c (broken ∷ rs) ended =
    if-Waits (has_unsent c) _ _ (λ _. shut-Waits c) (λ _. drained-Waits rearmed c ended)

stream_kick-Waits : (io : Io) (c : StreamConn) → c.stream_ended ≡ true → Waits (stream_kick io c)
unfolding stream_kick
stream_kick-Waits io c ended =
    if-Waits io.armed _ _ (λ _. flush_stream-Waits io.rearmed c io.sends ended) (λ _. shut-Waits c)

append_bytes-ended :
    (memory : Bool) (c : StreamConn) (bytes : Bytes) {c' : StreamConn}
    → append_bytes memory c bytes ≡ some c'
    → c'.stream_ended ≡ c.stream_ended
unfolding append_bytes
append_bytes-ended memory c bytes h =
    let need : ℕ = length c.swbuf + length bytes in
    let (_, h') = unless-eq_some (ltb stream_max_buf need) _ h in
    let (cap, _, e) = >>=-eq_some (buf_reserve memory c.swcap need) _ h' in
    ap (λ (c : StreamConn). c.stream_ended) (sym (some-inj e))

push_bytes-Waits :
    (io : Io) (c : StreamConn) (bytes : Bytes)
    → c.stream_ended ≡ true
    → Waits (push_bytes io c (append_bytes io.memory c bytes))
unfolding push_bytes
push_bytes-Waits io c bytes ended = elim (Option-cases (append_bytes io.memory c bytes)) [
  | inl n ↦ rw n (shut-Waits c)
  | inr (c', e) ↦ rw e (stream_kick-Waits io c' (append_bytes-ended io.memory c bytes e ∙ ended))
]

stream_push-Waits :
    (io : Io) (c : StreamConn) (bytes : Bytes)
    → c.stream_ended ≡ true
    → Waits (stream_push io c bytes)
unfolding stream_push compact
stream_push-Waits io c bytes ended =
    if-Waits (length bytes == 0) _ _ (λ _. stream_kick-Waits io c ended)
      (λ _. push_bytes-Waits io (compact c) bytes ended)

-- Behind the end a connection stays open only while it has bytes to send.
pub deliver_end-Waits : (io : Io) (c : StreamConn) → Waits (deliver_end io c)
unfolding deliver_end
deliver_end-Waits io c =
    if-Waits c.closed c _ (λ t e. cc (t, e))
      (λ _.
        if-Waits (not c.streaming) (shut c) _ (λ _. shut-Waits c)
          (λ _. stream_push-Waits io (record c { stream_ended = true }) _ refl))
