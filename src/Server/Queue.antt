-- ===== src/Server/Queue.antt =====
-- The pipe of src/core/server.c carries a queue of messages, however its bytes are cut into reads and
-- events of the poller.
use naitron_c.Prelude.{
  ℕ, suc, ◌+◌, ◌≤◌, true, false, List, [], ◌∷◌, ◌++◌, Option, none, some, ltb, Bytes, length, ◌≡◌,
  refl, sym, ap, ◌∙◌, arith, map, All, append-nil, append_assoc, length-append,
}
use naitron_c.Wire.Frame.{incomplete, read_frame}
use naitron_c.Server.PipeLaws.{
  empty-incomplete, Drains-incomplete, progress, Progress, Drains, drain_loop-Drains, Sent, written,
  message_of, IsSmall, whole_first, le→ltb_false,
}
use mathlib.Core.Path.{subst}
use naitron_c.Server.Pipe.{
  Ctrl, ctrl_max_rbuf, RecvResult, got, no_more, recv_loop, Message, Reading, keep_rest, drain,
  on_ctrl_readable,
}
use naitron_c.Server.Reserve.{buf_reserve-enough}

unfoldable pub joined : List Bytes → Bytes
joined [] = []
joined (c ∷ cs) = c ++ joined cs

-- An event: `recv` gives the chunks and then has no more.
abbrev pub reads : List Bytes → List RecvResult
reads [] = no_more ∷ []
reads (c ∷ cs) = got c ∷ reads cs

-- What follows an event, as long as the controller lives.
unfoldable pub serve_on : List Message → Option Ctrl → (Ctrl → Reading) → Reading
serve_on ms none rest = record { messages = ms; left = none }
serve_on ms (some ct) rest = record { messages = ms ++ (rest ct).messages; left = (rest ct).left }

-- The events one after another.
unfoldable pub serve : Ctrl → List (List Bytes) → Reading
serve ct [] = record { messages = []; left = some ct }
serve ct (cs ∷ events) =
    let first = on_ctrl_readable true ct (reads cs) in
    serve_on first.messages first.left (λ ct'. serve ct' events)

recv_loop-reads :
    (cs : List Bytes) (ct : Ctrl)
    → length ct.rbuf + length (joined cs) ≤ ctrl_max_rbuf
    → (ct' : Ctrl) × (recv_loop true ct (reads cs) ≡ some ct') × (ct'.rbuf ≡ ct.rbuf ++ joined cs)
unfolding recv_loop joined
recv_loop-reads [] ct h =
    let (room, e, le) = buf_reserve-enough ct.rcap (length ct.rbuf + 16384) (omega arith) in
    (record ct { rcap = room }, rw e refl, sym (append-nil ct.rbuf))
recv_loop-reads (c ∷ cs) ct h =
    let (room, e, le) = buf_reserve-enough ct.rcap (length ct.rbuf + 16384) (omega arith) in
    let fits : ltb ctrl_max_rbuf (length ct.rbuf + length c) ≡ false =
      le→ltb_false ctrl_max_rbuf (length ct.rbuf + length c)
        (omega (arith, length-append c (joined cs))) in
    let (ct', e', same) =
      recv_loop-reads cs (record ct { rbuf = ct.rbuf ++ c; rcap = room })
        (omega (arith, length-append ct.rbuf c, length-append c (joined cs))) in
    (ct', rw (e, fits) e', same ∙ append_assoc ct.rbuf c (joined cs))

-- One event reads the whole messages that are there.
event-Progress :
    {biggest : ℕ} (cs : List Bytes) (ct : Ctrl) (more : Bytes) (ss : List Sent)
    → length ct.rbuf + length (joined cs) ≤ ctrl_max_rbuf
    → (p : Progress biggest (ct.rbuf ++ joined cs) more ss)
    → (ct' : Ctrl) × (on_ctrl_readable true ct (reads cs)
        ≡ record { messages = map message_of p.done; left = some ct' })
      × (ct'.rbuf ≡ p.rest)
unfolding on_ctrl_readable drain keep_rest
event-Progress cs ct more ss h p =
    let (ct', received, same) = recv_loop-reads cs ct h in
    let drained =
      drain_loop-Drains (suc (length ct'.rbuf))
        (subst (λ b. Drains b (map message_of p.done) p.rest) (sym same) p.drains) (omega arith) in
    (record ct' { rbuf = p.rest }, rw (received, drained) refl, refl)

map-append :
    (xs ys : List Sent) → map message_of (xs ++ ys) ≡ map message_of xs ++ map message_of ys
map-append [] ys = refl
map-append (x ∷ xs) ys = ap (◌∷◌ (message_of x)) (map-append xs ys)

-- Nothing is left to come when the buffer holds no whole message and no bytes follow.
nothing_left :
    (ss : List Sent) (buf : Bytes) → read_frame buf ≡ incomplete → buf ≡ written ss → ss ≡ []
unfolding written
nothing_left [] buf h e = refl
nothing_left (s ∷ ss) buf h e = absurd (cc (h, e, whole_first s (written ss)))

-- The bytes of an event fit beside the start of a message.
abbrev pub FitsWith : ℕ → List Bytes → Type 0
FitsWith biggest cs = biggest + length (joined cs) ≤ ctrl_max_rbuf

serve-written_from :
    {biggest : ℕ} (events : List (List Bytes)) (ct : Ctrl) (ss : List Sent)
    → All (FitsWith biggest) events
    → All (IsSmall biggest) ss
    → length ct.rbuf ≤ biggest
    → read_frame ct.rbuf ≡ incomplete
    → ct.rbuf ++ joined (map joined events) ≡ written ss
    → (ct' : Ctrl) × (serve ct events ≡ record { messages = map message_of ss; left = some ct' })
      × (ct'.rbuf ≡ [])
unfolding serve serve_on joined written
serve-written_from [] ct ss fits small short open_frame e =
    let none_left = nothing_left ss ct.rbuf open_frame (sym (append-nil ct.rbuf) ∙ e) in
    (ct, rw none_left refl, sym (append-nil ct.rbuf) ∙ (e ∙ ap written none_left))
serve-written_from {biggest} (cs ∷ events) ct ss fits small short open_frame e =
    let more : Bytes = joined (map joined events) in
    let p : Progress biggest (ct.rbuf ++ joined cs) more ss =
      progress ss (ct.rbuf ++ joined cs) more (append_assoc ct.rbuf (joined cs) more ∙ e) small in
    let (ct1, read, same) = event-Progress cs ct more ss (omega (arith, fits.0)) p in
    let (ct2, served, emptied) =
      serve-written_from events ct1 p.todo fits.1 p.all_small
        (omega (arith, p.small, ap length same)) (ap read_frame same ∙ Drains-incomplete p.drains)
        (ap (λ b. b ++ more) same ∙ p.ahead) in
    (
      ct2,
      rw (read, served)
          (ap (λ ms. record { messages = ms; left = some ct2 })
            (sym (map-append p.done p.todo) ∙ ap (map message_of) (sym p.in_order))),
      emptied,
    )

-- Messages that a controller writes, each of at most `biggest` bytes, come out of the gateway's
-- buffer one by one, complete and in order, and the buffer is empty behind the last one. This holds
-- for every cut of their bytes into reads, and of the reads into events of the poller, where the
-- bytes of an event fit beside the start of a message into the limit of 4 MB. Every realloc succeeds.
pub serve-written :
    (biggest : ℕ) (events : List (List Bytes)) (ct : Ctrl) (ss : List Sent)
    → All (FitsWith biggest) events
    → All (IsSmall biggest) ss
    → ct.rbuf ≡ []
    → joined (map joined events) ≡ written ss
    → (ct' : Ctrl) × (serve ct events ≡ record { messages = map message_of ss; left = some ct' })
      × (ct'.rbuf ≡ [])
serve-written biggest events ct ss fits small empty e =
    serve-written_from events ct ss fits small (omega (arith, ap length empty))
      (ap read_frame empty ∙ empty-incomplete) (ap (λ b. b ++ joined (map joined events)) empty ∙ e)
