-- ===== src/Tests/PipeRuns.antt =====
-- Runs of the buffers between the gateway and a controller.
use naitron_c.Prelude.{ℕ, ◌≤◌, true, List, [], ◌∷◌, ◌++◌, some, Bytes, take, drop, ◌≡◌, refl, arith}
use naitron_c.Server.PipeLaws.{written, Sent, frame_bytes, message_of}
use naitron_c.Wire.Frame.{write_header}
use naitron_c.Server.Queue.{joined, serve, serve-written}
use naitron_c.Server.Pipe.{Ctrl, buf_reserve}
use naitron_c.Server.Reserve.{buf_reserve-enough}

buf_reserve-enough_example : (c : ℕ) × (buf_reserve true 4096 20000 ≡ some c) × (20000 ≤ c)
buf_reserve-enough_example = buf_reserve-enough 4096 20000 (omega arith)

abbrev fresh : Ctrl
fresh = record { rbuf = []; rcap = 0; wbuf = []; wsent = 0; wcap = 0 }

abbrev chunk : Sent
chunk = record {
  type = 8;
  rid = 7;
  payload = 0 ∷ 0 ∷ 0 ∷ 1 ∷ b'x' ∷ [];
  type_fits = omega arith;
  rid_fits = omega arith;
  payload_fits = omega arith;
}

abbrev ending : Sent
ending = record {
  type = 9;
  rid = 7;
  payload = [];
  type_fits = omega arith;
  rid_fits = omega arith;
  payload_fits = omega arith;
}

-- Two frames in three reads of two events, which cut both frames.
abbrev events : List (List Bytes)
events =
    (take 5 (frame_bytes chunk) ∷ (drop 5 (frame_bytes chunk) ++ take 3 (frame_bytes ending)) ∷ [])
    ∷ (drop 3 (frame_bytes ending) ∷ [])
    ∷ []

serve-written_example :
    (ct' : Ctrl) × (serve fresh events
      ≡ record { messages = message_of chunk ∷ message_of ending ∷ []; left = some ct' })
    × (ct'.rbuf ≡ [])
unfolding joined write_header written
serve-written_example =
    serve-written 64 events fresh (chunk ∷ ending ∷ []) (omega arith, (omega arith, tt))
      (omega arith, (omega arith, tt)) refl refl
