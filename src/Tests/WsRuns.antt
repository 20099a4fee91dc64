-- ===== src/Tests/WsRuns.antt =====
-- Runs of the WebSocket codec.
use naitron_c.Prelude.{◌+◌, true, [], ◌∷◌, ◌++◌, some, ◌≡◌, refl, arith, codes}
use naitron_c.Ws.Masking.{masked_with}
use naitron_c.Ws.Codec.{ws_frame, ws_decode, ws_header, header_size, ws_encode}
use naitron_c.Ws.Laws.{header_with, ws_decode-ws_encode, ws_decode_masked}

hello_encoded : ws_encode 1 (codes "hi") 16 ≡ some (129 ∷ 2 ∷ b'h' ∷ b'i' ∷ [])
unfolding ws_encode header_size ws_header
hello_encoded = refl

ws_decode-ws_encode_example :
    ws_decode ((129 ∷ 2 ∷ b'h' ∷ b'i' ∷ []) ++ codes "next") ≡ ws_frame 4 1 true (codes "hi")
ws_decode-ws_encode_example =
    ws_decode-ws_encode 1 (codes "hi") (codes "next") 16 (omega arith) (omega arith) hello_encoded

ws_decode_masked_example :
    ws_decode (
      header_with 128 1 2
      ++ ((1 ∷ 2 ∷ 3 ∷ 4 ∷ []) ++ (masked_with 1 2 3 4 (codes "hi") ++ codes "next")))
    ≡ ws_frame (header_size 2 + 4 + 2) 1 true (codes "hi")
ws_decode_masked_example =
    ws_decode_masked 1 1 2 3 4 (codes "hi") (codes "next") (omega arith) (omega arith) (omega arith)
      (omega arith)
