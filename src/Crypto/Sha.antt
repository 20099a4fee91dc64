-- ===== src/Crypto/Sha.antt =====
-- SHA-256 of src/common/crypto.c. A word is a number below 2^32; `|` of shifted words with no
-- common bit is their sum.
use Prim.Native.Nat.{bit_and, bit_xor, min}
use naitron_c.Prelude.{
  ℕ, zero, suc, ◌+◌, ◌-◌, ◌*◌, ◌/◌, ◌%◌, ◌^◌, List, [], ◌∷◌, ◌++◌, ltb, ◌==◌, ◌!=◌, if◌then◌else◌,
  Bytes, length, take, drop, get_or, map,
}

abbrev pub round_constants : List ℕ
round_constants =
    0x428a2f98 ∷ 0x71374491 ∷ 0xb5c0fbcf ∷ 0xe9b5dba5 ∷ 0x3956c25b ∷ 0x59f111f1 ∷ 0x923f82a4
    ∷ 0xab1c5ed5 ∷ 0xd807aa98 ∷ 0x12835b01 ∷ 0x243185be ∷ 0x550c7dc3 ∷ 0x72be5d74 ∷ 0x80deb1fe
    ∷ 0x9bdc06a7 ∷ 0xc19bf174 ∷ 0xe49b69c1 ∷ 0xefbe4786 ∷ 0x0fc19dc6 ∷ 0x240ca1cc ∷ 0x2de92c6f
    ∷ 0x4a7484aa ∷ 0x5cb0a9dc ∷ 0x76f988da ∷ 0x983e5152 ∷ 0xa831c66d ∷ 0xb00327c8 ∷ 0xbf597fc7
    ∷ 0xc6e00bf3 ∷ 0xd5a79147 ∷ 0x06ca6351 ∷ 0x14292967 ∷ 0x27b70a85 ∷ 0x2e1b2138 ∷ 0x4d2c6dfc
    ∷ 0x53380d13 ∷ 0x650a7354 ∷ 0x766a0abb ∷ 0x81c2c92e ∷ 0x92722c85 ∷ 0xa2bfe8a1 ∷ 0xa81a664b
    ∷ 0xc24b8b70 ∷ 0xc76c51a3 ∷ 0xd192e819 ∷ 0xd6990624 ∷ 0xf40e3585 ∷ 0x106aa070 ∷ 0x19a4c116
    ∷ 0x1e376c08 ∷ 0x2748774c ∷ 0x34b0bcb5 ∷ 0x391c0cb3 ∷ 0x4ed8aa4a ∷ 0x5b9cca4f ∷ 0x682e6ff3
    ∷ 0x748f82ee ∷ 0x78a5636f ∷ 0x84c87814 ∷ 0x8cc70208 ∷ 0x90befffa ∷ 0xa4506ceb ∷ 0xbef9a3f7
    ∷ 0xc67178f2 ∷ []

-- The working variables, and the words of the state `h`.
pub record Words : Type 0 where
  pub a : ℕ
  pub b : ℕ
  pub c : ℕ
  pub d : ℕ
  pub e : ℕ
  pub f : ℕ
  pub g : ℕ
  pub h : ℕ

-- `buf[0 .. n)` is a list.
pub record ShaCtx : Type 0 where
  pub state : Words
  pub total : ℕ
  pub buf : Bytes

abbrev pub initial_words : Words
initial_words = record {
  a = 0x6a09e667;
  b = 0xbb67ae85;
  c = 0x3c6ef372;
  d = 0xa54ff53a;
  e = 0x510e527f;
  f = 0x9b05688c;
  g = 0x1f83d9ab;
  h = 0x5be0cd19;
}

abbrev pub sha_init : ShaCtx
sha_init = record { state = initial_words; total = 0; buf = [] }

unfoldable pub rotr : ℕ → ℕ → ℕ
rotr x n = x / 2 ^ n + x * 2 ^ (32 - n) % 2 ^ 32

-- The first sixteen words of the schedule.
unfoldable pub block_words : ℕ → Bytes → List ℕ
block_words zero p = []
block_words (suc n) p =
    (get_or p 0 0 * 2 ^ 24 + get_or p 1 0 * 2 ^ 16 + get_or p 2 0 * 2 ^ 8 + get_or p 3 0)
    ∷ block_words n (drop 4 p)

unfoldable pub reversed : List ℕ → List ℕ → List ℕ
reversed [] acc = acc
reversed (x ∷ xs) acc = reversed xs (x ∷ acc)

-- The loop from 16 to 64, on the words so far with the last one first.
unfoldable pub schedule : ℕ → List ℕ → List ℕ
schedule zero ws = ws
schedule (suc n) ws =
    let w15 = get_or ws 14 0 in
    let w2 = get_or ws 1 0 in
    let s0 = bit_xor (bit_xor (rotr w15 7) (rotr w15 18)) (w15 / 2 ^ 3) in
    let s1 = bit_xor (bit_xor (rotr w2 17) (rotr w2 19)) (w2 / 2 ^ 10) in
    schedule n ((get_or ws 15 0 + s0 + get_or ws 6 0 + s1) % 2 ^ 32 ∷ ws)

unfoldable pub sha_round : Words → ℕ → ℕ → Words
sha_round v k w =
    let s1 = bit_xor (bit_xor (rotr v.e 6) (rotr v.e 11)) (rotr v.e 25) in
    let ch = bit_xor (bit_and v.e v.f) (bit_and (2 ^ 32 - 1 - v.e) v.g) in
    let t1 = (v.h + s1 + ch + k + w) % 2 ^ 32 in
    let s0 = bit_xor (bit_xor (rotr v.a 2) (rotr v.a 13)) (rotr v.a 22) in
    let maj = bit_xor (bit_xor (bit_and v.a v.b) (bit_and v.a v.c)) (bit_and v.b v.c) in
    let t2 = (s0 + maj) % 2 ^ 32 in
    record {
      a = (t1 + t2) % 2 ^ 32;
      b = v.a;
      c = v.b;
      d = v.c;
      e = (v.d + t1) % 2 ^ 32;
      f = v.e;
      g = v.f;
      h = v.g;
    }

unfoldable pub rounds : Words → List ℕ → List ℕ → Words
rounds v (k ∷ ks) (w ∷ ws) = rounds (sha_round v k w) ks ws
rounds v _ _ = v

unfoldable pub add_words : Words → Words → Words
add_words v w = record {
  a = (v.a + w.a) % 2 ^ 32;
  b = (v.b + w.b) % 2 ^ 32;
  c = (v.c + w.c) % 2 ^ 32;
  d = (v.d + w.d) % 2 ^ 32;
  e = (v.e + w.e) % 2 ^ 32;
  f = (v.f + w.f) % 2 ^ 32;
  g = (v.g + w.g) % 2 ^ 32;
  h = (v.h + w.h) % 2 ^ 32;
}

-- `sha_block` on the 64 bytes of `p`.
unfoldable pub sha_block : Words → Bytes → Words
sha_block v p =
    add_words v
      (rounds v round_constants (reversed (schedule 48 (reversed (block_words 16 p) [])) []))

-- `if (c->n == 64)`, behind the copy into the buffer.
unfoldable pub flush : ShaCtx → ShaCtx
flush c = if length c.buf == 64 then record c { state = sha_block c.state c.buf; buf = [] } else c

-- The loop of `sha_update`; it copies as much as the buffer has room for.
unfoldable pub update_loop : ℕ → ShaCtx → Bytes → ShaCtx
update_loop zero c p = c
update_loop (suc fuel) c [] = c
update_loop (suc fuel) c (x ∷ p) =
    let taken = min (64 - length c.buf) (length (x ∷ p)) in
    update_loop fuel (flush (record c { buf = c.buf ++ take taken (x ∷ p) })) (drop taken (x ∷ p))

unfoldable pub sha_update : ShaCtx → Bytes → ShaCtx
sha_update c p = update_loop (length p) (record c { total = (c.total + length p) % 2 ^ 64 }) p

-- `while (c->n != 56) sha_update(c, &zero, 1)`.
unfoldable pub pad_loop : ℕ → ShaCtx → ShaCtx
pad_loop zero c = c
pad_loop (suc fuel) c =
    let rest = pad_loop fuel (sha_update c (0 ∷ [])) in if length c.buf != 56 then rest else c

unfoldable pub be_word : ℕ → Bytes
be_word w = w / 2 ^ 24 % 256 ∷ w / 2 ^ 16 % 256 ∷ w / 2 ^ 8 % 256 ∷ w % 256 ∷ []

-- `lenb`.
unfoldable pub length_bytes : ℕ → Bytes
length_bytes bits = be_word (bits / 2 ^ 32) ++ be_word (bits % 2 ^ 32)

unfoldable pub digest : Words → Bytes
digest v =
    be_word v.a
    ++ (be_word v.b
        ++ (be_word v.c
            ++ (be_word v.d ++ (be_word v.e ++ (be_word v.f ++ (be_word v.g ++ be_word v.h))))))

unfoldable pub sha_final : ShaCtx → Bytes
sha_final c =
    let bits = c.total * 8 % 2 ^ 64 in
    let padded = pad_loop 64 (sha_update c (0x80 ∷ [])) in
    digest (sha_update padded (length_bytes bits)).state

unfoldable pub sha256 : Bytes → Bytes
sha256 data_bytes = sha_final (sha_update sha_init data_bytes)

-- The key of the HMAC, filled up with zeros to 64 bytes.
unfoldable pub fill : ℕ → Bytes → Bytes
fill zero k = []
fill (suc n) [] = 0 ∷ fill n []
fill (suc n) (x ∷ k) = x ∷ fill n k

unfoldable pub hmac_key : Bytes → Bytes
hmac_key key = fill 64 (if ltb 64 (length key) then sha256 key else key)

unfoldable pub hmac_sha256 : Bytes → Bytes → Bytes
hmac_sha256 key msg =
    let k = hmac_key key in
    let inner = sha_final (sha_update (sha_update sha_init (map (λ x. bit_xor x 0x36) k)) msg) in
    sha_final (sha_update (sha_update sha_init (map (λ x. bit_xor x 0x5c) k)) inner)
