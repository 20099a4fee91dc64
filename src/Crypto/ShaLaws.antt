-- ===== src/Crypto/ShaLaws.antt =====
-- Feeding SHA-256 of src/common/crypto.c in pieces.
use Prim.Native.Nat.{min}
use naitron_c.Prelude.{
  ℕ, zero, suc, ◌+◌, ◌-◌, ◌%◌, ◌^◌, ◌≤◌, ◌<◌, true, false, [], ◌∷◌, ◌++◌, ◌==◌, Bytes, length, take,
  drop, ◌≡◌, refl, sym, ap, ◌∙◌, ◌⊎◌, inl, inr, arith, Bool-cases, append_assoc, length-append,
  length-take, length-drop, take-append-drop, ==_iff,
}
use naitron_c.Crypto.Sha.{ShaCtx, flush, update_loop, sha_update, pad_loop}

-- One byte at a time.
unfoldable pub feed : ShaCtx → ℕ → ShaCtx
feed c x = flush (record c { buf = c.buf ++ (x ∷ []) })

unfoldable pub feeds : ShaCtx → Bytes → ShaCtx
feeds c [] = c
feeds c (x ∷ p) = feeds (feed c x) p

-- There is room in the buffer.
abbrev pub HasRoom : ShaCtx → Type 0
HasRoom c = length c.buf < 64

flush_short : (c : ShaCtx) → HasRoom c → flush c ≡ c
unfolding flush
flush_short c h = elim (Bool-cases (length c.buf == 64)) [
  | inl t ↦ absurd (omega (arith, (==_iff (length c.buf) 64).0 t, h))
  | inr f ↦ rw f refl
]

flush-HasRoom : (c : ShaCtx) → length c.buf ≤ 64 → HasRoom (flush c)
unfolding flush
flush-HasRoom c h = elim (Bool-cases (length c.buf == 64)) [
  | inl t ↦ rw t (omega arith)
  | inr f ↦ rw f (ground (arith, f, h))
]

feed-HasRoom : (c : ShaCtx) (x : ℕ) → HasRoom c → HasRoom (feed c x)
unfolding feed
feed-HasRoom c x h =
    flush-HasRoom (record c { buf = c.buf ++ (x ∷ []) })
      (omega (arith, h, length-append c.buf (x ∷ [])))

pub feeds-HasRoom : (c : ShaCtx) (p : Bytes) → HasRoom c → HasRoom (feeds c p)
unfolding feeds
feeds-HasRoom c [] h = h
feeds-HasRoom c (x ∷ p) h = feeds-HasRoom (feed c x) p (feed-HasRoom c x h)

feeds-append : (c : ShaCtx) (xs ys : Bytes) → feeds c (xs ++ ys) ≡ feeds (feeds c xs) ys
unfolding feeds
feeds-append c [] ys = refl
feeds-append c (x ∷ xs) ys = feeds-append (feed c x) xs ys

-- A piece that fits into the buffer may be copied at once.
flush-append :
    (c : ShaCtx) (x : ℕ) (xs : Bytes)
    → length c.buf + length (x ∷ xs) ≤ 64
    → flush (record c { buf = c.buf ++ (x ∷ xs) }) ≡ feeds c (x ∷ xs)
unfolding feeds feed
flush-append c x [] h = refl
flush-append c x (y ∷ xs) h =
    let c' : ShaCtx = record c { buf = c.buf ++ (x ∷ []) } in
    let short = length-append c.buf (x ∷ []) in
    ap (λ b. flush (record c { buf = b })) (sym (append_assoc c.buf (x ∷ []) (y ∷ xs)))
    ∙ flush-append c' y xs (omega (arith, h, short))
    ∙ ap (λ d. feeds d (y ∷ xs)) (sym (flush_short c' (omega (arith, h, short))))

flush-piece :
    (c : ShaCtx) (xs : Bytes)
    → 1 ≤ length xs
    → length c.buf + length xs ≤ 64
    → flush (record c { buf = c.buf ++ xs }) ≡ feeds c xs
flush-piece c [] h k = absurd (omega arith)
flush-piece c (x ∷ xs) h k = flush-append c x xs k

update_loop-feeds :
    (fuel : ℕ) (c : ShaCtx) (p : Bytes)
    → HasRoom c
    → length p ≤ fuel
    → update_loop fuel c p ≡ feeds c p
unfolding update_loop
update_loop-feeds zero c [] h f = unfold feeds in refl
update_loop-feeds zero c (x ∷ p) h f = absurd (omega arith)
update_loop-feeds (suc fuel) c [] h f = unfold feeds in refl
update_loop-feeds (suc fuel) c (x ∷ p) h f =
    let n = min (64 - length c.buf) (length (x ∷ p)) in
    let size = length-take n (x ∷ p) in
    ap (λ d. update_loop fuel d (drop n (x ∷ p)))
      (flush-piece c (take n (x ∷ p)) (omega (arith, size, h)) (omega (arith, size, h)))
    ∙ update_loop-feeds fuel (feeds c (take n (x ∷ p))) (drop n (x ∷ p)) (feeds-HasRoom c _ h)
        (omega (arith, length-drop n (x ∷ p), f, h))
    ∙ sym (feeds-append c (take n (x ∷ p)) (drop n (x ∷ p)))
    ∙ ap (feeds c) (take-append-drop n (x ∷ p))

flush-total : (c : ShaCtx) (t : ℕ) → flush (record c { total = t }) ≡ record (flush c) { total = t }
unfolding flush
flush-total c t = elim (Bool-cases (length c.buf == 64)) [ inl e ↦ rw e refl | inr e ↦ rw e refl ]

feeds-total :
    (c : ShaCtx) (t : ℕ) (p : Bytes)
    → feeds (record c { total = t }) p ≡ record (feeds c p) { total = t }
unfolding feeds feed
feeds-total c t [] = refl
feeds-total c t (x ∷ p) =
    ap (λ d. feeds d p) (flush-total (record c { buf = c.buf ++ (x ∷ []) }) t)
    ∙ feeds-total (flush (record c { buf = c.buf ++ (x ∷ []) })) t p

abbrev with_total : ShaCtx → ℕ → ShaCtx
with_total c t = record c { total = t }

flushed : (c : ShaCtx) → (length c.buf == 64) ≡ true → length (flush c).buf ≡ 0
unfolding flush
flushed c t = rw t refl

kept : (c : ShaCtx) → (length c.buf == 64) ≡ false → length (flush c).buf ≡ length c.buf
unfolding flush
kept c f = rw f refl

-- Updating copies whole pieces into the buffer, and has the effect of one byte at a time.
pub sha_update-feeds :
    (c : ShaCtx) (p : Bytes)
    → HasRoom c
    → sha_update c p ≡ record (feeds c p) { total = (c.total + length p) % 2 ^ 64 }
unfolding sha_update
sha_update-feeds c p h =
    update_loop-feeds (length p) (record c { total = (c.total + length p) % 2 ^ 64 }) p h
      (omega arith)
    ∙ feeds-total c ((c.total + length p) % 2 ^ 64) p

-- Two updates are one update with both texts, so that a message may be hashed in pieces.
pub sha_update-append :
    (c : ShaCtx) (xs ys : Bytes)
    → HasRoom c
    → sha_update (sha_update c xs) ys ≡ sha_update c (xs ++ ys)
sha_update-append c xs ys h =
    let t = (c.total + length xs) % 2 ^ 64 in
    let count : (t + length ys) % 2 ^ 64 ≡ (c.total + length (xs ++ ys)) % 2 ^ 64 =
      omega (arith, length-append xs ys) in
    ap (λ d. sha_update d ys) (sha_update-feeds c xs h)
    ∙ sha_update-feeds (with_total (feeds c xs) t) ys (feeds-HasRoom c xs h)
    ∙ ap (λ d. with_total d ((t + length ys) % 2 ^ 64))
        (feeds-total (feeds c xs) t ys ∙ ap (λ d. with_total d t) (sym (feeds-append c xs ys)))
    ∙ ap (with_total (feeds c (xs ++ ys))) count
    ∙ sym (sha_update-feeds c (xs ++ ys) h)

-- One more byte, in a buffer with room.
length-sha_update_zero :
    (c : ShaCtx)
    → HasRoom c
    → ((length c.buf ≡ 63) × (length (sha_update c (0 ∷ [])).buf ≡ 0))
      ⊎ ((length c.buf < 63) × (length (sha_update c (0 ∷ [])).buf ≡ length c.buf + 1))
unfolding feeds feed
length-sha_update_zero c h = elim (Bool-cases (length (c.buf ++ (0 ∷ [])) == 64)) [
  | inl t ↦ inl (
    omega (arith, (==_iff (length (c.buf ++ (0 ∷ []))) 64).0 t, length-append c.buf (0 ∷ [])),
    ap (λ d. length d.buf) (sha_update-feeds c (0 ∷ []) h)
        ∙ flushed (record c { buf = c.buf ++ (0 ∷ []) }) t,
  )
  | inr f ↦ inr (
    ground (arith, f, h, length-append c.buf (0 ∷ [])),
    ap (λ d. length d.buf) (sha_update-feeds c (0 ∷ []) h)
        ∙ kept (record c { buf = c.buf ++ (0 ∷ []) }) f
        ∙ length-append c.buf (0 ∷ []),
  )
]

pad_loop-fuel :
    (fuel : ℕ) (c : ShaCtx)
    → HasRoom c
    → ((length c.buf ≤ 56) × (56 ≤ length c.buf + fuel))
      ⊎ ((56 < length c.buf) × (120 ≤ length c.buf + fuel))
    → length (pad_loop fuel c).buf ≡ 56
unfolding pad_loop
pad_loop-fuel zero c h w = ground (arith, w, h)
pad_loop-fuel (suc fuel) c h w = elim (Bool-cases (length c.buf == 56)) [
  | inl t ↦ rw t ((==_iff (length c.buf) 56).0 t)
  | inr f ↦ rw f (elim (length-sha_update_zero c h) [
    | inl (a, b) ↦
        pad_loop-fuel fuel (sha_update c (0 ∷ [])) (omega (arith, b)) (ground (arith, a, b, w))
    | inr (a, b) ↦
        pad_loop-fuel fuel (sha_update c (0 ∷ [])) (omega (arith, a, b))
          (ground (arith, a, b, w, f))
  ])
]

-- The loop that pads a message ends, after at most 63 zeros, with 56 bytes in the buffer.
pub length-pad_loop : (c : ShaCtx) → HasRoom c → length (pad_loop 64 c).buf ≡ 56
length-pad_loop c h = pad_loop-fuel 64 c h (ground (arith, h))
