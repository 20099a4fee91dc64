-- ===== src/Middleware/HeaderLaws.antt =====
-- The headers of src/core/middleware.c are never cut.
use naitron_c.Prelude.{
  ℕ, zero, suc, ◌+◌, ◌-◌, ◌≤◌, ◌<◌, [], ◌∷◌, ◌++◌, Option, none, some, ◌==◌, if◌then◌else◌, Bytes,
  length, take, ◌≡◌, refl, sym, ap, ◌∙◌, inl, inr, arith, Bool-cases, append-nil, length-append,
}
use naitron_c.Middleware.Headers.{
  cors_rest, extra_cap, add_cors, extra_for, add_id, no_extra, cors_text, id_text, MwConfig, Extra,
  add_text, gen_request_id, hex_text,
}

take_all : (n : ℕ) (s : Bytes) → length s ≤ n → take n s ≡ s
take_all zero [] h = refl
take_all zero (x ∷ s) h = absurd (omega arith)
take_all (suc n) [] h = refl
take_all (suc n) (x ∷ s) h = ap (◌∷◌ x) (take_all n s (omega arith))

-- Nothing was cut so far.
abbrev IsWhole : Extra → Bytes → Type 0
IsWhole x s = (x.text ≡ s) × (x.off ≡ length s)

add_text-IsWhole :
    (x : Extra) (s t : Bytes)
    → IsWhole x s
    → length s + length t < extra_cap
    → IsWhole (add_text x t) (s ++ t)
unfolding add_text
add_text-IsWhole x s t (same, at) h = (
  rw (same, at, take_all (extra_cap - length s - 1) t (omega arith)) refl,
  omega (arith, at, length-append s t),
)

length-hex_text : (b : Bytes) → length (hex_text b) ≡ length b + length b
unfolding hex_text
length-hex_text [] = refl
length-hex_text (x ∷ b) = omega (arith, length-hex_text b)

-- Eight random bytes, or none.
abbrev pub IsRandom : Option Bytes → Type 0
IsRandom none = Unit
IsRandom (some b) = length b ≡ 8

length-gen_request_id : (b : Option Bytes) → IsRandom b → length (gen_request_id b) ≤ 20
unfolding gen_request_id
length-gen_request_id none h = omega arith
length-gen_request_id (some b) h = omega (arith, length-hex_text b)

-- The texts that the configuration asks for.
abbrev pub all_headers : MwConfig → Bytes → Bytes
all_headers cfg id =
    (if cfg.request_id then id_text id else [])
    ++ (if length cfg.cors_origin == 0 then [] else cors_text cfg.cors_origin)

length-id_text : (id : Bytes) → length (id_text id) ≡ length id + 16
unfolding id_text
length-id_text id = omega (arith, length-append id (b'\r' ∷ b'\n' ∷ []))

length-cors_rest : length cors_rest ≡ 125
length-cors_rest = refl

length-cors_text : (origin : Bytes) → length (cors_text origin) ≡ length origin + 154
unfolding cors_text
length-cors_text origin = omega (arith, length-append origin cors_rest, length-cors_rest)

add_id-IsWhole :
    (cfg : MwConfig) (id : Bytes)
    → length id ≤ 20
    → IsWhole (add_id cfg id no_extra) (if cfg.request_id then id_text id else [])
      × (length (if cfg.request_id then id_text id else []) ≤ 36)
unfolding add_id
add_id-IsWhole cfg id h = elim (Bool-cases cfg.request_id) [
  | inr f ↦ rw f ((refl, refl), omega arith)
  | inl t ↦ rw t (
    add_text-IsWhole no_extra [] (id_text id) (refl, refl) (omega (arith, length-id_text id)),
    omega (arith, length-id_text id),
  )
]

-- With an origin below 128 bytes and a request id of at most 20, as gen_request_id makes it, the
-- added headers are the whole texts, and they fit into the 512 bytes with their NUL.
pub extra_for_bound :
    (cfg : MwConfig) (b : Option Bytes)
    → IsRandom b
    → length cfg.cors_origin < 128
    → ((extra_for cfg (gen_request_id b)).text ≡ all_headers cfg (gen_request_id b))
      × ((extra_for cfg (gen_request_id b)).off < extra_cap)
unfolding extra_for add_cors
extra_for_bound cfg b h origin =
    let id = gen_request_id b in
    let (whole, few) = add_id-IsWhole cfg id (length-gen_request_id b h) in
    elim (Bool-cases (length cfg.cors_origin == 0)) [
      | inl t ↦ rw t (whole.0 ∙ sym (append-nil _), omega (arith, whole.1))
      | inr f ↦
          let (text, off) =
            add_text-IsWhole (add_id cfg id no_extra) (if cfg.request_id then id_text id else [])
              (cors_text cfg.cors_origin) whole (omega (arith, length-cors_text cfg.cors_origin)) in
          rw f (
            text,
            omega (
              arith,
              off,
              length-append (if cfg.request_id then id_text id else []) (cors_text cfg.cors_origin),
              length-cors_text cfg.cors_origin,
            ),
          )
    ]
