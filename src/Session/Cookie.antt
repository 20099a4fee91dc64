-- ===== src/Session/Cookie.antt =====
-- The cookies of src/core/session.c. A C string is the list of its bytes before the NUL.
use naitron_c.Prelude.{
  ℕ, zero, suc, ◌+◌, ◌-◌, Bool, ◌||◌, ◌&&◌, [], ◌∷◌, ◌++◌, Option, none, some, leb, ◌==◌,
  if◌then◌else◌, Bytes, length, take, drop, get_or, ◌>>=◌, ℤ, pos, negsuc, codes,
}
use naitron_c.Slice.{mem_equal}
use naitron_c.Http.Respond.{decimal}

unfoldable pub skip_separators : Bytes → Bytes
skip_separators [] = []
skip_separators (c ∷ s) =
    let rest = skip_separators s in if c == b' ' || c == b';' then rest else c ∷ s

-- The bytes before the next ';'.
unfoldable pub cookie_value : Bytes → Bytes
cookie_value [] = []
cookie_value (c ∷ s) = let rest = cookie_value s in if c == b';' then [] else c ∷ rest

unfoldable pub skip_cookie : Bytes → Bytes
skip_cookie [] = []
skip_cookie (c ∷ s) = let rest = skip_cookie s in if c == b';' then c ∷ s else rest

-- `strncmp(p, name, nlen) == 0 && p[nlen] == '='`.
unfoldable pub is_cookie : Bytes → Bytes → Bool
is_cookie p name = mem_equal (take (length name) p) name && get_or p (length name) 0 == b'='

-- The loop `while (*p)`; a round reads at least one byte.
unfoldable pub cookie_loop : ℕ → Bytes → Bytes → Option Bytes
cookie_loop fuel [] name = none
cookie_loop zero (c ∷ s) name = none
cookie_loop (suc fuel) (c ∷ s) name =
    let p = skip_separators (c ∷ s) in
    let rest = cookie_loop fuel (skip_cookie p) name in
    if is_cookie p name then some (cookie_value (drop (length name + 1) p)) else rest

-- `ntc_cookie_get` for a buffer that is not empty: what `out` holds.
unfoldable pub cookie_get : Bytes → Bytes → ℕ → Option Bytes
cookie_get header name cap =
    cookie_loop (length header) header name >>= λ v. some (take (cap - 1) v)

unfoldable pub cookie_base : Bytes → Bytes → Bool → Bytes
cookie_base name value secure =
    name
    ++ (b'='
        ∷ (value
            ++ (codes "; Path=/; HttpOnly; SameSite=Lax"
                ++ (if secure then codes "; Secure" else []))))

-- "; Max-Age=%ld" when `max_age` is not negative.
unfoldable pub max_age_text : ℤ → Bytes
max_age_text (pos n) = codes "; Max-Age=" ++ decimal n
max_age_text (negsuc n) = []

-- `ntc_cookie_format`: `none` is -1. The text is what `out` holds, cut to the buffer, and the number is
-- the result, the length before the cut.
unfoldable pub cookie_format : ℕ → Bytes → Bytes → Bool → ℤ → Option (Bytes × ℕ)
cookie_format cap name value secure max_age =
    let base = cookie_base name value secure in
    let whole = base ++ max_age_text max_age in
    if leb cap (length base) then none else some (take (cap - 1) whole, length whole)
