-- ===== src/Session/CookieLaws.antt =====
-- Reading a Cookie header of several cookies with src/core/session.c.
use naitron_c.Prelude.{
  ℕ, zero, suc, ◌+◌, ◌-◌, ◌≤◌, List, [], ◌∷◌, ◌++◌, Option, none, some, ◌==◌, if◌then◌else◌, Bytes,
  length, take, drop, ◌≡◌, refl, sym, ap, ◌∙◌, ◌≢◌, inl, inr, arith, Bool-cases, ◌>>=◌, All,
  length-append, drop-add, drop-length_append,
}
use naitron_c.Slice.{mem_equal}
use naitron_c.Slice.Laws.{mem_equal_iff}
use naitron_c.Session.Cookie.{
  skip_separators, cookie_value, skip_cookie, is_cookie, cookie_loop, cookie_get,
}

-- A byte of a cookie's name: no blank, semicolon or equals sign.
abbrev pub IsNameByte : ℕ → Type 0
IsNameByte b = (b ≢ b'=') × (b ≢ b';') × (b ≢ b' ')

abbrev pub IsName : Bytes → Type 0
IsName n = (n ≢ []) × All IsNameByte n

abbrev pub IsValue : Bytes → Type 0
IsValue v = All (λ b. b ≢ b';') v

abbrev pub IsPair : Bytes × Bytes → Type 0
IsPair c = IsName c.0 × IsValue c.1

-- "; name=value" for each cookie, and the header, which begins without the separators.
unfoldable pub more_cookies : List (Bytes × Bytes) → Bytes
more_cookies [] = []
more_cookies (c ∷ cs) = b';' ∷ b' ' ∷ (c.0 ++ (b'=' ∷ (c.1 ++ more_cookies cs)))

unfoldable pub cookie_header : List (Bytes × Bytes) → Bytes
unfolding more_cookies
cookie_header cs = drop 2 (more_cookies cs)

-- The value of the first cookie of the name.
unfoldable pub first_named : Bytes → List (Bytes × Bytes) → Option Bytes
first_named name [] = none
first_named name (c ∷ cs) =
    let rest = first_named name cs in if mem_equal c.0 name then some c.1 else rest

is_cookie-mem_equal :
    (n name t : Bytes)
    → All IsNameByte n
    → All IsNameByte name
    → is_cookie (n ++ (b'=' ∷ t)) name ≡ mem_equal n name
unfolding is_cookie mem_equal
is_cookie-mem_equal [] [] t h k = refl
is_cookie-mem_equal [] (y ∷ name) t h k = ground arith
is_cookie-mem_equal (x ∷ n) [] t h k = ground arith
is_cookie-mem_equal (x ∷ n) (y ∷ name) t h k = elim (Bool-cases (x == y)) [
  | inl e ↦ rw e (is_cookie-mem_equal n name t h.1 k.1)
  | inr f ↦ rw f refl
]

skip_cookie-name : (n s : Bytes) → All IsNameByte n → skip_cookie (n ++ (b'=' ∷ s)) ≡ skip_cookie s
unfolding skip_cookie
skip_cookie-name [] s h = refl
skip_cookie-name (x ∷ n) s h = ground (arith, skip_cookie-name n s h.1)

skip_cookie-value :
    (v : Bytes) (cs : List (Bytes × Bytes))
    → IsValue v
    → skip_cookie (v ++ more_cookies cs) ≡ more_cookies cs
unfolding skip_cookie more_cookies
skip_cookie-value [] [] h = refl
skip_cookie-value [] (c ∷ cs) h = refl
skip_cookie-value (x ∷ v) cs h = ground (arith, skip_cookie-value v cs h.1)

cookie_value-append :
    (v : Bytes) (cs : List (Bytes × Bytes)) → IsValue v → cookie_value (v ++ more_cookies cs) ≡ v
unfolding cookie_value more_cookies
cookie_value-append [] [] h = refl
cookie_value-append [] (c ∷ cs) h = refl
cookie_value-append (x ∷ v) cs h = ground (arith, cookie_value-append v cs h.1)

skip_separators-name : (n s : Bytes) → IsName n → skip_separators (n ++ s) ≡ n ++ s
unfolding skip_separators
skip_separators-name [] s h = absurd (h.0 refl)
skip_separators-name (x ∷ n) s h = ground arith

skip_separators-between :
    (n s : Bytes) → IsName n → skip_separators (b';' ∷ b' ' ∷ (n ++ s)) ≡ n ++ s
unfolding skip_separators
skip_separators-between n s h = skip_separators-name n s h

drop_name : (name rest : Bytes) → drop (length name + 1) (name ++ (b'=' ∷ rest)) ≡ rest
drop_name name rest =
    drop-add (length name) 1 (name ++ (b'=' ∷ rest))
    ∙ ap (drop 1) (drop-length_append name (b'=' ∷ rest))

-- A round of the loop that stands before a cookie.
round :
    (fuel d : ℕ) (s name : Bytes) (c : Bytes × Bytes) (cs : List (Bytes × Bytes))
    → IsPair c
    → IsName name
    → skip_separators (d ∷ s) ≡ c.0 ++ (b'=' ∷ (c.1 ++ more_cookies cs))
    → cookie_loop fuel (more_cookies cs) name ≡ first_named name cs
    → cookie_loop (suc fuel) (d ∷ s) name ≡ first_named name (c ∷ cs)
unfolding cookie_loop first_named
round fuel d s name c cs h k p later =
    rw
      (
        p,
        is_cookie-mem_equal c.0 name (c.1 ++ more_cookies cs) h.0.1 k.1,
        skip_cookie-name c.0 (c.1 ++ more_cookies cs) h.0.1,
        skip_cookie-value c.1 cs h.1,
        later,
      )
      (elim (Bool-cases (mem_equal c.0 name)) [
        | inl e ↦
            rw
              (
                e,
                sym ((mem_equal_iff c.0 name).0 e),
                drop_name c.0 (c.1 ++ more_cookies cs),
                cookie_value-append c.1 cs h.1,
              )
              refl
        | inr f ↦ rw f refl
      ])

cookie_loop-more_cookies :
    (fuel : ℕ) (name : Bytes) (cs : List (Bytes × Bytes))
    → IsName name
    → All IsPair cs
    → length (more_cookies cs) ≤ fuel
    → cookie_loop fuel (more_cookies cs) name ≡ first_named name cs
unfolding cookie_loop more_cookies first_named
cookie_loop-more_cookies fuel name [] k h b = refl
cookie_loop-more_cookies zero name (c ∷ cs) k h b = absurd (omega (arith, b))
cookie_loop-more_cookies (suc fuel) name (c ∷ cs) k h b =
    round fuel b';' _ name c cs h.0 k
      (skip_separators-between c.0 (b'=' ∷ (c.1 ++ more_cookies cs)) h.0.0)
      (cookie_loop-more_cookies fuel name cs k h.1 (
        omega (
          arith,
          b,
          length-append c.0 (b'=' ∷ (c.1 ++ more_cookies cs)),
          length-append c.1 (more_cookies cs),
        )))

-- In a Cookie header "name=value; name=value; ..." the value of the first cookie of a name is found,
-- cut to the buffer, and nothing when no cookie has the name. Names are not empty and have no blank,
-- semicolon or equals sign, and values have no semicolon.
pub cookie_get-first_named :
    (cs : List (Bytes × Bytes)) (name : Bytes) (cap : ℕ)
    → IsName name
    → All IsPair cs
    → cookie_get (cookie_header cs) name cap
      ≡ (first_named name cs >>= λ v. some (take (cap - 1) v))
unfolding cookie_get cookie_header more_cookies cookie_loop first_named
cookie_get-first_named [] name cap k h = refl
cookie_get-first_named (([], v) ∷ cs) name cap k h = absurd (h.0.0.0 refl)
cookie_get-first_named ((x ∷ n, v) ∷ cs) name cap k h =
    ap (λ o. o >>= λ w. some (take (cap - 1) w))
      (round _ x (n ++ (b'=' ∷ (v ++ more_cookies cs))) name (x ∷ n, v) cs h.0 k
        (skip_separators-name (x ∷ n) (b'=' ∷ (v ++ more_cookies cs)) h.0.0)
        (cookie_loop-more_cookies (length (n ++ (b'=' ∷ (v ++ more_cookies cs)))) name cs k h.1 (
          omega (
            arith,
            length-append n (b'=' ∷ (v ++ more_cookies cs)),
            length-append v (more_cookies cs),
          ))))
