-- ===== src/Http/Guards.antt =====
-- What every request that the parser of src/common/http_request.c accepts satisfies.
use naitron_c.Prelude.{
  ℕ, zero, suc, ◌+◌, ◌-◌, ◌*◌, ◌^◌, ◌≤◌, ◌<◌, Bool, true, false, not, ◌||◌, List, [], ◌∷◌, ◌++◌,
  none, some, ltb, leb, if◌then◌else◌, Bytes, length, take, drop, ◌≡◌, sym, ◌∙◌, inl, inr, arith,
  Bool-cases, Option-cases, All, length-append, All-append,
}
use naitron_c.Http.{Header, max_headers}
use naitron_c.Http.Scan.{find_crlf, find_char, islabel_eq, is_token}
use naitron_c.Slice.{slice_trim}
use mathlib.Core.Path.{subst}
use naitron_c.Http.Parse.{
  content_length_label, size_mul, size_add, parse_digits, Fields, done, set_content_length,
  header_line, header_loop, RequestLine, request_line,
}

abbrev pub is_length : Header → Bool
is_length h = islabel_eq h.name content_length_label

abbrev pub any_length : List Header → Bool
any_length [] = false
any_length (h ∷ hs) = is_length h || any_length hs

-- The header says that the body has `cl` bytes.
abbrev pub Says : ℕ → Header → Type 0
Says cl h = is_length h ≡ true → (0 < length h.value) × (parse_digits h.value 0 ≡ some cl)

-- The header fields of an accepted request.
pub record IsGuarded (headers : List Header) (has_content_length : Bool) (content_length : ℕ)
    : Type 0 where
  pub few : length headers ≤ max_headers
  pub tokens : All (λ h. is_token h.name ≡ true) headers
  pub has : has_content_length ≡ any_length headers
  pub one_length : All (Says content_length) headers
  pub fits : content_length < 2 ^ 64
  pub absent : has_content_length ≡ false → content_length ≡ 0

parse_digits_fits :
    (s : Bytes) (acc : ℕ) {v : ℕ} → acc < 2 ^ 64 → parse_digits s acc ≡ some v → v < 2 ^ 64
unfolding parse_digits size_mul size_add
parse_digits_fits [] acc h e = ground arith
parse_digits_fits (c ∷ cs) acc {v} h e =
    ground (arith, parse_digits_fits cs (acc * 10 + (c - 48)) {v = v})

any_length-concat :
    (hs : List Header) (h : Header) → any_length (hs ++ h ∷ []) ≡ (any_length hs || is_length h)
any_length-concat [] h = ground arith
any_length-concat (x ∷ hs) h = ground (arith, any_length-concat hs h)

-- With no Content-Length so far, any value will do.
unsaid :
    (cl cl' : ℕ) (hs : List Header) → any_length hs ≡ false → All (Says cl) hs → All (Says cl') hs
unsaid cl cl' [] e h = tt
unsaid cl cl' (x ∷ hs) e (h, hs') =
    ((λ l. absurd (ground arith)), unsaid cl cl' hs (ground arith) hs')

abbrev pub Guarded : Fields → Type 0
Guarded f = IsGuarded f.headers f.has_content_length f.content_length

-- What one accepted line does to the fields.
data LineStep (f : Fields) : Fields → Type 0 where
  plain :
      {f' : Fields} (h : Header)
      → is_token h.name ≡ true
      → length f.headers < max_headers
      → is_length h ≡ false
      → f' ≡ record f { headers = f.headers ++ h ∷ [] }
      → LineStep f f'
  sized :
      {f' : Fields} (h : Header) (cl : ℕ)
      → is_token h.name ≡ true
      → length f.headers < max_headers
      → is_length h ≡ true
      → (0 < length h.value) × (parse_digits h.value 0 ≡ some cl)
      → (f.has_content_length ≡ true → f.content_length ≡ cl)
      → f'
        ≡ record { headers = f.headers ++ h ∷ []; has_content_length = true; content_length = cl }
      → LineStep f f'

line_step :
    (name value : Bytes) (f : Fields) {f' : Fields}
    → (if not (is_token name)
        then none
        else if leb max_headers (length f.headers)
        then none
        else if islabel_eq name content_length_label
        then set_content_length value
            (record f { headers = f.headers ++ record { name = name; value = value } ∷ [] })
        else some (record f { headers = f.headers ++ record { name = name; value = value } ∷ [] }))
      ≡ some f'
    → LineStep f f'
unfolding set_content_length
line_step name value f e =
    let h : Header = record { name = name; value = value } in
    elim (Bool-cases (is_length h)) [
      | inr other ↦ plain h (ground arith) (ground arith) other (ground arith)
      | inl length_line ↦ elim (Option-cases (parse_digits value 0)) [
        | inl no_number ↦ absurd (ground arith)
        | inr (cl, number) ↦
            sized h cl (ground arith) (ground arith) length_line (ground arith, number)
              (λ b. ground arith) (ground arith)
      ]
    ]

header_line-LineStep :
    (line : Bytes) (f : Fields) {f' : Fields} → header_line line f ≡ some f' → LineStep f f'
unfolding header_line
header_line-LineStep line f e = elim (Option-cases (find_char b':' line)) [
  | inl n ↦ cc (rw n at e)
  | inr (colon, n) ↦ line_step (take colon line) (slice_trim (drop (colon + 1) line)) f (rw n at e)
]

one_more :
    (cl : ℕ) (f : Fields) (h : Header)
    → (f.has_content_length ≡ true → f.content_length ≡ cl)
    → Guarded f
    → All (Says cl) f.headers
one_more cl f h same g = elim (Bool-cases f.has_content_length) [
  | inl e ↦ rw (← same e) g.one_length
  | inr e ↦ unsaid f.content_length cl f.headers (sym g.has ∙ e) g.one_length
]

LineStep-Guarded : (f : Fields) {f' : Fields} → Guarded f → LineStep f f' → Guarded f'
LineStep-Guarded f g (plain h tok few other e) = subst Guarded (sym e) (record {
  few = omega (arith, length-append f.headers (h ∷ []));
  tokens = All-append _ f.headers (h ∷ []) g.tokens (tok, tt);
  has = ground (arith, g.has, any_length-concat f.headers h);
  one_length = All-append _ f.headers (h ∷ []) g.one_length ((λ l. cc), tt);
  fits = g.fits;
  absent = g.absent;
})
LineStep-Guarded f g (sized h cl tok few len says same e) = subst Guarded (sym e) (record {
  few = omega (arith, length-append f.headers (h ∷ []));
  tokens = All-append _ f.headers (h ∷ []) g.tokens (tok, tt);
  has = ground (arith, any_length-concat f.headers h);
  one_length = All-append _ f.headers (h ∷ []) (one_more cl f h same g) ((λ l. says), tt);
  fits = parse_digits_fits h.value 0 (omega arith) says.1;
  absent = λ b. cc;
})

pub header_loop-Guarded :
    (fuel : ℕ) (cur : Bytes) (f : Fields) {f' : Fields}
    → Guarded f
    → header_loop fuel cur f ≡ done f'
    → Guarded f'
unfolding header_loop
header_loop-Guarded zero cur f g e = subst Guarded (ground arith) g
header_loop-Guarded (suc fuel) cur f g e = elim (Bool-cases (ltb 2 (length cur))) [
  | inr stop ↦ subst Guarded (ground arith) g
  | inl more ↦ elim (Option-cases (find_crlf cur)) [
    | inl n ↦ cc (rw (more, n) at e)
    | inr (le, n) ↦ elim (Option-cases (header_line (take le cur) f)) [
      | inl b ↦ cc (rw (more, n, b) at e)
      | inr (f1, s) ↦
          header_loop-Guarded fuel (drop (le + 2) cur) f1
            (LineStep-Guarded f g (header_line-LineStep (take le cur) f s)) (rw (more, n, s) at e)
    ]
  ]
]

-- The request line of an accepted request.
pub record IsLine (l : RequestLine) : Type 0 where
  pub method : is_token l.method ≡ true
  pub target : 0 < length l.target
  pub minor : l.minor_version ≤ 1

pub request_line-IsLine : (line : Bytes) {l : RequestLine} → request_line line ≡ some l → IsLine l
unfolding request_line
request_line-IsLine line e = elim (Option-cases (find_char b' ' line)) [
  | inl n ↦ cc (rw n at e)
  | inr (sp1, n) ↦ elim (Option-cases (find_char b' ' (drop (sp1 + 1) line))) [
    | inl m ↦ cc (rw (n, m) at e)
    | inr (sp2, m) ↦
        let e' = rw (n, m) at e in
        record { method = ground arith; target = ground arith; minor = ground arith }
  ]
]
