-- ===== src/Json/EmitLaws.antt =====
-- When `ntc_json_emit` of src/common/json.c succeeds, and what it writes.
use naitron_c.Json.Strings.{put, json_escape}
use naitron_c.Json.StringTrip.{escape_text}
use naitron_c.Json.StringRoom.{json_escape_lem}
use naitron_c.Json.Value.{
  Json, Items, Members, json_null, boolean, num, str, arr, obj, no_items, item, no_members, member,
}
use naitron_c.Json.Text.{string_text, comma_text, text, items_text, members_text}
use naitron_c.Json.Emit.{app, emit_string, comma, emit_rec, emit_items, emit_members, json_emit}
use naitron_c.Prelude.{
  ℕ, ◌+◌, ◌-◌, ◌<◌, Bool, true, false, [], ◌∷◌, ◌++◌, Option, none, some, ltb, leb, ◌==◌,
  if◌then◌else◌, Bytes, length, ◌≡◌, refl, sym, ap, ◌∙◌, inl, inr, arith, Bool-cases, Option-cases,
  ◌>>=◌, append-nil, append_assoc, length-append, ltb→lt, le→leb, lt→leb_false, some-inj, none-some,
  lt→ltb,
}

-- A writer of a text: it appends the text when it fits before the end of the buffer, and when it
-- appends anything, it is the text.
pub record Writes (cap : ℕ) (w : Bytes → Option Bytes) (t : Bytes) : Type 0 where
  pub fits : (out : Bytes) → length out + length t < cap → w out ≡ some (out ++ t)
  pub sound : (out r : Bytes) → w out ≡ some r → r ≡ out ++ t

bind_some :
    (o : Option Bytes) (f : Bytes → Option Bytes) (r : Bytes)
    → (o >>= f) ≡ some r
    → (m : Bytes) × (o ≡ some m) × (f m ≡ some r)
bind_some none f r h = absurd (ground arith)
bind_some (some m) f r h = (m, refl, h)

-- One writer behind another.
then-Writes :
    (cap : ℕ) (v w : Bytes → Option Bytes) (s t : Bytes)
    → Writes cap v s
    → Writes cap w t
    → Writes cap (λ out. v out >>= w) (s ++ t)
then-Writes cap v w s t hv hw = record {
  fits = λ out h.
      let split = length-append s t in
      rw (hv.fits out (omega (arith, h, split))) (
        hw.fits (out ++ s) (omega (arith, h, split, length-append out s))
        ∙ ap some (append_assoc out s t));
  sound = λ out r h.
      let b = bind_some (v out) w r h in
      hw.sound b.0 r b.2 ∙ ap (λ x. x ++ t) (hv.sound out b.0 b.1) ∙ append_assoc out s t;
}

nothing-Writes : (cap : ℕ) → Writes cap some []
nothing-Writes cap = record {
  fits = λ out h. ap some (sym (append-nil out));
  sound = λ out r h. sym (some-inj h) ∙ sym (append-nil out);
}

app-Writes : (cap : ℕ) (t : Bytes) → Writes cap (λ out. app cap out t) t
unfolding app
app-Writes cap t = record {
  fits = λ out h. rw (lt→leb_false cap (length out + length t) h) refl;
  sound = λ out r h. elim (Bool-cases (leb cap (length out + length t))) [
    | inl f ↦ absurd (ground arith)
    | inr f ↦ sym (some-inj (sym (rw f refl) ∙ h))
  ];
}

put-Writes : (cap ch : ℕ) → Writes cap (λ out. put cap out ch) (ch ∷ [])
unfolding put
put-Writes cap ch = record {
  fits = λ out h. rw (lt→leb_false cap (length out + 1) (omega (arith, h))) refl;
  sound = λ out r h. elim (Bool-cases (leb cap (length out + 1))) [
    | inl f ↦ absurd (ground arith)
    | inr f ↦ sym (some-inj (sym (rw f refl) ∙ h))
  ];
}

json_escape_fits :
    (cap : ℕ) (s : Bytes) → length (escape_text s) < cap → json_escape cap s ≡ some (escape_text s)
json_escape_fits cap s h = json_escape_lem cap s ∙ rw (lt→ltb (length (escape_text s)) cap h) refl

json_escape_sound : (cap : ℕ) (s r : Bytes) → json_escape cap s ≡ some r → r ≡ escape_text s
json_escape_sound cap s r h = elim (Bool-cases (ltb (length (escape_text s)) cap)) [
  | inl t ↦ some-inj (sym h ∙ json_escape_lem cap s ∙ rw t refl)
  | inr f ↦ absurd (none-some (sym (json_escape_lem cap s ∙ rw f refl) ∙ h))
]

escape-Writes :
    (cap : ℕ) (s : Bytes)
    → Writes cap
        (λ out. json_escape (cap - length out) s >>= λ e. put cap (out ++ e) b'"')
        (escape_text s ++ (b'"' ∷ []))
escape-Writes cap s = record {
  fits = λ out h.
      let split = length-append (escape_text s) (b'"' ∷ []) in
      rw (json_escape_fits (cap - length out) s (omega (arith, h, split))) (
        (put-Writes cap b'"').fits (out ++ escape_text s)
          (omega (arith, h, split, length-append out (escape_text s)))
        ∙ ap some (append_assoc out (escape_text s) _));
  sound = λ out r h.
      let b = bind_some (json_escape (cap - length out) s) (λ e. put cap (out ++ e) b'"') r h in
      (put-Writes cap b'"').sound (out ++ b.0) r b.2
      ∙ ap (λ e. (out ++ e) ++ (b'"' ∷ [])) (json_escape_sound (cap - length out) s b.0 b.1)
      ∙ append_assoc out (escape_text s) _;
}

string-Writes : (cap : ℕ) (s : Bytes) → Writes cap (λ out. emit_string cap out s) (string_text s)
unfolding emit_string
string-Writes cap s = then-Writes cap _ _ (b'"' ∷ []) _ (put-Writes cap b'"') (escape-Writes cap s)

comma-Writes : (cap : ℕ) (first : Bool) → Writes cap (comma first cap) (comma_text first)
unfolding comma
comma-Writes cap true = nothing-Writes cap
comma-Writes cap false = put-Writes cap b','

module _ {N : Type 0} (print : N → Bytes) (cap : ℕ) where
  mutual
    unfolding emit_rec emit_items emit_members text items_text members_text

    rec-Writes : (v : Json N) → Writes cap (emit_rec print cap v) (text print v)
    rec-Writes json_null = app-Writes cap _
    rec-Writes (boolean true) = app-Writes cap _
    rec-Writes (boolean false) = app-Writes cap _
    rec-Writes (num x) = app-Writes cap (print x)
    rec-Writes (str s) = string-Writes cap s
    rec-Writes (arr vs) =
        then-Writes cap _ _ (b'[' ∷ []) _ (put-Writes cap b'[')
          (then-Writes cap _ _ _ _ (items-Writes true vs) (put-Writes cap b']'))
    rec-Writes (obj ms) =
        then-Writes cap _ _ (b'{' ∷ []) _ (put-Writes cap b'{')
          (then-Writes cap _ _ _ _ (members-Writes true ms) (put-Writes cap b'}'))

    items-Writes :
        (first : Bool) (vs : Items N)
        → Writes cap (emit_items print cap first vs) (items_text print first vs)
    items-Writes first no_items = nothing-Writes cap
    items-Writes first (item v vs) =
        then-Writes cap _ _ _ _ (comma-Writes cap first)
          (then-Writes cap _ _ _ _ (rec-Writes v) (items-Writes false vs))

    members-Writes :
        (first : Bool) (ms : Members N)
        → Writes cap (emit_members print cap first ms) (members_text print first ms)
    members-Writes first no_members = nothing-Writes cap
    members-Writes first (member k v ms) = then-Writes cap _ _ _ _ (comma-Writes cap first) (
        then-Writes cap _ _ _ _ (string-Writes cap k) (
          then-Writes cap _ _ (b':' ∷ []) _ (put-Writes cap b':')
            (then-Writes cap _ _ _ _ (rec-Writes v) (members-Writes false ms))))

  some_room : (n : ℕ) → n < cap → (cap == 0) ≡ false
  some_room n h = ground arith

  -- Emitting writes the value's text when it is shorter than the buffer, which keeps room for the
  -- NUL, and fails in every other case.
  pub json_emit_lem :
      (v : Json N)
      → json_emit print cap v
        ≡ (if ltb (length (text print v)) cap then some (text print v) else none)
  unfolding json_emit
  json_emit_lem v = elim (Bool-cases (ltb (length (text print v)) cap)) [
    | inl t ↦
        let lt = ltb→lt (length (text print v)) cap t in
        rw
          (
            t,
            some_room (length (text print v)) lt,
            (rec-Writes v).fits [] (omega (arith, lt)),
            lt→leb_false cap (length (text print v)) lt,
          )
          refl
    | inr f ↦ rw f (elim (Bool-cases (cap == 0)) [
      | inl z ↦ rw z refl
      | inr z ↦ rw z (elim (Option-cases (emit_rec print cap v [])) [
        | inl n ↦ rw n refl
        | inr (r, p) ↦
            rw (p, (rec-Writes v).sound [] r p, le→leb cap (length (text print v)) (ground arith))
              refl
      ])
    ])
  ]
