-- ===== src/Controller/MultipartTrip.antt =====
-- A form as a browser writes it is read back: ntc_multipart_parse of src/common/controller_sdk.c.
use naitron_c.Prelude.{
  ℕ, zero, suc, ◌+◌, ◌≤◌, ◌<◌, true, false, List, [], ◌∷◌, ◌++◌, some, ltb, leb, Bytes, length,
  take, drop, ◌≡◌, refl, sym, ap, ◌∙◌, arith, map, append_assoc, drop-add, drop-length_append,
  take-length_append, codes,
}
use naitron_c.Controller.Multipart.{
  multipart_parse, memmem, two_chars, line_end, mp_quoted, part_type, MultipartPart, part_of,
  parts_loop,
}
use naitron_c.Controller.MultipartLaws.{memmem-append, memmem-start, starts_with_self}
use mathlib.Core.Path.{ap₂}
use naitron_c.Slice.{slice_starts_with, mem_equal}

abbrev pub delim_of : Bytes → Bytes
delim_of boundary = two_chars b'-' b'-' ++ boundary

abbrev pub sep_of : Bytes → Bytes
sep_of boundary = line_end ++ delim_of boundary

abbrev pub blank_line : Bytes
blank_line = line_end ++ line_end

-- The header lines and the content of a field, which hold no boundary, and the header lines no blank
-- line.
pub record Field (boundary : Bytes) : Type 0 where
  pub headers : Bytes
  pub content : Bytes
  pub one_blank : memmem blank_line (headers ++ blank_line) ≡ some (length headers)
  pub no_boundary :
      memmem (sep_of boundary) ((headers ++ (blank_line ++ content)) ++ sep_of boundary)
      ≡ some (length (headers ++ (blank_line ++ content)))

-- What follows the first boundary: the fields, and the closing hyphens.
unfoldable pub fields_text : (boundary : Bytes) → List (Field boundary) → Bytes
fields_text boundary [] = two_chars b'-' b'-'
fields_text boundary (p ∷ ps) =
    line_end
    ++ (((p.headers ++ (blank_line ++ p.content)) ++ sep_of boundary) ++ fields_text boundary ps)

abbrev pub part_from : Bytes → Bytes → MultipartPart
part_from headers content = record {
  name = mp_quoted (codes "name=\"") headers;
  filename = mp_quoted (codes "filename=\"") headers;
  content_type = part_type headers;
  content = content;
}

abbrev pub part_for : {boundary : Bytes} → Field boundary → MultipartPart
part_for p = part_from p.headers p.content

part_of-found :
    (region : Bytes) {n : ℕ}
    → memmem blank_line region ≡ some n
    → part_of region ≡ part_from (take n region) (drop (n + 4) region)
unfolding part_of
part_of-found region e = rw (e, part_of) refl

part_of-field :
    (boundary : Bytes) (p : Field boundary)
    → part_of (p.headers ++ (blank_line ++ p.content)) ≡ part_for p
part_of-field boundary p =
    let region = p.headers ++ (blank_line ++ p.content) in
    let found : memmem blank_line region ≡ some (length p.headers) =
      ap (λ s. memmem blank_line s) (sym (append_assoc p.headers blank_line p.content))
      ∙ memmem-append blank_line (p.headers ++ blank_line) p.content (omega arith) p.one_blank in
    part_of-found region found
    ∙ ap₂ part_from (take-length_append p.headers (blank_line ++ p.content)) (
        drop-add (length p.headers) 4 region
        ∙ ap (λ s. drop 4 s) (drop-length_append p.headers (blank_line ++ p.content)))

dashes_first : (s : Bytes) → slice_starts_with (line_end ++ s) (two_chars b'-' b'-') ≡ false
unfolding slice_starts_with mem_equal
dashes_first s = let long : ltb (length (line_end ++ s)) 2 ≡ false = ground arith in rw long refl

module _ (sep : Bytes) where
  parts_loop-close :
      (left : ℕ) (cur : Bytes)
      → slice_starts_with cur (two_chars b'-' b'-') ≡ true
      → parts_loop sep (suc left) cur ≡ []
  unfolding parts_loop
  parts_loop-close left cur e = rw (e, parts_loop) refl

  parts_loop-step :
      (left : ℕ) (cur : Bytes) {n : ℕ}
      → slice_starts_with cur (two_chars b'-' b'-') ≡ false
      → slice_starts_with cur line_end ≡ true
      → memmem sep (drop 2 cur) ≡ some n
      → parts_loop sep (suc left) cur
        ≡ part_of (take n (drop 2 cur)) ∷ parts_loop sep left (drop (n + length sep) (drop 2 cur))
  unfolding parts_loop
  parts_loop-step left cur e e' found = rw (e, e', found, parts_loop) refl

multipart_parse-found :
    (body boundary : Bytes) (max : ℕ) {n : ℕ}
    → leb 260 (length (delim_of boundary)) ≡ false
    → memmem (delim_of boundary) body ≡ some n
    → multipart_parse body boundary max
      ≡ some (parts_loop (sep_of boundary) max (drop (n + length (delim_of boundary)) body))
unfolding multipart_parse
multipart_parse-found body boundary max short found = rw (short, found, multipart_parse) refl

parts_loop-fields :
    (boundary : Bytes) (ps : List (Field boundary)) (left : ℕ)
    → length ps ≤ left
    → parts_loop (sep_of boundary) left (fields_text boundary ps) ≡ map part_for ps
unfolding fields_text
parts_loop-fields boundary [] zero h = unfold parts_loop in refl
parts_loop-fields boundary [] (suc left) h =
    parts_loop-close (sep_of boundary) left (two_chars b'-' b'-')
      (starts_with_self (two_chars b'-' b'-') [])
parts_loop-fields boundary (p ∷ ps) zero h = absurd (omega arith)
parts_loop-fields boundary (p ∷ ps) (suc left) h =
    let sep = sep_of boundary in
    let region = p.headers ++ (blank_line ++ p.content) in
    let rest = fields_text boundary ps in
    let text = (region ++ sep) ++ rest in
    let n = length region in
    parts_loop-step sep left (line_end ++ text) (dashes_first text) (starts_with_self line_end text)
      (memmem-append sep (region ++ sep) rest (omega arith) p.no_boundary)
    ∙ (ap₂ (λ r t. part_of r ∷ parts_loop sep left t)
          (ap (λ s. take n s) (append_assoc region sep rest)
            ∙ take-length_append region (sep ++ rest))
          (drop-add n (length sep) text
            ∙ (ap (λ s. drop (length sep) s)
                  (ap (λ s. drop n s) (append_assoc region sep rest)
                    ∙ drop-length_append region (sep ++ rest))
                ∙ drop-length_append sep rest))
        ∙ ap₂ (λ q qs. q ∷ qs) (part_of-field boundary p)
            (parts_loop-fields boundary ps left (omega arith)))

-- The fields of a form come back with their contents, in order, whatever bytes the contents have, if
-- no boundary stands in a field and no blank line in its header lines. The boundary is shorter than
-- 258 bytes, and there are at most max fields.
pub multipart_parse-fields_text :
    (boundary : Bytes) (ps : List (Field boundary)) (max : ℕ)
    → length boundary < 258
    → length ps ≤ max
    → multipart_parse (delim_of boundary ++ fields_text boundary ps) boundary max
      ≡ some (map part_for ps)
multipart_parse-fields_text boundary ps max short few =
    let delim = delim_of boundary in
    let rest = fields_text boundary ps in
    let zero_plus : 0 + length delim ≡ length delim = omega arith in
    multipart_parse-found (delim ++ rest) boundary max (ground (arith, short))
      (memmem-start delim rest)
    ∙ ap some (
        ap (λ s. parts_loop (sep_of boundary) max s)
          (ap (λ k. drop k (delim ++ rest)) zero_plus ∙ drop-length_append delim rest)
        ∙ parts_loop-fields boundary ps max few)
