-- ===== src/Tests/MultipartRuns.antt =====
-- Runs of the reader of forms.
use naitron_c.Prelude.{[], ◌∷◌, ◌++◌, some, Bytes, length, ◌≡◌, refl, arith, codes}
use naitron_c.Slice.{slice_starts_with, mem_equal}
use naitron_c.Http.Scan.{find_char}
use naitron_c.Controller.Multipart.{memmem, mp_quoted, multipart_parse}
use naitron_c.Controller.MultipartTrip.{
  Field, delim_of, sep_of, blank_line, fields_text, part_for, multipart_parse-fields_text,
}

-- A part whose header names the file before the field: the field gets the name of the file.
file_name_first :
    mp_quoted (codes "name=\"") (codes "Content-Disposition: form-data; filename=\"f\"; name=\"n\"")
    ≡ codes "f"
unfolding mp_quoted memmem slice_starts_with mem_equal find_char
file_name_first = refl

abbrev headers : Bytes
headers = codes "Content-Disposition: form-data; name=\"n\""

blank_found : memmem blank_line (headers ++ blank_line) ≡ some (length headers)
unfolding memmem slice_starts_with mem_equal
blank_found = refl

boundary_found :
    memmem (sep_of (codes "b")) ((headers ++ (blank_line ++ codes "-b")) ++ sep_of (codes "b"))
    ≡ some (length (headers ++ (blank_line ++ codes "-b")))
unfolding memmem slice_starts_with mem_equal
boundary_found = refl

abbrev field : Field (codes "b")
field = record {
  headers = headers;
  content = codes "-b";
  one_blank = blank_found;
  no_boundary = boundary_found;
}

multipart_parse-fields_text_example :
    multipart_parse (delim_of (codes "b") ++ fields_text (codes "b") (field ∷ [])) (codes "b") 4
    ≡ some (part_for field ∷ [])
multipart_parse-fields_text_example =
    multipart_parse-fields_text (codes "b") (field ∷ []) 4 (omega arith) (omega arith)
