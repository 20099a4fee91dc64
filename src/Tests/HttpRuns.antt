-- ===== src/Tests/HttpRuns.antt =====
-- Runs of the request parser.
use naitron_c.Prelude.{true, [], ◌∷◌, Bytes, ◌≡◌, refl, ◌≢◌, codes}
use naitron_c.Http.{Request}
use naitron_c.Http.Scan.{find_crlf, find_eoh, find_char, islabel_eq, is_token}
use naitron_c.Http.Parse.{
  starts_http_1, split_target, set_content_length, header_line, header_loop, request_line, parse_ok,
  error, stuck, parse_head, parse_request,
}
use naitron_c.Http.Accepted.{IsAccepted, parse_request-IsAccepted}
use naitron_c.Http.Total.{parse_request-ne-stuck}
use naitron_c.Slice.{slice_trim, mem_equal}

abbrev post : Bytes
post = codes "POST /a?b=1 HTTP/1.1\r\nHost: h\r\nContent-Length:  2 \r\n\r\nxy"

abbrev parsed : Bytes → Request
parsed body = record {
  method = codes "POST";
  target = codes "/a?b=1";
  path = codes "/a";
  query = codes "b=1";
  minor_version = 1;
  headers =
      record { name = codes "Host"; value = codes "h" }
      ∷ record { name = codes "Content-Length"; value = codes "2" }
      ∷ [];
  params = [];
  auth_sub = [];
  auth_scope = [];
  has_content_length = true;
  content_length = 2;
  body = body;
}

post-parsed : parse_request post ≡ parse_ok (parsed (codes "xy")) 54
unfolding parse_request parse_head header_loop header_line request_line set_content_length
    starts_http_1 split_target find_crlf find_eoh find_char islabel_eq is_token slice_trim mem_equal
post-parsed = refl

conflicting :
    parse_request (codes "GET / HTTP/1.1\r\nContent-Length: 1\r\ncontent-length: 2\r\n\r\nx")
    ≡ error
unfolding parse_request parse_head header_loop header_line request_line set_content_length
    starts_http_1 split_target find_crlf find_eoh find_char islabel_eq is_token slice_trim mem_equal
conflicting = refl

parse_request-IsAccepted_example : IsAccepted post (parsed (codes "xy")) 54
parse_request-IsAccepted_example = parse_request-IsAccepted post post-parsed

parse_request-ne-stuck_example : parse_request post ≢ stuck
parse_request-ne-stuck_example = parse_request-ne-stuck post
