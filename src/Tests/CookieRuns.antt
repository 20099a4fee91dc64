-- ===== src/Tests/CookieRuns.antt =====
-- Runs of the responses and the cookies.
use naitron_c.Prelude.{
  true, false, List, [], ◌∷◌, some, Bytes, take, ◌≡◌, refl, arith, ◌>>=◌, pos, codes,
}
use naitron_c.Slice.{mem_equal}
use naitron_c.Http.Respond.{
  decimal, digits_loop, status_text, status_line, before_nul, response_head, format_response,
  format_response_ex, formatted, stream_head, format_stream_head,
}
use naitron_c.Session.Cookie.{
  skip_separators, cookie_value, skip_cookie, is_cookie, cookie_loop, cookie_get, cookie_base,
  cookie_format, max_age_text,
}
use naitron_c.Session.CookieLaws.{cookie_header, more_cookies, first_named, cookie_get-first_named}

answered :
    format_response true 200 (status_text 200) (codes "text/plain") (codes "hi")
    ≡ formatted (
        codes
          "HTTP/1.1 200 OK\r\nServer: naitron-c/0.0.1\r\nContent-Type: text/plain\r\nContent-Length: 2\r\nConnection: close\r\n\r\nhi")
unfolding format_response format_response_ex response_head status_line status_text decimal
    digits_loop before_nul
answered = refl

streamed :
    format_stream_head true 200 (status_text 200) (codes "text/plain") false []
    ≡ formatted (
        codes
          "HTTP/1.1 200 OK\r\nServer: naitron-c/0.0.1\r\nContent-Type: text/plain\r\nTransfer-Encoding: chunked\r\nConnection: close\r\n\r\n")
unfolding format_stream_head stream_head status_line status_text decimal digits_loop before_nul
streamed = refl

other_cookie :
    cookie_get (codes "a=1; ntc_session=zzz") (codes "ntc_session") 64 ≡ some (codes "zzz")
unfolding cookie_get cookie_loop skip_separators is_cookie cookie_value skip_cookie mem_equal
other_cookie = refl

formatted_cookie :
    cookie_format 256 (codes "s") (codes "v") false (pos 60)
    ≡ some (codes "s=v; Path=/; HttpOnly; SameSite=Lax; Max-Age=60", 47)
unfolding cookie_format cookie_base max_age_text decimal digits_loop
formatted_cookie = refl

abbrev two_cookies : List (Bytes × Bytes)
two_cookies = (codes "ab", codes "1") ∷ (codes "a", codes "x=y") ∷ []

two_cookies_text : cookie_header two_cookies ≡ codes "ab=1; a=x=y"
unfolding cookie_header more_cookies
two_cookies_text = refl

cookie_get-first_named_example :
    cookie_get (cookie_header two_cookies) (codes "a") 64
    ≡ (first_named (codes "a") two_cookies >>= λ v. some (take 63 v))
cookie_get-first_named_example =
    cookie_get-first_named two_cookies (codes "a") 64 (ground arith) (ground arith)
