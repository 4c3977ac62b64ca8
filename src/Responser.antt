-- ===== src/Responser.antt =====
-- include/Responser.h, src/Responser.cpp and src/Pages.cpp: what a request is answered with.
-- A `char buf[]` that is filled by `sprintf` is the bytes before its NUL. (`sprintf(buf, "%s%s", buf, …)`
-- reads what it writes; it is modelled as the append that is meant.)
pub mod Pages
pub mod Cgi
pub mod Static
pub mod Length
pub mod Nul
pub mod Binary
pub mod Reading
pub mod Output
pub mod Descriptors
mod Tests
use lxc_http_server.Common.{
  ℕ, zero, suc, ◌+◌, ◌-◌, ◌/◌, ◌%◌, ◌^◌, Bool, true, false, List, [], ◌∷◌, ◌++◌, Option, none, some,
  Bytes, codes, crlf, length, take, drop, ltb, ◌==◌, if◌then◌else◌, text_eq, c_string, line_feed,
  Outcome, ok, throws, fault, Exception, socket_closed, runtime_error, out_of_bounds, null_pointer,
  leb, out_of_fuel, ◌>>=◌, ◌>>◌, check,
}
use lxc_http_server.Http.{HttpData}
use lxc_http_server.Http.Socket.{overwrite}
use lxc_http_server.Http.Strings.{elem}
use lxc_http_server.Responser.Pages.{server_name, not_found_page}

abbrev pub page_buffer_size : ℕ
page_buffer_size = 2048

-- What the peer has been sent, and what `send` returns next: -1, or how much it has taken. With no
-- more results given, everything is taken.
pub record Peer : Type 0 where
  pub sent : Bytes
  pub results : List (Option ℕ)

-- One call of `send`; `false` is -1.
send_result : List (Option ℕ) → Bytes → Peer → Bool × Peer
send_result [] text p = (true, record p { sent = p.sent ++ text })
send_result (none ∷ rest) text p = (false, record p { results = rest })
send_result (some n ∷ rest) text p = (true, record { sent = p.sent ++ take n text; results = rest })

unfoldable pub send : Bytes → Peer → Bool × Peer
unfolding send_result
send text p = send_result p.results text p

unfoldable pub send_or : Exception → Bytes → Peer → Outcome Peer
unfolding send
send_or e text p = let (sent, p1) = send text p in if sent then ok p1 else throws e

unfoldable pub first_line_200 : Bytes
first_line_200 = codes "HTTP/1.1 200 OK" ++ crlf ++ server_name

unfoldable pub header_html_content_type : Bytes → Bytes
header_html_content_type buf = buf ++ (codes "Content-Type: text/html" ++ crlf)

unfoldable pub header_png_content_type : Bytes → Bytes
header_png_content_type buf = buf ++ (codes "Content-Type: image/png" ++ crlf)

unfoldable pub header_body : Bytes → Bytes
header_body buf = buf ++ crlf

unfoldable pub header_keep_alive : Bytes → Bytes
header_keep_alive buf =
    buf ++ (codes "Connection: keep-alive" ++ crlf) ++ (codes "Keep-Alive: " ++ crlf)

-- The decimal digits of a number, with fuel for their number.
unfoldable pub digits : ℕ → ℕ → Bytes → Bytes
digits zero n acc = acc
digits (suc fuel) n acc =
    let acc1 = (b'0' + n % 10) ∷ acc in
    let more = digits fuel (n / 10) acc1 in if n / 10 == 0 then acc1 else more

-- `%d` takes the low 32 bits of the `size_t` as an `int`, which has at most ten digits.
unfoldable pub percent_d : ℕ → Bytes
unfolding digits
percent_d n =
    let m = n % 2 ^ 32 in
    if ltb m (2 ^ 31) then digits 10 m [] else b'-' ∷ digits 10 (2 ^ 32 - m) []

unfoldable pub header_content_length : Bytes → ℕ → Bytes
unfolding percent_d
header_content_length buf file_size =
    buf ++ (codes "Content-Length: " ++ (percent_d file_size ++ crlf))

unfoldable pub not_found : Bytes
not_found =
    codes "HTTP/1.1 404 NOT FOUND"
    ++ crlf
    ++ server_name
    ++ (codes "Content-Type: text/html" ++ crlf)
    ++ crlf
    ++ not_found_page

unfoldable pub send_not_found : Peer → Outcome Peer
unfolding send_or not_found
send_not_found p = send_or socket_closed not_found p

unfoldable pub send_for_bidden : Peer → Outcome Peer
unfolding send_or not_found
send_for_bidden p = send_or runtime_error not_found p

-- The text and its NUL go into an array of 2048 bytes, whatever the size of the page in memory. The
-- result of this `send` is not looked at.
unfoldable pub send_memory_page : Bytes → Peer → Outcome Peer
unfolding send first_line_200 header_html_content_type
send_memory_page memory_index_page p = do
  let text = header_html_content_type first_line_200 ++ memory_index_page in
      (do check (leb (length text + 1) page_buffer_size) out_of_bounds; ok (send text p).1)

-- What `stat` and `fopen` find: an error of `stat` with `errno`; a file with its size that `fopen` does
-- not open; or a file and what it holds.
pub data FileStatus : Type 0 where
  denied missing : FileStatus
  unopened : ℕ → FileStatus
  regular : Bytes → FileStatus

-- `fgets` with room for `n` bytes and a NUL.
unfoldable pub fgets : ℕ → Bytes → Bytes
fgets zero text = []
fgets (suc n) [] = []
fgets (suc n) (c ∷ text) = let line = fgets n text in if c == line_feed then c ∷ [] else c ∷ line

-- The bytes of an array that `strlen` counts; with no NUL in it, `strlen` reads on behind it.
unfoldable pub until_nul : Bytes → Outcome Bytes
unfolding c_string
until_nul array = do check (elem 0 array) out_of_bounds; ok (c_string array)

-- The loop for a file that is not text, which is in `content` from the position of `fread` on.
unfoldable pub binary_loop : ℕ → Bytes → Bytes → Peer → Outcome Peer
unfolding until_nul send_or
binary_loop zero content read_buf p = out_of_fuel
binary_loop (suc fuel) [] read_buf p = ok p
binary_loop (suc fuel) (c ∷ content) read_buf p = do
  let buf1 = overwrite (take page_buffer_size (c ∷ content)) read_buf in
      (do
        text ← until_nul buf1
        p1 ← send_or socket_closed text p
        binary_loop fuel (drop page_buffer_size (c ∷ content)) buf1 p1)

-- `read_buf` is what its memory held.
unfoldable pub server_static_file : Bytes → HttpData → Bytes → Peer → Outcome Peer
unfolding binary_loop fgets send_or text_eq c_string
server_static_file content d read_buf p =
    if text_eq d.url_resource_type (codes "html")
    then send_or socket_closed (c_string (fgets (page_buffer_size - 1) content)) p
    else binary_loop (length content + 1) content read_buf p

unfoldable pub static_head : HttpData → ℕ → Bytes
unfolding first_line_200 header_keep_alive header_png_content_type header_html_content_type
    header_content_length header_body text_eq
static_head d file_size =
    let kept = if d.m_keep_connection then header_keep_alive first_line_200 else first_line_200 in
    let typed =
      if text_eq d.url_resource_type (codes "png")
      then header_png_content_type kept
      else header_html_content_type kept in
    header_body (header_content_length typed file_size)

-- `fread` and `fgets` are given the null pointer of an `fopen` that has failed.
unfoldable pub send_static_file_to_client : FileStatus → HttpData → Bytes → Peer → Outcome Peer
unfolding send_for_bidden send_not_found static_head server_static_file send_or
send_static_file_to_client denied d read_buf p = send_for_bidden p
send_static_file_to_client missing d read_buf p = send_not_found p
send_static_file_to_client (unopened size) d read_buf p = do
  p1 ← send_or socket_closed (static_head d size) p
  fault null_pointer
send_static_file_to_client (regular content) d read_buf p = do
  p1 ← send_or socket_closed (static_head d (length content)) p
  server_static_file content d read_buf p1
