-- ===== src/Responser/Cgi.antt =====
-- `Responser::executeCGI` and `cgiContentLength` of src/Responser.cpp. The CGI program is a parameter:
-- from its path, its environment string and its standard input, whether it could be started, and what
-- the calls of `read` on its output return (-1, or some bytes; 0 bytes at the end).
use lxc_http_server.Common.{
  ℕ, ◌+◌, ◌-◌, ◌*◌, ◌≡◌, refl, List, [], ◌∷◌, ◌++◌, Option, none, some, Bytes, codes, length,
  length-append, take, drop, replicate, ◌==◌, if◌then◌else◌, line_feed, arith, Outcome, ok, throws,
  blocks, socket_closed, runtime_error, null_pointer, or_fault, ◌>>=◌,
}
use lxc_http_server.Http.{HttpData, Table, nullinfo}
use lxc_http_server.Http.Socket.{overwrite}
use lxc_http_server.Http.Parse.{get_param_count}
use lxc_http_server.Responser.{
  Peer, page_buffer_size, send_or, send_for_bidden, first_line_200, until_nul, percent_d,
}

pub data Cgi : Type 0 where
  no_pipe no_process : Cgi
  started : List (Option Bytes) → Cgi

abbrev pub CgiProgram : Type 0
CgiProgram = Bytes → Bytes → Bytes → Cgi

value_or_null : Bytes → Bytes
value_or_null [] = nullinfo
value_or_null (c ∷ value) = c ∷ value

-- What is written to the program's standard input, for keys and values without a NUL.
unfoldable pub cgi_input : Table → Bytes
unfolding value_or_null
cgi_input [] = []
cgi_input ((key, value) ∷ table) =
    key ++ codes " " ++ value_or_null value ++ (line_feed ∷ []) ++ cgi_input table

unfoldable pub cgi_content_length : Table → ℕ
unfolding value_or_null
cgi_content_length [] = 0
cgi_content_length ((key, value) ∷ table) =
    length key + length (value_or_null value) + cgi_content_length table

unfoldable pub env_str : Table → Bytes
unfolding percent_d cgi_content_length
env_str table =
    codes "CGIDATA="
    ++ percent_d (length table)
    ++ codes " "
    ++ percent_d (cgi_content_length table)

-- The loop of `read`, each to the end of the text in the buffer.
unfoldable pub read_loop : List (Option Bytes) → Bytes → Outcome Bytes
unfolding until_nul
read_loop [] buf = blocks
read_loop (none ∷ rest) buf = do text ← until_nul buf; throws runtime_error
read_loop (some chunk ∷ rest) buf = do
  text ← until_nul buf
  let put = take (page_buffer_size - length text) chunk in
      let more = read_loop rest (text ++ overwrite put (drop (length text) buf)) in
      if length put == 0 then ok buf else more

unfoldable pub run_cgi : Cgi → Peer → Outcome Peer
unfolding read_loop until_nul send_or first_line_200
run_cgi no_pipe p = throws runtime_error
run_cgi no_process p = throws runtime_error
run_cgi (started reads) p = do
  buf ← read_loop reads (overwrite first_line_200 (replicate page_buffer_size 0))
  text ← until_nul buf
  send_or socket_closed text p

unfoldable pub execute_cgi : CgiProgram → HttpData → Peer → Outcome Peer
unfolding run_cgi send_for_bidden get_param_count env_str cgi_input
execute_cgi cgi d p = if get_param_count d == 0 then send_for_bidden p else (do
  table ← or_fault d.client_param_data null_pointer
  run_cgi (cgi d.url (env_str table) (cgi_input table)) p)

-- The bytes that are written to the CGI program number `cgi_content_length` and two more for each
-- parameter.
pub cgi_input-length :
    (table : Table) → length (cgi_input table) ≡ cgi_content_length table + 2 * length table
unfolding cgi_input cgi_content_length
cgi_input-length [] = refl
cgi_input-length ((key, value) ∷ table) =
    let v = value_or_null value in
    let rest = cgi_input table in
    omega (
      arith,
      length-append (key ++ codes " " ++ v ++ (line_feed ∷ [])) rest,
      length-append (key ++ codes " " ++ v) (line_feed ∷ []),
      length-append (key ++ codes " ") v,
      length-append key (codes " "),
      cgi_input-length table,
    )
