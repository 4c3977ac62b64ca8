-- ===== src/Responser/Output.antt =====
-- What the peer is sent of a CGI program's output: the loop of `read` in `executeCGI` of
-- src/Responser.cpp.
use lxc_http_server.Common.{
  ℕ, suc, ◌+◌, ◌-◌, ◌<◌, ◌≤◌, ◌≡◌, refl, ◌∙◌, false, List, [], ◌∷◌, ◌++◌, Bytes, Option, some,
  length, length-append, replicate, arith, ok, fault, out_of_bounds, ◌>>=◌, socket_closed,
}
use lxc_http_server.Http.{HttpData, Table}
use lxc_http_server.Http.Socket.{overwrite}
use lxc_http_server.Http.Strings.{elem}
use lxc_http_server.Responser.{Peer, page_buffer_size, until_nul, first_line_200, send_or}
use lxc_http_server.Http.Parse.{get_param_count}
use lxc_http_server.Responser.Pages.{server_name}
use lxc_http_server.Responser.Static.{send_or-all}
use lxc_http_server.Responser.Cgi.{
  read_loop, CgiProgram, started, env_str, cgi_input, run_cgi, execute_cgi,
}
use lxc_http_server.Responser.Reading.{
  padded, output, reads, AllText, drop-replicate, until_nul-padded, read_loop-output,
  read_loop-overflow, both_text, nonzero, output_text,
}

overwrite-zeros :
    (n : ℕ) (s : Bytes) → overwrite s (replicate n 0) ≡ s ++ replicate (n - length s) 0
overwrite-zeros n s = rw (drop-replicate (length s) n) refl

-- A request with parameters whose program was started.
execute_cgi-started :
    (cgi : CgiProgram) (d : HttpData) (x : Bytes × Bytes) (table : Table)
    (results : List (Option Bytes)) (p : Peer)
    → d.client_param_data ≡ some (x ∷ table)
    → cgi d.url (env_str (x ∷ table)) (cgi_input (x ∷ table)) ≡ started results
    → execute_cgi cgi d p ≡ (do
      buf ← read_loop results (padded first_line_200)
      text ← until_nul buf
      send_or socket_closed text p)
unfolding execute_cgi run_cgi get_param_count
execute_cgi-started cgi d x table results p e h =
    rw
      (
        e,
        h,
        nonzero (suc (length table)) (omega arith),
        overwrite-zeros page_buffer_size first_line_200,
      )
      refl

head_text : elem 0 first_line_200 ≡ false
unfolding first_line_200 server_name
head_text = refl

-- When a request has a parameter, its CGI program is started and writes chunks of text, none empty and
-- with no NUL, then ends, the status line and the text are shorter than the buffer of 2048 bytes, and
-- the peer takes everything, then `execute_cgi` returns and has sent exactly the status line with the
-- server name and the whole text.
pub execute_cgi-output :
    (cgi : CgiProgram) (d : HttpData) (x : Bytes × Bytes) (table : Table) (chunks : List Bytes)
    (p : Peer)
    → d.client_param_data ≡ some (x ∷ table)
    → cgi d.url (env_str (x ∷ table)) (cgi_input (x ∷ table)) ≡ started (reads chunks)
    → AllText chunks
    → length first_line_200 + length (output chunks) < page_buffer_size
    → p.results ≡ []
    → execute_cgi cgi d p ≡ ok (record p { sent = p.sent ++ (first_line_200 ++ output chunks) })
execute_cgi-output cgi d x table chunks p e h a l r =
    let text = first_line_200 ++ output chunks in
    execute_cgi-started cgi d x table (reads chunks) p e h
    ∙ rw
        (
          read_loop-output first_line_200 chunks head_text a l,
          until_nul-padded text
              (both_text first_line_200 (output chunks) head_text (output_text chunks a))
              (omega (arith, l, length-append first_line_200 (output chunks))),
        )
        (send_or-all socket_closed text p r)

-- When a request has a parameter, its CGI program is started and writes chunks of text, none empty and
-- with no NUL, then ends, and the status line and the text fill the buffer of 2048 bytes, then
-- `execute_cgi` reads past the end of the buffer.
pub execute_cgi-overflow :
    (cgi : CgiProgram) (d : HttpData) (x : Bytes × Bytes) (table : Table) (chunks : List Bytes)
    (p : Peer)
    → d.client_param_data ≡ some (x ∷ table)
    → cgi d.url (env_str (x ∷ table)) (cgi_input (x ∷ table)) ≡ started (reads chunks)
    → AllText chunks
    → page_buffer_size ≤ length first_line_200 + length (output chunks)
    → execute_cgi cgi d p ≡ fault out_of_bounds
execute_cgi-overflow cgi d x table chunks p e h a l =
    execute_cgi-started cgi d x table (reads chunks) p e h
    ∙ rw (read_loop-overflow first_line_200 chunks head_text a l) refl
