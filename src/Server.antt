-- ===== src/Server.antt =====
-- The handler `httpserver` of src/httpserver.cpp, which a thread of the pool runs for a descriptor.
pub mod Handler
pub mod Exceptions
pub mod Caught
pub mod Missing
pub mod Linked
pub mod Connection
mod Tests
use lxc_http_server.Common.{
  ℕ, Bool, true, false, not, ◌&&◌, List, [], ◌∷◌, Option, none, some, Bytes, codes, text_eq,
  if◌then◌else◌, Outcome, ok, throws, fault, blocks, out_of_fuel, Exception, is_std_exception,
  ◌>>=◌,
}
use lxc_http_server.Http.{HttpData, Recv, http_data, RequestMethod, unsupport, get, post}
use lxc_http_server.Http.Parse.{parse_data}
use lxc_http_server.Http.Start.{is_unsupport, is_post}
use lxc_http_server.Timer.{Timer, addfd, delete_fd}
use lxc_http_server.Responser.{
  Peer, FileStatus, denied, missing, unopened, regular, send_not_found, send_memory_page,
  send_static_file_to_client,
}
use lxc_http_server.Responser.Cgi.{CgiProgram, execute_cgi}

-- What the handler meets outside: the files, the CGI programs, the index page that is in memory, what
-- the memory of its local variables held, and the time.
pub record World : Type 0 where
  pub files : Bytes → FileStatus
  pub cgi : CgiProgram
  pub memory_index_page : Bytes
  pub left_over_flag : Bool
  pub left_over_buf : Bytes
  pub now : ℕ

-- `fileExist`: `stat` succeeds.
unfoldable pub file_exist : FileStatus → Bool
file_exist denied = false
file_exist missing = false
file_exist (unopened size) = true
file_exist (regular content) = true

-- What has become of the connection. `peer` is none when an exception has cut the answer off.
pub record Served : Type 0 where
  pub peer : Option Peer
  pub timer : Timer
  pub closed : Bool

abbrev has_type : HttpData → Bytes → Bool
has_type d name = text_eq d.url_resource_type name

answer_get : World → HttpData → Peer → Outcome Peer
answer_get w d p =
    if has_type d (codes "cgi")
    then execute_cgi w.cgi d p
    else if has_type d (codes "memory")
    then send_memory_page w.memory_index_page p
    else send_static_file_to_client (w.files d.url) d w.left_over_buf p

answer_post : World → HttpData → Peer → Outcome Peer
answer_post w d p = if has_type d (codes "cgi") then execute_cgi w.cgi d p else send_not_found p

answer_by : RequestMethod → World → HttpData → Peer → Outcome Peer
unfolding answer_get answer_post
answer_by get w d p = answer_get w d p
answer_by post w d p = answer_post w d p
answer_by unsupport w d p = ok p

unfoldable pub answer : World → HttpData → Peer → Outcome Peer
unfolding answer_by
answer w d p = answer_by d.request_method w d p

-- The end of the handler: the connection is kept for the timer, or closed.
unfoldable pub keep_or_close : World → HttpData → Timer → Peer → Served
unfolding addfd
keep_or_close w d t p =
    if d.m_keep_connection
    then record { peer = some p; timer = (addfd t w.now d.client_socket).0; closed = false }
    else record { peer = some p; timer = t; closed = true }

-- The `try` block behind `parseData`, with its early returns.
unfoldable pub respond : World → Timer → Peer → HttpData → Outcome Served
unfolding file_exist send_not_found answer keep_or_close text_eq
respond w t p d =
    if d.m_bad_request
    then ok (record { peer = some p; timer = t; closed = false })
    else if is_unsupport d.request_method
    then ok (record { peer = some p; timer = t; closed = false })
    else if not (file_exist (w.files d.url)) && not (has_type d (codes "memory"))
    then (do p1 ← send_not_found p; ok (record { peer = some p1; timer = t; closed = false }))
    else (do p1 ← answer w d p; ok (keep_or_close w d t p1))

-- `catch(const std::exception &)`; another exception leaves the thread's function, which terminates
-- the process.
unfoldable pub handle : Outcome Served → Timer → ℕ → Outcome Served
unfolding is_std_exception delete_fd
handle (throws e) t fd =
    if is_std_exception e
    then (do t1 ← delete_fd t fd; ok (record { peer = none; timer = t1; closed = true }))
    else throws e
handle (ok s) t fd = ok s
handle (fault k) t fd = fault k
handle blocks t fd = blocks
handle out_of_fuel t fd = out_of_fuel

-- `socket` is what `recv` on the descriptor will return.
unfoldable pub httpserver : World → Timer → ℕ → List Recv → Peer → Outcome Served
unfolding handle respond parse_data http_data
httpserver w t fd socket p =
    handle (do d ← parse_data (http_data fd socket w.left_over_flag); respond w t p d) t fd
