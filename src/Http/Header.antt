-- ===== src/Http/Header.antt =====
-- `parseHeader` of src/HttpData.cpp.
pub mod Total
pub mod Lines
pub mod Faults
use lxc_http_server.Common.{
  ℕ, zero, suc, [], ◌∷◌, Bool, true, ◌&&◌, some, Bytes, codes, length, drop, leb, if◌then◌else◌,
  text_eq, Outcome, ok, out_of_fuel, ◌>>=◌,
}
use lxc_http_server.Http.{HttpData}
use lxc_http_server.Http.Socket.{pending}
use lxc_http_server.Http.Line.{parse_one_line}
use lxc_http_server.Http.Strings.{get_header_line_name}

-- `(*connection).size() >= 13 && (*connection).substr(12) == "keep-alive"`.
asks_keep_alive : Bytes → Bool
unfolding text_eq
asks_keep_alive line = leb 13 (length line) && text_eq (drop 12 line) (codes "keep-alive")

pub data HeaderField : Type 0 where
  host_line user_agent_line accept_line accept_language_line connection_line : HeaderField
  upgrade_line content_type_line content_length_line other_line : HeaderField

-- The chain of tests on `headName`.
unfoldable pub header_field : Bytes → HeaderField
unfolding text_eq
header_field name =
    if text_eq name (codes "HOST")
    then host_line
    else if text_eq name (codes "User-Agent")
    then user_agent_line
    else if text_eq name (codes "Accept")
    then accept_line
    else if text_eq name (codes "Accept-Language")
    then accept_language_line
    else if text_eq name (codes "Connection")
    then connection_line
    else if text_eq name (codes "Upgrade-Insecure-Requests")
    then upgrade_line
    else if text_eq name (codes "Content_Type")
    then content_type_line
    else if text_eq name (codes "Content-Length")
    then content_length_line
    else other_line

-- The branches behind the tests.
unfoldable pub store_field : HeaderField → Bytes → HttpData → HttpData
unfolding asks_keep_alive
store_field host_line line d = record d { host = some line }
store_field user_agent_line line d = record d { user_agent = some line }
store_field accept_line line d = record d { accept = some line }
store_field accept_language_line line d = record d { accept_language = some line }
store_field connection_line line d = record d {
  connection = some line;
  m_keep_connection = if asks_keep_alive line then true else d.m_keep_connection;
}
store_field upgrade_line line d = record d { upgrade_insecure_requests = some line }
store_field content_type_line line d = record d { content_type = some line }
store_field content_length_line line d = record d { content_length = some line }
store_field other_line line d = d

unfoldable pub store_header : Bytes → Bytes → HttpData → HttpData
unfolding header_field store_field
store_header name line d = store_field (header_field name) line d

-- One line of the header; `next` is the rest of the loop.
unfoldable pub header_round : (HttpData → Outcome HttpData) → Bytes → HttpData → Outcome HttpData
unfolding get_header_line_name store_header
header_round next [] d = ok d
header_round next (c ∷ cs) d = do
  name ← get_header_line_name (c ∷ cs)
  next (store_header name (c ∷ cs) d)

unfoldable pub header_loop : ℕ → HttpData → Outcome HttpData
unfolding header_round parse_one_line
header_loop zero d = out_of_fuel
header_loop (suc fuel) d = do (line, d1) ← parse_one_line d; header_round (header_loop fuel) line d1

unfoldable pub parse_header : HttpData → Outcome HttpData
unfolding header_loop
parse_header d = header_loop (suc (pending d)) d
