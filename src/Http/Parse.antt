-- ===== src/Http/Parse.antt =====
-- `HttpData::parseData` of src/HttpData.cpp and the accessors of include/HttpData.h.
pub mod Total
pub mod Request
pub mod Posting
pub mod Connection
use lxc_http_server.Common.{
  ℕ, zero, ◌||◌, Option, none, some, Bytes, length, if◌then◌else◌, Outcome, ok, ◌>>=◌, ℤ, pos,
}
use lxc_http_server.Http.{HttpData, Table, nullinfo}
use lxc_http_server.Http.Strings.{numeral_content_length}
use lxc_http_server.Http.Start.{is_unsupport, is_post, parse_start_line}
use lxc_http_server.Http.Header.{parse_header}
use lxc_http_server.Http.Body.{parse_body_param_data}

unfoldable pub parse_data : HttpData → Outcome HttpData
unfolding parse_start_line parse_header parse_body_param_data
parse_data d = do
  d1 ← parse_start_line d
  if d1.m_bad_request || is_unsupport d1.request_method then ok d1 else (do
    d2 ← parse_header d1
    if is_post d2.request_method then parse_body_param_data d2 else ok d2)

abbrev user_agent_or : Option Bytes → Bytes
user_agent_or none = nullinfo
user_agent_or (some agent) = agent

unfoldable pub get_user_agent : HttpData → Bytes
get_user_agent d = user_agent_or d.user_agent

content_length_or : Option Bytes → HttpData → Outcome ℤ
unfolding numeral_content_length
content_length_or none d = ok (pos 0)
content_length_or (some line) d = numeral_content_length d

unfoldable pub get_content_length : HttpData → Outcome ℤ
unfolding content_length_or
get_content_length d = content_length_or d.content_length d

param_count : Option Table → ℕ
param_count none = 0
param_count (some table) = length table

unfoldable pub get_param_count : HttpData → ℕ
unfolding param_count
get_param_count d = param_count d.client_param_data
