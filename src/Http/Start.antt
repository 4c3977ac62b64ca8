-- ===== src/Http/Start.antt =====
-- `getRequestMethod` and `parseStartLine` of src/HttpData.cpp.
pub mod Request
use lxc_http_server.Common.{
  List, [], ◌∷◌, ◌++◌, Option, none, some, Bool, true, false, ◌+◌, ◌||◌, Bytes, codes, length, drop,
  get_elem?, if◌then◌else◌, text_eq, Outcome, ok, out_of_bounds, ◌>>=◌, or_fault,
}
use lxc_http_server.Http.{HttpData, RequestMethod, unsupport, get, post, nullinfo, resource_root}
use lxc_http_server.Http.Line.{parse_one_line}
use lxc_http_server.Http.Strings.{string_split, find_last_of}
use lxc_http_server.Http.Params.{parse_url_data_param_list}

abbrev pub is_unsupport : RequestMethod → Bool
is_unsupport unsupport = true
is_unsupport _ = false

abbrev pub is_post : RequestMethod → Bool
is_post post = true
is_post _ = false

unfoldable pub get_request_method : List Bytes → HttpData → HttpData
unfolding text_eq
get_request_method [] d = record d {
  request_method = unsupport;
  request_method_string = codes "UNSUPPORT";
  m_bad_request = true;
}
get_request_method (first ∷ rest) d =
    if text_eq first (codes "GET")
    then record d { request_method = get; request_method_string = codes "GET" }
    else if text_eq first (codes "POST")
    then record d { request_method = post; request_method_string = codes "POST" }
    else record d { request_method = unsupport; request_method_string = codes "UNSUPPORT" }

-- The suffix of the url; `url.substr(suffixStartIndex + 1)` starts inside the url.
unfoldable pub resource_type : Bytes → Bytes
unfolding find_last_of
resource_type url = elim (find_last_of b'.' url) [ none ↦ nullinfo | some i ↦ drop (i + 1) url ]

-- `parseStartLine` behind its early return.
unfoldable pub set_url : List Bytes → HttpData → Outcome HttpData
unfolding text_eq resource_type parse_url_data_param_list
set_url header_info d = do
  target ← or_fault (get_elem? header_info 1) out_of_bounds
  let url = if text_eq target (codes "/") then codes "/index.html" else target
  d1 ← parse_url_data_param_list (record d { url = url })
  let d2 = record d1 { url_resource_type = resource_type d1.url; url = resource_root ++ d1.url }
  version ← or_fault (get_elem? header_info 2) out_of_bounds
  ok (record d2 { version = version })

unfoldable pub parse_start_line : HttpData → Outcome HttpData
unfolding parse_one_line string_split get_request_method set_url
parse_start_line d = do
  (first_line, d1) ← parse_one_line d
  header_info ← string_split first_line [] (codes " ")
  let d2 = get_request_method header_info d1
  if d2.m_bad_request || is_unsupport d2.request_method then ok d2 else set_url header_info d2
