-- ===== src/Http/Params.antt =====
-- `parseStringParamTo_htable_clientParamData` and `parseUrlDataParamList` of src/HttpData.cpp.
pub mod Values
pub mod Total
use lxc_http_server.Common.{
  ℕ, zero, suc, ◌+◌, ◌-◌, [], ◌∷◌, ◌++◌, Option, none, some, Bool, not, ◌||◌, Bytes, length, ltb,
  ◌==◌, if◌then◌else◌, text_eq, Outcome, ok, out_of_fuel, ◌>>=◌,
}
use lxc_http_server.Http.{HttpData, Table}
use lxc_http_server.Http.Strings.{substr, scan_from, find_index}

-- `table[key] = value`.
unfoldable pub insert : Bytes → Bytes → Table → Table
unfolding text_eq
insert key value [] = (key, value) ∷ []
insert key value ((k, v) ∷ rest) =
    if text_eq k key then (key, value) ∷ rest else (k, v) ∷ insert key value rest

-- `if(end = mid) … else …`: the test assigns, so it asks whether `mid` is 0.
unfoldable pub param_value : Bytes → ℕ → Outcome Bytes
unfolding substr
param_value str mid =
    let end = mid in if not (end == 0) then ok [] else substr str (mid + 1) (end - mid)

-- The outer loop; `cur` and `prev` have the same value whenever its test is made.
unfoldable pub params_loop : ℕ → Bytes → ℕ → ℕ → Table → Outcome Table
unfolding scan_from substr param_value insert
params_loop zero str cur prev table = out_of_fuel
params_loop (suc fuel) str cur prev table =
    let round = (do
      amp ← scan_from b'&' str cur
      mid ← scan_from b'=' str prev
      key ← substr str prev (mid - prev)
      value ← param_value str mid
      params_loop fuel str (amp + 1) (amp + 1) (insert key value table)) in
    if ltb cur (length str) then round else ok table

abbrev pub table_of : Option Table → Table
table_of none = []
table_of (some table) = table

unfoldable pub parse_string_param : Bytes → HttpData → Outcome HttpData
unfolding params_loop
parse_string_param str d = do
  table ← params_loop (suc (length str)) str 0 0 (table_of d.client_param_data)
  ok (record d { client_param_data = some table })

-- `while(i < url.size() && url[i] != '?') i++`.
query_start : Bytes → ℕ
unfolding find_index
query_start url = elim (find_index (λ c. c == b'?') url) [ none ↦ length url | some i ↦ i ]

-- `i = url.size() || i + 1 > url.size()`.
query_test : Bytes → ℕ
unfolding query_start
query_test url = if not (length url == 0) || ltb (length url) (query_start url + 1) then 1 else 0

unfoldable pub parse_url_data_param_list : HttpData → Outcome HttpData
unfolding query_test substr parse_string_param
parse_url_data_param_list d =
    let i = query_test d.url in
    if not (i == 0) then ok d else (do
      param_str ← substr d.url (i + 1) (length d.url)
      url ← substr d.url 0 i
      parse_string_param (param_str ++ b'&' ∷ []) (record d { url = url }))
