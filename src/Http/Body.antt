-- ===== src/Http/Body.antt =====
-- `parseBodyParamData` of src/HttpData.cpp. `data_read` is the part of the array `data` that has been
-- written; `index` is its length.
pub mod Total
pub mod Reading
use lxc_http_server.Common.{
  ℕ, zero, suc, ◌+◌, ◌-◌, ◌^◌, [], ◌∷◌, ◌++◌, Bool, false, Bytes, length, get_elem?, ltb, leb, ◌==◌,
  if◌then◌else◌, c_string, Outcome, ok, throws, fault, out_of_fuel, out_of_bounds, uninitialised,
  int_overflow, bad_array_new_length, ◌>>=◌, ◌>>◌, check, or_fault, ℤ, pos, negsuc,
}
use lxc_http_server.Http.{HttpData}
use lxc_http_server.Http.Socket.{pending, read_raw_data_from_socket}
use lxc_http_server.Http.Strings.{numeral_content_length}
use lxc_http_server.Http.Params.{parse_string_param}

-- The size of `new char[contentLength + 2]`.
array_size : ℤ → Outcome ℕ
array_size (pos n) = if ltb (n + 2) (2 ^ 31) then ok (n + 2) else fault int_overflow
array_size (negsuc zero) = ok 1
array_size (negsuc (suc zero)) = ok 0
array_size (negsuc (suc (suc n))) = throws bad_array_new_length

-- `index == contentLength`.
is_length : ℤ → ℕ → Bool
is_length (pos n) index = n == index
is_length (negsuc n) index = false

-- One round of the loop; `next` is the rest of it.
unfoldable pub body_round :
    (HttpData → Bytes → Outcome (Bytes × HttpData))
    → ℤ
    → ℕ
    → HttpData
    → Bytes
    → Outcome (Bytes × HttpData)
unfolding is_length read_raw_data_from_socket
body_round next content_length size d data_read =
    if leb d.read_index d.data_end_index
    then (do
      c ← or_fault (get_elem? d.data_buffer d.read_index) out_of_bounds
      check (ltb (length data_read) size) out_of_bounds
      let data' = data_read ++ c ∷ []
      let d1 = record d { read_index = d.read_index + 1 }
      if is_length content_length (length data') then ok (data', d1) else (do
        d2 ← if ltb d1.data_end_index d1.read_index then read_raw_data_from_socket d1 else ok d1
        next d2 data'))
    else ok (data_read, d)

unfoldable pub body_loop : ℕ → ℤ → ℕ → HttpData → Bytes → Outcome (Bytes × HttpData)
body_loop zero content_length size d data_read = out_of_fuel
body_loop (suc fuel) content_length size d data_read =
    body_round (body_loop fuel content_length size) content_length size d data_read

-- `data[contentLength] = '&'; data[contentLength + 1] = 0; string s_data(data);` where the loop may
-- have left the front of the array unwritten.
pub terminate : ℤ → Bytes → Outcome Bytes
terminate (pos n) data_read =
    if length data_read == n then ok (c_string (data_read ++ b'&' ∷ [])) else fault uninitialised
terminate (negsuc n) data_read = fault out_of_bounds

unfoldable pub parse_body_param_data : HttpData → Outcome HttpData
unfolding array_size body_round body_loop terminate numeral_content_length parse_string_param
    c_string
parse_body_param_data d = do
  content_length ← numeral_content_length d
  size ← array_size content_length
  (data_read, d1) ← body_loop (suc (pending d)) content_length size d []
  s_data ← terminate content_length data_read
  parse_string_param s_data d1
