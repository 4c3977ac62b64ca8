-- ===== src/Http/Line.antt =====
-- `HttpData::parseOneLine` of src/HttpData.cpp. `line_buffer` is the part of the array of 256
-- characters that has been written; `index` is its length.
pub mod Stream
pub mod Bounds
pub mod Progress
use lxc_http_server.Common.{
  ℕ, zero, suc, ◌+◌, ◌-◌, [], ◌∷◌, ◌++◌, ◌&&◌, Bytes, length, get_elem?, set, ltb, leb, ◌==◌,
  if◌then◌else◌, c_string, carriage_return, line_feed, Outcome, ok, out_of_fuel, out_of_bounds,
  ◌>>=◌, ◌>>◌, check, or_fault,
}
use lxc_http_server.Http.{HttpData, line_buffersize}
use lxc_http_server.Http.Socket.{data_buffer_empty, read_raw_data_from_socket, pending}

-- The first statements of the loop's body: one character goes to the line.
unfoldable pub take_char : HttpData → Bytes → Outcome (ℕ × Bytes × HttpData)
take_char d line_buffer = do
  c ← or_fault (get_elem? d.data_buffer d.read_index) out_of_bounds
  check (ltb (length line_buffer) line_buffersize) out_of_bounds
  ok (c, line_buffer ++ c ∷ [], record d { read_index = d.read_index + 1 })

-- The last statement of the body.
unfoldable pub refill : HttpData → Outcome HttpData
refill d = if ltb d.data_end_index d.read_index then read_raw_data_from_socket d else ok d

-- One round of the loop; `next` is the rest of the loop.
unfoldable pub line_round :
    (HttpData → Bytes → Outcome (Bytes × HttpData)) → HttpData → Bytes → Outcome (Bytes × HttpData)
unfolding take_char refill
line_round next d line_buffer =
    if leb d.read_index d.data_end_index
    then (do
      (c, line, d1) ← take_char d line_buffer
      if d.prev == carriage_return && c == line_feed
          then ok (line, record d1 { prev = 0 })
          else (do d2 ← refill (record d1 { prev = c }); next d2 line))
    else ok (line_buffer, d)

unfoldable pub line_loop : ℕ → HttpData → Bytes → Outcome (Bytes × HttpData)
line_loop zero d line_buffer = out_of_fuel
line_loop (suc fuel) d line_buffer = line_round (line_loop fuel) d line_buffer

-- `lineBuffer[index - 2] = '\0'; return string(lineBuffer);`
unfoldable pub finish_line : Bytes × HttpData → Outcome (Bytes × HttpData)
finish_line (line, d) = do
  check (leb 2 (length line)) out_of_bounds
  ok (c_string (set line (length line - 2) 0), d)

unfoldable pub parse_one_line : HttpData → Outcome (Bytes × HttpData)
unfolding line_round line_loop finish_line data_buffer_empty read_raw_data_from_socket
parse_one_line d = do
  d1 ← if data_buffer_empty d then read_raw_data_from_socket d else ok d
  read ← line_loop (suc (pending d1)) d1 []
  finish_line read
