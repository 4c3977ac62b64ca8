-- ===== src/Http/Line/Bounds.antt =====
-- `parseOneLine` ends, and overruns its buffer on a long line.
use lxc_http_server.Common.{
  ap, ℕ, zero, suc, ◌+◌, ◌≤◌, ◌<◌, ◌≡◌, ◌∙◌, [], ◌∷◌, ◌++◌, Bytes, length, length-append, arith,
  ltb, if◌then◌else◌, le→leb, ltb-false, Outcome, ok, fault, out_of_bounds,
}
use native.Mathlib.Decide.{dec_lt}
use lxc_http_server.Http.{HttpData, line_buffersize}
use lxc_http_server.Http.Socket.{pending, read_raw_data_from_socket}
use lxc_http_server.Http.Socket.Stream.{
  stream, IsSound, HasData, Reads, stream-next, refill-Reads, stream-le-pending,
  data_buffer_empty_sound,
}
use lxc_http_server.Http.Line.{line_round, line_loop, parse_one_line, take_char}
use lxc_http_server.Http.Line.Stream.{NoCrlf, line_round-next}

-- The 257th character of a line has no place in the buffer.
line_round-overrun :
    (next : HttpData → Bytes → Outcome (Bytes × HttpData)) (d : HttpData) (acc : Bytes) (c : ℕ)
    (s : Bytes)
    → IsSound d
    → HasData d
    → stream d ≡ c ∷ s
    → line_buffersize ≤ length acc
    → line_round next d acc ≡ fault out_of_bounds
unfolding line_round take_char
line_round-overrun next d acc c s v h e l =
    let (here, later) = stream-next d c s v h e in
    rw (le→leb _ _ h, here, ltb-false (length acc) line_buffersize l)

line_loop-overrun :
    (text : Bytes) (fuel : ℕ) (d : HttpData) (acc rest : Bytes)
    → IsSound d
    → HasData d
    → stream d ≡ text ++ rest
    → NoCrlf d.prev text
    → length text ≤ fuel
    → length acc ≤ line_buffersize
    → line_buffersize < length acc + length text
    → line_loop fuel d acc ≡ fault out_of_bounds
unfolding line_loop
line_loop-overrun [] fuel d acc rest v h e q f a l = absurd (omega arith)
line_loop-overrun (c ∷ text) zero d acc rest v h e q f a l = absurd (omega arith)
line_loop-overrun (c ∷ []) (suc fuel) d acc rest v h e q f a l =
    line_round-overrun (line_loop fuel) d acc c rest v h e (omega arith)
line_loop-overrun (c ∷ c' ∷ text) (suc fuel) d acc rest v h e q f a l =
    elim (dec_lt (length acc) line_buffersize) [
      | yes room ↦
          let n = line_round-next (line_loop fuel) d acc v h c c' (text ++ rest) e q.0 room in
          n.1
          ∙ line_loop-overrun (c' ∷ text) fuel n.0 (acc ++ c ∷ []) rest n.2 n.3 n.4 (rw n.5 q.1)
              (omega arith) (omega (arith, length-append acc (c ∷ [])))
              (omega (arith, length-append acc (c ∷ [])))
      | no full ↦
          line_round-overrun (line_loop fuel) d acc c (c' ∷ text ++ rest) v h e (omega arith)
    ]

parse_one_line_overrun_from :
    (d : HttpData) (c : ℕ) (text rest : Bytes)
    → IsSound d
    → NoCrlf d.prev (c ∷ text)
    → line_buffersize < length (c ∷ text)
    → Reads d
        (c ∷ text ++ rest)
        (if ltb d.data_end_index d.read_index then read_raw_data_from_socket d else ok d)
    → parse_one_line d ≡ fault out_of_bounds
unfolding parse_one_line
parse_one_line_overrun_from d c text rest v q l (d1, r, v1, h1, s1, p1, same) =
    let count : length (stream d1) ≡ length (c ∷ text) + length rest =
      ap length s1 ∙ length-append (c ∷ text) rest in
    rw (
      data_buffer_empty_sound d v,
      r,
      line_loop-overrun (c ∷ text) (suc (pending d1)) d1 [] rest v1 h1 s1 (rw p1 q)
          (omega (arith, stream-le-pending d1)) (omega arith) (omega arith),
    )

-- When the unread bytes begin with more than 256 bytes without CRLF, and the buffer's indices are in
-- range, `parse_one_line` writes past the end of the line buffer.
pub parse_one_line_overrun :
    (d : HttpData) (text rest : Bytes)
    → IsSound d
    → stream d ≡ text ++ rest
    → NoCrlf d.prev text
    → line_buffersize < length text
    → parse_one_line d ≡ fault out_of_bounds
parse_one_line_overrun d [] rest v e q l = absurd (omega arith)
parse_one_line_overrun d (c ∷ text) rest v e q l =
    parse_one_line_overrun_from d c text rest v q l (refill-Reads d c (text ++ rest) v e)
