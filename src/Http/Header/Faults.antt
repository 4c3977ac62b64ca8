-- ===== src/Http/Header/Faults.antt =====
-- What `parseHeader` makes of a header line with no `=`.
use lxc_http_server.Common.{
  ℕ, zero, suc, ◌<◌, ◌≡◌, ◌≢◌, refl, ap, ◌∙◌, false, List, [], ◌∷◌, ◌++◌, Bytes, length,
  length-append, append_assoc, arith, crlf, Outcome, fault, out_of_bounds,
}
use lxc_http_server.Http.{HttpData}
use lxc_http_server.Http.Socket.{pending}
use lxc_http_server.Http.Socket.Stream.{stream, IsSound, stream-le-pending}
use lxc_http_server.Http.Line.{parse_one_line}
use lxc_http_server.Http.Line.Stream.{LineRead}
use lxc_http_server.Http.Strings.{elem, get_header_line_name}
use lxc_http_server.Http.Strings.Scan.{scan-fault}
use lxc_http_server.Http.Header.{store_header, header_round, header_loop, parse_header}
use lxc_http_server.Http.Header.Lines.{
  Header, text, IsLine, AllHeaders, encode_headers, parse_one_line-IsLine, header_loop-text,
  store_header-Stored,
}

header_round-fault :
    (next : HttpData → Outcome HttpData) (line : Bytes) (d : HttpData)
    → line ≢ []
    → elem b'=' line ≡ false
    → header_round next line d ≡ fault out_of_bounds
unfolding header_round get_header_line_name
header_round-fault next [] d n h = absurd (n refl)
header_round-fault next (c ∷ cs) d n h = rw (scan-fault b'=' (c ∷ cs) h)

fault_at :
    (fuel : ℕ) (d : HttpData) (line rest : Bytes)
    → line ≢ []
    → elem b'=' line ≡ false
    → LineRead d line rest (parse_one_line d)
    → header_loop (suc fuel) d ≡ fault out_of_bounds
unfolding header_loop
fault_at fuel d line rest n h (e, r, v, s, p, same) =
    rw r (header_round-fault (header_loop fuel) line e n h)

header_loop-fault :
    (hs : List Header) (fuel : ℕ) (d : HttpData) (line rest : Bytes)
    → IsSound d
    → d.prev ≡ 0
    → AllHeaders hs
    → IsLine line
    → line ≢ []
    → elem b'=' line ≡ false
    → stream d ≡ encode_headers hs ++ (line ++ (crlf ++ rest))
    → length (encode_headers hs) < fuel
    → header_loop fuel d ≡ fault out_of_bounds
header_loop-fault hs zero d line rest v p w l n q e f = absurd (omega arith)
header_loop-fault [] (suc fuel) d line rest v p w l n q e f =
    fault_at fuel d line rest n q (parse_one_line-IsLine d line rest v p l e)
header_loop-fault (h ∷ hs) (suc fuel) d line rest v p w l n q e f =
    let more : Bytes = encode_headers hs ++ (line ++ (crlf ++ rest)) in
    let split : stream d ≡ text h ++ (crlf ++ more) = e ∙ simp append_assoc in
    let read = parse_one_line-IsLine d (text h) more v p w.0.line split in
    let (s, sound, k, _) = store_header-Stored h.name (text h) read.0 in
    header_loop-text fuel d h more w.0 read
    ∙ header_loop-fault hs fuel (store_header h.name (text h) read.0) line rest (sound read.2)
        (k ∙ read.4) w.1 l n q (s ∙ read.3)
        (omega (
          arith,
          length-append (text h) (crlf ++ encode_headers hs),
          length-append crlf (encode_headers hs),
        ))

-- A header line with no `=`, such as `Host: a`, reads past the end of its string, wherever it stands
-- among well-formed lines.
pub parse_header-fault :
    (hs : List Header) (d : HttpData) (line rest : Bytes)
    → IsSound d
    → d.prev ≡ 0
    → AllHeaders hs
    → IsLine line
    → line ≢ []
    → elem b'=' line ≡ false
    → stream d ≡ encode_headers hs ++ (line ++ (crlf ++ rest))
    → parse_header d ≡ fault out_of_bounds
unfolding parse_header
parse_header-fault hs d line rest v p w l n q e =
    header_loop-fault hs (suc (pending d)) d line rest v p w l n q e (
      omega (
        arith,
        stream-le-pending d,
        ap length e,
        length-append (encode_headers hs) (line ++ (crlf ++ rest)),
      ))
