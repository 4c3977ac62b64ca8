-- ===== src/Http/Parse/Request.antt =====
-- `parseData` on whole requests without a body.
use lxc_http_server.Common.{
  ℕ, ◌≡◌, ◌≢◌, refl, ap, ◌∙◌, Bool, false, List, [], ◌++◌, Bytes, codes, append_assoc, arith, crlf,
  Outcome, ok, fault, out_of_bounds,
}
use lxc_http_server.Http.{Recv, HttpData, http_data, get}
use lxc_http_server.Http.Socket.{incoming}
use lxc_http_server.Http.Socket.Stream.{stream, IsSound, Fits, SameFields, SameFields-trans}
use lxc_http_server.Http.Strings.{elem}
use lxc_http_server.Http.Start.{parse_start_line}
use lxc_http_server.Http.Start.Request.{
  request_line, IsWord, is_get, started, Started, parse_start_line-Started,
}
use lxc_http_server.Http.Header.Lines.{
  Header, IsLine, AllHeaders, encode_headers, store_headers, store_headers-SameFields,
  store_headers-method, parse_header-HeadersRead,
}
use lxc_http_server.Http.Header.Faults.{parse_header-fault}
use lxc_http_server.Http.Parse.{parse_data}

-- A new parser on a socket.
pub http_data-stream :
    (fd : ℕ) (socket : List Recv) (left_over : Bool)
    → stream (http_data fd socket left_over) ≡ incoming socket
unfolding http_data
http_data-stream fd socket left_over = refl

pub http_data-IsSound :
    (fd : ℕ) (socket : List Recv) (left_over : Bool)
    → Fits socket
    → IsSound (http_data fd socket left_over)
unfolding http_data
http_data-IsSound fd socket left_over f = record {
  within = omega arith;
  bounded = omega arith;
  fits = f;
}

-- A request has been parsed up to the empty line, and `rest` is left to read.
abbrev pub Parsed : HttpData → Bytes → Outcome HttpData → Type 0
Parsed result rest r =
    (e : HttpData) × (r ≡ ok e) × IsSound e × (stream e ≡ rest) × SameFields result e

-- What is served as a request head: the request line and the lines of the header.
pub record IsHead (name target version : Bytes) (hs : List Header) : Type 0 where
  pub target_word : IsWord target
  pub version_word : IsWord version
  pub line : IsLine (request_line name target version)
  pub headers : AllHeaders hs

abbrev pub head : Bytes → Bytes → Bytes → List Header → Bytes
head name target version hs =
    request_line name target version ++ (crlf ++ (encode_headers hs ++ crlf))

parse_data-started :
    (d : HttpData) (t v : Bytes) (hs : List Header) (rest : Bytes)
    → AllHeaders hs
    → d.m_bad_request ≡ false
    → Started d get (codes "GET") t v (encode_headers hs ++ (crlf ++ rest)) (parse_start_line d)
    → Parsed (store_headers hs (started get (codes "GET") t v d)) rest (parse_data d)
unfolding parse_data
parse_data-started d t v hs rest w b (e, r, sound, s, p, same) =
    let (e', r', sound', s', p', same') = parse_header-HeadersRead hs e rest sound p w s in
    let not_bad : e.m_bad_request ≡ false = ap (λ (x : HttpData). x.m_bad_request) same ∙ b in
    let is_get : e.request_method ≡ get = ap (λ (x : HttpData). x.request_method) same in
    let still_get : e'.request_method ≡ get =
      ap (λ (x : HttpData). x.request_method) same' ∙ store_headers-method hs e ∙ is_get in
    (
      e',
      simp (r, not_bad, is_get, r', still_get),
      sound',
      s',
      SameFields-trans (store_headers hs (started get (codes "GET") t v d)) (store_headers hs e) e'
          (store_headers-SameFields hs _ _ same) same',
    )

-- A new parser on the socket has the fields that the theorem below speaks of.
abbrev pub parsed : ℕ → List Recv → Bool → Bytes → Bytes → List Header → HttpData
parsed fd socket left_over t v hs =
    store_headers hs (started get (codes "GET") t v (http_data fd socket left_over))

-- When the calls of `recv` give at most a buffer of bytes each, and all together a `GET` request line
-- of three words, header lines each with a `=`, an empty line and anything after, where each line fits
-- the line buffer and holds no CRLF or NUL, `parse_data` on a new parser returns, however the bytes
-- are cut into chunks: all fields but those of the buffer are those of the request line and of the
-- header lines, and exactly what follows the empty line is left to read.
pub parse_data-Parsed :
    (fd : ℕ) (socket : List Recv) (left_over : Bool) (t v : Bytes) (hs : List Header) (rest : Bytes)
    → Fits socket
    → IsHead (codes "GET") t v hs
    → incoming socket ≡ head (codes "GET") t v hs ++ rest
    → Parsed (parsed fd socket left_over t v hs) rest (parse_data (http_data fd socket left_over))
unfolding http_data
parse_data-Parsed fd socket left_over t v hs rest f w e =
    let d = http_data fd socket left_over in
    parse_data-started d t v hs rest w.headers refl (
      parse_start_line-Started d t v (encode_headers hs ++ (crlf ++ rest)) is_get w.target_word
        w.version_word (http_data-IsSound fd socket left_over f) refl refl w.line
        (e ∙ simp append_assoc))

-- A header line with no `=` makes the parser read past the end of a string.
parse_data-fault_from :
    (d : HttpData) (t v : Bytes) (hs : List Header) (line rest : Bytes)
    → AllHeaders hs
    → IsLine line
    → line ≢ []
    → elem b'=' line ≡ false
    → d.m_bad_request ≡ false
    → Started d get
        (codes "GET")
        t
        v
        (encode_headers hs ++ (line ++ (crlf ++ rest)))
        (parse_start_line d)
    → parse_data d ≡ fault out_of_bounds
unfolding parse_data
parse_data-fault_from d t v hs line rest w l n q b (e, r, sound, s, p, same) =
    let not_bad : e.m_bad_request ≡ false = ap (λ (x : HttpData). x.m_bad_request) same ∙ b in
    let is_get : e.request_method ≡ get = ap (λ (x : HttpData). x.request_method) same in
    simp (r, not_bad, is_get, parse_header-fault hs e line rest sound p w l n q s)

-- When the calls of `recv` give at most a buffer of bytes each, and all together a `GET` request line
-- of three words, any header lines each with a `=`, then a non-empty header line with no `=`, such as
-- `Host: a`, and anything after, where each line fits the line buffer and holds no CRLF or NUL,
-- `parse_data` on a new parser reads past the end of a string.
pub parse_data-fault :
    (fd : ℕ) (socket : List Recv) (left_over : Bool) (t v : Bytes) (hs : List Header)
    (line rest : Bytes)
    → Fits socket
    → IsHead (codes "GET") t v hs
    → IsLine line
    → line ≢ []
    → elem b'=' line ≡ false
    → incoming socket
      ≡ request_line (codes "GET") t v ++ (crlf ++ (encode_headers hs ++ (line ++ (crlf ++ rest))))
    → parse_data (http_data fd socket left_over) ≡ fault out_of_bounds
unfolding http_data
parse_data-fault fd socket left_over t v hs line rest f w l n q e =
    let d = http_data fd socket left_over in
    parse_data-fault_from d t v hs line rest w.headers l n q refl (
      parse_start_line-Started d t v (encode_headers hs ++ (line ++ (crlf ++ rest))) is_get
        w.target_word w.version_word (http_data-IsSound fd socket left_over f) refl refl w.line e)
