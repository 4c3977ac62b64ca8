-- ===== src/Http/Header/Lines.antt =====
-- `parseHeader` on a stream of header lines.
use lxc_http_server.Common.{
  ℕ, zero, suc, ◌+◌, ◌≤◌, ◌<◌, ◌≡◌, refl, ap, ◌∙◌, false, List, [], ◌∷◌, ◌++◌, Bytes, length,
  length-append, take-append, append_assoc, arith, le→leb, crlf, Outcome, ok,
}
use lxc_http_server.Http.{HttpData, line_buffersize}
use lxc_http_server.Http.Socket.{pending}
use lxc_http_server.Http.Socket.Stream.{
  stream, IsSound, SameFields, SameFields-trans, stream-le-pending,
}
use lxc_http_server.Http.Line.{parse_one_line}
use lxc_http_server.Http.Line.Stream.{NoCrlf, LineRead, parse_one_line-LineRead}
use lxc_http_server.Http.Strings.{elem, substr, get_header_line_name}
use lxc_http_server.Http.Strings.Scan.{c_string-id, scan-append}
use lxc_http_server.Http.Header.{
  HeaderField, host_line, header_field, store_field, store_header, header_round, header_loop,
  parse_header,
}

-- A header line as this parser reads it: the name ends at the first `=`.
pub record Header : Type 0 where
  pub name : Bytes
  pub value : Bytes

abbrev pub text : Header → Bytes
text h = h.name ++ (b'=' ∷ h.value)

-- A line of the request that fits the line buffer and holds neither CRLF nor NUL.
pub record IsLine (line : Bytes) : Type 0 where
  pub no_crlf : NoCrlf 0 line
  pub no_nul : elem 0 line ≡ false
  pub short : length line + 2 ≤ line_buffersize

pub record IsHeader (h : Header) : Type 0 where
  pub line : IsLine (text h)
  pub name_plain : elem b'=' h.name ≡ false

abbrev pub AllHeaders : List Header → Type 0
AllHeaders [] = Unit {0}
AllHeaders (h ∷ hs) = IsHeader h × AllHeaders hs

abbrev pub encode_headers : List Header → Bytes
encode_headers [] = []
encode_headers (h ∷ hs) = text h ++ (crlf ++ encode_headers hs)

abbrev pub store_headers : List Header → HttpData → HttpData
store_headers [] d = d
store_headers (h ∷ hs) d = store_headers hs (store_header h.name (text h) d)

-- A whole line is read from a stream that starts with it.
pub parse_one_line-IsLine :
    (d : HttpData) (line rest : Bytes)
    → IsSound d
    → d.prev ≡ 0
    → IsLine line
    → stream d ≡ line ++ (crlf ++ rest)
    → LineRead d line rest (parse_one_line d)
parse_one_line-IsLine d line rest v p l e =
    rw (c_string-id line l.no_nul) at
      (parse_one_line-LineRead d line rest v e (rw p l.no_crlf) l.short)

get_header_line_name-text :
    (name value : Bytes)
    → elem b'=' name ≡ false
    → get_header_line_name (name ++ (b'=' ∷ value)) ≡ ok name
unfolding get_header_line_name substr
get_header_line_name-text name value h = rw (
  scan-append b'=' name value h,
  le→leb 0 (length (name ++ (b'=' ∷ value))) (omega arith),
  take-append name (b'=' ∷ value),
)

header_round-text :
    (next : HttpData → Outcome HttpData) (name value : Bytes) (d : HttpData)
    → elem b'=' name ≡ false
    → header_round next (name ++ (b'=' ∷ value)) d
      ≡ next (store_header name (name ++ (b'=' ∷ value)) d)
unfolding header_round
header_round-text next [] value d h = rw (get_header_line_name-text [] value h)
header_round-text next (c ∷ name) value d h = rw (get_header_line_name-text (c ∷ name) value h)

-- Storing a line commutes with reading, and reads nothing itself.
abbrev pub Stored : (HttpData → HttpData) → Type 0
Stored f =
    (d : HttpData)
    → (stream (f d) ≡ stream d)
      × (IsSound d → IsSound (f d))
      × ((f d).prev ≡ d.prev)
      × ((e : HttpData) → SameFields d e → SameFields (f d) (f e))

pub store_field-Stored : (field : HeaderField) (line : Bytes) → Stored (store_field field line)
unfolding store_field
store_field-Stored host_line line d = (
  refl,
  λ v. record { within = v.within; bounded = v.bounded; fits = v.fits },
  refl,
  λ e s. ground (arith, s),
)
store_field-Stored _ line d = (
  refl,
  λ v. record { within = v.within; bounded = v.bounded; fits = v.fits },
  refl,
  λ e s. ground (arith, s),
)

pub store_header-Stored : (name line : Bytes) → Stored (store_header name line)
unfolding store_header
store_header-Stored name line = store_field-Stored (header_field name) line

pub store_headers-SameFields :
    (hs : List Header) (d e : HttpData)
    → SameFields d e
    → SameFields (store_headers hs d) (store_headers hs e)
store_headers-SameFields [] d e s = s
store_headers-SameFields (h ∷ hs) d e s =
    store_headers-SameFields hs _ _ ((store_header-Stored h.name (text h) d).3 e s)

store_field-method :
    (field : HeaderField) (line : Bytes) (d : HttpData)
    → (store_field field line d).request_method ≡ d.request_method
unfolding store_field
store_field-method host_line line d = refl
store_field-method _ line d = refl

pub store_headers-method :
    (hs : List Header) (d : HttpData) → (store_headers hs d).request_method ≡ d.request_method
unfolding store_header
store_headers-method [] d = refl
store_headers-method (h ∷ hs) d =
    store_headers-method hs (store_header h.name (text h) d)
    ∙ store_field-method (header_field h.name) (text h) d

-- The header lines `hs` of `d` have been stored, and `rest` is what is left to read.
abbrev pub HeadersRead : HttpData → List Header → Bytes → Outcome HttpData → Type 0
HeadersRead d hs rest r =
    (e : HttpData) × (r ≡ ok e)
    × IsSound e
    × (stream e ≡ rest)
    × (e.prev ≡ 0)
    × SameFields (store_headers hs d) e

HeadersRead-nil :
    (fuel : ℕ) (d : HttpData) (rest : Bytes)
    → LineRead d [] rest (parse_one_line d)
    → HeadersRead d [] rest (header_loop (suc fuel) d)
unfolding header_loop header_round
HeadersRead-nil fuel d rest (e, r, v, s, p, same) = (e, rw r, v, s, p, same)

pub header_loop-text :
    (fuel : ℕ) (d : HttpData) (h : Header) (rest : Bytes)
    → IsHeader h
    → (read : LineRead d (text h) rest (parse_one_line d))
    → header_loop (suc fuel) d ≡ header_loop fuel (store_header h.name (text h) read.0)
unfolding header_loop
header_loop-text fuel d h rest w (e, r, v, s, p, same) =
    rw r (header_round-text (header_loop fuel) h.name h.value e w.name_plain)

HeadersRead-cons :
    (fuel : ℕ) (d : HttpData) (h : Header) (hs : List Header) (more rest : Bytes)
    → IsHeader h
    → (read : LineRead d (text h) more (parse_one_line d))
    → HeadersRead
        (store_header h.name (text h) read.0)
        hs
        rest
        (header_loop fuel (store_header h.name (text h) read.0))
    → HeadersRead d (h ∷ hs) rest (header_loop (suc fuel) d)
HeadersRead-cons fuel d h hs more rest w read (e, r, v, s, p, same) =
    let stored = (store_header-Stored h.name (text h) d).3 read.0 read.5 in
    (
      e,
      header_loop-text fuel d h more w read ∙ r,
      v,
      s,
      p,
      SameFields-trans (store_headers (h ∷ hs) d)
          (store_headers hs (store_header h.name (text h) read.0)) e
          (store_headers-SameFields hs _ _ stored) same,
    )

header_loop-HeadersRead :
    (hs : List Header) (fuel : ℕ) (d : HttpData) (rest : Bytes)
    → IsSound d
    → d.prev ≡ 0
    → AllHeaders hs
    → stream d ≡ encode_headers hs ++ (crlf ++ rest)
    → length (encode_headers hs) < fuel
    → HeadersRead d hs rest (header_loop fuel d)
header_loop-HeadersRead hs zero d rest v p w e f = absurd (omega arith)
header_loop-HeadersRead [] (suc fuel) d rest v p w e f = HeadersRead-nil fuel d rest (
    parse_one_line-IsLine d [] rest v p
      (record { no_crlf = tt; no_nul = refl; short = omega arith }) e)
header_loop-HeadersRead (h ∷ hs) (suc fuel) d rest v p w e f =
    let more : Bytes = encode_headers hs ++ (crlf ++ rest) in
    let split : stream d ≡ text h ++ (crlf ++ more) = e ∙ simp append_assoc in
    let read = parse_one_line-IsLine d (text h) more v p w.0.line split in
    let (s, sound, q, _) = store_header-Stored h.name (text h) read.0 in
    HeadersRead-cons fuel d h hs more rest w.0 read (
      header_loop-HeadersRead hs fuel (store_header h.name (text h) read.0) rest (sound read.2)
        (q ∙ read.4) w.1 (s ∙ read.3)
        (omega (
          arith,
          length-append (text h) (crlf ++ encode_headers hs),
          length-append crlf (encode_headers hs),
        )))

-- When the unread bytes are header lines that fit the line buffer, each with a `=` and with no CRLF or
-- NUL, then an empty line and a rest, the buffer's indices are in range and `prev` is 0,
-- `parse_header` returns, has stored each line in the field of its name, in order, and leaves exactly
-- the rest unread.
pub parse_header-HeadersRead :
    (hs : List Header) (d : HttpData) (rest : Bytes)
    → IsSound d
    → d.prev ≡ 0
    → AllHeaders hs
    → stream d ≡ encode_headers hs ++ (crlf ++ rest)
    → HeadersRead d hs rest (parse_header d)
unfolding parse_header
parse_header-HeadersRead hs d rest v p w e =
    header_loop-HeadersRead hs (suc (pending d)) d rest v p w e (
      omega
        (arith, stream-le-pending d, ap length e, length-append (encode_headers hs) (crlf ++ rest)))
