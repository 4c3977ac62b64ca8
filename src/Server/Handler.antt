-- ===== src/Server/Handler.antt =====
-- What becomes of the connection: exceptions, and a page that is served.
use lxc_http_server.Common.{
  ℕ, ◌<◌, ◌-◌, ◌≡◌, refl, ap, ◌∙◌, false, List, [], ◌∷◌, ◌++◌, Bytes, codes, length, line_feed,
  text_eq, ok, ◌>>=◌,
}
use lxc_http_server.Http.{HttpData, Recv, http_data, get, resource_root}
use lxc_http_server.Http.Socket.{incoming}
use lxc_http_server.Http.Socket.Stream.{Fits, SameFields}
use lxc_http_server.Http.Strings.{elem}
use lxc_http_server.Http.Start.{resource_type}
use lxc_http_server.Http.Start.Request.{started, page}
use lxc_http_server.Http.Header.{HeaderField, host_line, header_field, store_field, store_header}
use lxc_http_server.Http.Header.Lines.{Header, text, store_headers, store_headers-method}
use lxc_http_server.Http.Parse.Request.{IsHead, head, parsed, parse_data-Parsed}
use lxc_http_server.Timer.{Timer}
use lxc_http_server.Responser.{
  Peer, page_buffer_size, regular, static_head, send_static_file_to_client,
}
use lxc_http_server.Responser.Static.{send_static-line}
use lxc_http_server.Server.{
  World, file_exist, answer, answer_by, answer_get, keep_or_close, respond, handle, httpserver,
}

answer-page :
    (w : World) (d : HttpData) (p : Peer)
    → d.request_method ≡ get
    → d.url_resource_type ≡ codes "html"
    → answer w d p ≡ send_static_file_to_client (w.files d.url) d w.left_over_buf p
unfolding answer answer_by answer_get text_eq
answer-page w d p g h = ap (λ m. answer_by m w d p) g ∙ rw h refl

-- A request that has been parsed, for a page that is there.
respond-page :
    (w : World) (t : Timer) (p : Peer) (d : HttpData) (line rest : Bytes)
    → d.m_bad_request ≡ false
    → d.request_method ≡ get
    → d.url_resource_type ≡ codes "html"
    → w.files d.url ≡ regular (line ++ line_feed ∷ rest)
    → length line < page_buffer_size - 1
    → elem line_feed line ≡ false
    → elem 0 line ≡ false
    → p.results ≡ []
    → respond w t p d
      ≡ ok (
          keep_or_close w d t (record p {
            sent =
                p.sent
                ++ static_head d (length (line ++ line_feed ∷ rest))
                ++ (line ++ line_feed ∷ []);
          }))
unfolding respond file_exist text_eq
respond-page w t p d line rest bad g h f b l z r =
    simp (bad, g, h, f, send_static-line d line rest w.left_over_buf p h b l z r)

-- What the header lines leave as it was.
abbrev pub SameTarget : HttpData → HttpData → Type 0
SameTarget d e =
    (e.url ≡ d.url)
    × (e.url_resource_type ≡ d.url_resource_type)
    × (e.m_bad_request ≡ d.m_bad_request)

store_field-SameTarget :
    (field : HeaderField) (line : Bytes) (d : HttpData) → SameTarget d (store_field field line d)
unfolding store_field
store_field-SameTarget host_line line d = (refl, refl, refl)
store_field-SameTarget _ line d = (refl, refl, refl)

pub store_headers-SameTarget : (hs : List Header) (d : HttpData) → SameTarget d (store_headers hs d)
unfolding store_header
store_headers-SameTarget [] d = (refl, refl, refl)
store_headers-SameTarget (h ∷ hs) d =
    let (a, b, c) = store_headers-SameTarget hs (store_header h.name (text h) d) in
    let (a', b', c') = store_field-SameTarget (header_field h.name) (text h) d in
    (a ∙ a', b ∙ b', c ∙ c')

-- When the calls of `recv` give at most a buffer of bytes each, and all together a `GET` request line
-- of three words, header lines each with a `=`, an empty line and anything after, where each line fits
-- the line buffer and holds no CRLF or NUL, for a target of type `html` whose file has a first line of
-- at most 2046 bytes with no NUL in it, and the peer takes all that is sent, then the handler returns:
-- the fields are those of the request and its header lines, the peer has been sent the head and that
-- first line of the file, and the connection is given to the timer or closed, by the keep-alive flag.
pub httpserver-page :
    (w : World) (t : Timer) (fd : ℕ) (socket : List Recv) (p : Peer) (target version : Bytes)
    (hs : List Header) (after line rest : Bytes)
    → Fits socket
    → IsHead (codes "GET") target version hs
    → incoming socket ≡ head (codes "GET") target version hs ++ after
    → resource_type (page target) ≡ codes "html"
    → w.files (resource_root ++ page target) ≡ regular (line ++ line_feed ∷ rest)
    → length line < page_buffer_size - 1
    → elem line_feed line ≡ false
    → elem 0 line ≡ false
    → p.results ≡ []
    → (d : HttpData) × SameFields (parsed fd socket w.left_over_flag target version hs) d
      × (httpserver w t fd socket p
          ≡ ok (
              keep_or_close w d t (record p {
                sent =
                    p.sent
                    ++ static_head d (length (line ++ line_feed ∷ rest))
                    ++ (line ++ line_feed ∷ []);
              })))
unfolding httpserver handle http_data
httpserver-page w t fd socket p target version hs after line rest fits served e html there b l z r =
    let fresh = http_data fd socket w.left_over_flag in
    let begun = started get (codes "GET") target version fresh in
    let (d, parses, _, _, same) =
      parse_data-Parsed fd socket w.left_over_flag target version hs after fits served e in
    let (u, k, bad) = store_headers-SameTarget hs begun in
    let d_method : d.request_method ≡ get =
      ap (λ (x : HttpData). x.request_method) same ∙ store_headers-method hs begun in
    let d_type : d.url_resource_type ≡ codes "html" =
      ap (λ (x : HttpData). x.url_resource_type) same ∙ k ∙ html in
    let d_url : d.url ≡ resource_root ++ page target = ap (λ (x : HttpData). x.url) same ∙ u in
    let d_bad : d.m_bad_request ≡ false = ap (λ (x : HttpData). x.m_bad_request) same ∙ bad in
    (
      d,
      same,
      ap (λ o. handle (o >>= respond w t p) t fd) parses
          ∙ ap (λ o. handle o t fd)
              (respond-page w t p d line rest d_bad d_method d_type (ap w.files d_url ∙ there) b l z
                r),
    )
