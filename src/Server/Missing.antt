-- ===== src/Server/Missing.antt =====
-- What becomes of a connection whose page is not there: the early return of the handler behind the
-- answer 404.
use lxc_http_server.Common.{
  ℕ, ◌≡◌, ap, ◌∙◌, false, List, [], ◌++◌, Bytes, codes, text_eq, some, ok, ◌>>=◌, socket_closed,
}
use lxc_http_server.Http.{HttpData, Recv, http_data, get, resource_root}
use lxc_http_server.Http.Socket.{incoming}
use lxc_http_server.Http.Socket.Stream.{Fits}
use lxc_http_server.Http.Start.{resource_type}
use lxc_http_server.Http.Start.Request.{started, page}
use lxc_http_server.Http.Header.Lines.{Header, store_headers-method}
use lxc_http_server.Http.Parse.Request.{IsHead, head, parse_data-Parsed}
use lxc_http_server.Timer.{Timer}
use lxc_http_server.Responser.{Peer, missing, not_found, send_not_found}
use lxc_http_server.Responser.Static.{send_or-all}
use lxc_http_server.Server.{World, file_exist, respond, handle, httpserver}
use lxc_http_server.Server.Handler.{store_headers-SameTarget}

respond-missing :
    (w : World) (t : Timer) (p : Peer) (d : HttpData)
    → d.m_bad_request ≡ false
    → d.request_method ≡ get
    → text_eq d.url_resource_type (codes "memory") ≡ false
    → w.files d.url ≡ missing
    → p.results ≡ []
    → respond w t p d
      ≡ ok (record {
        peer = some (record p { sent = p.sent ++ not_found });
        timer = t;
        closed = false;
      })
unfolding respond file_exist send_not_found
respond-missing w t p d bad g h f r = simp (bad, g, h, f, send_or-all socket_closed not_found p r)

-- When the calls of `recv` give at most a buffer of bytes each, and all together a `GET` request line
-- of three words, header lines each with a `=`, an empty line and anything after, where each line fits
-- the line buffer and holds no CRLF or NUL, for a target that is not of type `memory` and whose file
-- is missing, and the peer takes all that is sent, then the handler returns, has sent the answer 404,
-- and has neither closed the connection nor given it to the timer, which is as it was.
pub httpserver-missing :
    (w : World) (t : Timer) (fd : ℕ) (socket : List Recv) (p : Peer) (target version : Bytes)
    (hs : List Header) (after : Bytes)
    → Fits socket
    → IsHead (codes "GET") target version hs
    → incoming socket ≡ head (codes "GET") target version hs ++ after
    → text_eq (resource_type (page target)) (codes "memory") ≡ false
    → w.files (resource_root ++ page target) ≡ missing
    → p.results ≡ []
    → httpserver w t fd socket p
      ≡ ok (record {
        peer = some (record p { sent = p.sent ++ not_found });
        timer = t;
        closed = false;
      })
unfolding httpserver handle http_data
httpserver-missing w t fd socket p target version hs after fits served e plain there r =
    let fresh = http_data fd socket w.left_over_flag in
    let begun = started get (codes "GET") target version fresh in
    let (d, parses, _, _, same) =
      parse_data-Parsed fd socket w.left_over_flag target version hs after fits served e in
    let (u, k, bad) = store_headers-SameTarget hs begun in
    let d_method : d.request_method ≡ get =
      ap (λ (x : HttpData). x.request_method) same ∙ store_headers-method hs begun in
    let d_type : d.url_resource_type ≡ resource_type (page target) =
      ap (λ (x : HttpData). x.url_resource_type) same ∙ k in
    let d_url : d.url ≡ resource_root ++ page target = ap (λ (x : HttpData). x.url) same ∙ u in
    let d_bad : d.m_bad_request ≡ false = ap (λ (x : HttpData). x.m_bad_request) same ∙ bad in
    ap (λ o. handle (o >>= respond w t p) t fd) parses
    ∙ ap (λ o. handle o t fd)
        (respond-missing w t p d d_bad d_method
          (ap (λ x. text_eq x (codes "memory")) d_type ∙ plain) (ap w.files d_url ∙ there) r)
