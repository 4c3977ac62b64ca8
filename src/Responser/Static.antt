-- ===== src/Responser/Static.antt =====
-- What is sent for a file: `sendStaticFileToClient` and `serverStaticFile` of src/Responser.cpp.
use lxc_http_server.Common.{
  ℕ, zero, suc, ◌-◌, ◌<◌, ◌≡◌, refl, ap, ◌∙◌, false, [], ◌∷◌, ◌++◌, Bytes, codes, length, c_string,
  line_feed, arith, Exception, ok, ◌>>=◌, socket_closed,
}
use lxc_http_server.Http.{HttpData}
use lxc_http_server.Http.Strings.{elem}
use lxc_http_server.Http.Strings.Scan.{elem-append, c_string-id}
use lxc_http_server.Responser.{
  Peer, page_buffer_size, send_or, send, fgets, static_head, server_static_file,
  send_static_file_to_client, regular,
}

pub send_or-all :
    (e : Exception) (text : Bytes) (p : Peer)
    → p.results ≡ []
    → send_or e text p ≡ ok (record p { sent = p.sent ++ text })
unfolding send_or send
send_or-all e text p h = simp h

fgets-line :
    (n : ℕ) (line rest : Bytes)
    → length line < n
    → elem line_feed line ≡ false
    → fgets n (line ++ line_feed ∷ rest) ≡ line ++ line_feed ∷ []
unfolding fgets
fgets-line zero line rest h f = absurd (omega arith)
fgets-line (suc n) [] rest h f = refl
fgets-line (suc n) (c ∷ line) rest h f = ground (arith, fgets-line n line rest)

server_static_file-line :
    (d : HttpData) (line rest read_buf : Bytes) (p : Peer)
    → d.url_resource_type ≡ codes "html"
    → length line < page_buffer_size - 1
    → elem line_feed line ≡ false
    → elem 0 line ≡ false
    → p.results ≡ []
    → server_static_file (line ++ line_feed ∷ rest) d read_buf p
      ≡ ok (record p { sent = p.sent ++ (line ++ line_feed ∷ []) })
unfolding server_static_file
server_static_file-line d line rest read_buf p t b l z r =
    let whole : c_string (line ++ line_feed ∷ []) ≡ line ++ line_feed ∷ [] =
      c_string-id (line ++ line_feed ∷ []) (elem-append 0 line (line_feed ∷ []) ∙ rw z refl) in
    rw (t, fgets-line (page_buffer_size - 1) line rest b l, whole)
      (send_or-all socket_closed (line ++ line_feed ∷ []) p r)

-- Of a file of type `html` with a first line of at most 2046 bytes and no NUL in it,
-- `send_static_file_to_client` sends a peer that takes everything the head, which announces the length
-- of the whole file, and then that line alone.
pub send_static-line :
    (d : HttpData) (line rest read_buf : Bytes) (p : Peer)
    → d.url_resource_type ≡ codes "html"
    → length line < page_buffer_size - 1
    → elem line_feed line ≡ false
    → elem 0 line ≡ false
    → p.results ≡ []
    → send_static_file_to_client (regular (line ++ line_feed ∷ rest)) d read_buf p
      ≡ ok (record p {
        sent =
            p.sent ++ static_head d (length (line ++ line_feed ∷ rest)) ++ (line ++ line_feed ∷ []);
      })
unfolding send_static_file_to_client
send_static-line d line rest read_buf p t b l z r =
    let content = line ++ line_feed ∷ rest in
    let text = static_head d (length content) in
    ap (λ o. o >>= server_static_file content d read_buf) (send_or-all socket_closed text p r)
    ∙ server_static_file-line d line rest read_buf (record p { sent = p.sent ++ text }) t b l z r
