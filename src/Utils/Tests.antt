-- ===== src/Utils/Tests.antt =====
-- Index pages, and the greeting.
use lxc_http_server.Common.{
  ◌≡◌, refl, [], ◌∷◌, ◌++◌, codes, line_feed, replicate, ok, arith, Bytes, c_string, throws, fault,
  out_of_bounds, socket_closed, none, some,
}
use lxc_http_server.Responser.{regular}
use lxc_http_server.Utils.{load_index_tomemory, send_hello}
use lxc_http_server.Utils.Index.{load_index_tomemory-lines}

abbrev page : Bytes
page = codes "<p>" ++ line_feed ∷ codes "Hi"

load_index_tomemory-lines_example :
    (memory : Bytes) × (load_index_tomemory
        (regular (page ++ line_feed ∷ codes "</p>"))
        (0 ∷ replicate 11 88)
      ≡ ok memory)
    × (c_string memory ≡ page ++ line_feed ∷ [])
load_index_tomemory-lines_example =
    load_index_tomemory-lines page (codes "</p>") (replicate 11 88) refl refl (omega arith)
      (omega arith)

-- The array is not cleared: what it held stands in front of the page, which then does not fit.
memory_with_junk :
    load_index_tomemory (regular (codes "a" ++ line_feed ∷ [])) (88 ∷ 0 ∷ 88 ∷ [])
    ≡ fault out_of_bounds
unfolding load_index_tomemory
memory_with_junk = refl

peer_that_goes :
    send_hello (record { sent = []; results = some 17 ∷ none ∷ [] }) ≡ throws socket_closed
unfolding send_hello
peer_that_goes = refl
