-- ===== src/Http/Header/Total.antt =====
-- The loop over the header's lines ends.
use lxc_http_server.Common.{
  ℕ, zero, suc, ◌≤◌, ◌<◌, ◌≡◌, refl, [], ◌∷◌, Bytes, arith, Outcome, Ends, Ends-bind, Ends-mono,
}
use lxc_http_server.Http.{HttpData}
use lxc_http_server.Http.Socket.{pending}
use lxc_http_server.Http.Socket.Refill.{Within}
use lxc_http_server.Http.Line.Progress.{Consumed, parse_one_line-Ends}
use lxc_http_server.Http.Strings.Total.{Any, get_header_line_name-Ends}
use lxc_http_server.Http.Header.{
  HeaderField, host_line, header_field, store_field, store_header, header_round, header_loop,
  parse_header,
}

pending-store_field :
    (field : HeaderField) (line : Bytes) (d : HttpData)
    → pending (store_field field line d) ≡ pending d
unfolding store_field
pending-store_field host_line line d = refl
pending-store_field _ line d = refl

pending-store_header :
    (name line : Bytes) (d : HttpData) → pending (store_header name line d) ≡ pending d
unfolding store_header
pending-store_header name line d = pending-store_field (header_field name) line d

header_round-Ends :
    (next : HttpData → Outcome HttpData) (line : Bytes) (d : HttpData)
    → ((e : HttpData) → pending e ≤ pending d → Ends (Within (pending e)) (next e))
    → Ends (Within (pending d)) (header_round next line d)
unfolding header_round
header_round-Ends next [] d go = omega arith
header_round-Ends next (c ∷ cs) d go =
    Ends-bind Any _ _ _ (get_header_line_name-Ends (c ∷ cs)) λ name _.
      Ends-mono _ _ (next (store_header name (c ∷ cs) d))
        (go _ (omega (arith, pending-store_header name (c ∷ cs) d)))
        (λ e w. omega (arith, w, pending-store_header name (c ∷ cs) d))

header_loop-Ends :
    (fuel : ℕ) (d : HttpData) → pending d < fuel → Ends (Within (pending d)) (header_loop fuel d)
unfolding header_loop
header_loop-Ends zero d h = elim h [ ]
header_loop-Ends (suc fuel) d h =
    Ends-bind (Consumed (pending d)) _ _ _ (parse_one_line-Ends d) λ r c.
      Ends-mono _ _ (header_round (header_loop fuel) r.0 r.1)
        (header_round-Ends (header_loop fuel) r.0 r.1
          (λ e w. header_loop-Ends fuel e (omega (arith, c, w))))
        (λ e w. omega (arith, c, w))

pub parse_header-Ends : (d : HttpData) → Ends (Within (pending d)) (parse_header d)
unfolding parse_header
parse_header-Ends d = header_loop-Ends (suc (pending d)) d (omega arith)
