-- ===== src/Server/Linked.antt =====
-- What the handler does to the timer keeps its iterators good.
use lxc_http_server.Common.{
  ℕ, Bool, true, false, not, ◌&&◌, List, none, Bool-cases, inl, inr, codes, Outcome, ok, throws,
  fault, blocks, out_of_fuel, ◌>>=◌, Ends, is_std_exception, if◌then◌else◌,
}
use lxc_http_server.Http.{HttpData, Recv, http_data}
use lxc_http_server.Http.Start.{is_unsupport}
use lxc_http_server.Http.Parse.{parse_data}
use lxc_http_server.Timer.{Timer, delete_fd}
use lxc_http_server.Timer.Links.{IsLinked, addfd-IsLinked, delete_fd-Guarded}
use lxc_http_server.Timer.Histories.{Guarded-Ends}
use lxc_http_server.Responser.{Peer, send_not_found}
use lxc_http_server.Server.{
  World, Served, file_exist, has_type, answer, keep_or_close, respond, handle, httpserver,
}

-- A result for any reason is a good one here: `Ends` with out_of_fuel allowed.
abbrev pub KeepsLinks : Outcome Served → Type 0
KeepsLinks (ok s) = IsLinked s.timer
KeepsLinks (throws e) = Unit
KeepsLinks (fault k) = Unit
KeepsLinks blocks = Unit
KeepsLinks out_of_fuel = Unit

KeepsLinks-bind {ℓ} :
    {A : Type ℓ} (r : Outcome A) (k : A → Outcome Served)
    → ((a : A) → KeepsLinks (k a))
    → KeepsLinks (r >>= k)
KeepsLinks-bind (ok a) k h = h a
KeepsLinks-bind (throws e) k h = tt
KeepsLinks-bind (fault f) k h = tt
KeepsLinks-bind blocks k h = tt
KeepsLinks-bind out_of_fuel k h = tt

KeepsLinks-if :
    (b : Bool) (r s : Outcome Served)
    → KeepsLinks r
    → KeepsLinks s
    → KeepsLinks (if b then r else s)
KeepsLinks-if true r s h k = h
KeepsLinks-if false r s h k = k

keep_or_close-IsLinked :
    (w : World) (d : HttpData) (t : Timer) (p : Peer)
    → IsLinked t
    → IsLinked (keep_or_close w d t p).timer
unfolding keep_or_close
keep_or_close-IsLinked w d t p v = elim (Bool-cases d.m_keep_connection) [
  | inl y ↦ rw y (addfd-IsLinked t w.now d.client_socket v)
  | inr n ↦ rw n v
]

respond-KeepsLinks :
    (w : World) (t : Timer) (p : Peer) (d : HttpData) → IsLinked t → KeepsLinks (respond w t p d)
unfolding respond
respond-KeepsLinks w t p d v = KeepsLinks-if d.m_bad_request _ _ v (
    KeepsLinks-if (is_unsupport d.request_method) _ _ v (
      KeepsLinks-if (not (file_exist (w.files d.url)) && not (has_type d (codes "memory"))) _ _
        (KeepsLinks-bind (send_not_found p) _ (λ p1. v))
        (KeepsLinks-bind (answer w d p) _ (λ p1. keep_or_close-IsLinked w d t p1 v))))

caught-KeepsLinks :
    (r : Outcome Timer)
    → Ends IsLinked r
    → KeepsLinks (r >>= λ t1. ok (record { peer = none; timer = t1; closed = true }))
caught-KeepsLinks (ok u) h = h
caught-KeepsLinks (throws e) h = tt
caught-KeepsLinks (fault k) h = tt
caught-KeepsLinks blocks h = tt
caught-KeepsLinks out_of_fuel h = tt

handle-KeepsLinks :
    (r : Outcome Served) (t : Timer) (fd : ℕ)
    → IsLinked t
    → KeepsLinks r
    → KeepsLinks (handle r t fd)
unfolding handle
handle-KeepsLinks (ok s) t fd v h = h
handle-KeepsLinks (fault k) t fd v h = tt
handle-KeepsLinks blocks t fd v h = tt
handle-KeepsLinks out_of_fuel t fd v h = tt
handle-KeepsLinks (throws e) t fd v h =
    KeepsLinks-if (is_std_exception e) _ (throws e)
      (caught-KeepsLinks (delete_fd t fd)
        (Guarded-Ends t fd (delete_fd t fd) (delete_fd-Guarded t fd v)))
      tt

pub httpserver-KeepsLinks :
    (w : World) (t : Timer) (fd : ℕ) (socket : List Recv) (p : Peer)
    → IsLinked t
    → KeepsLinks (httpserver w t fd socket p)
unfolding httpserver
httpserver-KeepsLinks w t fd socket p v = handle-KeepsLinks _ t fd v (
    KeepsLinks-bind (parse_data (http_data fd socket w.left_over_flag)) (respond w t p)
      (λ d. respond-KeepsLinks w t p d v))
