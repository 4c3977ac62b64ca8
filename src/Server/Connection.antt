-- ===== src/Server/Connection.antt =====
-- What the handler of src/httpserver.cpp does to the timer, for the descriptor that it is given.
use lxc_http_server.Common.{
  ℕ, sym, not, ◌&&◌, List, Bool-cases, inl, inr, codes, Outcome, ok, throws, fault, blocks,
  out_of_fuel, is_std_exception, Yields, Yields-bind, Yields-any, Yields-if,
}
use mathlib.Core.Path.{subst}
use lxc_http_server.Http.{HttpData, Recv, http_data}
use lxc_http_server.Http.Start.{is_unsupport}
use lxc_http_server.Http.Parse.{parse_data}
use lxc_http_server.Http.Parse.Connection.{Same, parse_data-Same}
use lxc_http_server.Timer.{Timer, addfd, delete_fd}
use lxc_http_server.Responser.{Peer, send_not_found}
use lxc_http_server.Server.{
  World, Served, file_exist, has_type, answer, keep_or_close, respond, handle, httpserver,
}

-- A property that the timer's methods keep for one descriptor.
module _ (Q : Timer → Type 0) (fd : ℕ) (kept : (t : Timer) (now : ℕ) → Q t → Q (addfd t now fd).0)
    (left : (t : Timer) → Q t → Yields Q (delete_fd t fd)) where
  abbrev TimerHas : Served → Type 0
  TimerHas s = Q s.timer

  keep_or_close-TimerHas :
      (w : World) (d : HttpData) (t : Timer) (p : Peer)
      → Same fd d
      → Q t
      → TimerHas (keep_or_close w d t p)
  unfolding keep_or_close
  keep_or_close-TimerHas w d t p h v = elim (Bool-cases d.m_keep_connection) [
    | inl y ↦ rw y (subst (λ x. Q (addfd t w.now x).0) (sym h) (kept t w.now v))
    | inr n ↦ rw n v
  ]

  respond-TimerHas :
      (w : World) (t : Timer) (p : Peer) (d : HttpData)
      → Same fd d
      → Q t
      → Yields TimerHas (respond w t p d)
  unfolding respond
  respond-TimerHas w t p d h v = Yields-if TimerHas d.m_bad_request _ _ v (
      Yields-if TimerHas (is_unsupport d.request_method) _ _ v (
        Yields-if TimerHas (not (file_exist (w.files d.url)) && not (has_type d (codes "memory"))) _
          _ (Yields-any TimerHas (send_not_found p) _ (λ p1. v))
          (Yields-any TimerHas (answer w d p) _ (λ p1. keep_or_close-TimerHas w d t p1 h v))))

  handle-TimerHas :
      (r : Outcome Served) (t : Timer) → Q t → Yields TimerHas r → Yields TimerHas (handle r t fd)
  unfolding handle
  handle-TimerHas (ok s) t v h = h
  handle-TimerHas (fault k) t v h = tt
  handle-TimerHas blocks t v h = tt
  handle-TimerHas out_of_fuel t v h = tt
  handle-TimerHas (throws e) t v h =
      Yields-if TimerHas (is_std_exception e) _ (throws e)
        (Yields-bind Q TimerHas (delete_fd t fd) _ (left t v) (λ u k. k)) tt

  pub httpserver-TimerHas :
      (w : World) (t : Timer) (socket : List Recv) (p : Peer)
      → Q t
      → Yields TimerHas (httpserver w t fd socket p)
  unfolding httpserver
  httpserver-TimerHas w t socket p v = handle-TimerHas _ t v (
      Yields-bind (Same fd) TimerHas (parse_data (http_data fd socket w.left_over_flag))
        (respond w t p) (parse_data-Same fd socket w.left_over_flag)
        (λ d h. respond-TimerHas w t p d h v))
