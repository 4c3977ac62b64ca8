-- ===== src/Http/Parse/Total.antt =====
-- `parseData` ends, from every state of the parser and whatever comes from the socket.
use lxc_http_server.Common.{
  ◌≢◌, Bool, ◌||◌, List, [], Bytes, codes, get_elem?, if◌then◌else◌, Bool-cases, Option-cases, inl,
  inr, Outcome, ok, out_of_fuel, ◌>>=◌, Ends, Ends-bind, Ends-mono,
}
use lxc_http_server.Http.{HttpData}
use lxc_http_server.Http.Socket.{pending}
use lxc_http_server.Http.Socket.Refill.{Within}
use lxc_http_server.Http.Line.Progress.{Consumed, parse_one_line-Ends}
use lxc_http_server.Http.Strings.Words.{words, string_split-words}
use lxc_http_server.Http.Strings.Total.{Any}
use lxc_http_server.Http.Params.Values.{parse_url_data_param_list-id}
use lxc_http_server.Http.Start.{
  is_unsupport, is_post, set_url, get_request_method, parse_start_line,
}
use lxc_http_server.Http.Header.{parse_header}
use lxc_http_server.Http.Header.Total.{parse_header-Ends}
use lxc_http_server.Http.Body.{parse_body_param_data}
use lxc_http_server.Http.Body.Total.{parse_body_param_data-Ends}
use lxc_http_server.Http.Parse.{parse_data}

set_url-Ends : (header_info : List Bytes) (d : HttpData) → Ends Any (set_url header_info d)
unfolding set_url
set_url-Ends header_info d = elim (Option-cases (get_elem? header_info 1)) [
  | inl e ↦ rw e tt
  | inr (target, e) ↦
      rw (e, parse_url_data_param_list-id)
        (elim (Option-cases (get_elem? header_info 2)) [
          | inl m ↦ rw m tt
          | inr (version, m) ↦ rw m tt
        ])
]

parse_start_line-Ends : (d : HttpData) → Ends Any (parse_start_line d)
unfolding parse_start_line
parse_start_line-Ends d = Ends-bind (Consumed (pending d)) Any _ _ (parse_one_line-Ends d) λ r c.
    rw string_split-words (elim (Bool-cases (after r).0) [
      | inl stop ↦ rw stop tt
      | inr on ↦ rw on (set_url-Ends (words (codes " ") [] r.0) (after r).1)
    ])
  where
    after : Bytes × HttpData → Bool × HttpData
    after r =
        let d2 = get_request_method (words (codes " ") [] r.0) r.1 in
        (d2.m_bad_request || is_unsupport d2.request_method, d2)

after_header-Ends :
    (d : HttpData) → Ends Any (if is_post d.request_method then parse_body_param_data d else ok d)
after_header-Ends d = elim (Bool-cases (is_post d.request_method)) [
  | inl body ↦ rw body (Ends-mono _ Any _ (parse_body_param_data-Ends d) (λ e w. tt))
  | inr no_body ↦ rw no_body tt
]

parse_data-Ends : (d : HttpData) → Ends Any (parse_data d)
unfolding parse_data
parse_data-Ends d = Ends-bind Any Any _ _ (parse_start_line-Ends d) λ d1 _. after d1
  where
    after :
        (d1 : HttpData)
        → Ends Any (
            if d1.m_bad_request || is_unsupport d1.request_method
            then ok d1
            else (parse_header d1 >>= λ d2.
                if is_post d2.request_method then parse_body_param_data d2 else ok d2))
    after d1 = elim (Bool-cases (d1.m_bad_request || is_unsupport d1.request_method)) [
      | inl stop ↦ rw stop tt
      | inr on ↦ rw on (
          Ends-bind (Within (pending d1)) Any (parse_header d1)
            (λ d2. if is_post d2.request_method then parse_body_param_data d2 else ok d2)
            (parse_header-Ends d1) (λ d2 _. after_header-Ends d2))
    ]

Ends-out_of_fuel {ℓ} : {A : Type ℓ} (P : A → Type 0) (r : Outcome A) → Ends P r → r ≢ out_of_fuel
Ends-out_of_fuel P (ok a) h e = cc
Ends-out_of_fuel P out_of_fuel h e = h
Ends-out_of_fuel P _ h e = cc

-- `parse_data` never runs out of the fuel that its loops are given, on any parser state and any
-- results of `recv`: it comes to a value, an exception, undefined behaviour or a call of `recv` that
-- does not return.
pub parse_data-total : (d : HttpData) → parse_data d ≢ out_of_fuel
parse_data-total d = Ends-out_of_fuel Any (parse_data d) (parse_data-Ends d)
