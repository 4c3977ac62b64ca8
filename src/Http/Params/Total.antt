-- ===== src/Http/Params/Total.antt =====
-- The loop over the parameters ends.
use lxc_http_server.Common.{
  ℕ, zero, suc, ◌+◌, ◌-◌, ◌≤◌, ◌<◌, Bytes, length, arith, ltb, ◌==◌, Bool-cases, inl, inr, Ends,
  Ends-bind,
}
use lxc_http_server.Http.{HttpData, Table}
use lxc_http_server.Http.Socket.{pending}
use lxc_http_server.Http.Socket.Refill.{Within}
use lxc_http_server.Http.Strings.Total.{Any, Between, substr-Ends, scan_from-Ends}
use lxc_http_server.Http.Params.{insert, param_value, params_loop, table_of, parse_string_param}

param_value-Ends : (s : Bytes) (mid : ℕ) → Ends Any (param_value s mid)
unfolding param_value
param_value-Ends s mid = elim (Bool-cases (mid == 0)) [
  | inl h ↦ rw h (substr-Ends s (mid + 1) (mid - mid))
  | inr h ↦ rw h tt
]

params_loop-Ends :
    (fuel : ℕ) (str : Bytes) (cur prev : ℕ) (table : Table)
    → cur ≤ length str
    → length str < fuel + cur
    → Ends Any (params_loop fuel str cur prev table)
unfolding params_loop
params_loop-Ends zero str cur prev table h f = absurd (omega arith)
params_loop-Ends (suc fuel) str cur prev table h f = elim (Bool-cases (ltb cur (length str))) [
  | inr n ↦ rw n tt
  | inl t ↦ rw t (
      Ends-bind (Between cur (length str)) Any _ _ (scan_from-Ends b'&' str cur) λ amp a.
        Ends-bind (Between prev (length str)) Any _ _ (scan_from-Ends b'=' str prev) λ mid m.
          Ends-bind Any Any _ _ (substr-Ends str prev (mid - prev)) λ key _.
            Ends-bind Any Any _ _ (param_value-Ends str mid) λ value _.
              params_loop-Ends fuel str (amp + 1) (amp + 1) (insert key value table)
                (omega (arith, a)) (omega (arith, a)))
]

pub parse_string_param-Ends :
    (str : Bytes) (d : HttpData) → Ends (Within (pending d)) (parse_string_param str d)
unfolding parse_string_param
parse_string_param-Ends str d =
    Ends-bind Any (Within (pending d)) _ _
      (params_loop-Ends (suc (length str)) str 0 0 (table_of d.client_param_data) (omega arith)
        (omega arith))
      (λ table _. omega arith)
