-- ===== src/Http/Params/Values.antt =====
-- What `parseStringParamTo_htable_clientParamData` keeps of its parameters: the keys, and no value.
use mathlib.Core.Path.{subst}
use lxc_http_server.Common.{
  ℕ, zero, suc, ◌+◌, ◌-◌, ◌<◌, ◌≡◌, refl, ap, false, [], ◌∷◌, ◌++◌, Option, none, some, Bytes,
  length, append_assoc, arith, ltb, ◌==◌, le→leb, lt→ltb, ltb-false, length-append, drop-append,
  take-append, Bool-cases, inl, inr, text_eq, Outcome, ok, >>=-eq-ok,
}
use lxc_http_server.Http.{HttpData, Table}
use lxc_http_server.Http.Strings.{elem, substr, scan_from}
use lxc_http_server.Http.Strings.Scan.{scan_from-append, elem-append}
use lxc_http_server.Http.Params.{
  insert, param_value, params_loop, table_of, parse_string_param, parse_url_data_param_list,
}

-- `key=value&` for each pair.
abbrev pub encode : Table → Bytes
encode [] = []
encode ((key, value) ∷ rest) = key ++ (b'=' ∷ value ++ (b'&' ∷ encode rest))

-- No key holds `=` or `&`, and no value `&`.
abbrev pub Plain : Table → Type 0
Plain [] = Unit {0}
Plain ((key, value) ∷ rest) =
    (elem b'=' key ≡ false) × (elem b'&' key ≡ false) × (elem b'&' value ≡ false) × Plain rest

-- Each key with the empty value.
abbrev pub store_keys : Table → Table → Table
store_keys [] table = table
store_keys ((key, value) ∷ rest) table = store_keys rest (insert key [] table)

param_value-at : (str : Bytes) (mid : ℕ) → mid < length str → param_value str mid ≡ ok []
unfolding param_value substr
param_value-at str mid h = elim (Bool-cases (mid == 0)) [
  | inr n ↦ rw n
  | inl z ↦
      let n : mid - mid ≡ 0 = omega arith in rw (z, n, le→leb (mid + 1) (length str) (omega arith))
]

substr-middle : (pre s t : Bytes) → substr (pre ++ (s ++ t)) (length pre) (length s) ≡ ok s
unfolding substr
substr-middle pre s t = rw (
  le→leb (length pre) (length (pre ++ (s ++ t))) (omega (arith, length-append pre (s ++ t))),
  drop-append pre (s ++ t),
  take-append s t,
)

amp_at :
    (key value rest pre : Bytes)
    → elem b'&' key ≡ false
    → elem b'&' value ≡ false
    → scan_from b'&' (pre ++ (key ++ (b'=' ∷ value ++ (b'&' ∷ rest)))) (length pre)
      ≡ ok (length pre + (length key + (1 + length value)))
amp_at key value rest pre pa pv =
    let none_before : elem b'&' (key ++ (b'=' ∷ value)) ≡ false =
      ground (arith, elem-append b'&' key (b'=' ∷ value)) in
    let size : length (key ++ (b'=' ∷ value)) ≡ length key + (1 + length value) =
      omega (arith, length-append key (b'=' ∷ value)) in
    let split : key ++ (b'=' ∷ value ++ (b'&' ∷ rest)) ≡ (key ++ (b'=' ∷ value)) ++ (b'&' ∷ rest) =
      simp append_assoc in
    rw (split, scan_from-append b'&' pre (key ++ (b'=' ∷ value)) rest none_before, size)

params_loop-encode :
    (pairs : Table) (fuel : ℕ) (pre : Bytes) (table : Table)
    → Plain pairs
    → length (encode pairs) < fuel
    → params_loop fuel (pre ++ encode pairs) (length pre) (length pre) table
      ≡ ok (store_keys pairs table)
unfolding params_loop
params_loop-encode pairs zero pre table p f = absurd (omega arith)
params_loop-encode [] (suc fuel) pre table p f =
    rw (ltb-false (length pre) (length (pre ++ [])) (omega (arith, length-append pre [])))
params_loop-encode ((key, value) ∷ rest) (suc fuel) pre table (pk, pa, pv, pr) f =
    let str : Bytes = pre ++ encode ((key, value) ∷ rest) in
    let amp = amp_at key value (encode rest) pre pa pv in
    let long = length-append pre (key ++ (b'=' ∷ value ++ (b'&' ∷ encode rest))) in
    let longer = length-append key (b'=' ∷ value ++ (b'&' ∷ encode rest)) in
    let longest = length-append value (b'&' ∷ encode rest) in
    let n : length pre + length key - length pre ≡ length key = omega arith in
    let mid = scan_from-append b'=' pre key (value ++ (b'&' ∷ encode rest)) pk in
    let value_of = param_value-at str (length pre + length key) (omega (arith, long, longer)) in
    let pre' : Bytes = pre ++ (key ++ (b'=' ∷ value ++ b'&' ∷ [])) in
    let whole : str ≡ pre' ++ encode rest = simp append_assoc in
    let size : length pre + (length key + (1 + length value)) + 1 ≡ length pre' = omega (
      arith,
      length-append pre (key ++ (b'=' ∷ value ++ b'&' ∷ [])),
      length-append key (b'=' ∷ value ++ b'&' ∷ []),
      length-append value (b'&' ∷ []),
    ) in
    rw
      (
        lt→ltb (length pre) (length str) (omega (arith, long, longer)),
        amp,
        mid,
        n,
        substr-middle pre key _,
        value_of,
      )
      (rw (whole, size)
        (params_loop-encode rest fuel pre' (insert key [] table) pr
          (omega (arith, longer, longest))))

-- On any list of parameters written `key=value&` with no `=` or `&` in a key and no `&` in a value,
-- `parse_string_param` returns, and stores each key in order, every one with the empty value.
pub parse_string_param-encode :
    (pairs : Table) (d : HttpData)
    → Plain pairs
    → parse_string_param (encode pairs) d
      ≡ ok (record d { client_param_data = some (store_keys pairs (table_of d.client_param_data)) })
unfolding parse_string_param
parse_string_param-encode pairs d p = rw (
    params_loop-encode pairs (suc (length (encode pairs))) [] (table_of d.client_param_data) p
      (omega arith))

-- No entry of the table has a value.
abbrev pub AllEmpty : Table → Type 0
AllEmpty [] = Unit {0}
AllEmpty ((key, value) ∷ rest) = (value ≡ []) × AllEmpty rest

insert-AllEmpty : (key : Bytes) (table : Table) → AllEmpty table → AllEmpty (insert key [] table)
unfolding insert
insert-AllEmpty key [] h = (refl, tt)
insert-AllEmpty key ((k, v) ∷ rest) h = elim (Bool-cases (text_eq k key)) [
  | inl same ↦ rw same (refl, h.1)
  | inr other ↦ rw other (h.0, insert-AllEmpty key rest h.1)
]

param_value-empty : (str : Bytes) (mid : ℕ) {v : Bytes} → param_value str mid ≡ ok v → v ≡ []
unfolding param_value substr
param_value-empty str mid e = elim (Bool-cases (mid == 0)) [
  | inr n ↦ ground (arith, n)
  | inl z ↦ let n : mid - mid ≡ 0 = omega arith in ground (arith, n, z)
]

params_loop-AllEmpty :
    (fuel : ℕ) (str : Bytes) (cur prev : ℕ) (table : Table) {result : Table}
    → AllEmpty table
    → params_loop fuel str cur prev table ≡ ok result
    → AllEmpty result
unfolding params_loop
params_loop-AllEmpty zero str cur prev table h e = cc
params_loop-AllEmpty (suc fuel) str cur prev table {result} h e =
    elim (Bool-cases (ltb cur (length str))) [
      | inr n ↦ (let q : table ≡ result = cc (rw n at e) in subst AllEmpty q h)
      | inl t ↦
          let (amp, e1, k1) = >>=-eq-ok (scan_from b'&' str cur) _ (rw t at e) in
          let (mid, e2, k2) = >>=-eq-ok (scan_from b'=' str prev) _ k1 in
          let (key, e3, k3) = >>=-eq-ok (substr str prev (mid - prev)) _ k2 in
          let (value, e4, k4) = >>=-eq-ok (param_value str mid) _ k3 in
          params_loop-AllEmpty fuel str (amp + 1) (amp + 1) (insert key value table)
            (rw (param_value-empty str mid e4) (insert-AllEmpty key table h)) k4
    ]

-- If `parse_string_param` returns, on any string, and the table had empty values only, then so has the
-- table that it leaves: no parameter ever has a value.
pub parse_string_param-AllEmpty :
    (str : Bytes) (d e : HttpData)
    → AllEmpty (table_of d.client_param_data)
    → parse_string_param str d ≡ ok e
    → AllEmpty (table_of e.client_param_data)
unfolding parse_string_param
parse_string_param-AllEmpty str d e h r =
    let (table, loop, k) =
      >>=-eq-ok (params_loop (suc (length str)) str 0 0 (table_of d.client_param_data)) _ r in
    let q : some table ≡ e.client_param_data = ap (λ x. outcome_params x) k in
    rw (← q) (params_loop-AllEmpty (suc (length str)) str 0 0 _ h loop)
  where
    outcome_params : Outcome HttpData → Option Table
    outcome_params (ok x) = x.client_param_data
    outcome_params _ = none

-- `parse_url_data_param_list` returns and changes nothing, whatever the url is: no query is ever
-- parsed or cut off.
pub parse_url_data_param_list-id : (d : HttpData) → parse_url_data_param_list d ≡ ok d
unfolding parse_url_data_param_list
parse_url_data_param_list-id d = ground arith
