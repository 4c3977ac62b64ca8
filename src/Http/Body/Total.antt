-- ===== src/Http/Body/Total.antt =====
-- The loop over the body ends.
use lxc_http_server.Common.{
  ℕ, zero, suc, ◌+◌, ◌≤◌, ◌<◌, [], ◌∷◌, ◌++◌, Bytes, length, get_elem?, arith, ltb, leb, ◌==◌, ◌^◌,
  leb→le, Bool-cases, Option-cases, inl, inr, if◌then◌else◌, Outcome, ok, ◌>>=◌, Ends, Ends-bind,
  Ends-mono, ℤ, pos, negsuc,
}
use lxc_http_server.Http.{HttpData}
use lxc_http_server.Http.Socket.{pending, read_raw_data_from_socket}
use lxc_http_server.Http.Socket.Refill.{Within, refill-Ends}
use lxc_http_server.Http.Strings.Total.{Any, numeral_content_length-Ends}
use lxc_http_server.Http.Params.{parse_string_param}
use lxc_http_server.Http.Params.Total.{parse_string_param-Ends}
use lxc_http_server.Http.Body.{
  array_size, is_length, body_round, body_loop, terminate, parse_body_param_data,
}

-- No more is pending than at the start.
abbrev Left : ℕ → Bytes × HttpData → Type 0
Left n (read, e) = pending e ≤ n

array_size-Ends : (n : ℤ) → Ends Any (array_size n)
unfolding array_size
array_size-Ends (pos n) = elim (Bool-cases (ltb (n + 2) (2 ^ 31))) [
  | inl h ↦ rw h tt
  | inr h ↦ rw h tt
]
array_size-Ends (negsuc zero) = tt
array_size-Ends (negsuc (suc zero)) = tt
array_size-Ends (negsuc (suc (suc n))) = tt

module _ (next : HttpData → Bytes → Outcome (Bytes × HttpData)) (content_length : ℤ) (size : ℕ)
    (d : HttpData) (acc : Bytes) where
  body_round-Ends :
      ((e : HttpData) (l : Bytes) → pending e < pending d → Ends (Left (pending e)) (next e l))
      → Ends (Left (pending d)) (body_round next content_length size d acc)
  unfolding body_round
  body_round-Ends go = elim (Bool-cases (leb d.read_index d.data_end_index)) [
    | inr done ↦ rw done (omega arith)
    | inl more ↦ rw more (elim (Option-cases (get_elem? d.data_buffer d.read_index)) [
      | inl e ↦ rw e tt
      | inr (c, e) ↦ rw e (elim (Bool-cases (ltb (length acc) size)) [
        | inr full ↦ rw full tt
        | inl room ↦
            rw room (elim (Bool-cases (is_length content_length (length (acc ++ c ∷ [])))) [
              | inl stop ↦ rw stop (omega arith)
              | inr on ↦ rw on (one_char c (leb→le _ _ more))
            ])
      ])
    ])
  ]
    where
      one_char :
          (c : ℕ)
          → d.read_index ≤ d.data_end_index
          → Ends (Left (pending d)) (
              (if ltb d.data_end_index (d.read_index + 1)
                then read_raw_data_from_socket (record d { read_index = d.read_index + 1 })
                else ok (record d { read_index = d.read_index + 1 }))
              >>= λ e. next e (acc ++ c ∷ []))
      one_char c h =
          Ends-bind (Within (pending (record d { read_index = d.read_index + 1 }))) _ _ _
            (refill-Ends (record d { read_index = d.read_index + 1 }))
            (λ e w.
              Ends-mono _ _ (next e (acc ++ c ∷ [])) (go e (acc ++ c ∷ []) (omega arith))
                (λ r m. omega (arith, m)))

body_loop-Ends :
    (fuel : ℕ) (content_length : ℤ) (size : ℕ) (d : HttpData) (acc : Bytes)
    → pending d < fuel
    → Ends (Left (pending d)) (body_loop fuel content_length size d acc)
unfolding body_loop
body_loop-Ends zero n size d acc h = elim h [ ]
body_loop-Ends (suc fuel) n size d acc h =
    body_round-Ends (body_loop fuel n size) n size d acc
      (λ e l w. body_loop-Ends fuel n size e l (omega arith))

terminate-Ends : (n : ℤ) (read : Bytes) → Ends Any (terminate n read)
unfolding terminate
terminate-Ends (pos n) read = elim (Bool-cases (length read == n)) [
  | inl h ↦ rw h tt
  | inr h ↦ rw h tt
]
terminate-Ends (negsuc n) read = tt

pub parse_body_param_data-Ends :
    (d : HttpData) → Ends (Within (pending d)) (parse_body_param_data d)
unfolding parse_body_param_data
parse_body_param_data-Ends d = Ends-bind Any _ _ _ (numeral_content_length-Ends d) λ n _.
    Ends-bind Any _ _ _ (array_size-Ends n) λ size _.
      Ends-bind (Left (pending d)) _ _ _
        (body_loop-Ends (suc (pending d)) n size d [] (omega arith))
        λ r l. Ends-bind Any _ _ _ (terminate-Ends n r.0) λ s_data _.
          Ends-mono _ _ (parse_string_param s_data r.1) (parse_string_param-Ends s_data r.1)
            (λ e w. omega (arith, l, w))
