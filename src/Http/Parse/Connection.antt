-- ===== src/Http/Parse/Connection.antt =====
-- The descriptor of a connection through `parseData` of src/HttpData.cpp.
use lxc_http_server.Common.{
  ℕ, zero, suc, ◌+◌, ◌≡◌, refl, Bool, true, false, ◌&&◌, ◌||◌, ◌==◌, List, [], ◌∷◌, none, some,
  Bytes, codes, length, ltb, leb, if◌then◌else◌, text_eq, Outcome, ok, check, or_fault, ℤ,
  get_elem?, line_feed, carriage_return, Yields, Yields-bind, Yields-any, Yields-if, Bool-cases,
  inl, inr, out_of_bounds,
}
use lxc_http_server.Http.{HttpData, Recv, http_data, line_buffersize}
use lxc_http_server.Http.Socket.{receive, read_raw_data_from_socket, pending, data_buffer_empty}
use lxc_http_server.Http.Line.{
  line_round, line_loop, take_char, refill, finish_line, parse_one_line,
}
use lxc_http_server.Http.Strings.{string_split, get_header_line_name, numeral_content_length}
use lxc_http_server.Http.Params.{parse_string_param, params_loop, table_of}
use lxc_http_server.Http.Params.Values.{parse_url_data_param_list-id}
use lxc_http_server.Http.Start.{
  get_request_method, set_url, parse_start_line, is_unsupport, is_post,
}
use lxc_http_server.Http.Header.{
  HeaderField, host_line, header_field, store_field, store_header, header_round, header_loop,
  parse_header,
}
use lxc_http_server.Http.Body.{body_round, body_loop, terminate, parse_body_param_data}
use lxc_http_server.Http.Parse.{parse_data}

module _ (fd : ℕ) where
  abbrev pub Same : HttpData → Type 0
  Same d = d.client_socket ≡ fd

  abbrev SameRead : Bytes × HttpData → Type 0
  SameRead (line, d) = Same d

  abbrev SameChar : ℕ × Bytes × HttpData → Type 0
  SameChar (c, line, d) = Same d

  receive-Same : (l : List Recv) (d : HttpData) → Same d → Yields Same (receive l d)
  unfolding receive
  receive-Same [] d h = tt
  receive-Same (none ∷ rest) d h = tt
  receive-Same (some [] ∷ rest) d h = tt
  receive-Same (some (c ∷ chunk) ∷ rest) d h = h

  refilled-Same :
      (b : Bool) (d : HttpData)
      → Same d
      → Yields Same (if b then read_raw_data_from_socket d else ok d)
  unfolding read_raw_data_from_socket
  refilled-Same true d h = receive-Same d.socket d h
  refilled-Same false d h = h

  take_char-Same : (d : HttpData) (line : Bytes) → Same d → Yields SameChar (take_char d line)
  unfolding take_char
  take_char-Same d line h =
      Yields-any SameChar (or_fault (get_elem? d.data_buffer d.read_index) out_of_bounds) _ (λ c.
        Yields-any SameChar (check (ltb (length line) line_buffersize) out_of_bounds) _ (λ u. h))

  line_round-Same :
      (next : HttpData → Bytes → Outcome (Bytes × HttpData)) (d : HttpData) (line : Bytes)
      → ((e : HttpData) (l : Bytes) → Same e → Yields SameRead (next e l))
      → Same d
      → Yields SameRead (line_round next d line)
  unfolding line_round refill
  line_round-Same next d line f h =
      Yields-if SameRead (leb d.read_index d.data_end_index) _ (ok (line, d))
        (Yields-bind SameChar SameRead (take_char d line) _ (take_char-Same d line h)
          (λ (t : ℕ × Bytes × HttpData) g.
            Yields-if SameRead (d.prev == carriage_return && t.0 == line_feed)
              (ok (t.1, record (t.2) { prev = 0 })) _ g
              (Yields-bind Same SameRead _ (λ d2. next d2 (t.1))
                (refilled-Same (ltb t.2.data_end_index t.2.read_index) (record (t.2) { prev = t.0 })
                  g)
                (λ d2 k. f d2 (t.1) k))))
        h

  line_loop-Same :
      (fuel : ℕ) (d : HttpData) (line : Bytes) → Same d → Yields SameRead (line_loop fuel d line)
  unfolding line_loop
  line_loop-Same zero d line h = tt
  line_loop-Same (suc fuel) d line h =
      line_round-Same (line_loop fuel) d line (line_loop-Same fuel) h

  parse_one_line-Same : (d : HttpData) → Same d → Yields SameRead (parse_one_line d)
  unfolding parse_one_line finish_line
  parse_one_line-Same d h =
      Yields-bind Same SameRead _ _ (refilled-Same (data_buffer_empty d) d h) (λ d1 k.
        Yields-bind SameRead SameRead (line_loop (suc (pending d1)) d1 []) finish_line
          (line_loop-Same (suc (pending d1)) d1 [] k)
          (λ (t : Bytes × HttpData) g.
            Yields-any SameRead (check (leb 2 (length t.0)) out_of_bounds) _ (λ u. g)))

  get_request_method-Same :
      (info : List Bytes) (d : HttpData) → Same d → Same (get_request_method info d)
  unfolding get_request_method
  get_request_method-Same [] d h = h
  get_request_method-Same (first ∷ rest) d h = elim (Bool-cases (text_eq first (codes "GET"))) [
    | inl y ↦ rw y h
    | inr n ↦
        rw n (elim (Bool-cases (text_eq first (codes "POST"))) [ inl y ↦ rw y h | inr m ↦ rw m h ])
  ]

  set_url-Same : (info : List Bytes) (d : HttpData) → Same d → Yields Same (set_url info d)
  unfolding set_url
  set_url-Same info d h =
      Yields-any Same (or_fault (get_elem? info 1) out_of_bounds) _ (λ (target : Bytes).
        let url = if text_eq target (codes "/") then codes "/index.html" else target in
        rw (parse_url_data_param_list-id (record d { url = url }))
          (Yields-any Same (or_fault (get_elem? info 2) out_of_bounds) _ (λ version. h)))

  parse_start_line-Same : (d : HttpData) → Same d → Yields Same (parse_start_line d)
  unfolding parse_start_line
  parse_start_line-Same d h =
      Yields-bind SameRead Same (parse_one_line d) _ (parse_one_line-Same d h)
        (λ (t : Bytes × HttpData) g.
          Yields-any Same (string_split t.0 [] (codes " ")) _ (λ (info : List Bytes).
            let d2 = get_request_method info t.1 in
            Yields-if Same (d2.m_bad_request || is_unsupport d2.request_method) (ok d2)
              (set_url info d2) (get_request_method-Same info (t.1) g)
              (set_url-Same info d2 (get_request_method-Same info (t.1) g))))

  store_field-Same :
      (field : HeaderField) (line : Bytes) (d : HttpData) → Same d → Same (store_field field line d)
  unfolding store_field
  store_field-Same host_line line d h = h
  store_field-Same _ line d h = h

  header_round-Same :
      (next : HttpData → Outcome HttpData) (line : Bytes) (d : HttpData)
      → ((e : HttpData) → Same e → Yields Same (next e))
      → Same d
      → Yields Same (header_round next line d)
  unfolding header_round store_header
  header_round-Same next [] d f h = h
  header_round-Same next (c ∷ cs) d f h =
      Yields-any Same (get_header_line_name (c ∷ cs)) _ (λ (name : Bytes).
        f (store_field (header_field name) (c ∷ cs) d)
          (store_field-Same (header_field name) (c ∷ cs) d h))

  header_loop-Same : (fuel : ℕ) (d : HttpData) → Same d → Yields Same (header_loop fuel d)
  unfolding header_loop
  header_loop-Same zero d h = tt
  header_loop-Same (suc fuel) d h =
      Yields-bind SameRead Same (parse_one_line d) _ (parse_one_line-Same d h)
        (λ (t : Bytes × HttpData) g.
          header_round-Same (header_loop fuel) (t.0) (t.1) (header_loop-Same fuel) g)

  body_round-Same :
      (next : HttpData → Bytes → Outcome (Bytes × HttpData)) (n : ℤ) (size : ℕ) (d : HttpData)
      (read : Bytes)
      → ((e : HttpData) (l : Bytes) → Same e → Yields SameRead (next e l))
      → Same d
      → Yields SameRead (body_round next n size d read)
  unfolding body_round
  body_round-Same next n size d read f h =
      Yields-if SameRead (leb d.read_index d.data_end_index) _ (ok (read, d))
        (Yields-any SameRead (or_fault (get_elem? d.data_buffer d.read_index) out_of_bounds) _ (λ c.
          Yields-any SameRead (check (ltb (length read) size) out_of_bounds) _ (λ u.
            Yields-if SameRead _ (ok (_, record d { read_index = d.read_index + 1 })) _ h (
              Yields-bind Same SameRead _ _
                (refilled-Same (ltb d.data_end_index (d.read_index + 1))
                  (record d { read_index = d.read_index + 1 }) h)
                (λ d2 k. f d2 _ k)))))
        h

  body_loop-Same :
      (fuel : ℕ) (n : ℤ) (size : ℕ) (d : HttpData) (read : Bytes)
      → Same d
      → Yields SameRead (body_loop fuel n size d read)
  unfolding body_loop
  body_loop-Same zero n size d read h = tt
  body_loop-Same (suc fuel) n size d read h =
      body_round-Same (body_loop fuel n size) n size d read (body_loop-Same fuel n size) h

  parse_string_param-Same :
      (text : Bytes) (d : HttpData) → Same d → Yields Same (parse_string_param text d)
  unfolding parse_string_param
  parse_string_param-Same text d h =
      Yields-any Same (params_loop (suc (length text)) text 0 0 (table_of d.client_param_data)) _
        (λ table. h)

  parse_body-Same : (d : HttpData) → Same d → Yields Same (parse_body_param_data d)
  unfolding parse_body_param_data
  parse_body-Same d h = Yields-any Same (numeral_content_length d) _ (λ n.
      Yields-any Same _ _ (λ size.
        Yields-bind SameRead Same (body_loop (suc (pending d)) n size d []) _
          (body_loop-Same (suc (pending d)) n size d [] h)
          (λ (t : Bytes × HttpData) g.
            Yields-any Same (terminate n (t.0)) (λ text. parse_string_param text (t.1))
              (λ (text : Bytes). parse_string_param-Same text (t.1) g))))

  parsed-Same : (d : HttpData) → Same d → Yields Same (parse_data d)
  unfolding parse_data parse_header
  parsed-Same d h =
      Yields-bind Same Same (parse_start_line d) _ (parse_start_line-Same d h) (λ d1 g.
        Yields-if Same (d1.m_bad_request || is_unsupport d1.request_method) (ok d1) _ g (
          Yields-bind Same Same (header_loop (suc (pending d1)) d1) _
            (header_loop-Same (suc (pending d1)) d1 g)
            (λ d2 k.
              Yields-if Same (is_post d2.request_method) (parse_body_param_data d2) (ok d2)
                (parse_body-Same d2 k) k)))

-- The parser keeps the descriptor that it was made with.
pub parse_data-Same :
    (fd : ℕ) (socket : List Recv) (left_over : Bool)
    → Yields (Same fd) (parse_data (http_data fd socket left_over))
unfolding http_data
parse_data-Same fd socket left_over = parsed-Same fd (http_data fd socket left_over) refl
