-- ===== src/Http/Body/Reading.antt =====
-- `parseBodyParamData` of src/HttpData.cpp on a body that comes in chunks.
use lxc_http_server.Common.{
  ℕ, zero, suc, ◌+◌, ◌^◌, ◌<◌, ◌≡◌, refl, ap, ◌∙◌, [], ◌∷◌, ◌++◌, append_assoc, false, true, some,
  Bytes, length, length-append, arith, ltb, le→leb, lt→ltb, ◌==◌, ok, pos, Outcome,
}
use native.Mathlib.Decide.{dec_lt}
use lxc_http_server.Common.{◌⊎◌, inl, inr, fault, uninitialised, leb, leb-false}
use lxc_http_server.Http.{HttpData, Table}
use lxc_http_server.Http.Socket.Stream.{
  stream, IsSound, HasData, SameFields, SameFields-trans, stream-next, refill-Reads,
  stream-le-pending,
}
use lxc_http_server.Http.Socket.{pending}
use lxc_http_server.Http.Strings.{elem, numeral_content_length}
use lxc_http_server.Http.Strings.Scan.{c_string-id}
use lxc_http_server.Http.Params.{table_of}
use lxc_http_server.Http.Params.Values.{Plain, encode, store_keys, parse_string_param-encode}
use lxc_http_server.Http.Body.{
  array_size, is_length, body_round, body_loop, terminate, parse_body_param_data,
}

-- The body has been read.
abbrev BodyRead : HttpData → Bytes → Bytes → Outcome (Bytes × HttpData) → Type 0
BodyRead d body rest r =
    (e : HttpData) × (r ≡ ok (body, e)) × IsSound e × (stream e ≡ rest) × SameFields d e

body_loop-BodyRead :
    (s : Bytes) (fuel : ℕ) (d : HttpData) (acc : Bytes) (c : ℕ) (rest : Bytes) (n size : ℕ)
    → IsSound d
    → HasData d
    → stream d ≡ c ∷ (s ++ rest)
    → length s < fuel
    → length acc + length (c ∷ s) ≡ n
    → n < size
    → BodyRead d (acc ++ (c ∷ s)) rest (body_loop fuel (pos n) size d acc)
unfolding body_loop body_round is_length
body_loop-BodyRead s zero d acc c rest n size v h e k l m = absurd (omega (arith, k))
body_loop-BodyRead [] (suc fuel) d acc c rest n size v h e k l m =
    let (here, later) = stream-next d c rest v h e in
    let room : length acc < size = omega (arith, l, m) in
    let stop : (n == length (acc ++ c ∷ [])) ≡ true =
      ground (arith, l, length-append acc (c ∷ [])) in
    (
      record d { read_index = d.read_index + 1 },
      rw (le→leb _ _ h, here, lt→ltb _ _ room, stop) refl,
      record { within = v.within; bounded = v.bounded; fits = v.fits },
      later,
      refl,
    )
body_loop-BodyRead (c' ∷ s) (suc fuel) d acc c rest n size v h e k l m =
    let (here, later) = stream-next d c (c' ∷ (s ++ rest)) v h e in
    let room : length acc < size = omega (arith, l, m) in
    let grown = length-append acc (c ∷ []) in
    let on : (n == length (acc ++ c ∷ [])) ≡ false = ground (arith, l, grown) in
    let d1 = record d { read_index = d.read_index + 1 } in
    let (d2, r, v2, h2, s2, p2, same) =
      refill-Reads d1 c' (s ++ rest)
        (record { within = v.within; bounded = v.bounded; fits = v.fits }) later in
    let (f, r', v', s', same') =
      body_loop-BodyRead s fuel d2 (acc ++ c ∷ []) c' rest n size v2 h2 s2 (omega (arith, k))
        (omega (arith, l, grown)) m in
    (
      f,
      rw (le→leb _ _ h, here, lt→ltb _ _ room, on, r, r', append_assoc) refl,
      v',
      s',
      SameFields-trans d d2 f same same',
    )

plain_end : (s : Bytes) → elem 0 s ≡ false → elem 0 (s ++ b'&' ∷ []) ≡ false
plain_end [] h = refl
plain_end (c ∷ s) h = ground (arith, plain_end s)

terminate-encode :
    (body : Bytes) (pairs : Table)
    → elem 0 body ≡ false
    → body ++ b'&' ∷ [] ≡ encode pairs
    → terminate (pos (length body)) body ≡ ok (encode pairs)
unfolding terminate
terminate-encode body pairs plain enc =
    let same : (length body == length body) ≡ true = ground arith in
    rw same (ap ok (c_string-id (body ++ b'&' ∷ []) (plain_end body plain) ∙ enc))

-- The parameters of the body have been stored.
abbrev pub Posted : HttpData → Table → Bytes → Outcome HttpData → Type 0
Posted d pairs rest r =
    (e : HttpData) × (r
      ≡ ok
          (record e { client_param_data = some (store_keys pairs (table_of d.client_param_data)) }))
    × IsSound e
    × (stream e ≡ rest)
    × SameFields d e

parse_body-encode :
    (d : HttpData) (pairs : Table) (body rest : Bytes)
    → IsSound d
    → HasData d
    → numeral_content_length d ≡ ok (pos (length body))
    → 0 < length body
    → length body + 2 < 2 ^ 31
    → elem 0 body ≡ false
    → Plain pairs
    → body ++ b'&' ∷ [] ≡ encode pairs
    → stream d ≡ body ++ rest
    → Posted d pairs rest (parse_body_param_data d)
unfolding parse_body_param_data array_size
parse_body-encode d pairs [] rest v h num some_body small plain p enc s =
    absurd (omega (arith, some_body))
parse_body-encode d pairs (c ∷ body) rest v h num some_body small plain p enc s =
    let (e, r, w, left, same) =
      body_loop-BodyRead body (suc (pending d)) d [] c rest (length (c ∷ body))
        (length (c ∷ body) + 2) v h s
        (omega (arith, stream-le-pending d, ap length s, length-append body rest)) (omega arith)
        (omega arith) in
    let fits : ltb (length (c ∷ body) + 2) (2 ^ 31) ≡ true = lt→ltb _ _ small in
    let table : table_of e.client_param_data ≡ table_of d.client_param_data =
      ap (λ (x : HttpData). table_of x.client_param_data) same in
    let stored =
      parse_string_param-encode pairs e p
      ∙ ap (λ t. ok (record e { client_param_data = some (store_keys pairs t) })) table in
    (e, rw (num, fits, r, terminate-encode (c ∷ body) pairs plain enc) stored, w, left, same)

-- With nothing in the buffer the loop is left at once.
parse_body-late :
    (d : HttpData) (n : ℕ)
    → d.data_end_index < d.read_index
    → numeral_content_length d ≡ ok (pos n)
    → 0 < n
    → n + 2 < 2 ^ 31
    → parse_body_param_data d ≡ fault uninitialised
unfolding parse_body_param_data array_size body_loop body_round terminate
parse_body-late d n late num some_body small =
    let fits : ltb (n + 2) (2 ^ 31) ≡ true = lt→ltb _ _ small in
    let nothing : leb d.read_index d.data_end_index ≡ false =
      leb-false d.read_index d.data_end_index late in
    let missing : (0 == n) ≡ false = ground arith in rw (num, fits, nothing, missing) refl

-- When the content length that the parser reads is that of a non-empty body without NUL, two bytes
-- below 2^31 at most, the unread bytes are that body and a rest, the buffer's indices are in range,
-- and the body with `&` is a list of parameters written `key=value&` with no `=` or `&` in a key and
-- no `&` in a value, then there are two cases. If the buffer has some byte of the body,
-- `parse_body_param_data` returns, however the bytes are cut into chunks: it has stored each key in
-- order, every one with the empty value, changed no other field but those of the buffer, and left
-- exactly the rest unread. If the buffer is used up, it reads uninitialised memory.
pub parse_body_param_data-encode :
    (d : HttpData) (pairs : Table) (body rest : Bytes)
    → IsSound d
    → numeral_content_length d ≡ ok (pos (length body))
    → 0 < length body
    → length body + 2 < 2 ^ 31
    → elem 0 body ≡ false
    → Plain pairs
    → body ++ b'&' ∷ [] ≡ encode pairs
    → stream d ≡ body ++ rest
    → (HasData d × Posted d pairs rest (parse_body_param_data d))
      ⊎ ((d.data_end_index < d.read_index) × (parse_body_param_data d ≡ fault uninitialised))
parse_body_param_data-encode d pairs body rest v num some_body small plain p enc s =
    elim (dec_lt d.data_end_index d.read_index) [
      | yes late ↦ inr (late, parse_body-late d (length body) late num some_body small)
      | no here ↦
          let h : HasData d = omega (arith, here) in
          inl (h, parse_body-encode d pairs body rest v h num some_body small plain p enc s)
    ]
