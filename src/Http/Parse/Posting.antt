-- ===== src/Http/Parse/Posting.antt =====
-- `parseData` on whole requests with a body.
use lxc_http_server.Common.{
  ℕ, ◌+◌, ◌^◌, ◌<◌, ◌≡◌, refl, ap, ◌∙◌, ◌⊎◌, Bool, false, List, [], ◌∷◌, ◌++◌, Bytes, codes,
  append_assoc, length, crlf, Outcome, ok, pos, fault, uninitialised, ◌>>=◌,
}
use lxc_http_server.Http.{Recv, HttpData, http_data, post, Table}
use lxc_http_server.Http.Socket.{incoming}
use lxc_http_server.Http.Socket.Stream.{
  stream, IsSound, HasData, Fits, SameFields, SameFields-trans,
}
use lxc_http_server.Http.Strings.{elem, numeral_content_length}
use lxc_http_server.Http.Params.Values.{Plain, encode}
use lxc_http_server.Http.Start.{parse_start_line}
use lxc_http_server.Http.Start.Request.{is_post, started, Started, parse_start_line-Started}
use lxc_http_server.Http.Header.Lines.{
  Header, AllHeaders, encode_headers, store_headers, store_headers-SameFields, store_headers-method,
  parse_header-HeadersRead,
}
use lxc_http_server.Http.Header.{parse_header}
use lxc_http_server.Http.Body.{parse_body_param_data}
use lxc_http_server.Http.Body.Reading.{Posted, parse_body_param_data-encode}
use lxc_http_server.Http.Parse.{parse_data}
use lxc_http_server.Http.Parse.Request.{http_data-IsSound, IsHead, head}

-- `parseStartLine` and `parseHeader`: the head.
abbrev pub parse_head : HttpData → Outcome HttpData
parse_head d = do d1 ← parse_start_line d; parse_header d1

-- The head of a POST request has been read, and the parser goes on with the body.
HeadRead : HttpData → HttpData → Bytes → Outcome HttpData → Type 0
HeadRead d result rest r =
    (e : HttpData) × (parse_head d ≡ ok e)
    × (r ≡ parse_body_param_data e)
    × IsSound e
    × (stream e ≡ rest)
    × SameFields result e

parse_data-HeadRead :
    (d : HttpData) (t v : Bytes) (hs : List Header) (rest : Bytes)
    → AllHeaders hs
    → d.m_bad_request ≡ false
    → Started d post (codes "POST") t v (encode_headers hs ++ (crlf ++ rest)) (parse_start_line d)
    → HeadRead d (store_headers hs (started post (codes "POST") t v d)) rest (parse_data d)
unfolding parse_data HeadRead
parse_data-HeadRead d t v hs rest w b (e, r, sound, s, p, same) =
    let (e', r', sound', s', p', same') = parse_header-HeadersRead hs e rest sound p w s in
    let not_bad : e.m_bad_request ≡ false = ap (λ (x : HttpData). x.m_bad_request) same ∙ b in
    let is_post : e.request_method ≡ post = ap (λ (x : HttpData). x.request_method) same in
    let still_post : e'.request_method ≡ post =
      ap (λ (x : HttpData). x.request_method) same' ∙ store_headers-method hs e ∙ is_post in
    (
      e',
      rw r r',
      simp (r, not_bad, is_post, r', still_post),
      sound',
      s',
      SameFields-trans (store_headers hs (started post (codes "POST") t v d)) (store_headers hs e)
          e' (store_headers-SameFields hs _ _ same) same',
    )

numeral-SameFields :
    (d e : HttpData) → SameFields d e → numeral_content_length e ≡ numeral_content_length d
unfolding numeral_content_length
numeral-SameFields d e same =
    let c : e.content_length ≡ d.content_length = ap (λ (x : HttpData). x.content_length) same in
    rw c refl

-- The fields of a new parser on the socket when it has read the head.
abbrev pub with_head : ℕ → List Recv → Bool → Bytes → Bytes → List Header → HttpData
with_head fd socket left_over t v hs =
    store_headers hs (started post (codes "POST") t v (http_data fd socket left_over))

-- What is made of the body, from the state in which the parser `d` has read the head.
abbrev pub BodyTaken : HttpData → HttpData → Table → Bytes → Bytes → Outcome HttpData → Type 0
BodyTaken d result pairs body rest r =
    (h : HttpData) × (parse_head d ≡ ok h)
    × SameFields result h
    × (stream h ≡ body ++ rest)
    × ((HasData h × Posted h pairs rest r)
        ⊎ ((h.data_end_index < h.read_index) × (r ≡ fault uninitialised)))

-- Let the calls of `recv` give at most a buffer of bytes each, and all together a `POST` request line
-- of three words, header lines each with a `=`, an empty line, a body and a rest, where each line fits
-- the line buffer and holds no CRLF or NUL, the content length that the header lines store is read as
-- the length of the body, which is not empty, has no NUL and is two bytes below 2^31 at most, and the
-- body with `&` is a list of parameters written `key=value&` with no `=` or `&` in a key and no `&` in
-- a value. Then `parse_start_line` and `parse_header` on a new parser come to a state that has the
-- fields of the request line and the header lines, with the body and the rest unread, and there are
-- two cases for `parse_data` on the new parser. If the buffer of that state has some byte of the body,
-- it returns, has stored each key in order, every one with the empty value, and left exactly the rest
-- unread, however the bytes are cut. If that buffer is used up, it reads uninitialised memory.
pub parse_data-BodyTaken :
    (fd : ℕ) (socket : List Recv) (left_over : Bool) (t v : Bytes) (hs : List Header)
    (pairs : Table) (body rest : Bytes)
    → Fits socket
    → IsHead (codes "POST") t v hs
    → incoming socket ≡ head (codes "POST") t v hs ++ (body ++ rest)
    → numeral_content_length (with_head fd socket left_over t v hs) ≡ ok (pos (length body))
    → 0 < length body
    → length body + 2 < 2 ^ 31
    → elem 0 body ≡ false
    → Plain pairs
    → body ++ b'&' ∷ [] ≡ encode pairs
    → BodyTaken
        (http_data fd socket left_over)
        (with_head fd socket left_over t v hs)
        pairs
        body
        rest
        (parse_data (http_data fd socket left_over))
unfolding http_data HeadRead
parse_data-BodyTaken fd socket left_over t v hs pairs body rest f w e num some_body small plain p
      enc =
    let d = http_data fd socket left_over in
    let (h, read, r, sound, s, same) = parse_data-HeadRead d t v hs (body ++ rest) w.headers refl (
      parse_start_line-Started d t v (encode_headers hs ++ (crlf ++ (body ++ rest))) is_post
        w.target_word w.version_word (http_data-IsSound fd socket left_over f) refl refl w.line
        (e ∙ simp append_assoc)) in
    (
      h,
      read,
      same,
      s,
      rw r (
          parse_body_param_data-encode h pairs body rest sound (numeral-SameFields _ h same ∙ num)
            some_body small plain p enc s),
    )
