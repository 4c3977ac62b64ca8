-- ===== src/Responser/Length.antt =====
-- A number as `%d` of src/Responser.cpp prints it, read back as a content length by src/HttpData.cpp.
use lxc_http_server.Common.{
  ℕ, zero, suc, ◌+◌, ◌-◌, ◌/◌, ◌%◌, ◌^◌, ◌==◌, ◌≡◌, ◌<◌, refl, sym, List, Bool, ap, ◌∙◌, inl, inr,
  [], ◌∷◌, ◌++◌, some, Bytes, codes, length, take, drop-append, length-append, ltb, leb, true,
  Bool-cases, ok, pos, arith, ◌>>=◌,
}
use lxc_http_server.Http.{Recv, HttpData, http_data, get}
use lxc_http_server.Http.Socket.{incoming}
use lxc_http_server.Http.Socket.Stream.{Fits}
use lxc_http_server.Http.Start.Request.{started}
use lxc_http_server.Http.Header.{header_field, store_field, store_header}
use lxc_http_server.Http.Header.Lines.{Header, text, store_headers}
use lxc_http_server.Http.Parse.{parse_data}
use lxc_http_server.Http.Parse.Request.{IsHead, head, parse_data-Parsed}
use lxc_http_server.Http.Strings.{digits_value, substr, scan, stoi, numeral_content_length}
use lxc_http_server.Http.Strings.Numeral.{
  IsDigit, digits_value-digit, digits_value-nil, stoi-digits,
}
use lxc_http_server.Responser.{digits, percent_d}

shown-IsDigit : (n : ℕ) → IsDigit (b'0' + n % 10)
shown-IsDigit n = (omega arith, omega arith)

-- The digits of a number start with a digit.
digits-starts :
    (fuel n : ℕ) (acc : Bytes)
    → (c : ℕ) × (s : Bytes) × (digits (suc fuel) n acc ≡ c ∷ s) × IsDigit c
unfolding digits
digits-starts zero n acc = (b'0' + n % 10, acc, ground arith, shown-IsDigit n)
digits-starts (suc fuel) n acc = elim (Bool-cases (n / 10 == 0)) [
  | inl y ↦ (b'0' + n % 10, acc, rw y refl, shown-IsDigit n)
  | inr m ↦
      let (c, s, e, h) = digits-starts fuel (n / 10) ((b'0' + n % 10) ∷ acc) in (c, s, rw m e, h)
]

last_digit :
    (v n : ℕ) (acc : Bytes)
    → v ≡ n / 10
    → digits_value v ((b'0' + n % 10) ∷ acc) ≡ digits_value n acc
last_digit v n acc e =
    digits_value-digit v (b'0' + n % 10) acc (shown-IsDigit n)
    ∙ ap (λ k. digits_value k acc) (omega (arith, e))

-- They are read back as the number.
digits_value-digits :
    (fuel n : ℕ) (acc : Bytes)
    → n < 10 ^ suc fuel
    → digits_value 0 (digits (suc fuel) n acc) ≡ digits_value n acc
unfolding digits
digits_value-digits zero n acc h =
    let small : (n / 10 == 0) ≡ true = ground arith in rw small (last_digit 0 n acc (ground arith))
digits_value-digits (suc fuel) n acc h = elim (Bool-cases (n / 10 == 0)) [
  | inl y ↦ rw y (last_digit 0 n acc (ground arith))
  | inr m ↦ rw m (
      digits_value-digits fuel (n / 10) ((b'0' + n % 10) ∷ acc) (omega (arith, h))
      ∙ last_digit (n / 10) n acc refl)
]

percent_d-small : (n : ℕ) → n < 2 ^ 31 → percent_d n ≡ digits 10 n []
unfolding percent_d
percent_d-small n h =
    let same : n % 2 ^ 32 ≡ n = omega arith in
    let low : ltb n (2 ^ 31) ≡ true = ground arith in simp (same, low)

-- What is written for a number that fits an `int` is read as that number.
stoi-percent_d : (n : ℕ) → n < 2 ^ 31 → stoi (percent_d n) ≡ ok (pos n)
stoi-percent_d n small =
    let (c, s, e, h) = digits-starts 9 n [] in
    let value : digits_value 0 (c ∷ s) ≡ n =
      ap (digits_value 0) (sym e)
      ∙ digits_value-digits 9 n [] (omega (arith, small))
      ∙ digits_value-nil n in
    ap stoi (percent_d-small n small ∙ e)
    ∙ stoi-digits c s h (omega (arith, value, small))
    ∙ ap (λ k. ok (pos k)) value

take-length : (s : Bytes) → take (length s) s ≡ s
take-length [] = refl
take-length (c ∷ s) = ap (λ t. c ∷ t) (take-length s)

substr-tail :
    (head tail : Bytes)
    → substr (head ++ tail) (length head) (length (head ++ tail) - length head) ≡ ok tail
unfolding substr
substr-tail head tail =
    let size = length-append head tail in
    let inside : leb (length head) (length (head ++ tail)) ≡ true = ground (arith, size) in
    let count : length (head ++ tail) - length head ≡ length tail = omega (arith, size) in
    simp (inside, count, drop-append head tail, take-length tail)

-- The number stands behind the space.
numeral-line :
    (d : HttpData) (tail : Bytes)
    → d.content_length ≡ some (codes "Content-Length= " ++ tail)
    → numeral_content_length d ≡ stoi tail
unfolding numeral_content_length scan
numeral-line d tail h = rw h (ap (λ r. r >>= stoi) (substr-tail (codes "Content-Length= ") tail))

-- A header line that the parser takes for the content length, with the number as `%d` prints it.
abbrev pub length_line : ℕ → Header
length_line n = record { name = codes "Content-Length"; value = codes " " ++ percent_d n }

store_headers-last :
    (hs : List Header) (n : ℕ) (d : HttpData)
    → (store_headers (hs ++ length_line n ∷ []) d).content_length
      ≡ some (codes "Content-Length= " ++ percent_d n)
unfolding store_header header_field store_field
store_headers-last [] n d = refl
store_headers-last (h ∷ hs) n d = store_headers-last hs n (store_header h.name (text h) d)

-- When the calls of `recv` give at most a buffer of bytes each, and all together a `GET` request line
-- of three words, header lines each with a `=`, of which the last is `Content-Length= ` and a number
-- below 2^31 as `%d` of `header_contentLength` prints it, an empty line and anything after, where each
-- line fits the line buffer and holds no CRLF or NUL, then `parse_data` on a new parser returns, and
-- `numeralContentLength` of what it returns is the number.
pub numeral_content_length-parse_data :
    (fd : ℕ) (socket : List Recv) (left_over : Bool) (t v : Bytes) (hs : List Header) (n : ℕ)
    (rest : Bytes)
    → n < 2 ^ 31
    → Fits socket
    → IsHead (codes "GET") t v (hs ++ length_line n ∷ [])
    → incoming socket ≡ head (codes "GET") t v (hs ++ length_line n ∷ []) ++ rest
    → (d : HttpData) × (parse_data (http_data fd socket left_over) ≡ ok d)
      × (numeral_content_length d ≡ ok (pos n))
numeral_content_length-parse_data fd socket left_over t v hs n rest small f w e =
    let (d, r, sound, left, parts) =
      parse_data-Parsed fd socket left_over t v (hs ++ length_line n ∷ []) rest f w e in
    let same : d.content_length ≡ some (codes "Content-Length= " ++ percent_d n) =
      ap (λ (x : HttpData). x.content_length) parts
      ∙ store_headers-last hs n (started get (codes "GET") t v (http_data fd socket left_over)) in
    (d, r, numeral-line d (percent_d n) same ∙ stoi-percent_d n small)
