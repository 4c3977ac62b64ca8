-- ===== src/Responser/Reading.antt =====
-- The buffer through the loop of `read` in `executeCGI` of
-- src/Responser.cpp.
use native.Mathlib.Decide.{dec_le}
use lxc_http_server.Common.{
  ℕ, zero, suc, ◌+◌, ◌-◌, ◌<◌, ◌≤◌, ◌≡◌, refl, sym, ap, ◌∙◌, false, List, [], ◌∷◌, ◌++◌,
  append_assoc, append-nil, Bytes, Option, some, ◌==◌, length, length-append, map, take, drop,
  take_of_length-le, drop-append, replicate, arith, ok, fault, out_of_bounds,
}
use lxc_http_server.Http.Socket.{overwrite}
use lxc_http_server.Http.Strings.{elem}
use lxc_http_server.Http.Strings.Scan.{elem-append}
use lxc_http_server.Responser.{page_buffer_size, until_nul}
use lxc_http_server.Responser.Nul.{until_nul-array}
use lxc_http_server.Responser.Cgi.{read_loop}

-- The text, and the rest of an array that was all zeros.
abbrev pub padded : Bytes → Bytes
padded text = text ++ replicate (page_buffer_size - length text) 0

abbrev pub output : List Bytes → Bytes
output [] = []
output (chunk ∷ chunks) = chunk ++ output chunks

-- What `read` returns: each chunk, and the end.
abbrev pub reads : List Bytes → List (Option Bytes)
reads chunks = map some chunks ++ some [] ∷ []

-- A `read` of 0 bytes is the end; each chunk is text.
abbrev pub AllText : List Bytes → Type 0
AllText [] = Unit {0}
AllText (chunk ∷ chunks) = (0 < length chunk) × (elem 0 chunk ≡ false) × AllText chunks

zero_less : (k : ℕ) → k ≡ k - 0
zero_less k = omega arith

less_zero : (n : ℕ) → 0 ≡ 0 - suc n
less_zero n = omega arith

less_both : (n k : ℕ) → k - n ≡ suc k - suc n
less_both n k = omega arith

pub drop-replicate : (n k : ℕ) → drop {A = ℕ} n (replicate k 0) ≡ replicate (k - n) 0
drop-replicate zero k = ap (λ m. replicate m 0) (zero_less k)
drop-replicate (suc n) zero = ap (λ m. replicate m 0) (less_zero n)
drop-replicate (suc n) (suc k) = drop-replicate n k ∙ ap (λ m. replicate m 0) (less_both n k)

pub until_nul-padded :
    (text : Bytes)
    → elem 0 text ≡ false
    → length text < page_buffer_size
    → until_nul (padded text) ≡ ok text
until_nul-padded text h l =
    let room : page_buffer_size - length text ≡ suc (page_buffer_size - length text - 1) =
      omega (arith, l) in
    ap (λ k. until_nul (text ++ replicate k 0)) room
    ∙ until_nul-array text (replicate (page_buffer_size - length text - 1) 0) h

until_nul-full :
    (text : Bytes)
    → elem 0 text ≡ false
    → page_buffer_size ≤ length text
    → until_nul (padded text) ≡ fault out_of_bounds
unfolding until_nul
until_nul-full text h l =
    let full : page_buffer_size - length text ≡ 0 = omega (arith, l) in
    rw (full, append-nil text, h) refl

-- `read` puts its chunk behind the text.
put-padded :
    (text chunk : Bytes)
    → text ++ overwrite chunk (drop (length text) (padded text)) ≡ padded (text ++ chunk)
put-padded text chunk =
    let room = page_buffer_size - length text in
    let left : room - length chunk ≡ page_buffer_size - length (text ++ chunk) =
      omega (arith, length-append text chunk) in
    rw (drop-append text (replicate room 0), drop-replicate (length chunk) room, left)
      (sym (append_assoc text chunk _))

take-nonempty : (n : ℕ) (s : Bytes) → 0 < n → 0 < length s → 0 < length (take n s)
take-nonempty zero s h k = h
take-nonempty (suc n) [] h k = k
take-nonempty (suc n) (c ∷ s) h k = omega arith

length-take : (n : ℕ) (s : Bytes) → n ≤ length s → length (take n s) ≡ n
length-take zero s h = refl
length-take (suc n) [] h = absurd (omega arith)
length-take (suc n) (c ∷ s) h = ap suc (length-take n s (omega arith))

elem-take : (n : ℕ) (s : Bytes) → elem 0 s ≡ false → elem 0 (take n s) ≡ false
elem-take zero s h = refl
elem-take (suc n) [] h = refl
elem-take (suc n) (c ∷ s) h = ground (arith, elem-take n s)

pub both_text : (s t : Bytes) → elem 0 s ≡ false → elem 0 t ≡ false → elem 0 (s ++ t) ≡ false
both_text s t h k = elem-append 0 s t ∙ rw (h, k) refl

pub output_text : (chunks : List Bytes) → AllText chunks → elem 0 (output chunks) ≡ false
output_text [] a = refl
output_text (chunk ∷ chunks) (_, z, a) = both_text chunk (output chunks) z (output_text chunks a)

pub nonzero : (n : ℕ) → 0 < n → (n == 0) ≡ false
nonzero n h = ground arith

-- One `read` that is not the last.
read_loop-step :
    (text chunk : Bytes) (rest : List (Option Bytes))
    → elem 0 text ≡ false
    → length text < page_buffer_size
    → 0 < length chunk
    → read_loop (some chunk ∷ rest) (padded text)
      ≡ read_loop rest (padded (text ++ take (page_buffer_size - length text) chunk))
unfolding read_loop
read_loop-step text chunk rest h l k =
    let put = take (page_buffer_size - length text) chunk in
    rw
      (
        until_nul-padded text h l,
        nonzero (length put) (take-nonempty (page_buffer_size - length text) chunk (omega arith) k),
        put-padded text put,
      )
      refl

read_loop-full :
    (text : Bytes) (chunks : List Bytes)
    → elem 0 text ≡ false
    → page_buffer_size ≤ length text
    → read_loop (reads chunks) (padded text) ≡ fault out_of_bounds
unfolding read_loop
read_loop-full text [] h l = rw (until_nul-full text h l) refl
read_loop-full text (chunk ∷ chunks) h l = rw (until_nul-full text h l) refl

pub read_loop-output :
    (text : Bytes) (chunks : List Bytes)
    → elem 0 text ≡ false
    → AllText chunks
    → length text + length (output chunks) < page_buffer_size
    → read_loop (reads chunks) (padded text) ≡ ok (padded (text ++ output chunks))
unfolding read_loop
read_loop-output text [] h a l =
    rw
      (
        until_nul-padded text h (omega (arith, l)),
        take_of_length-le {A = ℕ} (page_buffer_size - length text) [] (omega arith),
        append-nil text,
      )
      refl
read_loop-output text (chunk ∷ chunks) h (n, z, a) l =
    let fits = length-append chunk (output chunks) in
    let whole = take_of_length-le (page_buffer_size - length text) chunk (omega (arith, fits, l)) in
    read_loop-step text chunk (reads chunks) h (omega (arith, l)) n
    ∙ rw (whole, sym (append_assoc text chunk (output chunks)))
        (read_loop-output (text ++ chunk) chunks (both_text text chunk h z) a
          (omega (arith, l, fits, length-append text chunk)))

-- A chunk that does not fit fills the array.
chunk-overflow :
    (text chunk : Bytes) (chunks : List Bytes)
    → elem 0 text ≡ false
    → elem 0 chunk ≡ false
    → page_buffer_size - length text ≤ length chunk
    → read_loop (reads chunks) (padded (text ++ take (page_buffer_size - length text) chunk))
      ≡ fault out_of_bounds
chunk-overflow text chunk chunks h z l =
    let room = page_buffer_size - length text in
    read_loop-full (text ++ take room chunk) chunks
      (both_text text (take room chunk) h (elem-take room chunk z))
      (omega (arith, length-append text (take room chunk), length-take room chunk l))

pub read_loop-overflow :
    (text : Bytes) (chunks : List Bytes)
    → elem 0 text ≡ false
    → AllText chunks
    → page_buffer_size ≤ length text + length (output chunks)
    → read_loop (reads chunks) (padded text) ≡ fault out_of_bounds
read_loop-overflow text [] h a l = read_loop-full text [] h (omega (arith, l))
read_loop-overflow text (chunk ∷ chunks) h (n, z, a) l =
    let fits = length-append chunk (output chunks) in
    elim (dec_le page_buffer_size (length text)) [
      | yes full ↦ read_loop-full text (chunk ∷ chunks) h full
      | no room ↦
          read_loop-step text chunk (reads chunks) h (omega (arith, room)) n
          ∙ elim (dec_le (page_buffer_size - length text) (length chunk)) [
            | yes over ↦ chunk-overflow text chunk chunks h z over
            | no within ↦
                rw
                  (take_of_length-le (page_buffer_size - length text) chunk (omega (arith, within)))
                  (read_loop-overflow (text ++ chunk) chunks (both_text text chunk h z) a
                    (omega (arith, l, fits, length-append text chunk)))
          ]
    ]
