-- ===== src/Responser/Binary.antt =====
-- What is sent for a file that is not text: the binary branch of `serverStaticFile` of src/Responser.cpp.
use mathlib.Core.Path.{subst}
use lxc_http_server.Common.{
  ℕ, zero, suc, ◌+◌, ◌≤◌, ◌<◌, ◌≡◌, refl, ap, ◌∙◌, false, List, [], ◌∷◌, ◌++◌, append_assoc,
  append-nil, Bytes, codes, length, length-append, take, drop, take_of_length-le, drop_of_length-le,
  drop-append, take-append, text_eq, arith, ok, socket_closed,
}
use lxc_http_server.Http.{HttpData}
use lxc_http_server.Http.Socket.{overwrite}
use lxc_http_server.Http.Strings.{elem}
use lxc_http_server.Responser.{
  Peer, page_buffer_size, until_nul, binary_loop, static_head, server_static_file,
  send_static_file_to_client, regular,
}
use lxc_http_server.Responser.Nul.{until_nul-array}
use lxc_http_server.Responser.Static.{send_or-all}

-- A piece of the file: what stands in front of its first NUL, and behind.
pub record Piece : Type 0 where
  pub front : Bytes
  pub behind : Bytes

abbrev pub bytes_of : Piece → Bytes
bytes_of c = c.front ++ 0 ∷ c.behind

abbrev pub joined : List Piece → Bytes
joined [] = []
joined (c ∷ cs) = bytes_of c ++ joined cs

abbrev pub fronts : List Piece → Bytes
fronts [] = []
fronts (c ∷ cs) = c.front ++ fronts cs

-- The file as `fread` cuts it, where each piece has a NUL.
abbrev pub AllCut : List Piece → Type 0
AllCut [] = Unit {0}
AllCut (c ∷ []) = (elem 0 c.front ≡ false) × (length (bytes_of c) ≤ page_buffer_size)
AllCut (c ∷ d ∷ cs) =
    (elem 0 c.front ≡ false) × (length (bytes_of c) ≡ page_buffer_size) × AllCut (d ∷ cs)

-- What `fread` takes, and leaves.
take_piece :
    (c : Piece) (cs : List Piece)
    → AllCut (c ∷ cs)
    → take page_buffer_size (joined (c ∷ cs)) ≡ bytes_of c
take_piece c [] h =
    rw (append-nil (bytes_of c)) (take_of_length-le page_buffer_size (bytes_of c) h.1)
take_piece c (d ∷ cs) h =
    subst (λ n. take n (bytes_of c ++ joined (d ∷ cs)) ≡ bytes_of c) h.1
      (take-append (bytes_of c) (joined (d ∷ cs)))

drop_piece :
    (c : Piece) (cs : List Piece)
    → AllCut (c ∷ cs)
    → drop page_buffer_size (joined (c ∷ cs)) ≡ joined cs
drop_piece c [] h =
    rw (append-nil (bytes_of c)) (drop_of_length-le page_buffer_size (bytes_of c) h.1)
drop_piece c (d ∷ cs) h =
    subst (λ n. drop n (bytes_of c ++ joined (d ∷ cs)) ≡ joined (d ∷ cs)) h.1
      (drop-append (bytes_of c) (joined (d ∷ cs)))

AllCut-plain : (c : Piece) (cs : List Piece) → AllCut (c ∷ cs) → elem 0 c.front ≡ false
AllCut-plain c [] h = h.0
AllCut-plain c (d ∷ cs) h = h.0

AllCut-rest : (c : Piece) (cs : List Piece) → AllCut (c ∷ cs) → AllCut cs
AllCut-rest c [] h = tt
AllCut-rest c (d ∷ cs) h = h.2

-- The bytes behind a piece in the array, and what stood there before, are not sent.
read_piece :
    (c : Piece) (buf : Bytes)
    → elem 0 c.front ≡ false
    → until_nul (overwrite (bytes_of c) buf) ≡ ok c.front
read_piece c buf h =
    ap until_nul (append_assoc c.front (0 ∷ c.behind) _)
    ∙ until_nul-array c.front (c.behind ++ drop (length (bytes_of c)) buf) h

-- A file that is not empty.
loop_round :
    (fuel : ℕ) (content buf front : Bytes) (p : Peer)
    → 0 < length content
    → until_nul (overwrite (take page_buffer_size content) buf) ≡ ok front
    → p.results ≡ []
    → binary_loop (suc fuel) content buf p
      ≡ binary_loop fuel
          (drop page_buffer_size content)
          (overwrite (take page_buffer_size content) buf)
          (record p { sent = p.sent ++ front })
unfolding binary_loop
loop_round fuel [] buf front p h e r = absurd (omega (arith, h))
loop_round fuel (x ∷ content) buf front p h e r = rw (e, send_or-all socket_closed front p r) refl

joined-longer : (c : Piece) (cs : List Piece) → length (joined cs) < length (joined (c ∷ cs))
joined-longer c cs =
    omega (arith, length-append (bytes_of c) (joined cs), length-append c.front (0 ∷ c.behind))

binary_loop-fronts :
    (cs : List Piece) (fuel : ℕ) (buf : Bytes) (p : Peer)
    → AllCut cs
    → p.results ≡ []
    → length (joined cs) < fuel
    → binary_loop fuel (joined cs) buf p ≡ ok (record p { sent = p.sent ++ fronts cs })
unfolding binary_loop
binary_loop-fronts [] zero buf p h r f = absurd (omega (arith, f))
binary_loop-fronts [] (suc fuel) buf p h r f = rw (append-nil p.sent) refl
binary_loop-fronts (c ∷ cs) zero buf p h r f = absurd (omega (arith, f))
binary_loop-fronts (c ∷ cs) (suc fuel) buf p h r f =
    let l = joined-longer c cs in
    let cut = take_piece c cs h in
    let sent1 : Peer = record p { sent = p.sent ++ c.front } in
    let ih =
      binary_loop-fronts cs fuel (overwrite (bytes_of c) buf) sent1 (AllCut-rest c cs h) r
        (omega (arith, l, f)) in
    loop_round fuel (joined (c ∷ cs)) buf c.front p (omega (arith, l))
      (rw cut (read_piece c buf (AllCut-plain c cs h))) r
    ∙ rw (cut, drop_piece c cs h)
        (ih ∙ ap (λ t. ok (record p { sent = t })) (append_assoc p.sent c.front (fronts cs)))

-- Of a file that is not of type `html` and that is cut into blocks of 2048 bytes, the last at most as
-- long, each with a NUL, `send_static_file_to_client` sends a peer that takes everything the head,
-- which announces the length of the whole file, and of each block only what stands in front of its
-- first NUL.
pub send_static-fronts :
    (d : HttpData) (cs : List Piece) (buf : Bytes) (p : Peer)
    → text_eq d.url_resource_type (codes "html") ≡ false
    → AllCut cs
    → p.results ≡ []
    → send_static_file_to_client (regular (joined cs)) d buf p
      ≡ ok (record p { sent = p.sent ++ (static_head d (length (joined cs)) ++ fronts cs) })
unfolding send_static_file_to_client server_static_file
send_static-fronts d cs buf p html h r =
    let head = static_head d (length (joined cs)) in
    let sent1 : Peer = record p { sent = p.sent ++ head } in
    rw (send_or-all socket_closed head p r, html)
      (binary_loop-fronts cs (length (joined cs) + 1) buf sent1 h r (omega arith)
        ∙ ap (λ t. ok (record p { sent = t })) (append_assoc p.sent head (fronts cs)))
