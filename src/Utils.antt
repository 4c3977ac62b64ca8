-- ===== src/Utils.antt =====
-- include/utils.h and src/utils.cpp: the index page that is loaded into memory, the greeting, and what
-- the functions on the epoll set ask of the kernel. `fileExist` is in Server.
pub mod Index
pub mod Prints
pub mod Epoll
mod Tests
use lxc_http_server.Common.{
  ℕ, zero, suc, ◌+◌, Bool, true, false, List, [], ◌∷◌, ◌++◌, Bytes, codes, crlf, length, drop, leb,
  ◌==◌, c_string, line_feed, if◌then◌else◌, Outcome, ok, fault, out_of_fuel, out_of_bounds,
  null_pointer, socket_closed, check, ◌>>=◌, ◌>>◌,
}
use lxc_http_server.Responser.{
  Peer, FileStatus, denied, missing, unopened, regular, send_or, until_nul,
}

-- `fgets` with room for `n` bytes and a NUL: the bytes read, the rest of the file, and whether the end
-- of the file was met, which is what `feof` tells.
unfoldable pub read_line : ℕ → Bytes → Bytes × (Bytes × Bool)
read_line zero text = ([], (text, false))
read_line (suc n) [] = ([], ([], true))
read_line (suc n) (c ∷ text) =
    let (line, rest) = read_line n text in
    if c == line_feed then (c ∷ [], (text, false)) else (c ∷ line, rest)

-- `strcat` on an array: behind its first NUL.
unfoldable pub str_cat : Bytes → Bytes → Outcome Bytes
unfolding until_nul
str_cat dest src = do
  start ← until_nul dest
  let text = start ++ (c_string src ++ 0 ∷ [])
  check (leb (length text) (length dest)) out_of_bounds
  ok (text ++ drop (length text) dest)

-- The loop, behind a call of `fgets`.
unfoldable pub load_loop : ℕ → Bytes × (Bytes × Bool) → Bytes → Outcome Bytes
unfolding read_line str_cat
load_loop zero r memory = out_of_fuel
load_loop (suc fuel) (line, (rest, true)) memory = ok memory
load_loop (suc fuel) (line, (rest, false)) memory = do
  memory1 ← str_cat memory line
  load_loop fuel (read_line 255 rest) memory1

-- `loadIndexTomemory`, with what the array of the file's size and one more held when it was allocated. A
-- file that does not open is a null pointer.
unfoldable pub load_index_tomemory : FileStatus → Bytes → Outcome Bytes
unfolding load_loop
load_index_tomemory denied memory = fault null_pointer
load_index_tomemory missing memory = fault null_pointer
load_index_tomemory (unopened size) memory = fault null_pointer
load_index_tomemory (regular content) memory =
    load_loop (length content + 2) (read_line 255 content) memory

unfoldable pub send_hello : Peer → Outcome Peer
unfolding send_or
send_hello p = do
  p1 ← send_or socket_closed (codes "HTTP/1.1 200 OK" ++ crlf) p
  p2 ← send_or socket_closed (codes "Content-type: text/html" ++ crlf) p1
  p3 ← send_or socket_closed crlf p2
  send_or socket_closed (codes "<P>Hello!" ++ crlf) p3
