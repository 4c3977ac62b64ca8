-- ===== src/Server/Exceptions.antt =====
-- Which exceptions leave the handler of src/httpserver.cpp.
use lxc_http_server.Common.{
  ℕ, ◌≡◌, refl, true, false, List, [], ◌∷◌, Option, none, some, if◌then◌else◌, Outcome, ok, throws,
  fault, bad_iterator, blocks, out_of_fuel, ◌>>=◌, Exception, socket_closed, runtime_error,
  invalid_argument, out_of_range, bad_array_new_length, is_std_exception,
}
use lxc_http_server.Http.{Recv, http_data}
use lxc_http_server.Http.Parse.{parse_data}
use lxc_http_server.Timer.{
  Timer, Node, Iterator, at, end, find, has_node, remove_node, erase_node, deleted, delete_found,
  delete_fd,
}
use lxc_http_server.Responser.{Peer}
use lxc_http_server.Server.{World, Served, handle, httpserver}

-- No exception but those that `P` allows.
abbrev pub Throws {ℓ} : {A : Type ℓ} → (Exception → Type 0) → Outcome A → Type 0
Throws P (throws e) = P e
Throws P (ok x) = Unit
Throws P (fault k) = Unit
Throws P blocks = Unit
Throws P out_of_fuel = Unit

abbrev Never : Exception → Type 0
Never e = ⊥

abbrev Closed : Exception → Type 0
Closed e = e ≡ socket_closed

erase_node-Throws : (it : Iterator) (nodes : List Node) → Throws Never (erase_node it nodes)
unfolding erase_node
erase_node-Throws end nodes = tt
erase_node-Throws (at id) nodes =
    elim (has_node id nodes)
      as (λ b. Throws Never (if b then ok (remove_node id nodes) else fault bad_iterator)) [
        | true ↦ tt
        | false ↦ tt
      ]

delete_found-Throws :
    (found : Option Iterator) (t : Timer) (fd : ℕ) → Throws Never (delete_found found t fd)
unfolding delete_found
delete_found-Throws none t fd = tt
delete_found-Throws (some it) t fd =
    go (erase_node it t.time_list) (erase_node-Throws it t.time_list)
  where
    go :
        (r : Outcome (List Node))
        → Throws Never r
        → Throws Never (r >>= λ nodes. ok (deleted t fd nodes))
    go (ok nodes) h = tt
    go (throws e) h = h
    go (fault k) h = tt
    go blocks h = tt
    go out_of_fuel h = tt

deletes-Throws :
    (r : Outcome Timer)
    → Throws Never r
    → Throws {A = Served} Closed
        (r >>= λ t1. ok (record { peer = none; timer = t1; closed = true }))
deletes-Throws (ok u) h = tt
deletes-Throws (throws e) h = absurd h
deletes-Throws (fault k) h = tt
deletes-Throws blocks h = tt
deletes-Throws out_of_fuel h = tt

-- An exception of the standard library is caught.
caught :
    (t : Timer) (fd : ℕ) (e : Exception)
    → is_std_exception e ≡ true
    → Throws Closed (handle (throws e) t fd)
unfolding handle delete_fd
caught t fd e h =
    rw h (deletes-Throws (delete_fd t fd) (delete_found-Throws (find fd t.hash_map) t fd))

handle-Throws : (r : Outcome Served) (t : Timer) (fd : ℕ) → Throws Closed (handle r t fd)
unfolding handle is_std_exception delete_fd
handle-Throws (ok s) t fd = tt
handle-Throws (fault k) t fd = tt
handle-Throws blocks t fd = tt
handle-Throws out_of_fuel t fd = tt
handle-Throws (throws socket_closed) t fd = refl
handle-Throws (throws runtime_error) t fd = caught t fd runtime_error refl
handle-Throws (throws invalid_argument) t fd = caught t fd invalid_argument refl
handle-Throws (throws out_of_range) t fd = caught t fd out_of_range refl
handle-Throws (throws bad_array_new_length) t fd = caught t fd bad_array_new_length refl

handle-closed : (t : Timer) (fd : ℕ) → handle (throws socket_closed) t fd ≡ throws socket_closed
unfolding handle is_std_exception
handle-closed t fd = refl

-- No exception but `SocketClosed` ever leaves the handler, whatever the timer, the files, the CGI
-- programs and the results of `recv` and `send` are: every exception of the standard library is
-- caught. And when the peer has closed the connection before it sends a request, `SocketClosed` does
-- leave it.
pub httpserver-Throws :
    (w : World) (t : Timer) (fd : ℕ) (socket : List Recv) (p : Peer)
    → Throws (λ e. e ≡ socket_closed) (httpserver w t fd socket p)
      × (httpserver w t fd (some [] ∷ socket) p ≡ throws socket_closed)
unfolding httpserver parse_data http_data
httpserver-Throws w t fd socket p = (handle-Throws _ t fd, handle-closed t fd)
