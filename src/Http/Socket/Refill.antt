-- ===== src/Http/Socket/Refill.antt =====
-- Reading brings no more than what was pending, and never runs out of fuel.
use lxc_http_server.Common.{
  ℕ, ◌≤◌, ◌≡◌, List, [], ◌∷◌, none, some, length, length-append, arith, ltb, if◌then◌else◌, lt→ltb,
  ltb-false, ok, Ends,
}
use native.Mathlib.Decide.{dec_lt}
use lxc_http_server.Http.{Recv, HttpData}
use lxc_http_server.Http.Socket.{incoming, pending, receive, read_raw_data_from_socket}

abbrev pub Within : ℕ → HttpData → Type 0
Within n e = pending e ≤ n

receive-Ends : (rs : List Recv) (d : HttpData) → Ends (Within (length (incoming rs))) (receive rs d)
unfolding receive
receive-Ends [] d = tt
receive-Ends (none ∷ rs) d = tt
receive-Ends (some [] ∷ rs) d = tt
receive-Ends (some (c ∷ chunk) ∷ rs) d = omega (arith, length-append chunk (incoming rs))

pub read_raw-Ends :
    (d : HttpData) → Ends (Within (length (incoming d.socket))) (read_raw_data_from_socket d)
unfolding read_raw_data_from_socket
read_raw-Ends d = receive-Ends d.socket d

pub refill-Ends :
    (d : HttpData)
    → Ends
        (Within (pending d))
        (if ltb d.data_end_index d.read_index then read_raw_data_from_socket d else ok d)
refill-Ends d = elim (dec_lt d.data_end_index d.read_index) [
  | yes h ↦
      let n : pending d ≡ length (incoming d.socket) = omega arith in
      rw (n, lt→ltb _ _ h) (read_raw-Ends d)
  | no h ↦ rw (ltb-false d.data_end_index d.read_index (omega arith)) (omega arith)
]
