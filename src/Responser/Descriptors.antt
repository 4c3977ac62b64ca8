-- ===== src/Responser/Descriptors.antt =====
-- The descriptors of the server that `executeCGI` of src/Responser.cpp opens and closes. The kernel's
-- `pipe` is a parameter: from the descriptors that are open, -1 or two new ones.
use lxc_http_server.Common.{
  ℕ, ◌+◌, ◌*◌, ◌≤◌, ◌≡◌, refl, ap, Bool, Bool-cases, inl, inr, true, false, List, [], ◌∷◌, Option,
  none, some, length, ◌==◌, if◌then◌else◌, arith,
}
use lxc_http_server.Http.{HttpData}
use lxc_http_server.Http.Strings.{elem}
use lxc_http_server.Http.Parse.{get_param_count}

abbrev pub Pipe : Type 0
Pipe = List ℕ → Option (ℕ × ℕ)

-- `close`
unfoldable pub close_descriptor : ℕ → List ℕ → List ℕ
close_descriptor fd [] = []
close_descriptor fd (x ∷ xs) =
    let rest = close_descriptor fd xs in if x == fd then rest else x ∷ rest

-- Whether the program was started, and the descriptors that are open at the end, by whatever way the
-- call ends.
pub record Ended : Type 0 where
  pub was_started : Bool
  pub descriptors : List ℕ

-- From `fork` on; the pipes' reading ends stand first.
fork_cgi : Bool → (ℕ × ℕ) → (ℕ × ℕ) → List ℕ → Ended
unfolding close_descriptor
fork_cgi false cgi_input cgi_output open_fds = record {
  was_started = false;
  descriptors = open_fds;
}
fork_cgi true (i0, i1) (o0, o1) open_fds = record {
  was_started = true;
  descriptors = close_descriptor i0 (close_descriptor o1 open_fds);
}

output_pipe : Bool → (ℕ × ℕ) → Option (ℕ × ℕ) → List ℕ → Ended
unfolding fork_cgi
output_pipe forks cgi_input none open_fds = record { was_started = false; descriptors = open_fds }
output_pipe forks cgi_input (some (o0, o1)) open_fds =
    fork_cgi forks cgi_input (o0, o1) (o0 ∷ o1 ∷ open_fds)

input_pipe : Pipe → Bool → Option (ℕ × ℕ) → List ℕ → Ended
unfolding output_pipe
input_pipe pipe forks none open_fds = record { was_started = false; descriptors = open_fds }
input_pipe pipe forks (some (i0, i1)) open_fds =
    output_pipe forks (i0, i1) (pipe (i0 ∷ i1 ∷ open_fds)) (i0 ∷ i1 ∷ open_fds)

-- `true` is one.
abbrev count : Bool → ℕ
count true = 1
count false = 0

-- `forks`: whether `fork` makes the process.
unfoldable pub cgi_descriptors : Pipe → HttpData → Bool → List ℕ → Ended
unfolding input_pipe get_param_count
cgi_descriptors pipe d forks open_fds =
    if get_param_count d == 0
    then record { was_started = false; descriptors = open_fds }
    else input_pipe pipe forks (pipe open_fds) open_fds

-- One request after the other; how many programs were started.
unfoldable pub cgi_requests : Pipe → List (HttpData × Bool) → List ℕ → ℕ × List ℕ
unfolding cgi_descriptors
cgi_requests pipe [] open_fds = (0, open_fds)
cgi_requests pipe ((d, forks) ∷ rest) open_fds =
    let e = cgi_descriptors pipe d forks open_fds in
    let (n, last) = cgi_requests pipe rest e.descriptors in (count e.was_started + n, last)

-- `isClose` and the descriptor of a `Responser`.
pub record Connection : Type 0 where
  pub client_socket : ℕ
  pub is_close : Bool

abbrev pub connection : HttpData → Connection
connection d = record { client_socket = d.client_socket; is_close = false }

unfoldable pub close_peer_connection : Connection → List ℕ → Connection × List ℕ
unfolding close_descriptor
close_peer_connection c open_fds =
    if c.is_close
    then (c, open_fds)
    else (record c { is_close = true }, close_descriptor c.client_socket open_fds)

-- A second call closes nothing, whatever has been opened since.
close_peer_connection-once :
    (c : Connection) (open_fds later : List ℕ)
    → (close_peer_connection (close_peer_connection c open_fds).0 later).1 ≡ later
unfolding close_peer_connection
close_peer_connection-once c open_fds later = ground arith

-- A `pipe` gives two descriptors that are not open, and fails where there would be more than `limit`.
pub record IsPipe (pipe : Pipe) (limit : ℕ) : Type 0 where
  pub fresh :
      (open_fds : List ℕ) (a b : ℕ)
      → pipe open_fds ≡ some (a, b)
      → (elem a (b ∷ open_fds) ≡ false) × (elem b open_fds ≡ false)
  pub limited :
      (open_fds : List ℕ) (a b : ℕ)
      → pipe open_fds ≡ some (a, b)
      → length (a ∷ b ∷ open_fds) ≤ limit

close_descriptor-absent : (fd : ℕ) (xs : List ℕ) → elem fd xs ≡ false → close_descriptor fd xs ≡ xs
unfolding close_descriptor
close_descriptor-absent fd [] h = refl
close_descriptor-absent fd (x ∷ xs) h = ground (arith, close_descriptor-absent fd xs)

-- What a process that has been forked leaves behind.
forked_leak :
    (i0 i1 o0 o1 : ℕ) (open_fds : List ℕ)
    → elem i0 (i1 ∷ open_fds) ≡ false
    → elem i1 open_fds ≡ false
    → elem o0 (o1 ∷ i0 ∷ i1 ∷ open_fds) ≡ false
    → elem o1 (i0 ∷ i1 ∷ open_fds) ≡ false
    → close_descriptor i0 (close_descriptor o1 (o0 ∷ o1 ∷ i0 ∷ i1 ∷ open_fds)) ≡ o0 ∷ i1 ∷ open_fds
unfolding close_descriptor
forked_leak i0 i1 o0 o1 open_fds h k u v =
    ground (arith, close_descriptor-absent i0 open_fds, close_descriptor-absent o1 open_fds)

-- What a call leaves open: at least two more where a program was started.
record Leaks (limit : ℕ) (open_fds : List ℕ) (e : Ended) : Type 0 where
  grows : 2 * count e.was_started + length open_fds ≤ length e.descriptors
  within : length e.descriptors ≤ limit

module _ (pipe : Pipe) (limit : ℕ) (kernel : IsPipe pipe limit) where
  output_pipe-Leaks :
      (forks : Bool) (i0 i1 : ℕ) (found : Option (ℕ × ℕ)) (open_fds : List ℕ)
      → pipe (i0 ∷ i1 ∷ open_fds) ≡ found
      → pipe open_fds ≡ some (i0, i1)
      → Leaks limit open_fds (output_pipe forks (i0, i1) found (i0 ∷ i1 ∷ open_fds))
  unfolding output_pipe fork_cgi
  output_pipe-Leaks forks i0 i1 none open_fds e h = record {
    grows = omega arith;
    within = kernel.limited open_fds i0 i1 h;
  }
  output_pipe-Leaks false i0 i1 (some (o0, o1)) open_fds e h = record {
    grows = omega arith;
    within = kernel.limited _ o0 o1 e;
  }
  output_pipe-Leaks true i0 i1 (some (o0, o1)) open_fds e h =
      let (a, b) = kernel.fresh open_fds i0 i1 h in
      let (c, d) = kernel.fresh _ o0 o1 e in
      let left = ap length (forked_leak i0 i1 o0 o1 open_fds a b c d) in
      record {
        grows = omega (arith, left);
        within = omega (arith, left, kernel.limited open_fds i0 i1 h);
      }

  input_pipe-Leaks :
      (forks : Bool) (found : Option (ℕ × ℕ)) (open_fds : List ℕ)
      → pipe open_fds ≡ found
      → length open_fds ≤ limit
      → Leaks limit open_fds (input_pipe pipe forks found open_fds)
  unfolding input_pipe
  input_pipe-Leaks forks none open_fds e h = record { grows = omega arith; within = h }
  input_pipe-Leaks forks (some (i0, i1)) open_fds e h =
      output_pipe-Leaks forks i0 i1 (pipe (i0 ∷ i1 ∷ open_fds)) open_fds refl e

  cgi_descriptors-Leaks :
      (d : HttpData) (forks : Bool) (open_fds : List ℕ)
      → length open_fds ≤ limit
      → Leaks limit open_fds (cgi_descriptors pipe d forks open_fds)
  unfolding cgi_descriptors
  cgi_descriptors-Leaks d forks open_fds h = elim (Bool-cases (get_param_count d == 0)) [
    | inl no_params ↦ rw no_params (record { grows = omega arith; within = h })
    | inr some_params ↦ rw some_params (input_pipe-Leaks forks (pipe open_fds) open_fds refl h)
  ]

-- Where `pipe` gives new descriptors and fails where more than a limit would be open, and no more are
-- open at first: after any sequence of calls of `executeCGI` at least two more descriptors are open
-- for every program that was started, and never more than the limit, so that no sequence starts more
-- programs than half of the descriptors that were free.
pub cgi_requests-bounded :
    (pipe : Pipe) (limit : ℕ) (requests : List (HttpData × Bool)) (open_fds : List ℕ)
    → IsPipe pipe limit
    → length open_fds ≤ limit
    → (2 * (cgi_requests pipe requests open_fds).0 + length open_fds
        ≤ length (cgi_requests pipe requests open_fds).1)
      × (length (cgi_requests pipe requests open_fds).1 ≤ limit)
unfolding cgi_requests
cgi_requests-bounded pipe limit [] open_fds k h = (omega arith, h)
cgi_requests-bounded pipe limit ((d, forks) ∷ rest) open_fds k h =
    let e = cgi_descriptors pipe d forks open_fds in
    let l = cgi_descriptors-Leaks pipe limit k d forks open_fds h in
    let (grows, within) = cgi_requests-bounded pipe limit rest e.descriptors k l.within in
    (omega (arith, l.grows, grows), within)
