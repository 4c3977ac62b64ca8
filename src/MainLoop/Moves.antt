-- ===== src/MainLoop/Moves.antt =====
-- Rules for the moves of the system: a property of every system that they come to.
use lxc_http_server.Common.{
  ℕ, Bool, true, false, List, [], ◌∷◌, if◌then◌else◌, Outcome, ok, throws, fault, blocks,
  out_of_fuel, ◌>>=◌,
}
use lxc_http_server.Http.{Recv}
use lxc_http_server.Timer.{Timer}
use lxc_http_server.ThreadPool.{
  Phase, loop_test, locks, tests_empty, tests_running, to_wait, waits, tests_return, takes, works,
  finished, ThreadPool, goto, worker,
}
use lxc_http_server.Responser.{Peer}
use lxc_http_server.Server.{World, httpserver}
use lxc_http_server.MainLoop.{System, pool_step, serve, Move, move, run_moves}

-- Of a system that it comes to, that `P` holds.
abbrev pub Comes : (System → Type 0) → Outcome System → Type 0
Comes P (ok s) = P s
Comes P (throws e) = Unit
Comes P (fault k) = Unit
Comes P blocks = Unit
Comes P out_of_fuel = Unit

pub Comes-bind :
    (P Q : System → Type 0) (r : Outcome System) (k : System → Outcome System)
    → Comes P r
    → ((s : System) → P s → Comes Q (k s))
    → Comes Q (r >>= k)
Comes-bind P Q (ok s) k h f = f s h
Comes-bind P Q (throws e) k h f = tt
Comes-bind P Q (fault e) k h f = tt
Comes-bind P Q blocks k h f = tt
Comes-bind P Q out_of_fuel k h f = tt

pub Comes-mono :
    (P Q : System → Type 0) (r : Outcome System)
    → Comes P r
    → ((s : System) → P s → Q s)
    → Comes Q r
Comes-mono P Q (ok s) h f = f s h
Comes-mono P Q (throws e) h f = tt
Comes-mono P Q (fault e) h f = tt
Comes-mono P Q blocks h f = tt
Comes-mono P Q out_of_fuel h f = tt

pub Comes-if :
    (P : System → Type 0) (b : Bool) (r s : Outcome System)
    → Comes P r
    → Comes P s
    → Comes P (if b then r else s)
Comes-if P true r s h k = h
Comes-if P false r s h k = k

-- An invariant that every move keeps holds after every sequence of moves.
pub run_moves-Comes :
    (P : System → Type 0)
    → ((m : Move) (s : System) → P s → Comes P (move m s))
    → (ms : List Move) (s : System) → P s
    → Comes P (run_moves ms s)
unfolding run_moves
run_moves-Comes P keep [] s h = h
run_moves-Comes P keep (m ∷ ms) s h =
    Comes-bind P P (move m s) (run_moves ms) (keep m s h) (λ s1 h1. run_moves-Comes P keep ms s1 h1)

-- What holds whatever the call returns.
pub Comes-from {ℓ} :
    {A : Type ℓ} (P : System → Type 0) (r : Outcome A) (k : A → Outcome System)
    → ((a : A) → Comes P (k a))
    → Comes P (r >>= k)
Comes-from P (ok a) k h = h a
Comes-from P (throws e) k h = tt
Comes-from P (fault f) k h = tt
Comes-from P blocks k h = tt
Comes-from P out_of_fuel k h = tt

-- A thread of the pool changes the pool alone.
pub pool_step-Comes :
    (P : System → Type 0) (x : Phase) (i : ℕ) (s : System)
    → ((p : ThreadPool) → P (record s { pool = p }))
    → Comes P (pool_step x i s)
unfolding pool_step
pool_step-Comes P (works t) i s h = tt
pool_step-Comes P loop_test i s h = Comes-from P (worker loop_test i s.pool) _ h
pool_step-Comes P locks i s h = Comes-from P (worker locks i s.pool) _ h
pool_step-Comes P tests_empty i s h = Comes-from P (worker tests_empty i s.pool) _ h
pool_step-Comes P tests_running i s h = Comes-from P (worker tests_running i s.pool) _ h
pool_step-Comes P to_wait i s h = Comes-from P (worker to_wait i s.pool) _ h
pool_step-Comes P waits i s h = Comes-from P (worker waits i s.pool) _ h
pool_step-Comes P tests_return i s h = Comes-from P (worker tests_return i s.pool) _ h
pool_step-Comes P takes i s h = Comes-from P (worker takes i s.pool) _ h
pool_step-Comes P finished i s h = Comes-from P (worker finished i s.pool) _ h

-- The handler changes the timer, and its thread.
pub serve-Comes :
    (P : System → Type 0) (x : Phase) (i : ℕ) (w : World) (socket : List Recv) (p : Peer)
    (s : System)
    → ((t : Timer) (pool : ThreadPool) → P (record s { timer = t; pool = pool }))
    → Comes P (serve x i w socket p s)
unfolding serve
serve-Comes P (works t) i w socket p s h =
    Comes-from P (httpserver w s.timer t.clientfd socket p) _
      (λ served. h served.timer (goto loop_test i s.pool))
serve-Comes P loop_test i w socket p s h = tt
serve-Comes P locks i w socket p s h = tt
serve-Comes P tests_empty i w socket p s h = tt
serve-Comes P tests_running i w socket p s h = tt
serve-Comes P to_wait i w socket p s h = tt
serve-Comes P waits i w socket p s h = tt
serve-Comes P tests_return i w socket p s h = tt
serve-Comes P takes i w socket p s h = tt
serve-Comes P finished i w socket p s h = tt
