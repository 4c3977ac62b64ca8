-- ===== src/MainLoop/Invariant.antt =====
-- The invariant of the timer and the pool in the system of src/httpserver.cpp.
use lxc_http_server.Common.{
  ℕ, List, [], ◌∷◌, ◌++◌, Outcome, ok, throws, fault, blocks, out_of_fuel, ◌>>=◌, Ends,
}
use lxc_http_server.Http.{Recv}
use lxc_http_server.Timer.{Timer, forbiden_fd, delete_expired_fd}
use lxc_http_server.Timer.Links.{IsLinked, timer-IsLinked, forbiden_fd-Guarded}
use lxc_http_server.Timer.Histories.{Guarded-Ends, delete_expired_fd-IsLinked}
use lxc_http_server.ThreadPool.{
  Phase, loop_test, locks, tests_empty, tests_running, to_wait, waits, tests_return, takes, works,
  finished, ThreadPool, goto, wake, worker, append_fd,
}
use lxc_http_server.ThreadPool.Invariant.{Sound, Safe, At-wake, goto-Safe}
use lxc_http_server.ThreadPool.Schedules.{worker-Safe, append_fd-Safe, thread_pool-Safe}
use lxc_http_server.Responser.{Peer}
use lxc_http_server.Server.{World, Served, httpserver}
use lxc_http_server.Server.Linked.{KeepsLinks, httpserver-KeepsLinks}
use lxc_http_server.MainLoop.{
  timeout, Statement, queues, forbids, reads, expires, arms, Event, System, system, task,
  queue_task, read_signals, statement, main_next, waits_epoll, pool_step, serve, Move, epoll,
  main_runs, thread_runs, serves, wakes, ticks, move, run_moves,
}
use lxc_http_server.MainLoop.Moves.{Comes, Comes-if, run_moves-Comes}

-- Good iterators, threads that stand where they may, and every task that was asked for either taken
-- or waiting.
pub record Good (s : System) : Type 0 where
  pub linked : IsLinked s.timer
  pub safe : Safe s.asked s.pool

from_pool :
    (P : ThreadPool → Type 0) (r : Outcome ThreadPool) (k : ThreadPool → Outcome System)
    → Sound P r
    → ((p : ThreadPool) → P p → Comes Good (k p))
    → Comes Good (r >>= k)
from_pool P (ok p) k h f = f p h
from_pool P blocks k h f = tt
from_pool P (throws e) k h f = absurd h
from_pool P (fault e) k h f = absurd h
from_pool P out_of_fuel k h f = absurd h

from_timer :
    (r : Outcome Timer) (s : System)
    → Ends IsLinked r
    → Good s
    → Comes Good (r >>= λ t. ok (record s { timer = t }))
from_timer (ok t) s h v = record { linked = h; safe = v.safe }
from_timer (throws e) s h v = tt
from_timer (fault k) s h v = tt
from_timer blocks s h v = tt
from_timer out_of_fuel s h v = tt

read_signals-Good : (pipe : List ℕ) (s : System) → Good s → Comes Good (read_signals pipe s)
unfolding read_signals
read_signals-Good [] s v = tt
read_signals-Good (b ∷ rest) s v = record { linked = v.linked; safe = v.safe }

statement-Good : (st : Statement) (now : ℕ) (s : System) → Good s → Comes Good (statement st now s)
unfolding statement queue_task
statement-Good (queues fd) now s v =
    from_pool (Safe (s.asked ++ task fd ∷ [])) (append_fd s.pool.mutex (task fd) s.pool) _
      (append_fd-Safe s.asked (task fd) s.pool v.safe)
      (λ p h. record { linked = v.linked; safe = h })
statement-Good (forbids fd) now s v =
    from_timer (forbiden_fd s.timer fd) s
      (Guarded-Ends s.timer fd _ (forbiden_fd-Guarded s.timer fd v.linked)) v
statement-Good reads now s v = read_signals-Good s.signals s v
statement-Good expires now s v =
    from_timer (delete_expired_fd s.timer now) s (delete_expired_fd-IsLinked s.timer now v.linked) v
statement-Good arms now s v = record { linked = v.linked; safe = v.safe }

main_next-Good :
    (todo : List Statement) (now : ℕ) (s : System) → Good s → Comes Good (main_next todo now s)
unfolding main_next
main_next-Good [] now s v = tt
main_next-Good (st ∷ rest) now s v =
    statement-Good st now (record s { todo = rest }) (record { linked = v.linked; safe = v.safe })

waits_epoll-Good :
    (todo : List Statement) (es : List Event) (s : System)
    → Good s
    → Comes Good (waits_epoll todo es s)
unfolding waits_epoll
waits_epoll-Good [] es s v = record { linked = v.linked; safe = v.safe }
waits_epoll-Good (st ∷ rest) es s v = tt

worker-Good :
    (i : ℕ) (s : System)
    → Good s
    → Comes Good (worker (s.pool.threads i) i s.pool >>= λ p. ok (record s { pool = p }))
worker-Good i s v =
    from_pool (Safe s.asked) (worker (s.pool.threads i) i s.pool) _
      (worker-Safe s.asked i (s.pool.threads i) s.pool v.safe (v.safe.stands i))
      (λ p h. record { linked = v.linked; safe = h })

unless_works :
    (x : Phase) (i : ℕ) (s : System)
    → Comes Good (worker x i s.pool >>= λ p. ok (record s { pool = p }))
    → Comes Good (pool_step x i s)
unfolding pool_step
unless_works (works t) i s h = tt
unless_works loop_test i s h = h
unless_works locks i s h = h
unless_works tests_empty i s h = h
unless_works tests_running i s h = h
unless_works to_wait i s h = h
unless_works waits i s h = h
unless_works tests_return i s h = h
unless_works takes i s h = h
unless_works finished i s h = h

served-Good :
    (r : Outcome Served) (i : ℕ) (s : System)
    → KeepsLinks r
    → Good s
    → Comes Good
        (r >>= λ served. ok (record s { timer = served.timer; pool = goto loop_test i s.pool }))
served-Good (ok served) i s h v = record {
  linked = h;
  safe = goto-Safe s.asked i loop_test s.pool v.safe tt;
}
served-Good (throws e) i s h v = tt
served-Good (fault k) i s h v = tt
served-Good blocks i s h v = tt
served-Good out_of_fuel i s h v = tt

serve-Good :
    (x : Phase) (i : ℕ) (w : World) (socket : List Recv) (p : Peer) (s : System)
    → Good s
    → Comes Good (serve x i w socket p s)
unfolding serve
serve-Good (works t) i w socket p s v =
    served-Good (httpserver w s.timer t.clientfd socket p) i s
      (httpserver-KeepsLinks w s.timer t.clientfd socket p v.linked) v
serve-Good loop_test i w socket p s v = tt
serve-Good locks i w socket p s v = tt
serve-Good tests_empty i w socket p s v = tt
serve-Good tests_running i w socket p s v = tt
serve-Good to_wait i w socket p s v = tt
serve-Good waits i w socket p s v = tt
serve-Good tests_return i w socket p s v = tt
serve-Good takes i w socket p s v = tt
serve-Good finished i w socket p s v = tt

move-Good : (m : Move) (s : System) → Good s → Comes Good (move m s)
unfolding move
move-Good (epoll es) s v = waits_epoll-Good s.todo es s v
move-Good (main_runs now) s v = main_next-Good s.todo now s v
move-Good (thread_runs i) s v = unless_works (s.pool.threads i) i s (worker-Good i s v)
move-Good (serves i w socket p) s v = serve-Good (s.pool.threads i) i w socket p s v
move-Good (wakes i) s v = record {
  linked = v.linked;
  safe =
      goto-Safe s.asked i (wake (s.pool.threads i)) s.pool v.safe (
        At-wake s.pool.mutex s.pool.work_list s.pool.running i (s.pool.threads i)
          (v.safe.stands i));
}
move-Good ticks s v =
    Comes-if Good s.alarm_set _ blocks (record { linked = v.linked; safe = v.safe }) tt

-- After every sequence of moves of the system that `main` makes in front of its loop (reports of
-- `epoll_wait`, statements of the main thread, statements of the pool's threads, calls of the handler
-- with any request and files, wakeups and alarms), if it comes to a system, the iterators of the timer
-- that all threads share are good, every thread of the pool stands where it may, and the tasks that
-- threads have taken, followed by those that wait, are those that the main thread has queued, in
-- order.
pub run_moves-Good :
    (ms : List Move) (server_fd pipe_fd : ℕ) → Comes Good (run_moves ms (system server_fd pipe_fd))
unfolding system
run_moves-Good ms server_fd pipe_fd =
    run_moves-Comes Good move-Good ms (system server_fd pipe_fd)
      (record { linked = timer-IsLinked timeout 1000; safe = thread_pool-Safe 4 8 })
