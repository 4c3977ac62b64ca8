-- ===== src/MainLoop/Unserved.antt =====
-- Which descriptors reach the pool of src/httpserver.cpp, when `epoll_wait` reports only what the
-- program has added to the epoll set.
use lxc_http_server.Common.{
  ℕ, refl, List, [], ◌∷◌, ok, blocks, Yields, Yields-bind, Yields-if, Yields-and, Yields-mono,
}
use lxc_http_server.Http.{Recv}
use lxc_http_server.Timer.{timer}
use lxc_http_server.Timer.Added.{AddsOnly, addfd-AddsOnly, delete_fd-AddsOnly}
use lxc_http_server.ThreadPool.{
  Phase, loop_test, locks, tests_empty, tests_running, to_wait, waits, tests_return, takes, works,
  finished,
}
use lxc_http_server.ThreadPool.Held.{
  AllTasks, Holds, goto-HoldsOnly, worker-HoldsOnly, wake-HoldsOnly, thread_pool-HoldsOnly,
}
use lxc_http_server.Responser.{Peer}
use lxc_http_server.Server.{World, Served, httpserver}
use lxc_http_server.Server.Connection.{httpserver-TimerHas}
use lxc_http_server.MainLoop.{
  Statement, Event, System, system, main_next, waits_epoll, pool_step, serve, Move, epoll,
  main_runs, thread_runs, serves, wakes, ticks, move, run_moves,
}
use lxc_http_server.MainLoop.Watched.{
  Reports, AllReports, AllWatched, IsOwn, Own, AllQueued, reported-AllQueued,
}
use lxc_http_server.MainLoop.Asked.{
  OwnOf, Unserved, with_pool, statement-Unserved, AllQueued-split, with_todo,
}

module _ (server_fd pipe_fd : ℕ) where
  abbrev Kept : System → Type 0
  Kept = Unserved server_fd pipe_fd

  abbrev Mine : ℕ → Type 0
  Mine = OwnOf server_fd pipe_fd

  main_next-Unserved :
      (todo : List Statement) (now : ℕ) (s : System)
      → AllQueued server_fd pipe_fd todo
      → Kept s
      → Yields Kept (main_next todo now s)
  unfolding main_next
  main_next-Unserved [] now s q v = tt
  main_next-Unserved (st ∷ rest) now s q v =
      let (first, later) = AllQueued-split server_fd pipe_fd st rest q in
      statement-Unserved server_fd pipe_fd st now (record s { todo = rest }) first
        (with_todo server_fd pipe_fd rest s later v)

  waits_epoll-Unserved :
      (todo : List Statement) (es : List Event) (s : System)
      → AllWatched s es
      → Kept s
      → Yields Kept (waits_epoll todo es s)
  unfolding waits_epoll
  waits_epoll-Unserved [] es s r v =
      with_todo server_fd pipe_fd _ s
        (reported-AllQueued server_fd pipe_fd s es v.same_server v.same_pipe v.added r) v
  waits_epoll-Unserved (st ∷ rest) es s r v = tt

  unless_works : (x : Phase) (i : ℕ) (s : System) → Kept s → Yields Kept (pool_step x i s)
  unfolding pool_step
  unless_works (works t) i s v = tt
  unless_works loop_test i s v =
      with_pool server_fd pipe_fd _ s (worker-HoldsOnly Mine loop_test i s.pool v.in_pool) v
  unless_works locks i s v =
      with_pool server_fd pipe_fd _ s (worker-HoldsOnly Mine locks i s.pool v.in_pool) v
  unless_works tests_empty i s v =
      with_pool server_fd pipe_fd _ s (worker-HoldsOnly Mine tests_empty i s.pool v.in_pool) v
  unless_works tests_running i s v =
      with_pool server_fd pipe_fd _ s (worker-HoldsOnly Mine tests_running i s.pool v.in_pool) v
  unless_works to_wait i s v =
      with_pool server_fd pipe_fd _ s (worker-HoldsOnly Mine to_wait i s.pool v.in_pool) v
  unless_works waits i s v =
      with_pool server_fd pipe_fd _ s (worker-HoldsOnly Mine waits i s.pool v.in_pool) v
  unless_works tests_return i s v =
      with_pool server_fd pipe_fd _ s (worker-HoldsOnly Mine tests_return i s.pool v.in_pool) v
  unless_works takes i s v =
      with_pool server_fd pipe_fd _ s (worker-HoldsOnly Mine takes i s.pool v.in_pool) v
  unless_works finished i s v =
      with_pool server_fd pipe_fd _ s (worker-HoldsOnly Mine finished i s.pool v.in_pool) v

  serve-Unserved :
      (x : Phase) (i : ℕ) (w : World) (socket : List Recv) (p : Peer) (s : System)
      → Holds Mine x
      → Kept s
      → Yields Kept (serve x i w socket p s)
  unfolding serve
  serve-Unserved (works t) i w socket p s h v =
      Yields-bind (λ (r : Served). AddsOnly Mine r.timer) Kept
        (httpserver w s.timer t.clientfd socket p) _
        (httpserver-TimerHas (AddsOnly Mine) t.clientfd
          (λ u now k. addfd-AddsOnly Mine u now t.clientfd h k)
          (λ u k. delete_fd-AddsOnly Mine u t.clientfd k) w s.timer socket p v.added)
        (λ r k. record {
          same_server = v.same_server;
          same_pipe = v.same_pipe;
          to_queue = v.to_queue;
          was_queued = v.was_queued;
          in_pool = goto-HoldsOnly Mine loop_test i s.pool tt v.in_pool;
          added = k;
        })
  serve-Unserved loop_test i w socket p s h v = tt
  serve-Unserved locks i w socket p s h v = tt
  serve-Unserved tests_empty i w socket p s h v = tt
  serve-Unserved tests_running i w socket p s h v = tt
  serve-Unserved to_wait i w socket p s h v = tt
  serve-Unserved waits i w socket p s h v = tt
  serve-Unserved tests_return i w socket p s h v = tt
  serve-Unserved takes i w socket p s h v = tt
  serve-Unserved finished i w socket p s h v = tt

  move-Unserved : (m : Move) (s : System) → Reports m s → Kept s → Yields Kept (move m s)
  unfolding move
  move-Unserved (epoll es) s r v = waits_epoll-Unserved s.todo es s r v
  move-Unserved (main_runs now) s r v = main_next-Unserved s.todo now s v.to_queue v
  move-Unserved (thread_runs i) s r v = unless_works (s.pool.threads i) i s v
  move-Unserved (serves i w socket p) s r v =
      serve-Unserved (s.pool.threads i) i w socket p s (v.in_pool.working i) v
  move-Unserved (wakes i) s r v =
      with_pool server_fd pipe_fd (ok _) s (wake-HoldsOnly Mine i s.pool v.in_pool) v
  move-Unserved ticks s r v =
      Yields-if Kept s.alarm_set _ blocks
        (record {
          same_server = v.same_server;
          same_pipe = v.same_pipe;
          to_queue = v.to_queue;
          was_queued = v.was_queued;
          in_pool = v.in_pool;
          added = v.added;
        })
        tt

  run_moves-Unserved :
      (ms : List Move) (s : System) → AllReports ms s → Kept s → Yields Kept (run_moves ms s)
  unfolding run_moves
  run_moves-Unserved [] s r v = v
  run_moves-Unserved (m ∷ ms) s r v =
      Yields-and Kept Kept (AllReports ms) (run_moves ms) (move m s) (move-Unserved m s r.0 v) r.1
        (λ s1 h k. run_moves-Unserved ms s1 k h)

-- After every sequence of moves of the system in which `epoll_wait` reports only descriptors that
-- `main` or the timer has added to the epoll set, if it comes to a system, every task that the main
-- thread has queued and every task that a thread of the pool works on is for the listening socket or
-- for -1, whatever `accept` has returned and the handlers have done: no client that was accepted is
-- ever served.
pub run_moves-IsOwn :
    (ms : List Move) (server_fd pipe_fd : ℕ)
    → AllReports ms (system server_fd pipe_fd)
    → Yields
        (λ s.
          AllTasks (IsOwn server_fd) s.asked
          × ((i : ℕ) → Holds (IsOwn server_fd) (s.pool.threads i)))
        (run_moves ms (system server_fd pipe_fd))
unfolding system timer
run_moves-IsOwn ms server_fd pipe_fd r =
    Yields-mono (Unserved server_fd pipe_fd) _ (run_moves ms (system server_fd pipe_fd))
      (run_moves-Unserved server_fd pipe_fd ms (system server_fd pipe_fd) r (record {
        same_server = refl;
        same_pipe = refl;
        to_queue = tt;
        was_queued = tt;
        in_pool = thread_pool-HoldsOnly (Own server_fd pipe_fd) 4 8;
        added = tt;
      }))
      (λ s v. (v.was_queued, v.in_pool.working))
