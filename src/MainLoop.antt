-- ===== src/MainLoop.antt =====
-- `main` and `signalHandler` of src/httpserver.cpp: the loop over the epoll set, with the pool's
-- threads and the handler of src/httpserver.cpp at work between any two of its statements. The
-- handler meets the timer in one call at its end, so it is one step.
pub mod Moves
pub mod Invariant
pub mod Alarm
pub mod Reported
pub mod Watched
pub mod Asked
pub mod Unserved
pub mod Start
mod Tests
use lxc_http_server.Common.{
  ℕ, zero, suc, ◌+◌, ◌-◌, ◌%◌, ◌^◌, ◌==◌, Bool, true, false, not, List, [], ◌∷◌, ◌++◌, Option, none,
  some, if◌then◌else◌, take, drop, Outcome, ok, throws, blocks, runtime_error, ◌>>=◌,
}
use lxc_http_server.Http.{Recv}
use lxc_http_server.Timer.{Timer, timer, forbiden_fd, delete_expired_fd}
use lxc_http_server.ThreadPool.{
  TaskData, Phase, loop_test, locks, tests_empty, tests_running, to_wait, waits, tests_return,
  takes, works, finished, ThreadPool, thread_pool, goto, wake, worker, append_fd,
}
use lxc_http_server.Responser.{Peer}
use lxc_http_server.Server.{World, Served, httpserver}

-- TIMEOUT.
abbrev pub timeout : ℕ
timeout = 15

-- The 32-bit pattern of -1.
abbrev pub minus_one : ℕ
minus_one = 2 ^ 32 - 1

abbrev pub sigalrm : ℕ
sigalrm = 14

-- A statement of the loop's body that meets shared state.
pub data Statement : Type 0 where
  -- `threadPool.appendFd(TaskData(fd, &timer))`
  queues : ℕ → Statement
  -- `timer.forbidenFd(fd)`
  forbids : ℕ → Statement
  -- `read(pipeline[0], signals, 128)` and the loop over what it read
  reads : Statement
  -- `timer.deleteExpiredFd()`
  expires : Statement
  -- `alarm(1)`
  arms : Statement

-- `epollEvents[i].data.fd`, and for the listening socket the descriptors that `accept` returns
-- before it returns -1.
pub record Event : Type 0 where
  pub fd : ℕ
  pub accepts : List ℕ

-- `while ((clientSocketFd = accept(…)) != -1);` by the results of `accept`.
unfoldable pub accept_loop : List ℕ → ℕ
accept_loop [] = minus_one
accept_loop (fd ∷ more) = if fd == minus_one then minus_one else accept_loop more

-- The body of the loop over the events.
unfoldable pub on_event : ℕ → ℕ → Event → List Statement
unfolding accept_loop
on_event server_fd pipe_fd e =
    (if e.fd == server_fd then queues (accept_loop e.accepts) ∷ [] else [])
    ++ (if not (e.fd == pipe_fd) then forbids e.fd ∷ queues e.fd ∷ [] else reads ∷ [])

unfoldable pub on_events : ℕ → ℕ → List Event → List Statement
unfolding on_event
on_events server_fd pipe_fd [] = []
on_events server_fd pipe_fd (e ∷ es) =
    on_event server_fd pipe_fd e ++ on_events server_fd pipe_fd es

-- The loop over the bytes that were read.
unfoldable pub on_signals : List ℕ → List Statement
on_signals [] = []
on_signals (s ∷ rest) = (if s == sigalrm then expires ∷ arms ∷ [] else []) ++ on_signals rest

-- `todo` is what the main thread has still to do for the events that it was given; `signals` is what
-- stands in the pipe; `alarm_set` says that an alarm is set. `asked` is no variable of the program:
-- the tasks that the main thread has queued so far, in order.
pub record System : Type 0 where
  pub server_fd : ℕ
  pub pipe_fd : ℕ
  pub timer : Timer
  pub pool : ThreadPool
  pub todo : List Statement
  pub signals : List ℕ
  pub alarm_set : Bool
  pub asked : List TaskData

-- The objects as `main` makes them, with the alarm set, in front of its loop.
unfoldable pub system : ℕ → ℕ → System
system server_fd pipe_fd = record {
  server_fd = server_fd;
  pipe_fd = pipe_fd;
  timer = timer timeout 1000;
  pool = thread_pool 4 8;
  todo = [];
  signals = [];
  alarm_set = true;
  asked = [];
}

-- `signalHandler`: one byte goes into the pipe.
unfoldable pub signal_handler : ℕ → List ℕ → List ℕ
signal_handler sig pipe = pipe ++ sig % 2 ^ 8 ∷ []

abbrev pub task : ℕ → TaskData
task fd = record { clientfd = fd }

-- The block of `appendFd` under the lock.
queue_task : ℕ → System → Outcome System
queue_task fd s = do
  pool ← append_fd s.pool.mutex (task fd) s.pool
  ok (record s { pool = pool; asked = s.asked ++ task fd ∷ [] })

-- A read of an empty pipe blocks.
read_signals : List ℕ → System → Outcome System
read_signals [] s = blocks
read_signals (b ∷ rest) s =
    ok (record s {
      signals = drop 128 (b ∷ rest);
      todo = on_signals (take 128 (b ∷ rest)) ++ s.todo;
    })

unfoldable pub statement : Statement → ℕ → System → Outcome System
unfolding queue_task read_signals on_signals
statement (queues fd) now s = queue_task fd s
statement (forbids fd) now s = do t ← forbiden_fd s.timer fd; ok (record s { timer = t })
statement reads now s = read_signals s.signals s
statement expires now s = do t ← delete_expired_fd s.timer now; ok (record s { timer = t })
statement arms now s = ok (record s { alarm_set = true })

-- The main thread's next statement; `now` is the time that it sees.
main_next : List Statement → ℕ → System → Outcome System
unfolding statement
main_next [] now s = blocks
main_next (st ∷ rest) now s = statement st now (record s { todo = rest })

-- `epoll_wait` returns, when the events before have been handled.
waits_epoll : List Statement → List Event → System → Outcome System
unfolding on_events
waits_epoll [] es s = ok (record s { todo = on_events s.server_fd s.pipe_fd es })
waits_epoll (st ∷ rest) es s = blocks

-- A statement of `worker` by a thread of the pool, but for the call of the task.
pub pool_step : Phase → ℕ → System → Outcome System
pool_step (works t) i s = blocks
pool_step x i s = do pool ← worker x i s.pool; ok (record s { pool = pool })

-- The call of the task: the handler, with what it meets outside.
pub serve : Phase → ℕ → World → List Recv → Peer → System → Outcome System
unfolding goto
serve (works t) i w socket p s = do
  served ← httpserver w s.timer t.clientfd socket p
  ok (record s { timer = served.timer; pool = goto loop_test i s.pool })
serve x i w socket p s = blocks

-- What may happen next.
pub data Move : Type 0 where
  epoll : List Event → Move
  main_runs : ℕ → Move
  thread_runs : ℕ → Move
  serves : ℕ → World → List Recv → Peer → Move
  wakes : ℕ → Move
  ticks : Move

unfoldable pub move : Move → System → Outcome System
unfolding main_next waits_epoll pool_step serve signal_handler
move (epoll es) s = waits_epoll s.todo es s
move (main_runs now) s = main_next s.todo now s
move (thread_runs i) s = pool_step (s.pool.threads i) i s
move (serves i w socket p) s = serve (s.pool.threads i) i w socket p s
move (wakes i) s = ok (record s { pool = goto (wake (s.pool.threads i)) i s.pool })
move ticks s =
    if s.alarm_set
    then ok (record s { alarm_set = false; signals = signal_handler sigalrm s.signals })
    else blocks

unfoldable pub run_moves : List Move → System → Outcome System
unfolding move
run_moves [] s = ok s
run_moves (m ∷ rest) s = do s1 ← move m s; run_moves rest s1
