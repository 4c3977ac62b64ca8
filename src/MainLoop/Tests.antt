-- ===== src/MainLoop/Tests.antt =====
-- Runs of the loop of src/httpserver.cpp with a connection that is accepted and one that is served.
use lxc_http_server.Common.{ℕ, inl, inr, Yields, List, [], ◌∷◌, ◌≡◌, refl, ok, ◌>>=◌}
use lxc_http_server.MainLoop.{
  minus_one, system, Move, epoll, main_runs, thread_runs, ticks, run_moves, task, on_signals,
}
use lxc_http_server.Timer.{forbiden_fd, timer, delete_expired_fd}
use lxc_http_server.ThreadPool.{append_fd, thread_pool, worker}
use lxc_http_server.MainLoop.Moves.{Comes}
use lxc_http_server.MainLoop.Invariant.{Good, run_moves-Good}
use lxc_http_server.MainLoop.Alarm.{alarms, run_moves-alarms}
use lxc_http_server.ThreadPool.Held.{AllTasks, Holds}
use lxc_http_server.MainLoop.Watched.{IsOwn}
use lxc_http_server.MainLoop.Unserved.{run_moves-IsOwn}

-- The listening socket is 3 and the pipe 4. A client is accepted as 6.
abbrev moves : List Move
moves =
    epoll (record { fd = 3; accepts = 6 ∷ [] } ∷ [])
    ∷ main_runs 100
    ∷ main_runs 100
    ∷ main_runs 100
    ∷ thread_runs 0
    ∷ ticks
    ∷ epoll (record { fd = 4; accepts = [] } ∷ [])
    ∷ main_runs 101
    ∷ main_runs 101
    ∷ main_runs 101
    ∷ []

-- Neither task is the client's.
asked_by_moves :
    (do s ← run_moves moves (system 3 4); ok s.asked) ≡ ok (task minus_one ∷ task 3 ∷ [])
unfolding run_moves system on_signals forbiden_fd timer append_fd thread_pool worker
    delete_expired_fd
asked_by_moves = refl

run_moves-Good_example : Comes Good (run_moves moves (system 3 4))
run_moves-Good_example = run_moves-Good moves 3 4

run_moves-alarms_example : Comes (λ s. alarms s ≡ 1) (run_moves moves (system 3 4))
run_moves-alarms_example = run_moves-alarms moves 3 4

run_moves-IsOwn_example :
    Yields
      (λ s. AllTasks (IsOwn 3) s.asked × ((i : ℕ) → Holds (IsOwn 3) (s.pool.threads i)))
      (run_moves moves (system 3 4))
unfolding run_moves system on_signals forbiden_fd timer append_fd thread_pool worker
    delete_expired_fd
run_moves-IsOwn_example =
    run_moves-IsOwn moves 3 4
      ((inl refl, tt), (tt, (tt, (tt, (tt, (tt, ((inr (inl refl), tt), (tt, (tt, (tt, tt))))))))))
