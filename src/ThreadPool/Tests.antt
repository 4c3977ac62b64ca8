-- ===== src/ThreadPool/Tests.antt =====
-- Schedules of src/ThreadPool.cpp.
use lxc_http_server.Common.{ℕ, ◌≡◌, List, [], ◌∷◌, ◌++◌, map, ok, false, Ends}
use lxc_http_server.ThreadPool.{
  TaskData, ThreadPool, thread_pool, waits, Action, runs, appends, stops, run_actions,
}
use lxc_http_server.ThreadPool.Invariant.{Sound}
use lxc_http_server.ThreadPool.Schedules.{appended, run_actions-served}
use lxc_http_server.ThreadPool.Destructor.{lost_wakeup, run_actions-lost_wakeup}

abbrev task : ℕ → TaskData
task fd = record { clientfd = fd }

abbrev schedule : List Action
schedule =
    appends (task 5)
    ∷ appends (task 6)
    ∷ runs 0
    ∷ runs 1
    ∷ runs 0
    ∷ runs 0
    ∷ runs 0
    ∷ runs 0
    ∷ runs 1
    ∷ stops
    ∷ []

run_actions-served_example :
    Sound (λ p. p.taken ++ p.work_list ≡ appended schedule) (run_actions schedule (thread_pool 2 8))
run_actions-served_example = run_actions-served 2 8 schedule

run_actions-lost_wakeup_example :
    (p : ThreadPool) × (run_actions lost_wakeup (thread_pool 4 8) ≡ ok p)
    × (p.threads 0 ≡ waits)
    × (p.running ≡ false)
    × Ends (λ q. q.threads 0 ≡ waits) (run_actions (map runs (0 ∷ 1 ∷ 1 ∷ [])) p)
run_actions-lost_wakeup_example = run_actions-lost_wakeup 3 8 (0 ∷ 1 ∷ 1 ∷ [])
