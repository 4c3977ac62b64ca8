-- ===== src/TaskPool/Tests.antt =====
-- Schedules of thread_pool/myThreadPool.cpp on a pool of one to two threads.
use lxc_http_server.Common.{
  ◌≡◌, refl, List, [], ◌∷◌, some, none, ok, fault, blocks, data_race, ◌>>=◌, Outcome,
}
use lxc_http_server.TaskPool.{Task, MyThreadPool, my_thread_pool, run_slot}
use lxc_http_server.TaskPool.Actions.{
  Act, works, manages, offers, signals, closes, at_once, do_acts,
}
use lxc_http_server.TaskPool.Actions.{get_busy_num, get_alive_num}
use lxc_http_server.Common.{pos, none}
use lxc_http_server.TaskPool.Idle.{Idle, Stays}
use lxc_http_server.TaskPool.Unmanaged.{do_acts-Idle}

abbrev print_number : Task
print_number = record { function = some 1; arg = none }

-- A worker waits, is woken by a task, and runs it.
abbrev in_use : List Act
in_use =
    works 0
    ∷ works 0
    ∷ works 0
    ∷ manages
    ∷ offers print_number
    ∷ signals 0
    ∷ works 0
    ∷ works 0
    ∷ works 0
    ∷ works 0
    ∷ works 0
    ∷ works 0
    ∷ works 0
    ∷ []

abbrev tasks_taken : MyThreadPool → Outcome (List Task)
tasks_taken p = ok p.fetched

in_use_taken : (do p ← do_acts in_use (my_thread_pool 1 2); tasks_taken p) ≡ ok (print_number ∷ [])
unfolding do_acts my_thread_pool run_slot
in_use_taken = refl

in_use_busy : (do p ← do_acts in_use (my_thread_pool 1 2); get_busy_num p.mutex_pool p) ≡ ok (pos 0)
unfolding do_acts my_thread_pool run_slot get_busy_num
in_use_busy = refl

-- A new pool counts the threads that it makes.
new_alive : get_alive_num none (my_thread_pool 3 5) ≡ ok (pos 3)
unfolding my_thread_pool get_alive_num
new_alive = refl

-- A worker asks how many tasks there are while one is added.
abbrev unguarded : List Act
unguarded = works 0 ∷ at_once (works 0) (offers print_number) ∷ []

unguarded_races : do_acts unguarded (my_thread_pool 1 2) ≡ fault data_race
unfolding do_acts my_thread_pool run_slot
unguarded_races = refl

-- A worker looks at the flag while the destructor sets it.
closing_races :
    do_acts (works 0 ∷ works 0 ∷ at_once (works 0) closes ∷ []) (my_thread_pool 1 2)
    ≡ fault data_race
unfolding do_acts my_thread_pool run_slot
closing_races = refl

-- A worker takes a task while another is added: both lock the queue's mutex.
fetching_waits :
    do_acts
      (offers print_number
        ∷ works 0
        ∷ works 0
        ∷ works 0
        ∷ at_once (works 0) (offers print_number)
        ∷ [])
      (my_thread_pool 1 2)
    ≡ blocks
unfolding do_acts my_thread_pool run_slot
fetching_waits = refl

do_acts-Idle_example : Stays (Idle 1) (do_acts in_use (my_thread_pool 1 2))
do_acts-Idle_example = do_acts-Idle 1 2 in_use tt
