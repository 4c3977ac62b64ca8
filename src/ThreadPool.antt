-- ===== src/ThreadPool.antt =====
-- include/ThreadPool.h and src/ThreadPool.cpp: the work list, and the threads of the pool one statement
-- at a time, with the mutex and the condition variable that they share (include/Mutex.h, which only
-- names the calls of pthread: lock and unlock, wait, signal and broadcast).
pub mod Invariant
pub mod Schedules
pub mod Held
pub mod Destructor
mod Tests
use lxc_http_server.Common.{
  ℕ, ◌+◌, ◌==◌, ltb, Bool, true, false, List, [], ◌∷◌, ◌++◌, Option, none, some, if◌then◌else◌,
  Outcome, ok, fault, blocks, empty_container, ◌>>=◌,
}

-- A descriptor; all tasks share the one timer.
pub record TaskData : Type 0 where
  pub clientfd : ℕ

-- Where a thread stands in `worker`.
pub data Phase : Type 0 where
  -- `while (running == true)`
  loop_test : Phase
  -- asks for the mutex, to enter the block or to come back from `cond.wait`
  locks : Phase
  -- `workList.empty()`
  tests_empty : Phase
  -- `&& running`
  tests_running : Phase
  -- about to call `cond.wait(mutex)`
  to_wait : Phase
  -- blocked in `cond.wait`
  waits : Phase
  -- `if(!running) return`
  tests_return : Phase
  -- `workList.front()` and `workList.pop_front()`
  takes : Phase
  -- `task(taskdata)`
  works : TaskData → Phase
  finished : Phase

-- `mutex` is the thread that has it. `taken` is no field of the class: the tasks that threads have
-- taken so far, in order.
pub record ThreadPool : Type 0 where
  pub running : Bool
  pub max_work_list_len : ℕ
  pub work_list : List TaskData
  pub threads : ℕ → Phase
  pub mutex : Option ℕ
  pub taken : List TaskData

-- The constructor. The threads are numbered from 0.
unfoldable pub thread_pool : ℕ → ℕ → ThreadPool
thread_pool thread_num max_work_list_len = record {
  running = true;
  max_work_list_len = max_work_list_len;
  work_list = [];
  threads = λ i. if ltb i thread_num then loop_test else finished;
  mutex = none;
  taken = [];
}

unfoldable pub set_phase : ℕ → Phase → (ℕ → Phase) → ℕ → Phase
set_phase i x threads j = if j == i then x else threads j

unfoldable pub goto : Phase → ℕ → ThreadPool → ThreadPool
unfolding set_phase
goto x i p = record p { threads = set_phase i x p.threads }

-- The lock, for thread `i`; then it stands at `x`.
unfoldable pub acquire : Option ℕ → Phase → ℕ → ThreadPool → Outcome ThreadPool
unfolding goto
acquire none x i p = ok (goto x i (record p { mutex = some i }))
acquire (some j) x i p = blocks

unfoldable pub release : Phase → ℕ → ThreadPool → ThreadPool
unfolding goto
release x i p = goto x i (record p { mutex = none })

-- `front` of an empty list is undefined. The end of the block gives the mutex back.
unfoldable pub take_front : List TaskData → ℕ → ThreadPool → Outcome ThreadPool
unfolding release
take_front [] i p = fault empty_container
take_front (t ∷ rest) i p =
    ok (release (works t) i (record p { work_list = rest; taken = p.taken ++ t ∷ [] }))

unfoldable pub is_empty_list {ℓ} : {A : Type ℓ} → List A → Bool
is_empty_list [] = true
is_empty_list (x ∷ xs) = false

-- One statement of `worker` by thread `i`, which stands at the phase given.
unfoldable pub worker : Phase → ℕ → ThreadPool → Outcome ThreadPool
unfolding goto acquire release take_front is_empty_list
worker loop_test i p = ok (goto (if p.running then locks else finished) i p)
worker locks i p = acquire p.mutex tests_empty i p
worker tests_empty i p =
    ok (goto (if is_empty_list p.work_list then tests_running else tests_return) i p)
worker tests_running i p = ok (goto (if p.running then to_wait else tests_return) i p)
worker to_wait i p = ok (release waits i p)
worker waits i p = blocks
worker tests_return i p = if p.running then ok (goto takes i p) else ok (release finished i p)
worker takes i p = take_front p.work_list i p
worker (works t) i p = ok (goto loop_test i p)
worker finished i p = blocks

unfoldable pub wake : Phase → Phase
wake waits = locks
wake x = x

-- The block of `appendFd` under the lock.
unfoldable pub append_fd : Option ℕ → TaskData → ThreadPool → Outcome ThreadPool
append_fd none t p = ok (record p { work_list = p.work_list ++ t ∷ [] })
append_fd (some i) t p = blocks

-- What may happen next. `signals i`: the signal of `notifyOneThread`, which the system gives to a
-- thread `i` that waits, or a spurious wakeup. `stops` and `notifies_all` are the destructor's first
-- two statements.
pub data Action : Type 0 where
  runs : ℕ → Action
  appends : TaskData → Action
  signals : ℕ → Action
  stops notifies_all : Action

unfoldable pub act : Action → ThreadPool → Outcome ThreadPool
unfolding worker wake append_fd goto
act (runs i) p = worker (p.threads i) i p
act (appends t) p = append_fd p.mutex t p
act (signals i) p = ok (goto (wake (p.threads i)) i p)
act stops p = ok (record p { running = false })
act notifies_all p = ok (record p { threads = λ i. wake (p.threads i) })

unfoldable pub run_actions : List Action → ThreadPool → Outcome ThreadPool
unfolding act
run_actions [] p = ok p
run_actions (a ∷ rest) p = do p1 ← act a p; run_actions rest p1
