-- ===== src/TaskPool.antt =====
-- thread_pool/TaskQueue.h, TaskQueue.cpp, myThreadPool.h and myThreadPool.cpp: the pool of threads with
-- a manager, which the server does not use. A worker stands in the slot of `threadIDs` that has its
-- id; each of its statements that meets shared state is a step. `addTask` and `takeTast` of `taskQ` lock its
-- own mutex; `taskNumber` locks none, and what comes of that is in Races. The prints and the deletion of a task's argument are left out.
pub mod Races
pub mod Actions
pub mod Slots
pub mod Invariant
pub mod Workers
pub mod Managing
pub mod Schedules
pub mod Idle
pub mod Unmanaged
mod Tests
use lxc_http_server.Common.{
  ℕ, zero, suc, ◌+◌, ◌-◌, ◌*◌, ◌==◌, ltb, leb, Bool, true, false, not, ◌&&◌, List, [], ◌∷◌, ◌++◌,
  Option, none, some, if◌then◌else◌, length, replicate, set, get_elem?, ℤ, pos, suc_ℤ, pred_ℤ,
  Outcome, ok, fault, blocks, null_pointer, out_of_bounds, use_after_free, ◌>>=◌,
}

-- `function` and `arg`, as addresses; `none` is the null pointer.
pub record Task : Type 0 where
  pub function : Option ℕ
  pub arg : Option ℕ

-- `Task()`.
abbrev pub null_task : Task
null_task = record { function = none; arg = none }

pub record TaskQueue : Type 0 where
  pub m_task_q : List Task

-- `taskNumber`, which locks no mutex.
unfoldable pub task_number : TaskQueue → ℕ
task_number q = length q.m_task_q

-- Both overloads of `addTask`, the second on `Task(f, arg)`.
unfoldable pub add_task : Task → TaskQueue → TaskQueue
add_task t q = record { m_task_q = q.m_task_q ++ t ∷ [] }

take_front_task : List Task → Task × TaskQueue
take_front_task [] = (null_task, record { m_task_q = [] })
take_front_task (t ∷ rest) = (t, record { m_task_q = rest })

-- `takeTast`.
unfoldable pub take_tast : TaskQueue → Task × TaskQueue
unfolding take_front_task
take_tast q = take_front_task q.m_task_q

-- Where a worker stands.
pub data Place : Type 0 where
  -- line 122, asks for `mutexPool`
  asks : Place
  -- line 124, `taskNumber() == 0`
  counts : Place
  -- line 124, `!pool->shutdown`
  looks : Place
  -- line 127, blocked in `pthread_cond_wait`
  sleeps : Place
  -- line 127, woken, asks for `mutexPool`
  rises : Place
  -- lines 129 to 138
  may_exit : Place
  -- line 142, `if(pool->shutdown)`
  checks : Place
  -- lines 149 to 152
  fetches : Place
  -- line 155, `task.function(task.arg)`
  calls : Task → Place
  -- lines 161 to 163
  returns : Place
  -- lines 136 and 145, in `threadExit`, without `mutexPool`
  exits : Place

-- Where the manager stands.
pub data Manager : Type 0 where
  -- line 171, `while (pool->shutdown)`
  tests : Manager
  -- lines 176 to 180
  reads : Manager
  -- lines 183 to 198, with `queueSize` and `liveNum`
  adds : ℕ → ℤ → Manager
  -- line 202
  compares : Manager
  -- lines 204 to 206
  orders : Manager
  done : Manager

-- `deleted` says that the destructor has freed `taskQ` and `threadIDs`. `ordered` and `fetched` are no
-- fields of the class: the tasks that were added, and those that workers have taken, in order.
pub record MyThreadPool : Type 0 where
  pub task_q : TaskQueue
  pub thread_ids : List (Option Place)
  pub manager : Manager
  pub min_num : ℕ
  pub max_num : ℕ
  pub busy_num : ℤ
  pub live_num : ℤ
  pub exit_num : ℕ
  pub mutex_pool : Option ℕ
  pub shutdown : Bool
  pub deleted : Bool
  pub ordered : List Task
  pub fetched : List Task

abbrev pub number : ℕ
number = 2

-- The constructor, where no allocation fails.
unfoldable pub my_thread_pool : ℕ → ℕ → MyThreadPool
my_thread_pool min max = record {
  task_q = record { m_task_q = [] };
  thread_ids = replicate min (some asks) ++ replicate (max - min) none;
  manager = tests;
  min_num = min;
  max_num = max;
  busy_num = pos 0;
  live_num = pos min;
  exit_num = 0;
  mutex_pool = none;
  shutdown = false;
  deleted = false;
  ordered = [];
  fetched = [];
}

abbrev pub lt_ℤ : ℕ → ℤ → Bool
lt_ℤ n (pos m) = ltb n m
lt_ℤ n z = false

unfoldable pub stand : Place → ℕ → MyThreadPool → MyThreadPool
stand x i p = record p { thread_ids = set p.thread_ids i (some x) }

-- `pthread_mutex_lock` by a worker, which then stands at `x`.
unfoldable pub lock_pool : Option ℕ → Place → ℕ → MyThreadPool → Outcome MyThreadPool
unfolding stand
lock_pool none x i p = ok (stand x i (record p { mutex_pool = some i }))
lock_pool (some j) x i p = blocks

-- `threadExit`: the slot is cleared and the thread ends.
unfoldable pub thread_exit : ℕ → MyThreadPool → Outcome MyThreadPool
thread_exit i p =
    if p.deleted
    then fault use_after_free
    else ok (record p { thread_ids = set p.thread_ids i none })

-- Lines 129 to 138, with `mutexPool`.
unfoldable pub exit_or_go_on : ℕ → MyThreadPool → Outcome MyThreadPool
unfolding stand
exit_or_go_on i p =
    if ltb 0 p.exit_num
    then (if lt_ℤ p.min_num p.live_num
        then ok (
            stand exits i (record p {
              exit_num = p.exit_num - 1;
              live_num = pred_ℤ p.live_num;
              mutex_pool = none;
            }))
        else ok (stand counts i (record p { exit_num = p.exit_num - 1 })))
    else ok (stand counts i p)

-- Lines 149 to 152.
fetch : Task × TaskQueue → ℕ → MyThreadPool → MyThreadPool
unfolding stand
fetch (t, q) i p = stand (calls t) i (record p {
  task_q = q;
  busy_num = suc_ℤ p.busy_num;
  mutex_pool = none;
  fetched = p.fetched ++ t ∷ [];
})

-- Line 155.
call : Option ℕ → ℕ → MyThreadPool → Outcome MyThreadPool
unfolding stand
call none i p = fault null_pointer
call (some f) i p = ok (stand returns i p)

-- Lines 161 to 163.
give_back : Option ℕ → ℕ → MyThreadPool → Outcome MyThreadPool
unfolding stand
give_back none i p = ok (stand asks i (record p { busy_num = pred_ℤ p.busy_num }))
give_back (some j) i p = blocks

-- One step of `worker` by the thread in slot `i`.
unfoldable pub work : Place → ℕ → MyThreadPool → Outcome MyThreadPool
unfolding lock_pool stand exit_or_go_on thread_exit task_number take_tast fetch call give_back
work asks i p = lock_pool p.mutex_pool counts i p
work counts i p =
    if p.deleted
    then fault use_after_free
    else ok (stand (if task_number p.task_q == 0 then looks else checks) i p)
work looks i p =
    if not p.shutdown
    then ok (stand sleeps i (record p { mutex_pool = none }))
    else ok (stand checks i p)
work sleeps i p = blocks
work rises i p = lock_pool p.mutex_pool may_exit i p
work may_exit i p = exit_or_go_on i p
work checks i p =
    if p.shutdown
    then ok (stand exits i (record p { mutex_pool = none }))
    else ok (stand fetches i p)
work fetches i p = if p.deleted then fault use_after_free else ok (fetch (take_tast p.task_q) i p)
work (calls t) i p = call t.function i p
work returns i p = give_back p.mutex_pool i p
work exits i p = thread_exit i p

-- A slot with no thread has no step.
unfoldable pub run_slot : Option (Option Place) → ℕ → MyThreadPool → Outcome MyThreadPool
unfolding work
run_slot none i p = blocks
run_slot (some none) i p = blocks
run_slot (some (some x)) i p = work x i p
