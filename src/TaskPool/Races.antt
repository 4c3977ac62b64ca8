-- ===== src/TaskPool/Races.antt =====
-- What the threads of thread_pool/myThreadPool.cpp read and write, and with which mutex: two accesses
-- that may happen at once, of which one writes, are a data race.
use lxc_http_server.Common.{
  ℕ, ltb, Bool, true, false, not, ◌&&◌, ◌||◌, List, [], ◌∷◌, Option, none, some, if◌then◌else◌,
  leb_ℤ,
}
use lxc_http_server.TaskPool.{
  Place, asks, counts, looks, sleeps, rises, may_exit, checks, fetches, calls, returns, exits,
  Manager, tests, reads, adds, compares, orders, done, MyThreadPool, lt_ℤ,
}

-- `m_taskQ`, `shutdown`, `busyNum`, `liveNum`, `exitNum` and the array `threadIDs`, as one object.
pub data Shared : Type 0 where
  the_queue the_flag busy_count live_count exit_count slots : Shared

pub data Guard : Type 0 where
  -- no mutex
  bare : Guard
  -- `mutexPool`
  in_pool : Guard
  -- `m_mutex` of the queue
  in_queue : Guard
  in_both : Guard

pub record Access : Type 0 where
  pub object : Shared
  pub writes : Bool
  pub guard : Guard

abbrev pub reads_of : Guard → Shared → Access
reads_of g x = record { object = x; writes = false; guard = g }

abbrev pub writes_of : Guard → Shared → Access
writes_of g x = record { object = x; writes = true; guard = g }

abbrev shared_index : Shared → ℕ
shared_index the_queue = 0
shared_index the_flag = 1
shared_index busy_count = 2
shared_index live_count = 3
shared_index exit_count = 4
shared_index slots = 5

abbrev same_object : Shared → Shared → Bool
same_object x y =
    not (ltb (shared_index x) (shared_index y) || ltb (shared_index y) (shared_index x))

-- One mutex is held at both accesses, so that they cannot happen at once.
abbrev exclude : Guard → Guard → Bool
exclude bare g = false
exclude in_both bare = false
exclude in_both g = true
exclude in_pool in_pool = true
exclude in_pool in_both = true
exclude in_pool g = false
exclude in_queue in_queue = true
exclude in_queue in_both = true
exclude in_queue g = false

abbrev conflict : Access → Access → Bool
conflict a b =
    same_object a.object b.object && (a.writes || b.writes) && not (exclude a.guard b.guard)

abbrev conflicts_with : Access → List Access → Bool
conflicts_with a [] = false
conflicts_with a (b ∷ bs) = conflict a b || conflicts_with a bs

unfoldable pub any_conflict : List Access → List Access → Bool
any_conflict [] bs = false
any_conflict (a ∷ rest) bs = conflicts_with a bs || any_conflict rest bs

-- What comes behind `pthread_mutex_lock(&mutexPool)`.
abbrev pub behind_lock : Option ℕ → List Access → List Access
behind_lock none l = l
behind_lock (some i) l = []

-- The accesses of the next step of a worker. `taskNumber` does not ask for the queue's own mutex, and
-- `threadExit` holds none.
unfoldable pub worker_accesses : Place → MyThreadPool → List Access
worker_accesses asks p = []
worker_accesses counts p = reads_of in_pool the_queue ∷ []
worker_accesses looks p = reads_of in_pool the_flag ∷ []
worker_accesses sleeps p = []
worker_accesses rises p = []
worker_accesses may_exit p =
    if ltb 0 p.exit_num
    then writes_of in_pool exit_count
      ∷ (if lt_ℤ p.min_num p.live_num
          then writes_of in_pool live_count
          else reads_of in_pool live_count)
      ∷ []
    else reads_of in_pool exit_count ∷ []
worker_accesses checks p = reads_of in_pool the_flag ∷ []
worker_accesses fetches p = writes_of in_both the_queue ∷ writes_of in_pool busy_count ∷ []
worker_accesses (calls t) p = []
worker_accesses returns p = behind_lock p.mutex_pool (writes_of in_pool busy_count ∷ [])
worker_accesses exits p = writes_of bare slots ∷ []

-- The accesses of the next step of the manager.
unfoldable pub manager_accesses : Manager → MyThreadPool → List Access
manager_accesses tests p = reads_of bare the_flag ∷ []
manager_accesses reads p =
    behind_lock p.mutex_pool
      (reads_of in_pool the_queue ∷ reads_of in_pool busy_count ∷ reads_of in_pool live_count ∷ [])
manager_accesses (adds queue_size live_then) p =
    if not (leb_ℤ queue_size live_then) && not (leb_ℤ p.max_num live_then)
    then behind_lock p.mutex_pool (writes_of in_pool live_count ∷ writes_of in_pool slots ∷ [])
    else []
manager_accesses compares p = reads_of bare busy_count ∷ reads_of bare live_count ∷ []
manager_accesses orders p = behind_lock p.mutex_pool (writes_of in_pool exit_count ∷ [])
manager_accesses done p = []
