-- ===== src/TaskPool/Actions.antt =====
-- The manager, `addTask` and the destructor of thread_pool/myThreadPool.cpp, and schedules of them and
-- of the workers.
use lxc_http_server.Common.{
  ℕ, ◌+◌, ◌*◌, ltb, Bool, true, false, not, ◌&&◌, List, [], ◌∷◌, ◌++◌, Option, none, some,
  if◌then◌else◌, get_elem?, ℤ, pos, negsuc, suc_ℤ, leb_ℤ, Outcome, ok, blocks, fault, data_race,
  ◌==◌, ◌>>=◌,
}
use lxc_http_server.TaskPool.{
  Task, task_number, add_task, Place, asks, sleeps, rises, Manager, tests, reads, adds, compares,
  orders, done, MyThreadPool, number, lt_ℤ, stand, run_slot,
}
use lxc_http_server.TaskPool.Races.{
  Access, reads_of, writes_of, the_queue, the_flag, live_count, bare, in_queue, any_conflict,
  worker_accesses, manager_accesses,
}

unfoldable pub twice_ℤ : ℤ → ℤ
twice_ℤ (pos n) = pos (2 * n)
twice_ℤ (negsuc n) = negsuc (2 * n + 1)

unfoldable pub less_ℤ : ℤ → ℤ → Bool
less_ℤ (pos a) b = lt_ℤ a b
less_ℤ (negsuc a) (pos b) = true
less_ℤ (negsuc a) (negsuc b) = ltb b a

-- Lines 186 to 196: the slots that are left, `counter` and `liveNum`.
unfoldable pub create : ℕ → List (Option Place) → ℕ → ℤ → List (Option Place) × ℤ
create max [] counter live = ([], live)
create max (some x ∷ rest) counter live =
    let (more, live') = create max rest counter live in (some x ∷ more, live')
create max (none ∷ rest) counter live =
    let (more, live') = create max rest (counter + 1) (suc_ℤ live) in
    if ltb counter number && not (leb_ℤ max live)
    then (some asks ∷ more, live')
    else (none ∷ rest, live)

-- Lines 183 to 198.
unfoldable pub add_threads : Option ℕ → MyThreadPool → Outcome MyThreadPool
unfolding create
add_threads none p =
    let (slots, live) = create p.max_num p.thread_ids 0 p.live_num in
    ok (record p { thread_ids = slots; live_num = live; manager = compares })
add_threads (some i) p = blocks

unfoldable pub read_sizes : Option ℕ → MyThreadPool → Outcome MyThreadPool
read_sizes none p = ok (record p { manager = adds (task_number p.task_q) p.live_num })
read_sizes (some i) p = blocks

unfoldable pub order_exits : Option ℕ → MyThreadPool → Outcome MyThreadPool
order_exits none p = ok (record p { exit_num = number; manager = tests })
order_exits (some i) p = blocks

-- One step of `manager`; the signals of line 209 are actions of their own.
unfoldable pub manage : Manager → MyThreadPool → Outcome MyThreadPool
unfolding add_threads read_sizes order_exits less_ℤ twice_ℤ
manage tests p = ok (record p { manager = if p.shutdown then reads else done })
manage reads p = read_sizes p.mutex_pool p
manage (adds queue_size live) p =
    if not (leb_ℤ queue_size live) && not (leb_ℤ p.max_num live)
    then add_threads p.mutex_pool p
    else ok (record p { manager = compares })
manage compares p = ok (record p {
  manager =
      if less_ℤ (twice_ℤ p.busy_num) p.live_num && lt_ℤ p.min_num p.live_num then orders else tests;
})
manage orders p = order_exits p.mutex_pool p
manage done p = blocks

-- A signal, or a spurious wakeup.
unfoldable pub rouse : Option (Option Place) → ℕ → MyThreadPool → MyThreadPool
unfolding stand
rouse (some (some sleeps)) i p = stand rises i p
rouse x i p = p

-- The destructor frees the queue and the slots when the manager has come to its end.
unfoldable pub delete_all : Manager → MyThreadPool → Outcome MyThreadPool
delete_all done p = ok (record p { deleted = true })
delete_all m p = blocks

-- `addTask`.
unfoldable pub offer : Task → MyThreadPool → MyThreadPool
unfolding add_task
offer t p =
    if p.shutdown
    then p
    else record p { task_q = add_task t p.task_q; ordered = p.ordered ++ t ∷ [] }

-- `getBusyNum` and `getAliveNum`.
unfoldable pub get_busy_num : Option ℕ → MyThreadPool → Outcome ℤ
get_busy_num none p = ok p.busy_num
get_busy_num (some i) p = blocks

unfoldable pub get_alive_num : Option ℕ → MyThreadPool → Outcome ℤ
get_alive_num none p = ok p.live_num
get_alive_num (some i) p = blocks

abbrev slot_accesses : Option (Option Place) → MyThreadPool → List Access
slot_accesses none p = []
slot_accesses (some none) p = []
slot_accesses (some (some x)) p = worker_accesses x p

-- Line 68, when the manager has come to its end.
abbrev delete_accesses : Manager → List Access
delete_accesses done = reads_of bare live_count ∷ []
delete_accesses m = []

-- `at_once a b`: the next step of the one thread while the other makes its own.
pub data Act : Type 0 where
  works : ℕ → Act
  manages : Act
  offers : Task → Act
  signals : ℕ → Act
  closes deletes : Act
  at_once : Act → Act → Act

-- What a thread reads and writes in its next step.
unfoldable pub accesses : Act → MyThreadPool → List Access
unfolding worker_accesses manager_accesses
accesses (works i) p = slot_accesses (get_elem? p.thread_ids i) p
accesses manages p = manager_accesses p.manager p
accesses (offers t) p =
    if p.shutdown
    then reads_of bare the_flag ∷ []
    else reads_of bare the_flag ∷ writes_of in_queue the_queue ∷ []
accesses (signals i) p = []
accesses closes p = writes_of bare the_flag ∷ []
accesses deletes p = delete_accesses p.manager
accesses (at_once a b) p = []

-- Steps of two threads. Any number of threads add tasks; one calls the destructor.
unfoldable pub apart : Act → Act → Bool
apart (works i) (works j) = not (i == j)
apart manages manages = false
apart closes closes = false
apart closes deletes = false
apart deletes closes = false
apart deletes deletes = false
apart a b = true

-- Two steps at once are undefined if they race; else they are one after the other, as two acts.
unfoldable pub do_act : Act → MyThreadPool → Outcome MyThreadPool
unfolding manage rouse delete_all offer accesses apart any_conflict
do_act (works i) p = run_slot (get_elem? p.thread_ids i) i p
do_act manages p = manage p.manager p
do_act (offers t) p = ok (offer t p)
do_act (signals i) p = ok (rouse (get_elem? p.thread_ids i) i p)
do_act closes p = ok (record p { shutdown = true })
do_act deletes p = delete_all p.manager p
do_act (at_once a b) p =
    if apart a b && any_conflict (accesses a p) (accesses b p) then fault data_race else blocks

unfoldable pub do_acts : List Act → MyThreadPool → Outcome MyThreadPool
unfolding do_act
do_acts [] p = ok p
do_acts (a ∷ rest) p = do p1 ← do_act a p; do_acts rest p1
