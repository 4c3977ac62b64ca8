-- ===== src/ThreadPool/Held.antt =====
-- The tasks that wait in the pool of src/ThreadPool.cpp, and those that its threads work on.
use lxc_http_server.Common.{
  ℕ, Bool, true, false, Bool-cases, inl, inr, ◌==◌, List, [], ◌∷◌, ◌++◌, Option, none, some,
  if◌then◌else◌, ltb, ok, Yields, Yields-if,
}
use lxc_http_server.ThreadPool.{
  TaskData, Phase, loop_test, locks, tests_empty, tests_running, to_wait, waits, tests_return,
  takes, works, finished, ThreadPool, thread_pool, set_phase, goto, acquire, release, take_front,
  is_empty_list, worker, wake, append_fd,
}

module _ (P : ℕ → Type 0) where
  abbrev pub AllTasks : List TaskData → Type 0
  AllTasks [] = Unit {0}
  AllTasks (t ∷ ts) = P t.clientfd × AllTasks ts

  pub AllTasks-append :
      (l : List TaskData) (t : TaskData) → AllTasks l → P t.clientfd → AllTasks (l ++ t ∷ [])
  AllTasks-append [] t h p = (p, tt)
  AllTasks-append (u ∷ l) t h p = (h.0, AllTasks-append l t h.1 p)

  abbrev pub Holds : Phase → Type 0
  Holds (works t) = P t.clientfd
  Holds loop_test = Unit
  Holds locks = Unit
  Holds tests_empty = Unit
  Holds tests_running = Unit
  Holds to_wait = Unit
  Holds waits = Unit
  Holds tests_return = Unit
  Holds takes = Unit
  Holds finished = Unit

  -- Every task that waits, and every task that a thread works on, is for such a descriptor.
  pub record HoldsOnly (p : ThreadPool) : Type 0 where
    pub waiting : AllTasks p.work_list
    pub working : (i : ℕ) → Holds (p.threads i)

  goto-Holds :
      (x : Phase) (i : ℕ) (threads : ℕ → Phase)
      → Holds x
      → ((j : ℕ) → Holds (threads j))
      → (j : ℕ) → Holds (set_phase i x threads j)
  unfolding set_phase
  goto-Holds x i threads h k j = elim (Bool-cases (j == i)) [ inl y ↦ rw y h | inr n ↦ rw n (k j) ]

  pub goto-HoldsOnly :
      (x : Phase) (i : ℕ) (p : ThreadPool) → Holds x → HoldsOnly p → HoldsOnly (goto x i p)
  unfolding goto
  goto-HoldsOnly x i p h v = record {
    waiting = v.waiting;
    working = goto-Holds x i p.threads h v.working;
  }

  Holds-if : (b : Bool) (x y : Phase) → Holds x → Holds y → Holds (if b then x else y)
  Holds-if true x y h k = h
  Holds-if false x y h k = k

  acquire-HoldsOnly :
      (m : Option ℕ) (x : Phase) (i : ℕ) (p : ThreadPool)
      → Holds x
      → HoldsOnly p
      → Yields HoldsOnly (acquire m x i p)
  unfolding acquire goto
  acquire-HoldsOnly none x i p h v = record {
    waiting = v.waiting;
    working = goto-Holds x i p.threads h v.working;
  }
  acquire-HoldsOnly (some j) x i p h v = tt

  take_front-HoldsOnly :
      (l : List TaskData) (i : ℕ) (p : ThreadPool)
      → AllTasks l
      → HoldsOnly p
      → Yields HoldsOnly (take_front l i p)
  unfolding take_front release goto
  take_front-HoldsOnly [] i p h v = tt
  take_front-HoldsOnly (t ∷ rest) i p h v = record {
    waiting = h.1;
    working = goto-Holds (works t) i p.threads h.0 v.working;
  }

  pub worker-HoldsOnly :
      (x : Phase) (i : ℕ) (p : ThreadPool) → HoldsOnly p → Yields HoldsOnly (worker x i p)
  unfolding worker release goto
  worker-HoldsOnly loop_test i p v =
      goto-HoldsOnly (if p.running then locks else finished) i p
        (Holds-if p.running locks finished tt tt) v
  worker-HoldsOnly locks i p v = acquire-HoldsOnly p.mutex tests_empty i p tt v
  worker-HoldsOnly tests_empty i p v =
      goto-HoldsOnly (if is_empty_list p.work_list then tests_running else tests_return) i p
        (Holds-if (is_empty_list p.work_list) tests_running tests_return tt tt) v
  worker-HoldsOnly tests_running i p v =
      goto-HoldsOnly (if p.running then to_wait else tests_return) i p
        (Holds-if p.running to_wait tests_return tt tt) v
  worker-HoldsOnly to_wait i p v = record {
    waiting = v.waiting;
    working = goto-Holds waits i p.threads tt v.working;
  }
  worker-HoldsOnly waits i p v = tt
  worker-HoldsOnly tests_return i p v =
      Yields-if HoldsOnly p.running (ok (goto takes i p)) (ok (release finished i p))
        (goto-HoldsOnly takes i p tt v)
        (record { waiting = v.waiting; working = goto-Holds finished i p.threads tt v.working })
  worker-HoldsOnly takes i p v = take_front-HoldsOnly p.work_list i p v.waiting v
  worker-HoldsOnly (works t) i p v = goto-HoldsOnly loop_test i p tt v
  worker-HoldsOnly finished i p v = tt

  woken : (x : Phase) → Holds x → Holds (wake x)
  unfolding wake
  woken waits h = tt
  woken (works t) h = h
  woken loop_test h = tt
  woken locks h = tt
  woken tests_empty h = tt
  woken tests_running h = tt
  woken to_wait h = tt
  woken tests_return h = tt
  woken takes h = tt
  woken finished h = tt

  pub wake-HoldsOnly :
      (i : ℕ) (p : ThreadPool) → HoldsOnly p → HoldsOnly (goto (wake (p.threads i)) i p)
  wake-HoldsOnly i p v =
      goto-HoldsOnly (wake (p.threads i)) i p (woken (p.threads i) (v.working i)) v

  pub append_fd-HoldsOnly :
      (m : Option ℕ) (t : TaskData) (p : ThreadPool)
      → P t.clientfd
      → HoldsOnly p
      → Yields HoldsOnly (append_fd m t p)
  unfolding append_fd
  append_fd-HoldsOnly none t p h v = record {
    waiting = AllTasks-append p.work_list t v.waiting h;
    working = v.working;
  }
  append_fd-HoldsOnly (some i) t p h v = tt

  pub thread_pool-HoldsOnly : (n m : ℕ) → HoldsOnly (thread_pool n m)
  unfolding thread_pool
  thread_pool-HoldsOnly n m = record {
    waiting = tt;
    working = λ i. Holds-if (ltb i n) loop_test finished tt tt;
  }
