-- ===== src/MainLoop/Asked.antt =====
-- What is known of the descriptors in the system of src/httpserver.cpp, and that the main thread's
-- statements keep it.
use lxc_http_server.Common.{ℕ, ◌≡◌, List, [], ◌∷◌, take, Outcome, ok, ◌>>=◌, Yields, Yields-bind}
use lxc_http_server.Timer.{Timer, forbiden_fd, delete_expired_fd}
use lxc_http_server.Timer.Added.{AddsOnly, forbiden_fd-AddsOnly, delete_expired_fd-AddsOnly}
use lxc_http_server.ThreadPool.{ThreadPool, append_fd}
use lxc_http_server.ThreadPool.Held.{AllTasks, AllTasks-append, HoldsOnly, append_fd-HoldsOnly}
use lxc_http_server.MainLoop.{
  Statement, queues, forbids, reads, expires, arms, on_signals, System, task, queue_task,
  read_signals, statement,
}
use lxc_http_server.MainLoop.Watched.{Own, AllQueued, AllQueued-append, on_signals-AllQueued}

module _ (server_fd pipe_fd : ℕ) where
  abbrev pub OwnOf : ℕ → Type 0
  OwnOf = Own server_fd pipe_fd

  -- All that is to be queued, was queued, waits, is worked on or has been added is for such descriptors.
  pub record Unserved (s : System) : Type 0 where
    pub same_server : s.server_fd ≡ server_fd
    pub same_pipe : s.pipe_fd ≡ pipe_fd
    pub to_queue : AllQueued server_fd pipe_fd s.todo
    pub was_queued : AllTasks OwnOf s.asked
    pub in_pool : HoldsOnly OwnOf s.pool
    pub added : AddsOnly OwnOf s.timer

  pub with_pool :
      (r : Outcome ThreadPool) (s : System)
      → Yields (HoldsOnly OwnOf) r
      → Unserved s
      → Yields Unserved (r >>= λ p. ok (record s { pool = p }))
  with_pool r s h v = Yields-bind (HoldsOnly OwnOf) Unserved r _ h (λ p k. record {
    same_server = v.same_server;
    same_pipe = v.same_pipe;
    to_queue = v.to_queue;
    was_queued = v.was_queued;
    in_pool = k;
    added = v.added;
  })

  with_timer :
      (r : Outcome Timer) (s : System)
      → Yields (AddsOnly OwnOf) r
      → Unserved s
      → Yields Unserved (r >>= λ t. ok (record s { timer = t }))
  with_timer r s h v = Yields-bind (AddsOnly OwnOf) Unserved r _ h (λ t k. record {
    same_server = v.same_server;
    same_pipe = v.same_pipe;
    to_queue = v.to_queue;
    was_queued = v.was_queued;
    in_pool = v.in_pool;
    added = k;
  })

  read_signals-Unserved :
      (pipe : List ℕ) (s : System) → Unserved s → Yields Unserved (read_signals pipe s)
  unfolding read_signals
  read_signals-Unserved [] s v = tt
  read_signals-Unserved (b ∷ rest) s v = record {
    same_server = v.same_server;
    same_pipe = v.same_pipe;
    to_queue =
        AllQueued-append server_fd pipe_fd (on_signals (take 128 (b ∷ rest))) s.todo
          (on_signals-AllQueued server_fd pipe_fd (take 128 (b ∷ rest))) v.to_queue;
    was_queued = v.was_queued;
    in_pool = v.in_pool;
    added = v.added;
  }

  pub statement-Unserved :
      (st : Statement) (now : ℕ) (s : System)
      → AllQueued server_fd pipe_fd (st ∷ [])
      → Unserved s
      → Yields Unserved (statement st now s)
  unfolding statement queue_task
  statement-Unserved (queues fd) now s q v =
      Yields-bind (HoldsOnly OwnOf) Unserved (append_fd s.pool.mutex (task fd) s.pool) _
        (append_fd-HoldsOnly OwnOf s.pool.mutex (task fd) s.pool q.0 v.in_pool)
        (λ p k. record {
          same_server = v.same_server;
          same_pipe = v.same_pipe;
          to_queue = v.to_queue;
          was_queued = AllTasks-append OwnOf s.asked (task fd) v.was_queued q.0;
          in_pool = k;
          added = v.added;
        })
  statement-Unserved (forbids fd) now s q v =
      with_timer (forbiden_fd s.timer fd) s (forbiden_fd-AddsOnly OwnOf s.timer fd v.added) v
  statement-Unserved reads now s q v = read_signals-Unserved s.signals s v
  statement-Unserved expires now s q v =
      with_timer (delete_expired_fd s.timer now) s
        (delete_expired_fd-AddsOnly OwnOf s.timer now v.added) v
  statement-Unserved arms now s q v = record {
    same_server = v.same_server;
    same_pipe = v.same_pipe;
    to_queue = v.to_queue;
    was_queued = v.was_queued;
    in_pool = v.in_pool;
    added = v.added;
  }

  pub AllQueued-split :
      (st : Statement) (l : List Statement)
      → AllQueued server_fd pipe_fd (st ∷ l)
      → AllQueued server_fd pipe_fd (st ∷ []) × AllQueued server_fd pipe_fd l
  AllQueued-split (queues fd) l q = ((q.0, tt), q.1)
  AllQueued-split (forbids fd) l q = (tt, q)
  AllQueued-split reads l q = (tt, q)
  AllQueued-split expires l q = (tt, q)
  AllQueued-split arms l q = (tt, q)

  -- The main thread is about to do other things.
  pub with_todo :
      (l : List Statement) (s : System)
      → AllQueued server_fd pipe_fd l
      → Unserved s
      → Unserved (record s { todo = l })
  with_todo l s q v = record {
    same_server = v.same_server;
    same_pipe = v.same_pipe;
    to_queue = q;
    was_queued = v.was_queued;
    in_pool = v.in_pool;
    added = v.added;
  }
