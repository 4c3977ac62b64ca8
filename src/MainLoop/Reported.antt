-- ===== src/MainLoop/Reported.antt =====
-- Which descriptors reach the pool.
use lxc_http_server.Common.{
  ℕ, ◌==◌, ◌≡◌, refl, Bool, true, false, not, List, [], ◌∷◌, ◌++◌, if◌then◌else◌, take, arith,
  blocks,
}
use lxc_http_server.Timer.{forbiden_fd, delete_expired_fd}
use lxc_http_server.ThreadPool.{append_fd}
use lxc_http_server.ThreadPool.Held.{AllTasks, AllTasks-append}
use lxc_http_server.MainLoop.{
  sigalrm, minus_one, Statement, queues, forbids, reads, expires, arms, Event, accept_loop,
  on_event, on_events, on_signals, System, system, task, queue_task, read_signals, statement,
  main_next, waits_epoll, Move, epoll, main_runs, thread_runs, serves, wakes, ticks, move,
  run_moves,
}
use lxc_http_server.MainLoop.Moves.{
  Comes, Comes-bind, Comes-mono, Comes-if, Comes-from, pool_step-Comes, serve-Comes,
}

-- The loop ends by -1, whatever it has accepted.
pub accept_loop-minus_one : (fds : List ℕ) → accept_loop fds ≡ minus_one
unfolding accept_loop
accept_loop-minus_one [] = refl
accept_loop-minus_one (fd ∷ fds) = ground (arith, accept_loop-minus_one fds)

module _ (P : ℕ → Type 0) where
  abbrev pub AllEvents : List Event → Type 0
  AllEvents [] = Unit {0}
  AllEvents (e ∷ es) = P e.fd × AllEvents es

  -- Every descriptor that a call of `epoll_wait` reports has the property; `accept` may return any.
  abbrev pub AllReported : List Move → Type 0
  AllReported [] = Unit {0}
  AllReported (epoll es ∷ ms) = AllEvents es × AllReported ms
  AllReported (main_runs now ∷ ms) = AllReported ms
  AllReported (thread_runs i ∷ ms) = AllReported ms
  AllReported (serves i w socket p ∷ ms) = AllReported ms
  AllReported (wakes i ∷ ms) = AllReported ms
  AllReported (ticks ∷ ms) = AllReported ms

  abbrev AllQueued : List Statement → Type 0
  AllQueued [] = Unit {0}
  AllQueued (queues fd ∷ l) = P fd × AllQueued l
  AllQueued (forbids fd ∷ l) = AllQueued l
  AllQueued (reads ∷ l) = AllQueued l
  AllQueued (expires ∷ l) = AllQueued l
  AllQueued (arms ∷ l) = AllQueued l

  AllQueued-append : (l m : List Statement) → AllQueued l → AllQueued m → AllQueued (l ++ m)
  AllQueued-append [] m h k = k
  AllQueued-append (queues fd ∷ l) m h k = (h.0, AllQueued-append l m h.1 k)
  AllQueued-append (forbids fd ∷ l) m h k = AllQueued-append l m h k
  AllQueued-append (reads ∷ l) m h k = AllQueued-append l m h k
  AllQueued-append (expires ∷ l) m h k = AllQueued-append l m h k
  AllQueued-append (arms ∷ l) m h k = AllQueued-append l m h k

  AllQueued-if :
      (b : Bool) (l m : List Statement) → AllQueued l → AllQueued m → AllQueued (if b then l else m)
  AllQueued-if true l m h k = h
  AllQueued-if false l m h k = k

  on_signals-AllQueued : (l : List ℕ) → AllQueued (on_signals l)
  unfolding on_signals
  on_signals-AllQueued [] = tt
  on_signals-AllQueued (b ∷ l) =
      AllQueued-append (if b == sigalrm then expires ∷ arms ∷ [] else []) (on_signals l)
        (AllQueued-if (b == sigalrm) (expires ∷ arms ∷ []) [] tt tt) (on_signals-AllQueued l)

  module _ (dropped : P minus_one) where
    on_event-AllQueued :
        (server_fd pipe_fd : ℕ) (e : Event) → P e.fd → AllQueued (on_event server_fd pipe_fd e)
    unfolding on_event
    on_event-AllQueued server_fd pipe_fd e h =
        AllQueued-append (if e.fd == server_fd then queues (accept_loop e.accepts) ∷ [] else [])
          (if not (e.fd == pipe_fd) then forbids e.fd ∷ queues e.fd ∷ [] else reads ∷ [])
          (AllQueued-if (e.fd == server_fd) (queues (accept_loop e.accepts) ∷ []) []
            (rw (accept_loop-minus_one e.accepts) dropped, tt) tt)
          (AllQueued-if (not (e.fd == pipe_fd)) (forbids e.fd ∷ queues e.fd ∷ []) (reads ∷ [])
            (h, tt) tt)

    on_events-AllQueued :
        (server_fd pipe_fd : ℕ) (es : List Event)
        → AllEvents es
        → AllQueued (on_events server_fd pipe_fd es)
    unfolding on_events
    on_events-AllQueued server_fd pipe_fd [] h = tt
    on_events-AllQueued server_fd pipe_fd (e ∷ es) h =
        AllQueued-append (on_event server_fd pipe_fd e) (on_events server_fd pipe_fd es)
          (on_event-AllQueued server_fd pipe_fd e h.0)
          (on_events-AllQueued server_fd pipe_fd es h.1)

    -- What the main thread is about to queue and what it has queued.
    abbrev AllAsked : System → Type 0
    AllAsked s = AllQueued s.todo × AllTasks P s.asked

    statement-AllAsked :
        (st : Statement) (now : ℕ) (s : System)
        → AllQueued (st ∷ s.todo)
        → AllTasks P s.asked
        → Comes AllAsked (statement st now s)
    unfolding statement queue_task read_signals
    statement-AllAsked (queues fd) now s q a =
        Comes-from AllAsked (append_fd s.pool.mutex (task fd) s.pool) _
          (λ p. (q.1, AllTasks-append P s.asked (task fd) a q.0))
    statement-AllAsked (forbids fd) now s q a =
        Comes-from AllAsked (forbiden_fd s.timer fd) _ (λ t. (q, a))
    statement-AllAsked reads now s q a =
        elim s.signals as (λ pipe. Comes AllAsked (read_signals pipe s)) [
          | [] ↦ tt
          | b ∷ rest ↦ (
            AllQueued-append (on_signals (take 128 (b ∷ rest))) s.todo
                (on_signals-AllQueued (take 128 (b ∷ rest))) q,
            a,
          )
        ]
    statement-AllAsked expires now s q a =
        Comes-from AllAsked (delete_expired_fd s.timer now) _ (λ t. (q, a))
    statement-AllAsked arms now s q a = (q, a)

    AllQueued-tail : (st : Statement) (l : List Statement) → AllQueued (st ∷ l) → AllQueued l
    AllQueued-tail (queues fd) l q = q.1
    AllQueued-tail (forbids fd) l q = q
    AllQueued-tail reads l q = q
    AllQueued-tail expires l q = q
    AllQueued-tail arms l q = q

    main_next-AllAsked :
        (todo : List Statement) (now : ℕ) (s : System)
        → AllQueued todo
        → AllTasks P s.asked
        → Comes AllAsked (main_next todo now s)
    unfolding main_next
    main_next-AllAsked [] now s q a = tt
    main_next-AllAsked (st ∷ rest) now s q a =
        statement-AllAsked st now (record s { todo = rest }) q a

    waits_epoll-AllAsked :
        (todo : List Statement) (es : List Event) (s : System)
        → AllEvents es
        → AllTasks P s.asked
        → Comes AllAsked (waits_epoll todo es s)
    unfolding waits_epoll
    waits_epoll-AllAsked [] es s r a = (on_events-AllQueued s.server_fd s.pipe_fd es r, a)
    waits_epoll-AllAsked (st ∷ rest) es s r a = tt

    move-AllAsked :
        (m : Move) (s : System) → AllReported (m ∷ []) → AllAsked s → Comes AllAsked (move m s)
    unfolding move
    move-AllAsked (epoll es) s r h = waits_epoll-AllAsked s.todo es s r.0 h.1
    move-AllAsked (main_runs now) s r h = main_next-AllAsked s.todo now s h.0 h.1
    move-AllAsked (thread_runs i) s r h = pool_step-Comes AllAsked (s.pool.threads i) i s (λ p. h)
    move-AllAsked (serves i w socket p) s r h =
        serve-Comes AllAsked (s.pool.threads i) i w socket p s (λ t pool. h)
    move-AllAsked (wakes i) s r h = h
    move-AllAsked ticks s r h = Comes-if AllAsked s.alarm_set _ blocks h tt

    AllReported-head :
        (m : Move) (ms : List Move) → AllReported (m ∷ ms) → AllReported (m ∷ []) × AllReported ms
    AllReported-head (epoll es) ms r = ((r.0, tt), r.1)
    AllReported-head (main_runs now) ms r = (tt, r)
    AllReported-head (thread_runs i) ms r = (tt, r)
    AllReported-head (serves i w socket p) ms r = (tt, r)
    AllReported-head (wakes i) ms r = (tt, r)
    AllReported-head ticks ms r = (tt, r)

    run_moves-AllAsked :
        (ms : List Move) (s : System)
        → AllReported ms
        → AllAsked s
        → Comes AllAsked (run_moves ms s)
    unfolding run_moves
    run_moves-AllAsked [] s r h = h
    run_moves-AllAsked (m ∷ ms) s r h =
        let (first, rest) = AllReported-head m ms r in
        Comes-bind AllAsked AllAsked (move m s) (run_moves ms) (move-AllAsked m s first h)
          (λ s1 h1. run_moves-AllAsked ms s1 rest h1)

-- A property of descriptors that -1 has, and every descriptor that a call of `epoll_wait` reports,
-- holds of every task that the main thread has queued, after every sequence of moves that comes to a
-- system, whatever `accept` returned: no descriptor that was accepted is queued for it.
pub run_moves-AllTasks :
    (P : ℕ → Type 0) (ms : List Move) (server_fd pipe_fd : ℕ)
    → P minus_one
    → AllReported P ms
    → Comes (λ s. AllTasks P s.asked) (run_moves ms (system server_fd pipe_fd))
unfolding system
run_moves-AllTasks P ms server_fd pipe_fd d r =
    Comes-mono (AllAsked P d) _ (run_moves ms (system server_fd pipe_fd))
      (run_moves-AllAsked P d ms (system server_fd pipe_fd) r (tt, tt)) (λ s h. h.1)
