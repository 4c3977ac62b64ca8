-- ===== src/MainLoop/Alarm.antt =====
-- The alarm that makes the timer look for connections that have expired.
use lxc_http_server.Common.{
  ℕ, zero, suc, ◌+◌, ◌==◌, ◌≡◌, refl, ap, Bool-cases, inl, inr, List, [], ◌∷◌, ◌++◌, if◌then◌else◌,
  take, drop, arith,
}
use lxc_http_server.Timer.{forbiden_fd, delete_expired_fd}
use lxc_http_server.ThreadPool.{append_fd}
use lxc_http_server.MainLoop.{
  sigalrm, Statement, queues, forbids, reads, expires, arms, Event, on_event, on_events, on_signals,
  System, system, task, queue_task, read_signals, statement, main_next, waits_epoll, Move, epoll,
  main_runs, thread_runs, serves, wakes, ticks, move, run_moves, signal_handler,
}
use lxc_http_server.MainLoop.Moves.{
  Comes, Comes-from, pool_step-Comes, serve-Comes, run_moves-Comes,
}

abbrev pub arms_in : List Statement → ℕ
arms_in [] = 0
arms_in (arms ∷ rest) = 1 + arms_in rest
arms_in (queues fd ∷ rest) = arms_in rest
arms_in (forbids fd ∷ rest) = arms_in rest
arms_in (reads ∷ rest) = arms_in rest
arms_in (expires ∷ rest) = arms_in rest

abbrev pub alarms_in : List ℕ → ℕ
alarms_in [] = 0
alarms_in (b ∷ rest) = (if b == sigalrm then 1 else 0) + alarms_in rest

-- The alarms that are set, in the pipe, or about to be set again.
abbrev pub alarms : System → ℕ
alarms s = (if s.alarm_set then 1 else 0) + alarms_in s.signals + arms_in s.todo

abbrev Armed : System → Type 0
Armed s = alarms s ≡ 1

arms_in-append : (l m : List Statement) → arms_in (l ++ m) ≡ arms_in l + arms_in m
arms_in-append [] m = omega arith
arms_in-append (arms ∷ l) m = omega (arith, arms_in-append l m)
arms_in-append (queues fd ∷ l) m = arms_in-append l m
arms_in-append (forbids fd ∷ l) m = arms_in-append l m
arms_in-append (reads ∷ l) m = arms_in-append l m
arms_in-append (expires ∷ l) m = arms_in-append l m

alarms_in-append : (l m : List ℕ) → alarms_in (l ++ m) ≡ alarms_in l + alarms_in m
alarms_in-append [] m = omega arith
alarms_in-append (b ∷ l) m = omega (arith, alarms_in-append l m)

alarms_in-take-drop :
    (n : ℕ) (l : List ℕ) → alarms_in (take n l) + alarms_in (drop n l) ≡ alarms_in l
alarms_in-take-drop zero l = omega arith
alarms_in-take-drop (suc n) [] = omega arith
alarms_in-take-drop (suc n) (b ∷ l) = omega (arith, alarms_in-take-drop n l)

-- Each alarm that was read is set again.
arms_in-on_signals : (l : List ℕ) → arms_in (on_signals l) ≡ alarms_in l
unfolding on_signals
arms_in-on_signals [] = refl
arms_in-on_signals (b ∷ l) = elim (Bool-cases (b == sigalrm)) [
  | inl y ↦ rw y (omega (arith, arms_in-on_signals l))
  | inr n ↦ rw n (omega (arith, arms_in-on_signals l))
]

arms_in-on_event : (server_fd pipe_fd : ℕ) (e : Event) → arms_in (on_event server_fd pipe_fd e) ≡ 0
unfolding on_event
arms_in-on_event server_fd pipe_fd e = ground arith

arms_in-on_events :
    (server_fd pipe_fd : ℕ) (es : List Event) → arms_in (on_events server_fd pipe_fd es) ≡ 0
unfolding on_events
arms_in-on_events server_fd pipe_fd [] = refl
arms_in-on_events server_fd pipe_fd (e ∷ es) = omega (
  arith,
  arms_in-append (on_event server_fd pipe_fd e) (on_events server_fd pipe_fd es),
  arms_in-on_event server_fd pipe_fd e,
  arms_in-on_events server_fd pipe_fd es,
)

-- With the statement `st` still to come.
abbrev Due : Statement → System → Type 0
Due st s = alarms s + arms_in (st ∷ []) ≡ 1

read_signals-Armed :
    (pipe : List ℕ) (s : System) → s.signals ≡ pipe → Armed s → Comes Armed (read_signals pipe s)
unfolding read_signals
read_signals-Armed [] s e h = tt
read_signals-Armed (b ∷ rest) s e h =
    let all : alarms_in s.signals ≡ alarms_in (b ∷ rest) = ap alarms_in e in
    omega (
      arith,
      all,
      h,
      arms_in-append (on_signals (take 128 (b ∷ rest))) s.todo,
      arms_in-on_signals (take 128 (b ∷ rest)),
      alarms_in-take-drop 128 (b ∷ rest),
    )

statement-Armed :
    (st : Statement) (now : ℕ) (s : System) → Due st s → Comes Armed (statement st now s)
unfolding statement queue_task
statement-Armed (queues fd) now s h =
    Comes-from Armed (append_fd s.pool.mutex (task fd) s.pool) _ (λ p. omega (arith, h))
statement-Armed (forbids fd) now s h =
    Comes-from Armed (forbiden_fd s.timer fd) _ (λ t. omega (arith, h))
statement-Armed reads now s h = read_signals-Armed s.signals s refl (omega (arith, h))
statement-Armed expires now s h =
    Comes-from Armed (delete_expired_fd s.timer now) _ (λ t. omega (arith, h))
statement-Armed arms now s h = ground arith

main_next-Armed :
    (todo : List Statement) (now : ℕ) (s : System)
    → s.todo ≡ todo
    → Armed s
    → Comes Armed (main_next todo now s)
unfolding main_next
main_next-Armed [] now s e h = tt
main_next-Armed (st ∷ rest) now s e h =
    let all : arms_in s.todo ≡ arms_in (st ∷ rest) = ap arms_in e in
    statement-Armed st now (record s { todo = rest })
      (omega (arith, all, h, arms_in-append (st ∷ []) rest))

waits_epoll-Armed :
    (todo : List Statement) (es : List Event) (s : System)
    → s.todo ≡ todo
    → Armed s
    → Comes Armed (waits_epoll todo es s)
unfolding waits_epoll
waits_epoll-Armed [] es s e h =
    let none_left : arms_in s.todo ≡ 0 = ap arms_in e in
    omega (arith, h, none_left, arms_in-on_events s.server_fd s.pipe_fd es)
waits_epoll-Armed (st ∷ rest) es s e h = tt

move-Armed : (m : Move) (s : System) → Armed s → Comes Armed (move m s)
unfolding move signal_handler
move-Armed (epoll es) s h = waits_epoll-Armed s.todo es s refl h
move-Armed (main_runs now) s h = main_next-Armed s.todo now s refl h
move-Armed (thread_runs i) s h = pool_step-Comes Armed (s.pool.threads i) i s (λ p. h)
move-Armed (serves i w socket p) s h =
    serve-Comes Armed (s.pool.threads i) i w socket p s (λ t pool. h)
move-Armed (wakes i) s h = h
move-Armed ticks s h = elim (Bool-cases s.alarm_set) [
  | inl y ↦ rw y (
      let set_now : 1 + alarms_in s.signals + arms_in s.todo ≡ 1 = ground arith in
      omega (arith, set_now, alarms_in-append s.signals (sigalrm ∷ [])))
  | inr n ↦ rw n tt
]

-- After every sequence of moves of the system that `main` makes in front of its loop, if it comes to a
-- system, there is exactly one alarm that is set, or stands as a byte in the pipe, or has been read
-- and is about to be set again: the alarm is never lost and never doubled.
pub run_moves-alarms :
    (ms : List Move) (server_fd pipe_fd : ℕ)
    → Comes (λ s. alarms s ≡ 1) (run_moves ms (system server_fd pipe_fd))
unfolding system
run_moves-alarms ms server_fd pipe_fd =
    run_moves-Comes Armed move-Armed ms (system server_fd pipe_fd) refl
