-- ===== src/MainLoop/Watched.antt =====
-- What `epoll_wait` may report in src/httpserver.cpp, and what the main thread then does: only
-- descriptors that the program has added to the epoll set are reported.
use lxc_http_server.Common.{
  ℕ, ◌==◌, ◌≡◌, refl, sym, ◌∙◌, Bool, true, false, not, List, [], ◌∷◌, ◌++◌, if◌then◌else◌, arith,
  inl, inr, ◌⊎◌, Yields,
}
use lxc_http_server.Timer.{Call, epoll_add, epoll_delete, close}
use lxc_http_server.Timer.Added.{AllAdded, AddsOnly}
use lxc_http_server.MainLoop.{
  sigalrm, minus_one, Statement, queues, forbids, reads, expires, arms, Event, accept_loop,
  on_event, on_events, on_signals, System, Move, epoll, main_runs, thread_runs, serves, wakes,
  ticks, move,
}
use lxc_http_server.MainLoop.Reported.{accept_loop-minus_one}

-- A call of `addFdToEpoll_INETONESHOT` has added the descriptor.
abbrev pub Added : ℕ → List Call → Type 0
Added fd [] = ⊥
Added fd (epoll_add j ∷ cs) = (j ≡ fd) ⊎ Added fd cs
Added fd (epoll_delete j ∷ cs) = Added fd cs
Added fd (close j ∷ cs) = Added fd cs

-- `main` adds the listening socket and the pipe, and the timer what it is given.
abbrev pub Watched : System → ℕ → Type 0
Watched s fd = (fd ≡ s.server_fd) ⊎ ((fd ≡ s.pipe_fd) ⊎ Added fd s.timer.calls)

abbrev pub AllWatched : System → List Event → Type 0
AllWatched s [] = Unit {0}
AllWatched s (e ∷ es) = Watched s e.fd × AllWatched s es

-- Each report of `epoll_wait` is of descriptors that have been added; `accept` may return any.
abbrev pub Reports : Move → System → Type 0
Reports (epoll es) s = AllWatched s es
Reports (main_runs now) s = Unit
Reports (thread_runs i) s = Unit
Reports (serves i w socket p) s = Unit
Reports (wakes i) s = Unit
Reports ticks s = Unit

abbrev pub AllReports : List Move → System → Type 0
AllReports [] s = Unit {0}
AllReports (m ∷ ms) s = Reports m s × Yields (AllReports ms) (move m s)

-- The listening socket, or no descriptor at all.
abbrev pub IsOwn : ℕ → ℕ → Type 0
IsOwn server_fd fd = (fd ≡ server_fd) ⊎ (fd ≡ minus_one)

module _ (server_fd pipe_fd : ℕ) where
  abbrev pub Own : ℕ → Type 0
  Own fd = IsOwn server_fd fd

  abbrev pub AllQueued : List Statement → Type 0
  AllQueued [] = Unit {0}
  AllQueued (queues fd ∷ l) = Own fd × AllQueued l
  AllQueued (forbids fd ∷ l) = AllQueued l
  AllQueued (reads ∷ l) = AllQueued l
  AllQueued (expires ∷ l) = AllQueued l
  AllQueued (arms ∷ l) = AllQueued l

  pub AllQueued-append : (l m : List Statement) → AllQueued l → AllQueued m → AllQueued (l ++ m)
  AllQueued-append [] m h k = k
  AllQueued-append (queues fd ∷ l) m h k = (h.0, AllQueued-append l m h.1 k)
  AllQueued-append (forbids fd ∷ l) m h k = AllQueued-append l m h k
  AllQueued-append (reads ∷ l) m h k = AllQueued-append l m h k
  AllQueued-append (expires ∷ l) m h k = AllQueued-append l m h k
  AllQueued-append (arms ∷ l) m h k = AllQueued-append l m h k

  AllQueued-if :
      (b : Bool) (l m : List Statement)
      → (b ≡ true → AllQueued l)
      → (b ≡ false → AllQueued m)
      → AllQueued (if b then l else m)
  AllQueued-if true l m h k = h refl
  AllQueued-if false l m h k = k refl

  pub on_signals-AllQueued : (l : List ℕ) → AllQueued (on_signals l)
  unfolding on_signals
  on_signals-AllQueued [] = tt
  on_signals-AllQueued (b ∷ l) =
      AllQueued-append (if b == sigalrm then expires ∷ arms ∷ [] else []) (on_signals l)
        (AllQueued-if (b == sigalrm) (expires ∷ arms ∷ []) [] (λ y. tt) (λ n. tt))
        (on_signals-AllQueued l)

  Added-Own : (fd : ℕ) (cs : List Call) → AllAdded Own cs → Added fd cs → Own fd
  Added-Own fd [] a h = absurd h
  Added-Own fd (epoll_add j ∷ cs) a (inl e) = rw (sym e) a.0
  Added-Own fd (epoll_add j ∷ cs) a (inr h) = Added-Own fd cs a.1 h
  Added-Own fd (epoll_delete j ∷ cs) a h = Added-Own fd cs a h
  Added-Own fd (close j ∷ cs) a h = Added-Own fd cs a h

  -- An event of the pipe is not queued.
  Watched-Own :
      (s : System) (fd : ℕ)
      → s.server_fd ≡ server_fd
      → s.pipe_fd ≡ pipe_fd
      → AddsOnly Own s.timer
      → Watched s fd
      → (fd == pipe_fd) ≡ false
      → Own fd
  Watched-Own s fd e g a (inl h) n = inl (h ∙ e)
  Watched-Own s fd e g a (inr (inl h)) n = absurd (ground (arith, h, g, n))
  Watched-Own s fd e g a (inr (inr h)) n = Added-Own fd s.timer.calls a h

  on_event-AllQueued :
      (e : Event)
      → ((e.fd == pipe_fd) ≡ false → Own e.fd)
      → AllQueued (on_event server_fd pipe_fd e)
  unfolding on_event
  on_event-AllQueued e h =
      AllQueued-append (if e.fd == server_fd then queues (accept_loop e.accepts) ∷ [] else [])
        (if not (e.fd == pipe_fd) then forbids e.fd ∷ queues e.fd ∷ [] else reads ∷ [])
        (AllQueued-if (e.fd == server_fd) (queues (accept_loop e.accepts) ∷ []) []
          (λ y. (inr (accept_loop-minus_one e.accepts), tt)) (λ n. tt))
        (AllQueued-if (not (e.fd == pipe_fd)) (forbids e.fd ∷ queues e.fd ∷ []) (reads ∷ [])
          (λ y. (h (ground (arith, y)), tt)) (λ n. tt))

  on_events-AllQueued :
      (s : System) (es : List Event)
      → s.server_fd ≡ server_fd
      → s.pipe_fd ≡ pipe_fd
      → AddsOnly Own s.timer
      → AllWatched s es
      → AllQueued (on_events server_fd pipe_fd es)
  unfolding on_events
  on_events-AllQueued s [] e g a h = tt
  on_events-AllQueued s (v ∷ es) e g a h =
      AllQueued-append (on_event server_fd pipe_fd v) (on_events server_fd pipe_fd es)
        (on_event-AllQueued v (Watched-Own s v.fd e g a h.0)) (on_events-AllQueued s es e g a h.1)

  pub reported-AllQueued :
      (s : System) (es : List Event)
      → s.server_fd ≡ server_fd
      → s.pipe_fd ≡ pipe_fd
      → AddsOnly Own s.timer
      → AllWatched s es
      → AllQueued (on_events s.server_fd s.pipe_fd es)
  reported-AllQueued s es e g a h = rw (e, g) (on_events-AllQueued s es e g a h)
