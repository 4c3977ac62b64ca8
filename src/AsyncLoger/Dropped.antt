-- ===== src/AsyncLoger/Dropped.antt =====
-- A logger that has lost its current buffer.
use mathlib.Core.List.{reverse}
use lxc_http_server.Common.{
  ◌≡◌, refl, List, [], ◌∷◌, ◌++◌, Option, none, some, Bytes, Outcome, ok, throws, fault, blocks,
  out_of_fuel, ◌>>=◌, Ends, Ends-bind,
}
use lxc_http_server.AsyncLoger.{
  Buffer, LogFile, write_to_file, AsyncLoger, take_current, collect, flush, log_info, log_into,
  log_round,
}

flush-cur :
    (v : List (Option Buffer)) (l : AsyncLoger) (f : LogFile)
    → l.cur_buffer ≡ none
    → Ends (λ r. r.0.cur_buffer ≡ none) (flush v l f)
unfolding flush
flush-cur [] l f e = e
flush-cur (none ∷ v) l f e = tt
flush-cur (some b ∷ v) l f e =
    flush-cur v (record l { empty_buffers = l.empty_buffers ++ (write_to_file b f).0 ∷ [] })
      (write_to_file b f).1 e

-- What happens to the logger: a line is logged, or the back end makes a round.
pub data Event : Type 0 where
  logs : Bytes → Bytes → Event
  rounds : Event

unfoldable pub run_event : Event → AsyncLoger × LogFile → Outcome (AsyncLoger × LogFile)
unfolding log_info log_round
run_event (logs stamp line) (l, f) = do l1 ← log_info l stamp line; ok (l1, f)
run_event rounds (l, f) = log_round l f

unfoldable pub run_events : List Event → AsyncLoger × LogFile → Outcome (AsyncLoger × LogFile)
unfolding run_event
run_events [] s = ok s
run_events (e ∷ es) s = do s1 ← run_event e s; run_events es s1

abbrev pub IsDead : AsyncLoger × LogFile → Type 0
IsDead (l, f) = l.cur_buffer ≡ none

collect-dead : (l : AsyncLoger) → l.cur_buffer ≡ none → (collect l).1.cur_buffer ≡ none
unfolding collect take_current
collect-dead l h = simp h

log_info-dead :
    (l : AsyncLoger) (stamp line : Bytes) → l.cur_buffer ≡ none → log_info l stamp line ≡ ok l
unfolding log_info log_into
log_info-dead l stamp line h = simp h

run_event-IsDead : (e : Event) (s : AsyncLoger × LogFile) → IsDead s → Ends IsDead (run_event e s)
unfolding run_event log_round
run_event-IsDead (logs stamp line) (l, f) h = rw (log_info-dead l stamp line h) h
run_event-IsDead rounds (l, f) h =
    flush-cur (reverse (collect l).0) (collect l).1 f (collect-dead l h)

abbrev pub only_rounds : List Event → List Event
only_rounds [] = []
only_rounds (logs stamp line ∷ es) = only_rounds es
only_rounds (rounds ∷ es) = rounds ∷ only_rounds es

bind-dead :
    (r : Outcome (AsyncLoger × LogFile)) (es : List Event)
    → Ends IsDead r
    → ((s : AsyncLoger × LogFile) → IsDead s → run_events es s ≡ run_events (only_rounds es) s)
    → (r >>= run_events es) ≡ (r >>= run_events (only_rounds es))
bind-dead (ok s) es h f = f s h
bind-dead (throws x) es h f = refl
bind-dead (fault k) es h f = refl
bind-dead blocks es h f = refl
bind-dead out_of_fuel es h f = refl

-- From a logger with no current buffer, any sequence of log calls and rounds comes to what its rounds
-- alone come to, and there is no current buffer after it: every line is dropped.
pub run_events-IsDead :
    (es : List Event) (s : AsyncLoger × LogFile)
    → IsDead s
    → (run_events es s ≡ run_events (only_rounds es) s) × Ends IsDead (run_events es s)
unfolding run_events
run_events-IsDead [] s h = (refl, h)
run_events-IsDead (logs stamp line ∷ es) (l, f) h =
    let e : run_event (logs stamp line) (l, f) ≡ ok (l, f) =
      unfold run_event in rw (log_info-dead l stamp line h) in
    rw e (run_events-IsDead es (l, f) h)
run_events-IsDead (rounds ∷ es) s h = (
  bind-dead (run_event rounds s) es (run_event-IsDead rounds s h)
      (λ x d. (run_events-IsDead es x d).0),
  Ends-bind IsDead IsDead _ _ (run_event-IsDead rounds s h) (λ x d. (run_events-IsDead es x d).1),
)
