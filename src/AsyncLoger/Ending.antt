-- ===== src/AsyncLoger/Ending.antt =====
-- Turns of the log's thread that are taken, and the end that it can always be brought to.
use mathlib.Core.Path.{subst}
use lxc_http_server.Common.{
  ℕ, zero, suc, ◌≡◌, refl, sym, ap, ◌∙◌, Bool, false, List, [], ◌∷◌, ◌++◌, Option, none, some,
  Bytes, length, map, replicate, Outcome, ok, ◌>>=◌,
}
use lxc_http_server.AsyncLoger.{Buffer, LogFile, log_info}
use lxc_http_server.AsyncLoger.Steps.{LogState, collects, step}
use lxc_http_server.AsyncLoger.Paced.{filling}
use lxc_http_server.AsyncLoger.Backend.{state, emptied, write-state, taken, collect-state}
use lxc_http_server.AsyncLoger.Runs.{Shows, At, At-written, At-taken, log-step}
use lxc_http_server.AsyncLoger.Life.{
  Position, waits, flushes, ended, LogThread, Turn, logs_line, tests_running, collects_buffers,
  writes_buffer, ends_round, stops, turn, run_turns, test_turn, collect_turn, write_turn, end_turn,
}

abbrev pub threaded : Position → Bool → LogState → LogThread
threaded position running s = record { position = position; running = running; log = s }

-- A turn that is taken.
pub turns :
    (P : LogThread → Type 0) (r : Outcome LogThread) (l : LogThread)
    (k : LogThread → Outcome LogThread)
    → r ≡ ok l
    → Shows P (k l)
    → Shows P (r >>= k)
turns P r l k e h = subst (λ x. Shows P (x >>= k)) (sym e) h

module _ (running : Bool) (full : Option Buffer) (cur : Buffer) (empties : List Buffer)
    (f : LogFile) where
  pub turn-logs :
      (position : Position) (stamp line : Bytes) (bs : List Buffer) (full' : Option Buffer)
      (cur' : Buffer) (empties' : List Buffer)
      → log_info (filling full cur empties) stamp line ≡ ok (filling full' cur' empties')
      → turn (logs_line stamp line) (threaded position running (state full cur empties bs f))
        ≡ ok (threaded position running (state full' cur' empties' bs f))
  unfolding turn
  turn-logs position stamp line bs full' cur' empties' e =
      rw
        (log-step (filling full cur empties) (filling full' cur' empties') stamp line (map some bs)
          f e)
        refl

  pub turn-collects :
      (c : Buffer) (rest : List Buffer)
      → step collects (state full cur empties [] f) ≡ ok (state none c rest (taken full cur) f)
      → turn collects_buffers (threaded waits running (state full cur empties [] f))
        ≡ ok (threaded flushes running (state none c rest (taken full cur) f))
  unfolding turn collect_turn
  turn-collects c rest e = ap (λ r. r >>= λ s. ok (threaded flushes running s)) e

  pub turn-writes :
      (b : Buffer) (bs : List Buffer)
      → f.results ≡ []
      → turn writes_buffer (threaded flushes running (state full cur empties (b ∷ bs) f))
        ≡ ok (
            threaded flushes running (
              state full cur
                (empties ++ emptied b ∷ [])
                bs
                (record f { written = f.written ++ b.content })))
  unfolding turn write_turn
  turn-writes b bs r =
      ap (λ x. x >>= λ s. ok (threaded flushes running s)) (write-state full cur empties b bs f r)

-- The turns that the thread itself takes: none is a log call, and none clears the flag.
abbrev pub AllOwn : List Turn → Type 0
AllOwn [] = Unit {0}
AllOwn (logs_line stamp line ∷ ts) = ⊥
AllOwn (stops ∷ ts) = ⊥
AllOwn (_ ∷ ts) = AllOwn ts

-- Once the flag is cleared, some turns of the thread itself bring it behind its loop.
abbrev pub CanEnd : LogThread → Type 0
CanEnd l =
    (ts : List Turn) × AllOwn ts
    × (l' : LogThread) × (run_turns (stops ∷ ts) l ≡ ok l')
    × (l'.position ≡ ended)

-- The end of a round that has `k` buffers to write, and of the loop.
abbrev pub rest_of_round : ℕ → List Turn
rest_of_round k = replicate k writes_buffer ++ ends_round ∷ tests_running ∷ []

pub rest_of_round-AllOwn : (k : ℕ) → AllOwn (rest_of_round k)
rest_of_round-AllOwn zero = tt
rest_of_round-AllOwn (suc k) = rest_of_round-AllOwn k

pub flush-ended :
    (text : Bytes) (n : ℕ) (full : Option Buffer) (cur : Buffer) (empties bs : List Buffer)
    (f : LogFile)
    → At text n full cur empties bs f
    → (l : LogThread) × (run_turns
          (rest_of_round (length bs))
          (threaded flushes false (state full cur empties bs f))
        ≡ ok l)
      × (l.position ≡ ended)
unfolding run_turns turn test_turn end_turn
flush-ended text n full cur empties [] f v = (_, refl, refl)
flush-ended text n full cur empties (b ∷ bs) f v =
    let f1 = record f { written = f.written ++ b.content } in
    let (l, e, h) =
      flush-ended text n full cur (empties ++ emptied b ∷ []) bs f1
        (At-written text n full cur empties b bs f v) in
    (
      l,
      ap (λ x. x >>= run_turns (rest_of_round (length bs)))
            (turn-writes false full cur empties f b bs v.goes_through)
          ∙ e,
      h,
    )

pub collect-ended :
    (text : Bytes) (n : ℕ) (full : Option Buffer) (cur : Buffer) (empties : List Buffer)
    (f : LogFile)
    → At text n full cur empties [] f
    → (l : LogThread) × (run_turns
          (collects_buffers ∷ rest_of_round (length (taken full cur)))
          (threaded waits false (state full cur empties [] f))
        ≡ ok l)
      × (l.position ≡ ended)
unfolding run_turns
collect-ended text n full cur empties f v =
    let (c, rest, e, filled, blank) = collect-state full cur empties n f v.filled in
    let (l, ran, h) =
      flush-ended text 0 none c rest (taken full cur) f
        (At-taken text n full cur empties f v c rest filled blank) in
    (
      l,
      ap (λ x. x >>= run_turns (rest_of_round (length (taken full cur))))
            (turn-collects false full cur empties f c rest e)
          ∙ ran,
      h,
    )
