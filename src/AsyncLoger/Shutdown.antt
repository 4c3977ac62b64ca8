-- ===== src/AsyncLoger/Shutdown.antt =====
-- What the log file of src/AsyncLoger.cpp holds when the thread has ended.
use lxc_http_server.Common.{
  ℕ, ◌+◌, ◌≡◌, refl, sym, ap, ◌∙◌, Bool, true, false, List, [], ◌∷◌, ◌++◌, append_assoc, append-nil,
  Option, none, Bytes, length, ok,
}
use lxc_http_server.AsyncLoger.{Buffer, LogFile, async_loger, log_text}
use lxc_http_server.AsyncLoger.Logging.{Fresh}
use lxc_http_server.AsyncLoger.Steps.{Step, logs, collects, writes}
use lxc_http_server.AsyncLoger.Paced.{log_info-Kept}
use lxc_http_server.AsyncLoger.Backend.{state, joined, emptied, taken, joined-taken, collect-state}
use lxc_http_server.AsyncLoger.Runs.{
  spec_steps, Paced, Shows, At, IsAt, At-written, At-taken, At-logged, first-At,
}
use lxc_http_server.AsyncLoger.Ending.{
  threaded, turns, turn-logs, turn-collects, turn-writes, CanEnd, rest_of_round,
  rest_of_round-AllOwn, flush-ended, collect-ended,
}
use lxc_http_server.AsyncLoger.Life.{
  Position, tests, waits, flushes, ended, LogThread, Turn, logs_line, tests_running,
  collects_buffers, writes_buffer, ends_round, stops, log_thread, turn, run_turns, test_turn,
  collect_turn, write_turn, end_turn,
}

-- The steps of the logger among the turns.
abbrev pub steps_of : List Turn → List Step
steps_of [] = []
steps_of (logs_line stamp line ∷ ts) = logs stamp line ∷ steps_of ts
steps_of (collects_buffers ∷ ts) = collects ∷ steps_of ts
steps_of (writes_buffer ∷ ts) = writes ∷ steps_of ts
steps_of (_ ∷ ts) = steps_of ts

-- The text at the last collection; `text` is logged so far, and `last` was logged at the last collection.
abbrev pub last_collected : List Turn → Bytes → Bytes → Bytes
last_collected [] text last = last
last_collected (logs_line stamp line ∷ ts) text last =
    last_collected ts (text ++ (stamp ++ log_text line)) last
last_collected (collects_buffers ∷ ts) text last = last_collected ts text text
last_collected (_ ∷ ts) text last = last_collected ts text last

abbrev IsEmpty : List Buffer → Type 0
IsEmpty [] = Unit {0}
IsEmpty (b ∷ bs) = ⊥

-- Where nothing is left to be written.
abbrev Rests : Position → Bool → List Buffer → Type 0
Rests flushes running bs = Unit
Rests tests running bs = IsEmpty bs
Rests waits running bs = IsEmpty bs
Rests ended running bs = IsEmpty bs × (running ≡ false)

Rests-stopped :
    (position : Position) (running : Bool) (bs : List Buffer)
    → Rests position running bs
    → Rests position false bs
Rests-stopped tests running bs r = r
Rests-stopped waits running bs r = r
Rests-stopped flushes running bs r = r
Rests-stopped ended running bs r = (r.0, refl)

-- What the thread leaves when it has ended: nothing that waits to be written by it, and in the file what
-- had been logged by the last collection.
abbrev pub Ended : Bytes → LogThread → Type 0
Ended last l =
    l.position ≡ ended → (l.running ≡ false) × (l.log.pending ≡ []) × (l.log.file.written ≡ last)

Ended-state :
    (position : Position) (running : Bool) (full : Option Buffer) (cur : Buffer)
    (empties bs : List Buffer) (f : LogFile) (last : Bytes)
    → f.written ++ joined bs ≡ last
    → Rests position running bs
    → Ended last (threaded position running (state full cur empties bs f))
Ended-state ended running full cur empties [] f last w r =
    λ e. (r.1, refl, sym (append-nil f.written) ∙ w)
Ended-state ended running full cur empties (b ∷ bs) f last w r = absurd r.0
Ended-state tests running full cur empties bs f last w r = λ e. cc
Ended-state waits running full cur empties bs f last w r = λ e. cc
Ended-state flushes running full cur empties bs f last w r = λ e. cc

-- What a run shows and leaves.
abbrev pub Lives : List Turn → Bytes → Bytes → LogThread → Type 0
Lives ts text last l =
    IsAt (spec_steps (steps_of ts) text) l.log × Ended (last_collected ts text last) l × CanEnd l

CanEnd-state :
    (text : Bytes) (n : ℕ) (position : Position) (running : Bool) (full : Option Buffer)
    (cur : Buffer) (empties bs : List Buffer) (f : LogFile)
    → At text n full cur empties bs f
    → Rests position running bs
    → CanEnd (threaded position running (state full cur empties bs f))
unfolding run_turns turn test_turn
CanEnd-state text n tests running full cur empties bs f v r =
    (tests_running ∷ [], tt, _, refl, refl)
CanEnd-state text n ended running full cur empties bs f v r = ([], tt, _, refl, refl)
CanEnd-state text n flushes running full cur empties bs f v r =
    let (l, e, h) = flush-ended text n full cur empties bs f v in
    (rest_of_round (length bs), rest_of_round-AllOwn (length bs), l, e, h)
CanEnd-state text n waits running full cur empties [] f v r =
    let (l, e, h) = collect-ended text n full cur empties f v in
    (
      collects_buffers ∷ rest_of_round (length (taken full cur)),
      rest_of_round-AllOwn (length (taken full cur)),
      l,
      e,
      h,
    )
CanEnd-state text n waits running full cur empties (b ∷ bs) f v r = absurd r

written-last :
    (f : LogFile) (b : Buffer) (bs : List Buffer) (last : Bytes)
    → f.written ++ (b.content ++ joined bs) ≡ last
    → (f.written ++ b.content) ++ joined bs ≡ last
written-last f b bs last h = append_assoc f.written b.content (joined bs) ∙ h

taken-last :
    (text : Bytes) (n : ℕ) (full : Option Buffer) (cur : Buffer) (empties : List Buffer)
    (f : LogFile)
    → At text n full cur empties [] f
    → f.written ++ joined (taken full cur) ≡ text
taken-last text n full cur empties f v =
    ap (◌++◌ f.written) (sym (append-nil (joined (taken full cur))) ∙ joined-taken full cur)
    ∙ v.shown

run-Lives :
    (ts : List Turn) (text last : Bytes) (n : ℕ) (position : Position) (running : Bool)
    (full : Option Buffer) (cur : Buffer) (empties bs : List Buffer) (f : LogFile)
    → At text n full cur empties bs f
    → f.written ++ joined bs ≡ last
    → Rests position running bs
    → Paced n (steps_of ts)
    → Shows
        (Lives ts text last)
        (run_turns ts (threaded position running (state full cur empties bs f)))
unfolding run_turns turn test_turn collect_turn write_turn end_turn
run-Lives [] text last n position running full cur empties bs f v w r p = (
  (n, full, cur, empties, bs, f, refl, v),
  Ended-state position running full cur empties bs f last w r,
  CanEnd-state text n position running full cur empties bs f v r,
)
run-Lives (logs_line stamp line ∷ ts) text last n position running full cur empties bs f v w r
      (s, small, p) =
    let entry = stamp ++ log_text line in
    let (l, e, (full', cur', empties', same, filled, grown)) =
      log_info-Kept (length bs) full cur empties n stamp line v.filled s small in
    turns (Lives (logs_line stamp line ∷ ts) text last) _
      (threaded position running (state full' cur' empties' bs f)) (run_turns ts)
      (turn-logs running full cur empties f position stamp line bs full' cur' empties'
        (e ∙ ap ok same))
      (run-Lives ts (text ++ entry) last (n + length entry) position running full' cur' empties' bs
        f (At-logged text n full cur empties bs f v entry full' cur' empties' filled grown) w r p)
run-Lives (tests_running ∷ ts) text last n tests true full cur empties bs f v w r p =
    run-Lives ts text last n waits true full cur empties bs f v w r p
run-Lives (tests_running ∷ ts) text last n tests false full cur empties bs f v w r p =
    run-Lives ts text last n ended false full cur empties bs f v w (r, refl) p
run-Lives (tests_running ∷ ts) text last n waits running full cur empties bs f v w r p = tt
run-Lives (tests_running ∷ ts) text last n flushes running full cur empties bs f v w r p = tt
run-Lives (tests_running ∷ ts) text last n ended running full cur empties bs f v w r p = tt
run-Lives (collects_buffers ∷ ts) text last n waits running full cur empties [] f v w r p =
    let (c, rest, e, filled, blank) = collect-state full cur empties n f v.filled in
    turns (Lives (collects_buffers ∷ ts) text last) _
      (threaded flushes running (state none c rest (taken full cur) f)) (run_turns ts)
      (turn-collects running full cur empties f c rest e)
      (run-Lives ts text text 0 flushes running none c rest (taken full cur) f
        (At-taken text n full cur empties f v c rest filled blank)
        (taken-last text n full cur empties f v) tt p)
run-Lives (collects_buffers ∷ ts) text last n waits running full cur empties (b ∷ bs) f v w r p =
    absurd r
run-Lives (collects_buffers ∷ ts) text last n tests running full cur empties bs f v w r p = tt
run-Lives (collects_buffers ∷ ts) text last n flushes running full cur empties bs f v w r p = tt
run-Lives (collects_buffers ∷ ts) text last n ended running full cur empties bs f v w r p = tt
run-Lives (writes_buffer ∷ ts) text last n flushes running full cur empties [] f v w r p = tt
run-Lives (writes_buffer ∷ ts) text last n flushes running full cur empties (b ∷ bs) f v w r p =
    let f1 = record f { written = f.written ++ b.content } in
    turns (Lives (writes_buffer ∷ ts) text last) _
      (threaded flushes running (state full cur (empties ++ emptied b ∷ []) bs f1)) (run_turns ts)
      (turn-writes running full cur empties f b bs v.goes_through)
      (run-Lives ts text last n flushes running full cur (empties ++ emptied b ∷ []) bs f1
        (At-written text n full cur empties b bs f v) (written-last f b bs last w) tt p)
run-Lives (writes_buffer ∷ ts) text last n tests running full cur empties bs f v w r p = tt
run-Lives (writes_buffer ∷ ts) text last n waits running full cur empties bs f v w r p = tt
run-Lives (writes_buffer ∷ ts) text last n ended running full cur empties bs f v w r p = tt
run-Lives (ends_round ∷ ts) text last n flushes running full cur empties [] f v w r p =
    run-Lives ts text last n tests running full cur empties [] f v w tt p
run-Lives (ends_round ∷ ts) text last n flushes running full cur empties (b ∷ bs) f v w r p = tt
run-Lives (ends_round ∷ ts) text last n tests running full cur empties bs f v w r p = tt
run-Lives (ends_round ∷ ts) text last n waits running full cur empties bs f v w r p = tt
run-Lives (ends_round ∷ ts) text last n ended running full cur empties bs f v w r p = tt
run-Lives (stops ∷ ts) text last n position running full cur empties bs f v w r p =
    run-Lives ts text last n position false full cur empties bs f v w
      (Rests-stopped position running bs r) p

-- Take a logger that is made on four blank buffers of the meant size, a file whose writes all go
-- through, and any run of its thread, of log calls and of the destructor's clearing of the flag, in
-- which every time has 15 characters and at most a buffer's size is logged from one collection to the
-- next. No turn is undefined. If the run comes to its end, the file, the buffers that wait and the
-- current one show the text that was logged, in order; once the flag is cleared, turns of the thread
-- itself, among them no log call, bring it behind its loop; and if the thread is there, the flag is
-- cleared, it has nothing left to write, and the file holds the text as of its last collection: what
-- was logged after that is lost.
pub run_turns-Lives :
    (a b c d : Buffer) (f : LogFile) (ts : List Turn)
    → Fresh a
    → Fresh b
    → Fresh c
    → Fresh d
    → f.results ≡ []
    → Paced 0 (steps_of ts)
    → Shows (Lives ts f.written f.written) (run_turns ts (log_thread a b c d f))
unfolding log_thread async_loger
run_turns-Lives a b c d f ts u v w x r p =
    run-Lives ts f.written f.written 0 tests true none d (a ∷ b ∷ c ∷ []) [] f
      (first-At a b c d f u v w x r) (append-nil f.written) tt p
