-- ===== src/AsyncLoger/Tests.antt =====
-- Runs of src/AsyncLoger.cpp.
use lxc_http_server.Common.{
  ◌≡◌, refl, List, [], ◌∷◌, ◌++◌, some, none, ok, fault, null_pointer, Bytes, codes, replicate,
  arith, Ends,
}
use lxc_http_server.AsyncLoger.{
  Buffer, AsyncLoger, LogFile, logbuffersize, buffer, async_loger, log_text, log_info, log_round,
}
use lxc_http_server.AsyncLoger.Logging.{IsSized, IsReady, Logs, log_info-Logs}
use lxc_http_server.AsyncLoger.Logging.{Fresh}
use lxc_http_server.AsyncLoger.Rounds.{log_round-fault}
use lxc_http_server.AsyncLoger.Steps.{Step, LogState, collects, writes, run_steps}
use lxc_http_server.AsyncLoger.Runs.{spec_steps, Shows}
use lxc_http_server.AsyncLoger.Refinement.{IsText, run_steps-IsText}
use lxc_http_server.AsyncLoger.{append, append_available, collect, write_to_file}
use lxc_http_server.Common.{Outcome, ◌>>=◌}
use lxc_http_server.AsyncLoger.Life.{
  Turn, logs_line, tests_running, collects_buffers, writes_buffer, ends_round, stops, log_thread,
  run_turns,
}
use lxc_http_server.AsyncLoger.Shutdown.{Lives, last_collected, run_turns-Lives}
use lxc_http_server.AsyncLoger.Singleton.{
  enters, no_instance, enter_call, call_step, step_at, run_calls, HasOne, main_first,
  run_calls-HasOne,
}
use lxc_http_server.AsyncLoger.Dropped.{
  Event, logs, rounds, run_events, only_rounds, IsDead, run_events-IsDead,
}

abbrev blank : Buffer
blank = buffer logbuffersize logbuffersize []

abbrev stamp : Bytes
stamp = replicate 15 b' '

abbrev fresh : AsyncLoger
fresh = async_loger blank blank blank blank

blank-IsSized : IsSized blank
unfolding buffer
blank-IsSized = record { size = refl; within = omega arith }

fresh-IsReady : IsReady fresh
unfolding async_loger buffer
fresh-IsReady = record {
  current = blank-IsSized;
  empties = ((blank-IsSized, refl), ((blank-IsSized, refl), ((blank-IsSized, refl), tt)));
}

log_info-Logs_example :
    (l' : AsyncLoger) × (log_info fresh stamp (codes "hello") ≡ ok l')
    × Logs fresh (stamp ++ log_text (codes "hello")) l'
unfolding async_loger
log_info-Logs_example = log_info-Logs fresh blank stamp (codes "hello") refl fresh-IsReady refl

abbrev file : LogFile
file = record { written = []; results = [] }

abbrev used : Buffer
used = record { buffer_size = logbuffersize; content = codes "a line" }

abbrev one_full : AsyncLoger
one_full = record (async_loger blank blank blank used) { to_write_buffers = some used ∷ [] }

abbrev two_full : AsyncLoger
two_full = record fresh { to_write_buffers = some used ∷ some used ∷ [] }

log_round-fault_example : log_round two_full file ≡ fault null_pointer
log_round-fault_example = log_round-fault two_full file (some used) (some used) [] refl

abbrev dead : AsyncLoger
dead = record fresh { cur_buffer = none }

abbrev events : List Event
events = logs stamp (codes "x") ∷ rounds ∷ logs stamp (codes "y") ∷ []

run_events-IsDead_example :
    (run_events events (dead, file) ≡ run_events (only_rounds events) (dead, file))
    × Ends IsDead (run_events events (dead, file))
run_events-IsDead_example = run_events-IsDead events (dead, file) refl

blank-Fresh : Fresh blank
unfolding buffer
blank-Fresh = (blank-IsSized, refl)

-- A line is logged while the back end writes the one before.
abbrev paced : List Step
paced =
    Step.logs stamp (codes "x")
    ∷ collects
    ∷ Step.logs stamp (codes "y")
    ∷ writes
    ∷ Step.logs stamp (codes "z")
    ∷ []

run_steps-IsText_example : Shows (IsText (spec_steps paced file.written)) (
    run_steps paced
      (record { loger = async_loger blank blank blank blank; pending = []; file = file }))
unfolding log_text
run_steps-IsText_example =
    run_steps-IsText blank blank blank blank file paced blank-Fresh blank-Fresh blank-Fresh
      blank-Fresh refl (refl, omega arith, (refl, omega arith, (refl, omega arith, tt)))

abbrev written_to : LogState → Outcome Bytes
written_to s = ok s.file.written

paced_written :
    (do s ← run_steps paced (record { loger = fresh; pending = []; file = file }); written_to s)
    ≡ ok (stamp ++ codes "x")
unfolding run_steps log_info append append_available buffer async_loger collect write_to_file
paced_written = refl

-- The flag is cleared while a buffer is being written: the second line never reaches the file.
abbrev late_turns : List Turn
late_turns =
    logs_line stamp (codes "early")
    ∷ tests_running
    ∷ collects_buffers
    ∷ logs_line stamp (codes "late")
    ∷ stops
    ∷ writes_buffer
    ∷ ends_round
    ∷ tests_running
    ∷ []

run_turns-Lives_example :
    Shows
      (Lives late_turns file.written file.written)
      (run_turns late_turns (log_thread blank blank blank blank file))
unfolding buffer log_text
run_turns-Lives_example =
    run_turns-Lives blank blank blank blank file late_turns (blank-IsSized, refl)
      (blank-IsSized, refl) (blank-IsSized, refl) (blank-IsSized, refl) refl
      (refl, omega arith, (refl, omega arith, tt))

late_line : last_collected late_turns [] [] ≡ stamp ++ codes "early"
unfolding log_text
late_line = refl

run_calls-HasOne_example : HasOne (main_first (1 ∷ 2 ∷ 1 ∷ 2 ∷ []) 2)
run_calls-HasOne_example = run_calls-HasOne (1 ∷ 2 ∷ 1 ∷ 2 ∷ []) 2

-- Two calls that both test before either has assigned construct two loggers.
two_made : (run_calls (0 ∷ 1 ∷ 0 ∷ 1 ∷ []) (enters ∷ enters ∷ [], no_instance)).1.made ≡ 2
unfolding run_calls step_at call_step enter_call
two_made = refl
