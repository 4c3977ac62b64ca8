-- ===== src/AsyncLoger/Life.antt =====
-- The life of the back end's thread of src/AsyncLoger.cpp, from the constructor to the destructor:
-- where `threadFun` stands, and the flag `running`.
use lxc_http_server.Common.{
  Bool, true, false, List, [], ◌∷◌, Bytes, Option, Outcome, ok, blocks, ◌>>=◌, if◌then◌else◌,
}
use lxc_http_server.AsyncLoger.{Buffer, LogFile, async_loger}
use lxc_http_server.AsyncLoger.Steps.{LogState, logs, collects, writes, step}

-- `tests`: before `while (running)`. `waits`: at `waitForTime`. `flushes`: in the loop of lines 110 to
-- 118. `ended`: behind the loop.
pub data Position : Type 0 where
  tests waits flushes ended : Position

pub record LogThread : Type 0 where
  pub position : Position
  pub running : Bool
  pub log : LogState

-- The thread's turns, in the order of its loop, those of the threads that log, and the destructor's
-- first line.
pub data Turn : Type 0 where
  logs_line : Bytes → Bytes → Turn
  tests_running collects_buffers writes_buffer ends_round stops : Turn

unfoldable pub log_thread : Buffer → Buffer → Buffer → Buffer → LogFile → LogThread
unfolding async_loger
log_thread a b c d f = record {
  position = tests;
  running = true;
  log = record { loger = async_loger a b c d; pending = []; file = f };
}

unfoldable pub test_turn : Position → LogThread → Outcome LogThread
test_turn tests l = ok (record l { position = if l.running then waits else ended })
test_turn _ l = blocks

-- `waitForTime` comes back after the time, or when it is notified.
unfoldable pub collect_turn : Position → LogThread → Outcome LogThread
unfolding step
collect_turn waits l = do s ← step collects l.log; ok (record l { position = flushes; log = s })
collect_turn _ l = blocks

unfoldable pub write_turn : Position → LogThread → Outcome LogThread
unfolding step
write_turn flushes l = do s ← step writes l.log; ok (record l { log = s })
write_turn _ l = blocks

unfoldable pub end_turn : Position → List (Option Buffer) → LogThread → Outcome LogThread
end_turn flushes [] l = ok (record l { position = tests })
end_turn _ _ l = blocks

unfoldable pub turn : Turn → LogThread → Outcome LogThread
unfolding step test_turn collect_turn write_turn end_turn
turn (logs_line stamp line) l = do s ← step (logs stamp line) l.log; ok (record l { log = s })
turn tests_running l = test_turn l.position l
turn collects_buffers l = collect_turn l.position l
turn writes_buffer l = write_turn l.position l
turn ends_round l = end_turn l.position l.log.pending l
turn stops l = ok (record l { running = false })

unfoldable pub run_turns : List Turn → LogThread → Outcome LogThread
unfolding turn
run_turns [] l = ok l
run_turns (m ∷ rest) l = do l1 ← turn m l; run_turns rest l1
