-- ===== src/AsyncLoger/Steps.antt =====
-- The back end of src/AsyncLoger.cpp in steps, between which lines are logged.
use mathlib.Core.List.{reverse}
use lxc_http_server.Common.{
  List, [], ◌∷◌, ◌++◌, Option, none, some, Bytes, Outcome, ok, fault, blocks, null_pointer, ◌>>=◌,
}
use lxc_http_server.AsyncLoger.{Buffer, AsyncLoger, LogFile, write_to_file, log_info, collect}

-- `pending` is the thread's `writeQueue` from its back to its front.
pub record LogState : Type 0 where
  pub loger : AsyncLoger
  pub pending : List (Option Buffer)
  pub file : LogFile

pub data Step : Type 0 where
  -- `logInfo`
  logs : Bytes → Bytes → Step
  -- lines 88 to 108, under the mutex
  collects : Step
  -- lines 112 to 117
  writes : Step

-- The loop of lines 110 to 118 comes to its end before the next round begins.
unfoldable pub collect_step : List (Option Buffer) → AsyncLoger → LogFile → Outcome LogState
collect_step (b ∷ rest) l f = blocks
collect_step [] l f =
    let (write_queue, l1) = collect l in
    ok (record { loger = l1; pending = reverse write_queue; file = f })

unfoldable pub write_step : List (Option Buffer) → AsyncLoger → LogFile → Outcome LogState
write_step [] l f = blocks
write_step (none ∷ rest) l f = fault null_pointer
write_step (some b ∷ rest) l f =
    let (b1, f1) = write_to_file b f in
    ok (record {
      loger = record l { empty_buffers = l.empty_buffers ++ b1 ∷ [] };
      pending = rest;
      file = f1;
    })

unfoldable pub step : Step → LogState → Outcome LogState
unfolding collect_step write_step
step (logs stamp line) s = do l ← log_info s.loger stamp line; ok (record s { loger = l })
step collects s = collect_step s.pending s.loger s.file
step writes s = write_step s.pending s.loger s.file

unfoldable pub run_steps : List Step → LogState → Outcome LogState
unfolding step
run_steps [] s = ok s
run_steps (e ∷ rest) s = do s1 ← step e s; run_steps rest s1
