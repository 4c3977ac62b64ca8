-- ===== src/AsyncLoger.antt =====
-- include/AsyncLoger.h and src/AsyncLoger.cpp: the log's buffers, the front end `logInfo` and one round
-- of the back end `threadFun`. The mutex makes `logInfo` and the collecting half of a round one step
-- each. A `unique_ptr` is an `Option`; `none` is one that has been moved from.
pub mod Logging
pub mod Rounds
pub mod Dropped
pub mod Steps
pub mod Paced
pub mod Backend
pub mod Runs
pub mod Refinement
pub mod Life
pub mod Singleton
pub mod Clock
pub mod Ending
pub mod Shutdown
mod Tests
use mathlib.Core.List.{reverse}
use lxc_http_server.Common.{
  ℕ, zero, suc, ◌+◌, ◌-◌, ◌*◌, ◌/◌, Bool, true, false, not, List, [], ◌∷◌, ◌++◌, Option, none, some,
  Bytes, codes, length, take, drop, ltb, leb, if◌then◌else◌, Outcome, ok, fault, out_of_bounds,
  null_pointer, ◌>>=◌,
}

abbrev pub logbuffersize : ℕ
logbuffersize = 1 * 1024 * 1024

abbrev pub date_string_length : ℕ
date_string_length = 15

-- `content` is what stands before the position `end`, which is its length.
pub record Buffer : Type 0 where
  pub buffer_size : ℕ
  pub content : Bytes

-- The constructor initialises neither `bufferSize` nor `end`: the buffer has what the memory held,
-- whatever size is asked for.
unfoldable pub buffer : ℕ → ℕ → Bytes → Buffer
buffer size left_size left_content = record { buffer_size = left_size; content = left_content }

-- `memcpy` behind the end of the array is out of bounds.
unfoldable pub append : Buffer → Bytes → Outcome Buffer
append b line =
    if leb (length b.content + length line) b.buffer_size
    then ok (record b { content = b.content ++ line })
    else fault out_of_bounds

unfoldable pub append_available : Buffer → ℕ → Bool
append_available b str_len =
    if leb b.buffer_size (length b.content + str_len + date_string_length) then false else true

unfoldable pub is_empty : Buffer → Bool
is_empty b = leb (length b.content) 0

-- What the log file holds, and what `write` returns next: -1, or how much it has written. With no
-- more results given, everything is written.
pub record LogFile : Type 0 where
  pub written : Bytes
  pub results : List (Option ℕ)

-- `Buffer::writeToFile`: of a write that succeeds, even in part, the buffer is emptied.
write_result : List (Option ℕ) → Buffer → LogFile → Buffer × LogFile
write_result [] b f = (record b { content = [] }, record f { written = f.written ++ b.content })
write_result (none ∷ rest) b f = (b, record f { results = rest })
write_result (some n ∷ rest) b f = (
  record b { content = [] },
  record f { written = f.written ++ take n b.content; results = rest },
)

unfoldable pub write_to_file : Buffer → LogFile → Buffer × LogFile
unfolding write_result
write_to_file b f = write_result f.results b f

pub record AsyncLoger : Type 0 where
  pub cur_buffer : Option Buffer
  pub empty_buffers : List Buffer
  pub to_write_buffers : List (Option Buffer)

-- The constructor, on the four buffers that it makes: the last becomes the current one.
unfoldable pub async_loger : Buffer → Buffer → Buffer → Buffer → AsyncLoger
async_loger a b c d = record {
  cur_buffer = some d;
  empty_buffers = a ∷ b ∷ c ∷ [];
  to_write_buffers = [];
}

-- `back` and the rest of a list that is not empty.
unfoldable pub pop_back {ℓ} : {A : Type ℓ} → List A → Option (A × List A)
pop_back [] = none
pop_back (x ∷ xs) = elim (pop_back xs) [ none ↦ some (x, []) | some (y, ys) ↦ some (y, x ∷ ys) ]

-- What `logInfo` makes of the line: one that is too long is cut, and its end marked.
unfoldable pub log_text : Bytes → Bytes
log_text logline =
    if ltb (logbuffersize / 2) (length logline)
    then take (logbuffersize / 2 - 17) logline ++ codes "Log Info Too Long"
    else logline

-- The two calls of `append`: the time, then the line.
unfoldable pub append_both : Buffer → Bytes → Bytes → Outcome Buffer
unfolding append
append_both b stamp text = do b1 ← append b stamp; append b1 text

-- `logInfo` where the current buffer has no room: it goes to the back end, and an empty one, if there
-- is one, takes its place and the line. Else the line is lost.
unfoldable pub swap_buffer :
    Option (Buffer × List Buffer) → AsyncLoger → Buffer → Bytes → Bytes → Outcome AsyncLoger
unfolding append_both
swap_buffer none l full stamp text =
    ok (record l { cur_buffer = none; to_write_buffers = l.to_write_buffers ++ some full ∷ [] })
swap_buffer (some (fresh, rest)) l full stamp text = do
  b ← append_both fresh stamp text
  ok (record l {
    cur_buffer = some b;
    empty_buffers = rest;
    to_write_buffers = l.to_write_buffers ++ some full ∷ [];
  })

-- `logInfo` with a current buffer; `stamp` is the time as `sprintCurTime` writes it, with a space.
unfoldable pub log_current : AsyncLoger → Buffer → Bytes → Bytes → Outcome AsyncLoger
unfolding append_available append_both swap_buffer pop_back
log_current l b stamp text =
    if append_available b (length text + date_string_length)
    then (do b1 ← append_both b stamp text; ok (record l { cur_buffer = some b1 }))
    else swap_buffer (pop_back l.empty_buffers) l b stamp text

log_into : Option Buffer → AsyncLoger → Bytes → Bytes → Outcome AsyncLoger
unfolding log_current
log_into none l stamp text = ok l
log_into (some b) l stamp text = log_current l b stamp text

unfoldable pub log_info : AsyncLoger → Bytes → Bytes → Outcome AsyncLoger
unfolding log_into log_text
log_info l stamp logline = log_into l.cur_buffer l stamp (log_text logline)

-- The back end takes the current buffer, and puts an empty one in its place if there is one.
take_current : Option Buffer → Option (Buffer × List Buffer) → AsyncLoger → AsyncLoger
take_current none back l = l
take_current (some b) none l = record l { cur_buffer = none }
take_current (some b) (some (fresh, rest)) l = record l {
  cur_buffer = some fresh;
  empty_buffers = rest;
}

abbrev pub queued : Option Buffer → List (Option Buffer)
queued none = []
queued (some b) = some b ∷ []

-- `writeQueue.push_back(std::move(toWriteBuffers.back())); toWriteBuffers.pop();` until the queue is
-- empty: the back is moved from, and the front is popped.
unfoldable pub drain : ℕ → List (Option Buffer) → List (Option Buffer) → List (Option Buffer)
unfolding pop_back
drain zero queue write_queue = write_queue
drain (suc n) queue write_queue = elim (pop_back queue) [
  | none ↦ write_queue
  | some (back, front) ↦ drain n (drop 1 (front ++ none ∷ [])) (write_queue ++ back ∷ [])
]

-- The half of a round under the lock: the write queue, and what is left of the logger.
unfoldable pub collect : AsyncLoger → List (Option Buffer) × AsyncLoger
unfolding take_current drain pop_back
collect l = (
  drain (length l.to_write_buffers) l.to_write_buffers (queued l.cur_buffer),
  record (take_current l.cur_buffer (pop_back l.empty_buffers) l) { to_write_buffers = [] },
)

-- The other half writes the queue from its back on and gives the buffers back. The list here is the
-- queue from its back to its front.
unfoldable pub flush : List (Option Buffer) → AsyncLoger → LogFile → Outcome (AsyncLoger × LogFile)
unfolding write_to_file
flush [] l f = ok (l, f)
flush (none ∷ rest) l f = fault null_pointer
flush (some b ∷ rest) l f =
    let (b1, f1) = write_to_file b f in
    flush rest (record l { empty_buffers = l.empty_buffers ++ b1 ∷ [] }) f1

-- One round of the loop of `threadFun`.
unfoldable pub log_round : AsyncLoger → LogFile → Outcome (AsyncLoger × LogFile)
unfolding collect flush
log_round l f = let (write_queue, l1) = collect l in flush (reverse write_queue) l1 f
