-- ===== src/Mutex.antt =====
-- include/Mutex.h: the deadline of `ConditionTimeWait::waitForTime`, for a wait that is not negative.
-- The steps of ThreadPool have the locks and conditions of their own.
pub mod Guard
pub mod Condition
mod Tests
use lxc_http_server.Common.{
  ℕ, ◌+◌, ◌*◌, ◌/◌, ◌%◌, ◌^◌, ◌<◌, ◌≡◌, refl, ltb, lt→ltb, arith, Outcome, ok, check, int_overflow,
  ◌>>◌, ◌>>=◌,
}

-- What `clock_gettime` fills.
pub record Timespec : Type 0 where
  pub tv_sec : ℕ
  pub tv_nsec : ℕ

abbrev pub nano_seconds_per_second : ℕ
nano_seconds_per_second = 1000000000

-- 64-bit arithmetic: a sum or product that leaves it is undefined.
unfoldable pub wait_for_time : ℕ → Timespec → Outcome Timespec
wait_for_time wait_second now = do
  let nanoseconds = wait_second * nano_seconds_per_second
  check (ltb nanoseconds (2 ^ 63)) int_overflow
  check (ltb (now.tv_nsec + nanoseconds) (2 ^ 63)) int_overflow
  let seconds = (now.tv_nsec + nanoseconds) / nano_seconds_per_second
  check (ltb (now.tv_sec + seconds) (2 ^ 63)) int_overflow
  ok (record {
    tv_sec = now.tv_sec + seconds;
    tv_nsec = (now.tv_nsec + nanoseconds) % nano_seconds_per_second;
  })

whole_seconds : (n w : ℕ) → n < 1000000000 → (n + w * 1000000000) / 1000000000 ≡ w
whole_seconds n w h = omega arith

nanoseconds_left : (n w : ℕ) → n < 1000000000 → (n + w * 1000000000) % 1000000000 ≡ n
nanoseconds_left n w h = omega arith

-- For a wait of less than 2^31 seconds, from a time with less than a second of nanoseconds and a
-- deadline below 2^63 seconds, no sum or product of `wait_for_time` overflows, and the deadline is the
-- time given and exactly that many seconds.
pub wait_for_time-exact :
    (w : ℕ) (now : Timespec)
    → w < 2 ^ 31
    → now.tv_nsec < nano_seconds_per_second
    → now.tv_sec + w < 2 ^ 63
    → wait_for_time w now ≡ ok (record { tv_sec = now.tv_sec + w; tv_nsec = now.tv_nsec })
unfolding wait_for_time
wait_for_time-exact w now h n s = rw (
  lt→ltb (w * 1000000000) (2 ^ 63) (omega arith),
  lt→ltb (now.tv_nsec + w * 1000000000) (2 ^ 63) (omega arith),
  whole_seconds now.tv_nsec w n,
  lt→ltb (now.tv_sec + w) (2 ^ 63) s,
  nanoseconds_left now.tv_nsec w n,
)
