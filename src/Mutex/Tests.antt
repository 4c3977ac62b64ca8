-- ===== src/Mutex/Tests.antt =====
-- A wait of include/Mutex.h.
use lxc_http_server.Common.{◌+◌, ◌≡◌, arith, ok}
use lxc_http_server.Mutex.{Timespec, wait_for_time, wait_for_time-exact}

abbrev clock : Timespec
clock = record { tv_sec = 1700000000; tv_nsec = 999999999 }

wait_for_time-exact_example :
    wait_for_time 3 clock ≡ ok (record { tv_sec = clock.tv_sec + 3; tv_nsec = clock.tv_nsec })
wait_for_time-exact_example = wait_for_time-exact 3 clock (omega arith) (omega arith) (omega arith)
