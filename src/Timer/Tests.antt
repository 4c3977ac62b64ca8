-- ===== src/Timer/Tests.antt =====
-- Runs of src/Timer.cpp on one or two connections.
use lxc_http_server.Common.{◌≡◌, refl, List, [], ◌∷◌, ok, fault, empty_container, Ends, pos, arith}
use lxc_http_server.Timer.{Timer, timer, addfd, delete_fd, forbiden_fd, delete_expired_fd}
use lxc_http_server.Timer.Links.{
  IsLinked, Guarded, timer-IsLinked, addfd-IsLinked, delete_fd-forbiden_fd-Guarded,
}
use lxc_http_server.Timer.Histories.{
  Method, adds, deletes, forbids, expires, run_methods, sets_aside, run_methods-IsLinked,
}
use lxc_http_server.Timer.Aside.{IsAside}
use lxc_http_server.Timer.Miscounted.{forbiden_fd-miscounted}
use lxc_http_server.Common.{suc, length}
use lxc_http_server.Timer.Kernel.{Interests, kernel}
use lxc_http_server.Timer.Registered.{Registered, run_methods-Registered}
use lxc_http_server.Timer.Calls.{kernel_calls}
use lxc_http_server.Timer.Rearm.{IsDisarmed, run_methods-IsDisarmed}
use lxc_http_server.Common.{◌==◌, none, some, true, false, if◌then◌else◌}
use lxc_http_server.Timer.Expiry.{Ascending, Removed, delete_expired_fd-Removed, addfd-Ascending}

abbrev one_kept : Timer
one_kept = (addfd (timer 15 10) 100 5).0

one_kept-IsLinked : IsLinked one_kept
one_kept-IsLinked = addfd-IsLinked (timer 15 10) 100 5 (timer-IsLinked 15 10)

delete_fd-forbiden_fd-Guarded_example :
    Guarded one_kept 5 (delete_fd one_kept 5) × Guarded one_kept 5 (forbiden_fd one_kept 5)
delete_fd-forbiden_fd-Guarded_example = delete_fd-forbiden_fd-Guarded one_kept 5 one_kept-IsLinked

abbrev history : List Method
history =
    adds 100 5 ∷ forbids 5 ∷ adds 101 5 ∷ adds 102 6 ∷ deletes 6 ∷ expires 130 ∷ adds 131 9 ∷ []

run_methods-IsLinked_example :
    Ends
      (λ t. IsLinked t × IsAside (λ fd. sets_aside fd history ≡ true) t)
      (run_methods history (timer 15 10))
run_methods-IsLinked_example = run_methods-IsLinked history 15 10

delete_expired_fd-Removed_example :
    (u : Timer) × (delete_expired_fd one_kept 116 ≡ ok u)
    × Removed 116 one_kept.time_list one_kept u
unfolding addfd timer
delete_expired_fd-Removed_example = delete_expired_fd-Removed one_kept 116 (tt, tt) refl

addfd-Ascending_example : Ascending (addfd one_kept 101 6).0.time_list
unfolding addfd timer
addfd-Ascending_example = addfd-Ascending one_kept 101 6 (tt, tt) (omega arith, tt)

forbiden_fd-miscounted_example :
    (u : Timer) × (forbiden_fd one_kept 5 ≡ ok u)
    × (u.cur_size ≡ pos (suc (length u.time_list)))
    × (delete_expired_fd u 116 ≡ fault empty_container)
unfolding addfd timer
forbiden_fd-miscounted_example =
    forbiden_fd-miscounted one_kept 5 0 116 one_kept-IsLinked refl (omega arith, tt) refl

-- The listening socket is in the set.
abbrev listening : Interests
listening fd = if fd == 3 then some true else none

run_methods-Registered_example :
    Ends (Registered kernel listening) (run_methods history (timer 15 10))
run_methods-Registered_example = run_methods-Registered kernel listening history 15 10

-- The event of a connection has been reported, and its answer was sent.
abbrev reported : Interests
reported fd = if fd == 5 then some false else none

abbrev serves_again : List Method
serves_again = forbids 5 ∷ adds 104 5 ∷ adds 105 6 ∷ deletes 6 ∷ []

run_methods-IsDisarmed_example :
    Ends (IsDisarmed kernel reported 5) (run_methods serves_again (record one_kept { calls = [] }))
unfolding kernel_calls kernel
run_methods-IsDisarmed_example =
    run_methods-IsDisarmed kernel reported 5 serves_again (record one_kept { calls = [] })
      (refl, tt) (record { registered = refl; disarmed = refl })
