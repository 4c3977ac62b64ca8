-- ===== src/ThreadPool/Schedules.antt =====
-- What holds of a pool under every schedule of its threads, of `appendFd` and of the destructor.
use mathlib.Core.Path.{subst}
use lxc_http_server.Common.{
  ℕ, ltb, ◌≡◌, refl, sym, ap, ◌∙◌, true, false, inl, inr, List, [], ◌∷◌, ◌++◌, append_assoc,
  append-nil, none, some, ok,
}
use lxc_http_server.ThreadPool.{
  TaskData, Phase, loop_test, locks, tests_empty, tests_running, to_wait, waits, tests_return,
  takes, works, finished, ThreadPool, thread_pool, goto, release, take_front, is_empty_list, worker,
  wake, append_fd, Action, runs, appends, signals, stops, notifies_all, act, run_actions,
}
use lxc_http_server.ThreadPool.Invariant.{
  Sound, Sound-bind, Sound-mono, Sound-if, At, At-if, At-free, At-stops, At-wake, Safe, goto-Safe,
  acquire-Safe, not_free, set_phase-Safe,
}

-- A thread that has the mutex gives it back, whatever it does to the work list.
release-Safe :
    (q : List TaskData) (i : ℕ) (x : Phase) (p : ThreadPool) (rest took : List TaskData)
    → Safe q p
    → p.mutex ≡ some i
    → At none rest p.running i x
    → took ++ rest ≡ q
    → Safe q (release x i (record p { work_list = rest; taken = took }))
unfolding release
release-Safe q i x p rest took v m h s =
    set_phase-Safe q i x p (record p { mutex = none; work_list = rest; taken = took }) v h
      (λ j d.
        At-free p.mutex none p.work_list rest p.running p.running j (p.threads j)
          (not_free p.mutex i j m d))
      refl s

take_front-Safe :
    (q : List TaskData) (i : ℕ) (p : ThreadPool) (l : List TaskData)
    → Safe q p
    → p.work_list ≡ l
    → p.mutex ≡ some i
    → is_empty_list l ≡ false
    → Sound (Safe q) (take_front l i p)
unfolding take_front is_empty_list
take_front-Safe q i p [] v e m h = absurd cc
take_front-Safe q i p (t ∷ rest) v e m h =
    release-Safe q i (works t) p rest (p.taken ++ t ∷ []) v m tt
      (append_assoc p.taken (t ∷ []) rest ∙ sym (ap (◌++◌ p.taken) e) ∙ v.served)

pub worker-Safe :
    (q : List TaskData) (i : ℕ) (x : Phase) (p : ThreadPool)
    → Safe q p
    → At p.mutex p.work_list p.running i x
    → Sound (Safe q) (worker x i p)
unfolding worker
worker-Safe q i loop_test p v h =
    goto-Safe q i _ p v
      (At-if p.mutex p.work_list p.running i locks finished p.running (λ y. tt) (λ n. tt))
worker-Safe q i locks p v h = acquire-Safe q i p v
worker-Safe q i tests_empty p v h = goto-Safe q i _ p v (
    At-if p.mutex p.work_list p.running i tests_running tests_return (is_empty_list p.work_list)
      (λ y. h) (λ n. (h, inl n)))
worker-Safe q i tests_running p v h = goto-Safe q i _ p v (
    At-if p.mutex p.work_list p.running i to_wait tests_return p.running (λ y. h) (λ n. (h, inr n)))
worker-Safe q i to_wait p v h = release-Safe q i waits p p.work_list p.taken v h tt v.served
worker-Safe q i waits p v h = tt
worker-Safe q i tests_return p v (m, o) =
    Sound-if (Safe q) (ok (goto takes i p)) (ok (release finished i p)) p.running
      (λ y. goto-Safe q i takes p v (m, elim o [ inl l ↦ l | inr r ↦ absurd cc ]))
      (λ n. release-Safe q i finished p p.work_list p.taken v m tt v.served)
worker-Safe q i takes p v (m, l) = take_front-Safe q i p p.work_list v refl m l
worker-Safe q i (works t) p v h = goto-Safe q i loop_test p v tt
worker-Safe q i finished p v h = tt

abbrev pub appended : List Action → List TaskData
appended [] = []
appended (appends t ∷ rest) = t ∷ appended rest
appended (runs i ∷ rest) = appended rest
appended (signals i ∷ rest) = appended rest
appended (stops ∷ rest) = appended rest
appended (notifies_all ∷ rest) = appended rest

appended-cons : (a : Action) (l : List Action) → appended (a ∷ []) ++ appended l ≡ appended (a ∷ l)
appended-cons (appends t) l = refl
appended-cons (runs i) l = refl
appended-cons (signals i) l = refl
appended-cons stops l = refl
appended-cons notifies_all l = refl

pub append_fd-Safe :
    (q : List TaskData) (t : TaskData) (p : ThreadPool)
    → Safe q p
    → Sound (Safe (q ++ t ∷ [])) (append_fd p.mutex t p)
unfolding append_fd
append_fd-Safe q t p v =
    elim p.mutex as (λ m. p.mutex ≡ m → Sound (Safe (q ++ t ∷ [])) (append_fd m t p)) [
      | none ↦ λ e. record {
        stands = λ j.
            At-free p.mutex p.mutex p.work_list (p.work_list ++ t ∷ []) p.running p.running j
              (p.threads j) (λ h. cc) (v.stands j);
        served = sym (append_assoc p.taken p.work_list (t ∷ [])) ∙ ap (λ l. l ++ t ∷ []) v.served;
      }
      | some k ↦ λ e. tt
    ]
      refl

act-Safe :
    (q : List TaskData) (a : Action) (p : ThreadPool)
    → Safe q p
    → Sound (Safe (q ++ appended (a ∷ []))) (act a p)
unfolding act
act-Safe q (appends t) p v = append_fd-Safe q t p v
act-Safe q (runs i) p v = rw (append-nil q) (worker-Safe q i (p.threads i) p v (v.stands i))
act-Safe q (signals i) p v = rw (append-nil q) (
    goto-Safe q i (wake (p.threads i)) p v
      (At-wake p.mutex p.work_list p.running i (p.threads i) (v.stands i)))
act-Safe q stops p v = rw (append-nil q) (record {
  stands = λ j. At-stops p.mutex p.work_list p.running j (p.threads j) (v.stands j);
  served = v.served;
})
act-Safe q notifies_all p v = rw (append-nil q) (record {
  stands = λ j. At-wake p.mutex p.work_list p.running j (p.threads j) (v.stands j);
  served = v.served;
})

run_actions-Safe :
    (q : List TaskData) (l : List Action) (p : ThreadPool)
    → Safe q p
    → Sound (Safe (q ++ appended l)) (run_actions l p)
unfolding run_actions
run_actions-Safe q [] p v = rw (append-nil q) v
run_actions-Safe q (a ∷ l) p v =
    Sound-bind (Safe (q ++ appended (a ∷ []))) (Safe (q ++ appended (a ∷ l))) (act a p)
      (run_actions l) (act-Safe q a p v)
      (λ p1 v1.
        subst (λ w. Sound (Safe w) (run_actions l p1))
          (append_assoc q (appended (a ∷ [])) (appended l) ∙ ap (◌++◌ q) (appended-cons a l))
          (run_actions-Safe _ l p1 v1))

pub thread_pool-Safe : (n m : ℕ) → Safe [] (thread_pool n m)
unfolding thread_pool
thread_pool-Safe n m = record {
  stands = λ i. At-if none [] true i loop_test finished (ltb i n) (λ y. tt) (λ n. tt);
  served = refl;
}

-- Under every schedule of a new pool's threads, of appends, wakeups and the destructor's statements,
-- no thread takes the front of an empty list, and the tasks that threads have taken, followed by those
-- that wait, are the tasks that were appended, in that order.
pub run_actions-served :
    (thread_num max : ℕ) (l : List Action)
    → Sound (λ p. p.taken ++ p.work_list ≡ appended l) (run_actions l (thread_pool thread_num max))
run_actions-served n max l =
    Sound-mono _ _ (run_actions l (thread_pool n max))
      (run_actions-Safe [] l _ (thread_pool-Safe n max)) (λ p v. v.served)
