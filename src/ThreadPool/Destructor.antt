-- ===== src/ThreadPool/Destructor.antt =====
-- The destructor of the pool: `running` is set without the mutex.
use lxc_http_server.Common.{
  ℕ, suc, ◌==◌, lt→ltb, ◌≡◌, refl, ap, true, false, Bool-cases, inl, inr, List, [], ◌∷◌, ◌++◌, map,
  none, some, if◌then◌else◌, ok, blocks, Ends, Ends-bind, Ends-mono, ◌>>=◌, arith,
}
use lxc_http_server.ThreadPool.{
  Phase, loop_test, locks, tests_empty, tests_running, to_wait, waits, tests_return, takes, works,
  finished, ThreadPool, thread_pool, set_phase, goto, acquire, release, take_front, is_empty_list,
  worker, wake, Action, runs, stops, notifies_all, act, run_actions,
}

-- Thread 0 finds the list empty and the flag set; before it waits, the destructor clears the flag and
-- wakes the threads that wait; then thread 0 waits.
abbrev pub lost_wakeup : List Action
lost_wakeup = runs 0 ∷ runs 0 ∷ runs 0 ∷ runs 0 ∷ stops ∷ notifies_all ∷ runs 0 ∷ []

Waiting : ThreadPool → Type 0
Waiting p = (p.threads 0 ≡ waits) × (p.running ≡ false)

goto-Waiting :
    (i : ℕ) (x : Phase) (p : ThreadPool) → (0 == i) ≡ false → Waiting p → Waiting (goto x i p)
unfolding goto set_phase Waiting
goto-Waiting i x p d (w, r) = (rw d w, r)

worker-Waiting :
    (i : ℕ) (x : Phase) (p : ThreadPool)
    → (0 == i) ≡ false
    → Waiting p
    → Ends Waiting (worker x i p)
unfolding worker release Waiting
worker-Waiting i loop_test p d w = goto-Waiting i _ p d w
worker-Waiting i locks p d w = elim p.mutex as (λ m. Ends Waiting (acquire m tests_empty i p)) [
  | none ↦ unfold acquire in goto-Waiting i tests_empty (record p { mutex = some i }) d w
  | some k ↦ unfold acquire in tt
]
worker-Waiting i tests_empty p d w = goto-Waiting i _ p d w
worker-Waiting i tests_running p d w = goto-Waiting i _ p d w
worker-Waiting i to_wait p d w = goto-Waiting i waits (record p { mutex = none }) d w
worker-Waiting i waits p d w = tt
worker-Waiting i tests_return p d w =
    elim p.running
      as (λ r. Ends Waiting (if r then ok (goto takes i p) else ok (release finished i p))) [
        | true ↦ goto-Waiting i takes p d w
        | false ↦ goto-Waiting i finished (record p { mutex = none }) d w
      ]
worker-Waiting i takes p d w = elim p.work_list as (λ l. Ends Waiting (take_front l i p)) [
  | [] ↦ tt
  | t ∷ rest ↦
      unfold take_front in
      goto-Waiting i (works t)
        (record p { mutex = none; work_list = rest; taken = p.taken ++ t ∷ [] }) d w
]
worker-Waiting i (works t) p d w = goto-Waiting i loop_test p d w
worker-Waiting i finished p d w = tt

run-Waiting : (i : ℕ) (p : ThreadPool) → Waiting p → Ends Waiting (act (runs i) p)
unfolding act
run-Waiting i p w = elim (Bool-cases (0 == i)) [
  | inl y ↦
      let e : i ≡ 0 = ground arith in
      let blocked : worker (p.threads i) i p ≡ blocks = unfold worker Waiting in rw (e, w.0) refl in
      rw blocked tt
  | inr n ↦ worker-Waiting i (p.threads i) p n w
]

runs-Waiting :
    (is : List ℕ) (p : ThreadPool) → Waiting p → Ends Waiting (run_actions (map runs is) p)
unfolding run_actions
runs-Waiting [] p w = w
runs-Waiting (i ∷ is) p w =
    Ends-bind Waiting Waiting (act (runs i) p) (run_actions (map runs is)) (run-Waiting i p w)
      (runs-Waiting is)

lost_wakeup-Waiting :
    (n max : ℕ)
    → (p : ThreadPool) × (run_actions lost_wakeup (thread_pool (suc n) max) ≡ ok p) × Waiting p
unfolding run_actions act worker goto set_phase acquire release is_empty_list wake thread_pool
    Waiting
lost_wakeup-Waiting n max =
    let start = thread_pool (suc n) max in
    let first : worker (start.threads 0) 0 start ≡ worker loop_test 0 start =
      rw (lt→ltb 0 (suc n) (omega arith)) refl in
    (
      _,
      ap (λ r. r >>= run_actions (runs 0 ∷ runs 0 ∷ runs 0 ∷ stops ∷ notifies_all ∷ runs 0 ∷ []))
          first,
      (refl, refl),
    )

-- For a new pool of one thread or more there is a run of thread 0 in which the destructor clears the
-- flag and wakes the threads that wait, and after which thread 0 waits; and if the threads run from
-- there in any order, without a spurious wakeup, thread 0 still waits.
pub run_actions-lost_wakeup :
    (n max : ℕ) (is : List ℕ)
    → (p : ThreadPool) × (run_actions lost_wakeup (thread_pool (suc n) max) ≡ ok p)
      × (p.threads 0 ≡ waits)
      × (p.running ≡ false)
      × Ends (λ q. q.threads 0 ≡ waits) (run_actions (map runs is) p)
unfolding Waiting
run_actions-lost_wakeup n max is =
    let (p, r, (w, f)) = lost_wakeup-Waiting n max in
    (
      p,
      r,
      w,
      f,
      Ends-mono Waiting _ (run_actions (map runs is) p) (runs-Waiting is p (w, f)) (λ q h. h.0),
    )
