-- ===== src/Mutex/Condition.antt =====
-- `Condition` and the notifications of `ConditionTimeWait` of include/Mutex.h, over the library's
-- condition variable: the threads that wait for it, and the mutex. A thread that has been woken locks
-- the mutex again before its wait returns.
use lxc_http_server.Common.{
  ℕ, zero, suc, ◌<◌, ◌≡◌, refl, ap, List, [], ◌∷◌, ◌++◌, none, some, length, arith, Outcome, ok,
  ◌>>=◌,
}
use lxc_http_server.Mutex.Guard.{MutexLock, lock, unlock, same}

pub record Condition : Type 0 where
  pub mutex : MutexLock
  pub waiters : List ℕ

abbrev pub condition : Condition
condition = record { mutex = none; waiters = [] }

-- `wait` gives the mutex back and sleeps, in one step.
unfoldable pub wait : ℕ → Condition → Outcome Condition
unfolding unlock
wait thread c = do
  m ← unlock thread c.mutex
  ok (record { mutex = m; waiters = c.waiters ++ thread ∷ [] })

without : ℕ → List ℕ → List ℕ
without i [] = []
without zero (x ∷ xs) = xs
without (suc i) (x ∷ xs) = x ∷ without i xs

-- `notify` wakes one of the threads that wait; the system chooses which.
unfoldable pub notify : ℕ → Condition → Condition
unfolding without
notify chosen c = record c { waiters = without chosen c.waiters }

unfoldable pub notify_all : Condition → Condition
notify_all c = record c { waiters = [] }

-- The end of a wait.
unfoldable pub wait_returns : ℕ → Condition → Outcome Condition
unfolding lock
wait_returns thread c = do m ← lock thread c.mutex; ok (record c { mutex = m })

unfoldable pub notifies : List ℕ → Condition → Condition
unfolding notify
notifies [] c = c
notifies (i ∷ chosen) c = notifies chosen (notify i c)

length-without : (i : ℕ) (xs : List ℕ) → i < length xs → suc (length (without i xs)) ≡ length xs
unfolding without
length-without i [] h = absurd (omega (arith, h))
length-without zero (x ∷ xs) h = refl
length-without (suc i) (x ∷ xs) h = ap suc (length-without i xs (omega (arith, h)))

-- The system chooses threads that wait.
abbrev pub Chosen : List ℕ → ℕ → Type 0
Chosen [] n = Unit {0}
Chosen (i ∷ chosen) zero = ⊥
Chosen (i ∷ chosen) (suc n) = (i < suc n) × Chosen chosen n

length-zero : (xs : List ℕ) → length xs ≡ 0 → xs ≡ []
length-zero [] h = refl
length-zero (x ∷ xs) h = absurd (omega (arith, h))

notifies-none :
    (n : ℕ) (chosen : List ℕ) (c : Condition)
    → length c.waiters ≡ n
    → length chosen ≡ n
    → Chosen chosen n
    → (notifies chosen c).waiters ≡ []
unfolding notifies notify
notifies-none zero [] c w e h = length-zero c.waiters w
notifies-none zero (i ∷ chosen) c w e h = absurd (omega (arith, e))
notifies-none (suc n) [] c w e h = absurd (omega (arith, e))
notifies-none (suc n) (i ∷ chosen) c w e (small, h) =
    notifies-none n chosen (notify i c)
      (omega (arith, w, length-without i c.waiters (omega (arith, small, w)))) (omega (arith, e)) h

-- As many notifications as there are threads that wait wake all of them, as `notify_all` does.
pub notifies-notify_all :
    (chosen : List ℕ) (c : Condition)
    → length chosen ≡ length c.waiters
    → Chosen chosen (length c.waiters)
    → (notifies chosen c).waiters ≡ (notify_all c).waiters
unfolding notify_all
notifies-notify_all chosen c e h = notifies-none (length c.waiters) chosen c refl e h

-- A wait leaves the mutex to others, and comes back with it.
pub wait-lock :
    (thread : ℕ) (waiters : List ℕ)
    → (do
      c ← wait thread (record { mutex = some thread; waiters = waiters })
      wait_returns thread (notify_all c))
      ≡ ok (record { mutex = some thread; waiters = [] })
unfolding wait wait_returns notify_all unlock lock
wait-lock thread waiters = rw (same thread) refl
