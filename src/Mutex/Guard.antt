-- ===== src/Mutex/Guard.antt =====
-- `MutexLock` and `MutexLockGuard` of include/Mutex.h. The library's mutex is the thread that holds it:
-- to lock it while it is held blocks, to release it from another thread is undefined.
use lxc_http_server.Common.{
  ℕ, ◌≡◌, refl, Option, none, some, ◌==◌, true, arith, Outcome, ok, throws, fault, blocks,
  Exception, if◌then◌else◌, not_owner,
}

abbrev pub MutexLock : Type 0
MutexLock = Option ℕ

abbrev pub mutex_lock : MutexLock
mutex_lock = none

unfoldable pub lock : ℕ → MutexLock → Outcome MutexLock
lock thread none = ok (some thread)
lock thread (some holder) = blocks

unfoldable pub unlock : ℕ → MutexLock → Outcome MutexLock
unlock thread none = fault not_owner
unlock thread (some holder) = if holder == thread then ok none else fault not_owner

-- The guard's destructor runs where the block ends by a value or an exception.
released {ℓ} : {A : Type ℓ} → Outcome A → Outcome MutexLock → Outcome A × MutexLock
released r (ok m) = (r, m)
released r _ = (fault not_owner, none)

leave {ℓ} : {A : Type ℓ} → ℕ → Outcome A × MutexLock → Outcome A × MutexLock
unfolding released unlock
leave thread (ok a, m) = released (ok a) (unlock thread m)
leave thread (throws e, m) = released (throws e) (unlock thread m)
leave thread (r, m) = (r, m)

enter {ℓ} :
    {A : Type ℓ}
    → ℕ
    → (MutexLock → Outcome A × MutexLock)
    → MutexLock
    → Outcome MutexLock
    → Outcome A × MutexLock
unfolding leave
enter thread block m (ok held) = leave thread (block held)
enter thread block m _ = (blocks, m)

-- A block with a guard: how it ends, and the mutex.
unfoldable pub guarded {ℓ} :
    {A : Type ℓ} → ℕ → (MutexLock → Outcome A × MutexLock) → MutexLock → Outcome A × MutexLock
unfolding enter lock
guarded thread block m = enter thread block m (lock thread m)

pub same : (n : ℕ) → (n == n) ≡ true
same n = ground arith

-- A block that leaves the mutex as it is, ends as it would without the guard, and the mutex is free.
guarded-value {ℓ} :
    {A : Type ℓ} (thread : ℕ) (block : MutexLock → Outcome A × MutexLock) (a : A)
    → block (some thread) ≡ (ok a, some thread)
    → guarded thread block none ≡ (ok a, none)
unfolding guarded enter lock leave released unlock
guarded-value thread block a h = rw (h, same thread) refl

guarded-throws {ℓ} :
    {A : Type ℓ} (thread : ℕ) (block : MutexLock → Outcome A × MutexLock) (e : Exception)
    → block (some thread) ≡ (throws e, some thread)
    → guarded thread block none ≡ (throws e, none)
unfolding guarded enter lock leave released unlock
guarded-throws thread block e h = rw (h, same thread) refl

-- A guard inside a guard on the same mutex never comes back, and the mutex stays held.
guarded-guarded {ℓ} :
    {A : Type ℓ} (thread : ℕ) (block : MutexLock → Outcome A × MutexLock)
    → guarded thread (guarded thread block) none ≡ (blocks, some thread)
unfolding guarded enter lock leave
guarded-guarded thread block = refl
