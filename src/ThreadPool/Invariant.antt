-- ===== src/ThreadPool/Invariant.antt =====
-- What a thread knows at each statement of `worker`, and that what others do keeps it.
use mathlib.Core.Path.{subst}
use lxc_http_server.Common.{
  ℕ, ◌==◌, ◌≡◌, ◌≢◌, refl, sym, Bool, true, false, Bool-cases, inl, inr, ◌⊎◌, List, ◌++◌, Option,
  none, some, if◌then◌else◌, Outcome, ok, throws, fault, blocks, out_of_fuel, ◌>>=◌, arith,
}
use lxc_http_server.ThreadPool.{
  TaskData, Phase, loop_test, locks, tests_empty, tests_running, to_wait, waits, tests_return,
  takes, works, finished, ThreadPool, set_phase, goto, acquire, is_empty_list, wake,
}

-- No undefined behaviour and no exception; of a pool that it comes to, that `P` holds. A schedule that
-- runs a thread which cannot run is `blocks`.
abbrev pub Sound : (ThreadPool → Type 0) → Outcome ThreadPool → Type 0
Sound P (ok p) = P p
Sound P blocks = Unit
Sound P (throws e) = ⊥
Sound P (fault k) = ⊥
Sound P out_of_fuel = ⊥

pub Sound-bind :
    (P Q : ThreadPool → Type 0) (r : Outcome ThreadPool) (f : ThreadPool → Outcome ThreadPool)
    → Sound P r
    → ((p : ThreadPool) → P p → Sound Q (f p))
    → Sound Q (r >>= f)
Sound-bind P Q (ok p) f h g = g p h
Sound-bind P Q blocks f h g = tt
Sound-bind P Q (throws e) f h g = absurd h
Sound-bind P Q (fault k) f h g = absurd h
Sound-bind P Q out_of_fuel f h g = absurd h

pub Sound-mono :
    (P Q : ThreadPool → Type 0) (r : Outcome ThreadPool)
    → Sound P r
    → ((p : ThreadPool) → P p → Q p)
    → Sound Q r
Sound-mono P Q (ok p) h f = f p h
Sound-mono P Q blocks h f = tt
Sound-mono P Q (throws e) h f = absurd h
Sound-mono P Q (fault k) h f = absurd h
Sound-mono P Q out_of_fuel h f = absurd h

pub Sound-if :
    (P : ThreadPool → Type 0) (r s : Outcome ThreadPool) (b : Bool)
    → (b ≡ true → Sound P r)
    → (b ≡ false → Sound P s)
    → Sound P (if b then r else s)
Sound-if P r s true f g = f refl
Sound-if P r s false f g = g refl

-- What a thread at a phase knows of the mutex, the work list and the flag.
abbrev pub At : Option ℕ → List TaskData → Bool → ℕ → Phase → Type 0
At m q r i tests_empty = m ≡ some i
At m q r i tests_running = m ≡ some i
At m q r i to_wait = m ≡ some i
At m q r i tests_return = (m ≡ some i) × ((is_empty_list q ≡ false) ⊎ (r ≡ false))
At m q r i takes = (m ≡ some i) × (is_empty_list q ≡ false)
At m q r i loop_test = Unit
At m q r i locks = Unit
At m q r i waits = Unit
At m q r i (works t) = Unit
At m q r i finished = Unit

-- Every thread stands where it may, and the tasks taken and those that wait are those appended.
pub record Safe (q : List TaskData) (p : ThreadPool) : Type 0 where
  pub stands : (i : ℕ) → At p.mutex p.work_list p.running i (p.threads i)
  pub served : p.taken ++ p.work_list ≡ q

pub At-if :
    (m : Option ℕ) (q : List TaskData) (r : Bool) (i : ℕ) (x y : Phase) (b : Bool)
    → (b ≡ true → At m q r i x)
    → (b ≡ false → At m q r i y)
    → At m q r i (if b then x else y)
At-if m q r i x y true f g = f refl
At-if m q r i x y false f g = g refl

-- A thread that does not have the mutex knows nothing that could change.
pub At-free :
    (m m' : Option ℕ) (q q' : List TaskData) (r r' : Bool) (i : ℕ) (x : Phase)
    → m ≢ some i
    → At m q r i x
    → At m' q' r' i x
At-free m m' q q' r r' i tests_empty n h = absurd (n h)
At-free m m' q q' r r' i tests_running n h = absurd (n h)
At-free m m' q q' r r' i to_wait n h = absurd (n h)
At-free m m' q q' r r' i tests_return n h = absurd (n h.0)
At-free m m' q q' r r' i takes n h = absurd (n h.0)
At-free m m' q q' r r' i loop_test n h = tt
At-free m m' q q' r r' i locks n h = tt
At-free m m' q q' r r' i waits n h = tt
At-free m m' q q' r r' i (works t) n h = tt
At-free m m' q q' r r' i finished n h = tt

pub At-stops :
    (m : Option ℕ) (q : List TaskData) (r : Bool) (i : ℕ) (x : Phase)
    → At m q r i x
    → At m q false i x
At-stops m q r i tests_return h = (h.0, inr refl)
At-stops m q r i tests_empty h = h
At-stops m q r i tests_running h = h
At-stops m q r i to_wait h = h
At-stops m q r i takes h = h
At-stops m q r i loop_test h = tt
At-stops m q r i locks h = tt
At-stops m q r i waits h = tt
At-stops m q r i (works t) h = tt
At-stops m q r i finished h = tt

pub At-wake :
    (m : Option ℕ) (q : List TaskData) (r : Bool) (i : ℕ) (x : Phase)
    → At m q r i x
    → At m q r i (wake x)
unfolding wake
At-wake m q r i waits h = tt
At-wake m q r i tests_return h = h
At-wake m q r i tests_empty h = h
At-wake m q r i tests_running h = h
At-wake m q r i to_wait h = h
At-wake m q r i takes h = h
At-wake m q r i loop_test h = tt
At-wake m q r i locks h = tt
At-wake m q r i (works t) h = tt
At-wake m q r i finished h = tt

set_phase-stands :
    (P : ℕ → Phase → Type 0) (i : ℕ) (x : Phase) (threads : ℕ → Phase)
    → P i x
    → ((j : ℕ) → j ≢ i → P j (threads j))
    → (j : ℕ) → P j (set_phase i x threads j)
unfolding set_phase
set_phase-stands P i x threads h f j = elim (Bool-cases (j == i)) [
  | inl y ↦ let e : j ≡ i = ground arith in rw (y, e) h
  | inr n ↦ let d : j ≢ i = ground arith in rw n (f j d)
]

pub set_phase-Safe :
    (q : List TaskData) (i : ℕ) (x : Phase) (p p1 : ThreadPool)
    → Safe q p
    → At p1.mutex p1.work_list p1.running i x
    → ((j : ℕ)
        → j ≢ i
        → At p.mutex p.work_list p.running j (p.threads j)
        → At p1.mutex p1.work_list p1.running j (p.threads j))
    → p1.threads ≡ p.threads
    → p1.taken ++ p1.work_list ≡ q
    → Safe q (goto x i p1)
unfolding goto
set_phase-Safe q i x p p1 v h f e s = record {
  stands = set_phase-stands (At p1.mutex p1.work_list p1.running) i x p1.threads h (λ j d.
      subst (λ t. At p1.mutex p1.work_list p1.running j (t j)) (sym e) (f j d (v.stands j)));
  served = s;
}

pub goto-Safe :
    (q : List TaskData) (i : ℕ) (x : Phase) (p : ThreadPool)
    → Safe q p
    → At p.mutex p.work_list p.running i x
    → Safe q (goto x i p)
goto-Safe q i x p v h = set_phase-Safe q i x p p v h (λ j d a. a) refl v.served

pub not_free : (m : Option ℕ) (i j : ℕ) → m ≡ some i → j ≢ i → m ≢ some j
not_free m i j e d h = d cc

pub acquire-Safe :
    (q : List TaskData) (i : ℕ) (p : ThreadPool)
    → Safe q p
    → Sound (Safe q) (acquire p.mutex tests_empty i p)
unfolding acquire
acquire-Safe q i p v =
    elim p.mutex as (λ m. p.mutex ≡ m → Sound (Safe q) (acquire m tests_empty i p)) [
      | none ↦ λ e.
          set_phase-Safe q i tests_empty p (record p { mutex = some i }) v refl
            (λ j d.
              At-free p.mutex (some i) p.work_list p.work_list p.running p.running j (p.threads j)
                (λ h. cc))
            refl v.served
      | some k ↦ λ e. tt
    ]
      refl
