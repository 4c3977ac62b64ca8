-- ===== src/TaskPool/Invariant.antt =====
-- What every schedule keeps, as long as the destructor has not freed the queue.
use mathlib.Core.Path.{subst}
use lxc_http_server.Common.{
  ℕ, ◌+◌, ◌≡◌, ◌≢◌, ◌≤◌, ◌<◌, length-append, refl, sym, ap, ◌∙◌, Bool, true, false, inl, inr, ◌⊎◌,
  List, [], ◌∷◌, ◌++◌, Option, some, length, set, get_elem?, if◌then◌else◌, pos, arith, Outcome, ok,
  throws, fault, blocks, out_of_fuel, use_after_free,
}
use lxc_http_server.TaskPool.{
  Task, Place, asks, counts, looks, sleeps, rises, may_exit, checks, fetches, calls, returns, exits,
  MyThreadPool,
}
use lxc_http_server.TaskPool.Slots.{get_elem?-set_cases, busy_at, busy_in, busy_in-set}

abbrev pub IsCallable : Task → Type 0
IsCallable t = (f : ℕ) × (t.function ≡ some f)

abbrev pub AllCallable : List Task → Type 0
AllCallable [] = Unit {0}
AllCallable (t ∷ ts) = IsCallable t × AllCallable ts

-- What a worker at a place knows of `mutexPool`, the queue and the flag.
abbrev pub Knows : Option ℕ → List Task → Bool → ℕ → Place → Type 0
Knows m q down i asks = Unit
Knows m q down i counts = m ≡ some i
Knows m q down i looks = m ≡ some i
Knows m q down i sleeps = Unit
Knows m q down i rises = Unit
Knows m q down i may_exit = m ≡ some i
Knows m q down i checks = (m ≡ some i) × ((0 < length q) ⊎ (down ≡ true))
Knows m q down i fetches = (m ≡ some i) × (0 < length q)
Knows m q down i (calls t) = IsCallable t
Knows m q down i returns = Unit
Knows m q down i exits = Unit

-- Workers stand where they may; every task that was added has been taken or waits, and can be called;
-- `busyNum` counts the workers that run a task, and `liveNum` is in its bounds.
pub record Fine (p : MyThreadPool) : Type 0 where
  pub stands :
      (i : ℕ) (x : Place)
      → get_elem? p.thread_ids i ≡ some (some x)
      → Knows p.mutex_pool p.task_q.m_task_q p.shutdown i x
  pub callable : AllCallable p.task_q.m_task_q
  pub served : p.fetched ++ p.task_q.m_task_q ≡ p.ordered
  pub busy : p.busy_num ≡ pos (busy_in p.thread_ids)
  pub live : (n : ℕ) × (p.live_num ≡ pos n) × (p.min_num ≤ n) × (n ≤ p.max_num)

-- No undefined behaviour but the use of what the destructor has freed; of a pool that it comes to,
-- that `P` holds.
abbrev pub Holds : (MyThreadPool → Type 0) → Outcome MyThreadPool → Type 0
Holds P (ok p) = P p
Holds P blocks = Unit
Holds P (fault k) = k ≡ use_after_free
Holds P (throws e) = ⊥
Holds P out_of_fuel = ⊥

pub Holds-if :
    (P : MyThreadPool → Type 0) (b : Bool) (r s : Outcome MyThreadPool)
    → (b ≡ true → Holds P r)
    → (b ≡ false → Holds P s)
    → Holds P (if b then r else s)
Holds-if P true r s f g = f refl
Holds-if P false r s f g = g refl

-- Without `mutexPool` a worker knows nothing that others could change.
pub Knows-free :
    (m m' : Option ℕ) (q q' : List Task) (down down' : Bool) (i : ℕ) (x : Place)
    → m ≢ some i
    → Knows m q down i x
    → Knows m' q' down' i x
Knows-free m m' q q' d d' i asks n h = tt
Knows-free m m' q q' d d' i counts n h = absurd (n h)
Knows-free m m' q q' d d' i looks n h = absurd (n h)
Knows-free m m' q q' d d' i sleeps n h = tt
Knows-free m m' q q' d d' i rises n h = tt
Knows-free m m' q q' d d' i may_exit n h = absurd (n h)
Knows-free m m' q q' d d' i checks n h = absurd (n h.0)
Knows-free m m' q q' d d' i fetches n h = absurd (n h.0)
Knows-free m m' q q' d d' i (calls t) n h = h
Knows-free m m' q q' d d' i returns n h = tt
Knows-free m m' q q' d d' i exits n h = tt

-- A task that is added, and the flag, take nothing from what a worker knows.
pub Knows-more :
    (m : Option ℕ) (q : List Task) (t : Task) (down : Bool) (i : ℕ) (x : Place)
    → Knows m q down i x
    → Knows m (q ++ t ∷ []) down i x
Knows-more m q t d i asks h = tt
Knows-more m q t d i counts h = h
Knows-more m q t d i looks h = h
Knows-more m q t d i sleeps h = tt
Knows-more m q t d i rises h = tt
Knows-more m q t d i may_exit h = h
Knows-more m q t d i checks h =
    (h.0, elim h.1 [ inl n ↦ inl omega (arith, n, length-append q (t ∷ [])) | inr y ↦ inr y ])
Knows-more m q t d i fetches h = (h.0, omega (arith, h.1, length-append q (t ∷ [])))
Knows-more m q t d i (calls u) h = h
Knows-more m q t d i returns h = tt
Knows-more m q t d i exits h = tt

pub Knows-closed :
    (m : Option ℕ) (q : List Task) (down : Bool) (i : ℕ) (x : Place)
    → Knows m q down i x
    → Knows m q true i x
Knows-closed m q d i asks h = tt
Knows-closed m q d i counts h = h
Knows-closed m q d i looks h = h
Knows-closed m q d i sleeps h = tt
Knows-closed m q d i rises h = tt
Knows-closed m q d i may_exit h = h
Knows-closed m q d i checks h = (h.0, inr refl)
Knows-closed m q d i fetches h = h
Knows-closed m q d i (calls u) h = h
Knows-closed m q d i returns h = tt
Knows-closed m q d i exits h = tt

-- The worker in slot `i` goes from `old` to what `v` says, after a change of the other fields to those
-- of `p1`.
pub set-Fine :
    (i : ℕ) (old v : Option Place) (p p1 : MyThreadPool)
    → Fine p
    → get_elem? p.thread_ids i ≡ some old
    → p1.thread_ids ≡ p.thread_ids
    → ((x : Place) → v ≡ some x → Knows p1.mutex_pool p1.task_q.m_task_q p1.shutdown i x)
    → ((j : ℕ) (x : Place)
        → j ≢ i
        → Knows p.mutex_pool p.task_q.m_task_q p.shutdown j x
        → Knows p1.mutex_pool p1.task_q.m_task_q p1.shutdown j x)
    → AllCallable p1.task_q.m_task_q
    → p1.fetched ++ p1.task_q.m_task_q ≡ p1.ordered
    → ((n : ℕ) → n + busy_at old ≡ busy_in p.thread_ids + busy_at v → p1.busy_num ≡ pos n)
    → ((n : ℕ) × (p1.live_num ≡ pos n) × (p1.min_num ≤ n) × (n ≤ p1.max_num))
    → Fine (record p1 { thread_ids = set p1.thread_ids i v })
set-Fine i old v p p1 f here same mine others c s b l = record {
  stands = λ j x e. elim (get_elem?-set_cases p1.thread_ids i v j x e) [
    | inl (y, w) ↦
        subst (λ k. Knows p1.mutex_pool p1.task_q.m_task_q p1.shutdown k x) (sym y) (mine x w)
    | inr (d, o) ↦ others j x d (f.stands j x (ap (λ l. get_elem? l j) (sym same) ∙ o))
  ];
  callable = c;
  served = s;
  busy = b (busy_in (set p1.thread_ids i v)) (
      subst (λ l. busy_in (set l i v) + busy_at old ≡ busy_in p.thread_ids + busy_at v) (sym same)
        (busy_in-set p.thread_ids i old v here));
  live = l;
}
