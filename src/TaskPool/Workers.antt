-- ===== src/TaskPool/Workers.antt =====
-- The steps of a worker of thread_pool/myThreadPool.cpp, and the invariant.
use mathlib.Core.Path.{subst}
use lxc_http_server.Common.{
  ℕ, zero, suc, ◌-◌, ◌==◌, ◌≡◌, ◌≢◌, ◌≤◌, ◌<◌, refl, sym, ap, ◌∙◌, true, Bool-cases, not, inl, inr,
  List, [], ◌∷◌, ◌++◌, append_assoc, Option, none, some, length, get_elem?, ltb, ℤ, pos, suc_ℤ,
  pred_ℤ, arith,
}
use lxc_http_server.TaskPool.{
  Task, task_number, take_tast, Place, asks, counts, looks, sleeps, rises, may_exit, checks,
  fetches, calls, returns, exits, MyThreadPool, lt_ℤ, stand, lock_pool, thread_exit, exit_or_go_on,
  take_front_task, fetch, call, give_back, work,
}
use lxc_http_server.TaskPool.Slots.{busy_at, busy_in}
use lxc_http_server.TaskPool.Invariant.{
  IsCallable, AllCallable, Knows, Knows-free, Fine, Holds, Holds-if, set-Fine,
}

-- A step that changes no field but the worker's place.
pub stand-Fine :
    (i : ℕ) (old x : Place) (p : MyThreadPool)
    → Fine p
    → get_elem? p.thread_ids i ≡ some (some old)
    → Knows p.mutex_pool p.task_q.m_task_q p.shutdown i x
    → busy_at (some old) ≡ busy_at (some x)
    → Fine (stand x i p)
unfolding stand
stand-Fine i old x p f here k same =
    set-Fine i (some old) (some x) p p f here refl
      (λ y e. let w : x ≡ y = cc in subst (Knows p.mutex_pool p.task_q.m_task_q p.shutdown i) w k)
      (λ j y d h. h) f.callable f.served (λ n e. f.busy ∙ ap pos (omega (arith, e, same))) f.live

not_slot : (m : Option ℕ) (i j : ℕ) → m ≡ some i → j ≢ i → m ≢ some j
not_slot m i j e d h = d cc

lock-Fine :
    (i : ℕ) (old x : Place) (p : MyThreadPool)
    → Fine p
    → get_elem? p.thread_ids i ≡ some (some old)
    → Knows (some i) p.task_q.m_task_q p.shutdown i x
    → busy_at (some old) ≡ busy_at (some x)
    → Holds Fine (lock_pool p.mutex_pool x i p)
unfolding lock_pool stand
lock-Fine i old x p f here k same =
    elim p.mutex_pool as (λ m. p.mutex_pool ≡ m → Holds Fine (lock_pool m x i p)) [
      | none ↦ λ e.
          set-Fine i (some old) (some x) p (record p { mutex_pool = some i }) f here refl
            (λ y w. let v : x ≡ y = cc in subst (Knows (some i) p.task_q.m_task_q p.shutdown i) v k)
            (λ j y d h.
              Knows-free p.mutex_pool (some i) p.task_q.m_task_q p.task_q.m_task_q p.shutdown
                p.shutdown j y (λ w. cc) h)
            f.callable f.served (λ n w. f.busy ∙ ap pos (omega (arith, w, same))) f.live
      | some j ↦ λ e. tt
    ]
      refl

-- A worker that holds `mutexPool` gives it back and goes to a place that asks nothing of it.
release-Fine :
    (i : ℕ) (old x : Place) (p : MyThreadPool)
    → Fine p
    → get_elem? p.thread_ids i ≡ some (some old)
    → p.mutex_pool ≡ some i
    → busy_at (some old) ≡ busy_at (some x)
    → Knows none p.task_q.m_task_q p.shutdown i x
    → (exit : ℕ) (live : ℤ) → ((n : ℕ) × (live ≡ pos n) × (p.min_num ≤ n) × (n ≤ p.max_num))
    → Fine (stand x i (record p { exit_num = exit; live_num = live; mutex_pool = none }))
unfolding stand
release-Fine i old x p f here m same k exit live l =
    set-Fine i (some old) (some x) p
      (record p { exit_num = exit; live_num = live; mutex_pool = none }) f here refl
      (λ y w. let v : x ≡ y = cc in subst (Knows none p.task_q.m_task_q p.shutdown i) v k)
      (λ j y d h.
        Knows-free p.mutex_pool none p.task_q.m_task_q p.task_q.m_task_q p.shutdown p.shutdown j y
          (not_slot p.mutex_pool i j m d) h)
      f.callable f.served (λ n w. f.busy ∙ ap pos (omega (arith, w, same))) l

thread_exit-Fine :
    (i : ℕ) (p : MyThreadPool)
    → Fine p
    → get_elem? p.thread_ids i ≡ some (some exits)
    → Holds Fine (thread_exit i p)
unfolding thread_exit
thread_exit-Fine i p f here =
    Holds-if Fine p.deleted _ _ (λ y. refl)
      (λ n.
        set-Fine i (some exits) none p p f here refl (λ y w. absurd (cc)) (λ j y d h. h) f.callable
          f.served (λ k w. f.busy ∙ ap pos (omega (arith, w))) f.live)

pred_pos : (n : ℕ) → 0 < n → pred_ℤ (pos n) ≡ pos (n - 1)
pred_pos zero h = absurd (omega arith)
pred_pos (suc n) h = ap pos (omega arith)

pred_live :
    (p : MyThreadPool)
    → Fine p
    → lt_ℤ p.min_num p.live_num ≡ true
    → (n : ℕ) × (pred_ℤ p.live_num ≡ pos n) × (p.min_num ≤ n) × (n ≤ p.max_num)
pred_live p f more =
    let (n, e, lo, hi) = f.live in
    let above : ltb p.min_num n ≡ true = sym (ap (lt_ℤ p.min_num) e) ∙ more in
    let lt : p.min_num < n = ground arith in
    (n - 1, ap pred_ℤ e ∙ pred_pos n (omega (arith, lt)), omega (arith, lt), omega (arith, hi))

may_exit-Fine :
    (i : ℕ) (p : MyThreadPool)
    → Fine p
    → get_elem? p.thread_ids i ≡ some (some may_exit)
    → p.mutex_pool ≡ some i
    → Holds Fine (exit_or_go_on i p)
unfolding exit_or_go_on
may_exit-Fine i p f here m =
    Holds-if Fine (ltb 0 p.exit_num) _ _
      (λ y.
        Holds-if Fine (lt_ℤ p.min_num p.live_num) _ _
          (λ more.
            release-Fine i may_exit exits p f here m refl tt (p.exit_num - 1) (pred_ℤ p.live_num)
              (pred_live p f more))
          (λ few.
            stand-Fine i may_exit counts (record p { exit_num = p.exit_num - 1 })
              (record {
                stands = f.stands;
                callable = f.callable;
                served = f.served;
                busy = f.busy;
                live = f.live;
              })
              here m refl))
      (λ n. stand-Fine i may_exit counts p f here m refl)

fetch-Fine :
    (i : ℕ) (p : MyThreadPool) (q : List Task)
    → Fine p
    → get_elem? p.thread_ids i ≡ some (some fetches)
    → p.mutex_pool ≡ some i
    → p.task_q.m_task_q ≡ q
    → 0 < length q
    → Fine (fetch (take_front_task q) i p)
unfolding fetch stand take_front_task
fetch-Fine i p [] f here m e h = absurd (omega arith)
fetch-Fine i p (t ∷ rest) f here m e h =
    let all : AllCallable (t ∷ rest) = subst AllCallable e f.callable in
    set-Fine i (some fetches) (some (calls t)) p
      (record p {
        task_q = record { m_task_q = rest };
        busy_num = suc_ℤ p.busy_num;
        mutex_pool = none;
        fetched = p.fetched ++ t ∷ [];
      })
      f here refl (λ y w. let v : calls t ≡ y = cc in subst (Knows none rest p.shutdown i) v all.0)
      (λ j y d k.
        Knows-free p.mutex_pool none p.task_q.m_task_q rest p.shutdown p.shutdown j y
          (not_slot p.mutex_pool i j m d) k)
      all.1 (append_assoc p.fetched (t ∷ []) rest ∙ sym (ap (◌++◌ p.fetched) e) ∙ f.served)
      (λ n w. ap suc_ℤ f.busy ∙ ap pos (omega (arith, w))) f.live

call-Fine :
    (i : ℕ) (t : Task) (p : MyThreadPool)
    → Fine p
    → get_elem? p.thread_ids i ≡ some (some (calls t))
    → IsCallable t
    → Holds Fine (call t.function i p)
unfolding call
call-Fine i t p f here (g, e) =
    subst (λ h. Holds Fine (call h i p)) (sym e) (stand-Fine i (calls t) returns p f here tt refl)

give_back-Fine :
    (i : ℕ) (p : MyThreadPool)
    → Fine p
    → get_elem? p.thread_ids i ≡ some (some returns)
    → Holds Fine (give_back p.mutex_pool i p)
unfolding give_back stand
give_back-Fine i p f here = elim p.mutex_pool as (λ m. Holds Fine (give_back m i p)) [
  | none ↦
      set-Fine i (some returns) (some asks) p (record p { busy_num = pred_ℤ p.busy_num }) f here
        refl
        (λ y w.
          let v : asks ≡ y = cc in subst (Knows p.mutex_pool p.task_q.m_task_q p.shutdown i) v tt)
        (λ j y d h. h) f.callable f.served
        (λ n w.
          ap pred_ℤ
            (f.busy ∙ ap pos (let e : busy_in p.thread_ids ≡ suc n = omega (arith, w) in e)))
        f.live
  | some j ↦ tt
]

pub work-Fine :
    (i : ℕ) (x : Place) (p : MyThreadPool)
    → Fine p
    → get_elem? p.thread_ids i ≡ some (some x)
    → Knows p.mutex_pool p.task_q.m_task_q p.shutdown i x
    → Holds Fine (work x i p)
unfolding work task_number take_tast
work-Fine i asks p f here k = lock-Fine i asks counts p f here refl refl
work-Fine i counts p f here k =
    Holds-if Fine p.deleted _ _ (λ y. refl)
      (λ n. elim (Bool-cases (length p.task_q.m_task_q == 0)) [
        | inl y ↦ rw y (stand-Fine i counts looks p f here k refl)
        | inr m ↦ rw m (stand-Fine i counts checks p f here (k, inl (ground arith)) refl)
      ])
work-Fine i looks p f here k =
    Holds-if Fine (not p.shutdown) _ _
      (λ y. release-Fine i looks sleeps p f here k refl tt p.exit_num p.live_num f.live)
      (λ n. stand-Fine i looks checks p f here (k, inr (ground arith)) refl)
work-Fine i sleeps p f here k = tt
work-Fine i rises p f here k = lock-Fine i rises may_exit p f here refl refl
work-Fine i may_exit p f here k = may_exit-Fine i p f here k
work-Fine i checks p f here (m, o) =
    Holds-if Fine p.shutdown _ _
      (λ y. release-Fine i checks exits p f here m refl tt p.exit_num p.live_num f.live)
      (λ n.
        stand-Fine i checks fetches p f here (m, elim o [ inl h ↦ h | inr y ↦ absurd (cc) ]) refl)
work-Fine i fetches p f here (m, h) =
    Holds-if Fine p.deleted _ _ (λ y. refl) (λ n. fetch-Fine i p p.task_q.m_task_q f here m refl h)
work-Fine i (calls t) p f here k = call-Fine i t p f here k
work-Fine i returns p f here k = give_back-Fine i p f here
work-Fine i exits p f here k = thread_exit-Fine i p f here
