-- ===== src/TaskPool/Idle.antt =====
-- The manager's loop `while (pool->shutdown)` of thread_pool/myThreadPool.cpp, and the steps of a worker,
-- in a pool that has not been closed.
use lxc_http_server.Common.{
  ℕ, zero, suc, ◌+◌, ◌≡◌, ◌≢◌, ◌==◌, refl, sym, ap, ◌∙◌, Bool, true, false, not, inl, inr, ◌⊎◌,
  List, [], ◌∷◌, Option, none, some, set, get_elem?, if◌then◌else◌, ltb, arith, Outcome, ok, throws,
  fault, blocks, out_of_fuel,
}
use lxc_http_server.TaskPool.{
  Task, task_number, take_tast, take_front_task, Place, asks, counts, looks, sleeps, rises,
  may_exit, checks, fetches, calls, returns, exits, Manager, tests, reads, adds, compares, orders,
  done, MyThreadPool, stand, lock_pool, exit_or_go_on, fetch, call, give_back, work, run_slot,
}
use lxc_http_server.TaskPool.Slots.{Slots, get_elem?-set_cases}
use lxc_http_server.TaskPool.Actions.{manage}

-- The threads that there are.
abbrev pub threads_in : Slots → ℕ
threads_in [] = 0
threads_in (none ∷ l) = threads_in l
threads_in (some x ∷ l) = 1 + threads_in l

threads_in-set :
    (l : Slots) (i : ℕ) (old x : Place)
    → get_elem? l i ≡ some (some old)
    → threads_in (set l i (some x)) ≡ threads_in l
threads_in-set [] i old x h = absurd (cc)
threads_in-set (none ∷ l) zero old x h = absurd (cc)
threads_in-set (some y ∷ l) zero old x h = refl
threads_in-set (none ∷ l) (suc i) old x h = threads_in-set l i old x h
threads_in-set (some y ∷ l) (suc i) old x h = omega (arith, threads_in-set l i old x h)

-- The manager has not begun or has come to its end, and the threads are those that the constructor made, of
-- which none exits.
pub record Idle (n : ℕ) (p : MyThreadPool) : Type 0 where
  pub manager : (p.manager ≡ tests) ⊎ (p.manager ≡ done)
  pub open_still : p.shutdown ≡ false
  pub no_orders : p.exit_num ≡ 0
  pub threads : threads_in p.thread_ids ≡ n
  pub staying : (i : ℕ) → get_elem? p.thread_ids i ≢ some (some exits)

abbrev pub Stays : (MyThreadPool → Type 0) → Outcome MyThreadPool → Type 0
Stays P (ok p) = P p
Stays P blocks = Unit
Stays P (fault k) = Unit
Stays P (throws e) = Unit
Stays P out_of_fuel = Unit

-- A worker goes to another place, and other fields change that `Idle` does not speak of.
pub moved :
    (n i : ℕ) (old x : Place) (p p1 : MyThreadPool)
    → Idle n p
    → get_elem? p.thread_ids i ≡ some (some old)
    → x ≢ exits
    → p1.manager ≡ p.manager
    → p1.shutdown ≡ p.shutdown
    → p1.exit_num ≡ p.exit_num
    → p1.thread_ids ≡ p.thread_ids
    → Idle n (stand x i p1)
unfolding stand
moved n i old x p p1 f here stays m d e t = record {
  manager = elim f.manager [ inl a ↦ inl (m ∙ a) | inr b ↦ inr (m ∙ b) ];
  open_still = d ∙ f.open_still;
  no_orders = e ∙ f.no_orders;
  threads =
      ap (λ l. threads_in (set l i (some x))) t
      ∙ threads_in-set p.thread_ids i old x here
      ∙ f.threads;
  staying = λ j g.
      elim (get_elem?-set_cases p.thread_ids i (some x) j exits
        (ap (λ l. get_elem? (set l i (some x)) j) (sym t) ∙ g)) [
          | inl (_, w) ↦ stays cc
          | inr (_, w) ↦ f.staying j w
        ];
}

lock-Idle :
    (n i : ℕ) (old x : Place) (m : Option ℕ) (p : MyThreadPool)
    → Idle n p
    → get_elem? p.thread_ids i ≡ some (some old)
    → x ≢ exits
    → Stays (Idle n) (lock_pool m x i p)
unfolding lock_pool
lock-Idle n i old x none p f here stays =
    moved n i old x p (record p { mutex_pool = some i }) f here stays refl refl refl refl
lock-Idle n i old x (some j) p f here stays = tt

pub Stays-if :
    (P : MyThreadPool → Type 0) (b : Bool) (r s : Outcome MyThreadPool)
    → (b ≡ true → Stays P r)
    → (b ≡ false → Stays P s)
    → Stays P (if b then r else s)
Stays-if P true r s f g = f refl
Stays-if P false r s f g = g refl

fetch-Idle :
    (n i : ℕ) (q : List Task) (p : MyThreadPool)
    → Idle n p
    → get_elem? p.thread_ids i ≡ some (some fetches)
    → Idle n (fetch (take_front_task q) i p)
unfolding fetch take_front_task
fetch-Idle n i [] p f here = moved n i fetches _ p _ f here (λ w. cc) refl refl refl refl
fetch-Idle n i (t ∷ rest) p f here =
    moved n i fetches (calls t) p _ f here (λ w. cc) refl refl refl refl

call-Idle :
    (n i : ℕ) (t : Task) (g : Option ℕ) (p : MyThreadPool)
    → Idle n p
    → get_elem? p.thread_ids i ≡ some (some (calls t))
    → Stays (Idle n) (call g i p)
unfolding call
call-Idle n i t none p f here = tt
call-Idle n i t (some g) p f here =
    moved n i (calls t) returns p p f here (λ w. cc) refl refl refl refl

give_back-Idle :
    (n i : ℕ) (m : Option ℕ) (p : MyThreadPool)
    → Idle n p
    → get_elem? p.thread_ids i ≡ some (some returns)
    → Stays (Idle n) (give_back m i p)
unfolding give_back
give_back-Idle n i none p f here = moved n i returns asks p _ f here (λ w. cc) refl refl refl refl
give_back-Idle n i (some j) p f here = tt

if-stays : (b : Bool) → (if b then looks else checks) ≢ exits
if-stays true w = cc
if-stays false w = cc

work-Idle :
    (n i : ℕ) (x : Place) (p : MyThreadPool)
    → Idle n p
    → get_elem? p.thread_ids i ≡ some (some x)
    → Stays (Idle n) (work x i p)
unfolding work exit_or_go_on take_tast
work-Idle n i asks p f here = lock-Idle n i asks counts p.mutex_pool p f here (λ w. cc)
work-Idle n i counts p f here =
    Stays-if (Idle n) p.deleted _ _ (λ y. tt)
      (λ m.
        moved n i counts _ p p f here (if-stays (task_number p.task_q == 0)) refl refl refl refl)
work-Idle n i looks p f here =
    Stays-if (Idle n) (not p.shutdown) _ _
      (λ y. moved n i looks sleeps p _ f here (λ w. cc) refl refl refl refl)
      (λ m. moved n i looks checks p p f here (λ w. cc) refl refl refl refl)
work-Idle n i sleeps p f here = tt
work-Idle n i rises p f here = lock-Idle n i rises may_exit p.mutex_pool p f here (λ w. cc)
work-Idle n i may_exit p f here =
    Stays-if (Idle n) (ltb 0 p.exit_num) _ _
      (λ y. absurd (let e : p.exit_num ≡ 0 = f.no_orders in ground arith))
      (λ m. moved n i may_exit counts p p f here (λ w. cc) refl refl refl refl)
work-Idle n i checks p f here =
    Stays-if (Idle n) p.shutdown _ _ (λ y. absurd (let e : p.shutdown ≡ false = f.open_still in cc))
      (λ m. moved n i checks fetches p p f here (λ w. cc) refl refl refl refl)
work-Idle n i fetches p f here =
    Stays-if (Idle n) p.deleted _ _ (λ y. tt) (λ m. fetch-Idle n i p.task_q.m_task_q p f here)
work-Idle n i (calls t) p f here = call-Idle n i t t.function p f here
work-Idle n i returns p f here = give_back-Idle n i p.mutex_pool p f here
work-Idle n i exits p f here = absurd (f.staying i here)

pub run_slot-Idle :
    (n i : ℕ) (s : Option (Option Place)) (p : MyThreadPool)
    → Idle n p
    → get_elem? p.thread_ids i ≡ s
    → Stays (Idle n) (run_slot s i p)
unfolding run_slot
run_slot-Idle n i none p f e = tt
run_slot-Idle n i (some none) p f e = tt
run_slot-Idle n i (some (some x)) p f e = work-Idle n i x p f e

-- Without `shutdown` the manager comes to its end at its first test.
pub manage-Idle :
    (n : ℕ) (m : Manager) (p : MyThreadPool)
    → Idle n p
    → p.manager ≡ m
    → Stays (Idle n) (manage m p)
unfolding manage
manage-Idle n tests p f e = record {
  manager = inr (rw f.open_still refl);
  open_still = f.open_still;
  no_orders = f.no_orders;
  threads = f.threads;
  staying = f.staying;
}
manage-Idle n done p f e = tt
manage-Idle n reads p f e = absurd (elim f.manager [ inl a ↦ cc | inr b ↦ cc ])
manage-Idle n (adds k l) p f e = absurd (elim f.manager [ inl a ↦ cc | inr b ↦ cc ])
manage-Idle n compares p f e = absurd (elim f.manager [ inl a ↦ cc | inr b ↦ cc ])
manage-Idle n orders p f e = absurd (elim f.manager [ inl a ↦ cc | inr b ↦ cc ])
