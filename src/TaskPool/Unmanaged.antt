-- ===== src/TaskPool/Unmanaged.antt =====
-- Schedules of thread_pool/myThreadPool.cpp without the destructor.
use lxc_http_server.Common.{
  ℕ, zero, suc, ◌-◌, ◌≡◌, refl, true, false, inl, List, [], ◌∷◌, ◌++◌, Option, none, some,
  get_elem?, replicate, if◌then◌else◌, arith, Outcome, ok, throws, fault, data_race, ◌&&◌, Bool,
  false, blocks, out_of_fuel, ◌>>=◌,
}
use lxc_http_server.TaskPool.{
  Task, add_task, Place, asks, counts, looks, sleeps, rises, may_exit, checks, fetches, calls,
  returns, exits, MyThreadPool, my_thread_pool,
}
use lxc_http_server.TaskPool.Actions.{
  rouse, offer, Act, works, manages, offers, signals, closes, deletes, do_act, do_acts, at_once,
  accesses, apart,
}
use lxc_http_server.TaskPool.Races.{any_conflict}
use lxc_http_server.TaskPool.Schedules.{new_asks}
use lxc_http_server.TaskPool.Idle.{threads_in, Idle, Stays, moved, run_slot-Idle, manage-Idle}

rouse-Idle :
    (n i : ℕ) (s : Option (Option Place)) (p : MyThreadPool)
    → Idle n p
    → get_elem? p.thread_ids i ≡ s
    → Idle n (rouse s i p)
unfolding rouse
rouse-Idle n i none p f e = f
rouse-Idle n i (some none) p f e = f
rouse-Idle n i (some (some sleeps)) p f e =
    moved n i sleeps rises p p f e (λ w. cc) refl refl refl refl
rouse-Idle n i (some (some asks)) p f e = f
rouse-Idle n i (some (some counts)) p f e = f
rouse-Idle n i (some (some looks)) p f e = f
rouse-Idle n i (some (some rises)) p f e = f
rouse-Idle n i (some (some may_exit)) p f e = f
rouse-Idle n i (some (some checks)) p f e = f
rouse-Idle n i (some (some fetches)) p f e = f
rouse-Idle n i (some (some (calls t))) p f e = f
rouse-Idle n i (some (some returns)) p f e = f
rouse-Idle n i (some (some exits)) p f e = f

offer-Idle : (n : ℕ) (t : Task) (p : MyThreadPool) → Idle n p → Idle n (offer t p)
unfolding offer
offer-Idle n t p f =
    elim p.shutdown
      as (λ b. Idle n (
        if b
        then p
        else record p { task_q = add_task t p.task_q; ordered = p.ordered ++ t ∷ [] })) [
          | true ↦ f
          | false ↦ record {
            manager = f.manager;
            open_still = f.open_still;
            no_orders = f.no_orders;
            threads = f.threads;
            staying = f.staying;
          }
        ]

-- The pool's destructor is not called.
abbrev pub AllOpen : List Act → Type 0
AllOpen [] = Unit {0}
AllOpen (works i ∷ l) = AllOpen l
AllOpen (manages ∷ l) = AllOpen l
AllOpen (offers t ∷ l) = AllOpen l
AllOpen (signals i ∷ l) = AllOpen l
AllOpen (closes ∷ l) = ⊥
AllOpen (deletes ∷ l) = ⊥
AllOpen (at_once a b ∷ l) = AllOpen l

and_then :
    (n : ℕ) (r : Outcome MyThreadPool) (k : MyThreadPool → Outcome MyThreadPool)
    → Stays (Idle n) r
    → ((p : MyThreadPool) → Idle n p → Stays (Idle n) (k p))
    → Stays (Idle n) (r >>= k)
and_then n (ok p) k h f = f p h
and_then n blocks k h f = tt
and_then n (fault e) k h f = tt
and_then n (throws e) k h f = tt
and_then n out_of_fuel k h f = tt

meet-Stays :
    (n : ℕ) (b : Bool) (k : MyThreadPool → Outcome MyThreadPool)
    → Stays (Idle n) ((if b then fault data_race else blocks) >>= k)
meet-Stays n true k = tt
meet-Stays n false k = tt

acts-Idle :
    (n : ℕ) (l : List Act) (p : MyThreadPool) → AllOpen l → Idle n p → Stays (Idle n) (do_acts l p)
unfolding do_acts do_act
acts-Idle n [] p o f = f
acts-Idle n (works i ∷ l) p o f =
    and_then n (do_act (works i) p) (do_acts l)
      (run_slot-Idle n i (get_elem? p.thread_ids i) p f refl) (λ p1 g. acts-Idle n l p1 o g)
acts-Idle n (manages ∷ l) p o f =
    and_then n (do_act manages p) (do_acts l) (manage-Idle n p.manager p f refl)
      (λ p1 g. acts-Idle n l p1 o g)
acts-Idle n (offers t ∷ l) p o f = acts-Idle n l (offer t p) o (offer-Idle n t p f)
acts-Idle n (signals i ∷ l) p o f =
    acts-Idle n l (rouse (get_elem? p.thread_ids i) i p) o
      (rouse-Idle n i (get_elem? p.thread_ids i) p f refl)
acts-Idle n (closes ∷ l) p o f = absurd o
acts-Idle n (deletes ∷ l) p o f = absurd o
acts-Idle n (at_once a b ∷ l) p o f =
    meet-Stays n (apart a b && any_conflict (accesses a p) (accesses b p)) (do_acts l)

threads_in-new : (n k : ℕ) → threads_in (replicate n (some asks) ++ replicate k none) ≡ n
threads_in-new zero zero = refl
threads_in-new zero (suc k) = threads_in-new zero k
threads_in-new (suc n) k = omega (arith, threads_in-new n k)

-- Under every schedule without the destructor that comes to its end, the manager is at its first test
-- or has ended, no worker is ever ordered to exit, and the slots have `min` threads, as many as the
-- constructor made, of which none exits.
pub do_acts-Idle :
    (min max : ℕ) (l : List Act) → AllOpen l → Stays (Idle min) (do_acts l (my_thread_pool min max))
unfolding my_thread_pool
do_acts-Idle min max l o = acts-Idle min l (my_thread_pool min max) o (record {
  manager = inl refl;
  open_still = refl;
  no_orders = refl;
  threads = threads_in-new min (max - min);
  staying = λ i e. let w : asks ≡ exits = new_asks min (max - min) i exits e in cc;
})
