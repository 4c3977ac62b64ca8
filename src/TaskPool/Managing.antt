-- ===== src/TaskPool/Managing.antt =====
-- The steps of the manager of thread_pool/myThreadPool.cpp, and the invariant.
use lxc_http_server.Common.{
  ℕ, ◌≡◌, refl, sym, ap, ◌∙◌, Bool, not, ◌&&◌, inl, inr, Option, none, some, if◌then◌else◌, leb_ℤ,
  pos, arith, Outcome, blocks,
}
use lxc_http_server.TaskPool.{task_number, Manager, MyThreadPool, number, lt_ℤ}
use lxc_http_server.TaskPool.{tests, reads, adds, compares, orders, done}
use lxc_http_server.TaskPool.Slots.{busy_in-create, get_elem?-create, create_bounds}
use lxc_http_server.TaskPool.Actions.{
  create, add_threads, read_sizes, order_exits, manage, less_ℤ, twice_ℤ,
}
use lxc_http_server.TaskPool.Invariant.{Fine, Holds, Holds-if}

-- A change of fields that the invariant does not speak of.
pub same-Fine :
    (p : MyThreadPool) (m : Manager) (exit : ℕ) (gone : Bool)
    → Fine p
    → Fine (record p { manager = m; exit_num = exit; deleted = gone })
same-Fine p m exit gone f = record {
  stands = f.stands;
  callable = f.callable;
  served = f.served;
  busy = f.busy;
  live = f.live;
}

create-Fine :
    (p : MyThreadPool)
    → Fine p
    → Fine (record p {
      thread_ids = (create p.max_num p.thread_ids 0 p.live_num).0;
      live_num = (create p.max_num p.thread_ids 0 p.live_num).1;
      manager = compares;
    })
create-Fine p f =
    let (n, e, lo, hi) = f.live in
    let (k, g, low, high) = create_bounds p.max_num p.thread_ids 0 n hi in
    record {
      stands = λ i x h. elim (get_elem?-create p.max_num p.thread_ids 0 p.live_num i x h) [
        | inl y ↦ rw y tt
        | inr old ↦ f.stands i x old
      ];
      callable = f.callable;
      served = f.served;
      busy = f.busy ∙ ap pos (sym (busy_in-create p.max_num p.thread_ids 0 p.live_num));
      live =
          (k, ap (λ l. (create p.max_num p.thread_ids 0 l).1) e ∙ g, omega (arith, lo, low), high);
    }

-- A step of the manager that asks for `mutexPool`.
if_free :
    (m : Option ℕ) (r : Option ℕ → Outcome MyThreadPool)
    → Holds Fine (r none)
    → ((i : ℕ) → r (some i) ≡ blocks)
    → Holds Fine (r m)
if_free none r h b = h
if_free (some i) r h b = rw (b i) tt

pub manage-Fine : (m : Manager) (p : MyThreadPool) → Fine p → Holds Fine (manage m p)
unfolding manage read_sizes add_threads order_exits
manage-Fine tests p f = same-Fine p (if p.shutdown then reads else done) p.exit_num p.deleted f
manage-Fine reads p f =
    if_free p.mutex_pool (λ m. read_sizes m p)
      (same-Fine p (adds (task_number p.task_q) p.live_num) p.exit_num p.deleted f) (λ i. refl)
manage-Fine (adds queue_size live) p f =
    Holds-if Fine (not (leb_ℤ queue_size live) && not (leb_ℤ p.max_num live)) _ _
      (λ y. if_free p.mutex_pool (λ m. add_threads m p) (create-Fine p f) (λ i. refl))
      (λ n. same-Fine p compares p.exit_num p.deleted f)
manage-Fine compares p f =
    same-Fine p
      (if less_ℤ (twice_ℤ p.busy_num) p.live_num && lt_ℤ p.min_num p.live_num
        then orders
        else tests)
      p.exit_num p.deleted f
manage-Fine orders p f =
    if_free p.mutex_pool (λ m. order_exits m p) (same-Fine p tests number p.deleted f) (λ i. refl)
manage-Fine done p f = tt
