-- ===== src/TaskPool/Schedules.antt =====
-- What holds under every schedule of the workers, the manager, `addTask` and the destructor.
use lxc_http_server.Common.{
  ℕ, zero, suc, ◌≡◌, Bool, true, false, List, [], ◌∷◌, ◌++◌, none, some, get_elem?, Outcome, ok,
  throws, fault, blocks, out_of_fuel, use_after_free, data_race, ◌⊎◌,
}
use lxc_http_server.TaskPool.{Place, asks, MyThreadPool}
use lxc_http_server.Common.{replicate}
use lxc_http_server.TaskPool.Actions.{
  Act, works, manages, offers, signals, closes, deletes, at_once,
}
use lxc_http_server.TaskPool.Invariant.{IsCallable, Fine}

-- Every task that is added has a function.
abbrev pub AllOffered : List Act → Type 0
AllOffered [] = Unit {0}
AllOffered (offers t ∷ l) = IsCallable t × AllOffered l
AllOffered (works i ∷ l) = AllOffered l
AllOffered (manages ∷ l) = AllOffered l
AllOffered (signals i ∷ l) = AllOffered l
AllOffered (closes ∷ l) = AllOffered l
AllOffered (deletes ∷ l) = AllOffered l
AllOffered (at_once a b ∷ l) = AllOffered l

-- Some steps of two threads are made at once.
abbrev pub some_at_once : List Act → Bool
some_at_once [] = false
some_at_once (at_once a b ∷ l) = true
some_at_once (works i ∷ l) = some_at_once l
some_at_once (manages ∷ l) = some_at_once l
some_at_once (offers t ∷ l) = some_at_once l
some_at_once (signals i ∷ l) = some_at_once l
some_at_once (closes ∷ l) = some_at_once l
some_at_once (deletes ∷ l) = some_at_once l

-- No undefined behaviour but the use of what the destructor has freed and, if steps may be made at
-- once, data races; of a pool that it comes to, that it is fine.
abbrev pub Runs : Bool → Outcome MyThreadPool → Type 0
Runs together (ok p) = Fine p
Runs together blocks = Unit
Runs together (fault k) = (k ≡ use_after_free) ⊎ ((k ≡ data_race) × (together ≡ true))
Runs together (throws e) = ⊥
Runs together out_of_fuel = ⊥

pub new_asks :
    (n m i : ℕ) (x : Place)
    → get_elem? (replicate n (some asks) ++ replicate m none) i ≡ some (some x)
    → asks ≡ x
new_asks zero zero i x e = absurd (cc)
new_asks zero (suc m) zero x e = absurd (cc)
new_asks zero (suc m) (suc i) x e = new_asks zero m i x e
new_asks (suc n) m zero x e = cc
new_asks (suc n) m (suc i) x e = new_asks n m i x e
