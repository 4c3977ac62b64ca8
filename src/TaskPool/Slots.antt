-- ===== src/TaskPool/Slots.antt =====
-- The slots of `threadIDs`: what a change of one leaves of the others, and how many workers are busy.
use lxc_http_server.Common.{
  ℕ, zero, suc, ◌+◌, ◌≡◌, ◌≢◌, refl, List, [], ◌∷◌, Option, none, some, inl, inr, ◌⊎◌, set,
  get_elem?, arith, ltb, not, ◌&&◌, leb_ℤ, leb, ℤ, pos, suc_ℤ, ◌≤◌, Bool-cases,
}
use lxc_http_server.TaskPool.{
  Place, asks, counts, looks, sleeps, rises, may_exit, checks, fetches, calls, returns, exits,
  number,
}
use lxc_http_server.TaskPool.Actions.{create}

abbrev pub Slots : Type 0
Slots = List (Option Place)

-- A thread in a slot that has been set is the one that was put there, or stood in another slot.
pub get_elem?-set_cases :
    (l : Slots) (i : ℕ) (v : Option Place) (j : ℕ) (y : Place)
    → get_elem? (set l i v) j ≡ some (some y)
    → ((j ≡ i) × (v ≡ some y)) ⊎ ((j ≢ i) × (get_elem? l j ≡ some (some y)))
get_elem?-set_cases [] i v j y h = absurd (cc)
get_elem?-set_cases (x ∷ l) zero v zero y h = inl (refl, cc)
get_elem?-set_cases (x ∷ l) zero v (suc j) y h = inr (λ e. omega arith, h)
get_elem?-set_cases (x ∷ l) (suc i) v zero y h = inr (λ e. omega arith, h)
get_elem?-set_cases (x ∷ l) (suc i) v (suc j) y h = ground (arith, get_elem?-set_cases l i v j y h)

abbrev pub busy_at : Option Place → ℕ
busy_at none = 0
busy_at (some (calls t)) = 1
busy_at (some returns) = 1
busy_at (some asks) = 0
busy_at (some counts) = 0
busy_at (some looks) = 0
busy_at (some sleeps) = 0
busy_at (some rises) = 0
busy_at (some may_exit) = 0
busy_at (some checks) = 0
busy_at (some fetches) = 0
busy_at (some exits) = 0

-- The workers that run a task.
abbrev pub busy_in : Slots → ℕ
busy_in [] = 0
busy_in (v ∷ l) = busy_at v + busy_in l

pub busy_in-set :
    (l : Slots) (i : ℕ) (old v : Option Place)
    → get_elem? l i ≡ some old
    → busy_in (set l i v) + busy_at old ≡ busy_in l + busy_at v
busy_in-set [] i old v h = absurd (cc)
busy_in-set (x ∷ l) zero old v h = let e : x ≡ old = cc in rw e (omega arith)
busy_in-set (x ∷ l) (suc i) old v h = omega (arith, busy_in-set l i old v h)

-- The slots that the manager fills have threads that are not busy, and ask for the mutex.
pub busy_in-create :
    (max : ℕ) (l : Slots) (counter : ℕ) (live : ℤ)
    → busy_in (create max l counter live).0 ≡ busy_in l
unfolding create
busy_in-create max [] counter live = refl
busy_in-create max (some x ∷ l) counter live = omega (arith, busy_in-create max l counter live)
busy_in-create max (none ∷ l) counter live =
    elim (Bool-cases (ltb counter number && not (leb_ℤ max live))) [
      | inl y ↦ rw y (omega (arith, busy_in-create max l (counter + 1) (suc_ℤ live)))
      | inr n ↦ rw n refl
    ]

pub get_elem?-create :
    (max : ℕ) (l : Slots) (counter : ℕ) (live : ℤ) (j : ℕ) (y : Place)
    → get_elem? (create max l counter live).0 j ≡ some (some y)
    → (y ≡ asks) ⊎ (get_elem? l j ≡ some (some y))
unfolding create
get_elem?-create max [] counter live j y h = absurd (cc)
get_elem?-create max (some x ∷ l) counter live zero y h = inr h
get_elem?-create max (some x ∷ l) counter live (suc j) y h =
    get_elem?-create max l counter live j y h
get_elem?-create max (none ∷ l) counter live zero y h =
    elim (Bool-cases (ltb counter number && not (leb_ℤ max live))) [
      | inl t ↦ inl (cc (rw t at h))
      | inr n ↦ inr (rw n at h)
    ]
get_elem?-create max (none ∷ l) counter live (suc j) y h =
    elim (Bool-cases (ltb counter number && not (leb_ℤ max live))) [
      | inl t ↦ get_elem?-create max l (counter + 1) (suc_ℤ live) j y (rw t at h)
      | inr n ↦ inr (rw n at h)
    ]

-- The manager adds threads up to the greatest number.
pub create_bounds :
    (max : ℕ) (l : Slots) (counter live : ℕ)
    → live ≤ max
    → (n : ℕ) × ((create max l counter (pos live)).1 ≡ pos n) × (live ≤ n) × (n ≤ max)
unfolding create
create_bounds max [] counter live h = (live, refl, omega arith, h)
create_bounds max (some x ∷ l) counter live h = create_bounds max l counter live h
create_bounds max (none ∷ l) counter live h =
    elim (Bool-cases (ltb counter number && not (leb max live))) [
      | inl y ↦
          let (n, e, lo, hi) = create_bounds max l (counter + 1) (suc live) (ground arith) in
          (n, rw y e, omega (arith, lo), hi)
      | inr m ↦ (live, rw m refl, omega arith, h)
    ]
