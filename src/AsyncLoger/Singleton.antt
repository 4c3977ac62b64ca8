-- ===== src/AsyncLoger/Singleton.antt =====
-- `AsyncLoger::getInstance` of src/AsyncLoger.cpp, called by several threads at once.
use lxc_http_server.Common.{
  ℕ, zero, suc, ◌≡◌, refl, List, [], ◌∷◌, ◌++◌, Option, none, some, get_elem?, set, replicate, ap,
}

-- Where a call stands: before the test of line 131, before the lock of line 133, before the copy of
-- line 136, and at its end, with what it has copied.
pub data Call : Type 0 where
  enters creates copies : Call
  returns : Option ℕ → Call

-- `instance` is the number of a logger; `made` counts the loggers that have been constructed.
pub record Singleton : Type 0 where
  pub instance_ptr : Option ℕ
  pub made : ℕ

abbrev pub no_instance : Singleton
no_instance = record { instance_ptr = none; made = 0 }

unfoldable pub enter_call : Option ℕ → Call
enter_call none = creates
enter_call (some n) = copies

-- The lock is held from the construction to the assignment, with nothing tested in between.
unfoldable pub call_step : Call → Singleton → Call × Singleton
unfolding enter_call
call_step enters s = (enter_call s.instance_ptr, s)
call_step creates s = (copies, record { instance_ptr = some s.made; made = suc s.made })
call_step copies s = (returns s.instance_ptr, s)
call_step (returns p) s = (returns p, s)

abbrev pub Calls : Type 0
Calls = List Call × Singleton

-- The thread with that number takes its next step.
unfoldable pub step_at : Option Call → ℕ → Calls → Calls
unfolding call_step
step_at none i cs = cs
step_at (some c) i (calls, s) = let (c1, s1) = call_step c s in (set calls i c1, s1)

unfoldable pub run_calls : List ℕ → Calls → Calls
unfolding step_at
run_calls [] cs = cs
run_calls (i ∷ schedule) cs = run_calls schedule (step_at (get_elem? cs.0 i) i cs)

-- The calls, once the logger `n` is there.
abbrev UsesOnly : ℕ → Call → Type 0
UsesOnly n enters = Unit {0}
UsesOnly n creates = ⊥
UsesOnly n copies = Unit
UsesOnly n (returns p) = p ≡ some n

abbrev pub AllUse : ℕ → List Call → Type 0
AllUse n [] = Unit {0}
AllUse n (c ∷ calls) = UsesOnly n c × AllUse n calls

set-AllUse :
    (n i : ℕ) (c : Call) (calls : List Call)
    → UsesOnly n c
    → AllUse n calls
    → AllUse n (set calls i c)
set-AllUse n i c [] u a = tt
set-AllUse n zero c (x ∷ calls) u a = (u, a.1)
set-AllUse n (suc i) c (x ∷ calls) u a = (a.0, set-AllUse n i c calls u a.1)

abbrev UsesFound : ℕ → Option Call → Type 0
UsesFound n none = Unit {0}
UsesFound n (some c) = UsesOnly n c

get_elem-UsesFound :
    (n i : ℕ) (calls : List Call) → AllUse n calls → UsesFound n (get_elem? calls i)
get_elem-UsesFound n i [] a = tt
get_elem-UsesFound n zero (x ∷ calls) a = a.0
get_elem-UsesFound n (suc i) (x ∷ calls) a = get_elem-UsesFound n i calls a.1

-- The logger `n` is there, the only one that has been made, and all calls use it.
abbrev pub HasOne : Calls → Type 0
HasOne (calls, s) = (s ≡ record { instance_ptr = some 0; made = 1 }) × AllUse 0 calls

call_step-HasOne :
    (i : ℕ) (c : Call) (calls : List Call) (s : Singleton)
    → UsesOnly 0 c
    → HasOne (calls, s)
    → HasOne (step_at (some c) i (calls, s))
unfolding step_at call_step enter_call
call_step-HasOne i enters calls s u (e, a) = (e, set-AllUse 0 i _ calls (rw e tt) a)
call_step-HasOne i creates calls s u h = absurd u
call_step-HasOne i copies calls s u (e, a) =
    (e, set-AllUse 0 i _ calls (ap (λ (x : Singleton). x.instance_ptr) e) a)
call_step-HasOne i (returns p) calls s u (e, a) = (e, set-AllUse 0 i _ calls u a)

step_at-HasOne :
    (found : Option Call) (i : ℕ) (calls : List Call) (s : Singleton)
    → UsesFound 0 found
    → HasOne (calls, s)
    → HasOne (step_at found i (calls, s))
unfolding step_at
step_at-HasOne none i calls s u h = h
step_at-HasOne (some c) i calls s u h = call_step-HasOne i c calls s u h

kept-HasOne : (schedule : List ℕ) (cs : Calls) → HasOne cs → HasOne (run_calls schedule cs)
unfolding run_calls
kept-HasOne [] cs h = h
kept-HasOne (i ∷ schedule) (calls, s) h =
    kept-HasOne schedule (step_at (get_elem? calls i) i (calls, s))
      (step_at-HasOne (get_elem? calls i) i calls s (get_elem-UsesFound 0 i calls h.1) h)

-- `main` calls `getInstance` before it makes the pool's threads.
abbrev pub main_first : List ℕ → ℕ → Calls
main_first schedule threads =
    let main_call = run_calls (0 ∷ 0 ∷ 0 ∷ []) (enters ∷ [], no_instance) in
    run_calls schedule (main_call.0 ++ replicate threads enters, main_call.1)

all_enter : (threads : ℕ) → AllUse 0 (replicate threads enters)
all_enter zero = tt
all_enter (suc threads) = (tt, all_enter threads)

-- `main` calls `getInstance` before it makes other threads. After that, however the calls of any
-- number of threads interleave, one logger has been constructed, and every call that has returned has
-- copied it.
pub run_calls-HasOne : (schedule : List ℕ) (threads : ℕ) → HasOne (main_first schedule threads)
unfolding run_calls step_at call_step enter_call
run_calls-HasOne schedule threads = kept-HasOne schedule _ (refl, (refl, all_enter threads))
