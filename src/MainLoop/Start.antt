-- ===== src/MainLoop/Start.antt =====
-- `main` of src/httpserver.cpp up to its loop.
use lxc_http_server.Common.{
  ℕ, ◌==◌, ◌≡◌, refl, Bool, not, List, Option, none, some, if◌then◌else◌, Outcome, ok, throws,
  runtime_error, ◌>>=◌,
}
use lxc_http_server.MainLoop.{minus_one, System, system, Move, run_moves}

-- What the calls of the kernel return; `none` is -1, and the pipe is its two ends.
pub record Kernel : Type 0 where
  pub socket_fd : Option ℕ
  pub bound : Option ℕ
  pub listens : Option ℕ
  pub pipes : Option (ℕ × ℕ)

-- An `int` as a condition.
abbrev truth : ℕ → Bool
truth n = not (n == 0)

-- `if (ret == -1) throw runtime_error(…)`.
unfoldable or_throw {ℓ} : {A : Type ℓ} → Option A → Outcome A
or_throw none = throws runtime_error
or_throw (some a) = ok a

-- The condition of the first test assigns -1 to `serverSocketfd`.
unfoldable pub start_up : Kernel → Outcome System
unfolding or_throw
start_up k =
    let server_fd = minus_one in
    if truth server_fd then throws runtime_error else (do
      bound ← or_throw k.bound
      listens ← or_throw k.listens
      (read_end, write_end) ← or_throw k.pipes
      ok (system server_fd read_end))

unfoldable pub main : Kernel → List Move → Outcome System
unfolding start_up
main k moves = do s ← start_up k; run_moves moves s

-- Whatever the kernel answers, the server does not come to its loop.
main-throws : (k : Kernel) (moves : List Move) → main k moves ≡ throws runtime_error
unfolding main
main-throws k moves = refl
