-- ===== src/Server/Caught.antt =====
-- What the `catch` of the handler does, by what the timer holds for the descriptor.
use lxc_http_server.Common.{
  ℕ, ◌≡◌, true, ◌⊎◌, List, [], ◌∷◌, ◌++◌, suc, ◌==◌, if◌then◌else◌, pos, some, none, Outcome, ok,
  fault, bad_iterator,
}
use lxc_http_server.Timer.{Node, epoll_delete, Timer, at, end, find}
use lxc_http_server.Server.{Served}

abbrev pub given_up : Timer → Served
given_up t = record { peer = none; timer = t; closed = true }

-- The node of `fd` with the id `id` alone is taken from the list, its entry alone from the hash map,
-- the counter is one less, and one call is made, which takes the descriptor from the epoll set.
pub record TakenOut (t : Timer) (fd id : ℕ) (u : Timer) : Type 0 where
  pub unlisted :
      (before : List Node) × (n : Node) × (after : List Node) × (t.time_list ≡ before ++ n ∷ after)
      × (u.time_list ≡ before ++ after)
      × (n.id ≡ id)
      × (n.client_fd ≡ fd)
  pub entries : (k : ℕ) → find k u.hash_map ≡ (if fd == k then none else find k t.hash_map)
  pub counted : (n : ℕ) → t.cur_size ≡ pos (suc n) → u.cur_size ≡ pos n
  pub called : u.calls ≡ t.calls ++ epoll_delete fd ∷ []

-- The three cases of what the hash map holds for the descriptor.
abbrev pub GivenUp : Timer → ℕ → Outcome Served → Type 0
GivenUp t fd r =
    ((find fd t.hash_map ≡ none) × (r ≡ ok (given_up t)))
    ⊎ (((find fd t.hash_map ≡ some end) × (r ≡ fault bad_iterator))
        ⊎ ((id : ℕ) × (u : Timer) × (find fd t.hash_map ≡ some (at id))
            × (r ≡ ok (given_up u))
            × TakenOut t fd id u))
