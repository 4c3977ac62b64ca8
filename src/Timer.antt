-- ===== src/Timer.antt =====
-- include/Timer.h and src/Timer.cpp: the connections that are kept alive.
-- A list iterator is the id that its node was given when it was inserted, or `end`; using one whose
-- node is gone is undefined. The mutex makes each method one step, so it is not a field. Times are
-- whole seconds, the only part that the code compares; descriptors are 32-bit patterns.
pub mod Links
pub mod Aside
pub mod Histories
pub mod Miscounted
pub mod Expiry
pub mod Calls
pub mod Registered
pub mod Rearm
pub mod Added
mod Kernel
mod Tests
use mathlib.Core.Option
use lxc_http_server.Common.{
  ℕ, zero, suc, ◌+◌, ◌-◌, Bool, true, false, not, ◌&&◌, List, [], ◌∷◌, ◌++◌, Option, none, some,
  ltb, leb, ◌==◌, if◌then◌else◌, Outcome, ok, fault, ℤ, pos, suc_ℤ, pred_ℤ, leb_ℤ, bad_iterator,
  empty_container, ◌>>=◌,
}

-- `Timer::Node`.
pub record Node : Type 0 where
  pub id : ℕ
  pub client_fd : ℕ
  pub cur_time : ℕ
  pub expire_time : ℕ

pub data Iterator : Type 0 where
  at : ℕ → Iterator
  end : Iterator

-- The calls of the kernel that the methods make, in order.
pub data Call : Type 0 where
  epoll_add epoll_delete close : ℕ → Call

-- `hash_map` has at most one entry for a descriptor. `next_id` is the id of the next node.
pub record Timer : Type 0 where
  pub time_list : List Node
  pub hash_map : List (ℕ × Iterator)
  pub timeout : ℕ
  pub cur_size : ℤ
  pub max_size : ℕ
  pub calls : List Call
  pub next_id : ℕ

-- The constructor: `_timeout` and `_maxSize`.
unfoldable pub timer : ℕ → ℕ → Timer
timer timeout max_size = record {
  time_list = [];
  hash_map = [];
  timeout = timeout;
  cur_size = pos 0;
  max_size = max_size;
  calls = [];
  next_id = 0;
}

-- `hashMap.find`, `hashMap.erase` and `hashMap[fd] = it`.
unfoldable pub find : ℕ → List (ℕ × Iterator) → Option Iterator
find fd [] = none
find fd ((k, it) ∷ rest) = if k == fd then some it else find fd rest

unfoldable pub erase : ℕ → List (ℕ × Iterator) → List (ℕ × Iterator)
erase fd [] = []
erase fd ((k, it) ∷ rest) = if k == fd then erase fd rest else (k, it) ∷ erase fd rest

unfoldable pub assign : ℕ → Iterator → List (ℕ × Iterator) → List (ℕ × Iterator)
assign fd it [] = (fd, it) ∷ []
assign fd it ((k, j) ∷ rest) = if k == fd then (fd, it) ∷ rest else (k, j) ∷ assign fd it rest

-- `timeList.erase(it)`.
unfoldable pub has_node : ℕ → List Node → Bool
has_node id [] = false
has_node id (n ∷ rest) = if n.id == id then true else has_node id rest

unfoldable pub remove_node : ℕ → List Node → List Node
remove_node id [] = []
remove_node id (n ∷ rest) = if n.id == id then rest else n ∷ remove_node id rest

unfoldable pub erase_node : Iterator → List Node → Outcome (List Node)
unfolding has_node remove_node
erase_node end nodes = fault bad_iterator
erase_node (at id) nodes =
    if has_node id nodes then ok (remove_node id nodes) else fault bad_iterator

-- `Node(clientFd, timeout)` at time `now`.
abbrev pub new_node : Timer → ℕ → ℕ → Node
new_node t now fd = record {
  id = t.next_id;
  client_fd = fd;
  cur_time = now;
  expire_time = now + t.timeout;
}

-- `hashMap[fd] = timeList.insert(timeList.end(), Node(fd, timeout))` and the call of epoll: both
-- `addFdToEpoll_INETONESHOT` and `resetOneshot_INETONESHOT` ask for `EPOLL_CTL_ADD`.
abbrev pub insert_node : Timer → ℕ → ℕ → Timer
insert_node t now fd = record t {
  time_list = t.time_list ++ new_node t now fd ∷ [];
  hash_map = assign fd (at t.next_id) t.hash_map;
  calls = t.calls ++ epoll_add fd ∷ [];
  next_id = t.next_id + 1;
}

-- `addfd` behind the test of the size, by the result of `hashMap.find`.
unfoldable pub add_found : Option Iterator → Timer → ℕ → ℕ → Timer
unfolding assign
add_found none t now fd =
    let t1 = insert_node t now fd in record t1 { cur_size = suc_ℤ t1.cur_size }
add_found (some it) t now fd = insert_node t now fd

unfoldable pub addfd : Timer → ℕ → ℕ → Timer × Bool
unfolding add_found find
addfd t now fd =
    if leb_ℤ t.max_size t.cur_size
    then (t, false)
    else (add_found (find fd t.hash_map) t now fd, true)

-- `deleteFd` behind `timeList.erase`.
abbrev pub deleted : Timer → ℕ → List Node → Timer
deleted t fd nodes = record t {
  time_list = nodes;
  calls = t.calls ++ epoll_delete fd ∷ [];
  hash_map = erase fd t.hash_map;
  cur_size = pred_ℤ t.cur_size;
}

-- `deleteFd`, by the result of `hashMap.find`.
unfoldable pub delete_found : Option Iterator → Timer → ℕ → Outcome Timer
unfolding erase_node erase
delete_found none t fd = ok t
delete_found (some it) t fd = do nodes ← erase_node it t.time_list; ok (deleted t fd nodes)

unfoldable pub delete_fd : Timer → ℕ → Outcome Timer
unfolding delete_found find
delete_fd t fd = delete_found (find fd t.hash_map) t fd

-- `forbidenFd` behind `timeList.erase`: the entry stays, with no node.
abbrev pub set_aside : Timer → ℕ → List Node → Timer
set_aside t fd nodes = record t { time_list = nodes; hash_map = assign fd end t.hash_map }

-- `forbidenFd`, by the result of `hashMap.find`.
unfoldable pub forbiden_found : Option Iterator → Timer → ℕ → Outcome Timer
unfolding erase_node assign
forbiden_found none t fd = ok t
forbiden_found (some it) t fd = do nodes ← erase_node it t.time_list; ok (set_aside t fd nodes)

unfoldable pub forbiden_fd : Timer → ℕ → Outcome Timer
unfolding forbiden_found find
forbiden_fd t fd = forbiden_found (find fd t.hash_map) t fd

-- One round of the loop of `deleteExpiredFd` behind its test, on the list's first node.
unfoldable pub expire_front : Timer → Node → List Node → Timer
unfolding erase
expire_front t n rest = record t {
  time_list = rest;
  hash_map = erase n.client_fd t.hash_map;
  cur_size = pred_ℤ t.cur_size;
  calls = t.calls ++ epoll_delete n.client_fd ∷ close n.client_fd ∷ [];
}

-- The loop of `deleteExpiredFd` over the list as it stands; `timeList.front()` of an empty list is
-- undefined.
unfoldable pub expire_loop : List Node → Timer → ℕ → Outcome Timer
unfolding expire_front
expire_loop [] t now = if leb_ℤ 1 t.cur_size then fault empty_container else ok t
expire_loop (n ∷ rest) t now =
    let next = expire_loop rest (expire_front t n rest) now in
    if leb_ℤ 1 t.cur_size && ltb n.expire_time now then next else ok t

unfoldable pub delete_expired_fd : Timer → ℕ → Outcome Timer
unfolding expire_loop
delete_expired_fd t now = expire_loop t.time_list t now
