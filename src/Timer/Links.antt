-- ===== src/Timer/Links.antt =====
-- The iterators in the hash map: when they are good, and what a bad one does.
use lxc_http_server.Common.{
  ℕ, ◌+◌, ◌≤◌, ◌<◌, ◌≡◌, ◌≢◌, refl, ◌∙◌, true, List, [], ◌∷◌, ◌++◌, Option, none, some, arith,
  leb_ℤ, ◌==◌, if◌then◌else◌, Bool-cases, inl, inr, ◌⊎◌, Outcome, ok, fault, bad_iterator,
}
use lxc_http_server.Timer.{
  Node, Iterator, at, end, Timer, timer, find, erase, assign, has_node, remove_node, erase_node,
  new_node, insert_node, add_found, addfd, deleted, set_aside, delete_found, delete_fd,
  forbiden_found, forbiden_fd,
}

-- The descriptor of the node with an id.
unfoldable pub fd_of : ℕ → List Node → Option ℕ
fd_of id [] = none
fd_of id (n ∷ rest) = if n.id == id then some n.client_fd else fd_of id rest

abbrev pub Below : ℕ → List Node → Type 0
Below b [] = Unit {0}
Below b (n ∷ rest) = (n.id < b) × Below b rest

-- Every iterator in the hash map points to a node of its own descriptor, and the ids of the nodes
-- are those that have been given out.
pub record IsLinked (t : Timer) : Type 0 where
  pub linked : (fd id : ℕ) → find fd t.hash_map ≡ some (at id) → fd_of id t.time_list ≡ some fd
  pub fresh : Below t.next_id t.time_list

pub find-erase :
    (fd k : ℕ) (m : List (ℕ × Iterator))
    → find fd (erase k m) ≡ (if k == fd then none else find fd m)
unfolding find erase
find-erase fd k [] = ground arith
find-erase fd k ((j, it) ∷ m) = ground (arith, find-erase fd k m)

pub find-assign :
    (fd k : ℕ) (it : Iterator) (m : List (ℕ × Iterator))
    → find fd (assign k it m) ≡ (if k == fd then some it else find fd m)
unfolding find assign
find-assign fd k it [] = refl
find-assign fd k it ((j, it') ∷ m) = ground (arith, find-assign fd k it m)

pub fd_of-append :
    (id : ℕ) (ns ms : List Node) (fd : ℕ) → fd_of id ns ≡ some fd → fd_of id (ns ++ ms) ≡ some fd
unfolding fd_of
fd_of-append id [] ms fd e = cc
fd_of-append id (n ∷ ns) ms fd e = ground (arith, fd_of-append id ns ms fd)

fd_of-fresh : (b : ℕ) (ns ms : List Node) → Below b ns → fd_of b (ns ++ ms) ≡ fd_of b ms
unfolding fd_of
fd_of-fresh b [] ms h = refl
fd_of-fresh b (n ∷ ns) ms h = ground (arith, fd_of-fresh b ns ms h.1)

pub fd_of-has : (id : ℕ) (ns : List Node) (fd : ℕ) → fd_of id ns ≡ some fd → has_node id ns ≡ true
unfolding fd_of has_node
fd_of-has id [] fd e = cc
fd_of-has id (n ∷ ns) fd e = ground (arith, fd_of-has id ns fd)

pub fd_of-remove : (id k : ℕ) (ns : List Node) → id ≢ k → fd_of id (remove_node k ns) ≡ fd_of id ns
unfolding fd_of remove_node
fd_of-remove id k [] h = refl
fd_of-remove id k (n ∷ ns) h = ground (arith, fd_of-remove id k ns h)

Below-append :
    (b c : ℕ) (ns : List Node) (n : Node) → b ≤ c → n.id < c → Below b ns → Below c (ns ++ n ∷ [])
Below-append b c [] n h l v = (l, tt)
Below-append b c (m ∷ ns) n h l v = (omega (arith, v.0), Below-append b c ns n h l v.1)

pub Below-remove : (b k : ℕ) (ns : List Node) → Below b ns → Below b (remove_node k ns)
unfolding remove_node
Below-remove b k [] v = tt
Below-remove b k (n ∷ ns) v = ground (arith, Below-remove b k ns v.1)

-- A new timer.
pub timer-IsLinked : (timeout max_size : ℕ) → IsLinked (timer timeout max_size)
unfolding timer find
timer-IsLinked timeout max_size = record { linked = λ fd id e. cc; fresh = tt }

insert_node-IsLinked : (t : Timer) (now fd : ℕ) → IsLinked t → IsLinked (insert_node t now fd)
unfolding fd_of
insert_node-IsLinked t now fd v =
    let n = new_node t now fd in
    record {
      linked = λ k id e. ground (
        arith,
        e,
        find-assign k fd (at t.next_id) t.hash_map,
        fd_of-fresh t.next_id t.time_list (n ∷ []) v.fresh,
        v.linked k id,
        fd_of-append id t.time_list (n ∷ []) k,
      );
      fresh =
          Below-append t.next_id (t.next_id + 1) t.time_list n (omega arith) (omega arith) v.fresh;
    }

pub addfd-IsLinked : (t : Timer) (now fd : ℕ) → IsLinked t → IsLinked (addfd t now fd).0
unfolding addfd
addfd-IsLinked t now fd v = elim (Bool-cases (leb_ℤ t.max_size t.cur_size)) [
  | inl full ↦ rw full v
  | inr room ↦ rw room (found (find fd t.hash_map))
]
  where
    found : (o : Option Iterator) → IsLinked (add_found o t now fd)
    found none =
        let w = insert_node-IsLinked t now fd v in record { linked = w.linked; fresh = w.fresh }
    found (some it) = insert_node-IsLinked t now fd v

-- What `deleteFd` and `forbidenFd` do with the list, when the iterator of `fd` is good.
erase_node-at :
    (t : Timer) (fd id : ℕ)
    → IsLinked t
    → find fd t.hash_map ≡ some (at id)
    → erase_node (at id) t.time_list ≡ ok (remove_node id t.time_list)
unfolding erase_node
erase_node-at t fd id v e = rw (fd_of-has id t.time_list fd (v.linked fd id e))

-- With the node of `fd` removed, the other iterators are still good.
linked-remove :
    (t : Timer) (fd id k j : ℕ)
    → IsLinked t
    → find fd t.hash_map ≡ some (at id)
    → fd ≢ k
    → find k t.hash_map ≡ some (at j)
    → fd_of j (remove_node id t.time_list) ≡ some k
linked-remove t fd id k j v e n f =
    let here = v.linked fd id e in
    let there = v.linked k j f in
    let apart : j ≢ id = λ q. ground (arith, q, here, there) in
    fd_of-remove j id t.time_list apart ∙ there

pub Iterator-cases :
    (o : Option Iterator) → (o ≡ none) ⊎ ((o ≡ some end) ⊎ ((id : ℕ) × (o ≡ some (at id))))
Iterator-cases none = inl refl
Iterator-cases (some end) = inr (inl refl)
Iterator-cases (some (at id)) = inr (inr (id, refl))

delete_found-IsLinked :
    (t : Timer) (fd id : ℕ)
    → IsLinked t
    → find fd t.hash_map ≡ some (at id)
    → (u : Timer) × (delete_found (some (at id)) t fd ≡ ok u) × IsLinked u
unfolding delete_found
delete_found-IsLinked t fd id v e = (
  deleted t fd (remove_node id t.time_list),
  rw (erase_node-at t fd id v e),
  record {
    linked = λ k j f. elim (Bool-cases (fd == k)) [
      | inl same ↦ cc (rw (find-erase k fd t.hash_map, same) at f)
      | inr other ↦
          linked-remove t fd id k j v e (λ q. ground (arith, q, other))
            (rw (find-erase k fd t.hash_map, other) at f)
    ];
    fresh = Below-remove t.next_id id t.time_list v.fresh;
  },
)

forbiden_found-IsLinked :
    (t : Timer) (fd id : ℕ)
    → IsLinked t
    → find fd t.hash_map ≡ some (at id)
    → (u : Timer) × (forbiden_found (some (at id)) t fd ≡ ok u) × IsLinked u
unfolding forbiden_found
forbiden_found-IsLinked t fd id v e = (
  set_aside t fd (remove_node id t.time_list),
  rw (erase_node-at t fd id v e),
  record {
    linked = λ k j f. elim (Bool-cases (fd == k)) [
      | inl same ↦ cc (rw (find-assign k fd end t.hash_map, same) at f)
      | inr other ↦
          linked-remove t fd id k j v e (λ q. ground (arith, q, other))
            (rw (find-assign k fd end t.hash_map, other) at f)
    ];
    fresh = Below-remove t.next_id id t.time_list v.fresh;
  },
)

-- A call that undefined behaviour stops only at a descriptor whose iterator is `end`, and that
-- otherwise leaves good iterators.
abbrev pub Guarded : Timer → ℕ → Outcome Timer → Type 0
Guarded t fd r =
    ((r ≡ fault bad_iterator) × (find fd t.hash_map ≡ some end))
    ⊎ ((find fd t.hash_map ≢ some end) × (u : Timer) × (r ≡ ok u) × IsLinked u)

-- On a timer with good iterators, `delete_fd` erases through a bad iterator exactly for a descriptor
-- that has the iterator `end`, as `forbiden_fd` leaves it; for every other it returns, and all iterators are good.
pub delete_fd-Guarded : (t : Timer) (fd : ℕ) → IsLinked t → Guarded t fd (delete_fd t fd)
unfolding delete_fd
delete_fd-Guarded t fd v = elim (Iterator-cases (find fd t.hash_map)) [
  | inl e ↦ rw e (inr ((λ q. cc), t, refl, v))
  | inr (inl e) ↦ rw e (inl (refl, refl))
  | inr (inr (id, e)) ↦
      let (u, r, w) = delete_found-IsLinked t fd id v e in rw (e, r) (inr ((λ q. cc), u, refl, w))
]

-- On a timer with good iterators, `forbiden_fd` erases through a bad iterator exactly for a descriptor
-- that has the iterator `end`; for every other it returns, and all iterators are good.
pub forbiden_fd-Guarded : (t : Timer) (fd : ℕ) → IsLinked t → Guarded t fd (forbiden_fd t fd)
unfolding forbiden_fd
forbiden_fd-Guarded t fd v = elim (Iterator-cases (find fd t.hash_map)) [
  | inl e ↦ rw e (inr ((λ q. cc), t, refl, v))
  | inr (inl e) ↦ rw e (inl (refl, refl))
  | inr (inr (id, e)) ↦
      let (u, r, w) = forbiden_found-IsLinked t fd id v e in rw (e, r) (inr ((λ q. cc), u, refl, w))
]

-- On a timer with good iterators, `delete_fd` and `forbiden_fd` each erase through a bad iterator
-- exactly for a descriptor that the hash map has with `end`, as `forbiden_fd` leaves it; for every
-- other each returns, and all iterators are good.
pub delete_fd-forbiden_fd-Guarded :
    (t : Timer) (fd : ℕ)
    → IsLinked t
    → Guarded t fd (delete_fd t fd) × Guarded t fd (forbiden_fd t fd)
delete_fd-forbiden_fd-Guarded t fd v = (delete_fd-Guarded t fd v, forbiden_fd-Guarded t fd v)
