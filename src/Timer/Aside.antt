-- ===== src/Timer/Aside.antt =====
-- The entries of the hash map of src/Timer.cpp that have no node: those that `forbidenFd` leaves.
use lxc_http_server.Common.{
  ℕ, ◌≡◌, Bool-cases, ◌&&◌, ◌==◌, inl, inr, List, [], ◌∷◌, Option, none, some, leb_ℤ, ltb, ok,
  arith, ◌>>=◌, Ends, Ends-bind,
}
use lxc_http_server.Timer.{
  Node, Iterator, at, end, Timer, find, has_node, erase_node, insert_node, add_found, addfd,
  deleted, delete_found, delete_fd, set_aside, forbiden_found, forbiden_fd, expire_front,
  expire_loop, delete_expired_fd,
}
use lxc_http_server.Timer.Links.{find-erase, find-assign}

erase_node-Ends : (it : Iterator) (ns : List Node) → Ends (λ ms. Unit {0}) (erase_node it ns)
unfolding erase_node
erase_node-Ends end ns = tt
erase_node-Ends (at id) ns = elim (Bool-cases (has_node id ns)) [
  | inl y ↦ rw y tt
  | inr n ↦ rw n tt
]

-- What comes of a call of `timeList.erase` and a change of the timer behind it.
pub if_erased :
    (P : Timer → Type 0) (it : Iterator) (ns : List Node) (f : List Node → Timer)
    → ((ms : List Node) → P (f ms))
    → Ends P (do ms ← erase_node it ns; ok (f ms))
if_erased P it ns f h =
    Ends-bind (λ ms. Unit) P (erase_node it ns) (λ ms. ok (f ms)) (erase_node-Ends it ns)
      (λ ms u. h ms)

module _ (P : ℕ → Type 0) where
  -- Each descriptor whose iterator is `end` has the property.
  abbrev pub IsAside : Timer → Type 0
  IsAside t = (fd : ℕ) → find fd t.hash_map ≡ some end → P fd

  insert_node-IsAside : (t : Timer) (now fd : ℕ) → IsAside t → IsAside (insert_node t now fd)
  insert_node-IsAside t now fd v j e = elim (Bool-cases (fd == j)) [
    | inl y ↦ cc (rw (find-assign j fd (at t.next_id) t.hash_map, y) at e)
    | inr n ↦ v j (rw (find-assign j fd (at t.next_id) t.hash_map, n) at e)
  ]

  pub addfd-IsAside : (t : Timer) (now fd : ℕ) → IsAside t → IsAside (addfd t now fd).0
  unfolding addfd add_found
  addfd-IsAside t now fd v = elim (Bool-cases (leb_ℤ t.max_size t.cur_size)) [
    | inl full ↦ rw full v
    | inr room ↦ rw room (elim (find fd t.hash_map) as (λ o. IsAside (add_found o t now fd)) [
      | none ↦ insert_node-IsAside t now fd v
      | some it ↦ insert_node-IsAside t now fd v
    ])
  ]

  deleted-IsAside : (t : Timer) (fd : ℕ) (ns : List Node) → IsAside t → IsAside (deleted t fd ns)
  deleted-IsAside t fd ns v j e = elim (Bool-cases (fd == j)) [
    | inl y ↦ cc (rw (find-erase j fd t.hash_map, y) at e)
    | inr n ↦ v j (rw (find-erase j fd t.hash_map, n) at e)
  ]

  delete_found-IsAside :
      (o : Option Iterator) (t : Timer) (fd : ℕ) → IsAside t → Ends IsAside (delete_found o t fd)
  unfolding delete_found
  delete_found-IsAside none t fd v = v
  delete_found-IsAside (some it) t fd v =
      if_erased IsAside it t.time_list (deleted t fd) (λ ns. deleted-IsAside t fd ns v)

  pub delete_fd-IsAside : (t : Timer) (fd : ℕ) → IsAside t → Ends IsAside (delete_fd t fd)
  unfolding delete_fd
  delete_fd-IsAside t fd v = delete_found-IsAside (find fd t.hash_map) t fd v

  set_aside-IsAside :
      (t : Timer) (fd : ℕ) (ns : List Node) → P fd → IsAside t → IsAside (set_aside t fd ns)
  set_aside-IsAside t fd ns h v j e = elim (Bool-cases (fd == j)) [
    | inl y ↦ let same : fd ≡ j = ground (arith, y) in rw same at h
    | inr n ↦ v j (rw (find-assign j fd end t.hash_map, n) at e)
  ]

  forbiden_found-IsAside :
      (o : Option Iterator) (t : Timer) (fd : ℕ)
      → P fd
      → IsAside t
      → Ends IsAside (forbiden_found o t fd)
  unfolding forbiden_found
  forbiden_found-IsAside none t fd h v = v
  forbiden_found-IsAside (some it) t fd h v =
      if_erased IsAside it t.time_list (set_aside t fd) (λ ns. set_aside-IsAside t fd ns h v)

  pub forbiden_fd-IsAside :
      (t : Timer) (fd : ℕ) → P fd → IsAside t → Ends IsAside (forbiden_fd t fd)
  unfolding forbiden_fd
  forbiden_fd-IsAside t fd h v = forbiden_found-IsAside (find fd t.hash_map) t fd h v

  expire_loop-IsAside :
      (ns : List Node) (t : Timer) (now : ℕ) → IsAside t → Ends IsAside (expire_loop ns t now)
  unfolding expire_loop expire_front
  expire_loop-IsAside [] t now v = elim (Bool-cases (leb_ℤ 1 t.cur_size)) [
    | inl more ↦ rw more tt
    | inr done ↦ rw done v
  ]
  expire_loop-IsAside (n ∷ rest) t now v =
      elim (Bool-cases (leb_ℤ 1 t.cur_size && ltb n.expire_time now)) [
        | inl old ↦ rw old (
            expire_loop-IsAside rest (expire_front t n rest) now
              (deleted-IsAside t n.client_fd rest v))
        | inr young ↦ rw young v
      ]

  pub delete_expired_fd-IsAside :
      (t : Timer) (now : ℕ) → IsAside t → Ends IsAside (delete_expired_fd t now)
  unfolding delete_expired_fd
  delete_expired_fd-IsAside t now v = expire_loop-IsAside t.time_list t now v
