-- ===== src/Timer/Added.antt =====
-- Which descriptors src/Timer.cpp adds to the epoll set.
use lxc_http_server.Common.{
  ℕ, Bool-cases, ◌&&◌, inl, inr, List, [], ◌∷◌, ◌++◌, Option, none, some, leb_ℤ, ltb, Yields,
  Yields-any,
}
use lxc_http_server.Timer.{
  Node, Iterator, Call, epoll_add, epoll_delete, close, Timer, find, erase_node, add_found, addfd,
  delete_found, delete_fd, forbiden_found, forbiden_fd, expire_front, expire_loop,
  delete_expired_fd,
}

module _ (P : ℕ → Type 0) where
  abbrev pub AllAdded : List Call → Type 0
  AllAdded [] = Unit {0}
  AllAdded (epoll_add fd ∷ cs) = P fd × AllAdded cs
  AllAdded (epoll_delete fd ∷ cs) = AllAdded cs
  AllAdded (close fd ∷ cs) = AllAdded cs

  AllAdded-append : (cs ds : List Call) → AllAdded cs → AllAdded ds → AllAdded (cs ++ ds)
  AllAdded-append [] ds h k = k
  AllAdded-append (epoll_add fd ∷ cs) ds h k = (h.0, AllAdded-append cs ds h.1 k)
  AllAdded-append (epoll_delete fd ∷ cs) ds h k = AllAdded-append cs ds h k
  AllAdded-append (close fd ∷ cs) ds h k = AllAdded-append cs ds h k

  -- Each descriptor that the timer has added has the property.
  abbrev pub AddsOnly : Timer → Type 0
  AddsOnly t = AllAdded t.calls

  pub addfd-AddsOnly : (t : Timer) (now fd : ℕ) → P fd → AddsOnly t → AddsOnly (addfd t now fd).0
  unfolding addfd add_found
  addfd-AddsOnly t now fd p v =
      let more = AllAdded-append t.calls (epoll_add fd ∷ []) v (p, tt) in
      elim (Bool-cases (leb_ℤ t.max_size t.cur_size)) [
        | inl full ↦ rw full v
        | inr room ↦ rw room (elim (find fd t.hash_map) as (λ o. AddsOnly (add_found o t now fd)) [
          | none ↦ more
          | some it ↦ more
        ])
      ]

  delete_found-AddsOnly :
      (o : Option Iterator) (t : Timer) (fd : ℕ)
      → AddsOnly t
      → Yields AddsOnly (delete_found o t fd)
  unfolding delete_found
  delete_found-AddsOnly none t fd v = v
  delete_found-AddsOnly (some it) t fd v =
      Yields-any AddsOnly (erase_node it t.time_list) _
        (λ ns. AllAdded-append t.calls (epoll_delete fd ∷ []) v tt)

  pub delete_fd-AddsOnly : (t : Timer) (fd : ℕ) → AddsOnly t → Yields AddsOnly (delete_fd t fd)
  unfolding delete_fd
  delete_fd-AddsOnly t fd v = delete_found-AddsOnly (find fd t.hash_map) t fd v

  forbiden_found-AddsOnly :
      (o : Option Iterator) (t : Timer) (fd : ℕ)
      → AddsOnly t
      → Yields AddsOnly (forbiden_found o t fd)
  unfolding forbiden_found
  forbiden_found-AddsOnly none t fd v = v
  forbiden_found-AddsOnly (some it) t fd v =
      Yields-any AddsOnly (erase_node it t.time_list) _ (λ ns. v)

  pub forbiden_fd-AddsOnly : (t : Timer) (fd : ℕ) → AddsOnly t → Yields AddsOnly (forbiden_fd t fd)
  unfolding forbiden_fd
  forbiden_fd-AddsOnly t fd v = forbiden_found-AddsOnly (find fd t.hash_map) t fd v

  expire_loop-AddsOnly :
      (nodes : List Node) (t : Timer) (now : ℕ)
      → AddsOnly t
      → Yields AddsOnly (expire_loop nodes t now)
  unfolding expire_loop expire_front
  expire_loop-AddsOnly [] t now v = elim (Bool-cases (leb_ℤ 1 t.cur_size)) [
    | inl y ↦ rw y tt
    | inr n ↦ rw n v
  ]
  expire_loop-AddsOnly (n ∷ rest) t now v =
      let more = AllAdded-append t.calls (epoll_delete n.client_fd ∷ close n.client_fd ∷ []) v tt in
      elim (Bool-cases (leb_ℤ 1 t.cur_size && ltb n.expire_time now)) [
        | inl old ↦ rw old (expire_loop-AddsOnly rest (expire_front t n rest) now more)
        | inr young ↦ rw young v
      ]

  pub delete_expired_fd-AddsOnly :
      (t : Timer) (now : ℕ) → AddsOnly t → Yields AddsOnly (delete_expired_fd t now)
  unfolding delete_expired_fd
  delete_expired_fd-AddsOnly t now v = expire_loop-AddsOnly t.time_list t now v
