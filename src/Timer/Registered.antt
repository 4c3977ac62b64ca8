-- ===== src/Timer/Registered.antt =====
-- The epoll set beside the hash map of src/Timer.cpp.
use lxc_http_server.Common.{
  ℕ, ◌≡◌, refl, sym, ap, ◌∙◌, Bool, true, false, Bool-cases, ◌==◌, ◌&&◌, inl, inr, List, [], ◌∷◌,
  Option, none, some, if◌then◌else◌, leb_ℤ, ltb, arith, Ends, Ends-bind,
}
use lxc_http_server.Utils.Epoll.{EpollSet}
use lxc_http_server.Timer.{
  Node, Iterator, at, end, epoll_delete, close, Timer, timer, find, erase, insert_node, add_found,
  addfd, deleted, delete_found, delete_fd, set_aside, forbiden_found, forbiden_fd, expire_front,
  expire_loop, delete_expired_fd,
}
use lxc_http_server.Timer.Aside.{if_erased}
use lxc_http_server.Timer.Links.{find-erase, find-assign}
use lxc_http_server.Timer.Histories.{
  Method, adds, deletes, forbids, expires, run_method, run_methods,
}
use lxc_http_server.Timer.Calls.{
  kernel_calls, refused, refused-append, has-other, accepted, has-deleted, has-closed, or_false,
}

abbrev pub is_some : Option Iterator → Bool
is_some none = false
is_some (some it) = true

module _ {ℓ} {S : Type ℓ} (k : EpollSet S) where
  -- Of a descriptor that was not in the set at first: it is in the set only if the hash map has it,
  -- and, when the kernel has refused none of the calls that add it, whenever the hash map has it.
  abbrev pub Registered : S → Timer → Type 0
  Registered s0 t =
      (fd : ℕ)
      → k.has fd s0 ≡ false
      → (k.has fd (kernel_calls k t.calls s0) ≡ true → is_some (find fd t.hash_map) ≡ true)
        × (refused k fd t.calls s0 ≡ false
            → k.has fd (kernel_calls k t.calls s0) ≡ is_some (find fd t.hash_map))

  module _ (s0 : S) where
    insert_node-Registered :
        (t : Timer) (now fd : ℕ) → Registered s0 t → Registered s0 (insert_node t now fd)
    insert_node-Registered t now fd v j h = elim (Bool-cases (fd == j)) [
      | inl y ↦
          rw (find-assign j fd (at t.next_id) t.hash_map, y)
            ((λ g. refl), (λ r. (accepted k t.calls fd j s0 r).1 y))
      | inr n ↦
          rw (find-assign j fd (at t.next_id) t.hash_map, n)
            (
              (λ g. (v j h).0 (sym (has-other k t.calls fd j s0 n) ∙ g)),
              (λ r. has-other k t.calls fd j s0 n ∙ (v j h).1 (accepted k t.calls fd j s0 r).0),
            )
    ]

    erased :
        (t u : Timer) (fd j : ℕ)
        → Registered s0 t
        → k.has j s0 ≡ false
        → u.hash_map ≡ erase fd t.hash_map
        → k.has j (kernel_calls k u.calls s0)
          ≡ (if fd == j then false else k.has j (kernel_calls k t.calls s0))
        → refused k j u.calls s0 ≡ refused k j t.calls s0
        → (k.has j (kernel_calls k u.calls s0) ≡ true → is_some (find j u.hash_map) ≡ true)
          × (refused k j u.calls s0 ≡ false
              → k.has j (kernel_calls k u.calls s0) ≡ is_some (find j u.hash_map))
    erased t u fd j v h m e same = elim (Bool-cases (fd == j)) [
      | inl y ↦ rw (m, find-erase j fd t.hash_map, y) ((λ g. sym (rw y at e) ∙ g), (λ r. rw y at e))
      | inr n ↦
          rw (m, find-erase j fd t.hash_map, n)
            ((λ g. (v j h).0 (sym (rw n at e) ∙ g)), (λ r. (rw n at e) ∙ (v j h).1 (sym same ∙ r)))
    ]

    deleted-Registered :
        (t : Timer) (fd : ℕ) (ns : List Node) → Registered s0 t → Registered s0 (deleted t fd ns)
    unfolding kernel_calls
    deleted-Registered t fd ns v j h =
        erased t (deleted t fd ns) fd j v h refl (has-deleted k t.calls fd j s0)
          (refused-append k j t.calls (epoll_delete fd ∷ []) s0 ∙ or_false (refused k j t.calls s0))

    expire_front-Registered :
        (t : Timer) (n : Node) (rest : List Node)
        → Registered s0 t
        → Registered s0 (expire_front t n rest)
    unfolding expire_front
    expire_front-Registered t n rest v j h =
        erased t (expire_front t n rest) n.client_fd j v h refl
          (has-closed k t.calls n.client_fd j s0)
          (refused-append k j t.calls (epoll_delete n.client_fd ∷ close n.client_fd ∷ []) s0
            ∙ or_false (refused k j t.calls s0))

    -- `forbidenFd` makes no call, and keeps the entry.
    set_aside-Registered :
        (t : Timer) (fd : ℕ) (it : Iterator) (ns : List Node)
        → find fd t.hash_map ≡ some it
        → Registered s0 t
        → Registered s0 (set_aside t fd ns)
    set_aside-Registered t fd it ns here v j h = elim (Bool-cases (fd == j)) [
      | inl y ↦
          let same : find j t.hash_map ≡ some it = ground (arith, here, y) in
          rw (find-assign j fd end t.hash_map, y)
            ((λ g. refl), (λ r. (v j h).1 r ∙ ap is_some same))
      | inr n ↦ rw (find-assign j fd end t.hash_map, n) (v j h)
    ]

    addfd-Registered : (t : Timer) (now fd : ℕ) → Registered s0 t → Registered s0 (addfd t now fd).0
    unfolding addfd add_found
    addfd-Registered t now fd v = elim (Bool-cases (leb_ℤ t.max_size t.cur_size)) [
      | inl full ↦ rw full v
      | inr room ↦
          rw room (elim (find fd t.hash_map) as (λ o. Registered s0 (add_found o t now fd)) [
            | none ↦ insert_node-Registered t now fd v
            | some it ↦ insert_node-Registered t now fd v
          ])
    ]

    delete_found-Registered :
        (o : Option Iterator) (t : Timer) (fd : ℕ)
        → Registered s0 t
        → Ends (Registered s0) (delete_found o t fd)
    unfolding delete_found
    delete_found-Registered none t fd v = v
    delete_found-Registered (some it) t fd v =
        if_erased (Registered s0) it t.time_list (deleted t fd) (λ ns. deleted-Registered t fd ns v)

    forbiden_found-Registered :
        (o : Option Iterator) (t : Timer) (fd : ℕ)
        → find fd t.hash_map ≡ o
        → Registered s0 t
        → Ends (Registered s0) (forbiden_found o t fd)
    unfolding forbiden_found
    forbiden_found-Registered none t fd e v = v
    forbiden_found-Registered (some it) t fd e v =
        if_erased (Registered s0) it t.time_list (set_aside t fd)
          (λ ns. set_aside-Registered t fd it ns e v)

    expire_loop-Registered :
        (ns : List Node) (t : Timer) (now : ℕ)
        → Registered s0 t
        → Ends (Registered s0) (expire_loop ns t now)
    unfolding expire_loop
    expire_loop-Registered [] t now v = elim (Bool-cases (leb_ℤ 1 t.cur_size)) [
      | inl more ↦ rw more tt
      | inr done ↦ rw done v
    ]
    expire_loop-Registered (n ∷ rest) t now v =
        elim (Bool-cases (leb_ℤ 1 t.cur_size && ltb n.expire_time now)) [
          | inl old ↦ rw old (
              expire_loop-Registered rest (expire_front t n rest) now
                (expire_front-Registered t n rest v))
          | inr young ↦ rw young v
        ]

    run_method-Registered :
        (m : Method) (t : Timer) → Registered s0 t → Ends (Registered s0) (run_method m t)
    unfolding run_method delete_fd forbiden_fd delete_expired_fd
    run_method-Registered (adds now fd) t v = addfd-Registered t now fd v
    run_method-Registered (deletes fd) t v = delete_found-Registered (find fd t.hash_map) t fd v
    run_method-Registered (forbids fd) t v =
        forbiden_found-Registered (find fd t.hash_map) t fd refl v
    run_method-Registered (expires now) t v = expire_loop-Registered t.time_list t now v

    run_methods-from :
        (ms : List Method) (t : Timer) → Registered s0 t → Ends (Registered s0) (run_methods ms t)
    unfolding run_methods
    run_methods-from [] t v = v
    run_methods-from (m ∷ ms) t v =
        Ends-bind (Registered s0) (Registered s0) (run_method m t) (run_methods ms)
          (run_method-Registered m t v) (λ u w. run_methods-from ms u w)

-- After every sequence of the four methods on a new timer, if all of them return, for every kernel set
-- and the calls that the timer has made on it, of the descriptors that were not in the epoll set at
-- first: none is in the set that the hash map does not have; and each that the hash map has is in the
-- set, unless the kernel has refused a call of the timer that adds it.
pub run_methods-Registered {ℓ} :
    {S : Type ℓ} (k : EpollSet S) (s0 : S) (ms : List Method) (timeout max_size : ℕ)
    → Ends (Registered k s0) (run_methods ms (timer timeout max_size))
unfolding timer kernel_calls find
run_methods-Registered k s0 ms timeout max_size =
    run_methods-from k s0 ms (timer timeout max_size) (λ fd h. ((λ g. sym h ∙ g), (λ r. h)))
