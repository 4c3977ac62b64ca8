-- ===== src/Timer/Rearm.antt =====
-- The call that is to rearm a descriptor that the epoll set has reported.
use lxc_http_server.Common.{
  ℕ, ◌≡◌, refl, ap, ◌∙◌, true, false, Bool-cases, ◌==◌, inl, inr, List, [], ◌∷◌, Option, none, some,
  leb_ℤ, arith, Ends, Ends-bind,
}
use lxc_http_server.Utils.Epoll.{EpollSet, add_fd_to_epoll_inetoneshot, delete_fd_from_epoll}
use lxc_http_server.Timer.{
  Node, Iterator, epoll_add, epoll_delete, Timer, find, insert_node, add_found, addfd, deleted,
  delete_found, delete_fd, set_aside, forbiden_found, forbiden_fd,
}
use lxc_http_server.Timer.Histories.{
  Method, adds, deletes, forbids, expires, run_method, run_methods,
}
use lxc_http_server.Timer.Aside.{if_erased}
use lxc_http_server.Timer.Calls.{kernel_calls, kernel_calls-append, has-kept, has-deleted}

-- No call deletes the descriptor, and the list is not searched for what has expired.
abbrev pub Leaves : ℕ → List Method → Type 0
Leaves fd [] = Unit {0}
Leaves fd (adds now j ∷ ms) = Leaves fd ms
Leaves fd (forbids j ∷ ms) = Leaves fd ms
Leaves fd (deletes j ∷ ms) = ((j == fd) ≡ false) × Leaves fd ms
Leaves fd (expires now ∷ ms) = ⊥

module _ {ℓ} {S : Type ℓ} (k : EpollSet S) (s0 : S) (fd : ℕ) where
  -- The descriptor is in the set, and no event of it would be reported.
  pub record IsDisarmed (t : Timer) : Type 0 where
    pub registered : k.has fd (kernel_calls k t.calls s0) ≡ true
    pub disarmed : k.armed fd (kernel_calls k t.calls s0) ≡ false

  insert_node-IsDisarmed : (t : Timer) (now j : ℕ) → IsDisarmed t → IsDisarmed (insert_node t now j)
  unfolding kernel_calls add_fd_to_epoll_inetoneshot
  insert_node-IsDisarmed t now j v =
      let s = kernel_calls k t.calls s0 in
      let more = kernel_calls-append k t.calls (epoll_add j ∷ []) s0 in
      record {
        registered = has-kept k t.calls j fd s0 v.registered;
        disarmed = ap (k.armed fd) more ∙ elim (Bool-cases (j == fd)) [
          | inl y ↦
              let same : j ≡ fd = ground (arith, y) in
              let here : k.has j s ≡ true = ap (λ i. k.has i s) same ∙ v.registered in
              ap (k.armed fd) (k.add_twice (add_fd_to_epoll_inetoneshot j) s refl here) ∙ v.disarmed
          | inr n ↦ k.armed_ctl (add_fd_to_epoll_inetoneshot j) s fd n ∙ v.disarmed
        ];
      }

  deleted-IsDisarmed :
      (t : Timer) (j : ℕ) (ns : List Node)
      → (j == fd) ≡ false
      → IsDisarmed t
      → IsDisarmed (deleted t j ns)
  unfolding kernel_calls delete_fd_from_epoll
  deleted-IsDisarmed t j ns n v = record {
    registered = has-deleted k t.calls j fd s0 ∙ rw n v.registered;
    disarmed =
        ap (k.armed fd) (kernel_calls-append k t.calls (epoll_delete j ∷ []) s0)
        ∙ k.armed_ctl (delete_fd_from_epoll j) (kernel_calls k t.calls s0) fd n
        ∙ v.disarmed;
  }

  addfd-IsDisarmed : (t : Timer) (now j : ℕ) → IsDisarmed t → IsDisarmed (addfd t now j).0
  unfolding addfd add_found
  addfd-IsDisarmed t now j v = elim (Bool-cases (leb_ℤ t.max_size t.cur_size)) [
    | inl full ↦ rw full v
    | inr room ↦ rw room (elim (find j t.hash_map) as (λ o. IsDisarmed (add_found o t now j)) [
      | none ↦
          let w = insert_node-IsDisarmed t now j v in
          record { registered = w.registered; disarmed = w.disarmed }
      | some it ↦ insert_node-IsDisarmed t now j v
    ])
  ]

  delete_found-IsDisarmed :
      (o : Option Iterator) (t : Timer) (j : ℕ)
      → (j == fd) ≡ false
      → IsDisarmed t
      → Ends IsDisarmed (delete_found o t j)
  unfolding delete_found
  delete_found-IsDisarmed none t j n v = v
  delete_found-IsDisarmed (some it) t j n v =
      if_erased IsDisarmed it t.time_list (deleted t j) (λ ns. deleted-IsDisarmed t j ns n v)

  forbiden_found-IsDisarmed :
      (o : Option Iterator) (t : Timer) (j : ℕ)
      → IsDisarmed t
      → Ends IsDisarmed (forbiden_found o t j)
  unfolding forbiden_found
  forbiden_found-IsDisarmed none t j v = v
  forbiden_found-IsDisarmed (some it) t j v =
      if_erased IsDisarmed it t.time_list (set_aside t j)
        (λ ns. record { registered = v.registered; disarmed = v.disarmed })

  keeps-IsDisarmed :
      (ms : List Method) (t : Timer)
      → Leaves fd ms
      → IsDisarmed t
      → Ends IsDisarmed (run_methods ms t)
  unfolding run_methods run_method delete_fd forbiden_fd
  keeps-IsDisarmed [] t l v = v
  keeps-IsDisarmed (adds now j ∷ ms) t l v =
      keeps-IsDisarmed ms (addfd t now j).0 l (addfd-IsDisarmed t now j v)
  keeps-IsDisarmed (forbids j ∷ ms) t l v =
      Ends-bind IsDisarmed IsDisarmed (forbiden_fd t j) (run_methods ms)
        (forbiden_found-IsDisarmed (find j t.hash_map) t j v) (λ u w. keeps-IsDisarmed ms u l w)
  keeps-IsDisarmed (deletes j ∷ ms) t l v =
      Ends-bind IsDisarmed IsDisarmed (delete_fd t j) (run_methods ms)
        (delete_found-IsDisarmed (find j t.hash_map) t j l.0 v) (λ u w. keeps-IsDisarmed ms u l.1 w)
  keeps-IsDisarmed (expires now ∷ ms) t l v = absurd l

-- For every kernel set: a descriptor that is in the epoll set and disarmed, as after an event of it
-- was reported, stays in the set and disarmed through every sequence of `addfd` and `forbiden_fd` of
-- any descriptor and `delete_fd` of others, if all of them return: `addfd` does not rearm it.
pub run_methods-IsDisarmed {ℓ} :
    {S : Type ℓ} (k : EpollSet S) (s0 : S) (fd : ℕ) (ms : List Method) (t : Timer)
    → Leaves fd ms
    → IsDisarmed k s0 fd t
    → Ends (IsDisarmed k s0 fd) (run_methods ms t)
run_methods-IsDisarmed k s0 fd ms t l v = keeps-IsDisarmed k s0 fd ms t l v
