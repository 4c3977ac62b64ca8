-- ===== src/Timer/Miscounted.antt =====
-- The counter of src/Timer.cpp behind `forbidenFd`, and what the next search of the list does.
use lxc_http_server.Common.{
  ℕ, suc, ◌+◌, ◌≡◌, sym, ap, ◌∙◌, true, List, [], ◌∷◌, some, length, arith, pos, ok, fault,
  empty_container,
}
use lxc_http_server.Timer.{
  Node, at, Timer, find, has_node, remove_node, erase_node, set_aside, forbiden_found, forbiden_fd,
  delete_expired_fd,
}
use lxc_http_server.Timer.Links.{IsLinked, fd_of-has}
use lxc_http_server.Timer.Expiry.{AllOld, delete_expired_fd-fault}

length-remove_node :
    (id : ℕ) (ns : List Node) → has_node id ns ≡ true → suc (length (remove_node id ns)) ≡ length ns
unfolding has_node remove_node
length-remove_node id [] h = absurd (cc)
length-remove_node id (n ∷ ns) h = ground (arith, length-remove_node id ns)

AllOld-remove : (now id : ℕ) (ns : List Node) → AllOld now ns → AllOld now (remove_node id ns)
unfolding remove_node
AllOld-remove now id [] v = tt
AllOld-remove now id (n ∷ ns) v = ground (arith, AllOld-remove now id ns v.1)

-- On a timer with good iterators whose `cur_size` is the length of its list, for a descriptor that has
-- a node: `forbiden_fd` returns, the counter it leaves is one more than the length of the list, and if
-- every node of the timer has expired at a time, `delete_expired_fd` at that time takes the front of
-- an empty list.
pub forbiden_fd-miscounted :
    (t : Timer) (fd id now : ℕ)
    → IsLinked t
    → t.cur_size ≡ pos (length t.time_list)
    → AllOld now t.time_list
    → find fd t.hash_map ≡ some (at id)
    → (u : Timer) × (forbiden_fd t fd ≡ ok u)
      × (u.cur_size ≡ pos (suc (length u.time_list)))
      × (delete_expired_fd u now ≡ fault empty_container)
unfolding forbiden_fd forbiden_found erase_node
forbiden_fd-miscounted t fd id now v c old m =
    let here : has_node id t.time_list ≡ true = fd_of-has id t.time_list fd (v.linked fd id m) in
    let u = set_aside t fd (remove_node id t.time_list) in
    let more : length t.time_list ≡ suc (length (remove_node id t.time_list)) =
      sym (length-remove_node id t.time_list here) in
    let sum : suc (length (remove_node id t.time_list)) ≡ length (remove_node id t.time_list) + 1 =
      omega arith in
    (
      u,
      rw (m, here),
      c ∙ ap pos more,
      delete_expired_fd-fault u now 0 (AllOld-remove now id t.time_list old)
          (c ∙ ap pos (more ∙ sum)),
    )
