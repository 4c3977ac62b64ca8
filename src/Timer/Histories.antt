-- ===== src/Timer/Histories.antt =====
-- Sequences of calls on the timer: what they keep.
use lxc_http_server.Common.{
  ℕ, ◌≡◌, ◌≢◌, refl, ap, ◌∙◌, ◌&&◌, ◌==◌, true, false, List, [], ◌∷◌, none, some, arith, ltb, leb_ℤ,
  Bool-cases, inl, inr, Outcome, ok, fault, throws, blocks, out_of_fuel, Bool, false, ◌||◌,
  bad_iterator, ◌>>=◌, Ends, Ends-bind,
}
use lxc_http_server.Timer.{
  Node, Iterator, at, end, Timer, timer, find, assign, has_node, erase_node, addfd, delete_fd,
  forbiden_found, forbiden_fd, expire_front, expire_loop, delete_expired_fd,
}
use lxc_http_server.Timer.Aside.{
  IsAside, addfd-IsAside, delete_fd-IsAside, forbiden_fd-IsAside, delete_expired_fd-IsAside,
}
use lxc_http_server.Timer.Links.{
  fd_of, IsLinked, find-erase, find-assign, Guarded, timer-IsLinked, addfd-IsLinked,
  delete_fd-Guarded, forbiden_fd-Guarded, Iterator-cases,
}

expire_front-IsLinked :
    (t : Timer) (n : Node) (rest : List Node)
    → t.time_list ≡ n ∷ rest
    → IsLinked t
    → IsLinked (expire_front t n rest)
unfolding expire_front fd_of
expire_front-IsLinked t n rest e v = record {
  linked = λ k j f.
      let old = v.linked k j in
      ground (arith, f, e, find-erase k n.client_fd t.hash_map, rw e at old);
  fresh = (rw e at v.fresh).1;
}

expire_loop-IsLinked :
    (ns : List Node) (t : Timer) (now : ℕ)
    → t.time_list ≡ ns
    → IsLinked t
    → Ends IsLinked (expire_loop ns t now)
unfolding expire_loop
expire_loop-IsLinked [] t now e v = elim (Bool-cases (leb_ℤ 1 t.cur_size)) [
  | inl more ↦ rw more tt
  | inr done ↦ rw done v
]
expire_loop-IsLinked (n ∷ rest) t now e v =
    elim (Bool-cases (leb_ℤ 1 t.cur_size && ltb n.expire_time now)) [
      | inl old ↦ rw old (
          expire_loop-IsLinked rest (expire_front t n rest) now refl
            (expire_front-IsLinked t n rest e v))
      | inr young ↦ rw young v
    ]

-- Removing the expired connections leaves good iterators, if it returns.
pub delete_expired_fd-IsLinked :
    (t : Timer) (now : ℕ) → IsLinked t → Ends IsLinked (delete_expired_fd t now)
unfolding delete_expired_fd
delete_expired_fd-IsLinked t now v = expire_loop-IsLinked t.time_list t now refl v

-- The methods, as the other threads call them.
pub data Method : Type 0 where
  adds : ℕ → ℕ → Method
  deletes forbids expires : ℕ → Method

unfoldable pub run_method : Method → Timer → Outcome Timer
unfolding addfd delete_fd forbiden_fd delete_expired_fd
run_method (adds now fd) t = ok (addfd t now fd).0
run_method (deletes fd) t = delete_fd t fd
run_method (forbids fd) t = forbiden_fd t fd
run_method (expires now) t = delete_expired_fd t now

unfoldable pub run_methods : List Method → Timer → Outcome Timer
unfolding run_method
run_methods [] t = ok t
run_methods (m ∷ ms) t = do u ← run_method m t; run_methods ms u

pub Guarded-Ends : (t : Timer) (fd : ℕ) (r : Outcome Timer) → Guarded t fd r → Ends IsLinked r
Guarded-Ends t fd r (inl (e, _)) = rw e tt
Guarded-Ends t fd r (inr (_, u, e, v)) = rw e v

run_method-IsLinked : (m : Method) (t : Timer) → IsLinked t → Ends IsLinked (run_method m t)
unfolding run_method
run_method-IsLinked (adds now fd) t v = addfd-IsLinked t now fd v
run_method-IsLinked (deletes fd) t v = Guarded-Ends t fd _ (delete_fd-Guarded t fd v)
run_method-IsLinked (forbids fd) t v = Guarded-Ends t fd _ (forbiden_fd-Guarded t fd v)
run_method-IsLinked (expires now) t v = delete_expired_fd-IsLinked t now v

run_methods-Ends : (ms : List Method) (t : Timer) → IsLinked t → Ends IsLinked (run_methods ms t)
unfolding run_methods
run_methods-Ends [] t v = v
run_methods-Ends (m ∷ ms) t v =
    Ends-bind IsLinked IsLinked _ _ (run_method-IsLinked m t v) (λ u w. run_methods-Ends ms u w)

-- Some call of the run is `forbidenFd` of the descriptor.
abbrev pub sets_aside : ℕ → List Method → Bool
sets_aside fd [] = false
sets_aside fd (forbids j ∷ ms) = j == fd || sets_aside fd ms
sets_aside fd (adds now j ∷ ms) = sets_aside fd ms
sets_aside fd (deletes j ∷ ms) = sets_aside fd ms
sets_aside fd (expires now ∷ ms) = sets_aside fd ms

run_methods-IsAside :
    (P : ℕ → Type 0) (ms : List Method) (t : Timer)
    → ((fd : ℕ) → sets_aside fd ms ≡ true → P fd)
    → IsAside P t
    → Ends (IsAside P) (run_methods ms t)
unfolding run_methods run_method
run_methods-IsAside P [] t h v = v
run_methods-IsAside P (adds now j ∷ ms) t h v =
    run_methods-IsAside P ms (addfd t now j).0 h (addfd-IsAside P t now j v)
run_methods-IsAside P (deletes j ∷ ms) t h v =
    Ends-bind (IsAside P) (IsAside P) (delete_fd t j) (run_methods ms) (delete_fd-IsAside P t j v)
      (λ u w. run_methods-IsAside P ms u h w)
run_methods-IsAside P (forbids j ∷ ms) t h v =
    Ends-bind (IsAside P) (IsAside P) (forbiden_fd t j) (run_methods ms)
      (forbiden_fd-IsAside P t j (h j (ground arith)) v)
      (λ u w. run_methods-IsAside P ms u (λ fd e. h fd (ground (arith, e))) w)
run_methods-IsAside P (expires now ∷ ms) t h v =
    Ends-bind (IsAside P) (IsAside P) (delete_expired_fd t now) (run_methods ms)
      (delete_expired_fd-IsAside P t now v) (λ u w. run_methods-IsAside P ms u h w)

Ends-both :
    (P Q : Timer → Type 0) (r : Outcome Timer) → Ends P r → Ends Q r → Ends (λ t. P t × Q t) r
Ends-both P Q (ok t) p q = (p, q)
Ends-both P Q (fault k) p q = tt
Ends-both P Q (throws e) p q = tt
Ends-both P Q blocks p q = tt
Ends-both P Q out_of_fuel p q = p

-- After every sequence of the four methods on a new timer, if all of them return, each iterator in the
-- hash map points to a live node of its own descriptor or is `end`, an `end` stands only for a
-- descriptor of which the sequence has a call of `forbidenFd`, and the ids in the list have been given
-- out.
pub run_methods-IsLinked :
    (ms : List Method) (timeout max_size : ℕ)
    → Ends
        (λ t. IsLinked t × IsAside (λ fd. sets_aside fd ms ≡ true) t)
        (run_methods ms (timer timeout max_size))
unfolding timer find
run_methods-IsLinked ms timeout max_size =
    Ends-both IsLinked (IsAside (λ fd. sets_aside fd ms ≡ true))
      (run_methods ms (timer timeout max_size))
      (run_methods-Ends ms (timer timeout max_size) (timer-IsLinked timeout max_size))
      (run_methods-IsAside (λ fd. sets_aside fd ms ≡ true) ms (timer timeout max_size) (λ fd e. e)
        (λ fd e. cc))

outcome_map : Timer → Outcome Timer → List (ℕ × Iterator)
outcome_map t (ok u) = u.hash_map
outcome_map t _ = t.hash_map

find-forbiden :
    (t u : Timer) (fd id : ℕ)
    → forbiden_found (some (at id)) t fd ≡ ok u
    → find fd u.hash_map ≡ some end
unfolding forbiden_found erase_node outcome_map
find-forbiden t u fd id e = elim (Bool-cases (has_node id t.time_list)) [
  | inl here ↦
      let m : assign fd end t.hash_map ≡ u.hash_map = ap (outcome_map t) (rw here at e) in
      rw (← m) (find-assign fd fd end t.hash_map ∙ ground arith)
  | inr gone ↦ cc (rw gone at e)
]

-- If the hash map has a descriptor and `forbiden_fd` of it returns, a `delete_fd` of the same
-- descriptor on the timer that it leaves erases through a bad iterator.
pub forbiden-delete :
    (t u : Timer) (fd : ℕ)
    → find fd t.hash_map ≢ none
    → forbiden_fd t fd ≡ ok u
    → delete_fd u fd ≡ fault bad_iterator
unfolding forbiden_fd delete_fd
forbiden-delete t u fd h e = elim (Iterator-cases (find fd t.hash_map)) [
  | inl m ↦ absurd (h m)
  | inr (inl m) ↦ cc (rw m at e)
  | inr (inr (id, m)) ↦ rw (find-forbiden t u fd id (rw m at e))
]
