-- ===== src/Timer/Expiry.antt =====
-- What `deleteExpiredFd` removes, and when it reads the front of an empty list.
use lxc_http_server.Common.{
  ℕ, suc, ◌+◌, ◌≤◌, ◌<◌, ◌≡◌, refl, sym, ap, ◌∙◌, Bool, true, false, List, [], ◌∷◌, ◌++◌,
  append_assoc, append-nil, Option, none, some, arith, length, ltb, ltb-false, lt→ltb, ltb-false→le,
  le→leb, leb_ℤ, ◌==◌, ◌||◌, if◌then◌else◌, Bool-cases, inl, inr, ℤ, pos, ok, fault,
  empty_container,
}
use lxc_http_server.Timer.{
  Node, Iterator, Call, epoll_delete, close, Timer, find, new_node, add_found, addfd, expire_front,
  expire_loop, delete_expired_fd,
}
use lxc_http_server.Timer.Links.{find-erase}

abbrev pub From : ℕ → List Node → Type 0
From b [] = Unit {0}
From b (n ∷ rest) = (b ≤ n.expire_time) × From b rest

-- The next to expire stands first.
abbrev pub Ascending : List Node → Type 0
Ascending [] = Unit {0}
Ascending (n ∷ rest) = From n.expire_time rest × Ascending rest

-- The nodes that have not expired, and those that have.
abbrev pub kept : ℕ → List Node → List Node
kept now [] = []
kept now (n ∷ rest) = if ltb n.expire_time now then kept now rest else n ∷ kept now rest

abbrev pub expired : ℕ → List Node → List Node
expired now [] = []
expired now (n ∷ rest) = if ltb n.expire_time now then n ∷ expired now rest else expired now rest

-- For each of them the descriptor leaves the epoll set and is closed.
abbrev pub closings : List Node → List Call
closings [] = []
closings (n ∷ rest) = epoll_delete n.client_fd ∷ close n.client_fd ∷ closings rest

abbrev pub has_fd : ℕ → List Node → Bool
has_fd fd [] = false
has_fd fd (n ∷ rest) = n.client_fd == fd || has_fd fd rest

From-kept :
    (b now : ℕ) (ns : List Node) → now ≤ b → From b ns → (kept now ns ≡ ns) × (expired now ns ≡ [])
From-kept b now [] h f = (refl, refl)
From-kept b now (n ∷ ns) h f =
    let (k, e) = From-kept b now ns h f.1 in
    let young : ltb n.expire_time now ≡ false = ltb-false n.expire_time now (omega arith) in
    (rw (young, k), rw (young, e))

-- The state that the removal of the expired nodes leaves.
pub record Removed (now : ℕ) (ns : List Node) (t u : Timer) : Type 0 where
  pub left : u.time_list ≡ kept now ns
  pub counted : u.cur_size ≡ pos (length (kept now ns))
  pub closed : u.calls ≡ t.calls ++ closings (expired now ns)
  pub forgotten :
      (fd : ℕ)
      → find fd u.hash_map ≡ (if has_fd fd (expired now ns) then none else find fd t.hash_map)

none-or :
    (a b : Bool) (x : Option Iterator)
    → (if b then none else (if a then none else x)) ≡ (if a || b then none else x)
none-or true true x = refl
none-or true false x = refl
none-or false b x = refl

Removed-cons :
    (n : Node) (rest : List Node) (t u : Timer) (now : ℕ)
    → ltb n.expire_time now ≡ true
    → Removed now rest (expire_front t n rest) u
    → Removed now (n ∷ rest) t u
unfolding expire_front
Removed-cons n rest t u now old w = record {
  left = rw old w.left;
  counted = rw old w.counted;
  closed = rw old (w.closed ∙ append_assoc t.calls _ _);
  forgotten = λ fd. rw old (
      rw (w.forgotten fd, find-erase fd n.client_fd t.hash_map)
        (none-or (n.client_fd == fd) (has_fd fd (expired now rest)) (find fd t.hash_map)));
}

Removed-none :
    (n : Node) (rest : List Node) (t : Timer) (now : ℕ)
    → t.time_list ≡ n ∷ rest
    → t.cur_size ≡ pos (length (n ∷ rest))
    → ltb n.expire_time now ≡ false
    → (kept now rest ≡ rest) × (expired now rest ≡ [])
    → Removed now (n ∷ rest) t t
Removed-none n rest t now e c young (k, x) = record {
  left = rw (young, k) e;
  counted = rw (young, k) c;
  closed = rw (young, x) (sym (append-nil t.calls));
  forgotten = λ fd. rw (young, x);
}

positive : (c : ℤ) (n : ℕ) → c ≡ pos (suc n) → leb_ℤ 1 c ≡ true
positive c n e = rw e (le→leb 1 (suc n) (omega arith))

expire_loop-Removed :
    (ns : List Node) (t : Timer) (now : ℕ)
    → t.time_list ≡ ns
    → Ascending ns
    → t.cur_size ≡ pos (length ns)
    → (u : Timer) × (expire_loop ns t now ≡ ok u) × Removed now ns t u
unfolding expire_loop
expire_loop-Removed [] t now e a c = (
  t,
  (let z : leb_ℤ 1 t.cur_size ≡ false = rw c in rw z),
  record { left = e; counted = c; closed = sym (append-nil t.calls); forgotten = λ fd. refl },
)
expire_loop-Removed (n ∷ rest) t now e (from, a) c =
    let some_left = positive t.cur_size (length rest) c in
    elim (Bool-cases (ltb n.expire_time now)) [
      | inl old ↦
          let (u, r, w) =
            expire_loop-Removed rest (expire_front t n rest) now (unfold expire_front in refl) a
              (unfold expire_front in rw c) in
          (u, rw (some_left, old, r), Removed-cons n rest t u now old w)
      | inr young ↦ (
        t,
        rw (some_left, young),
        Removed-none n rest t now e c young
            (From-kept n.expire_time now rest (ltb-false→le n.expire_time now young) from),
      )
    ]

-- When the list is in the order of expiry and `cur_size` is its length, `delete_expired_fd` returns:
-- the list is the nodes that have not expired, in order, `cur_size` is its length, the expired
-- descriptors have been taken from the epoll set and closed in order, and they alone are gone from the
-- hash map.
pub delete_expired_fd-Removed :
    (t : Timer) (now : ℕ)
    → Ascending t.time_list
    → t.cur_size ≡ pos (length t.time_list)
    → (u : Timer) × (delete_expired_fd t now ≡ ok u) × Removed now t.time_list t u
unfolding delete_expired_fd
delete_expired_fd-Removed t now a c = expire_loop-Removed t.time_list t now refl a c

abbrev pub AllOld : ℕ → List Node → Type 0
AllOld now [] = Unit {0}
AllOld now (n ∷ rest) = (n.expire_time < now) × AllOld now rest

expire_loop-fault :
    (ns : List Node) (t : Timer) (now k : ℕ)
    → AllOld now ns
    → t.cur_size ≡ pos (length ns + suc k)
    → expire_loop ns t now ≡ fault empty_container
unfolding expire_loop expire_front
expire_loop-fault [] t now k a c =
    let some_left = positive t.cur_size k (c ∙ ap pos (omega arith)) in rw some_left
expire_loop-fault (n ∷ rest) t now k (old, a) c =
    let m : suc (length rest) + suc k ≡ suc (length rest + suc k) = omega arith in
    let c' : t.cur_size ≡ pos (suc (length rest + suc k)) = c ∙ ap pos m in
    let some_left = positive t.cur_size (length rest + suc k) c' in
    rw (some_left, lt→ltb n.expire_time now old)
      (expire_loop-fault rest (expire_front t n rest) now k a (rw c'))

-- When every node of the list has expired and `cur_size` is greater than the length of the list,
-- `delete_expired_fd` takes the front of an empty list.
pub delete_expired_fd-fault :
    (t : Timer) (now k : ℕ)
    → AllOld now t.time_list
    → t.cur_size ≡ pos (length t.time_list + suc k)
    → delete_expired_fd t now ≡ fault empty_container
unfolding delete_expired_fd
delete_expired_fd-fault t now k a c = expire_loop-fault t.time_list t now k a c

From-append :
    (b : ℕ) (ns : List Node) (n : Node) → From b ns → b ≤ n.expire_time → From b (ns ++ n ∷ [])
From-append b [] n f h = (h, tt)
From-append b (m ∷ ns) n f h = (f.0, From-append b ns n f.1 h)

-- Every node was put into the list with the timeout, at or before the time `now`.
abbrev pub AllBy : ℕ → List Node → Type 0
AllBy latest [] = Unit {0}
AllBy latest (n ∷ rest) = (n.expire_time ≤ latest) × AllBy latest rest

Ascending-append :
    (ns : List Node) (n : Node) → Ascending ns → AllBy n.expire_time ns → Ascending (ns ++ n ∷ [])
Ascending-append [] n a b = (tt, tt)
Ascending-append (m ∷ ns) n (f, a) (h, b) =
    (From-append m.expire_time ns n f h, Ascending-append ns n a b)

-- If the list is in the order of expiry and no node of it expires later than now and the timeout, the
-- list that `addfd` leaves is in the order of expiry.
pub addfd-Ascending :
    (t : Timer) (now fd : ℕ)
    → Ascending t.time_list
    → AllBy (now + t.timeout) t.time_list
    → Ascending (addfd t now fd).0.time_list
unfolding addfd
addfd-Ascending t now fd a b = elim (Bool-cases (leb_ℤ t.max_size t.cur_size)) [
  | inl full ↦ rw full a
  | inr room ↦ rw room (found (find fd t.hash_map))
]
  where
    found : (o : Option Iterator) → Ascending (add_found o t now fd).time_list
    found none = Ascending-append t.time_list (new_node t now fd) a b
    found (some it) = Ascending-append t.time_list (new_node t now fd) a b
