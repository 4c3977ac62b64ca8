-- ===== src/Timer/Calls.antt =====
-- The calls of src/Timer.cpp on the kernel's epoll set, through the functions of src/utils.cpp, which
-- do not read what `epoll_ctl` returns.
use lxc_http_server.Common.{
  ℕ, ◌≡◌, refl, sym, ap, ◌∙◌, Bool, true, false, Bool-cases, ◌==◌, ◌&&◌, ◌||◌, not, inl, inr, List,
  [], ◌∷◌, ◌++◌, if◌then◌else◌, arith,
}
use lxc_http_server.Utils.Epoll.{EpollSet, add_fd_to_epoll_inetoneshot, delete_fd_from_epoll}
use lxc_http_server.Timer.{Call, epoll_add, epoll_delete, close}

or-false_left : (a b : Bool) → (a || b) ≡ false → a ≡ false
or-false_left true b h = h
or-false_left false b h = refl

or-false_right : (a b : Bool) → (a || b) ≡ false → b ≡ false
or-false_right true b h = absurd (cc)
or-false_right false b h = h

or_assoc : (a b c : Bool) → ((a || b) || c) ≡ (a || (b || c))
or_assoc true b c = refl
or_assoc false b c = refl

not_refused : (own here : Bool) → ((own && not here) || false) ≡ false → own ≡ true → here ≡ true
not_refused true true h y = refl
not_refused true false h y = absurd (cc)
not_refused false here h y = absurd (cc)

pub or_false : (a : Bool) → (a || false) ≡ a
or_false true = refl
or_false false = refl

module _ {ℓ} {S : Type ℓ} (k : EpollSet S) where
  -- `addFdToEpoll_INETONESHOT` and `resetOneshot_INETONESHOT` ask for the same.
  unfoldable pub kernel_call : Call → S → S
  kernel_call (epoll_add fd) s = k.ctl (add_fd_to_epoll_inetoneshot fd) s
  kernel_call (epoll_delete fd) s = k.ctl (delete_fd_from_epoll fd) s
  kernel_call (close fd) s = k.close_fd fd s

  unfoldable pub kernel_calls : List Call → S → S
  unfolding kernel_call
  kernel_calls [] s = s
  kernel_calls (c ∷ cs) s = kernel_calls cs (kernel_call c s)

  pub kernel_calls-append :
      (l m : List Call) (s : S) → kernel_calls (l ++ m) s ≡ kernel_calls m (kernel_calls l s)
  unfolding kernel_calls
  kernel_calls-append [] m s = refl
  kernel_calls-append (c ∷ l) m s = kernel_calls-append l m (kernel_call c s)

  -- Some `EPOLL_CTL_ADD` of the descriptor among the calls has left it outside the set.
  abbrev pub refused : ℕ → List Call → S → Bool
  refused fd [] s = false
  refused fd (epoll_add j ∷ cs) s =
      (j == fd && not (k.has fd (kernel_call (epoll_add j) s)))
      || refused fd cs (kernel_call (epoll_add j) s)
  refused fd (epoll_delete j ∷ cs) s = refused fd cs (kernel_call (epoll_delete j) s)
  refused fd (close j ∷ cs) s = refused fd cs (kernel_call (close j) s)

  pub refused-append :
      (fd : ℕ) (l m : List Call) (s : S)
      → refused fd (l ++ m) s ≡ (refused fd l s || refused fd m (kernel_calls l s))
  unfolding kernel_calls
  refused-append fd [] m s = refl
  refused-append fd (epoll_add j ∷ l) m s =
      let more = refused-append fd l m (kernel_call (epoll_add j) s) in
      rw more (sym (or_assoc (j == fd && not (k.has fd (kernel_call (epoll_add j) s))) _ _))
  refused-append fd (epoll_delete j ∷ l) m s =
      refused-append fd l m (kernel_call (epoll_delete j) s)
  refused-append fd (close j ∷ l) m s = refused-append fd l m (kernel_call (close j) s)

  -- A call that adds leaves the other descriptors, and its own if that is in the set.
  pub has-other :
      (l : List Call) (fd j : ℕ) (s : S)
      → (fd == j) ≡ false
      → k.has j (kernel_calls (l ++ epoll_add fd ∷ []) s) ≡ k.has j (kernel_calls l s)
  unfolding kernel_calls add_fd_to_epoll_inetoneshot
  has-other l fd j s n =
      ap (k.has j) (kernel_calls-append l (epoll_add fd ∷ []) s)
      ∙ k.has_ctl (add_fd_to_epoll_inetoneshot fd) (kernel_calls l s) j n

  pub has-kept :
      (l : List Call) (fd j : ℕ) (s : S)
      → k.has j (kernel_calls l s) ≡ true
      → k.has j (kernel_calls (l ++ epoll_add fd ∷ []) s) ≡ true
  unfolding kernel_calls add_fd_to_epoll_inetoneshot
  has-kept l fd j s h = elim (Bool-cases (fd == j)) [
    | inl y ↦
        let same : fd ≡ j = ground (arith, y) in
        let here : k.has fd (kernel_calls l s) ≡ true =
          ap (λ i. k.has i (kernel_calls l s)) same ∙ h in
        ap (k.has j) (kernel_calls-append l (epoll_add fd ∷ []) s)
        ∙ ap (k.has j) (k.add_twice (add_fd_to_epoll_inetoneshot fd) (kernel_calls l s) refl here)
        ∙ h
    | inr n ↦ has-other l fd j s n ∙ h
  ]

  -- A call that adds, and that the kernel has not refused.
  pub accepted :
      (l : List Call) (fd j : ℕ) (s : S)
      → refused j (l ++ epoll_add fd ∷ []) s ≡ false
      → (refused j l s ≡ false)
        × ((fd == j) ≡ true → k.has j (kernel_calls (l ++ epoll_add fd ∷ []) s) ≡ true)
  unfolding kernel_calls
  accepted l fd j s r =
      let both = sym (refused-append j l (epoll_add fd ∷ []) s) ∙ r in
      let here = kernel_calls-append l (epoll_add fd ∷ []) s in
      let last = k.has j (kernel_call (epoll_add fd) (kernel_calls l s)) in
      (
        or-false_left (refused j l s) _ both,
        λ y.
            ap (k.has j) here
            ∙ not_refused (fd == j) last (or-false_right (refused j l s) _ both) y,
      )

  pub has-deleted :
      (l : List Call) (fd j : ℕ) (s : S)
      → k.has j (kernel_calls (l ++ epoll_delete fd ∷ []) s)
        ≡ (if fd == j then false else k.has j (kernel_calls l s))
  unfolding kernel_calls delete_fd_from_epoll
  has-deleted l fd j s =
      ap (k.has j) (kernel_calls-append l (epoll_delete fd ∷ []) s)
      ∙ k.has_del (delete_fd_from_epoll fd) (kernel_calls l s) j refl

  pub has-closed :
      (l : List Call) (fd j : ℕ) (s : S)
      → k.has j (kernel_calls (l ++ epoll_delete fd ∷ close fd ∷ []) s)
        ≡ (if fd == j then false else k.has j (kernel_calls l s))
  unfolding kernel_calls delete_fd_from_epoll
  has-closed l fd j s =
      let taken = k.has_del (delete_fd_from_epoll fd) (kernel_calls l s) j refl in
      ap (k.has j) (kernel_calls-append l (epoll_delete fd ∷ close fd ∷ []) s)
      ∙ k.has_close fd (k.ctl (delete_fd_from_epoll fd) (kernel_calls l s)) j
      ∙ elim (Bool-cases (fd == j)) [ inl y ↦ rw y refl | inr n ↦ rw n (rw n at taken) ]
