-- ===== src/Utils/Epoll.antt =====
-- What the functions of src/utils.cpp on the epoll set ask of `epoll_ctl`.
use lxc_http_server.Common.{
  ℕ, ◌==◌, if◌then◌else◌, ◌≡◌, Bool, true, false, Option, none, some, refl,
}

pub data Op : Type 0 where
  ctl_add ctl_mod ctl_del : Op

-- `EPOLLIN`, `EPOLLET` and `EPOLLONESHOT`.
pub record Interest : Type 0 where
  pub readable : Bool
  pub edge : Bool
  pub oneshot : Bool

-- A call of `epoll_ctl`; no event is the null pointer.
pub record Request : Type 0 where
  pub op : Op
  pub fd : ℕ
  pub event : Option Interest

unfoldable pub add_fd_to_epoll_inlt : ℕ → Request
add_fd_to_epoll_inlt fd = record {
  op = ctl_add;
  fd = fd;
  event = some (record { readable = true; edge = false; oneshot = false });
}

unfoldable pub add_fd_to_epoll_inet : ℕ → Request
add_fd_to_epoll_inet fd = record {
  op = ctl_add;
  fd = fd;
  event = some (record { readable = true; edge = true; oneshot = false });
}

unfoldable pub add_fd_to_epoll_inetoneshot : ℕ → Request
add_fd_to_epoll_inetoneshot fd = record {
  op = ctl_add;
  fd = fd;
  event = some (record { readable = true; edge = true; oneshot = true });
}

unfoldable pub reset_oneshot_inetoneshot : ℕ → Request
reset_oneshot_inetoneshot fd = record {
  op = ctl_add;
  fd = fd;
  event = some (record { readable = true; edge = true; oneshot = true });
}

unfoldable pub delete_fd_from_epoll : ℕ → Request
delete_fd_from_epoll fd = record { op = ctl_del; fd = fd; event = none }

-- The kernel's epoll set, of descriptors that stand each for a file of its own. `EPOLL_CTL_ADD` of a
-- descriptor that is there fails with `EEXIST` and changes nothing; of another it may fail too, with
-- `EBADF`, `ENOMEM`, `ENOSPC` or `EPERM`, so nothing is known of whether it is there afterwards.
-- `EPOLL_CTL_DEL` and `close` take a descriptor out. No call changes what is known of another
-- descriptor. `armed` says that an event of the descriptor would be reported.
pub record EpollSet {ℓ} (S : Type ℓ) : Type ℓ where
  pub ctl : Request → S → S
  pub close_fd : ℕ → S → S
  pub has : ℕ → S → Bool
  pub armed : ℕ → S → Bool
  pub add_twice : (r : Request) (s : S) → r.op ≡ ctl_add → has r.fd s ≡ true → ctl r s ≡ s
  pub has_ctl : (r : Request) (s : S) (fd : ℕ) → (r.fd == fd) ≡ false → has fd (ctl r s) ≡ has fd s
  pub has_del :
      (r : Request) (s : S) (fd : ℕ)
      → r.op ≡ ctl_del
      → has fd (ctl r s) ≡ (if r.fd == fd then false else has fd s)
  pub has_close :
      (k : ℕ) (s : S) (fd : ℕ) → has fd (close_fd k s) ≡ (if k == fd then false else has fd s)
  pub armed_ctl :
      (r : Request) (s : S) (fd : ℕ) → (r.fd == fd) ≡ false → armed fd (ctl r s) ≡ armed fd s
  pub armed_close :
      (k : ℕ) (s : S) (fd : ℕ) → (k == fd) ≡ false → armed fd (close_fd k s) ≡ armed fd s

module _ {ℓ} {S : Type ℓ} (k : EpollSet S) where
  -- The call that is to rearm a descriptor does nothing to one that is there.
  pub reset_oneshot-unchanged :
      (fd : ℕ) (s : S) → k.has fd s ≡ true → k.ctl (reset_oneshot_inetoneshot fd) s ≡ s
  unfolding reset_oneshot_inetoneshot
  reset_oneshot-unchanged fd s h = k.add_twice (reset_oneshot_inetoneshot fd) s refl h
