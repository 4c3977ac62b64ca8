-- ===== src/Timer/Kernel.antt =====
-- An epoll set as a function, which has what the interface asks for.
use lxc_http_server.Common.{
  ℕ, ◌≡◌, refl, Bool, true, false, Bool-cases, ◌==◌, inl, inr, Option, none, some, if◌then◌else◌,
  ltb,
}
use lxc_http_server.Utils.Epoll.{EpollSet, Request, Op, ctl_add, ctl_mod, ctl_del}

-- `none` is not in the set; `some b` is, and `b` says that its event would be reported.
abbrev pub Interests : Type 0
Interests = ℕ → Option Bool

abbrev is_in : Option Bool → Bool
is_in none = false
is_in (some b) = true

abbrev is_armed : Option Bool → Bool
is_armed none = false
is_armed (some b) = b

abbrev put : ℕ → Option Bool → Interests → Interests
put fd v s = λ j. if fd == j then v else s j

-- The descriptors below 8 are open; `EPOLL_CTL_ADD` of another fails.
abbrev accepts : ℕ → Bool
accepts fd = ltb fd 8

abbrev by_op : Op → ℕ → Interests → Interests
by_op ctl_add fd s = if is_in (s fd) then s else (if accepts fd then put fd (some true) s else s)
by_op ctl_mod fd s = if is_in (s fd) then put fd (some true) s else s
by_op ctl_del fd s = put fd none s

abbrev control : Request → Interests → Interests
control r s = by_op r.op r.fd s

abbrev has_fd : ℕ → Interests → Bool
has_fd fd s = is_in (s fd)

abbrev armed_fd : ℕ → Interests → Bool
armed_fd fd s = is_armed (s fd)

abbrev close_it : ℕ → Interests → Interests
close_it fd s = put fd none s

pub twice : (o : Op) (fd : ℕ) (s : Interests) → o ≡ ctl_add → has_fd fd s ≡ true → by_op o fd s ≡ s
twice ctl_add fd s e h = rw h refl
twice ctl_mod fd s e h = absurd (cc)
twice ctl_del fd s e h = absurd (cc)

pub put-has :
    (fd j : ℕ) (v : Option Bool) (s : Interests)
    → has_fd j (put fd v s) ≡ (if fd == j then is_in v else has_fd j s)
put-has fd j v s = elim (Bool-cases (fd == j)) [ inl y ↦ rw y refl | inr n ↦ rw n refl ]

pub elsewhere :
    (o : Op) (fd : ℕ) (s : Interests) (j : ℕ)
    → (fd == j) ≡ false
    → has_fd j (by_op o fd s) ≡ has_fd j s
elsewhere ctl_add fd s j n = elim (Bool-cases (is_in (s fd))) [
  | inl here ↦ rw here refl
  | inr gone ↦ elim (Bool-cases (accepts fd)) [
    | inl y ↦ rw (gone, y, n) refl
    | inr m ↦ rw (gone, m) refl
  ]
]
elsewhere ctl_mod fd s j n = elim (Bool-cases (is_in (s fd))) [
  | inl here ↦ rw (here, n) refl
  | inr gone ↦ rw gone refl
]
elsewhere ctl_del fd s j n = rw n refl

pub deleting :
    (o : Op) (fd : ℕ) (s : Interests) (j : ℕ)
    → o ≡ ctl_del
    → has_fd j (by_op o fd s) ≡ (if fd == j then false else has_fd j s)
deleting ctl_del fd s j e = put-has fd j none s
deleting ctl_mod fd s j e = absurd (cc)
deleting ctl_add fd s j e = absurd (cc)

pub other :
    (o : Op) (fd : ℕ) (s : Interests) (j : ℕ)
    → (fd == j) ≡ false
    → armed_fd j (by_op o fd s) ≡ armed_fd j s
other ctl_add fd s j n = elim (Bool-cases (is_in (s fd))) [
  | inl y ↦ rw y refl
  | inr m ↦ elim (Bool-cases (accepts fd)) [ inl a ↦ rw (m, a, n) refl | inr b ↦ rw (m, b) refl ]
]
other ctl_mod fd s j n = elim (Bool-cases (is_in (s fd))) [
  | inl y ↦ rw (y, n) refl
  | inr m ↦ rw m refl
]
other ctl_del fd s j n = rw n refl

unfoldable pub kernel : EpollSet Interests
kernel = record {
  ctl = control;
  close_fd = close_it;
  has = has_fd;
  armed = armed_fd;
  add_twice = λ r s. twice r.op r.fd s;
  has_ctl = λ r s j. elsewhere r.op r.fd s j;
  has_del = λ r s j. deleting r.op r.fd s j;
  has_close = λ fd s j. put-has fd j none s;
  armed_ctl = λ r s j. other r.op r.fd s j;
  armed_close = λ fd s j n. rw n refl;
}
