-- ===== src/Http/Socket/Stream.antt =====
-- The bytes that the parser has not read yet, whatever the sizes of the chunks they come in.
use lxc_http_server.Common.{
  ℕ, zero, suc, ◌+◌, ◌-◌, ◌≤◌, ◌<◌, ◌≡◌, refl, sym, ap, ◌∙◌, List, [], ◌∷◌, ◌++◌, none, some, Bytes,
  length, take, drop, get_elem?, length-append, drop-get_elem?, take-append, arith, ltb,
  if◌then◌else◌, ok, Outcome, ltb-false, lt→ltb,
}
use native.Mathlib.Decide.{dec_lt}
use lxc_http_server.Http.{Recv, HttpData, httpdata_buffersize}
use lxc_http_server.Http.Socket.{
  data_buffer_empty, receive, read_raw_data_from_socket, incoming, pending,
}

abbrev pub unread : HttpData → Bytes
unread d = take (d.data_end_index + 1 - d.read_index) (drop d.read_index d.data_buffer)

abbrev pub stream : HttpData → Bytes
stream d = unread d ++ incoming d.socket

-- `recv` puts at most as many bytes into the buffer as it is told.
abbrev pub Fits : List Recv → Type 0
Fits [] = Unit {0}
Fits (none ∷ rest) = Fits rest
Fits (some chunk ∷ rest) = (length chunk ≤ httpdata_buffersize) × Fits rest

pub record IsSound (d : HttpData) : Type 0 where
  pub within : d.data_end_index < length d.data_buffer
  pub bounded : d.data_end_index < httpdata_buffersize
  pub fits : Fits d.socket

-- `e` differs from `d` at most in the fields that reading changes.
abbrev pub SameFields : HttpData → HttpData → Type 0
SameFields d e = e ≡ record d {
  socket = e.socket;
  data_buffer = e.data_buffer;
  read_index = e.read_index;
  data_end_index = e.data_end_index;
  prev = e.prev;
}

pub SameFields-trans : (d e f : HttpData) → SameFields d e → SameFields e f → SameFields d f
SameFields-trans d e f p q = ground arith

-- Something is left in the buffer.
abbrev pub HasData : HttpData → Type 0
HasData d = d.read_index ≤ d.data_end_index

take_suc : (n : ℕ) (c : ℕ) (s : Bytes) → 0 < n → take n (c ∷ s) ≡ c ∷ take (n - 1) s
take_suc zero c s h = elim h [ ]
take_suc (suc n) c s h = rw (let e : suc n - 1 ≡ n = omega arith in e)

window-cons :
    (last i x : ℕ) (b : Bytes)
    → i ≤ last
    → drop i b ≡ x ∷ drop (suc i) b
    → take (last + 1 - i) (drop i b) ≡ x ∷ take (last + 1 - (i + 1)) (drop (i + 1) b)
window-cons last i x b h split = rw split (
    take_suc (last + 1 - i) x (drop (suc i) b) (omega arith)
    ∙ (let n : last + 1 - i - 1 ≡ last + 1 - (i + 1) = omega arith in
        let m : suc i ≡ i + 1 = omega arith in rw (n, m)))

-- The next character of the stream is the one at `read_index`, and reading it leaves the others.
pub stream-next :
    (d : HttpData) (c : ℕ) (s : Bytes)
    → IsSound d
    → HasData d
    → stream d ≡ c ∷ s
    → (get_elem? d.data_buffer d.read_index ≡ some c)
      × (stream (record d { read_index = d.read_index + 1 }) ≡ s)
stream-next d c s v h e =
    let (x, here, split) = drop-get_elem? d.read_index d.data_buffer (omega (arith, v.within)) in
    let w = window-cons d.data_end_index d.read_index x d.data_buffer h split in
    let e' : x ∷ stream (record d { read_index = d.read_index + 1 }) ≡ c ∷ s =
      sym (ap (λ (u : Bytes). u ++ incoming d.socket) w) ∙ e in
    (ground arith, ground arith)

-- With the buffer used up, what is left is what `recv` has still to bring.
unread-nil : (d : HttpData) → d.data_end_index < d.read_index → unread d ≡ []
unread-nil d h = let z : d.data_end_index + 1 - d.read_index ≡ 0 = omega arith in rw z

abbrev pub Reads : HttpData → Bytes → Outcome HttpData → Type 0
Reads d s r =
    (e : HttpData) × (r ≡ ok e)
    × IsSound e
    × HasData e
    × (stream e ≡ s)
    × (e.prev ≡ d.prev)
    × SameFields d e

receive-Reads :
    (rs : List Recv) (d : HttpData) (c : ℕ) (s : Bytes)
    → Fits rs
    → incoming rs ≡ c ∷ s
    → Reads d (c ∷ s) (receive rs d)
unfolding receive
receive-Reads [] d c s f e = cc
receive-Reads (none ∷ rs) d c s f e = cc
receive-Reads (some [] ∷ rs) d c s f e = cc
receive-Reads (some (x ∷ chunk) ∷ rs) d c s f e =
    let n : suc (length chunk) - 1 + 1 - 0 ≡ suc (length chunk) = omega arith in
    let whole = take-append (x ∷ chunk) (drop (suc (length chunk)) d.data_buffer) in
    (
      _,
      refl,
      record {
        within = omega (arith, length-append chunk (drop (suc (length chunk)) d.data_buffer));
        bounded = omega (arith, f.0);
        fits = f.1;
      },
      omega arith,
      rw n (ap (λ (u : Bytes). u ++ incoming rs) whole ∙ e),
      refl,
      refl,
    )

-- With the buffer used up and more to come, `recv` puts the next characters into the buffer.
pub read_raw-Reads :
    (d : HttpData) (c : ℕ) (s : Bytes)
    → IsSound d
    → d.data_end_index < d.read_index
    → stream d ≡ c ∷ s
    → Reads d (c ∷ s) (read_raw_data_from_socket d)
unfolding read_raw_data_from_socket
read_raw-Reads d c s v h e =
    receive-Reads d.socket d c s v.fits
      (ap (λ (u : Bytes). u ++ incoming d.socket) (sym (unread-nil d h)) ∙ e)

-- Reading only where the buffer is used up keeps the stream, and leaves data in the buffer.
pub refill-Reads :
    (d : HttpData) (c : ℕ) (s : Bytes)
    → IsSound d
    → stream d ≡ c ∷ s
    → Reads d
        (c ∷ s)
        (if ltb d.data_end_index d.read_index then read_raw_data_from_socket d else ok d)
refill-Reads d c s v e = elim (dec_lt d.data_end_index d.read_index) [
  | yes h ↦ rw (lt→ltb _ _ h) (read_raw-Reads d c s v h e)
  | no h ↦
      rw (ltb-false d.data_end_index d.read_index (omega arith))
        (d, refl, v, omega arith, e, refl, refl)
]

length-take-le : (n : ℕ) (b : Bytes) → length (take n b) ≤ n
length-take-le zero b = omega arith
length-take-le (suc n) [] = omega arith
length-take-le (suc n) (x ∷ b) = omega (arith, length-take-le n b)

-- The fuel of the loops is enough for the whole stream.
pub stream-le-pending : (d : HttpData) → length (stream d) ≤ pending d
stream-le-pending d = omega (
  arith,
  length-append (unread d) (incoming d.socket),
  length-take-le (d.data_end_index + 1 - d.read_index) (drop d.read_index d.data_buffer),
)

pub data_buffer_empty_sound :
    (d : HttpData) → IsSound d → data_buffer_empty d ≡ ltb d.data_end_index d.read_index
unfolding data_buffer_empty
data_buffer_empty_sound d v = ground arith
