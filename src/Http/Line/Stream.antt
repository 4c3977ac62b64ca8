-- ===== src/Http/Line/Stream.antt =====
-- `parseOneLine` against the stream: which line it returns, and when it overruns its buffer.
use lxc_http_server.Common.{
  ℕ, zero, suc, ◌+◌, ◌-◌, ◌≤◌, ◌<◌, ◌≡◌, refl, ap, ◌∙◌, false, ◌&&◌, [], ◌∷◌, ◌++◌, Bytes, length,
  set, append_assoc, length-append, arith, ltb, ◌==◌, if◌then◌else◌, c_string, carriage_return,
  line_feed, crlf, le→leb, lt→ltb, Outcome, ok, ◌>>=◌,
}
use lxc_http_server.Http.{HttpData, line_buffersize}
use lxc_http_server.Http.Socket.{pending, read_raw_data_from_socket}
use lxc_http_server.Http.Socket.Stream.{
  stream, IsSound, HasData, SameFields, SameFields-trans, Reads, stream-next, refill-Reads,
  stream-le-pending, data_buffer_empty_sound,
}
use lxc_http_server.Http.Line.{
  line_round, line_loop, finish_line, parse_one_line, refill, take_char,
}

-- No CRLF ends in the text, read behind character `p`.
abbrev pub NoCrlf : ℕ → Bytes → Type 0
NoCrlf p [] = Unit {0}
NoCrlf p (c ∷ s) = ((p == carriage_return && c == line_feed) ≡ false) × NoCrlf c s

-- One round of the loop has moved the character `c` to the line, and the loop goes on.
abbrev pub RoundNext :
    (HttpData → Bytes → Outcome (Bytes × HttpData)) → HttpData → Bytes → ℕ → Bytes → Type 0
RoundNext next d acc c s =
    (e : HttpData) × (line_round next d acc ≡ next e (acc ++ c ∷ []))
    × IsSound e
    × HasData e
    × (stream e ≡ s)
    × (e.prev ≡ c)
    × SameFields d e

-- `line` and its CRLF have been read behind `acc`.
abbrev pub LineRead : HttpData → Bytes → Bytes → Outcome (Bytes × HttpData) → Type 0
LineRead d line rest r =
    (e : HttpData) × (r ≡ ok (line, e))
    × IsSound e
    × (stream e ≡ rest)
    × (e.prev ≡ 0)
    × SameFields d e

module _ (next : HttpData → Bytes → Outcome (Bytes × HttpData)) (d : HttpData) (acc : Bytes)
    (v : IsSound d) (h : HasData d) where
  -- A character that does not end the line.
  pub line_round-next :
      (c c' : ℕ) (s : Bytes)
      → stream d ≡ c ∷ c' ∷ s
      → (d.prev == carriage_return && c == line_feed) ≡ false
      → length acc < line_buffersize
      → RoundNext next d acc c (c' ∷ s)
  unfolding line_round refill take_char
  line_round-next c c' s e q l =
      let (here, later) = stream-next d c (c' ∷ s) v h e in
      let d1 = record d { read_index = d.read_index + 1; prev = c } in
      let (d2, r, v2, h2, s2, p2, same) =
        refill-Reads d1 c' s (record { within = v.within; bounded = v.bounded; fits = v.fits })
          later in
      (d2, rw (le→leb _ _ h, here, lt→ltb _ _ l, q, r), v2, h2, s2, p2, same)

  line_round-stop :
      (s : Bytes)
      → stream d ≡ line_feed ∷ s
      → d.prev ≡ carriage_return
      → length acc < line_buffersize
      → (line_round next d acc
          ≡ ok (acc ++ line_feed ∷ [], record d { read_index = d.read_index + 1; prev = 0 }))
        × (stream (record d { read_index = d.read_index + 1; prev = 0 }) ≡ s)
  unfolding line_round take_char
  line_round-stop s e q l =
      let (here, later) = stream-next d line_feed s v h e in
      (rw (le→leb _ _ h, here, lt→ltb _ _ l, q), later)

-- The loop up to and with the CRLF.
LineRead-crlf :
    (fuel : ℕ) (d : HttpData) (acc rest : Bytes)
    → length acc + 2 ≤ line_buffersize
    → RoundNext (line_loop (suc fuel)) d acc carriage_return (line_feed ∷ rest)
    → LineRead d (acc ++ crlf) rest (line_loop (suc (suc fuel)) d acc)
unfolding line_loop
LineRead-crlf fuel d acc rest l (d2, r, v2, h2, s2, p2, same) =
    let (r', s') =
      line_round-stop (line_loop fuel) d2 (acc ++ carriage_return ∷ []) v2 h2 rest s2 p2
        (omega (arith, length-append acc (carriage_return ∷ []))) in
    (
      record d2 { read_index = d2.read_index + 1; prev = 0 },
      rw (r, r', append_assoc),
      record { within = v2.within; bounded = v2.bounded; fits = v2.fits },
      s',
      refl,
      SameFields-trans d d2 _ same refl,
    )

LineRead-cons :
    (fuel : ℕ) (d : HttpData) (acc line rest : Bytes) (c : ℕ) (s : Bytes)
    → (n : RoundNext (line_loop fuel) d acc c s)
    → LineRead n.0 (acc ++ c ∷ [] ++ line) rest (line_loop fuel n.0 (acc ++ c ∷ []))
    → LineRead d (acc ++ (c ∷ line)) rest (line_loop (suc fuel) d acc)
unfolding line_loop
LineRead-cons fuel d acc line rest c s (d2, r, v2, h2, s2, p2, same) (e, r', v', s', p', same') =
    (e, rw (r, r', append_assoc), v', s', p', SameFields-trans d d2 e same same')

line_loop-LineRead :
    (line : Bytes) (fuel : ℕ) (d : HttpData) (acc rest : Bytes)
    → IsSound d
    → HasData d
    → stream d ≡ line ++ (crlf ++ rest)
    → NoCrlf d.prev line
    → length line + 2 ≤ fuel
    → length acc + length line + 2 ≤ line_buffersize
    → LineRead d (acc ++ (line ++ crlf)) rest (line_loop fuel d acc)
line_loop-LineRead [] zero d acc rest v h e q f l = absurd (omega arith)
line_loop-LineRead [] (suc zero) d acc rest v h e q f l = absurd (omega arith)
line_loop-LineRead [] (suc (suc fuel)) d acc rest v h e q f l =
    LineRead-crlf fuel d acc rest (omega arith) (
      line_round-next (line_loop (suc fuel)) d acc v h carriage_return line_feed rest e
        (ground arith) (omega arith))
line_loop-LineRead (c ∷ line) zero d acc rest v h e q f l = absurd (omega arith)
line_loop-LineRead (c ∷ []) (suc fuel) d acc rest v h e q f l =
    let n =
      line_round-next (line_loop fuel) d acc v h c carriage_return (line_feed ∷ rest) e q.0
        (omega arith) in
    LineRead-cons fuel d acc crlf rest c _ n (
      line_loop-LineRead [] fuel n.0 (acc ++ c ∷ []) rest n.2 n.3 n.4 tt (omega arith)
        (omega (arith, length-append acc (c ∷ []))))
line_loop-LineRead (c ∷ c' ∷ line) (suc fuel) d acc rest v h e q f l =
    let n =
      line_round-next (line_loop fuel) d acc v h c c' (line ++ (crlf ++ rest)) e q.0
        (omega arith) in
    LineRead-cons fuel d acc (c' ∷ line ++ crlf) rest c _ n (
      line_loop-LineRead (c' ∷ line) fuel n.0 (acc ++ c ∷ []) rest n.2 n.3 n.4 (rw n.5 q.1)
        (omega arith) (omega (arith, length-append acc (c ∷ []))))

set-append :
    (line : Bytes) (x y z : ℕ) → set (line ++ x ∷ y ∷ []) (length line) z ≡ line ++ z ∷ y ∷ []
set-append [] x y z = refl
set-append (c ∷ line) x y z = ap (◌∷◌ c) (set-append line x y z)

c_string-append : (line rest : Bytes) → c_string (line ++ 0 ∷ rest) ≡ c_string line
unfolding c_string
c_string-append [] rest = refl
c_string-append (c ∷ line) rest = ground (arith, c_string-append line rest)

finish_line-crlf :
    (line : Bytes) (d : HttpData) → finish_line (line ++ crlf, d) ≡ ok (c_string line, d)
unfolding finish_line
finish_line-crlf line d =
    let n : length (line ++ crlf) ≡ length line + 2 = length-append line crlf in
    let m : length line + 2 - 2 ≡ length line = omega arith in
    rw (
      n,
      m,
      le→leb 2 (length line + 2) (omega arith),
      set-append line _ _ 0,
      c_string-append line (line_feed ∷ []),
    )

LineRead-finish :
    (d1 d : HttpData) (line rest : Bytes)
    → SameFields d d1
    → LineRead d1 (line ++ crlf) rest (line_loop (suc (pending d1)) d1 [])
    → LineRead d (c_string line) rest (line_loop (suc (pending d1)) d1 [] >>= finish_line)
LineRead-finish d1 d line rest same (e, r, v, s, p, same') =
    (e, rw (r, finish_line-crlf line e), v, s, p, SameFields-trans d d1 e same same')

parse_one_line_from :
    (d : HttpData) (line rest : Bytes) (c : ℕ) (s : Bytes)
    → IsSound d
    → c ∷ s ≡ line ++ (crlf ++ rest)
    → NoCrlf d.prev line
    → length line + 2 ≤ line_buffersize
    → Reads d
        (c ∷ s)
        (if ltb d.data_end_index d.read_index then read_raw_data_from_socket d else ok d)
    → LineRead d (c_string line) rest (parse_one_line d)
unfolding parse_one_line
parse_one_line_from d line rest c s v e q l (d1, r, v1, h1, s1, p1, same) =
    let count : length (stream d1) ≡ length line + (2 + length rest) =
      ap length (s1 ∙ e) ∙ length-append line (crlf ++ rest) ∙ omega arith in
    rw (data_buffer_empty_sound d v, r)
      (LineRead-finish d1 d line rest same (
        line_loop-LineRead line (suc (pending d1)) d1 [] rest v1 h1 (s1 ∙ e) (rw p1 q)
          (omega (arith, stream-le-pending d1)) (omega arith)))

-- When the unread bytes, in the buffer and to come, are a line without CRLF that fits the line buffer
-- with its CRLF, then CRLF and a rest, and the buffer's indices are in range, `parse_one_line` returns
-- the line up to its first NUL, leaves exactly the rest unread and resets `prev`, however many calls
-- of `recv` it takes.
pub parse_one_line-LineRead :
    (d : HttpData) (line rest : Bytes)
    → IsSound d
    → stream d ≡ line ++ (crlf ++ rest)
    → NoCrlf d.prev line
    → length line + 2 ≤ line_buffersize
    → LineRead d (c_string line) rest (parse_one_line d)
parse_one_line-LineRead d [] rest v e q l =
    parse_one_line_from d [] rest carriage_return _ v refl q l (refill-Reads d _ _ v e)
parse_one_line-LineRead d (c ∷ line) rest v e q l =
    parse_one_line_from d (c ∷ line) rest c _ v refl q l (refill-Reads d _ _ v e)
