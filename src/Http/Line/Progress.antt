-- ===== src/Http/Line/Progress.antt =====
-- `parseOneLine` always ends, and a line that it returns has used up at least two characters.
use lxc_http_server.Common.{
  ℕ, zero, suc, ◌+◌, ◌≤◌, ◌<◌, ◌&&◌, [], ◌∷◌, ◌++◌, Bytes, length, get_elem?, inl, inr,
  length-append, arith, ltb, leb, ◌==◌, if◌then◌else◌, carriage_return, line_feed, Bool-cases,
  leb→le, Option-cases, Outcome, ok, Ends, Ends-bind, Ends-mono, ◌>>=◌,
}
use lxc_http_server.Http.{HttpData, line_buffersize}
use lxc_http_server.Http.Socket.{pending, data_buffer_empty, read_raw_data_from_socket}
use lxc_http_server.Http.Socket.Refill.{Within, refill-Ends, read_raw-Ends}
use lxc_http_server.Http.Line.{
  line_round, line_loop, finish_line, parse_one_line, refill, take_char,
}

-- What the line has gained, the socket and the buffer have lost.
abbrev Moved : ℕ → Bytes × HttpData → Type 0
Moved n (line, e) = length line + pending e ≤ n

line_round-Ends :
    (next : HttpData → Bytes → Outcome (Bytes × HttpData)) (d : HttpData) (acc : Bytes)
    → ((e : HttpData) (l : Bytes)
        → pending e < pending d
        → Ends (Moved (length l + pending e)) (next e l))
    → Ends (Moved (length acc + pending d)) (line_round next d acc)
unfolding line_round take_char refill
line_round-Ends next d acc go = elim (Bool-cases (leb d.read_index d.data_end_index)) [
  | inr done ↦ rw done (omega arith)
  | inl more ↦ rw more (elim (Option-cases (get_elem? d.data_buffer d.read_index)) [
    | inl e ↦ rw e tt
    | inr (c, e) ↦ rw e (elim (Bool-cases (ltb (length acc) line_buffersize)) [
      | inr full ↦ rw full tt
      | inl room ↦ rw room (one_char c (leb→le _ _ more))
    ])
  ])
]
  where
    one_char :
        (c : ℕ)
        → d.read_index ≤ d.data_end_index
        → Ends (Moved (length acc + pending d)) (
            if d.prev == carriage_return && c == line_feed
            then ok (acc ++ c ∷ [], record d { read_index = d.read_index + 1; prev = 0 })
            else (refill (record d { read_index = d.read_index + 1; prev = c }) >>= λ e.
                next e (acc ++ c ∷ [])))
    one_char c h = elim (Bool-cases (d.prev == carriage_return && c == line_feed)) [
      | inl stop ↦ rw stop (omega (arith, length-append acc (c ∷ [])))
      | inr on ↦ rw on (
          Ends-bind (Within (pending (record d { read_index = d.read_index + 1; prev = c }))) _ _ _
            (refill-Ends (record d { read_index = d.read_index + 1; prev = c }))
            (λ e w.
              Ends-mono _ _ (next e (acc ++ c ∷ [])) (go e (acc ++ c ∷ []) (omega arith))
                (λ r m. omega (arith, length-append acc (c ∷ []), m))))
    ]

line_loop-Ends :
    (fuel : ℕ) (d : HttpData) (acc : Bytes)
    → pending d < fuel
    → Ends (Moved (length acc + pending d)) (line_loop fuel d acc)
unfolding line_loop
line_loop-Ends zero d acc h = elim h [ ]
line_loop-Ends (suc fuel) d acc h =
    line_round-Ends (line_loop fuel) d acc (λ e l w. line_loop-Ends fuel e l (omega arith))

-- At least two of the characters that were pending are gone.
abbrev pub Consumed : ℕ → Bytes × HttpData → Type 0
Consumed n (line, e) = pending e + 2 ≤ n

finish_line-Ends : (n : ℕ) (r : Bytes × HttpData) → Moved n r → Ends (Consumed n) (finish_line r)
unfolding finish_line
finish_line-Ends n (line, e) m = elim (Bool-cases (leb 2 (length line))) [
  | inl long ↦ rw long (let h = leb→le 2 (length line) long in omega arith)
  | inr short ↦ rw short tt
]

-- The loop has fuel enough from any state; a line that is returned has used up its CRLF at least.
pub parse_one_line-Ends : (d : HttpData) → Ends (Consumed (pending d)) (parse_one_line d)
unfolding parse_one_line
parse_one_line-Ends d = Ends-bind (Within (pending d)) _ _ _ start λ e w.
    Ends-bind (Moved (0 + pending e)) _ _ _ (line_loop-Ends (suc (pending e)) e [] (omega arith))
      λ r m.
        Ends-mono _ _ (finish_line r) (finish_line-Ends (0 + pending e) r m)
          (λ s c. omega (arith, c))
  where
    start :
        Ends
          (Within (pending d))
          (if data_buffer_empty d then read_raw_data_from_socket d else ok d)
    start = elim (Bool-cases (data_buffer_empty d)) [
      | inl used ↦
          rw used
            (Ends-mono _ _ (read_raw_data_from_socket d) (read_raw-Ends d) (λ e w. omega arith))
      | inr left ↦ rw left (omega arith)
    ]
