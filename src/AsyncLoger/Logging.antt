-- ===== src/AsyncLoger/Logging.antt =====
-- What `logInfo` puts into the buffers, and that it stays within their bounds.
use lxc_http_server.Common.{
  ℕ, zero, suc, ◌+◌, ◌-◌, ◌/◌, ◌≤◌, ◌≡◌, refl, sym, ap, ◌∙◌, List, [], ◌∷◌, ◌++◌, append_assoc,
  append-nil, Option, none, some, Bytes, codes, length, length-append, take, arith, ltb, leb,
  Bool-cases, inl, inr, ◌⊎◌, le→leb, ltb-false→le, leb-false→lt, ok,
}
use mathlib.Core.Path.{subst}
use lxc_http_server.AsyncLoger.Rounds.{contents, waiting}
use lxc_http_server.AsyncLoger.{
  Buffer, AsyncLoger, logbuffersize, date_string_length, append, append_available, append_both,
  pop_back, swap_buffer, log_text, log_current, log_into, log_info,
}

-- A buffer of the size that is meant, within its bounds.
pub record IsSized (b : Buffer) : Type 0 where
  pub size : b.buffer_size ≡ logbuffersize
  pub within : length b.content ≤ b.buffer_size

length-take-le : (n : ℕ) (s : Bytes) → length (take n s) ≤ n
length-take-le zero s = omega arith
length-take-le (suc n) [] = omega arith
length-take-le (suc n) (x ∷ s) = omega (arith, length-take-le n s)

marked : (n : ℕ) (s : Bytes) → length (take n s ++ codes "Log Info Too Long") ≤ n + 17
marked n s = omega (arith, length-append (take n s) (codes "Log Info Too Long"), length-take-le n s)

pub log_text-bound : (line : Bytes) → length (log_text line) ≤ logbuffersize / 2
unfolding log_text
log_text-bound line = elim (Bool-cases (ltb (logbuffersize / 2) (length line))) [
  | inl long ↦ rw long (omega (arith, marked (logbuffersize / 2 - 17) line))
  | inr short ↦ rw short (ltb-false→le _ _ short)
]

pub append_both-ok :
    (b : Buffer) (stamp text : Bytes)
    → length b.content + (length stamp + length text) ≤ b.buffer_size
    → append_both b stamp text ≡ ok (record b { content = b.content ++ (stamp ++ text) })
unfolding append_both append
append_both-ok b stamp text h = rw (
  le→leb (length b.content + length stamp) b.buffer_size (omega arith),
  length-append b.content stamp,
  le→leb (length b.content + length stamp + length text) b.buffer_size (omega arith),
  append_assoc b.content stamp text,
)

abbrev pub Fresh : Buffer → Type 0
Fresh b = IsSized b × (b.content ≡ [])

abbrev pub AllFresh : List Buffer → Type 0
AllFresh [] = Unit {0}
AllFresh (b ∷ rest) = Fresh b × AllFresh rest

abbrev SizedOrNone : Option Buffer → Type 0
SizedOrNone none = Unit {0}
SizedOrNone (some b) = IsSized b

-- The current buffer is within its bounds, and the empty ones are empty and of full size.
pub record IsReady (l : AsyncLoger) : Type 0 where
  pub current : SizedOrNone l.cur_buffer
  pub empties : AllFresh l.empty_buffers

pop_back-AllFresh :
    (bs : List Buffer)
    → AllFresh bs
    → ((bs ≡ []) × (pop_back bs ≡ none))
      ⊎ ((b : Buffer) × (rest : List Buffer) × (pop_back bs ≡ some (b, rest))
          × Fresh b
          × AllFresh rest)
unfolding pop_back
pop_back-AllFresh [] h = inl (refl, refl)
pop_back-AllFresh (b ∷ bs) h = elim (pop_back-AllFresh bs h.1) [
  | inl (_, e) ↦ inr (b, [], rw e, h.0, tt)
  | inr (c, rest, e, i, j) ↦ inr (c, b ∷ rest, rw e, i, (h.0, j))
]

waiting-append :
    (q : List (Option Buffer)) (b : Option Buffer) → waiting (q ++ b ∷ []) ≡ waiting q ++ contents b
waiting-append [] b = append-nil (contents b)
waiting-append (c ∷ q) b = rw (waiting-append q b, append_assoc)

-- What the buffers hold, oldest first.
abbrev pub logged : AsyncLoger → Bytes
logged l = waiting l.to_write_buffers ++ contents l.cur_buffer

-- The line with its time has been appended to what is logged; or there was no empty buffer, the line
-- is lost, and the logger is left with no buffer.
pub record Logs (l : AsyncLoger) (entry : Bytes) (l' : AsyncLoger) : Type 0 where
  pub ready : IsReady l'
  pub outcome :
      (logged l' ≡ logged l ++ entry)
      ⊎ ((logged l' ≡ logged l) × (l.empty_buffers ≡ []) × (l'.cur_buffer ≡ none))

Logs-room :
    (l : AsyncLoger) (b : Buffer) (entry : Bytes)
    → l.cur_buffer ≡ some b
    → IsReady l
    → IsSized b
    → length b.content + length entry ≤ b.buffer_size
    → Logs l entry (record l { cur_buffer = some (record b { content = b.content ++ entry }) })
Logs-room l b entry e v s h = record {
  ready = record {
    current = record { size = s.size; within = omega (arith, length-append b.content entry) };
    empties = v.empties;
  };
  outcome = inl (rw e (sym (append_assoc (waiting l.to_write_buffers) b.content entry)));
}

swapped :
    (l : AsyncLoger) (b : Buffer)
    → l.cur_buffer ≡ some b
    → waiting (l.to_write_buffers ++ some b ∷ []) ++ [] ≡ logged l
swapped l b e = rw (waiting-append l.to_write_buffers (some b), e, append-nil) refl

swap_buffer-Logs :
    (l : AsyncLoger) (b : Buffer) (stamp text : Bytes)
    → l.cur_buffer ≡ some b
    → IsReady l
    → length stamp ≡ date_string_length
    → length text ≤ logbuffersize / 2
    → (l' : AsyncLoger) × (swap_buffer (pop_back l.empty_buffers) l b stamp text ≡ ok l')
      × Logs l (stamp ++ text) l'
unfolding swap_buffer
swap_buffer-Logs l b stamp text e v s t = elim (pop_back-AllFresh l.empty_buffers v.empties) [
  | inl (nothing, m) ↦ (
    record l { cur_buffer = none; to_write_buffers = l.to_write_buffers ++ some b ∷ [] },
    rw m,
    record {
      ready = record { current = tt; empties = v.empties };
      outcome = inr (swapped l b e, nothing, refl);
    },
  )
  | inr (c, rest, m, (sized, blank), fresh) ↦
      let fits : length c.content + (length stamp + length text) ≤ c.buffer_size =
        omega (arith, sized.size, ap length blank, s, t) in
      let within : length (c.content ++ (stamp ++ text)) ≤ c.buffer_size =
        omega (arith, fits, length-append c.content (stamp ++ text), length-append stamp text) in
      (
        record l {
          cur_buffer = some (record c { content = c.content ++ (stamp ++ text) });
          empty_buffers = rest;
          to_write_buffers = l.to_write_buffers ++ some b ∷ [];
        },
        rw (m, append_both-ok c stamp text fits),
        record {
          ready = record {
            current = record { size = sized.size; within = within };
            empties = fresh;
          };
          outcome = inl (rw (waiting-append l.to_write_buffers (some b), blank, e) refl);
        },
      )
]

log_current-Logs :
    (l : AsyncLoger) (b : Buffer) (stamp text : Bytes)
    → l.cur_buffer ≡ some b
    → IsReady l
    → IsSized b
    → length stamp ≡ date_string_length
    → length text ≤ logbuffersize / 2
    → (l' : AsyncLoger) × (log_current l b stamp text ≡ ok l') × Logs l (stamp ++ text) l'
unfolding log_current append_available
log_current-Logs l b stamp text e v w s t =
    elim (Bool-cases (
      leb b.buffer_size
        (length b.content + (length text + date_string_length) + date_string_length))) [
          | inl full ↦ rw full (swap_buffer-Logs l b stamp text e v s t)
          | inr room ↦
              let fits : length b.content + (length stamp + length text) ≤ b.buffer_size =
                omega (arith, leb-false→lt _ _ room, s) in
              (
                _,
                rw (room, append_both-ok b stamp text fits) refl,
                Logs-room l b (stamp ++ text) e v w (omega (arith, fits, length-append stamp text)),
              )
        ]

-- With a current buffer of the meant size and within its bounds, empty buffers that are blank and of
-- that size, and a time of 15 characters, `log_info` writes past no buffer, keeps all this, and either
-- appends the time and the line, cut if too long, to what is logged, or finds no empty buffer, loses
-- the line and leaves the logger with no current buffer.
pub log_info-Logs :
    (l : AsyncLoger) (b : Buffer) (stamp line : Bytes)
    → l.cur_buffer ≡ some b
    → IsReady l
    → length stamp ≡ date_string_length
    → (l' : AsyncLoger) × (log_info l stamp line ≡ ok l') × Logs l (stamp ++ log_text line) l'
unfolding log_info log_into
log_info-Logs l b stamp line e v s =
    let (l', r, h) =
      log_current-Logs l b stamp (log_text line) e v (subst SizedOrNone e v.current) s
        (log_text-bound line) in
    (l', ap (λ x. log_into x l stamp (log_text line)) e ∙ r, h)
