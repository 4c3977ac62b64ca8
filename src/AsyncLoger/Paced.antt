-- ===== src/AsyncLoger/Paced.antt =====
-- `logInfo` of src/AsyncLoger.cpp, between two collections of the back end with at most a buffer's size of
-- lines between them.
use lxc_http_server.Common.{
  ℕ, suc, ◌+◌, ◌/◌, ◌≤◌, ◌<◌, ◌≡◌, refl, sym, ap, List, [], ◌∷◌, ◌++◌, append_assoc, Option, none,
  some, Bytes, length, length-append, arith, leb, Bool-cases, inl, inr, leb-false→lt, ok,
}
use lxc_http_server.AsyncLoger.{
  Buffer, AsyncLoger, logbuffersize, date_string_length, append_available, pop_back, swap_buffer,
  log_text, log_current, log_into, log_info, queued,
}
use lxc_http_server.AsyncLoger.Rounds.{contents}
use lxc_http_server.AsyncLoger.Logging.{IsSized, Fresh, AllFresh, append_both-ok, log_text-bound}

pub pop_back-Fresh :
    (bs : List Buffer)
    → AllFresh bs
    → 0 < length bs
    → (b : Buffer) × (rest : List Buffer) × (pop_back bs ≡ some (b, rest))
      × Fresh b
      × AllFresh rest
      × (length bs ≡ suc (length rest))
unfolding pop_back
pop_back-Fresh [] h n = absurd (omega arith)
pop_back-Fresh (b ∷ []) h n = (b, [], refl, h.0, tt, refl)
pop_back-Fresh (b ∷ c ∷ bs) h n =
    let (d, rest, e, i, j, k) = pop_back-Fresh (c ∷ bs) h.1 (omega arith) in
    (d, b ∷ rest, rw e refl, i, (h.0, j), ap suc k)

-- A logger with a current buffer and at most one full one.
abbrev pub filling : Option Buffer → Buffer → List Buffer → AsyncLoger
filling full cur empties = record {
  cur_buffer = some cur;
  empty_buffers = empties;
  to_write_buffers = queued full;
}

-- There are four buffers, of which `out` are being written; a full buffer is nearly half full.
abbrev pub Spare : ℕ → Option Buffer → List Buffer → Type 0
Spare out none empties = (length empties + out ≡ 3) × (out ≤ 2)
Spare out (some b) empties =
    (length empties + out ≡ 2) × (out ≤ 2) × (16 ≤ length b.content) × IsSized b

-- `n` bytes have been logged since the back end last took the buffers.
pub record Filling (out : ℕ) (full : Option Buffer) (cur : Buffer) (empties : List Buffer) (n : ℕ)
    : Type 0 where
  pub sized : IsSized cur
  pub fresh : AllFresh empties
  pub spare : Spare out full empties
  pub total : length (contents full) + length cur.content ≡ n

-- The logger after an entry has been logged.
abbrev pub Kept : ℕ → Option Buffer → Buffer → AsyncLoger → Bytes → ℕ → Type 0
Kept out full cur l entry n =
    (full' : Option Buffer) × (cur' : Buffer) × (empties' : List Buffer) × (l
      ≡ filling full' cur' empties')
    × Filling out full' cur' empties' n
    × (contents full' ++ cur'.content ≡ (contents full ++ cur.content) ++ entry)

-- The current buffer has no room and goes to the back end: there is none there yet.
swap-Kept :
    (out : ℕ) (full : Option Buffer) (cur : Buffer) (empties : List Buffer) (n : ℕ)
    (stamp text : Bytes)
    → Filling out full cur empties n
    → length stamp ≡ date_string_length
    → length text ≤ logbuffersize / 2
    → n + length (stamp ++ text) ≤ logbuffersize
    → logbuffersize ≤ length cur.content + (length text + 30)
    → (l : AsyncLoger) × (swap_buffer (pop_back empties) (filling full cur empties) cur stamp text
        ≡ ok l)
      × Kept out full cur l (stamp ++ text) (n + length (stamp ++ text))
unfolding swap_buffer
swap-Kept out (some b) cur empties n stamp text v s t h full_now =
    absurd (omega (arith, v.spare.2, v.total, s, t, h, full_now, length-append stamp text))
swap-Kept out none cur empties n stamp text v s t h full_now =
    let (c, rest, e, (sized, blank), fresh, count) =
      pop_back-Fresh empties v.fresh (omega (arith, v.spare.0, v.spare.1)) in
    let size = length-append stamp text in
    let fits : length c.content + (length stamp + length text) ≤ c.buffer_size =
      omega (arith, sized.size, ap length blank, s, t) in
    let c' = record c { content = c.content ++ (stamp ++ text) } in
    (
      _,
      rw (e, append_both-ok c stamp text fits),
      (
        some cur,
        c',
        rest,
        refl,
        record {
          sized = record {
            size = sized.size;
            within = omega (arith, fits, size, length-append c.content (stamp ++ text));
          };
          fresh = fresh;
          spare = (omega (arith, v.spare.0, count), v.spare.1, omega (arith, full_now, t), v.sized);
          total = omega (arith, v.total, length-append c.content (stamp ++ text), ap length blank);
        },
        ap (λ x. cur.content ++ (x ++ (stamp ++ text))) blank,
      ),
    )

log_current-Kept :
    (out : ℕ) (full : Option Buffer) (cur : Buffer) (empties : List Buffer) (n : ℕ)
    (stamp text : Bytes)
    → Filling out full cur empties n
    → length stamp ≡ date_string_length
    → length text ≤ logbuffersize / 2
    → n + length (stamp ++ text) ≤ logbuffersize
    → (l : AsyncLoger) × (log_current (filling full cur empties) cur stamp text ≡ ok l)
      × Kept out full cur l (stamp ++ text) (n + length (stamp ++ text))
unfolding log_current append_available
log_current-Kept out full cur empties n stamp text v s t h =
    let size = length-append stamp text in
    elim (Bool-cases (
      leb cur.buffer_size
        (length cur.content + (length text + date_string_length) + date_string_length))) [
          | inl no_room ↦ rw no_room (
              swap-Kept out full cur empties n stamp text v s t h
                (let w = v.sized.size in ground arith))
          | inr room ↦
              let fits : length cur.content + (length stamp + length text) ≤ cur.buffer_size =
                omega (arith, leb-false→lt _ _ room, s) in
              (
                _,
                rw (room, append_both-ok cur stamp text fits) refl,
                (
                  full,
                  record cur { content = cur.content ++ (stamp ++ text) },
                  empties,
                  refl,
                  record {
                    sized = record {
                      size = v.sized.size;
                      within = omega (arith, fits, size, length-append cur.content (stamp ++ text));
                    };
                    fresh = v.fresh;
                    spare = v.spare;
                    total = omega (arith, v.total, length-append cur.content (stamp ++ text));
                  },
                  sym (append_assoc (contents full) cur.content (stamp ++ text)),
                ),
              )
        ]

-- Nothing is lost while at most a buffer's size is logged between two rounds, also while
-- the back end writes.
pub log_info-Kept :
    (out : ℕ) (full : Option Buffer) (cur : Buffer) (empties : List Buffer) (n : ℕ)
    (stamp line : Bytes)
    → Filling out full cur empties n
    → length stamp ≡ date_string_length
    → n + length (stamp ++ log_text line) ≤ logbuffersize
    → (l : AsyncLoger) × (log_info (filling full cur empties) stamp line ≡ ok l)
      × Kept out full cur l (stamp ++ log_text line) (n + length (stamp ++ log_text line))
unfolding log_info log_into
log_info-Kept out full cur empties n stamp line v s h =
    log_current-Kept out full cur empties n stamp (log_text line) v s (log_text-bound line) h
