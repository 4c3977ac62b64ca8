-- ===== src/AsyncLoger/Rounds.antt =====
-- Rounds of the back end: what reaches the file, what is lost, and the logger that has no buffer.
use mathlib.Core.Path.{subst}
use mathlib.Core.List.{reverse, reverse-append}
use lxc_http_server.Common.{
  suc, ◌≡◌, refl, sym, ap, ◌∙◌, List, [], ◌∷◌, ◌++◌, append_assoc, append-nil, Option, none, some,
  Bytes, length, length-append, arith, ok, fault, null_pointer, ◌⊎◌, inl, inr,
}
use lxc_http_server.AsyncLoger.{
  Buffer, LogFile, write_to_file, AsyncLoger, pop_back, queued, take_current, drain, collect, flush,
  log_round,
}

pub pop_back-append {ℓ} :
    {A : Type ℓ} (xs : List A) (x : A) → pop_back (xs ++ x ∷ []) ≡ some (x, xs)
unfolding pop_back
pop_back-append [] x = refl
pop_back-append (y ∷ xs) x = rw (pop_back-append xs x)

-- Once the back of the queue is a pointer that was moved from, so is every later one.
drain-none :
    (q : List (Option Buffer)) (w : List (Option Buffer))
    → (v : List (Option Buffer)) × (drain (suc (length q)) (q ++ none ∷ []) w ≡ v ++ none ∷ [])
unfolding drain
drain-none [] w = (w, refl)
drain-none (x ∷ q) w =
    let (v, e) = drain-none q (w ++ none ∷ []) in (v, rw (pop_back-append (x ∷ q) none) e)

drain-two :
    (a b : Option Buffer) (q w : List (Option Buffer))
    → (v : List (Option Buffer)) × (drain (suc (suc (length q))) (a ∷ q ++ b ∷ []) w
        ≡ v ++ none ∷ [])
unfolding drain
drain-two a b q w = let (v, e) = drain-none q (w ++ b ∷ []) in (v, rw (pop_back-append (a ∷ q) b) e)

drain-queue :
    (a b : Option Buffer) (q w : List (Option Buffer))
    → (v : List (Option Buffer)) × (drain (length (a ∷ q ++ b ∷ [])) (a ∷ q ++ b ∷ []) w
        ≡ v ++ none ∷ [])
drain-queue a b q w =
    let n : length (q ++ b ∷ []) ≡ suc (length q) = omega (arith, length-append q (b ∷ [])) in
    let (v, d) = drain-two a b q w in (v, rw n d)

flush-none :
    (v : List (Option Buffer)) (l : AsyncLoger) (f : LogFile)
    → flush (reverse (v ++ none ∷ [])) l f ≡ fault null_pointer
unfolding flush
flush-none v l f = rw (reverse-append v (none ∷ []))

-- When the queue of full buffers holds two or more, a round of the back end writes through a null
-- pointer.
pub log_round-fault :
    (l : AsyncLoger) (f : LogFile) (a b : Option Buffer) (q : List (Option Buffer))
    → l.to_write_buffers ≡ a ∷ q ++ b ∷ []
    → log_round l f ≡ fault null_pointer
unfolding log_round collect
log_round-fault l f a b q e =
    let (v, d) = drain-queue a b q (queued l.cur_buffer) in
    let whole : drain (length l.to_write_buffers) l.to_write_buffers (queued l.cur_buffer)
        ≡ v ++ none ∷ [] =
      subst (λ x. drain (length x) x (queued l.cur_buffer) ≡ v ++ none ∷ []) (sym e) d in
    rw whole (flush-none v (collect l).1 f)

abbrev pub contents : Option Buffer → Bytes
contents none = []
contents (some b) = b.content

-- Everything that has been logged and not lost, oldest first: what the file holds, then the buffers
-- that wait to be written, then the current one.
abbrev pub waiting : List (Option Buffer) → Bytes
waiting [] = []
waiting (b ∷ rest) = contents b ++ waiting rest

abbrev pub view : AsyncLoger → LogFile → Bytes
view l f = f.written ++ (waiting l.to_write_buffers ++ contents l.cur_buffer)

-- No pointer in the queue has been moved from.
abbrev AllSome : List (Option Buffer) → Type 0
AllSome [] = Unit {0}
AllSome (none ∷ rest) = ⊥
AllSome (some b ∷ rest) = AllSome rest

pub write_all :
    (b : Buffer) (f : LogFile)
    → f.results ≡ []
    → write_to_file b f ≡ (record b { content = [] }, record f { written = f.written ++ b.content })
unfolding write_to_file
write_all b f e = simp e

-- Empty buffers are empty.
abbrev pub AllEmpty : List Buffer → Type 0
AllEmpty [] = Unit {0}
AllEmpty (b ∷ rest) = (b.content ≡ []) × AllEmpty rest

AllEmpty-append :
    (bs : List Buffer) (b : Buffer) → AllEmpty bs → b.content ≡ [] → AllEmpty (bs ++ b ∷ [])
AllEmpty-append [] b h e = (e, tt)
AllEmpty-append (c ∷ bs) b h e = (h.0, AllEmpty-append bs b h.1 e)

-- What a round that loses nothing leaves: all in the file, and nothing in the buffers.
pub record Flushed (l : AsyncLoger) (f : LogFile) (l' : AsyncLoger) (f' : LogFile) : Type 0 where
  pub written : f'.written ≡ view l f
  pub nothing_waits : l'.to_write_buffers ≡ []
  pub current_empty : contents l'.cur_buffer ≡ []
  pub empties : AllEmpty l'.empty_buffers

pop_back-AllEmpty :
    (bs : List Buffer)
    → AllEmpty bs
    → (pop_back bs ≡ none)
      ⊎ ((b : Buffer) × (rest : List Buffer) × (pop_back bs ≡ some (b, rest))
          × (b.content ≡ [])
          × AllEmpty rest)
unfolding pop_back
pop_back-AllEmpty [] h = inl refl
pop_back-AllEmpty (b ∷ bs) h = elim (pop_back-AllEmpty bs h.1) [
  | inl e ↦ inr (b, [], rw e, h.0, tt)
  | inr (c, rest, e, i, j) ↦ inr (c, b ∷ rest, rw e, i, (h.0, j))
]

-- The logger that `collect` leaves has an empty current buffer, or none.
taken-empty :
    (cur : Option Buffer) (l : AsyncLoger)
    → l.cur_buffer ≡ cur
    → AllEmpty l.empty_buffers
    → (contents (take_current cur (pop_back l.empty_buffers) l).cur_buffer ≡ [])
      × AllEmpty (take_current cur (pop_back l.empty_buffers) l).empty_buffers
unfolding take_current
taken-empty none l e h = (rw e, h)
taken-empty (some b) l e h = elim (pop_back-AllEmpty l.empty_buffers h) [
  | inl m ↦ rw m (refl, h)
  | inr (c, rest, m, i, j) ↦ rw m (i, j)
]

-- Writing the queue from its back on, every write going through.
flush-all :
    (v : List (Option Buffer)) (l : AsyncLoger) (f : LogFile)
    → AllSome v
    → f.results ≡ []
    → AllEmpty l.empty_buffers
    → (l' : AsyncLoger) × (f' : LogFile) × (flush v l f ≡ ok (l', f'))
      × (f'.written ≡ f.written ++ waiting v)
      × (f'.results ≡ [])
      × (l'.cur_buffer ≡ l.cur_buffer)
      × (l'.to_write_buffers ≡ l.to_write_buffers)
      × AllEmpty l'.empty_buffers
unfolding flush
flush-all [] l f a r h = (l, f, refl, sym (append-nil f.written), r, refl, refl, h)
flush-all (none ∷ v) l f a r h = absurd a
flush-all (some b ∷ v) l f a r h =
    let w : write_to_file b f
        ≡ (record b { content = [] }, record f { written = f.written ++ b.content }) =
      write_all b f r in
    let (l', f', e, x, y, z, q, g) =
      flush-all v (record l { empty_buffers = l.empty_buffers ++ record b { content = [] } ∷ [] })
        (record f { written = f.written ++ b.content }) a r
        (AllEmpty-append l.empty_buffers (record b { content = [] }) h refl) in
    (l', f', rw w e, x ∙ append_assoc f.written _ _, y, z, q, g)

-- At most one full buffer waits.
abbrev pub AtMostOne : List (Option Buffer) → Type 0
AtMostOne [] = Unit {0}
AtMostOne (none ∷ rest) = ⊥
AtMostOne (some b ∷ []) = Unit {0}
AtMostOne (some b ∷ c ∷ rest) = ⊥

reverse-drain :
    (q : List (Option Buffer)) (cur : Option Buffer)
    → AtMostOne q
    → reverse (drain (length q) q (queued cur)) ≡ q ++ queued cur
unfolding drain
reverse-drain [] none a = refl
reverse-drain [] (some c) a = refl
reverse-drain (none ∷ q) cur a = absurd a
reverse-drain (some b ∷ []) none a = refl
reverse-drain (some b ∷ []) (some c) a = refl
reverse-drain (some b ∷ c ∷ q) cur a = absurd a

AllSome-queued :
    (q : List (Option Buffer)) (cur : Option Buffer) → AtMostOne q → AllSome (q ++ queued cur)
AllSome-queued [] none a = tt
AllSome-queued [] (some c) a = tt
AllSome-queued (none ∷ q) cur a = absurd a
AllSome-queued (some b ∷ []) none a = tt
AllSome-queued (some b ∷ []) (some c) a = tt
AllSome-queued (some b ∷ c ∷ q) cur a = absurd a

waiting-queued :
    (q : List (Option Buffer)) (cur : Option Buffer)
    → waiting (q ++ queued cur) ≡ waiting q ++ contents cur
waiting-queued [] none = refl
waiting-queued [] (some c) = append-nil c.content
waiting-queued (b ∷ q) cur = rw (waiting-queued q cur, append_assoc)

-- With at most one full buffer in the queue, blank empty buffers and writes that all go through, a
-- round of the back end puts everything that has been logged into the file, in order, and leaves
-- nothing in the queue or the buffers.
pub log_round-Flushed :
    (l : AsyncLoger) (f : LogFile)
    → AtMostOne l.to_write_buffers
    → f.results ≡ []
    → AllEmpty l.empty_buffers
    → (l' : AsyncLoger) × (f' : LogFile) × (log_round l f ≡ ok (l', f')) × Flushed l f l' f'
unfolding log_round collect
log_round-Flushed l f a r h =
    let q = l.to_write_buffers in
    let l1 = record (take_current l.cur_buffer (pop_back l.empty_buffers) l) {
      to_write_buffers = [];
    } in
    let (cur, empties) = taken-empty l.cur_buffer l refl h in
    let (l', f', e, w, _, c, t, g) =
      flush-all (q ++ queued l.cur_buffer) l1 f (AllSome-queued q l.cur_buffer a) r empties in
    (
      l',
      f',
      rw (reverse-drain q l.cur_buffer a) e,
      record {
        written = w ∙ ap (◌++◌ f.written) (waiting-queued q l.cur_buffer);
        nothing_waits = t;
        current_empty = rw c cur;
        empties = g;
      },
    )
