-- ===== src/AsyncLoger/Refinement.antt =====
-- The logger of src/AsyncLoger.cpp against an append-only text: what it shows, and the file.
use mathlib.Core.Path.{subst}
use lxc_http_server.Common.{
  ℕ, suc, ◌+◌, ◌≡◌, refl, sym, ap, ◌∙◌, List, [], ◌∷◌, ◌++◌, append-nil, Option, none, some, Bytes,
  length, map, replicate, ok, throws, fault, blocks, out_of_fuel, Outcome, ◌>>=◌,
}
use lxc_http_server.AsyncLoger.{Buffer, LogFile, async_loger}
use lxc_http_server.AsyncLoger.Rounds.{contents, waiting}
use lxc_http_server.AsyncLoger.Logging.{Fresh}
use lxc_http_server.AsyncLoger.Steps.{LogState, Step, collects, writes, run_steps}
use lxc_http_server.AsyncLoger.Backend.{
  state, joined, text_of, emptied, write-state, taken, collect-state,
}
use lxc_http_server.AsyncLoger.Runs.{
  spec_steps, Paced, Shows, At, IsAt, At-written, At-taken, run-IsAt, first-At,
}

-- What the back end does next to bring everything into the file.
abbrev pub finishes : LogState → List Step
finishes s =
    replicate (length s.pending) writes
    ++ collects ∷ replicate (1 + length s.loger.to_write_buffers) writes

-- The file, the buffers that are being written, those that are full, and the current one.
abbrev pub shown_by : LogState → Bytes
shown_by s =
    s.file.written
    ++ (waiting s.pending ++ (waiting s.loger.to_write_buffers ++ contents s.loger.cur_buffer))

-- The logger shows the text, and the back end can bring all of it into the file.
abbrev pub IsText : Bytes → LogState → Type 0
IsText text s =
    (shown_by s ≡ text)
    × (s' : LogState) × (run_steps (finishes s) s ≡ ok s')
    × (s'.file.written ≡ text)

-- When all has been written.
abbrev Written :
    List Step → Bytes → Option Buffer → Buffer → List Buffer → List Buffer → LogFile → Type 0
Written more text full cur empties bs f =
    (empties' : List Buffer) × (f' : LogFile) × (run_steps (replicate (length bs) writes ++ more)
        (state full cur empties bs f)
      ≡ run_steps more (state full cur empties' [] f'))
    × (n : ℕ) × At text n full cur empties' [] f'

write_all-Written :
    (more : List Step) (text : Bytes) (n : ℕ) (full : Option Buffer) (cur : Buffer)
    (empties bs : List Buffer) (f : LogFile)
    → At text n full cur empties bs f
    → Written more text full cur empties bs f
unfolding run_steps
write_all-Written more text n full cur empties [] f v = (empties, f, refl, n, v)
write_all-Written more text n full cur empties (b ∷ bs) f v =
    let empties1 = empties ++ emptied b ∷ [] in
    let f1 = record f { written = f.written ++ b.content } in
    let (empties', f', e, m, w) =
      write_all-Written more text n full cur empties1 bs f1
        (At-written text n full cur empties b bs f v) in
    (
      empties',
      f',
      ap (λ r. r >>= run_steps (replicate (length bs) writes ++ more))
            (write-state full cur empties b bs f v.goes_through)
          ∙ e,
      m,
      w,
    )

-- A round behind that: all of the text is in the file.
last-round :
    (text : Bytes) (n : ℕ) (full : Option Buffer) (cur : Buffer) (empties : List Buffer)
    (f : LogFile)
    → At text n full cur empties [] f
    → (s : LogState) × (run_steps
          (collects ∷ replicate (length (taken full cur)) writes ++ [])
          (state full cur empties [] f)
        ≡ ok s)
      × (s.file.written ≡ text)
unfolding run_steps
last-round text n full cur empties f v =
    let (c, rest, e, filled, blank) = collect-state full cur empties n f v.filled in
    let (empties', f', ran, m, w) =
      write_all-Written [] text 0 none c rest (taken full cur) f
        (At-taken text n full cur empties f v c rest filled blank) in
    (
      state none c empties' [] f',
      ap (λ r. r >>= run_steps (replicate (length (taken full cur)) writes ++ [])) e ∙ ran,
      sym (ap (◌++◌ f'.written) blank ∙ append-nil f'.written) ∙ w.shown,
    )

length-map-some : (bs : List Buffer) → length (map some bs) ≡ length bs
length-map-some [] = refl
length-map-some (b ∷ bs) = ap suc (length-map-some bs)

waiting-joined : (bs : List Buffer) → waiting (map some bs) ≡ joined bs
waiting-joined [] = refl
waiting-joined (b ∷ bs) = ap (◌++◌ b.content) (waiting-joined bs)

abbrev rounds_of : Option Buffer → Buffer → List Step
rounds_of full cur = collects ∷ replicate (length (taken full cur)) writes ++ []

finishes-state :
    (full : Option Buffer) (cur : Buffer) (empties bs : List Buffer) (f : LogFile)
    → finishes (state full cur empties bs f) ≡ replicate (length bs) writes ++ rounds_of full cur
finishes-state none cur empties bs f = rw (length-map-some bs) refl
finishes-state (some b) cur empties bs f = rw (length-map-some bs) refl

shown_by-state :
    (full : Option Buffer) (cur : Buffer) (empties bs : List Buffer) (f : LogFile)
    → shown_by (state full cur empties bs f) ≡ text_of full cur bs f
shown_by-state none cur empties bs f = rw (waiting-joined bs) refl
shown_by-state (some b) cur empties bs f = rw (waiting-joined bs, append-nil b.content) refl

At-IsText :
    (text : Bytes) (n : ℕ) (full : Option Buffer) (cur : Buffer) (empties bs : List Buffer)
    (f : LogFile)
    → At text n full cur empties bs f
    → IsText text (state full cur empties bs f)
At-IsText text n full cur empties bs f v =
    let (empties1, f1, ran, m, w) =
      write_all-Written (rounds_of full cur) text n full cur empties bs f v in
    let (s, ran2, all) = last-round text m full cur empties1 f1 w in
    (
      shown_by-state full cur empties bs f ∙ v.shown,
      s,
      ap (λ l. run_steps l (state full cur empties bs f)) (finishes-state full cur empties bs f)
          ∙ ran
          ∙ ran2,
      all,
    )

IsAt-IsText : (text : Bytes) (s : LogState) → IsAt text s → IsText text s
IsAt-IsText text s (n, full, cur, empties, bs, f, e, v) =
    subst (IsText text) (sym e) (At-IsText text n full cur empties bs f v)

Shows-mono :
    (P Q : LogState → Type 0) (r : Outcome LogState)
    → Shows P r
    → ((s : LogState) → P s → Q s)
    → Shows Q r
Shows-mono P Q (ok s) h f = f s h
Shows-mono P Q blocks h f = tt
Shows-mono P Q (throws e) h f = absurd h
Shows-mono P Q (fault k) h f = absurd h
Shows-mono P Q out_of_fuel h f = absurd h

-- The logger implements an append-only text. Take four blank buffers of the meant size, a file whose
-- writes all go through, and any sequence of log calls, collections of the back end and writes of
-- single buffers, in which every time has 15 characters and at most a buffer's size is logged from one
-- collection to the next. Then no step is undefined, and if every step can be made when its turn
-- comes, then the file, the buffers that wait and the current one show, oldest first, the text with
-- every time and line, cut if too long, appended in order; and the back end's writes, one more
-- collection and its writes bring all of it into the file.
pub run_steps-IsText :
    (a b c d : Buffer) (f : LogFile) (es : List Step)
    → Fresh a
    → Fresh b
    → Fresh c
    → Fresh d
    → f.results ≡ []
    → Paced 0 es
    → Shows
        (IsText (spec_steps es f.written))
        (run_steps es (record { loger = async_loger a b c d; pending = []; file = f }))
unfolding async_loger
run_steps-IsText a b c d f es u v w x r p =
    Shows-mono (IsAt (spec_steps es f.written)) _
      (run_steps es (state none d (a ∷ b ∷ c ∷ []) [] f))
      (run-IsAt es f.written 0 none d (a ∷ b ∷ c ∷ []) [] f (first-At a b c d f u v w x r) p)
      (IsAt-IsText (spec_steps es f.written))
