-- ===== src/AsyncLoger/Runs.antt =====
-- The logger as an append-only text, through every sequence of its steps.
use mathlib.Core.Path.{subst}
use lxc_http_server.Common.{
  ℕ, ◌+◌, ◌≤◌, ◌≡◌, refl, sym, ap, ◌∙◌, List, [], ◌∷◌, ◌++◌, append_assoc, append-nil, arith,
  Option, none, some, Bytes, length, map, ok, throws, fault, blocks, out_of_fuel, Outcome, ◌>>=◌,
}
use lxc_http_server.AsyncLoger.{
  Buffer, AsyncLoger, LogFile, log_info, logbuffersize, date_string_length, log_text,
}
use lxc_http_server.AsyncLoger.Rounds.{contents}
use lxc_http_server.AsyncLoger.Logging.{Fresh}
use lxc_http_server.AsyncLoger.Steps.{LogState, Step, logs, collects, writes, step, run_steps}
use lxc_http_server.AsyncLoger.Paced.{filling, Filling, log_info-Kept}
use lxc_http_server.AsyncLoger.Backend.{
  state, joined, text_of, AllSized, emptied, written-Filling, write-state, taken, taken-AllSized,
  joined-taken, blank-Filling, collect-state,
}

-- The abstract view: a text to which a log call appends its time and its line.
abbrev pub spec_step : Step → Bytes → Bytes
spec_step (logs stamp line) s = s ++ (stamp ++ log_text line)
spec_step collects s = s
spec_step writes s = s

abbrev pub spec_steps : List Step → Bytes → Bytes
spec_steps [] s = s
spec_steps (e ∷ es) s = spec_steps es (spec_step e s)

-- Every time has its 15 characters, and from one collection to the next no more is logged than a buffer
-- holds; `n` bytes have been logged since the last.
abbrev pub Paced : ℕ → List Step → Type 0
Paced n [] = Unit {0}
Paced n (logs stamp line ∷ es) =
    (length stamp ≡ date_string_length)
    × (n + length (stamp ++ log_text line) ≤ logbuffersize)
    × Paced (n + length (stamp ++ log_text line)) es
Paced n (collects ∷ es) = Paced 0 es
Paced n (writes ∷ es) = Paced n es

-- A step that the back end cannot make yet blocks; no step is undefined.
abbrev pub Shows {ℓ} : {A : Type ℓ} → (A → Type 0) → Outcome A → Type 0
Shows P (ok s) = P s
Shows P blocks = Unit
Shows P (throws e) = ⊥
Shows P (fault k) = ⊥
Shows P out_of_fuel = ⊥

pub record At (text : Bytes) (n : ℕ) (full : Option Buffer) (cur : Buffer)
    (empties bs : List Buffer) (f : LogFile) : Type 0 where
  pub filled : Filling (length bs) full cur empties n
  pub sized : AllSized bs
  pub goes_through : f.results ≡ []
  pub shown : text_of full cur bs f ≡ text

pub At-written :
    (text : Bytes) (n : ℕ) (full : Option Buffer) (cur : Buffer) (empties : List Buffer)
    (b : Buffer) (bs : List Buffer) (f : LogFile)
    → At text n full cur empties (b ∷ bs) f
    → At text n full cur
        (empties ++ emptied b ∷ [])
        bs
        (record f { written = f.written ++ b.content })
At-written text n full cur empties b bs f v = record {
  filled = written-Filling full cur empties b (length bs) n v.filled v.sized.0;
  sized = v.sized.1;
  goes_through = v.goes_through;
  shown =
      append_assoc f.written b.content _
      ∙ ap (◌++◌ f.written) (sym (append_assoc b.content (joined bs) _))
      ∙ v.shown;
}

pub At-taken :
    (text : Bytes) (n : ℕ) (full : Option Buffer) (cur : Buffer) (empties : List Buffer)
    (f : LogFile)
    → At text n full cur empties [] f
    → (c : Buffer) (rest : List Buffer) → Filling (length (taken full cur)) none c rest 0
    → c.content ≡ []
    → At text 0 none c rest (taken full cur) f
At-taken text n full cur empties f v c rest filled blank = record {
  filled = filled;
  sized = taken-AllSized full cur empties n v.filled;
  goes_through = v.goes_through;
  shown =
      ap (λ x. f.written ++ (joined (taken full cur) ++ x)) blank
      ∙ ap (◌++◌ f.written) (joined-taken full cur)
      ∙ v.shown;
}

pub At-logged :
    (text : Bytes) (n : ℕ) (full : Option Buffer) (cur : Buffer) (empties bs : List Buffer)
    (f : LogFile)
    → At text n full cur empties bs f
    → (entry : Bytes) (full' : Option Buffer) (cur' : Buffer) (empties' : List Buffer)
    → Filling (length bs) full' cur' empties' (n + length entry)
    → contents full' ++ cur'.content ≡ (contents full ++ cur.content) ++ entry
    → At (text ++ entry) (n + length entry) full' cur' empties' bs f
At-logged text n full cur empties bs f v entry full' cur' empties' filled grown = record {
  filled = filled;
  sized = v.sized;
  goes_through = v.goes_through;
  shown =
      ap (λ x. f.written ++ (joined bs ++ x)) grown
      ∙ ap (◌++◌ f.written) (sym (append_assoc (joined bs) _ entry))
      ∙ sym (append_assoc f.written _ entry)
      ∙ ap (λ x. x ++ entry) v.shown;
}

-- The logger that has been made, on four blank buffers.
pub first-At :
    (a b c d : Buffer) (f : LogFile)
    → Fresh a
    → Fresh b
    → Fresh c
    → Fresh d
    → f.results ≡ []
    → At f.written 0 none d (a ∷ b ∷ c ∷ []) [] f
first-At a b c d f u v w x r = record {
  filled = blank-Filling 0 d (a ∷ b ∷ c ∷ []) x (u, (v, (w, tt))) refl (omega arith);
  sized = tt;
  goes_through = r;
  shown = ap (◌++◌ f.written) x.1 ∙ append-nil f.written;
}

abbrev pub IsAt : Bytes → LogState → Type 0
IsAt text s =
    (n : ℕ) × (full : Option Buffer) × (cur : Buffer) × (empties : List Buffer) × (bs : List Buffer)
    × (f : LogFile) × (s ≡ state full cur empties bs f)
    × At text n full cur empties bs f

pub after :
    (P : LogState → Type 0) (r : Outcome LogState) (s : LogState) (k : LogState → Outcome LogState)
    → r ≡ ok s
    → Shows P (k s)
    → Shows P (r >>= k)
after P r s k e h = subst (λ x. Shows P (x >>= k)) (sym e) h

pub log-step :
    (l l' : AsyncLoger) (stamp line : Bytes) (pending : List (Option Buffer)) (f : LogFile)
    → log_info l stamp line ≡ ok l'
    → step (logs stamp line) (record { loger = l; pending = pending; file = f })
      ≡ ok (record { loger = l'; pending = pending; file = f })
unfolding step
log-step l l' stamp line pending f e = rw e refl

pub run-IsAt :
    (es : List Step) (text : Bytes) (n : ℕ) (full : Option Buffer) (cur : Buffer)
    (empties bs : List Buffer) (f : LogFile)
    → At text n full cur empties bs f
    → Paced n es
    → Shows (IsAt (spec_steps es text)) (run_steps es (state full cur empties bs f))
unfolding run_steps
run-IsAt [] text n full cur empties bs f v p = (n, full, cur, empties, bs, f, refl, v)
run-IsAt (logs stamp line ∷ es) text n full cur empties bs f v (s, small, p) =
    let entry = stamp ++ log_text line in
    let (l, e, (full', cur', empties', same, filled, grown)) =
      log_info-Kept (length bs) full cur empties n stamp line v.filled s small in
    let goes =
      log-step (filling full cur empties) (filling full' cur' empties') stamp line (map some bs) f
        (e ∙ ap ok same) in
    after (IsAt (spec_steps es (text ++ entry))) _ (state full' cur' empties' bs f) (run_steps es)
      goes
      (run-IsAt es (text ++ entry) (n + length entry) full' cur' empties' bs f
        (At-logged text n full cur empties bs f v entry full' cur' empties' filled grown) p)
run-IsAt (collects ∷ es) text n full cur empties [] f v p =
    let (c, rest, e, filled, blank) = collect-state full cur empties n f v.filled in
    after (IsAt (spec_steps es text)) _ (state none c rest (taken full cur) f) (run_steps es) e (
      run-IsAt es text 0 none c rest (taken full cur) f
        (At-taken text n full cur empties f v c rest filled blank) p)
run-IsAt (collects ∷ es) text n full cur empties (b ∷ bs) f v p = tt
run-IsAt (writes ∷ es) text n full cur empties [] f v p = tt
run-IsAt (writes ∷ es) text n full cur empties (b ∷ bs) f v p =
    after (IsAt (spec_steps es text)) _
      (state full cur (empties ++ emptied b ∷ []) bs
        (record f { written = f.written ++ b.content }))
      (run_steps es) (write-state full cur empties b bs f v.goes_through)
      (run-IsAt es text n full cur (empties ++ emptied b ∷ []) bs
        (record f { written = f.written ++ b.content })
        (At-written text n full cur empties b bs f v) p)
