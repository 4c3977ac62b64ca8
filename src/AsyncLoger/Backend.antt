-- ===== src/AsyncLoger/Backend.antt =====
-- What a step of the back end does to a logger that keeps at most one full buffer.
use lxc_http_server.Common.{
  ℕ, suc, ◌+◌, ◌≤◌, ◌≡◌, refl, ap, ◌∙◌, List, [], ◌∷◌, ◌++◌, append-nil, Option, none, some, Bytes,
  length, length-append, map, arith, ok,
}
use lxc_http_server.AsyncLoger.{Buffer, LogFile, take_current, drain, collect}
use lxc_http_server.AsyncLoger.Rounds.{contents, write_all}
use lxc_http_server.AsyncLoger.Logging.{IsSized, Fresh, AllFresh}
use lxc_http_server.AsyncLoger.Steps.{LogState, collects, writes, collect_step, write_step, step}
use lxc_http_server.AsyncLoger.Paced.{pop_back-Fresh, filling, Filling}

abbrev pub state : Option Buffer → Buffer → List Buffer → List Buffer → LogFile → LogState
state full cur empties bs f = record {
  loger = filling full cur empties;
  pending = map some bs;
  file = f;
}

abbrev pub emptied : Buffer → Buffer
emptied b = record b { content = [] }

abbrev pub joined : List Buffer → Bytes
joined [] = []
joined (b ∷ bs) = b.content ++ joined bs

-- What the file and the buffers hold, oldest first.
abbrev pub text_of : Option Buffer → Buffer → List Buffer → LogFile → Bytes
text_of full cur bs f = f.written ++ (joined bs ++ (contents full ++ cur.content))

abbrev pub AllSized : List Buffer → Type 0
AllSized [] = Unit {0}
AllSized (b ∷ bs) = IsSized b × AllSized bs

AllFresh-append : (bs : List Buffer) (b : Buffer) → AllFresh bs → Fresh b → AllFresh (bs ++ b ∷ [])
AllFresh-append [] b h k = (k, tt)
AllFresh-append (c ∷ bs) b h k = (h.0, AllFresh-append bs b h.1 k)

emptied-Fresh : (b : Buffer) → IsSized b → Fresh (emptied b)
emptied-Fresh b h = (record { size = h.size; within = omega arith }, refl)

-- A buffer that has been written is given back.
pub written-Filling :
    (full : Option Buffer) (cur : Buffer) (empties : List Buffer) (b : Buffer) (out n : ℕ)
    → Filling (suc out) full cur empties n
    → IsSized b
    → Filling out full cur (empties ++ emptied b ∷ []) n
written-Filling none cur empties b out n v h = record {
  sized = v.sized;
  fresh = AllFresh-append empties (emptied b) v.fresh (emptied-Fresh b h);
  spare =
      (omega (arith, v.spare.0, length-append empties (emptied b ∷ [])), omega (arith, v.spare.1));
  total = v.total;
}
written-Filling (some d) cur empties b out n v h = record {
  sized = v.sized;
  fresh = AllFresh-append empties (emptied b) v.fresh (emptied-Fresh b h);
  spare = (
    omega (arith, v.spare.0, length-append empties (emptied b ∷ [])),
    omega (arith, v.spare.1),
    v.spare.2,
    v.spare.3,
  );
  total = v.total;
}

pub write-state :
    (full : Option Buffer) (cur : Buffer) (empties : List Buffer) (b : Buffer) (bs : List Buffer)
    (f : LogFile)
    → f.results ≡ []
    → step writes (state full cur empties (b ∷ bs) f)
      ≡ ok (
          state full cur
            (empties ++ emptied b ∷ [])
            bs
            (record f { written = f.written ++ b.content }))
unfolding step write_step
write-state full cur empties b bs f r = rw (write_all b f r) refl

abbrev pub taken : Option Buffer → Buffer → List Buffer
taken none cur = cur ∷ []
taken (some b) cur = b ∷ cur ∷ []

pub taken-AllSized :
    (full : Option Buffer) (cur : Buffer) (empties : List Buffer) (n : ℕ)
    → Filling 0 full cur empties n
    → AllSized (taken full cur)
taken-AllSized none cur empties n v = (v.sized, tt)
taken-AllSized (some b) cur empties n v = (v.spare.3, (v.sized, tt))

pub joined-taken :
    (full : Option Buffer) (cur : Buffer)
    → joined (taken full cur) ++ [] ≡ contents full ++ cur.content
joined-taken none cur = append-nil _ ∙ append-nil cur.content
joined-taken (some b) cur = append-nil _ ∙ ap (◌++◌ b.content) (append-nil cur.content)

-- The back end takes what there is, in order, and leaves a blank current buffer.
abbrev pub Collected : Option Buffer → Buffer → List Buffer → LogFile → Type 0
Collected full cur empties f =
    (c : Buffer) × (rest : List Buffer) × (step collects (state full cur empties [] f)
      ≡ ok (state none c rest (taken full cur) f))
    × Filling (length (taken full cur)) none c rest 0
    × (c.content ≡ [])

pub blank-Filling :
    (out : ℕ) (c : Buffer) (empties : List Buffer)
    → Fresh c
    → AllFresh empties
    → length empties + out ≡ 3
    → out ≤ 2
    → Filling out none c empties 0
blank-Filling out c empties (sized, blank) fresh count few = record {
  sized = sized;
  fresh = fresh;
  spare = (count, few);
  total = omega (arith, ap length blank);
}

pub collect-state :
    (full : Option Buffer) (cur : Buffer) (empties : List Buffer) (n : ℕ) (f : LogFile)
    → Filling 0 full cur empties n
    → Collected full cur empties f
unfolding step collect_step collect take_current drain
collect-state none cur empties n f v =
    let (c, rest, e, (sized, blank), fresh, count) =
      pop_back-Fresh empties v.fresh (omega (arith, v.spare.0)) in
    (
      c,
      rest,
      rw e refl,
      blank-Filling 1 c rest (sized, blank) fresh (omega (arith, count, v.spare.0)) (omega arith),
      blank,
    )
collect-state (some b) cur empties n f v =
    let (c, rest, e, (sized, blank), fresh, count) =
      pop_back-Fresh empties v.fresh (omega (arith, v.spare.0)) in
    (
      c,
      rest,
      rw e refl,
      blank-Filling 2 c rest (sized, blank) fresh (omega (arith, count, v.spare.0)) (omega arith),
      blank,
    )
