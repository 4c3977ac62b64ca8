-- ===== src/Http/Strings/Words.antt =====
-- `stringSplit` against a plain description of the words of a text.
use mathlib.Core.Option
use lxc_http_server.Common.{
  ℕ, zero, suc, ◌+◌, ◌-◌, ◌≤◌, ◌<◌, ◌≡◌, refl, sym, ap, ◌∙◌, Bool, true, false, not, List, [], ◌∷◌,
  ◌++◌, Option, none, some, Bytes, length, take, drop, append_assoc, append-nil, arith,
  if◌then◌else◌, le→leb, length-drop, Bool-cases, Option-cases, inl, inr, ok,
}
use lxc_http_server.Http.Strings.{
  elem, find_index, find_from, find_first_of, find_first_not_of, substr, split_loop, string_split,
}

-- Puts a word in front of the words that follow it, unless it is empty.
abbrev pub flush : Bytes → List Bytes → List Bytes
flush [] rest = rest
flush (c ∷ cs) rest = (c ∷ cs) ∷ rest

-- The words of a text, `word` being the part of the current one that has been read.
abbrev pub words : Bytes → Bytes → Bytes → List Bytes
words delimiters word [] = flush word []
words delimiters word (c ∷ s) =
    if elem c delimiters
    then flush word (words delimiters [] s)
    else words delimiters (word ++ c ∷ []) s

drop-drop : (i j : ℕ) (s : Bytes) → drop (i + j) s ≡ drop j (drop i s)
drop-drop zero j s = let e : 0 + j ≡ j = omega arith in rw e
drop-drop (suc i) j [] = let e : suc i + j ≡ suc (i + j) = omega arith in rw e (sym (drop-nil j))
  where
    drop-nil : (k : ℕ) → drop {A = ℕ} k [] ≡ []
    drop-nil zero = refl
    drop-nil (suc k) = refl
drop-drop (suc i) j (x ∷ s) =
    let e : suc i + j ≡ suc (i + j) = omega arith in rw e (drop-drop i j s)

module _ (delimiters : Bytes) where
  -- What `find_first_not_of` skips holds no word.
  abbrev Skips : Bytes → Option ℕ → Type 0
  Skips s none = words delimiters [] s ≡ []
  Skips s (some i) =
      (words delimiters [] s ≡ words delimiters [] (drop i s))
      × (c : ℕ) × (t : Bytes) × (drop i s ≡ c ∷ t)
      × (elem c delimiters ≡ false)

  Skips-suc :
      (c : ℕ) (s : Bytes) (o : Option ℕ)
      → elem c delimiters ≡ true
      → Skips s o
      → Skips (c ∷ s) (Option.map suc o)
  Skips-suc c s none d h = rw d h
  Skips-suc c s (some i) d h = (rw d h.0, h.1, h.2, h.3, h.4)

  find_index-Skips : (s : Bytes) → Skips s (find_index (λ c. not (elem c delimiters)) s)
  unfolding find_index
  find_index-Skips [] = refl
  find_index-Skips (c ∷ s) = elim (Bool-cases (elem c delimiters)) [
    | inl d ↦ rw d (Skips-suc c s _ d (find_index-Skips s))
    | inr d ↦ rw d (refl, c, s, refl, d)
  ]

  -- Up to what `find_first_of` finds there is one word.
  abbrev Takes : Bytes → Bytes → Option ℕ → Type 0
  Takes word s none = words delimiters word s ≡ flush (word ++ s) []
  Takes word s (some j) =
      words delimiters word s ≡ flush (word ++ take j s) (words delimiters [] (drop j s))

  Takes-suc :
      (word : Bytes) (c : ℕ) (s : Bytes) (o : Option ℕ)
      → elem c delimiters ≡ false
      → Takes (word ++ c ∷ []) s o
      → Takes word (c ∷ s) (Option.map suc o)
  Takes-suc word c s none d h = rw d (h ∙ rw append_assoc)
  Takes-suc word c s (some j) d h = rw d (h ∙ rw append_assoc)

  find_index-Takes : (word s : Bytes) → Takes word s (find_index (λ c. elem c delimiters) s)
  unfolding find_index
  find_index-Takes word [] = rw append-nil
  find_index-Takes word (c ∷ s) = elim (Bool-cases (elem c delimiters)) [
    | inl d ↦ rw (d, append-nil) (rw d)
    | inr d ↦ rw d (Takes-suc word c s _ d (find_index-Takes (word ++ c ∷ []) s))
  ]

take_all : (s : Bytes) (n : ℕ) → length s ≤ n → take n s ≡ s
take_all [] zero h = refl
take_all [] (suc n) h = refl
take_all (x ∷ s) zero h = absurd (omega arith)
take_all (x ∷ s) (suc n) h = ap (◌∷◌ x) (take_all s n (omega arith))

drop-zero : (i : ℕ) (s : Bytes) (c : ℕ) (t : Bytes) → drop i s ≡ c ∷ t → i < length s
drop-zero i s c t e = omega (arith, ap length e, length-drop i s)

-- The first character is none that the search looks for, so what it finds lies behind.
find_index-pos :
    (test : ℕ → Bool) (c : ℕ) (t : Bytes) {j : ℕ}
    → test c ≡ false
    → find_index test (c ∷ t) ≡ some j
    → 0 < j
unfolding find_index
find_index-pos test c t n e = ground arith

flush-pos : (w : Bytes) (rest : List Bytes) → 0 < length w → flush w rest ≡ w ∷ rest
flush-pos [] rest h = elim h [ ]
flush-pos (c ∷ w) rest h = refl

length-take-pos : (j : ℕ) (t : Bytes) → 0 < j → 0 < length t → 0 < length (take j t)
length-take-pos zero t h l = elim h [ ]
length-take-pos (suc j) [] h l = elim l [ ]
length-take-pos (suc j) (c ∷ t) h l = omega arith

find_index-lt : (test : ℕ → Bool) (t : Bytes) {j : ℕ} → find_index test t ≡ some j → j < length t
unfolding find_index
find_index-lt test [] e = cc
find_index-lt test (c ∷ t) e = elim (Option-cases (find_index test t)) [
  | inl m ↦ ground (arith, m)
  | inr (k, m) ↦ ground (arith, m, find_index-lt test t m)
]

token_all : (s : Bytes) (q : ℕ) → q ≤ length s → substr s q (length s) ≡ ok (drop q s)
unfolding substr
token_all s q h =
    rw (le→leb q (length s) h, take_all (drop q s) (length s) (omega (arith, length-drop q s)))

module _ (delimiters : Bytes) (s : Bytes) where
  -- The loop from position `p` on has the words of the rest of the text before it.
  abbrev Splits : ℕ → ℕ → List Bytes → Option ℕ → Option ℕ → Type 0
  Splits p fuel tokens last position =
      split_loop fuel s delimiters tokens last position
      ≡ ok (tokens ++ words delimiters [] (drop p s))

  abbrev SplitsFrom : ℕ → ℕ → Type 0
  SplitsFrom fuel p =
      (tokens : List Bytes)
      → Splits p fuel tokens (find_first_not_of s delimiters (some p))
          (find_first_of s delimiters (find_first_not_of s delimiters (some p)))

  -- The last word, which runs up to the end of the text.
  Splits-end :
      (fuel p i : ℕ) (tokens : List Bytes)
      → p + i ≤ length s
      → words delimiters [] (drop p s) ≡ flush (drop (p + i) s) []
      → 0 < length (drop (p + i) s)
      → Splits p (suc (suc fuel)) tokens (some (p + i)) none
  unfolding split_loop find_from
  Splits-end fuel p i tokens h w l = rw (w, token_all s (p + i) h, flush-pos (drop (p + i) s) [] l)

  -- A word with something behind it.
  Splits-word :
      (fuel p i j : ℕ) (tokens : List Bytes)
      → 0 < j
      → p + i + j ≤ length s
      → words delimiters [] (drop p s)
        ≡ flush (take j (drop (p + i) s)) (words delimiters [] (drop (p + i + j) s))
      → SplitsFrom fuel (p + i + j)
      → Splits p (suc fuel) tokens (some (p + i)) (some (p + i + j))
  unfolding split_loop substr
  Splits-word fuel p i j tokens pos h w rest =
      let n : p + i + j - (p + i) ≡ j = omega arith in
      let l : 0 < length (drop (p + i) s) = omega (arith, length-drop (p + i) s) in
      rw
        (
          n,
          le→leb (p + i) (length s) (omega arith),
          w,
          flush-pos (take j (drop (p + i) s)) (words delimiters [] (drop (p + i + j) s))
              (length-take-pos j _ pos l),
        )
        (rest (tokens ++ take j (drop (p + i) s) ∷ []) ∙ rw append_assoc)

  -- From the first character of a word.
  Splits-at :
      (fuel p i : ℕ) (tokens : List Bytes) (c : ℕ) (t : Bytes)
      → length (drop p s) + 2 ≤ suc (suc fuel)
      → drop (p + i) s ≡ c ∷ t
      → elem c delimiters ≡ false
      → words delimiters [] (drop p s) ≡ words delimiters [] (drop (p + i) s)
      → ((q : ℕ) → length (drop q s) + 2 ≤ suc fuel → SplitsFrom (suc fuel) q)
      → Splits p (suc (suc fuel)) tokens (some (p + i)) (find_first_of s delimiters (some (p + i)))
  unfolding find_from
  Splits-at fuel p i tokens c t f e d w rec =
      let takes = find_index-Takes delimiters [] (drop (p + i) s) in
      let l : p + i < length s = omega (arith, ap length e, length-drop (p + i) s) in
      elim (Option-cases (find_index (λ x. elem x delimiters) (drop (p + i) s))) [
        | inl m ↦ rw m (
            Splits-end fuel p i tokens (omega arith) (w ∙ (rw m at takes))
              (omega (arith, ap length e)))
        | inr (j, m) ↦
            let pos = find_index-pos (λ x. elem x delimiters) c t d (rw e at m) in
            let lt = find_index-lt (λ x. elem x delimiters) (drop (p + i) s) m in
            let here : p + i + j ≤ length s = omega (arith, lt, length-drop (p + i) s) in
            let less : length (drop (p + i + j) s) + 2 ≤ suc fuel =
              omega (arith, length-drop (p + i + j) s, length-drop p s, pos, here, f) in
            rw m (
              Splits-word (suc fuel) p i j tokens pos here
                (w ∙ (rw m at takes) ∙ rw (drop-drop (p + i) j s)) (rec (p + i + j) less))
      ]

  Splits-from : (fuel p : ℕ) → length (drop p s) + 2 ≤ fuel → SplitsFrom fuel p
  unfolding split_loop find_from
  Splits-from zero p f tokens = absurd (omega arith)
  Splits-from (suc zero) p f tokens = absurd (omega arith)
  Splits-from (suc (suc fuel)) p f tokens =
      let skips = find_index-Skips delimiters (drop p s) in
      elim (Option-cases (find_index (λ x. not (elem x delimiters)) (drop p s))) [
        | inl m ↦ rw m (let w = rw m at skips in rw (w, append-nil))
        | inr (i, m) ↦
            let (w, c, t, e, d) = rw m at skips in
            rw m (
              Splits-at fuel p i tokens c t f (drop-drop p i s ∙ e) d (w ∙ rw (drop-drop p i s))
                (Splits-from (suc fuel)))
      ]

-- `string_split` returns, and appends to the tokens the words of the string, as a scan from left to
-- right splits it: the longest non-empty runs of characters that are no delimiters, in order.
pub string_split-words :
    (s : Bytes) (tokens : List Bytes) (delimiters : Bytes)
    → string_split s tokens delimiters ≡ ok (tokens ++ words delimiters [] s)
unfolding string_split
string_split-words s tokens delimiters =
    Splits-from delimiters s (suc (suc (length s))) 0 (omega arith) tokens
