-- ===== src/Http/Strings/Total.antt =====
-- The string routines never run out of fuel, and where a found position lies.
use lxc_http_server.Common.{
  ℕ, ◌+◌, ◌-◌, ◌≤◌, ◌<◌, Bool, true, false, [], ◌∷◌, Bytes, length, drop, length-drop, arith, leb,
  ◌==◌, Bool-cases, Option-cases, inl, inr, Ends, Ends-bind,
}
use lxc_http_server.Http.{HttpData}
use lxc_http_server.Http.Strings.{
  substr, scan, scan_from, get_header_line_name, skip_space, signed_value, sign_then_value, stoi,
  numeral_content_length,
}

-- Of a value nothing is said.
abbrev pub Any {ℓ} : {A : Type ℓ} → A → Type 0
Any a = Unit

pub substr-Ends : (s : Bytes) (i n : ℕ) → Ends Any (substr s i n)
unfolding substr
substr-Ends s i n = elim (Bool-cases (leb i (length s))) [ inl h ↦ rw h tt | inr h ↦ rw h tt ]

abbrev pub Between : ℕ → ℕ → ℕ → Type 0
Between low high i = (low ≤ i) × (i < high)

scan-Ends : (c : ℕ) (s : Bytes) → Ends (Between 0 (length s)) (scan c s)
unfolding scan
scan-Ends c [] = tt
scan-Ends c (x ∷ s) = elim (Bool-cases (x == c)) [
  | inl h ↦ rw h (omega arith)
  | inr h ↦
      rw h
        (Ends-bind (Between 0 (length s)) _ (scan c s) _ (scan-Ends c s) (λ i b. omega (arith, b)))
]

pub scan_from-Ends : (c : ℕ) (s : Bytes) (n : ℕ) → Ends (Between n (length s)) (scan_from c s n)
unfolding scan_from
scan_from-Ends c s n =
    Ends-bind (Between 0 (length (drop n s))) (Between n (length s)) (scan c (drop n s)) _
      (scan-Ends c (drop n s)) (λ i b. omega (arith, b, length-drop n s))

pub get_header_line_name-Ends : (s : Bytes) → Ends Any (get_header_line_name s)
unfolding get_header_line_name
get_header_line_name-Ends s =
    Ends-bind (Between 0 (length s)) Any _ _ (scan-Ends b'=' s) (λ i _. substr-Ends s 0 i)

signed_value-Ends : (minus : Bool) (s : Bytes) → Ends Any (signed_value minus s)
unfolding signed_value
signed_value-Ends minus [] = tt
signed_value-Ends true (c ∷ s) = ground arith
signed_value-Ends false (c ∷ s) = ground arith

sign_then_value-Ends : (s : Bytes) → Ends Any (sign_then_value s)
unfolding sign_then_value
sign_then_value-Ends [] = tt
sign_then_value-Ends (c ∷ s) = elim (Bool-cases (c == b'-')) [
  | inl m ↦ rw m (signed_value-Ends true s)
  | inr m ↦ rw m (elim (Bool-cases (c == b'+')) [
    | inl p ↦ rw p (signed_value-Ends false s)
    | inr p ↦ rw p (signed_value-Ends false (c ∷ s))
  ])
]

pub numeral_content_length-Ends : (d : HttpData) → Ends Any (numeral_content_length d)
unfolding numeral_content_length stoi
numeral_content_length-Ends d = elim (Option-cases d.content_length) [
  | inl e ↦ rw e tt
  | inr (line, e) ↦ rw e (
      Ends-bind (Between 0 (length line)) Any _ _ (scan-Ends b' ' line) λ i _.
        Ends-bind Any Any _ _ (substr-Ends line (i + 1) (length line - (i + 1)))
          λ digits _. sign_then_value-Ends (skip_space digits))
]
