-- ===== src/Http/Strings/Numeral.antt =====
-- `std::stoi` on a run of digits.
use lxc_http_server.Common.{
  ℕ, ◌+◌, ◌-◌, ◌*◌, ◌^◌, ◌==◌, ◌≡◌, ◌<◌, ◌≤◌, refl, [], ◌∷◌, Bytes, ltb, true, false, ok, pos,
  arith,
}
use lxc_http_server.Http.Strings.{
  is_digit, is_space, skip_space, digits_value, signed_value, sign_then_value, stoi,
}

abbrev pub IsDigit : ℕ → Type 0
IsDigit c = (b'0' ≤ c) × (c ≤ b'9')

is_digit-IsDigit : (c : ℕ) → IsDigit c → is_digit c ≡ true
unfolding is_digit
is_digit-IsDigit c (lo, hi) = ground arith

pub digits_value-digit :
    (acc c : ℕ) (s : Bytes)
    → IsDigit c
    → digits_value acc (c ∷ s) ≡ digits_value (acc * 10 + (c - b'0')) s
unfolding digits_value
digits_value-digit acc c s h = rw (is_digit-IsDigit c h) refl

pub digits_value-nil : (v : ℕ) → digits_value v [] ≡ v
unfolding digits_value
digits_value-nil v = refl

pub stoi-digits :
    (c : ℕ) (s : Bytes)
    → IsDigit c
    → digits_value 0 (c ∷ s) < 2 ^ 31
    → stoi (c ∷ s) ≡ ok (pos (digits_value 0 (c ∷ s)))
unfolding stoi skip_space is_space sign_then_value signed_value
stoi-digits c s h small =
    let digit = is_digit-IsDigit c h in
    let dark : is_space c ≡ false = ground arith in
    let not_minus : (c == b'-') ≡ false = ground arith in
    let not_plus : (c == b'+') ≡ false = ground arith in
    let step = digits_value-digit 0 c s h in
    let fits : ltb (digits_value (0 * 10 + (c - b'0')) s) (2 ^ 31) ≡ true =
      ground (arith, step, small) in
    simp (dark, not_minus, not_plus, digit, fits)
