-- ===== src/Http/Strings.antt =====
-- The string routines of src/HttpData.cpp: `stringSplit`, `getHeaderLineName` and
-- `numeralContentLength`, over the operations of `std::string` that they call.
pub mod Words
pub mod Scan
pub mod Total
pub mod Numeral
use mathlib.Core.Option
use lxc_http_server.Common.{
  ℕ, zero, suc, ◌+◌, ◌-◌, ◌*◌, ◌^◌, List, [], ◌∷◌, ◌++◌, Option, none, some, Bool, true, false, not,
  ◌&&◌, ◌||◌, Bytes, length, take, drop, ltb, leb, ◌==◌, if◌then◌else◌, Outcome, ok, throws, fault,
  out_of_fuel, out_of_bounds, null_pointer, out_of_range, invalid_argument, ◌>>=◌, or_fault, ℤ, pos,
  negsuc,
}
use lxc_http_server.Http.{HttpData}

-- `std::string::substr`.
unfoldable pub substr : Bytes → ℕ → ℕ → Outcome Bytes
substr s start count =
    if leb start (length s) then ok (take count (drop start s)) else throws out_of_range

-- `while (s[i] != c) i++` from i = 0: `s[s.size()]` is NUL, and no test stops the loop there.
unfoldable pub scan : ℕ → Bytes → Outcome ℕ
scan c [] = fault out_of_bounds
scan c (x ∷ s) = let rest = (do i ← scan c s; ok (suc i)) in if x == c then ok 0 else rest

-- The same from a position inside `s`.
unfoldable pub scan_from : ℕ → Bytes → ℕ → Outcome ℕ
unfolding scan
scan_from c s start = do i ← scan c (drop start s); ok (start + i)

unfoldable pub get_header_line_name : Bytes → Outcome Bytes
unfolding scan substr
get_header_line_name s = do i ← scan b'=' s; substr s 0 i

-- `find_first_of` and `find_first_not_of`; `none` is `npos`.
abbrev pub elem : ℕ → Bytes → Bool
elem c [] = false
elem c (x ∷ xs) = c == x || elem c xs

unfoldable pub find_index : (ℕ → Bool) → Bytes → Option ℕ
find_index test [] = none
find_index test (c ∷ s) =
    let rest = Option.map suc (find_index test s) in if test c then some 0 else rest

unfoldable pub find_from : (ℕ → Bool) → Bytes → Option ℕ → Option ℕ
unfolding find_index
find_from test s none = none
find_from test s (some start) = Option.map (λ i. start + i) (find_index test (drop start s))

abbrev pub find_first_of : Bytes → Bytes → Option ℕ → Option ℕ
find_first_of s delimiters = find_from (λ c. elem c delimiters) s

abbrev pub find_first_not_of : Bytes → Bytes → Option ℕ → Option ℕ
find_first_not_of s delimiters = find_from (λ c. not (elem c delimiters)) s

-- `pos - lastPos`; from `npos` it is more than any string is long.
abbrev pub token_length : Bytes → ℕ → Option ℕ → ℕ
token_length s last none = length s
token_length s last (some position) = position - last

unfoldable pub split_loop :
    ℕ → Bytes → Bytes → List Bytes → Option ℕ → Option ℕ → Outcome (List Bytes)
unfolding substr find_from
split_loop zero s delimiters tokens last position = out_of_fuel
split_loop (suc fuel) s delimiters tokens none none = ok tokens
split_loop (suc fuel) s delimiters tokens none (some position) = throws out_of_range
split_loop (suc fuel) s delimiters tokens (some last) position = do
  token ← substr s last (token_length s last position)
  let last' = find_first_not_of s delimiters position
  split_loop fuel s delimiters (tokens ++ token ∷ []) last' (find_first_of s delimiters last')

unfoldable pub string_split : Bytes → List Bytes → Bytes → Outcome (List Bytes)
unfolding split_loop
string_split s tokens delimiters =
    let last = find_first_not_of s delimiters (some 0) in
    split_loop (suc (suc (length s))) s delimiters tokens last (find_first_of s delimiters last)

-- `find_last_of` for one character.
unfoldable pub find_last_of : ℕ → Bytes → Option ℕ
find_last_of c [] = none
find_last_of c (x ∷ s) = elim (find_last_of c s) [
  | none ↦ (if x == c then some 0 else none)
  | some i ↦ some (suc i)
]

-- `std::stoi`: white space, a sign, digits up to the first other character.
is_space : ℕ → Bool
is_space c = c == b' ' || leb 9 c && leb c 13

is_digit : ℕ → Bool
is_digit c = leb b'0' c && leb c b'9'

skip_space : Bytes → Bytes
unfolding is_space
skip_space [] = []
skip_space (c ∷ s) = if is_space c then skip_space s else c ∷ s

pub digits_value : ℕ → Bytes → ℕ
unfolding is_digit
digits_value acc [] = acc
digits_value acc (c ∷ s) =
    let rest = digits_value (acc * 10 + (c - b'0')) s in if is_digit c then rest else acc

-- The digits behind the sign.
signed_value : Bool → Bytes → Outcome ℤ
unfolding digits_value is_digit
signed_value minus [] = throws invalid_argument
signed_value minus (c ∷ s) =
    let value = digits_value 0 (c ∷ s) in
    if not (is_digit c)
    then throws invalid_argument
    else if not minus
    then (if ltb value (2 ^ 31) then ok (pos value) else throws out_of_range)
    else if value == 0
    then ok (pos 0)
    else if leb value (2 ^ 31)
    then ok (negsuc (value - 1))
    else throws out_of_range

sign_then_value : Bytes → Outcome ℤ
unfolding signed_value
sign_then_value [] = throws invalid_argument
sign_then_value (c ∷ s) =
    if c == b'-'
    then signed_value true s
    else if c == b'+'
    then signed_value false s
    else signed_value false (c ∷ s)

unfoldable pub stoi : Bytes → Outcome ℤ
unfolding skip_space sign_then_value
stoi s = sign_then_value (skip_space s)

unfoldable pub numeral_content_length : HttpData → Outcome ℤ
unfolding scan substr stoi
numeral_content_length d = do
  line ← or_fault d.content_length null_pointer
  i ← scan b' ' line
  digits ← substr line (i + 1) (length line - (i + 1))
  stoi digits
