-- ===== src/Utils/Prints.antt =====
-- `bufferPrinter` and `sprintAddrInfo` of src/utils.cpp. The dotted address of `inet_ntoa` is an
-- argument.
use lxc_http_server.Common.{
  ℕ, zero, suc, ◌+◌, ◌-◌, ◌/◌, ◌%◌, ◌^◌, ◌≤◌, ◌≡◌, refl, ap, Bool-cases, inl, inr, true, [], ◌∷◌,
  ◌++◌, some, set-last, Bytes, codes, length, length-append, get_elem?, set, ltb, ◌==◌,
  if◌then◌else◌, c_string, arith, Outcome, ok, check, or_fault, out_of_bounds, ◌>>=◌, ◌>>◌, lt→ltb,
  line_feed,
}
use lxc_http_server.Responser.{digits, percent_d}

-- The buffer as it is left, and what is printed of it.
unfoldable pub buffer_printer : Bytes → ℕ → Outcome (Bytes × Bytes)
unfolding c_string
buffer_printer buffer buffer_size = do
  check (ltb 0 buffer_size) out_of_bounds
  last ← or_fault (get_elem? buffer (buffer_size - 1)) out_of_bounds
  let ended = if last == 0 then buffer else set buffer (buffer_size - 1) 0
  ok (ended, c_string ended)

-- The array `cs` has 128 bytes.
unfoldable pub sprint_addr_info : Bytes → ℕ → Bytes → Outcome Bytes
unfolding percent_d
sprint_addr_info address port str = do
  let cs =
      codes "client addr:" ++ (address ++ (codes ", port:" ++ (percent_d port ++ line_feed ∷ [])))
  check (ltb (length cs) 128) out_of_bounds
  ok (str ++ cs)

length-digits : (fuel n : ℕ) (acc : Bytes) → length (digits fuel n acc) ≤ fuel + length acc
unfolding digits
length-digits zero n acc = omega arith
length-digits (suc fuel) n acc = elim (Bool-cases (n / 10 == 0)) [
  | inl last ↦ rw last (omega arith)
  | inr more ↦ rw more (omega (arith, length-digits fuel (n / 10) ((b'0' + n % 10) ∷ acc)))
]

length-percent_d : (n : ℕ) → length (percent_d n) ≤ 11
unfolding percent_d
length-percent_d n = elim (Bool-cases (ltb (n % 2 ^ 32) (2 ^ 31))) [
  | inl small ↦ rw small (omega (arith, length-digits 10 (n % 2 ^ 32) []))
  | inr large ↦ rw large (omega (arith, length-digits 10 (2 ^ 32 - n % 2 ^ 32) []))
]

-- For an address of at most 15 characters the array has room, whatever the port.
pub sprint_addr_info-appends :
    (address : Bytes) (port : ℕ) (str : Bytes)
    → length address ≤ 15
    → sprint_addr_info address port str
      ≡ ok (
          str
          ++ (codes "client addr:"
              ++ (address ++ (codes ", port:" ++ (percent_d port ++ line_feed ∷ [])))))
unfolding sprint_addr_info
sprint_addr_info-appends address port str h =
    let shown = codes ", port:" ++ (percent_d port ++ line_feed ∷ []) in
    let size = lt→ltb (length (codes "client addr:" ++ (address ++ shown))) 128 (
      omega (
        arith,
        h,
        length-append address shown,
        length-append (percent_d port) (line_feed ∷ []),
        length-percent_d port,
      )) in
    rw size refl

get_elem-last : (front : Bytes) (x : ℕ) → get_elem? (front ++ x ∷ []) (length front) ≡ some x
get_elem-last [] x = refl
get_elem-last (c ∷ front) x = get_elem-last front x

c_string-front : (front : Bytes) → c_string (front ++ 0 ∷ []) ≡ c_string front
unfolding c_string
c_string-front [] = refl
c_string-front (c ∷ front) = elim (Bool-cases (c == 0)) [
  | inl nul ↦ rw nul refl
  | inr more ↦ rw more (ap (◌∷◌ c) (c_string-front front))
]

zero_last : (front : Bytes) (x : ℕ) → (x == 0) ≡ true → front ++ x ∷ [] ≡ front ++ 0 ∷ []
zero_last front x h = ap (λ y. front ++ y ∷ []) (ground (arith, h))

-- The buffer's last character becomes NUL, and what stands in front of it is printed as a string.
pub buffer_printer-front :
    (front : Bytes) (x : ℕ)
    → buffer_printer (front ++ x ∷ []) (suc (length front)) ≡ ok (front ++ 0 ∷ [], c_string front)
unfolding buffer_printer
buffer_printer-front front x =
    let size : suc (length front) - 1 ≡ length front = omega arith in
    let there = lt→ltb 0 (suc (length front)) (omega arith) in
    elim (Bool-cases (x == 0)) [
      | inl nul ↦
          rw (there, size, get_elem-last front x, nul, zero_last front x nul)
            (ap (λ t. ok (front ++ 0 ∷ [], t)) (c_string-front front))
      | inr other ↦
          rw (there, size, get_elem-last front x, other, set-last front x 0)
            (ap (λ t. ok (front ++ 0 ∷ [], t)) (c_string-front front))
    ]
