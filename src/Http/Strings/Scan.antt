-- ===== src/Http/Strings/Scan.antt =====
-- The unbounded search loops `while (s[i] != c) i++`.
use lxc_http_server.Common.{
  c_string, ℕ, ◌+◌, ◌≡◌, refl, false, ◌||◌, [], ◌∷◌, ◌++◌, Bytes, length, drop-append, arith, ok,
  fault, out_of_bounds,
}
use lxc_http_server.Http.Strings.{elem, scan, scan_from}

-- The first occurrence is found.
pub scan-append : (c : ℕ) (s t : Bytes) → elem c s ≡ false → scan c (s ++ (c ∷ t)) ≡ ok (length s)
unfolding scan
scan-append c [] t h = ground arith
scan-append c (x ∷ s) t h = ground (arith, scan-append c s t)

-- With none, the loop runs past the terminating NUL.
pub scan-fault : (c : ℕ) (s : Bytes) → elem c s ≡ false → scan c s ≡ fault out_of_bounds
unfolding scan
scan-fault c [] h = refl
scan-fault c (x ∷ s) h = ground (arith, scan-fault c s)

pub scan_from-append :
    (c : ℕ) (pre s t : Bytes)
    → elem c s ≡ false
    → scan_from c (pre ++ (s ++ (c ∷ t))) (length pre) ≡ ok (length pre + length s)
unfolding scan_from
scan_from-append c pre s t h = rw (drop-append pre (s ++ (c ∷ t)), scan-append c s t h)

pub scan_from-fault :
    (c : ℕ) (pre s : Bytes)
    → elem c s ≡ false
    → scan_from c (pre ++ s) (length pre) ≡ fault out_of_bounds
unfolding scan_from
scan_from-fault c pre s h = rw (drop-append pre s, scan-fault c s h)

pub elem-append : (c : ℕ) (s t : Bytes) → elem c (s ++ t) ≡ (elem c s || elem c t)
elem-append c [] t = refl
elem-append c (x ∷ s) t = ground (arith, elem-append c s t)

-- A text with no NUL is a C string.
pub c_string-id : (s : Bytes) → elem 0 s ≡ false → c_string s ≡ s
unfolding c_string
c_string-id [] h = refl
c_string-id (c ∷ s) h = ground (arith, c_string-id s)
