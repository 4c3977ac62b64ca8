-- ===== src/Utils/Index.antt =====
-- What `loadIndexTomemory` of src/utils.cpp loads.
use lxc_http_server.Common.{
  ℕ, zero, suc, ◌+◌, ◌≤◌, ◌<◌, ◌==◌, ◌≡◌, refl, sym, ap, ◌∙◌, inl, inr, ◌⊎◌, true, false,
  Bool-cases, ◌||◌, [], ◌∷◌, ◌++◌, append_assoc, Bytes, length, length-append, length-drop, drop,
  leb, c_string, line_feed, arith, ok,
}
use lxc_http_server.Http.Strings.{elem}
use lxc_http_server.Http.Strings.Scan.{c_string-id}
use lxc_http_server.Responser.{regular}
use lxc_http_server.Responser.Nul.{c_string-array, until_nul-array}
use lxc_http_server.Http.Strings.Scan.{elem-append}
use lxc_http_server.Utils.{read_line, str_cat, load_loop, load_index_tomemory}

drop-both : (s t u : Bytes) → drop (length (s ++ t)) (s ++ u) ≡ drop (length t) u
drop-both [] t u = refl
drop-both (c ∷ s) t u = drop-both s t u

length-snoc : (s : Bytes) (c : ℕ) → length (s ++ c ∷ []) ≡ suc (length s)
length-snoc s c = omega (arith, length-append s (c ∷ []))

str_cat-array :
    (s line junk : Bytes)
    → elem 0 s ≡ false
    → elem 0 line ≡ false
    → length line ≤ length junk
    → str_cat (s ++ 0 ∷ junk) line ≡ ok ((s ++ line) ++ 0 ∷ drop (length line) junk)
unfolding str_cat
str_cat-array s line junk h k small =
    let size = length-append s (line ++ 0 ∷ []) in
    let size1 = length-append line (0 ∷ []) in
    let size2 = length-append s (0 ∷ junk) in
    let fits : leb (length (s ++ (line ++ 0 ∷ []))) (length (s ++ 0 ∷ junk)) ≡ true =
      ground arith in
    let behind : drop (length (s ++ (line ++ 0 ∷ []))) (s ++ 0 ∷ junk) ≡ drop (length line) junk =
      drop-both s (line ++ 0 ∷ []) (0 ∷ junk) ∙ ap (λ n. drop n (0 ∷ junk)) (length-snoc line 0) in
    let joined : (s ++ (line ++ 0 ∷ [])) ++ drop (length line) junk
        ≡ (s ++ line) ++ 0 ∷ drop (length line) junk =
      append_assoc s (line ++ 0 ∷ []) (drop (length line) junk)
      ∙ ap (◌++◌ s) (append_assoc line (0 ∷ []) (drop (length line) junk))
      ∙ sym (append_assoc s line (0 ∷ drop (length line) junk)) in
    rw (until_nul-array s junk h, c_string-id line k, fits, behind) (ap ok joined)

-- A line that `fgets` ends at its line feed, or cuts.
read_line-cases :
    (n : ℕ) (text tail : Bytes)
    → (read_line (suc n) (text ++ line_feed ∷ tail) ≡ (text ++ line_feed ∷ [], (tail, false)))
      ⊎ ((line : Bytes) × (more : Bytes) × (text ≡ line ++ more)
          × (0 < length line)
          × (read_line (suc n) (text ++ line_feed ∷ tail)
              ≡ (line, (more ++ line_feed ∷ tail, false))))
unfolding read_line
read_line-cases n [] tail = inl refl
read_line-cases zero (c ∷ text) tail = inr (c ∷ [], text, refl, omega arith, ground arith)
read_line-cases (suc n) (c ∷ text) tail = elim (Bool-cases (c == line_feed)) [
  | inl y ↦ inr (c ∷ [], text, refl, omega arith, rw y refl)
  | inr m ↦ elim (read_line-cases n text tail) [
    | inl e ↦ inl (rw m (ap (λ r. (c ∷ r.0, r.1)) e))
    | inr (line, more, split, some_read, e) ↦
        inr (c ∷ line, more, ap (◌∷◌ c) split, omega arith, rw m (ap (λ r. (c ∷ r.0, r.1)) e))
  ]
]

read_line-tail :
    (n : ℕ) (tail : Bytes)
    → elem line_feed tail ≡ false
    → length tail < n
    → read_line n tail ≡ (tail, ([], true))
unfolding read_line
read_line-tail zero tail h k = absurd (omega (arith, k))
read_line-tail (suc n) [] h k = refl
read_line-tail (suc n) (c ∷ tail) h k = elim (Bool-cases (c == line_feed)) [
  | inl y ↦ absurd (ground arith)
  | inr m ↦
      rw m (ap (λ r. (c ∷ r.0, r.1)) (read_line-tail n tail (ground arith) (omega (arith, k))))
]

-- Behind a call of `fgets` that is to read `text`, its line feed, and a last line without one.
loop-loads :
    (fuel : ℕ) (s text tail junk : Bytes)
    → elem 0 s ≡ false
    → elem 0 text ≡ false
    → elem line_feed tail ≡ false
    → length tail < 255
    → length text < length junk
    → length text + 1 < fuel
    → (memory : Bytes) × (load_loop fuel (read_line 255 (text ++ line_feed ∷ tail)) (s ++ 0 ∷ junk)
        ≡ ok memory)
      × (c_string memory ≡ s ++ (text ++ line_feed ∷ []))
unfolding load_loop
loop-loads zero s text tail junk h k l short room enough = absurd (omega (arith, enough))
loop-loads (suc zero) s text tail junk h k l short room enough = absurd (omega (arith, enough))
loop-loads (suc (suc fuel)) s text tail junk h k l short room enough =
    elim (read_line-cases 254 text tail) [
      | inl e ↦
          let last : elem 0 (text ++ line_feed ∷ []) ≡ false =
            ground (arith, elem-append 0 text (line_feed ∷ [])) in
          let all : elem 0 (s ++ (text ++ line_feed ∷ [])) ≡ false =
            ground (arith, elem-append 0 s (text ++ line_feed ∷ [])) in
          let fits : length (text ++ line_feed ∷ []) ≤ length junk =
            omega (arith, length-snoc text line_feed, room) in
          (
            (s ++ (text ++ line_feed ∷ [])) ++ 0 ∷ drop (length (text ++ line_feed ∷ [])) junk,
            rw
                (
                  e,
                  str_cat-array s (text ++ line_feed ∷ []) junk h last fits,
                  read_line-tail 255 tail l short,
                )
                refl,
            c_string-array (s ++ (text ++ line_feed ∷ [])) _ all,
          )
      | inr (line, more, split, some_read, e) ↦
          let parts : (elem 0 line || elem 0 more) ≡ false =
            sym (ap (elem 0) split ∙ elem-append 0 line more) ∙ k in
          let sizes : length text ≡ length line + length more =
            ap length split ∙ length-append line more in
          let line_plain : elem 0 line ≡ false = ground arith in
          let more_plain : elem 0 more ≡ false = ground arith in
          let all : elem 0 (s ++ line) ≡ false = ground (arith, elem-append 0 s line) in
          let (memory, ran, loaded) =
            loop-loads (suc fuel) (s ++ line) more tail (drop (length line) junk) all more_plain l
              short (omega (arith, length-drop (length line) junk, sizes, room))
              (omega (arith, sizes, some_read, enough)) in
          (
            memory,
            rw (e, str_cat-array s line junk h line_plain (omega (arith, sizes, room))) ran,
            loaded
                ∙ append_assoc s line (more ++ line_feed ∷ [])
                ∙ ap (◌++◌ s) (
                    sym (append_assoc line more (line_feed ∷ []))
                    ∙ ap (λ t. t ++ line_feed ∷ []) (sym split)),
          )
    ]

-- Of a file whose text up to its last line feed has no NUL, followed by less than 255 bytes without a
-- line feed, `loadIndexTomemory` returns when the array begins with NUL and has room for that text,
-- and the string in the array is the text up to and with the last line feed: the whole file if it ends
-- there, and all but its last line if it does not.
pub load_index_tomemory-lines :
    (text tail junk : Bytes)
    → elem 0 text ≡ false
    → elem line_feed tail ≡ false
    → length tail < 255
    → length text + 1 ≤ length junk
    → (memory : Bytes) × (load_index_tomemory (regular (text ++ line_feed ∷ tail)) (0 ∷ junk)
        ≡ ok memory)
      × (c_string memory ≡ text ++ line_feed ∷ [])
unfolding load_index_tomemory
load_index_tomemory-lines text tail junk k l short room =
    loop-loads _ [] text tail junk refl k l short (omega (arith, room))
      (omega (arith, length-append text (line_feed ∷ tail)))
