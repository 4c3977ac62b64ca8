-- ===== src/Responser/Nul.antt =====
-- Arrays that hold a text and its NUL.
use lxc_http_server.Common.{◌≡◌, refl, true, false, [], ◌∷◌, ◌++◌, Bytes, c_string, arith, ok}
use lxc_http_server.Http.Strings.{elem}
use lxc_http_server.Http.Strings.Scan.{elem-append}
use lxc_http_server.Responser.{until_nul}

-- The string that an array holds.
pub c_string-array : (s junk : Bytes) → elem 0 s ≡ false → c_string (s ++ 0 ∷ junk) ≡ s
unfolding c_string
c_string-array [] junk h = refl
c_string-array (c ∷ s) junk h = ground (arith, c_string-array s junk)

pub until_nul-array : (s junk : Bytes) → elem 0 s ≡ false → until_nul (s ++ 0 ∷ junk) ≡ ok s
unfolding until_nul
until_nul-array s junk h =
    let there : elem 0 (s ++ 0 ∷ junk) ≡ true = ground (arith, elem-append 0 s (0 ∷ junk)) in
    simp (there, c_string-array s junk h)
