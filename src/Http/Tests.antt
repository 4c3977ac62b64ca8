-- ===== src/Http/Tests.antt =====
-- Runs of the parser on concrete requests.
use lxc_http_server.Common.{
  ℕ, zero, suc, List, [], ◌∷◌, ◌++◌, ◌≡◌, ◌≢◌, refl, some, inl, false, Bytes, codes, crlf,
  replicate, arith, c_string, Outcome, ok, throws, fault, out_of_fuel, socket_closed, out_of_bounds,
  uninitialised, ◌>>=◌,
}
use lxc_http_server.Http.{HttpData, Recv, http_data, Table}
use lxc_http_server.Http.Socket.Stream.{Fits}
use lxc_http_server.Http.Parse.Posting.{with_head, BodyTaken, parse_data-BodyTaken}
use lxc_http_server.Http.Header.{store_header, header_field}
use lxc_http_server.Http.Parse.Request.{head}
use lxc_http_server.Http.Strings.{numeral_content_length}
use lxc_http_server.Http.Strings.{string_split}
use lxc_http_server.Http.Strings.Words.{words, string_split-words}
use lxc_http_server.Http.Line.{parse_one_line}
use lxc_http_server.Http.Line.Stream.{NoCrlf, LineRead, parse_one_line-LineRead}
use lxc_http_server.Http.Line.Bounds.{parse_one_line_overrun}
use lxc_http_server.Http.Params.{table_of, parse_string_param}
use lxc_http_server.Http.Params.Values.{encode, store_keys, parse_string_param-encode}
use lxc_http_server.Http.Start.{parse_start_line}
use lxc_http_server.Http.Start.Request.{IsWord, is_get, request_line, parse_start_line-fault}
use lxc_http_server.Http.Header.Lines.{Header, IsLine, AllHeaders}
use lxc_http_server.Http.Parse.{parse_data, get_param_count}
use lxc_http_server.Http.Parse.Total.{parse_data-total}
use lxc_http_server.Http.Parse.Request.{
  http_data-IsSound, Parsed, IsHead, parsed, parse_data-Parsed, parse_data-fault,
}

abbrev request : List Bytes → Outcome HttpData
request chunks = parse_data (http_data 7 (to_recvs chunks) false)
  where
    to_recvs : List Bytes → List Recv
    to_recvs [] = []
    to_recvs (c ∷ cs) = some c ∷ to_recvs cs

abbrev seen : Outcome HttpData → Outcome (Bytes × Bytes × Bytes × Bytes)
seen r = do d ← r; ok (d.request_method_string, d.url, d.url_resource_type, d.version)

abbrev get_line : Bytes
get_line = codes "GET /a.html HTTP/1.1" ++ crlf

get_in_two_chunks :
    seen (request ((codes "GET /a.h") ∷ (codes "tml HTTP/1.1" ++ crlf ++ crlf) ∷ []))
    ≡ ok (codes "GET", codes "www/a.html", codes "html", codes "HTTP/1.1")
unfolding parse_data http_data
get_in_two_chunks = refl

standard_header_faults :
    request ((get_line ++ codes "Host: a" ++ crlf ++ crlf) ∷ []) ≡ fault out_of_bounds
unfolding parse_data http_data
standard_header_faults = refl

abbrev post_head : Bytes
post_head = codes "POST /f.cgi HTTP/1.1" ++ crlf ++ codes "Content-Length= 7" ++ crlf ++ crlf

abbrev params_of : Outcome HttpData → Outcome (ℕ × Bytes)
params_of r = do d ← r; ok (get_param_count d, d.url)

post_two_params :
    (do d ← request ((post_head ++ codes "a=1&b=2") ∷ []); ok d.client_param_data)
    ≡ ok (some ((codes "a", []) ∷ (codes "b", []) ∷ []))
unfolding parse_data http_data
post_two_params = refl

post_body_in_second_chunk : request (post_head ∷ codes "a=1&b=2" ∷ []) ≡ fault uninitialised
unfolding parse_data http_data
post_body_in_second_chunk = refl

peer_closes : request (codes "GET / HT" ∷ [] ∷ []) ≡ throws socket_closed
unfolding parse_data http_data
peer_closes = refl

abbrev get_socket : List Recv
get_socket = some (codes "GET / ") ∷ some (codes "H" ++ crlf ++ codes "A=b" ++ crlf ++ crlf) ∷ []

get_socket-Fits : Fits get_socket
get_socket-Fits = (omega arith, (omega arith, tt))

abbrev headers : List Header
headers = record { name = codes "A"; value = codes "b" } ∷ []

root-IsWord : IsWord (codes "/")
root-IsWord = record { plain = refl; ne_nil = λ h. cc }

version-IsWord : IsWord (codes "H")
version-IsWord = record { plain = refl; ne_nil = λ h. cc }

root-IsLine : IsLine (request_line (codes "GET") (codes "/") (codes "H"))
root-IsLine = record {
  no_crlf = (refl, (refl, (refl, (refl, (refl, (refl, (refl, tt)))))));
  no_nul = refl;
  short = omega arith;
}

headers-AllHeaders : AllHeaders headers
headers-AllHeaders = (
  record {
    line = record { no_crlf = (refl, (refl, (refl, tt))); no_nul = refl; short = omega arith };
    name_plain = refl;
  },
  tt,
)

root-IsHead : IsHead (codes "GET") (codes "/") (codes "H") headers
root-IsHead = record {
  target_word = root-IsWord;
  version_word = version-IsWord;
  line = root-IsLine;
  headers = headers-AllHeaders;
}

bare-IsHead : IsHead (codes "GET") (codes "/") (codes "H") []
bare-IsHead = record {
  target_word = root-IsWord;
  version_word = version-IsWord;
  line = root-IsLine;
  headers = tt;
}

parse_data-Parsed_example :
    Parsed
      (parsed 7 get_socket false (codes "/") (codes "H") headers)
      []
      (parse_data (http_data 7 get_socket false))
parse_data-Parsed_example =
    parse_data-Parsed 7 get_socket false (codes "/") (codes "H") headers [] get_socket-Fits
      root-IsHead refl

parse_data-total_example : parse_data (http_data 7 get_socket false) ≢ out_of_fuel
parse_data-total_example = parse_data-total (http_data 7 get_socket false)

parse_one_line-LineRead_example :
    LineRead
      (http_data 7 get_socket false)
      (codes "GET / H")
      (codes "A=b" ++ crlf ++ crlf)
      (parse_one_line (http_data 7 get_socket false))
unfolding http_data c_string
parse_one_line-LineRead_example =
    parse_one_line-LineRead (http_data 7 get_socket false) (codes "GET / H")
      (codes "A=b" ++ crlf ++ crlf) (http_data-IsSound 7 get_socket false get_socket-Fits) refl
      (refl, (refl, (refl, (refl, (refl, (refl, (refl, tt))))))) (omega arith)

abbrev header_socket : List Recv
header_socket = some (codes "A=b" ++ crlf) ∷ some (crlf ++ codes "x") ∷ []

abbrev short_socket : List Recv
short_socket = some (codes "GET" ++ crlf) ∷ []

parse_start_line-fault_example :
    parse_start_line (http_data 7 short_socket false) ≡ fault out_of_bounds
unfolding http_data
parse_start_line-fault_example =
    parse_start_line-fault (http_data 7 short_socket false) (codes "GET") [] is_get (inl refl)
      (http_data-IsSound 7 short_socket false (omega arith, tt)) refl refl
      (record { no_crlf = (refl, (refl, (refl, tt))); no_nul = refl; short = omega arith }) refl

abbrev host_socket : List Recv
host_socket = some (codes "GET / H" ++ crlf ++ codes "Host: a" ++ crlf) ∷ []

parse_data-fault_example : parse_data (http_data 7 host_socket false) ≡ fault out_of_bounds
parse_data-fault_example =
    parse_data-fault 7 host_socket false (codes "/") (codes "H") [] (codes "Host: a") []
      (omega arith, tt) bare-IsHead
      (record {
        no_crlf = (refl, (refl, (refl, (refl, (refl, (refl, (refl, tt)))))));
        no_nul = refl;
        short = omega arith;
      })
      (λ h. cc) refl refl

abbrev many : ℕ → Bytes
many n = replicate n b'a'

many-NoCrlf : (n : ℕ) → NoCrlf b'a' (many n)
many-NoCrlf zero = tt
many-NoCrlf (suc n) = (refl, many-NoCrlf n)

parse_one_line_overrun_example :
    parse_one_line (http_data 7 (some (many 257) ∷ []) false) ≡ fault out_of_bounds
unfolding http_data
parse_one_line_overrun_example =
    parse_one_line_overrun (http_data 7 (some (many 257) ∷ []) false) (many 257) []
      (http_data-IsSound 7 (some (many 257) ∷ []) false (omega arith, tt)) refl
      (refl, many-NoCrlf 256) (omega arith)

string_split-words_example :
    string_split (codes "a  b") (codes "c" ∷ []) (codes " ")
    ≡ ok ((codes "c" ∷ []) ++ words (codes " ") [] (codes "a  b"))
string_split-words_example = string_split-words (codes "a  b") (codes "c" ∷ []) (codes " ")

abbrev pairs : Table
pairs = (codes "a", codes "1") ∷ (codes "b", codes "2") ∷ []

parse_string_param-encode_example :
    parse_string_param (encode pairs) (http_data 7 [] false)
    ≡ ok (record (http_data 7 [] false) {
      client_param_data =
          some (store_keys pairs (table_of (http_data 7 [] false).client_param_data));
    })
parse_string_param-encode_example =
    parse_string_param-encode pairs (http_data 7 [] false)
      (refl, refl, refl, (refl, refl, refl, tt))

abbrev posted : Table
posted = (codes "a", codes "1") ∷ (codes "b", codes "2") ∷ []

abbrev post_headers : List Header
post_headers = record { name = codes "Content-Length"; value = codes " 7" } ∷ []

-- A request that is cut behind its first parameter.
abbrev post_socket : List Recv
post_socket =
    some (head (codes "POST") (codes "/") (codes "H") post_headers ++ codes "a=1")
    ∷ some (codes "&b=2!")
    ∷ []

post-IsHead : IsHead (codes "POST") (codes "/") (codes "H") post_headers
post-IsHead = record {
  target_word = root-IsWord;
  version_word = version-IsWord;
  line = record {
    no_crlf = (refl, (refl, (refl, (refl, (refl, (refl, (refl, (refl, tt))))))));
    no_nul = refl;
    short = omega arith;
  };
  headers = (
    record {
      line = record {
        no_crlf = (
          refl,
          (
            refl,
            (
              refl,
              (
                refl,
                (
                  refl,
                  (
                    refl,
                    (
                      refl,
                      (
                        refl,
                        (refl, (refl, (refl, (refl, (refl, (refl, (refl, (refl, (refl, tt))))))))),
                      ),
                    ),
                  ),
                ),
              ),
            ),
          ),
        );
        no_nul = refl;
        short = omega arith;
      };
      name_plain = refl;
    },
    tt,
  );
}

parse_data-BodyTaken_example :
    BodyTaken
      (http_data 7 post_socket false)
      (with_head 7 post_socket false (codes "/") (codes "H") post_headers)
      posted
      (codes "a=1&b=2")
      (codes "!")
      (parse_data (http_data 7 post_socket false))
unfolding http_data numeral_content_length store_header header_field
parse_data-BodyTaken_example =
    parse_data-BodyTaken 7 post_socket false (codes "/") (codes "H") post_headers posted
      (codes "a=1&b=2") (codes "!") (omega arith, (omega arith, tt)) post-IsHead refl refl
      (omega arith) (omega arith) refl (refl, refl, refl, (refl, refl, refl, tt)) refl
