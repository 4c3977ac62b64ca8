-- ===== src/Responser/Tests.antt =====
-- Answers of src/Responser.cpp.
use lxc_http_server.Common.{
  ℕ, zero, suc, ◌+◌, ◌*◌, ◌<◌, ◌≤◌, ◌≡◌, refl, List, [], ◌∷◌, ◌++◌, Bool, true, false, some, none,
  Bytes, text_eq, codes, length, ok, fault, out_of_bounds, arith, replicate, ltb, leb,
  if◌then◌else◌, pos,
}
use lxc_http_server.Http.{HttpData, http_data, Recv}
use lxc_http_server.Http.Parse.{parse_data}
use lxc_http_server.Http.Parse.Request.{IsHead, head}
use lxc_http_server.Http.Strings.{elem, numeral_content_length}
use lxc_http_server.Responser.{
  percent_d, Peer, regular, static_head, send_static_file_to_client, first_line_200,
}
use lxc_http_server.Responser.Length.{length_line, numeral_content_length-parse_data}
use lxc_http_server.Responser.Cgi.{execute_cgi, started}
use lxc_http_server.Responser.Binary.{Piece, joined, fronts, send_static-fronts}
use lxc_http_server.Responser.Reading.{output, reads}
use lxc_http_server.Responser.Output.{execute_cgi-output, execute_cgi-overflow}
use lxc_http_server.Responser.Descriptors.{Pipe, IsPipe, cgi_requests, cgi_requests-bounded}
use lxc_http_server.Responser.Pages.{server_name}

abbrev page_request : HttpData
page_request = record (http_data 7 [] false) { url_resource_type = codes "html" }

abbrev peer : Peer
peer = record { sent = []; results = [] }

abbrev length_socket : List Recv
length_socket = some (head (codes "GET") (codes "/") (codes "H") (length_line 7 ∷ [])) ∷ []

length-IsHead : IsHead (codes "GET") (codes "/") (codes "H") (length_line 7 ∷ [])
unfolding percent_d
length-IsHead = record {
  target_word = record { plain = refl; ne_nil = λ h. cc };
  version_word = record { plain = refl; ne_nil = λ h. cc };
  line = record {
    no_crlf = (refl, (refl, (refl, (refl, (refl, (refl, (refl, tt)))))));
    no_nul = refl;
    short = omega arith;
  };
  headers = (
    record {
      line = record {
        no_crlf = (
          refl,
          (
            refl,
            (
              refl,
              (
                refl,
                (
                  refl,
                  (
                    refl,
                    (
                      refl,
                      (
                        refl,
                        (refl, (refl, (refl, (refl, (refl, (refl, (refl, (refl, (refl, tt))))))))),
                      ),
                    ),
                  ),
                ),
              ),
            ),
          ),
        );
        no_nul = refl;
        short = omega arith;
      };
      name_plain = refl;
    },
    tt,
  );
}

numeral_content_length-parse_data_example :
    (d : HttpData) × (parse_data (http_data 7 length_socket false) ≡ ok d)
    × (numeral_content_length d ≡ ok (pos 7))
unfolding percent_d
numeral_content_length-parse_data_example =
    numeral_content_length-parse_data 7 length_socket false (codes "/") (codes "H") [] 7 []
      (omega arith) (omega arith, tt) length-IsHead refl

abbrev picture_request : HttpData
picture_request = record (http_data 7 [] false) { url_resource_type = codes "png" }

abbrev picture : List Piece
picture = record { front = codes "PNG"; behind = codes "data" } ∷ []

send_static-fronts_example :
    send_static_file_to_client (regular (joined picture)) picture_request [] peer
    ≡ ok (record peer {
      sent = peer.sent ++ (static_head picture_request (length (joined picture)) ++ fronts picture);
    })
unfolding text_eq
send_static-fronts_example =
    send_static-fronts picture_request picture [] peer refl (refl, omega arith) refl

abbrev cgi_request : HttpData
cgi_request = record (http_data 7 [] false) {
  url_resource_type = codes "cgi";
  client_param_data = some ((codes "a", codes "1") ∷ []);
}

execute_cgi-output_example :
    execute_cgi (λ url env input. started (reads (codes "<html>" ∷ []))) cgi_request peer
    ≡ ok (record peer { sent = peer.sent ++ (first_line_200 ++ output (codes "<html>" ∷ [])) })
unfolding first_line_200 server_name
execute_cgi-output_example =
    execute_cgi-output (λ url env input. started (reads (codes "<html>" ∷ []))) cgi_request
      (codes "a", codes "1") [] (codes "<html>" ∷ []) peer refl refl (omega arith, refl, tt)
      (omega arith) refl

abbrev long_output : List Bytes
long_output = replicate 1024 b' ' ∷ replicate 1024 b' ' ∷ []

replicate-AllText : (n : ℕ) → elem 0 (replicate n b' ') ≡ false
replicate-AllText zero = refl
replicate-AllText (suc n) = replicate-AllText n

execute_cgi-overflow_example :
    execute_cgi (λ url env input. started (reads long_output)) cgi_request peer
    ≡ fault out_of_bounds
execute_cgi-overflow_example =
    execute_cgi-overflow (λ url env input. started (reads long_output)) cgi_request
      (codes "a", codes "1") [] long_output peer refl refl
      (omega arith, replicate-AllText 1024, (omega arith, replicate-AllText 1024, tt)) (omega arith)

-- A kernel that gives the two numbers behind the greatest that is open, up to eight descriptors.
greatest : List ℕ → ℕ
greatest [] = 0
greatest (x ∷ xs) = let g = greatest xs in if ltb g x then x else g

abbrev small_pipe : Pipe
small_pipe open_fds =
    if leb (2 + length open_fds) 8
    then some (suc (greatest open_fds), suc (suc (greatest open_fds)))
    else none

elem-above : (fd : ℕ) (xs : List ℕ) → greatest xs < fd → elem fd xs ≡ false
unfolding greatest
elem-above fd [] h = refl
elem-above fd (x ∷ xs) h = ground (arith, elem-above fd xs)

small_pipe-IsPipe : IsPipe small_pipe 8
small_pipe-IsPipe = record {
  fresh = λ open_fds a b e. ground (
    arith,
    e,
    elem-above (suc (greatest open_fds)) open_fds,
    elem-above (suc (suc (greatest open_fds))) open_fds,
  );
  limited = λ open_fds a b e. ground (arith, e);
}

abbrev standard : List ℕ
standard = 0 ∷ 1 ∷ 2 ∷ []

abbrev requests : List (HttpData × Bool)
requests = replicate 5 (cgi_request, true)

cgi_requests-bounded_example :
    (2 * (cgi_requests small_pipe requests standard).0 + length standard
      ≤ length (cgi_requests small_pipe requests standard).1)
    × (length (cgi_requests small_pipe requests standard).1 ≤ 8)
cgi_requests-bounded_example =
    cgi_requests-bounded small_pipe 8 requests standard small_pipe-IsPipe (omega arith)

-- The second of them finds no pipe for its output.
one_started : (cgi_requests small_pipe requests standard).0 ≡ 1
unfolding cgi_requests greatest
one_started = refl
