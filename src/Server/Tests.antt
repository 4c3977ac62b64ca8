-- ===== src/Server/Tests.antt =====
-- Runs of the handler on a page, and on a peer that has gone.
use lxc_http_server.Common.{
  ◌≡◌, refl, text_eq, List, [], ◌∷◌, ◌++◌, some, codes, crlf, length, line_feed, ok, throws,
  socket_closed, false, arith,
}
use lxc_http_server.Http.{HttpData, Recv}
use lxc_http_server.Http.Socket.Stream.{SameFields}
use lxc_http_server.Http.Start.{resource_type}
use lxc_http_server.Http.Parse.Request.{IsHead, parsed}
use lxc_http_server.Timer.{timer}
use lxc_http_server.Responser.{Peer, regular, missing, not_found, static_head}
use lxc_http_server.Server.Missing.{httpserver-missing}
use lxc_http_server.Responser.Cgi.{no_pipe}
use lxc_http_server.Server.{World, keep_or_close, httpserver}
use lxc_http_server.Server.Exceptions.{Throws, httpserver-Throws}
use lxc_http_server.Server.Handler.{httpserver-page}

abbrev world : World
world = record {
  files = λ path. regular (codes "<html>" ++ line_feed ∷ codes "x");
  cgi = λ path env input. no_pipe;
  memory_index_page = [];
  left_over_flag = false;
  left_over_buf = [];
  now = 100;
}

abbrev silent : Peer
silent = record { sent = []; results = [] }

abbrev page_socket : List Recv
page_socket = some (codes "GET / ") ∷ some (codes "H" ++ crlf ++ crlf) ∷ []

page-IsHead : IsHead (codes "GET") (codes "/") (codes "H") []
page-IsHead = record {
  target_word = record { plain = refl; ne_nil = λ h. cc };
  version_word = record { plain = refl; ne_nil = λ h. cc };
  line = record {
    no_crlf = (refl, (refl, (refl, (refl, (refl, (refl, (refl, tt)))))));
    no_nul = refl;
    short = omega arith;
  };
  headers = tt;
}

httpserver-page_example :
    (d : HttpData) × SameFields (parsed 7 page_socket false (codes "/") (codes "H") []) d
    × (httpserver world (timer 15 10) 7 page_socket silent
        ≡ ok (
            keep_or_close world d (timer 15 10) (record silent {
              sent =
                  silent.sent
                  ++ static_head d (length (codes "<html>" ++ line_feed ∷ codes "x"))
                  ++ (codes "<html>" ++ line_feed ∷ []);
            })))
unfolding resource_type text_eq
httpserver-page_example =
    httpserver-page world (timer 15 10) 7 page_socket silent (codes "/") (codes "H") [] []
      (codes "<html>") (codes "x") (omega arith, (omega arith, tt)) page-IsHead refl refl refl
      (omega arith) refl refl refl

httpserver-Throws_example :
    Throws (λ e. e ≡ socket_closed) (httpserver world (timer 15 10) 7 page_socket silent)
    × (httpserver world (timer 15 10) 7 (some [] ∷ page_socket) silent ≡ throws socket_closed)
httpserver-Throws_example = httpserver-Throws world (timer 15 10) 7 page_socket silent

abbrev empty_world : World
empty_world = record world { files = λ path. missing }

httpserver-missing_example :
    httpserver empty_world (timer 15 10) 7 page_socket silent
    ≡ ok (record {
      peer = some (record silent { sent = silent.sent ++ not_found });
      timer = timer 15 10;
      closed = false;
    })
unfolding resource_type text_eq
httpserver-missing_example =
    httpserver-missing empty_world (timer 15 10) 7 page_socket silent (codes "/") (codes "H") [] []
      (omega arith, (omega arith, tt)) page-IsHead refl refl refl refl
