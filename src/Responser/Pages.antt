-- ===== src/Responser/Pages.antt =====
-- src/Pages.cpp: the texts of the answers.
use lxc_http_server.Common.{◌++◌, Bytes, codes, crlf}

unfoldable pub server_name : Bytes
server_name = codes "Server: mikuzip01 WebServer/alpha (Linux)" ++ crlf

unfoldable pub not_found_page : Bytes
not_found_page =
    codes "<html>"
    ++ crlf
    ++ codes "<head><title>404 Not Found</title></head>"
    ++ crlf
    ++ codes "<body bgcolor=\"white\">"
    ++ crlf
    ++ codes "<center><h1>404 Not Found</h1></center>"
    ++ crlf
    ++ codes "<hr><center>mikuzip01 WebServer/alpha (Linux)</center>"
    ++ crlf
    ++ codes "</body>"
    ++ crlf
    ++ codes "</html>"
    ++ crlf
