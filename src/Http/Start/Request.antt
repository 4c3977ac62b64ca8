-- ===== src/Http/Start/Request.antt =====
-- `parseStartLine` on a request line of three words.
use lxc_http_server.Common.{
  ◌≡◌, ◌≢◌, refl, ap, ◌∙◌, false, List, [], ◌∷◌, ◌++◌, Bytes, codes, append_assoc, append-nil,
  arith, if◌then◌else◌, text_eq, crlf, inl, inr, ◌⊎◌, Outcome, ok, fault, out_of_bounds,
}
use lxc_http_server.Http.{HttpData, RequestMethod, get, post, resource_root}
use lxc_http_server.Http.Socket.Stream.{stream, IsSound, SameFields}
use lxc_http_server.Http.Line.{parse_one_line}
use lxc_http_server.Http.Line.Stream.{LineRead}
use lxc_http_server.Http.Strings.{elem}
use lxc_http_server.Http.Strings.Words.{words, flush, string_split-words}
use lxc_http_server.Http.Params.Values.{parse_url_data_param_list-id}
use lxc_http_server.Http.Header.Lines.{IsLine, parse_one_line-IsLine}
use lxc_http_server.Http.Start.{
  is_unsupport, get_request_method, resource_type, set_url, parse_start_line,
}

abbrev space : Bytes
space = codes " "

-- A word: no space in it, and not empty.
pub record IsWord (w : Bytes) : Type 0 where
  pub plain : elem b' ' w ≡ false
  pub ne_nil : w ≢ []

-- Words of a word: it, then those behind the delimiter.
words-word :
    (pre w s : Bytes)
    → elem b' ' w ≡ false
    → words space pre (w ++ (b' ' ∷ s)) ≡ flush (pre ++ w) (words space [] s)
words-word pre [] s h = rw append-nil
words-word pre (c ∷ w) s h =
    let n : elem c space ≡ false = ground arith in
    rw (n, words-word (pre ++ c ∷ []) w s (ground arith), append_assoc)

words-last : (pre w : Bytes) → elem b' ' w ≡ false → words space pre w ≡ flush (pre ++ w) []
words-last pre [] h = rw append-nil
words-last pre (c ∷ w) h =
    let n : elem c space ≡ false = ground arith in
    rw (n, words-last (pre ++ c ∷ []) w (ground arith), append_assoc)

flush-word : (w : Bytes) (rest : List Bytes) → w ≢ [] → flush w rest ≡ w ∷ rest
flush-word [] rest n = absurd (n refl)
flush-word (c ∷ w) rest n = refl

abbrev pub request_line : Bytes → Bytes → Bytes → Bytes
request_line method target version = method ++ (b' ' ∷ target ++ (b' ' ∷ version))

words-request_line :
    (m t v : Bytes)
    → IsWord m
    → IsWord t
    → IsWord v
    → words space [] (request_line m t v) ≡ m ∷ t ∷ v ∷ []
words-request_line m t v wm wt wv = rw (
  words-word [] m (t ++ (b' ' ∷ v)) wm.plain,
  words-word [] t v wt.plain,
  words-last [] v wv.plain,
  flush-word v [] wv.ne_nil,
  flush-word t (v ∷ []) wt.ne_nil,
  flush-word m (t ∷ v ∷ []) wm.ne_nil,
)

-- `/` stands for the index page.
abbrev pub page : Bytes → Bytes
page target = if text_eq target (codes "/") then codes "/index.html" else target

-- The parser with the fields that a start line sets.
abbrev pub started : RequestMethod → Bytes → Bytes → Bytes → HttpData → HttpData
started method name target version d = record d {
  request_method = method;
  request_method_string = name;
  url = resource_root ++ page target;
  url_resource_type = resource_type (page target);
  version = version;
}

set_url-started :
    (m t v : Bytes) (d : HttpData)
    → set_url (m ∷ t ∷ v ∷ []) d
      ≡ ok (record d {
        url = resource_root ++ page t;
        url_resource_type = resource_type (page t);
        version = v;
      })
unfolding set_url
set_url-started m t v d = rw parse_url_data_param_list-id

-- `GET` and `POST` requests.
pub data IsMethod : Bytes → RequestMethod → Type 0 where
  is_get : IsMethod (codes "GET") get
  is_post : IsMethod (codes "POST") post

get_request_method-IsMethod :
    {name : Bytes} {method : RequestMethod} (rest : List Bytes) (d : HttpData)
    → IsMethod name method
    → get_request_method (name ∷ rest) d
      ≡ record d { request_method = method; request_method_string = name }
unfolding get_request_method
get_request_method-IsMethod rest d is_get = refl
get_request_method-IsMethod rest d is_post = refl

IsMethod-IsWord : {name : Bytes} {method : RequestMethod} → IsMethod name method → IsWord name
IsMethod-IsWord is_get = record { plain = refl; ne_nil = λ e. cc }
IsMethod-IsWord is_post = record { plain = refl; ne_nil = λ e. cc }

pub IsMethod-supported :
    {name : Bytes} {method : RequestMethod} → IsMethod name method → is_unsupport method ≡ false
IsMethod-supported is_get = refl
IsMethod-supported is_post = refl

-- The start line has been read and stored, and `rest` is left to read.
abbrev pub Started :
    HttpData → RequestMethod → Bytes → Bytes → Bytes → Bytes → Outcome HttpData → Type 0
Started d method name target version rest r =
    (e : HttpData) × (r ≡ ok e)
    × IsSound e
    × (stream e ≡ rest)
    × (e.prev ≡ 0)
    × SameFields (started method name target version d) e

Started-read :
    {name : Bytes} {method : RequestMethod} (d : HttpData) (t v rest : Bytes)
    → IsMethod name method
    → IsWord t
    → IsWord v
    → d.m_bad_request ≡ false
    → LineRead d (request_line name t v) rest (parse_one_line d)
    → Started d method name t v rest (parse_start_line d)
unfolding parse_start_line
Started-read {name} {method} d t v rest m wt wv b (e, r, sound, s, p, same) =
    let not_bad : e.m_bad_request ≡ false = ap (λ (x : HttpData). x.m_bad_request) same ∙ b in
    (
      started method name t v e,
      rw
          (
            r,
            string_split-words (request_line name t v) [] space,
            words-request_line name t v (IsMethod-IsWord m) wt wv,
            get_request_method-IsMethod (t ∷ v ∷ []) e m,
            not_bad,
            IsMethod-supported m,
          )
          (set_url-started name t v (record e {
            request_method = method;
            request_method_string = name;
            m_bad_request = false;
          })),
      record { within = sound.within; bounded = sound.bounded; fits = sound.fits },
      s,
      p,
      ground (arith, same),
    )

-- When the parser is not marked bad and the unread bytes are `GET` or `POST`, a target and a version,
-- one space between them, in a line that fits the line buffer and holds no CRLF or NUL, the buffer's
-- indices are in range and `prev` is 0, `parse_start_line` sets the method, the url below `www` with
-- `/` taken as `/index.html`, its type and the version, changes no other field but those of the
-- buffer, and leaves exactly what follows the line unread.
pub parse_start_line-Started :
    {name : Bytes} {method : RequestMethod} (d : HttpData) (t v rest : Bytes)
    → IsMethod name method
    → IsWord t
    → IsWord v
    → IsSound d
    → d.prev ≡ 0
    → d.m_bad_request ≡ false
    → IsLine (request_line name t v)
    → stream d ≡ request_line name t v ++ (crlf ++ rest)
    → Started d method name t v rest (parse_start_line d)
parse_start_line-Started {name} d t v rest m wt wv sound p b l e =
    Started-read d t v rest m wt wv b
      (parse_one_line-IsLine d (request_line name t v) rest sound p l e)

-- With fewer words than three the parser reads past the end of its vector.
few_words :
    (d : HttpData) (name : Bytes) (method : RequestMethod) (line rest : Bytes)
    → IsMethod name method
    → (words space [] line ≡ name ∷ []) ⊎ ((t : Bytes) × (words space [] line ≡ name ∷ t ∷ []))
    → d.m_bad_request ≡ false
    → LineRead d line rest (parse_one_line d)
    → parse_start_line d ≡ fault out_of_bounds
unfolding parse_start_line set_url
few_words d name method line rest m (inl w) b (e, r, sound, s, p, same) =
    let not_bad : e.m_bad_request ≡ false = ap (λ (x : HttpData). x.m_bad_request) same ∙ b in
    rw (
      r,
      string_split-words line [] space,
      w,
      get_request_method-IsMethod [] e m,
      not_bad,
      IsMethod-supported m,
    )
few_words d name method line rest m (inr (t, w)) b (e, r, sound, s, p, same) =
    let not_bad : e.m_bad_request ≡ false = ap (λ (x : HttpData). x.m_bad_request) same ∙ b in
    rw (
      r,
      string_split-words line [] space,
      w,
      get_request_method-IsMethod (t ∷ []) e m,
      not_bad,
      IsMethod-supported m,
      parse_url_data_param_list-id,
    )

-- When the parser is not marked bad and the line to read is of one or two words, the first `GET` or
-- `POST`, fits the line buffer and holds no CRLF or NUL, the buffer's indices are in range and `prev`
-- is 0, `parse_start_line` reads past the end of the words.
pub parse_start_line-fault :
    {name : Bytes} {method : RequestMethod} (d : HttpData) (line rest : Bytes)
    → IsMethod name method
    → (words space [] line ≡ name ∷ []) ⊎ ((t : Bytes) × (words space [] line ≡ name ∷ t ∷ []))
    → IsSound d
    → d.prev ≡ 0
    → d.m_bad_request ≡ false
    → IsLine line
    → stream d ≡ line ++ (crlf ++ rest)
    → parse_start_line d ≡ fault out_of_bounds
parse_start_line-fault {name} {method} d line rest m w sound p b l e =
    few_words d name method line rest m w b (parse_one_line-IsLine d line rest sound p l e)
