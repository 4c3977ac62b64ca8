-- ===== src/AsyncLoger/Clock.antt =====
-- The time in the lines of src/AsyncLoger.cpp, the name of its file, and `logInfoTempVar`. What
-- `strftime` writes for a `time_t` by the format "%Y%m%d%H%M%S" in local time is a parameter.
use lxc_http_server.Common.{
  ℕ, ◌-◌, ◌≡◌, sym, set-last, ap, ◌∙◌, [], ◌∷◌, ◌++◌, append_assoc, append-nil, Bytes, codes,
  length, length-append, set, drop, drop_of_length-le, c_string, arith, Outcome,
}
use lxc_http_server.Http.Socket.{overwrite}
use lxc_http_server.Http.Strings.{elem}
use lxc_http_server.Common.{false}
use lxc_http_server.Responser.Nul.{c_string-array}
use lxc_http_server.AsyncLoger.{AsyncLoger, date_string_length, log_info}

abbrev pub LocalTime : Type 0
LocalTime = ℕ → Bytes

-- `time_t time(0)` declares a variable, with the value 0. The text is at most 14 characters long.
unfoldable pub sprint_cur_time : LocalTime → Bytes → Bytes
sprint_cur_time local_time str = overwrite (local_time 0 ++ 0 ∷ []) str

-- The 15 characters that stand in front of a line; `left_over` is what the array held.
unfoldable pub time_string : LocalTime → Bytes → Bytes
unfolding sprint_cur_time
time_string local_time left_over =
    set (sprint_cur_time local_time left_over) (date_string_length - 1) b' '

-- The name that the constructor opens.
unfoldable pub file_name : LocalTime → Bytes → Bytes → Bytes
unfolding sprint_cur_time c_string
file_name local_time log_name tmp_buf =
    log_name ++ (c_string (sprint_cur_time local_time tmp_buf) ++ codes ".log")

-- The line is a copy.
unfoldable pub log_info_temp_var : AsyncLoger → Bytes → Bytes → Outcome AsyncLoger
unfolding log_info
log_info_temp_var l stamp logline = log_info l stamp logline

-- For a text of 14 characters the array is that text and a space.
pub time_string-text :
    (local_time : LocalTime) (left_over : Bytes)
    → length (local_time 0) ≡ 14
    → length left_over ≡ date_string_length
    → time_string local_time left_over ≡ local_time 0 ++ b' ' ∷ []
unfolding time_string sprint_cur_time
time_string-text local_time left_over h k =
    let text = local_time 0 in
    let n = length-append text (0 ∷ []) in
    let whole = drop_of_length-le (length (text ++ 0 ∷ [])) left_over (omega (arith, n, h, k)) in
    ap (λ rest. set ((text ++ 0 ∷ []) ++ rest) 14 b' ') whole
    ∙ ap (λ t. set t 14 b' ') (append-nil (text ++ 0 ∷ []))
    ∙ ap (λ i. set (text ++ 0 ∷ []) i b' ') (sym h)
    ∙ set-last text 0 b' '

-- Whenever the logger is made, its file has the name of the epoch.
pub file_name-epoch :
    (local_time : LocalTime) (log_name tmp_buf : Bytes)
    → elem 0 (local_time 0) ≡ false
    → file_name local_time log_name tmp_buf ≡ log_name ++ (local_time 0 ++ codes ".log")
unfolding file_name sprint_cur_time
file_name-epoch local_time log_name tmp_buf h =
    let rest = drop (length (local_time 0 ++ 0 ∷ [])) tmp_buf in
    ap (λ text. log_name ++ (c_string text ++ codes ".log"))
      (append_assoc (local_time 0) (0 ∷ []) rest)
    ∙ ap (λ text. log_name ++ (text ++ codes ".log")) (c_string-array (local_time 0) rest h)
