-- ===== src/Http.antt =====
-- include/HttpData.h and the constructor in src/HttpData.cpp: the state of one request's parser.
-- A descriptor is an `int`, written as its 32-bit pattern.
pub mod Socket
pub mod Line
pub mod Strings
pub mod Params
pub mod Start
pub mod Header
pub mod Body
pub mod Parse
mod Tests
use lxc_http_server.Common.{
  ℕ, Bool, false, List, [], ◌-◌, Option, none, some, Bytes, codes, replicate,
}

-- What one call of `recv` returns: -1, or the bytes that it put into the buffer (0 bytes when the
-- peer has closed the connection).
abbrev pub Recv : Type 0
Recv = Option Bytes

pub data RequestMethod : Type 0 where
  unsupport get post : RequestMethod

-- The hash table of parameters.
abbrev pub Table : Type 0
Table = List (Bytes × Bytes)

abbrev pub httpdata_buffersize : ℕ
httpdata_buffersize = 1024

abbrev pub line_buffersize : ℕ
line_buffersize = 256

abbrev pub resource_root : Bytes
resource_root = codes "www"

abbrev pub nullinfo : Bytes
nullinfo = codes "NULL"

-- The fields of the class. `socket` is not a field: it is what the coming calls of `recv` on
-- `client_socket` will return, in order.
pub record HttpData : Type 0 where
  pub client_socket : ℕ
  pub socket : List Recv
  pub data_buffer : Bytes
  pub read_index : ℕ
  pub data_end_index : ℕ
  pub prev : ℕ
  pub request_method : RequestMethod
  pub request_method_string : Bytes
  pub url : Bytes
  pub url_resource_type : Bytes
  pub version : Bytes
  pub host : Option Bytes
  pub user_agent : Option Bytes
  pub accept : Option Bytes
  pub accept_language : Option Bytes
  pub accept_encoding : Option Bytes
  pub connection : Option Bytes
  pub upgrade_insecure_requests : Option Bytes
  pub content_type : Option Bytes
  pub content_length : Option Bytes
  pub client_param_data : Option Table
  pub m_keep_connection : Bool
  pub m_bad_request : Bool

-- The constructor. It does not initialise `m_keepConnection`: `left_over` is what the memory held.
unfoldable pub http_data : ℕ → List Recv → Bool → HttpData
http_data client_socket socket left_over = record {
  client_socket = client_socket;
  socket = socket;
  data_buffer = replicate httpdata_buffersize 0;
  read_index = httpdata_buffersize;
  data_end_index = httpdata_buffersize - 1;
  prev = 0;
  request_method = unsupport;
  request_method_string = [];
  url = [];
  url_resource_type = [];
  version = [];
  host = none;
  user_agent = none;
  accept = none;
  accept_language = none;
  accept_encoding = none;
  connection = none;
  upgrade_insecure_requests = none;
  content_type = none;
  content_length = none;
  client_param_data = none;
  m_keep_connection = left_over;
  m_bad_request = false;
}
