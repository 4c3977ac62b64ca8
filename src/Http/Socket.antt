-- ===== src/Http/Socket.antt =====
-- `HttpData::readRawDataFromSocket` and `dataBufferEmpty` of src/HttpData.cpp and include/HttpData.h,
-- and the number of bytes that are still to be read.
pub mod Stream
pub mod Refill
use lxc_http_server.Common.{
  ℕ, ◌+◌, ◌-◌, List, [], ◌∷◌, ◌++◌, none, some, Bool, ◌||◌, Bytes, length, drop, ltb, leb, Outcome,
  ok, throws, blocks, socket_closed, runtime_error,
}
use lxc_http_server.Http.{Recv, HttpData, httpdata_buffersize}

unfoldable pub data_buffer_empty : HttpData → Bool
data_buffer_empty d = ltb d.data_end_index d.read_index || leb httpdata_buffersize d.read_index

-- What the kernel has written over the front of the buffer.
abbrev pub overwrite : Bytes → Bytes → Bytes
overwrite chunk buffer = chunk ++ drop (length chunk) buffer

-- By the next result of `recv`; with none left, the call waits for ever.
unfoldable pub receive : List Recv → HttpData → Outcome HttpData
receive [] d = blocks
receive (none ∷ rest) d = throws runtime_error
receive (some [] ∷ rest) d = throws socket_closed
receive (some (c ∷ chunk) ∷ rest) d = ok (record d {
  socket = rest;
  data_buffer = overwrite (c ∷ chunk) d.data_buffer;
  read_index = 0;
  data_end_index = length (c ∷ chunk) - 1;
})

unfoldable pub read_raw_data_from_socket : HttpData → Outcome HttpData
unfolding receive
read_raw_data_from_socket d = receive d.socket d

-- The bytes that `recv` hands over before it fails, reports the end, or blocks.
abbrev pub incoming : List Recv → Bytes
incoming [] = []
incoming (none ∷ rest) = []
incoming (some [] ∷ rest) = []
incoming (some (c ∷ chunk) ∷ rest) = (c ∷ chunk) ++ incoming rest

-- An upper bound of the bytes that are still to be read: the fuel of the loops.
abbrev pub pending : HttpData → ℕ
pending d = (d.data_end_index + 1 - d.read_index) + length (incoming d.socket)
