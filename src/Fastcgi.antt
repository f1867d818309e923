-- ===== src/Fastcgi.antt =====
-- proxy/fastcgi.rs (src/proxy/fastcgi.rs): the records of the FastCGI protocol, written and read.
-- A byte is a number below 256. The stream is the list of bytes sent or still to be read, and
-- `read_exact` fails where it holds fewer. `HashMap` parameters are a list of pairs in the order
-- of iteration.
use miwidothttp.Prelude.{
  ℕ, zero, suc, ◌+◌, ◌-◌, ◌*◌, ◌/◌, ◌%◌, ◌^◌, Bool, true, false, not, Option, none, some, List, [],
  ◌∷◌, ◌++◌, length, take, drop, replicate, leb, ltb, ◌==◌, bit_or, if◌then◌else◌, is_empty,
}
pub mod Packet
pub mod Params
pub mod Environment
mod Http
mod Script
pub mod Response
mod Tests

abbrev pub fcgi_version : ℕ
fcgi_version = 1

abbrev pub fcgi_begin_request : ℕ
fcgi_begin_request = 1

abbrev pub fcgi_end_request : ℕ
fcgi_end_request = 3

abbrev pub fcgi_params : ℕ
fcgi_params = 4

abbrev pub fcgi_stdin : ℕ
fcgi_stdin = 5

abbrev pub fcgi_stdout : ℕ
fcgi_stdout = 6

abbrev pub fcgi_stderr : ℕ
fcgi_stderr = 7

abbrev pub fcgi_responder : ℕ
fcgi_responder = 1

-- `x as u8`.
abbrev pub as_u8 : ℕ → ℕ
as_u8 x = x % 256

pub build_packet : ℕ → ℕ → List ℕ → List ℕ
build_packet packet_type request_id content =
    let content_length = length content in
    let padding_length = (8 - content_length % 8) % 8 in
    fcgi_version
    ∷ packet_type
    ∷ as_u8 (request_id / 256)
    ∷ as_u8 request_id
    ∷ as_u8 (content_length / 256)
    ∷ as_u8 content_length
    ∷ as_u8 padding_length
    ∷ 0
    ∷ (content ++ replicate padding_length 0)

-- The bytes of `send_begin_request`.
pub begin_request : ℕ → List ℕ
begin_request request_id =
    fcgi_version
    ∷ fcgi_begin_request
    ∷ as_u8 (request_id / 256)
    ∷ as_u8 request_id
    ∷ 0
    ∷ 8
    ∷ 0
    ∷ 0
    ∷ as_u8 (fcgi_responder / 256)
    ∷ as_u8 fcgi_responder
    ∷ 0
    ∷ 0
    ∷ 0
    ∷ 0
    ∷ 0
    ∷ 0
    ∷ []

-- The length of a key or of a value, in one byte or in four.
pub encode_length : ℕ → List ℕ
encode_length n =
    if ltb n 128
    then n ∷ []
    else (as_u8 (bit_or (n / 16777216) 128) ∷ as_u8 (n / 65536) ∷ as_u8 (n / 256) ∷ as_u8 n ∷ [])

pub encode_params : List (List ℕ × List ℕ) → List ℕ
encode_params [] = []
encode_params ((key, value) ∷ params) =
    encode_length (length key)
    ++ (encode_length (length value) ++ (key ++ (value ++ encode_params params)))

-- `data.chunks(65535)`: pieces of that length, the last one shorter; none of an empty slice. The
-- fuel is the length of the data.
pub chunks : ℕ → List ℕ → List (List ℕ)
chunks zero bytes = []
chunks (suc fuel) [] = []
chunks (suc fuel) (b ∷ bytes) = take 65535 (b ∷ bytes) ∷ chunks fuel (drop 65535 (b ∷ bytes))

-- One record for each chunk, as in the loops of `send_params` and `send_stdin`.
pub send_chunks : ℕ → ℕ → List (List ℕ) → List ℕ
unfolding build_packet
send_chunks packet_type request_id [] = []
send_chunks packet_type request_id (c ∷ cs) =
    build_packet packet_type request_id c ++ send_chunks packet_type request_id cs

pub send_params : ℕ → List (List ℕ × List ℕ) → List ℕ
unfolding encode_params chunks send_chunks
send_params request_id params =
    let param_bytes = encode_params params in
    send_chunks fcgi_params request_id (chunks (length param_bytes) param_bytes)

pub send_stdin : ℕ → List ℕ → List ℕ
unfolding chunks send_chunks
send_stdin request_id bytes = send_chunks fcgi_stdin request_id (chunks (length bytes) bytes)

-- All that `handle_request` writes before it reads the response.
pub send_request : ℕ → List (List ℕ × List ℕ) → List ℕ → List ℕ
unfolding begin_request send_params send_stdin build_packet
send_request request_id params body =
    begin_request request_id
    ++ (send_params request_id params
        ++ (build_packet fcgi_params request_id []
            ++ (send_stdin request_id body ++ build_packet fcgi_stdin request_id [])))

pub data ReadError : Type 0 where
  unexpected_eof invalid_version out_of_fuel : ReadError

pub data Read (A : Type 0) : Type 0 where
  ok : A → Read A
  err : ReadError → Read A

-- A buffer of `n` bytes from the stream, with the rest.
pub read_exact : ℕ → List ℕ → Read (List ℕ × List ℕ)
read_exact n stream =
    if leb n (length stream) then ok (take n stream, drop n stream) else err unexpected_eof

-- What the loop of `read_response` has collected.
pub record Collected : Type 0 where
  pub stdout_data : List ℕ
  pub stderr_data : List ℕ

pub collect : ℕ → List ℕ → Collected → Collected
collect record_type content c =
    if record_type == fcgi_stdout
    then record c { stdout_data = c.stdout_data ++ content }
    else (if record_type == fcgi_stderr
        then record c { stderr_data = c.stderr_data ++ content }
        else c)

-- The loop of `read_response`, which ends by an END_REQUEST record. A record of another request is
-- passed over by its header alone, as in the source. Each round reads a header, so the length of
-- the stream is fuel enough.
pub read_records : ℕ → ℕ → List ℕ → Collected → Read (Collected × List ℕ)
unfolding collect read_exact
read_records zero request_id stream c = err out_of_fuel
read_records (suc fuel) request_id
      (version ∷ record_type ∷ id_1 ∷ id_0 ∷ length_1 ∷ length_0 ∷ padding_length ∷ reserved ∷ rest)
      c =
    let skip = read_records fuel request_id rest c in
    if version == fcgi_version
    then (if id_1 * 256 + id_0 == request_id
        then elim (read_exact (length_1 * 256 + length_0) rest) [
          | err e ↦ err e
          | ok (content, rest') ↦ elim (read_exact padding_length rest') [
            | err e ↦ err e
            | ok (padding, rest'') ↦
                let more = read_records fuel request_id rest'' (collect record_type content c) in
                if record_type == fcgi_end_request then ok (c, rest'') else more
          ]
        ]
        else skip)
    else err invalid_version
read_records (suc fuel) request_id short c = err unexpected_eof

pub read_response : ℕ → List ℕ → Read (Collected × List ℕ)
unfolding read_records
read_response request_id stream =
    read_records (suc (length stream)) request_id stream
      (record { stdout_data = []; stderr_data = [] })
