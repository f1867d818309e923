-- ===== src/Proxy/Protocol.antt =====
-- proxy/mod.rs: `ProxyProtocol::parse`. A stream is the list of the bytes still to be read; the text
-- of a header is a list of characters by their codes. Of the crate's parts, `decode` is
-- `String::from_utf8_lossy`, and `parse_ip` and `parse_port` read one word each.
use miwidothttp.Prelude.{
  ℕ, zero, suc, ◌+◌, ◌*◌, ◌/◌, ◌%◌, Bool, true, false, not, ◌&&◌, ◌||◌, Option, none, some, List,
  [], ◌∷◌, ◌++◌, ltb, leb, ◌==◌, if◌then◌else◌, length, take, drop, replicate,
}

pub data ProxyCommand : Type 0 where
  local proxied : ProxyCommand

pub data ProxyFamily : Type 0 where
  inet inet6 unix : ProxyFamily

pub data ProxyTransport : Type 0 where
  stream dgram : ProxyTransport

-- `SocketAddr`, with the parts of its address.
pub record SocketAddr : Type 0 where
  pub ip : List ℕ
  pub port : ℕ

pub record ProxyProtocol : Type 0 where
  pub version : ℕ
  pub command : ProxyCommand
  pub family : ProxyFamily
  pub protocol : ProxyTransport
  pub src_addr : SocketAddr
  pub dest_addr : SocketAddr

-- How a parse ends: an error, no header, or a header.
pub data Parsed : Type 0 where
  failed : Parsed
  no_header : Parsed
  header : ProxyProtocol → Parsed

-- The characters of the property White_Space.
abbrev pub is_whitespace : ℕ → Bool
is_whitespace c =
    leb 9 c && leb c 13
    || c == 32
    || c == 133
    || c == 160
    || c == 5760
    || leb 8192 c && leb c 8202
    || c == 8232
    || c == 8233
    || c == 8239
    || c == 8287
    || c == 12288

abbrev pub flush : List ℕ → List (List ℕ)
flush [] = []
flush (c ∷ cs) = (c ∷ cs) ∷ []

-- `split_whitespace`, with the word that has begun. It passes over the ends that `trim` takes off.
unfoldable pub words_from : List ℕ → List ℕ → List (List ℕ)
words_from begun [] = flush begun
words_from begun (c ∷ cs) =
    let apart = words_from [] cs in
    let together = words_from (begun ++ c ∷ []) cs in
    if is_whitespace c then flush begun ++ apart else together

abbrev pub same_bytes : List ℕ → List ℕ → Bool
same_bytes [] [] = true
same_bytes [] (y ∷ ys) = false
same_bytes (x ∷ xs) [] = false
same_bytes (x ∷ xs) (y ∷ ys) = x == y && same_bytes xs ys

abbrev pub begins : List ℕ → List ℕ → Bool
begins xs [] = true
begins [] (y ∷ ys) = false
begins (x ∷ xs) (y ∷ ys) = x == y && begins xs ys

-- "PROXY", "TCP4" and "TCP6".
abbrev pub proxy_word : List ℕ
proxy_word = 80 ∷ 82 ∷ 79 ∷ 88 ∷ 89 ∷ []

abbrev pub tcp4_word : List ℕ
tcp4_word = 84 ∷ 67 ∷ 80 ∷ 52 ∷ []

abbrev pub tcp6_word : List ℕ
tcp6_word = 84 ∷ 67 ∷ 80 ∷ 54 ∷ []

-- b"\r\n\r\n\0\r\nQUIT\n".
abbrev pub signature : List ℕ
signature = 13 ∷ 10 ∷ 13 ∷ 10 ∷ 0 ∷ 13 ∷ 10 ∷ 81 ∷ 85 ∷ 73 ∷ 84 ∷ 10 ∷ []

-- The byte at a place; the buffer is long enough for each place that is read.
unfoldable pub byte_at : List ℕ → ℕ → ℕ
byte_at [] i = 0
byte_at (b ∷ bs) zero = b
byte_at (b ∷ bs) (suc i) = byte_at bs i

abbrev pub family_of : List ℕ → Option ProxyFamily
family_of word =
    if same_bytes word tcp4_word
    then some inet
    else (if same_bytes word tcp6_word then some inet6 else none)

-- The address at two places of the buffer.
unfoldable pub address_at : List ℕ → ℕ → ℕ → SocketAddr
address_at buf i j = record {
  ip = byte_at buf i ∷ byte_at buf (i + 1) ∷ byte_at buf (i + 2) ∷ byte_at buf (i + 3) ∷ [];
  port = byte_at buf j * 256 + byte_at buf (j + 1);
}

unfoldable pub parse_v2 : List ℕ → Parsed
parse_v2 buf =
    let version = byte_at buf 12 / 16 in
    let command = byte_at buf 12 % 16 in
    let family = byte_at buf 13 / 16 in
    let announced = byte_at buf 14 * 256 + byte_at buf 15 in
    if ltb (length buf) 16
    then no_header
    else (if not (version == 2) || ltb (length buf) (16 + announced)
        then no_header
        else (if family == 1
            then (if ltb announced 12
                then no_header
                else header record {
                  version = 2;
                  command = if command == 1 then proxied else local;
                  family = inet;
                  protocol = stream;
                  src_addr = address_at buf 16 24;
                  dest_addr = address_at buf 20 26;
                })
            else no_header))

module _ (parse_ip : List ℕ → Option (List ℕ)) (parse_port : List ℕ → Option ℕ) where
  -- The four `parse()?` of `parse_v1`.
  unfoldable pub parse_addresses : ProxyFamily → (a b c d : List ℕ) → Parsed
  parse_addresses family a b c d = elim (parse_ip a) [
    | none ↦ failed
    | some src_ip ↦ elim (parse_ip b) [
      | none ↦ failed
      | some dest_ip ↦ elim (parse_port c) [
        | none ↦ failed
        | some src_port ↦ elim (parse_port d) [
          | none ↦ failed
          | some dest_port ↦ header record {
            version = 1;
            command = proxied;
            family = family;
            protocol = stream;
            src_addr = record { ip = src_ip; port = src_port };
            dest_addr = record { ip = dest_ip; port = dest_port };
          }
        ]
      ]
    ]
  ]

  unfoldable pub parse_words : List (List ℕ) → Parsed
  parse_words (w ∷ family_word ∷ a ∷ b ∷ c ∷ d ∷ more) =
      if same_bytes w proxy_word
      then elim (family_of family_word) [
        | none ↦ no_header
        | some family ↦ parse_addresses family a b c d
      ]
      else no_header
  parse_words _ = no_header

  unfoldable pub parse_v1 : List ℕ → Parsed
  parse_v1 text = parse_words (words_from [] text)

  -- The bytes left on the stream, and the header.
  unfoldable pub parse : (decode : List ℕ → List ℕ) → List ℕ → List ℕ × Parsed
  unfolding parse_v1 parse_v2
  parse decode bytes =
      let first = take 16 bytes in
      let buf = first ++ replicate 92 0 in
      let text = decode first in
      if ltb (length bytes) 16 then ([], failed) else (
        drop 16 bytes,
        (if begins first signature
            then parse_v2 buf
            else (if begins text (proxy_word ++ 32 ∷ []) then parse_v1 text else no_header)),
      )
