-- ===== src/Fastcgi/Packet.antt =====
-- proxy/fastcgi.rs: one record, as it is written and as it is read.
use miwidothttp.Prelude.{
  ℕ, suc, ◌+◌, ◌-◌, ◌*◌, ◌/◌, ◌%◌, ◌<◌, ◌≡◌, List, ◌++◌, length, length-append, length-replicate,
  take-append, drop-append, replicate, append_assoc, arith, ◌==◌, if◌then◌else◌,
}
use miwidothttp.Fastcgi.{
  ok, Collected, build_packet, read_exact, read_records, collect, as_u8, fcgi_end_request,
}

-- The padding of a record's content.
abbrev pub padding : List ℕ → List ℕ
padding content = replicate ((8 - length content % 8) % 8) 0

pub read_exact-append :
    (xs ys : List ℕ) (n : ℕ) → n ≡ length xs → read_exact n (xs ++ ys) ≡ ok (xs, ys)
unfolding read_exact
read_exact-append xs ys n e =
    ground (arith, take-append xs ys, drop-append xs ys, length-append xs ys)

-- A record takes a multiple of eight bytes.
pub build_packet-aligned :
    (t id : ℕ) (content : List ℕ) → length (build_packet t id content) % 8 ≡ 0
unfolding build_packet
build_packet-aligned t id content = omega (
  arith,
  length-append content (padding content),
  length-replicate {A = ℕ} ((8 - length content % 8) % 8) 0,
)

-- The reader takes a record that `build_packet` has written for its request exactly off the
-- stream. An END_REQUEST record ends the loop; any other's content is collected by its type.
pub read_records-build_packet :
    (fuel t id : ℕ) (content rest : List ℕ) (c : Collected)
    → id < 65536
    → length content < 65536
    → read_records (suc fuel) id (build_packet t id content ++ rest) c ≡ (
        if t == fcgi_end_request
        then ok (c, rest)
        else read_records fuel id rest (collect t content c))
unfolding read_records build_packet
read_records-build_packet fuel t id content rest c hi hc = ground (
  arith,
  append_assoc content (padding content) rest,
  read_exact-append content (padding content ++ rest)
      (as_u8 (length content / 256) * 256 + as_u8 (length content)),
  read_exact-append (padding content) rest (as_u8 ((8 - length content % 8) % 8)),
  length-replicate {A = ℕ} ((8 - length content % 8) % 8) 0,
)
