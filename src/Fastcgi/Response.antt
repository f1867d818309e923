-- ===== src/Fastcgi/Response.antt =====
-- proxy/fastcgi.rs: whole streams of records, and the loop that reads them.
use miwidothttp.Prelude.{
  ℕ, zero, suc, ◌+◌, ◌-◌, ◌*◌, ◌%◌, ◌≤◌, ◌<◌, ◌≡◌, refl, ◌≢◌, ◌⊎◌, List, [], ◌∷◌, ◌++◌, length,
  length-append, length-take-le, length-drop, take, drop, take-append-drop, append_assoc,
  append-nil, arith, All, ◌∙◌, ap, le_refl,
}
use miwidothttp.Fastcgi.{
  ok, err, unexpected_eof, out_of_fuel, Collected, build_packet, read_exact, read_records,
  read_response, collect, fcgi_end_request, fcgi_stdout, chunks, send_chunks,
}
use miwidothttp.Fastcgi.Packet.{build_packet-aligned, read_records-build_packet}

abbrev pub concat : List (List ℕ) → List ℕ
concat [] = []
concat (c ∷ cs) = c ++ concat cs

concat-chunks :
    (fuel : ℕ) (bytes : List ℕ) → length bytes ≤ fuel → concat (chunks fuel bytes) ≡ bytes
unfolding chunks
concat-chunks zero [] h = refl
concat-chunks zero (b ∷ bytes) h = absurd (omega arith)
concat-chunks (suc fuel) [] h = refl
concat-chunks (suc fuel) (b ∷ bytes) h =
    rw (concat-chunks fuel (drop 65535 (b ∷ bytes)) (omega (arith, length-drop 65535 (b ∷ bytes))))
      (take-append-drop 65535 (b ∷ bytes))

abbrev pub FitsRecord : List ℕ → Type 0
FitsRecord c = length c ≤ 65535

chunks-FitsRecord : (fuel : ℕ) (bytes : List ℕ) → All FitsRecord (chunks fuel bytes)
unfolding chunks
chunks-FitsRecord zero bytes = tt
chunks-FitsRecord (suc fuel) [] = tt
chunks-FitsRecord (suc fuel) (b ∷ bytes) =
    (length-take-le 65535 (b ∷ bytes), chunks-FitsRecord fuel (drop 65535 (b ∷ bytes)))

length-build_packet : (t id : ℕ) (content : List ℕ) → 8 ≤ length (build_packet t id content)
unfolding build_packet
length-build_packet t id content = omega arith

length-send_chunks : (t id : ℕ) (cs : List (List ℕ)) → length cs ≤ length (send_chunks t id cs)
unfolding send_chunks
length-send_chunks t id [] = omega arith
length-send_chunks t id (c ∷ cs) = omega (
  arith,
  length-append (build_packet t id c) (send_chunks t id cs),
  length-build_packet t id c,
  length-send_chunks t id cs,
)

send_chunks-cons :
    (t id : ℕ) (c : List ℕ) (cs : List (List ℕ))
    → send_chunks t id (c ∷ cs) ≡ build_packet t id c ++ send_chunks t id cs
unfolding send_chunks
send_chunks-cons t id c cs = refl

send_chunks-nil : (t id : ℕ) → send_chunks t id [] ≡ []
unfolding send_chunks
send_chunks-nil t id = refl

-- One record of the standard output.
read_stdout :
    (fuel id : ℕ) (content rest : List ℕ) (c : Collected)
    → id < 65536
    → length content < 65536
    → read_records (suc fuel) id (build_packet fcgi_stdout id content ++ rest) c
      ≡ read_records fuel id rest (record c { stdout_data = c.stdout_data ++ content })
unfolding collect
read_stdout fuel id content rest c hi hc =
    read_records-build_packet fuel fcgi_stdout id content rest c hi hc

read_end :
    (fuel id : ℕ) (body rest : List ℕ) (c : Collected)
    → id < 65536
    → length body < 65536
    → read_records (suc fuel) id (build_packet fcgi_end_request id body ++ rest) c ≡ ok (c, rest)
read_end fuel id body rest c hi hb =
    read_records-build_packet fuel fcgi_end_request id body rest c hi hb

read_records-send_chunks :
    (fuel id : ℕ) (cs : List (List ℕ)) (body rest : List ℕ) (c : Collected)
    → id < 65536
    → length body < 65536
    → All FitsRecord cs
    → length cs < fuel
    → read_records fuel id
        (send_chunks fcgi_stdout id cs ++ (build_packet fcgi_end_request id body ++ rest))
        c
      ≡ ok (record c { stdout_data = c.stdout_data ++ concat cs }, rest)
read_records-send_chunks zero id cs body rest c hi hb fits h = absurd (omega arith)
read_records-send_chunks (suc fuel) id [] body rest c hi hb fits h =
    rw (send_chunks-nil, append-nil) (read_end fuel id body rest c hi hb)
read_records-send_chunks (suc fuel) id (x ∷ cs) body rest c hi hb fits h =
    rw
      (
        send_chunks-cons fcgi_stdout id x cs,
        append_assoc (build_packet fcgi_stdout id x) (send_chunks fcgi_stdout id cs),
        read_stdout fuel id x
            (send_chunks fcgi_stdout id cs ++ (build_packet fcgi_end_request id body ++ rest)) c hi
            (omega (arith, fits.0)),
        ← append_assoc c.stdout_data x (concat cs),
      )
      (read_records-send_chunks fuel id cs body rest (record c { stdout_data = c.stdout_data ++ x })
        hi hb fits.1 (omega arith))

-- A response that the peer sends in records of at most 65535 bytes, closed by END_REQUEST, is read
-- back byte for byte, with nothing in the error stream, and what follows is left on the stream.
pub read_response_roundtrip :
    (id : ℕ) (bytes body rest : List ℕ)
    → id < 65536
    → length body < 65536
    → read_response id (
        send_chunks fcgi_stdout id (chunks (length bytes) bytes)
        ++ (build_packet fcgi_end_request id body ++ rest))
      ≡ ok (record { stdout_data = bytes; stderr_data = [] }, rest)
unfolding read_response
read_response_roundtrip id bytes body rest hi hb =
    let cs = chunks (length bytes) bytes in
    let tail = build_packet fcgi_end_request id body ++ rest in
    let sent = send_chunks fcgi_stdout id cs in
    read_records-send_chunks (suc (length (sent ++ tail))) id cs body rest
      (record { stdout_data = []; stderr_data = [] }) hi hb (chunks-FitsRecord (length bytes) bytes)
      (omega (arith, length-send_chunks fcgi_stdout id cs, length-append sent tail))
    ∙ ap (λ (out : List ℕ). ok (record { stdout_data = out; stderr_data = [] }, rest))
        (concat-chunks (length bytes) bytes (le_refl (length bytes)))

-- Of a record of another request only the header is taken; the content, if it needs no padding,
-- stays on the stream.
skip_header :
    (fuel t id id' : ℕ) (content rest : List ℕ) (c : Collected)
    → id < 65536
    → id' < 65536
    → id' ≢ id
    → length content % 8 ≡ 0
    → read_records (suc fuel) id (build_packet t id' content ++ rest) c
      ≡ read_records fuel id (content ++ rest) c
unfolding read_records build_packet
skip_header fuel t id id' content rest c hi hi' ne h =
    let aligned : (8 - length content % 8) % 8 ≡ 0 = omega arith in
    rw aligned (rw append-nil (ground arith))

-- A record for another request is not skipped whole. Its content is read as the next record: where
-- that is a record of this request, it is collected as if the peer had sent it.
pub foreign_record_injects :
    (fuel t id id' : ℕ) (content rest : List ℕ) (c : Collected)
    → id < 65536
    → id' < 65536
    → id' ≢ id
    → length content < 65000
    → read_records
        (suc (suc fuel))
        id
        (build_packet t id' (build_packet fcgi_stdout id content) ++ rest)
        c
      ≡ read_records fuel id rest (record c { stdout_data = c.stdout_data ++ content })
foreign_record_injects fuel t id id' content rest c hi hi' ne h =
    skip_header (suc fuel) t id id' (build_packet fcgi_stdout id content) rest c hi hi' ne
      (build_packet-aligned fcgi_stdout id content)
    ∙ read_stdout fuel id content rest c hi (omega arith)

read_exact_cases :
    (n : ℕ) (stream : List ℕ)
    → (read_exact n stream ≡ err unexpected_eof)
      ⊎ (read_exact n stream ≡ ok (take n stream, drop n stream))
unfolding read_exact
read_exact_cases n stream = ground arith

read_records-total :
    (fuel id : ℕ) (stream : List ℕ) (c : Collected)
    → length stream < fuel
    → read_records fuel id stream c ≢ err out_of_fuel
unfolding read_records
read_records-total zero id stream c h = absurd (omega arith)
read_records-total (suc fuel) id (v ∷ t ∷ i1 ∷ i0 ∷ l1 ∷ l0 ∷ p ∷ r ∷ rest) c h =
    let n = l1 * 256 + l0 in
    ground (
      arith,
      read_exact_cases n rest,
      read_exact_cases p (drop n rest),
      length-drop n rest,
      length-drop p (drop n rest),
      read_records-total fuel id rest c,
      read_records-total fuel id (drop p (drop n rest)) (collect t (take n rest) c),
    )
read_records-total (suc fuel) id short c h = ground arith

-- Whatever the stream holds, the loop ends within the fuel that it is given: by END_REQUEST, by
-- the end of the stream or by a wrong version.
pub read_response-total : (id : ℕ) (stream : List ℕ) → read_response id stream ≢ err out_of_fuel
unfolding read_response
read_response-total id stream =
    read_records-total (suc (length stream)) id stream
      (record { stdout_data = []; stderr_data = [] }) (omega arith)
