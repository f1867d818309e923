-- ===== src/Proxy/NoAddress.antt =====
-- proxy/mod.rs: what `ProxyProtocol::parse` can give, which reads 16 bytes and no more.
use miwidothttp.Prelude.{
  ℕ, zero, suc, ◌+◌, ◌*◌, ◌/◌, ◌≤◌, ◌≡◌, refl, sym, ap, Bool, true, false, not, ◌||◌, Option, some,
  List, [], ◌∷◌, ◌++◌, ltb, ◌==◌, if◌then◌else◌, length, take, drop, replicate, length-append,
  Bool-cases, Option-cases, inl, inr, arith, All, All-append,
}
use miwidothttp.Proxy.Protocol.{
  ProxyProtocol, ProxyFamily, SocketAddr, Parsed, failed, no_header, header, is_whitespace,
  words_from, same_bytes, begins, proxy_word, tcp4_word, tcp6_word, signature, byte_at, family_of,
  address_at, parse_v2, parse_words, parse_v1, parse, flush,
}

-- The characters of the words, and one more for each word.
abbrev weight : List (List ℕ) → ℕ
weight [] = 0
weight (w ∷ ws) = suc (length w) + weight ws

abbrev NotEmpty : List ℕ → Type 0
NotEmpty w = 1 ≤ length w

weight-append : (xs ys : List (List ℕ)) → weight (xs ++ ys) ≡ weight xs + weight ys
weight-append [] ys = omega arith
weight-append (x ∷ xs) ys = omega (arith, weight-append xs ys)

weight-flush : (begun : List ℕ) → weight (flush begun) ≤ length begun + 1
weight-flush [] = omega arith
weight-flush (c ∷ cs) = omega arith

flush-NotEmpty : (begun : List ℕ) → All NotEmpty (flush begun)
flush-NotEmpty [] = tt
flush-NotEmpty (c ∷ cs) = (omega arith, tt)

weight-words_from :
    (begun cs : List ℕ) → weight (words_from begun cs) ≤ length begun + length cs + 1
unfolding words_from
weight-words_from begun [] = omega (arith, weight-flush begun)
weight-words_from begun (c ∷ cs) =
    let apart = weight-append (flush begun) (words_from [] cs) in
    ground (
      arith,
      apart,
      weight-flush begun,
      weight-words_from [] cs,
      weight-words_from (begun ++ c ∷ []) cs,
      length-append begun (c ∷ []),
    )

words_from-NotEmpty : (begun cs : List ℕ) → All NotEmpty (words_from begun cs)
unfolding words_from
words_from-NotEmpty begun [] = flush-NotEmpty begun
words_from-NotEmpty begun (c ∷ cs) = elim (Bool-cases (is_whitespace c)) [
  | inl space ↦
      rw (words_from, space)
        (All-append NotEmpty (flush begun) (words_from [] cs) (flush-NotEmpty begun)
          (words_from-NotEmpty [] cs))
  | inr other ↦ rw (words_from, other) (words_from-NotEmpty (begun ++ c ∷ []) cs)
]

same_bytes-length : (xs ys : List ℕ) → same_bytes xs ys ≡ true → length xs ≡ length ys
same_bytes-length [] [] h = refl
same_bytes-length [] (y ∷ ys) h = cc
same_bytes-length (x ∷ xs) [] h = cc
same_bytes-length (x ∷ xs) (y ∷ ys) h = ground (arith, same_bytes-length xs ys)

family_of-length : (w : List ℕ) (family : ProxyFamily) → family_of w ≡ some family → length w ≡ 4
family_of-length w family h =
    ground (arith, same_bytes-length w tcp4_word, same_bytes-length w tcp6_word)

module _ (parse_ip : List ℕ → Option (List ℕ)) (parse_port : List ℕ → Option ℕ) where
  parse_words-short :
      (ws : List (List ℕ))
      → weight ws ≤ 17
      → All NotEmpty ws
      → parse_words parse_ip parse_port ws ≡ no_header
  unfolding parse_words
  parse_words-short (w ∷ family_word ∷ a ∷ b ∷ c ∷ d ∷ more) light full =
      elim (Option-cases (family_of family_word)) [
        | inl other ↦ ground (arith, other)
        | inr (family, found) ↦ ground (
          arith,
          found,
          same_bytes-length w proxy_word,
          family_of-length family_word family found,
          full,
        )
      ]
  parse_words-short _ light full = refl

  parse_v1-short :
      (text : List ℕ) → length text ≤ 16 → parse_v1 parse_ip parse_port text ≡ no_header
  unfolding parse_v1
  parse_v1-short text short =
      parse_words-short (words_from [] text) (omega (arith, weight-words_from [] text))
        (words_from-NotEmpty [] text)

-- The unspecified address and port.
abbrev pub unspecified : SocketAddr
unspecified = record { ip = 0 ∷ 0 ∷ 0 ∷ 0 ∷ []; port = 0 }

byte_at-zeros : (n i : ℕ) → byte_at (replicate n 0) i ≡ 0
unfolding byte_at
byte_at-zeros zero i = refl
byte_at-zeros (suc n) zero = refl
byte_at-zeros (suc n) (suc i) = byte_at-zeros n i

byte_at-past : (xs : List ℕ) (n i : ℕ) → length xs ≤ i → byte_at (xs ++ replicate n 0) i ≡ 0
unfolding byte_at
byte_at-past [] n i h = byte_at-zeros n i
byte_at-past (x ∷ xs) n zero h = absurd (omega arith)
byte_at-past (x ∷ xs) n (suc i) h = byte_at-past xs n i (omega arith)

length-take-exact : (n : ℕ) (xs : List ℕ) → n ≤ length xs → length (take n xs) ≡ n
length-take-exact zero xs h = refl
length-take-exact (suc n) [] h = absurd (omega arith)
length-take-exact (suc n) (x ∷ xs) h = ap suc (length-take-exact n xs (omega arith))

address_at-past :
    (xs : List ℕ) (n i j : ℕ)
    → length xs ≤ i
    → length xs ≤ j
    → address_at (xs ++ replicate n 0) i j ≡ unspecified
unfolding address_at
address_at-past xs n i j hi hj =
    rw
      (
        byte_at-past xs n i hi,
        byte_at-past xs n (i + 1) (omega arith),
        byte_at-past xs n (i + 2) (omega arith),
        byte_at-past xs n (i + 3) (omega arith),
        byte_at-past xs n j hj,
        byte_at-past xs n (j + 1) (omega arith),
      )
      refl

-- What a parse can give: no header, or one of version 2 without addresses.
pub data HasNoAddress : Parsed → Type 0 where
  when_failed : HasNoAddress failed
  without_header : HasNoAddress no_header
  of_version_2 :
      (h : ProxyProtocol)
      → h.version ≡ 2
      → h.src_addr ≡ unspecified
      → h.dest_addr ≡ unspecified
      → HasNoAddress (header h)

if-HasNoAddress :
    (b : Bool) {p q : Parsed} → HasNoAddress p → HasNoAddress q → HasNoAddress (if b then p else q)
if-HasNoAddress true x y = x
if-HasNoAddress false x y = y

parse_v2-HasNoAddress :
    (xs : List ℕ) (n : ℕ) → length xs ≤ 16 → HasNoAddress (parse_v2 (xs ++ replicate n 0))
unfolding parse_v2
parse_v2-HasNoAddress xs n short =
    let buf = xs ++ replicate n 0 in
    let announced = byte_at buf 14 * 256 + byte_at buf 15 in
    if-HasNoAddress (ltb (length buf) 16) without_header (
      if-HasNoAddress (not (byte_at buf 12 / 16 == 2) || ltb (length buf) (16 + announced))
        without_header
        (if-HasNoAddress (byte_at buf 13 / 16 == 1)
          (if-HasNoAddress (ltb announced 12) without_header (
            of_version_2 _ refl (address_at-past xs n 16 24 short (omega arith))
              (address_at-past xs n 20 26 (omega arith) (omega arith))))
          without_header))

drop-all : (n : ℕ) (xs : List ℕ) → length xs ≤ n → drop n xs ≡ []
drop-all zero [] h = refl
drop-all zero (x ∷ xs) h = absurd (omega arith)
drop-all (suc n) [] h = refl
drop-all (suc n) (x ∷ xs) h = drop-all n xs (omega arith)

module _ (parse_ip : List ℕ → Option (List ℕ)) (parse_port : List ℕ → Option ℕ) where
  parse_v1-HasNoAddress :
      (text : List ℕ) → length text ≤ 16 → HasNoAddress (parse_v1 parse_ip parse_port text)
  parse_v1-HasNoAddress text short =
      rw (parse_v1-short parse_ip parse_port text short) without_header

  -- Let the decoding of bytes give no more characters than there are bytes. Whatever a stream holds,
  -- the parser takes 16 bytes off it where there are so many, and a header that it gives is one of
  -- version 2 with the unspecified address and port 0 at both ends, never one of version 1.
  pub parse-HasNoAddress :
      (decode : List ℕ → List ℕ)
      → ((bs : List ℕ) → length (decode bs) ≤ length bs)
      → (bytes : List ℕ)
      → ((parse parse_ip parse_port decode bytes).0 ≡ drop 16 bytes)
        × HasNoAddress (parse parse_ip parse_port decode bytes).1
  unfolding parse
  parse-HasNoAddress decode shortens bytes = elim (Bool-cases (ltb (length bytes) 16)) [
    | inl few ↦ rw few (sym (drop-all 16 bytes (ground (arith, few))), when_failed)
    | inr enough ↦
        let exact : length (take 16 bytes) ≡ 16 =
          length-take-exact 16 bytes (ground (arith, enough)) in
        let first = take 16 bytes in
        rw enough (
          refl,
          if-HasNoAddress (begins first signature)
              (parse_v2-HasNoAddress first 92 (omega (arith, exact)))
              (if-HasNoAddress (begins (decode first) (proxy_word ++ 32 ∷ []))
                (parse_v1-HasNoAddress (decode first) (omega (arith, exact, shortens first)))
                without_header),
        )
  ]
