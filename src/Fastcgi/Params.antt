-- ===== src/Fastcgi/Params.antt =====
-- proxy/fastcgi.rs: the name-value pairs, against a decoder of the FastCGI format, and the stream
-- that carries a request.
use miwidothttp.Prelude.{
  ℕ, zero, suc, ◌+◌, ◌-◌, ◌*◌, ◌/◌, ◌<◌, ◌≡◌, refl, Bool, true, ◌&&◌, Option, none, some, List, [],
  ◌∷◌, ◌++◌, length, take, drop, take-append, drop-append, arith, ◌==◌, ==_iff, ltb, bit_or,
  if◌then◌else◌, All, ◌∙◌,
}
use miwidothttp.Fastcgi.{as_u8, encode_length, encode_params}

-- Setting the high bit of a number below 128 adds 128, by evaluation.
high_bits_add : ℕ → Bool
high_bits_add zero = true
high_bits_add (suc top) = (bit_or top 128 == top + 128) && high_bits_add top

high_bits_add-below : (top x : ℕ) → high_bits_add top ≡ true → x < top → bit_or x 128 ≡ x + 128
unfolding high_bits_add
high_bits_add-below zero x sound small = absurd (omega arith)
high_bits_add-below (suc top) x sound small =
    ground (arith, ==_iff (bit_or x 128) (x + 128), high_bits_add-below top x)

bit_or_high : (x : ℕ) → x < 128 → bit_or x 128 ≡ x + 128
unfolding high_bits_add
bit_or_high x small = high_bits_add-below 128 x refl small

-- The FastCGI format: a length below 128 is one byte; any other is four bytes, the first of them
-- with its high bit set.
pub decode_length : List ℕ → Option (ℕ × List ℕ)
decode_length [] = none
decode_length (b ∷ []) = if ltb b 128 then some (b, []) else none
decode_length (b ∷ (c ∷ [])) = if ltb b 128 then some (b, c ∷ []) else none
decode_length (b ∷ (c ∷ (d ∷ []))) = if ltb b 128 then some (b, c ∷ d ∷ []) else none
decode_length (b ∷ (c ∷ (d ∷ (e ∷ bytes)))) =
    if ltb b 128
    then some (b, c ∷ d ∷ e ∷ bytes)
    else some ((b - 128) * 16777216 + c * 65536 + d * 256 + e, bytes)

-- `fuel` pairs, and no byte left over.
pub decode_params : ℕ → List ℕ → Option (List (List ℕ × List ℕ))
decode_params zero [] = some []
decode_params zero (b ∷ bytes) = none
decode_params (suc fuel) bytes = elim (decode_length bytes) [
  | none ↦ none
  | some (k, bytes') ↦ elim (decode_length bytes') [
    | none ↦ none
    | some (v, bytes'') ↦ elim (decode_params fuel (drop v (drop k bytes''))) [
      | none ↦ none
      | some params ↦ some ((take k bytes'', take v (drop k bytes'')) ∷ params)
    ]
  ]
]

decode_length-short : (n : ℕ) (rest : List ℕ) → n < 128 → decode_length (n ∷ rest) ≡ some (n, rest)
unfolding decode_length
decode_length-short n [] h = ground arith
decode_length-short n (c ∷ []) h = ground arith
decode_length-short n (c ∷ (d ∷ [])) h = ground arith
decode_length-short n (c ∷ (d ∷ (e ∷ bytes))) h = ground arith

decode_length-long :
    (n : ℕ) (rest : List ℕ)
    → n < 2147483648
    → decode_length
        (as_u8 (n / 16777216 + 128) ∷ as_u8 (n / 65536) ∷ as_u8 (n / 256) ∷ as_u8 n ∷ rest)
      ≡ some (n, rest)
unfolding decode_length
decode_length-long n rest h = ground arith

decode_length-encode_length :
    (n : ℕ) (rest : List ℕ)
    → n < 2147483648
    → decode_length (encode_length n ++ rest) ≡ some (n, rest)
unfolding encode_length
decode_length-encode_length n rest h =
    ground
      (arith, decode_length-short n rest, decode_length-long n rest h, bit_or_high (n / 16777216))

decode_params-suc :
    (fuel : ℕ) (bytes bytes' bytes'' : List ℕ) (k v : ℕ) (params : List (List ℕ × List ℕ))
    → decode_length bytes ≡ some (k, bytes')
    → decode_length bytes' ≡ some (v, bytes'')
    → decode_params fuel (drop v (drop k bytes'')) ≡ some params
    → decode_params (suc fuel) bytes ≡ some ((take k bytes'', take v (drop k bytes'')) ∷ params)
unfolding decode_params
decode_params-suc fuel bytes bytes' bytes'' k v params h h' h'' = ground arith

abbrev pub FitsParam : List ℕ × List ℕ → Type 0
FitsParam (key, value) = (length key < 2147483648) × (length value < 2147483648)

-- Parameters whose keys and values are shorter than 2^31 bytes are encoded so that a decoder of
-- the format reads them back, in order and to the last byte.
pub decode_params-encode_params :
    (params : List (List ℕ × List ℕ))
    → All FitsParam params
    → decode_params (length params) (encode_params params) ≡ some params
unfolding encode_params
decode_params-encode_params [] h = unfold decode_params in refl
decode_params-encode_params ((key, value) ∷ params) h =
    let tail = value ++ encode_params params in
    decode_params-suc (length params) (encode_params ((key, value) ∷ params))
      (encode_length (length value) ++ (key ++ tail)) (key ++ tail) (length key) (length value)
      params
      (decode_length-encode_length (length key) (encode_length (length value) ++ (key ++ tail))
        h.0.0)
      (decode_length-encode_length (length value) (key ++ tail) h.0.1)
      (rw (drop-append key tail, drop-append value (encode_params params))
        (decode_params-encode_params params h.1))
    ∙ rw (take-append key tail, drop-append key tail, take-append value (encode_params params))
