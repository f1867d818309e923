-- ===== src/Proxy/Tests.antt =====
-- proxy/mod.rs: the theorems' witnesses, and what the dispatch answers.
use miwidothttp.Prelude.{
  ℕ, ◌≡◌, refl, Bool, true, Option, none, some, List, [], ◌∷◌, String, nat_eq, drop, length, arith,
  if◌then◌else◌, string_eq,
}
use miwidothttp.Prelude.Assoc.{lookup}
use miwidothttp.Proxy.{HeaderMap, default_config, new, add_proxy_headers}
use miwidothttp.Proxy.Headers.{
  Has, is_unwanted, takes_own, own_value, custom_value, add_proxy_headers-Has,
}
use miwidothttp.Proxy.Limits.{answers, first_ones, answers-new}
use miwidothttp.Proxy.Protocol.{parse}
use miwidothttp.Proxy.NoAddress.{HasNoAddress, parse-HasNoAddress}

answers-new_example :
    answers ⦃e = nat_eq⦄ (1 ∷ 1 ∷ 2 ∷ []) (new default_config)
    ≡ first_ones ⦃e = nat_eq⦄ 1000 [] (1 ∷ 1 ∷ 2 ∷ [])
unfolding default_config
answers-new_example = answers-new ⦃e = nat_eq⦄ default_config 1000 refl (1 ∷ 1 ∷ 2 ∷ [])

-- "PROXY TCP4 1.2.3.4 5.6.7.8 9 10\r\n".
abbrev line : List ℕ
line =
    80 ∷ 82 ∷ 79 ∷ 88 ∷ 89 ∷ 32 ∷ 84 ∷ 67 ∷ 80 ∷ 52 ∷ 32 ∷ 49 ∷ 46 ∷ 50 ∷ 46 ∷ 51 ∷ 46 ∷ 52 ∷ 32
    ∷ 53 ∷ 46 ∷ 54 ∷ 46 ∷ 55 ∷ 46 ∷ 56 ∷ 32 ∷ 57 ∷ 32 ∷ 49 ∷ 48 ∷ 13 ∷ 10 ∷ []

abbrev parse_ip : List ℕ → Option (List ℕ)
parse_ip word = some word

abbrev parse_port : List ℕ → Option ℕ
parse_port word = some (length word)

abbrev decode : List ℕ → List ℕ
decode bytes = bytes

parse-HasNoAddress_example :
    ((parse parse_ip parse_port decode line).0 ≡ drop 16 line)
    × HasNoAddress (parse parse_ip parse_port decode line).1
parse-HasNoAddress_example =
    parse-HasNoAddress parse_ip parse_port decode (λ bytes. omega arith) line

-- Names in lower case already.
abbrev header_name : String → Option String
header_name name = some name

abbrev is_value : String → Bool
is_value value = true

abbrev sent : HeaderMap
sent = ("x-real-ip", "6.6.6.6") ∷ []

add_proxy_headers-Has_example :
    Has
      (takes_own is_value default_config.headers "1.2.3.4" "example.org")
      (λ k.
        if is_unwanted header_name default_config.headers.remove_headers k
        then none
        else custom_value header_name is_value default_config.headers.add_headers
            (own_value default_config.headers "1.2.3.4" "example.org" (λ j. lookup j sent) k)
            k)
      (add_proxy_headers header_name is_value default_config.headers "1.2.3.4" "example.org" sent)
add_proxy_headers-Has_example =
    add_proxy_headers-Has header_name is_value default_config.headers "1.2.3.4" "example.org" sent
