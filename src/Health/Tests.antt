-- ===== src/Health/Tests.antt =====
-- cluster/health.rs: probes at concrete inputs.
use miwidothttp.Prelude.{◌≡◌, refl, Bool, true, false, List, [], ◌∷◌, String, string_eq}
use miwidothttp.Prelude.Assoc.{lookup, insert}
use miwidothttp.Health.{Probe, check_all_nodes, is_node_healthy}

abbrev probe : String → Bool → Probe
probe id answered = record { node_id = id; answered = answered; now = 5; response_time = 2 }

abbrev probes : List Probe
probes = probe "a" false ∷ probe "b" true ∷ probe "a" false ∷ probe "a" false ∷ []

third_failure :
    (is_node_healthy "a" (check_all_nodes probes []) ≡ false)
    × (is_node_healthy "b" (check_all_nodes probes []) ≡ true)
unfolding is_node_healthy check_all_nodes lookup insert
third_failure = (refl, refl)
