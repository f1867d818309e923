-- ===== src/Websocket/Traffic.antt =====
-- websocket.rs: who is sent what.
use miwidothttp.Prelude.{
  append-nil, ◌≡◌, Bool, List, [], ◌∷◌, ◌++◌, append-nil, String, All, if◌then◌else◌,
}
use miwidothttp.Websocket.{WebSocketManager, BroadcastMessage}

module _ {J : Type 0} where
  -- The messages that a state has sent beyond another are all from one sender.
  pub record SentBy (d : String) (m n : WebSocketManager J) : Type 0 where
    pub added : List (BroadcastMessage J)
    pub sent_after : n.sent ≡ m.sent ++ added
    pub from_sender : All (λ msg. msg.sender_id ≡ d) added

  -- The messages up to the first that a socket does not take.
  abbrev pub taken :
      (BroadcastMessage J → Bool) → List (BroadcastMessage J) → List (BroadcastMessage J)
  taken takes [] = []
  taken takes (msg ∷ msgs) = let more = taken takes msgs in if takes msg then msg ∷ more else []
