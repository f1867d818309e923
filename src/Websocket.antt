-- ===== src/Websocket.antt =====
-- websocket.rs (src/websocket.rs): `WebSocketManager`. The table of connections and that of rooms are
-- association lists, the broadcast channel is the list of the messages sent, oldest first, and
-- `forwards` is what the forwarding task of a connection does with each of them: a receiver that
-- keeps up sees them all. JSON of a client is a type `J`, and `parse` reads a client's text. The
-- clock is read as an argument, and a connection's id is the argument of `register`.
use miwidothttp.Prelude.{
  ℕ, Bool, true, false, not, ◌||◌, ◌&&◌, Option, none, some, List, [], ◌∷◌, ◌++◌, String,
  append_text, is_none, is_empty, length, map, retain, contains, ◌=?◌, string_eq, if◌then◌else◌,
  ◌>>=◌,
}
use miwidothttp.Prelude.Assoc.{lookup, insert, remove}
pub mod Rooms
pub mod Membership
pub mod Invariant
pub mod Traffic
mod Tests

pub record WebSocketConnection : Type 0 where
  pub id : String
  pub user_id : Option String
  pub room_id : Option String
  pub metadata : List (String × String)

pub record Room : Type 0 where
  pub id : String
  pub name : String
  pub members : List String
  pub created_at : ℕ

pub data MessageType : Type 0 where
  text_type binary_type ping_type pong_type join_type leave_type : MessageType
  broadcast_type private_type room_type notification_type error_type : MessageType

-- What stands under the key `data` in a message: a client's JSON, or the object that the server writes.
pub data Payload (J : Type 0) : Type 0 where
  client : J → Payload J
  bytes : List ℕ → Payload J
  user_in_room : (user_id room_id : String) → Payload J
  user : (user_id : String) → Payload J

pub record BroadcastMessage (J : Type 0) : Type 0 where
  pub msg_type : MessageType
  pub sender_id : String
  pub room_id : Option String
  pub payload : Payload J
  pub timestamp : ℕ

pub record ClientMessage (J : Type 0) : Type 0 where
  pub action : String
  pub room_id : Option String
  pub target_id : Option String
  pub payload : J

-- What a receiver of the broadcast channel gives.
pub data Received (J : Type 0) : Type 0 where
  got : BroadcastMessage J → Received J
  recv_fails : Received J

-- What the receiver of a socket yields.
pub data Incoming : Type 0 where
  text : String → Incoming
  binary : List ℕ → Incoming
  ping pong : List ℕ → Incoming
  close fails : Incoming

pub record WebSocketManager (J : Type 0) : Type 0 where
  pub connections : List (String × WebSocketConnection)
  pub rooms : List (String × Room)
  pub sent : List (BroadcastMessage J)

pub record RoomInfo : Type 0 where
  pub id : String
  pub name : String
  pub member_count : ℕ
  pub created_at : ℕ

-- The lock of `connections` and `get_mut`: the room of a connection is set where there is one.
unfoldable pub set_room :
    String
    → Option String
    → List (String × WebSocketConnection)
    → List (String × WebSocketConnection)
set_room conn_id room connections = elim (lookup conn_id connections) [
  | none ↦ connections
  | some c ↦ insert conn_id (record c { room_id = room }) connections
]

abbrev pub or_new_room : Option Room → String → ℕ → Room
or_new_room (some room) room_id now = room
or_new_room none room_id now = record {
  id = room_id;
  name = append_text "Room " room_id;
  members = [];
  created_at = now;
}

-- The rooms after `leave_room`.
unfoldable pub leave : String → String → List (String × Room) → List (String × Room)
leave conn_id room_id rooms = elim (lookup room_id rooms) [
  | none ↦ rooms
  | some room ↦
      let members = retain (λ id. not (id =? conn_id)) room.members in
      if is_empty members
      then remove room_id rooms
      else insert room_id (record room { members = members }) rooms
]

-- The rooms after `join_room`: its `or_insert_with` and the new member.
unfoldable pub join : String → String → ℕ → List (String × Room) → List (String × Room)
join conn_id room_id now rooms =
    let room = or_new_room (lookup room_id rooms) room_id now in
    if contains room.members conn_id
    then insert room_id room rooms
    else insert room_id (record room { members = room.members ++ conn_id ∷ [] }) rooms

-- The room in which a connection last put itself.
unfoldable pub room_of : String → List (String × WebSocketConnection) → Option String
room_of conn_id connections = elim (lookup conn_id connections) [ none ↦ none | some c ↦ c.room_id ]

module _ {J : Type 0} where
  unfoldable pub new : WebSocketManager J
  new = record { connections = []; rooms = []; sent = [] }

  -- The start of `handle_socket`.
  unfoldable pub register : String → WebSocketManager J → WebSocketManager J
  register conn_id m = record m {
    connections =
        insert conn_id record { id = conn_id; user_id = none; room_id = none; metadata = [] }
          m.connections;
  }

  unfoldable pub send : BroadcastMessage J → WebSocketManager J → WebSocketManager J
  send msg m = record m { sent = m.sent ++ msg ∷ [] }

  abbrev pub message : MessageType → String → Option String → Payload J → ℕ → BroadcastMessage J
  message msg_type sender_id room_id content now = record {
    msg_type = msg_type;
    sender_id = sender_id;
    room_id = room_id;
    payload = content;
    timestamp = now;
  }

  unfoldable pub join_room : String → String → ℕ → WebSocketManager J → WebSocketManager J
  unfolding join set_room send
  join_room conn_id room_id now m =
      let room = or_new_room (lookup room_id m.rooms) room_id now in
      let joined = record m { rooms = join conn_id room_id now m.rooms } in
      if contains room.members conn_id
      then joined
      else send (message join_type conn_id (some room_id) (user_in_room conn_id room_id) now)
          (record joined { connections = set_room conn_id (some room_id) m.connections })

  unfoldable pub leave_room : String → String → WebSocketManager J → WebSocketManager J
  leave_room conn_id room_id m = record m {
    rooms = leave conn_id room_id m.rooms;
    connections = set_room conn_id none m.connections;
  }

  unfoldable pub broadcast_message : String → J → ℕ → WebSocketManager J → WebSocketManager J
  broadcast_message sender_id content now m =
      send (message broadcast_type sender_id (room_of sender_id m.connections) (client content) now)
        m

  -- The target is put where a message names its room.
  unfoldable pub send_private_message :
      String → String → J → ℕ → WebSocketManager J → WebSocketManager J
  send_private_message sender_id target_id content now m =
      send (message private_type sender_id (some target_id) (client content) now) m

  unfoldable pub broadcast_leave : String → ℕ → WebSocketManager J → WebSocketManager J
  broadcast_leave conn_id now m = send (message leave_type conn_id none (user conn_id) now) m

  unfoldable pub handle_binary_message :
      String → List ℕ → ℕ → WebSocketManager J → WebSocketManager J
  handle_binary_message conn_id content now m =
      send (message binary_type conn_id none (bytes content) now) m

  unfoldable pub handle_client_message :
      String → ClientMessage J → ℕ → WebSocketManager J → WebSocketManager J
  handle_client_message conn_id msg now m =
      if msg.action =? "join_room"
      then elim msg.room_id [ none ↦ m | some room_id ↦ join_room conn_id room_id now m ]
      else (if msg.action =? "leave_room"
          then elim msg.room_id [ none ↦ m | some room_id ↦ leave_room conn_id room_id m ]
          else (if msg.action =? "broadcast"
              then broadcast_message conn_id msg.payload now m
              else (if msg.action =? "private_message"
                  then elim msg.target_id [
                    | none ↦ m
                    | some target_id ↦ send_private_message conn_id target_id msg.payload now m
                  ]
                  else m)))

  -- `should_send` is true in every case, since rooms are not looked at.
  unfoldable pub forwards : String → BroadcastMessage J → Bool
  forwards conn_id msg = (is_none msg.room_id || true) && not (msg.sender_id =? conn_id)

  -- The loop of the task that forwards, by what `recv` gives after the connection has subscribed: a
  -- message, or an error, as where the receiver lags behind by more than the 1000 messages that the
  -- channel keeps, which ends the loop, as does a message that the socket does not take. The result
  -- is what the socket has taken.
  unfoldable pub forwarded :
      String → (takes : BroadcastMessage J → Bool) → List (Received J) → List (BroadcastMessage J)
  unfolding forwards
  forwarded conn_id takes [] = []
  forwarded conn_id takes (recv_fails ∷ later) = []
  forwarded conn_id takes (got msg ∷ later) =
      let more = forwarded conn_id takes later in
      if forwards conn_id msg then (if takes msg then msg ∷ more else []) else more

  -- The end of `handle_socket`.
  unfoldable pub disconnect : String → ℕ → WebSocketManager J → WebSocketManager J
  disconnect conn_id now m =
      broadcast_leave conn_id now (record m { connections = remove conn_id m.connections })

  unfoldable pub get_connection_count : WebSocketManager J → ℕ
  get_connection_count m = length m.connections

  unfoldable pub get_room_count : WebSocketManager J → ℕ
  get_room_count m = length m.rooms

  pub get_rooms : WebSocketManager J → List RoomInfo
  get_rooms m =
      map
        (λ e. record {
          id = (e.1).id;
          name = (e.1).name;
          member_count = length (e.1).members;
          created_at = (e.1).created_at;
        })
        m.rooms

module _ {J : Type 0} (parse : String → Option (ClientMessage J)) where
  unfoldable pub handle_text_message : String → String → ℕ → WebSocketManager J → WebSocketManager J
  handle_text_message conn_id line now m = elim (parse line) [
    | none ↦ m
    | some msg ↦ handle_client_message conn_id msg now m
  ]

  -- The loop of `handle_socket` over what the receiver yields, until it ends.
  unfoldable pub receive : String → ℕ → List Incoming → WebSocketManager J → WebSocketManager J
  receive conn_id now [] m = m
  receive conn_id now (text t ∷ more) m =
      receive conn_id now more (handle_text_message conn_id t now m)
  receive conn_id now (binary content ∷ more) m =
      receive conn_id now more (handle_binary_message conn_id content now m)
  receive conn_id now (ping content ∷ more) m = receive conn_id now more m
  receive conn_id now (pong content ∷ more) m = receive conn_id now more m
  receive conn_id now (close ∷ more) m = m
  receive conn_id now (fails ∷ more) m = m

  unfoldable pub handle_socket :
      String → ℕ → List Incoming → WebSocketManager J → WebSocketManager J
  handle_socket conn_id now incoming m =
      disconnect conn_id now (receive conn_id now incoming (register conn_id m))
