-- ===== src/Websocket/Tests.antt =====
-- websocket.rs: the theorems' witnesses, and what a private message and the end of a socket do.
use miwidothttp.Prelude.{
  map, true, ℕ, ◌≡◌, refl, Option, none, some, List, [], ◌∷◌, String, ◌=?◌, string_eq,
  if◌then◌else◌, length,
}
use miwidothttp.Prelude.Assoc.{lookup, insert, remove}
use miwidothttp.Websocket.{
  got, WebSocketManager, ClientMessage, Incoming, text, binary, close, new, register, receive,
  disconnect, handle_socket, forwarded, forwards, get_room_count, get_connection_count, set_room,
  join, send, join_room, send_private_message, broadcast_leave, handle_binary_message,
  handle_client_message, handle_text_message,
}
use miwidothttp.Websocket.Rooms.{in_room}
use miwidothttp.Websocket.Membership.{track, handle_socket-in_room}
use miwidothttp.Websocket.Invariant.{Inv, here, next, opens, yields, sockets-Inv}

abbrev asks : String → Option String → ClientMessage ℕ
asks action name = record { action = action; room_id = name; target_id = name; payload = 0 }

abbrev parse : String → Option (ClientMessage ℕ)
parse line =
    if line =? "join"
    then some (asks "join_room" (some "lobby"))
    else (if line =? "leave"
        then some (asks "leave_room" (some "lobby"))
        else (if line =? "tell" then some (asks "private_message" (some "bob")) else none))

abbrev said : List Incoming
said = text "join" ∷ text "tell" ∷ text "?" ∷ binary (1 ∷ []) ∷ close ∷ text "leave" ∷ []

abbrev empty : WebSocketManager ℕ
empty = record { connections = []; rooms = []; sent = [] }

abbrev ended : WebSocketManager ℕ
ended = handle_socket parse "ann" 5 said empty

handle_socket-in_room_example :
    in_room "ann" "lobby" ended.rooms
    ≡ track parse "ann" said "ann" "lobby" (in_room "ann" "lobby" [])
handle_socket-in_room_example = handle_socket-in_room parse "ann" 5 said empty "ann" "lobby"

abbrev met : WebSocketManager ℕ
met = receive parse "ann" 5 (text "join" ∷ []) (register "bob" (register "ann" new))

sockets-Inv_example : Inv met
sockets-Inv_example =
    sockets-Inv parse
      (next (next (next here (opens "ann")) (opens "bob")) (yields "ann" 5 (text "join")))

-- The room outlives its only member, whose connection is gone.
room_left : (get_room_count ended ≡ 1) × (get_connection_count ended ≡ 0)
unfolding handle_socket receive register disconnect handle_text_message handle_client_message
    join_room join send set_room lookup insert remove broadcast_leave send_private_message
    handle_binary_message get_room_count get_connection_count
room_left = (refl, refl)

-- A stranger is forwarded the private message to "bob": the join, the message, the bytes, the leave.
stranger_reads : length (forwarded "eve" (λ msg. true) (map got ended.sent)) ≡ 4
unfolding handle_socket receive register disconnect handle_text_message handle_client_message
    join_room join send set_room lookup insert remove broadcast_leave send_private_message
    handle_binary_message forwarded forwards
stranger_reads = refl
