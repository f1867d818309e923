-- ===== src/Websocket/Membership.antt =====
-- websocket.rs: the rooms after the messages of a socket, against a description of membership alone.
use miwidothttp.Prelude.{
  ℕ, ◌≡◌, refl, ap, ◌∙◌, Bool, not, ◌||◌, ◌&&◌, Option-cases, inl, inr, Option, none, some, List,
  [], ◌∷◌, String, ◌=?◌, string_eq, arith, if◌then◌else◌,
}
use miwidothttp.Websocket.{
  WebSocketManager, ClientMessage, Incoming, text, binary, ping, pong, close, fails, join,
  join_room, leave_room, handle_client_message, handle_text_message, handle_binary_message,
  broadcast_message, send_private_message, broadcast_leave, send, register, receive, disconnect,
  handle_socket,
}
use miwidothttp.Websocket.Rooms.{in_room, in_room-join, in_room-leave}

-- What a client's message asks of the rooms.
pub data Move : Type 0 where
  enters exits : String → Move
  keeps : Move

pub move_or : (String → Move) → Option String → Move
move_or move none = keeps
move_or move (some room_id) = move room_id

-- Whether a connection is a member of a room after the move of another, or of itself.
abbrev pub moved : (mover : String) → Move → (conn_id room_id : String) → Bool → Bool
moved mover (enters q) conn_id room_id was = was || (mover =? conn_id && q =? room_id)
moved mover (exits q) conn_id room_id was = was && not (mover =? conn_id && q =? room_id)
moved mover keeps conn_id room_id was = was

module _ {J : Type 0} where
  unfoldable pub asked : ClientMessage J → Move
  unfolding move_or
  asked msg =
      if msg.action =? "join_room"
      then move_or enters msg.room_id
      else (if msg.action =? "leave_room" then move_or exits msg.room_id else keeps)

  join_room-rooms :
      (d q : String) (now : ℕ) (m : WebSocketManager J)
      → (join_room d q now m).rooms ≡ join d q now m.rooms
  unfolding join_room send
  join_room-rooms d q now m = ground arith

  pub client-in_room :
      (d : String) (msg : ClientMessage J) (now : ℕ) (m : WebSocketManager J) (c r : String)
      → in_room c r (handle_client_message d msg now m).rooms
        ≡ moved d (asked msg) c r (in_room c r m.rooms)
  unfolding handle_client_message asked move_or leave_room broadcast_message send_private_message
      send
  client-in_room d msg now m c r = elim (Option-cases msg.room_id) [
    | inl missing ↦ ground (arith, missing)
    | inr (q, found) ↦ ground (
      arith,
      found,
      join_room-rooms d q now m,
      in_room-join d q now m.rooms c r,
      in_room-leave d q m.rooms c r,
    )
  ]

module _ {J : Type 0} (parse : String → Option (ClientMessage J)) where
  unfoldable pub move_of : Incoming → Move
  move_of (text line) = elim (parse line) [ none ↦ keeps | some msg ↦ asked msg ]
  move_of (binary content) = keeps
  move_of (ping content) = keeps
  move_of (pong content) = keeps
  move_of close = keeps
  move_of fails = keeps

  -- Membership after what a socket yields, until it is closed or fails.
  unfoldable pub track : String → List Incoming → (conn_id room_id : String) → Bool → Bool
  track mover [] conn_id room_id was = was
  track mover (close ∷ more) conn_id room_id was = was
  track mover (fails ∷ more) conn_id room_id was = was
  track mover (i ∷ more) conn_id room_id was =
      track mover more conn_id room_id (moved mover (move_of i) conn_id room_id was)

  pub text-in_room :
      (d line : String) (now : ℕ) (m : WebSocketManager J) (c r : String)
      → in_room c r (handle_text_message parse d line now m).rooms
        ≡ moved d (move_of (text line)) c r (in_room c r m.rooms)
  unfolding handle_text_message move_of
  text-in_room d line now m c r = elim (Option-cases (parse line)) [
    | inl missing ↦ ground (arith, missing)
    | inr (msg, found) ↦ ground (arith, found, client-in_room d msg now m c r)
  ]

  pub receive-in_room :
      (d : String) (now : ℕ) (is : List Incoming) (m : WebSocketManager J) (c r : String)
      → in_room c r (receive parse d now is m).rooms ≡ track d is c r (in_room c r m.rooms)
  unfolding receive track move_of handle_text_message handle_binary_message send
  receive-in_room d now [] m c r = refl
  receive-in_room d now (text line ∷ is) m c r =
      receive-in_room d now is (handle_text_message parse d line now m) c r
      ∙ ap (track d is c r) (text-in_room d line now m c r)
  receive-in_room d now (binary content ∷ is) m c r = receive-in_room d now is _ c r
  receive-in_room d now (ping content ∷ is) m c r = receive-in_room d now is m c r
  receive-in_room d now (pong content ∷ is) m c r = receive-in_room d now is m c r
  receive-in_room d now (close ∷ is) m c r = refl
  receive-in_room d now (fails ∷ is) m c r = refl

  -- Whatever a socket yields, a connection is a member of a room after the socket's whole life if
  -- and only if it is by the description of membership alone: each `join_room` with a room adds the
  -- sender to that room, each `leave_room` with a room takes it out of that room, every other message
  -- changes nothing, what follows a close or a failure is not read, and the end of the socket takes
  -- it out of no room.
  pub handle_socket-in_room :
      (d : String) (now : ℕ) (is : List Incoming) (m : WebSocketManager J) (c r : String)
      → in_room c r (handle_socket parse d now is m).rooms ≡ track d is c r (in_room c r m.rooms)
  unfolding handle_socket disconnect broadcast_leave send register
  handle_socket-in_room d now is m c r = receive-in_room d now is (register d m) c r
