-- ===== src/Websocket/Invariant.antt =====
-- websocket.rs: the states that any interleaving of sockets reaches.
use miwidothttp.Prelude.{
  ℕ, ◌≡◌, refl, ◌∙◌, ◌≢◌, Bool, true, false, Option, none, some, [], ◌∷◌, String, ◌=?◌, string_eq,
  arith, if◌then◌else◌,
}
use miwidothttp.Prelude.Assoc.{lookup, lookup-insert, lookup-remove}
use miwidothttp.Websocket.{
  WebSocketManager, BroadcastMessage, ClientMessage, Incoming, text, binary, ping, pong, close,
  fails, join_room, leave_room, handle_client_message, handle_text_message, handle_binary_message,
  broadcast_message, send_private_message, broadcast_leave, send, register, receive, disconnect,
  room_of, new,
}
use miwidothttp.Websocket.Membership.{Move, text-in_room, moved, move_of, enters, exits, keeps}
use miwidothttp.Websocket.Rooms.{
  in_room, in_room-join, in_room-leave, room_of-set_room, room_of-missing, NoEmptyRoom,
  join-NoEmptyRoom, leave-NoEmptyRoom,
}

module _ {J : Type 0} where
  -- A connection is a member of the room that it last put itself in, and no room is empty.
  pub record Inv (m : WebSocketManager J) : Type 0 where
    pub is_member : (c r : String) → room_of c m.connections ≡ some r → in_room c r m.rooms ≡ true
    pub no_empty_room : NoEmptyRoom m.rooms

  new-Inv : Inv new
  unfolding new room_of lookup
  new-Inv = record { is_member = λ c r h. cc; no_empty_room = λ r room h. cc }

  register-Inv : (d : String) (m : WebSocketManager J) → Inv m → Inv (register d m)
  unfolding register room_of
  register-Inv d m v = record {
    is_member = λ c r h. ground (
      arith,
      lookup-insert d c record { id = d; user_id = none; room_id = none; metadata = [] }
          m.connections,
      v.is_member c r,
    );
    no_empty_room = v.no_empty_room;
  }

  disconnect-Inv :
      (d : String) (now : ℕ) (m : WebSocketManager J) → Inv m → Inv (disconnect d now m)
  unfolding disconnect broadcast_leave send room_of
  disconnect-Inv d now m v = record {
    is_member = λ c r h. ground (arith, lookup-remove d c m.connections, v.is_member c r);
    no_empty_room = v.no_empty_room;
  }

  join-Inv : (d q : String) (now : ℕ) (m : WebSocketManager J) → Inv m → Inv (join_room d q now m)
  unfolding join_room send
  join-Inv d q now m v = record {
    is_member = λ c r h. ground (
      arith,
      in_room-join d q now m.rooms c r,
      room_of-set_room d c (some q) m.connections,
      v.is_member c r,
      string_eq.test_iff q r,
    );
    no_empty_room = ground (arith, join-NoEmptyRoom d q now m.rooms v.no_empty_room);
  }

  leave-Inv : (d q : String) (m : WebSocketManager J) → Inv m → Inv (leave_room d q m)
  unfolding leave_room
  leave-Inv d q m v = record {
    is_member = λ c r h. ground (
      arith,
      in_room-leave d q m.rooms c r,
      room_of-set_room d c none m.connections,
      room_of-missing d m.connections,
      string_eq.test_iff d c,
      v.is_member c r,
    );
    no_empty_room = leave-NoEmptyRoom d q m.rooms v.no_empty_room;
  }

  send-Inv : (msg : BroadcastMessage J) (m : WebSocketManager J) → Inv m → Inv (send msg m)
  unfolding send
  send-Inv msg m v = record { is_member = v.is_member; no_empty_room = v.no_empty_room }

  if-Inv : (b : Bool) {x y : WebSocketManager J} → Inv x → Inv y → Inv (if b then x else y)
  if-Inv true p q = p
  if-Inv false p q = q

  some-Inv :
      {A : Type 0} (o : Option A) {m : WebSocketManager J} {f : A → WebSocketManager J}
      → Inv m
      → ((a : A) → Inv (f a))
      → Inv (elim o [ none ↦ m | some a ↦ f a ])
  some-Inv none v h = v
  some-Inv (some a) v h = h a

  client-Inv :
      (d : String) (msg : ClientMessage J) (now : ℕ) (m : WebSocketManager J)
      → Inv m
      → Inv (handle_client_message d msg now m)
  unfolding handle_client_message broadcast_message send_private_message
  client-Inv d msg now m v =
      if-Inv (msg.action =? "join_room") (some-Inv msg.room_id v (λ q. join-Inv d q now m v)) (
        if-Inv (msg.action =? "leave_room") (some-Inv msg.room_id v (λ q. leave-Inv d q m v)) (
          if-Inv (msg.action =? "broadcast") (send-Inv _ m v) (
            if-Inv (msg.action =? "private_message")
              (some-Inv msg.target_id v (λ t. send-Inv _ m v)) v)))

moved-other :
    (d : String) (move : Move) (c r : String) (was : Bool) → d ≢ c → moved d move c r was ≡ was
moved-other d (enters q) c r was h = ground (arith, string_eq.test_iff d c)
moved-other d (exits q) c r was h = ground (arith, string_eq.test_iff d c)
moved-other d keeps c r was h = refl

module _ {J : Type 0} (parse : String → Option (ClientMessage J)) where
  -- A step of the socket of a connection: it opens, it yields one message, or it ends.
  pub data Step (m : WebSocketManager J) : String → WebSocketManager J → Type 0 where
    opens : (d : String) → Step m d (register d m)
    yields : (d : String) (now : ℕ) (i : Incoming) → Step m d (receive parse d now (i ∷ []) m)
    ends : (d : String) (now : ℕ) → Step m d (disconnect d now m)

  -- Steps of any sockets.
  pub data Reach (m : WebSocketManager J) : WebSocketManager J → Type 0 where
    here : Reach m m
    next : {n p : WebSocketManager J} {d : String} → Reach m n → Step n d p → Reach m p

  -- Steps of sockets other than that of the given connection.
  pub data Others (c : String) (m : WebSocketManager J) : WebSocketManager J → Type 0 where
    none_yet : Others c m m
    and_then :
        {n p : WebSocketManager J} {d : String} → Others c m n → d ≢ c → Step n d p → Others c m p

  text-Inv :
      (d line : String) (now : ℕ) (m : WebSocketManager J)
      → Inv m
      → Inv (handle_text_message parse d line now m)
  unfolding handle_text_message
  text-Inv d line now m v = some-Inv (parse line) v (λ msg. client-Inv d msg now m v)

  Step-Inv : {d : String} {m n : WebSocketManager J} → Step m d n → Inv m → Inv n
  unfolding receive handle_binary_message
  Step-Inv {m} (opens d) v = register-Inv d m v
  Step-Inv {m} (yields d now (text line)) v = text-Inv d line now m v
  Step-Inv {m} (yields d now (binary content)) v = send-Inv _ m v
  Step-Inv {m} (yields d now (ping content)) v = v
  Step-Inv {m} (yields d now (pong content)) v = v
  Step-Inv {m} (yields d now close) v = v
  Step-Inv {m} (yields d now fails) v = v
  Step-Inv {m} (ends d now) v = disconnect-Inv d now m v

  -- Whatever the interleaving of the sockets' steps by which a state is reached from a new manager,
  -- in that state a connection that has a room is a member of that room, and every room that is
  -- kept has a member.
  pub sockets-Inv : {m : WebSocketManager J} → Reach new m → Inv m
  sockets-Inv here = new-Inv
  sockets-Inv (next r s) = Step-Inv s (sockets-Inv r)

  Step-others :
      {d : String} {m n : WebSocketManager J} (c r : String)
      → d ≢ c
      → Step m d n
      → in_room c r n.rooms ≡ in_room c r m.rooms
  unfolding register disconnect broadcast_leave send receive handle_binary_message
  Step-others {m} c r other (opens d) = refl
  Step-others {m} c r other (yields d now (text line)) =
      text-in_room parse d line now m c r
      ∙ moved-other d (move_of parse (text line)) c r (in_room c r m.rooms) other
  Step-others {m} c r other (yields d now (binary content)) = refl
  Step-others {m} c r other (yields d now (ping content)) = refl
  Step-others {m} c r other (yields d now (pong content)) = refl
  Step-others {m} c r other (yields d now close) = refl
  Step-others {m} c r other (yields d now fails) = refl
  Step-others {m} c r other (ends d now) = refl

  -- When the socket of a connection ends, and whatever steps other connections' sockets then take,
  -- the connection is a member of exactly the rooms that it was a member of before.
  pub left_behind :
      (c r : String) (now : ℕ) (m : WebSocketManager J) {n : WebSocketManager J}
      → Others c (disconnect c now m) n
      → in_room c r n.rooms ≡ in_room c r m.rooms
  unfolding disconnect broadcast_leave send
  left_behind c r now m none_yet = refl
  left_behind c r now m (and_then o other s) = Step-others c r other s ∙ left_behind c r now m o
