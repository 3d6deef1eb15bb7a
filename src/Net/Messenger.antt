-- ===== src/Net/Messenger.antt =====
-- net/include/messenger_interface.h, net/messenger/websocket_messenger.h and websocket_messenger.cc:
-- the members of `WebsocketMessenger`. A member returns the new object and what it did outside of it,
-- in order. What a listener does when it is called is a parameter: the calls that it makes at once.
pub mod Recovery
pub mod System
pub mod Late
pub mod Calm
pub mod Closing
pub mod Owner
pub mod Shown
mod Tests
use nbsdk.Prelude.{
  ℕ, Bool, true, false, not, ◌&&◌, Option, some, List, [], ◌∷◌, ◌++◌, if◌then◌else◌, Text, ◌>>=◌,
}
use nbsdk.Net.Session.{
  Session, SessionState, Operation, ErrorCode, SessionError, unknown_error, connect_error,
  send_error, receive_error, close_error, disconnect_error, Effect, start, call, Callback,
  on_connected, on_closed, on_error, on_message, Reaction, complete,
}
use nbsdk.Net.Session
use nbsdk.Prelude.Int.{ℤ}

pub data MessengerState : Type 0 where
  unknown_state messenger_closed messenger_opened messenger_error : MessengerState

pub data MessengerErrorCode : Type 0 where
  no_error opening_failed sending_failed receiving_failed : MessengerErrorCode

-- The calls of a `MessengerListener`.
pub data Notice : Type 0 where
  opened closed : Notice
  message : Text → Notice
  failed : MessengerErrorCode → ErrorCode → Notice

-- What a messenger does outside: `start` begins an operation of the session, `wait` is
-- `expires_from_now` and `async_wait` of the timer, `cancel` is its `cancel`.
pub data Action : Type 0 where
  begin : Operation → Action
  wait cancel : Action
  notify : Notice → Action

-- What a client can call.
pub data Call : Type 0 where
  open' close : Call
  send_message : Text → Call

-- `listener` says whether the weak pointer to the listener can be locked.
pub record Messenger : Type 0 where
  pub websocket : Session
  pub state : MessengerState
  pub try_to_recovery : Bool
  pub listener : Bool

abbrev pub Done : Type 0
Done = Messenger × List Action

-- What a member of the session did, which calls none of the callbacks.
abbrev begun : List Effect → List Action
begun [] = []
begun (start op ∷ effects) = begin op ∷ begun effects
begun (call c ∷ effects) = begun effects

abbrev with_session : Messenger → List Action → Reaction → Done
with_session m actions (session, effects) =
    (record m { websocket = session }, actions ++ begun effects)

unfoldable pub open_messenger : Messenger → Done
open_messenger m =
    let m' = record m { try_to_recovery = true } in
    with_session m' [] (Session.connect m'.websocket)

unfoldable pub close_messenger : Messenger → Done
close_messenger m =
    let m' = record m { try_to_recovery = false } in
    with_session m' (cancel ∷ []) (Session.disconnect m'.websocket)

unfoldable pub send : Messenger → Text → Done
send m msg = with_session m [] (Session.send_data m.websocket msg)

unfoldable pub make : Call → Messenger → Done
make open' m = open_messenger m
make close m = close_messenger m
make (send_message msg) m = send m msg

unfoldable pub make_all : List Call → Messenger → Done
make_all [] m = (m, [])
make_all (c ∷ calls) m =
    let (m₁, first) = make c m in let (m₂, rest) = make_all calls m₁ in (m₂, first ++ rest)

-- The handler of the recovery timer, which does not look at its error code.
unfoldable pub on_recovery : Messenger → ErrorCode → Done
on_recovery m ec = elim m.state [
  | messenger_closed ↦ (m, [])
  | _ ↦ with_session m [] (Session.connect m.websocket)
]

-- The errors after which the connection is to be restored.
abbrev pub need_restore : SessionError → Bool
need_restore connect_error = true
need_restore receive_error = true
need_restore disconnect_error = true
need_restore _ = false

-- What a listener is told of an error.
abbrev pub notices : SessionError → ErrorCode → List Notice
notices connect_error reason = failed opening_failed reason ∷ []
notices send_error reason = failed sending_failed reason ∷ []
notices receive_error reason = failed receiving_failed reason ∷ []
notices _ reason = []

module _ (answer : Notice → List Call) where
  -- `if (listener) listener->…`
  unfoldable pub tell : Messenger → List Notice → Done
  tell m [] = (m, [])
  tell m (n ∷ later) =
      if m.listener
      then (let (m₁, made) = make_all (answer n) m in (m₁, notify n ∷ made))
      else (m, [])

  unfoldable pub on_connected_callback : Messenger → Done
  on_connected_callback m = tell (record m { state = messenger_opened }) (opened ∷ [])

  unfoldable pub on_closed_callback : Messenger → Done
  on_closed_callback m = tell (record m { state = messenger_closed }) (closed ∷ [])

  unfoldable pub on_error_callback : Messenger → SessionError → ErrorCode → Done
  on_error_callback m error reason =
      let (m₁, told) = tell (record m { state = messenger_error }) (notices error reason) in
      (m₁, told ++ (if need_restore error && m₁.try_to_recovery then wait ∷ [] else []))

  unfoldable pub on_receive_msg_callback : Messenger → Text → Done
  on_receive_msg_callback m msg = tell m (message msg ∷ [])

  unfoldable pub on_callback : Messenger → Callback → Done
  on_callback m on_connected = on_connected_callback m
  on_callback m on_closed = on_closed_callback m
  on_callback m (on_error error reason) = on_error_callback m error reason
  on_callback m (on_message msg) = on_receive_msg_callback m msg

  -- The effects of a handler of the session, in order.
  unfoldable pub take_effects : Messenger → List Effect → Done
  take_effects m [] = (m, [])
  take_effects m (start op ∷ effects) =
      let (m₁, rest) = take_effects m effects in (m₁, begin op ∷ rest)
  take_effects m (call c ∷ effects) =
      let (m₁, first) = on_callback m c in
      let (m₂, rest) = take_effects m₁ effects in (m₂, first ++ rest)

  -- An operation of the session ends.
  unfoldable pub on_complete : Operation → ErrorCode → Text → Messenger → Option Done
  on_complete op ec msg m = do
    (session, effects) ← complete op ec msg m.websocket
    some (take_effects (record m { websocket = session }) effects)

-- The constructor: all four callbacks are set.
unfoldable pub create_messenger : Text → ℤ → Messenger
unfolding Session.create
create_messenger url port = record {
  websocket = record (Session.create url port) {
    connect_callback = true;
    close_callback = true;
    error_callback = true;
    receive_msg_callback = true;
  };
  state = messenger_closed;
  try_to_recovery = true;
  listener = false;
}
