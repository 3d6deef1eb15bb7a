-- ===== src/Net/Session.antt =====
-- net/messenger/websocket_session.h and websocket_session.cc: the members of `WebsocketSession`.
-- A member returns the new object and what it set going, in order: asynchronous operations, whose
-- handlers run later, and calls of the callbacks. `none` stands for undefined behaviour.
pub mod System
pub mod Writes
pub mod Order
pub mod Stall
pub mod Shown
mod Tests
use nbsdk.Prelude.{
  ℕ, Bool, true, false, not, ◌||◌, Option, none, some, List, [], ◌∷◌, ◌++◌, if◌then◌else◌, Text,
  ltb, length,
}
use nbsdk.Prelude.Int.{ℤ}

pub data SessionState : Type 0 where
  unknown disconnected connecting connected error : SessionState

pub data SessionError : Type 0 where
  unknown_error connect_error send_error receive_error close_error disconnect_error : SessionError

-- `boost::system::error_code`, as far as the handlers tell codes apart. Its text is a function of it.
pub data ErrorCode : Type 0 where
  success operation_canceled websocket_closed : ErrorCode
  other : ℕ → ErrorCode

-- What was set going: `async_resolve`, `async_connect`, `async_handshake`, `async_read`,
-- `async_write`, `async_close`, and the post of `SendDataInner`.
pub data Operation : Type 0 where
  resolving dialing shaking reading closing : Operation
  writing : Text → Operation
  posting : Text → Operation

pub data Callback : Type 0 where
  on_connected on_closed : Callback
  on_error : SessionError → ErrorCode → Callback
  on_message : Text → Callback

pub data Effect : Type 0 where
  start : Operation → Effect
  call : Callback → Effect

-- The four flags say which callbacks are set.
pub record Session : Type 0 where
  pub host : Text
  pub port : ℤ
  pub state : SessionState
  pub send_msg_queue : List Text
  pub connect_callback : Bool
  pub close_callback : Bool
  pub error_callback : Bool
  pub receive_msg_callback : Bool

abbrev pub Reaction : Type 0
Reaction = Session × List Effect

unfoldable pub create : Text → ℤ → Session
create url port = record {
  host = url;
  port = port;
  state = disconnected;
  send_msg_queue = [];
  connect_callback = false;
  close_callback = false;
  error_callback = false;
  receive_msg_callback = false;
}

abbrev pub update_state : Session → SessionState → Session
update_state s state = record s { state = state }

-- `if (callback) callback(…)`
abbrev pub call_if : Bool → Callback → List Effect
call_if true c = call c ∷ []
call_if false c = []

-- `state_ == kDisconnected || state_ == kError`
abbrev pub is_idle : SessionState → Bool
is_idle disconnected = true
is_idle error = true
is_idle _ = false

abbrev pub is_disconnected : SessionState → Bool
is_disconnected disconnected = true
is_disconnected _ = false

unfoldable pub connect : Session → Reaction
connect s = if is_idle s.state then (update_state s connecting, start resolving ∷ []) else (s, [])

unfoldable pub disconnect : Session → Reaction
disconnect s = if is_disconnected s.state then (s, []) else (s, start closing ∷ [])

-- How the destructor ends. An operation that is started binds `shared_from_this` of the object, which
-- throws when no pointer owns the object any more; and what a destructor throws ends the process.
pub data Ended : Type 0 where
  ended terminated : Ended

abbrev without_owner : List Effect → Ended
without_owner [] = ended
without_owner (start op ∷ effects) = terminated
without_owner (call c ∷ effects) = without_owner effects

unfoldable pub destroy : Session → Ended
destroy s = let (s', effects) = disconnect s in without_owner effects

unfoldable pub send_data : Session → Text → Reaction
send_data s data' = if is_idle s.state then (s, []) else (s, start (posting data') ∷ [])

-- The state and the call by which the handlers report an error.
abbrev pub fail : Session → SessionError → ErrorCode → Reaction
fail s e ec = (update_state s error, call_if s.error_callback (on_error e ec))

unfoldable pub on_resolve : Session → ErrorCode → Reaction
on_resolve s success = (s, start dialing ∷ [])
on_resolve s ec = fail s connect_error ec

unfoldable pub on_connect : Session → ErrorCode → Reaction
on_connect s success = (s, start shaking ∷ [])
on_connect s ec = fail s connect_error ec

-- `async_read` into `buffer_`.
abbrev pub do_read : List Effect
do_read = start reading ∷ []

unfoldable pub on_handshake : Session → ErrorCode → Reaction
on_handshake s success =
    (update_state s connected, call_if s.connect_callback on_connected ++ do_read)
on_handshake s ec = fail s connect_error ec

unfoldable pub on_close : Session → ErrorCode → Reaction
on_close s success = (update_state s disconnected, call_if s.close_callback on_closed)
on_close s ec = fail s close_error ec

unfoldable pub on_disconnected : Session → ErrorCode → Reaction
on_disconnected s ec = fail s disconnect_error ec

-- `async_write` of the front of the queue, if there is one.
abbrev pub write_front : List Text → List Effect
write_front [] = []
write_front (m ∷ queue) = start (writing m) ∷ []

-- `send_msg_queue_.erase(send_msg_queue_.begin())` wants a queue that is not empty.
unfoldable pub written : Session → List Text → Option Reaction
written s [] = none
written s (m ∷ queue) = some (record s { send_msg_queue = queue }, write_front queue)

unfoldable pub on_write : Session → ErrorCode → Option Reaction
unfolding written
on_write s success = written s s.send_msg_queue
on_write s ec = some (fail s send_error ec)

-- `message` is what `buffer_` holds.
unfoldable pub on_read : Session → ErrorCode → Text → Reaction
unfolding on_disconnected
on_read s operation_canceled message = (s, [])
on_read s websocket_closed message = on_disconnected s websocket_closed
on_read s (other n) message = fail s receive_error (other n)
on_read s success message = (s, call_if s.receive_msg_callback (on_message message) ++ do_read)

unfoldable pub send_data_inner : Session → Text → Reaction
send_data_inner s data' =
    let queue = s.send_msg_queue ++ (data' ∷ []) in
    (record s { send_msg_queue = queue }, if ltb 1 (length queue) then [] else write_front queue)

-- The handler that each operation was given.
unfoldable pub complete : Operation → ErrorCode → Text → Session → Option Reaction
complete resolving ec message s = some (on_resolve s ec)
complete dialing ec message s = some (on_connect s ec)
complete shaking ec message s = some (on_handshake s ec)
complete reading ec message s = some (on_read s ec message)
complete closing ec message s = some (on_close s ec)
complete (writing m) ec message s = on_write s ec
complete (posting m) ec message s = some (send_data_inner s m)
