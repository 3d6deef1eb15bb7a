-- ===== src/Net/Session/Shown.antt =====
-- The small members of `WebsocketSession` in net/messenger/websocket_session.h and its state in words.
use nbsdk.Prelude.{Bool, Text}
use nbsdk.Prelude.Int.{ℤ}
use nbsdk.Net.Strings.{codes}
use nbsdk.Net.Session.{Session, SessionState, unknown, disconnected, connecting, connected, error}

-- A callback that is set may be an empty function.
unfoldable pub set_connect_callback : Bool → Session → Session
set_connect_callback callback s = record s { connect_callback = callback }

unfoldable pub set_close_callback : Bool → Session → Session
set_close_callback callback s = record s { close_callback = callback }

unfoldable pub set_error_callback : Bool → Session → Session
set_error_callback callback s = record s { error_callback = callback }

unfoldable pub set_receive_msg_callback : Bool → Session → Session
set_receive_msg_callback callback s = record s { receive_msg_callback = callback }

unfoldable pub current_state : Session → SessionState
current_state s = s.state

unfoldable pub host_url : Session → Text
host_url s = s.host

unfoldable pub host_port : Session → ℤ
host_port s = s.port

-- Nothing calls it but lines that are commented out.
unfoldable pub state_to_string : SessionState → Text
state_to_string unknown = codes "Unknown"
state_to_string disconnected = codes "Disconnected"
state_to_string connecting = codes "Connecting"
state_to_string connected = codes "Connected"
state_to_string error = codes "NetError"
