-- ===== src/Net/Messenger/Shown.antt =====
-- net/include/messenger_interface.h: the enumerations of a messenger in words, and the small members of
-- `WebsocketMessenger`.
use nbsdk.Prelude.{Bool, Text}
use nbsdk.Net.Strings.{codes}
use nbsdk.Net.Messenger.{
  MessengerState, unknown_state, messenger_closed, messenger_opened, messenger_error,
  MessengerErrorCode, no_error, opening_failed, sending_failed, receiving_failed, Messenger,
}

pub data MessengerType : Type 0 where
  unknown_type websocket : MessengerType

unfoldable pub state_to_string : MessengerState → Text
state_to_string unknown_state = codes "MessengerState"
state_to_string messenger_closed = codes "MessengerClosed"
state_to_string messenger_opened = codes "MessengerOpened"
state_to_string messenger_error = codes "MessengerError"

unfoldable pub error_to_string : MessengerErrorCode → Text
error_to_string no_error = codes "NoError"
error_to_string opening_failed = codes "OpenError"
error_to_string sending_failed = codes "SendError"
error_to_string receiving_failed = codes "ReceiveError"

-- Of the weak pointer only whether it can be locked is kept.
unfoldable pub set_messenger_listener : Bool → Messenger → Messenger
set_messenger_listener listener m = record m { listener = listener }

unfoldable pub messenger_type : Messenger → MessengerType
messenger_type m = websocket

unfoldable pub current_state : Messenger → MessengerState
current_state m = m.state
