-- ===== src/Net/Messenger/Tests.antt =====
-- A `WebsocketMessenger` after an error of its session.
use nbsdk.Prelude.{◌≡◌, refl, List, [], ◌∷◌, ◌++◌, true, false}
use nbsdk.Net.Session.{
  Session, error, connecting, reading, resolving, unknown_error, connect_error, send_error,
  receive_error, close_error, disconnect_error, operation_canceled, ErrorCode, success, other,
  websocket_closed,
}
use nbsdk.Net.Session
use nbsdk.Net.Messenger.{
  Messenger, messenger_error, messenger_closed, Notice, failed, opening_failed, sending_failed,
  receiving_failed, wait, notify, Call, on_error_callback, tell, make_all,
}
use nbsdk.Net.Messenger.Recovery.{Handles, on_error_callback_lem}
use nbsdk.Net.Messenger.Late.{after_close, after_wait, close_reconnects}
use nbsdk.Prelude.Int.{pos}
use nbsdk.Net.Messenger.System.{System, Step}

-- A listener that does nothing.
abbrev ignore : Notice → List Call
ignore n = []

abbrev broken : Messenger
broken = record {
  websocket = record {
    host = b'h' ∷ [];
    port = pos 80;
    state = error;
    send_msg_queue = [];
    connect_callback = true;
    close_callback = true;
    error_callback = true;
    receive_msg_callback = true;
  };
  state = messenger_error;
  try_to_recovery = true;
  listener = true;
}

on_error-broken :
    on_error_callback ignore broken receive_error (other 7)
    ≡ (broken, notify (failed receiving_failed (other 7)) ∷ wait ∷ [])
unfolding on_error_callback tell make_all
on_error-broken = refl

on_error_callback_lem_example :
    Handles ignore broken true
      (failed opening_failed (other 7) ∷ [])
      (on_error_callback ignore broken connect_error (other 7))
    × Handles ignore broken false
        (failed sending_failed (other 7) ∷ [])
        (on_error_callback ignore broken send_error (other 7))
    × Handles ignore broken true
        (failed receiving_failed (other 7) ∷ [])
        (on_error_callback ignore broken receive_error (other 7))
    × Handles ignore broken false [] (on_error_callback ignore broken close_error (other 7))
    × Handles ignore broken true [] (on_error_callback ignore broken disconnect_error (other 7))
    × Handles ignore broken false [] (on_error_callback ignore broken unknown_error (other 7))
on_error_callback_lem_example = on_error_callback_lem ignore broken (other 7)

-- An error has armed the timer.
abbrev armed : System
armed = record { messenger = broken; pending = []; timers = success ∷ [] }

abbrev Anything : Call → Type 0
Anything c = Unit

close_reconnects_example :
    Step ignore Anything armed (after_close armed)
    × ((after_close armed).timers ≡ operation_canceled ∷ [])
    × ((after_close armed).messenger.try_to_recovery ≡ false)
    × Step ignore Anything (after_close armed) (after_wait (after_close armed) [])
    × ((after_wait (after_close armed) []).pending
        ≡ (after_close armed).pending ++ (resolving ∷ []))
    × ((after_wait (after_close armed) []).messenger.websocket.state ≡ connecting)
close_reconnects_example = close_reconnects ignore Anything armed success [] tt refl (λ e. cc) refl

-- The client closes, and the session's close ends.
shut : System
shut = record { messenger = record broken { try_to_recovery = false }; pending = []; timers = [] }

closed : System
closed = record {
  messenger = record broken {
    try_to_recovery = false;
    state = messenger_closed;
    websocket = record broken.websocket { state = Session.disconnected };
  };
  pending = [];
  timers = [];
}
