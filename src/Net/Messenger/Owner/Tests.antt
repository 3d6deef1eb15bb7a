-- ===== src/Net/Messenger/Owner/Tests.antt =====
-- Messengers that end.
use nbsdk.Prelude.{◌≡◌, refl, [], true, false, Text}
use nbsdk.Prelude.Int.{pos}
use nbsdk.Net.Strings.{codes}
use nbsdk.Net.Session.{connecting, terminated, ended}
use nbsdk.Net.Session
use nbsdk.Net.Messenger.{Messenger, create_messenger, close_messenger}
use nbsdk.Net.Messenger.Shown
use nbsdk.Net.Messenger.Owner.{Owner, create, create_web_socket_messenger, destroy_owner}

abbrev url : Text
url = codes "a.b"

abbrev silent : Messenger
silent = create_messenger url (pos 80)

abbrev dialing : Owner
dialing = record {
  messenger = record silent {
    websocket = record {
      host = url;
      port = pos 80;
      state = connecting;
      send_msg_queue = [];
      connect_callback = true;
      close_callback = true;
      error_callback = true;
      receive_msg_callback = true;
    };
  };
  loop = record { running = true; stopped = false; threads = 2; thread_count = pos 2 };
}

-- A messenger that was never opened ends well.
unopened :
    (destroy_owner (λ m. m) (create_web_socket_messenger url (pos 80) (pos 2)).owner).session
    ≡ ended
unfolding destroy_owner create_web_socket_messenger create create_messenger close_messenger
    Session.create Session.disconnect Session.destroy
unopened = refl

told : Shown.state_to_string (Shown.current_state silent) ≡ codes "MessengerClosed"
unfolding Shown.state_to_string Shown.current_state create_messenger
told = refl

-- One that is still dialing ends the process, when its session is destroyed.
dialing_ends : (destroy_owner (λ m. m) dialing).session ≡ terminated
unfolding destroy_owner close_messenger Session.disconnect Session.destroy
dialing_ends = refl
