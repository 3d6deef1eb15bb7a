-- ===== src/Net/Messenger/Owner.antt =====
-- net/messenger/websocket_messenger.cc and messenger_factory.cc: a messenger with the `EventLoop` that it
-- owns, from its constructor, which starts the loop's threads, to its destructor.
mod Tests
use nbsdk.Prelude.{
  ℕ, zero, suc, ◌+◌, ◌≡◌, ◌≢◌, refl, sym, ap, ◌∙◌, arith, Bool, true, false, List, [], ◌∷◌, ◌++◌,
  Text, if◌then◌else◌,
}
use nbsdk.Prelude.Int.{ℤ}
use nbsdk.Base.EventLoop
use nbsdk.Base.EventLoop.{EventLoop}
use nbsdk.Base.EventLoop.Threads.{spawns, joins}
use nbsdk.Net.Session.{
  Session, SessionState, disconnected, error, is_disconnected, ErrorCode, success, on_close, Ended,
  ended, terminated, destroy,
}
use nbsdk.Net.Session.Shown.{
  set_connect_callback, set_close_callback, set_error_callback, set_receive_msg_callback,
}
use nbsdk.Net.Session
use nbsdk.Net.Messenger.{
  Messenger, MessengerState, messenger_closed, Action, close_messenger, create_messenger,
}

pub record Owner : Type 0 where
  pub messenger : Messenger
  pub loop : EventLoop

pub record Built : Type 0 where
  pub owner : Owner
  pub threads : List EventLoop.Action

-- The constructor.
unfoldable pub create : Text → ℤ → ℤ → Built
create url port thread_count =
    let (loop, threads) = EventLoop.loop (EventLoop.create thread_count) in
    record {
      owner = record { messenger = create_messenger url port; loop = loop };
      threads = threads;
    }

-- `MessengerFactory::CreateWebSocketMessenger`
unfoldable pub create_web_socket_messenger : Text → ℤ → ℤ → Built
unfolding create
create_web_socket_messenger url port thread_count = create url port thread_count

pub record Destroyed : Type 0 where
  pub actions : List Action
  pub threads : List EventLoop.Action
  pub loop : EventLoop
  pub session : Ended

-- The destructor, then those of the members: that of the loop calls `Exit` once more, and that of the
-- session comes last. `meanwhile` is what the loop's threads make of
-- the messenger between `Close` and the stop. A callback that runs then asks for an owner of the
-- messenger, which has none any more, and throws if there is a listener: that is left out.
unfoldable pub destroy_owner : (Messenger → Messenger) → Owner → Destroyed
destroy_owner meanwhile o =
    let (m, actions) = close_messenger o.messenger in
    let (loop, threads) = EventLoop.exit o.loop in
    let (loop', threads') = EventLoop.exit loop in
    record {
      actions = actions;
      threads = threads ++ threads';
      loop = loop';
      session = destroy (meanwhile m).websocket;
    }
