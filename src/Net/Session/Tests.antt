-- ===== src/Net/Session/Tests.antt =====
-- A `WebsocketSession` that connects, takes two messages, and fails to write the first.
use nbsdk.Prelude.{List, [], ◌∷◌, ◌++◌, none, ◌≡◌, ◌≢◌, refl, Text, true}
use nbsdk.Prelude.Int.{pos}
use nbsdk.Net.Session.{
  Session, SessionState, disconnected, connected, error, Operation, resolving, dialing, shaking,
  reading, writing, posting, success, other, connect, send_data, complete, on_resolve, on_connect,
  on_handshake, on_write, send_data_inner,
}
use nbsdk.Net.Session.System.{System, connects, sends, ends, Reach, here, next, initial}
use nbsdk.Net.Session.Writes.{writes, OneWrite, Reach-OneWrite}
use nbsdk.Net.Session.Order.{posted, sent, Reach-order}
use nbsdk.Net.Session.Stall.{failed_write_stalls}

abbrev at : SessionState → List Text → List Operation → System
at state queue pending = record {
  session = record {
    host = b'h' ∷ [];
    port = pos 80;
    state = state;
    send_msg_queue = queue;
    connect_callback = true;
    close_callback = true;
    error_callback = true;
    receive_msg_callback = true;
  };
  pending = pending;
}

abbrev fresh : Session
fresh = (at disconnected [] []).session

abbrev hello : Text
hello = b'h' ∷ b'i' ∷ []

abbrev bye : Text
bye = b'b' ∷ []

connected_history : Reach (initial fresh) (at connected [] (reading ∷ []))
unfolding connect on_resolve on_connect on_handshake complete
connected_history =
    next
      (next (next (next here connects) (ends [] [] resolving success [] _ refl refl))
        (ends [] [] dialing success [] _ refl refl))
      (ends [] [] shaking success [] _ refl refl)

writing_history :
    Reach (initial fresh) (at connected (hello ∷ []) (reading ∷ posting bye ∷ writing hello ∷ []))
unfolding send_data send_data_inner complete
writing_history =
    next (next (next connected_history (sends hello)) (sends bye))
      (ends (reading ∷ []) (posting bye ∷ []) (posting hello) success [] _ refl refl)

Reach-OneWrite_example :
    OneWrite (hello ∷ []) (hello ∷ [])
    × (complete (writing hello) success [] (at connected (hello ∷ []) []).session ≢ none)
Reach-OneWrite_example =
    Reach-OneWrite fresh (at connected (hello ∷ []) (reading ∷ posting bye ∷ writing hello ∷ []))
      (reading ∷ posting bye ∷ []) [] (writing hello) success [] writing_history refl

Reach-order_example : hello ∷ [] ≡ hello ∷ []
unfolding writing_history connected_history posted sent
Reach-order_example =
    Reach-order fresh (at connected (hello ∷ []) (reading ∷ posting bye ∷ writing hello ∷ []))
      writing_history

failed_write_stalls_example :
    (writes (reading ∷ []) ≡ []) × ((more : List Text) × (hello ∷ bye ∷ [] ≡ (hello ∷ []) ++ more))
unfolding on_write send_data_inner complete
failed_write_stalls_example =
    failed_write_stalls fresh
      (at connected (hello ∷ []) (reading ∷ posting bye ∷ writing hello ∷ []))
      (at error (hello ∷ bye ∷ []) (reading ∷ [])) (reading ∷ posting bye ∷ []) [] hello (other 1) _
      writing_history refl (λ e. cc) refl
      (next here (ends (reading ∷ []) [] (posting bye) success [] _ refl refl))
