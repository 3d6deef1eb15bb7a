-- ===== src/Net/Messenger/Recovery.antt =====
-- When `WebsocketMessenger` tries to restore a connection, and what it tells its listener.
use nbsdk.Prelude.{
  ℕ, suc, ◌+◌, ◌≡◌, refl, ap, ◌∙◌, Bool, true, false, ◌&&◌, List, [], ◌∷◌, ◌++◌, if◌then◌else◌,
  arith, append-nil,
}
use nbsdk.Net.Session.{
  Session, SessionState, is_idle, connecting, resolving, SessionError, unknown_error, connect_error,
  send_error, receive_error, close_error, disconnect_error, ErrorCode, Effect, start, call,
  Reaction,
}
use nbsdk.Net.Session
use nbsdk.Net.Messenger.{
  Messenger, MessengerState, messenger_error, Notice, failed, opening_failed, sending_failed,
  receiving_failed, Action, begin, wait, cancel, notify, Call, open', close, send_message, Done,
  begun, with_session, open_messenger, close_messenger, send, make, make_all, need_restore, notices,
  tell, on_error_callback,
}

-- How often the actions arm the timer.
abbrev pub waits : List Action → ℕ
waits [] = 0
waits (wait ∷ actions) = suc (waits actions)
waits (begin op ∷ actions) = waits actions
waits (cancel ∷ actions) = waits actions
waits (notify n ∷ actions) = waits actions

-- What a listener is told.
abbrev pub told : List Action → List Notice
told [] = []
told (notify n ∷ actions) = n ∷ told actions
told (wait ∷ actions) = told actions
told (begin op ∷ actions) = told actions
told (cancel ∷ actions) = told actions

pub waits-append : (xs ys : List Action) → waits (xs ++ ys) ≡ waits xs + waits ys
waits-append [] ys = omega arith
waits-append (wait ∷ xs) ys = omega (arith, waits-append xs ys)
waits-append (begin op ∷ xs) ys = waits-append xs ys
waits-append (cancel ∷ xs) ys = waits-append xs ys
waits-append (notify n ∷ xs) ys = waits-append xs ys

told-append : (xs ys : List Action) → told (xs ++ ys) ≡ told xs ++ told ys
told-append [] ys = refl
told-append (notify n ∷ xs) ys = ap (λ l. n ∷ l) (told-append xs ys)
told-append (wait ∷ xs) ys = told-append xs ys
told-append (begin op ∷ xs) ys = told-append xs ys
told-append (cancel ∷ xs) ys = told-append xs ys

-- What arms no timer, tells a listener nothing, and leaves the state as it was.
record IsSilent (before : MessengerState) (d : Done) : Type 0 where
  state : d.0.state ≡ before
  no_wait : waits d.1 ≡ 0
  none_told : told d.1 ≡ []

waits-begun : (effects : List Effect) → waits (begun effects) ≡ 0
waits-begun [] = refl
waits-begun (start op ∷ effects) = waits-begun effects
waits-begun (call c ∷ effects) = waits-begun effects

told-begun : (effects : List Effect) → told (begun effects) ≡ []
told-begun [] = refl
told-begun (start op ∷ effects) = told-begun effects
told-begun (call c ∷ effects) = told-begun effects

with_session-IsSilent :
    (m : Messenger) (actions : List Action) (r : Reaction)
    → waits actions ≡ 0
    → told actions ≡ []
    → IsSilent m.state (with_session m actions r)
with_session-IsSilent m actions r p q = record {
  state = refl;
  no_wait = omega (arith, waits-append actions (begun r.1), waits-begun r.1);
  none_told = rw (told-append actions (begun r.1), q) (told-begun r.1);
}

make-IsSilent : (c : Call) (m : Messenger) → IsSilent m.state (make c m)
unfolding make open_messenger close_messenger send
make-IsSilent open' m =
    with_session-IsSilent (record m { try_to_recovery = true }) [] (Session.connect m.websocket)
      refl refl
make-IsSilent close m =
    with_session-IsSilent (record m { try_to_recovery = false }) (cancel ∷ [])
      (Session.disconnect m.websocket) refl refl
make-IsSilent (send_message msg) m =
    with_session-IsSilent m [] (Session.send_data m.websocket msg) refl refl

make_all-IsSilent : (calls : List Call) (m : Messenger) → IsSilent m.state (make_all calls m)
unfolding make_all
make_all-IsSilent [] m = record { state = refl; no_wait = refl; none_told = refl }
make_all-IsSilent (c ∷ calls) m =
    let first = make-IsSilent c m in
    let rest = make_all-IsSilent calls (make c m).0 in
    record {
      state = rest.state ∙ first.state;
      no_wait = omega (
        arith,
        waits-append (make c m).1 (make_all calls (make c m).0).1,
        first.no_wait,
        rest.no_wait,
      );
      none_told =
          rw (told-append (make c m).1 (make_all calls (make c m).0).1, first.none_told)
            rest.none_told;
    }

waits-armed : (b : Bool) → waits (if b then wait ∷ [] else []) ≡ (if b then 1 else 0)
waits-armed true = refl
waits-armed false = refl

told-armed : (b : Bool) → told (if b then wait ∷ [] else []) ≡ []
told-armed true = refl
told-armed false = refl

module _ (answer : Notice → List Call) where
  -- What a listener that can be reached is told, and what is left of the notices otherwise.
  record Tells (m : Messenger) (ns : List Notice) (d : Done) : Type 0 where
    state : d.0.state ≡ m.state
    no_wait : waits d.1 ≡ 0
    told_all : told d.1 ≡ (if m.listener then ns else [])

  tell_none : (m : Messenger) → Tells m [] (tell answer m [])
  unfolding tell
  tell_none m = record { state = refl; no_wait = refl; told_all = ground arith }

  tell_one : (m : Messenger) (n : Notice) → Tells m (n ∷ []) (tell answer m (n ∷ []))
  unfolding tell
  tell_one m n =
      let silent = make_all-IsSilent (answer n) m in
      record {
        state = ground (arith, silent.state);
        no_wait = ground (arith, silent.no_wait);
        told_all = ground (arith, silent.none_told);
      }

  tell-notices :
      (m : Messenger) (error : SessionError) (reason : ErrorCode)
      → Tells m (notices error reason) (tell answer m (notices error reason))
  tell-notices m connect_error reason = tell_one m (failed opening_failed reason)
  tell-notices m send_error reason = tell_one m (failed sending_failed reason)
  tell-notices m receive_error reason = tell_one m (failed receiving_failed reason)
  tell-notices m unknown_error reason = tell_none m
  tell-notices m close_error reason = tell_none m
  tell-notices m disconnect_error reason = tell_none m

  on_error_does :
      (m : Messenger) (error : SessionError) (reason : ErrorCode)
      → let (m', done) = on_error_callback answer m error reason in
        (m'.state ≡ messenger_error)
        × (waits done ≡ (if need_restore error && m'.try_to_recovery then 1 else 0))
        × (told done ≡ (if m.listener then notices error reason else []))
  unfolding on_error_callback
  on_error_does m error reason =
      let t = tell-notices (record m { state = messenger_error }) error reason in
      let again =
        need_restore error
        && (tell answer (record m { state = messenger_error })
            (notices error reason)).0.try_to_recovery in
      let first = (tell answer (record m { state = messenger_error }) (notices error reason)).1 in
      (
        t.state,
        omega (
          arith,
          waits-append first (if again then wait ∷ [] else []),
          t.no_wait,
          waits-armed again,
        ),
        rw (told-append first (if again then wait ∷ [] else []), told-armed again, append-nil)
            t.told_all,
      )

  -- What `OnErrorCallback` does with one error: the timer is armed, once, if the error restores and recovery
  -- is still wanted when the listener has answered; and the listener, if it can be reached, is told `ns`.
  pub record Handles (m : Messenger) (restores : Bool) (ns : List Notice) (d : Done) : Type 0 where
    pub state : d.0.state ≡ messenger_error
    pub armed : waits d.1 ≡ (if restores && d.0.try_to_recovery then 1 else 0)
    pub told_all : told d.1 ≡ (if m.listener then ns else [])

  handles :
      (m : Messenger) (error : SessionError) (reason : ErrorCode)
      → Handles m
          (need_restore error)
          (notices error reason)
          (on_error_callback answer m error reason)
  handles m error reason =
      let d = on_error_does m error reason in record { state = d.0; armed = d.1; told_all = d.2 }

  -- Each error of the session puts the messenger into its error state. The timer is armed, once, if
  -- recovery is still wanted after the listener's answer and the error is a failure to connect or to
  -- read, or the end of the connection by the other side; it is not armed after a failure to send or to
  -- close. A listener that can be reached is told, once, of a failure to connect, to send or to receive,
  -- each by its own code and with the reason, and of nothing else.
  pub on_error_callback_lem :
      (m : Messenger) (reason : ErrorCode)
      → Handles m true
          (failed opening_failed reason ∷ [])
          (on_error_callback answer m connect_error reason)
        × Handles m false
            (failed sending_failed reason ∷ [])
            (on_error_callback answer m send_error reason)
        × Handles m true
            (failed receiving_failed reason ∷ [])
            (on_error_callback answer m receive_error reason)
        × Handles m false [] (on_error_callback answer m close_error reason)
        × Handles m true [] (on_error_callback answer m disconnect_error reason)
        × Handles m false [] (on_error_callback answer m unknown_error reason)
  on_error_callback_lem m reason = (
    handles m connect_error reason,
    handles m send_error reason,
    handles m receive_error reason,
    handles m close_error reason,
    handles m disconnect_error reason,
    handles m unknown_error reason,
  )
