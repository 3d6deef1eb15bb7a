-- ===== src/Net/Messenger/Calm.antt =====
-- What a `WebsocketMessenger` that gave up recovery does not do: arm its timer, or begin a connection.
use nbsdk.Prelude.{
  ◌≡◌, refl, subst, Bool, true, false, ◌&&◌, List, [], ◌∷◌, ◌++◌, some, if◌then◌else◌, Text,
  some_path,
}
use nbsdk.Net.Session.{
  Session, SessionError, Operation, resolving, dialing, shaking, reading, closing, writing, posting,
  ErrorCode, success, operation_canceled, websocket_closed, other, Effect, start, call, Callback,
  on_connected, on_closed, on_error, on_message, Reaction, complete, call_if, on_resolve,
  on_connect, on_handshake, on_close, on_read, on_write, written, send_data_inner, write_front,
}
use nbsdk.Net.Session
use nbsdk.Net.Messenger.{
  Messenger, messenger_error, Notice, Action, begin, wait, cancel, notify, Call, open', close,
  send_message, Done, begun, close_messenger, send, make, make_all, tell, on_connected_callback,
  on_closed_callback, on_error_callback, on_receive_msg_callback, on_callback, take_effects,
  notices, need_restore,
}

-- Actions that neither arm the timer nor begin a connection.
abbrev pub AreCalm : List Action → Type 0
AreCalm [] = Unit
AreCalm (wait ∷ actions) = ⊥
AreCalm (begin resolving ∷ actions) = ⊥
AreCalm (_ ∷ actions) = AreCalm actions

abbrev pub AreCalmEffects : List Effect → Type 0
AreCalmEffects [] = Unit
AreCalmEffects (start resolving ∷ effects) = ⊥
AreCalmEffects (_ ∷ effects) = AreCalmEffects effects

abbrev pub IsNoOpen : Call → Type 0
IsNoOpen open' = ⊥
IsNoOpen _ = Unit

abbrev pub NeverOpen : List Call → Type 0
NeverOpen [] = Unit
NeverOpen (c ∷ calls) = IsNoOpen c × NeverOpen calls

abbrev pub IsCalm : Done → Type 0
IsCalm (m, actions) = (m.try_to_recovery ≡ false) × AreCalm actions

AreCalm-append : (xs ys : List Action) → AreCalm xs → AreCalm ys → AreCalm (xs ++ ys)
AreCalm-append [] ys a b = b
AreCalm-append (begin resolving ∷ xs) ys a b = absurd a
AreCalm-append (begin dialing ∷ xs) ys a b = AreCalm-append xs ys a b
AreCalm-append (begin shaking ∷ xs) ys a b = AreCalm-append xs ys a b
AreCalm-append (begin reading ∷ xs) ys a b = AreCalm-append xs ys a b
AreCalm-append (begin closing ∷ xs) ys a b = AreCalm-append xs ys a b
AreCalm-append (begin (writing m) ∷ xs) ys a b = AreCalm-append xs ys a b
AreCalm-append (begin (posting m) ∷ xs) ys a b = AreCalm-append xs ys a b
AreCalm-append (wait ∷ xs) ys a b = absurd a
AreCalm-append (cancel ∷ xs) ys a b = AreCalm-append xs ys a b
AreCalm-append (notify n ∷ xs) ys a b = AreCalm-append xs ys a b

closing_calm :
    (s : Session) (b : Bool)
    → let r : Reaction = if b then (s, []) else (s, start closing ∷ []) in AreCalm (begun r.1)
closing_calm s true = tt
closing_calm s false = tt

posting_calm :
    (s : Session) (msg : Text) (b : Bool)
    → let r : Reaction = if b then (s, []) else (s, start (posting msg) ∷ []) in AreCalm (begun r.1)
posting_calm s msg true = tt
posting_calm s msg false = tt

told-IsCalm :
    (m : Messenger) (n : Notice) (d : Done) (b : Bool)
    → m.try_to_recovery ≡ false
    → IsCalm d
    → IsCalm (if b then (d.0, notify n ∷ d.1) else (m, []))
told-IsCalm m n d true t c = c
told-IsCalm m n d false t c = (t, tt)

unarmed_calm : (need b : Bool) → b ≡ false → AreCalm (if need && b then wait ∷ [] else [])
unarmed_calm true true e = cc
unarmed_calm true false e = tt
unarmed_calm false b e = tt

pub make-IsCalm :
    (c : Call) (m : Messenger) → IsNoOpen c → m.try_to_recovery ≡ false → IsCalm (make c m)
unfolding make close_messenger send Session.disconnect Session.send_data
make-IsCalm open' m o t = absurd o
make-IsCalm close m o t =
    (refl, closing_calm m.websocket (Session.is_disconnected m.websocket.state))
make-IsCalm (send_message msg) m o t =
    (t, posting_calm m.websocket msg (Session.is_idle m.websocket.state))

make_all-IsCalm :
    (calls : List Call) (m : Messenger)
    → NeverOpen calls
    → m.try_to_recovery ≡ false
    → IsCalm (make_all calls m)
unfolding make_all
make_all-IsCalm [] m o t = (t, tt)
make_all-IsCalm (c ∷ calls) m o t =
    let first = make-IsCalm c m o.0 t in
    let rest = make_all-IsCalm calls (make c m).0 o.1 first.0 in
    (rest.0, AreCalm-append (make c m).1 (make_all calls (make c m).0).1 first.1 rest.1)

-- No handler of a session begins a resolution.
call_if_calm : (b : Bool) (c : Callback) → AreCalmEffects (call_if b c)
call_if_calm true c = tt
call_if_calm false c = tt

call_if_reading_calm :
    (b : Bool) (c : Callback) → AreCalmEffects (call_if b c ++ (start reading ∷ []))
call_if_reading_calm true c = tt
call_if_reading_calm false c = tt

front_calm : (queue : List Text) → AreCalmEffects (write_front queue)
front_calm [] = tt
front_calm (m ∷ queue) = tt

inner_calm : (queue : List Text) (b : Bool) → AreCalmEffects (if b then [] else write_front queue)
inner_calm queue true = tt
inner_calm queue false = front_calm queue

written_calm :
    (s : Session) (queue : List Text) (r : Reaction) → written s queue ≡ some r → AreCalmEffects r.1
unfolding written
written_calm s [] r e = cc
written_calm s (m ∷ queue) r e = subst (λ r. AreCalmEffects r.1) (some_path e) (front_calm queue)

pub complete_calm :
    (op : Operation) (ec : ErrorCode) (msg : Text) (s : Session) (r : Reaction)
    → complete op ec msg s ≡ some r
    → AreCalmEffects r.1
unfolding complete on_resolve on_connect on_handshake on_close on_read on_write send_data_inner
complete_calm resolving success msg s r e = subst (λ r. AreCalmEffects r.1) (some_path e) tt
complete_calm resolving ec msg s r e =
    subst (λ r. AreCalmEffects r.1) (some_path e) (call_if_calm s.error_callback _)
complete_calm dialing success msg s r e = subst (λ r. AreCalmEffects r.1) (some_path e) tt
complete_calm dialing ec msg s r e =
    subst (λ r. AreCalmEffects r.1) (some_path e) (call_if_calm s.error_callback _)
complete_calm shaking success msg s r e =
    subst (λ r. AreCalmEffects r.1) (some_path e) (call_if_reading_calm s.connect_callback _)
complete_calm shaking ec msg s r e =
    subst (λ r. AreCalmEffects r.1) (some_path e) (call_if_calm s.error_callback _)
complete_calm reading operation_canceled msg s r e =
    subst (λ r. AreCalmEffects r.1) (some_path e) tt
complete_calm reading success msg s r e =
    subst (λ r. AreCalmEffects r.1) (some_path e) (call_if_reading_calm s.receive_msg_callback _)
complete_calm reading ec msg s r e =
    subst (λ r. AreCalmEffects r.1) (some_path e) (call_if_calm s.error_callback _)
complete_calm closing success msg s r e =
    subst (λ r. AreCalmEffects r.1) (some_path e) (call_if_calm s.close_callback _)
complete_calm closing ec msg s r e =
    subst (λ r. AreCalmEffects r.1) (some_path e) (call_if_calm s.error_callback _)
complete_calm (writing m) success msg s r e = written_calm s s.send_msg_queue r e
complete_calm (writing m) ec msg s r e =
    subst (λ r. AreCalmEffects r.1) (some_path e) (call_if_calm s.error_callback _)
complete_calm (posting m) ec msg s r e =
    subst (λ r. AreCalmEffects r.1) (some_path e) (inner_calm (s.send_msg_queue ++ (m ∷ [])) _)

module _ (answer : Notice → List Call) (never : (n : Notice) → NeverOpen (answer n)) where
  tell-IsCalm :
      (m : Messenger) (ns : List Notice) → m.try_to_recovery ≡ false → IsCalm (tell answer m ns)
  unfolding tell
  tell-IsCalm m [] t = (t, tt)
  tell-IsCalm m (n ∷ ns) t =
      told-IsCalm m n (make_all (answer n) m) m.listener t
        (make_all-IsCalm (answer n) m (never n) t)

  on_callback-IsCalm :
      (m : Messenger) (c : Callback) → m.try_to_recovery ≡ false → IsCalm (on_callback answer m c)
  unfolding on_callback on_connected_callback on_closed_callback on_error_callback
      on_receive_msg_callback
  on_callback-IsCalm m on_connected t = tell-IsCalm _ _ t
  on_callback-IsCalm m on_closed t = tell-IsCalm _ _ t
  on_callback-IsCalm m (on_message msg) t = tell-IsCalm _ _ t
  on_callback-IsCalm m (on_error error reason) t =
      let m' = record m { state = messenger_error } in
      let told = tell-IsCalm m' (notices error reason) t in
      (
        told.0,
        AreCalm-append (tell answer m' (notices error reason)).1 _ told.1
            (unarmed_calm (need_restore error) _ told.0),
      )

  pub take_effects-IsCalm :
      (m : Messenger) (effects : List Effect)
      → AreCalmEffects effects
      → m.try_to_recovery ≡ false
      → IsCalm (take_effects answer m effects)
  unfolding take_effects
  take_effects-IsCalm m [] a t = (t, tt)
  take_effects-IsCalm m (start resolving ∷ effects) a t = absurd a
  take_effects-IsCalm m (start dialing ∷ effects) a t = take_effects-IsCalm m effects a t
  take_effects-IsCalm m (start shaking ∷ effects) a t = take_effects-IsCalm m effects a t
  take_effects-IsCalm m (start reading ∷ effects) a t = take_effects-IsCalm m effects a t
  take_effects-IsCalm m (start closing ∷ effects) a t = take_effects-IsCalm m effects a t
  take_effects-IsCalm m (start (writing k) ∷ effects) a t = take_effects-IsCalm m effects a t
  take_effects-IsCalm m (start (posting k) ∷ effects) a t = take_effects-IsCalm m effects a t
  take_effects-IsCalm m (call c ∷ effects) a t =
      let first = on_callback-IsCalm m c t in
      let rest = take_effects-IsCalm (on_callback answer m c).0 effects a first.0 in
      (
        rest.0,
        AreCalm-append (on_callback answer m c).1
            (take_effects answer (on_callback answer m c).0 effects).1 first.1 rest.1,
      )
