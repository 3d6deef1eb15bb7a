-- ===== src/Net/Messenger/Late.antt =====
-- What becomes of a wait of the recovery timer that is under way when `WebsocketMessenger::Close` is called.
use nbsdk.Prelude.{
  ◌≡◌, ◌≢◌, refl, ap, ◌∙◌, true, false, List, [], ◌∷◌, ◌++◌, arith, Bool-cases, inl, inr, sym,
}
use nbsdk.Net.Session.{
  is_idle, is_disconnected, update_state, connecting, resolving, Operation, ErrorCode,
  operation_canceled,
}
use nbsdk.Net.Session
use nbsdk.Net.Messenger.{
  Messenger, messenger_closed, Notice, begin, Call, close, close_messenger, make, on_recovery,
}
use nbsdk.Net.Messenger.System.{System, aborted, resume, Step, makes, expires}

-- The system after `Close`, and when then its first wait has ended.
abbrev pub after_close : System → System
after_close w = resume w.pending w.timers (make close w.messenger)

abbrev pub after_wait : System → List ErrorCode → System
after_wait w timers = resume w.pending timers (on_recovery w.messenger operation_canceled)

closed_system :
    (w : System)
    → ((after_close w).timers ≡ aborted w.timers)
      × ((after_close w).messenger ≡ record w.messenger { try_to_recovery = false })
unfolding make close_messenger Session.disconnect
closed_system w = elim (Bool-cases (is_disconnected w.messenger.websocket.state)) [
  | inl yes' ↦ rw yes' (refl, refl)
  | inr no' ↦ rw no' (refl, refl)
]

late_system :
    (pending : List Operation) (timers : List ErrorCode) (m : Messenger)
    → m.state ≢ messenger_closed
    → is_idle m.websocket.state ≡ true
    → ((resume pending timers (on_recovery m operation_canceled)).pending
        ≡ pending ++ (resolving ∷ []))
      × ((resume pending timers (on_recovery m operation_canceled)).messenger.websocket.state
          ≡ connecting)
unfolding on_recovery Session.connect
late_system pending timers m n i =
    let d : on_recovery m operation_canceled
        ≡ (record m { websocket = update_state m.websocket connecting }, begin resolving ∷ []) =
      ground arith in
    (
      ap (λ x. (resume pending timers x).pending) d,
      ap (λ x. (resume pending timers x).messenger.websocket.state) d,
    )

-- With waits of the recovery timer under way, the messenger not in its closed state, and the session
-- disconnected or in its error state, as after an error: `Close` cancels each of the waits and clears the
-- wish for recovery. A cancelled wait still ends, with the code operation_canceled, and its handler looks
-- neither at the code nor at that wish: the messenger that its client has closed begins a new connection.
pub close_reconnects :
    (answer : Notice → List Call) (client : Call → Type 0) (w : System) (ec : ErrorCode)
    (timers : List ErrorCode)
    → client close
    → w.timers ≡ ec ∷ timers
    → w.messenger.state ≢ messenger_closed
    → is_idle w.messenger.websocket.state ≡ true
    → Step answer client w (after_close w)
      × ((after_close w).timers ≡ operation_canceled ∷ aborted timers)
      × ((after_close w).messenger.try_to_recovery ≡ false)
      × Step answer client (after_close w) (after_wait (after_close w) (aborted timers))
      × ((after_wait (after_close w) (aborted timers)).pending
          ≡ (after_close w).pending ++ (resolving ∷ []))
      × ((after_wait (after_close w) (aborted timers)).messenger.websocket.state ≡ connecting)
close_reconnects answer client w ec timers c t n i =
    let (cancelled, same) = closed_system w in
    let all = cancelled ∙ ap aborted t in
    let late =
      late_system (after_close w).pending (aborted timers) (after_close w).messenger
        (λ e. n (sym (ap (λ m. m.state) same) ∙ e))
        (ap (λ m. is_idle m.websocket.state) same ∙ i) in
    (
      makes close c,
      all,
      ap (λ m. m.try_to_recovery) same,
      expires [] (aborted timers) operation_canceled all,
      late.0,
      late.1,
    )
