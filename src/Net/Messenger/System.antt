-- ===== src/Net/Messenger/System.antt =====
-- A `WebsocketMessenger` with the operations of its session and the waits of its timer. A cancelled
-- wait ends like any other, with another error code.
use nbsdk.Prelude.{List, [], ◌∷◌, ◌++◌, some, ◌≡◌, Text}
use nbsdk.Net.Session.{Operation, ErrorCode, success, operation_canceled}
use nbsdk.Net.Messenger.{
  Messenger, Notice, Action, begin, wait, cancel, notify, Call, Done, make, on_recovery,
  on_complete,
}

pub record System : Type 0 where
  pub messenger : Messenger
  pub pending : List Operation
  -- The error codes with which the waits under way will end.
  pub timers : List ErrorCode

abbrev pub aborted : List ErrorCode → List ErrorCode
aborted [] = []
aborted (ec ∷ timers) = operation_canceled ∷ aborted timers

abbrev pub act : List Operation → List ErrorCode → Messenger → List Action → System
act pending timers m [] = record { messenger = m; pending = pending; timers = timers }
act pending timers m (begin op ∷ actions) = act (pending ++ (op ∷ [])) timers m actions
act pending timers m (wait ∷ actions) = act pending (aborted timers ++ (success ∷ [])) m actions
act pending timers m (cancel ∷ actions) = act pending (aborted timers) m actions
act pending timers m (notify n ∷ actions) = act pending timers m actions

abbrev pub resume : List Operation → List ErrorCode → Done → System
resume pending timers (m, actions) = act pending timers m actions

-- `client` says which calls the client makes, `answer` what the listener does when it is told.
module _ (answer : Notice → List Call) (client : Call → Type 0) where
  pub data Step (w : System) : System → Type 0 where
    makes : (c : Call) → client c → Step w (resume w.pending w.timers (make c w.messenger))
    ends :
        (before after : List Operation) (op : Operation) (ec : ErrorCode) (msg : Text) (d : Done)
        → w.pending ≡ before ++ (op ∷ after)
        → on_complete answer op ec msg w.messenger ≡ some d
        → Step w (resume (before ++ after) w.timers d)
    expires :
        (before after : List ErrorCode) (ec : ErrorCode)
        → w.timers ≡ before ++ (ec ∷ after)
        → Step w (resume w.pending (before ++ after) (on_recovery w.messenger ec))

  pub data Reach (v : System) : System → Type 0 where
    here : Reach v v
    next : {w x : System} → Reach v w → Step w x → Reach v x
