-- ===== src/Net/Session/System.antt =====
-- A `WebsocketSession` among its callers and the operations that it set going. The members run one at
-- a time: the handlers on the strand, and the calls of a client between them. The network decides
-- which operation ends next, and how.
use nbsdk.Prelude.{List, [], ◌∷◌, ◌++◌, some, ◌≡◌, Text}
use nbsdk.Net.Session.{
  Session, Operation, ErrorCode, Effect, start, call, Reaction, connect, disconnect, send_data,
  complete,
}

pub record System : Type 0 where
  pub session : Session
  -- The operations that have not ended.
  pub pending : List Operation

abbrev pub started : List Effect → List Operation
started [] = []
started (start op ∷ effects) = op ∷ started effects
started (call c ∷ effects) = started effects

abbrev pub react : List Operation → Reaction → System
react pending (session, effects) = record {
  session = session;
  pending = pending ++ started effects;
}

-- A client sets the callbacks before it connects.
pub data Step (w : System) : System → Type 0 where
  connects : Step w (react w.pending (connect w.session))
  disconnects : Step w (react w.pending (disconnect w.session))
  sends : (m : Text) → Step w (react w.pending (send_data w.session m))
  ends :
      (before after : List Operation) (op : Operation) (ec : ErrorCode) (message : Text)
      (r : Reaction)
      → w.pending ≡ before ++ (op ∷ after)
      → complete op ec message w.session ≡ some r
      → Step w (react (before ++ after) r)

pub data Reach (v : System) : System → Type 0 where
  here : Reach v v
  next : {w x : System} → Reach v w → Step w x → Reach v x

abbrev pub initial : Session → System
initial s = record { session = s; pending = [] }
