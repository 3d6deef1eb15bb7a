-- ===== src/Net/Messenger/Closing.antt =====
-- A `WebsocketMessenger` that was closed with no wait of its timer under way stays closed.
use nbsdk.Prelude.{ℕ, suc, ◌≤◌, ◌≡◌, false, List, [], ◌∷◌}
use nbsdk.Net.Session.{Operation, resolving}
use nbsdk.Net.Messenger.{Messenger}
use nbsdk.Net.Messenger.System.{System}

-- How many resolutions, which are the first step of a connection, are among the operations.
abbrev pub resolutions : List Operation → ℕ
resolutions [] = 0
resolutions (resolving ∷ ops) = suc (resolutions ops)
resolutions (_ ∷ ops) = resolutions ops

-- What calm actions do to the operations and the timer.
record IsKept (pending : List Operation) (m : Messenger) (w : System) : Type 0 where
  messenger : w.messenger ≡ m
  timers : w.timers ≡ []
  resolutions_same : resolutions w.pending ≡ resolutions pending

-- No wish for recovery, no wait under way, and `n` connections at most that have just begun.
pub record IsShut (n : ℕ) (w : System) : Type 0 where
  pub no_recovery : w.messenger.try_to_recovery ≡ false
  pub no_wait : w.timers ≡ []
  pub few : resolutions w.pending ≤ n
