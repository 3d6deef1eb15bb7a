-- ===== src/Base/EventLoop/Leaving.antt =====
-- base/event_loop.cc: `Exit` in the steps that its caller takes, among the threads of the loop.
pub mod Ends
mod Tests
use nbsdk.Prelude.{
  ℕ, zero, suc, ◌+◌, Bool, true, false, List, [], ◌∷◌, ◌++◌, ◌≡◌, refl, sym, ◌∙◌, ap, arith, Option,
  none, some, if◌then◌else◌, ◌⊎◌, inl, inr, Bool-cases,
}
use nbsdk.Base.EventLoop.{EventLoop, exit}

-- A thread of `threads_`: in a handler that has so many steps to go, in `run` without a handler, or
-- returned from `run`.
pub data Worker : Type 0 where
  busy : ℕ → Worker
  waiting over : Worker

-- Where the caller of `Exit` is: at its beginning, at the joins, or returned.
pub data Phase : Type 0 where
  asked joining gone : Phase

-- `workers` are the threads of `threads_` that are not joined yet.
pub record Scene : Type 0 where
  pub loop : EventLoop
  pub workers : List Worker
  pub phase : Phase

-- One round of the loop that joins, or what stands behind it; none while a thread has not returned.
join_next : EventLoop → List Worker → Option Scene
join_next e [] =
    some record { loop = record e { running = false; threads = 0 }; workers = []; phase = gone }
join_next e (over ∷ ws) = some record { loop = e; workers = ws; phase = joining }
join_next e (busy k ∷ ws) = none
join_next e (waiting ∷ ws) = none

begin_exit : EventLoop → List Worker → Scene
begin_exit e ws =
    if e.running
    then record { loop = record e { stopped = true }; workers = ws; phase = joining }
    else record { loop = e; workers = ws; phase = gone }

step_at : Phase → EventLoop → List Worker → Option Scene
step_at asked e ws = some (begin_exit e ws)
step_at joining e ws = join_next e ws
step_at gone e ws = none

-- The next step of the caller of `Exit`.
pub exit_step : Scene → Option Scene
exit_step s = step_at s.phase s.loop s.workers

-- What a thread that is in `io_context::run` may do: go on with its handler, end it, take another one
-- while the context is not stopped, and return when it is.
pub data Works (stopped : Bool) (w : Worker) : Worker → Type 0 where
  proceeds : (k : ℕ) → w ≡ busy (suc k) → Works stopped w (busy k)
  ends : w ≡ busy 0 → Works stopped w waiting
  takes : (k : ℕ) → w ≡ waiting → stopped ≡ false → Works stopped w (busy k)
  returns : w ≡ waiting → stopped ≡ true → Works stopped w over

pub data Step (s : Scene) : Scene → Type 0 where
  leaves : (t : Scene) → exit_step s ≡ some t → Step s t
  works :
      (before after : List Worker) (w w' : Worker)
      → s.workers ≡ before ++ (w ∷ after)
      → Works s.loop.stopped w w'
      → Step s (record s { workers = before ++ (w' ∷ after) })

-- So many steps, one after the other.
pub data Run (s : Scene) : ℕ → Scene → Type 0 where
  here : Run s 0 s
  next : {n : ℕ} {t u : Scene} → Run s n t → Step t u → Run s (suc n) u
