-- ===== src/Base/EventLoop/Race.antt =====
-- base/event_loop.cc: `Loop` in the steps of the threads that call it, in any order. A
-- step is taken whole; that two callers change `threads_` at the same time, which is undefined, is left out.
pub mod Threads
pub mod Passed
mod Tests
use nbsdk.Prelude.{ℕ, zero, suc, ◌+◌, Bool, true, false, List, [], ◌∷◌, ◌++◌, if◌then◌else◌}
use nbsdk.Prelude.Int.{ℤ}
use nbsdk.Base.EventLoop.{EventLoop, rounds}

-- Where a caller of `Loop` is: before the test of `running_`, before it sets it, before `reset`, in the
-- loop with so many threads still to start, or returned.
pub data Place : Type 0 where
  at_test at_set at_reset : Place
  starting : ℕ → Place
  returned : Place

abbrev pub Race : Type 0
Race = EventLoop × List Place

-- The next step of a caller.
pub caller_step : Place → EventLoop → EventLoop × Place
caller_step at_test e = (e, if e.running then returned else at_set)
caller_step at_set e = (record e { running = true }, at_reset)
caller_step at_reset e = (record e { stopped = false }, starting (rounds e.thread_count))
caller_step (starting zero) e = (e, returned)
caller_step (starting (suc n)) e = (record e { threads = e.threads + 1 }, starting n)
caller_step returned e = (e, returned)

-- A step of the caller with a number, and the steps of the callers that a list names, in its order.
pub turn : ℕ → Race → Race
turn i (e, []) = (e, [])
turn zero (e, p ∷ ps) = let (e₁, p₁) = caller_step p e in (e₁, p₁ ∷ ps)
turn (suc i) (e, p ∷ ps) = let (e₁, ps₁) = turn i (e, ps) in (e₁, p ∷ ps₁)

pub turns : List ℕ → Race → Race
turns [] r = r
turns (i ∷ schedule) r = turns schedule (turn i r)

pub copies : {A : Type 0} → ℕ → A → List A
copies zero a = []
copies (suc n) a = a ∷ copies n a
