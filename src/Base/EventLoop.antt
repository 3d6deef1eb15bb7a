-- ===== src/Base/EventLoop.antt =====
-- base/event_loop.cc and base/include/event_loop.h: `EventLoop`. A member returns the new object and what
-- it does with the `io_context` and with threads, in order. Calls are taken one after the other,
-- and `Exit` is not called by a thread that the loop itself started.
pub mod Threads
pub mod Leaving
pub mod Race
mod Tests
use nbsdk.Prelude.{ℕ, zero, suc, ◌+◌, Bool, true, false, List, [], ◌∷◌, ◌++◌, if◌then◌else◌}
use nbsdk.Prelude.Int.{ℤ, pos, negsuc}

-- `reset` and `stop` are calls of the `io_context`; `spawn` starts a thread that runs it, `run` runs it
-- in the caller's thread, and `join` waits for a thread.
pub data Action : Type 0 where
  reset stop spawn run join : Action

-- `stopped` is that of `ioc_`, and `threads` how many threads `threads_` holds.
pub record EventLoop : Type 0 where
  pub running : Bool
  pub stopped : Bool
  pub threads : ℕ
  pub thread_count : ℤ

abbrev pub Done : Type 0
Done = EventLoop × List Action

pub create : ℤ → EventLoop
create count = record { running = false; stopped = false; threads = 0; thread_count = count }

-- `thread_count_` is taken to be above the least `int`, from which `SyncLoop` could not take one.
-- The rounds of `for (auto i = count; i > 0; --i)`.
pub rounds : ℤ → ℕ
rounds (pos n) = n
rounds (negsuc n) = 0

one_less : ℤ → ℤ
one_less (pos zero) = negsuc 0
one_less (pos (suc n)) = pos n
one_less (negsuc n) = negsuc (suc n)

repeat : ℕ → Action → List Action
repeat zero a = []
repeat (suc n) a = a ∷ repeat n a

-- What both loops do before the caller goes on.
begun : EventLoop → ℕ → EventLoop
begun e n = record e { running = true; stopped = false; threads = e.threads + n }

pub loop : EventLoop → Done
loop e =
    if e.running
    then (e, [])
    else (begun e (rounds e.thread_count), reset ∷ repeat (rounds e.thread_count) spawn)

-- The object as it is when `run` begins. The calls that come after this one are made by other threads
-- while it lasts, or when it is over.
pub sync_loop : EventLoop → Done
sync_loop e =
    let n = rounds (one_less e.thread_count) in
    if e.running then (e, []) else (begun e n, reset ∷ (repeat n spawn ++ (run ∷ [])))

stop_if : Bool → List Action
stop_if true = []
stop_if false = stop ∷ []

pub exit : EventLoop → Done
exit e =
    if e.running
    then (
      record e { running = false; stopped = true; threads = 0 },
      stop_if e.stopped ++ repeat e.threads join,
    )
    else (e, [])

-- A client's calls, and what they do together. The destructor calls `Exit`.
pub data Call : Type 0 where
  loops loops_here exits : Call

unfoldable pub make : Call → EventLoop → Done
make loops e = loop e
make loops_here e = sync_loop e
make exits e = exit e

unfoldable pub make_all : List Call → EventLoop → Done
make_all [] e = (e, [])
make_all (c ∷ calls) e =
    let (e₁, first) = make c e in let (e₂, rest) = make_all calls e₁ in (e₂, first ++ rest)
