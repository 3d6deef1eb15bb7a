-- ===== src/Base/EventLoop/Leaving/Tests.antt =====
-- `EventLoop::Exit` among two threads, step by step.
use nbsdk.Prelude.{◌+◌, true, false, List, [], ◌∷◌, ◌≡◌, refl, some, none, ◌>>=◌, ◌⊎◌}
use nbsdk.Prelude.Int.{pos}
use nbsdk.Base.EventLoop.{EventLoop, exit}
use nbsdk.Base.EventLoop.Leaving.{
  Worker, busy, waiting, over, Scene, joining, join_next, begin_exit, step_at, exit_step, returns,
  proceeds, Step, leaves, works, Run, here, next,
}
use nbsdk.Base.EventLoop.Leaving.Ends.{asks, has_left, remaining, Run-has_left}

abbrev two_threads : EventLoop
two_threads = record { running = true; stopped = false; threads = 2; thread_count = pos 2 }

abbrev scene : List Worker → Scene
scene ws = record { loop = record two_threads { stopped = true }; workers = ws; phase = joining }

-- With both threads returned, four more steps of the caller, and no fifth.
four_steps :
    (exit_step (asks two_threads (over ∷ over ∷ [])) >>= λ s₁.
    exit_step s₁ >>= λ s₂. exit_step s₂ >>= λ s₃. exit_step s₃)
    ≡ some (has_left two_threads)
unfolding exit_step step_at begin_exit join_next exit
four_steps = refl

waits : exit_step (scene (busy 1 ∷ waiting ∷ [])) ≡ none
unfolding exit_step step_at join_next
waits = refl

stopped_run : Run (asks two_threads (busy 1 ∷ waiting ∷ [])) 1 (scene (busy 1 ∷ waiting ∷ []))
unfolding exit_step step_at begin_exit
stopped_run = next here (leaves _ refl)

two_more : Run (scene (busy 1 ∷ waiting ∷ [])) 2 (scene (busy 0 ∷ over ∷ []))
two_more =
    next (next here (works (busy 1 ∷ []) [] waiting over refl (returns refl refl)))
      (works [] (over ∷ []) (busy 1) (busy 0) refl (proceeds 0 refl))

Run-has_left_example :
    (exit_step (asks two_threads (busy 1 ∷ waiting ∷ [])) ≡ some (scene (busy 1 ∷ waiting ∷ [])))
    × ((scene (busy 0 ∷ over ∷ [])).loop.stopped ≡ true)
    × (2 + remaining (scene (busy 0 ∷ over ∷ [])) ≡ remaining (scene (busy 1 ∷ waiting ∷ [])))
    × ((scene (busy 0 ∷ over ∷ []) ≡ has_left two_threads)
        ⊎ ((u : Scene) × Step (scene (busy 0 ∷ over ∷ [])) u))
Run-has_left_example =
    Run-has_left two_threads (busy 1 ∷ waiting ∷ []) 1 2 (scene (busy 1 ∷ waiting ∷ []))
      (scene (busy 0 ∷ over ∷ [])) refl stopped_run (λ e. cc) two_more
