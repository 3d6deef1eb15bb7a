-- ===== src/Base/EventLoop/Race/Tests.antt =====
-- Two callers of `EventLoop::Loop`, step by step.
use nbsdk.Prelude.{ℕ, List, ◌*◌, ◌≤◌, [], ◌∷◌, ◌++◌, ◌≡◌, refl}
use nbsdk.Prelude.Int.{pos}
use nbsdk.Base.EventLoop.{create, rounds, loop}
use nbsdk.Base.EventLoop.Race.{at_set, returned, caller_step, turn, turns, copies}
use nbsdk.Base.EventLoop.Race.Threads.{all_pass, rest, calling}
use nbsdk.Base.EventLoop.Race.Passed.{all_tested, turns_lem}

-- The second caller starts two threads more, since it tested before the first one set `running_`.
both_pass : (turns (all_pass 2 2) (calling (pos 2) 2)).0.threads ≡ 4
unfolding turns turn caller_step copies rounds create
both_pass = refl

-- The second caller tests when the first one has set it, and returns.
one_passes : (turns (0 ∷ 0 ∷ 1 ∷ (rest 2 ++ (1 ∷ 1 ∷ []))) (calling (pos 2) 2)).0.threads ≡ 2
unfolding turns turn caller_step copies rounds create
one_passes = refl

-- Two callers that take turns.
abbrev first : List ℕ
first = 1 ∷ 0 ∷ []

abbrev second : List ℕ
second = 0 ∷ 1 ∷ 0 ∷ 1 ∷ 0 ∷ 1 ∷ 0 ∷ 1 ∷ 0 ∷ 1 ∷ []

first_tests : (turns first (calling (pos 2) 2)).1 ≡ copies 2 at_set
unfolding turns turn caller_step copies create
first_tests = refl

second_ends : (turns second (turns first (calling (pos 2) 2))).1 ≡ copies 2 returned
unfolding turns turn caller_step copies create rounds
second_ends = refl

all_tested_example : (turns second (turns first (calling (pos 2) 2))).0.threads ≡ 2 * rounds (pos 2)
all_tested_example = all_tested (pos 2) 2 first second first_tests second_ends

turns_lem_example :
    ((turns (0 ∷ 1 ∷ 1 ∷ []) (calling (pos 2) 3)).0.threads ≤ 3 * rounds (pos 2))
    × ((turns (all_pass (rounds (pos 2)) 3) (calling (pos 2) 3)).0.threads ≡ 3 * rounds (pos 2))
    × ((turns (0 ∷ rest (rounds (pos 2))) (calling (pos 2) 1)).0 ≡ (loop (create (pos 2))).0)
turns_lem_example = turns_lem (pos 2) 3 (0 ∷ 1 ∷ 1 ∷ [])
