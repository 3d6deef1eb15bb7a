-- ===== src/Base/EventLoop/Tests.antt =====
-- Runs of `EventLoop`, and its theorem at concrete calls.
use nbsdk.Prelude.{List, [], ◌∷◌, ◌++◌, ◌≡◌, refl, ◌+◌}
use nbsdk.Prelude.Int.{pos}
use nbsdk.Base.EventLoop.{
  Call, loops, loops_here, exits, exit, create, loop, sync_loop, rounds, one_less, repeat, begun,
  stop_if, make, make_all, reset, stop, spawn, run, join,
}
use nbsdk.Base.EventLoop.Threads.{after, actions, spawns, joins, make_all-joins}

abbrev busy : List Call
busy = loops ∷ loops ∷ exits ∷ loops_here ∷ []

actions-busy :
    actions (pos 2) busy ≡ reset ∷ spawn ∷ spawn ∷ stop ∷ join ∷ join ∷ reset ∷ spawn ∷ run ∷ []
unfolding create loop sync_loop rounds one_less repeat begun stop_if exit make make_all
actions-busy = refl

make_all-joins_example :
    (spawns (actions (pos 2) busy) ≡ joins (actions (pos 2) busy) + (after (pos 2) busy).threads)
    × (spawns (actions (pos 2) busy ++ (exit (after (pos 2) busy)).1)
        ≡ joins (actions (pos 2) busy ++ (exit (after (pos 2) busy)).1))
make_all-joins_example = make_all-joins (pos 2) busy
