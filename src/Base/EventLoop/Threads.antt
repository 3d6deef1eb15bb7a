-- ===== src/Base/EventLoop/Threads.antt =====
-- Every thread that an `EventLoop` starts is waited for.
use nbsdk.Prelude.{
  ℕ, zero, suc, ◌+◌, Bool, true, false, List, [], ◌∷◌, ◌++◌, ◌≡◌, refl, subst, ap, arith,
  if◌then◌else◌,
}
use nbsdk.Prelude.Int.{ℤ}
use nbsdk.Base.EventLoop.{
  Action, reset, stop, spawn, run, join, EventLoop, Done, create, rounds, one_less, repeat, begun,
  loop, sync_loop, stop_if, exit, Call, loops, loops_here, exits, make, make_all,
}

-- How many threads the actions start, and how many they wait for.
unfoldable pub spawns : List Action → ℕ
spawns [] = 0
spawns (spawn ∷ rest) = suc (spawns rest)
spawns (_ ∷ rest) = spawns rest

unfoldable pub joins : List Action → ℕ
joins [] = 0
joins (join ∷ rest) = suc (joins rest)
joins (_ ∷ rest) = joins rest

spawns-append : (xs ys : List Action) → spawns (xs ++ ys) ≡ spawns xs + spawns ys
unfolding spawns
spawns-append [] ys = ground arith
spawns-append (reset ∷ xs) ys = spawns-append xs ys
spawns-append (stop ∷ xs) ys = spawns-append xs ys
spawns-append (spawn ∷ xs) ys = let rest = spawns-append xs ys in omega arith
spawns-append (run ∷ xs) ys = spawns-append xs ys
spawns-append (join ∷ xs) ys = spawns-append xs ys

joins-append : (xs ys : List Action) → joins (xs ++ ys) ≡ joins xs + joins ys
unfolding joins
joins-append [] ys = ground arith
joins-append (reset ∷ xs) ys = joins-append xs ys
joins-append (stop ∷ xs) ys = joins-append xs ys
joins-append (spawn ∷ xs) ys = joins-append xs ys
joins-append (run ∷ xs) ys = joins-append xs ys
joins-append (join ∷ xs) ys = let rest = joins-append xs ys in omega arith

-- What `n` starts and `n` waits count.
spawned : (n : ℕ) → (spawns (repeat n spawn) ≡ n) × (joins (repeat n spawn) ≡ 0)
unfolding spawns joins repeat
spawned zero = (refl, refl)
spawned (suc n) = let (s, j) = spawned n in (ap suc s, j)

joined : (n : ℕ) → (spawns (repeat n join) ≡ 0) × (joins (repeat n join) ≡ n)
unfolding spawns joins repeat
joined zero = (refl, refl)
joined (suc n) = let (s, j) = joined n in (s, ap suc j)

-- A loop that does not run holds no threads.
abbrev pub IsTidy : EventLoop → Type 0
IsTidy e = if e.running then Unit else (e.threads ≡ 0)

-- What one call keeps.
record Balanced (e : EventLoop) (d : Done) : Type 0 where
  tidy : IsTidy d.0
  balance : e.threads + spawns d.1 ≡ joins d.1 + d.0.threads

if-Balanced :
    (e : EventLoop) (c : Bool) (x y : Done)
    → (c ≡ true → Balanced e x)
    → (c ≡ false → Balanced e y)
    → Balanced e (if c then x else y)
if-Balanced e true x y h k = h refl
if-Balanced e false x y h k = k refl

nothing-Balanced : (e : EventLoop) → IsTidy e → Balanced e (e, [])
unfolding spawns joins
nothing-Balanced e t = record { tidy = t; balance = omega arith }

loop-Balanced : (e : EventLoop) → IsTidy e → Balanced e (loop e)
unfolding loop begun spawns joins
loop-Balanced e t =
    let (s, j) = spawned (rounds e.thread_count) in
    if-Balanced e e.running _ _ (λ r. nothing-Balanced e t)
      (λ r. record { tidy = tt; balance = omega arith })

sync_loop-Balanced : (e : EventLoop) → IsTidy e → Balanced e (sync_loop e)
unfolding sync_loop begun spawns joins
sync_loop-Balanced e t =
    let n = rounds (one_less e.thread_count) in
    let (s, j) = spawned n in
    let s' = spawns-append (repeat n spawn) (run ∷ []) in
    let j' = joins-append (repeat n spawn) (run ∷ []) in
    if-Balanced e e.running _ _ (λ r. nothing-Balanced e t)
      (λ r. record { tidy = tt; balance = omega arith })

stop_counts : (b : Bool) → (spawns (stop_if b) ≡ 0) × (joins (stop_if b) ≡ 0)
unfolding spawns joins stop_if
stop_counts true = (refl, refl)
stop_counts false = (refl, refl)

exit-Balanced : (e : EventLoop) → IsTidy e → Balanced e (exit e)
unfolding exit
exit-Balanced e t =
    let (s, j) = joined e.threads in
    let (s₁, j₁) = stop_counts e.stopped in
    let s' = spawns-append (stop_if e.stopped) (repeat e.threads join) in
    let j' = joins-append (stop_if e.stopped) (repeat e.threads join) in
    if-Balanced e e.running _ _ (λ r. record { tidy = refl; balance = omega arith })
      (λ r. nothing-Balanced e t)

make-Balanced : (c : Call) (e : EventLoop) → IsTidy e → Balanced e (make c e)
unfolding make
make-Balanced loops e t = loop-Balanced e t
make-Balanced loops_here e t = sync_loop-Balanced e t
make-Balanced exits e t = exit-Balanced e t

make_all-Balanced : (calls : List Call) (e : EventLoop) → IsTidy e → Balanced e (make_all calls e)
unfolding make_all
make_all-Balanced [] e t = nothing-Balanced e t
make_all-Balanced (c ∷ calls) e t =
    let one = make-Balanced c e t in
    let rest = make_all-Balanced calls (make c e).0 one.tidy in
    let b = one.balance in
    let b' = rest.balance in
    let s = spawns-append (make c e).1 (make_all calls (make c e).0).1 in
    let j = joins-append (make c e).1 (make_all calls (make c e).0).1 in
    record { tidy = rest.tidy; balance = omega arith }

if-threads :
    (c : Bool) (x y : Done)
    → (c ≡ true → x.0.threads ≡ 0)
    → (c ≡ false → y.0.threads ≡ 0)
    → (if c then x else y).0.threads ≡ 0
if-threads true x y h k = h refl
if-threads false x y h k = k refl

exit-threads : (e : EventLoop) → IsTidy e → (exit e).0.threads ≡ 0
unfolding exit
exit-threads e t =
    if-threads e.running _ _ (λ r. refl) (λ r. subst (λ c. if c then Unit else (e.threads ≡ 0)) r t)

created : (count : ℤ) → (create count).threads ≡ 0
unfolding create
created count = refl

-- The loop and the actions after some calls of a new loop.
abbrev pub after : ℤ → List Call → EventLoop
after count calls = (make_all calls (create count)).0

abbrev pub actions : ℤ → List Call → List Action
actions count calls = (make_all calls (create count)).1

-- Whatever calls are made of a new loop, one after the other: the threads that were started are those
-- that were waited for and those that it holds, and after one more `Exit` every thread that was started
-- has been waited for.
pub make_all-joins :
    (count : ℤ) (calls : List Call)
    → (spawns (actions count calls) ≡ joins (actions count calls) + (after count calls).threads)
      × (spawns (actions count calls ++ (exit (after count calls)).1)
          ≡ joins (actions count calls ++ (exit (after count calls)).1))
unfolding create
make_all-joins count calls =
    let e = after count calls in
    let all = make_all-Balanced calls (create count) (created count) in
    let none_yet = created count in
    let last = exit-Balanced e all.tidy in
    let b = all.balance in
    let b' = last.balance in
    let gone = exit-threads e all.tidy in
    let s = spawns-append (actions count calls) (exit e).1 in
    let j = joins-append (actions count calls) (exit e).1 in (omega arith, omega arith)
