-- ===== src/Memory/Fifo/Refine.antt =====
-- A valid `FifoBuffer` answers every sequence of calls as the queue of its bytes does.
use nbsdk.Prelude.{
  ℕ, ◌^◌, ◌≤◌, min, ◌≡◌, refl, sym, List, [], ◌∷◌, ◌++◌, Option, some, arith, ltb, length, take,
  ◌>>=◌, inl, inr, length-tabulate, lt→ltb, length-take, take-append, drop-append, false, true,
}
use nbsdk.Memory.Queue.{Call, put, get, resize, Reply, wrote, got, sized, Queue}
use nbsdk.Memory.Queue
use nbsdk.Memory.Fifo.{FifoBuffer, allocate, contents, read, write, set_capacity}
use nbsdk.Memory.Fifo.Valid.{IsValid, length-contents}
use nbsdk.Memory.Fifo.Write.{write_lem}
use nbsdk.Memory.Fifo.Read.{read_lem}
use nbsdk.Memory.Fifo.Resize.{set_capacity_lem}

abbrev pub view : FifoBuffer → Queue
view f = record { capacity = f.buffer_length; bytes = contents f }

-- The class behind the calls. A caller's array for `get n` has `n` bytes.
module _ (memory : ℕ → ℕ) where
  unfoldable pub step : FifoBuffer → Call → Option (Reply × FifoBuffer)
  step f (put xs) = do (n, f') ← write f xs (length xs); some (wrote n, f')
  step f (get n) = do
    (count, out, f') ← read f (allocate memory n) n
    some (got (take count out), f')
  step f (resize n) = do (b, f') ← set_capacity memory f n; some (sized b, f')

  unfoldable pub run : FifoBuffer → List Call → Option (List Reply × FifoBuffer)
  run f [] = some ([], f)
  run f (call ∷ calls) = do
    (reply, f') ← step f call
    (replies, last) ← run f' calls
    some (reply ∷ replies, last)

-- The sizes asked for leave room for `size_t` sums.
abbrev pub IsSmall : Call → Type 0
IsSmall (resize n) = n ≤ 2 ^ 63
IsSmall _ = Unit

abbrev pub AreSmall : List Call → Type 0
AreSmall [] = Unit
AreSmall (call ∷ calls) = IsSmall call × AreSmall calls

abbrev StepRefines : (ℕ → ℕ) → FifoBuffer → Call → Type 0
StepRefines memory f call =
    (f' : FifoBuffer) × (step memory f call ≡ some ((Queue.step (view f) call).0, f'))
    × (view f' ≡ (Queue.step (view f) call).1)
    × IsValid f'

view_path :
    (q : Queue) (f : FifoBuffer) → f.buffer_length ≡ q.capacity → contents f ≡ q.bytes → view f ≡ q
view_path q f c b = λ i. record { capacity = c i; bytes = b i }

step_refines :
    (memory : ℕ → ℕ) (f : FifoBuffer) (call : Call)
    → IsValid f
    → IsSmall call
    → StepRefines memory f call
unfolding step Queue.step
step_refines memory f (put xs) v s =
    let (f', e, bytes, cap, v') = write_lem f xs (length xs) v (omega arith) in
    (f', rw (e, length-contents f), view_path _ f' cap (rw (length-contents f) bytes), v')
step_refines memory f (get n) v s =
    let (out, f', e, split, _, size, cap, v') =
      read_lem f (allocate memory n) n v (omega (arith, length-tabulate n memory)) in
    let c = min n f.data_length in
    let front : length (take c out) ≡ min n (length (take c out ++ contents f')) =
      rw (← split, length-contents f, length-take c out, size, length-tabulate n memory)
        (omega arith) in
    (
      f',
      rw (e, split, take-append n (take c out) (contents f') front),
      view_path _ f' cap (rw (split) (sym (drop-append n (take c out) (contents f') front))),
      v',
    )
step_refines memory f (resize n) v s = elim (set_capacity_lem memory f n v s) [
  | inl (small, e) ↦
      let no_room : ltb n (length (contents f)) ≡ true =
        rw (length-contents f) (lt→ltb n f.data_length small) in
      (f, rw (e, no_room), rw no_room, v)
  | inr (fits, f', e, bytes, cap, v') ↦
      let room : ltb n (length (contents f)) ≡ false = rw (length-contents f) (ground arith) in
      (f', rw (e, room), rw room (view_path _ f' cap bytes), v')
]

-- From a valid buffer every sequence of calls runs without undefined behaviour, returns what the
-- queue of its bytes returns, and ends in a valid buffer that holds what the queue then holds.
pub run_refines :
    (memory : ℕ → ℕ) (f : FifoBuffer) (calls : List Call)
    → IsValid f
    → AreSmall calls
    → (f' : FifoBuffer) × (run memory f calls ≡ some ((Queue.run (view f) calls).0, f'))
      × (view f' ≡ (Queue.run (view f) calls).1)
      × IsValid f'
unfolding run Queue.run
run_refines memory f [] v s = (f, refl, refl, v)
run_refines memory f (call ∷ calls) v s =
    let (f₁, e, now, v₁) = step_refines memory f call v s.0 in
    let (f₂, rest, last, v₂) = run_refines memory f₁ calls v₁ s.1 in
    (f₂, rw (e, rest, now), rw (last, now), v₂)
