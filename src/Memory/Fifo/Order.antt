-- ===== src/Memory/Fifo/Order.antt =====
-- First in, first out: what a run of calls hands out, against what it took in.
use nbsdk.Prelude.{
  ℕ, ◌-◌, min, ◌≡◌, sym, ap, ◌∙◌, List, [], ◌∷◌, ◌++◌, some, ltb, Bool-cases, inl, inr, length,
  take, drop, append-nil, some_path, append_assoc, take-append-drop,
}
use nbsdk.Memory.Queue.{Call, put, get, resize, Reply, wrote, got, sized, Queue}
use nbsdk.Memory.Queue
use nbsdk.Memory.Fifo.{FifoBuffer, contents}
use nbsdk.Memory.Fifo.Valid.{IsValid}
use nbsdk.Memory.Fifo.Refine.{run, run_refines, AreSmall, view}

-- All bytes that a run handed out, in order.
abbrev pub served : List Reply → List ℕ
served [] = []
served (got xs ∷ replies) = xs ++ served replies
served (wrote n ∷ replies) = served replies
served (sized b ∷ replies) = served replies

-- All bytes that a run took in, in order: of each `put`, as many as its reply says.
abbrev pub accepted : List Call → List Reply → List ℕ
accepted [] replies = []
accepted (call ∷ calls) [] = []
accepted (put xs ∷ calls) (wrote n ∷ replies) = take n xs ++ accepted calls replies
accepted (put xs ∷ calls) (_ ∷ replies) = accepted calls replies
accepted (get n ∷ calls) (_ ∷ replies) = accepted calls replies
accepted (resize n ∷ calls) (_ ∷ replies) = accepted calls replies

queue_order :
    (q : Queue) (calls : List Call)
    → let (replies, last) = Queue.run q calls in
      served replies ++ last.bytes ≡ q.bytes ++ accepted calls replies
unfolding Queue.run Queue.step
queue_order q [] = sym (append-nil q.bytes)
queue_order q (put xs ∷ calls) =
    let n = min (length xs) (q.capacity - length q.bytes) in
    queue_order (record q { bytes = q.bytes ++ take n xs }) calls
    ∙ append_assoc q.bytes (take n xs) _
queue_order q (get n ∷ calls) =
    append_assoc (take n q.bytes) _ _
    ∙ ap (◌++◌ (take n q.bytes)) (queue_order (record q { bytes = drop n q.bytes }) calls)
    ∙ sym (append_assoc (take n q.bytes) (drop n q.bytes) _)
    ∙ ap (λ l. l ++ accepted calls (Queue.run (record q { bytes = drop n q.bytes }) calls).0)
        (take-append-drop n q.bytes)
queue_order q (resize n ∷ calls) = elim (Bool-cases (ltb n (length q.bytes))) [
  | inl p ↦ rw p (queue_order q calls)
  | inr p ↦ rw p (queue_order (record q { capacity = n }) calls)
]

-- Whatever a run of calls does, the bytes that it hands out, followed by those still held, are the
-- bytes held at first, followed by those taken in: none is lost, made up or out of order.
pub run_order :
    (memory : ℕ → ℕ) (f f' : FifoBuffer) (calls : List Call) (replies : List Reply)
    → IsValid f
    → AreSmall calls
    → run memory f calls ≡ some (replies, f')
    → served replies ++ contents f' ≡ contents f ++ accepted calls replies
run_order memory f f' calls replies v s e =
    let (g, e', last, _) = run_refines memory f calls v s in
    let same = some_path (sym e ∙ e') in
    rw (ap (λ t. t.0) same, ap (λ t. contents t.1) same, ap (λ q. q.bytes) last)
      (queue_order (view f) calls)
