-- ===== src/Memory/Queue.antt =====
-- The contract of `FifoBuffer` (memery/include/fifo_buffer.h): a queue of bytes with a capacity.
use nbsdk.Prelude.{
  ℕ, ◌-◌, min, Bool, true, false, List, [], ◌∷◌, ◌++◌, ltb, if◌then◌else◌, length, take, drop,
}

-- What a client asks for, and what it sees of the answer.
pub data Call : Type 0 where
  put : List ℕ → Call
  get : ℕ → Call
  resize : ℕ → Call

pub data Reply : Type 0 where
  wrote : ℕ → Reply
  got : List ℕ → Reply
  sized : Bool → Reply

-- Oldest byte first.
pub record Queue : Type 0 where
  pub capacity : ℕ
  pub bytes : List ℕ

unfoldable pub step : Queue → Call → Reply × Queue
step q (put xs) =
    let n = min (length xs) (q.capacity - length q.bytes) in
    (wrote n, record q { bytes = q.bytes ++ take n xs })
step q (get n) = (got (take n q.bytes), record q { bytes = drop n q.bytes })
step q (resize n) =
    if ltb n (length q.bytes) then (sized false, q) else (sized true, record q { capacity = n })

unfoldable pub run : Queue → List Call → List Reply × Queue
run q [] = ([], q)
run q (call ∷ calls) =
    let (reply, q') = step q call in let (replies, last) = run q' calls in (reply ∷ replies, last)
