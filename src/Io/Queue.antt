-- ===== src/Io/Queue.antt =====
-- alsfvm/src/io/QueueWriter.cpp: a queue of volumes between a writer and a reader. The mutex makes one
-- call of `write` or `pop` one step, and a call that would wait is no step. `waiting` holds indices of
-- allocated volumes, as the source's queue holds pointers to them.
pub mod Aliasing
use alsvinn.Base.{
  ℕ, zero, suc, ◌≡◌, ◌<◌, ltb, ◌==◌, ◌++◌, List, [], ◌∷◌, Bool, true, false, ◌&&◌, leb,
  if◌then◌else◌, length, set, get_elem?, Result, ok, ◌>>=◌, or_undefined, drop,
}

pub record QueueWriter (V : Type 0) : Type 0 where
  pub queue_size : ℕ
  pub next_index : ℕ
  pub allocated : List V
  pub waiting : List ℕ

unfoldable pub make_queue_writer : {V : Type 0} → ℕ → QueueWriter V
make_queue_writer queue_length = record {
  queue_size = queue_length;
  next_index = 0;
  allocated = [];
  waiting = [];
}

-- The body of `write` after the wait: `fresh` is a new volume, and `copy` the effect of `copyTo`.
unfoldable pub write :
    {V : Type 0} → V → (V → V → Result V) → V → QueueWriter V → Result (QueueWriter V)
write fresh copy v q =
    let allocated =
      if ltb q.next_index q.queue_size && leb (length q.allocated) q.next_index
      then q.allocated ++ (fresh ∷ [])
      else q.allocated in
    or_undefined (get_elem? allocated q.next_index) >>= λ target. copy v target >>= λ copied.
    ok record q {
      allocated = set allocated q.next_index copied;
      waiting = q.waiting ++ (q.next_index ∷ []);
    }

-- The volume that `pop` hands to its handler, and the queue after it
unfoldable pub pop : {V : Type 0} → QueueWriter V → Result (V × QueueWriter V)
pop q = or_undefined (get_elem? q.waiting 0) >>= λ index.
    or_undefined (get_elem? q.allocated index) >>= λ v.
    ok (v, record q { waiting = drop 1 q.waiting })
