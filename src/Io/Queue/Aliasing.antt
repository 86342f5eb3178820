-- ===== src/Io/Queue/Aliasing.antt =====
-- Sequences of writes and pops of a `QueueWriter` (alsfvm/src/io/QueueWriter.cpp).
use alsvinn.Base.{
  ℕ, ◌≡◌, ◌<◌, refl, sym, ◌∙◌, ap, arith, lt→ltb, ◌++◌, List, [], ◌∷◌, length, Option, some, none,
  get_elem?, Result, ok, All, drop, IfOk, if_ok, IfOk-value, IfOk-bind, IfOk-or_undefined,
}
use alsvinn.Io.Queue.{QueueWriter, make_queue_writer, write, pop}

-- `copyTo` between volumes of one shape
abbrev pub replace : {V : Type 0} → V → V → Result V
replace v target = ok v

abbrev to_list : {V : Type 0} → Option V → List V
to_list none = []
to_list (some v) = v ∷ []

All-append : (l : List ℕ) → All (λ i. i ≡ 0) l → All (λ i. i ≡ 0) (l ++ (0 ∷ []))
All-append [] h = (refl, tt)
All-append (i ∷ is) (a, b) = (a, All-append is b)

All-drop : (l : List ℕ) → All (λ i. i ≡ 0) l → All (λ i. i ≡ 0) (drop 1 l)
All-drop [] h = tt
All-drop (i ∷ is) h = h.1

first_zero : (l : List ℕ) (i : ℕ) → All (λ j. j ≡ 0) l → get_elem? l 0 ≡ some i → i ≡ 0
first_zero [] i h e = cc
first_zero (j ∷ js) i h e = cc (h.0, e)

to_list_first :
    {V : Type 0} (last : Option V) (v : V) → get_elem? (to_list last) 0 ≡ some v → last ≡ some v
to_list_first none v e = cc
to_list_first (some u) v e = e

module _ {V : Type 0} (fresh : V) where
  -- The steps of a queue from its construction on, with the volume of the last write. A write waits
  -- while the queue is full.
  pub data Reaches (queue_length : ℕ) : QueueWriter V → Option V → Type 0 where
    start : Reaches queue_length (make_queue_writer queue_length) none
    wrote :
        {q q' : QueueWriter V} {last : Option V}
        → Reaches queue_length q last
        → (v : V) → length q.waiting < q.queue_size
        → write fresh replace v q ≡ ok q'
        → Reaches queue_length q' (some v)
    popped :
        {q q' : QueueWriter V} {last : Option V}
        → Reaches queue_length q last
        → (v : V) → pop q ≡ ok (v, q')
        → Reaches queue_length q' last

  -- One volume is allocated at most, it is the last one written, and all that wait stand for it.
  IsLast : Option V → QueueWriter V → Type 0
  IsLast last q = (q.next_index ≡ 0) × (q.allocated ≡ to_list last) × All (λ i. i ≡ 0) q.waiting

  write_lem :
      (last : Option V) (q : QueueWriter V) (v : V)
      → 0 < q.queue_size
      → IsLast last q
      → IfOk (IsLast (some v)) (write fresh replace v q)
  unfolding write IsLast
  write_lem none q v h (e, a, w) =
      rw (e, a, lt→ltb 0 q.queue_size h) (if_ok (refl, refl, All-append q.waiting w))
  write_lem (some u) q v h (e, a, w) =
      rw (e, a, lt→ltb 0 q.queue_size h) (if_ok (refl, refl, All-append q.waiting w))

  pop_lem :
      (last : Option V) (q : QueueWriter V)
      → IsLast last q
      → IfOk (λ s. (last ≡ some s.0) × IsLast last s.1) (pop q)
  unfolding pop IsLast
  pop_lem last q (e, a, w) = IfOk-bind (IfOk-or_undefined (get_elem? q.waiting 0)) λ i e1.
      IfOk-bind (IfOk-or_undefined (get_elem? q.allocated i)) λ v e2.
        let at : get_elem? q.allocated 0 ≡ some v =
          ap (get_elem? q.allocated) (sym (first_zero q.waiting i w e1)) ∙ e2 in
        if_ok (
          to_list_first last v (ap (λ (l : List V). get_elem? l 0) (sym a) ∙ at),
          (e, a, All-drop q.waiting w),
        )

  Reaches-IsLast : {n : ℕ} {q : QueueWriter V} {last : Option V} → Reaches n q last → IsLast last q
  unfolding IsLast make_queue_writer
  Reaches-IsLast start = (refl, refl, tt)
  Reaches-IsLast (wrote {q = q} {q' = q'} {last = last} before v room e) =
      IfOk-value q' (write_lem last q v (omega arith) (Reaches-IsLast before)) e
  Reaches-IsLast (popped {q = q} {q' = q'} {last = last} before v e) =
      (IfOk-value (v, q') (pop_lem last q (Reaches-IsLast before)) e).1

  -- Whatever the writes and pops before, what `pop` hands out is the volume of the last write, and
  -- not that of the oldest write that has not been handed out. (`copyTo` makes the target equal to
  -- the volume, as between volumes of one shape.)
  pub pop-last :
      {n : ℕ} (q q' : QueueWriter V) (v : V) (last : Option V)
      → Reaches n q last
      → pop q ≡ ok (v, q')
      → last ≡ some v
  pop-last q q' v last reaches e =
      (IfOk-value (v, q') (pop_lem last q (Reaches-IsLast reaches)) e).0
