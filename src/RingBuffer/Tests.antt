-- ===== src/RingBuffer/Tests.antt =====
-- Runs of src/ringbuffer.rs on small inputs, and the theorems at inputs that meet their conditions.
use dbprimkit.Base.{
  ℕ, zero, suc, get_elem?, ◌+◌, ◌%◌, ◌≤◌, ◌<◌, ◌≡◌, ◌≢◌, refl, inl, false, List, [], ◌∷◌, ◌++◌, map,
  none, some, arith, length,
}
use dbprimkit.Error.{ok, err, invalid_argument}
use dbprimkit.RingBuffer.{
  RingBuffer, accepted, push_load, push_ok, pop_load, pop_ok, fault, new, empty_ring, fresh_cells,
  push_for_sp, pop_for_sc, step, judge_push, judge_pop,
}
use dbprimkit.RingBuffer.Threads.{
  Event, start_push, start_pop, act, run, turn, after, started, is_resting,
}
use dbprimkit.RingBuffer.Cells.{at}
use dbprimkit.RingBuffer.Claims.{Delivered}
use dbprimkit.RingBuffer.Safety.{fifo, capacity, no_fault, no_data_race}
use dbprimkit.RingBuffer.OneSlot.{push_alone, jammed, one_slot_jams}
use dbprimkit.RingBuffer.Alone.{Holds, empty_ring-Holds}
use dbprimkit.RingBuffer.Lone.{
  solo, five, push_answer, pop_answer, lone_push_refines, lone_pop_refines,
}
use dbprimkit.RingBuffer.Drain.{drop, drop_lem}
use dbprimkit.RingBuffer.Queue

abbrev two_cells : RingBuffer ℕ
two_cells = empty_ring 2

made : new 1 ≡ ok two_cells
unfolding new
made = refl

too_large : new {A = ℕ} 63 ≡ err (invalid_argument "`size_order` is too large")
unfolding new
too_large = refl

-- Threads 0 and 1 push at the same time; thread 2 pops what the slower one claimed first.
abbrev race : List (Event ℕ)
race =
    start_push 0 7
    ∷ start_push 1 8
    ∷ act 0 false
    ∷ act 1 false
    ∷ act 0 false
    ∷ act 1 false
    ∷ act 0 false
    ∷ act 1 false
    ∷ act 1 false
    ∷ act 1 false
    ∷ []

abbrev finish : List (Event ℕ)
finish =
    act 0 false
    ∷ act 0 false
    ∷ act 1 false
    ∷ act 1 false
    ∷ act 1 false
    ∷ start_pop 2
    ∷ act 2 false
    ∷ act 2 false
    ∷ act 2 false
    ∷ act 2 false
    ∷ act 2 false
    ∷ []

race_result :
    let s = run (race ++ finish) (started two_cells) in
    (s.sent ≡ 7 ∷ 8 ∷ []) × (s.got ≡ (0, 7) ∷ []) × (s.pc 2 ≡ pop_ok 7) × (s.pc 1 ≡ push_ok)
unfolding run turn after step judge_push judge_pop fresh_cells
race_result = (refl, refl, refl, refl)

fifo_example :
    let s = run (race ++ finish) (started two_cells) in Delivered s.ring.head s.sent s.got
fifo_example = fifo 1 two_cells (omega arith) (omega arith) made (race ++ finish) (omega arith)

capacity_example :
    let s = run race (started two_cells) in
    (s.ring.tail ≡ length s.sent) × (s.ring.head ≤ s.ring.tail) × (s.ring.tail ≤ s.ring.head + 2)
capacity_example = capacity 1 two_cells (omega arith) (omega arith) made race (omega arith)

no_fault_example : (run race (started two_cells)).pc 1 ≢ fault
no_fault_example = no_fault 1 two_cells (omega arith) (omega arith) made race (omega arith) 1

-- Both threads have won an exchange and neither has stored yet.
no_data_race_example : ◌≢◌ {A = ℕ} (0 % 2) (1 % 2)
unfolding run turn after step judge_push judge_pop fresh_cells
no_data_race_example =
    no_data_race 1 two_cells (omega arith) (omega arith) made race (omega arith) 0 1 0 1
      (omega arith) (inl refl) (inl refl)

abbrev one_cell : RingBuffer ℕ
one_cell = empty_ring 1

one_slot_jams_example :
    let full = run (push_alone 7 ++ push_alone 8) (started one_cell) in
    (full.pc 0 ≡ push_ok)
    × (full.sent ≡ 7 ∷ 8 ∷ [])
    × (full.ring ≡ jammed 8)
    × (is_resting ((run (start_pop 0 ∷ map (act 0) five) full).pc 0) ≡ false)
unfolding new
one_slot_jams_example = one_slot_jams 7 8 one_cell refl five

two_cells-Holds : Holds 1 two_cells []
two_cells-Holds = empty_ring-Holds 1 (omega arith) (omega arith)

lone_push_refines_example :
    let (answer, q') = Queue.push {A = ℕ} 2 [] 7 in
    (r' : RingBuffer ℕ) × (solo five (push_load 7) two_cells ≡ (push_answer answer, r'))
    × (push_for_sp two_cells 7 ≡ ok (answer, r'))
    × Holds 1 r' q'
lone_push_refines_example = lone_push_refines two_cells-Holds 7

-- The ring after one push.
abbrev one_value : RingBuffer ℕ
one_value = record {
  buf = record { seq = 1; slot = some 7 } ∷ record { seq = 1; slot = none } ∷ [];
  size = 2;
  mask = 1;
  head = 0;
  tail = 1;
}

lone_push-result : push_for_sp two_cells 7 ≡ ok (accepted, one_value)
unfolding push_for_sp fresh_cells
lone_push-result = refl

one_value-filled :
    (j : ℕ)
    → j < 1
    → ((at one_value.buf 2 (0 + j)).seq ≡ 0 + j + 1)
      × ((at one_value.buf 2 (0 + j)).slot ≡ get_elem? (7 ∷ []) j)
unfolding at
one_value-filled zero h = (refl, refl)
one_value-filled (suc j) h = absurd (omega arith)

one_value-vacant : (p : ℕ) → 1 ≤ p → p < 0 + 2 → (at one_value.buf 2 p).seq ≡ p
unfolding at
one_value-vacant zero a b = absurd (omega arith)
one_value-vacant (suc zero) a b = refl
one_value-vacant (suc (suc p)) a b = absurd (omega arith)

one_value-Holds : Holds 1 one_value (7 ∷ [])
one_value-Holds = record {
  shape = record { sized = refl; masked = refl; filled = refl };
  two = omega arith;
  words = omega arith;
  counted = refl;
  bounded = omega arith;
  filled = one_value-filled;
  vacant = one_value-vacant;
}

lone_pop_refines_example :
    let (answer, q') = Queue.pop {A = ℕ} (7 ∷ []) in
    (r' : RingBuffer ℕ) × (solo five pop_load one_value ≡ (pop_answer answer, r'))
    × (pop_for_sc one_value ≡ ok (answer, r'))
    × Holds 1 r' q'
lone_pop_refines_example = lone_pop_refines (7 ∷ []) one_value-Holds (omega arith)

drop_lem_example : drop 2 one_value ≡ some (7 ∷ [])
drop_lem_example = drop_lem (7 ∷ []) one_value-Holds (omega arith)
