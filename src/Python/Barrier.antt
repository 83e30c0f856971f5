-- ===== src/Python/Barrier.antt =====
-- `threading.Barrier`, of which the code under its lock runs in one step. A thread that is not the last
-- to arrive waits between two steps.
use python_concurrency_examp.Prelude.{ℕ, zero, suc, ◌-◌, Bool, true, false, nat_eq, if◌then◌else◌}
use python_concurrency_examp.Python.{Result, ok, err, broken_barrier}

pub data State : Type 0 where
  filling draining resetting broken : State

pub record Barrier : Type 0 where
  pub parties : ℕ
  pub count : ℕ
  pub state : State

-- What a thread that calls `wait` meets: the barrier still lets others out, or it is broken, or the
-- thread waits with its index, or as the last one it releases all and returns its index.
pub data Arrival : Type 0 where
  blocked refused : Arrival
  waits released : ℕ → Arrival

abbrev pub new_barrier : ℕ → Barrier
new_barrier parties = record { parties = parties; count = 0; state = filling }

-- The arrival at a barrier that fills.
abbrev pub fill : Barrier → Arrival × Barrier
fill b =
    if nat_eq (suc b.count) b.parties
    then (released b.count, record b { state = draining })
    else (waits b.count, record b { count = suc b.count })

-- `wait` up to the wait of a thread that is not the last
unfoldable pub arrive : Barrier → Arrival × Barrier
arrive b = elim b.state [
  | filling ↦ fill b
  | draining ↦ (blocked, b)
  | resetting ↦ (blocked, b)
  | broken ↦ (refused, b)
]

-- `_exit`: the last thread out lets the barrier fill again, unless it is broken
abbrev pub exit : State → ℕ → State
exit state zero = elim state [
  | filling ↦ filling
  | draining ↦ filling
  | resetting ↦ filling
  | broken ↦ broken
]
exit state (suc n) = state

abbrev pub go_out : Result ℕ → State → Barrier → Result ℕ × Barrier
go_out r state b = (r, record b { count = b.count - 1; state = exit state (b.count - 1) })

-- The rest of `wait` for a thread with this index, when it is woken or its time has run out; it sleeps
-- on while the barrier fills.
unfoldable pub resume : ℕ → Barrier → Result ℕ × Barrier
resume index b = elim b.state [
  | filling ↦ go_out (err broken_barrier) broken b
  | draining ↦ go_out (ok index) draining b
  | resetting ↦ go_out (err broken_barrier) resetting b
  | broken ↦ go_out (err broken_barrier) broken b
]

-- `reset`: the threads inside fail, unless they are on their way out
unfoldable pub reset : Barrier → Barrier
reset b = elim b.count [
  | zero ↦ record b { state = filling }
  | suc n ↦ record b {
    state = elim b.state [
      | filling ↦ resetting
      | draining ↦ draining
      | resetting ↦ resetting
      | broken ↦ resetting
    ];
  }
]

unfoldable pub is_broken : Barrier → Bool
is_broken b = elim b.state [
  | filling ↦ false
  | draining ↦ false
  | resetting ↦ false
  | broken ↦ true
]
