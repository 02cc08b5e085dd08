-- ===== src/Pool/Examples.antt =====
-- Concrete calls of the buffer pool of src/wepoll_ex_pool.c: a pool at address 7 with one buffer.
use wepoll_ex.Prelude.{
  ℕ, ◌≡◌, refl, Bool, true, false, Option, none, some, List, [], ◌∷◌, update, arith,
}
use wepoll_ex.Errno.State.{fresh_thread}
use wepoll_ex.Fault.{no_faults}
use wepoll_ex.Pool.{Entry, Pool, Env, entry_magic, destroy, init, zero_pool}
use wepoll_ex.Pool.Inv.{Inv}
use wepoll_ex.Pool.Free.{Freed, destroy-Freed}
use wepoll_ex.Pool.Init.{Filled, init-Filled}

abbrev one : List ℕ
one = 1 ∷ []

abbrev entry : Bool → Entry
entry in_pool = record {
  next = none;
  all_next = none;
  owner = some 7;
  magic = entry_magic;
  in_pool = in_pool;
}

abbrev pool : Option ℕ → ℕ → Pool
pool stack in_use = record {
  stack = stack;
  all_entries = some 1;
  buf_size = 64;
  capacity = 1;
  allocated = 1;
  in_use = in_use;
  peak = 1;
  initialized = true;
}

abbrev env : Bool → Env
env in_pool = record {
  heap = record {
    cell = update (λ a. none) 1 (some (entry in_pool));
    fresh = 2;
    grants = true ∷ [];
  };
  faults = no_faults;
  err = fresh_thread;
}

-- The buffer is on the stack, or out.
free_one : Inv 7 one one (pool (some 1) 0) (env true).heap
free_one = record {
  live = refl;
  stack_chain = (entry true, refl, refl, refl);
  all_chain = (entry true, refl, refl, refl);
  entries = λ a h. record {
    entry = entry true;
    there = ground (arith, h);
    owner_eq = refl;
    magic_eq = refl;
    in_pool_eq = ground (arith, h);
  };
  inside = λ a h. h;
  below = λ a h. ground (arith, h);
  free_distinct = (refl, tt);
  all_distinct = (refl, tt);
  counted = refl;
  used = refl;
  peaked = omega arith;
  peak_fits = omega arith;
  fits = omega arith;
  space = omega arith;
}

destroy-Freed_example :
    (q : Pool) × (v : Env) × (destroy 0 (pool (some 1) 0) (env true) ≡ some (q, v))
    × Freed one (env true).heap v.heap
    × (q.initialized ≡ false)
    × (q.all_entries ≡ none)
    × (q.stack ≡ none)
destroy-Freed_example = destroy-Freed 7 one one (pool (some 1) 0) (env true) free_one refl

-- The second of three allocations fails.
abbrev two_grants : Env
two_grants = record (env true) {
  heap = record { cell = λ a. none; fresh = 1; grants = true ∷ false ∷ true ∷ [] };
}

init-Filled_example : Filled 7 3 two_grants.heap (init 0 (some 7) 64 3 zero_pool two_grants)
init-Filled_example =
    init-Filled 7 64 3 zero_pool two_grants (omega arith) (omega arith) (omega arith)
