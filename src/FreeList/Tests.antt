-- ===== src/FreeList/Tests.antt =====
-- Two threads on a new pool: thread 0 gives back a node that thread 1 takes.
use fiber_lib.Prelude.{
  ℕ, ◌≡◌, refl, true, false, List, [], ◌∷◌, arith, count, length, ◌+◌, ◌≤◌, ◌<◌, ◌≢◌,
}
use fiber_lib.FreeList.{
  Pool, Place, idle, Access, allocates, peeks, gets_new, deallocates, links, exchanges, run,
  allocate, peek, allocate_new, deallocate, link, exchange, step,
}
use fiber_lib.FreeList.Alone.{new_pool, free_from, allocate_unsafe, deallocate_unsafe, reserve}
use fiber_lib.FreeList.Whole.{run-free_from, alone-Same}
use fiber_lib.FreeList.Inv.{Placed}
use fiber_lib.FreeList.Keep.{IsOwned, run-IsOwned}

abbrev no_next : ℕ → ℕ
no_next n = 0

abbrev all_idle : ℕ → Place
all_idle i = idle

abbrev first_pool : Pool
first_pool = record {
  pool = record { ptr = 0; tag = 0 };
  next = no_next;
  places = all_idle;
  used = [];
  blocks = [];
}

abbrev trace : List Access
trace =
    allocates 0
    ∷ gets_new 0 64
    ∷ deallocates 0 64
    ∷ allocates 1
    ∷ links 0
    ∷ exchanges 0 true
    ∷ links 0
    ∷ exchanges 0 false
    ∷ gets_new 1 128
    ∷ allocates 1
    ∷ peeks 1
    ∷ exchanges 1 false
    ∷ []

trace-used : (run trace first_pool).used ≡ 64 ∷ 128 ∷ []
unfolding run step allocate peek allocate_new deallocate link exchange
trace-used = refl

first_pool-IsOwned : IsOwned first_pool
first_pool-IsOwned = (
  [],
  record {
    chain = refl;
    once = λ n. omega arith;
    known = λ n h. absurd (omega (arith, h));
    all = λ n h. absurd (omega (arith, h));
    knows = λ i. tt;
    apart = λ i j d h. absurd (h refl);
  },
)

run-IsOwned_example : IsOwned (run trace first_pool)
run-IsOwned_example = run-IsOwned trace first_pool (ground arith) first_pool-IsOwned

abbrev two_blocks : List ℕ
two_blocks = 64 ∷ 128 ∷ []

-- A node is taken, and one stays.
abbrev one_taken : Pool
one_taken = run (allocates 0 ∷ peeks 0 ∷ exchanges 0 false ∷ []) (new_pool two_blocks)

run-free_from_example :
    (ns : List ℕ) × ((fuel : ℕ)
      → length ns < fuel
      → free_from fuel (one_taken).next (one_taken).pool.ptr ≡ ns)
    × ((n : ℕ) → count n ns + count n (one_taken).used ≤ 1)
    × ((n : ℕ) → 0 < count n ns → 0 < count n (one_taken).blocks)
    × ((n : ℕ) → 0 < count n (one_taken).blocks → (n ≢ 0) × Placed one_taken ns n)
run-free_from_example =
    run-free_from two_blocks (allocates 0 ∷ peeks 0 ∷ exchanges 0 false ∷ [])
      ((λ e. ground (arith, e)), ground arith, ((λ e. ground (arith, e)), ground arith, tt))
      (ground arith)

one_taken-freed : free_from 3 (one_taken).next (one_taken).pool.ptr ≡ 64 ∷ []
unfolding run step allocate peek exchange new_pool reserve deallocate_unsafe free_from
one_taken-freed = refl

one_taken-used : (one_taken).used ≡ 128 ∷ []
unfolding run step allocate peek exchange new_pool reserve deallocate_unsafe
one_taken-used = refl

abbrev with_one : Pool
with_one = record {
  pool = record { ptr = 64; tag = 3 };
  next = no_next;
  places = all_idle;
  used = 128 ∷ [];
  blocks = two_blocks;
}

alone-Same_example :
    let r = run (allocates 0 ∷ peeks 0 ∷ exchanges 0 false ∷ []) with_one in
    let r' = run (deallocates 0 128 ∷ links 0 ∷ exchanges 0 false ∷ []) with_one in
    (r ≡ record ((allocate_unsafe false 192 with_one).1) { places = r.places })
    × (r.places 0 ≡ idle)
    × (r' ≡ record (deallocate_unsafe 128 with_one) { places = r'.places })
    × (r'.places 0 ≡ idle)
alone-Same_example =
    alone-Same with_one 0 128 192 false refl (λ e. ground (arith, e)) (ground arith)
