-- ===== src/FreeList.antt =====
-- include/lockfree/freelist.h: the stack of free nodes under the lock-free list, with `allocate_impl`
-- and `deallocate_impl` at the grain of atomic accesses, by any number of threads. A word of the pool
-- is its address and its tag (include/lockfree/tagged_node_ptr.h); a node is its address, and 0 is the
-- null pointer. `Alloc::allocate` is the C++ library's: the addresses that it gives are in the events.
pub mod Inv
pub mod Keep
pub mod Alone
pub mod Whole
pub mod Tests
use fiber_lib.Prelude.{
  ℕ, ◌+◌, ◌%◌, ◌^◌, Bool, true, false, ◌&&◌, ◌||◌, not, List, [], ◌∷◌, ◌==◌, ltb, if◌then◌else◌,
  update, count,
}

-- `TaggedHandlePtr`.
pub record Handle : Type 0 where
  pub ptr : ℕ
  pub tag : ℕ

-- The comparison of `compare_exchange_weak`.
abbrev pub same_handle : Handle → Handle → Bool
same_handle a b = (a.ptr == b.ptr) && (a.tag == b.tag)

-- Where a thread is: `loaded` and `peeked` in `allocate_impl`, after `old_pool` is set and after
-- `old_pool->next` is read; `leaving` and `linked` in `deallocate_impl` of a node, after `old_pool` is
-- set and after the node's `next` is.
pub data Place : Type 0 where
  idle : Place
  loaded : (old_pool : Handle) → Place
  peeked : (old_pool : Handle) → (new_pool_ptr : ℕ) → Place
  leaving : (node : ℕ) → (old_pool : Handle) → Place
  linked : (node : ℕ) → (old_pool : Handle) → Place

pub record Pool : Type 0 where
  pub pool : Handle
  pub next : ℕ → ℕ  -- of the nodes
  pub places : ℕ → Place
  pub used : List ℕ  -- the nodes that `allocate` has returned and `deallocate` has not got
  pub blocks : List ℕ  -- the addresses from `Alloc::allocate`

abbrev pub move_to : ℕ → Place → Pool → Pool
move_to i p s = record s { places = update s.places i p }

abbrev pub remove : ℕ → List ℕ → List ℕ
remove n [] = []
remove n (m ∷ ms) = let rest = remove n ms in if n == m then ms else m ∷ rest

-- `allocate_impl` and its load.
unfoldable pub allocate : ℕ → Place → Pool → Pool
allocate i idle s = move_to i (loaded s.pool) s
allocate i (loaded w) s = s
allocate i (peeked w x) s = s
allocate i (leaving n w) s = s
allocate i (linked n w) s = s

-- `old_pool->next`, of a pool that is not empty.
unfoldable pub peek : ℕ → Place → Pool → Pool
peek i idle s = s
peek i (loaded w) s = if w.ptr == 0 then s else move_to i (peeked w (s.next w.ptr)) s
peek i (peeked w x) s = s
peek i (leaving n w) s = s
peek i (linked n w) s = s

-- The end of `allocate_impl` on an empty pool, with an address that is not in use.
unfoldable pub allocate_new : ℕ → ℕ → Place → Pool → Pool
allocate_new i new idle s = s
allocate_new i new (loaded w) s =
    if (w.ptr == 0) && (ltb 0 new && (count new s.blocks == 0))
    then move_to i idle (record s { used = new ∷ s.used; blocks = new ∷ s.blocks })
    else s
allocate_new i new (peeked w x) s = s
allocate_new i new (leaving n w) s = s
allocate_new i new (linked n w) s = s

-- `deallocate_impl` of a node in use, and its load.
unfoldable pub deallocate : ℕ → ℕ → Place → Pool → Pool
deallocate i n idle s =
    if ltb 0 (count n s.used)
    then move_to i (leaving n s.pool) (record s { used = remove n s.used })
    else s
deallocate i n (loaded w) s = s
deallocate i n (peeked w x) s = s
deallocate i n (leaving m w) s = s
deallocate i n (linked m w) s = s

-- `new_pool->next.set_ptr(old_pool.get_ptr())`.
unfoldable pub link : ℕ → Place → Pool → Pool
link i idle s = s
link i (loaded w) s = s
link i (peeked w x) s = s
link i (leaving n w) s = move_to i (linked n w) (record s { next = update s.next n w.ptr })
link i (linked n w) s = s

-- `compare_exchange_weak`, which may fail for no reason, and what follows it.
unfoldable pub exchange : ℕ → (spurious : Bool) → Place → Pool → Pool
exchange i spurious idle s = s
exchange i spurious (loaded w) s = s
exchange i spurious (peeked w x) s =
    if same_handle s.pool w && not spurious
    then move_to i idle
        (record s { pool = record { ptr = x; tag = (w.tag + 1) % 2 ^ 16 }; used = w.ptr ∷ s.used })
    else move_to i (loaded s.pool) s
exchange i spurious (leaving n w) s = s
exchange i spurious (linked n w) s =
    if same_handle s.pool w && not spurious
    then move_to i idle (record s { pool = record { ptr = n; tag = w.tag } })
    else move_to i (leaving n s.pool) s

-- The next access of thread `i`.
pub data Access : Type 0 where
  allocates : (i : ℕ) → Access
  peeks : (i : ℕ) → Access
  gets_new : (i : ℕ) → (new : ℕ) → Access
  deallocates : (i : ℕ) → (node : ℕ) → Access
  links : (i : ℕ) → Access
  exchanges : (i : ℕ) → (spurious : Bool) → Access

unfoldable pub step : Access → Pool → Pool
unfolding allocate peek allocate_new deallocate link exchange
step (allocates i) s = allocate i (s.places i) s
step (peeks i) s = peek i (s.places i) s
step (gets_new i new) s = allocate_new i new (s.places i) s
step (deallocates i n) s = deallocate i n (s.places i) s
step (links i) s = link i (s.places i) s
step (exchanges i spurious) s = exchange i spurious (s.places i) s

unfoldable pub run : List Access → Pool → Pool
unfolding step
run [] s = s
run (a ∷ xs) s = run xs (step a s)
