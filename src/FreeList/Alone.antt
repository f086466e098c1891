-- ===== src/FreeList/Alone.antt =====
-- freelist.h: the operations that run while no other thread is inside, `allocate_impl_unsafe`,
-- `deallocate_impl_unsafe`, `reserve`, the constructor and the destructor. `new` and `blocks` are the
-- addresses that `Alloc::allocate` gives.
use fiber_lib.Prelude.{
  ℕ, zero, suc, ◌+◌, ◌%◌, ◌^◌, Bool, List, [], ◌∷◌, ◌==◌, if◌then◌else◌, update,
}
use fiber_lib.FreeList.{idle, Pool, remove}

-- The node, or 0 from an empty pool if the list is bounded, and the pool.
unfoldable pub allocate_unsafe : Bool → ℕ → Pool → ℕ × Pool
allocate_unsafe bounded new s =
    if s.pool.ptr == 0
    then if bounded
      then (0, s)
      else (new, record s { used = new ∷ s.used; blocks = new ∷ s.blocks })
    else (
      s.pool.ptr,
      record s {
        pool = record { ptr = s.next s.pool.ptr; tag = (s.pool.tag + 1) % 2 ^ 16 };
        used = s.pool.ptr ∷ s.used;
      },
    )

unfoldable pub deallocate_unsafe : ℕ → Pool → Pool
deallocate_unsafe n s = record s {
  pool = record { ptr = n; tag = s.pool.tag };
  next = update s.next n s.pool.ptr;
  used = remove n s.used;
}

-- `reserve<false>`: each block is allocated and given back.
unfoldable pub reserve : List ℕ → Pool → Pool
unfolding deallocate_unsafe
reserve [] s = s
reserve (new ∷ news) s =
    reserve news (deallocate_unsafe new (record s { used = new ∷ s.used; blocks = new ∷ s.blocks }))

-- The constructor with as many blocks as the list has.
unfoldable pub new_pool : List ℕ → Pool
unfolding reserve
new_pool news = reserve news (record {
  pool = record { ptr = 0; tag = 0 };
  next = λ n. 0;
  places = λ i. idle;
  used = [];
  blocks = [];
})

-- The destructor: the nodes that it gives to `Alloc::deallocate`, from `current` on.
unfoldable pub free_from : (fuel : ℕ) → (ℕ → ℕ) → ℕ → List ℕ
free_from zero next current = []
free_from (suc fuel) next current =
    let later = free_from fuel next (next current) in if current == 0 then [] else current ∷ later
