-- ===== src/FreeList/Whole.antt =====
-- freelist.h: the life of a list from its constructor to its destructor, and the unsafe variants beside the
-- thread-safe ones.
use fiber_lib.Prelude.{
  ℕ, zero, suc, ◌+◌, ◌%◌, ◌^◌, ◌≤◌, ◌<◌, ◌≡◌, ◌≢◌, inl, refl, sym, ap, subst, ◌∙◌, Bool, true,
  false, ◌&&◌, List, [], ◌∷◌, length, ◌==◌, ltb, if_true, if_false, update, count, arith,
}
use fiber_lib.FreeList.{
  same_handle, idle, loaded, peeked, leaving, linked, Pool, move_to, remove, allocate, peek,
  deallocate, link, exchange, Access, allocates, peeks, deallocates, links, exchanges, step, run,
}
use fiber_lib.FreeList.Inv.{Chain, Chain-update, Knows, held, Placed}
use fiber_lib.FreeList.Keep.{IsOwned, run-IsOwned}
use fiber_lib.FreeList.Alone.{allocate_unsafe, deallocate_unsafe, reserve, new_pool, free_from}

free_from-Chain :
    (fuel : ℕ) (next : ℕ → ℕ) (p : ℕ) (ns : List ℕ)
    → Chain next p ns
    → length ns < fuel
    → free_from fuel next p ≡ ns
unfolding free_from
free_from-Chain zero next p ns c l = absurd (ground (arith, l))
free_from-Chain (suc fuel) next p [] c l = if_true {b = p == 0} _ _ (ground (arith, c))
free_from-Chain (suc fuel) next p (n ∷ ns) (e, z, c) l =
    if_false {b = p == 0} _ _ (ground (arith, e, z))
    ∙ ap (λ m. m ∷ free_from fuel next (next m)) e
    ∙ ap (λ ms. n ∷ ms) (free_from-Chain fuel next (next n) ns c (ground (arith, l)))

-- `Alloc::allocate` gives addresses that are not null and not in use.
abbrev pub Given : List ℕ → List ℕ → Type 0
Given blocks [] = Unit
Given blocks (new ∷ news) = (new ≢ 0) × (count new blocks ≡ 0) × Given (new ∷ blocks) news

-- A pool that no thread is inside of.
record Still (s : Pool) (ns : List ℕ) : Type 0 where
  chain : Chain s.next s.pool.ptr ns
  none_used : s.used ≡ []
  once : (n : ℕ) → count n ns ≤ 1
  known : (n : ℕ) → 0 < count n ns → (0 < count n s.blocks) × (n ≢ 0)
  all : (n : ℕ) → 0 < count n s.blocks → (n ≢ 0) × (0 < count n ns)
  nobody : (i : ℕ) → s.places i ≡ idle

reserve-Still :
    (news : List ℕ) (s : Pool) (ns : List ℕ)
    → Given s.blocks news
    → s.pool.tag ≡ 0
    → Still s ns
    → (ms : List ℕ) × ((reserve news s).pool.tag ≡ 0) × Still (reserve news s) ms
unfolding reserve deallocate_unsafe
reserve-Still [] s ns g e w = (ns, e, w)
reserve-Still (new ∷ news) s ns (z, fresh, g) e w =
    let out : count new ns ≡ 0 = ground (arith, w.known new, fresh) in
    reserve-Still news
      (deallocate_unsafe new (record s { used = new ∷ s.used; blocks = new ∷ s.blocks })) (new ∷ ns)
      g e
      (record {
        chain = (
          refl,
          z,
          subst (λ p. Chain (update s.next new s.pool.ptr) p ns)
              (sym (if_true {b = new == new} s.pool.ptr (s.next new) (ground arith)))
              (Chain-update s.next s.pool.ptr new s.pool.ptr ns out w.chain),
        );
        none_used = if_true {b = new == new} _ _ (ground arith) ∙ w.none_used;
        once = λ n. ground (arith, w.once n, out);
        known = λ n h. ground (arith, w.known n, h, z);
        all = λ n h. ground (arith, w.all n, h, z);
        nobody = w.nobody;
      })

Still-IsOwned : (s : Pool) (ns : List ℕ) → Still s ns → IsOwned s
Still-IsOwned s ns w = (
  ns,
  record {
    chain = w.chain;
    once = λ n. ground (arith, w.once n, ap (count n) w.none_used);
    known = λ n h. ground (arith, w.known n, h, ap (count n) w.none_used);
    all = λ n h. let (z, f) = w.all n h in (z, inl f);
    knows = λ i. subst (Knows s ns) (sym (w.nobody i)) tt;
    apart = λ i j d h. absurd (ground (arith, h, ap held (w.nobody i)));
  },
)

-- A free list is made with some blocks, which are not null and different. Any number of threads allocate
-- and deallocate, in fewer than 2^16 accesses in any order, and the list is destroyed. Then the loop of
-- the destructor ends, and frees different blocks of the list, none of them in use; a block that it does
-- not free is in use, or a thread inside `deallocate_impl` holds it. So when all is given back, each
-- block is freed exactly once.
pub run-free_from :
    (news : List ℕ) (xs : List Access)
    → Given [] news
    → length xs < 2 ^ 16
    → let s = run xs (new_pool news) in
      (ns : List ℕ) × ((fuel : ℕ) → length ns < fuel → free_from fuel s.next s.pool.ptr ≡ ns)
      × ((n : ℕ) → count n ns + count n s.used ≤ 1)
      × ((n : ℕ) → 0 < count n ns → 0 < count n s.blocks)
      × ((n : ℕ) → 0 < count n s.blocks → (n ≢ 0) × Placed s ns n)
unfolding new_pool
run-free_from news xs g l =
    let (ms, tag, w) = reserve-Still news (new_pool []) [] g refl (record {
      chain = refl;
      none_used = refl;
      once = λ n. ground arith;
      known = λ n h. ground (arith, h);
      all = λ n h. absurd (ground (arith, h));
      nobody = λ i. refl;
    }) in
    let (ns, o) =
      run-IsOwned xs (new_pool news) (ground (arith, l, tag))
        (Still-IsOwned (new_pool news) ms w) in
    (
      ns,
      λ fuel h.
          free_from-Chain fuel (run xs (new_pool news)).next (run xs (new_pool news)).pool.ptr ns
            o.chain h,
      o.once,
      λ n h. (o.known n (ground (arith, h))).0,
      o.all,
    )

module _ (s : Pool) (i : ℕ) (e : s.places i ≡ idle) where
  -- A thread that allocates alone.
  alone_allocates :
      (bounded : Bool) (new : ℕ)
      → s.pool.ptr ≢ 0
      → let r = run (allocates i ∷ peeks i ∷ exchanges i false ∷ []) s in
        (r ≡ record ((allocate_unsafe bounded new s).1) { places = r.places }) × (r.places i ≡ idle)
  unfolding run step allocate peek exchange allocate_unsafe
  alone_allocates bounded new z =
      let w = s.pool in
      let x = s.next s.pool.ptr in
      let s1 : Pool = move_to i (loaded w) s in
      let s2 : Pool = move_to i (peeked w x) s1 in
      let s3 : Pool = move_to i idle (record s2 {
        pool = record { ptr = x; tag = (w.tag + 1) % 2 ^ 16 };
        used = w.ptr ∷ s2.used;
      }) in
      let two : step (peeks i) s1 ≡ s2 =
        ap (λ p. peek i p s1) (if_true {b = i == i} (loaded w) (s.places i) (ground arith))
        ∙ if_false {b = w.ptr == 0} _ _ (ground (arith, z)) in
      let three : step (exchanges i false) s2 ≡ s3 =
        ap (λ p. exchange i false p s2)
          (if_true {b = i == i} (peeked w x) (s1.places i) (ground arith))
        ∙ if_true {b = same_handle w w && true} _ _ (ground arith) in
      let all : run (allocates i ∷ peeks i ∷ exchanges i false ∷ []) s ≡ s3 =
        ap (λ p. step (exchanges i false) (step (peeks i) (allocate i p s))) e
        ∙ ap (step (exchanges i false)) two
        ∙ three in
      subst
        (λ r.
          (r ≡ record ((allocate_unsafe bounded new s).1) { places = r.places })
          × (r.places i ≡ idle))
        (sym all)
        (
          ap {A = ℕ × Pool} (λ u. record (u.1) { places = (s3).places })
              (sym (if_false {b = w.ptr == 0} _ _ (ground (arith, z)))),
          if_true {b = i == i} idle (s2.places i) (ground arith),
        )

  -- A thread that deallocates alone.
  alone_deallocates :
      (n : ℕ)
      → 0 < count n s.used
      → let r = run (deallocates i n ∷ links i ∷ exchanges i false ∷ []) s in
        (r ≡ record (deallocate_unsafe n s) { places = r.places }) × (r.places i ≡ idle)
  unfolding run step deallocate link exchange deallocate_unsafe
  alone_deallocates n h =
      let w = s.pool in
      let s1 : Pool = move_to i (leaving n w) (record s { used = remove n s.used }) in
      let s2 : Pool = move_to i (linked n w) (record s1 { next = update s1.next n w.ptr }) in
      let s3 : Pool = move_to i idle (record s2 { pool = record { ptr = n; tag = w.tag } }) in
      let one : step (deallocates i n) s ≡ s1 =
        ap (λ p. deallocate i n p s) e
        ∙ if_true {b = ltb 0 (count n s.used)} _ _ (ground (arith, h)) in
      let two : step (links i) s1 ≡ s2 =
        ap (λ p. link i p s1) (if_true {b = i == i} (leaving n w) (s.places i) (ground arith)) in
      let three : step (exchanges i false) s2 ≡ s3 =
        ap (λ p. exchange i false p s2)
          (if_true {b = i == i} (linked n w) (s1.places i) (ground arith))
        ∙ if_true {b = same_handle w w && true} _ _ (ground arith) in
      let all : run (deallocates i n ∷ links i ∷ exchanges i false ∷ []) s ≡ s3 =
        ap (λ p. step (exchanges i false) (step (links i) p)) one
        ∙ ap (step (exchanges i false)) two
        ∙ three in
      subst (λ r. (r ≡ record (deallocate_unsafe n s) { places = r.places }) × (r.places i ≡ idle))
        (sym all) (refl, if_true {b = i == i} idle (s2.places i) (ground arith))

-- While no other thread is inside and no exchange fails, `allocate_impl` of a pool that is not empty and
-- `deallocate_impl` of a node in use end after three accesses, and leave the pool as the unsafe variants
-- do.
pub alone-Same :
    (s : Pool) (i n new : ℕ) (bounded : Bool)
    → s.places i ≡ idle
    → s.pool.ptr ≢ 0
    → 0 < count n s.used
    → let r = run (allocates i ∷ peeks i ∷ exchanges i false ∷ []) s in
      let r' = run (deallocates i n ∷ links i ∷ exchanges i false ∷ []) s in
      (r ≡ record ((allocate_unsafe bounded new s).1) { places = r.places })
      × (r.places i ≡ idle)
      × (r' ≡ record (deallocate_unsafe n s) { places = r'.places })
      × (r'.places i ≡ idle)
alone-Same s i n new bounded e z h =
    let (a, b) = alone_allocates s i e bounded new z in
    let (c, d) = alone_deallocates s i e n h in (a, b, c, d)
