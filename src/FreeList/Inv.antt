-- ===== src/FreeList/Inv.antt =====
-- freelist.h: the free nodes form a chain, each node has one owner, and a thread that is about to take
-- the first node knows its successor.
use fiber_lib.Prelude.{
  ℕ, ◌+◌, ◌≤◌, ◌<◌, ◌≡◌, ◌≢◌, ◌⊎◌, List, [], ◌∷◌, ◌==◌, update, count, arith, ap, sym, subst,
  if◌then◌else◌,
}
use fiber_lib.FreeList.{Place, idle, loaded, peeked, leaving, linked, Pool, remove}

-- The nodes from an address on, along `next`.
abbrev pub Chain : (ℕ → ℕ) → ℕ → List ℕ → Type 0
Chain next p [] = p ≡ 0
Chain next p (n ∷ ns) = (p ≡ n) × (n ≢ 0) × Chain next (next n) ns

-- What a thread knows of the pool.
abbrev pub Knows : Pool → List ℕ → Place → Type 0
Knows s ns idle = Unit
Knows s ns (loaded w) = (w.tag ≤ s.pool.tag) × (w.tag ≡ s.pool.tag → w.ptr ≢ 0 → 0 < count w.ptr ns)
Knows s ns (peeked w x) =
    (w.tag ≤ s.pool.tag)
    × (w.ptr ≢ 0)
    × (w.tag ≡ s.pool.tag → (0 < count w.ptr ns) × (s.next w.ptr ≡ x))
Knows s ns (leaving n w) =
    (n ≢ 0) × (count n ns ≡ 0) × (count n s.used ≡ 0) × (0 < count n s.blocks)
Knows s ns (linked n w) =
    (n ≢ 0) × (count n ns ≡ 0) × (count n s.used ≡ 0) × (0 < count n s.blocks) × (s.next n ≡ w.ptr)

-- The node that a thread gives back, or 0.
abbrev pub held : Place → ℕ
held idle = 0
held (loaded w) = 0
held (peeked w x) = 0
held (leaving n w) = n
held (linked n w) = n

-- Where a node is: free, in use, or held by a thread that gives it back.
abbrev pub Placed : Pool → List ℕ → ℕ → Type 0
Placed s ns n = (0 < count n ns) ⊎ ((0 < count n s.used) ⊎ ((i : ℕ) × (held (s.places i) ≡ n)))

-- The same, when thread `i` has gone to a place.
abbrev pub Moved : ℕ → Place → (ℕ → Place) → List ℕ → List ℕ → ℕ → Type 0
Moved i p places ns used n =
    (0 < count n ns)
    ⊎ ((0 < count n used) ⊎ ((held p ≡ n) ⊎ ((j : ℕ) × (i ≢ j) × (held (places j) ≡ n))))

-- The chain `ns` of the free nodes, with each block of the list free, in use or held by one thread, and
-- once.
pub record Owns (s : Pool) (ns : List ℕ) : Type 0 where
  pub chain : Chain s.next s.pool.ptr ns
  pub once : (n : ℕ) → count n ns + count n s.used ≤ 1
  pub known : (n : ℕ) → 0 < count n ns + count n s.used → (0 < count n s.blocks) × (n ≢ 0)
  pub all : (n : ℕ) → 0 < count n s.blocks → (n ≢ 0) × Placed s ns n
  pub knows : (i : ℕ) → Knows s ns (s.places i)
  pub apart : (i j : ℕ) → i ≢ j → held (s.places i) ≢ 0 → held (s.places i) ≢ held (s.places j)

pub count-remove :
    (m n : ℕ) (ns : List ℕ)
    → 0 < count n ns
    → count m (remove n ns) + (if n == m then 1 else 0) ≡ count m ns
count-remove m n [] h = absurd (omega (arith, h))
count-remove m n (k ∷ ks) h = ground (arith, count-remove m n ks)

-- A chain does not see a node outside it.
pub Chain-update :
    (next : ℕ → ℕ) (p n q : ℕ) (ns : List ℕ)
    → count n ns ≡ 0
    → Chain next p ns
    → Chain (update next n q) p ns
Chain-update next p n q [] h c = c
Chain-update next p n q (m ∷ ns) h (e, d, c) =
    (e, d, subst_next (ground (arith, h)) (Chain-update next (next m) n q ns (ground (arith, h)) c))
  where
    subst_next :
        next m ≡ update next n q m
        → Chain (update next n q) (next m) ns
        → Chain (update next n q) (update next n q m) ns
    subst_next e c = subst (λ x. Chain (update next n q) x ns) e c

-- The first node of a chain.
pub Chain-front :
    (next : ℕ → ℕ) (p : ℕ) (ns : List ℕ)
    → p ≢ 0
    → Chain next p ns
    → (ms : List ℕ) × (ns ≡ p ∷ ms) × Chain next (next p) ms
Chain-front next p [] h c = absurd (h c)
Chain-front next p (n ∷ ns) h (e, d, c) =
    (ns, ap (λ x. x ∷ ns) (sym e), subst (λ x. Chain next (next x) ns) (sym e) c)
