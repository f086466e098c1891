-- ===== src/LinkedList/Threads/Inv.antt =====
-- lockfree_linked_list.h: what holds of the list and of each thread at every moment, when one thread
-- pops.
use fiber_lib.Prelude.{
  ℕ, ◌≤◌, ◌<◌, ◌≡◌, ◌≢◌, sym, subst, Bool, true, false, not, Option, some, List, [], ◌∷◌, ◌++◌,
  ◌==◌, update, count, arith, if◌then◌else◌, if_true, if_false,
}
use native.Mathlib.Decide.{ℕ_discrete}
use fiber_lib.LinkedList.Threads.{
  Cell, Place, built, saw_tail, saw_next, checked, linked, counted, popping, pop_head, pop_tail,
  pop_next, pop_checked, pop_moved, pop_counted, pop_read, Shared, put,
}
use fiber_lib.LinkedList.Threads.Chain.{Linked, contents}

-- The node of a push that is not yet linked, or 0, and its value.
abbrev pub own : Place → ℕ
own (built n v) = n
own (saw_tail n v t) = n
own (saw_next n v t x) = n
own (checked n v t x) = n
own _ = 0

abbrev pub is_own : Place → Bool
is_own (built n v) = true
is_own (saw_tail n v t) = true
is_own (saw_next n v t x) = true
is_own (checked n v t x) = true
is_own _ = false

abbrev pub own_value : Place → ℕ
own_value (built n v) = v
own_value (saw_tail n v t) = v
own_value (saw_next n v t x) = v
own_value (checked n v t x) = v
own_value _ = 0

-- The tail that a push has read.
abbrev pub snap : Place → ℕ
snap (saw_tail n v t) = t.ptr
snap (saw_next n v t x) = t.ptr
snap (checked n v t x) = t.ptr
snap _ = 0

abbrev pub has_snap : Place → Bool
has_snap (saw_tail n v t) = true
has_snap (saw_next n v t x) = true
has_snap (checked n v t x) = true
has_snap _ = false

-- A node and its successor, as a thread has read or made them.
abbrev pub edge_from : Place → ℕ
edge_from (saw_next n v t x) = t.ptr
edge_from (checked n v t x) = t.ptr
edge_from (linked n t) = t.ptr
edge_from (counted n t) = t.ptr
edge_from (pop_next h t x) = h.ptr
edge_from (pop_checked h t x) = h.ptr
edge_from _ = 0

abbrev pub edge_to : Place → ℕ
edge_to (saw_next n v t x) = x.ptr
edge_to (checked n v t x) = x.ptr
edge_to (linked n t) = n
edge_to (counted n t) = n
edge_to (pop_next h t x) = x.ptr
edge_to (pop_checked h t x) = x.ptr
edge_to _ = 0

abbrev pub is_pop : Place → Bool
is_pop popping = true
is_pop (pop_head h) = true
is_pop (pop_tail h t) = true
is_pop (pop_next h t x) = true
is_pop (pop_checked h t x) = true
is_pop (pop_moved h x) = true
is_pop (pop_counted h x) = true
is_pop (pop_read h) = true
is_pop _ = false

-- The head that a pop has read, before its exchange.
abbrev pub front : Place → ℕ
front (pop_head h) = h.ptr
front (pop_tail h t) = h.ptr
front (pop_next h t x) = h.ptr
front (pop_checked h t x) = h.ptr
front _ = 0

abbrev pub has_front : Place → Bool
has_front (pop_head h) = true
has_front (pop_tail h t) = true
has_front (pop_next h t x) = true
has_front (pop_checked h t x) = true
has_front _ = false

-- A pop has read a tail that is not the head.
abbrev pub is_ahead : Place → Bool
is_ahead (pop_tail h t) = not (h.ptr == t.ptr)
is_ahead (pop_next h t x) = not (h.ptr == t.ptr)
is_ahead (pop_checked h t x) = not (h.ptr == t.ptr)
is_ahead _ = false

-- The successor that a thread has read or made is a node.
abbrev pub has_edge : Place → Bool
has_edge (linked n t) = true
has_edge (counted n t) = true
has_edge (pop_next h t x) = not (h.ptr == t.ptr)
has_edge (pop_checked h t x) = not (h.ptr == t.ptr)
has_edge _ = false

-- The old head behind the exchange of a pop, and the node whose content it is to read.
abbrev pub past : Place → ℕ
past (pop_moved h x) = h.ptr
past (pop_counted h x) = h.ptr
past (pop_read h) = h.ptr
past _ = 0

abbrev pub is_past : Place → Bool
is_past (pop_moved h x) = true
is_past (pop_counted h x) = true
is_past (pop_read h) = true
is_past _ = false

abbrev pub reading : Place → ℕ
reading (pop_moved h x) = x.ptr
reading (pop_counted h x) = x.ptr
reading _ = 0

abbrev pub is_reading : Place → Bool
is_reading (pop_moved h x) = true
is_reading (pop_counted h x) = true
is_reading _ = false

-- The content that a pop is about to read.
abbrev pub in_hand : (ℕ → Cell) → Place → List (Option ℕ)
in_hand nodes p = if is_reading p then (nodes (reading p)).content ∷ [] else []

-- No thread that is inside a push refers to the node `n`, other than as its own one.
abbrev pub IsUnseen : (ℕ → Place) → ℕ → Type 0
IsUnseen places n =
    (j : ℕ)
    → (has_snap (places j) ≡ true → snap (places j) ≢ n)
      × (edge_to (places j) ≢ 0 → edge_from (places j) ≢ n)

module _ (popper : ℕ) where
  -- What thread `i` knows at its place.
  pub record Knows (s : Shared) (ns : List ℕ) (i : ℕ) (p : Place) : Type 0 where
    pub own_new :
        is_own p ≡ true
        → (own p ≢ 0)
          × (count (own p) (s.head.ptr ∷ ns) ≡ 0)
          × (s.used (own p) ≡ true)
          × ((s.nodes (own p)).next.ptr ≡ 0)
          × ((s.nodes (own p)).content ≡ some (own_value p))
    pub snap_in :
        has_snap p ≡ true → (s.nodes (snap p)).next.ptr ≡ 0 → 0 < count (snap p) (s.head.ptr ∷ ns)
    pub edge : edge_to p ≢ 0 → (s.nodes (edge_from p)).next.ptr ≡ edge_to p
    pub only : is_pop p ≡ true → i ≡ popper
    pub at_head : has_front p ≡ true → front p ≡ s.head.ptr
    pub ahead : is_ahead p ≡ true → s.tail.ptr ≢ s.head.ptr
    pub full : has_edge p ≡ true → edge_to p ≢ 0
    pub past_out :
        is_past p ≡ true
        → (count (past p) (s.head.ptr ∷ ns) ≡ 0)
          × ((s.nodes (past p)).next.ptr ≢ 0)
          × (s.used (past p) ≡ true)
    pub reads : is_reading p ≡ true → reading p ≡ s.head.ptr

  -- The nodes behind the head are `ns`.
  pub record Sound (s : Shared) (ns : List ℕ) : Type 0 where
    pub chain : Linked s.nodes s.head.ptr ns
    pub once : (a : ℕ) → count a (s.head.ptr ∷ ns) ≤ 1
    pub known : (a : ℕ) → 0 < count a (s.head.ptr ∷ ns) → (s.used a ≡ true) × (a ≢ 0)
    pub tail_in : 0 < count s.tail.ptr (s.head.ptr ∷ ns)
    pub fifo : s.popped ++ in_hand s.nodes (s.places popper) ++ contents s.nodes ns ≡ s.pushed
    pub knows : (i : ℕ) → Knows s ns i (s.places i)
    pub apart :
        (i j : ℕ)
        → i ≢ j
        → is_own (s.places i) ≡ true
        → is_own (s.places j) ≡ true
        → own (s.places i) ≢ own (s.places j)

  -- What a thread knows depends on the head, the tail, the nodes and their use alone.
  pub Knows-rest :
      (m : ℕ) (places : ℕ → Place) (pushed popped : List (Option ℕ)) (j : ℕ) (q : Place)
      (s : Shared) (ns : List ℕ)
      → Knows s ns j q
      → Knows (record s { size = m; places = places; pushed = pushed; popped = popped }) ns j q
  Knows-rest m places pushed popped j q s ns k = record {
    own_new = k.own_new;
    snap_in = k.snap_in;
    edge = k.edge;
    only = k.only;
    at_head = k.at_head;
    ahead = k.ahead;
    full = k.full;
    past_out = k.past_out;
    reads = k.reads;
  }

  Knows-moved :
      (i : ℕ) (p : Place) (s : Shared) (ns : List ℕ)
      → Knows s ns i p
      → ((j : ℕ) → i ≢ j → Knows s ns j (s.places j))
      → (j : ℕ) → Knows s ns j (update s.places i p j)
  Knows-moved i p s ns mine others j = elim (ℕ_discrete i j) [
    | yes e ↦
        subst (λ k. Knows s ns k (update s.places i p k)) e
          (subst (Knows s ns i) (sym (if_true {b = i == i} _ _ (ground arith))) mine)
    | no d ↦ subst (Knows s ns j) (sym (if_false {b = i == j} _ _ (ground (arith, d)))) (others j d)
  ]

  -- Thread `i` goes to the place `p`.
  pub moved :
      (i : ℕ) (p : Place) (s : Shared) (ns : List ℕ)
      → Linked s.nodes s.head.ptr ns
      → ((a : ℕ) → count a (s.head.ptr ∷ ns) ≤ 1)
      → ((a : ℕ) → 0 < count a (s.head.ptr ∷ ns) → (s.used a ≡ true) × (a ≢ 0))
      → 0 < count s.tail.ptr (s.head.ptr ∷ ns)
      → (s.popped ++ in_hand s.nodes (update s.places i p popper) ++ contents s.nodes ns ≡ s.pushed)
      → Knows s ns i p
      → ((j : ℕ) → i ≢ j → Knows s ns j (s.places j))
      → ((j k : ℕ)
          → j ≢ k
          → is_own (s.places j) ≡ true
          → is_own (s.places k) ≡ true
          → own (s.places j) ≢ own (s.places k))
      → ((j : ℕ) → i ≢ j → is_own p ≡ true → is_own (s.places j) ≡ true → own (s.places j) ≢ own p)
      → Sound (put i p s) ns
  moved i p s ns chain once known tail fifo mine others apart mine_only = record {
    chain = chain;
    once = once;
    known = known;
    tail_in = tail;
    fifo = fifo;
    knows = λ j.
        Knows-rest s.size (update s.places i p) s.pushed s.popped j (update s.places i p j) s ns
          (Knows-moved i p s ns mine others j);
    apart = λ j k d h g. elim (ℕ_discrete i j) [
      | yes e ↦ ground (arith, mine_only k, h, g, e, d)
      | no f ↦ ground (arith, mine_only j, apart j k d, h, g, f, d)
    ];
  }
