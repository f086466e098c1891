-- ===== src/FreeList/Keep.antt =====
-- freelist.h: every access of every thread keeps each node with one owner.
use fiber_lib.Prelude.{
  ℕ, ◌+◌, ◌%◌, ◌^◌, ◌≤◌, ◌<◌, ◌≡◌, ◌≢◌, ◌⊎◌, inl, inr, Bool, true, false, ◌&&◌, not, List, [], ◌∷◌,
  ◌==◌, ltb, update, count, refl, arith, if◌then◌else◌, ap, sym, subst, ◌∙◌, length, if_true,
  if_false,
}
use native.Mathlib.Decide.{ℕ_discrete}
use native.Mathlib.Nat.{mod-eq_of_lt}
use fiber_lib.FreeList.{
  Handle, same_handle, Place, idle, loaded, peeked, leaving, linked, Pool, move_to, remove,
  allocate, peek, allocate_new, deallocate, link, exchange, Access, allocates, peeks, gets_new,
  deallocates, links, exchanges, step, run,
}
use fiber_lib.FreeList.Inv.{
  Chain, Knows, held, Placed, Moved, Owns, count-remove, Chain-update, Chain-front,
}

front_counted : (next : ℕ → ℕ) (p : ℕ) (ns : List ℕ) → Chain next p ns → p ≢ 0 → 0 < count p ns
front_counted next p [] c h = absurd (h c)
front_counted next p (n ∷ ns) (e, d, c) h = ground (arith, e)

held_unused :
    (s : Pool) (ns : List ℕ) (p : Place)
    → Knows s ns p
    → held p ≢ 0
    → (count (held p) s.used ≡ 0) × (count (held p) ns ≡ 0) × (0 < count (held p) s.blocks)
held_unused s ns idle k h = absurd (h refl)
held_unused s ns (loaded w) k h = absurd (h refl)
held_unused s ns (peeked w x) k h = absurd (h refl)
held_unused s ns (leaving n w) (d, a, b, c) h = (b, a, c)
held_unused s ns (linked n w) (d, a, b, c, e) h = (b, a, c)

Placed-Moved :
    (i : ℕ) (p : Place) (s : Pool) (ns : List ℕ) (n : ℕ)
    → Moved i p s.places ns s.used n
    → Placed (move_to i p s) ns n
Placed-Moved i p s ns n (inl a) = inl a
Placed-Moved i p s ns n (inr (inl b)) = inr (inl b)
Placed-Moved i p s ns n (inr (inr (inl e))) =
    inr (inr (i, ap held (if_true {b = i == i} p (s.places i) (ground arith)) ∙ e))
Placed-Moved i p s ns n (inr (inr (inr (j, d, e)))) =
    inr (inr (j, ap held (if_false {b = i == j} p (s.places j) (ground (arith, d))) ∙ e))

Moved-Placed :
    (i : ℕ) (p : Place) (s : Pool) (ns : List ℕ) (n : ℕ)
    → s.places i ≡ p
    → Placed s ns n
    → Moved i p s.places ns s.used n
Moved-Placed i p s ns n q (inl a) = inl a
Moved-Placed i p s ns n q (inr (inl b)) = inr (inl b)
Moved-Placed i p s ns n q (inr (inr (j, e))) = elim (ℕ_discrete i j) [
  | yes d ↦ inr (inr (inl (ap held (sym q) ∙ ap (λ k. held (s.places k)) d ∙ e)))
  | no d ↦ inr (inr (inr (j, d, e)))
]

wider : {A B C D : Type 0} → A ⊎ (B ⊎ C) → A ⊎ (B ⊎ (C ⊎ D))
wider (inl a) = inl a
wider (inr (inl b)) = inr (inl b)
wider (inr (inr c)) = inr (inr (inl c))

-- A node stays where it is, or goes where the counts of the lists and the thread's place say.
Moved-map :
    (i n : ℕ) (p q : Place) (places : ℕ → Place) (ns ms used used' : List ℕ)
    → (0 < count n ns → (0 < count n ms) ⊎ ((0 < count n used') ⊎ (held q ≡ n)))
    → (0 < count n used → (0 < count n ms) ⊎ ((0 < count n used') ⊎ (held q ≡ n)))
    → (held p ≡ n → (0 < count n ms) ⊎ ((0 < count n used') ⊎ (held q ≡ n)))
    → Moved i p places ns used n
    → Moved i q places ms used' n
Moved-map i n p q places ns ms used used' f g h (inl a) = wider (f a)
Moved-map i n p q places ns ms used used' f g h (inr (inl a)) = wider (g a)
Moved-map i n p q places ns ms used used' f g h (inr (inr (inl a))) = wider (h a)
Moved-map i n p q places ns ms used used' f g h (inr (inr (inr a))) = inr (inr (inr a))

-- The other threads keep what they know, and the node that thread `i` holds is not theirs.
moved :
    (i : ℕ) (p : Place) (s : Pool) (ns : List ℕ)
    → Chain s.next s.pool.ptr ns
    → ((n : ℕ) → count n ns + count n s.used ≤ 1)
    → ((n : ℕ) → 0 < count n ns + count n s.used → (0 < count n s.blocks) × (n ≢ 0))
    → ((n : ℕ) → 0 < count n s.blocks → (n ≢ 0) × Moved i p s.places ns s.used n)
    → Knows s ns p
    → ((j : ℕ) → i ≢ j → Knows s ns (s.places j))
    → ((j k : ℕ) → j ≢ k → held (s.places j) ≢ 0 → held (s.places j) ≢ held (s.places k))
    → ((j : ℕ) → i ≢ j → held p ≢ 0 → held (s.places j) ≢ held p)
    → Owns (move_to i p s) ns
moved i p s ns chain once known spots mine others apart mine_only = record {
  chain = chain;
  once = once;
  known = known;
  all = λ n h. let (z, m) = spots n h in (z, Placed-Moved i p s ns n m);
  knows = λ j. elim (ℕ_discrete i j) [
    | yes e ↦ subst (Knows s ns) (sym (if_true {b = i == j} _ _ (ground (arith, e)))) mine
    | no d ↦ subst (Knows s ns) (sym (if_false {b = i == j} _ _ (ground (arith, d)))) (others j d)
  ];
  apart = λ j k d h. elim (ℕ_discrete i j) [
    | yes e ↦ ground (arith, mine_only k, h, e, d)
    | no f ↦ ground (arith, mine_only j, apart j k d, h, f, d)
  ];
}

module _ (s : Pool) (ns : List ℕ) (w : Owns s ns) where
  -- A node stays where it is, or goes where the counts of the lists and the thread's place say.
  spots :
      (i : ℕ) (p q : Place) (ms used : List ℕ)
      → s.places i ≡ p
      → ((n : ℕ)
          → n ≢ 0
          → (0 < count n ns) ⊎ ((0 < count n s.used) ⊎ (held p ≡ n))
          → (0 < count n ms) ⊎ ((0 < count n used) ⊎ (held q ≡ n)))
      → (n : ℕ) → 0 < count n s.blocks
      → (n ≢ 0) × Moved i q s.places ms used n
  spots i p q ms used e f n h =
      let (z, m) = w.all n h in
      (
        z,
        Moved-map i n p q s.places ns ms s.used used (λ a. f n z (inl a)) (λ a. f n z (inr (inl a)))
            (λ a. f n z (inr (inr a))) (Moved-Placed i p s ns n e m),
      )

  -- Of a place that holds no node before and after.
  still :
      (i : ℕ) (p q : Place)
      → s.places i ≡ p
      → held p ≡ held q
      → (n : ℕ) → 0 < count n s.blocks
      → (n ≢ 0) × Moved i q s.places ns s.used n
  still i p q e h =
      spots i p q ns s.used e
        (λ n z m. subst (λ x. (0 < count n ns) ⊎ ((0 < count n s.used) ⊎ (x ≡ n))) h m)

  allocate-Owns : (i : ℕ) (p : Place) → s.places i ≡ p → Owns (allocate i p s) ns
  unfolding allocate
  allocate-Owns i idle e =
      moved i (loaded s.pool) s ns w.chain w.once w.known (still i idle (loaded s.pool) e refl)
        (omega arith, λ t h. front_counted s.next s.pool.ptr ns w.chain h) (λ j d. w.knows j)
        w.apart (λ j d h. absurd (h refl))
  allocate-Owns i (loaded v) e = w
  allocate-Owns i (peeked v x) e = w
  allocate-Owns i (leaving n v) e = w
  allocate-Owns i (linked n v) e = w

  if_Owns :
      (b : Bool) (x y : Pool)
      → (b ≡ true → Owns x ns)
      → (b ≡ false → Owns y ns)
      → Owns (if b then x else y) ns
  if_Owns true x y f g = f refl
  if_Owns false x y f g = g refl

  peek-Owns : (i : ℕ) (p : Place) → s.places i ≡ p → Owns (peek i p s) ns
  unfolding peek
  peek-Owns i idle e = w
  peek-Owns i (loaded v) e =
      let (l, c) = subst (Knows s ns) e (w.knows i) in
      if_Owns (v.ptr == 0) _ _ (λ z. w)
        λ z.
          moved i (peeked v (s.next v.ptr)) s ns w.chain w.once w.known
            (still i (loaded v) (peeked v (s.next v.ptr)) e refl)
            (l, ground (arith, z), λ t. (c t (ground (arith, z)), refl)) (λ j d. w.knows j) w.apart
            (λ j d h. absurd (h refl))
  peek-Owns i (peeked v x) e = w
  peek-Owns i (leaving n v) e = w
  peek-Owns i (linked n v) e = w

  Knows-allocate_new :
      (new : ℕ) (p : Place)
      → count new s.blocks ≡ 0
      → Knows s ns p
      → Knows (record s { used = new ∷ s.used; blocks = new ∷ s.blocks }) ns p
  Knows-allocate_new new idle f k = tt
  Knows-allocate_new new (loaded v) f k = k
  Knows-allocate_new new (peeked v x) f k = k
  Knows-allocate_new new (leaving n v) f k = ground (arith, f, k)
  Knows-allocate_new new (linked n v) f k = ground (arith, f, k)

  allocate_new-Owns : (i new : ℕ) (p : Place) → s.places i ≡ p → Owns (allocate_new i new p s) ns
  unfolding allocate_new
  allocate_new-Owns i new idle e = w
  allocate_new-Owns i new (loaded v) e =
      if_Owns ((v.ptr == 0) && (ltb 0 new && (count new s.blocks == 0))) _ _
        (λ z.
          let f : count new s.blocks ≡ 0 = ground (arith, z) in
          moved i idle (record s { used = new ∷ s.used; blocks = new ∷ s.blocks }) ns w.chain
            (λ n. ground (arith, w.once n, w.known n, f)) (λ n h. ground (arith, w.known n, z, h))
            (λ n h. elim (ℕ_discrete new n) [
              | yes d ↦ (ground (arith, z, d), inr (inl (ground (arith, d))))
              | no d ↦
                  spots i (loaded v) idle ns (new ∷ s.used) e (λ m t c. ground (arith, c)) n
                    (ground (arith, h, d))
            ])
            tt (λ j d. Knows-allocate_new new (s.places j) f (w.knows j)) w.apart
            (λ j d h. absurd (h refl)))
        (λ z. w)
  allocate_new-Owns i new (peeked v x) e = w
  allocate_new-Owns i new (leaving n v) e = w
  allocate_new-Owns i new (linked n v) e = w

  Knows-remove :
      (n : ℕ) (p : Place)
      → 0 < count n s.used
      → Knows s ns p
      → Knows (record s { used = remove n s.used }) ns p
  Knows-remove n idle f k = tt
  Knows-remove n (loaded v) f k = k
  Knows-remove n (peeked v x) f k = k
  Knows-remove n (leaving m v) f k = ground (arith, k, count-remove m n s.used f)
  Knows-remove n (linked m v) f k = ground (arith, k, count-remove m n s.used f)

  deallocate-Owns : (i n : ℕ) (p : Place) → s.places i ≡ p → Owns (deallocate i n p s) ns
  unfolding deallocate
  deallocate-Owns i n idle e =
      if_Owns (ltb 0 (count n s.used)) _ _
        (λ z.
          let f : 0 < count n s.used = ground (arith, z) in
          moved i (leaving n s.pool) (record s { used = remove n s.used }) ns w.chain
            (λ m. ground (arith, w.once m, count-remove m n s.used f))
            (λ m h. w.known m (ground (arith, h, count-remove m n s.used f)))
            (spots i idle (leaving n s.pool) ns (remove n s.used) e
              (λ m t c. ground (arith, t, c, count-remove m n s.used f)))
            (ground (arith, w.once n, w.known n, count-remove n n s.used f, f))
            (λ j d. Knows-remove n (s.places j) f (w.knows j)) w.apart
            (λ j d h q. ground (arith, held_unused s ns (s.places j) (w.knows j), f, q, h)))
        (λ z. w)
  deallocate-Owns i n (loaded v) e = w
  deallocate-Owns i n (peeked v x) e = w
  deallocate-Owns i n (leaving m v) e = w
  deallocate-Owns i n (linked m v) e = w

  Knows-link :
      (n q : ℕ) (p : Place)
      → count n ns ≡ 0
      → held p ≢ n
      → Knows s ns p
      → Knows (record s { next = update s.next n q }) ns p
  Knows-link n q idle f d k = tt
  Knows-link n q (loaded v) f d k = k
  Knows-link n q (peeked v x) f d (l, z, c) = (l, z, λ t. ground (arith, c t, f))
  Knows-link n q (leaving m v) f d k = k
  Knows-link n q (linked m v) f d k = ground (arith, k, d)

  link-Owns : (i : ℕ) (p : Place) → s.places i ≡ p → Owns (link i p s) ns
  unfolding link
  link-Owns i idle e = w
  link-Owns i (loaded v) e = w
  link-Owns i (peeked v x) e = w
  link-Owns i (leaving n v) e =
      let (z, f, u, b) = subst (Knows s ns) e (w.knows i) in
      let mine : held (s.places i) ≡ n = ap held e in
      moved i (linked n v) (record s { next = update s.next n v.ptr }) ns
        (Chain-update s.next s.pool.ptr n v.ptr ns f w.chain) w.once w.known
        (still i (leaving n v) (linked n v) e refl) (ground (arith, z, f, u, b))
        (λ j d.
          Knows-link n v.ptr (s.places j) f
            (λ q. w.apart i j d (ground (arith, z, mine)) (ground (arith, mine, q))) (w.knows j))
        w.apart (λ j d h q. w.apart i j d (ground (arith, z, mine)) (ground (arith, mine, q)))
  link-Owns i (linked n v) e = w

-- An exchange of `allocate_impl` that succeeds takes the first node of the chain.
Knows-take :
    (s : Pool) (n : ℕ) (ms : List ℕ) (next : Handle) (p : Place)
    → next.tag ≡ s.pool.tag + 1
    → count n s.used ≡ 0
    → Knows s (n ∷ ms) p
    → Knows (record s { pool = next; used = n ∷ s.used }) ms p
Knows-take s n ms next idle t u k = tt
Knows-take s n ms next (loaded v) t u k = ground (arith, t, k)
Knows-take s n ms next (peeked v x) t u (l, z, c) =
    (ground (arith, t, l), z, λ q. absurd (ground (arith, q, t, l)))
Knows-take s n ms next (leaving m v) t u k = ground (arith, k)
Knows-take s n ms next (linked m v) t u k = ground (arith, k)

take-Owns :
    (s : Pool) (ns : List ℕ) (i x : ℕ) (v : Handle)
    → Owns s ns
    → s.places i ≡ peeked v x
    → s.pool.ptr ≡ v.ptr
    → s.pool.tag ≡ v.tag
    → s.pool.tag + 1 < 2 ^ 16
    → v.ptr ≢ 0
    → s.next v.ptr ≡ x
    → (ms : List ℕ) × Owns
        (move_to i idle (record s {
          pool = record { ptr = x; tag = (v.tag + 1) % 2 ^ 16 };
          used = v.ptr ∷ s.used;
        }))
        ms
take-Owns s ns i x v w q p t b z e =
    let (ms, split, rest) = Chain-front s.next s.pool.ptr ns (ground (arith, p, z)) w.chain in
    let here : ns ≡ v.ptr ∷ ms = split ∙ ap (λ y. y ∷ ms) p in
    let w' : Owns s (v.ptr ∷ ms) = subst (Owns s) here w in
    let unused : count v.ptr s.used ≡ 0 = ground (arith, w'.once v.ptr) in
    (
      ms,
      moved i idle
          (record s {
            pool = record { ptr = x; tag = (v.tag + 1) % 2 ^ 16 };
            used = v.ptr ∷ s.used;
          })
          ms (subst (λ y. Chain s.next y ms) (ap s.next p ∙ e) rest)
          (λ n. ground (arith, w'.once n)) (λ n h. w'.known n (ground (arith, h)))
          (spots s (v.ptr ∷ ms) w' i (peeked v x) idle ms (v.ptr ∷ s.used) q
            (λ n t c. ground (arith, c)))
          tt
          (λ j d.
            Knows-take s v.ptr ms (record { ptr = x; tag = (v.tag + 1) % 2 ^ 16 }) (s.places j)
              (mod-eq_of_lt (ground (arith, t, b)) ∙ ap (λ y. y + 1) (sym t)) unused (w'.knows j))
          w'.apart (λ j d h. absurd (h refl)),
    )

-- One of `deallocate_impl` puts its node before the chain.
Knows-put :
    (s : Pool) (n : ℕ) (ns : List ℕ) (p : Place)
    → held p ≢ n
    → Knows s ns p
    → Knows (record s { pool = record { ptr = n; tag = s.pool.tag } }) (n ∷ ns) p
Knows-put s n ns idle d k = tt
Knows-put s n ns (loaded v) d (l, c) = (l, λ t z. ground (arith, c t z))
Knows-put s n ns (peeked v x) d (l, z, c) = (l, z, λ t. ground (arith, c t))
Knows-put s n ns (leaving m v) d k = ground (arith, k, d)
Knows-put s n ns (linked m v) d k = ground (arith, k, d)

-- Some chain of free nodes makes every node free, in use or held by one thread, and once.
abbrev pub IsOwned : Pool → Type 0
IsOwned s = (ns : List ℕ) × Owns s ns

put-Owns :
    (s : Pool) (ns : List ℕ) (i n : ℕ) (v : Handle)
    → Owns s ns
    → s.places i ≡ linked n v
    → s.pool.ptr ≡ v.ptr
    → s.pool.tag ≡ v.tag
    → Owns (move_to i idle (record s { pool = record { ptr = n; tag = s.pool.tag } })) (n ∷ ns)
put-Owns s ns i n v w e p t =
    let (z, f, u, b, l) = subst (Knows s ns) e (w.knows i) in
    let mine : held (s.places i) ≡ n = ap held e in
    moved i idle (record s { pool = record { ptr = n; tag = s.pool.tag } }) (n ∷ ns)
      (refl, z, subst (λ y. Chain s.next y ns) (p ∙ sym l) w.chain)
      (λ m. ground (arith, w.once m, f, u)) (λ m h. ground (arith, w.known m, z, b, h))
      (spots s ns w i (linked n v) idle (n ∷ ns) s.used e (λ m t c. ground (arith, c))) tt
      (λ j d.
        Knows-put s n ns (s.places j)
          (λ q. w.apart i j d (ground (arith, z, mine)) (ground (arith, mine, q))) (w.knows j))
      w.apart (λ j d h. absurd (h refl))

if_IsOwned :
    (b : Bool) (x y : Pool)
    → (b ≡ true → IsOwned x)
    → (b ≡ false → IsOwned y)
    → IsOwned (if b then x else y)
if_IsOwned true x y f g = f refl
if_IsOwned false x y f g = g refl

exchange-IsOwned :
    (s : Pool) (ns : List ℕ) (i : ℕ) (spurious : Bool) (p : Place)
    → Owns s ns
    → s.places i ≡ p
    → s.pool.tag + 1 < 2 ^ 16
    → IsOwned (exchange i spurious p s)
unfolding exchange
exchange-IsOwned s ns i spurious idle w e b = (ns, w)
exchange-IsOwned s ns i spurious (loaded v) w e b = (ns, w)
exchange-IsOwned s ns i spurious (peeked v x) w e b =
    let (l, z, c) = subst (Knows s ns) e (w.knows i) in
    if_IsOwned (same_handle s.pool v && not spurious) _ _
      (λ q.
        take-Owns s ns i x v w e (ground (arith, q)) (ground (arith, q)) b z
          (c (ground (arith, q))).1)
      (λ q. (
        ns,
        moved i (loaded s.pool) s ns w.chain w.once w.known
            (still s ns w i (peeked v x) (loaded s.pool) e refl)
            (omega arith, λ t h. front_counted s.next s.pool.ptr ns w.chain h) (λ j d. w.knows j)
            w.apart (λ j d h. absurd (h refl)),
      ))
exchange-IsOwned s ns i spurious (leaving n v) w e b = (ns, w)
exchange-IsOwned s ns i spurious (linked n v) w e b =
    let (z, f, u, k, l) = subst (Knows s ns) e (w.knows i) in
    let mine : held (s.places i) ≡ n = ap held e in
    if_IsOwned (same_handle s.pool v && not spurious) _ _
      (λ q.
        let t : s.pool.tag ≡ v.tag = ground (arith, q) in
        (
          n ∷ ns,
          subst
              (λ y.
                Owns (move_to i idle (record s { pool = record { ptr = n; tag = y } })) (n ∷ ns))
              t (put-Owns s ns i n v w e (ground (arith, q)) t),
        ))
      (λ q. (
        ns,
        moved i (leaving n s.pool) s ns w.chain w.once w.known
            (still s ns w i (linked n v) (leaving n s.pool) e refl) (z, f, u, k) (λ j d. w.knows j)
            w.apart (λ j d h r. w.apart i j d (ground (arith, z, mine)) (ground (arith, mine, r))),
      ))

step-IsOwned : (a : Access) (s : Pool) → s.pool.tag + 1 < 2 ^ 16 → IsOwned s → IsOwned (step a s)
unfolding step
step-IsOwned (allocates i) s b (ns, w) = (ns, allocate-Owns s ns w i (s.places i) refl)
step-IsOwned (peeks i) s b (ns, w) = (ns, peek-Owns s ns w i (s.places i) refl)
step-IsOwned (gets_new i new) s b (ns, w) = (ns, allocate_new-Owns s ns w i new (s.places i) refl)
step-IsOwned (deallocates i n) s b (ns, w) = (ns, deallocate-Owns s ns w i n (s.places i) refl)
step-IsOwned (links i) s b (ns, w) = (ns, link-Owns s ns w i (s.places i) refl)
step-IsOwned (exchanges i spurious) s b (ns, w) =
    exchange-IsOwned s ns i spurious (s.places i) w refl b

-- The tag grows by at most one in an access.
exchange_tag :
    (i : ℕ) (spurious : Bool) (p : Place) (s : Pool)
    → (exchange i spurious p s).pool.tag ≤ s.pool.tag + 1
unfolding exchange
exchange_tag i spurious idle s = omega arith
exchange_tag i spurious (loaded v) s = omega arith
exchange_tag i spurious (peeked v x) s = ground arith
exchange_tag i spurious (leaving n v) s = omega arith
exchange_tag i spurious (linked n v) s = ground arith

same_tag_allocate : (i : ℕ) (p : Place) (s : Pool) → (allocate i p s).pool ≡ s.pool
unfolding allocate
same_tag_allocate i idle s = refl
same_tag_allocate i (loaded v) s = refl
same_tag_allocate i (peeked v x) s = refl
same_tag_allocate i (leaving n v) s = refl
same_tag_allocate i (linked n v) s = refl

same_tag_peek : (i : ℕ) (p : Place) (s : Pool) → (peek i p s).pool ≡ s.pool
unfolding peek
same_tag_peek i idle s = refl
same_tag_peek i (loaded v) s = ground arith
same_tag_peek i (peeked v x) s = refl
same_tag_peek i (leaving n v) s = refl
same_tag_peek i (linked n v) s = refl

same_tag_new : (i new : ℕ) (p : Place) (s : Pool) → (allocate_new i new p s).pool ≡ s.pool
unfolding allocate_new
same_tag_new i new idle s = refl
same_tag_new i new (loaded v) s = ground arith
same_tag_new i new (peeked v x) s = refl
same_tag_new i new (leaving n v) s = refl
same_tag_new i new (linked n v) s = refl

same_tag_deallocate : (i n : ℕ) (p : Place) (s : Pool) → (deallocate i n p s).pool ≡ s.pool
unfolding deallocate
same_tag_deallocate i n idle s = ground arith
same_tag_deallocate i n (loaded v) s = refl
same_tag_deallocate i n (peeked v x) s = refl
same_tag_deallocate i n (leaving m v) s = refl
same_tag_deallocate i n (linked m v) s = refl

same_tag_link : (i : ℕ) (p : Place) (s : Pool) → (link i p s).pool ≡ s.pool
unfolding link
same_tag_link i idle s = refl
same_tag_link i (loaded v) s = refl
same_tag_link i (peeked v x) s = refl
same_tag_link i (leaving n v) s = refl
same_tag_link i (linked n v) s = refl

step_tag : (a : Access) (s : Pool) → (step a s).pool.tag ≤ s.pool.tag + 1
unfolding step
step_tag (allocates i) s = omega (arith, ap (λ h. h.tag) (same_tag_allocate i (s.places i) s))
step_tag (peeks i) s = omega (arith, ap (λ h. h.tag) (same_tag_peek i (s.places i) s))
step_tag (gets_new i new) s = omega (arith, ap (λ h. h.tag) (same_tag_new i new (s.places i) s))
step_tag (deallocates i n) s =
    omega (arith, ap (λ h. h.tag) (same_tag_deallocate i n (s.places i) s))
step_tag (links i) s = omega (arith, ap (λ h. h.tag) (same_tag_link i (s.places i) s))
step_tag (exchanges i spurious) s = exchange_tag i spurious (s.places i) s

-- While the tag does not wrap around, every interleaving of `allocate_impl` and `deallocate_impl`, with
-- exchanges that fail for no reason, keeps each node with one owner: every block of the list is in the
-- chain of free nodes from the pool's address on, or in use, or held by one thread that gives it back,
-- and in the chain and in use together at most once. So no node is lost, and no two allocations return
-- the same node before it is given back.
pub run-IsOwned :
    (xs : List Access) (s : Pool) → s.pool.tag + length xs < 2 ^ 16 → IsOwned s → IsOwned (run xs s)
unfolding run
run-IsOwned [] s b h = h
run-IsOwned (a ∷ xs) s b h =
    run-IsOwned xs (step a s) (omega (arith, step_tag a s, b))
      (step-IsOwned a s (omega (arith, b)) h)
