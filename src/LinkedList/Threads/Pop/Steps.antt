-- ===== src/LinkedList/Threads/Pop/Steps.antt =====
-- lockfree_linked_list.h, `pop_front_lockfree`: each turn of a pop keeps what Inv states.
use fiber_lib.Prelude.{
  ℕ, ◌≡◌, ◌≢◌, refl, sym, ap, subst, ◌∙◌, Bool, false, not, ◌&&◌, ◌==◌, arith, if◌then◌else◌,
  if_true, if_false, Bool-cases, inl, inr, List, ◌∷◌, [],
}
use fiber_lib.FreeList.{Handle, same_handle}
use fiber_lib.LinkedList.Threads.{
  Place, idle, popping, pop_head, pop_tail, pop_next, pop_checked, Shared, put, start_pop, swing,
  move_head, try_move, decide,
}
use fiber_lib.LinkedList.Threads.Inv.{is_reading, Knows, Sound}
use fiber_lib.LinkedList.Threads.Push.{IsSound, if_IsSound, walk, nothing-Knows}
use fiber_lib.LinkedList.Threads.Push.Swing.{swing-Sound, swing-places}
use fiber_lib.LinkedList.Threads.Pop.{has_successor, moved_head-Sound}

-- A pop that starts knows only that it is the one that pops.
popping-Knows :
    (popper : ℕ) (s : Shared) (ns : List ℕ) (i : ℕ) → i ≡ popper → Knows popper s ns i popping
popping-Knows popper s ns i e = record {
  own_new = λ q. ground (arith, q);
  snap_in = λ q. ground (arith, q);
  edge = λ q. ground (arith, q);
  only = λ q. e;
  at_head = λ q. ground (arith, q);
  ahead = λ q. ground (arith, q);
  full = λ q. ground (arith, q);
  past_out = λ q. ground (arith, q);
  reads = λ q. ground (arith, q);
}

-- What a pop that has read the head, and a tail if `behind` is true, knows.
front-Knows :
    (popper : ℕ) (s : Shared) (ns : List ℕ)
    → Sound popper s ns
    → (i : ℕ) (h t : Handle) → i ≡ popper
    → h.ptr ≡ s.head.ptr
    → (h.ptr ≢ t.ptr → s.tail.ptr ≢ s.head.ptr)
    → Knows popper s ns i (pop_next h t (s.nodes h.ptr).next)
front-Knows popper s ns w i h t e f d = record {
  own_new = λ q. ground (arith, q);
  snap_in = λ q. ground (arith, q);
  edge = λ q. ground (arith, w.known h.ptr, f);
  only = λ q. e;
  at_head = λ q. f;
  ahead = λ q. ground (arith, q, d);
  full = λ q.
      ground (arith, q, d, f, has_successor s.nodes s.tail.ptr s.head.ptr ns w.chain w.tail_in);
  past_out = λ q. ground (arith, q);
  reads = λ q. ground (arith, q);
}

module _ (popper : ℕ) (s : Shared) (ns : List ℕ) (w : Sound popper s ns) (i : ℕ) where
  pub start_pop-IsSound :
      (p : Place) → i ≡ popper → s.places i ≡ p → IsSound popper (start_pop i p s)
  unfolding start_pop
  start_pop-IsSound idle me e = (
    ns,
    walk popper s ns w i popping (ap is_reading e) refl (λ o. ground (arith, o))
        (popping-Knows popper s ns i me),
  )
  start_pop-IsSound _ me e = (ns, w)

  -- A pop starts its loop.
  pub popping-IsSound : s.places i ≡ popping → Sound popper (put i (pop_head s.head) s) ns
  popping-IsSound e =
      let k = subst (Knows popper s ns i) e (w.knows i) in
      walk popper s ns w i (pop_head s.head) (ap is_reading e) refl (λ o. ground (arith, o))
        (record {
          own_new = λ q. ground (arith, q);
          snap_in = λ q. ground (arith, q);
          edge = λ q. ground (arith, q);
          only = λ q. k.only refl;
          at_head = λ q. refl;
          ahead = λ q. ground (arith, q);
          full = λ q. ground (arith, q);
          past_out = λ q. ground (arith, q);
          reads = λ q. ground (arith, q);
        })

  pub pop_head-IsSound :
      (h : Handle) → s.places i ≡ pop_head h → Sound popper (put i (pop_tail h s.tail) s) ns
  pop_head-IsSound h e =
      let k = subst (Knows popper s ns i) e (w.knows i) in
      walk popper s ns w i (pop_tail h s.tail) (ap is_reading e) refl (λ o. ground (arith, o))
        (record {
          own_new = λ q. ground (arith, q);
          snap_in = λ q. ground (arith, q);
          edge = λ q. ground (arith, q);
          only = λ q. k.only refl;
          at_head = k.at_head;
          ahead = λ q. ground (arith, q, k.at_head refl);
          full = λ q. ground (arith, q);
          past_out = λ q. ground (arith, q);
          reads = λ q. ground (arith, q);
        })

  pub pop_tail-IsSound :
      (h t : Handle)
      → s.places i ≡ pop_tail h t
      → Sound popper (put i (pop_next h t (s.nodes h.ptr).next) s) ns
  pop_tail-IsSound h t e =
      let k = subst (Knows popper s ns i) e (w.knows i) in
      walk popper s ns w i (pop_next h t (s.nodes h.ptr).next) (ap is_reading e) refl
        (λ o. ground (arith, o))
        (front-Knows popper s ns w i h t (k.only refl) (k.at_head refl)
          (λ d. k.ahead (ground (arith, d))))

  -- A pop starts its loop again.
  pub again-IsSound :
      i ≡ popper → is_reading (s.places i) ≡ false → Sound popper (put i popping s) ns
  again-IsSound me r =
      walk popper s ns w i popping r refl (λ o. ground (arith, o)) (popping-Knows popper s ns i me)

  pub pop_next-IsSound :
      (h t x : Handle)
      → s.places i ≡ pop_next h t x
      → IsSound popper (put i (if same_handle h s.head then pop_checked h t x else popping) s)
  pop_next-IsSound h t x e =
      let k = subst (Knows popper s ns i) e (w.knows i) in
      elim (Bool-cases (same_handle h s.head)) [
        | inl c ↦ (
          ns,
          subst (λ p. Sound popper (put i p s) ns) (sym (if_true _ _ c))
              (walk popper s ns w i (pop_checked h t x) (ap is_reading e) refl
                (λ o. ground (arith, o))
                (record {
                  own_new = λ q. ground (arith, q);
                  snap_in = λ q. ground (arith, q);
                  edge = k.edge;
                  only = k.only;
                  at_head = k.at_head;
                  ahead = k.ahead;
                  full = k.full;
                  past_out = λ q. ground (arith, q);
                  reads = λ q. ground (arith, q);
                })),
        )
        | inr c ↦ (
          ns,
          subst (λ p. Sound popper (put i p s) ns) (sym (if_false _ _ c))
              (again-IsSound (k.only refl) (ap is_reading e)),
        )
      ]

-- The exchange on the head takes the first node behind it.
moved_head-IsSound :
    (popper : ℕ) (s : Shared) (ns : List ℕ)
    → Sound popper s ns
    → (i : ℕ) (h t x : Handle) → s.places i ≡ pop_checked h t x
    → h.ptr ≢ t.ptr
    → IsSound popper (move_head i h x s)
moved_head-IsSound popper s [] w i h t x e d =
    let k = subst (Knows popper s [] i) e (w.knows i) in
    absurd (ground (arith, k.ahead (ground (arith, d)), w.tail_in))
moved_head-IsSound popper s (n ∷ ns) w i h t x e d =
    (ns, moved_head-Sound popper s n ns w i h t x e d)

module _ (popper : ℕ) (s : Shared) (ns : List ℕ) (w : Sound popper s ns) (i : ℕ) (h t x : Handle)
    (e : s.places i ≡ pop_checked h t x) where
  lag-IsSound :
      (fails : Bool)
      → h.ptr ≡ t.ptr
      → x.ptr ≢ 0
      → IsSound popper (put i popping (swing fails t x.ptr s))
  lag-IsSound fails f z =
      let k = subst (Knows popper s ns i) e (w.knows i) in
      let edge : (s.nodes t.ptr).next.ptr ≡ x.ptr =
        ap (λ a. (s.nodes a).next.ptr) (sym f) ∙ k.edge z in
      let at : (swing fails t x.ptr s).places i ≡ pop_checked h t x =
        ap (λ g. g i) (swing-places fails t x.ptr s) ∙ e in
      (
        ns,
        again-IsSound popper (swing fails t x.ptr s) ns
            (swing-Sound popper s ns fails t x.ptr w edge z) i (k.only refl) (ap is_reading at),
      )

  try_move-IsSound : (fails : Bool) → h.ptr ≢ t.ptr → IsSound popper (try_move i fails h x s)
  unfolding try_move
  try_move-IsSound fails d =
      if_IsSound popper (same_handle s.head h && not fails) (move_head i h x s) (put i popping s)
        (λ c. moved_head-IsSound popper s ns w i h t x e d)
        (λ c. (
          ns,
          again-IsSound popper s ns w i ((subst (Knows popper s ns i) e (w.knows i)).only refl)
              (ap is_reading e),
        ))

  -- Empty, a tail that lags behind, or the exchange.
  pub decide-IsSound : (fails : Bool) → IsSound popper (decide i fails h t x s)
  unfolding decide
  decide-IsSound fails =
      if_IsSound popper ((h.ptr == t.ptr) && (x.ptr == 0)) (put i idle s) _
        (λ c. (
          ns,
          walk popper s ns w i idle (ap is_reading e) refl (λ o. ground (arith, o))
              (nothing-Knows popper s ns i),
        ))
        (λ c.
          if_IsSound popper (h.ptr == t.ptr) (put i popping (swing fails t x.ptr s))
            (try_move i fails h x s)
            (λ b. lag-IsSound fails (ground (arith, b)) (ground (arith, b, c)))
            (λ b. try_move-IsSound fails (ground (arith, b))))
