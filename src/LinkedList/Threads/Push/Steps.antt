-- ===== src/LinkedList/Threads/Push/Steps.antt =====
-- lockfree_linked_list.h, `push_back_lockfree`: each turn of a push keeps what Inv states.
use fiber_lib.Prelude.{
  ℕ, ◌≡◌, ◌≢◌, refl, sym, ap, subst, ◌∙◌, Bool, true, false, not, ◌&&◌, ◌==◌, arith, if◌then◌else◌,
  if_true, if_false, Bool-cases, inl, inr, ltb, List, ◌++◌, ◌∷◌, [],
}
use fiber_lib.FreeList.{Handle, same_handle}
use fiber_lib.LinkedList.Threads.{
  Place, idle, built, saw_tail, saw_next, checked, linked, counted, Shared, put, start_push, swing,
  link_cell, try_link,
}
use fiber_lib.LinkedList.Threads.Inv.{IsUnseen, is_own, own, own_value, is_reading, Knows, Sound}
use fiber_lib.LinkedList.Threads.Push.{
  IsSound, if_IsSound, walk, start-Sound, resized-Sound, nothing-Knows,
}
use fiber_lib.LinkedList.Threads.Push.Swing.{swing-Sound, swing-places}
use fiber_lib.LinkedList.Threads.Push.Link.{built-Knows, linked-Sound}

module _ (popper : ℕ) (s : Shared) (ns : List ℕ) (w : Sound popper s ns) (i : ℕ) where
  pub start_push-IsSound :
      (n v : ℕ) (p : Place)
      → s.places i ≡ p
      → IsUnseen s.places n
      → IsSound popper (start_push i n v p s)
  unfolding start_push
  start_push-IsSound n v idle e unseen =
      if_IsSound popper (ltb 0 n && not (s.used n)) _ s
        (λ c.
          (ns, start-Sound popper s ns w i n v e (ground (arith, c)) (ground (arith, c)) unseen))
        (λ c. (ns, w))
  start_push-IsSound n v _ e unseen = (ns, w)

  -- A push that goes on, or starts its loop again.
  pub built-IsSound :
      (n v : ℕ) → s.places i ≡ built n v → Sound popper (put i (saw_tail n v s.tail) s) ns
  built-IsSound n v e =
      let k = subst (Knows popper s ns i) e (w.knows i) in
      walk popper s ns w i (saw_tail n v s.tail) (ap is_reading e) refl
        (λ o. (ap is_own e, sym (ap own e)))
        (record {
          own_new = k.own_new;
          snap_in = λ o q. w.tail_in;
          edge = λ o. ground (arith, o);
          only = λ o. ground (arith, o);
          at_head = λ o. ground (arith, o);
          ahead = λ o. ground (arith, o);
          full = λ o. ground (arith, o);
          past_out = λ o. ground (arith, o);
          reads = λ o. ground (arith, o);
        })

  pub saw_tail-IsSound :
      (n v : ℕ) (t : Handle)
      → s.places i ≡ saw_tail n v t
      → Sound popper (put i (saw_next n v t (s.nodes t.ptr).next) s) ns
  saw_tail-IsSound n v t e =
      let k = subst (Knows popper s ns i) e (w.knows i) in
      walk popper s ns w i (saw_next n v t (s.nodes t.ptr).next) (ap is_reading e) refl
        (λ o. (ap is_own e, sym (ap own e)))
        (record {
          own_new = k.own_new;
          snap_in = k.snap_in;
          edge = λ o. refl;
          only = λ o. ground (arith, o);
          at_head = λ o. ground (arith, o);
          ahead = λ o. ground (arith, o);
          full = λ o. ground (arith, o);
          past_out = λ o. ground (arith, o);
          reads = λ o. ground (arith, o);
        })

  -- A push starts its loop again.
  again-IsSound :
      (n v : ℕ)
      → is_own (s.places i) ≡ true
      → is_reading (s.places i) ≡ false
      → own (s.places i) ≡ n
      → own_value (s.places i) ≡ v
      → Sound popper (put i (built n v) s) ns
  again-IsSound n v a b e f =
      walk popper s ns w i (built n v) b refl (λ o. (a, sym e))
        (built-Knows popper s ns i n v (s.places i) a e f (w.knows i))

  pub saw_next-IsSound :
      (n v : ℕ) (t x : Handle)
      → s.places i ≡ saw_next n v t x
      → IsSound popper (put i (if same_handle t s.tail then checked n v t x else built n v) s)
  saw_next-IsSound n v t x e = elim (Bool-cases (same_handle t s.tail)) [
    | inl c ↦ (
      ns,
      subst (λ p. Sound popper (put i p s) ns) (sym (if_true _ _ c))
          (let k = subst (Knows popper s ns i) e (w.knows i) in
            walk popper s ns w i (checked n v t x) (ap is_reading e) refl
              (λ o. (ap is_own e, sym (ap own e)))
              (record {
                own_new = k.own_new;
                snap_in = k.snap_in;
                edge = k.edge;
                only = λ o. ground (arith, o);
                at_head = λ o. ground (arith, o);
                ahead = λ o. ground (arith, o);
                full = λ o. ground (arith, o);
                past_out = λ o. ground (arith, o);
                reads = λ o. ground (arith, o);
              })),
    )
    | inr c ↦ (
      ns,
      subst (λ p. Sound popper (put i p s) ns) (sym (if_false _ _ c))
          (again-IsSound n v (ap is_own e) (ap is_reading e) (ap own e) (ap own_value e)),
    )
  ]

  try_link-IsSound :
      (n v : ℕ) (t x : Handle) (fails : Bool)
      → s.places i ≡ checked n v t x
      → x.ptr ≡ 0
      → IsSound popper (try_link i fails n v t x s)
  unfolding try_link
  try_link-IsSound n v t x fails e z =
      if_IsSound popper (same_handle (s.nodes t.ptr).next x && not fails) (link_cell i n v t x s)
        (put i (built n v) s)
        (λ c. (ns ++ n ∷ [], linked-Sound popper s ns w i n v t x e (ground (arith, c, z))))
        (λ c. (ns, again-IsSound n v (ap is_own e) (ap is_reading e) (ap own e) (ap own_value e)))

-- The swing of the tail behind a snapshot, and the loop starts again.
pub checked-IsSound :
    (popper : ℕ) (s : Shared) (ns : List ℕ)
    → Sound popper s ns
    → (i n v : ℕ) (t x : Handle) (fails : Bool) → s.places i ≡ checked n v t x
    → IsSound popper (
        if x.ptr == 0
        then try_link i fails n v t x s
        else put i (built n v) (swing fails t x.ptr s))
checked-IsSound popper s ns w i n v t x fails e =
    if_IsSound popper (x.ptr == 0) (try_link i fails n v t x s) _
      (λ c. try_link-IsSound popper s ns w i n v t x fails e (ground (arith, c)))
      (λ c.
        let z : x.ptr ≢ 0 = ground (arith, c) in
        let k = subst (Knows popper s ns i) e (w.knows i) in
        let swung = swing-Sound popper s ns fails t x.ptr w (k.edge z) z in
        let at : (swing fails t x.ptr s).places i ≡ checked n v t x =
          ap (λ f. f i) (swing-places fails t x.ptr s) ∙ e in
        (
          ns,
          again-IsSound popper (swing fails t x.ptr s) ns swung i n v (ap is_own at)
              (ap is_reading at) (ap own at) (ap own_value at),
        ))

pub linked-IsSound :
    (popper : ℕ) (s : Shared) (ns : List ℕ)
    → Sound popper s ns
    → (i n m : ℕ) (t : Handle) → s.places i ≡ linked n t
    → Sound popper (put i (counted n t) (record s { size = m })) ns
linked-IsSound popper s ns w i n m t e =
    let k = subst (Knows popper s ns i) e (w.knows i) in
    walk popper (record s { size = m }) ns (resized-Sound popper s ns m w) i (counted n t)
      (ap is_reading e) refl (λ o. ground (arith, o))
      (record {
        own_new = λ o. ground (arith, o);
        snap_in = λ o. ground (arith, o);
        edge = k.edge;
        only = λ o. ground (arith, o);
        at_head = λ o. ground (arith, o);
        ahead = λ o. ground (arith, o);
        full = k.full;
        past_out = λ o. ground (arith, o);
        reads = λ o. ground (arith, o);
      })

-- The end of a push.
pub counted-IsSound :
    (popper : ℕ) (s : Shared) (ns : List ℕ)
    → Sound popper s ns
    → (i n : ℕ) (t : Handle) (fails : Bool) → s.places i ≡ counted n t
    → Sound popper (put i idle (swing fails t n s)) ns
counted-IsSound popper s ns w i n t fails e =
    let k = subst (Knows popper s ns i) e (w.knows i) in
    let at : (swing fails t n s).places i ≡ counted n t =
      ap (λ f. f i) (swing-places fails t n s) ∙ e in
    let swung : Sound popper (swing fails t n s) ns =
      swing-Sound popper s ns fails t n w (k.edge (k.full refl)) (k.full refl) in
    walk popper (swing fails t n s) ns swung i idle (ap is_reading at) refl (λ o. ground (arith, o))
      (nothing-Knows popper (swing fails t n s) ns i)
