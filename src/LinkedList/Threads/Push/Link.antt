-- ===== src/LinkedList/Threads/Push/Link.antt =====
-- lockfree_linked_list.h, `push_back_lockfree`: the exchange that links a node keeps what Inv states.
use fiber_lib.Prelude.{
  ℕ, ◌≡◌, refl, sym, ap, subst, ◌∙◌, true, some, List, [], ◌∷◌, ◌++◌, append_assoc, update,
  count-append, arith,
}
use fiber_lib.FreeList.{Handle}
use fiber_lib.LinkedList.{next_handle}
use fiber_lib.LinkedList.Chain.{last}
use fiber_lib.LinkedList.Threads.{Cell, Place, built, checked, linked, Shared, link_cell}
use fiber_lib.LinkedList.Threads.Chain.{
  Linked, contents, last_unlinked, relinked, contents-relinked, contents-append, Linked-append,
}
use fiber_lib.LinkedList.Threads.Inv.{
  own, own_value, is_own, snap, past, is_reading, in_hand, Knows, Sound, moved,
}
use fiber_lib.LinkedList.Threads.Push.{fifo_kept}

-- What is known of a node that is not linked, and no more.
pub built-Knows :
    (popper : ℕ) (s : Shared) (ns : List ℕ) (i n v : ℕ) (p : Place)
    → is_own p ≡ true
    → own p ≡ n
    → own_value p ≡ v
    → Knows popper s ns i p
    → Knows popper s ns i (built n v)
built-Knows popper s ns i n v p o e f k = record {
  own_new = λ q. ground (arith, k.own_new o, e, f);
  snap_in = λ q. ground (arith, q);
  edge = λ q. ground (arith, q);
  only = λ q. ground (arith, q);
  at_head = λ q. ground (arith, q);
  ahead = λ q. ground (arith, q);
  full = λ q. ground (arith, q);
  past_out = λ q. ground (arith, q);
  reads = λ q. ground (arith, q);
}

module _ (popper : ℕ) (s : Shared) (ns : List ℕ) (w : Sound popper s ns) (i n v : ℕ)
    (t x : Handle) where
  pub linked-Sound :
      s.places i ≡ checked n v t x
      → (s.nodes t.ptr).next.ptr ≡ 0
      → Sound popper (link_cell i n v t x s) (ns ++ n ∷ [])
  linked-Sound e f =
      let k = subst (Knows popper s ns i) e (w.knows i) in
      let (z, out, block, fresh, value) = k.own_new refl in
      let here = k.snap_in refl in
      let tail_last : t.ptr ≡ last s.head.ptr ns =
        last_unlinked s.nodes t.ptr s.head.ptr ns w.chain (here f) f in
      let nodes : ℕ → Cell = relinked s.nodes t.ptr (next_handle n x) in
      let hand = in_hand nodes (update s.places i (linked n t) popper) in
      let content_of : (nodes n).content ≡ some v = ground (arith, value) in
      moved popper i (linked n t) (record s { nodes = nodes; pushed = s.pushed ++ some v ∷ [] })
        (ns ++ n ∷ [])
        (subst (λ l. Linked (relinked s.nodes l (next_handle n x)) s.head.ptr (ns ++ n ∷ []))
          (sym tail_last)
          (Linked-append s.nodes s.head.ptr n (next_handle n x) ns refl z fresh w.chain w.once out))
        (λ a. ground (arith, w.once a, count-append a ns (n ∷ []), out))
        (λ a h. ground (arith, w.known a, count-append a ns (n ∷ []), block, z, h))
        (ground (arith, w.tail_in, count-append s.tail.ptr ns (n ∷ [])))
        (ap (λ l. s.popped ++ hand ++ l)
            (contents-append nodes ns (n ∷ []) ∙ ap (λ y. contents nodes ns ++ y ∷ []) content_of)
          ∙ sym (append_assoc (s.popped ++ hand) (contents nodes ns) (some v ∷ []))
          ∙ ap (λ l. l ++ some v ∷ [])
              (fifo_kept popper s ns w i nodes (linked n t) (ap is_reading e) refl (ground arith)
                (contents-relinked s.nodes t.ptr (next_handle n x) ns)))
        (record {
          own_new = λ o. ground (arith, o);
          snap_in = λ o. ground (arith, o);
          edge = λ o. ground arith;
          only = λ o. ground (arith, o);
          at_head = λ o. ground (arith, o);
          ahead = λ o. ground (arith, o);
          full = λ o. z;
          past_out = λ o. ground (arith, o);
          reads = λ o. ground (arith, o);
        })
        (λ j d.
          let m = w.knows j in
          record {
            own_new = λ o. ground (
              arith,
              m.own_new o,
              here f,
              w.apart i j d,
              e,
              o,
              count-append (own (s.places j)) ns (n ∷ []),
            );
            snap_in = λ o.
                ground (arith, m.snap_in o, here f, count-append (snap (s.places j)) ns (n ∷ []));
            edge = λ o. ground (arith, m.edge o, f, o);
            only = m.only;
            at_head = m.at_head;
            ahead = m.ahead;
            full = m.full;
            past_out = λ o.
                ground
                  (arith, m.past_out o, f, fresh, count-append (past (s.places j)) ns (n ∷ []));
            reads = m.reads;
          })
        w.apart (λ j d o q. ground (arith, o))
