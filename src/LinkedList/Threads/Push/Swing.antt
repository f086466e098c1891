-- ===== src/LinkedList/Threads/Push/Swing.antt =====
-- lockfree_linked_list.h: an exchange on the tail keeps what Inv states.
use fiber_lib.Prelude.{
  ℕ, ◌<◌, ◌≡◌, ◌≢◌, sym, ap, subst, Bool, not, ◌&&◌, List, ◌∷◌, count, arith, if_true, if_false,
  Bool-cases, inl, inr,
}
use fiber_lib.FreeList.{Handle, same_handle}
use fiber_lib.LinkedList.{next_handle}
use fiber_lib.LinkedList.Threads.{Shared, swing}
use fiber_lib.LinkedList.Threads.Chain.{successor_in}
use fiber_lib.LinkedList.Threads.Inv.{Sound}

-- The tail goes on to the successor of its node.
swung-Sound :
    (popper : ℕ) (s : Shared) (ns : List ℕ) (t : Handle) (x : ℕ)
    → Sound popper s ns
    → s.tail.ptr ≡ t.ptr
    → (s.nodes t.ptr).next.ptr ≡ x
    → x ≢ 0
    → Sound popper (record s { tail = next_handle x t }) ns
swung-Sound popper s ns t x w e f z =
    let behind : 0 < count x ns =
      successor_in s.nodes t.ptr x s.head.ptr ns w.chain
        (subst (λ a. 0 < count a (s.head.ptr ∷ ns)) e w.tail_in) f z in
    record {
      chain = w.chain;
      once = w.once;
      known = w.known;
      tail_in = ground (arith, behind);
      fifo = w.fifo;
      knows = λ j.
          let k = w.knows j in
          record {
            own_new = k.own_new;
            snap_in = k.snap_in;
            edge = k.edge;
            only = k.only;
            at_head = k.at_head;
            ahead = λ o q. ground (arith, w.once x, behind, q);
            full = k.full;
            past_out = k.past_out;
            reads = k.reads;
          };
      apart = w.apart;
    }

pub swing-Sound :
    (popper : ℕ) (s : Shared) (ns : List ℕ) (fails : Bool) (t : Handle) (x : ℕ)
    → Sound popper s ns
    → (s.nodes t.ptr).next.ptr ≡ x
    → x ≢ 0
    → Sound popper (swing fails t x s) ns
swing-Sound popper s ns fails t x w f z = elim (Bool-cases (same_handle s.tail t && not fails)) [
  | inl e ↦
      subst (λ y. Sound popper y ns) (sym (if_true _ _ e))
        (swung-Sound popper s ns t x w (ground (arith, e)) f z)
  | inr e ↦ subst (λ y. Sound popper y ns) (sym (if_false _ _ e)) w
]

pub swing-places :
    (fails : Bool) (t : Handle) (x : ℕ) (s : Shared) → (swing fails t x s).places ≡ s.places
swing-places fails t x s = elim (Bool-cases (same_handle s.tail t && not fails)) [
  | inl e ↦ ap (λ y. y.places) (if_true _ s e)
  | inr e ↦ ap (λ y. y.places) (if_false _ s e)
]
