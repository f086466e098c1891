-- ===== src/LinkedList/Threads/Pop.antt =====
-- lockfree_linked_list.h, `pop_front_lockfree`: its accesses keep what Inv states, when one thread pops.
pub mod Steps
use fiber_lib.Prelude.{
  ℕ, ◌+◌, ◌%◌, ◌^◌, ◌≤◌, ◌<◌, ◌≡◌, ◌≢◌, refl, sym, ap, ap₂, subst, ◌∙◌, Bool, true, false, not,
  ◌&&◌, ◌==◌, count, arith, if◌then◌else◌, if_true, if_false, Bool-cases, inl, inr, List, ◌++◌, ◌∷◌,
  [], append_assoc, append-nil, update, Option, none, some,
}
use fiber_lib.FreeList.{Handle, same_handle}
use fiber_lib.LinkedList.{next_handle}
use fiber_lib.LinkedList.Threads.{
  Cell, Place, idle, built, saw_tail, saw_next, checked, linked, counted, popping, pop_head,
  pop_tail, pop_next, pop_checked, pop_moved, pop_counted, pop_read, Shared, put, move_head,
}
use fiber_lib.LinkedList.Threads.Chain.{Linked, contents, Linked-outside, contents-outside}
use fiber_lib.LinkedList.Threads.Inv.{
  is_own, own, own_value, is_reading, reading, is_past, past, is_pop, has_front, front, is_ahead,
  has_edge, has_snap, snap, edge_from, edge_to, in_hand, Knows, Sound, Knows-rest, moved,
}
use fiber_lib.LinkedList.Threads.Push.{walk, fifo_kept, resized-Sound, nothing-Knows}

-- What a thread that does not pop is not concerned with.
calm :
    (p : Place)
    → is_pop p ≡ false
    → (has_front p ≡ false) × (is_ahead p ≡ false) × (is_past p ≡ false) × (is_reading p ≡ false)
calm idle e = (refl, refl, refl, refl)
calm (built n v) e = (refl, refl, refl, refl)
calm (saw_tail n v t) e = (refl, refl, refl, refl)
calm (saw_next n v t x) e = (refl, refl, refl, refl)
calm (checked n v t x) e = (refl, refl, refl, refl)
calm (linked n t) e = (refl, refl, refl, refl)
calm (counted n t) e = (refl, refl, refl, refl)
calm popping e = (refl, refl, refl, refl)
calm (pop_head h) e = absurd (ground (arith, e))
calm (pop_tail h t) e = absurd (ground (arith, e))
calm (pop_next h t x) e = absurd (ground (arith, e))
calm (pop_checked h t x) e = absurd (ground (arith, e))
calm (pop_moved h x) e = absurd (ground (arith, e))
calm (pop_counted h x) e = absurd (ground (arith, e))
calm (pop_read h) e = absurd (ground (arith, e))

-- There is a successor in front of a node of the chain that is not the first one.
pub has_successor :
    (nodes : ℕ → Cell) (a p : ℕ) (ns : List ℕ)
    → Linked nodes p ns
    → 0 < count a (p ∷ ns)
    → a ≢ p
    → (nodes p).next.ptr ≢ 0
has_successor nodes a p [] h c d = absurd (ground (arith, c, d))
has_successor nodes a p (n ∷ ns) (e, z, h) c d = ground (arith, e, z)

module _ (popper : ℕ) (s : Shared) (ns : List ℕ) (w : Sound popper s ns) (i : ℕ) where
  -- The other threads do not pop.
  pub others_calm :
      is_pop (s.places i) ≡ true
      → (j : ℕ) → i ≢ j
      → (has_front (s.places j) ≡ false)
        × (is_ahead (s.places j) ≡ false)
        × (is_past (s.places j) ≡ false)
        × (is_reading (s.places j) ≡ false)
  others_calm e j d = elim (Bool-cases (is_pop (s.places j))) [
    | inl o ↦ absurd (d ((w.knows i).only e ∙ sym ((w.knows j).only o)))
    | inr o ↦ calm (s.places j) o
  ]

  pub at_popper : (p : Place) → is_pop (s.places i) ≡ true → update s.places i p popper ≡ p
  at_popper p e = if_true {b = i == popper} _ _ (ground (arith, (w.knows i).only e))

-- The exchange on the head: its successor is the new head, and the content of that is to be read.
pub moved_head-Sound :
    (popper : ℕ) (s : Shared) (n : ℕ) (ns : List ℕ) (w : Sound popper s (n ∷ ns)) (i : ℕ)
    (h t x : Handle)
    → s.places i ≡ pop_checked h t x
    → h.ptr ≢ t.ptr
    → Sound popper (move_head i h x s) ns
moved_head-Sound popper s n ns w i h t x f d =
    let k = subst (Knows popper s (n ∷ ns) i) f (w.knows i) in
    let here : h.ptr ≡ s.head.ptr = k.at_head refl in
    let behind : s.tail.ptr ≢ s.head.ptr = k.ahead (ground (arith, d)) in
    let next = k.edge (k.full (ground (arith, d))) in
    let new : n ≡ x.ptr = ground (arith, next, here, w.chain.0) in
    let me : i ≡ popper = k.only refl in
    let s' : Shared = record s { head = next_handle x.ptr h } in
    let start = others_calm popper s (n ∷ ns) w i (ap is_pop f) in
    moved popper i (pop_moved h x) s' ns (subst (λ a. Linked s.nodes a ns) new w.chain.2)
      (λ a. ground (arith, w.once a, new)) (λ a o. ground (arith, w.known a, o, new))
      (ground (arith, w.tail_in, behind, new))
      (ap (λ p. s.popped ++ in_hand s.nodes p ++ contents s.nodes ns)
          (at_popper popper s (n ∷ ns) w i (pop_moved h x) (ap is_pop f))
        ∙ append_assoc s.popped ((s.nodes x.ptr).content ∷ []) (contents s.nodes ns)
        ∙ ap (λ a. s.popped ++ (s.nodes a).content ∷ contents s.nodes ns) (sym new)
        ∙ sym (ap (λ l. l ++ (s.nodes n).content ∷ contents s.nodes ns) (append-nil s.popped))
        ∙ sym (
            ap (λ p. s.popped ++ in_hand s.nodes p ++ (s.nodes n).content ∷ contents s.nodes ns)
              (ap s.places (sym me) ∙ f))
        ∙ w.fifo)
      (record {
        own_new = λ o. ground (arith, o);
        snap_in = λ o. ground (arith, o);
        edge = λ o. ground (arith, o);
        only = λ o. me;
        at_head = λ o. ground (arith, o);
        ahead = λ o. ground (arith, o);
        full = λ o. ground (arith, o);
        past_out =
            λ o. ground (arith, w.once h.ptr, here, new, next, w.known s.head.ptr, w.chain.1);
        reads = λ o. refl;
      })
      (λ j d.
        let m = w.knows j in
        let (no_front, no_ahead, no_past, no_hand) = start j d in
        record {
          own_new = λ o. ground (arith, m.own_new o, new);
          snap_in = λ o. ground (arith, m.snap_in o, new, w.chain.0, w.chain.1);
          edge = m.edge;
          only = m.only;
          at_head = λ o. ground (arith, o, no_front);
          ahead = λ o. ground (arith, o, no_ahead);
          full = m.full;
          past_out = λ o. ground (arith, o, no_past);
          reads = λ o. ground (arith, o, no_hand);
        })
      w.apart (λ j d o q. ground (arith, o))

module _ (popper : ℕ) (s : Shared) (ns : List ℕ) (w : Sound popper s ns) (i : ℕ)
    (h x : Handle) where
  -- The size is counted down; the content is still to be read.
  pub hand-Sound :
      (m : ℕ)
      → s.places i ≡ pop_moved h x
      → Sound popper (put i (pop_counted h x) (record s { size = m })) ns
  hand-Sound m f =
      let k = subst (Knows popper s ns i) f (w.knows i) in
      let r = resized-Sound popper s ns m w in
      moved popper i (pop_counted h x) (record s { size = m }) ns r.chain r.once r.known r.tail_in
        (ap (λ p. s.popped ++ in_hand s.nodes p ++ contents s.nodes ns)
            (at_popper popper s ns w i (pop_counted h x) (ap is_pop f))
          ∙ sym (
              ap (λ p. s.popped ++ in_hand s.nodes p ++ contents s.nodes ns)
                (ap s.places (sym (k.only refl)) ∙ f))
          ∙ w.fifo)
        (record {
          own_new = λ o. ground (arith, o);
          snap_in = λ o. ground (arith, o);
          edge = λ o. ground (arith, o);
          only = λ o. k.only refl;
          at_head = λ o. ground (arith, o);
          ahead = λ o. ground (arith, o);
          full = λ o. ground (arith, o);
          past_out = k.past_out;
          reads = k.reads;
        })
        (λ j d. r.knows j) w.apart (λ j d o q. ground (arith, o))

  -- The content is read.
  pub read-Sound :
      s.places i ≡ pop_counted h x
      → Sound popper
          (put i (pop_read h) (record s { popped = s.popped ++ (s.nodes x.ptr).content ∷ [] }))
          ns
  read-Sound f =
      let k = subst (Knows popper s ns i) f (w.knows i) in
      let popped = s.popped ++ (s.nodes x.ptr).content ∷ [] in
      moved popper i (pop_read h) (record s { popped = popped }) ns w.chain w.once w.known w.tail_in
        (ap (λ p. popped ++ in_hand s.nodes p ++ contents s.nodes ns)
            (at_popper popper s ns w i (pop_read h) (ap is_pop f))
          ∙ ap (λ l. l ++ contents s.nodes ns) (append-nil popped)
          ∙ sym (
              ap (λ p. s.popped ++ in_hand s.nodes p ++ contents s.nodes ns)
                (ap s.places (sym (k.only refl)) ∙ f))
          ∙ w.fifo)
        (record {
          own_new = λ o. ground (arith, o);
          snap_in = λ o. ground (arith, o);
          edge = λ o. ground (arith, o);
          only = λ o. k.only refl;
          at_head = λ o. ground (arith, o);
          ahead = λ o. ground (arith, o);
          full = λ o. ground (arith, o);
          past_out = k.past_out;
          reads = λ o. ground (arith, o);
        })
        (λ j d. Knows-rest popper s.size s.places s.pushed popped j (s.places j) s ns (w.knows j))
        w.apart (λ j d o q. ground (arith, o))

  -- The old head is destroyed.
  pub destroyed-Sound :
      s.places i ≡ pop_read h
      → Sound popper
          (put i idle (record s {
            nodes = update s.nodes h.ptr (record (s.nodes h.ptr) { content = none });
            used = update s.used h.ptr false;
          }))
          ns
  destroyed-Sound f =
      let k = subst (Knows popper s ns i) f (w.knows i) in
      let (out, used, block) = k.past_out refl in
      let c : Cell = record (s.nodes h.ptr) { content = none } in
      let nodes : ℕ → Cell = update s.nodes h.ptr c in
      let start = others_calm popper s ns w i (ap is_pop f) in
      moved popper i idle (record s { nodes = nodes; used = update s.used h.ptr false }) ns
        (Linked-outside s.nodes h.ptr s.head.ptr c ns w.chain out) w.once
        (λ a q. ground (arith, w.known a q, out, q)) w.tail_in
        (fifo_kept popper s ns w i nodes idle (ap is_reading f) refl (ground (arith, out))
          (contents-outside s.nodes h.ptr c ns (ground (arith, out))))
        (nothing-Knows popper (record s { nodes = nodes; used = update s.used h.ptr false }) ns i)
        (λ j d.
          let m = w.knows j in
          record {
            own_new = λ o. ground (arith, m.own_new o, used);
            snap_in = λ o q. ground (arith, m.snap_in o, q);
            edge = λ o. ground (arith, m.edge o);
            only = m.only;
            at_head = m.at_head;
            ahead = m.ahead;
            full = m.full;
            past_out = λ o. ground (arith, o, (start j d).2);
            reads = m.reads;
          })
        w.apart (λ j d o q. ground (arith, o))
