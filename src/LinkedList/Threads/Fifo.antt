-- ===== src/LinkedList/Threads/Fifo.antt =====
-- lockfree_linked_list.h: threads push and one thread pops, in any order of their accesses.
use fiber_lib.Prelude.{
  ℕ, ◌+◌, ◌-◌, ◌%◌, ◌^◌, ◌≡◌, ◌≢◌, refl, sym, ap, subst, ◌∙◌, Bool, arith, Option, List, ◌++◌, ◌∷◌,
  [], append-nil,
}
use fiber_lib.FreeList.{Handle}
use fiber_lib.LinkedList.Threads.{
  Place, idle, built, saw_tail, saw_next, checked, linked, counted, popping, pop_head, pop_tail,
  pop_next, pop_checked, pop_moved, pop_counted, pop_read, Shared, advance, Turn, pushes, pops,
  advances, turn, run, new_list,
}
use fiber_lib.LinkedList.Threads.Chain.{Linked, contents}
use fiber_lib.LinkedList.Threads.Inv.{in_hand, IsUnseen, Sound, Knows}
use fiber_lib.LinkedList.Threads.Push.{IsSound, nothing-Knows}
use fiber_lib.LinkedList.Threads.Push.Steps.{
  start_push-IsSound, built-IsSound, saw_tail-IsSound, saw_next-IsSound, checked-IsSound,
  linked-IsSound, counted-IsSound,
}
use fiber_lib.LinkedList.Threads.Pop.{hand-Sound, read-Sound, destroyed-Sound}
use fiber_lib.LinkedList.Threads.Pop.Steps.{
  start_pop-IsSound, popping-IsSound, pop_head-IsSound, pop_tail-IsSound, pop_next-IsSound,
  decide-IsSound,
}

-- Only the thread `popper` calls `pop_front_lockfree`.
abbrev pub OnePopper : ℕ → List Turn → Type 0
OnePopper popper [] = Unit
OnePopper popper (pushes i n v ∷ ts) = OnePopper popper ts
OnePopper popper (pops i ∷ ts) = (i ≡ popper) × OnePopper popper ts
OnePopper popper (advances i fails ∷ ts) = OnePopper popper ts

-- No push takes a node that another push, still inside, has read as its tail.
abbrev pub Unseen : List Turn → Shared → Type 0
Unseen [] s = Unit
Unseen (pushes i n v ∷ ts) s = IsUnseen s.places n × Unseen ts (turn (pushes i n v) s)
Unseen (pops i ∷ ts) s = Unseen ts (turn (pops i) s)
Unseen (advances i fails ∷ ts) s = Unseen ts (turn (advances i fails) s)

module _ (popper : ℕ) (s : Shared) (ns : List ℕ) (w : Sound popper s ns) (i : ℕ)
    (fails : Bool) where
  advance-IsSound : (p : Place) → s.places i ≡ p → IsSound popper (advance i fails p s)
  unfolding advance
  advance-IsSound idle e = (ns, w)
  advance-IsSound (built n v) e = (ns, built-IsSound popper s ns w i n v e)
  advance-IsSound (saw_tail n v t) e = (ns, saw_tail-IsSound popper s ns w i n v t e)
  advance-IsSound (saw_next n v t x) e = saw_next-IsSound popper s ns w i n v t x e
  advance-IsSound (checked n v t x) e = checked-IsSound popper s ns w i n v t x fails e
  advance-IsSound (linked n t) e =
      (ns, linked-IsSound popper s ns w i n ((s.size + 1) % 2 ^ 64) t e)
  advance-IsSound (counted n t) e = (ns, counted-IsSound popper s ns w i n t fails e)
  advance-IsSound popping e = (ns, popping-IsSound popper s ns w i e)
  advance-IsSound (pop_head h) e = (ns, pop_head-IsSound popper s ns w i h e)
  advance-IsSound (pop_tail h t) e = (ns, pop_tail-IsSound popper s ns w i h t e)
  advance-IsSound (pop_next h t x) e = pop_next-IsSound popper s ns w i h t x e
  advance-IsSound (pop_checked h t x) e = decide-IsSound popper s ns w i h t x e fails
  advance-IsSound (pop_moved h x) e =
      (ns, hand-Sound popper s ns w i h x ((s.size + (2 ^ 64 - 1)) % 2 ^ 64) e)
  advance-IsSound (pop_counted h x) e = (ns, read-Sound popper s ns w i h x e)
  advance-IsSound (pop_read h) e = (ns, destroyed-Sound popper s ns w i h h e)

run-IsSound :
    (popper : ℕ) (ts : List Turn) (s : Shared)
    → OnePopper popper ts
    → Unseen ts s
    → IsSound popper s
    → IsSound popper (run ts s)
unfolding run
run-IsSound popper [] s o u w = w
run-IsSound popper (pushes i n v ∷ ts) s o (d, u) (ns, w) =
    run-IsSound popper ts (turn (pushes i n v) s) o u
      (start_push-IsSound popper s ns w i n v (s.places i) refl d)
run-IsSound popper (pops i ∷ ts) s (me, o) u (ns, w) =
    run-IsSound popper ts (turn (pops i) s) o u
      (start_pop-IsSound popper s ns w i (s.places i) me refl)
run-IsSound popper (advances i fails ∷ ts) s o u (ns, w) =
    run-IsSound popper ts (turn (advances i fails) s) o u
      (advance-IsSound popper s ns w i fails (s.places i) refl)

new_list-IsSound : (popper dummy : ℕ) (c : Option ℕ) → dummy ≢ 0 → IsSound popper (new_list dummy c)
new_list-IsSound popper dummy c z = (
  [],
  record {
    chain = refl;
    once = λ a. ground arith;
    known = λ a h. ground (arith, h, z);
    tail_in = ground arith;
    fifo = refl;
    knows = λ i. nothing-Knows popper (new_list dummy c) [] i;
    apart = λ i j d e. ground (arith, e);
  },
)

-- On a new list, whose dummy node is not at 0, any number of threads push, and one thread, `popper`,
-- pops; their accesses come in any order, and any weak exchange may fail. A push takes a new node or one
-- that a pop has destroyed, but never one that another push, still inside, has read as its tail. Then the
-- nodes behind the head are a chain `ns`, and the values that were popped, then the one that the popper is about to read, if
-- its exchange on the head is behind it, then those in the chain, are the values whose nodes were
-- linked, in the order of the links: none is lost, doubled or overtaken.
pub run-Fifo :
    (popper dummy : ℕ) (c : Option ℕ) (ts : List Turn)
    → dummy ≢ 0
    → OnePopper popper ts
    → Unseen ts (new_list dummy c)
    → let s = run ts (new_list dummy c) in
      (ns : List ℕ) × Linked s.nodes s.head.ptr ns
      × (s.popped ++ in_hand s.nodes (s.places popper) ++ contents s.nodes ns ≡ s.pushed)
run-Fifo popper dummy c ts z o u =
    let (ns, w) =
      run-IsSound popper ts (new_list dummy c) o u (new_list-IsSound popper dummy c z) in
    (ns, w.chain, w.fifo)

alone :
    (popper : ℕ) (s : Shared) (ns : List ℕ) (h t : Handle)
    → Sound popper s ns
    → s.places popper ≡ pop_tail h t
    → (s.nodes h.ptr).next.ptr ≡ 0
    → s.popped ≡ s.pushed
alone popper s [] h t w e f =
    sym (append-nil s.popped)
    ∙ sym (append-nil (s.popped ++ []))
    ∙ sym (ap (λ p. s.popped ++ in_hand s.nodes p ++ []) e)
    ∙ w.fifo
alone popper s (n ∷ ns) h t w e f =
    let k = subst (Knows popper s (n ∷ ns) popper) e (w.knows popper) in
    absurd (ground (arith, w.chain.0, w.chain.1, k.at_head refl, f))

-- Threads push and one pops, with nodes as in run-Fifo: no push takes a node that another push, still
-- inside, has read as its tail. When the popper is to read the pointer behind the head that
-- it saw, from which it decides that the list is empty, and that pointer is null, then every value whose
-- node is linked at that moment has been popped, in order.
pub run-Empty :
    (popper dummy : ℕ) (c : Option ℕ) (ts : List Turn) (h t : Handle)
    → dummy ≢ 0
    → OnePopper popper ts
    → Unseen ts (new_list dummy c)
    → let s = run ts (new_list dummy c) in
      s.places popper ≡ pop_tail h t → (s.nodes h.ptr).next.ptr ≡ 0 → s.popped ≡ s.pushed
run-Empty popper dummy c ts h t z o u e f =
    let (ns, w) =
      run-IsSound popper ts (new_list dummy c) o u (new_list-IsSound popper dummy c z) in
    alone popper (run ts (new_list dummy c)) ns h t w e f
