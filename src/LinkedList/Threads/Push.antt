-- ===== src/LinkedList/Threads/Push.antt =====
-- lockfree_linked_list.h, `push_back_lockfree`: its accesses keep what Inv states.
pub mod Swing
pub mod Link
pub mod Steps
use fiber_lib.Prelude.{
  ℕ, ◌+◌, ◌%◌, ◌^◌, ◌≤◌, ◌<◌, ◌≡◌, ◌≢◌, refl, sym, ap, ap₂, ◌⊎◌, subst, ◌∙◌, Bool, true, false, not,
  ◌&&◌, Option, none, some, List, [], ◌∷◌, ◌++◌, append_assoc, ◌==◌, update, count, count-append,
  arith, if◌then◌else◌, if_true, if_false, Bool-cases, inl, inr, ltb,
}
use native.Mathlib.Decide.{ℕ_discrete}
use fiber_lib.FreeList.{Handle, same_handle}
use fiber_lib.LinkedList.{next_handle, null_handle}
use fiber_lib.LinkedList.Chain.{last}
use fiber_lib.LinkedList.Threads.{
  Cell, Place, idle, built, saw_tail, saw_next, checked, linked, counted, Shared, put, start_push,
  swing, link_cell, try_link,
}
use fiber_lib.LinkedList.Threads.Chain.{
  Linked, contents, last_unlinked, successor_in, Linked-outside, contents-outside, relinked,
  contents-relinked, contents-append, Linked-append,
}
use fiber_lib.LinkedList.Threads.Inv.{
  own, own_value, is_own, snap, has_snap, edge_from, edge_to, is_pop, front, has_front, is_ahead,
  has_edge, past, is_past, reading, is_reading, in_hand, IsUnseen, Knows, Sound, Knows-rest, moved,
}

-- Some chain of nodes makes the list sound.
abbrev pub IsSound : ℕ → Shared → Type 0
IsSound popper s = (ns : List ℕ) × Sound popper s ns

pub if_IsSound :
    (popper : ℕ) (b : Bool) (x y : Shared)
    → (b ≡ true → IsSound popper x)
    → (b ≡ false → IsSound popper y)
    → IsSound popper (if b then x else y)
if_IsSound popper true x y f g = f refl
if_IsSound popper false x y f g = g refl

module _ (popper : ℕ) (s : Shared) (ns : List ℕ) (w : Sound popper s ns) (i : ℕ) where
  pub hand_kept :
      (nodes : ℕ → Cell) (p : Place)
      → is_reading (s.places i) ≡ false
      → is_reading p ≡ false
      → in_hand nodes (update s.places i p popper) ≡ in_hand nodes (s.places popper)
  hand_kept nodes p a b = elim (ℕ_discrete i popper) [
    | yes e ↦
        ap (in_hand nodes) (if_true {b = i == popper} p (s.places popper) (ground (arith, e)))
        ∙ if_false {b = is_reading p} _ _ b
        ∙ sym (
            if_false {b = is_reading (s.places popper)} _ _
              (ap (λ k. is_reading (s.places k)) (sym e) ∙ a))
    | no d ↦ ap (in_hand nodes) (if_false {b = i == popper} p (s.places popper) (ground (arith, d)))
  ]

  -- A content that is about to be read depends on the head alone.
  hand_content :
      (nodes : ℕ → Cell)
      → (nodes s.head.ptr).content ≡ (s.nodes s.head.ptr).content
      → in_hand nodes (s.places popper) ≡ in_hand s.nodes (s.places popper)
  hand_content nodes e = elim (Bool-cases (is_reading (s.places popper))) [
    | inl r ↦ ground (arith, r, (w.knows popper).reads r, e)
    | inr r ↦ ground (arith, r)
  ]

  -- The values stay in order where the contents of the chain stay.
  pub fifo_kept :
      (nodes : ℕ → Cell) (p : Place)
      → is_reading (s.places i) ≡ false
      → is_reading p ≡ false
      → (nodes s.head.ptr).content ≡ (s.nodes s.head.ptr).content
      → contents nodes ns ≡ contents s.nodes ns
      → s.popped ++ in_hand nodes (update s.places i p popper) ++ contents nodes ns ≡ s.pushed
  fifo_kept nodes p a b e f =
      ap₂ (λ l m. s.popped ++ l ++ m) (hand_kept nodes p a b ∙ hand_content nodes e) f ∙ w.fifo

  -- The thread goes on, and nothing else changes.
  pub walk :
      (p : Place)
      → is_reading (s.places i) ≡ false
      → is_reading p ≡ false
      → (is_own p ≡ true → (is_own (s.places i) ≡ true) × (own p ≡ own (s.places i)))
      → Knows popper s ns i p
      → Sound popper (put i p s) ns
  walk p a b same k =
      moved popper i p s ns w.chain w.once w.known w.tail_in (fifo_kept s.nodes p a b refl refl) k
        (λ j d. w.knows j) w.apart (λ j d o q. ground (arith, same o, w.apart i j d, q))

  pub start-Sound :
      (n v : ℕ)
      → s.places i ≡ idle
      → n ≢ 0
      → s.used n ≡ false
      → IsUnseen s.places n
      → Sound popper
          (put i (built n v) (record s {
            nodes = update s.nodes n (record { content = some v; next = null_handle });
            used = update s.used n true;
          }))
          ns
  start-Sound n v e z f unseen =
      let out : count n (s.head.ptr ∷ ns) ≡ 0 = ground (arith, w.known n, f) in
      let c : Cell = record { content = some v; next = null_handle } in
      let s' : Shared = record s { nodes = update s.nodes n c; used = update s.used n true } in
      moved popper i (built n v) s' ns (Linked-outside s.nodes n s.head.ptr c ns w.chain out) w.once
        (λ a h. ground (arith, w.known a h)) w.tail_in
        (fifo_kept (update s.nodes n c) (built n v) (ap is_reading e) refl (ground (arith, out))
          (contents-outside s.nodes n c ns (ground (arith, out))))
        (record {
          own_new = λ o. ground (arith, z, out);
          snap_in = λ o. ground (arith, o);
          edge = λ o. ground (arith, o);
          only = λ o. ground (arith, o);
          at_head = λ o. ground (arith, o);
          ahead = λ o. ground (arith, o);
          full = λ o. ground (arith, o);
          past_out = λ o. ground (arith, o);
          reads = λ o. ground (arith, o);
        })
        (λ j d.
          let k = w.knows j in
          record {
            own_new = λ o. ground (arith, k.own_new o, f);
            snap_in = λ o q. ground (arith, k.snap_in o, q, (unseen j).0 o);
            edge = λ o. ground (arith, k.edge o, (unseen j).1 o);
            only = k.only;
            at_head = k.at_head;
            ahead = k.ahead;
            full = k.full;
            past_out = λ o. ground (arith, k.past_out o, f);
            reads = k.reads;
          })
        w.apart (λ j d o q. ground (arith, (w.knows j).own_new q, f))

-- The size is of no concern to the chain.
pub resized-Sound :
    (popper : ℕ) (s : Shared) (ns : List ℕ) (m : ℕ)
    → Sound popper s ns
    → Sound popper (record s { size = m }) ns
resized-Sound popper s ns m w = record {
  chain = w.chain;
  once = w.once;
  known = w.known;
  tail_in = w.tail_in;
  fifo = w.fifo;
  knows = λ j. Knows-rest popper m s.places s.pushed s.popped j (s.places j) s ns (w.knows j);
  apart = w.apart;
}

-- A place where a thread knows nothing.
pub nothing-Knows : (popper : ℕ) (s : Shared) (ns : List ℕ) (i : ℕ) → Knows popper s ns i idle
nothing-Knows popper s ns i = record {
  own_new = λ q. ground (arith, q);
  snap_in = λ q. ground (arith, q);
  edge = λ q. ground (arith, q);
  only = λ q. ground (arith, q);
  at_head = λ q. ground (arith, q);
  ahead = λ q. ground (arith, q);
  full = λ q. ground (arith, q);
  past_out = λ q. ground (arith, q);
  reads = λ q. ground (arith, q);
}
