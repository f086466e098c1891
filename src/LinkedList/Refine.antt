-- ===== src/LinkedList/Refine.antt =====
-- lockfree_linked_list.h: the calls implement a queue of values.
use fiber_lib.Prelude.{
  ℕ, zero, suc, ◌+◌, ◌-◌, ◌≤◌, ◌<◌, ◌≡◌, ◌≢◌, ◌⊎◌, inl, inr, refl, sym, ap, ◌∙◌, Bool, true, false,
  not, ◌&&◌, Option, none, some, List, [], ◌∷◌, ◌++◌, ◌==◌, if◌then◌else◌, count, count-append,
  length, length-append, if_true, if_false, subst, arith,
}
use native.Mathlib.Decide.{ℕ_discrete}
use fiber_lib.LinkedList.{
  Node, Queue, new_queue, next_handle, construct, step_tail, first_fails, later_fails, link_node,
  push_loop, push_back, pop_front,
}
use fiber_lib.LinkedList.Chain.{
  Linked, last, Prev, values, next-last, next-Prev, counted-last, extended, Linked-append,
  values-append, last-append, Prev-append,
}

-- The queue holds the values `xs` in the nodes `ns` behind the dummy node; the tail is at the last
-- node or at the one before it.
pub record Holds (q : Queue) (ns xs : List ℕ) : Type 0 where
  pub linked : Linked q.nodes q.head.ptr ns
  pub once : (a : ℕ) → count a (q.head.ptr ∷ ns) ≤ 1
  pub content : values q.nodes ns ≡ xs
  pub tail_at : (q.tail.ptr ≡ last q.head.ptr ns) ⊎ Prev q.tail.ptr q.head.ptr ns
  pub sized : q.size ≡ length ns

abbrev pub Pushed : List ℕ → List ℕ → Option Queue → Type 0
Pushed ns xs none = ⊥
Pushed ns xs (some q) = Holds q ns xs

if_Pushed :
    (ns xs : List ℕ) (b : Bool) (x y : Option Queue)
    → (b ≡ true → Pushed ns xs x)
    → (b ≡ false → Pushed ns xs y)
    → Pushed ns xs (if b then x else y)
if_Pushed ns xs true x y f g = f refl
if_Pushed ns xs false x y f g = g refl

fewer :
    (fails : List Bool) → first_fails fails ≡ true → length (later_fails fails) + 1 ≡ length fails
fewer [] e = absurd (ground (arith, e))
fewer (b ∷ bs) e = ground arith

no_more : (fails : List Bool) → length (later_fails fails) ≤ length fails
no_more [] = omega arith
no_more (b ∷ bs) = ground arith

Prev-counted : (t p : ℕ) (ns : List ℕ) → Prev t p ns → 0 < count t (p ∷ ns)
Prev-counted t p [] h = absurd h
Prev-counted t p (n ∷ []) h = ground (arith, h)
Prev-counted t p (n ∷ m ∷ ns) h = ground (arith, Prev-counted t n (m ∷ ns) h)

tail_counted : {q : Queue} {ns xs : List ℕ} → Holds q ns xs → 0 < count q.tail.ptr (q.head.ptr ∷ ns)
tail_counted {q} {ns} h = elim h.tail_at [
  | inl e ↦ subst (λ t. 0 < count t (q.head.ptr ∷ ns)) (sym e) (counted-last q.head.ptr ns)
  | inr p ↦ Prev-counted q.tail.ptr q.head.ptr ns p
]

-- The tail goes to the last node.
stepped-Holds :
    (p : ℕ) (q : Queue) (ns xs : List ℕ)
    → Holds q ns xs
    → p ≡ last q.head.ptr ns
    → Holds (record q { tail = next_handle p q.tail }) ns xs
stepped-Holds p q ns xs h e = record {
  linked = h.linked;
  once = h.once;
  content = h.content;
  tail_at = inl e;
  sized = h.sized;
}

module _ (n v : ℕ) (ns xs : List ℕ) (z : n ≢ 0) where
  linked-Holds :
      (b : Bool) (q : Queue)
      → Holds q ns xs
      → count n (q.head.ptr ∷ ns) ≡ 0
      → q.tail.ptr ≡ last q.head.ptr ns
      → Holds (step_tail b n (link_node n (construct n v q))) (ns ++ n ∷ []) (xs ++ v ∷ [])
  linked-Holds b q h new e = by_fail b
    where
      linked : Linked (extended q.nodes q.tail.ptr n v) q.head.ptr (ns ++ n ∷ [])
      linked =
          subst (λ l. Linked (extended q.nodes l n v) q.head.ptr (ns ++ n ∷ [])) (sym e)
            (Linked-append q.nodes q.head.ptr n v ns z h.linked h.once new)

      once : (a : ℕ) → count a (q.head.ptr ∷ (ns ++ n ∷ [])) ≤ 1
      once a = ground (arith, h.once a, count-append a ns (n ∷ []), new)

      content : values (extended q.nodes q.tail.ptr n v) (ns ++ n ∷ []) ≡ xs ++ v ∷ []
      content =
          values-append q.nodes q.tail.ptr n v ns
            (λ t.
              absurd
                (omega (arith, subst (λ a. 0 < count a (q.head.ptr ∷ ns)) t (tail_counted h), new)))
            (ground (arith, new))
          ∙ ap (λ l. l ++ v ∷ []) h.content

      sized : q.size + 1 ≡ length (ns ++ n ∷ [])
      sized = ground (arith, h.sized, length-append ns (n ∷ []))

      by_fail :
          (b : Bool)
          → Holds (step_tail b n (link_node n (construct n v q))) (ns ++ n ∷ []) (xs ++ v ∷ [])
      by_fail true = record {
        linked = linked;
        once = once;
        content = content;
        tail_at =
            inr
              (subst (λ t. Prev t q.head.ptr (ns ++ n ∷ [])) (sym e) (Prev-append q.head.ptr n ns));
        sized = sized;
      }
      by_fail false = record {
        linked = linked;
        once = once;
        content = content;
        tail_at = inl (sym (last-append q.head.ptr n ns));
        sized = sized;
      }

  push_at_last :
      (k : ℕ) (fails : List Bool) (q : Queue)
      → Holds q ns xs
      → count n (q.head.ptr ∷ ns) ≡ 0
      → q.tail.ptr ≡ last q.head.ptr ns
      → length fails < k
      → Pushed (ns ++ n ∷ []) (xs ++ v ∷ []) (push_loop k fails n (construct n v q))
  unfolding push_loop
  push_at_last zero fails q h new e b = absurd (omega arith)
  push_at_last (suc k) fails q h new e b =
      let ended : (q.nodes q.tail.ptr).next.ptr ≡ 0 =
        ap (λ t. (q.nodes t).next.ptr) e ∙ next-last q.nodes q.head.ptr ns h.linked in
      subst (Pushed (ns ++ n ∷ []) (xs ++ v ∷ []))
        (sym (
          if_false {b = not (((construct n v q).nodes q.tail.ptr).next.ptr == 0)} _ _
            (ground (arith, ended, tail_counted h, new))))
        (if_Pushed (ns ++ n ∷ []) (xs ++ v ∷ []) (first_fails fails) _ _
          (λ f. push_at_last k (later_fails fails) q h new e (omega (arith, fewer fails f, b)))
          (λ f. linked-Holds (first_fails (later_fails fails)) q h new e))

  push_at-Prev :
      (k : ℕ) (fails : List Bool) (q : Queue)
      → Holds q ns xs
      → count n (q.head.ptr ∷ ns) ≡ 0
      → Prev q.tail.ptr q.head.ptr ns
      → length fails + 1 < k
      → Pushed (ns ++ n ∷ []) (xs ++ v ∷ []) (push_loop k fails n (construct n v q))
  unfolding push_loop
  push_at-Prev zero fails q h new e b = absurd (omega arith)
  push_at-Prev (suc k) fails q h new e b =
      let (e', nonzero) = next-Prev q.nodes q.tail.ptr q.head.ptr ns h.linked e in
      let seen : ((construct n v q).nodes q.tail.ptr).next.ptr ≡ last q.head.ptr ns =
        ground (arith, e', tail_counted h, new) in
      subst (Pushed (ns ++ n ∷ []) (xs ++ v ∷ []))
        (sym (
          if_true {b = not (((construct n v q).nodes q.tail.ptr).next.ptr == 0)} _ _
            (ground (arith, seen, nonzero))))
        (by_fail (first_fails fails) refl seen
          (λ f. push_at-Prev k (later_fails fails) q h new e (omega (arith, fewer fails f, b))))
    where
      by_fail :
          (f : Bool)
          → first_fails fails ≡ f
          → ((construct n v q).nodes q.tail.ptr).next.ptr ≡ last q.head.ptr ns
          → (first_fails fails ≡ true
              → Pushed
                  (ns ++ n ∷ [])
                  (xs ++ v ∷ [])
                  (push_loop k (later_fails fails) n (construct n v q)))
          → Pushed (ns ++ n ∷ []) (xs ++ v ∷ []) (
              push_loop k
                (later_fails fails)
                n
                (step_tail f ((construct n v q).nodes q.tail.ptr).next.ptr (construct n v q)))
      by_fail true f seen rest = rest f
      by_fail false f seen rest =
          push_at_last k (later_fails fails)
            (record q { tail = next_handle ((construct n v q).nodes q.tail.ptr).next.ptr q.tail })
            (stepped-Holds ((construct n v q).nodes q.tail.ptr).next.ptr q ns xs h seen) new seen
            (omega (arith, no_more fails, b))

-- `push_back_lockfree` ends, however often its exchanges fail for no reason, with fuel for these
-- failures and two turns more: the value is behind the others, and the tail is at the last node or at
-- the one before it. The node is not null and not in the queue.
pub push_back_lem :
    (fuel : ℕ) (fails : List Bool) (n v : ℕ) (q : Queue) (ns xs : List ℕ)
    → Holds q ns xs
    → n ≢ 0
    → count n (q.head.ptr ∷ ns) ≡ 0
    → length fails + 1 < fuel
    → Pushed (ns ++ n ∷ []) (xs ++ v ∷ []) (push_back fuel fails n v q)
unfolding push_back
push_back_lem fuel fails n v q ns xs h z new b = elim h.tail_at [
  | inl e ↦ push_at_last n v ns xs z fuel fails q h new e (omega (arith, b))
  | inr e ↦ push_at-Prev n v ns xs z fuel fails q h new e b
]

-- What a pop gives: nothing if the queue is empty, and else the first value.
abbrev pub Popped : List ℕ → Option (Option ℕ × Queue) → Type 0
Popped xs none = ⊥
Popped [] (some (none, q)) = (ns : List ℕ) × Holds q ns []
Popped [] (some (some x, q)) = ⊥
Popped (x ∷ xs) (some (none, q)) = ⊥
Popped (x ∷ xs) (some (some y, q)) = (y ≡ x) × ((ns : List ℕ) × Holds q ns xs)

if_Popped :
    (xs : List ℕ) (b : Bool) (x y : Option (Option ℕ × Queue))
    → (b ≡ true → Popped xs x)
    → (b ≡ false → Popped xs y)
    → Popped xs (if b then x else y)
if_Popped xs true x y f g = f refl
if_Popped xs false x y f g = g refl

advanced-Holds :
    (q : Queue) (n : ℕ) (ns : List ℕ) (x : ℕ) (xs : List ℕ)
    → Holds q (n ∷ ns) (x ∷ xs)
    → q.head.ptr ≢ q.tail.ptr
    → Holds (record q { head = next_handle n q.head; size = q.size - 1 }) ns xs
advanced-Holds q n ns x xs h d = record {
  linked = h.linked.2;
  once = λ a. ground (arith, h.once a);
  content = ground (arith, h.content);
  tail_at = tail_on ns h.tail_at;
  sized = ground (arith, h.sized);
}
  where
    tail_on :
        (ns : List ℕ)
        → (q.tail.ptr ≡ last q.head.ptr (n ∷ ns)) ⊎ Prev q.tail.ptr q.head.ptr (n ∷ ns)
        → (q.tail.ptr ≡ last n ns) ⊎ Prev q.tail.ptr n ns
    tail_on ns (inl e) = inl e
    tail_on [] (inr e) = absurd (d (sym e))
    tail_on (m ∷ ms) (inr e) = inr e

pop_empty :
    (k : ℕ) (fails : List Bool) (q : Queue)
    → Holds q [] []
    → 0 < k
    → Popped [] (pop_front k fails q)
unfolding pop_front
pop_empty zero fails q h b = absurd (omega (arith, b))
pop_empty (suc k) fails q h b =
    let tail : q.tail.ptr ≡ q.head.ptr = elim h.tail_at [ inl e ↦ e | inr e ↦ absurd e ] in
    subst (Popped [])
      (sym (
        if_true {b = (q.head.ptr == q.tail.ptr) && ((q.nodes q.head.ptr).next.ptr == 0)} _ _
          (ground (arith, tail, h.linked))))
      ([], h)

module _ (n : ℕ) (ns : List ℕ) (x : ℕ) (xs : List ℕ) where
  pop_ahead :
      (k : ℕ) (fails : List Bool) (q : Queue)
      → Holds q (n ∷ ns) (x ∷ xs)
      → q.head.ptr ≢ q.tail.ptr
      → length fails < k
      → Popped (x ∷ xs) (pop_front k fails q)
  unfolding pop_front
  pop_ahead zero fails q h d b = absurd (omega (arith, b))
  pop_ahead (suc k) fails q h d b =
      if_Popped (x ∷ xs) ((q.head.ptr == q.tail.ptr) && ((q.nodes q.head.ptr).next.ptr == 0)) _ _
        (λ e. absurd (d (ground (arith, e))))
        λ e.
          if_Popped (x ∷ xs) (q.head.ptr == q.tail.ptr) _ _ (λ f. absurd (d (ground (arith, f))))
            λ f.
              if_Popped (x ∷ xs) (first_fails fails) _ _
                (λ g. pop_ahead k (later_fails fails) q h d (omega (arith, fewer fails g, b)))
                (λ g.
                  subst
                    (λ m. Popped (x ∷ xs) (
                      some (
                        some (q.nodes m).data_of,
                        record q { head = next_handle m q.head; size = q.size - 1 },
                      )))
                    (sym h.linked.0)
                    (ground (arith, h.content), (ns, advanced-Holds q n ns x xs h d)))

  -- The tail is at the dummy node, and the queue is not empty: it has one value.
  behind_last : (q : Queue) → Holds q (n ∷ ns) (x ∷ xs) → q.head.ptr ≡ q.tail.ptr → n ≡ last n ns
  behind_last q h e = at_one ns h.tail_at h.once
    where
      at_one :
          (ns : List ℕ)
          → (q.tail.ptr ≡ last n ns) ⊎ Prev q.tail.ptr q.head.ptr (n ∷ ns)
          → ((a : ℕ) → count a (q.head.ptr ∷ n ∷ ns) ≤ 1)
          → n ≡ last n ns
      at_one ns (inl t) once = absurd (ground (arith, once q.head.ptr, counted-last n ns, t, e))
      at_one [] (inr t) once = refl
      at_one (m ∷ ms) (inr t) once =
          absurd (ground (arith, once q.head.ptr, Prev-counted q.tail.ptr n (m ∷ ms) t, e))

  pop_behind :
      (k : ℕ) (fails : List Bool) (q : Queue)
      → Holds q (n ∷ ns) (x ∷ xs)
      → q.head.ptr ≡ q.tail.ptr
      → length fails + 1 < k
      → Popped (x ∷ xs) (pop_front k fails q)
  unfolding pop_front
  pop_behind zero fails q h d b = absurd (omega (arith, b))
  pop_behind (suc k) fails q h d b =
      let next : (q.nodes q.head.ptr).next.ptr ≡ n = h.linked.0 in
      if_Popped (x ∷ xs) ((q.head.ptr == q.tail.ptr) && ((q.nodes q.head.ptr).next.ptr == 0)) _ _
        (λ e. absurd (h.linked.1 (ground (arith, e, next))))
        λ e.
          if_Popped (x ∷ xs) (q.head.ptr == q.tail.ptr) _ _
            (λ f.
              by_fail (first_fails fails) refl next
                (λ g. pop_behind k (later_fails fails) q h d (omega (arith, fewer fails g, b))))
            (λ f. absurd (ground (arith, f, d)))
    where
      by_fail :
          (f : Bool)
          → first_fails fails ≡ f
          → (q.nodes q.head.ptr).next.ptr ≡ n
          → (first_fails fails ≡ true → Popped (x ∷ xs) (pop_front k (later_fails fails) q))
          → Popped
              (x ∷ xs)
              (pop_front k (later_fails fails) (step_tail f (q.nodes q.head.ptr).next.ptr q))
      by_fail true f next rest = rest f
      by_fail false f next rest =
          pop_ahead k (later_fails fails)
            (record q { tail = next_handle (q.nodes q.head.ptr).next.ptr q.tail })
            (stepped-Holds (q.nodes q.head.ptr).next.ptr q (n ∷ ns) (x ∷ xs) h
              (next ∙ behind_last q h d))
            (λ e. ground (arith, h.once n, e, next)) (omega (arith, no_more fails, b))

-- `pop_front_lockfree` ends, however often its exchanges fail for no reason, with fuel for these
-- failures and two turns more: it gives the first value and leaves the others in order, or finds that
-- the queue is empty.
pub pop_front_lem :
    (fuel : ℕ) (fails : List Bool) (q : Queue) (ns xs : List ℕ)
    → Holds q ns xs
    → length fails + 1 < fuel
    → Popped xs (pop_front fuel fails q)
pop_front_lem fuel fails q [] [] h b = pop_empty fuel fails q h (omega (arith, b))
pop_front_lem fuel fails q [] (x ∷ xs) h b = absurd (ground (arith, h.content))
pop_front_lem fuel fails q (n ∷ ns) [] h b = absurd (ground (arith, h.content))
pop_front_lem fuel fails q (n ∷ ns) (x ∷ xs) h b = elim (ℕ_discrete q.head.ptr q.tail.ptr) [
  | yes e ↦ pop_behind n ns x xs fuel fails q h e b
  | no d ↦ pop_ahead n ns x xs fuel fails q h d (omega (arith, b))
]

-- A new queue is empty.
pub new_queue-Holds : (dummy : ℕ) (nodes : ℕ → Node) → Holds (new_queue dummy nodes) [] []
new_queue-Holds dummy nodes = record {
  linked = ground arith;
  once = λ a. ground arith;
  content = refl;
  tail_at = inl refl;
  sized = refl;
}
