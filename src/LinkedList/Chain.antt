-- ===== src/LinkedList/Chain.antt =====
-- lockfree_linked_list.h: the nodes from the head on, where the tail may stand, and what a new last node
-- does to them.
use fiber_lib.Prelude.{
  ℕ, ◌≤◌, ◌<◌, ◌≡◌, ◌≢◌, refl, ap, ap₂, ◌∙◌, List, [], ◌∷◌, ◌++◌, update, count, arith,
}
use fiber_lib.LinkedList.{Node, next_handle, null_handle}

-- The nodes `ns` follow the node `p`.
abbrev pub Linked : (ℕ → Node) → ℕ → List ℕ → Type 0
Linked nodes p [] = (nodes p).next.ptr ≡ 0
Linked nodes p (n ∷ ns) = ((nodes p).next.ptr ≡ n) × (n ≢ 0) × Linked nodes n ns

abbrev pub last : ℕ → List ℕ → ℕ
last p [] = p
last p (n ∷ ns) = last n ns

-- `t` is the node before the last one.
abbrev pub Prev : ℕ → ℕ → List ℕ → Type 0
Prev t p [] = ⊥
Prev t p (n ∷ []) = t ≡ p
Prev t p (n ∷ m ∷ ns) = Prev t n (m ∷ ns)

abbrev pub values : (ℕ → Node) → List ℕ → List ℕ
values nodes [] = []
values nodes (n ∷ ns) = (nodes n).data_of ∷ values nodes ns

pub next-last :
    (nodes : ℕ → Node) (p : ℕ) (ns : List ℕ) → Linked nodes p ns → (nodes (last p ns)).next.ptr ≡ 0
next-last nodes p [] h = h
next-last nodes p (n ∷ ns) (e, d, h) = next-last nodes n ns h

pub next-Prev :
    (nodes : ℕ → Node) (t p : ℕ) (ns : List ℕ)
    → Linked nodes p ns
    → Prev t p ns
    → ((nodes t).next.ptr ≡ last p ns) × (last p ns ≢ 0)
next-Prev nodes t p [] h k = absurd k
next-Prev nodes t p (n ∷ []) (e, d, h) k = (ap (λ x. (nodes x).next.ptr) k ∙ e, d)
next-Prev nodes t p (n ∷ m ∷ ns) (e, d, h) k = next-Prev nodes t n (m ∷ ns) h k

pub counted-last : (p : ℕ) (ns : List ℕ) → 0 < count (last p ns) (p ∷ ns)
counted-last p [] = ground arith
counted-last p (n ∷ ns) = ground (arith, counted-last n ns)

-- The nodes after a new one is linked behind the last one.
abbrev pub extended : (ℕ → Node) → ℕ → ℕ → ℕ → ℕ → Node
extended nodes l n v =
    update (update nodes n (record { data_of = v; next = null_handle })) l
      (record (update nodes n (record { data_of = v; next = null_handle }) l) {
        next = next_handle n (update nodes n (record { data_of = v; next = null_handle }) l).next;
      })

pub Linked-append :
    (nodes : ℕ → Node) (p n v : ℕ) (ns : List ℕ)
    → n ≢ 0
    → Linked nodes p ns
    → ((a : ℕ) → count a (p ∷ ns) ≤ 1)
    → count n (p ∷ ns) ≡ 0
    → Linked (extended nodes (last p ns) n v) p (ns ++ n ∷ [])
Linked-append nodes p n v [] z h once new = (ground arith, z, ground (arith, new))
Linked-append nodes p n v (m ∷ ns) z (e, d, h) once new = (
  ground (arith, e, once p, new, counted-last m ns),
  d,
  Linked-append nodes m n v ns z h (λ a. ground (arith, once a)) (ground (arith, new)),
)

pub values-append :
    (nodes : ℕ → Node) (l n v : ℕ) (ns : List ℕ)
    → l ≢ n
    → count n ns ≡ 0
    → values (extended nodes l n v) (ns ++ n ∷ []) ≡ values nodes ns ++ v ∷ []
values-append nodes l n v [] d new = ground (arith, d)
values-append nodes l n v (m ∷ ns) d new =
    ap₂ (λ x xs. x ∷ xs) (ground (arith, d, new))
      (values-append nodes l n v ns d (ground (arith, new)))

pub last-append : (p n : ℕ) (ns : List ℕ) → last p (ns ++ n ∷ []) ≡ n
last-append p n [] = refl
last-append p n (m ∷ ns) = last-append m n ns

pub Prev-append : (p n : ℕ) (ns : List ℕ) → Prev (last p ns) p (ns ++ n ∷ [])
Prev-append p n [] = refl
Prev-append p n (m ∷ []) = refl
Prev-append p n (m ∷ k ∷ ns) = Prev-append m n (k ∷ ns)
