-- ===== src/LinkedList/Threads/Chain.antt =====
-- lockfree_linked_list.h: the nodes from the head on, and what a link, a construction and a destruction
-- do to them.
use fiber_lib.Prelude.{
  ℕ, ◌≤◌, ◌<◌, ◌≡◌, ◌≢◌, refl, ap, ap₂, Option, List, [], ◌∷◌, ◌++◌, update, count, arith,
}
use native.Mathlib.Decide.{ℕ_discrete}
use fiber_lib.FreeList.{Handle}
use fiber_lib.LinkedList.Chain.{last}
use fiber_lib.LinkedList.Threads.{Cell}

-- The nodes `ns` follow the node `p`.
abbrev pub Linked : (ℕ → Cell) → ℕ → List ℕ → Type 0
Linked nodes p [] = (nodes p).next.ptr ≡ 0
Linked nodes p (n ∷ ns) = ((nodes p).next.ptr ≡ n) × (n ≢ 0) × Linked nodes n ns

abbrev pub contents : (ℕ → Cell) → List ℕ → List (Option ℕ)
contents nodes [] = []
contents nodes (n ∷ ns) = (nodes n).content ∷ contents nodes ns

-- A node of the chain with no successor is the last one.
pub last_unlinked :
    (nodes : ℕ → Cell) (a p : ℕ) (ns : List ℕ)
    → Linked nodes p ns
    → 0 < count a (p ∷ ns)
    → (nodes a).next.ptr ≡ 0
    → a ≡ last p ns
last_unlinked nodes a p [] h c e = ground (arith, c)
last_unlinked nodes a p (n ∷ ns) (f, d, h) c e =
    last_unlinked nodes a n ns h (ground (arith, c, e, f, d)) e

-- The successor of a node of the chain stands behind the first one.
pub successor_in :
    (nodes : ℕ → Cell) (a b p : ℕ) (ns : List ℕ)
    → Linked nodes p ns
    → 0 < count a (p ∷ ns)
    → (nodes a).next.ptr ≡ b
    → b ≢ 0
    → 0 < count b ns
successor_in nodes a b p [] h c e d = absurd (ground (arith, c, e, h, d))
successor_in nodes a b p (n ∷ ns) (f, g, h) c e d = elim (ℕ_discrete p a) [
  | yes q ↦ ground (arith, ap (λ x. (nodes x).next.ptr) q, e, f)
  | no q ↦ ground (arith, successor_in nodes a b n ns h (ground (arith, c, q)) e d)
]

pub last_in : (p : ℕ) (ns : List ℕ) → 0 < count (last p ns) (p ∷ ns)
last_in p [] = ground arith
last_in p (n ∷ ns) = ground (arith, last_in n ns)

-- A node outside the chain is written.
pub Linked-outside :
    (nodes : ℕ → Cell) (a p : ℕ) (c : Cell) (ns : List ℕ)
    → Linked nodes p ns
    → count a (p ∷ ns) ≡ 0
    → Linked (update nodes a c) p ns
Linked-outside nodes a p c [] h z = ground (arith, h, z)
Linked-outside nodes a p c (n ∷ ns) (e, d, h) z =
    (ground (arith, e, z), d, Linked-outside nodes a n c ns h (ground (arith, z)))

pub contents-outside :
    (nodes : ℕ → Cell) (a : ℕ) (c : Cell) (ns : List ℕ)
    → count a ns ≡ 0
    → contents (update nodes a c) ns ≡ contents nodes ns
contents-outside nodes a c [] z = refl
contents-outside nodes a c (n ∷ ns) z =
    ap₂ (λ x xs. x ∷ xs) (ground (arith, z)) (contents-outside nodes a c ns (ground (arith, z)))

-- The cell `l` with another next node.
abbrev pub relinked : (ℕ → Cell) → ℕ → Handle → ℕ → Cell
relinked nodes l x = update nodes l (record (nodes l) { next = x })

pub contents-relinked :
    (nodes : ℕ → Cell) (l : ℕ) (x : Handle) (ns : List ℕ)
    → contents (relinked nodes l x) ns ≡ contents nodes ns
contents-relinked nodes l x [] = refl
contents-relinked nodes l x (n ∷ ns) =
    ap₂ (λ y ys. y ∷ ys) (ground arith) (contents-relinked nodes l x ns)

pub contents-append :
    (nodes : ℕ → Cell) (ns ms : List ℕ)
    → contents nodes (ns ++ ms) ≡ contents nodes ns ++ contents nodes ms
contents-append nodes [] ms = refl
contents-append nodes (n ∷ ns) ms = ap (λ l. (nodes n).content ∷ l) (contents-append nodes ns ms)

-- A new last node.
pub Linked-append :
    (nodes : ℕ → Cell) (p n : ℕ) (x : Handle) (ns : List ℕ)
    → x.ptr ≡ n
    → n ≢ 0
    → (nodes n).next.ptr ≡ 0
    → Linked nodes p ns
    → ((a : ℕ) → count a (p ∷ ns) ≤ 1)
    → count n (p ∷ ns) ≡ 0
    → Linked (relinked nodes (last p ns) x) p (ns ++ n ∷ [])
Linked-append nodes p n x [] e z f h once new = (ground (arith, e), z, ground (arith, f, new))
Linked-append nodes p n x (m ∷ ns) e z f (g, d, h) once new = (
  ground (arith, g, once p, new, last_in m ns),
  d,
  Linked-append nodes m n x ns e z f h (λ a. ground (arith, once a)) (ground (arith, new)),
)
