-- ===== src/Channel/Threads/Inv.antt =====
-- channel.h: what holds of the ring while one thread pushes and one pops.
use fiber_lib.Prelude.{ℕ, suc, ◌+◌, ◌-◌, ◌%◌, ◌≤◌, ◌<◌, ◌≡◌, List, length, arith}
use fiber_lib.Channel.{Channel}
use fiber_lib.Channel.Ring.{Holds}
use fiber_lib.Channel.Threads.{
  Place, idle, saw_tail, saw_room, filled, saw_head, saw_value, emptied,
}

module _ {A : Type 0} where
  -- By how much the slots that are full are ahead of the tail, and those that are empty of the head.
  abbrev pub lead : Place A → ℕ
  lead (filled t) = 1
  lead _ = 0

  abbrev pub lag : Place A → ℕ
  lag (emptied h) = 1
  lag _ = 0

  -- What the pushing thread knows of the tail and of the number `n` of slots from the head on, and the
  -- popping thread of the head and of the number of slots up to the tail.
  abbrev pub Pushing : ℕ → ℕ → ℕ → Place A → Type 0
  Pushing tail cap n idle = Unit
  Pushing tail cap n (saw_tail v t) = t ≡ tail
  Pushing tail cap n (saw_room v t) = (t ≡ tail) × (suc n < cap)
  Pushing tail cap n (filled t) = t ≡ tail
  Pushing tail cap n (saw_head h) = ⊥
  Pushing tail cap n (saw_value h) = ⊥
  Pushing tail cap n (emptied h) = ⊥

  abbrev pub Popping : ℕ → ℕ → Place A → Type 0
  Popping head n idle = Unit
  Popping head n (saw_tail v t) = ⊥
  Popping head n (saw_room v t) = ⊥
  Popping head n (filled t) = ⊥
  Popping head n (saw_head h) = h ≡ head
  Popping head n (saw_value h) = (h ≡ head) × (0 < n)
  Popping head n (emptied h) = h ≡ head

  -- The ring as the slots show it.
  abbrev pub seen : Channel A → ℕ → ℕ → Channel A
  seen c a b = record c { head = (c.head + a) % c.cap; tail = (c.tail + b) % c.cap }

  pub record Fits (c : Channel A) (p q : Place A) (xs : List A) : Type 0 where
    pub head_in : c.head < c.cap
    pub tail_in : c.tail < c.cap
    pub holds : Holds (seen c (lag q) (lead p)) xs
    pub within : lag q + length xs < c.cap
    pub ahead : lead p ≤ length xs
    pub distance : c.tail ≡ (c.head + (lag q + length xs - lead p)) % c.cap
    pub pushing : Pushing c.tail c.cap (lag q + length xs) p
    pub popping : Popping c.head (length xs - lead p) q

  pub Pushing-less :
      (tail cap n m : ℕ) (p : Place A) → m ≤ n → Pushing tail cap n p → Pushing tail cap m p
  Pushing-less tail cap n m idle l h = tt
  Pushing-less tail cap n m (saw_tail v t) l h = h
  Pushing-less tail cap n m (saw_room v t) l (e, h) = (e, ground (arith, l, h))
  Pushing-less tail cap n m (filled t) l h = h
  Pushing-less tail cap n m (saw_head x) l h = h
  Pushing-less tail cap n m (saw_value x) l h = h
  Pushing-less tail cap n m (emptied x) l h = h

  pub Popping-more : (head n m : ℕ) (q : Place A) → n ≤ m → Popping head n q → Popping head m q
  Popping-more head n m idle l h = tt
  Popping-more head n m (saw_tail v t) l h = h
  Popping-more head n m (saw_room v t) l h = h
  Popping-more head n m (filled t) l h = h
  Popping-more head n m (saw_head x) l h = h
  Popping-more head n m (saw_value x) l (e, h) = (e, ground (arith, l, h))
  Popping-more head n m (emptied x) l h = h
