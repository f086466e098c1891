-- ===== src/Channel/Threads/Fifo.antt =====
-- channel.h: one thread pushes and one pops, in any order of their accesses.
use fiber_lib.Prelude.{
  ℕ, ◌+◌, ◌%◌, ◌^◌, ◌<◌, ◌≡◌, ◌≢◌, refl, sym, subst, List, [], ◌∷◌, ◌++◌, length, arith,
}
use fiber_lib.Channel.{Channel, make_channel}
use fiber_lib.Channel.Ring.{Holds, tail_in}
use fiber_lib.Channel.History.{make_channel-Holds}
use fiber_lib.Channel.Threads.{
  idle, Shared, start_push, start_pop, Turn, pushes, pops, advances, turn, run, at_rest,
}
use fiber_lib.Channel.Threads.Inv.{Fits}
use fiber_lib.Channel.Threads.Push.{stays}
use fiber_lib.Channel.Threads.Steps.{
  Sound, IsSound, start_push-IsSound, start_pop-IsSound, advance-IsSound,
}

module _ {A : Type 0} (p q : ℕ) where
  abbrev pub OneEach : List (Turn A) → Type 0
  OneEach [] = Unit
  OneEach (pushes i v ∷ ts) = (i ≡ p) × OneEach ts
  OneEach (pops i ∷ ts) = (i ≡ q) × OneEach ts
  OneEach (advances i refused ∷ ts) = OneEach ts

  run-IsSound :
      (d : p ≢ q) (ts : List (Turn A)) (s : Shared A)
      → OneEach ts
      → IsSound p q s
      → IsSound p q (run ts s)
  unfolding run turn
  run-IsSound d [] s o w = w
  run-IsSound d (pushes i v ∷ ts) s (e, o) (xs, w) = run-IsSound d ts (turn (pushes i v) s) o (
      subst (λ i. IsSound p q (start_push i v (s.places i) s)) (sym e)
        (start_push-IsSound p q d s xs w v (s.places p) refl))
  run-IsSound d (pops i ∷ ts) s (e, o) (xs, w) = run-IsSound d ts (turn (pops i) s) o (
      subst (λ i. IsSound p q (start_pop i (s.places i) s)) (sym e)
        (start_pop-IsSound p q d s xs w (s.places q) refl))
  run-IsSound d (advances i refused ∷ ts) s o (xs, w) =
      run-IsSound d ts (turn (advances i refused) s) o (advance-IsSound p q d s xs w i refused)

  at_rest-IsSound : (c : Channel A) → Holds c [] → IsSound p q (at_rest c)
  at_rest-IsSound c h = (
    [],
    record {
      fits = record {
        head_in = h.head_in;
        tail_in = tail_in h;
        holds =
            subst (λ a. Holds (record c { head = a; tail = (c.tail + 0) % c.cap }) [])
              (sym (stays c.head c.cap h.head_in))
              (subst (λ b. Holds (record c { tail = b }) []) (sym (stays c.tail c.cap (tail_in h)))
                h);
        within = ground (arith, h.room);
        ahead = ground arith;
        distance = h.tail_at;
        pushing = tt;
        popping = tt;
      };
      order = refl;
      others = λ i e f. refl;
    },
  )

quiet :
    {A : Type 0} (p q : ℕ) (s : Shared A) (xs : List A)
    → Sound p q s xs
    → s.places p ≡ idle
    → s.places q ≡ idle
    → Holds s.ring xs
quiet p q s xs w e f =
    let h =
      subst (λ a. Fits s.ring a idle xs) e (subst (λ b. Fits s.ring (s.places p) b xs) f w.fits) in
    subst (λ a. Holds (record (s.ring) { head = a }) xs) (stays s.ring.head s.ring.cap h.head_in)
      (subst (λ b. Holds (record (s.ring) { head = (s.ring.head + 0) % s.ring.cap; tail = b }) xs)
        (stays s.ring.tail s.ring.cap h.tail_in) h.holds)

-- On a new channel of `n` values, `n + 1 < 2^64`, one thread, `p`, pushes values, and another one, `q`,
-- pops; their accesses to the ring come in any order, and the exchange on an empty slot may be refused.
-- Then the values that were popped, followed by some list that is shorter than the ring, are the values
-- that were pushed, in order; and when neither thread is inside, the ring holds that list, in its slots
-- from the head to the tail.
pub run-InOrder :
    {A : Type 0} (p q n : ℕ) (ts : List (Turn A))
    → p ≢ q
    → n + 1 < 2 ^ 64
    → OneEach p q ts
    → let s = run ts (at_rest (make_channel n)) in
      (xs : List A) × (s.popped ++ xs ≡ s.pushed)
      × (length xs < s.ring.cap)
      × (s.places p ≡ idle → s.places q ≡ idle → Holds s.ring xs)
run-InOrder p q n ts d l o =
    let s = run ts (at_rest (make_channel n)) in
    let (xs, w) =
      run-IsSound p q d ts (at_rest (make_channel n)) o
        (at_rest-IsSound p q (make_channel n) (make_channel-Holds n l).0) in
    (xs, w.order, w.fits.holds.fits, λ e f. quiet p q s xs w e f)
