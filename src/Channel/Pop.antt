-- ===== src/Channel/Pop.antt =====
-- What `try_pop_lockfree` does to the list that a ring holds.
use native.Mathlib.Nat.{mod-add-mod, mod-eq_of_lt, mod-lt, add-zero}
use native.Mathlib.Decide.{dec_lt}
use fiber_lib.Prelude.{
  round_cases, ℕ, suc, ◌+◌, ◌%◌, ◌<◌, ◌≡◌, ◌∙◌, sym, ap, none, some, List, [], ◌∷◌, length, get_or,
  get_elem?, set, length-set, get_or-set_self, get_or-set_ne, get_elem?_of_ge, arith,
}
use fiber_lib.Channel.{Channel, next_index, try_pop}
use fiber_lib.Channel.Ring.{Holds, round_tail, next_index_lem}

pub try_pop_empty : {A : Type 0} {c : Channel A} → Holds c [] → try_pop c ≡ (none, c)
unfolding try_pop
try_pop_empty h = ground (arith, round_tail h)

module _ {A : Type 0} {c : Channel A} {x : A} {xs : List A} (h : Holds c (x ∷ xs)) where
  open h use {room, small, stored, head_in, fits, tail_at, slots}

  pub head_slot : get_or c.buffer c.head none ≡ some x
  head_slot =
      ap (λ k. get_or c.buffer k none) (sym (rw add-zero (mod-eq_of_lt head_in)))
      ∙ slots 0 (omega arith)

  pub next_head : (k : ℕ) → (next_index c c.head + k) % c.cap ≡ (c.head + suc k) % c.cap
  next_head k =
      rw (next_index_lem h c.head head_in, mod-add-mod) (ap (λ j. j % c.cap) (omega arith))

  pop_slots :
      (i : ℕ)
      → i < c.cap
      → get_or (set c.buffer c.head none) ((next_index c c.head + i) % c.cap) none ≡ get_elem? xs i
  pop_slots i p = rw (next_head i) (elim (dec_lt (suc i) c.cap) [
    | yes q ↦
        rw
          (get_or-set_ne c.buffer c.head ((c.head + suc i) % c.cap) none none
            (λ e. omega (arith, round_cases c.cap c.head (suc i) head_in (omega arith))))
          (slots (suc i) q)
    | no q ↦
        let back : (c.head + suc i) % c.cap ≡ c.head =
          omega (arith, round_cases c.cap c.head (suc i) head_in (omega arith)) in
        rw (
          back,
          get_or-set_self c.buffer c.head none none (rw stored head_in),
          get_elem?_of_ge xs i (omega arith),
        )
  ])

  pub pop_Holds :
      Holds (record c { buffer = set c.buffer c.head none; head = next_index c c.head }) xs
  pop_Holds = record {
    room = room;
    small = small;
    stored = length-set c.buffer c.head none ∙ stored;
    head_in = rw (next_index_lem h c.head head_in) (omega (arith, mod-lt (c.head + 1) {m = c.cap}));
    fits = omega arith;
    tail_at = tail_at ∙ sym (next_head (length xs));
    slots = pop_slots;
  }

  pub try_pop_lem :
      try_pop c
      ≡ (some x, record c { buffer = set c.buffer c.head none; head = next_index c c.head })
  unfolding try_pop
  try_pop_lem = ground (arith, round_tail h, head_slot)
