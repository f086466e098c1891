-- ===== src/Channel/Ring.antt =====
-- The ring of a channel holds a list of values, oldest first: what `try_push_lockfree`,
-- `try_pop_lockfree` and the observers do to that list.
use native.Mathlib.Nat.{mod-add-mod}
use native.Mathlib.Decide.{ℕ_discrete}
use fiber_lib.Prelude.{
  round_cases, round_inj, ℕ, suc, ◌+◌, ◌-◌, ◌%◌, ◌^◌, ◌≤◌, ◌<◌, ◌≡◌, ◌≢◌, ◌∙◌, sym, ◌⊎◌, ap, Bool,
  true, false, none, some, List, [], ◌∷◌, ◌++◌, ◌==◌, if◌then◌else◌, length, get_or, get_elem?, set,
  length-append, length-set, get_or-set_self, get_or-set_ne, get_elem?_of_ge, get_elem?-append_last,
  get_elem?-append_ne, arith,
}
use fiber_lib.Channel.{Channel, next_index, is_full, is_empty, size, capacity, try_push}

-- Slot `i` past the head holds element `i`, and every other slot is null.
pub record Holds {A : Type 0} (c : Channel A) (xs : List A) : Type 0 where
  pub room : 1 < c.cap
  pub small : c.cap < 2 ^ 64
  pub stored : length c.buffer ≡ c.cap
  pub head_in : c.head < c.cap
  pub fits : length xs < c.cap
  pub tail_at : c.tail ≡ (c.head + length xs) % c.cap
  pub slots : (i : ℕ) → i < c.cap → get_or c.buffer ((c.head + i) % c.cap) none ≡ get_elem? xs i

module _ {A : Type 0} {c : Channel A} {xs : List A} (h : Holds c xs) where
  open h use {room, small, stored, head_in, fits, tail_at, slots}

  pub round_tail :
      ((c.tail ≡ c.head + length xs) × (c.head + length xs < c.cap))
      ⊎ ((c.tail ≡ c.head + length xs - c.cap) × (c.cap ≤ c.head + length xs))
  round_tail = rw tail_at (round_cases c.cap c.head (length xs) head_in (omega arith))

  pub tail_in : c.tail < c.cap
  tail_in = omega (arith, round_tail)

  pub next_index_lem : (i : ℕ) → i < c.cap → next_index c i ≡ (i + 1) % c.cap
  unfolding next_index
  next_index_lem i p = ap (λ k. k % c.cap) (omega arith)

  next_tail : next_index c c.tail ≡ (c.head + suc (length xs)) % c.cap
  next_tail =
      next_index_lem c.tail tail_in ∙ rw (tail_at, mod-add-mod) (ap (λ k. k % c.cap) (omega arith))

  -- Empty and full are told apart by the tail.
  pub is_empty_lem : is_empty c ≡ (length xs == 0)
  unfolding is_empty
  is_empty_lem = ground (arith, round_tail)

  pub is_full_lem : is_full c ≡ (length xs == c.cap - 1)
  unfolding is_full
  is_full_lem =
      ground (arith, next_tail, round_cases c.cap c.head (suc (length xs)) head_in (omega arith))

  pub size_lem : size c ≡ length xs
  unfolding size
  size_lem = ground (arith, round_tail)

  pub capacity_lem : capacity c ≡ c.cap - 1
  unfolding capacity
  capacity_lem = omega arith

  -- Slot `i` past the head after the element `v` went into the tail's slot.
  push_slots :
      (v : A) (i : ℕ)
      → i < c.cap
      → get_or (set c.buffer c.tail (some v)) ((c.head + i) % c.cap) none
        ≡ get_elem? (xs ++ v ∷ []) i
  push_slots v i p = elim (ℕ_discrete i (length xs)) [
    | yes e ↦ rw (
      e,
      ← tail_at,
      get_or-set_self c.buffer c.tail (some v) none (rw stored tail_in),
      get_elem?-append_last xs v,
    )
    | no n ↦
        rw
          (
            get_or-set_ne c.buffer c.tail ((c.head + i) % c.cap) (some v) none
                (λ e. n (round_inj c.cap c.head i (length xs) head_in p fits (sym e ∙ tail_at))),
            get_elem?-append_ne xs v i n,
          )
          (slots i p)
  ]

  pub push_Holds :
      (v : A)
      → suc (length xs) < c.cap
      → Holds
          (record c { buffer = set c.buffer c.tail (some v); tail = next_index c c.tail })
          (xs ++ v ∷ [])
  push_Holds v p = record {
    room = room;
    small = small;
    stored = length-set c.buffer c.tail (some v) ∙ stored;
    head_in = head_in;
    fits = omega (arith, length-append xs (v ∷ []));
    tail_at = next_tail ∙ ap (λ k. (c.head + k) % c.cap) (omega (arith, length-append xs (v ∷ [])));
    slots = push_slots v;
  }

  pub tail_slot : get_or c.buffer c.tail none ≡ none
  tail_slot = rw tail_at (slots (length xs) fits) ∙ get_elem?_of_ge xs (length xs) (omega arith)

  -- What `try_push_lockfree` does: refused when full, and otherwise as the machine chooses.
  pub try_push_full :
      (moved : A → A) (refused : Bool) (v : A)
      → length xs ≡ c.cap - 1
      → try_push moved refused v c ≡ (false, v, c)
  unfolding try_push
  try_push_full moved refused v e =
      ground (arith, next_tail, round_cases c.cap c.head (suc (length xs)) head_in (omega arith))

  pub try_push_room :
      (moved : A → A) (refused : Bool) (v : A)
      → length xs ≢ c.cap - 1
      → try_push moved refused v c ≡ (
          if refused then (false, moved v, c) else (
            true,
            moved v,
            record c { buffer = set c.buffer c.tail (some v); tail = next_index c c.tail },
          ))
  unfolding try_push
  try_push_room moved refused v e = ground (
    arith,
    next_tail,
    tail_slot,
    round_cases c.cap c.head (suc (length xs)) head_in (omega arith),
  )
