-- ===== src/Channel/Threads/Stuck.antt =====
-- channel.h, `try_push_lockfree`: what two threads that push do to the ring.
use fiber_lib.Prelude.{
  ℕ, ◌≡◌, ◌≢◌, sym, ap, subst, ◌∙◌, [], ◌∷◌, arith, some, none, set, get_or, get_or-set_ne, Bool,
  false, ◌==◌, if_true,
}
use fiber_lib.Channel.{next_index, try_push, try_pop}
use fiber_lib.Channel.Threads.{saw_room, filled, Shared, fill, advance, advances, turn, run}

module _ {A : Type 0} where
  -- A delayed push fills its slot and stores the tail.
  delayed :
      (s : Shared A) (i : ℕ) (v : A) (t : ℕ)
      → s.places i ≡ saw_room v t
      → get_or s.ring.buffer t none ≡ none
      → (run (advances i false ∷ advances i false ∷ []) s).ring
        ≡ record (s.ring) { buffer = set s.ring.buffer t (some v); tail = next_index s.ring t }
  unfolding run turn advance fill
  delayed s i v t e g =
      let s' : Shared A = fill i false v t none s in
      ap (λ pl. (advance i false ((advance i false pl s).places i) (advance i false pl s)).ring) e
      ∙ ap (λ o. (advance i false ((fill i false v t o s).places i) (fill i false v t o s)).ring) g
      ∙ ap (λ pl. (advance i false pl s').ring)
          (if_true {b = i == i} (filled t) (s.places i) (ground arith))

  -- A thread has read the tail `t` and found room, and is about to fill the slot; others have pushed and
  -- popped since, so that this slot and the one of the head are empty, and the head is the second place
  -- after `t`. When the thread goes on, it sets the tail back to the place before the head: every push
  -- then takes the ring for full, and every pop finds nothing in the slot of the head; neither moves
  -- the head or the tail.
  pub two_pushers-stuck :
      (s : Shared A) (i : ℕ) (v : A) (t : ℕ) (moved : A → A) (refused : Bool) (v' : A)
      → s.places i ≡ saw_room v t
      → get_or s.ring.buffer t none ≡ none
      → get_or s.ring.buffer s.ring.head none ≡ none
      → s.ring.head ≢ t
      → s.ring.head ≢ next_index s.ring t
      → next_index s.ring (next_index s.ring t) ≡ s.ring.head
      → let c = (run (advances i false ∷ advances i false ∷ []) s).ring in
        (try_push moved refused v' c ≡ (false, v', c))
        × (try_pop c ≡ (none, record c { buffer = set c.buffer c.head none }))
  unfolding try_push try_pop next_index
  two_pushers-stuck s i v t moved refused v' e g z d f n =
      let slot : get_or (set s.ring.buffer t (some v)) s.ring.head none ≡ none =
        get_or-set_ne s.ring.buffer t s.ring.head (some v) none (λ k. d (sym k)) ∙ z in
      subst
        (λ c.
          (try_push moved refused v' c ≡ (false, v', c))
          × (try_pop c ≡ (none, record c { buffer = set c.buffer c.head none })))
        (sym (delayed s i v t e g))
        (
          if_true {b = next_index s.ring (next_index s.ring t) == s.ring.head} _ _
              (ground (arith, n)),
          ground (arith, f, slot),
        )
