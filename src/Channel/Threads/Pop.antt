-- ===== src/Channel/Threads/Pop.antt =====
-- channel.h, `try_pop_lockfree`: each access of the popping thread keeps what Inv states.
use native.Mathlib.Nat.{mod-eq_of_lt, mod-lt, mod-add-mod}
use fiber_lib.Prelude.{
  ◌+◌, ◌-◌, ◌%◌, ◌<◌, ◌≡◌, ◌≢◌, refl, sym, ap, subst, ◌∙◌, List, ◌∷◌, length, arith, some, none,
  set, get_or,
}
use fiber_lib.Channel.{Channel, next_index}
use fiber_lib.Channel.Ring.{Holds}
use fiber_lib.Channel.Pop.{pop_Holds, head_slot}
use fiber_lib.Channel.Threads.{Place, idle, saw_head, saw_value, emptied}
use fiber_lib.Channel.Threads.Inv.{lead, lag, Pushing, Popping, seen, Fits, Pushing-less}
use fiber_lib.Channel.Threads.Push.{next_place, stays}

module _ {A : Type 0} (c : Channel A) (p : Place A) where
  -- A place of a pop that has not emptied its slot.
  pub pop_on :
      (xs : List A) (q q' : Place A)
      → lag q ≡ 0
      → lag q' ≡ 0
      → Popping c.head (length xs - lead p) q'
      → Fits c p q xs
      → Fits c p q' xs
  pop_on xs q q' e f k w = record {
    head_in = w.head_in;
    tail_in = w.tail_in;
    holds = subst (λ n. Holds (seen c n (lead p)) xs) (e ∙ sym f) w.holds;
    within = ground (arith, w.within, e, f);
    ahead = w.ahead;
    distance = w.distance ∙ ap (λ n. (c.head + (n + length xs - lead p)) % c.cap) (e ∙ sym f);
    pushing = subst (λ n. Pushing c.tail c.cap (n + length xs) p) (e ∙ sym f) w.pushing;
    popping = k;
  }

  -- The check of the tail finds a value.
  pub value_found :
      (xs : List A) → Fits c p (saw_head c.head) xs → c.head ≢ c.tail → 0 < length xs - lead p
  value_found xs w d =
      ground (arith, d, w.distance, mod-eq_of_lt {n = c.head} {m = c.cap} w.head_in)

  at_head : (xs : List A) → Fits c p (saw_value c.head) xs → (c.head + 0) % c.cap ≡ c.head
  at_head xs w = stays c.head c.cap w.head_in

  -- The slot of the head has the first value.
  pub take-Fits :
      (x : A) (xs : List A)
      → Fits c p (saw_value c.head) (x ∷ xs)
      → (get_or c.buffer c.head none ≡ some x)
        × Fits (record c { buffer = set c.buffer c.head none }) p (emptied c.head) xs
  take-Fits x xs w =
      let z = at_head (x ∷ xs) w in
      (
        ap (λ k. get_or c.buffer k none) (sym z) ∙ head_slot w.holds,
        record {
          head_in = w.head_in;
          tail_in = w.tail_in;
          holds =
              subst (λ t. Holds (record (seen c 1 (lead p)) { buffer = set c.buffer t none }) xs) z
                (subst
                  (λ t.
                    Holds
                      (record (seen c 0 (lead p)) {
                        buffer = set c.buffer ((c.head + 0) % c.cap) none;
                        head = t;
                      })
                      xs)
                  (next_place (seen c 0 (lead p)) ((c.head + 0) % c.cap) w.holds.small
                      (ground (arith, z, w.head_in))
                    ∙ ap (λ k. (k + 1) % c.cap) z)
                  (pop_Holds w.holds));
          within = ground (arith, w.within);
          ahead = ground (arith, w.popping);
          distance = w.distance ∙ ap (λ n. (c.head + n) % c.cap) (ground (arith, w.popping));
          pushing =
              Pushing-less c.tail c.cap (0 + length (x ∷ xs)) (1 + length xs) p (ground arith)
                w.pushing;
          popping = refl;
        },
      )

  -- The head is stored.
  pub release-Fits :
      (xs : List A)
      → Fits c p (emptied c.head) xs
      → Fits (record c { head = next_index c c.head }) p idle xs
  release-Fits xs w =
      let e : next_index c c.head ≡ (c.head + 1) % c.cap =
        next_place c c.head w.holds.small w.head_in in
      let within_cap : next_index c c.head < c.cap =
        ground (arith, e, mod-lt (c.head + 1) {m = c.cap} (ground (arith, w.head_in))) in
      record {
        head_in = within_cap;
        tail_in = w.tail_in;
        holds =
            subst (λ t. Holds (record c { head = t; tail = (c.tail + lead p) % c.cap }) xs)
              (sym e ∙ sym (stays (next_index c c.head) c.cap within_cap)) w.holds;
        within = ground (arith, w.within);
        ahead = w.ahead;
        distance =
            w.distance
            ∙ ap (λ k. k % c.cap) (ground (arith, w.ahead))
            ∙ sym (mod-add-mod (c.head + 1) c.cap (length xs - lead p))
            ∙ ap (λ k. (k + (length xs - lead p)) % c.cap) (sym e)
            ∙ ap (λ k. (next_index c c.head + k) % c.cap) (ground arith);
        pushing =
            Pushing-less c.tail c.cap (1 + length xs) (0 + length xs) p (ground arith) w.pushing;
        popping = tt;
      }
