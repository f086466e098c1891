-- ===== src/Channel/Threads/Push.antt =====
-- channel.h, `try_push_lockfree`: each access of the pushing thread keeps what Inv states.
use native.Mathlib.Nat.{mod-eq_of_lt, mod-lt, mod-add-mod}
use fiber_lib.Prelude.{
  ℕ, suc, ◌+◌, ◌-◌, ◌%◌, ◌^◌, ◌<◌, ◌≡◌, ◌≢◌, refl, sym, ap, subst, ◌∙◌, List, [], ◌∷◌, ◌++◌, length,
  length-append, arith, some, set, round_cases,
}
use fiber_lib.Channel.{Channel, next_index}
use fiber_lib.Channel.Ring.{Holds, push_Holds}
use fiber_lib.Channel.Threads.{Place, idle, saw_tail, saw_room, filled}
use fiber_lib.Channel.Threads.Inv.{lead, lag, Pushing, Popping, seen, Fits, Popping-more}

pub stays : (i cap : ℕ) → i < cap → (i + 0) % cap ≡ i
stays i cap l = ap (λ k. k % cap) (omega arith) ∙ mod-eq_of_lt l

pub next_place :
    {A : Type 0} (c : Channel A) (i : ℕ)
    → c.cap < 2 ^ 64
    → i < c.cap
    → next_index c i ≡ (i + 1) % c.cap
unfolding next_index
next_place c i small l = ap (λ k. k % c.cap) (omega (arith, small, l))

module _ {A : Type 0} (c : Channel A) (q : Place A) (xs : List A) where
  -- A place of a push that has not filled its slot.
  pub push_on :
      (p p' : Place A)
      → lead p ≡ 0
      → lead p' ≡ 0
      → Pushing c.tail c.cap (lag q + length xs) p'
      → Fits c p q xs
      → Fits c p' q xs
  push_on p p' e f k w = record {
    head_in = w.head_in;
    tail_in = w.tail_in;
    holds = subst (λ n. Holds (seen c (lag q) n) xs) (e ∙ sym f) w.holds;
    within = w.within;
    ahead = ground (arith, f);
    distance = w.distance ∙ ap (λ n. (c.head + (lag q + length xs - n)) % c.cap) (e ∙ sym f);
    pushing = k;
    popping = subst (λ n. Popping c.head (length xs - n) q) (e ∙ sym f) w.popping;
  }

  -- The check of the head finds room.
  pub room_found :
      (v : A)
      → Fits c (saw_tail v c.tail) q xs
      → next_index c c.tail ≢ c.head
      → suc (lag q + length xs) < c.cap
  room_found v w d = ground (
    arith,
    d,
    next_place c c.tail w.holds.small w.tail_in,
    w.distance,
    w.within,
    round_cases c.cap c.head (lag q + length xs) w.head_in (ground (arith, w.within)),
    round_cases c.cap c.tail 1 w.tail_in (ground (arith, w.tail_in)),
  )

  -- The slot is filled.
  pub fill-Fits :
      (v : A)
      → Fits c (saw_room v c.tail) q xs
      → Fits (record c { buffer = set c.buffer c.tail (some v) }) (filled c.tail) q (xs ++ v ∷ [])
  fill-Fits v w =
      let z : (c.tail + 0) % c.cap ≡ c.tail = stays c.tail c.cap w.tail_in in
      let more : length (xs ++ v ∷ []) ≡ length xs + 1 = length-append xs (v ∷ []) in
      record {
        head_in = w.head_in;
        tail_in = w.tail_in;
        holds =
            subst
              (λ t.
                Holds (record (seen c (lag q) 1) { buffer = set c.buffer t (some v) })
                  (xs ++ v ∷ []))
              z
              (subst
                (λ t.
                  Holds
                    (record (seen c (lag q) 0) {
                      buffer = set c.buffer ((c.tail + 0) % c.cap) (some v);
                      tail = t;
                    })
                    (xs ++ v ∷ []))
                (next_place (seen c (lag q) 0) ((c.tail + 0) % c.cap) w.holds.small
                    (ground (arith, z, w.tail_in))
                  ∙ ap (λ k. (k + 1) % c.cap) z)
                (push_Holds w.holds v (ground (arith, w.pushing))));
        within = ground (arith, length-append xs (v ∷ []), w.pushing);
        ahead = ground (arith, length-append xs (v ∷ []));
        distance = w.distance ∙ ap (λ n. (c.head + n) % c.cap) (ground (arith, more));
        pushing = refl;
        popping =
            Popping-more c.head (length xs - 0) (length (xs ++ v ∷ []) - 1) q
              (ground (arith, length-append xs (v ∷ []))) w.popping;
      }

  -- The tail is stored.
  pub store-Fits :
      Fits c (filled c.tail) q xs → Fits (record c { tail = next_index c c.tail }) idle q xs
  store-Fits w =
      let e : next_index c c.tail ≡ (c.tail + 1) % c.cap =
        next_place c c.tail w.holds.small w.tail_in in
      let within_cap : next_index c c.tail < c.cap =
        ground (arith, e, mod-lt (c.tail + 1) {m = c.cap} (ground (arith, w.head_in))) in
      record {
        head_in = w.head_in;
        tail_in = within_cap;
        holds =
            subst (λ t. Holds (record c { head = (c.head + lag q) % c.cap; tail = t }) xs)
              (sym e ∙ sym (stays (next_index c c.tail) c.cap within_cap)) w.holds;
        within = w.within;
        ahead = ground arith;
        distance =
            e
            ∙ ap (λ n. (n + 1) % c.cap) w.distance
            ∙ mod-add-mod (c.head + (lag q + length xs - 1)) c.cap 1
            ∙ ap (λ k. k % c.cap) (ground (arith, w.ahead));
        pushing = tt;
        popping = Popping-more c.head (length xs - 1) (length xs - 0) q (ground arith) w.popping;
      }
