-- ===== src/Channel/Threads/Steps.antt =====
-- channel.h: each access of the pushing or the popping thread keeps the values in order.
use fiber_lib.Prelude.{
  ℕ, ◌≡◌, ◌≢◌, refl, sym, ap, subst, ◌∙◌, List, [], ◌∷◌, ◌++◌, append_assoc, arith, Option, some,
  none, set, get_or, Bool, true, false, ◌==◌, if_true, if_false, Bool-cases, inl, inr, update,
}
use native.Mathlib.Decide.{ℕ_discrete}
use fiber_lib.Channel.{next_index}
use fiber_lib.Channel.Threads.{
  Place, idle, saw_tail, saw_room, filled, saw_head, saw_value, emptied, Shared, put, fill, take,
  start_push, start_pop, advance,
}
use fiber_lib.Channel.Threads.Inv.{Fits}
use fiber_lib.Channel.Threads.Push.{push_on, room_found, fill-Fits, store-Fits}
use fiber_lib.Channel.Threads.Pop.{pop_on, value_found, take-Fits, release-Fits}

module _ {A : Type 0} (p q : ℕ) where
  -- Thread `p` pushes and thread `q` pops; the ring has the values `xs`.
  pub record Sound (s : Shared A) (xs : List A) : Type 0 where
    pub fits : Fits s.ring (s.places p) (s.places q) xs
    pub order : s.popped ++ xs ≡ s.pushed
    pub others : (i : ℕ) → i ≢ p → i ≢ q → s.places i ≡ idle

  abbrev pub IsSound : Shared A → Type 0
  IsSound s = (xs : List A) × Sound s xs

  module _ (d : p ≢ q) (s : Shared A) (others : (i : ℕ) → i ≢ p → i ≢ q → s.places i ≡ idle)
      (xs : List A) where
    push_moves :
        (p' : Place A)
        → Fits s.ring p' (s.places q) xs
        → s.popped ++ xs ≡ s.pushed
        → Sound (put p p' s) xs
    push_moves p' f o = record {
      fits =
          subst (λ a. Fits s.ring (update s.places p p' p) a xs)
            (sym (if_false {b = p == q} p' (s.places q) (ground (arith, d))))
            (subst (λ a. Fits s.ring a (s.places q) xs)
              (sym (if_true {b = p == p} p' (s.places p) (ground arith))) f);
      order = o;
      others = λ i e g. if_false {b = p == i} p' (s.places i) (ground (arith, e)) ∙ others i e g;
    }

    pop_moves :
        (q' : Place A)
        → Fits s.ring (s.places p) q' xs
        → s.popped ++ xs ≡ s.pushed
        → Sound (put q q' s) xs
    pop_moves q' f o = record {
      fits =
          subst (λ a. Fits s.ring a (update s.places q q' q) xs)
            (sym (if_false {b = q == p} q' (s.places p) (ground (arith, d))))
            (subst (λ a. Fits s.ring (s.places p) a xs)
              (sym (if_true {b = q == q} q' (s.places q) (ground arith))) f);
      order = o;
      others = λ i e g. if_false {b = q == i} q' (s.places i) (ground (arith, g)) ∙ others i e g;
    }

  module _ (d : p ≢ q) (s : Shared A) (xs : List A) (w : Sound s xs) where
    -- What the pushing thread's place says of the ring.
    fits_push : (pl : Place A) → s.places p ≡ pl → Fits s.ring pl (s.places q) xs
    fits_push pl e = subst (λ a. Fits s.ring a (s.places q) xs) e w.fits

    fits_pop : (pl : Place A) → s.places q ≡ pl → Fits s.ring (s.places p) pl xs
    fits_pop pl e = subst (λ a. Fits s.ring (s.places p) a xs) e w.fits

    fill-IsSound :
        (refused : Bool) (v : A) (t : ℕ) (o : Option A)
        → s.places p ≡ saw_room v t
        → IsSound (fill p refused v t o s)
    unfolding fill
    fill-IsSound true v t none e = (
      xs,
      push_moves d s w.others xs idle
          (push_on s.ring (s.places q) xs (saw_room v t) idle refl refl tt
            (fits_push (saw_room v t) e))
          w.order,
    )
    fill-IsSound false v t none e =
        let f = fits_push (saw_room v t) e in
        let k : t ≡ s.ring.tail = f.pushing.0 in
        let s' : ℕ → Shared A = λ t. record s {
          ring = record (s.ring) { buffer = set s.ring.buffer t (some v) };
          pushed = s.pushed ++ v ∷ [];
        } in
        (
          xs ++ v ∷ [],
          subst (λ t. Sound (put p (filled t) (s' t)) (xs ++ v ∷ [])) (sym k)
              (push_moves d (s' s.ring.tail) w.others (xs ++ v ∷ []) (filled s.ring.tail)
                (fill-Fits s.ring (s.places q) xs v
                  (subst (λ t. Fits s.ring (saw_room v t) (s.places q) xs) k f))
                (sym (append_assoc s.popped xs (v ∷ [])) ∙ ap (λ l. l ++ v ∷ []) w.order)),
        )
    fill-IsSound refused v t (some x) e = (
      xs,
      push_moves d s w.others xs idle
          (push_on s.ring (s.places q) xs (saw_room v t) idle refl refl tt
            (fits_push (saw_room v t) e))
          w.order,
    )

    push_advances :
        (refused : Bool) (pl : Place A) → s.places p ≡ pl → IsSound (advance p refused pl s)
    unfolding advance
    push_advances refused idle e = (xs, w)
    push_advances refused (saw_tail v t) e =
        let f = fits_push (saw_tail v t) e in
        elim (Bool-cases (next_index s.ring t == s.ring.head)) [
          | inl c ↦ (
            xs,
            subst (λ a. Sound (put p a s) xs) (sym (if_true _ _ c))
                (push_moves d s w.others xs idle
                  (push_on s.ring (s.places q) xs (saw_tail v t) idle refl refl tt f) w.order),
          )
          | inr c ↦ (
            xs,
            subst (λ a. Sound (put p a s) xs) (sym (if_false _ _ c))
                (push_moves d s w.others xs (saw_room v t)
                  (push_on s.ring (s.places q) xs (saw_tail v t) (saw_room v t) refl refl
                    (
                      f.pushing,
                      room_found s.ring (s.places q) xs v
                          (subst (λ t. Fits s.ring (saw_tail v t) (s.places q) xs) f.pushing f)
                          (subst (λ t. next_index s.ring t ≢ s.ring.head) f.pushing
                            (ground (arith, c))),
                    )
                    f)
                  w.order),
          )
        ]
    push_advances refused (saw_room v t) e =
        fill-IsSound refused v t (get_or s.ring.buffer t none) e
    push_advances refused (filled t) e =
        let f = fits_push (filled t) e in
        let s' : ℕ → Shared A =
          λ t. record s { ring = record (s.ring) { tail = next_index s.ring t } } in
        (
          xs,
          subst (λ t. Sound (put p idle (s' t)) xs) (sym f.pushing)
              (push_moves d (s' s.ring.tail) w.others xs idle
                (store-Fits s.ring (s.places q) xs
                  (subst (λ t. Fits s.ring (filled t) (s.places q) xs) f.pushing f))
                w.order),
        )
    push_advances refused (saw_head h) e = absurd (fits_push (saw_head h) e).pushing
    push_advances refused (saw_value h) e = absurd (fits_push (saw_value h) e).pushing
    push_advances refused (emptied h) e = absurd (fits_push (emptied h) e).pushing

  -- The exchange on the slot of the head gives the first value.
  take-IsSound :
      (d : p ≢ q) (s : Shared A) (xs : List A)
      → Sound s xs
      → (h : ℕ) (o : Option A) → s.places q ≡ saw_value h
      → get_or s.ring.buffer h none ≡ o
      → IsSound (take q h o s)
  unfolding take
  take-IsSound d s [] w h o e g =
      absurd (ground (arith, (fits_pop d s [] w (saw_value h) e).popping))
  take-IsSound d s (x ∷ xs) w h none e g =
      let f = fits_pop d s (x ∷ xs) w (saw_value h) e in
      let k : h ≡ s.ring.head = f.popping.0 in
      let t =
        take-Fits s.ring (s.places p) x xs
          (subst (λ h. Fits s.ring (s.places p) (saw_value h) (x ∷ xs)) k f) in
      absurd (ground (arith, t.0, g, ap (λ i. get_or s.ring.buffer i none) k))
  take-IsSound d s (x ∷ xs) w h (some y) e g =
      let f = fits_pop d s (x ∷ xs) w (saw_value h) e in
      let k : h ≡ s.ring.head = f.popping.0 in
      let t =
        take-Fits s.ring (s.places p) x xs
          (subst (λ h. Fits s.ring (s.places p) (saw_value h) (x ∷ xs)) k f) in
      let same : y ≡ x = ground (arith, sym g ∙ ap (λ i. get_or s.ring.buffer i none) k ∙ t.0) in
      let s' : ℕ → Shared A = λ h. record s {
        ring = record (s.ring) { buffer = set s.ring.buffer h none };
        popped = s.popped ++ y ∷ [];
      } in
      (
        xs,
        subst (λ h. Sound (put q (emptied h) (s' h)) xs) (sym k)
            (pop_moves d (s' s.ring.head) w.others xs (emptied s.ring.head) t.1
              (append_assoc s.popped (y ∷ []) xs ∙ ap (λ a. s.popped ++ a ∷ xs) same ∙ w.order)),
      )

  module _ (d : p ≢ q) (s : Shared A) (xs : List A) (w : Sound s xs) where
    pop_advances :
        (refused : Bool) (pl : Place A) → s.places q ≡ pl → IsSound (advance q refused pl s)
    unfolding advance
    pop_advances refused idle e = (xs, w)
    pop_advances refused (saw_head h) e =
        let f = fits_pop d s xs w (saw_head h) e in
        elim (Bool-cases (h == s.ring.tail)) [
          | inl c ↦ (
            xs,
            subst (λ a. Sound (put q a s) xs) (sym (if_true _ _ c))
                (pop_moves d s w.others xs idle
                  (pop_on s.ring (s.places p) xs (saw_head h) idle refl refl tt f) w.order),
          )
          | inr c ↦ (
            xs,
            subst (λ a. Sound (put q a s) xs) (sym (if_false _ _ c))
                (pop_moves d s w.others xs (saw_value h)
                  (pop_on s.ring (s.places p) xs (saw_head h) (saw_value h) refl refl
                    (
                      f.popping,
                      value_found s.ring (s.places p) xs
                          (subst (λ h. Fits s.ring (s.places p) (saw_head h) xs) f.popping f)
                          (subst (λ h. h ≢ s.ring.tail) f.popping (ground (arith, c))),
                    )
                    f)
                  w.order),
          )
        ]
    pop_advances refused (saw_value h) e =
        take-IsSound d s xs w h (get_or s.ring.buffer h none) e refl
    pop_advances refused (emptied h) e =
        let f = fits_pop d s xs w (emptied h) e in
        let s' : ℕ → Shared A =
          λ h. record s { ring = record (s.ring) { head = next_index s.ring h } } in
        (
          xs,
          subst (λ h. Sound (put q idle (s' h)) xs) (sym f.popping)
              (pop_moves d (s' s.ring.head) w.others xs idle
                (release-Fits s.ring (s.places p) xs
                  (subst (λ h. Fits s.ring (s.places p) (emptied h) xs) f.popping f))
                w.order),
        )
    pop_advances refused (saw_tail v t) e = absurd (fits_pop d s xs w (saw_tail v t) e).popping
    pop_advances refused (saw_room v t) e = absurd (fits_pop d s xs w (saw_room v t) e).popping
    pop_advances refused (filled t) e = absurd (fits_pop d s xs w (filled t) e).popping

    pub start_push-IsSound :
        (v : A) (pl : Place A) → s.places p ≡ pl → IsSound (start_push p v pl s)
    unfolding start_push
    start_push-IsSound v idle e = (
      xs,
      push_moves d s w.others xs (saw_tail v s.ring.tail)
          (push_on s.ring (s.places q) xs idle (saw_tail v s.ring.tail) refl refl refl
            (fits_push d s xs w idle e))
          w.order,
    )
    start_push-IsSound v _ e = (xs, w)

    pub start_pop-IsSound : (pl : Place A) → s.places q ≡ pl → IsSound (start_pop q pl s)
    unfolding start_pop
    start_pop-IsSound idle e = (
      xs,
      pop_moves d s w.others xs (saw_head s.ring.head)
          (pop_on s.ring (s.places p) xs idle (saw_head s.ring.head) refl refl refl
            (fits_pop d s xs w idle e))
          w.order,
    )
    start_pop-IsSound _ e = (xs, w)

    -- Any thread goes on: the others are not inside.
    pub advance-IsSound : (i : ℕ) (refused : Bool) → IsSound (advance i refused (s.places i) s)
    unfolding advance
    advance-IsSound i refused = elim (ℕ_discrete p i) [
      | yes e ↦
          subst (λ i. IsSound (advance i refused (s.places i) s)) e
            (push_advances d s xs w refused (s.places p) refl)
      | no e ↦ elim (ℕ_discrete q i) [
        | yes f ↦
            subst (λ i. IsSound (advance i refused (s.places i) s)) f
              (pop_advances refused (s.places q) refl)
        | no f ↦
            subst (λ pl. IsSound (advance i refused pl s))
              (sym (w.others i (λ g. e (sym g)) (λ g. f (sym g)))) (xs, w)
      ]
    ]
