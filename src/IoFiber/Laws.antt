-- ===== src/IoFiber/Laws.antt =====
-- What `writev` has sent, however the kernel cuts its writes.
use fiber_lib.Prelude.{
  ℕ, zero, suc, ◌+◌, ◌-◌, ◌≡◌, ◌≤◌, ◌∙◌, sym, ap, refl, Bool, true, false, ◌&&◌, not, List, [], ◌∷◌,
  ◌++◌, if◌then◌else◌, length, length-append, take, drop, take-drop, length-take, drop-append_long,
  drop-append_short, append_assoc, append-nil, arith,
}
use fiber_lib.IoFiber.{
  Result, counted, wait_more, failed, Round, IoReply, returned, timed_out, no_event, blocked,
  CallTimer, do_io, conclude, Writing, flat, skip, taken, write_some, write_next, write_op, start,
  writev,
}

-- What holds when a call ends: `P`, and `Q` too if it returned a count.
module _ {S : Type 0} (P Q : S → Type 0) where
  abbrev pub Ends : IoReply × CallTimer × S → Type 0
  Ends (returned (counted n), t, s) = P s × Q s
  Ends (returned wait_more, t, s) = P s
  Ends (returned (failed e), t, s) = P s
  Ends (timed_out, t, s) = P s
  Ends (no_event, t, s) = P s
  Ends (blocked, t, s) = P s

  conclude-Ends :
      (armed : Bool) (r : Result) (t : CallTimer) (s : S) (o : IoReply × CallTimer × S)
      → P s
      → ((n : ℕ) → r ≡ counted n → Q s)
      → Ends o
      → Ends (conclude armed r t s o)
  unfolding conclude
  conclude-Ends armed (counted n) t s o p q e = (p, q n refl)
  conclude-Ends armed (failed k) t s o p q e = p
  conclude-Ends armed wait_more t s o p q e = e

  if_Ends : (b : Bool) (x y : IoReply × CallTimer × S) → Ends x → Ends y → Ends (if b then x else y)
  if_Ends true x y p q = p
  if_Ends false x y p q = q

  module _ (op : S → Result × S) (armed : Bool)
      (keeps : (s : S) → P s → P (op s).1 × ((n : ℕ) → (op s).0 ≡ counted n → Q (op s).1)) where
    pub do_io-Ends : (ws : List Round) (t : CallTimer) (s : S) → P s → Ends (do_io op armed ws t s)
    unfolding do_io
    do_io-Ends [] t s p =
        let k = keeps s p in
        conclude-Ends armed (op s).0 t (op s).1 _ k.0 k.1 (if_Ends t.expired _ _ k.0 k.0)
    do_io-Ends (w ∷ ws) t s p =
        let k = keeps s p in
        conclude-Ends armed (op s).0 t (op s).1 _ k.0 k.1 (
          if_Ends t.expired _ _ k.0 (
            if_Ends (not w.added) _ _ k.0
              (if_Ends (armed && w.expires) _ _ k.0 (do_io-Ends ws t (op s).1 k.0))))

module _ {A : Type 0} where
  -- Moving the buffers on drops so many bytes from what they hold together.
  flat-skip : (n : ℕ) (vs : List (List A)) → flat (skip n vs) ≡ drop n (flat vs)
  unfolding skip
  flat-skip zero [] = refl
  flat-skip (suc n) [] = refl
  flat-skip n (v ∷ vs) = ground (
    arith,
    flat-skip (n - length v) vs,
    drop-append_long n v (flat vs),
    drop-append_short n v (flat vs),
  )

  -- What has been sent and what is left make up the bytes asked for; the count is that of the bytes
  -- sent.
  pub record Tracks (all : List A) (w : Writing A) : Type 0 where
    pub parts : w.sent ++ flat w.vec ≡ all
    pub count : w.written ≡ length w.sent

  abbrev pub IsComplete : List A → Writing A → Type 0
  IsComplete all w = w.sent ≡ all

  whole_prefix :
      (xs ys : List A) {all : List A} → xs ++ ys ≡ all → length xs ≡ length all → xs ≡ all
  whole_prefix xs [] e l = sym (append-nil xs) ∙ e
  whole_prefix xs (y ∷ ys) e l = absurd (omega (arith, length-append xs (y ∷ ys), ap length e, l))

  write_some-Tracks :
      (all : List A) (n : ℕ) (rest : List Result) (w : Writing A)
      → Tracks all w
      → let (r, w') = write_some (length all) n rest w in
        Tracks all w' × ((k : ℕ) → r ≡ counted k → IsComplete all w')
  unfolding write_some taken
  write_some-Tracks all n rest w h =
      let k = taken n w in
      let bytes = flat w.vec in
      let fits : k ≤ length bytes = omega arith in
      let split = take-drop k bytes in
      let parts : (w.sent ++ take k bytes) ++ flat (skip k w.vec) ≡ all =
        append_assoc w.sent (take k bytes) (flat (skip k w.vec))
        ∙ ap (λ l. w.sent ++ l) (ap (λ l. take k bytes ++ l) (flat-skip k w.vec) ∙ split)
        ∙ h.parts in
      let count : w.written + k ≡ length (w.sent ++ take k bytes) =
        omega (arith, h.count, length-append w.sent (take k bytes), length-take k bytes fits) in
      (
        record { parts = parts; count = count },
        λ j e.
            whole_prefix (w.sent ++ take k bytes) (flat (skip k w.vec)) parts
              (ground (arith, e, count)),
      )

  write_op-Tracks :
      (all : List A) (answers : List Result) (w : Writing A)
      → Tracks all w
      → let (r, w') = write_next (length all) answers w in
        Tracks all w' × ((k : ℕ) → r ≡ counted k → IsComplete all w')
  unfolding write_next
  write_op-Tracks all [] w h = (h, λ k e. ground (arith, e))
  write_op-Tracks all (counted n ∷ rest) w h = write_some-Tracks all n rest w h
  write_op-Tracks all (wait_more ∷ rest) w h =
      (record { parts = h.parts; count = h.count }, λ k e. ground (arith, e))
  write_op-Tracks all (failed n ∷ rest) w h =
      (record { parts = h.parts; count = h.count }, λ k e. ground (arith, e))

  -- However the kernel cuts the writes, and however the call ends, the bytes sent are the beginning
  -- of the buffers' bytes, those left make up the rest, and the count is that of the bytes sent; if
  -- the call returned because a write succeeded, all bytes have been sent.
  pub writev_lem :
      (armed : Bool) (ws : List Round) (vec : List (List A)) (answers : List Result)
      → Ends (Tracks (flat vec)) (IsComplete (flat vec)) (writev armed ws vec answers)
  unfolding writev write_op
  writev_lem armed ws vec answers =
      do_io-Ends (Tracks (flat vec)) (IsComplete (flat vec)) (write_op (length (flat vec))) armed
        (λ w h. write_op-Tracks (flat vec) w.answers w h) ws _ (start vec answers)
        (record { parts = refl; count = refl })
