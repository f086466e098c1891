-- ===== src/IoFiber/Read.antt =====
-- io_fiber.cpp, the operation of `read_et`: it reads until the buffer is full, the kernel has no
-- more bytes, or the stream ends. `got` are the bytes in the buffer, of `len` bytes.
use fiber_lib.Prelude.{
  ℕ, ◌-◌, ◌≡◌, ◌≤◌, ◌∙◌, sym, ap, refl, subst, List, [], ◌∷◌, ◌++◌, leb, if◌then◌else◌, if_true,
  if_false, Bool-cases, inl, inr, length, take, drop, take-drop, length-take, length-append,
  append_assoc, arith,
}
use fiber_lib.IoFiber.{Result, counted, wait_more, failed}

-- The kernel's answers to `::read`; it has at least one byte in a chunk, and keeps those that do not
-- fit.
pub data Arrival (A : Type 0) : Type 0 where
  chunk : A → List A → Arrival A
  end_of_file : Arrival A
  would_block : Arrival A
  broken : ℕ → Arrival A

module _ {A : Type 0} where
  abbrev pub kept : List A → List (Arrival A) → List (Arrival A)
  kept [] later = later
  kept (b ∷ bs) later = chunk b bs ∷ later

  -- `total == 0 ? -1 : total`
  abbrev pub so_far : List A → Result
  so_far [] = wait_more
  so_far (b ∷ bs) = counted (length (b ∷ bs))

  unfoldable pub read_op : ℕ → List (Arrival A) → List A → Result × List A × List (Arrival A)
  read_op len [] got = (so_far got, got, [])
  read_op len (chunk b bs ∷ later) got =
      let room = len - length got in
      let more = read_op len later (got ++ b ∷ bs) in
      if leb room (length (b ∷ bs))
      then (counted len, got ++ take room (b ∷ bs), kept (drop room (b ∷ bs)) later)
      else more
  read_op len (end_of_file ∷ later) got = (counted (length got), got, later)
  read_op len (would_block ∷ later) got = (so_far got, got, later)
  read_op len (broken e ∷ later) got = (failed e, got, later)

  -- The bytes that the kernel still has.
  abbrev pub arriving : List (Arrival A) → List A
  arriving [] = []
  arriving (chunk b bs ∷ later) = (b ∷ bs) ++ arriving later
  arriving (end_of_file ∷ later) = arriving later
  arriving (would_block ∷ later) = arriving later
  arriving (broken e ∷ later) = arriving later

  -- The buffer is not overrun, no byte is lost or doubled between the kernel and the buffer, and a
  -- count that is returned is that of the buffer's bytes.
  pub record Delivers (len : ℕ) (all : List A) (o : Result × List A × List (Arrival A))
      : Type 0 where
    pub inside : length o.1 ≤ len
    pub bytes : o.1 ++ arriving o.2 ≡ all
    pub exact : (n : ℕ) → o.0 ≡ counted n → n ≡ length o.1

  pub arriving-kept :
      (bs : List A) (later : List (Arrival A)) → arriving (kept bs later) ≡ bs ++ arriving later
  arriving-kept [] later = refl
  arriving-kept (b ∷ bs) later = refl

  so_far_exact : (got : List A) (n : ℕ) → so_far got ≡ counted n → n ≡ length got
  so_far_exact [] n e = ground (arith, e)
  so_far_exact (b ∷ bs) n e = ground (arith, e)

  -- Whatever the kernel answers, one operation of `read_et` on a buffer with at most `len` bytes in it
  -- keeps within `len`, loses and doubles no byte between the kernel and the buffer, and returns, if
  -- a count, the number of bytes in the buffer.
  pub read_op-Delivers :
      (len : ℕ) (later : List (Arrival A)) (got : List A)
      → length got ≤ len
      → Delivers len (got ++ arriving later) (read_op len later got)
  unfolding read_op
  read_op-Delivers len [] got h = record { inside = h; bytes = refl; exact = so_far_exact got }
  read_op-Delivers len (chunk b bs ∷ later) got h =
      elim (Bool-cases (leb (len - length got) (length (b ∷ bs)))) [
        | inl fits ↦
            let room = len - length got in
            let split = take-drop room (b ∷ bs) in
            let few : length (take room (b ∷ bs)) ≡ room =
              length-take room (b ∷ bs) (ground (arith, fits)) in
            let filled : length (got ++ take room (b ∷ bs)) ≡ len =
              omega (arith, length-append got (take room (b ∷ bs)), few, h) in
            subst (Delivers len _) (sym (if_true _ _ fits)) (record {
              inside = omega (arith, filled);
              bytes =
                  append_assoc got (take room (b ∷ bs)) (arriving (kept (drop room (b ∷ bs)) later))
                  ∙ ap (λ l. got ++ l)
                      (ap (λ l. take room (b ∷ bs) ++ l) (arriving-kept (drop room (b ∷ bs)) later)
                        ∙ sym (
                            append_assoc (take room (b ∷ bs)) (drop room (b ∷ bs)) (arriving later))
                        ∙ ap (λ l. l ++ arriving later) split);
              exact = λ n e. ground (arith, e, filled);
            })
        | inr fits ↦ subst (Delivers len _) (sym (if_false _ _ fits)) (
            subst (λ l. Delivers len l (read_op len later (got ++ b ∷ bs)))
              (append_assoc got (b ∷ bs) (arriving later))
              (read_op-Delivers len later (got ++ b ∷ bs)
                (ground (arith, fits, length-append got (b ∷ bs)))))
      ]
  read_op-Delivers len (end_of_file ∷ later) got h = record {
    inside = h;
    bytes = refl;
    exact = λ n e. ground (arith, e);
  }
  read_op-Delivers len (would_block ∷ later) got h = record {
    inside = h;
    bytes = refl;
    exact = so_far_exact got;
  }
  read_op-Delivers len (broken e ∷ later) got h = record {
    inside = h;
    bytes = refl;
    exact = λ n q. ground (arith, q);
  }
