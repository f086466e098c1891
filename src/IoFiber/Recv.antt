-- ===== src/IoFiber/Recv.antt =====
-- io_fiber.cpp, `recv_et`: its operation shares one count between the runs, and the call returns that
-- count however it ends. The kernel's answers are those of IoFiber/Read.
use fiber_lib.Prelude.{
  ℕ, ◌+◌, ◌-◌, ◌≡◌, ◌≤◌, ◌∙◌, sym, ap, refl, subst, Bool, false, List, [], ◌∷◌, ◌++◌, leb, ◌==◌,
  if◌then◌else◌, if_true, if_false, Bool-cases, inl, inr, length, take, drop, take-drop,
  length-take, length-append, append_assoc, arith,
}
use fiber_lib.IoFiber.{
  Result, counted, wait_more, failed, Round, IoReply, returned, timed_out, no_event, blocked,
  CallTimer, do_io,
}
use fiber_lib.IoFiber.Laws.{Ends, do_io-Ends}
use fiber_lib.IoFiber.Read.{
  Arrival, chunk, end_of_file, would_block, broken, kept, arriving, arriving-kept,
}

-- The count of the call, the bytes in the buffer, and the kernel's answers to come.
pub record Receiving (A : Type 0) : Type 0 where
  pub total : ℕ
  pub buffer : List A
  pub later : List (Arrival A)

-- `total == 0 ? -1 : 1`
abbrev pub any_so_far : ℕ → Result
any_so_far n = if n == 0 then wait_more else counted 1

module _ {A : Type 0} where
  unfoldable pub recv_from : ℕ → ℕ → List A → List (Arrival A) → Result × Receiving A
  recv_from len total got [] =
      (any_so_far total, record { total = total; buffer = got; later = [] })
  recv_from len total got (chunk b bs ∷ later) =
      let room = len - total in
      let more = recv_from len (total + length (b ∷ bs)) (got ++ b ∷ bs) later in
      if leb room (length (b ∷ bs))
      then (
        counted 0,
        record {
          total = total + length (take room (b ∷ bs));
          buffer = got ++ take room (b ∷ bs);
          later = kept (drop room (b ∷ bs)) later;
        },
      )
      else more
  recv_from len total got (end_of_file ∷ later) =
      (counted 0, record { total = total; buffer = got; later = later })
  recv_from len total got (would_block ∷ later) =
      (any_so_far total, record { total = total; buffer = got; later = later })
  recv_from len total got (broken e ∷ later) =
      (failed e, record { total = total; buffer = got; later = later })

  -- One run of `op`.
  abbrev pub recv_op : ℕ → Receiving A → Result × Receiving A
  recv_op len s = recv_from len s.total s.buffer s.later

  abbrev pub empty_buffer : List (Arrival A) → Receiving A
  empty_buffer later = record { total = 0; buffer = []; later = later }

  unfoldable pub recv_et : Bool → List Round → ℕ → List (Arrival A) → ℕ × Receiving A
  unfolding do_io
  recv_et armed ws len later =
      let (reply, timer, s) =
        do_io (recv_op len) armed ws (record { canceled = false; expired = false })
          (empty_buffer later) in
      (s.total, s)

  -- The buffer is not overrun, no byte is lost or doubled, and the count is that of the buffer.
  pub record Receives (len : ℕ) (all : List A) (s : Receiving A) : Type 0 where
    pub inside : length s.buffer ≤ len
    pub bytes : s.buffer ++ arriving s.later ≡ all
    pub exact : s.total ≡ length s.buffer

  full-Receives :
      (len : ℕ) (got bs : List A) (later : List (Arrival A))
      → length got ≤ len
      → len - length got ≤ length bs
      → Receives len (got ++ (bs ++ arriving later)) (record {
        total = length got + length (take (len - length got) bs);
        buffer = got ++ take (len - length got) bs;
        later = kept (drop (len - length got) bs) later;
      })
  full-Receives len got bs later h fits =
      let room = len - length got in
      let few : length (take room bs) ≡ room = length-take room bs fits in
      record {
        inside = omega (arith, length-append got (take room bs), few, h);
        bytes =
            append_assoc got (take room bs) (arriving (kept (drop room bs) later))
            ∙ ap (λ l. got ++ l)
                (ap (λ l. take room bs ++ l) (arriving-kept (drop room bs) later)
                  ∙ sym (append_assoc (take room bs) (drop room bs) (arriving later))
                  ∙ ap (λ l. l ++ arriving later) (take-drop room bs));
        exact = sym (length-append got (take room bs));
      }

  recv_from-Receives :
      (len : ℕ) (got : List A) (later : List (Arrival A))
      → length got ≤ len
      → Receives len (got ++ arriving later) (recv_from len (length got) got later).1
  unfolding recv_from
  recv_from-Receives len got [] h = record { inside = h; bytes = refl; exact = refl }
  recv_from-Receives len got (chunk b bs ∷ later) h =
      elim (Bool-cases (leb (len - length got) (length (b ∷ bs)))) [
        | inl fits ↦
            subst {A = Result × Receiving A}
              (λ x. Receives len (got ++ ((b ∷ bs) ++ arriving later)) x.1) (sym (if_true _ _ fits))
              (full-Receives len got (b ∷ bs) later h (ground (arith, fits)))
        | inr fits ↦
            subst {A = Result × Receiving A}
              (λ x. Receives len (got ++ ((b ∷ bs) ++ arriving later)) x.1)
              (sym (if_false _ _ fits))
              (subst
                (λ l.
                  Receives len l
                    (recv_from len (length got + length (b ∷ bs)) (got ++ b ∷ bs) later).1)
                (append_assoc got (b ∷ bs) (arriving later))
                (subst
                  (λ n.
                    Receives len ((got ++ b ∷ bs) ++ arriving later)
                      (recv_from len n (got ++ b ∷ bs) later).1)
                  (length-append got (b ∷ bs))
                  (recv_from-Receives len (got ++ b ∷ bs) later
                    (ground (arith, fits, length-append got (b ∷ bs))))))
      ]
  recv_from-Receives len got (end_of_file ∷ later) h = record {
    inside = h;
    bytes = refl;
    exact = refl;
  }
  recv_from-Receives len got (would_block ∷ later) h = record {
    inside = h;
    bytes = refl;
    exact = refl;
  }
  recv_from-Receives len got (broken e ∷ later) h = record {
    inside = h;
    bytes = refl;
    exact = refl;
  }

  ended :
      (len : ℕ) (all : List A) (o : IoReply × CallTimer × Receiving A)
      → Ends (Receives len all) (λ s. Unit) o
      → Receives len all o.2
  ended len all (returned (counted n), t, s) e = e.0
  ended len all (returned wait_more, t, s) e = e
  ended len all (returned (failed k), t, s) e = e
  ended len all (timed_out, t, s) e = e
  ended len all (no_event, t, s) e = e
  ended len all (blocked, t, s) e = e

  op_keeps :
      (len : ℕ) (all : List A) (s : Receiving A)
      → Receives len all s
      → Receives len all (recv_op len s).1
  op_keeps len all s h =
      subst (λ n. Receives len all (recv_from len n s.buffer s.later).1) (sym h.exact)
        (subst (λ l. Receives len l (recv_from len (length s.buffer) s.buffer s.later).1) h.bytes
          (recv_from-Receives len s.buffer s.later h.inside))

  -- However often `recv_et` waits, and whether it ends by a full buffer, the end of the stream, an
  -- error, a timeout or a refused registration, what it returns is the number of bytes in the buffer,
  -- which does not exceed `len`, and no byte is lost or doubled between the kernel and the buffer.
  pub recv_et-Receives :
      (armed : Bool) (ws : List Round) (len : ℕ) (later : List (Arrival A))
      → let (n, s) = recv_et armed ws len later in
        (n ≡ length s.buffer) × Receives len (arriving later) s
  unfolding recv_et
  recv_et-Receives armed ws len later =
      let e = ended len (arriving later) _ (
        do_io-Ends (Receives len (arriving later)) (λ s. Unit) (recv_op len) armed
          (λ s h. (op_keeps len (arriving later) s h, λ n r. tt)) ws
          (record { canceled = false; expired = false }) (empty_buffer later)
          (record { inside = omega arith; bytes = refl; exact = refl })) in
      (e.exact, e)
