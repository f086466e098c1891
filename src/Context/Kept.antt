-- ===== src/Context/Kept.antt =====
-- context.cpp, `UContext`: what holds of an object and the mappings between its calls.
use fiber_lib.Prelude.{
  ℕ, ◌+◌, ◌-◌, ◌*◌, ◌%◌, ◌^◌, ◌≤◌, ◌<◌, ◌≡◌, ◌≢◌, refl, sym, ap, subst, ◌∙◌, ◌⊎◌, inl, inr, true,
  not, ◌&&◌, ◌||◌, ◌==◌, if_true, if_false, Bool-cases, Option, none, some, List, [], ◌∷◌, ◌++◌,
  arith,
}
use native.Mathlib.Nat.{mod-lt}
use fiber_lib.Context.{
  UContext, KernelCall, maps, protects, unmaps, Thrown, map_failed, align_to_page, page_floor,
  made_context, destroy, make, mapped, initialize,
}
use fiber_lib.Context.Life.{
  Attempt, attempts, unmapped, live, NoneAt, live-append, without_absent, Granted,
}

-- No call of `initialize` has mapped a stack.
record Fresh (m : List (ℕ × ℕ)) (u : UContext) (log : List KernelCall) : Type 0 where
  no_stack : u.stack ≡ 0
  no_entry : u.entry ≡ none
  same_live : live m log ≡ m

-- A stack is mapped, behind its guard page, and is the one of the context.
record Held (page : ℕ) (m : List (ℕ × ℕ)) (u : UContext) (log : List KernelCall) : Type 0 where
  guarded : u.stack ≡ u.mapping_base + page
  present : 0 < u.mapping_base
  one_live : live m log ≡ (u.mapping_base, u.total_size) ∷ m
  on_stack : (u.ss_sp ≡ u.stack) × (u.ss_size ≡ u.stack_size)

-- The object has its sizes, and a stack or a failed mapping.
abbrev Kept : ℕ → List (ℕ × ℕ) → ℕ → ℕ → UContext → List KernelCall → Type 0
Kept page m n t u log =
    (u.stack_size ≡ n)
    × (u.total_size ≡ t)
    × ((Fresh m u log × (u.mapping_base ≡ map_failed)) ⊎ Held page m u log)

initialize_cases :
    (page func base : ℕ) (u : UContext) (log : List KernelCall)
    (P : UContext → List KernelCall → Type 0)
    → (u.stack ≢ 0 → u.mapping_base ≢ 0 → P (make func u) log)
    → (((u.stack == 0) || (u.mapping_base == 0)) ≡ true
        → base ≡ map_failed
        → P (record u { mapping_base = base }) (log ++ maps base u.total_size ∷ []))
    → (((u.stack == 0) || (u.mapping_base == 0)) ≡ true
        → base ≢ map_failed
        → P
            (make func (mapped page base u))
            (log ++ maps base u.total_size ∷ protects ((base + page) % 2 ^ 64) u.stack_size ∷ []))
    → P (initialize page func base true u log).1 (initialize page func base true u log).2
unfolding initialize
initialize_cases page func base u log P f g h =
    let Q : Option Thrown × UContext × List KernelCall → Type 0 = λ r. P r.1 r.2 in
    elim (Bool-cases (not ((u.stack == 0) || (u.mapping_base == 0)))) [
      | inl c ↦ subst Q (sym (if_true _ _ c)) (f (ground (arith, c)) (ground (arith, c)))
      | inr c ↦ subst Q (sym (if_false _ _ c)) (elim (Bool-cases (base == map_failed)) [
        | inl d ↦ subst Q (sym (if_true _ _ d)) (g (ground (arith, c)) (ground (arith, d)))
        | inr d ↦ subst Q (sym (if_false _ _ d)) (h (ground (arith, c)) (ground (arith, d)))
      ])
    ]

-- The first mapping.
Fresh-Kept :
    (page func base : ℕ) (m : List (ℕ × ℕ)) (n t : ℕ) (u : UContext) (log : List KernelCall)
    → Fresh m u log
    → 0 < base
    → ((base ≢ map_failed) → base + page < 2 ^ 64)
    → (u.stack_size ≡ n)
    → (u.total_size ≡ t)
    → Kept page m n t
        (initialize page func base true u log).1
        (initialize page func base true u log).2
Fresh-Kept page func base m n t u log w z fits same total =
    initialize_cases page func base u log (Kept page m n t) (λ d e. absurd (d w.no_stack))
      (λ o e. (
        same,
        total,
        inl (
          record {
            no_stack = w.no_stack;
            no_entry = w.no_entry;
            same_live =
                live-append m log (maps base u.total_size ∷ [])
                ∙ ap (λ l. live l (maps base u.total_size ∷ [])) w.same_live
                ∙ if_true {b = base == map_failed} _ _ (ground (arith, e));
          },
          e,
        ),
      ))
      (λ o d. (
        same,
        total,
        inr (record {
          guarded = ground (arith, fits d);
          present = z;
          one_live =
              live-append m log
                (maps base u.total_size ∷ protects ((base + page) % 2 ^ 64) u.stack_size ∷ [])
              ∙ ap
                  (λ l.
                    live l (
                      maps base u.total_size ∷ protects ((base + page) % 2 ^ 64) u.stack_size ∷ []))
                  w.same_live
              ∙ if_false {b = base == map_failed} _ _ (ground (arith, d));
          on_stack = (refl, refl);
        }),
      ))

-- A stack that is mapped stays.
Held-Kept :
    (page func base : ℕ) (m : List (ℕ × ℕ)) (n t : ℕ) (u : UContext) (log : List KernelCall)
    → 0 < page
    → Held page m u log
    → (u.stack_size ≡ n)
    → (u.total_size ≡ t)
    → Kept page m n t
        (initialize page func base true u log).1
        (initialize page func base true u log).2
Held-Kept page func base m n t u log p w same total =
    initialize_cases page func base u log (Kept page m n t)
      (λ d e. (
        same,
        total,
        inr (record {
          guarded = w.guarded;
          present = w.present;
          one_live = w.one_live;
          on_stack = (refl, refl);
        }),
      ))
      (λ o e. absurd (ground (arith, o, w.guarded, w.present, p)))
      (λ o e. absurd (ground (arith, o, w.guarded, w.present, p)))

attempt-Kept :
    (page func base : ℕ) (m : List (ℕ × ℕ)) (n t : ℕ) (u : UContext) (log : List KernelCall)
    → 0 < page
    → 0 < base
    → ((base ≢ map_failed) → base + page < 2 ^ 64)
    → (u.stack_size ≡ n) × (u.total_size ≡ t) × (Fresh m u log ⊎ Held page m u log)
    → Kept page m n t
        (initialize page func base true u log).1
        (initialize page func base true u log).2
attempt-Kept page func base m n t u log p z fits (e, f, inl w) =
    Fresh-Kept page func base m n t u log w z fits e f
attempt-Kept page func base m n t u log p z fits (e, f, inr w) =
    Held-Kept page func base m n t u log p w e f

weaken :
    (page : ℕ) (m : List (ℕ × ℕ)) (n t : ℕ) (u : UContext) (log : List KernelCall)
    → Kept page m n t u log
    → (u.stack_size ≡ n) × (u.total_size ≡ t) × (Fresh m u log ⊎ Held page m u log)
weaken page m n t u log (e, f, inl (w, d)) = (e, f, inl w)
weaken page m n t u log (e, f, inr w) = (e, f, inr w)

attempts-Kept :
    (page : ℕ) (m : List (ℕ × ℕ)) (n t : ℕ) (later : List Attempt) (u : UContext)
    (log : List KernelCall)
    → 0 < page
    → Granted page later
    → Kept page m n t u log
    → Kept page m n t (attempts page later u log).0 (attempts page later u log).1
unfolding attempts
attempts-Kept page m n t [] u log p g w = w
attempts-Kept page m n t (a ∷ later) u log p (z, fits, ok, g) w =
    let r = initialize page a.func a.base a.allowed u log in
    attempts-Kept page m n t later r.1 r.2 p g (
      subst
        (λ b.
          Kept page m n t (initialize page a.func a.base b u log).1
            (initialize page a.func a.base b u log).2)
        (sym ok) (attempt-Kept page a.func a.base m n t u log p z fits (weaken page m n t u log w)))

destroyed :
    (page : ℕ) (m : List (ℕ × ℕ)) (n t : ℕ) (u : UContext) (log : List KernelCall)
    → NoneAt map_failed m
    → Kept page m n t u log
    → live m (destroy u log) ≡ m
unfolding destroy
destroyed page m n t u log none_at (e, f, inl (w, d)) =
    ap (live m) (if_false {b = u.mapping_base == 0} _ _ (ground (arith, d)))
    ∙ live-append m log (unmaps u.mapping_base u.total_size ∷ [])
    ∙ ap (λ l. unmapped u.mapping_base u.total_size l) w.same_live
    ∙ without_absent u.mapping_base u.total_size m (subst (λ a. NoneAt a m) (sym d) none_at)
destroyed page m n t u log none_at (e, f, inr w) =
    ap (live m) (if_false {b = u.mapping_base == 0} _ _ (ground (arith, w.present)))
    ∙ live-append m log (unmaps u.mapping_base u.total_size ∷ [])
    ∙ ap (λ l. unmapped u.mapping_base u.total_size l) w.one_live
    ∙ if_true {b = (u.mapping_base == u.mapping_base) && (u.total_size == u.total_size)} _ _
        (ground arith)

-- Rounding up to pages.
align_bounds :
    (page size : ℕ)
    → 0 < page
    → size + 2 * page ≤ 2 ^ 64
    → (size ≤ align_to_page page size) × (align_to_page page size < size + page)
align_bounds page size p z =
    let whole : (size + page + (2 ^ 64 - 1)) % 2 ^ 64 ≡ size + page - 1 = ground (arith, p, z) in
    subst (λ x. (size ≤ page_floor page x) × (page_floor page x < size + page)) (sym whole)
      (ground (arith, p, mod-lt (size + page - 1) p))

made_context-Fresh :
    (page left size : ℕ) (m : List (ℕ × ℕ)) → Fresh m (made_context page left true size).1 []
unfolding made_context
made_context-Fresh page left size m = record { no_stack = refl; no_entry = refl; same_live = refl }

started-Kept :
    (page left size : ℕ) (m : List (ℕ × ℕ)) (a : Attempt) (later : List Attempt)
    → 0 < page
    → Granted page (a ∷ later)
    → let (u, log) = attempts page (a ∷ later) (made_context page left true size).1 [] in
      Kept page m (align_to_page page size) ((align_to_page page size + page) % 2 ^ 64) u log
unfolding attempts made_context
started-Kept page left size m a later p (z, fits, ok, g) =
    let u = (made_context page left true size).1 in
    let n = align_to_page page size in
    let r = initialize page a.func a.base a.allowed u [] in
    attempts-Kept page m n ((n + page) % 2 ^ 64) later r.1 r.2 p g (
      subst
        (λ b.
          Kept page m n ((n + page) % 2 ^ 64) (initialize page a.func a.base b u []).1
            (initialize page a.func a.base b u []).2)
        (sym ok)
        (Fresh-Kept page a.func a.base m n ((n + page) % 2 ^ 64) u []
          (made_context-Fresh page left size m) z fits refl refl))

on_guarded_stack :
    (page : ℕ) (m : List (ℕ × ℕ)) (n t size : ℕ) (u : UContext) (log : List KernelCall)
    → Kept page m n t u log
    → size ≤ n
    → t ≡ n + page
    → (func : ℕ) → u.entry ≡ some func
    → (live m log ≡ (u.mapping_base, u.total_size) ∷ m)
      × (u.ss_sp ≡ u.mapping_base + page)
      × (u.ss_sp + u.ss_size ≡ u.mapping_base + u.total_size)
      × (size ≤ u.ss_size)
on_guarded_stack page m n t size u log (e, f, inl (w, d)) z total func q =
    absurd (ground (arith, w.no_entry, q))
on_guarded_stack page m n t size u log (e, f, inr w) z total func q = (
  w.one_live,
  w.on_stack.0 ∙ w.guarded,
  ground (arith, w.on_stack, w.guarded, e, f, total),
  ground (arith, w.on_stack, e, z),
)

-- An object is made, `initialize` is called on it at least once (mmap may fail in some of the calls, and
-- mprotect in none), and it is destroyed; the size with two pages does not wrap around, the process has
-- no mapping at MAP_FAILED, and one that mmap gives is not at 0 and leaves room for a page behind its
-- start. Then the process has the mappings that it had before, whatever the memory of the object held.
-- Before the destruction, a context with an entry has one mapping, with its stack from one page behind
-- the start of the mapping up to its end, of the size that was asked for or more.
pub life-IsBalanced :
    (page left size : ℕ) (m : List (ℕ × ℕ)) (a : Attempt) (later : List Attempt)
    → 0 < page
    → size + 2 * page ≤ 2 ^ 64
    → NoneAt map_failed m
    → Granted page (a ∷ later)
    → let (u, log) = attempts page (a ∷ later) (made_context page left true size).1 [] in
      (live m (destroy u log) ≡ m)
      × ((func : ℕ)
          → u.entry ≡ some func
          → (live m log ≡ (u.mapping_base, u.total_size) ∷ m)
            × (u.ss_sp ≡ u.mapping_base + page)
            × (u.ss_sp + u.ss_size ≡ u.mapping_base + u.total_size)
            × (size ≤ u.ss_size))
life-IsBalanced page left size m a later p fit none_at g =
    let r = attempts page (a ∷ later) (made_context page left true size).1 [] in
    let n = align_to_page page size in
    let t = (n + page) % 2 ^ 64 in
    let k : Kept page m n t r.0 r.1 = started-Kept page left size m a later p g in
    (
      destroyed page m n t r.0 r.1 none_at k,
      λ func e.
          on_guarded_stack page m n t size r.0 r.1 k (align_bounds page size p fit).0
            (ground (arith, align_bounds page size p fit, fit)) func e,
    )
