-- ===== src/Context/Faults.antt =====
-- context.cpp and include/context.h, `UContext`: a refused mprotect, and the sizes of moved objects.
use fiber_lib.Prelude.{
  ℕ, ◌+◌, ◌-◌, ◌%◌, ◌^◌, ◌<◌, ◌≡◌, ◌≢◌, refl, sym, ap, subst, ◌∙◌, Bool, false, not, ◌&&◌, ◌||◌,
  ◌==◌, if_true, if_false, none, some, List, [], ◌∷◌, ◌++◌, arith,
}
use fiber_lib.Context.{
  UContext, KernelCall, maps, protects, unmaps, mprotect_failed, map_failed, destroy, make, mapped,
  initialize,
}
use fiber_lib.Context.{assign}
use fiber_lib.Context.Life.{live, unmapped}

abbrev refused_calls : ℕ → ℕ → UContext → List KernelCall
refused_calls page base u =
    maps base u.total_size
    ∷ protects ((base + page) % 2 ^ 64) u.stack_size
    ∷ unmaps base u.total_size
    ∷ []

refused :
    (page func base : ℕ) (u : UContext)
    → u.stack ≡ 0
    → base ≢ map_failed
    → initialize page func base false u []
      ≡ (some mprotect_failed, mapped page base u, refused_calls page base u)
unfolding initialize
refused page func base u e d =
    if_false {b = not ((u.stack == 0) || (u.mapping_base == 0))} _ _ (ground (arith, e))
    ∙ if_false {b = base == map_failed} _ _ (ground (arith, d))

kept_stack :
    (page func base : ℕ) (allowed : Bool) (u : UContext) (log : List KernelCall)
    → u.stack ≢ 0
    → u.mapping_base ≢ 0
    → initialize page func base allowed u log ≡ (none, make func u, log)
unfolding initialize
kept_stack page func base allowed u log d e =
    if_true {b = not ((u.stack == 0) || (u.mapping_base == 0))} _ _ (ground (arith, d, e))

-- mprotect refuses the stack of a context that had none, in a mapping that is not at 0 and has room for a
-- page; the mapping is removed and `initialize` throws. A second call then succeeds, whatever the kernel
-- would answer, and maps nothing: the context is on addresses that are not mapped, and the destructor
-- removes the mapping once more.
pub refused_retry :
    (page func base again base' : ℕ) (allowed : Bool) (u : UContext) (m : List (ℕ × ℕ))
    → u.stack ≡ 0
    → 0 < base
    → base + page < 2 ^ 64 - 1
    → let first = initialize page func base false u [] in
      let second = initialize page again base' allowed first.1 first.2 in
      (first.0 ≡ some mprotect_failed)
      × (second.0 ≡ none)
      × (second.1.ss_sp ≡ base + page)
      × (live m second.2 ≡ m)
      × (destroy second.1 second.2 ≡ second.2 ++ unmaps base u.total_size ∷ [])
unfolding destroy
refused_retry page func base again base' allowed u m e z fits =
    let v = mapped page base u in
    let calls = refused_calls page base u in
    let one = refused page func base u e (ground (arith, fits)) in
    let two : initialize page again base' allowed v calls ≡ (none, make again v, calls) =
      kept_stack page again base' allowed v calls (ground (arith, z, fits)) (ground (arith, z)) in
    let gone : live m calls ≡ m =
      ap (unmapped base u.total_size) (if_false {b = base == map_failed} m _ (ground (arith, fits)))
      ∙ if_true {b = (base == base) && (u.total_size == u.total_size)} _ _ (ground arith) in
    subst
      (λ r.
        let s = initialize page again base' allowed r.1 r.2 in
        (r.0 ≡ some mprotect_failed)
        × (s.0 ≡ none)
        × (s.1.ss_sp ≡ base + page)
        × (live m s.2 ≡ m)
        × (destroy s.1 s.2 ≡ s.2 ++ unmaps base u.total_size ∷ []))
      (sym one)
      (subst
        (λ s.
          (some mprotect_failed ≡ some mprotect_failed)
          × (s.0 ≡ none)
          × (s.1.ss_sp ≡ base + page)
          × (live m s.2 ≡ m)
          × (destroy s.1 s.2 ≡ s.2 ++ unmaps base u.total_size ∷ []))
        (sym two)
        (refl, refl, ground (arith, fits), gone, if_false {b = base == 0} _ _ (ground (arith, z))))

-- A context `u` is assigned from `other`, which has a mapping, and both are destroyed: the mapping of
-- `other` is removed with the size that `u` had before, whatever its own size is.
pub assign-destroy :
    (u other : UContext) (log : List KernelCall)
    → other.mapping_base ≢ 0
    → let r = assign u other log in
      destroy r.1 (destroy r.0 r.2) ≡ destroy u log ++ unmaps other.mapping_base u.total_size ∷ []
unfolding assign destroy
assign-destroy u other log d = if_false {b = other.mapping_base == 0} _ _ (ground (arith, d))
