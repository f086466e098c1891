-- ===== src/IoManager/Epoll.antt =====
-- What the code relies on in `epoll_ctl`, as its manual states it.
use fiber_lib.Prelude.{ℕ, ◌≡◌, ◌≢◌, Bool, true, ◌&&◌, Option, none, some, ◌==◌, if◌then◌else◌}
use fiber_lib.IoManager.{Interest, Ctl, ctl_add, ctl_mod, ctl_del}

-- The entry of a descriptor after a call that succeeds.
abbrev pub entry : Ctl → Option Interest
entry (ctl_add edge e) = some e
entry (ctl_mod edge e) = some e
entry ctl_del = none

module _ {K : Type 0} (epoll_ctl : ℕ → Ctl → K → Bool × K)
    (registered : K → ℕ → Option Interest) where
  -- A call that succeeds changes the entry of its descriptor and no other; a call that fails changes
  -- nothing. EPOLL_CTL_ADD fails on a descriptor with an entry (EEXIST), the others on one without
  -- (ENOENT).
  pub record Documented : Type 0 where
    pub entries :
        (fd : ℕ) (c : Ctl) (k : K) (g : ℕ)
        → registered (epoll_ctl fd c k).1 g
          ≡ (if (epoll_ctl fd c k).0 && (fd == g) then entry c else registered k g)
    pub add_new :
        (fd : ℕ) (edge : Bool) (e : Interest) (k : K)
        → (epoll_ctl fd (ctl_add edge e) k).0 ≡ true
        → registered k fd ≡ none
    pub mod_old :
        (fd : ℕ) (edge : Bool) (e : Interest) (k : K)
        → (epoll_ctl fd (ctl_mod edge e) k).0 ≡ true
        → registered k fd ≢ none
    pub del_old : (fd : ℕ) (k : K) → (epoll_ctl fd ctl_del k).0 ≡ true → registered k fd ≢ none
