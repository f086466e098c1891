-- ===== src/TaggedPtr/Laws.antt =====
-- What the packing keeps, what the comparison decides, and how far the tag protects a
-- compare-exchange.
use fiber_lib.Prelude.{ℕ, List, [], ◌∷◌, length, ◌+◌, ◌%◌, ◌^◌, ◌<◌, ◌≡◌, ◌↔◌, true, arith}
use fiber_lib.TaggedPtr.{
  ptr_bound, tag_bound, extract_ptr, extract_tag, pack_ptr, get_ptr, get_tag, get_next_tag, set_ptr,
  set_tag, same, advance,
}

-- An address below 2^48 and a tag below 2^16 come back out of the word that packs them, and the
-- word fits 64 bits.
pub pack_ptr_fields :
    (p t : ℕ)
    → p < ptr_bound
    → t < tag_bound
    → (extract_ptr (pack_ptr p t) ≡ p) × (extract_tag (pack_ptr p t) ≡ t) × (pack_ptr p t < 2 ^ 64)
unfolding extract_ptr extract_tag pack_ptr
pack_ptr_fields p t hp ht = omega arith

-- Two 64-bit words compare equal exactly when they hold the same address and the same tag.
pub same_iff :
    (a b : ℕ)
    → a < 2 ^ 64
    → b < 2 ^ 64
    → (same a b ≡ true) ↔ ((get_ptr a ≡ get_ptr b) × (get_tag a ≡ get_tag b))
unfolding same extract_ptr extract_tag
same_iff a b ha hb = ground arith

-- For an address below 2^48 and a tag below 2^16, `set_ptr` replaces the address and keeps the
-- tag; `set_tag` replaces the tag and keeps the address.
pub setters :
    (w p t : ℕ)
    → p < ptr_bound
    → t < tag_bound
    → (get_ptr (set_ptr w p) ≡ p)
      × (get_tag (set_ptr w p) ≡ get_tag w)
      × (get_ptr (set_tag w t) ≡ get_ptr w)
      × (get_tag (set_tag w t) ≡ t)
unfolding set_ptr set_tag extract_ptr extract_tag pack_ptr
setters w p t hp ht = omega arith

get_tag-lt : (w : ℕ) → get_tag w < tag_bound
unfolding extract_tag
get_tag-lt w = omega arith

-- The word after successful exchanges that install these addresses, in turn.
pub exchanged : ℕ → List ℕ → ℕ
exchanged w [] = w
exchanged w (p ∷ ps) = exchanged (advance w p) ps

advance-lt :
    (w p : ℕ) → (get_tag (advance w p) ≡ (get_tag w + 1) % tag_bound) × (advance w p < 2 ^ 64)
unfolding advance get_next_tag pack_ptr extract_tag
advance-lt w p = omega arith

exchanged_tag :
    (ps : List ℕ) (w : ℕ) → get_tag (exchanged w ps) ≡ (get_tag w + length ps) % tag_bound
unfolding exchanged
exchanged_tag [] w = ground (arith, get_tag-lt w)
exchanged_tag (p ∷ ps) w = omega (arith, exchanged_tag ps (advance w p), (advance-lt w p).0)

exchanged-lt : (ps : List ℕ) (w : ℕ) → w < 2 ^ 64 → exchanged w ps < 2 ^ 64
unfolding exchanged
exchanged-lt [] w h = h
exchanged-lt (p ∷ ps) w h = exchanged-lt ps (advance w p) (advance-lt w p).1

-- A 64-bit word that has gone through exchanges that each install an address with the next tag, whatever
-- the addresses, compares equal to the old word exactly when the address is back and the number of the
-- exchanges is a multiple of 2^16.
pub aba_window :
    (w : ℕ) (ps : List ℕ)
    → w < 2 ^ 64
    → (same w (exchanged w ps) ≡ true)
      ↔ ((get_ptr w ≡ get_ptr (exchanged w ps)) × (length ps % tag_bound ≡ 0))
aba_window w ps h =
    ground
      (arith, same_iff w (exchanged w ps) h (exchanged-lt ps w h), exchanged_tag ps w, get_tag-lt w)
