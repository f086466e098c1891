-- ===== src/TaggedPtr.antt =====
-- include/lockfree/tagged_node_ptr.h: a 48-bit address and a 16-bit tag in one 64-bit word, the
-- value that every compare-exchange of the lock-free list and of its free list compares whole.
-- A pointer is its address. On the little-endian targets of the code `tag[3]` is the top quarter
-- of the word, and `& ptr_mask` is `% 2 ^ 48`.
pub mod Laws
pub mod Tests
use fiber_lib.Prelude.{ℕ, ◌+◌, ◌*◌, ◌/◌, ◌%◌, ◌^◌, Bool, ◌==◌}

abbrev pub ptr_bound : ℕ
ptr_bound = 2 ^ 48

abbrev pub tag_bound : ℕ
tag_bound = 2 ^ 16

-- `i & ptr_mask`
unfoldable pub extract_ptr : ℕ → ℕ
extract_ptr i = i % ptr_bound

-- `cu.tag[tag_index]`
unfoldable pub extract_tag : ℕ → ℕ
extract_tag i = i / ptr_bound % tag_bound

-- The address fills the word, then the tag overwrites the top quarter.
unfoldable pub pack_ptr : ℕ → ℕ → ℕ
pack_ptr p t = p % ptr_bound + t % tag_bound * ptr_bound

abbrev pub get_ptr : ℕ → ℕ
get_ptr w = extract_ptr w

abbrev pub get_tag : ℕ → ℕ
get_tag w = extract_tag w

-- `(get_tag() + 1u) & 0xffff`
unfoldable pub get_next_tag : ℕ → ℕ
get_next_tag w = (get_tag w + 1) % tag_bound

unfoldable pub set_ptr : ℕ → ℕ → ℕ
set_ptr w p = pack_ptr p (get_tag w)

unfoldable pub set_tag : ℕ → ℕ → ℕ
set_tag w t = pack_ptr (get_ptr w) t

-- `operator==` compares the packed words.
unfoldable pub same : ℕ → ℕ → Bool
same a b = a == b

-- The word that a compare-exchange installs to move a shared pointer on to `p`.
unfoldable pub advance : ℕ → ℕ → ℕ
advance w p = pack_ptr p (get_next_tag w)
