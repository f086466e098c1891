-- ===== src/TaggedPtr/Tests.antt =====
-- Words of tagged_node_ptr.h at concrete addresses.
use fiber_lib.Prelude.{ℕ, [], ◌∷◌, ◌+◌, ◌*◌, ◌%◌, ◌^◌, ◌≡◌, ◌↔◌, refl, true, false, arith}
use fiber_lib.TaggedPtr.{extract_ptr, extract_tag, pack_ptr, get_ptr, get_next_tag, same}
use fiber_lib.TaggedPtr.Laws.{exchanged, aba_window}

abbrev address : ℕ
address = 4096

-- The same address with the last tag.
abbrev last_word : ℕ
last_word = 65535 * 2 ^ 48 + 4096

next_tag-wraps : get_next_tag last_word ≡ 0
unfolding get_next_tag extract_tag
next_tag-wraps = refl

pack_ptr-last : pack_ptr address 65535 ≡ last_word
unfolding pack_ptr
pack_ptr-last = refl

same-differs : same last_word address ≡ false
unfolding same
same-differs = refl

get_ptr-last_word : get_ptr last_word ≡ address
unfolding extract_ptr
get_ptr-last_word = refl

aba_window_example : (same last_word (exchanged last_word (64 ∷ 128 ∷ address ∷ [])) ≡ true) ↔ (
    (get_ptr last_word ≡ get_ptr (exchanged last_word (64 ∷ 128 ∷ address ∷ [])))
    × (3 % 2 ^ 16 ≡ 0))
aba_window_example = aba_window last_word (64 ∷ 128 ∷ address ∷ []) (omega arith)
