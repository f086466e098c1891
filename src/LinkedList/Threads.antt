-- ===== src/LinkedList/Threads.antt =====
-- include/lockfree/lockfree_linked_list.h: `push_back_lockfree` and `pop_front_lockfree` by any number
-- of threads, at the grain of atomic accesses. Each turn of a thread is its next access; what it has
-- read so far stands in its place. `pushed` has the values in the order in which their nodes are
-- linked, and `popped` those that pops have read. A push takes
-- any node that no push has taken, or that has been destroyed since; a node taken again is built anew.
pub mod Chain
pub mod Inv
pub mod Push
pub mod Pop
pub mod Fifo
pub mod Tests
use fiber_lib.Prelude.{
  ℕ, ◌+◌, ◌-◌, ◌%◌, ◌^◌, Bool, true, false, not, ◌&&◌, Option, none, some, List, [], ◌∷◌, ◌++◌,
  ◌==◌, ltb, if◌then◌else◌, update, count,
}
use fiber_lib.FreeList.{Handle, same_handle}
use fiber_lib.LinkedList.{next_handle, null_handle}

-- A node; after `destruct` its content is `none`.
pub record Cell : Type 0 where
  pub content : Option ℕ
  pub next : Handle

-- Where a thread is in `push_back_lockfree` with its node and value, or in `pop_front_lockfree`; each
-- place is named for what the thread has done last.
pub data Place : Type 0 where
  idle : Place
  built : (n v : ℕ) → Place
  saw_tail : (n v : ℕ) → (tail : Handle) → Place
  saw_next : (n v : ℕ) → (tail next : Handle) → Place
  checked : (n v : ℕ) → (tail next : Handle) → Place
  linked : (n : ℕ) → (tail : Handle) → Place
  counted : (n : ℕ) → (tail : Handle) → Place
  popping : Place
  pop_head : (head : Handle) → Place
  pop_tail : (head tail : Handle) → Place
  pop_next : (head tail next : Handle) → Place
  pop_checked : (head tail next : Handle) → Place
  pop_moved : (head next : Handle) → Place
  pop_counted : (head next : Handle) → Place
  pop_read : (head : Handle) → Place

pub record Shared : Type 0 where
  pub head : Handle
  pub tail : Handle
  pub nodes : ℕ → Cell
  pub size : ℕ
  pub places : ℕ → Place
  pub pushed : List (Option ℕ)
  pub popped : List (Option ℕ)
  pub used : ℕ → Bool  -- the nodes that are constructed and not destroyed

abbrev pub put : ℕ → Place → Shared → Shared
put i p s = record s { places = update s.places i p }

-- The start of a push: `construct` on a node.
unfoldable pub start_push : ℕ → ℕ → ℕ → Place → Shared → Shared
start_push i n v idle s =
    if ltb 0 n && not (s.used n)
    then put i (built n v) (record s {
      nodes = update s.nodes n (record { content = some v; next = null_handle });
      used = update s.used n true;
    })
    else s
start_push i n v _ s = s

unfoldable pub start_pop : ℕ → Place → Shared → Shared
start_pop i idle s = put i popping s
start_pop i _ s = s

-- `tail_.compare_exchange_weak`, with the tail that was read, and a new pointer.
abbrev pub swing : Bool → Handle → ℕ → Shared → Shared
swing fails old p s =
    if same_handle s.tail old && not fails then record s { tail = next_handle p old } else s

-- The exchange on `next` of the tail, after which the thread counts or starts again.
abbrev pub link_cell : ℕ → ℕ → ℕ → Handle → Handle → Shared → Shared
link_cell i n v t x s = put i (linked n t) (record s {
  nodes = update s.nodes t.ptr (record (s.nodes t.ptr) { next = next_handle n x });
  pushed = s.pushed ++ some v ∷ [];
})

unfoldable pub try_link : ℕ → Bool → ℕ → ℕ → Handle → Handle → Shared → Shared
try_link i fails n v t x s =
    if same_handle (s.nodes t.ptr).next x && not fails
    then link_cell i n v t x s
    else put i (built n v) s

-- The exchange on the head.
abbrev pub move_head : ℕ → Handle → Handle → Shared → Shared
move_head i h x s = put i (pop_moved h x) (record s { head = next_handle x.ptr h })

unfoldable pub try_move : ℕ → Bool → Handle → Handle → Shared → Shared
try_move i fails h x s =
    if same_handle s.head h && not fails then move_head i h x s else put i popping s

-- What a pop does behind its check of the head.
unfoldable pub decide : ℕ → Bool → Handle → Handle → Handle → Shared → Shared
unfolding try_move
decide i fails h t x s =
    if (h.ptr == t.ptr) && (x.ptr == 0)
    then put i idle s
    else if h.ptr == t.ptr
    then put i popping (swing fails t x.ptr s)
    else try_move i fails h x s

-- `fails` is that an exchange fails for no reason.
unfoldable pub advance : ℕ → Bool → Place → Shared → Shared
unfolding try_link decide
advance i fails idle s = s
advance i fails (built n v) s = put i (saw_tail n v s.tail) s
advance i fails (saw_tail n v t) s = put i (saw_next n v t (s.nodes t.ptr).next) s
advance i fails (saw_next n v t x) s =
    put i (if same_handle t s.tail then checked n v t x else built n v) s
advance i fails (checked n v t x) s =
    if x.ptr == 0 then try_link i fails n v t x s else put i (built n v) (swing fails t x.ptr s)
advance i fails (linked n t) s = put i (counted n t) (record s { size = (s.size + 1) % 2 ^ 64 })
advance i fails (counted n t) s = put i idle (swing fails t n s)
advance i fails popping s = put i (pop_head s.head) s
advance i fails (pop_head h) s = put i (pop_tail h s.tail) s
advance i fails (pop_tail h t) s = put i (pop_next h t (s.nodes h.ptr).next) s
advance i fails (pop_next h t x) s =
    put i (if same_handle h s.head then pop_checked h t x else popping) s
advance i fails (pop_checked h t x) s = decide i fails h t x s
advance i fails (pop_moved h x) s =
    put i (pop_counted h x) (record s { size = (s.size + (2 ^ 64 - 1)) % 2 ^ 64 })
advance i fails (pop_counted h x) s =
    put i (pop_read h) (record s { popped = s.popped ++ (s.nodes x.ptr).content ∷ [] })
advance i fails (pop_read h) s = put i idle (record s {
  nodes = update s.nodes h.ptr (record (s.nodes h.ptr) { content = none });
  used = update s.used h.ptr false;
})

pub data Turn : Type 0 where
  pushes : (i n v : ℕ) → Turn
  pops : (i : ℕ) → Turn
  advances : (i : ℕ) → (fails : Bool) → Turn

unfoldable pub turn : Turn → Shared → Shared
unfolding start_push start_pop advance
turn (pushes i n v) s = start_push i n v (s.places i) s
turn (pops i) s = start_pop i (s.places i) s
turn (advances i fails) s = advance i fails (s.places i) s

unfoldable pub run : List Turn → Shared → Shared
unfolding turn
run [] s = s
run (t ∷ ts) s = run ts (turn t s)

-- The constructor: a dummy node, whose content is never read, and no thread inside.
abbrev pub new_list : ℕ → Option ℕ → Shared
new_list dummy c = record {
  head = record { ptr = dummy; tag = 0 };
  tail = record { ptr = dummy; tag = 0 };
  nodes = λ a. record { content = c; next = null_handle };
  size = 0;
  places = λ i. idle;
  pushed = [];
  popped = [];
  used = λ n. n == dummy;
}
