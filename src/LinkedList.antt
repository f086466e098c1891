-- ===== src/LinkedList.antt =====
-- include/lockfree/lockfree_linked_list.h: the queue of nodes under the wait queues and the consumers.
-- A call runs while no other thread is inside, but each `compare_exchange_weak` may fail for no reason,
-- so that the tail can lag behind and the loops turn. A node is its address, 0 is the null pointer, and
-- the address that `construct` gets from the free list (FreeList) is an argument of `push_back`. The
-- loops have fuel; `fails` says of each exchange in turn whether it fails, and then none does. Threads has
-- the same calls by several threads.
pub mod Chain
pub mod Refine
pub mod Threads
pub mod Tests
use fiber_lib.Prelude.{
  ℕ, zero, suc, ◌+◌, ◌-◌, ◌%◌, ◌^◌, Bool, true, false, ◌&&◌, not, Option, none, some, List, [], ◌∷◌,
  ◌==◌, if◌then◌else◌, update,
}
use fiber_lib.FreeList.{Handle}

pub record Node : Type 0 where
  pub data_of : ℕ
  pub next : Handle

pub record Queue : Type 0 where
  pub head : Handle
  pub tail : Handle
  pub nodes : ℕ → Node
  pub size : ℕ

-- A handle with the tag after that of `old`.
abbrev pub next_handle : ℕ → Handle → Handle
next_handle p old = record { ptr = p; tag = (old.tag + 1) % 2 ^ 16 }

abbrev pub null_handle : Handle
null_handle = record { ptr = 0; tag = 0 }

-- The constructor: a dummy node.
abbrev pub new_queue : ℕ → (ℕ → Node) → Queue
new_queue dummy nodes = record {
  head = record { ptr = dummy; tag = 0 };
  tail = record { ptr = dummy; tag = 0 };
  nodes = update nodes dummy (record { data_of = 0; next = null_handle });
  size = 0;
}

abbrev pub empty : Queue → Bool
empty q = q.head.ptr == q.tail.ptr

-- `construct`: the data, and a null pointer with tag 0.
abbrev pub construct : ℕ → ℕ → Queue → Queue
construct n v q = record q { nodes = update q.nodes n (record { data_of = v; next = null_handle }) }

-- `tail_.compare_exchange_weak`.
abbrev pub step_tail : Bool → ℕ → Queue → Queue
step_tail fails p q = if fails then q else record q { tail = next_handle p q.tail }

abbrev pub first_fails : List Bool → Bool
first_fails [] = false
first_fails (b ∷ bs) = b

abbrev pub later_fails : List Bool → List Bool
later_fails [] = []
later_fails (b ∷ bs) = bs

-- The exchange of `tail_ptr->next` that succeeds.
abbrev pub link_node : ℕ → Queue → Queue
link_node n q = record q {
  nodes =
      update q.nodes q.tail.ptr
        (record (q.nodes q.tail.ptr) { next = next_handle n (q.nodes q.tail.ptr).next });
  size = q.size + 1;
}

-- The loop of `push_back_lockfree`; `none` is that the fuel is used up.
unfoldable pub push_loop : (fuel : ℕ) → List Bool → ℕ → Queue → Option Queue
push_loop zero fails n q = none
push_loop (suc k) fails n q =
    let next_ptr = (q.nodes q.tail.ptr).next.ptr in
    let lagged = push_loop k (later_fails fails) n (step_tail (first_fails fails) next_ptr q) in
    let again = push_loop k (later_fails fails) n q in
    if not (next_ptr == 0)
    then lagged
    else if first_fails fails
    then again
    else some (step_tail (first_fails (later_fails fails)) n (link_node n q))

unfoldable pub push_back : (fuel : ℕ) → List Bool → ℕ → ℕ → Queue → Option Queue
unfolding push_loop
push_back fuel fails n v q = push_loop fuel fails n (construct n v q)

-- `pop_front_lockfree`, with the value or the empty optional.
unfoldable pub pop_front : (fuel : ℕ) → List Bool → Queue → Option (Option ℕ × Queue)
pop_front zero fails q = none
pop_front (suc k) fails q =
    let next_ptr = (q.nodes q.head.ptr).next.ptr in
    let lagged = pop_front k (later_fails fails) (step_tail (first_fails fails) next_ptr q) in
    let again = pop_front k (later_fails fails) q in
    if (q.head.ptr == q.tail.ptr) && (next_ptr == 0)
    then some (none, q)
    else if q.head.ptr == q.tail.ptr
    then lagged
    else if first_fails fails
    then again
    else some (
      some (q.nodes next_ptr).data_of,
      record q { head = next_handle next_ptr q.head; size = q.size - 1 },
    )
