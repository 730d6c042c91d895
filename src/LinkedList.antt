-- ===== src/LinkedList.antt =====
-- src/modules/data_structs/LinkedList.c: a doubly linked list with its length.
pub mod Add
mod Examples
pub mod Get
pub mod Remove
pub mod Seg
use fantom_os.Base.{
  ℕ, zero, suc, ◌+◌, ◌-◌, ◌^◌, Bool, true, false, ◌&&◌, Option, none, some, ltb, leb, ◌==◌,
  if◌then◌else◌, null, u32, sub_u32,
}
use fantom_os.NodeHeap.{
  Ptr, Heap, Cmd, ListNode, node, pure, ◌>>=◌, ◌>>◌, load, set_next, set_prev, free, write,
}

-- `LinkedList`. Its own cell is never shared between two lists, so a function that updates one
-- returns the new value.
pub record LinkedList : Type 0 where
  pub items : ℕ
  pub front : Ptr
  pub back : Ptr

abbrev pub create : LinkedList
create = record { items = 0; front = null; back = null }

-- The loop frees `items` nodes from the front on; `free(list)` ends the list's own life.
unfoldable pub destroy_from : ℕ → Ptr → Cmd (Unit {0})
destroy_from zero curr = pure tt
destroy_from (suc n) curr = do c ← load curr; free curr; destroy_from n c.next_node

unfoldable pub destroy : LinkedList → Cmd (Unit {0})
destroy l = destroy_from l.items l.front

-- `item` is what `calloc` returned: a cell of zeros, whose fields are then set.
unfoldable pub add_node : Ptr → LinkedList → ℕ → Cmd LinkedList
add_node item l d = do
  (λ h. some (tt, write h item (some (node d null null))))
  (if l.items == 0 then pure tt else (do set_prev item l.back; set_next l.back item))
  pure (record {
    items = u32 (l.items + 1);
    front = if l.items == 0 then item else l.front;
    back = item;
  })

-- The four ways to take a node out of the chain, as the source tells them apart.
unfoldable pub unlink : LinkedList → Ptr → Cmd LinkedList
unlink l item =
    if item == l.front && item == l.back
    then pure (record l { front = null; back = null })
    else if item == l.front
    then (do n ← load item; set_prev n.next_node null; pure (record l { front = n.next_node }))
    else if item == l.back
    then (do n ← load item; set_next n.prev_node null; pure (record l { back = n.prev_node }))
    else (do
      n ← load item
      set_prev n.next_node n.prev_node
      set_next n.prev_node n.next_node
      pure l)

-- The value returned is the node's data; `items--` wraps.
unfoldable pub remove_node : LinkedList → Ptr → Cmd (ℕ × LinkedList)
remove_node l item = do
  l' ← unlink l item
  n ← load item
  free item
  pure (n.payload, record l' { items = sub_u32 l.items 1 })

-- The loop, with `n` rounds left from the node `item`, which is number `i`.
unfoldable pub walk_to : ℕ → ℕ → ℕ → Ptr → Cmd Ptr
walk_to index zero i item = pure null
walk_to index (suc n) i item =
    let rest : Cmd Ptr = (do c ← load item; walk_to index n (i + 1) c.next_node) in
    if i == index then pure item else rest

unfoldable pub get_node_by_index : LinkedList → ℕ → Cmd Ptr
get_node_by_index l index = if leb l.items index then pure null else walk_to index l.items 0 l.front

-- `while (item != NULL)`, on fuel
unfoldable pub search_for : ℕ → ℕ → Ptr → Cmd Ptr
search_for d zero item = λ h. none
search_for d (suc n) item =
    let rest : Cmd Ptr = (do
      c ← load item
      let later : Cmd Ptr = search_for d n c.next_node
      if c.payload == d then pure item else later) in
    if item == null then pure null else rest

unfoldable pub get_node_by_data : LinkedList → ℕ → Cmd Ptr
get_node_by_data l d = search_for d (l.items + 1) l.front
