-- ===== src/LinkedList.antt =====
-- src/lib/list.c, the doubly linked list, over a store of nodes.
--
-- The store is a function from address to node; 0 is the null pointer. A node's address comes from the
-- allocator, so pushing takes it as an argument. `free` of src/lib/malloc.c changes nothing in the
-- memory it gives back, so that the store keeps a freed node's fields, which the source reads once more.
pub mod Chain
pub mod Contents
pub mod Push
pub mod Append
pub mod Pop
pub mod Unlink
pub mod Remove
pub mod Reject
pub mod Walk
pub mod Each
pub mod Once
pub mod Find
pub mod Circle
mod Tests
use dar_os.Base.{ℕ, zero, suc, add64, sub64, ◌==◌, Bool, if◌then◌else◌, write}

pub record Node : Type 0 where
  pub item : ℕ
  pub next : ℕ
  pub prev : ℕ

pub record LinkedList : Type 0 where
  pub node : ℕ → Node
  pub head : ℕ
  pub tail : ℕ
  pub len : ℕ

unfoldable pub new_list : (junk : ℕ → Node) → LinkedList
new_list junk = record { node = junk; head = 0; tail = 0; len = 0 }

unfoldable pub set_next : ℕ → ℕ → (ℕ → Node) → ℕ → Node
set_next n v node = write node n (record (node n) { next = v })

unfoldable pub set_prev : ℕ → ℕ → (ℕ → Node) → ℕ → Node
set_prev n v node = write node n (record (node n) { prev = v })

-- The item popped, 0 if there is none, and the list.
unfoldable pub pop_list_head : LinkedList → ℕ × LinkedList
pop_list_head l =
    let next = (l.node l.head).next in
    if l.head == 0 then (0, l) else (
      (l.node l.head).item,
      record l {
        len = sub64 l.len 1;
        head = next;
        node = if next == 0 then l.node else set_prev next 0 l.node;
        tail = if next == 0 then 0 else l.tail;
      },
    )

-- `n` is the address of the new node.
unfoldable pub push_list_head : (n item : ℕ) → LinkedList → LinkedList
push_list_head n item l =
    let node = write l.node n (record { item = item; next = l.head; prev = 0 }) in
    record {
      len = add64 l.len 1;
      node = if l.head == 0 then node else set_prev l.head n node;
      tail = if l.head == 0 then n else l.tail;
      head = n;
    }

unfoldable pub push_list_tail : (n item : ℕ) → LinkedList → LinkedList
push_list_tail n item l =
    let node = write l.node n (record { item = item; next = 0; prev = l.tail }) in
    record {
      len = add64 l.len 1;
      node = if l.tail == 0 then node else set_next l.tail n node;
      head = if l.tail == 0 then n else l.head;
      tail = n;
    }

unfoldable pub remove_node_from_list : ℕ → LinkedList → LinkedList
remove_node_from_list n l =
    let m = l.node n in
    let node = if m.prev == 0 then l.node else set_next m.prev m.next l.node in
    let next = (node n).next in
    let node' = if next == 0 then node else set_prev next (node n).prev node in
    record l {
      node = node';
      head = if n == l.head then (node' n).next else l.head;
      tail = if n == l.tail then (node' n).prev else l.tail;
    }

-- The loop over the nodes from `cur` on, in at most `fuel` rounds, with enough where `fuel` is the number
-- of nodes. It reads the next node of one that it has just freed.
unfoldable pub remove_matching : (fuel : ℕ) (equals : ℕ → Bool) (cur : ℕ) → LinkedList → LinkedList
remove_matching zero equals cur l = l
remove_matching (suc fuel) equals cur l =
    let l' = if equals (l.node cur).item then remove_node_from_list cur l else l in
    let rest = remove_matching fuel equals (l'.node cur).next l' in if cur == 0 then l else rest

unfoldable pub remove_from_list_with_equality :
    (fuel : ℕ) (equals : ℕ → Bool) → LinkedList → LinkedList
remove_from_list_with_equality fuel equals l =
    if l.head == 0 then l else remove_matching fuel equals l.head (record l { len = sub64 l.len 1 })

unfoldable pub remove_from_list : (fuel item : ℕ) → LinkedList → LinkedList
remove_from_list fuel item l = remove_from_list_with_equality fuel (λ other. other == item) l

-- The first node from `cur` on whose item matches, 0 if there is none.
unfoldable pub get_node : (fuel : ℕ) (matches : ℕ → Bool) (cur : ℕ) → LinkedList → ℕ
get_node zero matches cur l = 0
get_node (suc fuel) matches cur l =
    let rest = get_node fuel matches (l.node cur).next l in
    if cur == 0 then 0 else if matches (l.node cur).item then cur else rest

unfoldable pub get_node_by_condition : (fuel : ℕ) (matches : ℕ → Bool) → LinkedList → ℕ
get_node_by_condition fuel matches l = get_node fuel matches l.head l
