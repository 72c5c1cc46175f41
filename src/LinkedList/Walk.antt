-- ===== src/LinkedList/Walk.antt =====
-- Looking at a list of src/lib/list.c without changing it, and giving it up. A list that may be the null pointer
-- is an option.
use dar_os.Base.{ℕ, zero, suc, ◌==◌, if◌then◌else◌, Option, none, some, List, [], ◌∷◌, ◌++◌}
use dar_os.LinkedList.{Node, LinkedList}

unfoldable pub list_len : Option LinkedList → ℕ
list_len none = 0
list_len (some l) = l.len

unfoldable pub list_head : Option LinkedList → ℕ
list_head none = 0
list_head (some l) = l.head

unfoldable pub list_tail : Option LinkedList → ℕ
list_tail none = 0
list_tail (some l) = l.tail

unfoldable pub next_node : (ℕ → Node) → ℕ → ℕ
next_node node n = if n == 0 then 0 else (node n).next

unfoldable pub prev_node : (ℕ → Node) → ℕ → ℕ
prev_node node n = if n == 0 then 0 else (node n).prev

unfoldable pub list_item : (ℕ → Node) → ℕ → ℕ
list_item node n = if n == 0 then 0 else (node n).item

-- The node after `n`, or the list's first if `n` is its last.
unfoldable pub next_node_circ : Option LinkedList → ℕ → ℕ
next_node_circ none n = 0
next_node_circ (some l) n =
    let next = (l.node n).next in if n == 0 then 0 else if next == 0 then l.head else next

module _ {ℓ} {S : Type ℓ} (f : ℕ → S → S) where
  -- `forEachLI` over a state that the function given changes: the last node gone through, and the state.
  -- At most `fuel` nodes, with enough where that is the number of nodes left.
  unfoldable pub for_each_li : (fuel last n : ℕ) → (ℕ → Node) → S → ℕ × S
  for_each_li zero last n node s = (last, s)
  for_each_li (suc fuel) last n node s =
      let rest = for_each_li fuel n (node n).next node (f (node n).item s) in
      if n == 0 then (last, s) else rest

  unfoldable pub for_each_list_item : (fuel : ℕ) → Option LinkedList → S → ℕ × S
  for_each_list_item fuel none s = (0, s)
  for_each_list_item fuel (some l) s =
      if l.head == 0 then (0, s) else for_each_li fuel 0 l.head l.node s

  -- Goes on behind the node `last`, where an earlier walk stopped.
  unfoldable pub for_each_new_list_item : (fuel last : ℕ) → (ℕ → Node) → S → ℕ × S
  for_each_new_list_item fuel last node s =
      let (ret, s') = for_each_li fuel 0 (node last).next node s in
      if last == 0 then (0, s) else (if ret == 0 then last else ret, s')

-- What `destroyList` gives to `free`: each item and node from the head on, then the list.
unfoldable pub destroy_nodes : (fuel n : ℕ) → (ℕ → Node) → List ℕ
destroy_nodes zero n node = []
destroy_nodes (suc fuel) n node =
    let rest = destroy_nodes fuel (node n).next node in
    if n == 0 then [] else (node n).item ∷ n ∷ rest

unfoldable pub destroy_list : (fuel address : ℕ) → LinkedList → List ℕ
destroy_list fuel address l =
    if address == 0 then [] else destroy_nodes fuel l.head l.node ++ (address ∷ [])
