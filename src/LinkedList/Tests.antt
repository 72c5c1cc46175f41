-- ===== src/LinkedList/Tests.antt =====
-- Runs of src/lib/list.c, and the theorems about it at concrete lists.
use dar_os.Base.{ℕ, ◌≡◌, ◌≢◌, refl, false, List, [], ◌∷◌, ◌==◌, arith, nth_or}
use dar_os.LinkedList.{Node, LinkedList, remove_from_list_with_equality}
use dar_os.LinkedList.Chain.{first, last, mem, Linked, Goes, items}
use dar_os.LinkedList.Contents.{Holds}
use dar_os.LinkedList.Reject.{Rejected, remove_from_list_with_equality-reject}

abbrev made : (item next prev : ℕ) → Node
made item next prev = record { item = item; next = next; prev = prev }

-- Nodes 5, 6 and 7 in this order, with the items 1, 2 and 1.
abbrev three : LinkedList
three = record {
  node =
      nth_or
        (made 0 0 0
          ∷ made 0 0 0
          ∷ made 0 0 0
          ∷ made 0 0 0
          ∷ made 0 0 0
          ∷ made 1 6 0
          ∷ made 2 7 5
          ∷ made 1 0 6
          ∷ [])
        (made 0 0 0);
  head = 5;
  tail = 7;
  len = 3;
}

abbrev nodes : List ℕ
nodes = 5 ∷ 6 ∷ 7 ∷ []

three-Goes : Goes three nodes
unfolding Linked first last mem
three-Goes = record {
  linked = (
    λ e. absurd (omega arith),
    refl,
    refl,
    refl,
    (
      λ e. absurd (omega arith),
      refl,
      refl,
      refl,
      (λ e. absurd (omega arith), refl, refl, refl, tt),
    ),
  );
  head = refl;
  tail = refl;
}

three-Holds : Holds three nodes (1 ∷ 2 ∷ 1 ∷ [])
unfolding items
three-Holds = record { goes = three-Goes; contents = refl; counted = refl }

abbrev nine : ℕ
nine = 9

nine_ne : nine ≢ 0
nine_ne e = absurd (omega arith)

nine_out : mem 9 nodes ≡ false
unfolding mem
nine_out = refl

remove_from_list_with_equality-reject_example :
    Rejected (λ x. x == 1) three nodes (remove_from_list_with_equality 3 (λ x. x == 1) three)
remove_from_list_with_equality-reject_example =
    remove_from_list_with_equality-reject 3 (λ x. x == 1) three nodes (omega arith) three-Goes
