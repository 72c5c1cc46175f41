-- ===== src/Log/Lines.antt =====
-- The lines that src/kernel/log.c keeps.
use dar_os.Base.{
  ℕ, ◌+◌, ◌<◌, ◌≤◌, ◌^◌, ◌≡◌, ◌≢◌, refl, ap, ap₂, ◌∙◌, sym, ◌==◌, true, false, List, [], ◌∷◌, ◌++◌,
  some, write, length, map, arith, append-nil, append_assoc, length-append,
}
use dar_os.LinkedList.{Node, LinkedList, push_list_tail}
use dar_os.LinkedList.Chain.{mem, last, items}
use dar_os.LinkedList.Contents.{Holds}
use dar_os.LinkedList.Append.{push_list_tail-Holds}
use dar_os.LinkedList.Walk.{for_each_list_item}
use dar_os.LinkedList.Each.{on_all, for_each_list_item-Goes, for_each_new_list_item-Goes}
use dar_os.Strings.Compare.{scopy}
use dar_os.Log.{Log, with_list, log, for_each_log, for_each_new_log}

-- The log's list goes through the nodes `ns`, and its texts are at the addresses `xs`.
pub record Keeps (s : Log) (l : LinkedList) (ns xs : List ℕ) : Type 0 where
  pub list : s.logs ≡ some l
  pub holds : Holds l ns xs

abbrev pub lines : Log → List ℕ → List (List ℕ)
lines s xs = map s.text xs

-- A text written at an address at which there is none of these.
lines-other :
    (text : ℕ → List ℕ) (a : ℕ) (line : List ℕ) (xs : List ℕ)
    → mem a xs ≡ false
    → map (write text a line) xs ≡ map text xs
unfolding mem
lines-other text a line [] out = refl
lines-other text a line (x ∷ xs) out =
    let ne : (x == a) ≡ false = ground arith in
    rw ne (ap (λ ys. text x ∷ ys) (lines-other text a line xs (ground arith)))

map-append : (f : ℕ → List ℕ) (xs ys : List ℕ) → map f (xs ++ ys) ≡ map f xs ++ map f ys
map-append f [] ys = refl
map-append f (x ∷ xs) ys = ap (λ zs. f x ∷ zs) (map-append f xs ys)

-- Logging a line puts its text, up to a null character, behind the others, which stay, if the node and the copy are fresh.
pub log-Keeps :
    (junk : ℕ → Node) (copy node : ℕ) (line : List ℕ) (s : Log) (l : LinkedList) (ns xs : List ℕ)
    → node ≢ 0
    → mem node ns ≡ false
    → mem copy xs ≡ false
    → length ns + 1 < 2 ^ 64
    → Keeps s l ns xs
    → let s' = log junk copy node line s in
      Keeps s' (push_list_tail node copy l) (ns ++ (node ∷ [])) (xs ++ (copy ∷ []))
      × (lines s' (xs ++ (copy ∷ [])) ≡ lines s xs ++ (scopy line ∷ []))
unfolding log with_list
log-Keeps junk copy node line s l ns xs nz out fresh small k =
    let text = write s.text copy (scopy line) in
    let here : (copy == copy) ≡ true = ground arith in
    let new : text copy ≡ scopy line = rw here refl in
    (
      record {
        list = ap (λ o. some (push_list_tail node copy (with_list junk o))) k.list;
        holds = push_list_tail-Holds node copy nz l ns xs out small k.holds;
      },
      map-append text xs (copy ∷ [])
          ∙ ap₂ (λ ys y. ys ++ (y ∷ [])) (lines-other s.text copy (scopy line) xs fresh) new,
    )

on_all-lines :
    (text : ℕ → List ℕ) (xs : List ℕ) (seen : List (List ℕ))
    → on_all (λ a ys. ys ++ (text a ∷ [])) xs seen ≡ seen ++ map text xs
unfolding on_all
on_all-lines text [] seen = sym (append-nil seen)
on_all-lines text (x ∷ xs) seen =
    on_all-lines text xs (seen ++ (text x ∷ [])) ∙ append_assoc seen (text x ∷ []) (map text xs)

-- A walk over the log gets all lines in order, and one that goes on behind the node where an earlier one stopped gets those
-- that have come since.
pub for_each_log-lines :
    (fuel : ℕ) (s : Log) (l : LinkedList) (n : ℕ) (ns ms xs ys : List ℕ)
    → length (n ∷ (ns ++ ms)) ≤ fuel
    → Keeps s l (n ∷ (ns ++ ms)) xs
    → items l.node ms ≡ ys
    → let add : List ℕ → List (List ℕ) → List (List ℕ) = λ line seen. seen ++ (line ∷ []) in
      (for_each_log add fuel s [] ≡ (last n (ns ++ ms), lines s xs))
      × (for_each_new_log add fuel (last n ns) l.node s [] ≡ (last (last n ns) ms, lines s ys))
unfolding for_each_log for_each_new_log last
for_each_log-lines fuel s l n ns ms xs ys le k behind =
    let f : ℕ → List (List ℕ) → List (List ℕ) = λ a seen. seen ++ (s.text a ∷ []) in
    let all = for_each_list_item-Goes f fuel l (n ∷ (ns ++ ms)) [] le k.holds.goes in
    let short : length ms ≤ fuel = omega (arith, le, length-append ns ms) in
    let since = for_each_new_list_item-Goes f fuel l n ns ms [] short k.holds.goes in
    let nodes = n ∷ (ns ++ ms) in
    (
      ap (λ o. for_each_list_item f fuel o []) k.list
          ∙ all
          ∙ ap (λ zs. (last n (ns ++ ms), zs))
              (on_all-lines s.text (items l.node nodes) [] ∙ ap (map s.text) k.holds.contents),
      since
          ∙ ap (λ zs. (last (last n ns) ms, zs))
              (on_all-lines s.text (items l.node ms) [] ∙ ap (map s.text) behind),
    )
