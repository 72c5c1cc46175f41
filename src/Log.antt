-- ===== src/Log.antt =====
-- The kernel's log, src/kernel/log.c: a list of lines, each of which is printed to a terminal too.
pub mod Lines
use dar_os.Base.{ℕ, List, Option, none, some, write}
use dar_os.LinkedList.{Node, LinkedList, new_list, push_list_tail}
use dar_os.LinkedList.Walk.{for_each_list_item, for_each_new_list_item}
use dar_os.Strings.Compare.{scopy}
use dar_os.Console.Screen.{Console, logs_term}
use dar_os.Console.Print.{print_color_to}

-- `logs`, none until something is logged; the text at each address; and the console.
pub record Log : Type 0 where
  pub logs : Option LinkedList
  pub text : ℕ → List ℕ
  pub console : Console

-- `if (!logs) logs = newList();`.
unfoldable pub with_list : (junk : ℕ → Node) → Option LinkedList → LinkedList
with_list junk none = new_list junk
with_list junk (some l) = l

-- The addresses of the copy of the line and of the new node are arguments.
unfoldable pub log : (junk : ℕ → Node) (copy node : ℕ) (line : List ℕ) → Log → Log
log junk copy node line s = record {
  logs = some (push_list_tail node copy (with_list junk s.logs));
  text = write s.text copy (scopy line);
  console = print_color_to logs_term line 0x07 s.console;
}

-- `f` acts on a state of any type.
module _ {ℓ} {S : Type ℓ} (f : List ℕ → S → S) where
  unfoldable pub for_each_log : (fuel : ℕ) → Log → S → ℕ × S
  for_each_log fuel l s = for_each_list_item (λ a. f (l.text a)) fuel l.logs s

  -- A node is found whatever list it is in.
  unfoldable pub for_each_new_log : (fuel last : ℕ) (node : ℕ → Node) → Log → S → ℕ × S
  for_each_new_log fuel last node l s = for_each_new_list_item (λ a. f (l.text a)) fuel last node s
