-- ===== src/LinkedList/Elem.antt =====
-- lib/kernel/list.c: the elements in memory, what they are, and the steps from one to the next.
use juntos.Prelude.{ℕ, ◌+◌, Bool, not, ◌&&◌, ◌||◌, Option, some, ◌==◌, assert, ◌>>◌, update}

-- The fields of the struct list_elem at each address. Two of them never overlap in part.
pub record Mem : Type 0 where
  pub prev : ℕ → ℕ
  pub next : ℕ → ℕ

abbrev pub null : ℕ
null = 0

abbrev pub set_prev : (elem to : ℕ) → Mem → Mem
set_prev elem to m = record m { prev = update m.prev elem to }

abbrev pub set_next : (elem to : ℕ) → Mem → Mem
set_next elem to m = record m { next = update m.next elem to }

-- &list->head and &list->tail of the struct list at `list`
abbrev pub head_of : ℕ → ℕ
head_of list = list

abbrev pub tail_of : ℕ → ℕ
tail_of list = list + 16

abbrev pub is_head : ℕ → Mem → Bool
is_head elem m = not (elem == null) && ((m.prev elem == null) && not (m.next elem == null))

abbrev pub is_interior : ℕ → Mem → Bool
is_interior elem m = not (elem == null) && (not (m.prev elem == null) && not (m.next elem == null))

abbrev pub is_tail : ℕ → Mem → Bool
is_tail elem m = not (elem == null) && (not (m.prev elem == null) && (m.next elem == null))

unfoldable pub list_init : ℕ → Mem → Option Mem
list_init list m = do
  assert (not (list == null))
  some (
      set_next (tail_of list) null (
        set_prev (tail_of list) (head_of list)
          (set_next (head_of list) (tail_of list) (set_prev (head_of list) null m))))

unfoldable pub list_begin : ℕ → Mem → Option ℕ
list_begin list m = do assert (not (list == null)); some (m.next (head_of list))

unfoldable pub list_next : ℕ → Mem → Option ℕ
list_next elem m = do assert (is_head elem m || is_interior elem m); some (m.next elem)

unfoldable pub list_end : ℕ → Option ℕ
list_end list = do assert (not (list == null)); some (tail_of list)

unfoldable pub list_rbegin : ℕ → Mem → Option ℕ
list_rbegin list m = do assert (not (list == null)); some (m.prev (tail_of list))

unfoldable pub list_prev : ℕ → Mem → Option ℕ
list_prev elem m = do assert (is_interior elem m || is_tail elem m); some (m.prev elem)

unfoldable pub list_rend : ℕ → Option ℕ
list_rend list = do assert (not (list == null)); some (head_of list)

unfoldable pub list_head : ℕ → Option ℕ
list_head list = do assert (not (list == null)); some (head_of list)

unfoldable pub list_tail : ℕ → Option ℕ
list_tail list = do assert (not (list == null)); some (tail_of list)
