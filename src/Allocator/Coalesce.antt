-- ===== src/Allocator/Coalesce.antt =====
-- `my_coalesce` and `coalesce_all` of hw5/mem.c.
use opearting_system.Base.{ℕ, zero, suc, not, ◌&&◌, ◌==◌, if◌then◌else◌}
use opearting_system.Base.Int.{ℤ, ◌+ℤ◌}
use opearting_system.Allocator.State.{
  Ptr, null, free, out_of_fuel, Cmd, pure, ◌>>=◌, ◌>>◌, get, the_head, load, set_next, set_prev,
  set_next_free, set_largest, set_second_largest, set_last_block_size,
}
use opearting_system.Allocator.Blocks.{get_block_size}

-- if (largest != NULL && p == largest) largest = NULL; else if (… second_largest) …
unfoldable pub forget : Ptr → Cmd (Unit {0})
forget p = do
  g ← get
  if not (g.largest == null) && p == g.largest
      then set_largest null
      else if not (g.second_largest == null) && p == g.second_largest
      then set_second_largest null
      else pure tt

-- The free block `q` behind `p` becomes part of `p`.
unfoldable pub absorb_next : (p q : Ptr) → Cmd (Unit {0})
unfolding load set_next set_prev set_next_free
absorb_next p q = do
  m ← load q
  set_next_free p m.next_free
  m ← load q
  set_next p m.next
  n ← load p
  if n.next == null then pure tt else set_prev n.next p
  forget n.next

unfoldable pub merge_next : Ptr → Cmd (Unit {0})
unfolding load
merge_next p = do
  n ← load p
  if n.next == null
      then pure tt
      else do m ← load n.next; if m.status == free then absorb_next p n.next else pure tt

-- `p` becomes part of the free block `q` before it.
unfoldable pub absorb_into : (p q : Ptr) → ℤ → Cmd Ptr
unfolding load set_next set_prev set_next_free
absorb_into p q size_before = do
  n ← load p
  set_next_free q n.next_free
  set_next q n.next
  if n.next == null then pure tt else set_prev n.next q
  forget q
  m ← load q
  g ← get
  if m.next == null then set_last_block_size (g.last_block_size +ℤ size_before) else pure tt
  pure q

unfoldable pub merge_prev : Ptr → Cmd Ptr
unfolding load get_block_size
merge_prev p = do
  n ← load p
  size_before ← get_block_size n.prev
  if n.prev == null
      then pure p
      else do m ← load n.prev; if m.status == free then absorb_into p n.prev size_before else pure p

-- `my_coalesce`
unfoldable pub my_coalesce : Ptr → Cmd Ptr
unfolding load get_block_size
my_coalesce p = if p == null then pure null else do
  cur_size ← get_block_size p
  merge_next p
  n ← load p
  g ← get
  if n.next == null then set_last_block_size (g.last_block_size +ℤ cur_size) else pure tt
  merge_prev p

-- The loop of `coalesce_all`, which follows the free list from the first block.
unfoldable pub coalesce_from : ℕ → Ptr → Cmd (Unit {0})
unfolding load
coalesce_from zero p = λ _. out_of_fuel
coalesce_from (suc k) p = if p == null then pure tt else do
  n ← load p
  q ← if n.status == free then my_coalesce p else pure p
  m ← load q
  coalesce_from k m.next_free

-- `coalesce_all`: a round for each byte of the region.
unfoldable pub coalesce_all : Cmd (Unit {0})
coalesce_all = do h ← the_head; coalesce_from h.actual_size h.head
