-- ===== src/Allocator/Blocks.antt =====
-- The small functions of hw5/mem.c: rounding, block sizes, and pointers handed in by the caller.
use opearting_system.Base.{ℕ, ◌+◌, ◌-◌, Bool, false, ◌&&◌, ◌||◌, ltb, ◌==◌, if◌then◌else◌}
use opearting_system.Base.Int.{ℤ, pos, sub_ℕ, ◌+ℤ◌, ◌-ℤ◌, ◌*ℤ◌, ◌/ℤ◌, to_int}
use opearting_system.Allocator.State.{
  Ptr, null, free, allocated, block_header, return_with_error, Cmd, pure, ◌>>=◌, get, the_head,
  load,
}

-- `round_to(int val, int base)`: the arguments are converted to `int`, every result is one, and `/`
-- truncates.
unfoldable pub round_to : ℤ → ℕ → ℤ
round_to val base = to_int (to_int (to_int (to_int val -ℤ pos 1) /ℤ base *ℤ pos base) +ℤ pos base)

-- `get_block_size`: the distance to the next header, or `last_block_size` behind the last one.
unfoldable pub get_block_size : Ptr → Cmd ℤ
unfolding load
get_block_size p = if p == null then pure return_with_error else do
  n ← load p
  g ← get
  pure (if n.next == null then g.last_block_size else sub_ℕ n.next (p + block_header))

-- `get_real_block_size`: the last block reaches to the end of the region.
pub get_real_block_size : Ptr → Cmd ℤ
unfolding load
get_real_block_size p = if p == null then pure return_with_error else do
  n ← load p
  if n.next == null
      then (do h ← the_head; pure (sub_ℕ (h.base + h.actual_size) (p + block_header)))
      else pure (sub_ℕ n.next (p + block_header))

-- `get_header`: the header stands in front of the payload.
abbrev pub get_header : Ptr → Ptr
get_header p = p - block_header

-- `is_valid_addr`: a pointer between the first header and `head + actual_size` whose header has
-- one of the two statuses.
unfoldable pub is_valid_addr : Ptr → Cmd Bool
unfolding load
is_valid_addr p = do
  h ← the_head
  if ltb h.head p && ltb p (h.head + h.actual_size)
      then (do n ← load (get_header p); pure (n.status == allocated || n.status == free))
      else pure false
