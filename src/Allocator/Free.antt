-- ===== src/Allocator/Free.antt =====
-- `Mem_Free` of hw5/mem.c.
use opearting_system.Base.{Bool, true, false, not, ◌&&◌, ◌||◌, ◌==◌, if◌then◌else◌}
use opearting_system.Base.Int.{ℤ, negsuc, ◌+ℤ◌, eqb_ℤ, ltb_ℤ}
use opearting_system.Allocator.State.{
  Ptr, null, free, allocated, return_success, return_with_error, Cmd, pure, ◌>>=◌, ◌>>◌, get,
  modify, the_head, set_head, load, set_next_free, set_status, set_head_free, set_largest,
  set_second_largest,
}
use opearting_system.Allocator.Blocks.{get_block_size, get_header, is_valid_addr}
use opearting_system.Allocator.Alloc.{walk_back, link_free}
use opearting_system.Allocator.Coalesce.{my_coalesce, coalesce_all}

abbrev set_need : Bool → Cmd (Unit {0})
set_need b = modify (λ g. record g { need_global_coalesce = b })

-- The bytes of an allocated block go back to `remaining_size`; the `else` branch for a block that is
-- free already is the statement `RETURN_SUCCESS;`, which does nothing.
unfoldable pub give_back : Ptr → ℤ → Cmd (Unit {0})
unfolding load
give_back curr to_free_size = do
  n ← load curr
  h ← the_head
  g ← get
  if not (n.status == allocated)
      then pure tt
      else if n.next == null
      then (do
        set_head (record h { remaining_size = h.remaining_size +ℤ g.size_of_last_allocate })
        modify (λ g. record g {
          last_block_size = g.size_of_last_allocate;
          size_of_last_allocate = negsuc 0;
        }))
      else set_head (record h { remaining_size = h.remaining_size +ℤ to_free_size })

-- The local `coalesce_flag` and the block that `curr` is after merging.
unfoldable pub merge : Bool → Ptr → Cmd (Ptr × Bool)
merge false curr = pure (curr, false)
merge true temp = do
  before ← get_block_size temp
  curr ← my_coalesce temp
  after ← get_block_size curr
  pure (curr, eqb_ℤ after before || temp == curr)

-- `curr` goes into the free list behind the nearest free block before it. If `keep`, its own
-- `next_free` stays what merging made it.
unfoldable pub insert_free : (keep : Bool) → Ptr → Cmd (Unit {0})
unfolding load set_next_free set_head_free link_free
insert_free keep curr = do
  n ← load curr
  h ← the_head
  prev_free ← walk_back h.actual_size n.prev
  if keep
      then pure tt
      else if prev_free == null
      then set_next_free curr h.head_free
      else (do m ← load prev_free; set_next_free curr m.next_free)
  link_free prev_free curr

-- The two caches, when both are in use.
unfoldable pub note_freed : Ptr → Cmd (Unit {0})
note_freed curr = do
  g ← get
  if g.largest == null || g.second_largest == null then pure tt else do
    size ← get_block_size curr
    largest_size ← get_block_size g.largest
    second_size ← get_block_size g.second_largest
    if ltb_ℤ largest_size size
        then (do set_second_largest g.largest; set_largest curr)
        else if ltb_ℤ second_size size
        then set_second_largest curr
        else pure tt

-- What is done with a header that `is_valid_addr` accepts.
unfoldable pub free_block : Ptr → Bool → Cmd ℤ
free_block header coalesce = do
  to_free_size ← get_block_size header
  if eqb_ℤ to_free_size return_with_error then pure return_success else (do
    give_back header to_free_size
    (curr, coalesce_flag) ← merge coalesce header
    set_status curr free
    insert_free (coalesce && not coalesce_flag) curr
    note_freed curr
    pure return_success)

-- `Mem_Free`; `coalesce` stands for `coalesce != 0`.
unfoldable pub mem_free : Ptr → Bool → Cmd ℤ
mem_free ptr coalesce =
    if ptr == null
    then (do if coalesce then (do coalesce_all; set_need false) else pure tt; pure return_success)
    else (do
      g ← get
      if g.need_global_coalesce && coalesce then (do coalesce_all; set_need false) else pure tt
      if coalesce then pure tt else set_need true
      valid ← is_valid_addr ptr
      if valid then free_block (get_header ptr) coalesce else pure return_with_error)
