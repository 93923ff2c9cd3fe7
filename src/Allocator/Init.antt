-- ===== src/Allocator/Init.antt =====
-- `Mem_Init` and `Mem_delete_all` of hw5/mem.c.
use opearting_system.Base.{ℕ, ◌+◌, Bool, true, false, not, ◌||◌, Option, none, some, if◌then◌else◌}
use opearting_system.Base.Int.{ℤ, pos, pos_part, ◌+ℤ◌, ◌*ℤ◌, ◌/ℤ◌, leb_ℤ}
use opearting_system.Allocator.State.{
  Ptr, null, free, block_header, global_size, block_size, e_no_space, e_bad_args, return_success,
  return_with_error, zero_node, GlobalHead, unset, map_failed, region, Cmd, pure, ◌>>=◌, ◌>>◌, get,
  modify, the_head, set_error, set_last_block_size, set_largest, set_second_largest, store,
}
use opearting_system.Allocator.Blocks.{round_to}

-- The compile-time macro that chooses the estimate; the Makefile passes -Daligned.
pub data Estimate : Type 0 where
  aligned worst average : Estimate

-- `to_alloc`, with worst_multiplier 1 and average_multiplier 16.
unfoldable pub to_alloc : Estimate → ℤ → ℤ
unfolding round_to
to_alloc aligned size = round_to size block_size /ℤ block_size *ℤ pos block_header +ℤ size
to_alloc worst size = round_to size block_size /ℤ 1 *ℤ pos (block_header + block_size)
to_alloc average size = round_to size block_size /ℤ 16 *ℤ pos (block_header + block_size)

abbrev pub unused : GlobalHead → Bool
unused unset = true
unused _ = false

-- What stands behind a successful `mmap`: the region's head, and one free block.
unfoldable pub set_up : Ptr → ℕ → ℤ → Cmd (Unit {0})
unfolding store round_to
set_up base size size_of_region = do
  modify (λ g. record g {
    global_head = region (record {
      base = base;
      head = base + global_size;
      head_free = base + global_size;
      actual_size = size;
      remaining_size = size_of_region;
    });
    heap = λ _. zero_node;
  })
  store (base + global_size) (record { next = null; prev = null; next_free = null; status = free })
  set_last_block_size (round_to size_of_region block_size)
  set_largest null
  set_second_largest null

-- The part of `Mem_Init` behind the checks of its argument: no address stands for MAP_FAILED.
unfoldable pub obtain : Option Ptr → ℕ → ℤ → Cmd ℤ
unfolding set_up
obtain none size size_of_region = do
  modify (λ g. record g { global_head = map_failed; m_error = e_no_space })
  pure return_with_error
obtain (some base) size size_of_region = do set_up base size size_of_region; pure return_success

unfoldable pub reject : Cmd ℤ
reject = do set_error e_bad_args; pure return_with_error

-- The length that is asked of `mmap`.
unfoldable pub region_size : Estimate → (page : ℕ) → ℤ → ℤ
unfolding to_alloc
region_size estimate page size = round_to (to_alloc estimate size +ℤ pos global_size) page

-- `Mem_Init`. `page` is what `getpagesize` returns, `mmap` what `mmap` returns for a length.
unfoldable pub mem_init : Estimate → (page : ℕ) → (mmap : ℤ → Option Ptr) → ℤ → Cmd ℤ
unfolding obtain reject region_size
mem_init estimate page mmap size_of_region = do
  g ← get
  if not (unused g.global_head) || leb_ℤ size_of_region (pos 0)
      then reject
      else obtain (mmap (region_size estimate page size_of_region))
          (pos_part (region_size estimate page size_of_region)) size_of_region

-- `Mem_delete_all`, `munmap` being what `munmap` returns.
pub mem_delete_all : (munmap : Ptr → ℕ → ℤ) → Cmd ℤ
mem_delete_all munmap = do
  h ← the_head
  modify (λ g. record g { global_head = unset })
  pure (munmap h.base h.actual_size)
