-- ===== src/Allocator/Merging.antt =====
-- `my_coalesce` and `coalesce_all`: what happens at the last block.
use opearting_system.Base.{ℕ, zero, suc, ◌+◌, ◌*◌, ◌≤◌, ◌<◌, ◌≡◌, Bool, true, arith, ==-refl}
use opearting_system.Base.Int.{ℤ, pos, ◌+ℤ◌, pos-add-pos}
use opearting_system.Allocator.State.{
  Ptr, null, global_size, return_success, Node, Globals, done, inside, update,
}
use opearting_system.Allocator.Coalesce.{
  merge_next, merge_prev, my_coalesce, coalesce_from, coalesce_all,
}
use opearting_system.Allocator.Free.{mem_free}
use opearting_system.Allocator.Facts.{inside_lem, inside-ne-null}
use opearting_system.Allocator.Arena.{globals}
use opearting_system.Allocator.Arena.Step.{round_up}
use opearting_system.Allocator.Arena.Start.{fresh}

module _ (base size p : ℕ) (heap : Ptr → Node) (p_inside : inside base size p ≡ true)
    (last : (heap p).next ≡ null) (alone : (heap p).prev ≡ null) (head_free : Ptr) (left : ℤ)
    (error : ℕ) (l s : Ptr) (need : Bool) (last_allocate : ℤ) where
  abbrev pub state : ℤ → Globals
  state z = globals base size head_free left error l s z need last_allocate heap

  -- Of the last block, with no block before it, `my_coalesce` adds the block's size to
  -- `last_block_size`, which is that size already.
  pub my_coalesce-last : (z : ℤ) → my_coalesce p (state z) ≡ done p (state (z +ℤ z))
  unfolding my_coalesce merge_next merge_prev
  my_coalesce-last z = simp (inside-ne-null base size p p_inside, p_inside, last, alone)

-- `Mem_Free(NULL, 1)` on a pool fresh from `Mem_Init` doubles the size that is on record for its one
-- free block.
pub mem_free-doubles :
    (base size n : ℕ)
    → 0 < n
    → global_size + 5 * round_up n ≤ size
    → mem_free null true (fresh base size n)
      ≡ done return_success
          (record (fresh base size n) { last_block_size = pos (round_up n + round_up n) })
unfolding mem_free coalesce_all coalesce_from my_coalesce merge_next merge_prev update
mem_free-doubles base zero n low fits = absurd (omega arith)
mem_free-doubles base (suc zero) n low fits = absurd (omega arith)
mem_free-doubles base (suc (suc size)) n low fits =
    let here : inside base (suc (suc size)) (base + global_size) ≡ true =
      inside_lem base (suc (suc size)) (base + global_size) (omega arith) (omega arith) in
    simp
      (here, inside-ne-null base (suc (suc size)) (base + global_size) here, ==-refl, pos-add-pos)
