-- ===== src/Allocator/Twice.antt =====
-- `Mem_Free` of hw5/mem.c at a block that is free already.
use opearting_system.Base.{
  ℕ, zero, suc, ◌+◌, ◌-◌, ◌^◌, ◌<◌, ◌≡◌, refl, arith, Bool, true, false, ◌==◌, ltb, ==-refl,
}
use opearting_system.Base.Int.{ℤ, pos, eqb_ℤ, negsuc}
use opearting_system.Allocator.State.{
  Ptr, null, free, block_header, global_size, return_success, Node, Globals, done, inside, update,
  set_status,
}
use opearting_system.Allocator.Blocks.{get_block_size, is_valid_addr}
use opearting_system.Allocator.Alloc.{walk_back, link_free}
use opearting_system.Allocator.Free.{
  give_back, merge, insert_free, note_freed, free_block, mem_free,
}
use opearting_system.Allocator.Facts.{inside-ne-null, update-update}
use opearting_system.Allocator.Arena.{globals}
use opearting_system.Allocator.Cached.{at_next, distance}

-- The free block `p` of `b` bytes, which is not the last one and has none before it.
pub record First (base size p b : ℕ) (heap : Ptr → Node) : Type 0 where
  pub p_inside : inside base size p ≡ true
  pub behind_head : base + global_size < p + block_header
  pub in_region : p + block_header < base + global_size + size
  pub next : (heap p).next ≡ p + block_header + b
  pub alone : (heap p).prev ≡ null
  pub is_free : (heap p).status ≡ free
  pub small : b < 2 ^ 31

walk_back-null : (k : ℕ) (g : Globals) → 0 < k → walk_back k null g ≡ done null g
unfolding walk_back
walk_back-null zero g h = absurd (omega arith)
walk_back-null (suc k) g h = refl

module _ {base size p b : ℕ} {heap : Ptr → Node} (f : First base size p b heap) (left : ℤ)
    (error : ℕ) (last_size : ℤ) (last_allocate : ℤ) where
  -- The block is the head of the free list, and the caches are not in use.
  abbrev pub free_state : Bool → Globals
  free_state need = globals base size p left error null null last_size need last_allocate heap

  abbrev pub looped_heap : Ptr → Node
  looped_heap = update heap p (record (heap p) { next_free = p })

  abbrev pub looped_state : (l s : Ptr) → Globals
  looped_state l s = globals base size p left error l s last_size true last_allocate looped_heap

  first_sized : (need : Bool) → get_block_size p (free_state need) ≡ done (pos b) (free_state need)
  unfolding get_block_size
  first_sized need =
      simp (inside-ne-null base size p f.p_inside, f.p_inside, f.next, at_next, distance)

  -- `Mem_Free` without coalescing of a free block (`First`) that is at the head of the free list, with the
  -- caches not in use, succeeds, and makes the block its own
  -- successor in the list.
  pub mem_free-free :
      (need : Bool)
      → mem_free (p + block_header) false (free_state need)
        ≡ done return_success (looped_state null null)
  unfolding mem_free is_valid_addr free_block give_back merge insert_free note_freed link_free
      set_status
  mem_free-free true =
      let a : ltb (base + global_size) (p + block_header) ≡ true =
        let h = f.behind_head in ground arith in
      let c : ltb (p + block_header) (base + global_size + size) ≡ true =
        let h = f.in_region in ground arith in
      let header : p + block_header - block_header ≡ p = omega arith in
      let n : (p + block_header == null) ≡ false = ground arith in
      let some_size : 0 < size = let h = f.behind_head in let k = f.in_region in omega arith in
      let found : eqb_ℤ (pos b) (negsuc 0) ≡ false = ground arith in
      simp (
        a,
        c,
        n,
        header,
        λ (g : Globals). walk_back-null size g some_size,
        f.p_inside,
        f.is_free,
        f.alone,
        first_sized,
        found,
        ==-refl,
        update-update,
      )
  mem_free-free false =
      let a : ltb (base + global_size) (p + block_header) ≡ true =
        let h = f.behind_head in ground arith in
      let c : ltb (p + block_header) (base + global_size + size) ≡ true =
        let h = f.in_region in ground arith in
      let header : p + block_header - block_header ≡ p = omega arith in
      let n : (p + block_header == null) ≡ false = ground arith in
      let some_size : 0 < size = let h = f.behind_head in let k = f.in_region in omega arith in
      let found : eqb_ℤ (pos b) (negsuc 0) ≡ false = ground arith in
      simp (
        a,
        c,
        n,
        header,
        λ (g : Globals). walk_back-null size g some_size,
        f.p_inside,
        f.is_free,
        f.alone,
        first_sized,
        found,
        ==-refl,
        update-update,
      )
