-- ===== src/Allocator/CacheRuns.antt =====
-- The theorems about the caches and about merging of hw5/mem.c, at concrete pools.
use opearting_system.Base.{◌≡◌, refl, true, false, arith}
use opearting_system.Base.Int.{pos}
use opearting_system.Allocator.State.{
  Ptr, null, free, return_success, zero_node, Node, Globals, done, update, inside,
}
use opearting_system.Allocator.Alloc.{mem_alloc}
use opearting_system.Allocator.Free.{mem_free}
use opearting_system.Allocator.Cached.{Largest, at_free, mem_alloc-cached}
use opearting_system.Allocator.Merging.{mem_free-doubles}
use opearting_system.Allocator.Twice.{First, free_state, looped_state, mem_free-free}
use opearting_system.Allocator.Arena.{globals}
use opearting_system.Allocator.Arena.Start.{fresh}

-- Free blocks of 8 bytes at 8240 and of 16 bytes at 8280, and a last one at 8328.
abbrev two_free : Ptr → Node
two_free =
    update
      (update
        (update (λ _. zero_node) 8240
          (record { next = 8280; prev = null; next_free = 8280; status = free }))
        8280 (record { next = 8328; prev = 8240; next_free = 8328; status = free }))
      8328 (record { next = null; prev = 8280; next_free = null; status = free })

two_free-Largest : Largest 8192 4096 8280 8240 16 two_free
unfolding update inside
two_free-Largest = record {
  l_inside = refl;
  s_inside = refl;
  next = refl;
  s_next = 8280;
  s_bytes = 8;
  s_is = refl;
  no_smaller = omega arith;
  small = omega arith;
}

abbrev two_free_pool : Globals
two_free_pool = globals 8192 4096 8240 (pos 500) 0 8280 8240 (pos 400) false (pos 0) two_free

-- A request for 100 bytes is answered with a block of 16.
mem_alloc-cached_example :
    (g : Globals) × (mem_alloc (pos 100) two_free_pool ≡ done 8312 g) × ((g.heap 8280).next ≡ 8328)
unfolding update inside
mem_alloc-cached_example =
    mem_alloc-cached two_free-Largest 8240 (pos 500) 0 (pos 400) false (pos 0) 100 0 8240
      (omega arith) (omega arith) (omega arith) (omega arith) (at_free refl refl) (omega arith)

mem_free-doubles_example :
    mem_free null true (fresh 8192 4096 64)
    ≡ done return_success (record (fresh 8192 4096 64) { last_block_size = pos 128 })
mem_free-doubles_example = mem_free-doubles 8192 4096 64 (omega arith) (omega arith)

-- A block that is free already, and what becomes of it.
two_free-First : First 8192 4096 8240 8 two_free
unfolding update inside
two_free-First = record {
  p_inside = refl;
  behind_head = omega arith;
  in_region = omega arith;
  next = refl;
  alone = refl;
  is_free = refl;
  small = omega arith;
}

mem_free-free_example :
    mem_free 8272 false (free_state two_free-First (pos 500) 0 (pos 400) (pos 0) false)
    ≡ done return_success (looped_state two_free-First (pos 500) 0 (pos 400) (pos 0) null null)
mem_free-free_example = mem_free-free two_free-First (pos 500) 0 (pos 400) (pos 0) false
