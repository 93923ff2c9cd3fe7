-- ===== src/Allocator/Runs.antt =====
-- Runs of hw5/mem.c, and the theorems about it at concrete pools.
use opearting_system.Base.{◌≤◌, ◌*◌, ◌≡◌, refl, inr, false, Option, none, some, [], ◌∷◌, arith}
use opearting_system.Base.Int.{ℤ, pos, to_int, ◌+ℤ◌, ◌-ℤ◌, ◌*ℤ◌, ◌/ℤ◌}
use opearting_system.Allocator.State.{
  Ptr, null, return_success, map_failed, zero_node, Node, Globals, initial, Run, done, Cmd, pure,
  ◌>>=◌, update, inside,
}
use opearting_system.Allocator.Once.{Ask, successes, mem_init-once, mem_init-never}
use opearting_system.Allocator.Init.{region_size, to_alloc, aligned, mem_init}
use opearting_system.Allocator.Alloc.{
  walk_back, choose, place, split, take_whole, cut, cache_rest, hand_out, mem_alloc,
}
use opearting_system.Allocator.Free.{
  give_back, merge, insert_free, note_freed, free_block, mem_free,
}
use opearting_system.Allocator.Coalesce.{
  forget, absorb_next, merge_next, absorb_into, merge_prev, my_coalesce, coalesce_from,
  coalesce_all,
}
use opearting_system.Allocator.Blocks.{round_to, get_block_size, is_valid_addr}
use opearting_system.Allocator.Arena.{
  block, used_node, top_node, bottom, above, globals, Arena, room,
}
use opearting_system.Allocator.Arena.Step.{Outcome, mem_alloc-Outcome}
use opearting_system.Allocator.Arena.Start.{fresh, fresh-Arena, mem_init-Arena}
use opearting_system.Allocator.Arena.Session.{Aligned, alloc_all, Session, alloc_all-Session}
use opearting_system.Allocator.Arena.Release.{Freed, mem_free-Freed}

abbrev init_pool : ℤ → Cmd ℤ
init_pool = mem_init aligned 4096 (λ _. some 8192)

abbrev result : {A : Type 0} → Run A → Option A
result (done a g) = some a
result _ = none

-- A run from the start of the program. The line below opens what a run computes with.
outcome : {A : Type 0} → Cmd A → Option A
unfolding mem_init mem_alloc mem_free choose place split take_whole cut cache_rest hand_out
    free_block give_back merge insert_free note_freed is_valid_addr coalesce_all coalesce_from
    my_coalesce merge_next merge_prev absorb_next absorb_into forget walk_back get_block_size
    round_to to_int ◌+ℤ◌ ◌-ℤ◌ ◌*ℤ◌ ◌/ℤ◌
outcome c = result (c initial)

-- Three requests, the last for all that is left.
three_blocks :
    outcome (do
      r ← init_pool (pos 4096)
      a ← mem_alloc (pos 8)
      b ← mem_alloc (pos 16)
      c ← mem_alloc (pos 4072)
      pure (a ∷ b ∷ c ∷ []))
    ≡ some (8272 ∷ 8312 ∷ 8360 ∷ [])
unfolding outcome
three_blocks = refl

-- A request for 2048 bytes is answered with a block of 2000, in front of another block.
short_block :
    outcome (do
      r ← init_pool (pos 4096)
      a ← mem_alloc (pos 2000)
      b ← mem_alloc (pos 2000)
      f ← mem_free a false
      c ← mem_alloc (pos 2048)
      pure (a ∷ b ∷ c ∷ []))
    ≡ some (8272 ∷ 10304 ∷ 8272 ∷ [])
unfolding outcome
short_block = refl

-- One block is handed out twice.
twice_allocated :
    outcome (do
      r ← init_pool (pos 4096)
      a ← mem_alloc (pos 800)
      x ← mem_alloc (pos 8)
      b ← mem_alloc (pos 1600)
      y ← mem_alloc (pos 1600)
      f ← mem_free a false
      f ← mem_free b false
      c ← mem_alloc (pos 1600)
      d ← mem_alloc (pos 8)
      pure (b ∷ c ∷ d ∷ []))
    ≡ some (9144 ∷ 9144 ∷ 9144 ∷ [])
unfolding outcome
twice_allocated = refl

-- A pool of 64 bytes at address 8192.
abbrev pool : Globals
pool = fresh 8192 4096 64

pool-Arena : Arena 8192 4096 (pos 64) 64 [] pool
pool-Arena = fresh-Arena 8192 4096 64 (omega arith) (omega arith) (omega arith)

mem_init-Arena_example :
    (g : Globals) × (mem_init aligned (8 * 512) (λ _. some 8192) (pos 64) initial
      ≡ done return_success g)
    × Arena 8192 4096 (pos 64) 64 [] g
mem_init-Arena_example =
    mem_init-Arena aligned 512 64 (λ _. some 8192) 8192 (λ e. cc) (omega arith) (omega arith)
      (omega arith) (omega arith) refl

-- `mmap` fails in a first call, and would succeed in a second.
abbrev unmapped : Globals
unmapped = record initial { global_head = map_failed; m_error = 1 }

mem_alloc-Outcome_example : Outcome 8192 4096 (pos 64) 64 13 16 [] (mem_alloc (pos 13) pool)
mem_alloc-Outcome_example =
    mem_alloc-Outcome 13 pool-Arena (omega arith) (omega arith) (omega arith)

eight-Aligned : Aligned 8
eight-Aligned = omega arith

alloc_all-Session_example : Session 8192 4096 (8 ∷ 8 ∷ []) 64 [] (alloc_all (8 ∷ 8 ∷ []) pool)
alloc_all-Session_example =
    alloc_all-Session (8 ∷ 8 ∷ []) 64 [] pool (eight-Aligned, (eight-Aligned, tt)) pool-Arena

-- The pool after a request for eight bytes.
abbrev used_heap : Ptr → Node
used_heap = update (update (λ _. zero_node) 8280 (top_node 8240)) 8240 (used_node 8280 null)

abbrev used_pool : Globals
used_pool = globals 8192 4096 8280 (pos 56) 0 8280 8240 (pos 56) false (pos 0) used_heap

used_pool-Arena : Arena 8192 4096 (pos 56) 56 (block 8240 8 ∷ []) used_pool
unfolding update inside
used_pool-Arena =
    room (above (bottom refl) refl refl (omega arith))
      (record {
        is_top = refl;
        first = omega arith;
        fits = omega arith;
        some_room = omega arith;
        whole = omega arith;
        small = omega arith;
      })
      (inr refl) (inr refl) (inr (inr refl))

mem_free-Freed_example : Freed 8192 4096 (pos 56) 8240 8 used_pool (mem_free 8272 false used_pool)
mem_free-Freed_example = mem_free-Freed [] [] 8240 8 used_pool-Arena (omega arith) refl

-- A size of 10 ^ 9: the length for `mmap` does not fit an `int`, and less than the size is asked for.
wrapped : region_size aligned 4096 (pos 1000000000) ≡ pos 705036288
unfolding region_size to_alloc round_to to_int ◌+ℤ◌ ◌-ℤ◌ ◌*ℤ◌ ◌/ℤ◌
wrapped = refl

-- The calls map nothing, 8192 and 8192.
abbrev failing : Ask
failing = record { estimate = aligned; page = 4096; mmap = λ n. none; asked_size = pos 64 }

abbrev mapping : Ask
mapping = record failing { mmap = λ n. some 8192 }

mem_init-once_example : successes (mapping ∷ failing ∷ mapping ∷ []) initial ≤ 1
mem_init-once_example = mem_init-once (mapping ∷ failing ∷ mapping ∷ []) initial

mem_init-never_example : successes (failing ∷ mapping ∷ mapping ∷ []) initial ≡ 0
mem_init-never_example =
    mem_init-never failing (mapping ∷ mapping ∷ []) initial refl (omega arith) refl
