-- ===== src/Allocator/Alloc.antt =====
-- `Mem_Alloc` of hw5/mem.c. Its two loops run on fuel, one round for each byte of the region: a list
-- of headers in the region has fewer entries.
use opearting_system.Base.{ℕ, zero, suc, ◌+◌, ◌&&◌, ◌||◌, ◌==◌, if◌then◌else◌}
use opearting_system.Base.Int.{ℤ, pos, negsuc, pos_part, ◌+ℤ◌, ◌-ℤ◌, leb_ℤ, ltb_ℤ, eqb_ℤ, to_int}
use opearting_system.Allocator.State.{
  Ptr, null, free, allocated, block_header, block_size, e_no_space, Node, out_of_fuel, Cmd, pure,
  ◌>>=◌, ◌>>◌, get, modify, the_head, set_head, load, set_next, set_prev, set_next_free, set_status,
  set_head_free, set_error, set_largest, set_second_largest, set_last_block_size,
}
use opearting_system.Allocator.Blocks.{round_to, get_block_size}

-- The locals that the search leaves behind.
pub record Choice : Type 0 where
  pub prev_free : Ptr
  pub next_to_allocate : Ptr
  pub size_to_allocate : ℤ

abbrev pub no_choice : Choice
no_choice = record { prev_free = null; next_to_allocate = null; size_to_allocate = negsuc 0 }

-- while (prev_free != NULL && prev_free->status != FREE) prev_free = prev_free->prev;
unfoldable pub walk_back : ℕ → Ptr → Cmd Ptr
unfolding load
walk_back zero p = λ _. out_of_fuel
walk_back (suc k) p =
    if p == null
    then pure p
    else do n ← load p; if n.status == free then pure p else walk_back k n.prev

-- The two caches, updated for a free block `curr` of `available` bytes.
pub note_block : Ptr → ℤ → Cmd (Unit {0})
unfolding get_block_size
note_block curr available = do
  g ← get
  largest_size ← get_block_size g.largest
  if leb_ℤ largest_size available then (do set_second_largest g.largest; set_largest curr) else (do
    second_size ← get_block_size g.second_largest
    if leb_ℤ second_size available then set_second_largest curr else pure tt)

-- The free block `curr`, with `temp1` before it in the free list, if it is the largest so far.
pub better : ℤ → (curr temp1 : Ptr) → ℤ → Choice → Choice
better size curr temp1 available c =
    if ltb_ℤ size available && ltb_ℤ c.size_to_allocate available
    then record { prev_free = temp1; next_to_allocate = curr; size_to_allocate = available }
    else c

-- while (curr != NULL) { … temp1 = curr; curr = curr->next_free; }
unfoldable pub scan : ℕ → ℤ → (curr temp1 : Ptr) → Choice → Cmd Choice
unfolding load get_block_size note_block better
scan zero size curr temp1 c = λ _. out_of_fuel
scan (suc k) size curr temp1 c = if curr == null then pure c else do
  bytes ← get_block_size curr
  note_block curr (to_int bytes)
  n ← load curr
  scan k size n.next_free curr (better size curr temp1 (to_int bytes) c)

-- The cached largest block is taken unseen, with the free block before it.
pub take_largest : ℕ → ℤ → Cmd Choice
unfolding load walk_back
take_largest fuel largest_size = do
  g ← get
  n ← load g.largest
  before ← walk_back fuel n.prev
  pure (record {
    prev_free = before;
    next_to_allocate = g.largest;
    size_to_allocate = to_int largest_size;
  })

-- From the locals' declarations to the end of the search.
unfoldable pub choose : ℤ → Cmd Choice
unfolding get_block_size scan take_largest
choose size = do
  h ← the_head
  g ← get
  if g.largest == null || g.second_largest == null
      then (do
        set_largest h.head_free
        set_second_largest h.head_free
        scan h.actual_size size h.head_free null no_choice)
      else (do
        largest_size ← get_block_size g.largest
        second_size ← get_block_size g.second_largest
        if leb_ℤ second_size largest_size
            then take_largest h.actual_size largest_size
            else scan h.actual_size size h.head_free null no_choice)

-- Links `p` behind `prev_free`, or at the head of the free list.
unfoldable pub link_free : (prev_free p : Ptr) → Cmd (Unit {0})
unfolding set_next_free set_head_free
link_free prev_free p = if prev_free == null then set_head_free p else set_next_free prev_free p

-- The caches when a block has been taken off the free list whole.
abbrev pub shift_caches : Cmd (Unit {0})
shift_caches = do g ← get; set_largest g.second_largest; set_second_largest null

-- The free block `p`, with header `n`, is cut at `new_next`: the rest becomes a free block that takes
-- the place of `p` in both lists.
unfoldable pub cut : (prev_free p new_next : Ptr) → Node → Cmd (Unit {0})
unfolding set_next set_prev set_next_free set_status link_free
cut prev_free p new_next n = do
  set_next new_next n.next
  if n.next == null then pure tt else set_prev n.next new_next
  set_prev new_next p
  set_status new_next free
  set_next_free new_next n.next_free
  link_free prev_free new_next
  set_next p new_next

-- The caches behind a cut.
unfoldable pub cache_rest : (new_next : Ptr) → Cmd (Unit {0})
cache_rest new_next = do
  new_size ← get_block_size new_next
  g ← get
  second_size ← get_block_size g.second_largest
  if ltb_ℤ second_size new_size then set_largest new_next else shift_caches

-- The block `p` is cut behind `size` bytes of payload. (`new_next->next` is what `p->next` was.)
unfoldable pub split : (prev_free p : Ptr) → ℤ → Cmd (Unit {0})
unfolding load
split prev_free p size = do
  n ← load p
  let new_next = pos_part (pos (p + block_header) +ℤ size)
  cut prev_free p new_next n
  cache_rest new_next
  g ← get
  if n.next == null then set_last_block_size (g.last_block_size -ℤ size) else pure tt

-- The block `p` is handed out whole.
unfoldable pub take_whole : (prev_free p : Ptr) → ℤ → Cmd (Unit {0})
unfolding load set_head_free
take_whole prev_free p size = do
  n ← load p
  if prev_free == null then set_head_free n.next_free else pure tt
  if n.next == null then modify (λ g. record g { size_of_last_allocate = size }) else pure tt
  shift_caches

-- The bytes that a block needs to be split: the last block is measured without a second header.
pub split_bound : Node → ℤ → ℤ
split_bound n size =
    if n.next == null then size +ℤ pos block_size else pos block_header +ℤ size +ℤ pos block_size

unfoldable pub place : Choice → ℤ → Cmd (Unit {0})
unfolding load split_bound
place c size = do
  n ← load c.next_to_allocate
  if leb_ℤ (split_bound n size) c.size_to_allocate
      then split c.prev_free c.next_to_allocate size
      else take_whole c.prev_free c.next_to_allocate size

-- The last four statements.
unfoldable pub hand_out : Ptr → ℤ → Cmd Ptr
unfolding set_next_free set_status
hand_out p act_size = do
  set_next_free p null
  set_status p allocated
  h ← the_head
  set_head (record h { remaining_size = h.remaining_size -ℤ act_size })
  pure (p + block_header)

abbrev pub no_space : Cmd Ptr
no_space = do set_error e_no_space; pure null

-- `Mem_Alloc`
unfoldable pub mem_alloc : ℤ → Cmd Ptr
mem_alloc act_size = do
  h ← the_head
  if ltb_ℤ h.remaining_size act_size then no_space else (do
    let size = round_to act_size block_size
    c ← choose size
    if eqb_ℤ c.size_to_allocate (negsuc 0)
        then no_space
        else (do place c size; hand_out c.next_to_allocate act_size))
