-- ===== src/Defrag/Copy.antt =====
-- `main` of hw6/defrag.c behind the reading of the input.
use opearting_system.Base.{
  ℕ, zero, suc, ◌+◌, ◌*◌, ◌-◌, ◌/◌, Bool, true, false, ◌||◌, ◌++◌, [], Option, leb, if◌then◌else◌,
}
use opearting_system.Base.Int.{ℤ, pos, negsuc, pos_part, ◌-ℤ◌, leb_ℤ, eqb_ℤ}
use opearting_system.Defrag.Image.{
  Image, n_dblocks, n_iblocks, boot_size, super_size, inode_size, sb_size, sb_inode_offset,
  sb_data_offset, sb_swap_offset, sb_free_block, nlink, size, dblocks, iblocks, i2block, i3block,
  Disk, Copying, Cmd, pure, fault, ◌>>=◌, ◌>>◌, get, modify, offset, memcpy, store, words,
}

module _ (d : Disk) where
  -- The address of a block of the data region.
  unfoldable pub block_at : ℕ → ℕ
  block_at i = d.data_begin + i * d.num_int

  -- The block `from` of the input becomes block `block_index` of the output.
  unfoldable pub copy_block : ℤ → Cmd (Unit {0})
  copy_block from = do
    source ← offset from
    s ← get
    memcpy d (block_at s.block_index) (block_at source) d.num_int

  -- The pointer at `slot` is set to `block_index`, which is then advanced.
  unfoldable pub renumber : (slot : ℕ) → Cmd (Unit {0})
  renumber slot = do
    s ← get
    store d slot (pos s.block_index)
    modify (λ t. record t { block_index = t.block_index + 1 })

  unfoldable pub move_data : (slot : ℕ) → Cmd (Unit {0})
  move_data slot = do
    s ← get
    copy_block (s.dest slot)
    modify (λ t. record t {
      data_file = t.data_file ++ words t.dest d.num_int (block_at t.block_index);
    })
    renumber slot

  -- The address of the copy is what `curr_block_lv1`, `_lv2` and `_lv3` point to.
  unfoldable pub move_index : (slot : ℕ) → ℤ → Cmd ℕ
  move_index slot from = do copy_block from; s ← get; renumber slot; pure (block_at s.block_index)

  abbrev pub finish : Bool → Cmd (Unit {0})
  finish b = modify (λ s. record s { finished = b })

  -- The loop over pointers to data: over `dblocks`, and over a block at the lowest level. It gives back
  -- `this_file_size`, as the loops below do.
  unfoldable pub data_loop : (k slot : ℕ) → ℤ → Cmd ℤ
  data_loop zero slot this_file_size = pure this_file_size
  data_loop (suc k) slot this_file_size =
      if leb_ℤ this_file_size (pos 0)
      then (do finish true; pure this_file_size)
      else (do move_data slot; data_loop k (slot + 1) (this_file_size -ℤ pos (4 * d.num_int)))

  -- A loop over pointers to blocks of pointers. `source` is where the old pointer is read, `below` what
  -- is done with the copy.
  unfoldable pub index_loop :
      (source : ℕ → Cmd ℤ) → (below : ℕ → ℤ → Cmd ℤ) → (k slot : ℕ) → ℤ → Cmd ℤ
  index_loop source below zero slot this_file_size = pure this_file_size
  index_loop source below (suc k) slot this_file_size = do
    s ← get
    if leb_ℤ this_file_size (pos 0) || s.finished
        then (do finish true; pure this_file_size)
        else (do
          from ← source slot
          base ← move_index slot from
          rest ← below base this_file_size
          index_loop source below k (slot + 1) rest)

  -- `ori_curr` points into the input, `curr` and the blocks of pointers into the output.
  abbrev pub of_whole : ℕ → Cmd ℤ
  of_whole slot = pure (d.whole slot)

  abbrev pub of_dest : ℕ → Cmd ℤ
  of_dest slot = do s ← get; pure (s.dest slot)

  abbrev pub lv1 : ℕ → ℤ → Cmd ℤ
  lv1 = data_loop d.num_int

  abbrev pub lv2 : ℕ → ℤ → Cmd ℤ
  lv2 = index_loop of_dest lv1 d.num_int

  abbrev pub lv3 : ℕ → ℤ → Cmd ℤ
  lv3 = index_loop of_dest lv2 d.num_int

  abbrev unless_finished : ℤ → Cmd ℤ → Cmd ℤ
  unless_finished this_file_size m = do s ← get; if s.finished then pure this_file_size else m

  -- The block at `slot` of the inode and what is below it.
  unfoldable pub move_tree : (below : ℕ → ℤ → Cmd ℤ) → (slot : ℕ) → ℤ → Cmd ℤ
  move_tree below slot this_file_size = do
    from ← of_whole slot
    base ← move_index slot from
    below base this_file_size

  -- The blocks of the file whose inode stands at `curr`.
  unfoldable pub move_file : (curr : ℕ) → ℤ → Cmd ℤ
  move_file curr this_file_size = do
    finish false
    after_direct ← data_loop n_dblocks (curr + dblocks) this_file_size
    after_lv1 ←
        unless_finished after_direct
          (index_loop of_whole lv1 n_iblocks (curr + iblocks) after_direct)
    after_lv2 ← unless_finished after_lv1 (move_tree lv2 (curr + i2block) after_lv1)
    unless_finished after_lv2 (move_tree lv3 (curr + i3block) after_lv2)

  unfoldable pub copy_inode : (curr : ℕ) → Cmd (Unit {0})
  copy_inode curr = do
    memcpy d curr curr inode_size
    s ← get
    if eqb_ℤ (s.dest (curr + nlink)) (pos 0)
        then pure tt
        else (do rest ← move_file curr (s.dest (curr + size)); pure tt)

  -- The outmost loop: `n` inodes from `curr` on.
  unfoldable pub copy_inodes : (n curr : ℕ) → Cmd (Unit {0})
  copy_inodes zero curr = pure tt
  copy_inodes (suc n) curr = do copy_inode curr; copy_inodes n (curr + inode_size)

  -- The loop over the free blocks: `n` of them from `i` on.
  unfoldable pub link_blocks : (swap_offset : ℤ) → (n i : ℕ) → Cmd (Unit {0})
  link_blocks swap_offset zero i = pure tt
  link_blocks swap_offset (suc n) i = do
    store d (block_at i) (if eqb_ℤ (pos i) (swap_offset -ℤ pos 1) then negsuc 0 else pos (i + 1))
    link_blocks swap_offset n (i + 1)

-- `main` behind the reading of the input, to the writing of the output: `swap_offset` and `data_offset`
-- are read again behind the loop over the inodes, where `sb` points into the output.
unfoldable pub finish_image : Disk → Cmd (Unit {0})
finish_image d = do
  s ← get
  store d sb_free_block (pos s.block_index)
  t ← get
  let swap_offset = t.dest sb_swap_offset
  link_blocks d swap_offset (pos_part (swap_offset -ℤ t.dest sb_data_offset -ℤ pos s.block_index))
      s.block_index
  swap ← offset swap_offset
  if leb (swap * d.num_int) d.file_size
      then memcpy d (swap * d.num_int) (swap * d.num_int) (d.file_size - swap * d.num_int)
      else fault

abbrev pub empty_copy : Copying
empty_copy = record { dest = λ _. pos 0; block_index = 0; finished = false; data_file = [] }

unfoldable pub copy_image : Disk → (inode_begin : ℕ) → Cmd (Unit {0})
copy_image d inode_begin = do
  memcpy d 0 0 inode_begin
  copy_inodes d ((d.data_begin - inode_begin) / inode_size) inode_begin
  finish_image d

-- The output for an input of `file_size` words.
unfoldable pub defrag : (whole : Image) (file_size : ℕ) → Option (Unit {0} × Copying)
defrag whole file_size =
    (do
      bytes ← offset (whole sb_size)
      inode_offset ← offset (whole sb_inode_offset)
      data_offset ← offset (whole sb_data_offset)
      let num_int = bytes / 4
      copy_image
          (record {
            whole = whole;
            file_size = file_size;
            num_int = num_int;
            data_begin = boot_size + super_size + data_offset * num_int;
          })
          (boot_size + super_size + inode_offset * num_int))
      empty_copy
