-- ===== src/Defrag/Whole.antt =====
-- hw6/defrag.c from the copied superblock to the output.
use native.Mathlib.Decide.{dec_lt}
use opearting_system.Base.{
  sym, ℕ, ◌+◌, ◌-◌, ◌*◌, ◌/◌, ◌≤◌, ◌<◌, ◌≡◌, ◌≢◌, ap, ◌∙◌, arith, true, List, some, inl, leb, ltb,
}
use opearting_system.Base.Int.{ℤ, pos}
use opearting_system.Defrag.Image.{
  Image, Disk, Copying, overlay, memcpy, boot_size, super_size, sb_swap_offset, sb_data_offset,
  sb_free_block, inode_size,
}
use opearting_system.Defrag.Copy.{block_at, copy_image, empty_copy}
use opearting_system.Defrag.Blocks.{block_at_mono}
use opearting_system.Defrag.Forest.{Out-le}
use opearting_system.Defrag.Files.{OutFile, direct, single, double, triple}
use opearting_system.Defrag.Disks.{InDisk, OutDisk, no_inode, unused, used, OutFile-kept}
use opearting_system.Defrag.Inodes.{DiskCopied, copy_inodes-DiskCopied}
use opearting_system.Defrag.End.{Ready, finish_image-Finished}

module _ {d : Disk} {m : Image} where
  OutFile-le : {curr lo hi : ℕ} {z : ℤ} {xs : List ℕ} → OutFile d curr z m lo hi xs → lo ≤ hi
  OutFile-le (direct o) = Out-le o
  OutFile-le (single o p) = omega (arith, Out-le o, Out-le p)
  OutFile-le (double o p q) = omega (arith, Out-le o, Out-le p, Out-le q)
  OutFile-le (triple o p q r) = omega (arith, Out-le o, Out-le p, Out-le q, Out-le r)

  OutDisk-le : {n curr lo hi : ℕ} {files : List (List ℕ)} → OutDisk d m n curr lo hi files → lo ≤ hi
  OutDisk-le no_inode = omega arith
  OutDisk-le (unused e o) = OutDisk-le o
  OutDisk-le (used e o p) = omega (arith, OutFile-le o, OutDisk-le p)

  -- The files depend on the region of inodes and on their blocks only.
  OutDisk-kept :
      {n curr lo hi : ℕ} {files : List (List ℕ)} (v : Image)
      → OutDisk d m n curr lo hi files
      → ((a : ℕ) → curr ≤ a → a < curr + n * inode_size → v a ≡ m a)
      → ((a : ℕ) → block_at d lo ≤ a → a < block_at d hi → v a ≡ m a)
      → OutDisk d v n curr lo hi files
  OutDisk-kept v no_inode row rest = no_inode
  OutDisk-kept {curr} v (unused e o) row rest =
      unused (λ j lt. row (curr + j) (omega arith) (omega arith) ∙ e j lt)
        (OutDisk-kept v o (λ a h lt. row a (omega arith) (omega arith)) rest)
  OutDisk-kept {curr} {lo} {hi} v (used {mid} e o p) row rest =
      used (λ j lt. row (curr + j) (omega arith) (omega arith) ∙ e j lt)
        (OutFile-kept v o (λ a h lt. row a h (omega arith))
          (λ a h k. rest a h (omega (arith, k, block_at_mono d mid hi (OutDisk-le p)))))
        (OutDisk-kept v p (λ a h lt. row a (omega arith) (omega arith))
          (λ a h k. rest a (omega (arith, h, block_at_mono d lo mid (OutFile-le o))) k))

OutDisk-at :
    (d : Disk) (m : Image) (n curr lo hi c : ℕ) (files : List (List ℕ))
    → hi ≡ c
    → OutDisk d m n curr lo hi files
    → OutDisk d m n curr lo c files
OutDisk-at d m n curr lo hi c files e o = rw (sym e) o

-- An image whose superblock gives the offsets of the regions, in blocks, with `blocks` data blocks in
-- front of the swap region.
pub record Layout (d : Disk) (inode_begin offset blocks : ℕ) : Type 0 where
  pub swap_offset : d.whole sb_swap_offset ≡ pos (offset + blocks)
  pub data_offset : d.whole sb_data_offset ≡ pos offset
  pub data_begin : d.data_begin ≡ boot_size + super_size + offset * d.num_int
  pub some_inodes : 0 < offset
  pub low : 0 < d.num_int
  pub in_file : block_at d blocks ≤ d.file_size
  pub behind_super : sb_free_block < (offset + blocks) * d.num_int
  pub super_first : boot_size + super_size ≤ inode_begin
  pub in_order : inode_begin ≤ d.data_begin

module _ (d : Disk) (inode_begin offset blocks : ℕ) (r : Layout d inode_begin offset blocks) where
  abbrev pub num_inode : ℕ
  num_inode = (d.data_begin - inode_begin) / inode_size

  abbrev super_copied : Copying
  super_copied = record empty_copy { dest = overlay empty_copy.dest d.whole 0 0 inode_begin }

  pub block_zero : d.data_begin ≤ block_at d 0
  unfolding block_at
  block_zero = omega arith

  inodes_fit : inode_begin + num_inode * inode_size ≤ d.data_begin
  inodes_fit = let h = r.in_order in omega arith

  begin_in_file : d.data_begin ≤ d.file_size
  begin_in_file = omega (arith, block_zero, block_at_mono d 0 blocks (omega arith), r.in_file)

  memcpy-super : memcpy d 0 0 inode_begin empty_copy ≡ some (tt, super_copied)
  unfolding memcpy
  memcpy-super =
      let a : leb (0 + inode_begin) d.file_size ≡ true =
        let h = begin_in_file in let k = r.in_order in ground arith in
      simp a

  super_same : (a : ℕ) → a < inode_begin → super_copied.dest a ≡ d.whole a
  unfolding overlay
  super_same a lt =
      let x : leb 0 a ≡ true = ground arith in
      let y : ltb a (0 + inode_begin) ≡ true = ground arith in
      let e : 0 + (a - 0) ≡ a = omega arith in simp (x, y, e)

  -- The whole output.
  pub record Defragmented (c : ℕ) (files : List (List ℕ)) : Type 0 where
    pub t : Copying
    pub runs : copy_image d inode_begin empty_copy ≡ some (tt, t)
    pub disk : OutDisk d t.dest num_inode inode_begin 0 c files
    pub free_head : t.dest sb_free_block ≡ pos c
    pub front : (a : ℕ) → a < inode_begin → a ≢ sb_free_block → t.dest a ≡ d.whole a

  super_kept :
      {c : ℕ} {files : List (List ℕ)}
      → (q : DiskCopied d num_inode inode_begin c files super_copied) → (a : ℕ) → a < inode_begin
      → q.t.dest a ≡ d.whole a
  super_kept q a lt =
      q.within.kept a (omega (arith, block_zero, r.in_order)) (inl lt) ∙ super_same a lt

  few_blocks : (c : ℕ) → block_at d c + (boot_size + super_size) ≤ block_at d blocks → c ≤ blocks
  few_blocks c h = elim (dec_lt blocks c) [
    | yes more ↦ absurd (omega (arith, h, block_at_mono d blocks c (omega arith)))
    | no fits ↦ omega arith
  ]

  copied-Ready :
      {c : ℕ} {files : List (List ℕ)}
      → (q : DiskCopied d num_inode inode_begin c files super_copied)
      → block_at d c + (boot_size + super_size) ≤ block_at d blocks
      → Ready d q.t offset blocks
  copied-Ready {c} q room = record {
    swap_offset = super_kept q sb_swap_offset (omega (arith, r.super_first)) ∙ r.swap_offset;
    data_offset = super_kept q sb_data_offset (omega (arith, r.super_first)) ∙ r.data_offset;
    data_begin = r.data_begin;
    some_inodes = r.some_inodes;
    low = r.low;
    enough = omega (arith, q.index, few_blocks c room);
    in_file = r.in_file;
    behind_super = r.behind_super;
  }

  -- The copied image is defragmented, if its superblock is in order (`Layout`), the files have their
  -- blocks in the input and none ends with its indirect blocks, or its doubly or triply indirect block,
  -- full (`InDisk`), and their `c` blocks leave the last 1024 bytes of the data region free. It ends; in
  -- the output each file's tree of blocks is that of the input, with the same contents; the blocks of
  -- the files are the first `c` of the data region, one behind another in the order of the inodes; the
  -- superblock names the block behind them as the first free one; and nothing else in front of the
  -- inodes changes.
  pub copy_image-Defragmented :
      (c : ℕ) (files : List (List ℕ))
      → InDisk d num_inode inode_begin c files
      → block_at d c + (boot_size + super_size) ≤ block_at d blocks
      → Defragmented c files
  unfolding copy_image
  copy_image-Defragmented c files i room =
      let all : block_at d (0 + c) ≡ block_at d c = ap (block_at d) (omega arith) in
      let q =
        copy_inodes-DiskCopied d i super_copied (omega (arith, inodes_fit, block_zero))
          (omega (arith, inodes_fit, begin_in_file)) (omega (arith, room, r.in_file, all)) in
      let (t, runs, f) = finish_image-Finished (copied-Ready q room) in
      let end : q.t.block_index ≡ c = omega (arith, q.index) in
      let last : block_at d q.t.block_index ≡ block_at d c = ap (block_at d) end in
      let low = block_at_mono d 0 c (omega arith) in
      record {
        t = t;
        runs = simp (memcpy-super, q.runs, runs);
        disk = OutDisk-at d t.dest num_inode inode_begin 0 q.t.block_index c files end (
            OutDisk-kept t.dest q.disk
              (λ a h lt.
                f.files_kept a (omega (arith, last, low, inodes_fit, block_zero))
                  (λ e. omega (arith, e, h, r.super_first))
                  (omega (arith, low, inodes_fit, block_zero, room)))
              (λ a h lt.
                f.files_kept a lt (λ e. omega (arith, e, h, block_zero, r.super_first, r.in_order))
                  (omega (arith, last, room))));
        free_head = f.free_head ∙ ap pos end;
        front = λ a lt ne.
            f.files_kept a (omega (arith, last, low, block_zero, r.in_order)) ne
              (omega (arith, low, block_zero, r.in_order, room))
            ∙ super_kept q a lt;
      }
