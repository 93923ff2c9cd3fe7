-- ===== src/Defrag/Program.antt =====
-- hw6/defrag.c as a whole, from the input to the output.
use opearting_system.Base.{ℕ, ◌+◌, ◌*◌, ◌/◌, ◌≤◌, ◌≡◌, List, some}
use opearting_system.Base.Int.{pos}
use opearting_system.Defrag.Image.{Image, Disk, boot_size, super_size, sb_size, sb_inode_offset}
use opearting_system.Defrag.Copy.{block_at, defrag}
use opearting_system.Defrag.Disks.{InDisk}
use opearting_system.Defrag.Whole.{Layout, num_inode, Defragmented, copy_image-Defragmented}

module _ (whole : Image) (file_size bytes inode_offset data_offset : ℕ) where
  -- What the program reads in the superblock.
  abbrev pub disk_of : Disk
  disk_of = record {
    whole = whole;
    file_size = file_size;
    num_int = bytes / 4;
    data_begin = boot_size + super_size + data_offset * (bytes / 4);
  }

  abbrev pub inode_begin : ℕ
  inode_begin = boot_size + super_size + inode_offset * (bytes / 4)

  -- The defragmenter moves an image, if its superblock is in order (`Layout`), the files have their
  -- blocks in the input and none ends with its indirect blocks, or its doubly or triply indirect block,
  -- full (`InDisk`), and their `c` blocks leave the last 1024 bytes of the data region free. It ends; in
  -- the output each file's tree of blocks is that of the input, with the same contents; the blocks of
  -- the files are the first `c` of the data region, one behind another in the order of the inodes; the
  -- superblock names the block behind them as the first free one; and nothing else in front of the
  -- inodes changes.
  pub defrag-Defragmented :
      (blocks c : ℕ) (files : List (List ℕ))
      → whole sb_size ≡ pos bytes
      → whole sb_inode_offset ≡ pos inode_offset
      → (r : Layout disk_of inode_begin data_offset blocks)
      → InDisk disk_of (num_inode disk_of inode_begin data_offset blocks r) inode_begin c files
      → block_at disk_of c + (boot_size + super_size) ≤ block_at disk_of blocks
      → (m : Defragmented disk_of inode_begin data_offset blocks r c files) × (defrag whole
            file_size
          ≡ some (tt, m.t))
  unfolding defrag
  defrag-Defragmented blocks c files size_is inodes_at r i room =
      let m = copy_image-Defragmented disk_of inode_begin data_offset blocks r c files i room in
      (m, simp (size_is, inodes_at, r.data_offset) m.runs)
