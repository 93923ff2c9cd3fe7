-- ===== src/Defrag/Runs.antt =====
-- Small disk images through hw6/defrag.c, and the theorems about it at concrete images.
use opearting_system.Base.{
  ℕ, ◌≡◌, ◌≤◌, refl, true, false, Option, none, some, List, [], ◌∷◌, ◌+◌, ◌*◌, arith,
}
use opearting_system.Base.Int.{ℤ, pos, sub_ℕ, ◌-ℤ◌}
use opearting_system.Defrag.Image.{Image, put, Disk, Copying, words, overlay, memcpy, store}
use opearting_system.Defrag.Copy.{
  empty_copy, defrag, copy_image, copy_inodes, copy_inode, finish_image, move_file, data_loop,
  index_loop, move_tree, move_index, move_data, renumber, copy_block, block_at, link_blocks,
}
use opearting_system.Defrag.Forest.{In, over, end_of_row, data_block, index_block}
use opearting_system.Defrag.Files.{InFile, direct, single, Stage}
use opearting_system.Defrag.Rows.{FileMoved}
use opearting_system.Defrag.Levels.{move_file-FileMoved}
use opearting_system.Defrag.Disks.{InDisk, no_inode, unused, used}
use opearting_system.Defrag.Inodes.{DiskCopied, copy_inodes-DiskCopied}
use opearting_system.Defrag.Whole.{Layout, Defragmented}
use opearting_system.Defrag.Program.{disk_of, inode_begin, defrag-Defragmented}
use opearting_system.Defrag.Tail.{Linked, link_blocks-Linked}
use opearting_system.Defrag.End.{Ready, Finished, finish_image-Finished}

-- Blocks of 512 bytes, 128 words: one block of inodes at word 256, seven data blocks from word 384, and
-- one block of swap at word 1280. One file of 600 bytes, in the blocks 3 and 1.
abbrev image : Image
image =
    put
      (put
        (put
          (put
            (put
              (put (put (put (put (λ _. pos 0) 128 (pos 512)) 130 (pos 1)) 131 (pos 8)) 258 (pos 1))
              259 (pos 600))
            265 (pos 3))
          266 (pos 1))
        768 (pos 33))
      512 (pos 11)

abbrev shown : Option (Unit {0} × Copying) → List ℕ → List ℤ
shown none l = []
shown (some (u, s)) [] = []
shown (some (u, s)) (a ∷ l) = s.dest a ∷ shown (some (u, s)) l

-- Words of the output. The line below opens what a run computes with.
output : List ℕ → List ℤ
unfolding defrag copy_image copy_inodes copy_inode finish_image move_file data_loop index_loop
    move_tree move_index move_data renumber copy_block block_at link_blocks overlay memcpy store put
    words ◌-ℤ◌
output l = shown (defrag image 1408) l

-- The pointers, the two blocks, the head of the free list and two of its links; the last link is that
-- of the input.
small_image :
    output (265 ∷ 266 ∷ 384 ∷ 512 ∷ 133 ∷ 640 ∷ 768 ∷ 1152 ∷ [])
    ≡ pos 0 ∷ pos 1 ∷ pos 33 ∷ pos 11 ∷ pos 2 ∷ pos 3 ∷ pos 4 ∷ pos 0 ∷ []
unfolding output
small_image = refl

-- Blocks of one word, from word 300 on.
abbrev tiny : Disk
tiny = record { whole = λ _. pos 0; file_size = 400; num_int = 1; data_begin = 300 }

abbrev index_of : Option (ℤ × Copying) → ℕ
index_of none = 0
index_of (some (rest, s)) = s.block_index

moved_blocks : ℤ → ℕ
unfolding move_file data_loop index_loop move_tree move_index move_data renumber copy_block block_at
    overlay memcpy store put words ◌-ℤ◌
moved_blocks z = index_of (move_file tiny 256 z empty_copy)

-- A file of 13 blocks takes 16 with its three indirect blocks.
thirteen : moved_blocks (pos 52) ≡ 16
unfolding moved_blocks
thirteen = refl

-- A file of 14 blocks takes 18, and is given a doubly indirect block besides.
fourteen : moved_blocks (pos 56) ≡ 19
unfolding moved_blocks
fourteen = refl

abbrev disk : Disk
disk = record { whole = image; file_size = 1408; num_int = 128; data_begin = 384 }

-- The state when the inode has been copied.
abbrev inode_copied : Copying
inode_copied = record { dest = image; block_index = 0; finished = false; data_file = [] }

-- A file of 11 blocks on the tiny disk: all its pointers are 0.
eleven-InFile : InFile tiny 256 (pos 44) 12 (0 ∷ 0 ∷ 0 ∷ 0 ∷ 0 ∷ 0 ∷ 0 ∷ 0 ∷ 0 ∷ 0 ∷ 0 ∷ [])
unfolding ◌-ℤ◌ sub_ℕ block_at
eleven-InFile =
    single
      ((data_block (omega arith) refl (omega arith) (
        data_block (omega arith) refl (omega arith) (
          data_block (omega arith) refl (omega arith) (
            data_block (omega arith) refl (omega arith) (
              data_block (omega arith) refl (omega arith) (
                data_block (omega arith) refl (omega arith) (
                  data_block (omega arith) refl (omega arith) (
                    data_block (omega arith) refl (omega arith) (
                      data_block (omega arith) refl (omega arith)
                        (data_block (omega arith) refl (omega arith) (end_of_row))))))))))))
      (index_block (omega arith) refl (omega arith)
        (data_block (omega arith) refl (omega arith) end_of_row) (over (omega arith)))

abbrev tiny_copied : Copying
tiny_copied = record { dest = λ _. pos 0; block_index = 0; finished = false; data_file = [] }

tiny-Stage : Stage tiny 256 (256 + 9) tiny_copied
unfolding block_at
tiny-Stage = record { same = λ a h lt. refl; in_front = omega arith }

tiny_room : block_at tiny (0 + 12) ≤ 400
unfolding block_at
tiny_room = omega arith

move_file-FileMoved_example :
    FileMoved tiny 256 tiny_copied (pos 44) 12 (0 ∷ 0 ∷ 0 ∷ 0 ∷ 0 ∷ 0 ∷ 0 ∷ 0 ∷ 0 ∷ 0 ∷ 0 ∷ [])
move_file-FileMoved_example =
    move_file-FileMoved tiny 256 (pos 44) 12 (0 ∷ 0 ∷ 0 ∷ 0 ∷ 0 ∷ 0 ∷ 0 ∷ 0 ∷ 0 ∷ 0 ∷ 0 ∷ [])
      tiny_copied eleven-InFile tiny-Stage tiny_room

two-In : In disk 0 265 10 (pos 600) (pos 600 -ℤ pos 512 -ℤ pos 512) 2 (3 ∷ 1 ∷ []) true
unfolding ◌-ℤ◌ sub_ℕ put block_at
two-In =
    data_block (omega arith) refl (omega arith)
      (data_block (omega arith) refl (omega arith) (over (omega arith)))

image-Ready : Ready disk inode_copied 1 7
unfolding put block_at
image-Ready = record {
  swap_offset = refl;
  data_offset = refl;
  data_begin = refl;
  some_inodes = omega arith;
  low = omega arith;
  enough = omega arith;
  in_file = omega arith;
  behind_super = omega arith;
}

finish_image-Finished_example :
    (t : Copying) × (finish_image disk inode_copied ≡ some (tt, t)) × Finished disk inode_copied 7 t
finish_image-Finished_example = finish_image-Finished image-Ready

free_in_file : block_at disk (0 + 7) ≤ 1408
unfolding block_at
free_in_file = omega arith

link_blocks-Linked_example :
    (t : Copying) × (link_blocks disk (pos 8) 7 0 inode_copied ≡ some (tt, t))
    × Linked disk (pos 8) 7 0 inode_copied t
link_blocks-Linked_example =
    link_blocks-Linked disk (pos 8) 7 0 inode_copied (omega arith) free_in_file

-- The image has seven data blocks; its one file is that of `two-In`.
image-Layout : Layout (disk_of image 1408 512 0 1) (inode_begin image 1408 512 0 1) 1 7
unfolding put block_at
image-Layout = record {
  swap_offset = refl;
  data_offset = refl;
  data_begin = refl;
  some_inodes = omega arith;
  low = omega arith;
  in_file = omega arith;
  behind_super = omega arith;
  super_first = omega arith;
  in_order = omega arith;
}

image-InDisk : InDisk disk 5 256 2 ((3 ∷ 1 ∷ []) ∷ [] ∷ [] ∷ [] ∷ [] ∷ [])
unfolding put
image-InDisk =
    used refl (direct two-In) (unused refl (unused refl (unused refl (unused refl no_inode))))

image_room : block_at disk 2 + 256 ≤ block_at disk 7
unfolding block_at
image_room = omega arith

defrag-Defragmented_example :
    (m : Defragmented
      (disk_of image 1408 512 0 1)
      (inode_begin image 1408 512 0 1)
      1
      7
      image-Layout
      2
      ((3 ∷ 1 ∷ []) ∷ [] ∷ [] ∷ [] ∷ [] ∷ []))
    × (defrag image 1408 ≡ some (tt, m.t))
unfolding put
defrag-Defragmented_example =
    defrag-Defragmented image 1408 512 0 1 7 2 ((3 ∷ 1 ∷ []) ∷ [] ∷ [] ∷ [] ∷ [] ∷ []) refl refl
      image-Layout image-InDisk image_room

inodes_first : 256 + 5 * 25 ≤ block_at disk 0
unfolding block_at
inodes_first = omega arith

blocks_fit : block_at disk (0 + 2) ≤ 1408
unfolding block_at
blocks_fit = omega arith

copy_inodes-DiskCopied_example :
    DiskCopied disk 5 256 2 ((3 ∷ 1 ∷ []) ∷ [] ∷ [] ∷ [] ∷ [] ∷ []) empty_copy
copy_inodes-DiskCopied_example =
    copy_inodes-DiskCopied disk image-InDisk empty_copy inodes_first (omega arith) blocks_fit
