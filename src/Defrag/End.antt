-- ===== src/Defrag/End.antt =====
-- What `main` of hw6/defrag.c does behind the loop over the inodes.
use opearting_system.Base.{
  ℕ, ◌+◌, ◌-◌, ◌*◌, ◌≤◌, ◌<◌, ◌≡◌, ◌≢◌, refl, ap, ◌∙◌, arith, true, false, ◌==◌, some, leb, ltb,
  ==-ne,
}
use opearting_system.Base.Int.{pos, ◌-ℤ◌, pos_part, pos-sub-pos}
use opearting_system.Defrag.Image.{
  Disk, Copying, overlay, put, memcpy, store, boot_size, super_size, sb_swap_offset, sb_data_offset,
  sb_free_block,
}
use opearting_system.Defrag.Copy.{block_at, link_blocks, finish_image}
use opearting_system.Defrag.Blocks.{block_at_mono}
use opearting_system.Defrag.Tail.{link, Linked, link_blocks-Linked}

-- A state behind the loop: the offsets in the superblock of the output, in blocks, with `blocks` data
-- blocks in front of the swap region.
pub record Ready (d : Disk) (s : Copying) (offset blocks : ℕ) : Type 0 where
  pub swap_offset : s.dest sb_swap_offset ≡ pos (offset + blocks)
  pub data_offset : s.dest sb_data_offset ≡ pos offset
  pub data_begin : d.data_begin ≡ boot_size + super_size + offset * d.num_int
  pub some_inodes : 0 < offset
  pub low : 0 < d.num_int
  pub enough : s.block_index ≤ blocks
  pub in_file : block_at d blocks ≤ d.file_size
  pub behind_super : sb_free_block < (offset + blocks) * d.num_int

-- The output: what lies `boot_size + super_size` words in front of the end of the data region, and all
-- behind, is the input's.
pub record Finished (d : Disk) (s : Copying) (blocks : ℕ) (t : Copying) : Type 0 where
  pub free_head : t.dest sb_free_block ≡ pos s.block_index
  pub free_links :
      (i : ℕ)
      → s.block_index ≤ i
      → i < blocks
      → block_at d i + (boot_size + super_size) < block_at d blocks
      → t.dest (block_at d i) ≡ pos (i + 1)
  pub files_kept :
      (a : ℕ)
      → a < block_at d s.block_index
      → a ≢ sb_free_block
      → a + (boot_size + super_size) < block_at d blocks
      → t.dest a ≡ s.dest a
  pub from_input :
      (a : ℕ)
      → block_at d blocks ≤ a + (boot_size + super_size)
      → a < d.file_size
      → t.dest a ≡ d.whole a

module _ {d : Disk} {s : Copying} {offset blocks : ℕ} (r : Ready d s offset blocks) where
  swap_at : (offset + blocks) * d.num_int + (boot_size + super_size) ≡ block_at d blocks
  unfolding block_at
  swap_at = let e = r.data_begin in grind arith

  abbrev swap : ℕ
  swap = (offset + blocks) * d.num_int

  abbrev with_head : Copying
  with_head = record s { dest = put s.dest sb_free_block (pos s.block_index) }

  with_head_elsewhere : (a : ℕ) → a ≢ sb_free_block → with_head.dest a ≡ s.dest a
  unfolding put
  with_head_elsewhere a ne = simp (==-ne a sb_free_block ne)

  free_blocks :
      pos_part (pos (offset + blocks) -ℤ pos offset -ℤ pos s.block_index) ≡ blocks - s.block_index
  free_blocks =
      let enough = r.enough in
      let e : offset + blocks - offset ≡ blocks = omega arith in
      rw
        (
          pos-sub-pos (offset + blocks) offset (omega arith),
          e,
          pos-sub-pos blocks s.block_index enough,
        )
        refl

  abbrev copied : Copying → Copying
  copied t = record t { dest = overlay t.dest d.whole swap swap (d.file_size - swap) }

  swap_in_file : swap ≤ d.file_size
  swap_in_file = omega (arith, swap_at, r.in_file)

  finish_image-copied :
      (t : Copying)
      → link_blocks d (pos (offset + blocks)) (blocks - s.block_index) s.block_index with_head
        ≡ some (tt, t)
      → finish_image d s ≡ some (tt, copied t)
  unfolding finish_image store memcpy
  finish_image-copied t runs =
      let head_in : ltb sb_free_block d.file_size ≡ true =
        let h = swap_in_file in let k = r.behind_super in ground arith in
      let swap_in : leb swap d.file_size ≡ true = let h = swap_in_file in ground arith in
      let all_in : leb (swap + (d.file_size - swap)) d.file_size ≡ true =
        let h = swap_in_file in ground arith in
      let at_swap = with_head_elsewhere sb_swap_offset (omega arith) ∙ r.swap_offset in
      let at_data = with_head_elsewhere sb_data_offset (omega arith) ∙ r.data_offset in
      simp (head_in, at_swap, at_data, free_blocks, runs, swap_in, all_in)

  copied_front : (t : Copying) (a : ℕ) → a < swap → (copied t).dest a ≡ t.dest a
  unfolding overlay
  copied_front t a h = let b : leb swap a ≡ false = ground arith in simp b

  copied_back : (t : Copying) (a : ℕ) → swap ≤ a → a < d.file_size → (copied t).dest a ≡ d.whole a
  unfolding overlay
  copied_back t a h k =
      let b : leb swap a ≡ true = ground arith in
      let c : ltb a (swap + (d.file_size - swap)) ≡ true = ground arith in
      let e : swap + (a - swap) ≡ a = omega arith in simp (b, c, e)

  head_set : with_head.dest sb_free_block ≡ pos s.block_index
  unfolding put
  head_set = refl

  behind_head : (i : ℕ) → sb_free_block < block_at d i
  unfolding block_at
  behind_head i = let e = r.data_begin in grind arith

  not_end : (i : ℕ) → i < blocks → link d (pos (offset + blocks)) i ≡ pos (i + 1)
  not_end i lt =
      let inodes = r.some_inodes in
      let e : (i == offset + blocks - 1) ≡ false = ground arith in
      rw (pos-sub-pos (offset + blocks) 1 (omega arith)) (ground arith)

  module _ (t : Copying)
      (m : Linked d
        (pos (offset + blocks))
        (blocks - s.block_index)
        s.block_index
        with_head
        t) where
    copied-Finished : Finished d s blocks (copied t)
    copied-Finished = record {
      free_head =
          copied_front t sb_free_block r.behind_super
          ∙ m.kept sb_free_block (λ j lt e. omega (arith, e, behind_head (s.block_index + j)))
          ∙ head_set;
      free_links = λ i le lt before.
          copied_front t (block_at d i) (omega (arith, swap_at, before))
          ∙ ap (λ k. t.dest (block_at d k)) {x = i} {y = s.block_index + (i - s.block_index)}
              (omega arith)
          ∙ m.links (i - s.block_index) (omega arith)
          ∙ ap (link d (pos (offset + blocks))) {x = s.block_index + (i - s.block_index)} {y = i}
              (omega arith)
          ∙ not_end i lt;
      files_kept = λ a lt ne before.
          copied_front t a (omega (arith, swap_at, before))
          ∙ m.kept a (λ j l e.
            omega (arith, e, block_at_mono d s.block_index (s.block_index + j) (omega arith)))
          ∙ with_head_elsewhere a ne;
      from_input = λ a back lt. copied_back t a (omega (arith, swap_at, back)) lt;
    }

  all_free : block_at d (s.block_index + (blocks - s.block_index)) ≤ d.file_size
  all_free =
      let enough = r.enough in
      let e : block_at d (s.block_index + (blocks - s.block_index)) ≡ block_at d blocks =
        ap (block_at d) (omega arith) in
      omega (arith, e, r.in_file)

  -- Behind the loop over the inodes, with a superblock in order (`Ready`), the program ends. The
  -- superblock names the first block behind those of the files, and each free block names the next one,
  -- as far as it lies in front of the last 1024 bytes of the data region. What was moved stays as it is,
  -- except that those 1024 bytes and all behind them are the input's, whatever was moved there.
  pub finish_image-Finished :
      (t : Copying) × (finish_image d s ≡ some (tt, t)) × Finished d s blocks t
  finish_image-Finished =
      let (t, runs, m) =
        link_blocks-Linked d (pos (offset + blocks)) (blocks - s.block_index) s.block_index
          with_head r.low all_free in
      (copied t, finish_image-copied t runs, copied-Finished t m)
