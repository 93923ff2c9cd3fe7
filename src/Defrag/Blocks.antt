-- ===== src/Defrag/Blocks.antt =====
-- One block moved by hw6/defrag.c.
use opearting_system.Base.{
  ℕ, ◌+◌, ◌-◌, ◌≤◌, ◌<◌, ◌≡◌, ◌≢◌, arith, true, false, ◌++◌, ◌==◌, some, leb, ltb,
}
use opearting_system.Base.Int.{pos}
use opearting_system.Defrag.Image.{Disk, Copying, overlay, put, memcpy, store, words}
use opearting_system.Defrag.Copy.{block_at, copy_block, renumber, move_data}

module _ (d : Disk) where
  pub block_at-suc : (i : ℕ) → block_at d (i + 1) ≡ block_at d i + d.num_int
  unfolding block_at
  block_at-suc i = grind arith

  pub block_at_mono : (i j : ℕ) → i ≤ j → block_at d i ≤ block_at d j
  unfolding block_at
  block_at_mono i j h = grind arith

  pub first_fits :
      (s : Copying) (c : ℕ)
      → 0 < c
      → block_at d (s.block_index + c) ≤ d.file_size
      → block_at d s.block_index + d.num_int ≤ d.file_size
  first_fits s c low fits = omega (
    arith,
    block_at-suc s.block_index,
    block_at_mono (s.block_index + 1) (s.block_index + c) (omega arith),
  )

  -- The state behind the move of data block `source`, whose pointer stands at `slot`.
  abbrev pub moved : Copying → (slot source : ℕ) → Copying
  moved s slot source =
      let copied =
        overlay s.dest d.whole (block_at d s.block_index) (block_at d source) d.num_int in
      record {
        dest = put copied slot (pos s.block_index);
        block_index = s.block_index + 1;
        finished = s.finished;
        data_file = s.data_file ++ words copied d.num_int (block_at d s.block_index);
      }

  pub move_data_lem :
      (s : Copying) (slot source : ℕ)
      → s.dest slot ≡ pos source
      → block_at d source + d.num_int ≤ d.file_size
      → block_at d s.block_index + d.num_int ≤ d.file_size
      → slot < block_at d s.block_index
      → move_data d slot s ≡ some (tt, moved s slot source)
  unfolding move_data copy_block renumber memcpy store
  move_data_lem s slot source e in_source in_dest before =
      let a : leb (block_at d source + d.num_int) d.file_size ≡ true = ground arith in
      let b : leb (block_at d s.block_index + d.num_int) d.file_size ≡ true = ground arith in
      let c : ltb slot d.file_size ≡ true = ground arith in simp (e, a, b, c)

  pub moved_elsewhere :
      (s : Copying) (slot source a : ℕ)
      → a < block_at d s.block_index
      → a ≢ slot
      → (moved s slot source).dest a ≡ s.dest a
  unfolding put overlay
  moved_elsewhere s slot source a before ne = ground arith

  -- Neither a word behind the block that is written.
  pub moved_beyond :
      (s : Copying) (slot source a : ℕ)
      → slot < block_at d s.block_index
      → block_at d s.block_index + d.num_int ≤ a
      → (moved s slot source).dest a ≡ s.dest a
  unfolding put overlay
  moved_beyond s slot source a front behind = ground arith

  pub moved_slot :
      (s : Copying) (slot source : ℕ) → (moved s slot source).dest slot ≡ pos s.block_index
  unfolding put
  moved_slot s slot source = ground arith

  pub moved_copy :
      (s : Copying) (slot source w : ℕ)
      → slot < block_at d s.block_index
      → w < d.num_int
      → (moved s slot source).dest (block_at d s.block_index + w) ≡ d.whole (block_at d source + w)
  unfolding put overlay
  moved_copy s slot source w before lt =
      let base = block_at d s.block_index in
      let back : base + w - base ≡ w = omega arith in
      let other : (base + w == slot) ≡ false = ground arith in
      let a : leb base (base + w) ≡ true = ground arith in
      let b : ltb (base + w) (base + d.num_int) ≡ true = ground arith in simp (other, a, b, back)
