-- ===== src/Defrag/Tail.antt =====
-- The free list and the swap region of the output of hw6/defrag.c.
use opearting_system.Base.{
  ℕ, zero, suc, ◌+◌, ◌≤◌, ◌<◌, ◌≡◌, ◌≢◌, ==-refl, ==-ne, refl, ap, ◌∙◌, arith, true, if◌then◌else◌,
  some, ltb,
}
use opearting_system.Base.Int.{ℤ, pos, negsuc, ◌-ℤ◌, eqb_ℤ}
use opearting_system.Defrag.Image.{Disk, Copying, put, store}
use opearting_system.Defrag.Copy.{block_at, link_blocks}
use opearting_system.Defrag.Blocks.{block_at-suc, block_at_mono}

module _ (d : Disk) where
  -- What is written to the free block `i`: the number of the next one, or -1 at the end.
  abbrev pub link : ℤ → ℕ → ℤ
  link swap_offset i = if eqb_ℤ (pos i) (swap_offset -ℤ pos 1) then negsuc 0 else pos (i + 1)

  -- The links of `n` free blocks from `i` on; no other word has changed.
  pub record Linked (swap_offset : ℤ) (n i : ℕ) (s t : Copying) : Type 0 where
    pub links : (j : ℕ) → j < n → t.dest (block_at d (i + j)) ≡ link swap_offset (i + j)
    pub kept : (a : ℕ) → ((j : ℕ) → j < n → a ≢ block_at d (i + j)) → t.dest a ≡ s.dest a
    pub same_index : t.block_index ≡ s.block_index

  abbrev linked : ℤ → ℕ → Copying → Copying
  linked swap_offset i s = record s { dest = put s.dest (block_at d i) (link swap_offset i) }

  linked_here :
      (swap_offset : ℤ) (i : ℕ) (s : Copying)
      → (linked swap_offset i s).dest (block_at d i) ≡ link swap_offset i
  unfolding put
  linked_here swap_offset i s = simp ==-refl

  linked_elsewhere :
      (swap_offset : ℤ) (i : ℕ) (s : Copying) (a : ℕ)
      → a ≢ block_at d i
      → (linked swap_offset i s).dest a ≡ s.dest a
  unfolding put
  linked_elsewhere swap_offset i s a ne = simp (==-ne a (block_at d i) ne)

  block_apart : (i j : ℕ) → 0 < d.num_int → block_at d i ≢ block_at d (i + 1 + j)
  block_apart i j low e =
      omega (arith, e, block_at-suc d i, block_at_mono d (i + 1) (i + 1 + j) (omega arith))

  module _ (swap_offset : ℤ) (n i : ℕ) (s t : Copying) (low : 0 < d.num_int)
      (m : Linked swap_offset n (i + 1) (linked swap_offset i s) t) where
    more-links : (j : ℕ) → j < suc n → t.dest (block_at d (i + j)) ≡ link swap_offset (i + j)
    more-links zero lt =
        ap (λ k. t.dest (block_at d k)) {x = i + 0} {y = i} (omega arith)
        ∙ m.kept (block_at d i) (λ j l. block_apart i j low)
        ∙ linked_here swap_offset i s
        ∙ ap (link swap_offset) (omega arith)
    more-links (suc j) lt =
        ap (λ k. t.dest (block_at d k)) {x = i + suc j} {y = i + 1 + j} (omega arith)
        ∙ m.links j (omega arith)
        ∙ ap (link swap_offset) {x = i + 1 + j} {y = i + suc j} (omega arith)

    more-Linked : Linked swap_offset (suc n) i s t
    more-Linked = record {
      links = more-links;
      kept = λ a h.
          m.kept a (λ j lt e.
            h (suc j) (omega arith)
              (e ∙ ap (block_at d) {x = i + 1 + j} {y = i + suc j} (omega arith)))
          ∙ linked_elsewhere swap_offset i s a
              (λ e. h 0 (omega arith) (e ∙ ap (block_at d) {x = i} {y = i + 0} (omega arith)));
      same_index = m.same_index;
    }

  block_in :
      (n i : ℕ)
      → 0 < d.num_int
      → block_at d (i + suc n) ≤ d.file_size
      → ltb (block_at d i) d.file_size ≡ true
  block_in n i low fits =
      let inside : block_at d i < d.file_size =
        omega (arith, block_at-suc d i, block_at_mono d (i + 1) (i + suc n) (omega arith)) in
      ground arith

  -- The loop over the free blocks ends, when they lie in the image and a block is not empty: each of the `n` blocks from `i` on
  -- names the next one, or holds -1 if its number is `swap_offset - 1`, and no other word changes.
  pub link_blocks-Linked :
      (swap_offset : ℤ) (n i : ℕ) (s : Copying)
      → 0 < d.num_int
      → block_at d (i + n) ≤ d.file_size
      → (t : Copying) × (link_blocks d swap_offset n i s ≡ some (tt, t))
        × Linked swap_offset n i s t
  unfolding link_blocks store
  link_blocks-Linked swap_offset zero i s low fits = (
    s,
    refl,
    record { links = λ j lt. absurd (omega arith); kept = λ a h. refl; same_index = refl },
  )
  link_blocks-Linked swap_offset (suc n) i s low fits =
      let here = block_in n i low fits in
      let same_end : block_at d (i + 1 + n) ≡ block_at d (i + suc n) =
        ap (block_at d) (omega arith) in
      let (t, runs, m) =
        link_blocks-Linked swap_offset n (i + 1) (linked swap_offset i s) low
          (omega (arith, fits, same_end)) in
      (t, simp here runs, more-Linked swap_offset n i s t low m)
