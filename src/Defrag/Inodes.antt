-- ===== src/Defrag/Inodes.antt =====
-- The loop over the inodes of hw6/defrag.c moves all files.
use opearting_system.Base.{
  ℕ, ◌+◌, ◌-◌, ◌*◌, ◌≤◌, ◌<◌, ◌≡◌, refl, ap, ◌∙◌, arith, true, false, List, some, inl, inr,
}
use opearting_system.Base.Int.{pos, eqb_ℤ}
use opearting_system.Defrag.Image.{Disk, Copying, nlink, size, dblocks, inode_size}
use opearting_system.Defrag.Copy.{block_at, copy_inode, copy_inodes}
use opearting_system.Defrag.Blocks.{block_at_mono}
use opearting_system.Defrag.Files.{InFile, OutFile, Stage}
use opearting_system.Defrag.Levels.{move_file-FileMoved}
use opearting_system.Defrag.Disks.{
  InDisk, no_inode, unused, used, Same, OutDisk, OutFile-kept, Within, inode_copied, memcpy-inode,
  inode-Same, inode_elsewhere,
}

module _ (d : Disk) where
  inode_word :
      (curr a : ℕ) (s : Copying)
      → curr ≤ a
      → a < curr + inode_size
      → (inode_copied d curr s).dest a ≡ d.whole a
  inode_word curr a s h lt =
      ap (inode_copied d curr s).dest {x = a} {y = curr + (a - curr)} (omega arith)
      ∙ inode-Same d curr s (a - curr) (omega arith)
      ∙ ap d.whole (omega arith)

  -- An unused inode is copied and no more.
  copy_inode-unused :
      (curr : ℕ) (s : Copying)
      → curr + inode_size ≤ d.file_size
      → eqb_ℤ (d.whole (curr + nlink)) (pos 0) ≡ true
      → copy_inode d curr s ≡ some (tt, inode_copied d curr s)
  unfolding copy_inode
  copy_inode-unused curr s fits no_link =
      simp (memcpy-inode d curr s fits, inode-Same d curr s nlink (omega arith), no_link)

  -- What `copy_inode` does to the inode of a file.
  record FileCopied (curr b : ℕ) (xs : List ℕ) (s : Copying) : Type 0 where
    t : Copying
    runs : copy_inode d curr s ≡ some (tt, t)
    index : t.block_index ≡ s.block_index + b
    head : Same d t.dest curr dblocks
    file : OutFile d curr (d.whole (curr + size)) t.dest s.block_index t.block_index xs
    within : Within d curr (curr + inode_size) s t

  copy_inode-FileCopied :
      (curr b : ℕ) (xs : List ℕ) (s : Copying)
      → curr + inode_size ≤ d.file_size
      → curr + inode_size ≤ block_at d s.block_index
      → eqb_ℤ (d.whole (curr + nlink)) (pos 0) ≡ false
      → InFile d curr (d.whole (curr + size)) b xs
      → block_at d (s.block_index + b) ≤ d.file_size
      → FileCopied curr b xs s
  unfolding copy_inode
  copy_inode-FileCopied curr b xs s fits front linked i room =
      let s1 = inode_copied d curr s in
      let st : Stage d curr (curr + dblocks) s1 = record {
        same = λ a h lt. inode_word curr a s (omega arith) lt;
        in_front = front;
      } in
      let m = move_file-FileMoved d curr (d.whole (curr + size)) b xs s1 i st room in
      record {
        t = m.t;
        runs = simp (
          memcpy-inode d curr s fits,
          inode-Same d curr s nlink (omega arith),
          inode-Same d curr s size (omega arith),
          linked,
          m.runs,
        );
        index = m.index;
        head = λ j lt.
            m.later.kept (curr + j) (omega (arith, front)) (inl (omega arith))
            ∙ inode-Same d curr s j (omega arith);
        file = m.file;
        within = record {
          on = m.later.on;
          kept = λ a lt side.
              m.later.kept a lt
                (elim side [ inl before ↦ inl (omega arith) | inr behind ↦ inr behind ])
              ∙ inode_elsewhere d curr a s side;
          beyond = λ a behind.
              m.later.beyond a behind
              ∙ inode_elsewhere d curr a s (
                  inr (
                    omega
                      (arith, front, block_at_mono d s.block_index m.t.block_index m.later.on)));
        };
      }

  -- The region of inodes is copied, with the blocks of all files.
  pub record DiskCopied (n curr c : ℕ) (files : List (List ℕ)) (s : Copying) : Type 0 where
    pub t : Copying
    pub runs : copy_inodes d n curr s ≡ some (tt, t)
    pub index : t.block_index ≡ s.block_index + c
    pub disk : OutDisk d t.dest n curr s.block_index t.block_index files
    pub within : Within d curr (curr + n * inode_size) s t

  -- The loop over the inodes, if they lie in front of the data blocks, the files have their blocks in the
  -- input and none ends with its indirect blocks, or its doubly or triply indirect block, full (`InDisk`),
  -- and the output has room: it ends; in the output each file's tree of blocks is that of the input, with
  -- the same contents; the blocks of the files, `c` in all, stand one behind another without a gap, in
  -- the order of the inodes; unused inodes are copied; and nothing outside the region of the inodes and
  -- the fresh blocks changes.
  pub copy_inodes-DiskCopied :
      {n curr c : ℕ} {files : List (List ℕ)}
      → InDisk d n curr c files
      → (s : Copying) → curr + n * inode_size ≤ block_at d s.block_index
      → curr + n * inode_size ≤ d.file_size
      → block_at d (s.block_index + c) ≤ d.file_size
      → DiskCopied n curr c files s
  unfolding copy_inodes
  copy_inodes-DiskCopied {curr} no_inode s front fits room = record {
    t = s;
    runs = refl;
    index = omega arith;
    disk = no_inode;
    within = record { on = omega arith; kept = λ a lt side. refl; beyond = λ a behind. refl };
  }
  copy_inodes-DiskCopied {curr} (unused {n} {c} no_link i) s front fits room =
      let s1 = inode_copied d curr s in
      let r = copy_inodes-DiskCopied i s1 (omega (arith, front)) (omega (arith, fits)) room in
      record {
        t = r.t;
        runs = simp (copy_inode-unused curr s (omega (arith, fits)) no_link, r.runs);
        index = r.index;
        disk =
            unused
              (λ j lt.
                r.within.kept (curr + j) (omega (arith, front)) (inl (omega arith))
                ∙ inode-Same d curr s j lt)
              r.disk;
        within = record {
          on = r.within.on;
          kept = λ a lt side.
              r.within.kept a lt
                (elim side [ inl before ↦ inl (omega arith) | inr behind ↦ inr (omega arith) ])
              ∙ inode_elsewhere d curr a s
                  (elim side [ inl before ↦ inl before | inr behind ↦ inr (omega arith) ]);
          beyond = λ a behind.
              r.within.beyond a behind
              ∙ inode_elsewhere d curr a s (
                  inr (
                    omega
                      (arith, front, block_at_mono d s.block_index r.t.block_index r.within.on)));
        };
      }
  copy_inodes-DiskCopied {curr} (used {n} {b} {c} {xs} linked i j) s front fits room =
      let m =
        copy_inode-FileCopied curr b xs s (omega (arith, fits)) (omega (arith, front)) linked i (
          omega (
            arith,
            room,
            block_at_mono d (s.block_index + b) (s.block_index + (b + c)) (omega arith),
          )) in
      let up = block_at_mono d s.block_index m.t.block_index m.within.on in
      let r = copy_inodes-DiskCopied j m.t (omega (arith, front, up)) (omega (arith, fits)) (
        omega (
          arith,
          room,
          block_at_mono d (m.t.block_index + c) (s.block_index + (b + c)) (omega (arith, m.index)),
        )) in
      let behind : (a : ℕ) → a < curr + inode_size → a < block_at d m.t.block_index =
        λ a lt. omega (arith, front, up) in
      record {
        t = r.t;
        runs = simp (m.runs, r.runs);
        index = omega (arith, m.index, r.index);
        disk =
            used
              (λ o lt.
                r.within.kept (curr + o) (behind (curr + o) (omega arith)) (inl (omega arith))
                ∙ m.head o lt)
              (OutFile-kept r.t.dest m.file (λ a h lt. r.within.kept a (behind a lt) (inl lt))
                (λ a h lt. r.within.kept a lt (inr (omega (arith, front, h)))))
              r.disk;
        within = record {
          on = omega (arith, m.within.on, r.within.on);
          kept = λ a lt side.
              r.within.kept a (omega (arith, up))
                (elim side [ inl before ↦ inl (omega arith) | inr after ↦ inr (omega arith) ])
              ∙ m.within.kept a lt
                  (elim side [ inl before ↦ inl before | inr after ↦ inr (omega arith) ]);
          beyond = λ a behind.
              r.within.beyond a behind
              ∙ m.within.beyond a
                  (omega (arith, block_at_mono d m.t.block_index r.t.block_index r.within.on));
        };
      }
