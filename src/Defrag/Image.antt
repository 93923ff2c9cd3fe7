-- ===== src/Defrag/Image.antt =====
-- The buffers of hw6/defrag.c, by words of four bytes, and the structs of hw6/defrag.h.
use opearting_system.Base.{
  ℕ, zero, suc, ◌+◌, ◌-◌, Bool, ◌&&◌, Option, none, some, List, [], ◌∷◌, leb, ltb, ◌==◌,
  if◌then◌else◌,
}
use opearting_system.Base.Int.{ℤ, pos, negsuc}

-- The word at each address, which counts words.
abbrev pub Image : Type 0
Image = ℕ → ℤ

-- N_DBLOCKS and N_IBLOCKS, and BOOT_SIZE, SUPER_SIZE and INODE_SIZE in words.
abbrev pub n_dblocks : ℕ
n_dblocks = 10

abbrev pub n_iblocks : ℕ
n_iblocks = 4

abbrev pub boot_size : ℕ
boot_size = 128

abbrev pub super_size : ℕ
super_size = 128

abbrev pub inode_size : ℕ
inode_size = 25

-- The fields of `SuperBlock`, by the word they take in it.
abbrev pub sb_size : ℕ
sb_size = boot_size + 0

abbrev pub sb_inode_offset : ℕ
sb_inode_offset = boot_size + 1

abbrev pub sb_data_offset : ℕ
sb_data_offset = boot_size + 2

abbrev pub sb_swap_offset : ℕ
sb_swap_offset = boot_size + 3

abbrev pub sb_free_block : ℕ
sb_free_block = boot_size + 5

-- The fields of `Inode`, likewise.
abbrev pub nlink : ℕ
nlink = 2

abbrev pub size : ℕ
size = 3

abbrev pub dblocks : ℕ
dblocks = 9

abbrev pub iblocks : ℕ
iblocks = 19

abbrev pub i2block : ℕ
i2block = 23

abbrev pub i3block : ℕ
i3block = 24

-- What `main` reads once: the input, FILE_SIZE, `num_int_in_block` and DATA_BEGIN, the last three in
-- words.
pub record Disk : Type 0 where
  pub whole : Image
  pub file_size : ℕ
  pub num_int : ℕ
  pub data_begin : ℕ

-- What changes: the output, `block_index`, `finished`, and what has been written to `data_file`.
pub record Copying : Type 0 where
  pub dest : Image
  pub block_index : ℕ
  pub finished : Bool
  pub data_file : List ℤ

-- `none` is an access outside a buffer.
abbrev pub Cmd : Type 0 → Type 0
Cmd A = Copying → Option (A × Copying)

abbrev pub pure : {A : Type 0} → A → Cmd A
pure a s = some (a, s)

abbrev pub fault : {A : Type 0} → Cmd A
fault s = none

module _ {A B : Type 0} where
  abbrev pub and_then : Option (A × Copying) → (A → Cmd B) → Option (B × Copying)
  and_then none k = none
  and_then (some (a, s)) k = k a s

  infixl 5 ◌>>=◌ ◌>>◌
  abbrev pub ◌>>=◌ : Cmd A → (A → Cmd B) → Cmd B
  m >>= k = λ s. and_then (m s) k

  abbrev pub ◌>>◌ : Cmd A → Cmd B → Cmd B
  m >> n = m >>= λ _. n

abbrev pub get : Cmd Copying
get s = some (s, s)

abbrev pub modify : (Copying → Copying) → Cmd (Unit {0})
modify f s = some (tt, f s)

-- A number that is used as an offset: a negative one points in front of the buffer.
abbrev pub offset : ℤ → Cmd ℕ
offset (pos n) = pure n
offset (negsuc n) = fault

-- `n` words from `from` on take the place of those from `to` on.
unfoldable pub overlay : Image → Image → (to from n : ℕ) → Image
overlay dest src to from n a = if leb to a && ltb a (to + n) then src (from + (a - to)) else dest a

-- memcpy(dest_buffer + to, whole_buffer + from, n)
unfoldable pub memcpy : Disk → (to from n : ℕ) → Cmd (Unit {0})
unfolding overlay
memcpy d to from n =
    if leb (to + n) d.file_size && leb (from + n) d.file_size
    then modify (λ s. record s { dest = overlay s.dest d.whole to from n })
    else fault

unfoldable pub put : Image → ℕ → ℤ → Image
put m a v b = if b == a then v else m b

-- A word of the output is set.
unfoldable pub store : Disk → ℕ → ℤ → Cmd (Unit {0})
unfolding put
store d a v = if ltb a d.file_size then modify (λ s. record s { dest = put s.dest a v }) else fault

-- The words from `a` on.
unfoldable pub words : Image → (n a : ℕ) → List ℤ
words m zero a = []
words m (suc n) a = m a ∷ words m n (a + 1)
