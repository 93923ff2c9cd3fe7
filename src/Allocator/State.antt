-- ===== src/Allocator/State.antt =====
-- hw5/util.h and the globals of hw5/mem.c: block headers, the region's head, the allocator's
-- global variables, and commands that read and write them.
use opearting_system.Base.{ℕ, ◌+◌, Bool, false, ◌&&◌, leb, ◌==◌, if◌then◌else◌}
use opearting_system.Base.Int.{ℤ, pos, negsuc}

abbrev pub Ptr : Type 0
Ptr = ℕ

abbrev pub null : Ptr
null = 0

-- The macros FREE, ALLOCATED, BLOCK_HEADER, GLOBAL_SIZE and BLOCK_SIZE.
abbrev pub free : ℕ
free = 0

abbrev pub allocated : ℕ
allocated = 1

abbrev pub block_header : ℕ
block_header = 32

abbrev pub global_size : ℕ
global_size = 48

abbrev pub block_size : ℕ
block_size = 8

-- The error codes of mem.h that the functions set.
abbrev pub e_no_space : ℕ
e_no_space = 1

abbrev pub e_bad_args : ℕ
e_bad_args = 4

abbrev pub return_success : ℤ
return_success = pos 0

abbrev pub return_with_error : ℤ
return_with_error = negsuc 0

-- `struct A_Block`
pub record Node : Type 0 where
  pub next : Ptr
  pub prev : Ptr
  pub next_free : Ptr
  pub status : ℕ

-- What a page fresh from `mmap` holds: zeros.
abbrev pub zero_node : Node
zero_node = record { next = null; prev = null; next_free = null; status = free }

-- The struct at `global_head`, with its address.
pub record Head : Type 0 where
  pub base : Ptr
  pub head : Ptr
  pub head_free : Ptr
  pub actual_size : ℕ
  pub remaining_size : ℤ

-- The pointer `global_head`: NULL, MAP_FAILED after a failed `mmap`, or the region's address.
pub data GlobalHead : Type 0 where
  unset : GlobalHead
  map_failed : GlobalHead
  region : Head → GlobalHead

-- The global variables, and for each address the header that is read there.
pub record Globals : Type 0 where
  pub global_head : GlobalHead
  pub m_error : ℕ
  pub largest : Ptr
  pub second_largest : Ptr
  pub last_block_size : ℤ
  pub need_global_coalesce : Bool
  pub size_of_last_allocate : ℤ
  pub heap : Ptr → Node

-- The state in which a program starts.
abbrev pub initial : Globals
initial = record {
  global_head = unset;
  m_error = 0;
  largest = null;
  second_largest = null;
  last_block_size = pos 0;
  need_global_coalesce = false;
  size_of_last_allocate = pos 0;
  heap = λ _. zero_node;
}

-- `fault` is an access through NULL or outside the region; `out_of_fuel` is a loop that has not
-- ended within the rounds that it was given.
pub data Run (A : Type 0) : Type 0 where
  done : A → Globals → Run A
  fault : Run A
  out_of_fuel : Run A

abbrev pub Cmd : Type 0 → Type 0
Cmd A = Globals → Run A

abbrev pub pure : {A : Type 0} → A → Cmd A
pure = done

module _ {A B : Type 0} where
  abbrev pub and_then : Run A → (A → Cmd B) → Run B
  and_then (done a g) k = k a g
  and_then fault k = fault
  and_then out_of_fuel k = out_of_fuel

  infixl 5 ◌>>=◌ ◌>>◌
  abbrev pub ◌>>=◌ : Cmd A → (A → Cmd B) → Cmd B
  m >>= k = λ g. and_then (m g) k

  abbrev pub ◌>>◌ : Cmd A → Cmd B → Cmd B
  m >> n = m >>= λ _. n

abbrev pub get : Cmd Globals
get g = done g g

abbrev pub modify : (Globals → Globals) → Cmd (Unit {0})
modify f g = done tt (f g)

-- `global_head->…`: a fault unless there is a region.
abbrev pub the_head : Cmd Head
the_head g = elim g.global_head [ unset ↦ fault | map_failed ↦ fault | region h ↦ done h g ]

abbrev pub set_head : Head → Cmd (Unit {0})
set_head h = modify (λ g. record g { global_head = region h })

-- A header at `p` lies in the region, behind the region's own head.
unfoldable pub inside : (base size : ℕ) → Ptr → Bool
inside base size p = leb (base + block_header) p && leb (p + block_header) (base + size)

abbrev pub mapped : GlobalHead → Ptr → Bool
mapped unset p = false
mapped map_failed p = false
mapped (region h) p = inside h.base h.actual_size p

unfoldable pub update : (Ptr → Node) → Ptr → Node → Ptr → Node
update f p n q = if q == p then n else f q

-- `*p`
unfoldable pub load : Ptr → Cmd Node
unfolding inside
load p g = if mapped g.global_head p then done (g.heap p) g else fault

-- `*p = n`: each of the program's writes to a field of `*p` stores the header with that field anew.
unfoldable pub store : Ptr → Node → Cmd (Unit {0})
unfolding inside update
store p n g =
    if mapped g.global_head p then done tt (record g { heap = update g.heap p n }) else fault

unfoldable pub set_next : Ptr → Ptr → Cmd (Unit {0})
unfolding load store
set_next p q = do n ← load p; store p (record n { next = q })

unfoldable pub set_prev : Ptr → Ptr → Cmd (Unit {0})
unfolding load store
set_prev p q = do n ← load p; store p (record n { prev = q })

unfoldable pub set_next_free : Ptr → Ptr → Cmd (Unit {0})
unfolding load store
set_next_free p q = do n ← load p; store p (record n { next_free = q })

unfoldable pub set_status : Ptr → ℕ → Cmd (Unit {0})
unfolding load store
set_status p s = do n ← load p; store p (record n { status = s })

unfoldable pub set_head_free : Ptr → Cmd (Unit {0})
set_head_free p = do h ← the_head; set_head (record h { head_free = p })

abbrev pub set_error : ℕ → Cmd (Unit {0})
set_error e = modify (λ g. record g { m_error = e })

abbrev pub set_largest : Ptr → Cmd (Unit {0})
set_largest p = modify (λ g. record g { largest = p })

abbrev pub set_second_largest : Ptr → Cmd (Unit {0})
set_second_largest p = modify (λ g. record g { second_largest = p })

abbrev pub set_last_block_size : ℤ → Cmd (Unit {0})
set_last_block_size z = modify (λ g. record g { last_block_size = z })
