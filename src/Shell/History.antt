-- ===== src/Shell/History.antt =====
-- The history of hw2/shell_hist.c, lines 261 to 370: adding, dropping and finding commands.
use mathlib.Core.List.{reverse}
use opearting_system.Base.{
  ℕ, zero, suc, ◌+◌, ◌-◌, ◌^◌, Bool, true, false, Option, none, some, List, [], ◌∷◌, ◌++◌, ltb, leb,
  ◌==◌, if◌then◌else◌, get_elem?,
}
use opearting_system.Base.Int.{ℤ, pos, negsuc}

-- `histCommand`. `self` names the node itself, and `line` the two buffers that `command` and `args`
-- point to: they are made together for one line of input and freed together.
pub record Entry : Type 0 where
  pub self : ℕ
  pub line : ℕ
  pub num_arg : ℕ
  pub command_id : ℕ
  pub deleted : Bool

-- The global variables. `entries` are the nodes between `head` and `tail`, in order, and `freed_*`
-- what `free` has been called for, in order.
pub record History : Type 0 where
  pub entries : List Entry
  pub num_hist : ℕ
  pub command_id : ℕ
  pub hist_size : ℤ
  pub freed_nodes : List ℕ
  pub freed_lines : List ℕ

-- An `int` as it is compared with the unsigned `numHist`.
abbrev pub as_unsigned : ℤ → ℕ
as_unsigned (pos n) = n
as_unsigned (negsuc n) = 2 ^ 32 - suc n

-- A node that is neither a sentinel nor linked.
unfoldable pub create_node : ℕ → ℕ → ℕ → ℕ → Entry
create_node self line num_arg command_id = record {
  self = self;
  line = line;
  num_arg = num_arg;
  command_id = command_id;
  deleted = false;
}

-- The loops over the list stop at a node with no arguments, as `tail` is.
unfoldable pub has_id : ℕ → List Entry → Bool
has_id id [] = false
has_id id (e ∷ es) =
    if e.num_arg == 0 then false else if e.command_id == id then true else has_id id es

unfoldable pub free_node : Entry → History → History
free_node e h = record h { freed_nodes = h.freed_nodes ++ e.self ∷ [] }

unfoldable pub free_line : Entry → History → History
free_line e h = record h { freed_lines = h.freed_lines ++ e.line ∷ [] }

-- With an empty list the function would free `tail`, which is no result.
unfoldable pub pop_front : History → Option History
unfolding free_node free_line
pop_front h = elim h.entries [
  | [] ↦ none
  | first ∷ rest ↦
      let unlinked = record h { entries = rest; num_hist = h.num_hist - 1 } in
      some (
        if has_id first.command_id rest
        then free_node first unlinked
        else free_node first (free_line first unlinked))
]

unfoldable pub link_last : Entry → History → History
link_last e h = record h { entries = h.entries ++ e ∷ []; num_hist = h.num_hist + 1 }

unfoldable pub add_to_tail : Entry → History → Option History
unfolding link_last
add_to_tail e h =
    if leb h.num_hist (as_unsigned h.hist_size)
    then some (link_last e h)
    else elim (pop_front h) [ none ↦ none | some popped ↦ some (link_last e popped) ]

-- `n` steps from a sentinel; with none the sentinel itself is found, which is no command.
abbrev pub walk : ℕ → List Entry → Option Entry
walk zero es = none
walk (suc n) es = get_elem? es n

unfoldable pub find_first_n : ℤ → History → Option Entry
find_first_n n h = if ltb h.num_hist (as_unsigned n) then none else walk (as_unsigned n) h.entries

unfoldable pub find_last_n : ℤ → History → Option Entry
find_last_n n h =
    if ltb h.num_hist (as_unsigned n) then none else walk (as_unsigned n) (reverse h.entries)
