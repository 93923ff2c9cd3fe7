-- ===== src/Shell/Free.antt =====
-- `destroyNode` and `clearList` of hw2/shell_hist.c, lines 372 to 407.
use opearting_system.Base.{ℕ, zero, suc, true, List, [], ◌∷◌, ◌==◌, if◌then◌else◌, length}
use opearting_system.Shell.History.{Entry, History, free_node, free_line}

-- The nodes with the id are marked: their line is freed.
unfoldable pub mark_id : ℕ → List Entry → List Entry
mark_id id [] = []
mark_id id (e ∷ es) =
    if e.num_arg == 0
    then e ∷ es
    else (if e.command_id == id then record e { deleted = true } else e) ∷ mark_id id es

unfoldable pub destroy_node : Entry → History → History
unfolding free_node free_line
destroy_node e h =
    if e.deleted
    then free_node e h
    else free_node e (free_line e (record h { entries = mark_id e.command_id h.entries }))

-- The loop unlinks the first node and destroys it; `n` bounds the rounds. The sentinels are freed
-- behind it.
unfoldable pub clear_loop : ℕ → History → History
clear_loop zero h = h
clear_loop (suc n) h = elim h.entries [
  | [] ↦ h
  | e ∷ es ↦
      let rest = clear_loop n (destroy_node e (record h { entries = es })) in
      if e.num_arg == 0 then h else rest
]

unfoldable pub clear_list : History → History
unfolding clear_loop
clear_list h = clear_loop (length h.entries) h
