-- ===== src/Shell/Command.antt =====
-- hw2/shell_hist.c, lines 157 to 248 and 409 to 424: what `main` does with a line, and `callChild`.
use opearting_system.Base.{
  ℕ, suc, Bool, false, Option, none, some, List, [], ◌∷◌, ◌++◌, ◌==◌, if◌then◌else◌, length,
}
use opearting_system.Base.Int.{ℤ, pos}
use opearting_system.Shell.History.{
  Entry, History, create_node, add_to_tail, find_first_n, find_last_n,
}
use opearting_system.Shell.Free.{clear_list}
use opearting_system.Shell.Parse.{
  invalid, command, last, last_n, first_n, same_word, check_hist, after_one, after_two,
}

-- The shell between two lines. `written` has the words of each line that was read, by its number.
pub record Shell : Type 0 where
  pub history : History
  pub written : ℕ → List (List ℕ)
  pub next_line : ℕ
  pub next_node : ℕ

-- What a line comes to: the next prompt, after a child has run or words were printed, or the end.
pub data Reply : Type 0 where
  quiet exits : Reply
  ran : List (List ℕ) → Reply
  shown : List (List (List ℕ)) → Reply

pub data Handled : Type 0 where
  replies : Shell → Reply → Handled
  broken : Handled

-- "exit" and "history".
abbrev exit_word : List ℕ
exit_word = 101 ∷ 120 ∷ 105 ∷ 116 ∷ []

abbrev pub history_word : List ℕ
history_word = 104 ∷ 105 ∷ 115 ∷ 116 ∷ 111 ∷ 114 ∷ 121 ∷ []

abbrev is_word : List ℕ → List (List ℕ) → Bool
is_word w (v ∷ []) = same_word v w
is_word w _ = false

-- The words of each node, up to one without arguments.
unfoldable pub show_history : (ℕ → List (List ℕ)) → List Entry → List (List (List ℕ))
show_history written [] = []
show_history written (e ∷ es) =
    if e.num_arg == 0 then [] else written e.line ∷ show_history written es

-- `forked` says whether `fork` has made a child; the parent waits for it.
unfoldable pub call_child : Bool → List (List ℕ) → Shell → Handled
unfolding show_history
call_child forked words s =
    if is_word exit_word words
    then replies (record s { history = clear_list s.history }) exits
    else if is_word history_word words
    then replies s (shown (show_history s.written s.history.entries))
    else if forked
    then replies s (ran words)
    else replies s exits

-- A node for the line `line` is linked, and the command called.
unfoldable pub remember : Bool → ℕ → ℕ → ℕ → Shell → Handled
unfolding create_node call_child
remember forked line num_arg id s =
    elim (add_to_tail (create_node s.next_node line num_arg id) s.history) [
      | none ↦ broken
      | some h ↦
          call_child forked (s.written line) (record s { history = h; next_node = suc s.next_node })
    ]

-- The two buffers of the line that was just read are freed, unless the process has ended.
abbrev drop_line : ℕ → Handled → Handled
drop_line line broken = broken
drop_line line (replies s exits) = replies s exits
drop_line line (replies s r) =
    replies
      (record s {
        history = record (s.history) { freed_lines = s.history.freed_lines ++ line ∷ [] };
      })
      r

unfoldable pub recall : Bool → Option Entry → Shell → Handled
unfolding remember
recall forked none s = replies s quiet
recall forked (some e) s = remember forked e.line e.num_arg e.command_id s

-- A line of which `strtok` has made these words, and at least one.
unfoldable pub handle_words : (List ℕ → ℤ) → Bool → List ℕ → List (List ℕ) → Shell → Handled
unfolding remember recall
handle_words atoi forked w ws s =
    let line = s.next_line in
    let read = record s {
      written = λ n. if n == line then w ∷ ws else s.written n;
      next_line = suc line;
    } in
    let h = s.history in
    elim (check_hist atoi w) [
      | last ↦ drop_line line (recall forked (find_last_n (pos 1) h) read)
      | last_n ↦ drop_line line (recall forked (find_last_n (atoi (after_two w)) h) read)
      | first_n ↦ drop_line line (recall forked (find_first_n (atoi (after_one w)) h) read)
      | invalid ↦ drop_line line (replies read quiet)
      | command ↦
          remember forked line (suc (length ws)) h.command_id
            (record read { history = record h { command_id = suc h.command_id } })
    ]
