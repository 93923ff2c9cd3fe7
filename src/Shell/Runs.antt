-- ===== src/Shell/Runs.antt =====
-- Runs of hw2/shell_hist.c, and the theorems at concrete histories.
use opearting_system.Base.{
  ℕ, ◌+◌, ◌≤◌, ◌<◌, ◌≡◌, refl, ap, true, false, Option, none, some, List, [], ◌∷◌, ◌++◌, arith, ◌⊎◌,
  inr,
}
use opearting_system.Base.Int.{ℤ, pos}
use opearting_system.Base.Sums.{occurs}
use opearting_system.Shell.History.{
  Entry, History, create_node, has_id, link_last, add_to_tail, find_first_n, find_last_n,
}
use opearting_system.Shell.Free.{clear_list}
use opearting_system.Shell.Parse.{
  Arguments, make_args, read_line, line_of, check_hist, same_word, is_begin_with, has_prefix,
}
use opearting_system.Shell.Command.{
  Shell, Handled, Reply, replies, broken, shown, handle_words, remember, recall, call_child,
  show_history, history_word,
}
use opearting_system.Shell.Reading.{read_line-Reads, make_args-words}
use opearting_system.Shell.Clear.{has_line, clear_list-Cleared}
use opearting_system.Shell.Keeping.{IsValid, add_to_tail-Valid, add_to_tail-dangling}

abbrev node : ℕ → ℕ → Entry
node self line = record {
  self = self;
  line = line;
  num_arg = 1;
  command_id = line;
  deleted = false;
}

-- Line 0 was given, then line 1, then line 0 again by `!1`. HISTSIZE is 2.
abbrev three : History
three = record {
  entries = node 10 0 ∷ node 11 1 ∷ node 12 0 ∷ [];
  num_hist = 3;
  command_id = 2;
  hist_size = pos 2;
  freed_nodes = [];
  freed_lines = [];
}

abbrev head_id : List Entry → ℕ
head_id [] = 0
head_id (e ∷ es) = e.command_id

-- A full history without repetitions.
abbrev full : History
full = record three { entries = node 10 0 ∷ node 11 1 ∷ node 12 2 ∷ []; command_id = 3 }

add_to_tail-Valid_example :
    (t : History) × (add_to_tail (node 13 5) three ≡ some t)
    × IsValid (λ n. n) (λ n. n) t
    × ((t.entries ≡ node 10 0 ∷ node 11 1 ∷ node 12 0 ∷ node 13 5 ∷ [])
        ⊎ ((first : Entry) × (rest : List Entry) × (three.entries ≡ first ∷ rest)
            × (t.entries ≡ rest ++ node 13 5 ∷ [])))
add_to_tail-Valid_example =
    add_to_tail-Valid (λ n. n) (λ n. n) (node 13 5) three ((omega arith, refl, refl), refl, refl)
      (inr λ first rest e. inr λ h. omega (arith, ap head_id e, h))
      (
        refl,
        omega arith,
        (
          ((omega arith, refl, refl), refl, refl),
          (((omega arith, refl, refl), refl, refl), (((omega arith, refl, refl), refl, refl), tt)),
        ),
      )

add_to_tail-dangling_example :
    (find_first_n (pos 1) full ≡ some (node 10 0))
    × ((t : History) × (add_to_tail (create_node 13 0 1 0) full ≡ some t)
        × (t.entries ≡ node 11 1 ∷ node 12 2 ∷ create_node 13 0 1 0 ∷ [])
        × (1 ≤ occurs (create_node 13 0 1 0).line t.freed_lines))
unfolding has_id
add_to_tail-dangling_example =
    add_to_tail-dangling 13 (node 10 0) (node 11 1 ∷ node 12 2 ∷ []) full refl refl (omega arith)

clear_list-Cleared_example :
    ((clear_list three).entries ≡ [])
    × ((clear_list three).freed_nodes ≡ 10 ∷ 11 ∷ 12 ∷ [])
    × ((x : ℕ) → occurs x (clear_list three).freed_lines ≡ occurs x [] + has_line x three.entries)
clear_list-Cleared_example =
    clear_list-Cleared (λ n. n) (λ n. n) three
      (
        ((omega arith, refl, refl), refl),
        (((omega arith, refl, refl), refl), (((omega arith, refl, refl), refl), tt)),
      )

read_line-Reads_example :
    (room : ℕ) × (read_line (108 ∷ 115 ∷ 10 ∷ [])
      ≡ some (line_of (record { room = room; text = 108 ∷ 115 ∷ [] })))
    × (2 < room)
    × (room ≤ 6)
read_line-Reads_example =
    read_line-Reads (108 ∷ 115 ∷ []) 10 [] (refl, (refl, tt)) refl (omega arith) refl

make_args-words_example :
    (a : Arguments) × (make_args ((108 ∷ 115 ∷ []) ∷ []) ≡ some a)
    × (a.words ≡ (108 ∷ 115 ∷ []) ∷ [])
    × (1 < a.slots)
    × (a.slots ≤ 3)
make_args-words_example = make_args-words ((108 ∷ 115 ∷ []) ∷ []) (omega arith)

abbrev no_number : List ℕ → ℤ
no_number w = pos 0

abbrev started : Shell
started = record {
  history = record full { entries = []; num_hist = 0; command_id = 0 };
  written = λ n. [];
  next_line = 0;
  next_node = 0;
}

abbrev next : Handled → Shell
next (replies s r) = s
next broken = started

abbrev reply : Handled → Option Reply
reply (replies s r) = some r
reply broken = none

abbrev ls : List ℕ
ls = 108 ∷ 115 ∷ []

-- A command, the same again by `!!`, and the history.
show_both :
    reply (
      handle_words no_number true history_word [] (
        next (
          handle_words no_number true
            (33 ∷ 33 ∷ [])
            []
            (next (handle_words no_number true ls [] started)))))
    ≡ some (shown ((ls ∷ []) ∷ (ls ∷ []) ∷ (history_word ∷ []) ∷ []))
unfolding handle_words check_hist same_word is_begin_with has_prefix remember recall call_child
    show_history add_to_tail link_last create_node find_last_n
show_both = refl
