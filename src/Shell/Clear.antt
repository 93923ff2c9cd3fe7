-- ===== src/Shell/Clear.antt =====
-- `clearList` of hw2/shell_hist.c frees everything once.
use opearting_system.Base.{
  ℕ, zero, suc, ◌+◌, ◌≤◌, ◌≡◌, refl, sym, ap, ◌∙◌, Bool, false, List, [], ◌∷◌, ◌++◌, arith, ◌==◌,
  ◌||◌, if◌then◌else◌, if_cases, length, All, Bool-cases, inl, inr, map,
}
use mathlib.Core.List.{append-nil, append_assoc}
use mathlib.Core.Path.{subst}
use opearting_system.Base.Sums.{one, occurs, weigh-snoc}
use opearting_system.Shell.History.{Entry, History, free_node, free_line}
use opearting_system.Shell.Free.{mark_id, destroy_node, clear_loop, clear_list}

-- Ids and lines determine each other, and a node has arguments.
abbrev pub Matches : (ℕ → ℕ) → (ℕ → ℕ) → Entry → Type 0
Matches line_of id_of e =
    (1 ≤ e.num_arg) × (e.line ≡ line_of e.command_id) × (e.command_id ≡ id_of e.line)

abbrev pub has_line : ℕ → List Entry → ℕ
has_line x [] = 0
has_line x (e ∷ es) = if e.line == x then 1 else has_line x es

-- The lines of the nodes that are not marked, each once.
abbrev unmarked : ℕ → List Entry → ℕ
unmarked x [] = 0
unmarked x (e ∷ es) =
    if (e.line == x) then (if e.deleted then unmarked x es else 1) else unmarked x es

-- Nodes with one id are marked all or none: `seen` tells which.
abbrev Marked : (ℕ → Bool) → Entry → Type 0
Marked seen e = e.deleted ≡ seen e.command_id

module _ (line_of id_of : ℕ → ℕ) where
  abbrev Fit : (ℕ → Bool) → List Entry → Type 0
  Fit seen es = All (λ e. Matches line_of id_of e × Marked seen e) es

  abbrev add_seen : ℕ → (ℕ → Bool) → ℕ → Bool
  add_seen id seen k = (k == id) || seen k

  mark_id-Fit :
      (id : ℕ) (seen : ℕ → Bool) (es : List Entry)
      → Fit seen es
      → Fit (add_seen id seen) (mark_id id es)
  unfolding mark_id
  mark_id-Fit id seen [] h = tt
  mark_id-Fit id seen (e ∷ es) (((n, l, k), m), rest) =
      if_cases (Fit (add_seen id seen)) (e.num_arg == 0) (λ z. absurd (ground arith))
        (λ _. ((ground arith, ground arith), mark_id-Fit id seen es rest))

  mark_id-length : (id : ℕ) (es : List Entry) → length (mark_id id es) ≡ length es
  unfolding mark_id
  mark_id-length id [] = refl
  mark_id-length id (e ∷ es) = ground (arith, mark_id-length id es)

  mark_id-nodes :
      (id : ℕ) (es : List Entry) → map (λ e. e.self) (mark_id id es) ≡ map (λ e. e.self) es
  unfolding mark_id
  mark_id-nodes id [] = refl
  mark_id-nodes id (e ∷ es) = ground (arith, mark_id-nodes id es)

  unmarked-zero :
      (x : ℕ) (seen : ℕ → Bool) (es : List Entry)
      → Fit seen es
      → (x ≡ line_of (id_of x) → ⊥)
      → unmarked x es ≡ 0
  unmarked-zero x seen [] h ne = refl
  unmarked-zero x seen (e ∷ es) (((n, l, k), m), rest) ne = elim (Bool-cases (e.line == x)) [
    | inr other ↦ rw other (unmarked-zero x seen es rest ne)
    | inl same ↦
        let at : e.line ≡ x = ground arith in
        absurd (ne (sym at ∙ l ∙ ap line_of (k ∙ ap id_of at)))
  ]

  unmarked-mark_id :
      (x id : ℕ) (seen : ℕ → Bool) (es : List Entry)
      → Fit seen es
      → unmarked x (mark_id id es) ≡ (if id_of x == id then 0 else unmarked x es)
  unfolding mark_id
  unmarked-mark_id x id seen [] h = ground arith
  unmarked-mark_id x id seen (e ∷ es) (((n, l, k), m), rest) = elim (Bool-cases (e.line == x)) [
    | inr other ↦ ground (arith, unmarked-mark_id x id seen es rest)
    | inl same ↦
        let at : e.line ≡ x = ground arith in
        let known : e.command_id ≡ id_of x = k ∙ ap id_of at in
        ground (arith, known, unmarked-mark_id x id seen es rest)
  ]

  -- A line that is freed now is not freed with a later node.
  freed_once :
      (x : ℕ) (d : Entry) (seen : ℕ → Bool) (es : List Entry)
      → Matches line_of id_of d
      → d.deleted ≡ false
      → Fit seen es
      → one x d.line + unmarked x (mark_id d.command_id es) ≡ unmarked x (d ∷ es)
  freed_once x d seen es (m, u, v) kept f = elim (Bool-cases (d.line == x)) [
    | inl same ↦
        let at : d.line ≡ x = ground arith in
        let known : d.command_id ≡ id_of x = v ∙ ap id_of at in
        ground (arith, known, kept, unmarked-mark_id x d.command_id seen es f)
    | inr other ↦ elim (Bool-cases (id_of x == d.command_id)) [
      | inr away ↦ ground (arith, unmarked-mark_id x d.command_id seen es f)
      | inl near ↦
          let known : id_of x ≡ d.command_id = ground arith in
          let away : d.line ≡ x → ⊥ = λ at. ground arith in
          let none = unmarked-zero x seen es f (λ at. away (u ∙ ap line_of (sym known) ∙ sym at)) in
          ground (arith, none, unmarked-mark_id x d.command_id seen es f)
    ]
  ]

  abbrev Cleared : List Entry → History → History → Type 0
  Cleared es h t =
      (t.entries ≡ [])
      × (t.freed_nodes ≡ h.freed_nodes ++ map (λ e. e.self) es)
      × ((x : ℕ) → occurs x t.freed_lines ≡ occurs x h.freed_lines + unmarked x es)

  clear_loop_lem :
      (n : ℕ) (es : List Entry) (seen : ℕ → Bool) (h : History)
      → h.entries ≡ es
      → length es ≡ n
      → Fit seen es
      → Cleared es h (clear_loop n h)
  unfolding clear_loop destroy_node free_node free_line
  clear_loop_lem zero [] seen h e l f = (e, sym (append-nil h.freed_nodes), λ x. omega arith)
  clear_loop_lem zero (d ∷ es) seen h e l f = absurd (omega arith)
  clear_loop_lem (suc n) [] seen h e l f = absurd (omega arith)
  clear_loop_lem (suc n) (d ∷ es) seen h e l (((m, u, v), w), f) = elim (Bool-cases d.deleted) [
    | inl gone ↦
        let next : History = record h {
          entries = es;
          freed_nodes = h.freed_nodes ++ d.self ∷ [];
        } in
        let computes : clear_loop (suc n) h ≡ clear_loop n next = ground (arith, e, gone) in
        let (a, b, c) = clear_loop_lem n es seen next refl (omega arith) f in
        subst (Cleared (d ∷ es) h) (sym computes) (
          a,
          b ∙ append_assoc h.freed_nodes (d.self ∷ []) (map (λ e. e.self) es),
          λ x. ground (arith, c x, gone),
        )
    | inr kept ↦
        let marked = mark_id d.command_id es in
        let next : History = record h {
          entries = marked;
          freed_nodes = h.freed_nodes ++ d.self ∷ [];
          freed_lines = h.freed_lines ++ d.line ∷ [];
        } in
        let computes : clear_loop (suc n) h ≡ clear_loop n next = ground (arith, e, kept) in
        let (a, b, c) =
          clear_loop_lem n marked (add_seen d.command_id seen) next refl
            (omega (arith, l, mark_id-length d.command_id es))
            (mark_id-Fit d.command_id seen es f) in
        subst (Cleared (d ∷ es) h) (sym computes) (
          a,
          b
              ∙ ap (λ q. (h.freed_nodes ++ d.self ∷ []) ++ q) (mark_id-nodes d.command_id es)
              ∙ append_assoc h.freed_nodes (d.self ∷ []) (map (λ e. e.self) es),
          λ x. omega (
            arith,
            c x,
            weigh-snoc (one x) h.freed_lines d.line,
            freed_once x d seen es (m, u, v) kept f,
          ),
        )
  ]

  unmarked-has_line :
      (x : ℕ) (es : List Entry)
      → All (λ e. Matches line_of id_of e × (e.deleted ≡ false)) es
      → unmarked x es ≡ has_line x es
  unmarked-has_line x [] h = refl
  unmarked-has_line x (e ∷ es) ((m, d), rest) = ground (arith, unmarked-has_line x es rest)

  fresh-Fit :
      (es : List Entry)
      → All (λ e. Matches line_of id_of e × (e.deleted ≡ false)) es
      → Fit (λ k. false) es
  fresh-Fit [] h = tt
  fresh-Fit (e ∷ es) (h, rest) = (h, fresh-Fit es rest)

  -- Where ids and lines determine each other, also if several nodes share a line, `clearList` empties
  -- the list, frees its nodes each once and in order, and frees the buffers of a line once
  -- if a node has the line, and not otherwise.
  pub clear_list-Cleared :
      (h : History)
      → All (λ e. Matches line_of id_of e × (e.deleted ≡ false)) h.entries
      → ((clear_list h).entries ≡ [])
        × ((clear_list h).freed_nodes ≡ h.freed_nodes ++ map (λ e. e.self) h.entries)
        × ((x : ℕ)
            → occurs x (clear_list h).freed_lines ≡ occurs x h.freed_lines + has_line x h.entries)
  unfolding clear_list
  clear_list-Cleared h ok =
      let (a, b, c) =
        clear_loop_lem (length h.entries) h.entries (λ k. false) h refl refl
          (fresh-Fit h.entries ok) in
      (a, b, λ x. omega (arith, c x, unmarked-has_line x h.entries ok))
