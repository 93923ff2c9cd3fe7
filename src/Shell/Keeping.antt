-- ===== src/Shell/Keeping.antt =====
-- `addToTail` and `popFront` of hw2/shell_hist.c: the length of the history, and whose lines are freed.
use mathlib.Core.Path.{subst}
use opearting_system.Base.{
  ℕ, suc, ◌+◌, ◌-◌, ◌≤◌, ◌<◌, ◌≡◌, refl, sym, ap, ◌∙◌, true, false, some, List, [], ◌∷◌, ◌++◌,
  arith, leb, length, length-append, All, Bool-cases, inl, inr, ◌⊎◌,
}
use opearting_system.Base.Int.{pos}
use opearting_system.Base.Sums.{one, one_self, occurs, weigh-snoc}
use opearting_system.Shell.History.{
  Entry, History, as_unsigned, create_node, has_id, free_node, free_line, pop_front, link_last,
  add_to_tail, find_first_n,
}
use opearting_system.Shell.Clear.{Matches}

has_id-none :
    (id : ℕ) (e : Entry) (es : List Entry)
    → 1 ≤ e.num_arg
    → has_id id (e ∷ es) ≡ false
    → (e.command_id ≡ id → ⊥) × (has_id id es ≡ false)
unfolding has_id
has_id-none id e es n h = ((λ same. ground arith), ground arith)

not_empty : (es : List Entry) → 1 ≤ length es → (e : Entry) × (rest : List Entry) × (es ≡ e ∷ rest)
not_empty [] h = absurd (omega arith)
not_empty (e ∷ es) h = (e, es, refl)

link_last-entries : (e : Entry) (h : History) → (link_last e h).entries ≡ h.entries ++ e ∷ []
unfolding link_last
link_last-entries e h = refl

module _ (line_of id_of : ℕ → ℕ) where
  -- The line of the node is not freed.
  abbrev pub IsLive : List ℕ → Entry → Type 0
  IsLive freed e = Matches line_of id_of e × (e.deleted ≡ false) × (occurs e.line freed ≡ 0)

  -- The history holds one command more than HISTSIZE at most, and no node has a freed line.
  abbrev pub IsValid : History → Type 0
  IsValid h =
      (h.num_hist ≡ length h.entries)
      × (h.num_hist ≤ suc (as_unsigned h.hist_size))
      × All (IsLive h.freed_lines) h.entries

  Live-apart :
      (freed : List ℕ) (d e : Entry)
      → Matches line_of id_of d
      → (e.command_id ≡ d.command_id → ⊥)
      → IsLive freed e
      → IsLive (freed ++ d.line ∷ []) e
  Live-apart freed d e (m, u, v) ne ((m', u', v'), del, live) =
      let other : e.line ≡ d.line → ⊥ = λ at. ne (v' ∙ ap id_of at ∙ sym v) in
      ((m', u', v'), del, ground (arith, live, weigh-snoc (one e.line) freed d.line, other))

  -- The scan of `popFront` finds nobody: the rest has other ids.
  All-apart :
      (freed : List ℕ) (d : Entry) (es : List Entry)
      → Matches line_of id_of d
      → has_id d.command_id es ≡ false
      → All (IsLive freed) es
      → All (IsLive (freed ++ d.line ∷ [])) es
  All-apart freed d [] m h a = tt
  All-apart freed d (e ∷ es) m h (live, rest) =
      let (ne, later) = has_id-none d.command_id e es live.0.0 h in
      (Live-apart freed d e m ne live, All-apart freed d es m later rest)

  All-snoc :
      (P : Entry → Type 0) (es : List Entry) (e : Entry) → All P es → P e → All P (es ++ e ∷ [])
  All-snoc P [] e a h = (h, tt)
  All-snoc P (d ∷ es) e a h = (a.0, All-snoc P es e a.1 h)

  -- The oldest node may go: there is room, another node shares its line, or the new one does not.
  abbrev pub MayDrop : History → ℕ → Type 0
  MayDrop h id =
      (h.num_hist ≤ as_unsigned h.hist_size)
      ⊎ ((first : Entry) (rest : List Entry)
          → h.entries ≡ first ∷ rest
          → (has_id first.command_id rest ≡ true) ⊎ (first.command_id ≡ id → ⊥))

  link_last-Valid :
      (e : Entry) (h : History)
      → IsLive h.freed_lines e
      → IsValid h
      → h.num_hist ≤ as_unsigned h.hist_size
      → IsValid (link_last e h)
  unfolding link_last
  link_last-Valid e h live (n, b, a) room = (
    omega (arith, n, length-append h.entries (e ∷ [])),
    omega (arith, room),
    All-snoc (IsLive h.freed_lines) h.entries e a live,
  )

  -- Dropping the oldest node of a history that is not empty makes room.
  pop_front-Valid :
      (first : Entry) (rest : List Entry) (e : Entry) (h : History)
      → h.entries ≡ first ∷ rest
      → (has_id first.command_id rest ≡ true) ⊎ (first.command_id ≡ e.command_id → ⊥)
      → IsLive h.freed_lines e
      → IsValid h
      → (t : History) × (pop_front h ≡ some t)
        × (t.entries ≡ rest)
        × IsValid t
        × IsLive t.freed_lines e
        × (t.num_hist ≤ as_unsigned t.hist_size)
  unfolding pop_front free_node free_line
  pop_front-Valid first rest e h front may live (n, b, a) =
      let all : All (IsLive h.freed_lines) (first ∷ rest) =
        subst (All (IsLive h.freed_lines)) front a in
      let len : h.num_hist ≡ suc (length rest) = n ∙ ap length front in
      elim (Bool-cases (has_id first.command_id rest)) [
        | inl shared ↦
            let t : History = record h {
              entries = rest;
              num_hist = h.num_hist - 1;
              freed_nodes = h.freed_nodes ++ first.self ∷ [];
            } in
            (
              t,
              ground (arith, front, shared),
              refl,
              (omega (arith, len), omega (arith, b), all.1),
              live,
              omega (arith, b),
            )
        | inr alone ↦
            let t : History = record h {
              entries = rest;
              num_hist = h.num_hist - 1;
              freed_nodes = h.freed_nodes ++ first.self ∷ [];
              freed_lines = h.freed_lines ++ first.line ∷ [];
            } in
            let other : e.command_id ≡ first.command_id → ⊥ = elim may [
              | inl yes_ ↦ absurd (cc)
              | inr ne ↦ λ same. ne (sym same)
            ] in
            (
              t,
              ground (arith, front, alone),
              refl,
              (
                omega (arith, len),
                omega (arith, b),
                All-apart h.freed_lines first rest all.0.0 alone all.1,
              ),
              Live-apart h.freed_lines first e all.0.0 other live,
              omega (arith, b),
            )
      ]

  -- Where ids and lines determine each other, `addToTail` puts a node with a line that is not freed at
  -- the end of a valid history, behind all its nodes or all but the oldest. The result is valid: it
  -- has at most HISTSIZE + 1 nodes, `numHist` counts them, and no line of them is freed. A condition is
  -- that a node that goes to make room shares its line with a later one or not with the new one.
  pub add_to_tail-Valid :
      (e : Entry) (h : History)
      → IsLive h.freed_lines e
      → MayDrop h e.command_id
      → IsValid h
      → (t : History) × (add_to_tail e h ≡ some t)
        × IsValid t
        × ((t.entries ≡ h.entries ++ e ∷ [])
            ⊎ ((first : Entry) × (rest : List Entry) × (h.entries ≡ first ∷ rest)
                × (t.entries ≡ rest ++ e ∷ [])))
  unfolding add_to_tail
  add_to_tail-Valid e h live may valid =
      elim (Bool-cases (leb h.num_hist (as_unsigned h.hist_size))) [
        | inl room ↦ (
          link_last e h,
          ground (arith, room),
          link_last-Valid e h live valid (ground arith),
          inl (link_last-entries e h),
        )
        | inr full ↦
            let (first, rest, front) = not_empty h.entries (ground (arith, valid.0)) in
            let may_drop : (has_id first.command_id rest ≡ true)
                ⊎ (first.command_id ≡ e.command_id → ⊥) =
              elim may [ inl room ↦ absurd (ground arith) | inr h ↦ h first rest front ] in
            let (t, popped, left, good, still, room) =
              pop_front-Valid first rest e h front may_drop live valid in
            (
              link_last e t,
              ground (arith, full, popped),
              link_last-Valid e t still good room,
              inr (first, rest, front, link_last-entries e t ∙ ap (λ es. es ++ e ∷ []) left),
            )
      ]

-- In a full history, of whose oldest command no other node has the id, `findFirstN(1)` finds that
-- command, and `addToTail` of a node made from it succeeds: the new node stands at the end, and its
-- line is freed.
pub add_to_tail-dangling :
    (self : ℕ) (first : Entry) (rest : List Entry) (h : History)
    → h.entries ≡ first ∷ rest
    → has_id first.command_id rest ≡ false
    → as_unsigned h.hist_size < h.num_hist
    → let e = create_node self first.line first.num_arg first.command_id in
      (find_first_n (pos 1) h ≡ some first)
      × ((t : History) × (add_to_tail e h ≡ some t)
          × (t.entries ≡ rest ++ e ∷ [])
          × (1 ≤ occurs e.line t.freed_lines))
unfolding add_to_tail pop_front free_node free_line link_last find_first_n create_node
add_to_tail-dangling self first rest h front alone full =
    let e = create_node self first.line first.num_arg first.command_id in
    let t : History = record h {
      entries = rest ++ e ∷ [];
      num_hist = h.num_hist - 1 + 1;
      freed_nodes = h.freed_nodes ++ first.self ∷ [];
      freed_lines = h.freed_lines ++ first.line ∷ [];
    } in
    (
      ground (arith, front),
      (
        t,
        ground (arith, front, alone),
        refl,
        omega (arith, weigh-snoc (one first.line) h.freed_lines first.line, one_self first.line),
      ),
    )
