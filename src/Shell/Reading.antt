-- ===== src/Shell/Reading.antt =====
-- Reading a line and making the arguments of hw2/shell_hist.c stay inside their buffers.
use opearting_system.Base.{
  ℕ, ◌+◌, ◌*◌, ◌≤◌, ◌<◌, ◌≡◌, refl, sym, ap, ◌∙◌, Bool, true, false, ◌||◌, Option, none, some, List,
  [], ◌∷◌, ◌++◌, arith, leb, ◌==◌, ◌^◌, Bool-cases, inl, inr, length, length-append, All,
}
use mathlib.Core.List.{append_assoc, append-nil}
use opearting_system.Shell.Parse.{
  Buffer, grow, read_from, line_of, read_line, max_length, Arguments, more_slots, put_word,
  put_words, make_args,
}

-- A character that ends a line, and one that does not.
abbrev ends_line : ℕ → Bool
ends_line c = c == 0 || c == 10

read_end :
    (c : ℕ) (rest : List ℕ) (b : Buffer)
    → ends_line c ≡ true
    → length b.text < b.room
    → read_from (c ∷ rest) b ≡ some b
unfolding read_from
read_end c rest b e lt = ground arith

read_step :
    (d : ℕ) (cs : List ℕ) (b : Buffer)
    → ends_line d ≡ false
    → length b.text < b.room
    → (g : Buffer) → grow (record b { text = b.text ++ d ∷ [] }) ≡ some g
    → read_from (d ∷ cs) b ≡ read_from cs g
unfolding read_from
read_step d cs b e lt g grown = ground (arith, grown)

-- After a write the buffer has room for one more character, and not more than twice what it needs.
grow_lem :
    (b : Buffer)
    → 1 ≤ length b.text
    → length b.text ≤ b.room
    → b.room ≤ 2 * length b.text
    → length b.text < 2 ^ 30
    → (g : Buffer) × (grow b ≡ some g)
      × (g.text ≡ b.text)
      × (length b.text < g.room)
      × (g.room ≤ 2 * length b.text + 2)
unfolding grow
grow_lem b pos le small short = elim (Bool-cases (leb b.room (length b.text))) [
  | inl full ↦ (record b { room = b.room * 2 }, ground arith, refl, ground arith, ground arith)
  | inr enough ↦ (b, ground arith, refl, ground arith, ground arith)
]

-- The loop, from a buffer that has room for one more character.
abbrev Reads : List ℕ → Option Buffer → Type 0
Reads text o =
    (room : ℕ) × (o ≡ some (record { room = room; text = text }))
    × (length text < room)
    × (room ≤ 2 * length text + 2)

retold :
    {o p : Option Buffer} {room : ℕ} {u v : List ℕ}
    → o ≡ p
    → p ≡ some (record { room = room; text = u })
    → u ≡ v
    → o ≡ some (record { room = room; text = v })
retold {room} a b c = a ∙ b ∙ ap (λ u. some (record { room = room; text = u })) c

read_from_lem :
    (text : List ℕ) (c : ℕ) (rest : List ℕ) (b : Buffer)
    → All (λ d. ends_line d ≡ false) text
    → ends_line c ≡ true
    → length b.text < b.room
    → b.room ≤ 2 * length b.text + 2
    → length b.text + length text < 2 ^ 30
    → Reads (b.text ++ text) (read_from (text ++ c ∷ rest) b)
read_from_lem [] c rest b all e lt le short =
    let same = append-nil b.text in
    (
      b.room,
      read_end c rest b e lt ∙ ap (λ t. some (record { room = b.room; text = t })) (sym same),
      omega (arith, lt, ap length same),
      omega (arith, le, ap length same),
    )
read_from_lem (d ∷ text) c rest b all e lt le short =
    let written : Buffer = record b { text = b.text ++ d ∷ [] } in
    let len = length-append b.text (d ∷ []) in
    let (g, grown, t, l, m) =
      grow_lem written (omega (arith, len)) (omega (arith, len)) (omega (arith, len))
        (omega (arith, len)) in
    let (room, r, k, n) =
      read_from_lem text c rest g all.1 e (omega (arith, l, ap length t))
        (omega (arith, m, ap length t)) (omega (arith, len, ap length t)) in
    let same : g.text ++ text ≡ b.text ++ d ∷ text =
      ap (λ (u : List ℕ). u ++ text) t ∙ append_assoc b.text (d ∷ []) text in
    (
      room,
      retold (read_step d (text ++ c ∷ rest) b all.0 lt g grown) r same,
      omega (arith, k, ap length same),
      omega (arith, n, ap length same),
    )

-- The first byte is what EOF is as a `char`.
abbrev pub starts_with_eof : List ℕ → Bool
starts_with_eof [] = false
starts_with_eof (d ∷ text) = d == 255

starts_lem :
    (text : List ℕ) (c : ℕ) (rest : List ℕ) (b : Buffer)
    → ends_line c ≡ true
    → starts_with_eof text ≡ false
    → read_from (text ++ c ∷ rest) (record { room = max_length; text = [] }) ≡ some b
    → read_line (text ++ c ∷ rest) ≡ some (line_of b)
unfolding read_line
starts_lem [] c rest b e first r = ground (arith, r)
starts_lem (d ∷ text) c rest b e first r = ground (arith, r)

-- A line of fewer than 2 ^ 30 characters that does not begin with the byte 255, which is EOF as a
-- signed `char`, without a newline or 0
-- in it and followed by one, is read into a buffer that holds it, in order, with room for the 0 behind
-- it. No write is outside the buffer, its room is at most twice the length of the line, and two, and
-- `length` does not overflow.
pub read_line-Reads :
    (text : List ℕ) (c : ℕ) (rest : List ℕ)
    → All (λ d. ends_line d ≡ false) text
    → ends_line c ≡ true
    → length text < 2 ^ 30
    → starts_with_eof text ≡ false
    → (room : ℕ) × (read_line (text ++ c ∷ rest)
        ≡ some (line_of (record { room = room; text = text })))
      × (length text < room)
      × (room ≤ 2 * length text + 2)
unfolding read_line
read_line-Reads text c rest all e short first =
    let (room, r, k, n) =
      read_from_lem text c rest (record { room = max_length; text = [] }) all e (omega arith)
        (omega arith) (omega arith) in
    (room, starts_lem text c rest (record { room = room; text = text }) e first r, k, n)

-- A line that the end of the file cuts off is never read to its end.
read_line-none :
    (text : List ℕ) (b : Buffer) → All (λ d. ends_line d ≡ false) text → read_from text b ≡ none
unfolding read_from
read_line-none [] b all = refl
read_line-none (d ∷ text) b all =
    let written : Buffer = record b { text = b.text ++ d ∷ [] } in
    elim (grow written) as (λ o. grow written ≡ o → read_from (d ∷ text) b ≡ none) [
      | none ↦ λ stops. ground (arith, all.0, stops)
      | some g ↦ λ grown. ground (arith, all.0, grown, read_line-none text g all.1)
    ]
      refl

more_slots_lem :
    (a : Arguments)
    → length a.words ≤ a.slots
    → a.slots ≤ 2 * length a.words + 1
    → 1 ≤ length a.words
    → length a.words < 2 ^ 30
    → (b : Arguments) × (more_slots a ≡ some b)
      × (b.words ≡ a.words)
      × (length b.words < b.slots)
      × (b.slots ≤ 2 * length b.words + 1)
unfolding more_slots
more_slots_lem a le small some_words short = elim (Bool-cases (leb a.slots (length a.words))) [
  | inl full ↦ (record a { slots = a.slots * 2 }, ground arith, refl, ground arith, ground arith)
  | inr enough ↦ (a, ground arith, refl, ground arith, ground arith)
]

put_word_lem :
    (w : List ℕ) (a : Arguments)
    → length a.words < a.slots
    → a.slots ≤ 2 * length a.words + 1
    → length a.words + 1 < 2 ^ 30
    → (b : Arguments) × (put_word w a ≡ some b)
      × (b.words ≡ a.words ++ w ∷ [])
      × (length b.words < b.slots)
      × (b.slots ≤ 2 * length b.words + 1)
unfolding put_word
put_word_lem w a lt le short =
    let len = length-append a.words (w ∷ []) in
    let (b, made, same, l, m) =
      more_slots_lem (record a { words = a.words ++ w ∷ [] }) (omega (arith, len))
        (omega (arith, len)) (omega (arith, len)) (omega (arith, len)) in
    (b, ground (arith, lt, made), same, l, m)

put_words_lem :
    (ws : List (List ℕ)) (a : Arguments)
    → length a.words < a.slots
    → a.slots ≤ 2 * length a.words + 1
    → length a.words + length ws < 2 ^ 30
    → (b : Arguments) × (put_words ws a ≡ some b)
      × (b.words ≡ a.words ++ ws)
      × (length b.words < b.slots)
      × (b.slots ≤ 2 * length b.words + 1)
unfolding put_words
put_words_lem [] a lt le short = (a, refl, sym (append-nil a.words), lt, le)
put_words_lem (w ∷ ws) a lt le short =
    let (b, put, same, l, m) = put_word_lem w a lt le (omega arith) in
    let len = length-append a.words (w ∷ []) in
    let (c, r, t, k, n) = put_words_lem ws b l m (omega (arith, len, ap length same)) in
    (
      c,
      ground (arith, put, r),
      t ∙ ap (λ (u : List (List ℕ)). u ++ ws) same ∙ append_assoc a.words (w ∷ []) ws,
      k,
      n,
    )

-- However many words `strtok` finds, if fewer than 2 ^ 30, no pointer is written outside `args`. All
-- words are in it, in order, with at least one place behind them for the NULL, it has at most twice as
-- many places as there are words, and one, and `argLength` does not overflow.
pub make_args-words :
    (ws : List (List ℕ))
    → length ws < 2 ^ 30
    → (a : Arguments) × (make_args ws ≡ some a)
      × (a.words ≡ ws)
      × (length ws < a.slots)
      × (a.slots ≤ 2 * length ws + 1)
unfolding make_args
make_args-words ws short =
    let (a, made, same, lt, le) =
      put_words_lem ws (record { slots = 1; words = [] }) (omega arith) (omega arith)
        (omega arith) in
    (a, made, same, omega (arith, lt, ap length same), omega (arith, le, ap length same))
