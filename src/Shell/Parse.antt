-- ===== src/Shell/Parse.antt =====
-- hw2/shell_hist.c, lines 83 to 156 and 433 to 476: reading a line into a buffer that grows, cutting it
-- into arguments, and telling a call of the history from a command. A character is its code, a byte, and
-- `char` is signed.
use opearting_system.Base.{
  ℕ, ◌*◌, ◌^◌, Bool, true, false, ◌||◌, ◌&&◌, Option, none, some, List, [], ◌∷◌, ◌++◌, ltb, leb,
  ◌==◌, if◌then◌else◌, length,
}
use opearting_system.Base.Int.{ℤ, pos, negsuc, eqb_ℤ}

abbrev pub max_length : ℕ
max_length = 2

-- The buffer `commandLine`: how many characters it has room for, and those that are written.
pub record Buffer : Type 0 where
  pub room : ℕ
  pub text : List ℕ

-- A write behind the room of the buffer has no result.
put_char : ℕ → Buffer → Option Buffer
put_char c b =
    if ltb (length b.text) b.room then some (record b { text = b.text ++ c ∷ [] }) else none

-- The room doubles when the index reaches it; a room that no `int` holds has no result. The text is
-- copied through a buffer of one more character than it, for the 0 behind it.
unfoldable pub grow : Buffer → Option Buffer
grow b =
    if leb b.room (length b.text)
    then (if ltb (b.room * 2) (2 ^ 31) then some (record b { room = b.room * 2 }) else none)
    else some b

-- The loop from the first character on. The input ends in a newline or a 0; at the end of the
-- file the loop goes on for ever, which is no result. The last write is the 0 behind the text.
unfoldable pub read_from : List ℕ → Buffer → Option Buffer
unfolding put_char grow
read_from [] b = none
read_from (c ∷ cs) b =
    if c == 0 || c == 10
    then (if ltb (length b.text) b.room then some b else none)
    else elim (put_char c b) [
      | none ↦ none
      | some written ↦ elim (grow written) [ none ↦ none | some grown ↦ read_from cs grown ]
    ]

-- What the reading of a line comes to: the end of the shell, or a line.
pub data LineRead : Type 0 where
  at_end : LineRead
  line_of : Buffer → LineRead

-- The first character is compared with EOF, which the byte 255 is equal to as a `char`.
unfoldable pub read_line : List ℕ → Option LineRead
unfolding read_from
read_line [] = some at_end
read_line (c ∷ cs) =
    if c == 255
    then some at_end
    else elim (read_from (c ∷ cs) (record { room = max_length; text = [] })) [
      | none ↦ none
      | some b ↦ some (line_of b)
    ]

-- The array `args`: how many pointers it has room for, and those that are written.
pub record Arguments : Type 0 where
  pub slots : ℕ
  pub words : List (List ℕ)

-- The array doubles when it is full; a number of places that no `int` holds has no result.
unfoldable pub more_slots : Arguments → Option Arguments
more_slots a =
    if leb a.slots (length a.words)
    then (if ltb (a.slots * 2) (2 ^ 31) then some (record a { slots = a.slots * 2 }) else none)
    else some a

-- One turn of the loop: the pointer is written, and there is a place for the next.
unfoldable pub put_word : List ℕ → Arguments → Option Arguments
unfolding more_slots
put_word w a =
    if ltb (length a.words) a.slots
    then more_slots (record a { words = a.words ++ w ∷ [] })
    else none

-- The words are those that `strtok` gives. NULL is written behind them, up to the end of the array.
unfoldable pub put_words : List (List ℕ) → Arguments → Option Arguments
put_words [] a = some a
put_words (w ∷ ws) a = elim (put_word w a) [ none ↦ none | some b ↦ put_words ws b ]

unfoldable pub make_args : List (List ℕ) → Option Arguments
unfolding put_words
make_args ws = put_words ws (record { slots = 1; words = [] })

-- `isBeginWith` with its 1, 0 and -1. No argument is NULL.
unfoldable pub has_prefix : List ℕ → List ℕ → Bool
has_prefix s [] = true
has_prefix [] (c ∷ cs) = false
has_prefix (d ∷ s) (c ∷ cs) = if c == d then has_prefix s cs else false

unfoldable pub is_begin_with : List ℕ → List ℕ → ℤ
unfolding has_prefix
is_begin_with s prefix =
    if ltb (length s) (length prefix) || length s == 0 || length prefix == 0
    then negsuc 0
    else if has_prefix s prefix
    then pos 1
    else pos 0

abbrev bang : ℕ
bang = 33

abbrev dash : ℕ
dash = 45

-- The answers of `checkHist`: -1, 0, 1, 2 and 3.
pub data Kind : Type 0 where
  invalid command last last_n first_n : Kind

unfoldable pub same_word : List ℕ → List ℕ → Bool
same_word [] [] = true
same_word [] (c ∷ cs) = false
same_word (d ∷ s) [] = false
same_word (d ∷ s) (c ∷ cs) = d == c && same_word s cs

abbrev pub after_two : List ℕ → List ℕ
after_two (a ∷ b ∷ s) = s
after_two s = []

abbrev pub after_one : List ℕ → List ℕ
after_one (a ∷ s) = s
after_one [] = []

-- `atoi` is the library's.
unfoldable pub check_hist : (List ℕ → ℤ) → List ℕ → Kind
unfolding is_begin_with same_word
check_hist atoi w =
    if same_word w (bang ∷ bang ∷ [])
    then last
    else if eqb_ℤ (is_begin_with w (bang ∷ dash ∷ [])) (pos 1)
    then (if eqb_ℤ (atoi (after_two w)) (pos 0) then invalid else last_n)
    else if eqb_ℤ (is_begin_with w (bang ∷ [])) (pos 1)
    then (if eqb_ℤ (atoi (after_one w)) (pos 0) then invalid else first_n)
    else command
