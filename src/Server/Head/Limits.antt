-- ===== src/Server/Head/Limits.antt =====
-- The limits on a head, over its lines together, and the bytes that `read` returns.
use php_python_ai_bridge.Base.{
  ℕ, ◌+◌, ◌-◌, ◌≤◌, ◌≡◌, ◌⊎◌, true, false, inl, inr, List, [], ◌∷◌, Option, none, some, nat_eq,
  arith, length, Option-cases, Bool-cases,
}
use php_python_ai_bridge.Server.Head.{Wire, Line, times_out, reads, read_line}
use php_python_ai_bridge.Server.Head.Readline.{
  max_request_line, max_header_block, Head, new_head, HeadRead, gives, before_crlf, before_lf,
  content_of, request_line, header_line, on_line, read_undone, readline, is_crlf, is_empty,
}

-- The lines that `readline` gives from a head up to its blank line.
pub data Reads : Head → List (List ℕ) → Head → Type 0 where
  none_yet : {h : Head} → Reads h [] h
  then_line :
      {h h2 : Head} (limit : Option ℕ) (line : List ℕ) (h' : Head) (lines : List (List ℕ))
      → h.done ≡ false
      → readline limit h ≡ some (gives line h')
      → Reads h' lines h2
      → Reads h (line ∷ lines) h2

abbrev pub total : List (List ℕ) → ℕ
total [] = 0
total (line ∷ lines) = length line + total lines

is_crlf-length : (line : List ℕ) → is_crlf line ≡ true → length line ≡ 2
unfolding is_crlf
is_crlf-length (b ∷ c ∷ []) h = omega arith
is_crlf-length _ h = absurd (ground (arith, h))

before_crlf-length : (line bs : List ℕ) → before_crlf line ≡ some bs → length line ≡ length bs + 2
unfolding before_crlf
before_crlf-length [] bs h = absurd (ground (arith, h))
before_crlf-length (b ∷ line) bs h = elim (Bool-cases (is_crlf (b ∷ line))) [
  | inl ends ↦ ground (arith, h, ends, is_crlf-length (b ∷ line))
  | inr other ↦ elim (Option-cases (before_crlf line)) [
    | inl lost ↦ absurd (ground (arith, h, other, lost))
    | inr (cs, found) ↦ ground (arith, h, other, found, before_crlf-length line cs)
  ]
]

before_lf-length : (line : List ℕ) → length line ≤ length (before_lf line) + 1
unfolding before_lf is_empty
before_lf-length [] = omega arith
before_lf-length (b ∷ []) = ground (arith)
before_lf-length (b ∷ c ∷ line) = ground (arith, before_lf-length (c ∷ line))

content_of-length : (line : List ℕ) → length line ≤ length (content_of line) + 2
unfolding content_of
content_of-length line = elim (Option-cases (before_crlf line)) [
  | inl lost ↦ ground (arith, lost, before_lf-length line)
  | inr (bs, found) ↦ ground (arith, found, before_crlf-length line bs found)
]

request_line-left :
    (line pending : List ℕ) (w : Wire) (line' : List ℕ) (h : Head)
    → request_line line pending w ≡ gives line' h
    → (length line' ≤ max_request_line + 2) × (h.left ≡ some max_header_block)
unfolding request_line
request_line-left line pending w line' h given = ground (arith, given, content_of-length line)

-- The line that ends the head, or one that takes its length of what is left.
abbrev Takes : ℕ → List ℕ → Head → Type 0
Takes left line h =
    ((h.done ≡ true) × (length line ≡ 2)) ⊎ ((m : ℕ) × (h.left ≡ some m) × (m + length line ≡ left))

header_line-Takes :
    (left : ℕ) (line pending : List ℕ) (w : Wire) (line' : List ℕ) (h : Head)
    → header_line left line pending w ≡ gives line' h
    → Takes left line' h
unfolding header_line
header_line-Takes left line pending w line' h given = elim (Bool-cases (is_crlf line)) [
  | inl ends ↦ inl (ground (arith, given, ends, is_crlf-length line ends))
  | inr other ↦ inr (left - length line, ground (arith, given, other), ground (arith, given, other))
]

on_line-reads {ℓ} :
    (P : List ℕ → Head → Type ℓ) (f : List ℕ → List ℕ → Wire → HeadRead) (o : Option Line)
    (line : List ℕ) (h : Head)
    → ((read pending : List ℕ) (w : Wire) → f read pending w ≡ gives line h → P line h)
    → on_line f o ≡ some (gives line h)
    → P line h
unfolding on_line
on_line-reads P f none line h each given = absurd (ground (arith, given))
on_line-reads P f (some times_out) line h each given = absurd (ground (arith, given))
on_line-reads P f (some (reads read pending w)) line h each given =
    each read pending w (ground (arith, given))

readline-Takes :
    (limit : Option ℕ) (left : ℕ) (line : List ℕ) (h h' : Head)
    → h.done ≡ false
    → h.left ≡ some left
    → readline limit h ≡ some (gives line h')
    → Takes left line h'
unfolding readline read_undone
readline-Takes limit left line h h' undone room given =
    on_line-reads (Takes left) (header_line left) (read_line (some (left + 3)) h.pending h.wire)
      line h' (λ read pending w. header_line-Takes left read pending w line h')
      (ground (arith, given, undone, room))

total-done :
    (h h2 : Head) (lines : List (List ℕ)) → h.done ≡ true → Reads h lines h2 → total lines ≡ 0
total-done h h2 lines done none_yet = omega arith
total-done h h2 _ done (then_line limit line h' lines undone given rest) =
    absurd (ground (arith, done, undone))

total-left :
    (left : ℕ) (h h2 : Head) (lines : List (List ℕ))
    → h.left ≡ some left
    → Reads h lines h2
    → total lines ≤ left + 2
total-left left h h2 lines room none_yet = omega arith
total-left left h h2 _ room (then_line limit line h' lines undone given rest) =
    elim (readline-Takes limit left line h h' undone room given) [
      | inl (done, short) ↦ omega (arith, short, total-done h' h2 lines done rest)
      | inr (m, room', spent) ↦ omega (arith, spent, total-left m h' h2 lines room' rest)
    ]

readline-first :
    (limit : Option ℕ) (w : Wire) (line : List ℕ) (h : Head)
    → readline limit (new_head w) ≡ some (gives line h)
    → (length line ≤ max_request_line + 2) × (h.left ≡ some max_header_block)
unfolding readline read_undone
readline-first limit w line h given =
    on_line-reads
      (λ read k. (length read ≤ max_request_line + 2) × (k.left ≡ some max_header_block))
      request_line (read_line (some (max_request_line + 3)) [] w) line h
      (λ read pending v. request_line-left read pending v line h) given

-- Whatever a client sends: a request line that is read has at most 8192 bytes before its line end, and the lines of a
-- header block that are read have, the blank line and its two bytes aside, at most 16384 bytes together.
pub head_limits :
    (w : Wire) (line : List ℕ) (lines : List (List ℕ)) (h : Head)
    → Reads (new_head w) (line ∷ lines) h
    → (length line ≤ max_request_line + 2) × (total lines ≤ max_header_block + 2)
head_limits w _ _ h (then_line limit line h' lines undone given rest) =
    let (short, room) = readline-first limit w line h' given in
    (short, total-left max_header_block h' h lines room rest)
