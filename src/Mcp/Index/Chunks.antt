-- ===== src/Mcp/Index/Chunks.antt =====
-- `chunk_text` of mcp_server/bridge_mcp/index.py with its helpers. A text is its list of code points.
pub mod Words
pub mod Laws
use php_python_ai_bridge.Base.{
  ℕ, zero, suc, ◌+◌, ◌-◌, ◌/◌, Bool, true, false, not, ◌&&◌, ◌||◌, List, [], ◌∷◌, Option, none,
  some, String, ltb, leb, if◌then◌else◌, length, is_space,
}

-- `text[i]` has the property, for an `i` inside the text.
abbrev pub has_at : (ℕ → Bool) → List ℕ → ℕ → Bool
has_at p [] i = false
has_at p (c ∷ cs) zero = p c
has_at p (c ∷ cs) (suc i) = has_at p cs i

-- `_WORD`, which is what `_SPACE` does not match.
unfoldable pub is_word : ℕ → Bool
is_word c = not (is_space c)

abbrev next_place : Option ℕ → Option ℕ
next_place none = none
next_place (some i) = some (suc i)

-- `pattern.search(text, i)` for a pattern of one character: where the match starts.
unfoldable pub search : (ℕ → Bool) → List ℕ → ℕ → Option ℕ
search p [] i = none
search p (c ∷ cs) zero = let rest = next_place (search p cs 0) in if p c then some 0 else rest
search p (c ∷ cs) (suc i) = next_place (search p cs i)

unfoldable pub skip_space : List ℕ → ℕ → ℕ
unfolding search is_word
skip_space text i = elim (search is_word text i) [ none ↦ length text | some start ↦ start ]

-- The loop of `_last_space`, from the position `i` on.
unfoldable pub last_space_loop : ℕ → ℕ → ℕ → List ℕ → Option ℕ → Option ℕ
last_space_loop low high i [] last = last
last_space_loop low high i (c ∷ cs) last =
    last_space_loop low high (suc i) cs
      (if leb low i && leb i high && is_space c then some i else last)

unfoldable pub last_space : List ℕ → ℕ → ℕ → Option ℕ
unfolding last_space_loop
last_space text low high = last_space_loop low high 0 text none

unfoldable pub next_word : List ℕ → ℕ → ℕ
unfolding skip_space search
next_word text i =
    if ltb 0 i
      && ltb i (length text)
      && not (has_at is_space text (i - 1))
      && not (has_at is_space text i)
    then elim (search is_space text i) [ none ↦ length text | some space ↦ skip_space text space ]
    else skip_space text i

pub record Window : Type 0 where
  pub start : ℕ
  pub stop : ℕ

-- `while end > start and text[end - 1].isspace(): end -= 1`.
unfoldable pub trim_end : List ℕ → ℕ → ℕ → ℕ
trim_end text start zero = zero
trim_end text start (suc e) =
    let rest = trim_end text start e in
    if ltb start (suc e) && has_at is_space text e then rest else suc e

-- Where the window that begins at `start` ends.
unfoldable pub window_end : List ℕ → ℕ → ℕ → ℕ
unfolding last_space trim_end
window_end text chars start =
    let limit = start + chars in
    trim_end text start (
      if leb (length text) limit
      then length text
      else elim (last_space text (start + chars / 2) limit) [ none ↦ limit | some cut ↦ cut ])

-- Where the next window begins. An `end - overlap` below 0, which the source has for a short text before
-- `start`, is 0 here: the search and both tests read it as 0.
unfoldable pub next_start : List ℕ → ℕ → ℕ → ℕ → ℕ
unfolding next_word skip_space
next_start text overlap start stop =
    let following = next_word text (stop - overlap) in
    skip_space text (
      if ltb start following && leb following stop
      then following
      else if ltb start (stop - overlap)
      then stop - overlap
      else stop)

abbrev also : Window → Option (List Window) → Option (List Window)
also w none = none
also w (some ws) = some (w ∷ ws)

-- The loop of `chunk_text`, on fuel: `none` where it is not at its end.
unfoldable pub chunk_loop : ℕ → List ℕ → ℕ → ℕ → ℕ → Option (List Window)
unfolding window_end next_start
chunk_loop zero text chars overlap start = none
chunk_loop (suc fuel) text chars overlap start = elim (ltb start (length text)) [
  | false ↦ some []
  | true ↦
      let stop = window_end text chars start in
      let window : Window = record { start = start; stop = stop } in
      elim (leb (length text) (start + chars)) [
        | true ↦ some (window ∷ [])
        | false ↦
            also window (chunk_loop fuel text chars overlap (next_start text overlap start stop))
      ]
]

pub data Chunking : Type 0 where
  value_error : String → Chunking
  chunked : List Window → Chunking
  unending : Chunking

-- `chunk_text(text, chars, overlap)`, with fuel for one window at each position.
unfoldable pub chunk_text : List ℕ → ℕ → ℕ → Chunking
unfolding chunk_loop skip_space
chunk_text text chars overlap =
    if not (leb 200 chars && leb chars 4000)
    then value_error "chunk size must be 200-4000 characters"
    else if not (ltb overlap (chars / 2))
    then value_error "overlap must be at least 0 and less than half the chunk size"
    else elim (chunk_loop (suc (length text)) text chars overlap (skip_space text 0)) [
      | none ↦ unending
      | some windows ↦ chunked windows
    ]
