-- ===== src/Server/Head/Readline.antt =====
-- `readline`, `read` and `linger`: the limits on a request line and a header block, and the body.
use php_python_ai_bridge.Base.{
  ℕ, zero, suc, ◌+◌, ◌-◌, Bool, true, false, not, ◌&&◌, ◌||◌, List, [], ◌∷◌, ◌++◌, Option, none,
  some, leb, ltb, ◌==◌, nat_eq, if◌then◌else◌, all, between, length, take, drop, is_digit, is_lower,
  is_upper,
}
use php_python_ai_bridge.Server.Head.{Wire, stream, pull, Line, times_out, reads, read_line}

abbrev pub max_request_line : ℕ
max_request_line = 8192

abbrev pub max_header_block : ℕ
max_header_block = 16384

-- What the header block may still take is `none` until the request line is read.
pub record Head : Type 0 where
  pub pending : List ℕ
  pub left : Option ℕ
  pub done : Bool
  pub wire : Wire

abbrev pub new_head : Wire → Head
new_head w = record { pending = []; left = none; done = false; wire = w }

-- What `readline` returns or raises: `TimeoutError`, `HeadTooLarge` or `BadHead`.
pub data HeadRead : Type 0 where
  stalls head_too_large bad_head : HeadRead
  gives : List ℕ → Head → HeadRead

unfoldable pub is_empty : List ℕ → Bool
is_empty [] = true
is_empty (b ∷ bs) = false

unfoldable pub is_crlf : List ℕ → Bool
is_crlf (b ∷ c ∷ []) = b == 13 && c == 10
is_crlf _ = false

-- The bytes before a last `\r\n`, where there is one; and before a last `\n` or at all.
unfoldable pub before_crlf : List ℕ → Option (List ℕ)
before_crlf [] = none
before_crlf (b ∷ bs) =
    let rest = before_crlf bs in
    if is_crlf (b ∷ bs) then some [] else elim rest [ none ↦ none | some cs ↦ some (b ∷ cs) ]

unfoldable pub before_lf : List ℕ → List ℕ
before_lf [] = []
before_lf (b ∷ bs) = let rest = before_lf bs in if b == 10 && is_empty bs then [] else b ∷ rest

unfoldable pub content_of : List ℕ → List ℕ
content_of line = elim (before_crlf line) [ some bs ↦ bs | none ↦ before_lf line ]

unfoldable pub has_crlf : List ℕ → Bool
has_crlf line = elim (before_crlf line) [ some bs ↦ true | none ↦ false ]

-- A character of a header's name, and one of its value.
unfoldable pub is_name_byte : ℕ → Bool
is_name_byte b =
    is_digit b
    || is_upper b
    || is_lower b
    || b == 33
    || between 35 39 b
    || b == 42
    || b == 43
    || b == 45
    || b == 46
    || between 94 96 b
    || b == 124
    || b == 126

unfoldable pub is_value_byte : ℕ → Bool
is_value_byte b = b == 9 || between 32 126 b || between 128 255 b

unfoldable pub is_field : Bool → List ℕ → Bool
is_field named [] = false
is_field named (b ∷ bs) =
    let rest = is_field true bs in
    if is_name_byte b then rest else b == 58 && named && all is_value_byte bs

-- The regular expression of a header line.
unfoldable pub is_header : List ℕ → Bool
is_header line = elim (before_crlf line) [ some bs ↦ is_field false bs | none ↦ false ]

unfoldable pub request_line : List ℕ → List ℕ → Wire → HeadRead
request_line line pending w =
    let content = content_of line in
    if ltb max_request_line (length content)
    then head_too_large
    else if not (is_empty line) && (not (has_crlf line) || not (all (between 32 126) content))
    then bad_head
    else gives line
        (record { pending = pending; left = some max_header_block; done = false; wire = w })

unfoldable pub header_line : ℕ → List ℕ → List ℕ → Wire → HeadRead
header_line left line pending w =
    if is_crlf line
    then gives line (record { pending = pending; left = some left; done = true; wire = w })
    else if ltb left (length line)
    then head_too_large
    else if not (is_header line)
    then bad_head
    else gives line
        (record { pending = pending; left = some (left - length line); done = false; wire = w })

unfoldable pub on_line : (List ℕ → List ℕ → Wire → HeadRead) → Option Line → Option HeadRead
on_line f none = none
on_line f (some times_out) = some stalls
on_line f (some (reads line pending w)) = some (f line pending w)

unfoldable pub read_undone : Option ℕ → Head → Option HeadRead
read_undone none h = on_line request_line (read_line (some (max_request_line + 3)) h.pending h.wire)
read_undone (some left) h =
    on_line (header_line left) (read_line (some (left + 3)) h.pending h.wire)

-- `readline(limit)`, no limit being `none`.
unfoldable pub readline : Option ℕ → Head → Option HeadRead
readline limit h =
    if h.done
    then on_line
        (λ line pending w.
          gives line (record { pending = pending; left = h.left; done = true; wire = w }))
        (read_line limit h.pending h.wire)
    else read_undone h.left h

-- The loop of `read`, on fuel: the bytes and the wire after them, `none` inside where it times out.
unfoldable pub read_loop : ℕ → ℕ → List ℕ → Wire → Option (Option (List ℕ × Wire))
read_loop zero size raw w = none
read_loop (suc fuel) size raw w =
    if leb size (length raw) then some (some (raw, w)) else elim (pull (size - length raw) w) [
      | none ↦ some none
      | some (got, w') ↦ elim got [
        | [] ↦ some (some (raw, w'))
        | b ∷ bs ↦ read_loop fuel size (raw ++ (b ∷ bs)) w'
      ]
    ]

abbrev with_pending :
    List ℕ → Option (Option (List ℕ × Wire)) → Option (Option (List ℕ × List ℕ × Wire))
with_pending pending none = none
with_pending pending (some none) = some none
with_pending pending (some (some (raw, w))) = some (some (raw, pending, w))

-- `read(size)`, with the bytes that stay pending.
unfoldable pub read : ℕ → List ℕ → Wire → Option (Option (List ℕ × List ℕ × Wire))
read size pending w =
    with_pending (drop size pending)
      (read_loop (suc (suc (length (stream w)))) size (take size pending) w)
