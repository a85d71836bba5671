-- ===== src/Server/Head.antt =====
-- `_Head`: the connection's reader. What the client sends is a wire: parts, in the order in which the system
-- hands them over, and after them the client's end of the connection, or its silence up to the deadline.
pub mod Lines
pub mod Readline
pub mod Limits
use php_python_ai_bridge.Base.{
  ℕ, zero, suc, ◌+◌, ◌-◌, min, Bool, true, false, not, ◌&&◌, ◌||◌, List, [], ◌∷◌, ◌++◌, Option,
  none, some, leb, ltb, ◌==◌, nat_eq, if◌then◌else◌, any, all, between, length, take, drop,
  is_digit, is_lower, is_upper,
}

pub data Wire : Type 0 where
  closed stalled : Wire
  part : ℕ → List ℕ → Wire → Wire

-- Every byte that is to come.
abbrev pub stream : Wire → List ℕ
stream closed = []
stream stalled = []
stream (part b bs w) = b ∷ (bs ++ stream w)

abbrev pub refill : List ℕ → Wire → Wire
refill [] w = w
refill (b ∷ bs) w = part b bs w

-- `_pull`: the bytes, none at the end of the connection; `none` where it raises `TimeoutError`.
unfoldable pub pull : ℕ → Wire → Option (List ℕ × Wire)
pull size closed = some ([], closed)
pull size stalled = none
pull size (part b bs w) = some (take size (b ∷ bs), refill (drop size (b ∷ bs)) w)

-- The place after the first line feed, if there is one.
unfoldable pub after_feed : List ℕ → Option ℕ
after_feed [] = none
after_feed (b ∷ bs) =
    let rest = after_feed bs in
    if b == 10 then some 1 else elim rest [ none ↦ none | some n ↦ some (suc n) ]

-- Where the pending bytes already end a line, and how much to ask for; no limit is `none`.
unfoldable pub line_end : Option ℕ → List ℕ → Option ℕ
line_end none bs = after_feed bs
line_end (some limit) bs = elim (after_feed bs) [
  | some n ↦ some (min n limit)
  | none ↦ if leb limit (length bs) then some limit else none
]

abbrev pub ask : Option ℕ → List ℕ → ℕ
ask none bs = 8192
ask (some limit) bs = limit - length bs

pub data Line : Type 0 where
  times_out : Line
  reads : (line pending : List ℕ) → Wire → Line

-- The loop of `_line`, on fuel.
unfoldable pub line_loop : ℕ → Option ℕ → List ℕ → Wire → Option Line
line_loop zero limit pending w = none
line_loop (suc fuel) limit pending w = elim (line_end limit pending) [
  | some n ↦ some (reads (take n pending) (drop n pending) w)
  | none ↦ elim (pull (ask limit pending) w) [
    | none ↦ some times_out
    | some (got, w') ↦ elim got [
      | [] ↦ some (reads pending [] w')
      | b ∷ bs ↦ line_loop fuel limit (pending ++ (b ∷ bs)) w'
    ]
  ]
]

-- `_line`; each turn of its loop but the last takes a byte.
unfoldable pub read_line : Option ℕ → List ℕ → Wire → Option Line
read_line limit pending w = line_loop (suc (length (stream w))) limit pending w
