-- ===== src/Server/Head/Lines.antt =====
-- `_line`: the line that is read does not depend on how the bytes arrive.
use php_python_ai_bridge.Base.{
  ℕ, zero, suc, ◌-◌, ◌≤◌, ◌≡◌, refl, sym, ◌∙◌, ap, subst, Bool, true, false, inl, inr, List, [],
  ◌∷◌, ◌++◌, Option, none, some, ◌==◌, nat_eq, arith, length, length-append, append_assoc,
  append-nil, take, drop, Option-cases, Bool-cases, if◌then◌else◌,
}
use php_python_ai_bridge.Server.Head.{
  Wire, closed, stalled, part, stream, refill, pull, after_feed, line_end, ask, Line, times_out,
  reads, line_loop, read_line,
}

-- Whether the client ends the connection after its bytes.
abbrev pub closes : Wire → Bool
closes closed = true
closes stalled = false
closes (part b bs w) = closes w

-- The line and the bytes after it.
abbrev pub seen : Line → Option (List ℕ × List ℕ)
seen times_out = none
seen (reads line pending w) = some (line, pending ++ stream w)

-- The line at the start of all the bytes: up to a line feed or the limit, or all of them.
abbrev pub first_line : Option ℕ → List ℕ → Bool → Option (List ℕ × List ℕ)
first_line limit bs ends = elim (line_end limit bs) [
  | some n ↦ some (take n bs, drop n bs)
  | none ↦ if ends then some (bs, []) else none
]

after_feed-append :
    (xs ys : List ℕ) (n : ℕ)
    → after_feed xs ≡ some n
    → (after_feed (xs ++ ys) ≡ some n) × (n ≤ length xs)
unfolding after_feed
after_feed-append [] ys n h = absurd (ground (arith, h))
after_feed-append (b ∷ xs) ys n h = elim (Bool-cases (b == 10)) [
  | inl feed ↦ ground (arith, h, feed)
  | inr other ↦ elim (Option-cases (after_feed xs)) [
    | inl lost ↦ absurd (ground (arith, h, other, lost))
    | inr (m, found) ↦
        let (later, low) = after_feed-append xs ys m found in
        ground (arith, h, other, found, later, low)
  ]
]

after_feed-none :
    (xs ys : List ℕ) (n : ℕ) → after_feed xs ≡ none → after_feed (xs ++ ys) ≡ some n → length xs ≤ n
unfolding after_feed
after_feed-none [] ys n h later = omega arith
after_feed-none (b ∷ xs) ys n h later = elim (Option-cases (after_feed (xs ++ ys))) [
  | inl lost ↦ absurd (ground (arith, h, later, lost))
  | inr (m, found) ↦ ground (arith, h, later, found, after_feed-none xs ys m)
]

take-prefix : (n : ℕ) (xs ys : List ℕ) → n ≤ length xs → take n (xs ++ ys) ≡ take n xs
take-prefix zero xs ys h = refl
take-prefix (suc n) [] ys h = absurd (omega (arith, h))
take-prefix (suc n) (x ∷ xs) ys h = ap (λ l. x ∷ l) (take-prefix n xs ys (omega (arith, h)))

drop-prefix : (n : ℕ) (xs ys : List ℕ) → n ≤ length xs → drop n (xs ++ ys) ≡ drop n xs ++ ys
drop-prefix zero xs ys h = refl
drop-prefix (suc n) [] ys h = absurd (omega (arith, h))
drop-prefix (suc n) (x ∷ xs) ys h = drop-prefix n xs ys (omega (arith, h))

line_end-append :
    (limit : Option ℕ) (xs ys : List ℕ) (n : ℕ)
    → line_end limit xs ≡ some n
    → (line_end limit (xs ++ ys) ≡ some n) × (n ≤ length xs)
unfolding line_end
line_end-append none xs ys n h = after_feed-append xs ys n h
line_end-append (some limit) xs ys n h = elim (Option-cases (after_feed xs)) [
  | inl lost ↦ elim (Option-cases (after_feed (xs ++ ys))) [
    | inl still ↦ ground (arith, h, lost, still, length-append xs ys)
    | inr (m, later) ↦ ground (arith, h, lost, later, after_feed-none xs ys m lost later)
  ]
  | inr (m, found) ↦
      let (later, low) = after_feed-append xs ys m found in ground (arith, h, found, later, low)
]

refill-stream : (bs : List ℕ) (w : Wire) → stream (refill bs w) ≡ bs ++ stream w
refill-stream [] w = refl
refill-stream (b ∷ bs) w = refl

refill-closes : (bs : List ℕ) (w : Wire) → closes (refill bs w) ≡ closes w
refill-closes [] w = refl
refill-closes (b ∷ bs) w = refl

take-drop : (n : ℕ) (xs : List ℕ) → take n xs ++ drop n xs ≡ xs
take-drop zero xs = refl
take-drop (suc n) [] = refl
take-drop (suc n) (x ∷ xs) = ap (λ l. x ∷ l) (take-drop n xs)

-- A line that is still to end has room left.
ask-pos : (limit : Option ℕ) (bs : List ℕ) → line_end limit bs ≡ none → 1 ≤ ask limit bs
unfolding line_end
ask-pos none bs h = omega arith
ask-pos (some limit) bs h = ground (arith, h)

length-drop : (n : ℕ) (xs : List ℕ) → length (drop n xs) ≤ length xs
length-drop zero xs = omega arith
length-drop (suc n) [] = omega arith
length-drop (suc n) (x ∷ xs) = omega (arith, length-drop n xs)

abbrev Finds : ℕ → Option ℕ → List ℕ → Wire → List ℕ → Bool → Type 0
Finds fuel limit pending w bs ends =
    (r : Line) × (line_loop fuel limit pending w ≡ some r) × (seen r ≡ first_line limit bs ends)

line_loop-ended :
    (fuel n : ℕ) (limit : Option ℕ) (pending : List ℕ) (w : Wire)
    → line_end limit pending ≡ some n
    → Finds (suc fuel) limit pending w (pending ++ stream w) (closes w)
unfolding line_loop
line_loop-ended fuel n limit pending w ended =
    let (whole, low) = line_end-append limit pending (stream w) n ended in
    (
      reads (take n pending) (drop n pending) w,
      rw (ended, line_loop) refl,
      rw (whole, first_line)
          (cc (take-prefix n pending (stream w) low, drop-prefix n pending (stream w) low)),
    )

-- A turn of the loop that takes some bytes of a part.
line_loop-taken :
    (fuel : ℕ) (limit : Option ℕ) (pending got : List ℕ) (b : ℕ) (w w' : Wire) (bs : List ℕ)
    (ends : Bool)
    → line_end limit pending ≡ none
    → pull (ask limit pending) w ≡ some (b ∷ got, w')
    → Finds fuel limit (pending ++ (b ∷ got)) w' bs ends
    → Finds (suc fuel) limit pending w bs ends
unfolding line_loop
line_loop-taken fuel limit pending got b w w' bs ends open_line took (r, runs, sees) =
    (r, rw (open_line, line_loop) (rw (took, line_loop) runs), sees)

line_loop-open :
    (fuel : ℕ) (limit : Option ℕ) (pending : List ℕ) (w : Wire)
    → suc (length (stream w)) ≤ suc fuel
    → line_end limit pending ≡ none
    → ((limit : Option ℕ) (pending : List ℕ) (w : Wire)
        → suc (length (stream w)) ≤ fuel
        → Finds fuel limit pending w (pending ++ stream w) (closes w))
    → Finds (suc fuel) limit pending w (pending ++ stream w) (closes w)
unfolding line_loop pull
line_loop-open fuel limit pending closed enough open_line later =
    let all : pending ++ [] ≡ pending = append-nil pending in
    (
      reads pending [] closed,
      rw (open_line, line_loop) refl,
      rw all (rw (open_line, first_line) refl),
    )
line_loop-open fuel limit pending stalled enough open_line later =
    let all : pending ++ [] ≡ pending = append-nil pending in
    (times_out, rw (open_line, line_loop) refl, rw all (rw (open_line, first_line) refl))
line_loop-open fuel limit pending (part b bs w) enough open_line later =
    let k = ask limit pending - 1 in
    let size : ask limit pending ≡ suc k = omega (arith, ask-pos limit pending open_line) in
    let w' = refill (drop k bs) w in
    let same : (pending ++ (b ∷ take k bs)) ++ stream w' ≡ pending ++ (b ∷ (bs ++ stream w)) =
      append_assoc pending (b ∷ take k bs) (stream w')
      ∙ ap (λ l. pending ++ (b ∷ l))
          (ap (λ l. take k bs ++ l) (refill-stream (drop k bs) w)
            ∙ sym (append_assoc (take k bs) (drop k bs) (stream w))
            ∙ ap (λ l. l ++ stream w) (take-drop k bs)) in
    let less : suc (length (stream w')) ≤ fuel = omega (
      arith,
      enough,
      ap length (refill-stream (drop k bs) w),
      length-append (drop k bs) (stream w),
      length-append bs (stream w),
      length-drop k bs,
    ) in
    let found : Finds fuel limit (pending ++ (b ∷ take k bs)) w' (pending ++ (b ∷ (bs ++ stream w)))
        (closes w) =
      subst (λ l. Finds fuel limit (pending ++ (b ∷ take k bs)) w' l (closes w)) same
        (subst
          (Finds fuel limit (pending ++ (b ∷ take k bs)) w'
            ((pending ++ (b ∷ take k bs)) ++ stream w'))
          (refill-closes (drop k bs) w) (later limit (pending ++ (b ∷ take k bs)) w' less)) in
    line_loop-taken fuel limit pending (take k bs) b (part b bs w) w'
      (pending ++ (b ∷ (bs ++ stream w))) (closes w) open_line (ap (λ n. pull n (part b bs w)) size)
      found

line_loop-stream :
    (fuel : ℕ) (limit : Option ℕ) (pending : List ℕ) (w : Wire)
    → suc (length (stream w)) ≤ fuel
    → Finds fuel limit pending w (pending ++ stream w) (closes w)
line_loop-stream zero limit pending w enough = absurd (omega (arith, enough))
line_loop-stream (suc fuel) limit pending w enough = elim (Option-cases (line_end limit pending)) [
  | inr (n, ended) ↦ line_loop-ended fuel n limit pending w ended
  | inl open_line ↦ line_loop-open fuel limit pending w enough open_line (line_loop-stream fuel)
]

-- A line is always read or times out, and does so as it would if all the bytes were there at once: however the
-- bytes arrive, the line is what the bytes begin with, up to a line feed or the limit, or all of them where the
-- client has ended the connection first; no byte after it is lost; and it times out only where none of these is met.
pub read_line-first_line :
    (limit : Option ℕ) (pending : List ℕ) (w : Wire)
    → (r : Line) × (read_line limit pending w ≡ some r)
      × (seen r ≡ first_line limit (pending ++ stream w) (closes w))
unfolding read_line
read_line-first_line limit pending w =
    line_loop-stream (suc (length (stream w))) limit pending w (omega arith)
