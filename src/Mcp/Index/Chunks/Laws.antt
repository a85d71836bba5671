-- ===== src/Mcp/Index/Chunks/Laws.antt =====
-- The chunks of `chunk_text` of mcp_server/bridge_mcp/index.py.
use php_python_ai_bridge.Base.{
  ℕ, zero, suc, ◌+◌, ◌-◌, ◌/◌, ◌≡◌, ◌≤◌, ◌<◌, refl, Bool, true, false, ◌&&◌, List, [], ◌∷◌, Option,
  none, some, ltb, leb, arith, length, is_space, any, All, if_ind, elim_ind, if_false,
  if◌then◌else◌, subst, ◌∙◌, not,
}
use php_python_ai_bridge.Mcp.Index.Chunks.{
  has_at, is_word, skip_space, window_end, next_start, Window, chunk_loop, also, Chunking, chunked,
  unending, chunk_text, trim_end, next_word,
}
use php_python_ai_bridge.Mcp.Index.Chunks.Words.{
  HasNone, skip_space-IsSkipped, cut-between, trim_end-IsTrimmed, has_at-length,
}

-- Within the text and the size, with a word at its start and at its end.
pub record IsWindow (text : List ℕ) (chars : ℕ) (w : Window) : Type 0 where
  pub proper : w.start < w.stop
  pub inside : w.stop ≤ length text
  pub short : w.stop ≤ w.start + chars
  starts_on_word : has_at is_word text w.start ≡ true
  ends_on_word : has_at is_space text (w.stop - 1) ≡ false

-- The windows start at a position or behind it, each behind the start of the one before.
abbrev pub Ascends : ℕ → List Window → Type 0
Ascends from [] = Unit
Ascends from (w ∷ ws) = (from ≤ w.start) × Ascends (suc w.start) ws

Ascends-weaken : (n m : ℕ) (ws : List Window) → n ≤ m → Ascends m ws → Ascends n ws
Ascends-weaken n m [] h a = tt
Ascends-weaken n m (w ∷ ws) h a = (omega (arith, h, a.0), a.1)

abbrev pub is_within : ℕ → List Window → Bool
is_within k ws = any (λ w. leb w.start k && ltb k w.stop) ws

-- Where a window ends: no word is between its end and the place that it was cut at.
record EndsWell (text : List ℕ) (chars start stop : ℕ) : Type 0 where
  window : IsWindow text chars (record { start = start; stop = stop })
  last : length text ≤ start + chars → HasNone is_word text stop (length text)

module _ (text : List ℕ) (chars start : ℕ) (large : 200 ≤ chars)
    (word : has_at is_word text start ≡ true) where
  trimmed-EndsWell :
      (e : ℕ)
      → start < e
      → e ≤ length text
      → e ≤ start + chars
      → (length text ≤ start + chars → e ≡ length text)
      → EndsWell text chars start (trim_end text start e)
  trimmed-EndsWell e lt le short last =
      let t = trim_end-IsTrimmed text start e lt word in
      record {
        window = record {
          proper = t.0;
          inside = omega (arith, t.1, le);
          short = omega (arith, t.1, short);
          starts_on_word = word;
          ends_on_word = t.2;
        };
        last = λ end. subst (HasNone is_word text (trim_end text start e)) (last end) t.3;
      }

  window_end-EndsWell : EndsWell text chars start (window_end text chars start)
  unfolding window_end
  window_end-EndsWell =
      if_ind (λ e. EndsWell text chars start (trim_end text start e))
        (leb (length text) (start + chars))
        (λ end.
          trimmed-EndsWell (length text) (has_at-length is_word text start word) (omega arith)
            (ground (arith, end)) (λ _. refl))
        (λ more.
          let cut = cut-between text (start + chars / 2) (start + chars) (omega arith) in
          trimmed-EndsWell _ (omega (arith, cut, large)) (ground (arith, more, cut.1)) cut.1
            (λ end. absurd (ground (arith, more, end))))

-- The next window begins behind the start of the last, with no word between them.
record GoesOn (text : List ℕ) (start stop next : ℕ) : Type 0 where
  ahead : start < next
  skipped : HasNone is_word text stop next
  on_word : next < length text → has_at is_word text next ≡ true

next_start-GoesOn :
    (text : List ℕ) (overlap start stop : ℕ)
    → start < stop
    → stop ≤ length text
    → GoesOn text start stop (next_start text overlap start stop)
unfolding next_start
next_start-GoesOn text overlap start stop lt le =
    if_ind goes (ltb start following && leb following stop)
      (λ near. from following (ground (arith, near)) (ground (arith, near)))
      (λ far.
        if_ind goes (ltb start (stop - overlap))
          (λ ahead. from (stop - overlap) (ground (arith, ahead)) (omega arith))
          (λ behind. from stop lt (omega arith)))
  where
    following : ℕ
    following = next_word text (stop - overlap)

    goes : ℕ → Type 0
    goes f = GoesOn text start stop (skip_space text f)

    from : (f : ℕ) → start < f → f ≤ stop → goes f
    from f ahead within =
        let s = skip_space-IsSkipped text f (omega (arith, within, le)) in
        record {
          ahead = omega (arith, ahead, s.0);
          skipped = λ k lo hi. s.1 k (omega (arith, within, lo)) hi;
          on_word = s.2;
        }

-- What the loop makes of the text from `start` on: windows in order, that hold each word behind `start`.
abbrev Chunked : List ℕ → ℕ → ℕ → ℕ → List Window → Type 0
Chunked text chars start k ws =
    All (IsWindow text chars) ws
    × Ascends start ws
    × (start ≤ k → has_at is_word text k ≡ true → is_within k ws ≡ true)

abbrev IsChunked : List ℕ → ℕ → ℕ → ℕ → Option (List Window) → Type 0
IsChunked text chars start k none = ⊥
IsChunked text chars start k (some ws) = Chunked text chars start k ws

module _ (text : List ℕ) (chars overlap k : ℕ) (large : 200 ≤ chars) where
  chunk_loop-done : (start : ℕ) → length text ≤ start → Chunked text chars start k []
  chunk_loop-done start h =
      (tt, tt, λ le word. absurd (omega (arith, h, le, has_at-length is_word text k word)))

  module _ (start stop : ℕ) (ends : EndsWell text chars start stop) where
    abbrev first : Window
    first = record { start = start; stop = stop }

    chunk_loop-last : length text ≤ start + chars → Chunked text chars start k (first ∷ [])
    chunk_loop-last end = (
      (ends.window, tt),
      (omega arith, tt),
      λ le word. ground (arith, le, word, ends.last end k, has_at-length is_word text k word),
    )

    chunk_loop-also :
        (next : ℕ) (o : Option (List Window))
        → GoesOn text start stop next
        → IsChunked text chars next k o
        → IsChunked text chars start k (also first o)
    chunk_loop-also next none on h = h
    chunk_loop-also next (some ws) on h = (
      (ends.window, h.0),
      (omega arith, Ascends-weaken (suc start) next ws on.ahead h.1),
      λ le word. ground (arith, le, word, on.skipped k, h.2),
    )

  chunk_loop-IsChunked :
      (fuel start : ℕ)
      → length text - start < fuel
      → (start < length text → has_at is_word text start ≡ true)
      → IsChunked text chars start k (chunk_loop fuel text chars overlap start)
  unfolding chunk_loop
  chunk_loop-IsChunked zero start lt word = absurd (omega (arith, lt))
  chunk_loop-IsChunked (suc fuel) start lt word =
      elim_ind (IsChunked text chars start k) (ltb start (length text))
        (λ more.
          let at = word (ground (arith, more)) in
          let ends = window_end-EndsWell text chars start large at in
          let on = next_start-GoesOn text overlap start _ ends.window.proper ends.window.inside in
          elim_ind (IsChunked text chars start k) (leb (length text) (start + chars))
            (λ last. chunk_loop-last start _ ends (ground (arith, last)))
            (λ later.
              chunk_loop-also start _ ends _ _ on
                (chunk_loop-IsChunked fuel _ (omega (arith, lt, on.ahead)) on.on_word)))
        (λ done. chunk_loop-done start (ground (arith, done)))

module _ (text : List ℕ) (chars overlap k : ℕ) (lo : 200 ≤ chars) (hi : chars ≤ 4000)
    (less : overlap < chars / 2) where
  valid_sizes :
      (x y z : Chunking)
      → (if not (leb 200 chars && leb chars 4000)
          then x
          else if not (ltb overlap (chars / 2))
          then y
          else z)
        ≡ z
  valid_sizes x y z =
      if_false (not (leb 200 chars && leb chars 4000)) x _ (ground (arith, lo, hi))
      ∙ if_false (not (ltb overlap (chars / 2))) y z (ground (arith, less))

  from_start : has_at is_word text k ≡ true → skip_space text 0 ≤ k
  from_start word =
      ground (arith, word, (skip_space-IsSkipped text 0 (omega arith)).1 k (omega arith))

  loop-chunked :
      (o : Option (List Window))
      → IsChunked text chars (skip_space text 0) k o
      → (ws : List Window) × (elim o [ none ↦ unending | some windows ↦ chunked windows ]
          ≡ chunked ws)
        × Chunked text chars 0 k ws
  loop-chunked none h = absurd h
  loop-chunked (some ws) h = (
    ws,
    refl,
    (h.0, Ascends-weaken 0 _ ws (omega arith) h.1, λ _ word. h.2 (from_start word) word),
  )

  pub chunk_text-Chunked :
      (ws : List Window) × (chunk_text text chars overlap ≡ chunked ws) × Chunked text chars 0 k ws
  unfolding chunk_text
  chunk_text-Chunked =
      let (ws, same, chunks) =
        loop-chunked (chunk_loop (suc (length text)) text chars overlap (skip_space text 0)) (
          chunk_loop-IsChunked text chars overlap k lo (suc (length text)) _ (omega arith)
            (skip_space-IsSkipped text 0 (omega arith)).2) in
      (ws, valid_sizes _ _ _ ∙ same, chunks)

-- For a size and an overlap in range, and a position that holds a word: the text is cut into
-- windows that lie within the text and the size and begin and end on words, each behind the start
-- of the one before; and the position is in one of them.
pub chunk_text-windows :
    (text : List ℕ) (chars overlap k : ℕ)
    → 200 ≤ chars
    → chars ≤ 4000
    → overlap < chars / 2
    → has_at is_word text k ≡ true
    → (ws : List Window) × (chunk_text text chars overlap ≡ chunked ws)
      × All (IsWindow text chars) ws
      × Ascends 0 ws
      × (is_within k ws ≡ true)
chunk_text-windows text chars overlap k lo hi less word =
    let (ws, same, chunks) = chunk_text-Chunked text chars overlap k lo hi less in
    (ws, same, chunks.0, chunks.1, chunks.2 (omega arith) word)
