-- ===== src/Server/Busy/Laws.antt =====
-- The drain neither loses nor doubles a connection, nor a slot.
use php_python_ai_bridge.Base.{
  ℕ, ◌+◌, ◌≡◌, refl, sym, ◌∙◌, ap, Bool, true, not, inl, inr, List, [], ◌∷◌, ◌++◌, Option, none,
  some, leb, ◌==◌, nat_eq, arith, length, length-append, count, count-append, filter, Option-cases,
  Bool-cases, if_ind,
}
use php_python_ai_bridge.Server.Busy.{
  Held, BusyDrain, connections, close_all, close_where, set_left, find_held, drop_held, close_held,
  keep_or_close, left_after, Event, on_event, on_events, take_queue, unregister, Turn, select, turn,
  finish, run_once,
}

abbrev pub held : ℕ → List Held → ℕ
held c hs = count (λ x. x == c) (connections hs)

-- The drain's account: how often it has a connection, held or closed, and its slots.
abbrev pub kept : ℕ → BusyDrain → ℕ
kept c d = held c d.queue + held c d.pending + count (λ x. x == c) d.closed

abbrev pub room : BusyDrain → ℕ
room d = d.slots + length d.queue + length d.pending

-- A change of the drain that neither loses nor doubles a connection, nor a slot.
abbrev Same : BusyDrain → BusyDrain → Type 0
Same d e = ((c : ℕ) → kept c e ≡ kept c d) × (room e ≡ room d)

connections-append : (xs ys : List Held) → connections (xs ++ ys) ≡ connections xs ++ connections ys
connections-append [] ys = refl
connections-append (x ∷ xs) ys = ap (λ l. x.connection ∷ l) (connections-append xs ys)

pub held-append : (c : ℕ) (xs ys : List Held) → held c (xs ++ ys) ≡ held c xs + held c ys
held-append c xs ys =
    ap (count (λ x. x == c)) (connections-append xs ys)
    ∙ count-append (λ x. x == c) (connections xs) (connections ys)

held-filter :
    (c : ℕ) (p : Held → Bool) (hs : List Held)
    → held c (filter p hs) + held c (filter (λ h. not (p h)) hs) ≡ held c hs
held-filter c p [] = refl
held-filter c p (h ∷ hs) = ground (arith, held-filter c p hs)

length-filter :
    (p : Held → Bool) (hs : List Held)
    → length (filter p hs) + length (filter (λ h. not (p h)) hs) ≡ length hs
length-filter p [] = refl
length-filter p (h ∷ hs) = ground (arith, length-filter p hs)

close_where-Same : (p : Held → Bool) (d : BusyDrain) → Same d (close_where p d)
unfolding close_where close_all
close_where-Same p d = (
  λ c. omega (
    arith,
    held-filter c p d.pending,
    count-append (λ x. x == c) d.closed (connections (filter p d.pending)),
  ),
  omega (arith, length-filter p d.pending),
)

take_queue-Same : (d : BusyDrain) → Same d (take_queue d)
unfolding take_queue
take_queue-Same d = (
  λ c. omega (arith, held-append c d.pending d.queue),
  omega (arith, length-append d.pending d.queue),
)

find_held-connection :
    (x : ℕ) (hs : List Held) (h : Held) → find_held x hs ≡ some h → h.connection ≡ x
unfolding find_held
find_held-connection x [] h found = absurd (ground (arith, found))
find_held-connection x (k ∷ hs) h found = ground (arith, found, find_held-connection x hs h)

find_held-drop_held :
    (x c : ℕ) (hs : List Held) (h : Held)
    → find_held x hs ≡ some h
    → (held c (drop_held h.connection hs) + held c (h ∷ []) ≡ held c hs)
      × (length (drop_held h.connection hs) + 1 ≡ length hs)
unfolding find_held drop_held
find_held-drop_held x c [] h found = absurd (ground (arith, found))
find_held-drop_held x c (k ∷ hs) h found = elim (Bool-cases (k.connection == x)) [
  | inl here ↦
      let same : k ≡ h = ground (arith, found, here) in
      let self : h.connection ≡ k.connection = ap (λ (y : Held). y.connection) (sym same) in
      ground (arith, self)
  | inr other ↦
      let later : find_held x hs ≡ some h = ground (arith, found, other) in
      let (counts, lengths) = find_held-drop_held x c hs h later in
      ground (arith, other, counts, lengths, find_held-connection x hs h later)
]

set_left-same :
    (x left c : ℕ) (hs : List Held)
    → (held c (set_left x left hs) ≡ held c hs) × (length (set_left x left hs) ≡ length hs)
unfolding set_left
set_left-same x left c [] = (refl, refl)
set_left-same x left c (h ∷ hs) =
    let (counts, lengths) = set_left-same x left c hs in ground (arith, counts, lengths)

close_held-Same :
    (x : ℕ) (h : Held) (d : BusyDrain) → find_held x d.pending ≡ some h → Same d (close_held h d)
unfolding close_held close_all
close_held-Same x h d found = (
  λ c. omega (
    arith,
    (find_held-drop_held x c d.pending h found).0,
    count-append (λ y. y == c) d.closed (connections (h ∷ [])),
  ),
  omega (arith, (find_held-drop_held x 0 d.pending h found).1),
)

Same-trans : (d e f : BusyDrain) → Same d e → Same e f → Same d f
Same-trans d e f (p, q) (p', q') = (λ c. p' c ∙ p c, q' ∙ q)

Same-refl : (d : BusyDrain) → Same d d
Same-refl d = (λ c. refl, refl)

keep_or_close-Same :
    (x : ℕ) (o : Option ℕ) (h : Held) (d : BusyDrain)
    → find_held x d.pending ≡ some h
    → Same d (keep_or_close o h d)
unfolding keep_or_close
keep_or_close-Same x none h d found = close_held-Same x h d found
keep_or_close-Same x (some left) h d found = (
  λ c. omega (arith, (set_left-same h.connection left c d.pending).0),
  omega (arith, (set_left-same h.connection left 0 d.pending).1),
)

on_event-Same : (e : Event) (d : BusyDrain) → Same d (on_event e d)
unfolding on_event
on_event-Same e d = elim (Option-cases (find_held e.connection d.pending)) [
  | inl gone ↦ rw (gone, on_event) (Same-refl d)
  | inr (h, found) ↦
      rw (found, on_event) (keep_or_close-Same e.connection (left_after e.at e.got h) h d found)
]

on_events-Same : (es : List Event) (d : BusyDrain) → Same d (on_events es d)
unfolding on_events
on_events-Same [] d = Same-refl d
on_events-Same (e ∷ es) d =
    Same-trans d (on_event e d) (on_events es (on_event e d)) (on_event-Same e d)
      (on_events-Same es (on_event e d))

unregister-Same : (cs : List ℕ) (d : BusyDrain) → Same d (unregister cs d)
unfolding unregister
unregister-Same [] d = Same-refl d
unregister-Same (c ∷ cs) d = elim (Option-cases (find_held c d.pending)) [
  | inl gone ↦ rw (gone, unregister) (unregister-Same cs d)
  | inr (h, found) ↦
      rw (found, unregister)
        (Same-trans d (close_held h d) (unregister cs (close_held h d))
          (close_held-Same c h d found) (unregister-Same cs (close_held h d)))
]

select-Same : (o : Option (List Event)) (d : BusyDrain) → Same d (select o d)
unfolding select
select-Same none d = close_where-Same (λ h. true) d
select-Same (some es) d = on_events-Same es d

pub run_once-Same : (t : Turn) (d : BusyDrain) → Same d (run_once t d)
unfolding run_once turn finish
run_once-Same t d =
    let d1 = take_queue d in
    let d2 = unregister t.refused d1 in
    let d3 = select t.found d2 in
    let late : Held → Bool = λ h. leb h.deadline t.ended in
    if_ind (Same d) d.stopped
      (λ _.
        Same-trans d d1 (close_where (λ h. true) d1) (take_queue-Same d)
          (close_where-Same (λ h. true) d1))
      λ _. Same-trans d d1 (close_where late d3) (take_queue-Same d) (
        Same-trans d1 d2 (close_where late d3) (unregister-Same t.refused d1) (
          Same-trans d2 d3 (close_where late d3) (select-Same t.found d2)
            (close_where-Same late d3)))
