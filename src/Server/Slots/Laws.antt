-- ===== src/Server/Slots/Laws.antt =====
-- The service's connections in every history: how many at once, and each closed once.
use php_python_ai_bridge.Base.{
  ℕ, ◌+◌, ◌≤◌, ◌≡◌, refl, ◌∙◌, Bool, true, false, ◌&&◌, ◌||◌, inl, inr, List, [], ◌∷◌, ◌==◌, nat_eq,
  arith, length, length-append, count, count-append, Bool-cases, if◌then◌else◌, if_ind, any,
}
use php_python_ai_bridge.Server.Busy.{Held, BusyDrain, busy_drain_cap, add, Turn, stop}
use php_python_ai_bridge.Server.Slots.{
  slot_count, Connections, no_connections, Arrived, shut_unless, refuse_connection, process_request,
  drop_served, end_request, drain_turn, shutdown,
}
use php_python_ai_bridge.Server.Busy.Laws.{kept, room, held-append, run_once-Same}

drop_served-times :
    (c x : ℕ) (xs : List ℕ)
    → any (λ y. y == c) xs ≡ true
    → (count (λ y. y == x) (drop_served c xs) + count (λ y. y == x) (c ∷ [])
        ≡ count (λ y. y == x) xs)
      × (length (drop_served c xs) + 1 ≡ length xs)
unfolding drop_served
drop_served-times c x [] mine = absurd (ground (arith, mine))
drop_served-times c x (y ∷ xs) mine = elim (Bool-cases (y == c)) [
  | inl same ↦ ground (arith, same)
  | inr other ↦
      let (counts, lengths) = drop_served-times c x xs (ground (arith, mine, other)) in
      ground (arith, other, counts, lengths)
]

-- What may happen to the connections; each new one is listed, the latest first.
pub data Run : List ℕ → Connections → Type 0 where
  starts : Run [] no_connections
  arrives :
      {cs : List ℕ} {s : Connections} (a : Arrived) (c : ℕ)
      → Run cs s
      → Run (c ∷ cs) (process_request a c s)
  ends :
      {cs : List ℕ} {s : Connections} (c : ℕ)
      → any (λ x. x == c) s.served ≡ true
      → Run cs s
      → Run cs (end_request c s)
  turns : {cs : List ℕ} {s : Connections} (t : Turn) → Run cs s → Run cs (drain_turn t s)
  shuts : {cs : List ℕ} {s : Connections} → Run cs s → Run cs (shutdown s)

abbrev pub times : ℕ → List ℕ → ℕ
times c cs = count (λ x. x == c) cs

-- How often the service has a connection: with a handler, with the drain, or closed.
abbrev places : ℕ → Connections → ℕ
places c s = times c s.served + times c s.shut + kept c s.drain

pub record IsKept (cs : List ℕ) (s : Connections) : Type 0 where
  one_place : (c : ℕ) → places c s ≡ times c cs
  slots_kept : s.slots + length s.served ≡ slot_count
  room_kept : room s.drain ≡ busy_drain_cap

-- A connection is the drain's where it was taken, and the drain is as it was where it was not.
abbrev Adds : ℕ → BusyDrain → Bool × BusyDrain → Type 0
Adds c d (taken, e) =
    ((x : ℕ) → kept x e ≡ (if taken then times x (c ∷ []) else 0) + kept x d) × (room e ≡ room d)

Adds-not : (c : ℕ) (d : BusyDrain) → Adds c d (false, d)
Adds-not c d = (λ x. omega arith, refl)

add-Adds : (now c : ℕ) (d : BusyDrain) → Adds c d (add now c d)
unfolding add
add-Adds now c d =
    if_ind (Adds c d) (d.stopped || d.slots == 0) (λ _. Adds-not c d)
      λ free.
        let some_room : 1 ≤ d.slots = ground (arith, free) in
        let h : Held = record { connection = c; deadline = now + 1000; left = 327680 } in
        (
          λ x. omega (arith, held-append x d.queue (h ∷ [])),
          omega (arith, length-append d.queue (h ∷ []), some_room),
        )

module _ (cs : List ℕ) (s : Connections) (k : IsKept cs s) where
  shut_unless-IsKept :
      (c : ℕ) (p : Bool × BusyDrain) → Adds c s.drain p → IsKept (c ∷ cs) (shut_unless c p s)
  unfolding shut_unless
  shut_unless-IsKept c (true, d) (adds, roomy) = record {
    one_place = λ x. omega (arith, adds x, k.one_place x);
    slots_kept = k.slots_kept;
    room_kept = roomy ∙ k.room_kept;
  }
  shut_unless-IsKept c (false, d) (adds, roomy) = record {
    one_place =
        λ x. omega (arith, adds x, k.one_place x, count-append (λ y. y == x) s.shut (c ∷ []));
    slots_kept = k.slots_kept;
    room_kept = roomy ∙ k.room_kept;
  }

  process_request-IsKept : (a : Arrived) (c : ℕ) → IsKept (c ∷ cs) (process_request a c s)
  unfolding process_request refuse_connection
  process_request-IsKept a c =
      if_ind (IsKept (c ∷ cs)) (s.slots == 0)
        (λ _. shut_unless-IsKept c _ (
          if_ind (Adds c s.drain) (a.sent && a.half_closed) (λ _. add-Adds a.now c s.drain)
            (λ _. Adds-not c s.drain)))
        λ free.
          if_ind (IsKept (c ∷ cs)) a.started
            (λ _. record {
              one_place =
                  λ x. omega (arith, k.one_place x, count-append (λ y. y == x) s.served (c ∷ []));
              slots_kept = ground (arith, free, k.slots_kept, length-append s.served (c ∷ []));
              room_kept = k.room_kept;
            })
            (λ _. record {
              one_place =
                  λ x. omega (arith, k.one_place x, count-append (λ y. y == x) s.shut (c ∷ []));
              slots_kept = k.slots_kept;
              room_kept = k.room_kept;
            })

  end_request-IsKept : (c : ℕ) → any (λ x. x == c) s.served ≡ true → IsKept cs (end_request c s)
  unfolding end_request
  end_request-IsKept c mine = record {
    one_place = λ x. omega (
      arith,
      k.one_place x,
      (drop_served-times c x s.served mine).0,
      count-append (λ y. y == x) s.shut (c ∷ []),
    );
    slots_kept = omega (arith, k.slots_kept, (drop_served-times c 0 s.served mine).1);
    room_kept = k.room_kept;
  }

  drain_turn-IsKept : (t : Turn) → IsKept cs (drain_turn t s)
  unfolding drain_turn
  drain_turn-IsKept t =
      let (counts, roomy) = run_once-Same t s.drain in
      record {
        one_place = λ x. omega (arith, counts x, k.one_place x);
        slots_kept = k.slots_kept;
        room_kept = roomy ∙ k.room_kept;
      }

  shutdown-IsKept : IsKept cs (shutdown s)
  unfolding shutdown stop
  shutdown-IsKept = record {
    one_place = k.one_place;
    slots_kept = k.slots_kept;
    room_kept = k.room_kept;
  }

-- In every history of connections: each that has come is in exactly one place, with a handler, with the drain or
-- closed, as often as it has come; with the free slots those with a handler are 32, and those that the drain holds
-- and its free slots are 64.
pub Run-IsKept : (cs : List ℕ) (s : Connections) → Run cs s → IsKept cs s
Run-IsKept _ _ starts = record { one_place = λ c. refl; slots_kept = refl; room_kept = refl }
Run-IsKept _ _ (arrives {cs} {s} a c run) = process_request-IsKept cs s (Run-IsKept cs s run) a c
Run-IsKept _ _ (ends {cs} {s} c mine run) = end_request-IsKept cs s (Run-IsKept cs s run) c mine
Run-IsKept _ _ (turns {cs} {s} t run) = drain_turn-IsKept cs s (Run-IsKept cs s run) t
Run-IsKept _ _ (shuts {cs} {s} run) = shutdown-IsKept cs s (Run-IsKept cs s run)
