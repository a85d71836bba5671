-- ===== src/Server/Stop/Laws.antt =====
-- The lines of a stop, whatever the order in which its threads run.
use php_python_ai_bridge.Base.{
  ℕ, ◌≤◌, ◌≡◌, refl, sym, ◌∙◌, ap, subst, inl, inr, Bool, true, false, not, ◌||◌, List, [], ◌∷◌,
  ◌++◌, Option, none, some, is_some, arith, count, count-append, Option-cases, Bool-cases, if_ind,
  append-nil, nat_eq,
}
use php_python_ai_bridge.Server.Stop.{
  DrainThread, not_started, draining, waiting, publishing, writing, stopping, Closer, serving,
  closing, closed, stop_written, DrainLine, LogLine, drain_line, stop_line, Service, signal,
  shutdown_now, written_by, write_drain, goes_on, drain_step, close_step,
}
use php_python_ai_bridge.Server.Stop.Order.{
  is_drain_line, stop_last, Reaches, unpublished, begun, begun-unpublished, is_serving, is_closing,
  has_stopped, stops, drains_of, IsOrdered, stop_last-snoc, starts, signals, shuts, drains, closes,
}

signal-IsOrdered : (now : ℕ) (s : Service) → IsOrdered s → IsOrdered (signal now s)
unfolding signal
signal-IsOrdered now s k = elim (Option-cases s.signalled_at) [
  | inl first ↦
      rw (first, signal)
        (record {
          silent = λ _. k.silent (begun-unpublished s.drainer (k.unsignalled (ap is_some first)));
          unsignalled = λ h. absurd (ground (arith, h));
          once = k.once;
          last_write = k.last_write;
          stop_count = k.stop_count;
          last = k.last;
        })
  | inr (at, again) ↦
      rw (again, signal)
        (record {
          silent = k.silent;
          unsignalled = k.unsignalled;
          once = k.once;
          last_write = k.last_write;
          stop_count = k.stop_count;
          last = k.last;
        })
]

shutdown_now-IsOrdered : (s : Service) → IsOrdered s → IsOrdered (shutdown_now s)
unfolding shutdown_now
shutdown_now-IsOrdered s k =
    if_ind IsOrdered s.interrupted
      (λ _. record {
        silent = k.silent;
        unsignalled = k.unsignalled;
        once = k.once;
        last_write = k.last_write;
        stop_count = k.stop_count;
        last = k.last;
      })
      (λ _. k)

-- The lines after `_write_drain`.
record Written (n : ℕ) (ls : List LogLine) : Type 0 where
  still_once : drains_of ls ≤ 1
  same_stops : stops ls ≡ n
  still_last : stop_last ls ≡ true

written_by-none : (shut : Bool) (o : Option DrainLine) → is_some o ≡ false → written_by shut o ≡ []
unfolding written_by
written_by-none true o h = refl
written_by-none false none h = refl
written_by-none false (some f) h = absurd (ground (arith, h))

-- While drain lines are let through, there is no stop line.
late-stops :
    (c : Closer) (shut : Bool) (n : ℕ)
    → (is_serving c || is_closing c ≡ false → shut ≡ true)
    → (has_stopped c ≡ false → n ≡ 0)
    → shut ≡ false
    → n ≡ 0
late-stops serving shut n write stop late = stop refl
late-stops closing shut n write stop late = stop refl
late-stops closed shut n write stop late = absurd (ground (arith, write refl, late))
late-stops stop_written shut n write stop late = absurd (ground (arith, write refl, late))

module _ (s : Service) (k : IsOrdered s) where
  unchanged-Written : (ls : List LogLine) → ls ≡ [] → Written (stops s.lines) (s.lines ++ ls)
  unchanged-Written ls none_new =
      subst (Written (stops s.lines))
        (sym (append-nil s.lines) ∙ ap (λ l. s.lines ++ l) (sym none_new))
        (record { still_once = ground (arith, k.once); same_stops = refl; still_last = k.last })

  lines-Written : Written (stops s.lines) (s.lines ++ written_by s.drain_closed s.line)
  unfolding written_by
  lines-Written = elim (Bool-cases s.drain_closed) [
    | inl shut ↦ unchanged-Written _ (ap (λ c. written_by c s.line) shut)
    | inr late ↦ elim (Option-cases s.line) [
      | inl silent ↦
          unchanged-Written _ (ap (λ c. written_by c s.line) late ∙ ap (written_by false) silent)
      | inr (f, full) ↦
          let new : written_by s.drain_closed s.line ≡ drain_line f ∷ [] =
            ap (λ c. written_by c s.line) late ∙ ap (written_by false) full in
          subst (λ l. Written (stops s.lines) (s.lines ++ l)) (sym new)
            (record {
              still_once =
                  ground
                    (arith, k.once, full, count-append is_drain_line s.lines (drain_line f ∷ []));
              same_stops =
                  omega
                    (arith, count-append (λ l. not (is_drain_line l)) s.lines (drain_line f ∷ []));
              still_last = stop_last-snoc s.lines (drain_line f) (
                  late-stops s.closer s.drain_closed (stops s.lines) k.last_write k.stop_count
                    late);
            })
    ]
  ]

  written-silent :
      unpublished s.drainer ≡ true → drains_of (s.lines ++ written_by s.drain_closed s.line) ≡ 0
  written-silent early =
      let (no_line, none_yet) = k.silent early in
      omega (
        arith,
        none_yet,
        count-append is_drain_line s.lines (written_by s.drain_closed s.line),
        ap drains_of (written_by-none s.drain_closed s.line no_line),
      )

  drain_written-IsOrdered :
      s.drainer ≡ writing → IsOrdered (record (write_drain false s) { drainer = stopping })
  unfolding write_drain
  drain_written-IsOrdered at_writing =
      let w = lines-Written in
      record {
        silent = λ early. absurd (ground (arith, early));
        unsignalled = λ h. absurd (ground (arith, ap begun at_writing, k.unsignalled h));
        once = ground (arith, w.still_once);
        last_write = λ c. ground (arith, k.last_write c);
        stop_count = λ c. w.same_stops ∙ k.stop_count c;
        last = w.still_last;
      }

  close_written-IsOrdered :
      s.closer ≡ closing → IsOrdered (record (write_drain true s) { closer = closed })
  unfolding write_drain
  close_written-IsOrdered at_closing =
      let w = lines-Written in
      record {
        silent = λ early. (refl, written-silent early);
        unsignalled = k.unsignalled;
        once = ground (arith, w.still_once);
        last_write = λ c. ground (arith);
        stop_count = λ c. w.same_stops ∙ k.stop_count (ap has_stopped at_closing);
        last = w.still_last;
      }

  published-IsOrdered :
      (o : Option DrainLine)
      → s.drainer ≡ publishing
      → IsOrdered (record s { drainer = writing; drained = true; line = o })
  published-IsOrdered o at_publishing =
      let (no_line, no_drain) = k.silent (ap unpublished at_publishing) in
      record {
        silent = λ early. absurd (ground (arith, early));
        unsignalled = λ h. absurd (ground (arith, ap begun at_publishing, k.unsignalled h));
        once = ground (arith, no_drain);
        last_write = k.last_write;
        stop_count = k.stop_count;
        last = k.last;
      }

  -- The thread gets on, and nothing is published.
  moved-IsOrdered :
      (p : DrainThread) (shut : Bool)
      → begun s.drainer ≡ true
      → (unpublished p ≡ true → unpublished s.drainer ≡ true)
      → IsOrdered (record s { drainer = p; shut = shut })
  moved-IsOrdered p shut under_way before = record {
    silent = λ early. k.silent (before early);
    unsignalled = λ h. absurd (ground (arith, under_way, k.unsignalled h));
    once = k.once;
    last_write = k.last_write;
    stop_count = k.stop_count;
    last = k.last;
  }

  drain_step-IsOrdered :
      (now : ℕ) (busy : Bool) (running : ℕ) (enabled : Bool) (p : DrainThread)
      → s.drainer ≡ p
      → IsOrdered (drain_step now busy running enabled s)
  unfolding drain_step
  drain_step-IsOrdered now busy running enabled not_started e = rw (e, drain_step) k
  drain_step-IsOrdered now busy running enabled draining e =
      rw (e, drain_step) (moved-IsOrdered waiting s.shut (ap begun e) (λ _. ap unpublished e))
  drain_step-IsOrdered now busy running enabled waiting e =
      rw (e, drain_step)
        (if_ind IsOrdered (goes_on now busy s) (λ _. k)
          (λ _. moved-IsOrdered publishing s.shut (ap begun e) (λ _. ap unpublished e)))
  drain_step-IsOrdered now busy running enabled publishing e =
      rw (e, drain_step) (published-IsOrdered _ e)
  drain_step-IsOrdered now busy running enabled writing e =
      rw (e, drain_step) (drain_written-IsOrdered e)
  drain_step-IsOrdered now busy running enabled stopping e =
      rw (e, drain_step) (moved-IsOrdered s.drainer true (ap begun e) (λ early. early))

  closing-IsOrdered : s.closer ≡ serving → IsOrdered (record s { closer = closing })
  closing-IsOrdered e = record {
    silent = k.silent;
    unsignalled = k.unsignalled;
    once = k.once;
    last_write = λ c. absurd (ground (arith, c));
    stop_count = λ _. k.stop_count (ap has_stopped e);
    last = k.last;
  }

  stopped-IsOrdered :
      (n : ℕ)
      → s.closer ≡ closed
      → IsOrdered (record s { closer = stop_written; lines = s.lines ++ (stop_line n ∷ []) })
  stopped-IsOrdered n e =
      let counts = count-append is_drain_line s.lines (stop_line n ∷ []) in
      record {
        silent = λ early.
            let (no_line, none_yet) = k.silent early in (no_line, omega (arith, none_yet, counts));
        unsignalled = k.unsignalled;
        once = ground (arith, k.once, counts);
        last_write = λ _. k.last_write (ap (λ c. is_serving c || is_closing c) e);
        stop_count = λ c. absurd (ground (arith, c));
        last = stop_last-snoc s.lines (stop_line n) (k.stop_count (ap has_stopped e));
      }

  close_step-IsOrdered :
      (waited_long : Bool) (n : ℕ) (c : Closer)
      → s.closer ≡ c
      → IsOrdered (close_step waited_long n s)
  unfolding close_step
  close_step-IsOrdered waited_long n serving e =
      rw (e, close_step) (if_ind IsOrdered s.shut (λ _. closing-IsOrdered e) (λ _. k))
  close_step-IsOrdered waited_long n closing e =
      rw (e, close_step)
        (if_ind IsOrdered (s.drained || waited_long) (λ _. close_written-IsOrdered e) (λ _. k))
  close_step-IsOrdered waited_long n closed e = rw (e, close_step) (stopped-IsOrdered n e)
  close_step-IsOrdered waited_long n stop_written e = rw (e, close_step) k

Reaches-IsOrdered : (n : ℕ) (s : Service) → Reaches n s → IsOrdered s
Reaches-IsOrdered n _ starts = record {
  silent = λ _. (refl, refl);
  unsignalled = λ _. refl;
  once = omega arith;
  last_write = λ c. absurd (ground (arith, c));
  stop_count = λ _. refl;
  last = refl;
}
Reaches-IsOrdered n _ (signals {s} now r) = signal-IsOrdered now s (Reaches-IsOrdered n s r)
Reaches-IsOrdered n _ (shuts {s} r) = shutdown_now-IsOrdered s (Reaches-IsOrdered n s r)
Reaches-IsOrdered n _ (drains {s} now busy running enabled r) =
    drain_step-IsOrdered s (Reaches-IsOrdered n s r) now busy running enabled s.drainer refl
Reaches-IsOrdered n _ (closes {s} waited_long c r) =
    close_step-IsOrdered s (Reaches-IsOrdered n s r) waited_long c s.closer refl

-- Whatever the order in which signals, the drain thread and `server_close` run: at most one drain line is written,
-- and no line is written after the stop line.
pub Reaches-lines :
    (n : ℕ) (s : Service)
    → Reaches n s
    → (count is_drain_line s.lines ≤ 1) × (stop_last s.lines ≡ true)
Reaches-lines n s r = let k = Reaches-IsOrdered n s r in (ground (arith, k.once), k.last)
