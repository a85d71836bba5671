-- ===== src/Server/Stop/Order.antt =====
-- What holds of the lines of a stop and of how far its threads are.
use php_python_ai_bridge.Base.{
  ℕ, ◌+◌, ◌≤◌, ◌≡◌, refl, Bool, true, false, not, ◌||◌, List, [], ◌∷◌, ◌++◌, if◌then◌else◌, is_some,
  arith, count, nat_eq,
}
use php_python_ai_bridge.Server.Stop.{
  DrainThread, not_started, draining, waiting, publishing, Closer, serving, closing, stop_written,
  LogLine, drain_line, stop_line, Service, serving_service, signal, shutdown_now, drain_step,
  close_step,
}

abbrev pub is_drain_line : LogLine → Bool
is_drain_line (drain_line fields) = true
is_drain_line (stop_line n) = false

-- Nothing is written after the stop line.
abbrev pub stop_last : List LogLine → Bool
stop_last [] = true
stop_last (drain_line fields ∷ ls) = stop_last ls
stop_last (stop_line n ∷ []) = true
stop_last (stop_line n ∷ l ∷ ls) = false

-- What may happen, in any order.
pub data Reaches (drain_seconds : ℕ) : Service → Type 0 where
  starts : Reaches drain_seconds (serving_service drain_seconds)
  signals : {s : Service} (now : ℕ) → Reaches drain_seconds s → Reaches drain_seconds (signal now s)
  shuts : {s : Service} → Reaches drain_seconds s → Reaches drain_seconds (shutdown_now s)
  drains :
      {s : Service} (now : ℕ) (busy : Bool) (running : ℕ) (enabled : Bool)
      → Reaches drain_seconds s
      → Reaches drain_seconds (drain_step now busy running enabled s)
  closes :
      {s : Service} (waited_long : Bool) (cancelled : ℕ)
      → Reaches drain_seconds s
      → Reaches drain_seconds (close_step waited_long cancelled s)

-- The drain thread has not published its line yet.
abbrev pub unpublished : DrainThread → Bool
unpublished not_started = true
unpublished draining = true
unpublished waiting = true
unpublished publishing = true
unpublished _ = false

abbrev pub begun : DrainThread → Bool
begun not_started = false
begun _ = true

pub begun-unpublished : (p : DrainThread) → begun p ≡ false → unpublished p ≡ true
begun-unpublished not_started h = refl
begun-unpublished _ h = absurd (ground (arith, h))

abbrev pub is_serving : Closer → Bool
is_serving serving = true
is_serving _ = false

abbrev pub is_closing : Closer → Bool
is_closing closing = true
is_closing _ = false

abbrev pub has_stopped : Closer → Bool
has_stopped stop_written = true
has_stopped _ = false

abbrev pub stops : List LogLine → ℕ
stops ls = count (λ l. not (is_drain_line l)) ls

abbrev pub drains_of : List LogLine → ℕ
drains_of ls = count is_drain_line ls

pub record IsOrdered (s : Service) : Type 0 where
  pub silent : unpublished s.drainer ≡ true → (is_some s.line ≡ false) × (drains_of s.lines ≡ 0)
  pub unsignalled : is_some s.signalled_at ≡ false → begun s.drainer ≡ false
  pub once : drains_of s.lines + (if is_some s.line then 1 else 0) ≤ 1
  pub last_write : is_serving s.closer || is_closing s.closer ≡ false → s.drain_closed ≡ true
  pub stop_count : has_stopped s.closer ≡ false → stops s.lines ≡ 0
  pub last : stop_last s.lines ≡ true

pub stop_last-snoc :
    (ls : List LogLine) (l : LogLine) → stops ls ≡ 0 → stop_last (ls ++ (l ∷ [])) ≡ true
stop_last-snoc [] (drain_line f) h = refl
stop_last-snoc [] (stop_line n) h = refl
stop_last-snoc (drain_line f ∷ ls) l h = stop_last-snoc ls l (omega (arith, h))
stop_last-snoc (stop_line n ∷ ls) l h = absurd (omega (arith, h))
