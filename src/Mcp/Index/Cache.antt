-- ===== src/Mcp/Index/Cache.antt =====
-- `IndexCache` of mcp_server/bridge_mcp/index.py. What the disk answers during a call is an argument.
pub mod Laws
use php_python_ai_bridge.Base.{
  Bool, true, false, ◌&&◌, List, [], ◌∷◌, Option, none, some, Eq, ◌==◌, if◌then◌else◌,
}

-- What one call of `load_index` does.
pub data Load (L : Type 0) : Type 0 where
  loads : L → Load L
  os_error invalid : Load L

-- The stamps of a retained index's files, `none` where reading them raises, and the two loads.
pub record Disk (L S : Type 0) : Type 0 where
  pub stamps : Option S
  pub first : Load L
  pub second : Load L

pub data Got (L : Type 0) : Type 0 where
  returned : L → Got L
  raised_os raised_invalid : Got L

-- `_items` holds at most one index, since `get` clears it before it adds one.
module _ {L S : Type 0} ⦃stamp_eq : Eq S⦄ (stamps_of : L → S) where
  unfoldable pub is_current : L → Option S → Bool
  is_current l none = false
  is_current l (some now) = stamps_of l == now

module _ {K L : Type 0} where
  unfoldable pub keep : K → Load L → Got L × Option (K × L)
  keep key (loads l) = (returned l, some (key, l))
  keep key os_error = (raised_os, none)
  keep key invalid = (raised_invalid, none)

  -- The loads behind a miss: only an `OSError` leads to the second.
  unfoldable pub load_twice : K → Load L → Load L → Got L × Option (K × L)
  unfolding keep
  load_twice key os_error second = keep key second
  load_twice key first second = keep key first

module _ {K L S : Type 0} ⦃key_eq : Eq K⦄ ⦃stamp_eq : Eq S⦄ (stamps_of : L → S) where
  unfoldable pub cached : K → Option S → Option (K × L) → Option L
  unfolding is_current
  cached key now none = none
  cached key now (some (held, l)) =
      if held == key && is_current stamps_of l now then some l else none

  -- `get(sidecar, within)`: its result, and the index that is retained behind it.
  unfoldable pub get : Disk L S → K → Option (K × L) → Got L × Option (K × L)
  unfolding cached load_twice
  get disk key held = elim (cached key disk.stamps held) [
    | some l ↦ (returned l, held)
    | none ↦ load_twice key disk.first disk.second
  ]

  -- What is retained behind some calls, the last call first.
  unfoldable pub held_after : List (K × Disk L S) → Option (K × L)
  unfolding get
  held_after [] = none
  held_after ((key, disk) ∷ calls) = (get disk key (held_after calls)).1
