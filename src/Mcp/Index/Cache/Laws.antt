-- ===== src/Mcp/Index/Cache/Laws.antt =====
-- Which index `IndexCache` of mcp_server/bridge_mcp/index.py returns.
use php_python_ai_bridge.Base.{
  ◌≡◌, refl, sym, ap, subst, ◌⊎◌, inl, inr, true, ◌&&◌, List, [], ◌∷◌, Option, none, some, Eq, ◌==◌,
  Bool-cases, arith,
}
use php_python_ai_bridge.Mcp.Index.Cache.{
  Load, loads, os_error, invalid, Disk, Got, returned, raised_os, raised_invalid, is_current,
  cached, keep, load_twice, get, held_after,
}

module _ {L S : Type 0} ⦃stamp_eq : Eq S⦄ (stamps_of : L → S) where
  is_current-stamps :
      (l : L) (now : Option S) → is_current stamps_of l now ≡ true → now ≡ some (stamps_of l)
  unfolding is_current
  is_current-stamps l none h = ground (arith, h)
  is_current-stamps l (some now) h = ap some (sym ((stamp_eq.beq_iff (stamps_of l) now).0 h))

module _ {K L S : Type 0} ⦃key_eq : Eq K⦄ ⦃stamp_eq : Eq S⦄ (stamps_of : L → S) where
  -- A call under the key, one of whose loads gave the index.
  abbrev pub IsLoadedBy : K → L → K × Disk L S → Type 0
  IsLoadedBy key l (k, disk) = (k ≡ key) × ((disk.first ≡ loads l) ⊎ (disk.second ≡ loads l))

  abbrev pub WasLoaded : K → L → List (K × Disk L S) → Type 0
  WasLoaded key l [] = ⊥
  WasLoaded key l (call ∷ calls) = IsLoadedBy key l call ⊎ WasLoaded key l calls

  abbrev HeldWell : List (K × Disk L S) → Option (K × L) → Type 0
  HeldWell calls none = Unit
  HeldWell calls (some (key, l)) = WasLoaded key l calls

  -- What a call returns and leaves, for the calls before it.
  abbrev GoesWell : K → Disk L S → List (K × Disk L S) → Got L × Option (K × L) → Type 0
  GoesWell key disk calls (returned l, held) =
      (((disk.stamps ≡ some (stamps_of l)) × WasLoaded key l calls) ⊎ IsLoadedBy key l (key, disk))
      × HeldWell ((key, disk) ∷ calls) held
  GoesWell key disk calls (raised_os, held) = HeldWell ((key, disk) ∷ calls) held
  GoesWell key disk calls (raised_invalid, held) = HeldWell ((key, disk) ∷ calls) held

  keep-GoesWell :
      (key : K) (disk : Disk L S) (calls : List (K × Disk L S)) (load : Load L)
      → (disk.first ≡ load) ⊎ (disk.second ≡ load)
      → GoesWell key disk calls (keep key load)
  unfolding keep
  keep-GoesWell key disk calls (loads l) h = (inr (refl, h), inl (refl, h))
  keep-GoesWell key disk calls os_error h = tt
  keep-GoesWell key disk calls invalid h = tt

  load_twice-GoesWell :
      (key : K) (disk : Disk L S) (calls : List (K × Disk L S)) (first : Load L)
      → disk.first ≡ first
      → GoesWell key disk calls (load_twice key first disk.second)
  unfolding load_twice
  load_twice-GoesWell key disk calls (loads l) e = keep-GoesWell key disk calls (loads l) (inl e)
  load_twice-GoesWell key disk calls invalid e = keep-GoesWell key disk calls invalid (inl e)
  load_twice-GoesWell key disk calls os_error e =
      keep-GoesWell key disk calls disk.second (inr refl)

  get-GoesWell :
      (key : K) (disk : Disk L S) (calls : List (K × Disk L S)) (held : Option (K × L))
      → HeldWell calls held
      → GoesWell key disk calls (get stamps_of disk key held)
  unfolding get cached
  get-GoesWell key disk calls none h = load_twice-GoesWell key disk calls disk.first refl
  get-GoesWell key disk calls (some (k, l)) h =
      elim (Bool-cases (k == key && is_current stamps_of l disk.stamps)) [
        | inl hit ↦
            let same : k ≡ key = (key_eq.beq_iff k key).0 (ground (arith, hit)) in
            let fresh = is_current-stamps stamps_of l disk.stamps (ground (arith, hit)) in
            let result : (returned l, some (k, l)) ≡ get stamps_of disk key (some (k, l)) =
              ground (arith, hit) in
            subst (GoesWell key disk calls) result
              (inl (fresh, subst (λ q. WasLoaded q l calls) same h), inr h)
        | inr miss ↦
            let result : load_twice key disk.first disk.second
                ≡ get stamps_of disk key (some (k, l)) =
              ground (arith, miss) in
            subst (GoesWell key disk calls) result
              (load_twice-GoesWell key disk calls disk.first refl)
      ]

  GoesWell-HeldWell :
      (key : K) (disk : Disk L S) (calls : List (K × Disk L S)) (result : Got L × Option (K × L))
      → GoesWell key disk calls result
      → HeldWell ((key, disk) ∷ calls) result.1
  GoesWell-HeldWell key disk calls (returned l, held) h = h.1
  GoesWell-HeldWell key disk calls (raised_os, held) h = h
  GoesWell-HeldWell key disk calls (raised_invalid, held) h = h

  held_after-HeldWell : (calls : List (K × Disk L S)) → HeldWell calls (held_after stamps_of calls)
  unfolding held_after
  held_after-HeldWell [] = tt
  held_after-HeldWell ((key, disk) ∷ calls) =
      GoesWell-HeldWell key disk calls _ (get-GoesWell key disk calls _ (held_after-HeldWell calls))

  -- Behind any calls of the cache: an index that a call returns was loaded by this call under its
  -- key; or it was loaded by an earlier call under this key, and has the stamps that the files have now.
  pub get_fresh :
      (calls : List (K × Disk L S)) (key : K) (disk : Disk L S) (l : L) (held : Option (K × L))
      → get stamps_of disk key (held_after stamps_of calls) ≡ (returned l, held)
      → ((disk.stamps ≡ some (stamps_of l)) × WasLoaded key l calls) ⊎ IsLoadedBy key l (key, disk)
  get_fresh calls key disk l held e =
      (subst (GoesWell key disk calls) e
        (get-GoesWell key disk calls (held_after stamps_of calls) (held_after-HeldWell calls))).0
