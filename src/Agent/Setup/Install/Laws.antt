-- ===== src/Agent/Setup/Install/Laws.antt =====
-- cmd/agent/main.go: which binary an update replaces, and what an update and a relocation leave behind.
use pingachock.Agent.Setup.Install.{UpdateFailure, not_configured, no_path, not_copied, not_started}
use pingachock.Base.{
  true, none, ◌&&◌, ◌||◌, false, if◌then◌else◌, some, equal_codes, [], Option, ◌∷◌, not, ◌≡◌, List,
  Bool, Bytes,
}
use pingachock.Agent.Setup.CommandLine.{Paths}
use pingachock.Agent.Setup.Install.{has_other_ext, DirEntry, Machine}

-- The path of the only candidate, where there is exactly one.
abbrev pub only_or : (Bytes → Bytes) → Bytes → List DirEntry → Bytes
only_or path fallback [] = fallback
only_or path fallback (e ∷ []) = path e.name
only_or path fallback (e ∷ d ∷ es) = fallback

module _ (paths : Paths) where
  -- A file with the extension of the new binary, if that has one.
  abbrev pub is_candidate : Bytes → DirEntry → Bool
  is_candidate ext e = not (e.is_dir || has_other_ext paths ext e.name)

  -- The files afterwards: those before, with the new binary in its place unless it is there already.
  abbrev pub Replaces : Bytes → Bytes → Machine → Machine → Type 0
  Replaces exe dest m m' =
      (q : Bytes)
      → m'.files q ≡ (
          if equal_codes q dest && not (equal_codes (paths.clean exe) (paths.clean dest))
          then m.files exe
          else m.files q)

  -- How an update ends.
  abbrev pub IsUpdate :
      Bool → Bool → Bool → Bytes → Bytes → Machine → Option UpdateFailure × Machine → Type 0
  IsUpdate configured stops started exe dest m (none, m') =
      (configured ≡ true) × (started ≡ true) × (m'.running ≡ true) × Replaces exe dest m m'
  IsUpdate configured stops started exe dest m (some not_configured, m') =
      (configured ≡ false) × (m' ≡ m)
  IsUpdate configured stops started exe dest m (some no_path, m') = (configured ≡ true) × (m' ≡ m)
  IsUpdate configured stops started exe dest m (some not_copied, m') =
      (configured ≡ true)
      × ((q : Bytes) → m'.files q ≡ m.files q)
      × (stops ≡ true → m'.running ≡ false)
  IsUpdate configured stops started exe dest m (some not_started, m') =
      (configured ≡ true)
      × (started ≡ false)
      × Replaces exe dest m m'
      × (stops ≡ true → m'.running ≡ false)

  -- What a copy leaves, where it succeeds.
  abbrev Brings : Bytes → Bytes → Machine → Option Machine → Type 0
  Brings exe dest m none = Unit
  Brings exe dest m (some m') = Replaces exe dest m m' × (m'.running ≡ m.running)
