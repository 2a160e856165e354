-- ===== src/Config/Ops/Runs.antt =====
-- The configuration file over many operations: `saveConfigLocked` of backend-go/internal/config/config_loader.go and its callers in
-- backend-go/internal/config.
use ccx.Base.{
  ◌≡◌, sym, ◌∙◌, Bool, true, false, not, ◌&&◌, Option, none, some, ◌⊎◌, inl, inr, List, [], ◌∷◌,
  String, All, Bool-cases, ap, arith,
}
use ccx.Config.Types.{Config}
use ccx.Config.Manager.{ConfigManager, ConfigError, Host, clear_deprecated}
use ccx.Config.Ops.{Op, perform}
use ccx.Config.Ops.Synced.{IsHonest, is_write_error}
use ccx.Config.Ops.Report.{IsCovered, perform-IsHonest}

-- An operation, with what it finds outside: the instants, and whether the file can be written.
pub record Call : Type 0 where
  pub op : Op
  pub host : Host

abbrev pub is_saved : Option ConfigError → Bool
is_saved none = true
is_saved (some e) = not (is_write_error e)

module _ (marshal : Config → String) where
  abbrev pub host_of : Call → Host
  host_of c = record (c.host) { marshal = marshal }

  unfoldable pub run : List Call → ConfigManager → ConfigManager
  run [] m = m
  run (c ∷ cs) m = run cs (perform (host_of c) c.op m).0

  -- Whether no operation of the run reports that the file was not written.
  unfoldable pub all_saved : List Call → ConfigManager → Bool
  all_saved [] m = true
  all_saved (c ∷ cs) m =
      let next = perform (host_of c) c.op m in
      let rest = all_saved cs next.0 in is_saved next.1 && rest

  -- The file holds the configuration in memory.
  abbrev pub Holds : ConfigManager → Type 0
  Holds m = m.file ≡ some (marshal (clear_deprecated m.config))

  -- The content of the file is not known, or it holds the configuration in memory.
  abbrev pub InStep : ConfigManager → Type 0
  InStep m = (m.file ≡ none) ⊎ Holds m

  as_before-Holds :
      (m m' : ConfigManager)
      → m'.file ≡ m.file
      → marshal (clear_deprecated m'.config) ≡ marshal (clear_deprecated m.config)
      → Holds m
      → Holds m'
  as_before-Holds m m' f j h = f ∙ h ∙ ap some (sym j)

  as_before-InStep :
      (m m' : ConfigManager)
      → m'.file ≡ m.file
      → marshal (clear_deprecated m'.config) ≡ marshal (clear_deprecated m.config)
      → InStep m
      → InStep m'
  as_before-InStep m m' f j (inl h) = inl (f ∙ h)
  as_before-InStep m m' f j (inr h) = inr (as_before-Holds m m' f j h)

  honest-InStep :
      (host : Host) (m : ConfigManager) (r : ConfigManager × Option ConfigError)
      → IsHonest (record host { marshal = marshal }) m r
      → InStep m
      → InStep r.0
  honest-InStep host m (m', none) (inl s) h = inr s
  honest-InStep host m (m', none) (inr (f, j)) h = as_before-InStep m m' f j h
  honest-InStep host m (m', some e) s h = elim (Bool-cases (is_write_error e)) [
    | inl w ↦ inl (rw w at s)
    | inr w ↦ let same : m' ≡ m = rw w at s in rw same h
  ]

  honest-Holds :
      (host : Host) (m : ConfigManager) (r : ConfigManager × Option ConfigError)
      → IsHonest (record host { marshal = marshal }) m r
      → is_saved r.1 ≡ true
      → Holds m
      → Holds r.0
  honest-Holds host m (m', none) (inl s) w h = s
  honest-Holds host m (m', none) (inr (f, j)) w h = as_before-Holds m m' f j h
  honest-Holds host m (m', some e) s w h = elim (Bool-cases (is_write_error e)) [
    | inl b ↦ absurd (ground (arith, b, w))
    | inr b ↦ let same : m' ≡ m = rw b at s in rw same h
  ]

  run-InStep :
      (cs : List Call) (m : ConfigManager)
      → All (λ c. IsCovered c.op) cs
      → InStep m
      → InStep (run cs m)
  unfolding run
  run-InStep [] m g h = h
  run-InStep (c ∷ cs) m g h = run-InStep cs (perform (host_of c) c.op m).0 g.1 (
      honest-InStep c.host m (perform (host_of c) c.op m) (perform-IsHonest (host_of c) c.op m g.0)
        h)

  run-Holds :
      (cs : List Call) (m : ConfigManager)
      → All (λ c. IsCovered c.op) cs
      → all_saved cs m ≡ true
      → Holds m
      → Holds (run cs m)
  unfolding run all_saved
  run-Holds [] m g w h = h
  run-Holds (c ∷ cs) m g w h =
      let next = perform (host_of c) c.op m in
      run-Holds cs next.0 g.1 (ground (arith, w))
        (honest-Holds c.host m next (perform-IsHonest (host_of c) c.op m g.0) (ground (arith, w)) h)

  -- What is known of the file after a run, by whether a failed write was reported in it.
  abbrev pub IsKnown : Bool → ConfigManager → Type 0
  IsKnown true m = Holds m
  IsKnown false m = InStep m

  -- If the file holds the configuration in memory at first, it does so after any operations of which none reports that
  -- the file was not written. If one of them does, then at the end the file still holds the configuration in
  -- memory, or its content is not known. The updates of image channels are left out.
  pub run-IsKnown :
      (cs : List Call) (m : ConfigManager)
      → All (λ c. IsCovered c.op) cs
      → Holds m
      → IsKnown (all_saved cs m) (run cs m)
  run-IsKnown cs m g h = elim (Bool-cases (all_saved cs m)) [
    | inl e ↦ rw e (run-Holds cs m g e h)
    | inr e ↦ rw e (run-InStep cs m g (inr h))
  ]
