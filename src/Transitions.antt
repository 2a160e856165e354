-- ===== src/Transitions.antt =====
-- The restoring of disabled keys: backend-go/internal/transitions/recovery.go and resume.go.
-- The callbacks are functions on the state `S` of everything outside; an error is a text.
use ccx.Base.{
  ℕ, ◌≡◌, ◌≢◌, Bool, true, false, Option, none, some, List, [], ◌∷◌, String, if◌then◌else◌, arith,
}

-- `RestoreAndHalfOpenResult`
pub record RestoreAndHalfOpenResult : Type 0 where
  pub restored_keys : List String
  pub activated_channel : Bool

-- `(result, err)` of the callbacks.
pub data Answer (A : Type 0) : Type 0 where
  ok : A → Answer A
  error : String → Answer A

abbrev pub nothing : RestoreAndHalfOpenResult
nothing = record { restored_keys = []; activated_channel = false }

abbrev pub restored : List String → Bool → RestoreAndHalfOpenResult
restored keys b = record { restored_keys = keys; activated_channel = b }

-- The callbacks of `RestoreDisabledKeysAndActivate`; `should_activate_channel` is `none` where it is nil.
pub record Callbacks (S : Type 0) : Type 0 where
  pub restore_disabled_keys : List String → S → S × Answer (List String)
  pub move_key_to_half_open : String → String → S → S
  pub set_channel_status : String → S → S × Option String
  pub should_activate_channel : Option (S → Bool)

module _ {S : Type 0} (f : Callbacks S) where
  -- The loop over the restored keys.
  unfoldable pub move_all : List String → S → S
  move_all [] w = w
  move_all (key ∷ keys) w = move_all keys (f.move_key_to_half_open "" key w)

  abbrev pub should_activate : S → Bool
  should_activate w = elim f.should_activate_channel [ none ↦ false | some p ↦ p w ]

  abbrev pub activate :
      List String → S × Option String → S × RestoreAndHalfOpenResult × Option String
  activate keys (w, none) = (w, restored keys true, none)
  activate keys (w, some e) = (w, restored keys false, some e)

  abbrev pub after_restore : S × Answer (List String) → S × RestoreAndHalfOpenResult × Option String
  unfolding move_all
  after_restore (w, error e) = (w, nothing, some e)
  after_restore (w, ok []) = (w, nothing, none)
  after_restore (w, ok (key ∷ keys)) =
      let moved = move_all (key ∷ keys) w in
      if should_activate moved
      then activate (key ∷ keys) (f.set_channel_status "active" moved)
      else (moved, restored (key ∷ keys) false, none)

  unfoldable pub restore_disabled_keys_and_activate :
      List String → S → S × RestoreAndHalfOpenResult × Option String
  unfolding after_restore
  restore_disabled_keys_and_activate [] w = (w, nothing, none)
  restore_disabled_keys_and_activate (key ∷ keys) w =
      after_restore (f.restore_disabled_keys (key ∷ keys) w)

-- `RestoreAllAndReset`: the number of keys restored, and the error.
abbrev reset_after : {S : Type 0} → (S → S) → S → Answer ℕ → S × ℕ × Option String
reset_after reset w (error e) = (w, 0, some e)
reset_after reset w (ok n) = (reset w, n, none)

unfoldable pub restore_all_and_reset :
    {S : Type 0} → (S → S × Answer ℕ) → (S → S) → S → S × ℕ × Option String
restore_all_and_reset restore_all_keys reset_channel_runtime w =
    let (w', a) = restore_all_keys w in reset_after reset_channel_runtime w' a

module _ {S : Type 0} (f : Callbacks S) where
  -- If the channel is reported as activated, keys were restored, there is no error, and the state is that
  -- of `SetChannelStatus` called once with "active" after every key that was restored, and no other,
  -- has been moved to half-open.
  pub activated_after_half_open :
      (keys : List String) (w : S)
      → (restore_disabled_keys_and_activate f keys w).1.activated_channel ≡ true
      → ((restore_disabled_keys_and_activate f keys w).1.restored_keys ≢ [])
        × ((restore_disabled_keys_and_activate f keys w).2 ≡ none)
        × ((restore_disabled_keys_and_activate f keys w).0
            ≡ (f.set_channel_status "active" (
                move_all f
                  (restore_disabled_keys_and_activate f keys w).1.restored_keys
                  (f.restore_disabled_keys keys w).0)).0)
  unfolding restore_disabled_keys_and_activate
  activated_after_half_open [] w h = ground arith
  activated_after_half_open (key ∷ keys) w h = ground arith

  -- Where the restoring fails, that error is returned, no key is reported or moved to half-open, and no
  -- channel is activated.
  restore_error_reports_nothing :
      (key : String) (keys : List String) (w : S) (e : String)
      → (f.restore_disabled_keys (key ∷ keys) w).1 ≡ error e
      → restore_disabled_keys_and_activate f (key ∷ keys) w
        ≡ ((f.restore_disabled_keys (key ∷ keys) w).0, nothing, some e)
  unfolding restore_disabled_keys_and_activate
  restore_error_reports_nothing key keys w e h = ground arith
