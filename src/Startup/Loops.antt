-- ===== src/Startup/Loops.antt =====
-- `retentionCleanupLoop` and `geoipUpdateLoop` of cmd/oximetric/main.go, over what their select
-- statements receive. A loop that has come to the end of the list is still waiting.
use oximetric.Base.{ℤ, ℕ, Str, Bool, true, false, List, [], ◌∷◌, if◌then◌else◌}
use oximetric.Model.{Time, Project}
use oximetric.Storage.Store.{Store}
use oximetric.Startup.{run_retention_cleanup}
use oximetric.Geoip.Updater.{Date, Disk, World, needs_update, update}

-- What a select receives: the end of the context, or a tick, with what the world is at that time.
pub data Received (T : Type 0) : Type 0 where
  done : Received T
  tick : T → Received T

module _ (store : Store) (days_before : Time → ℤ → Time) where
  -- The loop behind the first clean-up; the result is the state, and whether the loop has returned.
  unfoldable pub retention_select : List (Received (Project → Time)) → store.S → store.S × Bool
  retention_select [] s = (s, false)
  retention_select (Received.done ∷ rest) s = (s, true)
  retention_select (Received.tick clock ∷ rest) s =
      retention_select rest (run_retention_cleanup store days_before clock s)

  -- The clean-up after the first ten seconds, which is not interrupted, and the loop.
  unfoldable pub retention_cleanup_loop :
      (Project → Time) → List (Received (Project → Time)) → store.S → store.S × Bool
  unfolding retention_select
  retention_cleanup_loop clock received s =
      retention_select received (run_retention_cleanup store days_before clock s)

module _ (decimal : ℕ → Str) where
  -- An error of the update is logged and passed over.
  unfoldable pub update_if_needed : Date × World → Disk → Disk
  update_if_needed (now, world) disk =
      if needs_update now disk then (update decimal world now disk).0 else disk

  unfoldable pub geoip_update_loop : List (Received (Date × World)) → Disk → Disk × Bool
  unfolding update_if_needed
  geoip_update_loop [] disk = (disk, false)
  geoip_update_loop (Received.done ∷ rest) disk = (disk, true)
  geoip_update_loop (Received.tick t ∷ rest) disk = geoip_update_loop rest (update_if_needed t disk)
