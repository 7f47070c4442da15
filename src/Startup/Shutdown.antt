-- ===== src/Startup/Shutdown.antt =====
-- The loop of the clean-ups ends with the context, and what it has done until then; the loop of the
-- address database does as long as the file is current.
use oximetric.Base.{
  ℤ, ℕ, Str, Bool, true, false, List, [], ◌∷◌, some, ◌≡◌, refl, ap, ◌∙◌, keep, is_positive,
}
use oximetric.Model.{Time, Project}
use oximetric.Storage.Schema.{Db, EventRow, exists_row}
use oximetric.Startup.Retention.{outdated_in}
use oximetric.Startup.Loops.{Received, update_if_needed, geoip_update_loop}
use oximetric.Geoip.Updater.{Date, File, Disk, World, needs_update, is_older}

-- Ticks, then the end of the context, then anything.
abbrev pub until_done : {T : Type 0} → List T → List (Received T) → List (Received T)
until_done [] rest = Received.done ∷ rest
until_done (t ∷ ts) rest = Received.tick t ∷ until_done ts rest

abbrev pub limited_projects : Db → List Project
limited_projects db = keep (λ p. is_positive p.retention_days) db.projects

-- A clean-up leaves the projects, and no fault is planned.
abbrev IsKept : Db → Db → Type 0
IsKept db after = (after.projects ≡ db.projects) × (after.faults ≡ [])

module _ (days_before : Time → ℤ → Time) where
  -- At one of the clocks the event is outdated.
  abbrev pub outdated_once : List Project → List (Project → Time) → EventRow → Bool
  outdated_once projects clocks e =
      exists_row (λ clock. outdated_in days_before clock projects e) clocks

module _ (decimal : ℕ → Str) where
  -- The tick does not ask for an update of the file.
  abbrev pub IsCurrent : File → List (Date × World) → Type 0
  IsCurrent file [] = Unit
  IsCurrent file ((now, world) ∷ ticks) = (is_older file now ≡ false) × IsCurrent file ticks

  -- As long as no tick comes in a month after that of the database, the loop downloads nothing and
  -- leaves the disk as it is, until it returns at the end of the context.
  pub geoip_update_loop_current :
      (ticks : List (Date × World)) (rest : List (Received (Date × World))) (file : File)
      (disk : Disk)
      → disk.database ≡ some file
      → IsCurrent file ticks
      → geoip_update_loop decimal (until_done ticks rest) disk ≡ (disk, true)
  unfolding geoip_update_loop update_if_needed needs_update
  geoip_update_loop_current [] rest file disk h c = refl
  geoip_update_loop_current ((now, world) ∷ ticks) rest file disk h (c, cs) =
      let idle : update_if_needed decimal (now, world) disk ≡ disk =
        rw (update_if_needed, needs_update, h, c) refl in
      ap (geoip_update_loop decimal (until_done ticks rest)) idle
      ∙ geoip_update_loop_current ticks rest file disk h cs
