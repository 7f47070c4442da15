-- ===== src/Storage/Sound/Properties.antt =====
-- The transaction of `InsertEventProperties` of internal/storage/sqlite.go.
use oximetric.Base.{◌≡◌, refl, sym, ap, ◌∙◌, Bool, true, false, List, [], ◌∷◌, All-concat, arith}
use mathlib.Core.Path.{subst}
use oximetric.Model.{EventProperty}
use oximetric.Storage.Store.{StoreError, Result, Done, ok, err}
use oximetric.Storage.Schema.{Db, statement, statement_keeps, refused_if}
use oximetric.Storage.Sqlite.Events.{
  insert_property_run, insert_properties_loop, bare, rolled_back, insert_event_properties,
  ◌then_run◌,
}
use oximetric.Storage.Sound.{IsSound}
use oximetric.Storage.Sound.Tables.{
  Keeps, statement-Keeps, refused_if-IsSound, with_properties, IsSound-faults,
}
use oximetric.Storage.Sound.Operations.{query-Keeps}

insert_property_run-Keeps : (p : EventProperty) → Keeps (insert_property_run p)
unfolding insert_property_run
insert_property_run-Keeps p db s =
    refused_if-IsSound _ db _ s
      (λ found. with_properties s _ (All-concat _ db.properties _ s.properties (ground arith)))

-- Only the properties and the schedule of faults differ.
abbrev pub Aside : Db → Db → Type 0
Aside before after =
    ◌≡◌ {A = Db} (record after { properties = before.properties; faults = before.faults }) before

-- A refused statement leaves all aside.
refused_if-Aside {ℓ} :
    {A : Type ℓ} (before : Db) (b : Bool) (db : Db) (done : Db × Result A)
    → Aside before db
    → Aside before done.0
    → Aside before (refused_if b db done).0
unfolding refused_if
refused_if-Aside before true db done h k = h
refused_if-Aside before false db done h k = k

insert_property-Aside :
    (p : EventProperty) (db : Db) → Aside db (statement (insert_property_run p) db).0
unfolding insert_property_run
insert_property-Aside p db =
    statement_keeps (λ before after. Aside before after.0) (insert_property_run p) db
      (λ rest. refused_if-Aside db _ _ _ refl refl) (λ rest. refl)

bare-Aside : (db : Db) → Aside db (bare db).0
unfolding bare
bare-Aside db =
    statement_keeps (λ before after. Aside before after.0) _ db (λ rest. refl) (λ rest. refl)

Aside-trans : (a b c : Db) → Aside a b → Aside b c → Aside a c
Aside-trans a b c h k =
    ap (λ (d : Db). record d { properties = a.properties; faults = a.faults }) k ∙ h

-- What holds of each part of a sequence of statements holds of the sequence.
pub then_run_keeps {ℓ} :
    (P : Db → Type ℓ) (r : Db × Done) (next : Db → Db × Done)
    → P r.0
    → ((d : Db) → P d → P (next d).0)
    → P (r then_run next).0
unfolding ◌then_run◌
then_run_keeps P (db, ok done) next h k = k db h
then_run_keeps P (db, err e) next h k = h

loop-Aside :
    (before : Db) (ps : List EventProperty) (db : Db)
    → Aside before db
    → Aside before (insert_properties_loop ps db).0
unfolding insert_properties_loop
loop-Aside before [] db h = h
loop-Aside before (p ∷ ps) db h =
    then_run_keeps (Aside before) (statement (insert_property_run p) db) (insert_properties_loop ps)
      (Aside-trans before db (statement (insert_property_run p) db).0 h
        (insert_property-Aside p db))
      (loop-Aside before ps)

bare-Keeps : Keeps bare
unfolding bare
bare-Keeps = query-Keeps (λ _. ok tt)

loop-Keeps : (ps : List EventProperty) → Keeps (insert_properties_loop ps)
unfolding insert_properties_loop
loop-Keeps [] db s = s
loop-Keeps (p ∷ ps) db s =
    then_run_keeps IsSound (statement (insert_property_run p) db) (insert_properties_loop ps)
      (statement-Keeps _ (insert_property_run-Keeps p) db s) (loop-Keeps ps)

-- The four steps of the transaction, before the deferred rollback.
abbrev pub transaction : List EventProperty → Db → Db × Done
transaction props db = bare db then_run bare then_run insert_properties_loop props then_run bare

module _ (props : List EventProperty) (db : Db) where
  transaction-Aside : Aside db (transaction props db).0
  transaction-Aside =
      then_run_keeps (Aside db) _ bare
        (then_run_keeps (Aside db) _ (insert_properties_loop props)
          (then_run_keeps (Aside db) (bare db) bare (bare-Aside db)
            (λ d h. Aside-trans db d (bare d).0 h (bare-Aside d)))
          (loop-Aside db props))
        (λ d h. Aside-trans db d (bare d).0 h (bare-Aside d))

  transaction-IsSound : IsSound db → IsSound (transaction props db).0
  transaction-IsSound s =
      then_run_keeps IsSound _ bare
        (then_run_keeps IsSound _ (insert_properties_loop props)
          (then_run_keeps IsSound (bare db) bare (bare-Keeps db s) bare-Keeps) (loop-Keeps props))
        bare-Keeps

-- The rollback puts the old properties back, which fit the other tables as they did.
rolled_back-IsSound :
    (before : Db) (r : Db × Done)
    → IsSound before
    → Aside before r.0
    → IsSound r.0
    → IsSound (rolled_back before.properties r).0
unfolding rolled_back
rolled_back-IsSound before (db, ok done) s h k = k
rolled_back-IsSound before (db, err e) s h k =
    IsSound-faults (record db { properties = before.properties; faults = before.faults }) db.faults
      (subst IsSound (sym h) s)

pub insert_event_properties-Keeps :
    (props : List EventProperty) → Keeps (insert_event_properties props)
unfolding insert_event_properties
insert_event_properties-Keeps props db s =
    rolled_back-IsSound db (transaction props db) s (transaction-Aside props db)
      (transaction-IsSound props db s)

rolled_back_whole :
    (before : Db) (r : Db × Done) (e : StoreError)
    → Aside before r.0
    → (rolled_back before.properties r).1 ≡ err e
    → record ((rolled_back before.properties r).0) { faults = before.faults } ≡ before
unfolding rolled_back
rolled_back_whole before (db, ok done) e h k = cc
rolled_back_whole before (db, err _) e h k = h

rolled_back-Aside :
    (before : Db) (r : Db × Done)
    → Aside before r.0
    → Aside before (rolled_back before.properties r).0
unfolding rolled_back
rolled_back-Aside before (db, ok done) h = h
rolled_back-Aside before (db, err e) h = h

-- The transaction writes to no other table.
pub insert_event_properties-Aside :
    (props : List EventProperty) (db : Db) → Aside db (insert_event_properties props db).0
unfolding insert_event_properties
insert_event_properties-Aside props db =
    rolled_back-Aside db (transaction props db) (transaction-Aside props db)

-- The properties of an event are written all or none: a call that fails, at whichever statement and
-- for whichever reason, leaves every table as it was. Only the schedule of faults has moved on.
pub insert_event_properties_atomic :
    (props : List EventProperty) (db : Db) (e : StoreError)
    → (insert_event_properties props db).1 ≡ err e
    → record ((insert_event_properties props db).0) { faults = db.faults } ≡ db
unfolding insert_event_properties
insert_event_properties_atomic props db e h =
    rolled_back_whole db (transaction props db) e (transaction-Aside props db) h
