-- ===== src/Geoip/Updater.antt =====
-- internal/geoip/updater.go. The disk is what stands at the path of the database, and the
-- temporary file of a download. What the network, the file system and gzip answer in the course of
-- one update is the record `World`. Dates are those of the server's calendar.
use oximetric.Base.{
  ℕ, ◌-◌, ◌%◌, Str, lit, Bool, true, false, not, ◌&&◌, ◌||◌, ◌++◌, Option, none, some, nat_beq, ltb,
  leb, if◌then◌else◌,
}

pub record Date : Type 0 where
  pub year : ℕ
  pub month : ℕ
  pub day : ℕ

pub record File : Type 0 where
  pub contents : Str
  pub modified : Date

pub record Disk : Type 0 where
  pub database : Option File
  pub temp : Option Str

-- A response; `whole` is false when the body breaks off, or is not stored.
pub record Download : Type 0 where
  pub status : ℕ
  pub body : Str
  pub whole : Bool

pub record World : Type 0 where
  -- http.Get
  pub get : Str → Option Download
  -- os.MkdirAll, os.CreateTemp, os.Open of the temporary file, os.Create of the database
  pub made_dir : Bool
  pub made_temp : Bool
  pub opened_temp : Bool
  pub created : Bool
  -- gzip.NewReader, then what is read of it, and whether that came to the end
  pub gunzip : Str → Option (Str × Bool)
  -- the writes to the database: none when all are done, and else the part before one that failed
  pub write : Str → Option Str
  -- os.Remove of the temporary file
  pub removed : Bool

abbrev pub is_some {ℓ} : {A : Type ℓ} → Option A → Bool
is_some none = false
is_some (some a) = true

unfoldable pub database_exists : Disk → Bool
database_exists disk = is_some disk.database

-- The year and the month are past those of the file.
abbrev pub is_older : File → Date → Bool
is_older file now =
    ltb file.modified.year now.year
    || (nat_beq now.year file.modified.year && ltb file.modified.month now.month)

unfoldable pub needs_update : Date → Disk → Bool
needs_update now disk = elim disk.database [ none ↦ true | some file ↦ is_older file now ]

-- The calendar behind `AddDate`.
abbrev pub divides : ℕ → ℕ → Bool
divides d n = nat_beq (n % d) 0

abbrev pub is_leap : ℕ → Bool
is_leap y = divides 4 y && (not (divides 100 y) || divides 400 y)

unfoldable pub days_in : ℕ → ℕ → ℕ
days_in y m =
    if nat_beq m 2
    then (if is_leap y then 29 else 28)
    else if nat_beq m 4 || nat_beq m 6 || nat_beq m 9 || nat_beq m 11
    then 30
    else 31

-- The month before, with the same day.
abbrev pub month_before : Date → Date
month_before d =
    if leb d.month 1
    then record { year = d.year - 1; month = 12; day = d.day }
    else record d { month = d.month - 1 }

-- `AddDate(0, -1, 0)`: a day that the month before lacks runs over into the month after it.
unfoldable pub add_date_month_back : Date → Date
unfolding days_in
add_date_month_back d =
    let b = month_before d in
    if leb b.day (days_in b.year b.month)
    then b
    else record { year = d.year; month = d.month; day = b.day - days_in b.year b.month }

module _ (decimal : ℕ → Str) where
  -- `%02d`
  abbrev pub two_digits : ℕ → Str
  two_digits n = if ltb n 10 then lit "0" ++ decimal n else decimal n

  abbrev pub download_url : Date → Str
  download_url d =
      lit "https://download.db-ip.com/free/dbip-city-lite-"
      ++ decimal d.year
      ++ lit "-"
      ++ two_digits d.month
      ++ lit ".mmdb.gz"

  module _ (world : World) (now : Date) where
    open world use {get, made_dir, made_temp, opened_temp, created, gunzip, write, removed}

    -- The response that counts: where the file of this month is not found, that of the date a month
    -- back.
    unfoldable pub fetch : Option Download
    unfolding add_date_month_back
    fetch = elim (get (download_url now)) [
      | none ↦ none
      | some resp ↦
          if nat_beq resp.status 404
          then get (download_url (add_date_month_back now))
          else some resp
    ]

    abbrev pub with_contents : Disk → Str → Disk
    with_contents disk contents = record disk {
      database = some (record { contents = contents; modified = now });
    }

    -- The copy of what gzip gives into the file that os.Create has emptied; it stops where gzip or a
    -- write does.
    abbrev pub copy_out : Disk → Str × Bool → Disk × Bool
    copy_out disk (contents, complete) = elim (write contents) [
      | none ↦ (with_contents disk contents, complete)
      | some part ↦ (with_contents disk part, false)
    ]

    -- The part behind the temporary file; the result is whether there is no error.
    abbrev pub unpack : Download → Disk → Disk × Bool
    unpack resp disk =
        if resp.whole && opened_temp
        then elim (gunzip resp.body) [
          | none ↦ (disk, false)
          | some out ↦ if created then copy_out disk out else (disk, false)
        ]
        else (disk, false)

    -- The deferred os.Remove, whose error is passed over.
    abbrev pub remove_temp : Disk × Bool → Disk × Bool
    remove_temp (disk, done) = (if removed then record disk { temp = none } else disk, done)

    unfoldable pub save : Download → Disk → Disk × Bool
    save resp disk =
        if nat_beq resp.status 200 && made_dir && made_temp
        then remove_temp (unpack resp (record disk { temp = some resp.body }))
        else (disk, false)

    unfoldable pub update : Disk → Disk × Bool
    unfolding fetch save
    update disk = elim fetch [ none ↦ (disk, false) | some resp ↦ save resp disk ]
