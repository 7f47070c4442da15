-- ===== src/Geoip/Outcome.antt =====
-- What one run of `Update` leaves on the disk.
use oximetric.Base.{
  ℕ, Str, Bool, true, false, not, ◌&&◌, none, some, ◌≡◌, refl, sym, ap, ◌∙◌, leb, ◌⊎◌, inl, inr,
  arith, Bool-cases, Option-cases, nat_beq,
}
use oximetric.Geoip.Updater.{
  Date, Disk, Download, World, needs_update, days_in, month_before, add_date_month_back,
  download_url, fetch, copy_out, save, update,
}

module _ (decimal : ℕ → Str) (world : World) (now : Date) (disk : Disk) where
  abbrev after : Disk × Bool
  after = update decimal world now disk

  -- The database is what a download unpacks to.
  pub record IsInstalled : Type 0 where
    pub resp : Download
    pub contents : Str
    pub fetched : fetch decimal world now ≡ some resp
    pub status_ok : resp.status ≡ 200
    pub received : resp.whole ≡ true
    pub unpacked : world.gunzip resp.body ≡ some (contents, true)
    pub written : world.write contents ≡ none
    pub stored : after ≡ (
      record { database = some (record { contents = contents; modified = now }); temp = none },
      true,
    )

  -- Gzip has stopped behind this part, or a write has.
  abbrev IsCutOff : Str → Str → Type 0
  IsCutOff body part =
      (world.gunzip body ≡ some (part, false))
      ⊎ ((out : Str × Bool) × (world.gunzip body ≡ some out) × (world.write out.0 ≡ some part))

  -- The update failed, and has cut off the database where gzip or a write did.
  pub record IsBroken : Type 0 where
    pub body : Str
    pub contents : Str
    pub cut_off : IsCutOff body contents
    pub stored : after ≡ (
      record { database = some (record { contents = contents; modified = now }); temp = none },
      false,
    )
    -- Until the month is over no other update is asked for.
    pub not_retried : (day : ℕ) → needs_update (record now { day = day }) after.0 ≡ false

  -- The disk with a new database.
  abbrev with_database : Str → Disk
  with_database contents = record {
    database = some (record { contents = contents; modified = now });
    temp = none;
  }

  abbrev copied : Str × Bool → Disk × Bool
  copied (contents, complete) = elim (world.write contents) [
    | none ↦ (with_database contents, complete)
    | some part ↦ (with_database part, false)
  ]

  -- What gzip gives to the copy.
  abbrev IsUnpacked : Download → Type 0
  IsUnpacked resp =
      (out : Str × Bool) × (resp.status ≡ 200)
      × (resp.whole ≡ true)
      × (world.gunzip resp.body ≡ some out)
      × (save decimal world now resp disk ≡ copied out)

  written :
      (resp : Download) (out : Str × Bool)
      → world.removed ≡ true
      → (nat_beq resp.status 200 && world.made_dir && world.made_temp) ≡ true
      → (resp.whole && world.opened_temp) ≡ true
      → world.gunzip resp.body ≡ some out
      → world.created ≡ true
      → save decimal world now resp disk ≡ copied out
  unfolding save
  written resp (contents, complete) removed e f g c = elim (Option-cases (world.write contents)) [
    | inl w ↦ rw (save, e, f, g, c, copy_out, copied, w, removed) refl
    | inr (part, w) ↦ rw (save, e, f, g, c, copy_out, copied, w, removed) refl
  ]

  save_cases :
      (resp : Download)
      → disk.temp ≡ none
      → world.removed ≡ true
      → (save decimal world now resp disk ≡ (disk, false)) ⊎ IsUnpacked resp
  unfolding save
  save_cases resp h removed =
      elim (Bool-cases (nat_beq resp.status 200 && world.made_dir && world.made_temp)) [
        | inr e ↦ inl (rw (save, e) refl)
        | inl e ↦ elim (Bool-cases (resp.whole && world.opened_temp)) [
          | inr f ↦
              inl (rw (save, e, f, removed) (ap (λ t. (record disk { temp = t }, false)) (sym h)))
          | inl f ↦ elim (Option-cases (world.gunzip resp.body)) [
            | inl g ↦
                inl (
                  rw (save, e, f, g, removed) (ap (λ t. (record disk { temp = t }, false)) (sym h)))
            | inr (out, g) ↦ elim (Bool-cases world.created) [
              | inr c ↦ inl (
                  rw (save, e, f, g, c, removed)
                    (ap (λ t. (record disk { temp = t }, false)) (sym h)))
              | inl c ↦ inr (out, ground arith, ground arith, g, written resp out removed e f g c)
            ]
          ]
        ]
      ]

  same_month :
      (contents : Str) (day : ℕ)
      → needs_update (record now { day = day }) (with_database contents) ≡ false
  unfolding needs_update
  same_month contents day = ground arith

  broken :
      (resp : Download) (part : Str)
      → IsCutOff resp.body part
      → after ≡ (with_database part, false)
      → IsBroken
  broken resp part c a = record {
    body = resp.body;
    contents = part;
    cut_off = c;
    stored = a;
    not_retried = λ day. rw a (same_month part day);
  }

  written_outcome :
      (resp : Download) (contents : Str) (complete : Bool)
      → fetch decimal world now ≡ some resp
      → resp.status ≡ 200
      → resp.whole ≡ true
      → world.gunzip resp.body ≡ some (contents, complete)
      → world.write contents ≡ none
      → after ≡ (with_database contents, complete)
      → IsInstalled ⊎ IsBroken
  written_outcome resp contents true e status whole g w a = inl (record {
    resp = resp;
    contents = contents;
    fetched = e;
    status_ok = status;
    received = whole;
    unpacked = g;
    written = w;
    stored = a;
  })
  written_outcome resp contents false e status whole g w a = inr (broken resp contents (inl g) a)

  unpacked_outcome :
      (resp : Download)
      → fetch decimal world now ≡ some resp
      → after ≡ save decimal world now resp disk
      → IsUnpacked resp
      → IsInstalled ⊎ IsBroken
  unpacked_outcome resp e a ((contents, complete), status, whole, g, s) =
      elim (Option-cases (world.write contents)) [
        | inr (part, w) ↦
            let c : copied (contents, complete) ≡ (with_database part, false) =
              rw (copied, w) refl in
            inr (broken resp part (inr (_, g, w)) (a ∙ (s ∙ c)))
        | inl w ↦
            let c : copied (contents, complete) ≡ (with_database contents, complete) =
              rw (copied, w) refl in
            written_outcome resp contents complete e status whole g w (a ∙ (s ∙ c))
      ]

  -- An update that succeeds has put into place what a complete download with status 200 unpacks to.
  -- One that fails has left the disk as it was; or else gzip or a write has stopped in the middle, and
  -- then the old database is gone, the part before that stands in its place, and no other update is
  -- asked for until the month is over. When there was no temporary file and os.Remove gives no error,
  -- none is left.
  pub update_outcome :
      disk.temp ≡ none → world.removed ≡ true → IsInstalled ⊎ ((after ≡ (disk, false)) ⊎ IsBroken)
  unfolding update
  update_outcome h removed = elim (Option-cases (fetch decimal world now)) [
    | inl e ↦ inr (inl (rw (update, e) refl))
    | inr (resp, e) ↦
        let a : after ≡ save decimal world now resp disk = rw (update, e) refl in
        elim (save_cases resp h removed) [
          | inl s ↦ inr (inl (a ∙ s))
          | inr u ↦ elim (unpacked_outcome resp e a u) [ inl i ↦ inl i | inr b ↦ inr (inr b) ]
        ]
  ]

-- A date in the month before that does not exist runs over into the month of the first.
abbrev runs_over : Date → Bool
runs_over now =
    not (leb (month_before now).day (days_in (month_before now).year (month_before now).month))

add_date_month_back_same :
    (decimal : ℕ → Str) (now : Date)
    → runs_over now ≡ true
    → download_url decimal (add_date_month_back now) ≡ download_url decimal now
unfolding add_date_month_back
add_date_month_back_same decimal now h =
    elim (Bool-cases
      (leb (month_before now).day (days_in (month_before now).year (month_before now).month))) [
        | inl e ↦ cc (rw e at h)
        | inr e ↦ rw (add_date_month_back, e) refl
      ]

-- On a day that the month before does not have, the second address is that of the first: when it is
-- not found, the update fails and leaves the disk as it was, though the file of the month before may
-- be there.
pub update-runs_over :
    (decimal : ℕ → Str) (world : World) (now : Date) (disk : Disk) (resp : Download)
    → runs_over now ≡ true
    → world.get (download_url decimal now) ≡ some resp
    → resp.status ≡ 404
    → update decimal world now disk ≡ (disk, false)
unfolding update fetch save
update-runs_over decimal world now disk resp h e status =
    rw (update, fetch, e, status, add_date_month_back_same decimal now h, e, save, status) refl
