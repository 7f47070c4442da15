-- ===== src/Handler/Tokens/Disabled.antt =====
-- What a token opens after `DisableToken`.
use oximetric.Base.{
  ℤ, Str, lit, true, false, List, [], ◌∷◌, Option, some, ◌==◌, int_eq, str_eq, eq_iff, find?, atoi,
  is_empty, update_where, ◌≡◌, refl, sym, Bool-cases, Option-cases, inl, inr,
}
use oximetric.Model.{Time, ProjectToken}
use oximetric.Storage.Store.{ok}
use oximetric.Storage.Schema.{TokenRow, Db, first_row, statement_runs}
use oximetric.Storage.Sqlite.Tokens.{
  get_project_token_by_token, list_project_tokens, update_project_token, set_token, scan_first,
  scan_token,
}
use oximetric.Storage.Sqlite.Whole.{sqlite}
use oximetric.Http.{Step, Handler, write_status, unauthorized}
use oximetric.Middleware.Guards.{token_auth}
use oximetric.Handler.Tokens.{disable_token, path_int_or_zero}

find?-eq :
    (ts : List ProjectToken) (id : ℤ) (t : ProjectToken)
    → find? (λ (t : ProjectToken). t.id == id) ts ≡ some t
    → t.id ≡ id
find?-eq [] id t h = cc
find?-eq (x ∷ xs) id t h = elim (Bool-cases (x.id == id)) [
  | inl e ↦ let q : x ≡ t = cc (rw e at h) in rw (← q) ((eq_iff x.id id).0 e)
  | inr e ↦ find?-eq xs id t (rw e at h)
]

-- The row that is found under a text is found again after it is updated.
first_row-set_token :
    (token : ProjectToken) (text : Str) (ts : List TokenRow) (t : TokenRow)
    → first_row (λ r. r.token == text) ts ≡ ok t
    → t.id ≡ token.id
    → first_row (λ r. r.token == text) (update_where (λ r. r.id == token.id) (set_token token) ts)
      ≡ ok (set_token token t)
first_row-set_token token text [] t h k = cc
first_row-set_token token text (x ∷ xs) t h k = elim (Bool-cases (x.token == text)) [
  | inl e ↦
      let q : x ≡ t = cc (rw e at h) in
      let same : (x.id == token.id) ≡ true = (eq_iff x.id token.id).1 (rw q k) in
      rw (same, e, q) refl
  | inr e ↦ elim (Bool-cases (x.id == token.id)) [
    | inl same ↦ rw (same, e) (first_row-set_token token text xs t (rw e at h) k)
    | inr other ↦ rw (other, e) (first_row-set_token token text xs t (rw e at h) k)
  ]
]

module _ (url_parse : Str → Option (Str × Str)) (quote : Str → Str) (path_id path_token_id : Str)
    (now : Time) (db : Db) where
  abbrev pub disabled : Db × Step (Unit {0})
  disabled = disable_token sqlite url_parse quote path_id path_token_id now db

  abbrev set_off : ProjectToken → ProjectToken
  set_off t = record t { active = false; disabled_at = some now }

  list_runs :
      (id : ℤ)
      → db.faults ≡ []
      → (ts : List ProjectToken) × (list_project_tokens id db ≡ (db, ok ts))
  unfolding list_project_tokens
  list_runs id quiet = (_, statement_runs _ db quiet)

  abbrev updated : ProjectToken → Db
  updated t = record db {
    tokens = update_where (λ (r : TokenRow). r.id == t.id) (set_token t) db.tokens;
  }

  update_runs : (t : ProjectToken) → db.faults ≡ [] → update_project_token t db ≡ (updated t, ok tt)
  unfolding update_project_token
  update_runs t quiet = statement_runs _ db quiet

  -- With status 200 a token with the id of the path has been switched off.
  disabled_update :
      (id : ℤ)
      → db.faults ≡ []
      → atoi path_token_id ≡ some id
      → disabled.1 ≡ Step.reply (write_status 200)
      → (t : ProjectToken) × (t.id ≡ id) × (disabled.0 ≡ updated (set_off t))
  unfolding disable_token
  disabled_update id quiet parsed ok200 =
      let (ts, listed) = list_runs (path_int_or_zero path_id) quiet in
      elim (Option-cases (find? (λ (t : ProjectToken). t.id == id) ts)) [
        | inl n ↦ cc (rw (parsed, listed, n) at ok200)
        | inr (t, f) ↦
            (t, find?-eq ts id t f, rw (parsed, listed, f, update_runs (set_off t) quiet) refl)
      ]

  -- On SQLite, when the driver fails no statement: once DisableToken has answered 200 for the id of
  -- the row that a token's text is found at, TokenAuth refuses that text with 401, whatever the
  -- request's origin and the route, and the route is not called.
  pub disable_token_refused :
      (text origin : Str) (row : TokenRow) (next : ℤ → Handler Db)
      → db.faults ≡ []
      → is_empty text ≡ false
      → first_row (λ (r : TokenRow). r.token == text) db.tokens ≡ ok row
      → atoi path_token_id ≡ some row.id
      → disabled.1 ≡ Step.reply (write_status 200)
      → token_auth get_project_token_by_token text origin next disabled.0
        ≡ (disabled.0, Step.reply (unauthorized (lit "token is disabled")))
  unfolding token_auth get_project_token_by_token scan_first scan_token
  disable_token_refused text origin row next quiet filled found parsed ok200 =
      let (t, same, after) = disabled_update row.id quiet parsed ok200 in
      let off = first_row-set_token (set_off t) text db.tokens row found (sym same) in
      let looked =
        statement_runs
          (λ (d : Db). (d, scan_first (first_row (λ (r : TokenRow). r.token == text) d.tokens)))
          (updated (set_off t)) quiet in
      rw (after, filled, looked, off) refl
