-- ===== src/Middleware/Origin/Spec.antt =====
-- What `matchOrigin` decides, said without indices and slices.
use oximetric.Base.{
  Str, lit, true, false, ◌||◌, none, some, List, [], ◌∷◌, ◌+◌, ◌++◌, ◌==◌, str_eq, eq_iff, eq_refl,
  drop, length, take-append, if◌then◌else◌, is_empty, has_prefix, has_suffix, trim_prefix, index?,
  suc, All, ◌≡◌, ◌≢◌, ◌↔◌, ◌⊎◌, inl, inr, refl, sym, ap, ◌∙◌, arith, Bool-cases,
}
use oximetric.Base.Strings.Laws.{
  Lacks, index?-append, trim_prefix-append, has_prefix-append, has_suffix-append,
  eq-append_of_has_prefix, eq-append_of_has_suffix,
}
use oximetric.Middleware.Origin.{
  match_wildcard, match_entry, match_loop, match_origin, handler_match_origin,
}

-- The entry for the subdomains of a host.
abbrev pub wildcard : Str → Str → Str
wildcard scheme host = scheme ++ (lit "://*." ++ host)

-- The origin is the host itself or one of its subdomains, under the same scheme.
abbrev pub IsBelow : Str → Str → Str → Type 0
IsBelow scheme host origin =
    (origin ≡ (scheme ++ lit "://") ++ host)
    ⊎ ((sub : Str) × (origin ≡ (scheme ++ lit "://") ++ (sub ++ (lit "." ++ host))))

-- An entry of the two forms that name hosts, as `normalizeOrigins` writes them.
pub data IsEntry (a : Str) : Type 0 where
  plain : index? a (lit "://*.") ≡ none → IsEntry a
  below : (scheme host : Str) → Lacks b':' scheme → a ≡ wildcard scheme host → IsEntry a

-- The entry admits the origin.
pub data Permits (a origin : Str) : Type 0 where
  any : a ≡ lit "*" → Permits a origin
  exact : a ≡ origin → Permits a origin
  subdomain :
      (scheme host : Str)
      → Lacks b':' scheme
      → a ≡ wildcard scheme host
      → IsBelow scheme host origin
      → Permits a origin

-- Some entry of the list admits the origin.
abbrev pub SomePermits : List Str → Str → Type 0
SomePermits [] origin = ⊥
SomePermits (a ∷ allowed) origin = Permits a origin ⊎ SomePermits allowed origin

module _ (scheme host : Str) (h : Lacks b':' scheme) where
  index?-wildcard : index? (wildcard scheme host) (lit "://*.") ≡ some (length scheme)
  unfolding lit
  index?-wildcard = index?-append b':' scheme (b'/' ∷ b'/' ∷ b'*' ∷ b'.' ∷ []) host h

  index?-scheme : index? (wildcard scheme host) (lit "://") ≡ some (length scheme)
  unfolding lit
  index?-scheme = index?-append b':' scheme (b'/' ∷ b'/' ∷ []) (b'*' ∷ b'.' ∷ host) h

drop-wildcard : (scheme host : Str) → drop (length scheme + 5) (wildcard scheme host) ≡ host
unfolding lit
drop-wildcard [] host = refl
drop-wildcard (c ∷ scheme) host =
    let e : suc (length scheme) + 5 ≡ suc (length scheme + 5) = omega arith in
    rw e (drop-wildcard scheme host)

-- What is left of the test for an entry of that form.
match_wildcard_lem :
    (scheme host origin : Str)
    → Lacks b':' scheme
    → match_wildcard (wildcard scheme host) origin ≡ (
        if has_prefix origin (scheme ++ lit "://")
        then trim_prefix origin (scheme ++ lit "://") == host
          || has_suffix (trim_prefix origin (scheme ++ lit "://")) (lit "." ++ host)
        else false)
unfolding match_wildcard
match_wildcard_lem scheme host origin h =
    rw (index?-wildcard scheme host h, index?-scheme scheme host h, match_wildcard)
      (rw (take-append scheme (lit "://*." ++ host), drop-wildcard scheme host))

-- The test of the host part, as a relation.
host_cases :
    (rest host : Str)
    → (rest == host || has_suffix rest (lit "." ++ host)) ≡ true
    → (rest ≡ host) ⊎ ((sub : Str) × (rest ≡ sub ++ (lit "." ++ host)))
host_cases rest host t = elim (Bool-cases (rest == host)) [
  | inl e ↦ inl ((eq_iff rest host).0 e)
  | inr e ↦ inr (eq-append_of_has_suffix rest (lit "." ++ host) (rw e at t))
]

IsBelow-of_match :
    (scheme host origin : Str)
    → Lacks b':' scheme
    → match_wildcard (wildcard scheme host) origin ≡ true
    → IsBelow scheme host origin
IsBelow-of_match scheme host origin h t =
    let prefix = scheme ++ lit "://" in
    let test = sym (match_wildcard_lem scheme host origin h) ∙ t in
    elim (Bool-cases (has_prefix origin prefix)) [
      | inr e ↦ cc (rw e at test)
      | inl e ↦
          let (rest, p) = eq-append_of_has_prefix origin prefix e in
          let left = ap (λ o. trim_prefix o prefix) p ∙ trim_prefix-append prefix rest in
          elim (host_cases rest host (rw left at (rw e at test))) [
            | inl q ↦ inl (p ∙ ap (λ r. prefix ++ r) q)
            | inr (sub, q) ↦ inr (sub, p ∙ ap (λ r. prefix ++ r) q)
          ]
    ]

match_of_IsBelow :
    (scheme host origin : Str)
    → Lacks b':' scheme
    → IsBelow scheme host origin
    → match_wildcard (wildcard scheme host) origin ≡ true
match_of_IsBelow scheme host origin h (inl e) =
    rw (match_wildcard_lem scheme host origin h, e)
      (rw (has_prefix-append, trim_prefix-append, eq_refl host))
match_of_IsBelow scheme host origin h (inr (sub, e)) =
    rw (match_wildcard_lem scheme host origin h, e)
      (rw (has_prefix-append, trim_prefix-append, has_suffix-append) (ground arith))

Permits-of_match : (a origin : Str) → IsEntry a → match_entry a origin ≡ true → Permits a origin
unfolding match_entry
Permits-of_match a origin entry t = elim (Bool-cases (a == lit "*")) [
  | inl e ↦ Permits.any ((eq_iff a (lit "*")).0 e)
  | inr e ↦ elim (Bool-cases (a == origin)) [
    | inl e' ↦ Permits.exact ((eq_iff a origin).0 e')
    | inr e' ↦ of_entry entry (rw e' at (rw e at t))
  ]
]
  where
    of_entry : IsEntry a → match_wildcard a origin ≡ true → Permits a origin
    of_entry (IsEntry.plain q) m = unfold match_wildcard in cc q
    of_entry (IsEntry.below scheme host h q) m =
        Permits.subdomain scheme host h q (IsBelow-of_match scheme host origin h (rw q at m))

match_of_Permits : (a origin : Str) → Permits a origin → match_entry a origin ≡ true
unfolding match_entry
match_of_Permits a origin (Permits.any e) = rw ((eq_iff a (lit "*")).1 e)
match_of_Permits a origin (Permits.exact e) = ground (arith, (eq_iff a origin).1 e)
match_of_Permits a origin (Permits.subdomain scheme host h e b) =
    let m : match_wildcard a origin ≡ true = rw e (match_of_IsBelow scheme host origin h b) in
    ground (arith, m)

SomePermits-of_match :
    (allowed : List Str) (origin : Str)
    → All IsEntry allowed
    → match_loop allowed origin ≡ true
    → SomePermits allowed origin
unfolding match_loop
SomePermits-of_match [] origin h t = cc
SomePermits-of_match (a ∷ allowed) origin (h, hs) t = elim (Bool-cases (match_entry a origin)) [
  | inl e ↦ inl (Permits-of_match a origin h e)
  | inr e ↦ inr (SomePermits-of_match allowed origin hs (rw e at t))
]

match_of_SomePermits :
    (allowed : List Str) (origin : Str)
    → SomePermits allowed origin
    → match_loop allowed origin ≡ true
unfolding match_loop
match_of_SomePermits [] origin p = elim p [ ]
match_of_SomePermits (a ∷ allowed) origin (inl p) = rw (match_of_Permits a origin p)
match_of_SomePermits (a ∷ allowed) origin (inr p) =
    ground (arith, match_of_SomePermits allowed origin p)

-- `matchOrigin` answers true exactly when the origin is not empty and some entry of the list
-- admits it: as "*", as the same text, or as the host or a subdomain of a wildcard entry under its
-- scheme. The entries are of the two forms that `normalizeOrigins` writes.
pub match_origin_iff :
    (allowed : List Str) (origin : Str)
    → All IsEntry allowed
    → (match_origin allowed origin ≡ true) ↔ ((origin ≢ []) × SomePermits allowed origin)
unfolding match_origin
match_origin_iff allowed [] h = ((λ e. cc), (λ p. absurd (p.0 refl)))
match_origin_iff allowed (c ∷ origin) h = (
  (λ e. ((λ p. ground arith), SomePermits-of_match allowed (c ∷ origin) h e)),
  (λ p. match_of_SomePermits allowed (c ∷ origin) p.1),
)

-- The two copies of the test agree in the guard of `TokenAuth`: a token is refused exactly when
-- `MatchOrigin` of the handlers answers false.
pub handler_match_origin-eq :
    (allowed : List Str) (origin : Str)
    → handler_match_origin allowed origin ≡ (is_empty allowed || match_origin allowed origin)
unfolding handler_match_origin match_origin
handler_match_origin-eq [] origin = refl
handler_match_origin-eq (a ∷ allowed) origin = refl
