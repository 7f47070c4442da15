-- ===== src/Handler/Client.antt =====
-- The address of a client: `clientIP` and `clientIPTrusted` of internal/handler/tracking.go.
use oximetric.Base.{
  ℕ, suc, Str, ◌||◌, List, [], ◌∷◌, Option, none, some, nat_beq, if◌then◌else◌, is_empty, take,
  contains, str_eq, split_parts, trim_space,
}

-- What the address is read from: `r.RemoteAddr` and the two forwarding headers.
pub record Peer : Type 0 where
  pub remote_addr : Str
  pub x_forwarded_for : Str
  pub x_real_ip : Str

-- strings.LastIndex for one byte, with `none` for -1
unfoldable pub last_index? : Str → ℕ → Option ℕ
last_index? [] b = none
last_index? (c ∷ s) b = elim (last_index? s b) [
  | some i ↦ some (suc i)
  | none ↦ if nat_beq c b then some 0 else none
]

unfoldable pub client_ip : Peer → Str
unfolding last_index?
client_ip r = elim (last_index? r.remote_addr b':') [
  | none ↦ r.remote_addr
  | some i ↦ take i r.remote_addr
]

-- strings.SplitN(xff, ",", 2)[0]
abbrev pub first_part : Str → Str
first_part s = (split_parts s b',').0

unfoldable pub client_ip_trusted : List Str → Peer → Str
unfolding client_ip
client_ip_trusted trusted_proxies r =
    if is_empty trusted_proxies || contains trusted_proxies (client_ip r)
    then (if is_empty r.x_forwarded_for
        then (if is_empty r.x_real_ip then client_ip r else r.x_real_ip)
        else trim_space (first_part r.x_forwarded_for))
    else client_ip r
