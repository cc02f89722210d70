-- ===== src/Ratelimit/ClientIp.antt =====
-- core/ratelimit/ratelimit.go and presets.go: the address a request is attributed to. The parsers
-- of net and net/netip are parameters.
pub mod Forged
use mathlib.Core.List.{reverse}
use caddy_formward.Base.{
  ℕ, Bool, true, false, ◌&&◌, ◌||◌, not, List, [], ◌∷◌, ◌++◌, Option, none, some, ◌≡◌, ◌≢◌, refl,
  sym, ap, ◌∙◌, arith, if◌then◌else◌, All, Bool-cases, Option-cases, inl, inr, ◌⊎◌,
}
use caddy_formward.Base.Results.{Result, ok, err}
use caddy_formward.Text.{
  Bytes, text, bytes_eq, is_empty, trim_space, split, split-ne-nil, contains_text,
}

pub record NetLib : Type 1 where
  pub Addr : Type 0
  pub Prefix : Type 0
  pub parse_addr : Bytes → Option Addr
  pub parse_prefix : Bytes → Option Prefix
  pub prefix_contains : Prefix → Addr → Bool
  -- The host of `net.SplitHostPort`.
  pub split_host : Bytes → Option Bytes

-- `Presets`
unfoldable pub presets : Bytes → Option (List Bytes)
unfolding text bytes_eq
presets name =
    if bytes_eq name (text "cloudflare")
    then some (
        text "173.245.48.0/20"
        ∷ text "103.21.244.0/22"
        ∷ text "103.22.200.0/22"
        ∷ text "103.31.4.0/22"
        ∷ text "141.101.64.0/18"
        ∷ text "108.162.192.0/18"
        ∷ text "190.93.240.0/20"
        ∷ text "188.114.96.0/20"
        ∷ text "197.234.240.0/22"
        ∷ text "198.41.128.0/17"
        ∷ text "162.158.0.0/15"
        ∷ text "104.16.0.0/13"
        ∷ text "104.24.0.0/14"
        ∷ text "172.64.0.0/13"
        ∷ text "131.0.72.0/22"
        ∷ text "2400:cb00::/32"
        ∷ text "2606:4700::/32"
        ∷ text "2803:f800::/32"
        ∷ text "2405:b500::/32"
        ∷ text "2405:8100::/32"
        ∷ text "2a06:98c0::/29"
        ∷ text "2c0f:f248::/32"
        ∷ [])
    else if contains_text name (text "aws-elb" ∷ text "gcp-lb" ∷ text "azure-front-door" ∷ [])
    then some []
    else none

-- The two errors of ParsePrefixes.
pub data PrefixError : Type 0 where
  bad_preset : (item cidr : Bytes) → PrefixError
  bad_item : (item : Bytes) → PrefixError

module _ (lib : NetLib) where
  open lib use {Addr, Prefix, parse_addr, parse_prefix, prefix_contains, split_host}

  -- `len(trustedProxies) == 0`
  abbrev pub is_nil : List Prefix → Bool
  is_nil [] = true
  is_nil (_ ∷ _) = false

  -- `p.Contains(addr)` for one of the prefixes.
  unfoldable pub any_contains : List Prefix → Addr → Bool
  any_contains [] a = false
  any_contains (p ∷ ps) a = prefix_contains p a || any_contains ps a

  -- `ipInPrefixes`
  unfoldable pub ip_in_prefixes : Bytes → List Prefix → Bool
  unfolding any_contains
  ip_in_prefixes ip prefixes = elim (parse_addr ip) [
    | none ↦ false
    | some a ↦ any_contains prefixes a
  ]

  -- `remoteIP`
  unfoldable pub remote_ip : Bytes → Bytes
  remote_ip addr = elim (split_host addr) [ none ↦ addr | some host ↦ host ]

  -- The loop of ClientIP, on the parts from right to left.
  unfoldable pub walk : List Prefix → List Bytes → Option Bytes
  unfolding ip_in_prefixes
  walk trusted [] = none
  walk trusted (part ∷ parts) =
      let rest = walk trusted parts in
      let candidate = trim_space part in
      if is_empty candidate
      then rest
      else if not (ip_in_prefixes candidate trusted)
      then some candidate
      else rest

  -- The end of ClientIP, on the parts of the header.
  unfoldable pub leftmost_or : Bytes → List Bytes → Bytes
  leftmost_or remote [] = remote
  leftmost_or remote (part ∷ parts) =
      if not (is_empty (trim_space part)) then trim_space part else remote

  -- `ClientIP`, of the remote address and the X-Forwarded-For header of the request.
  unfoldable pub client_ip : (remote_addr forwarded : Bytes) → List Prefix → Bytes
  unfolding remote_ip ip_in_prefixes walk leftmost_or
  client_ip remote_addr forwarded trusted =
      let remote = remote_ip remote_addr in
      if is_nil trusted
      then remote
      else if not (ip_in_prefixes remote trusted)
      then remote
      else if is_empty forwarded
      then remote
      else elim (walk trusted (reverse (split 0x2c forwarded))) [
        | some candidate ↦ candidate
        | none ↦ leftmost_or remote (split 0x2c forwarded)
      ]

  -- The inner loop of ParsePrefixes.
  unfoldable pub parse_preset : Bytes → List Bytes → Result PrefixError (List Prefix)
  parse_preset item [] = ok []
  parse_preset item (c ∷ cs) = elim (parse_prefix c) [
    | none ↦ err (bad_preset item c)
    | some p ↦ elim (parse_preset item cs) [ err e ↦ err e | ok ps ↦ ok (p ∷ ps) ]
  ]

  -- One item of ParsePrefixes.
  unfoldable pub parse_item : Bytes → Result PrefixError (List Prefix)
  unfolding presets parse_preset
  parse_item item = elim (presets item) [
    | some cidrs ↦ parse_preset item cidrs
    | none ↦ elim (parse_prefix item) [ none ↦ err (bad_item item) | some p ↦ ok (p ∷ []) ]
  ]

  -- `ParsePrefixes`
  unfoldable pub parse_prefixes : List Bytes → Result PrefixError (List Prefix)
  unfolding parse_item
  parse_prefixes [] = ok []
  parse_prefixes (item ∷ items) = elim (parse_item item) [
    | err e ↦ err e
    | ok ps ↦ elim (parse_prefixes items) [ err e ↦ err e | ok qs ↦ ok (ps ++ qs) ]
  ]
