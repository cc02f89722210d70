-- ===== src/Ratelimit/ClientIp/Forged.antt =====
-- core/ratelimit/ratelimit.go: X-Forwarded-For against what a client may write into it.
use mathlib.Core.List.{reverse}
use caddy_formward.Base.{
  Bool, true, false, ◌||◌, List, [], ◌∷◌, ◌++◌, none, some, ◌≡◌, refl, ap, ◌∙◌, arith, All,
}
use caddy_formward.Text.{Bytes, is_empty, trim_space, split}
use caddy_formward.Ratelimit.ClientIp.{
  NetLib, ip_in_prefixes, any_contains, remote_ip, walk, client_ip,
}

module _ (lib : NetLib) where
  open lib use {Prefix}

  -- The loop passes over the part: it is blank or a trusted proxy.
  abbrev pub passed : List Prefix → Bytes → Bool
  passed trusted part = is_empty (trim_space part) || ip_in_prefixes lib (trim_space part) trusted

  walk-passed :
      (trusted : List Prefix) (proxies rest : List Bytes)
      → All (λ p. passed trusted p ≡ true) proxies
      → walk lib trusted (proxies ++ rest) ≡ walk lib trusted rest
  unfolding walk
  walk-passed trusted [] rest h = refl
  walk-passed trusted (p ∷ proxies) rest h =
      let same = walk-passed trusted proxies rest h.1 in ground (arith, same, h.0)

  walk_stops :
      (trusted : List Prefix) (part : Bytes) (rest : List Bytes)
      → passed trusted part ≡ false
      → walk lib trusted (part ∷ rest) ≡ some (trim_space part)
  unfolding walk
  walk_stops trusted part rest h = ground (arith, h)

  -- A request whose peer is not in a trusted range is attributed to its peer, whatever its
  -- X-Forwarded-For says.
  client_ip_untrusted :
      (remote_addr forwarded : Bytes) (trusted : List Prefix)
      → ip_in_prefixes lib (remote_ip lib remote_addr) trusted ≡ false
      → client_ip lib remote_addr forwarded trusted ≡ remote_ip lib remote_addr
  unfolding client_ip
  client_ip_untrusted remote_addr forwarded [] h = refl
  client_ip_untrusted remote_addr forwarded (p ∷ ps) h = ground (arith, h)

  in_none : (ip : Bytes) → ip_in_prefixes lib ip [] ≡ false
  unfolding ip_in_prefixes any_contains
  in_none ip = elim (lib.parse_addr ip) as (λ o. elim o [ none ↦ false | some a ↦ false ] ≡ false) [
    | none ↦ refl
    | some a ↦ refl
  ]

  -- Behind a trusted peer, the request is attributed to the entry of a non-empty X-Forwarded-For
  -- that is the first from the right to be neither blank nor in a trusted range, whatever entries
  -- stand to the left of it.
  pub client_ip_forwarded :
      (remote_addr forwarded : Bytes) (trusted : List Prefix) (proxies : List Bytes) (part : Bytes)
      (forged : List Bytes)
      → ip_in_prefixes lib (remote_ip lib remote_addr) trusted ≡ true
      → is_empty forwarded ≡ false
      → reverse (split 0x2c forwarded) ≡ proxies ++ part ∷ forged
      → All (λ p. passed trusted p ≡ true) proxies
      → passed trusted part ≡ false
      → client_ip lib remote_addr forwarded trusted ≡ trim_space part
  unfolding client_ip
  client_ip_forwarded remote_addr forwarded [] proxies part forged peer some' parts before stop =
      absurd (cc (peer, in_none (remote_ip lib remote_addr)))
  client_ip_forwarded remote_addr forwarded (q ∷ qs) proxies part forged peer some' parts before
        stop =
      let found =
        ap (walk lib (q ∷ qs)) parts
        ∙ walk-passed (q ∷ qs) proxies (part ∷ forged) before
        ∙ walk_stops (q ∷ qs) part forged stop in
      rw (peer, some', found) refl
