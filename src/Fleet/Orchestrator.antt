-- ===== src/Fleet/Orchestrator.antt =====
-- core/fleet/orchestrator.go. A provider `P` is what a factory of the registry gives; its methods
-- change a state `W`. The hosts that Release is called with are kept in a list beside it. Times are
-- nanoseconds, and a TTL of `n` minutes is taken below 2^63 of them. A map is iterated in its order.
pub mod Pools
mod Tests
use scrutineer.Prelude.{
  ℕ, zero, suc, ◌+◌, ◌-◌, ◌*◌, ◌/◌, ◌%◌, ◌^◌, ◌≤◌, ◌<◌, ◌≡◌, refl, sym, ap, ◌∙◌, ◌≢◌, ◌↔◌, ◌⊎◌, inl,
  inr, Bool, true, false, ◌&&◌, ◌||◌, not, Option, none, some, List, [], ◌∷◌, ◌++◌, map,
  append_assoc, append-nil, arith, GoMap, lookup, insert, keys, lookup-insert, lookup-insert_self,
  Bytes, Str, codes, str_eq, str_le, str_eq_iff, str_eq_refl, range, sum, ltb, leb, ◌==◌,
  if◌then◌else◌, Bool-cases, Option-cases, length, get_elem?, get_or, set, take, drop, All,
  length-append, length-set, take-length_append, drop-length_append, length-map, ltb→lt, lt→ltb,
  ltb-false, le→ltb-false, leb→le, ==_iff,
}
use mathlib.Core.Option
use scrutineer.Schema.Types.{FleetProvider}
use scrutineer.Schema.Validate.{is_positive}

pub record Host : Type 0 where
  pub id : Str
  pub address : Str
  pub provider : Str
  pub meta : GoMap Str
  pub born_at : ℕ

pub data Problem (E : Type 0) : Type 0 where
  not_registered : Str → Problem E
  setup_failed : Str → E → Problem E
  no_hosts : Str → Problem E
  acquire_failed : Str → E → Problem E
  release_failed : Str → E → Problem E
  raw : E → Problem E

-- The registry's factories and the providers' methods; Acquire gives hosts or an error.
pub record Cloud (W P V E : Type 0) : Type 0 where
  pub get : Str → Option P
  pub setup : P → GoMap V → W → Option E × W
  pub acquire : P → ℕ → W → (E ⊎ List Host) × W
  pub release : P → List Host → W → Option E × W
  pub teardown : P → W → Option E × W

-- Orchestrator, with the state of the providers and the hosts released so far.
pub record Orchestrator (W P : Type 0) : Type 0 where
  pub providers : GoMap P
  pub hosts : GoMap (List Host)
  pub ttls : GoMap ℕ
  pub world : W
  pub released : List Host

module _ {W P : Type 0} where
  -- o.hosts[name], which is nil for a missing name
  unfoldable pub hosts_of : Str → Orchestrator W P → List Host
  hosts_of name o = elim (lookup name o.hosts) [ none ↦ [] | some hosts ↦ hosts ]

  -- o.ttls[name], which is 0 for a missing name
  unfoldable pub ttl_of : Str → Orchestrator W P → ℕ
  ttl_of name o = elim (lookup name o.ttls) [ none ↦ 0 | some ttl ↦ ttl ]

  -- o.hosts[name] = hosts
  abbrev pub put_hosts : Str → List Host → Orchestrator W P → Orchestrator W P
  put_hosts name hosts o = record o { hosts = insert name hosts o.hosts }

  -- SelectHost; `none` is the error of an empty pool.
  unfoldable pub rotate : Str → List Host → Orchestrator W P → Option Host × Orchestrator W P
  rotate name [] o = (none, o)
  rotate name (host ∷ hosts) o = (some host, put_hosts name (hosts ++ host ∷ []) o)

  unfoldable pub select_host : Str → Orchestrator W P → Option Host × Orchestrator W P
  select_host name o = rotate name (hosts_of name o) o

  -- AddHosts
  unfoldable pub add_hosts : Str → List Host → Orchestrator W P → Orchestrator W P
  add_hosts name hosts o = put_hosts name (hosts_of name o ++ hosts) o

-- now.Sub(h.BornAt) >= ttlDuration
abbrev pub is_expired : ℕ → ℕ → Host → Bool
is_expired now ttl host = leb (host.born_at + ttl * 60000000000) now

-- The hosts for which a test has a value, in order.
unfoldable pub hosts_where : (Host → Bool) → Bool → List Host → List Host
hosts_where test b [] = []
hosts_where test b (h ∷ hs) = elim (test h) [
  | true ↦ elim b [ true ↦ h ∷ hosts_where test b hs | false ↦ hosts_where test b hs ]
  | false ↦ elim b [ true ↦ hosts_where test b hs | false ↦ h ∷ hosts_where test b hs ]
]

module _ {W P V E : Type 0} (cloud : Cloud W P V E) where
  abbrev pub at_world : W → Orchestrator W P → Orchestrator W P
  at_world w o = record o { world = w }

  -- Setup, over the configured providers that are left.
  unfoldable pub setup :
      List (FleetProvider V) → Orchestrator W P → Option (Problem E) × Orchestrator W P
  setup [] o = (none, o)
  setup (fp ∷ fps) o = elim (cloud.get fp.provider) [
    | none ↦ (some (not_registered fp.provider), o)
    | some prov ↦
        let (problem, w) = cloud.setup prov fp.config o.world in
        elim problem [
          | some e ↦ (some (setup_failed fp.provider e), at_world w o)
          | none ↦ setup fps (record (at_world w o) {
            providers = insert fp.provider prov o.providers;
            ttls = insert fp.provider fp.ttl o.ttls;
          })
        ]
  ]

  -- prov.Release(ctx, hosts)
  unfoldable pub release : P → List Host → Orchestrator W P → Option E × Orchestrator W P
  release prov hosts o =
      let (problem, w) = cloud.release prov hosts o.world in
      (problem, record o { world = w; released = hosts ++ o.released })

  -- CheckTTL for one provider, from the acquisition of the replacements on.
  unfoldable pub replace :
      Str → P → List Host → Orchestrator W P → Option (Problem E) × Orchestrator W P
  replace name prov expired o =
      let (got, w) = cloud.acquire prov (length expired) o.world in
      elim got [
        | inl e ↦ (some (acquire_failed name e), at_world w o)
        | inr replacements ↦
            let (problem, o') = release prov expired (add_hosts name replacements (at_world w o)) in
            (Option.map (release_failed name) problem, o')
      ]

  -- The body of the loop of CheckTTL.
  unfoldable pub check_provider :
      ℕ → Str → P → ℕ → Orchestrator W P → Option (Problem E) × Orchestrator W P
  check_provider now name prov ttl o =
      if not (is_positive ttl)
      then (none, o)
      else let hosts = hosts_of name o in
        let expired = hosts_where (is_expired now ttl) true hosts in
        let o' = put_hosts name (hosts_where (is_expired now ttl) false hosts) o in
        elim expired [ [] ↦ (none, o') | h ∷ hs ↦ replace name prov (h ∷ hs) o' ]

  -- CheckTTL, over the providers that are left; a missing TTL is 0.
  unfoldable pub check_ttl : ℕ → GoMap P → Orchestrator W P → Option (Problem E) × Orchestrator W P
  check_ttl now [] o = (none, o)
  check_ttl now ((name, prov) ∷ rest) o =
      let (problem, o') = check_provider now name prov (ttl_of name o) o in
      elim problem [ some e ↦ (some e, o') | none ↦ check_ttl now rest o' ]

  -- The first of two errors.
  abbrev pub first_error : Option E → Option E → Option E
  first_error none e = e
  first_error (some e) e' = some e

  -- Release, if there are hosts.
  unfoldable pub release_all : P → List Host → Orchestrator W P → Option E × Orchestrator W P
  release_all prov [] o = (none, o)
  release_all prov (h ∷ hs) o = release prov (h ∷ hs) o

  -- Teardown, over the providers that are left.
  unfoldable pub teardown : GoMap P → Option E → Orchestrator W P → Option E × Orchestrator W P
  teardown [] first_err o = (first_err, o)
  teardown ((name, prov) ∷ rest) first_err o =
      let (e1, o1) = release_all prov (hosts_of name o) (put_hosts name [] o) in
      let (e2, w) = cloud.teardown prov o1.world in
      teardown rest (first_error (first_error first_err e1) e2) (at_world w o1)
