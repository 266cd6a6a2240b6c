-- ===== src/Fleet/Orchestrator/Tests.antt =====
-- Two hosts, one of them expired, and the theorems there.
use scrutineer.Prelude.{
  ℕ, ◌+◌, ◌≡◌, refl, inl, inr, true, none, some, [], ◌∷◌, map, lookup, Str, codes, str_eq, leb,
  if◌then◌else◌, length,
}
use scrutineer.Fleet.Orchestrator.{
  Host, Cloud, Orchestrator, hosts_of, is_expired, hosts_where, check_provider, acquire_failed,
}
use scrutineer.Fleet.Orchestrator.Pools.{
  select_times, count, select_host_round_robin, check_provider_conserves, check_provider_loses,
}

abbrev host : ℕ → Host
host born = record {
  id = codes "h";
  address = [];
  provider = codes "static";
  meta = [];
  born_at = born;
}

-- A provider is the number of hosts that it can give.
abbrev cloud : Cloud ℕ ℕ ℕ ℕ
cloud = record {
  get = λ name. some 5;
  setup = λ prov config w. (none, w);
  acquire = λ prov n w. (if leb n prov then inr (host 9 ∷ []) else inl 7, w);
  release = λ prov hosts w. (none, w);
  teardown = λ prov w. (none, w);
}

abbrev name : Str
name = codes "static"

abbrev fleet : Orchestrator ℕ ℕ
fleet = record {
  providers = (name, 5) ∷ [];
  hosts = (name, host 0 ∷ host 80000000000 ∷ []) ∷ [];
  ttls = (name, 1) ∷ [];
  world = 0;
  released = [];
}

abbrev now : ℕ
now = 90000000000

one_expired : hosts_where (is_expired now 1) true (hosts_of name fleet) ≡ host 0 ∷ []
unfolding hosts_where hosts_of lookup str_eq
one_expired = refl

select_host_round_robin_example :
    ((select_times (length (hosts_of name fleet)) name fleet).0 ≡ map some (hosts_of name fleet))
    × (hosts_of name (select_times (length (hosts_of name fleet)) name fleet).1
        ≡ hosts_of name fleet)
select_host_round_robin_example = select_host_round_robin name fleet

check_provider_conserves_example :
    count (λ h. true) (hosts_of name (check_provider cloud now name 5 1 fleet).1)
      + count (λ h. true) (check_provider cloud now name 5 1 fleet).1.released
    ≡ count (λ h. true) (hosts_of name fleet)
      + count (λ h. true) []
      + count (λ h. true) (host 9 ∷ [])
check_provider_conserves_example =
    check_provider_conserves cloud (λ h. true) now name 5 1 fleet (host 0) [] (host 9 ∷ []) refl
      one_expired refl

check_provider_loses_example :
    ((check_provider cloud now name 0 1 fleet).0 ≡ some (acquire_failed name 7))
    × (count (λ h. true) (hosts_of name (check_provider cloud now name 0 1 fleet).1)
          + count (λ h. true) (host 0 ∷ [])
        ≡ count (λ h. true) (hosts_of name fleet))
    × ((check_provider cloud now name 0 1 fleet).1.released ≡ fleet.released)
check_provider_loses_example =
    check_provider_loses cloud (λ h. true) now name 0 1 fleet (host 0) [] 7 refl one_expired refl
