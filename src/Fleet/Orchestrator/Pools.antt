-- ===== src/Fleet/Orchestrator/Pools.antt =====
-- What SelectHost and CheckTTL do to the pools of hosts.
use scrutineer.Prelude.{
  ℕ, zero, suc, ◌+◌, ◌≡◌, refl, sym, ap, ◌∙◌, inl, inr, Bool, true, false, Option, some, List, [],
  ◌∷◌, ◌++◌, map, append_assoc, append-nil, arith, lookup-insert_self, Str, if◌then◌else◌,
  Bool-cases, length,
}
use scrutineer.Schema.Validate.{is_positive}
use scrutineer.Fleet.Orchestrator.{
  Host, Cloud, Orchestrator, hosts_of, put_hosts, rotate, select_host, add_hosts, is_expired,
  hosts_where, at_world, release, replace, acquire_failed, check_provider,
}

hosts_of-put_hosts :
    {W P : Type 0} (name : Str) (hosts : List Host) (o : Orchestrator W P)
    → hosts_of name (put_hosts name hosts o) ≡ hosts
unfolding hosts_of
hosts_of-put_hosts name hosts o = rw (lookup-insert_self name hosts o.hosts, hosts_of) refl

module _ {W P : Type 0} where
  -- SelectHost, `n` times.
  unfoldable pub select_times : ℕ → Str → Orchestrator W P → List (Option Host) × Orchestrator W P
  select_times zero name o = ([], o)
  select_times (suc n) name o =
      let (host, o1) = select_host name o in
      let (hosts, o2) = select_times n name o1 in (host ∷ hosts, o2)

  select_some :
      (name : Str) (xs ys : List Host) (o : Orchestrator W P)
      → hosts_of name o ≡ xs ++ ys
      → ((select_times (length xs) name o).0 ≡ map some xs)
        × (hosts_of name (select_times (length xs) name o).1 ≡ ys ++ xs)
  unfolding select_times select_host rotate
  select_some name [] ys o h = (refl, h ∙ sym (append-nil ys))
  select_some name (x ∷ xs) ys o h =
      let o1 = put_hosts name ((xs ++ ys) ++ x ∷ []) o in
      let pool : hosts_of name o1 ≡ xs ++ (ys ++ x ∷ []) =
        hosts_of-put_hosts name ((xs ++ ys) ++ x ∷ []) o ∙ append_assoc xs ys (x ∷ []) in
      let (got, left) = select_some name xs (ys ++ x ∷ []) o1 pool in
      (
        rw (h, select_times) (ap (◌∷◌ (some x)) got),
        rw (h, select_times) (left ∙ append_assoc ys (x ∷ []) xs),
      )

  -- As many calls of SelectHost as a pool has hosts give each of its hosts once, in the order of the
  -- pool, and leave the pool as it was.
  pub select_host_round_robin :
      (name : Str) (o : Orchestrator W P)
      → ((select_times (length (hosts_of name o)) name o).0 ≡ map some (hosts_of name o))
        × (hosts_of name (select_times (length (hosts_of name o)) name o).1 ≡ hosts_of name o)
  select_host_round_robin name o =
      select_some name (hosts_of name o) [] o (sym (append-nil (hosts_of name o)))

-- The number of hosts that pass a test.
unfoldable pub count : (Host → Bool) → List Host → ℕ
count p [] = 0
count p (h ∷ hs) = (if p h then 1 else 0) + count p hs

count-append : (p : Host → Bool) (xs ys : List Host) → count p (xs ++ ys) ≡ count p xs + count p ys
unfolding count
count-append p [] ys = omega arith
count-append p (x ∷ xs) ys = omega (arith, count-append p xs ys)

-- The expired hosts and the others are all of them.
count-hosts_where :
    (p test : Host → Bool) (hs : List Host)
    → count p (hosts_where test true hs) + count p (hosts_where test false hs) ≡ count p hs
unfolding count hosts_where
count-hosts_where p test [] = omega arith
count-hosts_where p test (h ∷ hs) = elim (Bool-cases (test h)) [
  | inl t ↦ rw (t, hosts_where) (omega (arith, count-hosts_where p test hs))
  | inr f ↦ rw (f, hosts_where) (omega (arith, count-hosts_where p test hs))
]

module _ {W P V E : Type 0} (cloud : Cloud W P V E) (p : Host → Bool) where
  -- CheckTTL for one provider neither loses nor invents a host when Acquire succeeds: with the hosts
  -- that it gave, those in the pool and those handed to Release are the same as before, whether
  -- Release then succeeds or not.
  pub check_provider_conserves :
      (now : ℕ) (name : Str) (prov : P) (ttl : ℕ) (o : Orchestrator W P) (h : Host)
      (hs replacements : List Host)
      → is_positive ttl ≡ true
      → hosts_where (is_expired now ttl) true (hosts_of name o) ≡ h ∷ hs
      → (cloud.acquire prov (length (h ∷ hs)) o.world).0 ≡ inr replacements
      → count p (hosts_of name (check_provider cloud now name prov ttl o).1)
          + count p (check_provider cloud now name prov ttl o).1.released
        ≡ count p (hosts_of name o) + count p o.released + count p replacements
  unfolding check_provider replace add_hosts release
  check_provider_conserves now name prov ttl o h hs replacements positive expired acquired =
      let left = hosts_where (is_expired now ttl) false (hosts_of name o) in
      let split : count p (h ∷ hs) + count p left ≡ count p (hosts_of name o) =
        rw (← expired) (count-hosts_where p (is_expired now ttl) (hosts_of name o)) in
      let w = (cloud.acquire prov (length (h ∷ hs)) o.world).1 in
      let before : hosts_of name (put_hosts name left (at_world cloud w o)) ≡ left =
        hosts_of-put_hosts name left (at_world cloud w o) in
      let pool =
        ap (λ (xs : List Host). count p (xs ++ replacements)) before
        ∙ count-append p left replacements in
      let gone = count-append p (h ∷ hs) o.released in
      rw (positive, check_provider)
        (rw (expired, check_provider)
          (rw (acquired, replace)
            (ap (λ (xs : List Host). count p xs + count p ((h ∷ hs) ++ o.released))
                (hosts_of-put_hosts name
                  (hosts_of name (put_hosts name left (at_world cloud w o)) ++ replacements)
                  (record (put_hosts name left (at_world cloud w o)) {
                    world = (cloud.release prov (h ∷ hs) w).1;
                    released = (h ∷ hs) ++ o.released;
                  }))
              ∙ omega (arith, pool, gone, split))))

  -- When Acquire fails, the expired hosts have left the pool and were not handed to Release: for every
  -- kind of host, as many are missing from the two as had expired.
  pub check_provider_loses :
      (now : ℕ) (name : Str) (prov : P) (ttl : ℕ) (o : Orchestrator W P) (h : Host) (hs : List Host)
      (e : E)
      → is_positive ttl ≡ true
      → hosts_where (is_expired now ttl) true (hosts_of name o) ≡ h ∷ hs
      → (cloud.acquire prov (length (h ∷ hs)) o.world).0 ≡ inl e
      → ((check_provider cloud now name prov ttl o).0 ≡ some (acquire_failed name e))
        × (count p (hosts_of name (check_provider cloud now name prov ttl o).1) + count p (h ∷ hs)
            ≡ count p (hosts_of name o))
        × ((check_provider cloud now name prov ttl o).1.released ≡ o.released)
  unfolding check_provider replace
  check_provider_loses now name prov ttl o h hs e positive expired refused =
      let left = hosts_where (is_expired now ttl) false (hosts_of name o) in
      let split : count p (h ∷ hs) + count p left ≡ count p (hosts_of name o) =
        rw (← expired) (count-hosts_where p (is_expired now ttl) (hosts_of name o)) in
      let w = (cloud.acquire prov (length (h ∷ hs)) o.world).1 in
      let pool : hosts_of name (at_world cloud w (put_hosts name left o)) ≡ left =
        hosts_of-put_hosts name left (at_world cloud w o) in
      let total : count p left + count p (h ∷ hs) ≡ count p (hosts_of name o) =
        omega (arith, split) in
      rw (positive, check_provider)
        (rw (expired, check_provider)
          (rw (refused, replace)
            (refl, ap (λ n. n + count p (h ∷ hs)) (ap (count p) pool) ∙ total, refl)))
