-- ===== src/Docker/Store/Versions.antt =====
-- Of two writers that read one version, the second fails.
use sakullla_plugins.Base.{
  ℕ, ◌+◌, ◌%◌, ◌<◌, true, some, ◌≡◌, ◌≢◌, refl, sym, ap, ◌∙◌, arith, inl, inr, Bool-cases, Bytes,
  bytes_eq_iff, ok, err,
}
use sakullla_plugins.Base.Table.{find}
use sakullla_plugins.Docker.Store.{
  Deployment, DeploymentRecord, DeploymentStore, state_conflict, word, current, set_value,
  conflicts, swapped, compare_and_swap, delete_cas,
}
use sakullla_plugins.Docker.Store.Fencing.{find-set}

module _ {R : Type 0} (blank : R) (id : Bytes) where
  find-set_self :
      (r : DeploymentRecord R) (s : DeploymentStore R)
      → find id (set_value blank id r s).values ≡ some r
  find-set_self r s = find-set id id r s.values ∙ rw ((bytes_eq_iff id id).1 refl) refl

  swap_stored :
      (version fence : ℕ) (value : Deployment R) (s : DeploymentStore R) (r : DeploymentRecord R)
      → (compare_and_swap blank id version fence value s).1 ≡ ok r
      → (find id (compare_and_swap blank id version fence value s).0.values ≡ some r)
        × (r ≡ swapped blank id version fence value)
  unfolding compare_and_swap
  swap_stored version fence value s r h =
      elim (Bool-cases (conflicts blank version fence (current blank id s))) [
        | inl clash ↦ absurd (cc (simp clash at h))
        | inr free ↦
            let same : swapped blank id version fence value ≡ r = cc (simp free at h) in
            simp free
              (find-set_self (swapped blank id version fence value) s ∙ ap some same, sym same)
      ]

  stale_version :
      (version fence : ℕ) (r : DeploymentRecord R) (t : DeploymentStore R)
      → find id t.values ≡ some r
      → r.version ≢ version
      → conflicts blank version fence (current blank id t) ≡ true
  stale_version version fence r t found other = ground (arith, found, other)

  -- A swap that succeeds stores its record, one version later. Then neither a swap nor a deletion that
  -- names the version which the first swap named succeeds, whatever token it has: of two holders that
  -- read one version, the second learns of the first.
  pub second_swap_conflicts :
      (version fence other : ℕ) (value next : Deployment R) (s : DeploymentStore R)
      (r : DeploymentRecord R)
      → version < word
      → (compare_and_swap blank id version fence value s).1 ≡ ok r
      → let t = (compare_and_swap blank id version fence value s).0 in
        (find id t.values ≡ some r)
        × (r.version ≡ (version + 1) % word)
        × ((compare_and_swap blank id version other next t).1 ≡ err state_conflict)
        × ((delete_cas blank id version other t).1 ≡ err state_conflict)
  second_swap_conflicts version fence other value next s r small h =
      let (found, made) = swap_stored version fence value s r h in
      let later : r.version ≡ (version + 1) % word = ap (λ x. x.version) made in
      let both = refused (compare_and_swap blank id version fence value s).0 (
        stale_version version other r (compare_and_swap blank id version fence value s).0 found
          (omega (arith, later, small))) in
      (found, later, both.0, both.1)
    where
      refused :
          (t : DeploymentStore R)
          → conflicts blank version other (current blank id t) ≡ true
          → ((compare_and_swap blank id version other next t).1 ≡ err state_conflict)
            × ((delete_cas blank id version other t).1 ≡ err state_conflict)
      refused t c =
          (unfold compare_and_swap in ground (arith, c), unfold delete_cas in ground (arith, c))
