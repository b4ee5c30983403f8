-- ===== src/Docker/Store/Fencing.antt =====
-- A holder that lost its lease never writes again.
use sakullla_plugins.Base.{
  ℕ, ◌+◌, ◌%◌, ◌≤◌, ◌<◌, Bool, true, false, not, ◌||◌, Option, none, some, List, [], ◌∷◌, ◌≡◌, ◌≢◌,
  refl, sym, ap, ◌∙◌, ◌⊎◌, arith, if-elim, Bool-cases, inl, inr, ◌==◌, if◌then◌else◌, length, Bytes,
  bytes_eq, bytes_eq_iff, Result, err,
}
use sakullla_plugins.Base.Table.{Table, find, remove, find-remove}
use sakullla_plugins.Docker.Store.{
  Deployment, DeploymentRecord, DeploymentStore, StoreError, state_conflict, word, fence_of,
  record_or_zero, current, is_found, set_value, set_fence, leased, acquire_lease, conflicts,
  swapped, compare_and_swap, delete_cas, Write, acquires, swaps, deletes, write, writes,
}

pub find-set :
    {A : Type 0} (j k : Bytes) (a : A) (t : Table A)
    → find j ((k, a) ∷ remove k t) ≡ (if bytes_eq k j then some a else find j t)
unfolding find
find-set j k a t = ground (arith, find-remove j k t)

module _ {R : Type 0} (blank : R) (id : Bytes) (f : ℕ) (held : 1 ≤ f) where
  abbrev token : DeploymentStore R → ℕ
  token s = (current blank id s).value.fencing_token

  read_token : Option (DeploymentRecord R) → ℕ
  read_token o = (record_or_zero blank o).value.fencing_token

  token_set :
      (j : Bytes) (r : DeploymentRecord R) (s : DeploymentStore R)
      → token (set_value blank j r s) ≡ (if bytes_eq j id then r.value.fencing_token else token s)
  unfolding read_token
  token_set j r s = ap read_token (find-set id j r s.values) ∙ chosen (bytes_eq j id)
    where
      chosen :
          (b : Bool)
          → read_token (if b then some r else find id s.values)
            ≡ (if b then r.value.fencing_token else token s)
      chosen true = refl
      chosen false = refl

  token_removed :
      (j : Bytes) (s : DeploymentStore R)
      → token (record s { values = remove j s.values }) ≡ (if bytes_eq j id then 0 else token s)
  unfolding read_token
  token_removed j s = ap read_token (find-remove id j s.values) ∙ chosen (bytes_eq j id)
    where
      chosen :
          (b : Bool)
          → read_token (if b then none else find id s.values) ≡ (if b then 0 else token s)
      chosen true = refl
      chosen false = refl

  -- A later lease was given out, and the record is not under the old one.
  pub record IsFenced (s : DeploymentStore R) : Type 0 where
    pub later : f < fence_of id s
    pub other : token s ≢ f

  acquire_lease-IsFenced :
      (j : Bytes) (version : ℕ) (value : Deployment R) (until : ℕ) (s : DeploymentStore R)
      → fence_of id s + 1 < word
      → IsFenced s
      → IsFenced (acquire_lease blank j version value until s).0
  unfolding acquire_lease
  acquire_lease-IsFenced j version value until s few v =
      if-elim (λ (r : DeploymentStore R × Result StoreError (DeploymentRecord R)). IsFenced r.0)
        (not ((current blank j s).version == version)) (λ _. v)
        (λ _. elim (Bool-cases (bytes_eq j id)) [
          | inl same ↦ record {
            later = rw (find-set id j ((fence_of j s + 1) % word) s.fences, same) (larger same);
            other = λ e. ground (arith, next_token, same, larger same, e);
          }
          | inr apart ↦ record {
            later = rw (find-set id j ((fence_of j s + 1) % word) s.fences, apart) v.later;
            other = λ e. v.other (sym (rw apart at next_token) ∙ e);
          }
        ])
    where
      fenced : DeploymentStore R
      fenced = set_fence blank j ((fence_of j s + 1) % word) s

      next_token :
          token (
            set_value blank j
              (leased blank j version ((fence_of j s + 1) % word) until value)
              fenced)
          ≡ (if bytes_eq j id then (fence_of j s + 1) % word else token s)
      next_token =
          token_set j (leased blank j version ((fence_of j s + 1) % word) until value) fenced

      larger : bytes_eq j id ≡ true → f < (fence_of j s + 1) % word
      larger same =
          let e : fence_of j s ≡ fence_of id s =
            ap (λ k. fence_of k s) ((bytes_eq_iff j id).0 same) in
          omega (arith, e, few, v.later)

  compare_and_swap-IsFenced :
      (j : Bytes) (version fence : ℕ) (value : Deployment R) (s : DeploymentStore R)
      → IsFenced s
      → IsFenced (compare_and_swap blank j version fence value s).0
  unfolding compare_and_swap
  compare_and_swap-IsFenced j version fence value s v =
      if-elim (λ (r : DeploymentStore R × Result StoreError (DeploymentRecord R)). IsFenced r.0)
        (conflicts blank version fence (current blank j s)) (λ _. v)
        (λ agrees. record { later = v.later; other = kept agrees (Bool-cases (bytes_eq j id)) })
    where
      kept :
          conflicts blank version fence (current blank j s) ≡ false
          → (bytes_eq j id ≡ true) ⊎ (bytes_eq j id ≡ false)
          → token (set_value blank j (swapped blank j version fence value) s) ≢ f
      kept agrees (inl same) =
          let e : token s ≡ (current blank j s).value.fencing_token =
            ap (λ k. (current blank k s).value.fencing_token) (sym ((bytes_eq_iff j id).0 same)) in
          let holds : (current blank j s).value.fencing_token ≡ fence = ground (arith, agrees) in
          λ p.
            v.other (
              e
              ∙ holds
              ∙ sym (rw same at (token_set j (swapped blank j version fence value) s))
              ∙ p)
      kept agrees (inr apart) =
          λ p. v.other (sym (rw apart at (token_set j (swapped blank j version fence value) s)) ∙ p)

  delete_cas-IsFenced :
      (j : Bytes) (version fence : ℕ) (s : DeploymentStore R)
      → IsFenced s
      → IsFenced (delete_cas blank j version fence s).0
  unfolding delete_cas
  delete_cas-IsFenced j version fence s v =
      if-elim (λ (r : DeploymentStore R × Result StoreError (Unit {0})). IsFenced r.0)
        (not (is_found blank (find j s.values))
          || conflicts blank version fence (current blank j s))
        (λ _. v) (λ _. record { later = v.later; other = gone (Bool-cases (bytes_eq j id)) })
    where
      gone :
          (bytes_eq j id ≡ true) ⊎ (bytes_eq j id ≡ false)
          → token (record s { values = remove j s.values }) ≢ f
      gone (inl same) = λ p. omega (arith, held, p, rw same at (token_removed j s))
      gone (inr apart) = λ p. v.other (sym (rw apart at (token_removed j s)) ∙ p)

  fence_of-write :
      (w : Write R) (s : DeploymentStore R)
      → fence_of id s < word
      → fence_of id (write blank w s) ≤ fence_of id s + 1
  unfolding write acquire_lease compare_and_swap delete_cas
  fence_of-write (swaps j version fence value) s few =
      if-elim
        (λ (r : DeploymentStore R × Result StoreError (DeploymentRecord R)).
          fence_of id r.0 ≤ fence_of id s + 1)
        (conflicts blank version fence (current blank j s)) (λ _. omega arith) (λ _. omega arith)
  fence_of-write (deletes j version fence) s few =
      if-elim
        (λ (r : DeploymentStore R × Result StoreError (Unit {0})).
          fence_of id r.0 ≤ fence_of id s + 1)
        (not (is_found blank (find j s.values))
          || conflicts blank version fence (current blank j s))
        (λ _. omega arith) (λ _. omega arith)
  fence_of-write (acquires j version value until) s few =
      if-elim
        (λ (r : DeploymentStore R × Result StoreError (DeploymentRecord R)).
          fence_of id r.0 ≤ fence_of id s + 1)
        (not ((current blank j s).version == version)) (λ _. omega arith)
        (λ _. elim (Bool-cases (bytes_eq j id)) [
          | inl same ↦
              let e : fence_of j s ≡ fence_of id s =
                ap (λ k. fence_of k s) ((bytes_eq_iff j id).0 same) in
              rw (find-set id j ((fence_of j s + 1) % word) s.fences, same) (omega (arith, e, few))
          | inr apart ↦ rw (find-set id j ((fence_of j s + 1) % word) s.fences, apart) (omega arith)
        ])

  write-IsFenced :
      (w : Write R) (s : DeploymentStore R)
      → fence_of id s + 1 < word
      → IsFenced s
      → IsFenced (write blank w s)
  unfolding write
  write-IsFenced (acquires j version value until) s few v =
      acquire_lease-IsFenced j version value until s few v
  write-IsFenced (swaps j version fence value) s few v =
      compare_and_swap-IsFenced j version fence value s v
  write-IsFenced (deletes j version fence) s few v = delete_cas-IsFenced j version fence s v

  writes-IsFenced :
      (ws : List (Write R)) (s : DeploymentStore R)
      → fence_of id s + length ws < word
      → IsFenced s
      → IsFenced (writes blank ws s)
  unfolding writes
  writes-IsFenced [] s few v = v
  writes-IsFenced (w ∷ ws) s few v =
      writes-IsFenced ws (write blank w s)
        (omega (arith, few, fence_of-write w s (omega (arith, few))))
        (write-IsFenced w s (omega (arith, few)) v)

  -- A lease that is given out now fences off the token.
  acquire_lease_fences :
      (version : ℕ) (value : Deployment R) (until : ℕ) (s : DeploymentStore R)
      → f ≤ fence_of id s
      → fence_of id s + 1 < word
      → (current blank id s).version ≡ version
      → IsFenced (acquire_lease blank id version value until s).0
  unfolding acquire_lease
  acquire_lease_fences version value until s old few fits =
      if-elim (λ (r : DeploymentStore R × Result StoreError (DeploymentRecord R)). IsFenced r.0)
        (not ((current blank id s).version == version))
        (λ differs. absurd (ground (arith, differs, fits)))
        (λ _. record {
          later =
              rw (find-set id id ((fence_of id s + 1) % word) s.fences, self)
                (omega (arith, few, old));
          other = λ e. omega (
            arith,
            e,
            few,
            old,
            rw self at (
                token_set id (leased blank id version ((fence_of id s + 1) % word) until value)
                  (set_fence blank id ((fence_of id s + 1) % word) s)),
          );
        })
    where
      self : bytes_eq id id ≡ true
      self = (bytes_eq_iff id id).1 refl

  old_conflicts :
      (version : ℕ) (t : DeploymentStore R)
      → IsFenced t
      → conflicts blank version f (current blank id t) ≡ true
  old_conflicts version t v = ground (arith, v.other)

  -- A holder has a token that was given out for an application, and a lease for it is acquired again.
  -- Whatever is then written by any holders (in fewer than 2^64 writes), neither a swap nor a deletion
  -- under the old token succeeds, whatever version it names.
  pub old_fence_conflicts :
      (s : DeploymentStore R) (version until : ℕ) (lease_value : Deployment R) (ws : List (Write R))
      → f ≤ fence_of id s
      → (current blank id s).version ≡ version
      → fence_of id s + 1 + length ws < word
      → (named : ℕ) (value : Deployment R)
      → let t = writes blank ws (acquire_lease blank id version lease_value until s).0 in
        ((compare_and_swap blank id named f value t).1 ≡ err state_conflict)
        × ((delete_cas blank id named f t).1 ≡ err state_conflict)
  old_fence_conflicts s version until lease_value ws old fits few named value =
      let leased_now = (acquire_lease blank id version lease_value until s).0 in
      let v : IsFenced leased_now =
        acquire_lease_fences version lease_value until s old (omega (arith, few)) fits in
      let room : fence_of id leased_now ≤ fence_of id s + 1 =
        unfold write in
        fence_of-write (acquires id version lease_value until) s (omega (arith, few)) in
      refused (writes blank ws leased_now)
        (writes-IsFenced ws leased_now (omega (arith, few, room)) v)
    where
      refused :
          (t : DeploymentStore R)
          → IsFenced t
          → ((compare_and_swap blank id named f value t).1 ≡ err state_conflict)
            × ((delete_cas blank id named f t).1 ≡ err state_conflict)
      refused t v =
          let c = old_conflicts named t v in
          (unfold compare_and_swap in ground (arith, c), unfold delete_cas in ground (arith, c))
