-- ===== src/Docker/Store.antt =====
-- plugins/docker-app/rollout.go: `DeploymentStore`, a versioned store whose writers are fenced. Of a
-- deployment the model keeps the fields that the store writes or compares; the others, which it only
-- copies, are one field `rest` of any type. A missing map entry reads as the zero record.
pub mod Fencing
pub mod Versions
mod Examples
use sakullla_plugins.Base.{
  ℕ, zero, suc, ◌+◌, ◌-◌, ◌/◌, ◌%◌, Bool, true, false, not, ◌&&◌, ◌||◌, Option, none, some, List,
  [], ◌∷◌, ◌++◌, ltb, ◌==◌, if◌then◌else◌, Bytes, Result, ok, err,
}
use sakullla_plugins.Base.Table.{Table, find, remove}

pub record Deployment (R : Type 0) : Type 0 where
  pub app_id : Bytes
  pub fencing_token : ℕ
  pub lease : Bytes
  pub lease_until : ℕ
  pub rest : R

pub record DeploymentRecord (R : Type 0) : Type 0 where
  pub version : ℕ
  pub value : Deployment R

pub record DeploymentStore (R : Type 0) : Type 0 where
  pub values : Table (DeploymentRecord R)
  pub fences : Table ℕ

pub data StoreError : Type 0 where
  state_conflict : StoreError

-- `fmt.Sprintf("fence-%d", n)`; a number has fewer digits than itself plus one.
abbrev pub decimal_from : ℕ → ℕ → Bytes → Bytes
decimal_from zero n digits = digits
decimal_from (suc rounds) n digits =
    if ltb n 10
    then (b'0' + n) ∷ digits
    else decimal_from rounds (n / 10) ((b'0' + n % 10) ∷ digits)

abbrev pub fence_name : ℕ → Bytes
fence_name n = b'f' ∷ b'e' ∷ b'n' ∷ b'c' ∷ b'e' ∷ b'-' ∷ decimal_from (suc n) n []

abbrev pub word : ℕ
word = 18446744073709551616

unfoldable pub new_deployment_store : {R : Type 0} → DeploymentStore R
new_deployment_store = record { values = []; fences = [] }

abbrev pub fence_or_zero : Option ℕ → ℕ
fence_or_zero none = 0
fence_or_zero (some n) = n

-- `s.fences[id]`
abbrev pub fence_of : {R : Type 0} → Bytes → DeploymentStore R → ℕ
fence_of id s = fence_or_zero (find id s.fences)

-- The calls of the interface that write, in any order and by any holders.
pub data Write (R : Type 0) : Type 0 where
  acquires : Bytes → ℕ → Deployment R → ℕ → Write R
  swaps : Bytes → ℕ → ℕ → Deployment R → Write R
  deletes : Bytes → ℕ → ℕ → Write R

-- The store's operations; `blank` is the zero value of the fields that are only copied.
module _ {R : Type 0} (blank : R) where
  abbrev pub zero_record : DeploymentRecord R
  zero_record = record {
    version = 0;
    value = record { app_id = []; fencing_token = 0; lease = []; lease_until = 0; rest = blank };
  }

  abbrev pub record_or_zero : Option (DeploymentRecord R) → DeploymentRecord R
  record_or_zero none = zero_record
  record_or_zero (some r) = r

  -- `s.values[id]`
  abbrev pub current : Bytes → DeploymentStore R → DeploymentRecord R
  current id s = record_or_zero (find id s.values)

  abbrev pub is_found : Option (DeploymentRecord R) → Bool
  is_found none = false
  is_found (some r) = true

  abbrev pub load : Bytes → DeploymentStore R → DeploymentRecord R × Bool
  load id s = (current id s, is_found (find id s.values))

  -- `s.values[id] = next`, and `s.fences[id] = n`.
  abbrev pub set_value : Bytes → DeploymentRecord R → DeploymentStore R → DeploymentStore R
  set_value id next s = record s { values = (id, next) ∷ remove id s.values }

  abbrev pub set_fence : Bytes → ℕ → DeploymentStore R → DeploymentStore R
  set_fence id n s = record s { fences = (id, n) ∷ remove id s.fences }

  abbrev pub leased : Bytes → ℕ → ℕ → ℕ → Deployment R → DeploymentRecord R
  leased id version fence until value = record {
    version = (version + 1) % word;
    value = record value {
      app_id = id;
      fencing_token = fence;
      lease = fence_name fence;
      lease_until = until;
    };
  }

  unfoldable pub acquire_lease :
      Bytes
      → ℕ
      → Deployment R
      → ℕ
      → DeploymentStore R
      → DeploymentStore R × Result StoreError (DeploymentRecord R)
  acquire_lease id version value until s =
      let fence = (fence_of id s + 1) % word in
      let next = leased id version fence until value in
      if not ((current id s).version == version)
      then (s, err state_conflict)
      else (set_value id next (set_fence id fence s), ok next)

  abbrev pub conflicts : ℕ → ℕ → DeploymentRecord R → Bool
  conflicts version fence r = not (r.version == version) || not (r.value.fencing_token == fence)

  abbrev pub swapped : Bytes → ℕ → ℕ → Deployment R → DeploymentRecord R
  swapped id version fence value = record {
    version = (version + 1) % word;
    value = record value { app_id = id; fencing_token = fence };
  }

  unfoldable pub compare_and_swap :
      Bytes
      → ℕ
      → ℕ
      → Deployment R
      → DeploymentStore R
      → DeploymentStore R × Result StoreError (DeploymentRecord R)
  compare_and_swap id version fence value s =
      let next = swapped id version fence value in
      if conflicts version fence (current id s)
      then (s, err state_conflict)
      else (set_value id next s, ok next)

  unfoldable pub delete_cas :
      Bytes → ℕ → ℕ → DeploymentStore R → DeploymentStore R × Result StoreError (Unit {0})
  delete_cas id version fence s =
      if not (is_found (find id s.values)) || conflicts version fence (current id s)
      then (s, err state_conflict)
      else (record s { values = remove id s.values }, ok tt)

  unfoldable pub put : Deployment R → DeploymentStore R → DeploymentStore R
  put value s =
      let fenced =
        if ltb (fence_of value.app_id s) value.fencing_token
        then set_fence value.app_id value.fencing_token s
        else s in
      set_value value.app_id
        (record { version = ((current value.app_id s).version + 1) % word; value = value }) fenced

  unfoldable pub write : Write R → DeploymentStore R → DeploymentStore R
  write (acquires id version value until) s = (acquire_lease id version value until s).0
  write (swaps id version fence value) s = (compare_and_swap id version fence value s).0
  write (deletes id version fence) s = (delete_cas id version fence s).0

  unfoldable pub writes : List (Write R) → DeploymentStore R → DeploymentStore R
  writes [] s = s
  writes (w ∷ ws) s = writes ws (write w s)
