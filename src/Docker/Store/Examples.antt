-- ===== src/Docker/Store/Examples.antt =====
-- The theorems on the store at concrete runs.
use sakullla_plugins.Base.{
  ℕ, ◌+◌, ◌%◌, ◌≤◌, some, List, [], ◌∷◌, ◌≡◌, refl, arith, Bytes, bytes_eq, ok, err,
}
use sakullla_plugins.Base.Table.{find, remove}
use sakullla_plugins.Docker.Store.{
  Deployment, DeploymentRecord, DeploymentStore, state_conflict, new_deployment_store,
  acquire_lease, swapped, compare_and_swap, delete_cas, Write, swaps, deletes, writes, fence_of,
  current, word,
}
use sakullla_plugins.Docker.Store.Fencing.{old_fence_conflicts}
use sakullla_plugins.Docker.Store.Versions.{second_swap_conflicts}

abbrev app : Bytes
app = b'a' ∷ []

-- The image, of the fields that the store copies.
abbrev deployment : ℕ → Deployment ℕ
deployment image = record {
  app_id = app;
  fencing_token = 0;
  lease = [];
  lease_until = 0;
  rest = image;
}

-- A first holder has token 1.
abbrev first_lease : DeploymentStore ℕ
first_lease = (acquire_lease 0 app 0 (deployment 5) 100 new_deployment_store).0

first_lease_given :
    (1 ≤ fence_of app first_lease)
    × ((current 0 app first_lease).version ≡ 1)
    × (fence_of app first_lease ≤ 1)
unfolding acquire_lease find remove new_deployment_store bytes_eq
first_lease_given = (omega arith, refl, omega arith)

-- After a second lease, its holder swaps and deletes.
abbrev second_holder : List (Write ℕ)
second_holder = swaps app 2 2 (deployment 6) ∷ deletes app 3 2 ∷ []

old_fence_conflicts_example :
    let t = writes 0 second_holder (acquire_lease 0 app 1 (deployment 5) 200 first_lease).0 in
    ((compare_and_swap 0 app 0 1 (deployment 7) t).1 ≡ err state_conflict)
    × ((delete_cas 0 app 0 1 t).1 ≡ err state_conflict)
old_fence_conflicts_example =
    old_fence_conflicts 0 app 1 (omega arith) first_lease 1 200 (deployment 5) second_holder
      first_lease_given.0 first_lease_given.1 (omega (arith, first_lease_given.2)) 0 (deployment 7)

-- Two holders of token 1 name version 1.
abbrev swapped_once : DeploymentRecord ℕ
swapped_once = swapped 0 app 1 1 (deployment 6)

first_swap : (compare_and_swap 0 app 1 1 (deployment 6) first_lease).1 ≡ ok swapped_once
unfolding compare_and_swap acquire_lease find remove new_deployment_store bytes_eq
first_swap = refl

second_swap_conflicts_example :
    let t = (compare_and_swap 0 app 1 1 (deployment 6) first_lease).0 in
    (find app t.values ≡ some swapped_once)
    × (swapped_once.version ≡ (1 + 1) % word)
    × ((compare_and_swap 0 app 1 1 (deployment 7) t).1 ≡ err state_conflict)
    × ((delete_cas 0 app 1 1 t).1 ≡ err state_conflict)
second_swap_conflicts_example =
    second_swap_conflicts 0 app 1 1 1 (deployment 6) (deployment 7) first_lease swapped_once
      (omega arith) first_swap
