-- ===== src/Accelerator/Cache/Trimmed.antt =====
-- Storing an entry and trimming keep the invariant, and the loop ends within the limits.
use sakullla_plugins.Base.{
  ℕ, zero, suc, ◌≤◌, false, none, some, [], ◌∷◌, ◌≡◌, refl, ap, ◌∙◌, ◌⊎◌, inl, inr, arith,
  Bool-cases, Option-cases, length, Bytes, bytes_eq_iff,
}
use sakullla_plugins.Base.Table.{Table, find, AreDistinct, length-remove_found}
use sakullla_plugins.Accelerator.Cache.{
  Loaded, CacheEntry, Cache, remove_locked, delete, back, over, remove_back, trim, push_front,
  set_locked,
}
use sakullla_plugins.Accelerator.Cache.Valid.{
  total, IsCounted, IsValid, remove_locked-IsCounted, delete-IsCounted, find-delete,
}

module _ {V : Type 0} where
  -- The last element.
  pub back-find :
      (k : Bytes) (e : CacheEntry V) (es : Table (CacheEntry V))
      → AreDistinct es
      → back es ≡ some (k, e)
      → find k es ≡ some e
  unfolding back find
  back-find k e [] d h = cc
  back-find k e ((i, a) ∷ []) d h = ground (arith, bytes_eq_iff i k)
  back-find k e ((i, a) ∷ q ∷ es) (fresh, d) h =
      let later = back-find k e (q ∷ es) d h in ground (arith, bytes_eq_iff i k, later, fresh)

  pub back_nil : (es : Table (CacheEntry V)) → back es ≡ none → es ≡ []
  unfolding back
  back_nil [] h = refl
  back_nil (p ∷ []) h = cc
  back_nil (p ∷ q ∷ es) h = cc (back_nil (q ∷ es) h)

  total_nil : (es : Table (CacheEntry V)) → length es ≤ 0 → total es ≡ 0
  total_nil [] h = refl
  total_nil (p ∷ es) h = absurd (omega arith)

  -- The loop ends within the limits, and the entries stay counted.
  pub trim-IsValid :
      (rounds : ℕ) (c : Cache V) → IsCounted c → length c.entries ≤ rounds → IsValid (trim rounds c)
  unfolding trim
  trim-IsValid zero c v h =
      let empty : total c.entries ≡ 0 = total_nil c.entries h in
      record {
        is_counted = v;
        in_entries = omega (arith, h);
        in_bytes = omega (arith, v.counted, empty);
      }
  trim-IsValid (suc rounds) c v h = elim (Bool-cases (over c)) [
    | inr room ↦ rw room (record {
      is_counted = v;
      in_entries = ground (arith, room);
      in_bytes = ground (arith, room);
    })
    | inl too_much ↦ rw too_much (shorter (trim-IsValid rounds) (Option-cases (back c.entries)))
  ]
    where
      shorter :
          ((d : Cache V) → IsCounted d → length d.entries ≤ rounds → IsValid (trim rounds d))
          → (back c.entries ≡ none) ⊎ ((p : Bytes × CacheEntry V) × (back c.entries ≡ some p))
          → IsValid (trim rounds (remove_back c (back c.entries)))
      shorter again (inl none_left) =
          let empty : length c.entries ≡ 0 = ap length (back_nil c.entries none_left) in
          rw none_left (again c v (omega arith))
      shorter again (inr ((k, e), last)) =
          let found = back-find k e c.entries v.distinct last in
          rw last (
            again (remove_locked k e c) (remove_locked-IsCounted k e c v found)
              (unfold remove_locked in omega (arith, length-remove_found k e c.entries found)))

  pub push_front-IsCounted :
      (key : Bytes) (l : Loaded V) (now : ℕ) (c : Cache V)
      → IsCounted c
      → c.closed ≡ false
      → find key c.entries ≡ none
      → IsCounted (push_front key l now c)
  unfolding push_front
  push_front-IsCounted key l now c v live new = record {
    distinct = (new, v.distinct);
    counted = omega (arith, v.counted);
    closed_empty = λ shut. cc;
  }

  pub delete-closed : (key : Bytes) (c : Cache V) → (delete key c).closed ≡ c.closed
  unfolding delete remove_locked
  delete-closed key c = elim (Option-cases (find key c.entries)) [
    | inl gone ↦ rw gone refl
    | inr (e, found) ↦ rw found refl
  ]

  pub set_locked-IsValid :
      (key : Bytes) (l : Loaded V) (now : ℕ) (c : Cache V)
      → IsValid c
      → c.closed ≡ false
      → IsValid (set_locked key l now c)
  unfolding set_locked
  set_locked-IsValid key l now c v live =
      let pushed = push_front key l now (delete key c) in
      trim-IsValid (length pushed.entries) pushed
        (push_front-IsCounted key l now (delete key c) (delete-IsCounted key c v.is_counted)
          (delete-closed key c ∙ live) (find-delete key c))
        (omega arith)
