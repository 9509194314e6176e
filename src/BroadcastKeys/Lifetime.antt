-- ===== src/BroadcastKeys/Lifetime.antt =====
-- key_management.rs: how long the row of a key stays, what a sweep deletes, and what becomes of the
-- active key when a statement fails.
use place_home.Prelude.{
  ℕ, ◌+◌, ◌≤◌, ◌<◌, true, false, ◌≡◌, refl, Option, none, some, List, [], ◌∷◌, Result, ok, err,
  arith, length, retain, ltb, ◌==◌, eq_iff, Bool-cases, inl, inr, All, if◌then◌else◌, ap, ◌≢◌,
  Option-cases, ◌⊎◌,
}
use place_home.Prelude.Text.{Str, str_has_eq}
use place_home.BroadcastKeys.{
  BroadcastKey, BroadcastKeyManagement, Outside, rotate_key, get_or_rotate_key, sweep_expired,
  insert_row, update_rows, use_row, select_row, delete_rows, new_key,
}
use place_home.BroadcastKeys.Rows.{Row, Table, newest, retire, has_key_id, active_count}
use place_home.BroadcastKeys.Invariant.{IsSound, active_count-retire, has_key_id-retire}
use place_home.BroadcastKeys.Retention.{newest-HasSizes, newest-fresh, build_key-sizes}

-- What a beacon needs of a key: its material and its expiry, by its id.
unfoldable pub find : List ℕ → Table → Option (List ℕ × ℕ)
find id [] = none
find id (r ∷ rows) = if r.key_id == id then some (r.key_material, r.expires_at) else find id rows

find-retire : (id : List ℕ) (rows : Table) → find id (retire rows) ≡ find id rows
unfolding find retire
find-retire id [] = refl
find-retire id (r ∷ rows) = rw (find-retire id rows)

find-none : (id : List ℕ) (rows : Table) → has_key_id id rows ≡ false → find id rows ≡ none
unfolding find has_key_id
find-none id [] h = refl
find-none id (r ∷ rows) h = ground (arith, find-none id rows)

module _ (id material : List ℕ) (expires : ℕ) where
  abbrev pub Kept : Table → Type 0
  Kept rows = find id rows ≡ some (material, expires)

  insert_row-Kept :
      (i : Result Str Unit) (m : BroadcastKeyManagement) (o : Outside) (rows : Table)
      → Kept rows
      → Kept (insert_row i m o rows).1
  unfolding insert_row find
  insert_row-Kept (err e) m o rows h = h
  insert_row-Kept (ok _) m o rows h = ground (arith, find-none o.key_id rows, eq_iff o.key_id id)

  update_rows-Kept :
      (u : Result Str Unit) (m : BroadcastKeyManagement) (o : Outside) (rows : Table)
      → Kept rows
      → Kept (update_rows u m o rows).1
  unfolding update_rows
  update_rows-Kept (err e) m o rows h = h
  update_rows-Kept (ok _) m o rows h =
      insert_row-Kept o.insert m o (retire rows) (rw (find-retire id rows) h)

  select_row-Kept :
      (s : Result Str Unit) (m : BroadcastKeyManagement) (o : Outside) (rows : Table)
      → Kept rows
      → Kept (select_row s m o rows).1
  unfolding select_row use_row rotate_key
  select_row-Kept (err e) m o rows h = h
  select_row-Kept (ok _) m o rows h = elim (Option-cases (newest o.now rows)) [
    | inl n ↦ rw (n, use_row) (update_rows-Kept o.update m o rows h)
    | inr (r, n) ↦ rw (n, use_row) h
  ]

  retain-Kept :
      (now : ℕ) (rows : Table)
      → now < expires
      → Kept rows
      → Kept (retain (λ r. ltb now r.expires_at) rows)
  unfolding find retain
  retain-Kept now [] l h = h
  retain-Kept now (r ∷ rows) l h = ground (arith, retain-Kept now rows, eq_iff r.key_id id)

  delete_rows-Kept :
      (d : Result Str Unit) (now : ℕ) (rows : Table)
      → now < expires
      → Kept rows
      → Kept (delete_rows d now rows).1
  unfolding delete_rows
  delete_rows-Kept (err e) now rows l h = h
  delete_rows-Kept (ok _) now rows l h = retain-Kept now rows l h

  -- Neither a rotation nor a failing statement loses a key or changes its material and expiry.
  pub get_or_rotate_key-Kept :
      (m : BroadcastKeyManagement) (o : Outside) (rows : Table)
      → Kept rows
      → Kept (get_or_rotate_key m o rows).1
  unfolding get_or_rotate_key
  get_or_rotate_key-Kept m o rows h = select_row-Kept o.select m o rows h

  -- A sweep before the expiry of a key keeps it.
  pub sweep_expired-Kept :
      (o : Outside) (rows : Table) → o.now < expires → Kept rows → Kept (sweep_expired o rows).1
  unfolding sweep_expired
  sweep_expired-Kept o rows l h = delete_rows-Kept o.delete o.now rows l h

-- The keys that are past their expiry at a time.
unfoldable pub expired_count : ℕ → Table → ℕ
expired_count now [] = 0
expired_count now (r ∷ rows) =
    let rest = expired_count now rows in if ltb now r.expires_at then rest else 1 + rest

retain-expired :
    (now : ℕ) (rows : Table)
    → let kept = retain (λ r. ltb now r.expires_at) rows in
      (length rows ≡ expired_count now rows + length kept)
      × (expired_count now kept ≡ 0)
      × All (λ r. now < r.expires_at) kept
unfolding retain expired_count
retain-expired now [] = (omega arith, refl, tt)
retain-expired now (r ∷ rows) =
    let (l, z, a) = retain-expired now rows in
    elim (Bool-cases (ltb now r.expires_at)) [
      | inl e ↦ rw e (omega (arith, l), rw e z, (ground arith, a))
      | inr e ↦ rw e (omega (arith, l), z, a)
    ]

-- A sweep that reaches the database reports the number of keys that are past their expiry, deletes
-- that many, and leaves only keys that expire later.
pub sweep_expired-exact :
    (o : Outside) (rows : Table)
    → o.delete ≡ ok tt
    → let r = sweep_expired o rows in
      (r.0 ≡ ok (expired_count o.now rows))
      × (length rows ≡ expired_count o.now rows + length r.1)
      × All (λ row. o.now < row.expires_at) r.1
unfolding sweep_expired delete_rows
sweep_expired-exact o rows h =
    let (l, z, a) = retain-expired o.now rows in rw h (ap ok (omega (arith, l)), l, a)

abbrev pub Fails : Result Str BroadcastKey × Table → Type 0
Fails r = ((k : BroadcastKey) → r.0 ≢ ok k) × (active_count r.1 ≡ 0)

insert_row-Fails :
    (i : Result Str Unit) (m : BroadcastKeyManagement) (o : Outside) (rows : Table) (e : Str)
    → (i ≡ err e) ⊎ (has_key_id o.key_id rows ≡ true)
    → active_count rows ≡ 0
    → Fails (insert_row i m o rows)
unfolding insert_row
insert_row-Fails (err x) m o rows e f z = (λ k. cc, z)
insert_row-Fails (ok _) m o rows e (inl f) z = cc
insert_row-Fails (ok _) m o rows e (inr taken) z = rw taken (λ k. cc, z)

-- The UPDATE and the INSERT are not one transaction: when only the INSERT fails, by the database or
-- because the random id is taken, the call returns an error and leaves no key active.
pub rotate_key-insert_failure :
    (m : BroadcastKeyManagement) (o : Outside) (rows : Table) (e : Str)
    → o.update ≡ ok tt
    → (o.insert ≡ err e) ⊎ (has_key_id o.key_id rows ≡ true)
    → ((k : BroadcastKey) → (rotate_key m o rows).0 ≢ ok k)
      × (active_count (rotate_key m o rows).1 ≡ 0)
unfolding rotate_key update_rows
rotate_key-insert_failure m o rows e u f = simp u (
    insert_row-Fails o.insert m o (retire rows) e (rw (has_key_id-retire o.key_id rows) f)
      (active_count-retire rows))

-- Every statement of a call reaches the database.
pub record Works (o : Outside) : Type 0 where
  pub select : o.select ≡ ok tt
  pub update : o.update ≡ ok tt
  pub insert : o.insert ≡ ok tt

abbrev Fresh : ℕ → Result Str BroadcastKey × Table → Type 0
Fresh now r = (k : BroadcastKey) × (r.0 ≡ ok k) × (now < k.rotates_at)

rotate_key-Fresh :
    (m : BroadcastKeyManagement) (o : Outside) (rows : Table)
    → Works o
    → has_key_id o.key_id rows ≡ false
    → o.now ≤ o.rotate_now
    → 0 < m.rotation_interval
    → Fresh o.now (rotate_key m o rows)
unfolding rotate_key update_rows insert_row
rotate_key-Fresh m o rows w free c p =
    rw (w.update, w.insert, has_key_id-retire o.key_id rows, free) (new_key m o, refl, omega arith)

use_row-Fresh :
    (r : Option Row) (m : BroadcastKeyManagement) (o : Outside) (rows : Table)
    → newest o.now rows ≡ r
    → IsSound rows
    → Works o
    → has_key_id o.key_id rows ≡ false
    → o.now ≤ o.rotate_now
    → 0 < m.rotation_interval
    → Fresh o.now (use_row m o r rows)
unfolding use_row
use_row-Fresh none m o rows n h w free c p = rotate_key-Fresh m o rows w free c p
use_row-Fresh (some r) m o rows n h w free c p =
    let (id, material) = newest-HasSizes o.now rows r h.sizes n in
    (
      _,
      build_key-sizes r.key_id r.key_material r.rotates_at r.expires_at id material,
      (newest-fresh o.now rows r n).0,
    )

-- On a sound table, a call whose statements all reach the database, whose random id is not taken
-- and whose clock does not run back, returns a key whose deadline is still ahead, if keys are
-- rotated after a positive time.
pub get_or_rotate_key-total :
    (m : BroadcastKeyManagement) (o : Outside) (rows : Table)
    → IsSound rows
    → Works o
    → has_key_id o.key_id rows ≡ false
    → o.now ≤ o.rotate_now
    → 0 < m.rotation_interval
    → (k : BroadcastKey) × ((get_or_rotate_key m o rows).0 ≡ ok k) × (o.now < k.rotates_at)
unfolding get_or_rotate_key select_row
get_or_rotate_key-total m o rows h w free c p =
    simp w.select (use_row-Fresh (newest o.now rows) m o rows refl h w free c p)
