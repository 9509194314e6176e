-- ===== src/BroadcastKeys/Invariant.antt =====
-- key_management.rs: what every call keeps of the table, and what `get_or_rotate_key` returns.
use place_home.Prelude.{
  ℕ, ◌≤◌, Bool, false, ◌≡◌, refl, Option, none, some, List, [], ◌∷◌, Result, ok, err, arith, length,
  retain, ltb, Bool-cases, inl, inr, All, All-retain,
}
use place_home.Prelude.Text.{Str, str_has_eq}
use place_home.BroadcastKeys.{
  BroadcastKeyManagement, Outside, rotate_key, get_or_rotate_key, sweep_expired, insert_row,
  update_rows, use_row, select_row, delete_rows,
}
use place_home.BroadcastKeys.Rows.{Row, Table, newest, retire, has_key_id, active_count}

-- The columns hold 4 and 16 bytes, no key id stands twice, and at most one key is active.
abbrev pub HasSizes : Row → Type 0
HasSizes r = (length r.key_id ≡ 4) × (length r.key_material ≡ 16)

abbrev pub HasDistinctIds : Table → Type 0
HasDistinctIds [] = Unit
HasDistinctIds (r ∷ rows) = (has_key_id r.key_id rows ≡ false) × HasDistinctIds rows

pub record IsSound (rows : Table) : Type 0 where
  pub sizes : All HasSizes rows
  pub distinct : HasDistinctIds rows
  pub one_active : active_count rows ≤ 1

-- The random bytes fill arrays of the sizes that the types give.
abbrev pub HasRandomSizes : Outside → Type 0
HasRandomSizes o = (length o.key_id ≡ 4) × (length o.key_material ≡ 16)

pub active_count-retire : (rows : Table) → active_count (retire rows) ≡ 0
unfolding retire
active_count-retire [] = refl
active_count-retire (r ∷ rows) = active_count-retire rows

pub has_key_id-retire :
    (id : List ℕ) (rows : Table) → has_key_id id (retire rows) ≡ has_key_id id rows
unfolding retire has_key_id
has_key_id-retire id [] = refl
has_key_id-retire id (r ∷ rows) = rw (has_key_id-retire id rows)

retire-HasDistinctIds : (rows : Table) → HasDistinctIds rows → HasDistinctIds (retire rows)
unfolding retire
retire-HasDistinctIds [] h = tt
retire-HasDistinctIds (r ∷ rows) (h, k) = (rw has_key_id-retire h, retire-HasDistinctIds rows k)

retire-HasSizes : (rows : Table) → All HasSizes rows → All HasSizes (retire rows)
unfolding retire
retire-HasSizes [] h = tt
retire-HasSizes (r ∷ rows) (h, k) = (h, retire-HasSizes rows k)

retire-IsSound : {rows : Table} → IsSound rows → IsSound (retire rows)
retire-IsSound {rows} h = record {
  sizes = retire-HasSizes rows h.sizes;
  distinct = retire-HasDistinctIds rows h.distinct;
  one_active = omega (arith, active_count-retire rows);
}

retain-no_key_id :
    (p : Row → Bool) (id : List ℕ) (rows : Table)
    → has_key_id id rows ≡ false
    → has_key_id id (retain p rows) ≡ false
unfolding retain has_key_id
retain-no_key_id p id [] h = refl
retain-no_key_id p id (r ∷ rows) h = ground (arith, retain-no_key_id p id rows)

retain-HasDistinctIds :
    (p : Row → Bool) (rows : Table) → HasDistinctIds rows → HasDistinctIds (retain p rows)
unfolding retain
retain-HasDistinctIds p [] h = tt
retain-HasDistinctIds p (r ∷ rows) (h, k) = elim (Bool-cases (p r)) [
  | inl e ↦ rw e (retain-no_key_id p r.key_id rows h, retain-HasDistinctIds p rows k)
  | inr e ↦ rw e (retain-HasDistinctIds p rows k)
]

active_count-retain-le :
    (p : Row → Bool) (rows : Table) → active_count (retain p rows) ≤ active_count rows
unfolding retain
active_count-retain-le p [] = omega arith
active_count-retain-le p (r ∷ rows) = ground (arith, active_count-retain-le p rows)

retain-IsSound : (p : Row → Bool) {rows : Table} → IsSound rows → IsSound (retain p rows)
retain-IsSound p {rows} h = record {
  sizes = All-retain HasSizes p rows h.sizes;
  distinct = retain-HasDistinctIds p rows h.distinct;
  one_active = omega (arith, active_count-retain-le p rows, h.one_active);
}

delete_rows-IsSound :
    (d : Result Str Unit) (now : ℕ) {rows : Table}
    → IsSound rows
    → IsSound (delete_rows d now rows).1
unfolding delete_rows
delete_rows-IsSound (ok _) now h = retain-IsSound (λ r. ltb now r.expires_at) h
delete_rows-IsSound (err e) now h = h

-- Sweeping keeps a sound table sound, whether the DELETE fails or not.
pub sweep_expired-IsSound :
    (o : Outside) (rows : Table) → IsSound rows → IsSound (sweep_expired o rows).1
unfolding sweep_expired
sweep_expired-IsSound o rows h = delete_rows-IsSound o.delete o.now h

insert_row-IsSound :
    (i : Result Str Unit) (m : BroadcastKeyManagement) (o : Outside) {rows : Table}
    → HasRandomSizes o
    → IsSound rows
    → active_count rows ≡ 0
    → IsSound (insert_row i m o rows).1
unfolding insert_row
insert_row-IsSound (err e) m o z h a = h
insert_row-IsSound (ok _) m o {rows} z h a = elim (Bool-cases (has_key_id o.key_id rows)) [
  | inl e ↦ rw e h
  | inr e ↦
      rw e (record { sizes = (z, h.sizes); distinct = (e, h.distinct); one_active = omega arith })
]

update_rows-IsSound :
    (u : Result Str Unit) (m : BroadcastKeyManagement) (o : Outside) {rows : Table}
    → HasRandomSizes o
    → IsSound rows
    → IsSound (update_rows u m o rows).1
unfolding update_rows
update_rows-IsSound (err e) m o z h = h
update_rows-IsSound (ok _) m o {rows} z h =
    insert_row-IsSound o.insert m o z (retire-IsSound h) (active_count-retire rows)

use_row-IsSound :
    (r : Option Row) (m : BroadcastKeyManagement) (o : Outside) {rows : Table}
    → HasRandomSizes o
    → IsSound rows
    → IsSound (use_row m o r rows).1
unfolding use_row rotate_key
use_row-IsSound none m o z h = update_rows-IsSound o.update m o z h
use_row-IsSound (some r) m o z h = h

select_row-IsSound :
    (s : Result Str Unit) (m : BroadcastKeyManagement) (o : Outside) {rows : Table}
    → HasRandomSizes o
    → IsSound rows
    → IsSound (select_row s m o rows).1
unfolding select_row
select_row-IsSound (err e) m o z h = h
select_row-IsSound (ok _) m o {rows} z h = use_row-IsSound (newest o.now rows) m o z h

-- A call of `get_or_rotate_key` keeps the table sound on every path, failing SQL included: columns
-- of the right sizes, no key id twice, and at most one active key.
pub get_or_rotate_key-IsSound :
    (m : BroadcastKeyManagement) (o : Outside) (rows : Table)
    → HasRandomSizes o
    → IsSound rows
    → IsSound (get_or_rotate_key m o rows).1
unfolding get_or_rotate_key
get_or_rotate_key-IsSound m o rows z h = select_row-IsSound o.select m o z h
