-- ===== src/BroadcastKeys/Retention.antt =====
-- key_management.rs: how long a key is the active one, and how long it stays in the table.
use place_home.Prelude.{
  ℕ, ◌≤◌, ◌<◌, true, ◌≡◌, refl, Option, none, some, List, [], ◌∷◌, Result, ok, err, arith, length,
  Bool-cases, Option-cases, inl, inr, All, ap, ◌∙◌,
}
use place_home.Prelude.Text.{Str, str_has_eq}
use place_home.BroadcastKeys.{
  BroadcastKey, BroadcastKeyManagement, Outside, rotate_key, get_or_rotate_key, insert_row,
  update_rows, use_row, select_row, build_key, new_key, new_row,
}
use place_home.BroadcastKeys.Rows.{Row, Table, newest, retire, has_key_id, active_count}
use place_home.BroadcastKeys.Invariant.{IsSound, HasSizes, HasRandomSizes, active_count-retire}

newest-none : (now : ℕ) (rows : Table) → active_count rows ≡ 0 → newest now rows ≡ none
unfolding newest
newest-none now [] h = refl
newest-none now (r ∷ rows) h = ground (arith, newest-none now rows)

-- With one active key at most, the SELECT finds the same row until that row's deadline.
newest-stable :
    (now now' : ℕ) (rows : Table) (r : Row)
    → active_count rows ≤ 1
    → newest now rows ≡ some r
    → now' < r.rotates_at
    → newest now' rows ≡ some r
unfolding newest
newest-stable now now' [] r h e l = cc
newest-stable now now' (q ∷ rows) r h e l =
    ground (arith, newest-stable now now' rows r, newest-none now rows, newest-none now' rows)

pub newest-fresh :
    (now : ℕ) (rows : Table) (r : Row)
    → newest now rows ≡ some r
    → (now < r.rotates_at) × (r.is_active ≡ true)
unfolding newest
newest-fresh now [] r e = cc
newest-fresh now (q ∷ rows) r e = elim (Option-cases (newest now rows)) [
  | inl n ↦ ground (arith, n)
  | inr (s, n) ↦ ground (arith, n, newest-fresh now rows s n)
]

pub newest-HasSizes :
    (now : ℕ) (rows : Table) (r : Row) → All HasSizes rows → newest now rows ≡ some r → HasSizes r
unfolding newest
newest-HasSizes now [] r h e = cc
newest-HasSizes now (q ∷ rows) r (h, k) e = elim (Option-cases (newest now rows)) [
  | inl n ↦ ground (arith, n)
  | inr (s, n) ↦ ground (arith, n, newest-HasSizes now rows s k n)
]

-- What a successful call returns is what a SELECT on its table finds, as a well-formed key.
abbrev Active : ℕ → BroadcastKey → Table → Type 0
Active now k rows =
    (r : Row) × (newest now rows ≡ some r)
    × (build_key r.key_id r.key_material r.rotates_at r.expires_at ≡ ok k)

build_key-deadline :
    (id material : List ℕ) (rotates expires : ℕ) {k : BroadcastKey}
    → build_key id material rotates expires ≡ ok k
    → k.rotates_at ≡ rotates
unfolding build_key
build_key-deadline id material rotates expires e = ground arith

pub build_key-sizes :
    (id material : List ℕ) (rotates expires : ℕ)
    → length id ≡ 4
    → length material ≡ 16
    → build_key id material rotates expires
      ≡ ok (record {
        key_id = id;
        key_material = material;
        rotates_at = rotates;
        expires_at = expires;
      })
unfolding build_key
build_key-sizes id material rotates expires h k = ground arith

newest-inserted :
    (now : ℕ) (r : Row) (rows : Table)
    → r.is_active ≡ true
    → now < r.rotates_at
    → newest now (r ∷ retire rows) ≡ some r
unfolding newest
newest-inserted now r rows a l =
    ground (arith, newest-none now (retire rows) (active_count-retire rows))

insert_row-Active :
    (i : Result Str Unit) (m : BroadcastKeyManagement) (o : Outside) (rows rows' : Table)
    (k : BroadcastKey) (now : ℕ)
    → HasRandomSizes o
    → insert_row i m o (retire rows) ≡ (ok k, rows')
    → now < k.rotates_at
    → Active now k rows'
unfolding insert_row
insert_row-Active (err x) m o rows rows' k now z e l = cc
insert_row-Active (ok _) m o rows rows' k now z e l =
    elim (Bool-cases (has_key_id o.key_id (retire rows))) [
      | inl taken ↦ absurd (ground arith)
      | inr free ↦
          let made : new_key m o ≡ k = ground arith in
          let added : new_row m o ∷ retire rows ≡ rows' = ground arith in
          (
            new_row m o,
            rw (← added) (newest-inserted now (new_row m o) rows refl (rw (← made) at l)),
            build_key-sizes o.key_id o.key_material _ _ z.0 z.1 ∙ ap ok made,
          )
    ]

update_rows-Active :
    (u : Result Str Unit) (m : BroadcastKeyManagement) (o : Outside) (rows rows' : Table)
    (k : BroadcastKey) (now : ℕ)
    → HasRandomSizes o
    → update_rows u m o rows ≡ (ok k, rows')
    → now < k.rotates_at
    → Active now k rows'
unfolding update_rows
update_rows-Active (err x) m o rows rows' k now z e l = cc
update_rows-Active (ok _) m o rows rows' k now z e l =
    insert_row-Active o.insert m o rows rows' k now z e l

use_row-Active :
    (r : Option Row) (m : BroadcastKeyManagement) (o : Outside) (rows rows' : Table)
    (k : BroadcastKey) (now : ℕ)
    → newest o.now rows ≡ r
    → IsSound rows
    → HasRandomSizes o
    → use_row m o r rows ≡ (ok k, rows')
    → now < k.rotates_at
    → Active now k rows'
unfolding use_row rotate_key
use_row-Active none m o rows rows' k now n h z e l =
    update_rows-Active o.update m o rows rows' k now z e l
use_row-Active (some r) m o rows rows' k now n h z e l =
    let built : build_key r.key_id r.key_material r.rotates_at r.expires_at ≡ ok k =
      ap (λ p. p.0) e in
    let same : rows ≡ rows' = ap (λ p. p.1) e in
    let deadline = build_key-deadline r.key_id r.key_material r.rotates_at r.expires_at built in
    (
      r,
      rw (← same) (newest-stable o.now now rows r h.one_active n (omega (arith, deadline, l))),
      built,
    )

select_row-Active :
    (s : Result Str Unit) (m : BroadcastKeyManagement) (o : Outside) (rows rows' : Table)
    (k : BroadcastKey) (now : ℕ)
    → IsSound rows
    → HasRandomSizes o
    → select_row s m o rows ≡ (ok k, rows')
    → now < k.rotates_at
    → Active now k rows'
unfolding select_row
select_row-Active (err x) m o rows rows' k now h z e l = cc
select_row-Active (ok _) m o rows rows' k now h z e l =
    use_row-Active (newest o.now rows) m o rows rows' k now refl h z e l

-- From a sound table, the key that a call returns stays the one that later calls return, without a
-- change of the table, as long as the clock is before its deadline and the SELECT reaches the
-- database.
pub get_or_rotate_key-stable :
    (m : BroadcastKeyManagement) (o o' : Outside) (rows rows' : Table) (k : BroadcastKey)
    → IsSound rows
    → HasRandomSizes o
    → get_or_rotate_key m o rows ≡ (ok k, rows')
    → o'.select ≡ ok tt
    → o'.now < k.rotates_at
    → get_or_rotate_key m o' rows' ≡ (ok k, rows')
unfolding get_or_rotate_key
get_or_rotate_key-stable m o o' rows rows' k h z e works l =
    let (r, found, built) = select_row-Active o.select m o rows rows' k o'.now h z e l in
    rw works (rw (found, use_row) (rw built))
