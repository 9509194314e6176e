-- ===== src/Ca/Authority.antt =====
-- infra/ca/operations.rs: the root CA across starts.
use place_home.Prelude.{◌≡◌, refl, subst, Option, none, some, Result, ok, err, ◌>>=◌, map_err, ◌++◌}
use place_home.Prelude.Text.{Str, str}
use place_home.Ca.{
  Rcgen, CaState, Outside, Database, load_row, load_ca_from_db, persist_ca, sign_root, generate_by,
  generate_and_persist_ca, load_by, load_or_generate_ca,
}

-- What the crate documents: a key pair is read back from its PEM text, and the certificate that the
-- root parameters give is read back as parameters that can be signed again.
pub record ReadsBack {K P Q C : Type 0} (r : Rcgen K P Q C) : Type 0 where
  pub key : (k : K) → r.key_from_pem (r.serialize_pem k) ≡ ok k
  pub params :
      (k : K) (cert : C)
      → r.self_signed r.root_params k ≡ ok cert
      → (p : P) × (r.from_ca_cert_pem (r.pem cert) ≡ ok p)
        × ((cert' : C) × (r.self_signed p k ≡ ok cert'))

module _ {K P Q C : Type 0} (r : Rcgen K P Q C) (reads : ReadsBack r) where
  -- A row that was written loads as a CA with the key pair.
  load_row-key :
      (k : K) (cert : C)
      → r.self_signed r.root_params k ≡ ok cert
      → (st : CaState K C) × (load_row r (some (r.pem cert, r.serialize_pem k)) ≡ ok (some st))
        × (st.key_pair ≡ k)
  unfolding load_row
  load_row-key k cert e =
      let (p, read, (cert', signed)) = reads.params k cert e in
      (
        record { subject_cn = str "PlaceNet Root CA"; cert = cert'; key_pair = k },
        rw (reads.key k, read, signed) refl,
        refl,
      )

  -- The row of the result loads, with the key pair of the state.
  abbrev Reloads : Result Str (CaState K C) × Database → Type 0
  Reloads (err e, db) = Unit
  Reloads (ok st, db) =
      (st' : CaState K C) × (load_row r db.ca_keys ≡ ok (some st')) × (st'.key_pair ≡ st.key_pair)

  sign_root-Reloads :
      (o : Outside K) (signed : Result Str C) (k : K) (db : Database)
      → r.self_signed r.root_params k ≡ signed
      → Reloads (sign_root r o signed k db)
  unfolding sign_root persist_ca
  sign_root-Reloads o (err e) k db p = tt
  sign_root-Reloads o (ok cert) k db p = by_write o.write
    where
      by_write :
          (w : Result Str Unit)
          → Reloads (elim w [
            | err e ↦ (err (str "Failed to persist CA to database: " ++ e), db)
            | ok _ ↦ (
              ok (record { subject_cn = str "PlaceNet Root CA"; cert = cert; key_pair = k }),
              record db { ca_keys = some (r.pem cert, r.serialize_pem k) },
            )
          ])
      by_write (err e) = tt
      by_write (ok _) = load_row-key k cert p

  generate_by-Reloads :
      (o : Outside K) (generated : Result Str K) (db : Database)
      → Reloads (generate_by r o generated db)
  unfolding generate_by
  generate_by-Reloads o (err e) db = tt
  generate_by-Reloads o (ok k) db = sign_root-Reloads o _ k db refl

  load_by-Reloads :
      (o : Outside K) (read : Result Str Unit) (loaded : Result Str (Option (CaState K C)))
      (db : Database)
      → (read >>= λ _. load_row r db.ca_keys) ≡ loaded
      → Reloads (load_by r o loaded db)
  unfolding load_by generate_and_persist_ca
  load_by-Reloads o read (err e) db p = tt
  load_by-Reloads o (err e) (ok (some st)) db p = absurd cc
  load_by-Reloads o (ok _) (ok (some st)) db p = (st, p, refl)
  load_by-Reloads o read (ok none) db p = generate_by-Reloads o o.generated db

  Reloads-load :
      (o : Outside K) (st st' : CaState K C) (db : Database)
      → o.read ≡ ok tt
      → load_row r db.ca_keys ≡ ok (some st')
      → load_or_generate_ca r o db ≡ (ok st', db)
  unfolding load_or_generate_ca load_ca_from_db load_by
  Reloads-load o st st' db read loaded = rw (read, loaded) refl

  load_or_generate_ca-Reloads :
      (o : Outside K) (db : Database) → Reloads (load_or_generate_ca r o db)
  unfolding load_or_generate_ca load_ca_from_db
  load_or_generate_ca-Reloads o db =
      load_by-Reloads o (map_err (λ e. str "Failed to query CA from database: " ++ e) o.read) _ db
        refl

-- Once a start has loaded or generated a CA, a later start that can read the database loads a CA
-- with the same key pair and writes nothing, whatever is generated then, if PEM texts read back as
-- the crate documents.
pub load_or_generate_ca-stable :
    {K P Q C : Type 0} (r : Rcgen K P Q C) (reads : ReadsBack r) (o o' : Outside K)
    (db db' : Database) (st : CaState K C)
    → load_or_generate_ca r o db ≡ (ok st, db')
    → o'.read ≡ ok tt
    → (st' : CaState K C) × (load_or_generate_ca r o' db' ≡ (ok st', db'))
      × (st'.key_pair ≡ st.key_pair)
load_or_generate_ca-stable r reads o o' db db' st e read =
    let (st', loaded, same) =
      subst (Reloads r reads) e (load_or_generate_ca-Reloads r reads o db) in
    (st', Reloads-load r reads o' st st' db' read loaded, same)
