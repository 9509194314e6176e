-- ===== src/Ca.antt =====
-- infra/ca: the root certificate authority, the node's own identity and the device certificates,
-- kept in the SQLite database.
pub mod Service
pub mod Authority
pub mod Identity
pub mod Devices
pub mod Examples
use place_home.Prelude.{
  ℕ, ◌+◌, ◌*◌, Bool, true, false, Option, none, some, List, [], ◌∷◌, Result, ok, err, ◌>>=◌, Exec,
  map_err, ok_or, ◌++◌, if◌then◌else◌, ◌≡◌,
}
use place_home.Prelude.Text.{Str, str, str_has_eq}
use place_home.Prelude.Map.{lookup, insert, modify}

-- What the code calls of the crate `rcgen`.
pub record Rcgen (KeyPair Params Request Certificate : Type 0) : Type 0 where
  pub key_from_pem : Str → Result Str KeyPair
  pub serialize_pem : KeyPair → Str
  pub from_ca_cert_pem : Str → Result Str Params
  pub self_signed : Params → KeyPair → Result Str Certificate
  pub request_from_pem : Str → Result Str Request
  pub request_signed_by : Request → Certificate → KeyPair → Result Str Certificate
  pub signed_by : Params → KeyPair → Certificate → KeyPair → Result Str Certificate
  pub pem : Certificate → Str
  -- The parameters that `generate_and_persist_ca` and `generate_node_identity` fill in.
  pub root_params : Params
  pub node_params : Params

pub record CaState (KeyPair Certificate : Type 0) : Type 0 where
  pub subject_cn : Str
  pub cert : Certificate
  pub key_pair : KeyPair

-- A row of `device_certs`, but for its key.
pub record DeviceCert : Type 0 where
  pub cert_pem : Str
  pub issued_at : ℕ
  pub expires_at : ℕ
  pub revoked : Bool

pub record NodeIdentity : Type 0 where
  pub cert_pem : Str
  pub key_pem : Str
  pub issued_at : ℕ
  pub expires_at : ℕ

-- The tables; `ca_keys` and `node_identity` have the one row with the id 1, if any.
pub record Database : Type 0 where
  pub ca_keys : Option (Str × Str)
  pub node_identity : Option NodeIdentity
  pub device_certs : List (Str × DeviceCert)

-- What a call meets outside: the answers of the database to its reads and writes, the key pair that
-- is generated, and the time in seconds.
pub record Outside (KeyPair : Type 0) : Type 0 where
  pub read : Result Str Unit
  pub write : Result Str Unit
  pub generated : Result Str KeyPair
  pub now : ℕ

abbrev pub year : ℕ
year = 365 * 24 * 60 * 60

module _ {K P Q C : Type 0} (r : Rcgen K P Q C) where
  load_row : Option (Str × Str) → Result Str (Option (CaState K C))
  load_row none = ok none
  load_row (some (cert_pem, key_pem)) =
      map_err (λ e. str "Failed to parse CA private key: " ++ e) (r.key_from_pem key_pem)
      >>= λ key_pair.
          map_err (λ e. str "Failed to parse CA certificate: " ++ e) (r.from_ca_cert_pem cert_pem)
          >>= λ params.
              map_err (λ e. str "Failed to reconstruct CA cert: " ++ e)
                (r.self_signed params key_pair)
              >>= λ cert. ok (
                  some (record {
                    subject_cn = str "PlaceNet Root CA";
                    cert = cert;
                    key_pair = key_pair;
                  }))

  load_ca_from_db : Outside K → Database → Result Str (Option (CaState K C))
  load_ca_from_db o db =
      map_err (λ e. str "Failed to query CA from database: " ++ e) o.read >>= λ _.
      load_row db.ca_keys

  -- The state of a certificate that has been signed, once its row is written.
  persist_ca : Outside K → K → C → Exec Database Str (CaState K C)
  persist_ca o key_pair cert db = elim o.write [
    | err e ↦ (err (str "Failed to persist CA to database: " ++ e), db)
    | ok _ ↦ (
      ok (record { subject_cn = str "PlaceNet Root CA"; cert = cert; key_pair = key_pair }),
      record db { ca_keys = some (r.pem cert, r.serialize_pem key_pair) },
    )
  ]

  sign_root : Outside K → Result Str C → K → Exec Database Str (CaState K C)
  sign_root o (err e) key_pair db = (err (str "Failed to self-sign CA certificate: " ++ e), db)
  sign_root o (ok cert) key_pair db = persist_ca o key_pair cert db

  generate_by : Outside K → Result Str K → Exec Database Str (CaState K C)
  generate_by o (err e) db = (err (str "Failed to generate CA key pair: " ++ e), db)
  generate_by o (ok key_pair) db = sign_root o (r.self_signed r.root_params key_pair) key_pair db

  generate_and_persist_ca : Outside K → Exec Database Str (CaState K C)
  generate_and_persist_ca o db = generate_by o o.generated db

  load_by : Outside K → Result Str (Option (CaState K C)) → Exec Database Str (CaState K C)
  load_by o (err e) db = (err e, db)
  load_by o (ok (some state)) db = (ok state, db)
  load_by o (ok none) db = generate_and_persist_ca o db

  unfoldable pub load_or_generate_ca : Outside K → Exec Database Str (CaState K C)
  unfolding load_row load_ca_from_db persist_ca sign_root generate_by generate_and_persist_ca
      load_by
  load_or_generate_ca o db = load_by o (load_ca_from_db o db) db

  -- `operations::generate_node_identity`
  generate_node_identity : Outside K → CaState K C → Result Str NodeIdentity
  generate_node_identity o ca =
      map_err (λ e. str "Failed to generate node identity key pair: " ++ e) o.generated
      >>= λ key_pair.
          map_err (λ e. str "Failed to sign node identity certificate: " ++ e)
            (r.signed_by r.node_params key_pair ca.cert ca.key_pair)
          >>= λ cert. ok (record {
            cert_pem = r.pem cert;
            key_pem = r.serialize_pem key_pair;
            issued_at = o.now;
            expires_at = o.now + year;
          })

  persist_identity : Outside K → Result Str NodeIdentity → Exec Database Str (Str × Str)
  persist_identity o (err e) db = (err e, db)
  persist_identity o (ok n) db = elim o.write [
    | err e ↦ (err (str "Failed to persist node identity: " ++ e), db)
    | ok _ ↦ (ok (n.cert_pem, n.key_pem), record db { node_identity = some n })
  ]

  identity_by :
      Outside K
      → Option (CaState K C)
      → Result Str (Option NodeIdentity)
      → Exec Database Str (Str × Str)
  identity_by o state (err e) db = (err (str "Failed to query node identity: " ++ e), db)
  identity_by o state (ok (some n)) db = (ok (n.cert_pem, n.key_pem), db)
  identity_by o state (ok none) db =
      persist_identity o
        (ok_or state (str "CA not initialised") >>= λ ca. generate_node_identity o ca) db

  -- `state` is the CA held in memory, none before `init`.
  unfoldable pub ensure_node_identity :
      Outside K → Option (CaState K C) → Exec Database Str (Str × Str)
  unfolding generate_node_identity persist_identity identity_by
  ensure_node_identity o state db = identity_by o state (o.read >>= λ _. ok db.node_identity) db

  -- `operations::sign_csr`
  sign_request : Outside K → CaState K C → Str → Result Str DeviceCert
  sign_request o ca csr_pem =
      map_err (λ e. str "Invalid CSR: " ++ e) (r.request_from_pem csr_pem) >>= λ csr.
      map_err (λ e. str "Failed to sign CSR: " ++ e) (r.request_signed_by csr ca.cert ca.key_pair)
      >>= λ signed. ok (record {
        cert_pem = r.pem signed;
        issued_at = o.now;
        expires_at = o.now + year;
        revoked = false;
      })

  persist_device : Outside K → Str → Result Str DeviceCert → Exec Database Str Str
  persist_device o device_id (err e) db = (err e, db)
  persist_device o device_id (ok row) db = elim o.write [
    | err e ↦ (err (str "Failed to persist device cert: " ++ e), db)
    | ok _ ↦ (ok row.cert_pem, record db { device_certs = insert device_id row db.device_certs })
  ]

  -- `CaService::sign_csr`: an upsert.
  unfoldable pub sign_csr : Outside K → Option (CaState K C) → Str → Str → Exec Database Str Str
  unfolding sign_request persist_device
  sign_csr o state device_id csr_pem db =
      persist_device o device_id
        (ok_or state (str "CA not initialised") >>= λ ca. sign_request o ca csr_pem) db

pub cert_of : Option DeviceCert → Option Str
cert_of none = none
cert_of (some row) = some row.cert_pem

unfoldable pub get_cert : Result Str Unit → Str → Database → Result Str (Option Str)
unfolding cert_of
get_cert read device_id db = map_err (λ e. str "Failed to query device cert: " ++ e) read >>= λ _.
    ok (cert_of (lookup device_id db.device_certs))

pub revoked_of : Option DeviceCert → Bool
revoked_of none = false
revoked_of (some row) = row.revoked

unfoldable pub is_revoked : Result Str Unit → Str → Database → Result Str Bool
unfolding revoked_of
is_revoked read device_id db =
    map_err (λ e. str "Failed to query revocation status: " ++ e) read >>= λ _.
    ok (revoked_of (lookup device_id db.device_certs))

abbrev set_revoked : DeviceCert → DeviceCert
set_revoked row = record row { revoked = true }

-- The answer by the number of rows that the UPDATE affected.
revoke_by : Option DeviceCert → Str → Exec Database Str Unit
revoke_by none device_id db = (err (str "Unknown device: " ++ device_id), db)
revoke_by (some row) device_id db =
    (ok tt, record db { device_certs = modify device_id set_revoked db.device_certs })

unfoldable pub revoke : Result Str Unit → Str → Exec Database Str Unit
unfolding revoke_by
revoke (err e) device_id db = (err (str "Failed to revoke device cert: " ++ e), db)
revoke (ok _) device_id db = revoke_by (lookup device_id db.device_certs) device_id db

unfoldable pub list_devices : Result Str Unit → Database → Result Str (List (Str × DeviceCert))
list_devices read db =
    map_err (λ e. str "Failed to list device certs: " ++ e) read >>= λ _. ok db.device_certs
