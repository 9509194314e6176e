-- ===== src/Ca/Devices.antt =====
-- infra/ca/ca_service.rs: what the table of device certificates tells after any sequence of calls.
use place_home.Prelude.{
  Bool, true, false, ◌≡◌, refl, ap, ◌∙◌, Option, none, some, List, [], ◌∷◌, Result, ok, err, ◌>>=◌,
  ok_or, ◌++◌, arith, if◌then◌else◌, ◌==◌, eq_iff,
}
use place_home.Prelude.Text.{Str, str, str_has_eq}
use place_home.Prelude.Map.{lookup, insert, lookup-insert, lookup-modify}
use place_home.Ca.{
  Rcgen, CaState, Outside, Database, DeviceCert, sign_request, persist_device, sign_csr, get_cert,
  cert_of, is_revoked, revoked_of, revoke, revoke_by, set_revoked,
}

-- A call that changes the table.
pub data Call (K : Type 0) : Type 0 where
  sign : Outside K → (device_id csr_pem : Str) → Call K
  revoke_device : Result Str Unit → (device_id : Str) → Call K

-- What a device's row says: its certificate, and whether it is revoked.
abbrev pub Status : Type 0
Status = Option (Str × Bool)

abbrev status_by : Option DeviceCert → Status
status_by none = none
status_by (some row) = some (row.cert_pem, row.revoked)

abbrev pub status : Str → Database → Status
status device_id db = status_by (lookup device_id db.device_certs)

abbrev drop_certificate : Status → Status
drop_certificate none = none
drop_certificate (some (pem, was)) = some (pem, true)

-- The specification: a signature that succeeds gives its device a fresh certificate that is not
-- revoked, and a revocation that succeeds revokes the certificate that there is.
abbrev after_sign : Result Str Str → Status → Status
after_sign (err e) old = old
after_sign (ok pem) old = some (pem, false)

abbrev after_revoke : Result Str Unit → Status → Status
after_revoke (err e) old = old
after_revoke (ok _) old = drop_certificate old

module _ {K P Q C : Type 0} (r : Rcgen K P Q C) (state : Option (CaState K C)) where
  -- The calls made in order, on the database.
  abbrev pub run : List (Call K) → Database → Database
  run [] db = db
  run (sign o device_id csr_pem ∷ calls) db = run calls (sign_csr r o state device_id csr_pem db).1
  run (revoke_device w device_id ∷ calls) db = run calls (revoke w device_id db).1

  -- The status of one device, followed through the calls by their answers alone.
  abbrev pub history : Str → List (Call K) → Database → Status → Status
  history id [] db old = old
  history id (sign o device_id csr_pem ∷ calls) db old =
      let (answer, db') = sign_csr r o state device_id csr_pem db in
      history id calls db' (if device_id == id then after_sign answer old else old)
  history id (revoke_device w device_id ∷ calls) db old =
      let (answer, db') = revoke w device_id db in
      history id calls db' (if device_id == id then after_revoke answer old else old)

  persist_device-status :
      (o : Outside K) (device_id id : Str) (row : Result Str DeviceCert) (db : Database)
      → ((d : DeviceCert) → row ≡ ok d → d.revoked ≡ false)
      → let (answer, db') = persist_device r o device_id row db in
        status id db' ≡ (if device_id == id then after_sign answer (status id db) else status id db)
  unfolding persist_device
  persist_device-status o device_id id (err e) db fresh = ground arith
  persist_device-status o device_id id (ok row) db fresh = by_write o.write
    where
      by_write :
          (w : Result Str Unit)
          → let (answer, db') : Result Str Str × Database = elim w [
            | err e ↦ (err (str "Failed to persist device cert: " ++ e), db)
            | ok _ ↦
                (ok row.cert_pem, record db { device_certs = insert device_id row db.device_certs })
          ] in
            status id db'
            ≡ (if device_id == id then after_sign answer (status id db) else status id db)
      by_write (err e) = ground arith
      by_write (ok _) =
          ground (arith, lookup-insert device_id id row db.device_certs, fresh row refl)

  sign_request-fresh :
      (o : Outside K) (csr_pem : Str) (d : DeviceCert)
      → (ok_or state (str "CA not initialised") >>= λ ca. sign_request r o ca csr_pem) ≡ ok d
      → d.revoked ≡ false
  unfolding sign_request
  sign_request-fresh o csr_pem d e = ground (arith, e)

  sign_csr-status :
      (o : Outside K) (device_id csr_pem id : Str) (db : Database)
      → let (answer, db') = sign_csr r o state device_id csr_pem db in
        status id db' ≡ (if device_id == id then after_sign answer (status id db) else status id db)
  unfolding sign_csr
  sign_csr-status o device_id csr_pem id db =
      persist_device-status o device_id id _ db (sign_request-fresh o csr_pem)

revoke_by-status :
    (row : Option DeviceCert) (device_id id : Str) (db : Database)
    → lookup device_id db.device_certs ≡ row
    → let (answer, db') = revoke_by row device_id db in
      status id db' ≡ (if device_id == id then after_revoke answer (status id db) else status id db)
unfolding revoke_by
revoke_by-status none device_id id db e = ground arith
revoke_by-status (some row) device_id id db e =
    ground (arith, lookup-modify device_id id set_revoked db.device_certs, eq_iff device_id id)

revoke-status :
    (w : Result Str Unit) (device_id id : Str) (db : Database)
    → let (answer, db') = revoke w device_id db in
      status id db' ≡ (if device_id == id then after_revoke answer (status id db) else status id db)
unfolding revoke
revoke-status (err e) device_id id db = ground arith
revoke-status (ok _) device_id id db =
    revoke_by-status (lookup device_id db.device_certs) device_id id db refl

module _ {K P Q C : Type 0} (r : Rcgen K P Q C) (state : Option (CaState K C)) where
  run-status :
      (id : Str) (calls : List (Call K)) (db : Database)
      → status id (run r state calls db) ≡ history r state id calls db (status id db)
  run-status id [] db = refl
  run-status id (sign o device_id csr_pem ∷ calls) db =
      run-status id calls (sign_csr r o state device_id csr_pem db).1
      ∙ ap (history r state id calls (sign_csr r o state device_id csr_pem db).1)
          (sign_csr-status r state o device_id csr_pem id db)
  run-status id (revoke_device w device_id ∷ calls) db =
      run-status id calls (revoke w device_id db).1
      ∙ ap (history r state id calls (revoke w device_id db).1) (revoke-status w device_id id db)

abbrev certificate : Status → Option Str
certificate none = none
certificate (some (pem, was)) = some pem

abbrev flag : Status → Bool
flag none = false
flag (some (pem, was)) = was

cert_of-status : (o : Option DeviceCert) → cert_of o ≡ certificate (status_by o)
unfolding cert_of
cert_of-status none = refl
cert_of-status (some row) = refl

revoked_of-status : (o : Option DeviceCert) → revoked_of o ≡ flag (status_by o)
unfolding revoked_of
revoked_of-status none = refl
revoked_of-status (some row) = refl

-- After any sequence of signatures and revocations, on any devices and with any of them failing,
-- the two queries answer for a device what its own successful calls say: the certificate that was
-- signed last, revoked exactly if a revocation succeeded since.
pub device_queries-history :
    {K P Q C : Type 0} (r : Rcgen K P Q C) (state : Option (CaState K C)) (id : Str)
    (calls : List (Call K)) (db : Database)
    → let told = history r state id calls db (status id db) in
      (get_cert (ok tt) id (run r state calls db) ≡ ok (certificate told))
      × (is_revoked (ok tt) id (run r state calls db) ≡ ok (flag told))
unfolding get_cert is_revoked
device_queries-history r state id calls db =
    let row = lookup id (run r state calls db).device_certs in
    let p = run-status r state id calls db in
    (ap ok (cert_of-status row ∙ ap certificate p), ap ok (revoked_of-status row ∙ ap flag p))

-- What a signature that succeeds leaves: the certificate that it returns, not revoked.
pub sign_csr-recorded :
    {K P Q C : Type 0} (r : Rcgen K P Q C) (state : Option (CaState K C)) (o : Outside K)
    (id csr_pem pem : Str) (db : Database)
    → (sign_csr r o state id csr_pem db).0 ≡ ok pem
    → let db' = (sign_csr r o state id csr_pem db).1 in
      (get_cert (ok tt) id db' ≡ ok (some pem)) × (is_revoked (ok tt) id db' ≡ ok false)
unfolding get_cert is_revoked
sign_csr-recorded r state o id csr_pem pem db e =
    let row = lookup id (sign_csr r o state id csr_pem db).1.device_certs in
    let s : status_by row ≡ some (pem, false) =
      sign_csr-status r state o id csr_pem id db ∙ ground (arith, e, eq_iff id id) in
    (ap ok (cert_of-status row ∙ ap certificate s), ap ok (revoked_of-status row ∙ ap flag s))

persist_device-failed :
    {K P Q C : Type 0} (r : Rcgen K P Q C) (o : Outside K) (id e : Str)
    (row : Result Str DeviceCert) (db : Database)
    → (persist_device r o id row db).0 ≡ err e
    → (persist_device r o id row db).1 ≡ db
unfolding persist_device
persist_device-failed r o id e (err x) db h = refl
persist_device-failed r o id e (ok row) db h = by_write o.write h
  where
    by_write :
        (w : Result Str Unit)
        → let r : Result Str Str × Database = elim w [
          | err e ↦ (err (str "Failed to persist device cert: " ++ e), db)
          | ok _ ↦ (ok row.cert_pem, record db { device_certs = insert id row db.device_certs })
        ] in
          r.0 ≡ err e → r.1 ≡ db
    by_write (err x) h = refl
    by_write (ok _) h = absurd cc

-- A signature that fails leaves the database as it was.
pub sign_csr-failed :
    {K P Q C : Type 0} (r : Rcgen K P Q C) (state : Option (CaState K C)) (o : Outside K)
    (id csr_pem e : Str) (db : Database)
    → (sign_csr r o state id csr_pem db).0 ≡ err e
    → (sign_csr r o state id csr_pem db).1 ≡ db
unfolding sign_csr
sign_csr-failed r state o id csr_pem e db h = persist_device-failed r o id e _ db h

-- A signature that succeeds had a CA in memory.
pub sign_csr-state :
    {K P Q C : Type 0} (r : Rcgen K P Q C) (state : Option (CaState K C)) (o : Outside K)
    (id csr_pem pem : Str) (db : Database)
    → (sign_csr r o state id csr_pem db).0 ≡ ok pem
    → (ca : CaState K C) × (state ≡ some ca)
unfolding sign_csr persist_device
sign_csr-state r none o id csr_pem pem db h = absurd cc
sign_csr-state r (some ca) o id csr_pem pem db h = (ca, refl)

-- A revoked device whose request is signed again is not revoked any more, with the certificate that
-- the call returned.
pub sign_csr-clears_revocation :
    {K P Q C : Type 0} (r : Rcgen K P Q C) (state : Option (CaState K C)) (o : Outside K)
    (w : Result Str Unit) (id csr_pem pem : Str) (db : Database)
    → let revoked = (revoke w id db).1 in
      (sign_csr r o state id csr_pem revoked).0 ≡ ok pem
      → let db' = (sign_csr r o state id csr_pem revoked).1 in
        (get_cert (ok tt) id db' ≡ ok (some pem)) × (is_revoked (ok tt) id db' ≡ ok false)
unfolding get_cert is_revoked
sign_csr-clears_revocation r state o w id csr_pem pem db e =
    sign_csr-recorded r state o id csr_pem pem (revoke w id db).1 e
