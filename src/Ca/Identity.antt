-- ===== src/Ca/Identity.antt =====
-- `ensure_node_identity` of infra/ca/ca_service.rs: the node's identity across calls.
use place_home.Prelude.{◌≡◌, refl, subst, Option, none, some, Result, ok, err, ◌>>=◌, ◌++◌}
use place_home.Prelude.Text.{Str, str}
use place_home.Ca.{
  Rcgen, CaState, Outside, Database, NodeIdentity, persist_identity, identity_by,
  ensure_node_identity,
}

module _ {K P Q C : Type 0} (r : Rcgen K P Q C) where
  abbrev Stored : Result Str (Str × Str) × Database → Type 0
  Stored (err e, db) = Unit
  Stored (ok pair, db) =
      (n : NodeIdentity) × (db.node_identity ≡ some n) × (pair ≡ (n.cert_pem, n.key_pem))

  persist_identity-Stored :
      (o : Outside K) (n : Result Str NodeIdentity) (db : Database)
      → Stored (persist_identity r o n db)
  unfolding persist_identity
  persist_identity-Stored o (err e) db = tt
  persist_identity-Stored o (ok n) db = by_write o.write
    where
      by_write :
          (w : Result Str Unit)
          → Stored (elim w [
            | err e ↦ (err (str "Failed to persist node identity: " ++ e), db)
            | ok _ ↦ (ok (n.cert_pem, n.key_pem), record db { node_identity = some n })
          ])
      by_write (err e) = tt
      by_write (ok _) = (n, refl, refl)

  identity_by-Stored :
      (o : Outside K) (state : Option (CaState K C)) (read : Result Str Unit)
      (stored : Option NodeIdentity) (db : Database)
      → db.node_identity ≡ stored
      → Stored (identity_by r o state (read >>= λ _. ok stored) db)
  unfolding identity_by
  identity_by-Stored o state (err e) stored db p = tt
  identity_by-Stored o state (ok _) (some n) db p = (n, p, refl)
  identity_by-Stored o state (ok _) none db p = persist_identity-Stored o _ db

  ensure_node_identity-Stored :
      (o : Outside K) (state : Option (CaState K C)) (db : Database)
      → Stored (ensure_node_identity r o state db)
  unfolding ensure_node_identity
  ensure_node_identity-Stored o state db =
      identity_by-Stored o state o.read db.node_identity db refl

  Stored-again :
      (o : Outside K) (state : Option (CaState K C)) (db : Database) (n : NodeIdentity)
      → o.read ≡ ok tt
      → db.node_identity ≡ some n
      → ensure_node_identity r o state db ≡ (ok (n.cert_pem, n.key_pem), db)
  unfolding ensure_node_identity identity_by
  Stored-again o state db n read p = rw (read, p) refl

-- Once a call has returned the node's certificate and key, every later call that can read the
-- database returns the same two and writes nothing, even with another CA or none in memory.
pub ensure_node_identity-stable :
    {K P Q C : Type 0} (r : Rcgen K P Q C) (o o' : Outside K) (state state' : Option (CaState K C))
    (db db' : Database) (pair : Str × Str)
    → ensure_node_identity r o state db ≡ (ok pair, db')
    → o'.read ≡ ok tt
    → ensure_node_identity r o' state' db' ≡ (ok pair, db')
ensure_node_identity-stable r o o' state state' db db' pair e read =
    let (n, p, same) = subst (Stored r) e (ensure_node_identity-Stored r o state db) in
    rw same (Stored-again r o' state' db' n read p)
