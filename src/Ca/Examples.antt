-- ===== src/Ca/Examples.antt =====
-- Tests of the certificate authority.
use place_home.Prelude.{ℕ, true, ◌≡◌, refl, none, some, List, [], ◌∷◌, ◌++◌, ok}
use place_home.Prelude.Text.{Str, str}
use place_home.Prelude.Map.{lookup, insert, modify}
use place_home.Ca.{
  Rcgen, CaState, Outside, Database, NodeIdentity, load_or_generate_ca, sign_csr, get_cert,
  is_revoked, revoke,
}
use place_home.Ca.Authority.{ReadsBack, load_or_generate_ca-stable}
use place_home.Ca.Devices.{Call, run, device_queries-history}

-- Keys, parameters, requests and certificates are their own PEM texts; a certificate's is that of
-- the key that it is for.
abbrev toy : Rcgen Str Str Str Str
toy = record {
  key_from_pem = λ s. ok s;
  serialize_pem = λ k. k;
  from_ca_cert_pem = λ s. ok s;
  self_signed = λ p k. ok k;
  request_from_pem = λ s. ok s;
  request_signed_by = λ q c k. ok (q ++ k);
  signed_by = λ p k c ca. ok (k ++ ca);
  pem = λ c. c;
  root_params = str "root";
  node_params = str "node";
}

toy-ReadsBack : ReadsBack toy
toy-ReadsBack = record { key = λ k. refl; params = λ k cert e. (cert, refl, (k, refl)) }

abbrev at : ℕ → Outside Str
at now = record { read = ok tt; write = ok tt; generated = ok (str "key"); now = now }

abbrev blank : Database
blank = record { ca_keys = none; node_identity = none; device_certs = [] }

abbrev ca : CaState Str Str
ca = record { subject_cn = str "PlaceNet Root CA"; cert = str "key"; key_pair = str "key" }

abbrev with_ca : Database
with_ca = record blank { ca_keys = some (str "key", str "key") }

load_or_generate_ca-stable_example :
    (st' : CaState Str Str) × (load_or_generate_ca toy (at 9) with_ca ≡ (ok st', with_ca))
    × (st'.key_pair ≡ str "key")
unfolding load_or_generate_ca
load_or_generate_ca-stable_example =
    load_or_generate_ca-stable toy toy-ReadsBack (at 5) (at 9) blank with_ca ca refl refl

abbrev identity : NodeIdentity
identity = record {
  cert_pem = str "keykey";
  key_pem = str "key";
  issued_at = 5;
  expires_at = 31536005;
}

abbrev calls : List (Call Str)
calls =
    Call.sign (at 5) (str "d1") (str "csr")
    ∷ Call.revoke_device (ok tt) (str "d1")
    ∷ Call.revoke_device (ok tt) (str "d2")
    ∷ []

device_queries-history_example :
    (get_cert (ok tt) (str "d1") (run toy (some ca) calls with_ca) ≡ ok (some (str "csrkey")))
    × (is_revoked (ok tt) (str "d1") (run toy (some ca) calls with_ca) ≡ ok true)
unfolding sign_csr revoke lookup insert modify
device_queries-history_example = device_queries-history toy (some ca) (str "d1") calls with_ca
