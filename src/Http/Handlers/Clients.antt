-- ===== src/Http/Handlers/Clients.antt =====
-- `handle_client_register` of internals/handlers.rs of services/beacon_management.
use place_home.Prelude.{
  ℕ, ◌≡◌, ◌⊎◌, inl, inr, refl, sym, ap, subst, false, Option, some, List, Result, ok, err,
  Result-cases, ◌∙◌,
}
use place_home.Prelude.Text.{Str}
use place_home.Ca.{Rcgen, CaState, Database, sign_csr, get_cert, is_revoked}
use place_home.Ca.Devices.{sign_csr-recorded, sign_csr-failed, sign_csr-state}
use place_home.Broker.Identities.{ca_cert_pem}
use place_home.Http.Requests.{Request, Response, text_response, json_response, process_register}
use place_home.Http.Handlers.{
  AppState, World, Meets, register_json, with_ca, after_sign_client, register_with,
  handle_client_register,
}
use place_home.Http.Handlers.Outcomes.{IsRefusal, process_register-refused}

module _ {K P Q C : Type 0} (r : Rcgen K P Q C) (m : Meets K) (state : AppState K C) where
  -- What stands behind a registration that is answered with a certificate.
  pub record IsRegistered (csr_pem : Str) (w w' : World) (response : Response) : Type 0 where
    pub ca : CaState K C
    pub cert_pem : Str
    pub loaded : state.ca ≡ some ca
    pub answered : response ≡ json_response 201 (register_json m.uuid cert_pem (r.pem ca.cert))
    pub known : get_cert (ok tt) m.uuid w'.db ≡ ok (some cert_pem)
    pub valid : is_revoked (ok tt) m.uuid w'.db ≡ ok false
    pub others : (w'.files ≡ w.files) × (w'.topics ≡ w.topics)

  after_sign_client-outcome :
      (csr_pem : Str) (w : World) (signed : Result Str Str × Database)
      → sign_csr r m.outside state.ca m.uuid csr_pem w.db ≡ signed
      → let out = after_sign_client r m state signed w in
        IsRegistered csr_pem w out.1 out.0 ⊎ ((out.0.status ≡ 500) × (out.1 ≡ w))
  unfolding after_sign_client text_response with_ca ca_cert_pem
  after_sign_client-outcome csr_pem w (err e, db) h =
      let failed = sign_csr-failed r state.ca m.outside m.uuid csr_pem e w.db (ap (λ s. s.0) h) in
      inr (refl, ap (λ db. record w { db = db }) (sym (ap (λ s. s.1) h) ∙ failed))
  after_sign_client-outcome csr_pem w (ok pem, db) h =
      let signed = ap (λ s. s.0) h in
      let same = ap (λ s. s.1) h in
      let recorded = sign_csr-recorded r state.ca m.outside m.uuid csr_pem pem w.db signed in
      let (ca, e) = sign_csr-state r state.ca m.outside m.uuid csr_pem pem w.db signed in
      inl (record {
        ca = ca;
        cert_pem = pem;
        loaded = e;
        answered = simp e refl;
        known = subst (λ db. get_cert (ok tt) m.uuid db ≡ ok (some pem)) same recorded.0;
        valid = subst (λ db. is_revoked (ok tt) m.uuid db ≡ ok false) same recorded.1;
        others = (refl, refl);
      })

  -- A client's registration is answered in one of three ways. Refused with 400 or 422, or failed
  -- with 500, it has changed nothing; and otherwise the answer, 201, has a certificate that the
  -- database now has for the client's new identifier, not revoked, and the CA's own. A certificate
  -- once signed is never lost to a missing CA.
  pub handle_client_register-outcome :
      (parse : List ℕ → Option Str) (req : Request) (w : World)
      → let out = handle_client_register r m state parse req w in
        (IsRefusal out.0 × (out.1 ≡ w))
        ⊎ ((csr_pem : Str) × (process_register parse req ≡ ok csr_pem)
            × (IsRegistered csr_pem w out.1 out.0 ⊎ ((out.0.status ≡ 500) × (out.1 ≡ w))))
  unfolding handle_client_register register_with
  handle_client_register-outcome parse req w = elim (Result-cases (process_register parse req)) [
    | inr (e, k) ↦ rw k (inl (process_register-refused parse req e k, refl))
    | inl (csr_pem, k) ↦ rw k (inr (csr_pem, refl, after_sign_client-outcome csr_pem w _ refl))
  ]
