-- ===== src/Http/Handlers/Overwrites.antt =====
-- internals/handlers.rs of services/beacon_management with `register_cert_identity` of
-- services/mqtt_brokerage/mosquitto_brokerage_service.rs: which file a handshake writes.
use place_home.Prelude.{
  ℕ, ◌≡◌, refl, sym, ap, ◌∙◌, Option, some, List, ◌∷◌, ◌++◌, Result, ok, err, subst,
}
use place_home.Prelude.Text.{Str, str, starts_with, str_has_eq}
use place_home.Prelude.Map.{lookup, insert, lookup-insert_self}
use place_home.Config.Parsing.{parent, join}
use place_home.Ca.{Rcgen, Database, sign_csr}
use place_home.Broker.Identities.{write, cert_path, register_cert_identity}
use place_home.Http.Requests.{
  DeviceInfo, Request, Response, DeviceInitRequest, process_init, json_response,
}
use place_home.Http.Handlers.{
  AppState, World, Meets, welcome, identity, after_identity, after_sign, init_with,
  handle_device_init,
}

register_cert_identity-written :
    (cafile dir hostname pem : Str) (files : List (Str × Str))
    → parent cafile ≡ some dir
    → register_cert_identity (ok tt) cafile hostname pem files
      ≡ (ok tt, insert (cert_path dir hostname) pem files)
unfolding register_cert_identity write
register_cert_identity-written cafile dir hostname pem files h = rw h refl

identity-written :
    {K : Type 0} (m : Meets K) (o : Option Str) (cafile dir hostname pem : Str)
    (files : List (Str × Str))
    → o ≡ some cafile
    → parent cafile ≡ some dir
    → m.written ≡ ok tt
    → identity m o hostname pem files ≡ (ok tt, insert (cert_path dir hostname) pem files)
unfolding identity
identity-written m o cafile dir hostname pem files b d a =
    ap (λ o. identity m o hostname pem files) b
    ∙ ap (λ written. register_cert_identity written cafile hostname pem files) a
    ∙ register_cert_identity-written cafile dir hostname pem files d

module _ {K P Q C : Type 0} (r : Rcgen K P Q C) (m : Meets K) (state : AppState K C)
    (cafile dir : Str) (b : state.brokerage ≡ some cafile) (d : parent cafile ≡ some dir)
    (o : m.written ≡ ok tt) where
  -- The answer 200, and the certificate in the file of the device.
  abbrev IsWritten : Str → Str → World → Response × World → Type 0
  IsWritten hostname pem w out =
      (out.0.status ≡ 200) × (out.1.files ≡ insert (cert_path dir hostname) pem w.files)

  after_sign-IsWritten :
      (request : DeviceInitRequest) (signed : Result Str Str × Database) (pem : Str) (w : World)
      → signed.0 ≡ ok pem
      → IsWritten request.device.mdns.hostname pem w (after_sign r m state request signed w)
  unfolding after_sign after_identity welcome json_response
  after_sign-IsWritten request (err e, db) pem w s = absurd cc
  after_sign-IsWritten request (ok x, db) pem w s =
      let same : x ≡ pem = cc in
      rw
        (identity-written m state.brokerage cafile dir request.device.mdns.hostname x w.files b d o)
        (refl, ap (λ x. insert (cert_path dir request.device.mdns.hostname) x w.files) same)

  -- A handshake that is read and signed, whose file can be written.
  handle_device_init-IsWritten :
      (parse : List ℕ → Option DeviceInfo) (req : Request) (w : World) (request : DeviceInitRequest)
      (pem : Str)
      → process_init parse req ≡ ok request
      → (sign_csr r m.outside state.ca request.device.mdns.hostname request.device.csr_pem w.db).0
        ≡ ok pem
      → IsWritten request.device.mdns.hostname pem w (handle_device_init r m state parse req w)
  unfolding handle_device_init init_with
  handle_device_init-IsWritten parse req w request pem p s =
      subst (λ p. IsWritten request.device.mdns.hostname pem w (init_with r m state p w)) (sym p)
        (after_sign-IsWritten request _ pem w s)

-- A handshake that succeeds writes the device's certificate to the file that the device chose: with a
-- hostname that starts with "/", anywhere on the node, wherever the broker's files are.
pub device_init-chosen_path :
    {K P Q C : Type 0} (r : Rcgen K P Q C) (m : Meets K) (state : AppState K C) (cafile dir : Str)
    (parse : List ℕ → Option DeviceInfo) (req : Request) (w : World) (request : DeviceInitRequest)
    (pem h : Str)
    → state.brokerage ≡ some cafile
    → parent cafile ≡ some dir
    → m.written ≡ ok tt
    → process_init parse req ≡ ok request
    → request.device.mdns.hostname ≡ b'/' ∷ h
    → (sign_csr r m.outside state.ca request.device.mdns.hostname request.device.csr_pem w.db).0
      ≡ ok pem
    → let out = handle_device_init r m state parse req w in
      (out.0.status ≡ 200) × (lookup (b'/' ∷ (h ++ str ".crt")) out.1.files ≡ some pem)
unfolding cert_path starts_with join
device_init-chosen_path r m state cafile dir parse req w request pem h b d o p n s =
    let (status, files) =
      handle_device_init-IsWritten r m state cafile dir b d o parse req w request pem p s in
    let path = b'/' ∷ (h ++ str ".crt") in
    (
      status,
      ap (lookup path) (files ∙ ap (λ n. insert (cert_path dir n) pem w.files) n)
          ∙ lookup-insert_self path pem w.files,
    )

-- A handshake whose hostname is the name of the CA's file, without its extension, replaces the CA's
-- certificate, by which the broker verifies its clients, with that of the device.
pub device_init-replaces_ca :
    {K P Q C : Type 0} (r : Rcgen K P Q C) (m : Meets K) (state : AppState K C) (cafile dir : Str)
    (parse : List ℕ → Option DeviceInfo) (req : Request) (w : World) (request : DeviceInitRequest)
    (pem : Str)
    → state.brokerage ≡ some cafile
    → parent cafile ≡ some dir
    → cafile ≡ cert_path dir request.device.mdns.hostname
    → m.written ≡ ok tt
    → process_init parse req ≡ ok request
    → (sign_csr r m.outside state.ca request.device.mdns.hostname request.device.csr_pem w.db).0
      ≡ ok pem
    → let out = handle_device_init r m state parse req w in
      (out.0.status ≡ 200) × (lookup cafile out.1.files ≡ some pem)
device_init-replaces_ca r m state cafile dir parse req w request pem b d n o p s =
    let (status, files) =
      handle_device_init-IsWritten r m state cafile dir b d o parse req w request pem p s in
    (
      status,
      ap (lookup cafile) (files ∙ ap (λ path. insert path pem w.files) (sym n))
          ∙ lookup-insert_self cafile pem w.files,
    )
