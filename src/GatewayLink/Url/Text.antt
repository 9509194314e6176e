-- ===== src/GatewayLink/Url/Text.antt =====
-- services/gateway_mqtt/login.rs: URLs read back from their text.
use place_home.Prelude.{
  ℕ, zero, suc, ◌+◌, ◌%◌, ◌/◌, ◌<◌, ◌≤◌, ◌^◌, ◌≡◌, ◌≢◌, ◌⊎◌, refl, Bool, true, false, none, some,
  [], ◌∷◌, ◌++◌, ok, eqb_iff, ltb, Bool-cases, inl, inr, All, All-append, arith,
}
use place_home.Prelude.Text.{Str, str, starts_with, drop}
use place_home.Config.Parsing.{digits, to_string}
use place_home.Config.Listener.{parse_uint-to_string}
use place_home.GatewayLink.Url.{
  split_path, rsplit_once, last_split, parse, parse_rest, host_port, default_port, scheme, url_text,
}

abbrev pub Lacks : ℕ → Str → Type 0
Lacks sep s = All (λ c. c ≢ sep) s

digits-All :
    (fuel n : ℕ) (rest : Str)
    → All (λ c. (48 ≤ c) × (c < 58)) rest
    → All (λ c. (48 ≤ c) × (c < 58)) (digits fuel n rest)
unfolding digits
digits-All zero n rest h = h
digits-All (suc fuel) n rest h = elim (Bool-cases (ltb n 10)) [
  | inl e ↦ rw e ((omega arith, ground arith), h)
  | inr e ↦ rw e (digits-All fuel (n / 10) ((48 + n % 10) ∷ rest) ((omega arith, omega arith), h))
]

digits-Lacks :
    (sep : ℕ) (s : Str) → (sep < 48) ⊎ (57 < sep) → All (λ c. (48 ≤ c) × (c < 58)) s → Lacks sep s
digits-Lacks sep [] l h = tt
digits-Lacks sep (c ∷ s) l (h, hs) = (λ e. grind (arith, h, l, e), digits-Lacks sep s l hs)

to_string-Lacks : (sep n : ℕ) → (sep < 48) ⊎ (57 < sep) → Lacks sep (to_string n)
unfolding to_string
to_string-Lacks sep n l = digits-Lacks sep _ l (digits-All (suc n) n [] tt)

split_path-Lacks : (s p : Str) → Lacks 47 s → split_path (s ++ 47 ∷ p) ≡ (s, 47 ∷ p)
unfolding split_path
split_path-Lacks [] p h = refl
split_path-Lacks (c ∷ s) p (h, hs) = rw (split_path-Lacks s p hs) (ground arith)

rsplit_once-Lacks : (sep : ℕ) (s : Str) → Lacks sep s → rsplit_once sep s ≡ none
unfolding rsplit_once last_split
rsplit_once-Lacks sep [] h = refl
rsplit_once-Lacks sep (c ∷ s) (h, hs) = rw (rsplit_once-Lacks sep s hs) (ground arith)

rsplit_once-append :
    (sep : ℕ) (h s : Str) → Lacks sep s → rsplit_once sep (h ++ sep ∷ s) ≡ some (h, s)
unfolding rsplit_once last_split
rsplit_once-append sep [] s l = rw (rsplit_once-Lacks sep s l) (ground (arith, eqb_iff sep sep))
rsplit_once-append sep (c ∷ h) s l = rw (rsplit_once-append sep h s l) refl

authority-Lacks : (port : ℕ) (host : Str) → Lacks 47 host → Lacks 47 (host ++ 58 ∷ to_string port)
authority-Lacks port host h =
    All-append _ host (58 ∷ to_string port) h
      (λ e. omega (arith, e), to_string-Lacks 47 port (inl (omega arith)))

parse_rest-port :
    (input : Str) (tls : Bool) (c port : ℕ) (host p : Str)
    → Lacks 47 (c ∷ host)
    → port < 2 ^ 16
    → parse_rest input tls ((c ∷ host) ++ 58 ∷ to_string port ++ 47 ∷ p)
      ≡ ok (record { tls = tls; host = c ∷ host; port = port; path = 47 ∷ p })
unfolding parse_rest host_port to_string
parse_rest-port input tls c port host p h l =
    rw (split_path-Lacks ((c ∷ host) ++ 58 ∷ to_string port) p (authority-Lacks port (c ∷ host) h))
      (rw
        (rsplit_once-append 58 (c ∷ host) (to_string port)
          (to_string-Lacks 58 port (inr (omega arith))))
        (rw (parse_uint-to_string 16 port l) refl))

parse_rest-default :
    (input : Str) (tls : Bool) (host p : Str)
    → Lacks 47 host
    → Lacks 58 host
    → parse_rest input tls (host ++ 47 ∷ p)
      ≡ ok (record { tls = tls; host = host; port = default_port tls; path = 47 ∷ p })
unfolding parse_rest host_port
parse_rest-default input tls host p h k =
    rw (split_path-Lacks host p h) (rw (rsplit_once-Lacks 58 host k) refl)

-- A URL that is written with a host without "/", a port of 16 bits and a path is split into these
-- again, with the scheme deciding on TLS.
pub parse-url_text :
    (tls : Bool) (c port : ℕ) (host p : Str)
    → Lacks 47 (c ∷ host)
    → port < 2 ^ 16
    → parse (url_text tls (c ∷ host) port (47 ∷ p))
      ≡ ok (record { tls = tls; host = c ∷ host; port = port; path = 47 ∷ p })
unfolding parse starts_with drop
parse-url_text true c port host p h l =
    parse_rest-port (url_text true (c ∷ host) port (47 ∷ p)) true c port host p h l
parse-url_text false c port host p h l =
    parse_rest-port (url_text false (c ∷ host) port (47 ∷ p)) false c port host p h l

-- Without a port, and with no ":" in the host, the port is 443 or 80.
pub parse-default_port :
    (tls : Bool) (host p : Str)
    → Lacks 47 host
    → Lacks 58 host
    → parse (scheme tls ++ str "://" ++ host ++ 47 ∷ p)
      ≡ ok (record { tls = tls; host = host; port = default_port tls; path = 47 ∷ p })
unfolding parse starts_with drop
parse-default_port true host p h l =
    parse_rest-default (scheme true ++ str "://" ++ host ++ 47 ∷ p) true host p h l
parse-default_port false host p h l =
    parse_rest-default (scheme false ++ str "://" ++ host ++ 47 ∷ p) false host p h l
