-- ===== src/Config/Listener.antt =====
-- config.rs: the listener line of the mosquitto.conf that is written, read back.
use place_home.Prelude.{
  ℕ, zero, suc, ◌+◌, ◌/◌, ◌%◌, ◌^◌, ◌<◌, ◌≤◌, ◌≡◌, refl, sym, ap, ◌∙◌, Option, none, some, List, [],
  ◌∷◌, ◌++◌, ok, if◌then◌else◌, ltb, Bool-cases, inl, inr, arith,
}
use place_home.Prelude.Text.{Str, str, drop, starts_with}
use place_home.Config.{MqttBrokerageConfig, build_brokerage_info}
use place_home.Config.Parsing.{parse_uint, parse_digits, digits, to_string, split, split_cons}
use place_home.Config.File.{
  FileSystem, format, listener, config_text, write_config, write_config-text,
}

parse_digits-digits :
    (w fuel n : ℕ) (rest : Str)
    → n < fuel
    → n < 2 ^ w
    → parse_digits w 0 (digits fuel n rest) ≡ parse_digits w n rest
unfolding parse_digits digits
parse_digits-digits w zero n rest h b = absurd (omega arith)
parse_digits-digits w (suc fuel) n rest h b = elim (Bool-cases (ltb n 10)) [
  | inl e ↦ ground arith
  | inr e ↦ ground (arith, parse_digits-digits w fuel (n / 10) ((48 + n % 10) ∷ rest))
]

-- The first digit that `digits` writes is one.
digits-head :
    (fuel n : ℕ) (rest : Str)
    → n < fuel
    → (c : ℕ) × (t : Str) × (digits fuel n rest ≡ c ∷ t) × (48 ≤ c)
unfolding digits
digits-head zero n rest h = absurd (omega arith)
digits-head (suc fuel) n rest h = elim (Bool-cases (ltb n 10)) [
  | inl e ↦ (48 + n, rest, ground arith, omega arith)
  | inr e ↦
      let smaller : n / 10 < fuel = ground arith in
      let (c, t, p, q) = digits-head fuel (n / 10) ((48 + n % 10) ∷ rest) smaller in
      (c, t, ground (arith, p), q)
]

parse_uint-unsigned : (w c : ℕ) (t : Str) → 48 ≤ c → parse_uint w (c ∷ t) ≡ parse_digits w 0 (c ∷ t)
unfolding parse_uint
parse_uint-unsigned w c [] h = refl
parse_uint-unsigned w c (d ∷ t) h = ground arith

-- A number that fits the width is read back from its decimal text.
pub parse_uint-to_string : (w n : ℕ) → n < 2 ^ w → parse_uint w (to_string n) ≡ some n
unfolding to_string parse_digits
parse_uint-to_string w n h =
    let (c, t, p, q) = digits-head (suc n) n [] (omega arith) in
    ap (parse_uint w) p
    ∙ parse_uint-unsigned w c t q
    ∙ ap (parse_digits w 0) (sym p)
    ∙ parse_digits-digits w (suc n) n [] (omega arith) h

split-line_cons :
    (c : ℕ) (line t : Str)
    → 48 ≤ c
    → split 10 (line ++ 10 ∷ t) ≡ line ∷ split 10 t
    → split 10 (c ∷ (line ++ 10 ∷ t)) ≡ (c ∷ line) ∷ split 10 t
unfolding split split_cons
split-line_cons c line t h e = rw e (ground arith)

-- The digits stand on the line that a newline ends.
split-digits :
    (fuel n : ℕ) (rest t : Str)
    → split 10 (rest ++ 10 ∷ t) ≡ rest ∷ split 10 t
    → split 10 (digits fuel n rest ++ 10 ∷ t) ≡ digits fuel n rest ∷ split 10 t
unfolding digits
split-digits zero n rest t e = e
split-digits (suc fuel) n rest t e = elim (Bool-cases (ltb n 10)) [
  | inl l ↦ simp l (split-line_cons (48 + n) rest t (omega arith) e)
  | inr l ↦ simp l (
      split-digits fuel (n / 10) ((48 + n % 10) ∷ rest) t
        (split-line_cons (48 + n % 10) rest t (omega arith) e))
]

-- A reader of the file: the text after the first "listener ", and the port that it names.
abbrev first_listener : List Str → Option Str
first_listener [] = none
first_listener (line ∷ lines) =
    let rest = first_listener lines in
    if starts_with (str "listener ") line then some (drop 9 line) else rest

abbrev parse_port : Option Str → Option ℕ
parse_port none = none
parse_port (some s) = parse_uint 16 s

abbrev pub listening_port : Str → Option ℕ
listening_port text = parse_port (first_listener (split b'\n' text))

abbrev preamble : Str
preamble = str "# Auto-generated by hamlet\npersistence false\nlog_dest stderr\n\nlistener "

split_empty : (t : Str) → split 10 (10 ∷ t) ≡ [] ∷ split 10 t
unfolding split split_cons
split_empty t = by_pieces (split 10 t) refl
  where
    by_pieces : (pieces : List Str) → split 10 t ≡ pieces → split 10 (10 ∷ t) ≡ [] ∷ split 10 t
    by_pieces [] e = rw e refl
    by_pieces (piece ∷ pieces) e = rw e refl

listening_port-line :
    (n : ℕ) (t : Str) → n < 2 ^ 16 → listening_port (preamble ++ to_string n ++ 10 ∷ t) ≡ some n
unfolding split split_cons to_string starts_with drop
listening_port-line n t h =
    rw (split-digits (suc n) n [] t (split_empty t)) (parse_uint-to_string 16 n h)

-- What follows the port.
abbrev after_port : {Ip : Type 0} → MqttBrokerageConfig Ip → Str
after_port c =
    if c.tls_enabled
    then format (
        str "protocol mqtt\ncafile "
        ∷ c.cafile
        ∷ str "\ncertfile "
        ∷ c.certfile
        ∷ str "\nkeyfile "
        ∷ c.keyfile
        ∷ str "\ntls_version tlsv1.2\nrequire_certificate true\nuse_identity_as_username true\n"
        ∷ [])
    else format (str "allow_anonymous false\npassword_file " ∷ c.password_file ∷ str "\n" ∷ [])

listener-line :
    {Ip : Type 0} (c : MqttBrokerageConfig Ip) (pem : Str)
    → config_text c ≡ preamble ++ to_string (build_brokerage_info c pem).port ++ 10 ∷ after_port c
unfolding config_text listener build_brokerage_info
listener-line c pem = elim (Bool-cases c.tls_enabled) [ inl e ↦ simp e refl | inr e ↦ simp e refl ]

-- A reader of the file that `write_config` has written, whose broker listens on the port of its
-- first listener line, finds there the port that the devices are told, if that port fits 16 bits.
pub write_config-listening_port :
    {Ip : Type 0} (fs : FileSystem) (c : MqttBrokerageConfig Ip) (pem : Str) (file : Option Str)
    (text : Str)
    → write_config fs c file ≡ (ok tt, some text)
    → (build_brokerage_info c pem).port < 2 ^ 16
    → listening_port text ≡ some (build_brokerage_info c pem).port
write_config-listening_port fs c pem file text h small =
    ap listening_port (write_config-text fs c file text h ∙ listener-line c pem)
    ∙ listening_port-line (build_brokerage_info c pem).port (after_port c) small
