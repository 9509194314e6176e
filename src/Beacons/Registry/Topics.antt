-- ===== src/Beacons/Registry/Topics.antt =====
-- registry.rs: the list of broadcast topics against the records of the beacons.
pub mod Calls
pub mod From
pub mod Left
use place_home.Prelude.{
  ℕ, true, false, not, ◌≡◌, ◌≢◌, ◌⊎◌, refl, Option, none, some, List, [], ◌∷◌, ◌++◌, Result, ok,
  err, arith, eq_iff, ◌==◌, retain, contains, if◌then◌else◌, Bool-cases, Option-cases, inl, inr, ap,
  ◌∙◌, sym,
}
use place_home.Prelude.Text.{Str, str_eq, str_eq_iff, str_has_eq}
use place_home.Prelude.Map.{lookup, modify, lookup-insert, lookup-modify, lookup-remove}
use place_home.Services.Types.{Channel}
use place_home.Beacons.Types.{TopicType, listen, broadcast, hybrid, TopicChannel, QoS}
use place_home.Beacons.Registry.{
  BeaconRecord, BeaconRegistry, ensure_by, ensure, fresh_record, register_topic, register_channel,
  remove_by, remove_all, drop_topic, stale_ids, check_timeouts, update_last_seen, insert_gateway,
  associate_by, associate_gateway, qos_from_u8,
}

abbrev pub topic_by : Option BeaconRecord → Option Str
topic_by none = none
topic_by (some r) = some r.broadcast_topic

-- The broadcast topic in a beacon's record, empty until one is registered.
abbrev pub topic_of : BeaconRegistry → Str → Option Str
topic_of reg id = topic_by (lookup id reg.records)

pub contains-snoc :
    (t u : Str) (topics : List Str)
    → contains t (topics ++ u ∷ []) ≡ (if u == t then true else contains t topics)
unfolding contains
contains-snoc t u [] = refl
contains-snoc t u (v ∷ topics) = ground (arith, contains-snoc t u topics)

pub contains-drop :
    (t u : Str) (topics : List Str)
    → contains t (retain (λ v. not (str_eq v u)) topics)
      ≡ (if str_eq t u then false else contains t topics)
unfolding contains retain
contains-drop t u [] = ground arith
contains-drop t u (v ∷ topics) =
    ground (arith, contains-drop t u topics, str_eq_iff v u, str_eq_iff t u, str_eq_iff v t)

still_there :
    (u t : Str) (topics : List Str)
    → u ≢ t
    → contains u topics ≡ true
    → contains u (retain (λ v. not (str_eq v t)) topics) ≡ true
still_there u t topics n c = ground (arith, contains-drop u t topics, str_eq_iff u t, c)

-- `cast` is the topic of a beacon.
module _ (cast : Str → Str) where
  -- Every beacon that has a topic, `f` being what the records say, is in the list.
  abbrev pub Matches : (Str → Option Str) → List Str → Type 0
  Matches f topics =
      (id t : Str) → f id ≡ some t → (t ≡ []) ⊎ ((t ≡ cast id) × (contains t topics ≡ true))

  pub grown-Matches :
      (f g : Str → Option Str) (topics : List Str)
      → ((id t : Str) → g id ≡ some t → (t ≡ []) ⊎ (f id ≡ some t))
      → Matches f topics
      → Matches g topics
  grown-Matches f g topics down h id t p = elim (down id t p) [ inl e ↦ inl e | inr q ↦ h id t q ]

  pub added-Matches :
      (f g : Str → Option Str) (topics : List Str) (id : Str)
      → ((j : Str) → g j ≡ (if id == j then some (cast id) else f j))
      → Matches f topics
      → Matches g (topics ++ cast id ∷ [])
  added-Matches f g topics id e h j t p = elim (Bool-cases (id == j)) [
    | inl y ↦ inr (
        ground
          (arith, e j, p, y, eq_iff id j, eq_iff (cast id) t, contains-snoc t (cast id) topics))
    | inr y ↦ elim (h j t (sym (rw y at (e j)) ∙ p)) [
      | inl z ↦ inl z
      | inr (u, c) ↦ inr (u, rw (contains-snoc t (cast id) topics) (ground (arith, c)))
    ]
  ]

  -- The topic of a beacon that has none any more.
  pub dropped-Matches :
      (f : Str → Option Str) (topics : List Str) (id t : Str)
      → f id ≡ none
      → (t ≡ []) ⊎ (t ≡ cast id)
      → ((i j : Str) → cast i ≡ cast j → i ≡ j)
      → Matches f topics
      → Matches f (drop_topic t topics)
  unfolding drop_topic
  dropped-Matches f topics id [] e m inj h j u q = h j u q
  dropped-Matches f topics id (a ∷ t) e (inl m) inj h j u q = absurd cc
  dropped-Matches f topics id (a ∷ t) e (inr m) inj h j u q = elim (h j u q) [
    | inl z ↦ inl z
    | inr (w, c) ↦
        inr (w, still_there u (a ∷ t) topics (λ same. let k = inj j id (sym w ∙ same ∙ m) in cc) c)
  ]
