-- ===== src/Launcher/Cors.antt =====
-- The CORS policy of crates/stano-launcher/src/server.rs. `HeaderValue` is a parameter: what parses as one, and
-- what `to_str` makes of it.
mod Tests
use modular_rust_platform.Base.{
  Bool, true, false, not, ◌&&◌, ◌||◌, Option, none, some, List, [], ◌∷◌, any, if◌then◌else◌, ◌≡◌,
  refl, ◌⊎◌, inl, inr, In, arith, ap, sym, subst, ◌∙◌, Bool-cases, Option-cases, false-ne-true,
}
use modular_rust_platform.Base.Text.{Text, text_eq, text_eq_iff, ends_with}
use modular_rust_platform.Launcher.Server.{BootstrapConfig}

pub record HeaderValues : Type 1 where
  pub HeaderValue : Type 0
  pub parse : Text → Option HeaderValue
  pub to_str : HeaderValue → Option Text

module _ (lib : HeaderValues) where
  open lib use {HeaderValue, parse, to_str}

  pub data AllowOrigin : Type 0 where
    any_origin : AllowOrigin
    origins : List HeaderValue → AllowOrigin
    predicate : (HeaderValue → Bool) → AllowOrigin

  pub record CorsLayer : Type 0 where
    pub allow_origin : AllowOrigin
    pub allow_credentials : Bool

  pub parse_all : List Text → List HeaderValue
  parse_all [] = []
  parse_all (o ∷ os) = elim (parse o) [ none ↦ parse_all os | some value ↦ value ∷ parse_all os ]

  abbrev is_empty_list : {A : Type 0} → List A → Bool
  is_empty_list [] = true
  is_empty_list (_ ∷ _) = false

  pub matches_origin : List Text → List Text → HeaderValue → Bool
  unfolding text_eq ends_with
  matches_origin exact suffixes origin = elim (to_str origin) [
    | none ↦ false
    | some s ↦ any (λ o. text_eq o s) exact || any (λ suf. ends_with s suf) suffixes
  ]

  unfoldable pub cors_layer : BootstrapConfig → CorsLayer
  unfolding parse_all matches_origin
  cors_layer config =
      if config.is_dev && not (is_empty_list config.cors_dev_origins)
      then record {
        allow_origin = origins (parse_all config.cors_dev_origins);
        allow_credentials = true;
      }
      else if is_empty_list config.cors_origins && is_empty_list config.cors_origin_suffixes
      then record { allow_origin = any_origin; allow_credentials = false }
      else record {
        allow_origin = predicate (matches_origin config.cors_origins config.cors_origin_suffixes);
        allow_credentials = true;
      }

  -- The origin is one that the policy names.
  abbrev pub Allows : AllowOrigin → HeaderValue → Type 0
  Allows any_origin origin = Unit
  Allows (origins values) origin = In origin values
  Allows (predicate p) origin = p origin ≡ true

  -- An origin that the configuration names: in development, by a development origin that parses to it;
  -- outside development or without development origins, by its text, which is one of the exact origins or
  -- ends with one of the suffixes.
  abbrev pub Named : BootstrapConfig → HeaderValue → Type 0
  Named config origin =
      ((config.is_dev ≡ true)
        × ((o : Text) × In o config.cors_dev_origins × (parse o ≡ some origin)))
      ⊎ (((config.is_dev ≡ false) ⊎ (config.cors_dev_origins ≡ []))
          × ((s : Text) × (to_str origin ≡ some s)
              × (In s config.cors_origins
                  ⊎ ((suffix : Text) × In suffix config.cors_origin_suffixes
                      × (ends_with s suffix ≡ true)))))

  -- When the policy is the one of the development origins.
  development-on : (on : Bool) (os : List Text) → (on && not (is_empty_list os)) ≡ true → on ≡ true
  development-on true os h = refl
  development-on false os h = absurd (false-ne-true h)

  development-off :
      (on : Bool) (os : List Text)
      → (on && not (is_empty_list os)) ≡ false
      → (on ≡ false) ⊎ (os ≡ [])
  development-off false os h = inl refl
  development-off true [] h = inr refl
  development-off true (o ∷ os) h = absurd (false-ne-true (sym h))

  parse_all-In :
      (os : List Text) (origin : HeaderValue)
      → In origin (parse_all os)
      → (o : Text) × In o os × (parse o ≡ some origin)
  unfolding parse_all
  parse_all-In [] origin h = absurd h
  parse_all-In (o ∷ os) origin h = elim (Option-cases (parse o)) [
    | inl failed ↦
        let (p, listed, e) = parse_all-In os origin (rw (failed, parse_all) at h) in
        (p, inr listed, e)
    | inr (value, parsed) ↦ elim (rw (parsed, parse_all) at h) [
      | inl same ↦ (o, inl refl, parsed ∙ ap some (sym same))
      | inr later ↦ let (p, listed, e) = parse_all-In os origin later in (p, inr listed, e)
    ]
  ]

  any-In :
      (p : Text → Bool) (xs : List Text) → any p xs ≡ true → (x : Text) × In x xs × (p x ≡ true)
  any-In p [] h = cc
  any-In p (x ∷ xs) h = elim (Bool-cases (p x)) [
    | inl here ↦ (x, inl refl, here)
    | inr there ↦ let (y, listed, e) = any-In p xs (ground arith) in (y, inr listed, e)
  ]

  matches_origin-Named :
      (exact suffixes : List Text) (origin : HeaderValue)
      → matches_origin exact suffixes origin ≡ true
      → (s : Text) × (to_str origin ≡ some s)
        × (In s exact ⊎ ((suffix : Text) × In suffix suffixes × (ends_with s suffix ≡ true)))
  unfolding matches_origin
  matches_origin-Named exact suffixes origin e = elim (Option-cases (to_str origin)) [
    | inl opaque ↦ let no = rw (opaque, matches_origin) at e in cc
    | inr (s, shown) ↦
        let yes = rw (shown, matches_origin) at e in
        elim (Bool-cases (any (λ o. text_eq o s) exact)) [
          | inl equal ↦
              let (o, listed, same) = any-In (λ o. text_eq o s) exact equal in
              (s, shown, inl (subst (λ t. In t exact) ((text_eq_iff o s).0 same) listed))
          | inr unequal ↦
              let (suffix, listed, ends) =
                any-In (λ suf. ends_with s suf) suffixes (rw (unequal, matches_origin) at yes) in
              (s, shown, inr (suffix, listed, ends))
        ]
  ]

  -- A cross-origin request with credentials is allowed only from an origin that the configuration names:
  -- by the development origins only in development, by the others only where those do not apply.
  pub cors_layer-credentials :
      (config : BootstrapConfig) (origin : HeaderValue)
      → (cors_layer config).allow_credentials ≡ true
      → Allows (cors_layer config).allow_origin origin
      → Named config origin
  unfolding cors_layer
  cors_layer-credentials config origin c h =
      elim (Bool-cases (config.is_dev && not (is_empty_list config.cors_dev_origins))) [
        | inl dev ↦ inl (
          development-on config.is_dev config.cors_dev_origins dev,
          parse_all-In config.cors_dev_origins origin (rw (dev, cors_layer) at h),
        )
        | inr other ↦
            let credentials = rw (other, cors_layer) at c in
            let allowed = rw (other, cors_layer) at h in
            elim (Bool-cases
              (is_empty_list config.cors_origins && is_empty_list config.cors_origin_suffixes)) [
                | inl permissive ↦ let no = rw (permissive, cors_layer) at credentials in cc
                | inr restricted ↦ inr (
                  development-off config.is_dev config.cors_dev_origins other,
                  matches_origin-Named config.cors_origins config.cors_origin_suffixes origin
                      (rw (restricted, cors_layer) at allowed),
                )
              ]
      ]
