-- ===== src/Application/RemoteTargetGate/Offered.antt =====
-- The destinations that the menu offers, and the consent that `allow_push` records.
use mathlib.Core.Path.{subst}
use reprodb.Common.{
  ◌≡◌, refl, ap, ◌∙◌, inl, inr, Bool, true, false, not, Option, none, some, List, [], ◌∷◌, map,
  keep, All, arith, Result, ok, err, map_err, ok_or, if◌then◌else◌, Bool-cases, Option-cases,
  >>=-elim, guard-elim, ok_or-eq-ok, map_err-eq-ok,
}
use reprodb.Common.Text.{text_eq, text_ord, text_eq_iff}
use reprodb.Common.Maps.{get, get-insert, Unique, Unique-get}
use reprodb.Common.Sorting.{Sorted, sort_by-Sorted, All-sort_by}
use reprodb.Domain.Names.{ProfileName}
use reprodb.Infrastructure.Config.{AppConfig, SourceProfileConfig}
use reprodb.Infrastructure.Config.Repository.{
  ConfigFile, Saving, Toml, reloaded, load, save, save-load,
}
use reprodb.Application.RemoteTargetGate.{
  RemoteProfileChoice, eligible_choices, is_eligible, choice, allowed_first, protected_endpoint,
  profile_accepts_push, allow_push, with_push_allowed, saved, profile_not_found,
  RemoteTargetGateError, config_error,
}

-- An entry that may be offered: not production, not the endpoint of a profile that accepts no push,
-- and the active profile only if it accepts pushes.
abbrev pub IsOffered : AppConfig → RemoteProfileChoice → Type 0
IsOffered config c =
    (profile : SourceProfileConfig) × (get c.profile config.profiles ≡ some profile)
    × (profile.production ≡ false)
    × (c.accepts_push ≡ profile_accepts_push profile)
    × (protected_endpoint config c.profile profile ≡ none)
    × (config.active_profile ≡ some c.profile → c.accepts_push ≡ true)

module _ (config : AppConfig) where
  entry-IsOffered :
      (name : ProfileName) (profile : SourceProfileConfig)
      → get name config.profiles ≡ some profile
      → is_eligible config (name, profile) ≡ true
      → IsOffered config (choice (name, profile))
  unfolding is_eligible
  entry-IsOffered name profile g h = (
    profile,
    g,
    ground arith,
    refl,
    elim (Option-cases (protected_endpoint config name profile)) [
      | inl e ↦ e
      | inr (p, e) ↦ absurd (ground arith)
    ],
    λ a. ground (arith, text_eq_iff name name),
  )

  -- The entries of a map are found under their keys.
  abbrev Found : ProfileName × SourceProfileConfig → Type 0
  Found (name, profile) = get name config.profiles ≡ some profile

  map-keep-IsOffered :
      (entries : List (ProfileName × SourceProfileConfig))
      → All Found entries
      → All (IsOffered config) (map choice (keep (is_eligible config) entries))
  map-keep-IsOffered [] h = tt
  map-keep-IsOffered ((name, profile) ∷ entries) (g, h) =
      elim (Bool-cases (is_eligible config (name, profile))) [
        | inl e ↦ rw e (entry-IsOffered name profile g e, map-keep-IsOffered entries h)
        | inr e ↦ rw e (map-keep-IsOffered entries h)
      ]

asymmetric : (x y : RemoteProfileChoice) → allowed_first x y ≡ true → allowed_first y x ≡ false
asymmetric x y h = ground arith

transitive :
    (x y z : RemoteProfileChoice)
    → allowed_first y x ≡ false
    → allowed_first z y ≡ false
    → allowed_first z x ≡ false
transitive x y z h k = ground arith

-- Where no key of the profiles stands twice, every offered choice is a profile that is not production
-- and whose endpoint no other profile protects, the active profile is offered only if it accepts
-- pushes, and no choice that accepts pushes stands behind one that does not.
pub eligible_choices-IsOffered :
    (config : AppConfig)
    → Unique config.profiles
    → All (IsOffered config) (eligible_choices config)
      × Sorted allowed_first (eligible_choices config)
unfolding eligible_choices
eligible_choices-IsOffered config u = (
  All-sort_by allowed_first (IsOffered config) _
      (map-keep-IsOffered config config.profiles (Unique-get config.profiles u)),
  sort_by-Sorted allowed_first asymmetric transitive _,
)

abbrev loaded : AppConfig → Result RemoteTargetGateError AppConfig
loaded a = ok a

ok-eq : {a b : AppConfig} → loaded a ≡ loaded b → a ≡ b
ok-eq h = cc

if-eq : (x y : Option SourceProfileConfig) {b : Bool} → b ≡ true → (if b then x else y) ≡ x
if-eq x y h = rw h

if-ne : (x y : Option SourceProfileConfig) {b : Bool} → b ≡ false → (if b then x else y) ≡ y
if-ne x y h = rw h

-- The configuration in which the profile accepts pushes and nothing else has changed.
pub record IsAllowed (name : ProfileName) (before after : AppConfig) : Type 0 where
  pub accepted :
      (profile : SourceProfileConfig) × (get name before.profiles ≡ some profile)
      × (profile.production ≡ false)
      × (get name after.profiles ≡ some (record profile { push_destination = true }))
  pub others :
      (other : ProfileName)
      → text_eq name other ≡ false
      → get other after.profiles ≡ get other before.profiles
  pub kept : after ≡ record before { profiles = after.profiles }

with_push_allowed-IsAllowed :
    (name : ProfileName) (before after : AppConfig)
    → with_push_allowed name before ≡ ok after
    → IsAllowed name before after
unfolding with_push_allowed
with_push_allowed-IsAllowed name before after h =
    >>=-elim (ok_or profile_not_found (get name before.profiles)) _ h λ profile e₁ h₁.
      guard-elim (not profile.production) _ _ h₁ λ e₂ h₂.
        let changed = record profile { push_destination = true } in
        subst (IsAllowed name before) (ok-eq h₂) (record {
          accepted = (
            profile,
            ok_or-eq-ok profile_not_found _ e₁,
            ground arith,
            get-insert name name changed before.profiles
                ∙ if-eq _ _ ((text_eq_iff name name).1 refl),
          );
          others = λ other n. get-insert name other changed before.profiles ∙ if-ne _ _ n;
          kept = refl;
        })

saved-load :
    (saving : Saving) (r : Result RemoteTargetGateError AppConfig) (file after : ConfigFile)
    → saved saving r file ≡ (ok tt, after)
    → (new : AppConfig) × (r ≡ ok new) × (load after ≡ reloaded saving.toml new)
saved-load saving (err e) file after h = absurd (ground arith)
saved-load saving (ok new) file after h =
    let written : (save saving new file).0 ≡ ok tt =
      map_err-eq-ok config_error _ (ap (λ p. p.0) h) in
    let left : (save saving new file).1 ≡ after = ap (λ p. p.1) h in
    (new, refl, save-load saving new file after (λ i. (written i, left i)))

-- The first file loads, and the consent is all that the configuration written to the second changes.
abbrev pub IsConsent : Toml → ProfileName → ConfigFile → ConfigFile → Type 0
IsConsent toml name file after =
    (old : AppConfig) × (new : AppConfig) × (load file ≡ ok old)
    × (load after ≡ reloaded toml new)
    × IsAllowed name old new

-- An `allow_push` that succeeds had a file that loads, and leaves one that loads to the new
-- configuration, or is refused as too large if its text is of more than 1 MiB; in the new configuration
-- the profile, which is not a production profile, accepts pushes, every other profile is as before, and
-- so is all but the profiles.
pub allow_push-IsConsent :
    (saving : Saving) (name : ProfileName) (file after : ConfigFile)
    → allow_push saving name file ≡ (ok tt, after)
    → IsConsent saving.toml name file after
unfolding allow_push
allow_push-IsConsent saving name file after h =
    let (new, e, l) = saved-load saving _ file after h in
    >>=-elim (map_err config_error (load file)) _ e λ old e₁ h₁. (
      old,
      new,
      map_err-eq-ok config_error (load file) e₁,
      l,
      with_push_allowed-IsAllowed name old new h₁,
    )
