-- ===== src/Config/Flags.antt =====
-- packages/config/src/feature-flags.ts: `isFeatureEnabled`.
use donnav.Common.{
  String, Bool, true, false, List, ◌≡◌, ◌↔◌, ◌⊎◌, arith, Option, none, some, includes, includes_iff,
  In, string_eq, if◌then◌else◌,
}

pub record Rollout : Type 0 where
  pub allow_user_ids : Option (List String)
  pub allow_org_ids : Option (List String)

pub record FeatureFlag : Type 0 where
  pub key : String
  pub enabled : Bool
  pub rollout : Option Rollout

pub record FlagContext : Type 0 where
  pub user_id : Option String
  pub organization_id : Option String

-- `ref !== undefined && list?.includes(ref) === true`
abbrev is_listed : Option String → Option (List String) → Bool
is_listed none list = false
is_listed (some ref) none = false
is_listed (some ref) (some xs) = includes xs ref

abbrev pub rolled_out : Option Rollout → FlagContext → Bool
rolled_out none ctx = false
rolled_out (some r) ctx =
    if is_listed ctx.user_id r.allow_user_ids
    then true
    else is_listed ctx.organization_id r.allow_org_ids

unfoldable pub is_feature_enabled : FeatureFlag → FlagContext → Bool
is_feature_enabled flag ctx = if rolled_out flag.rollout ctx then true else flag.enabled

abbrev Listed : Option String → Option (List String) → Type 0
Listed none list = ⊥
Listed (some ref) none = ⊥
Listed (some ref) (some xs) = In ref xs

abbrev pub Allowed : Option Rollout → FlagContext → Type 0
Allowed none ctx = ⊥
Allowed (some r) ctx =
    Listed ctx.user_id r.allow_user_ids ⊎ Listed ctx.organization_id r.allow_org_ids

Listed-iff : (o : Option String) (l : Option (List String)) → (is_listed o l ≡ true) ↔ Listed o l
Listed-iff none l = ground arith
Listed-iff (some ref) none = ground arith
Listed-iff (some ref) (some xs) = includes_iff xs ref

rolled_out_iff :
    (o : Option Rollout) (ctx : FlagContext) → (rolled_out o ctx ≡ true) ↔ Allowed o ctx
rolled_out_iff none ctx = ground arith
rolled_out_iff (some r) ctx =
    ground (
      arith,
      Listed-iff ctx.user_id r.allow_user_ids,
      Listed-iff ctx.organization_id r.allow_org_ids,
    )

-- A feature is enabled exactly when the flag is, or when the rollout's lists name the user or the
-- organization of the context; a list or a reference that is missing names nobody.
pub is_feature_enabled_iff :
    (flag : FeatureFlag) (ctx : FlagContext)
    → (is_feature_enabled flag ctx ≡ true) ↔ ((flag.enabled ≡ true) ⊎ Allowed flag.rollout ctx)
unfolding is_feature_enabled
is_feature_enabled_iff flag ctx = ground (arith, rolled_out_iff flag.rollout ctx)
