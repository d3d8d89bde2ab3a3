-- ===== src/Control/ServerLaws.antt =====
-- What apps/control-plane/src/server.ts lets a principal do.
use donnav.Common.{
  ◌⊎◌, subst, List, ◌≤◌, false, String, ◌≡◌, ◌↔◌, arith, refl, Option, none, some, Result, ok, err,
  inl, inr,
}
use donnav.Domain.Values.{level, team}
use donnav.Domain.Objectives.{Objective}
use donnav.Policy.Types.{PrincipalContext, ActionDescriptor, ResourceDescriptor, allow}
use donnav.Policy.Engine.{evaluate}
use donnav.Policy.Laws.{evaluate-allow_iff, MayAccess}
use donnav.Control.Dispatch.{DispatchInput}
use donnav.Control.Requests.{
  AuthOutcome, authenticated, refused, found, failure, DispatchTaskBody, ServerDeps, as_text,
  as_string_array, asks, objective_read_action, task_dispatch_action,
}
use donnav.Control.Server.{
  Response, read_resource, dispatch_resource, get_objective_route, post_task, read_found,
  queued_reply, dispatch_gated, dispatch_found, with_capabilities, dispatch_checked, dispatch_input,
}

asks-allow_iff :
    (principal : PrincipalContext) (action : ActionDescriptor) (resource : ResourceDescriptor)
    → resource.organization_id ≡ principal.organization_id
    → action.capability ≡ none
    → action.side_effecting ≡ false
    → level action.authority_level ≤ 1
    → ((evaluate (asks principal action resource)).effect ≡ allow)
      ↔ MayAccess resource.scope principal resource
asks-allow_iff principal action resource t c e l =
    ground (arith, evaluate-allow_iff (asks principal action resource))

module _ {S X : Type 0} (deps : ServerDeps S X) where
  read_found_iff :
      (principal : PrincipalContext) (got : Result X (Option Objective)) (s : S) (o : Objective)
      → let reply = (read_found deps principal got s).0 in
        ((reply ≡ ok (found o))
          ↔ ((got ≡ ok (some o)) × MayAccess o.scope principal (read_resource deps principal o)))
        × (((seen : Objective) × (reply ≡ ok (found seen)))
            ⊎ ((reply ≡ ok (failure 404 "not_found"))
                ⊎ ((x : X) × (got ≡ err x) × (reply ≡ err x))))
  read_found_iff principal (err x) s o = ((λ e. cc, λ h. cc), inr (inr (x, refl, refl)))
  read_found_iff principal (ok none) s o = ((λ e. cc, λ h. cc), inr (inl refl))
  read_found_iff principal (ok (some g)) s o = ground (
    arith,
    asks-allow_iff principal objective_read_action (read_resource deps principal g) refl refl refl
        (omega arith),
  )

  -- An objective is shown exactly to an authenticated principal whose organization has it and who may
  -- access its scope; to everyone else who is authenticated the reply is the same, whether the
  -- objective exists or not, but that a read that throws is thrown on.
  pub get_objective_route-found_iff :
      (principal : PrincipalContext) (id : String) (s : S) (o : Objective)
      → let reply = (get_objective_route deps (authenticated principal) id s).0 in
        ((reply ≡ ok (found o)) ↔ (
          (deps.get_objective id principal.organization_id s ≡ ok (some o))
          × MayAccess o.scope principal (read_resource deps principal o)))
        × (((seen : Objective) × (reply ≡ ok (found seen)))
            ⊎ ((reply ≡ ok (failure 404 "not_found"))
                ⊎ ((x : X) × (deps.get_objective id principal.organization_id s ≡ err x)
                    × (reply ≡ err x))))
  unfolding get_objective_route
  get_objective_route-found_iff principal id s o =
      read_found_iff principal (deps.get_objective id principal.organization_id s) s o

  -- The reply is the dispatcher's, for the objective and with access to its scope.
  abbrev pub Dispatches :
      PrincipalContext → Result X (Option Objective) → S → Response deps → Type 0
  Dispatches principal got s response =
      (o : Objective) × (got ≡ ok (some o))
      × MayAccess o.scope principal (dispatch_resource deps principal o)
      × (input : DispatchInput) × (response ≡ queued_reply deps (deps.dispatch input principal s))

  dispatch_gated-Dispatches :
      (principal : PrincipalContext) (o : Objective) (input : DispatchInput) (s : S)
      → ((dispatch_gated deps principal o input s).1 ≡ s)
        ⊎ (MayAccess o.scope principal (dispatch_resource deps principal o)
            × (dispatch_gated deps principal o input s
                ≡ queued_reply deps (deps.dispatch input principal s)))
  dispatch_gated-Dispatches principal o input s = ground (
    arith,
    asks-allow_iff principal task_dispatch_action (dispatch_resource deps principal o) refl refl
        refl (omega arith),
  )

  with_capabilities-Dispatches :
      (capabilities : Option (List String)) (id goal definition_of_done : String)
      (principal : PrincipalContext) (o : Objective) (body : DispatchTaskBody) (s : S)
      → let response =
          with_capabilities deps capabilities id goal definition_of_done principal o body s in
        (response.1 ≡ s) ⊎ Dispatches principal (ok (some o)) s response
  with_capabilities-Dispatches none id goal definition_of_done principal o body s = inl refl
  with_capabilities-Dispatches (some cs) id goal definition_of_done principal o body s =
      let input = dispatch_input deps id goal definition_of_done cs body in
      elim (dispatch_gated-Dispatches principal o input s) [
        | inl e ↦ inl e
        | inr (access, e) ↦ inr (o, refl, access, input, e)
      ]

  dispatch_checked-Dispatches :
      (goal definition_of_done : Option String) (id : String) (principal : PrincipalContext)
      (o : Objective) (body : DispatchTaskBody) (s : S)
      → let response = dispatch_checked deps goal definition_of_done id principal o body s in
        (response.1 ≡ s) ⊎ Dispatches principal (ok (some o)) s response
  dispatch_checked-Dispatches (some goal) (some definition_of_done) id principal o body s =
      with_capabilities-Dispatches (as_string_array body.required_capabilities) id goal
        definition_of_done principal o body s
  dispatch_checked-Dispatches (some goal) none id principal o body s = inl refl
  dispatch_checked-Dispatches none definition_of_done id principal o body s = inl refl

  dispatch_found-Dispatches :
      (id : String) (principal : PrincipalContext) (got : Result X (Option Objective))
      (body : DispatchTaskBody) (s : S)
      → ((dispatch_found deps got id principal body s).1 ≡ s)
        ⊎ Dispatches principal got s (dispatch_found deps got id principal body s)
  dispatch_found-Dispatches id principal (err x) body s = inl refl
  dispatch_found-Dispatches id principal (ok none) body s = inl refl
  dispatch_found-Dispatches id principal (ok (some o)) body s =
      dispatch_checked-Dispatches (as_text body.goal) (as_text body.definition_of_done) id principal
        o body s

  pub post_task-gated :
      (auth : AuthOutcome) (id : String) (body : DispatchTaskBody) (s : S)
      → ((post_task deps auth id body s).1 ≡ s)
        ⊎ ((principal : PrincipalContext) × (auth ≡ authenticated principal)
            × Dispatches principal
                (deps.get_objective id principal.organization_id s)
                s
                (post_task deps auth id body s))
  unfolding post_task
  post_task-gated (refused status error) id body s = inl refl
  post_task-gated (authenticated principal) id body s =
      elim (dispatch_found-Dispatches id principal
        (deps.get_objective id principal.organization_id s) body s) [
          | inl e ↦ inl e
          | inr d ↦ inr (principal, refl, d)
        ]

  -- No task can be dispatched under an objective of the scope of a team, whoever asks.
  pub post_task-team :
      (auth : AuthOutcome) (id : String) (body : DispatchTaskBody) (s : S)
      → ((organization_id : String) (o : Objective)
          → deps.get_objective id organization_id s ≡ ok (some o)
          → o.scope ≡ team)
      → (post_task deps auth id body s).1 ≡ s
  post_task-team auth id body s h = elim (post_task-gated auth id body s) [
    | inl e ↦ e
    | inr (principal, a, (o, g, access, input, r)) ↦ absurd (
        subst (λ c. MayAccess c principal (dispatch_resource deps principal o))
          (h principal.organization_id o g) access)
  ]
