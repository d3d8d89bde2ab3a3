-- ===== src/Control/ObjectiveLaws.antt =====
-- What apps/control-plane/src/services/drizzle-objective-service.ts and objective-service.ts give back
-- of the objectives that were created.
use donnav.Common.{
  ap, ◌∙◌, Option, sym, Bool, true, false, if◌then◌else◌, ◌&&◌, ◌==◌, Bool-cases, inl, inr, String,
  List, [], ◌∷◌, ◌++◌, ◌≡◌, ◌↔◌, refl, arith, eq_iff, none, some, Result, ok, Option-cases,
  string_eq, subst,
}
use donnav.Common.Dict.{get-put}
use donnav.Domain.Events.{EventEnvelope}
use donnav.Domain.Objectives.{Objective}
use donnav.Policy.Types.{PrincipalContext}
use donnav.Db.{ObjectiveRow, Database, event_envelope_to_row}
use donnav.Events.Create.{Platform, create_event}
use donnav.Control.Mappers.{team_of, objective_to_row, inserted_objective, row_to_objective}
use donnav.Control.Postgres.{Postgres, objective_insert, event_insert}
use donnav.Control.Objectives.{
  is_objective_row, objective_of_row, CreateObjectiveInput, new_objective, objective_event,
  StoredObjective, ObjectiveStore, get_stored, create_stored, find_objective, get_objective,
  write_objective, create_objective,
}

objective_of_row-if :
    (b : Bool) (row : ObjectiveRow) (found : Option ObjectiveRow)
    → objective_of_row (if b then some row else found)
      ≡ (if b then some (row_to_objective row) else objective_of_row found)
objective_of_row-if true row found = refl
objective_of_row-if false row found = refl

find_objective-snoc :
    (id o : String) (rows : List ObjectiveRow) (row : ObjectiveRow)
    → find_objective id o rows ≡ none
    → row.id ≡ id
    → row.organization_id ≡ o
    → find_objective id o (rows ++ row ∷ []) ≡ some row
unfolding find_objective
find_objective-snoc id o [] row h i j =
    ground (arith, eq_iff row.id id, eq_iff row.organization_id o)
find_objective-snoc id o (r ∷ rows) row h i j = ground (arith, find_objective-snoc id o rows row)

find_objective-snoc_other :
    (id o : String) (rows : List ObjectiveRow) (row : ObjectiveRow)
    → ¬ ((row.id ≡ id) × (row.organization_id ≡ o))
    → find_objective id o (rows ++ row ∷ []) ≡ find_objective id o rows
unfolding find_objective
find_objective-snoc_other id o [] row n =
    ground (arith, eq_iff row.id id, eq_iff row.organization_id o)
find_objective-snoc_other id o (r ∷ rows) row n =
    ground (arith, find_objective-snoc_other id o rows row)

module _ {W J X : Type 0} (platform : Platform W) (server : Postgres J X)
    (input : CreateObjectiveInput) (principal : PrincipalContext) where
  abbrev pub made_objective : W → Objective
  made_objective w = new_objective (platform.random_uuid w).0 input principal

  abbrev made_event : W → EventEnvelope × W
  made_event w =
      create_event platform (objective_event (made_objective w).id principal)
        (platform.random_uuid w).1

  abbrev made_row : W → ObjectiveRow
  made_row w =
      inserted_objective (platform.now (made_event w).1)
        (objective_to_row (made_objective w) principal.organization_id)

  abbrev with_objective : Database J → W → Database J
  with_objective db w = record db { objectives = db.objectives ++ made_row w ∷ [] }

  -- The objective with its event, or what was thrown and the database as it was.
  create_objective_cases :
      (db : Database J) (w : W) (o : Objective)
      → (create_objective platform server input principal db w).0 ≡ ok o
      → (o ≡ made_objective w)
        × ((create_objective platform server input principal db w).1.objectives
            ≡ db.objectives ++ made_row w ∷ [])
  unfolding create_objective write_objective
  create_objective_cases db w o h = ground (
    arith,
    Option-cases (
        server.refuses
          (objective_insert (objective_to_row (made_objective w) principal.organization_id)) db),
    Option-cases (
        server.refuses (event_insert (event_envelope_to_row (made_event w).0))
          (with_objective db w)),
  )

  find_objective-inserted :
      (id org : String) (rows : List ObjectiveRow) (row : ObjectiveRow)
      → find_objective row.id row.organization_id rows ≡ none
      → find_objective id org (rows ++ row ∷ [])
        ≡ (if is_objective_row id org row then some row else find_objective id org rows)
  find_objective-inserted id org rows row fresh = elim (Bool-cases (is_objective_row id org row)) [
    | inl e ↦
        let i : row.id ≡ id = ground (arith, eq_iff row.id id) in
        let o : row.organization_id ≡ org = ground (arith, eq_iff row.organization_id org) in
        let unused : find_objective id org rows ≡ none =
          subst (λ x. find_objective x org rows ≡ none) i
            (subst (λ x. find_objective row.id x rows ≡ none) o fresh) in
        rw (e) (find_objective-snoc id org rows row unused i o)
    | inr e ↦ rw (e) (
        find_objective-snoc_other id org rows row
          (λ same. ground (arith, eq_iff row.id id, eq_iff row.organization_id org)))
  ]

  -- Every read after an objective was created with an identifier not yet in use: in its organization
  -- the objective is read as it was returned, but that the team is kept for the scope of a team
  -- only, and any other read, in particular in another organization, gives what it gave before.
  pub get_objective-create_objective :
      (db : Database J) (w : W) (o : Objective) (id org : String)
      → (create_objective platform server input principal db w).0 ≡ ok o
      → find_objective o.id principal.organization_id db.objectives ≡ none
      → get_objective id org (create_objective platform server input principal db w).1 ≡ (
          if (o.id == id) && (principal.organization_id == org)
          then some (record o { team_id = team_of o.scope o.team_id })
          else get_objective id org db)
  unfolding get_objective row_to_objective inserted_objective objective_to_row
  get_objective-create_objective db w o id org h fresh =
      let (made, rows) = create_objective_cases db w o h in
      let here = principal.organization_id in
      let unused = subst (λ x. find_objective x.id here db.objectives ≡ none) made fresh in
      let inserted = find_objective-inserted id org db.objectives (made_row w) unused in
      subst
        (λ x. get_objective id org (create_objective platform server input principal db w).1 ≡ (
          if (x.id == id) && (here == org)
          then some (record x { team_id = team_of x.scope x.team_id })
          else get_objective id org db))
        (sym made)
        (ap (λ rs. objective_of_row (find_objective id org rs)) rows
          ∙ (ap objective_of_row inserted
              ∙ objective_of_row-if (is_objective_row id org (made_row w)) (made_row w)
                  (find_objective id org db.objectives)))

-- The in-memory service agrees: what it stores is read back in its organization and in no other.
pub get_stored-create_stored :
    {W X : Type 0} (platform : Platform W) (publish : EventEnvelope → W → Result X (Unit {0}) × W)
    (input : CreateObjectiveInput) (principal : PrincipalContext) (store : ObjectiveStore) (w : W)
    (organization_id : String)
    → let (result, store', w') = create_stored platform publish input principal store w in
      let o = new_objective (platform.random_uuid w).0 input principal in
      (get_stored o.id organization_id store' ≡ some o)
      ↔ (principal.organization_id ≡ organization_id)
unfolding create_stored get_stored
get_stored-create_stored platform publish input principal store w organization_id =
    let id = (platform.random_uuid w).0 in
    let stored : StoredObjective = record {
      objective = new_objective id input principal;
      organization_id = principal.organization_id;
    } in
    ground (
      arith,
      get-put id id stored store,
      eq_iff id id,
      eq_iff principal.organization_id organization_id,
    )
