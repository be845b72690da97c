-- ===== src/Cli/Gen/Imports.antt =====
-- The models that a generated client imports.
use mathlib.Core.Bool.{false≢true}
use vignemale.Cli.Collect.Extract.{EndpointInfo, or_text}
use vignemale.Cli.Collect.Paths.{ServiceInfo}
use vignemale.Cli.Gen.{
  Modules, Rendered, annotation, client_files, import_model, import_response, render_body,
  render_function, render_functions, render_params,
}
use vignemale.Prelude.{
  All, Bool-cases, List, Option, [], ap, arith, contains, contains-extend_new, extend_new, inl, inr,
  is_empty, keep, nat_eq, none, not, opt_eq, pair_eq, some, true, ◌∷◌, ◌≡◌,
}
use vignemale.Prelude.Dict.{Dict, has_key}
use vignemale.Prelude.Text.{Text, text_eq}

-- Every import is a model whose module is known.
abbrev pub AllModels : Modules → List Text → Type 0
AllModels models imports = (m : Text) → contains m imports ≡ true → has_key m models ≡ true

import_model-AllModels :
    (t : Text) (models : Modules) (imports : List Text)
    → AllModels models imports
    → AllModels models (import_model t models imports)
import_model-AllModels t models imports h m there = elim (Bool-cases (has_key t models)) [
  | inr absent ↦ h m (rw absent at there)
  | inl model_there ↦
      let found : contains m (extend_new imports (t ∷ [])) ≡ true = rw model_there at there in
      ground (
        arith,
        h m,
        contains-extend_new m imports (t ∷ []),
        text_eq.beq_iff t m,
        text_eq.beq_iff m t,
        moved,
      )
]
  where
    moved : t ≡ m → has_key t models ≡ has_key m models
    moved e = ap (λ k. has_key k models) e

render_params-AllModels :
    (params : Dict Text (Option Text)) (models : Modules) (r : Rendered)
    → AllModels models r.imports
    → AllModels models (render_params params models r).imports
unfolding render_params
render_params-AllModels [] models r h = h
render_params-AllModels ((pname, ptype) ∷ params) models r h =
    render_params-AllModels params models _
      (import_model-AllModels (annotation ptype models) models r.imports h)

render_body-AllModels :
    (request : Option Text) (models : Modules) (r : Rendered)
    → AllModels models r.imports
    → AllModels models (render_body request models r).imports
unfolding render_body or_text
render_body-AllModels none models r h = h
render_body-AllModels (some []) models r h = h
render_body-AllModels (some (c ∷ s)) models r h =
    import_model-AllModels (annotation (some (c ∷ s)) models) models r.imports h

import_response-AllModels :
    (response : Option Text) (models : Modules) (imports : List Text)
    → AllModels models imports
    → AllModels models (import_response response models imports)
import_response-AllModels none models imports h = h
import_response-AllModels (some resp) models imports h =
    import_model-AllModels resp models imports h

render_function-AllModels :
    (service : Text) (e : EndpointInfo) (models : Modules) (imports : List Text)
    → AllModels models imports
    → AllModels models (render_function service e models imports).1
unfolding render_function
render_function-AllModels service e models imports h =
    import_response-AllModels e.response models _ (
      render_body-AllModels e.request models _ (
        render_params-AllModels e.params models
          (record { args = []; call_args = []; imports = imports }) h))

render_functions-AllModels :
    (service : Text) (endpoints : List EndpointInfo) (models : Modules) (imports : List Text)
    → AllModels models imports
    → AllModels models (render_functions service endpoints models imports).1
unfolding render_functions
render_functions-AllModels service [] models imports h = h
render_functions-AllModels service (e ∷ endpoints) models imports h =
    render_functions-AllModels service endpoints models (render_function service e models imports).1
      (render_function-AllModels service e models imports h)

-- Each name that a generated client imports, for any service and any endpoints, is a model of the
-- app whose module is known: the line that imports it can be written.
pub client_files-AllModels :
    (services : List ServiceInfo) (models : Modules)
    → All (λ file. AllModels models file.1.1) (client_files services models)
unfolding client_files
client_files-AllModels [] models = tt
client_files-AllModels (s ∷ services) models =
    let endpoints = keep (λ e. not e.stream) s.endpoints in
    elim (Bool-cases (is_empty endpoints)) [
      | inl no_endpoint ↦ rw no_endpoint (client_files-AllModels services models)
      | inr some_endpoint ↦ rw some_endpoint (
        render_functions-AllModels s.name endpoints models [] (λ m h. absurd (false≢true h)),
        client_files-AllModels services models,
      )
    ]
