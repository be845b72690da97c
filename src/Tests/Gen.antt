-- ===== src/Tests/Gen.antt =====
-- `vignemale_cli/gen.py` on a small service.
use vignemale.Cli.Collect.Extract.{EndpointInfo, or_text}
use vignemale.Cli.Collect.Paths.{ServiceInfo}
use vignemale.Cli.Gen.{
  Modules, annotation, client_files, render_body, render_function, render_params,
}
use vignemale.Cli.Gen.Imports.{AllModels, client_files-AllModels}
use vignemale.Prelude.{
  All, List, [], extend_new, false, list_beq, nat_eq, opt_eq, pair_eq, refl, some, true, ◌∷◌, ◌≡◌,
}
use vignemale.Prelude.Text.{codes, drop_while, join, strip_both, strip_right, text_eq}

abbrev buy : EndpointInfo
buy = record {
  name = codes "buy";
  method = some (codes "POST");
  path = some (codes "/buy/:id");
  stream = false;
  auth = false;
  expose = true;
  request = some (codes "Order");
  response = some (codes "Receipt");
  params = (codes "id", some (codes "int")) ∷ [];
}

abbrev models : Modules
models = (codes "Order", codes "shop") ∷ (codes "Receipt", codes "shop.pay") ∷ []

abbrev shops : List ServiceInfo
shops = record { name = codes "shop"; endpoints = buy ∷ []; databases = []; buckets = [] } ∷ []

buy_text : render_function (codes "shop") buy models [] ≡ (
  codes
      "\n\ndef buy(*, id: int, body: Order | dict) -> Receipt:\n    \"\"\"POST /buy/:id\"\"\"\n    return validate_model(\"shop.pay\", \"Receipt\", call(\"shop\", \"buy\", id=id, body=body))\n",
  codes "Order" ∷ codes "Receipt" ∷ [],
)
unfolding render_function render_params render_body annotation or_text extend_new strip_both
    strip_right drop_while list_beq join
buy_text = refl

client_files-AllModels_example : All (λ file. AllModels models file.1.1) (client_files shops models)
client_files-AllModels_example = client_files-AllModels shops models
