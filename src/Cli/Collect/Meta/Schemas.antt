-- ===== src/Cli/Collect/Meta/Schemas.antt =====
-- The declarations of `build_meta` and the references to them.
use vignemale.Cli.Collect.Extract.{EndpointInfo, FieldInfo}
use vignemale.Cli.Collect.Meta.{Decl, Rpc}
use vignemale.Prelude.{Elem, List, Option, nat_eq, none, opt_eq, pair_eq, some, ℕ, ◌≡◌, ◌≢◌}
use vignemale.Prelude.Dict.{Dict}
use vignemale.Prelude.Text.{Text}

abbrev pub Models : Type 0
Models = Dict Text (Dict Text FieldInfo)

-- A declaration with this id and this name is in the list.
abbrev pub Declared : Text → ℕ → List Decl → Type 0
Declared name i decls = (d : Decl) × Elem d decls × (d.id ≡ i) × (d.name ≡ name)

-- A reference points at one declaration, of the name of the annotation; without a reference no
-- declaration has that name.
abbrev pub RefersTo : Option Text → Option ℕ → List Decl → Type 0
RefersTo text_of reference decls =
    ((t : Text) (i : ℕ)
      → text_of ≡ some t
      → reference ≡ some i
      → Declared t i decls × ((c d : Decl) → Elem c decls → Elem d decls → c.id ≡ d.id → c ≡ d))
    × ((t : Text) → text_of ≡ some t → reference ≡ none → (d : Decl) → Elem d decls → d.name ≢ t)

-- The rpc has the name of the endpoint, and its references point at the declarations of the
-- endpoint's annotations.
abbrev pub Describes : List Decl → EndpointInfo → Rpc → Type 0
Describes decls e rpc =
    (rpc.name ≡ e.name)
    × RefersTo e.request rpc.request_schema decls
    × RefersTo e.response rpc.response_schema decls
