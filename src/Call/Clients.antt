-- ===== src/Call/Clients.antt =====
-- `vignemale/clients.py`: a client of a service. What `call` gives is a parameter.
use vignemale.Api.Registry.{Kwargs}
use vignemale.Prelude.{if◌then◌else◌, ◌++◌}
use vignemale.Prelude.Text.{Text, codes, starts_with}
use vignemale.Python.{Result, Value, attribute_error, ok, raise, repr}

-- `__getattr__(service)` of the module: the service of the client.
unfoldable pub service_client : Text → Result Text
unfolding starts_with
service_client service =
    if starts_with service (codes "_") then raise (attribute_error service) else ok service

-- `ServiceClient.__getattr__(endpoint)`
unfoldable pub client_method :
    {A : Type 0} → (Text → Text → Value → Kwargs → A) → Text → Text → Result (Value → Kwargs → A)
unfolding starts_with
client_method call_of service endpoint =
    if starts_with endpoint (codes "_")
    then raise (attribute_error endpoint)
    else ok (λ body params. call_of service endpoint body params)

-- `ServiceClient.__repr__`
unfoldable pub client_repr : Text → Text
client_repr service = codes "ServiceClient(" ++ (repr service ++ codes ")")
