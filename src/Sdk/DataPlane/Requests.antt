-- ===== src/Sdk/DataPlane/Requests.antt =====
-- What the methods of commands.ts and files.ts have in common: `this.call(spec, async (client, init) =>
-- unwrap(await client.METHOD(path, { …, ...init })))`, and the reading of a field of its answer.
use fissionplane.Prelude.{String, Option, some, none}
use fissionplane.Sdk.Value.{Value, null, object, property}
use fissionplane.Sdk.Errors.{type_error}
use fissionplane.Sdk.Effect.{Eff, ◌>>=◌, pure, throw}
use fissionplane.Sdk.Http.{CallSpec, CallInit}
use fissionplane.Sdk.Api.{ApiRequest, call_api}
use fissionplane.Sdk.DataPlane.Calls.{Connection, call}

-- A field of an answer; of no answer, reading it throws a TypeError.
unfoldable pub read_items : {W : Type 0} → String → Option Value → Eff W (Option Value)
read_items key (some (object fields)) = pure (property key fields)
read_items key (some null) = throw (type_error "cannot read properties of null")
read_items key none = throw (type_error "cannot read properties of undefined")
read_items key (some _) = pure none

unfoldable pub request :
    {W : Type 0} → Connection W → CallSpec → (CallInit → ApiRequest) → Eff W (Option Value)
request c spec build = call c spec λ client init. call_api (c.transport client) (build init)

-- `const page = await this.call(…); return page.items`.
unfoldable pub request_items :
    {W : Type 0} → Connection W → CallSpec → (CallInit → ApiRequest) → Eff W (Option Value)
unfolding read_items
request_items c spec build = do page ← request c spec build; read_items "items" page
