-- ===== src/Sdk/Http/Fetch/Plans.antt =====
-- createHttpFetch: the headers that go out and the limit that applies.
use mathlib.Core.Option.{some-injective}
use fissionplane.Prelude.{
  ℕ, ◌≡◌, refl, ◌<◌, ◌∙◌, ap, inl, inr, true, false, String, Option, some, none, is_some,
  Option-cases, differ, decimal, ltb, arith,
}
use fissionplane.Web.Headers.{WebHeaders, IsWebHeaders, bind_some}
use fissionplane.Sdk.Api.{user_agent}
use fissionplane.Sdk.Http.Fetch.{Limit, timeout_name, default_fields, fill, limit_for, prepare}

-- The limit of a request: the number that its own header says, and without the header the client's,
-- in milliseconds, of which 0 is no limit.
pub record IsLimited (number : String → Option Limit) (request_timeout_ms : ℕ)
    (header : Option String) (limit : Option Limit) : Type 0 where
  pub by_call : (text : String) → header ≡ some text → limit ≡ number text
  pub by_client :
      header ≡ none
      → 0 < request_timeout_ms
      → limit ≡ some (record { ms = request_timeout_ms; printed = decimal request_timeout_ms })
  pub unlimited : header ≡ none → request_timeout_ms ≡ 0 → limit ≡ none

module _ {H : Type 0} (web : WebHeaders H) (laws : IsWebHeaders web) where
  -- The headers `out` of a request that came with `headers`.
  pub record IsOutgoing (headers out : H) : Type 0 where
    pub hidden : web.get out timeout_name ≡ none
    pub agent : web.get out "user-agent" ≡ (elim (web.get headers "user-agent") [
      | some own ↦ some own
      | none ↦ some (web.normal user_agent)
    ])

  other_agent : (h : H) → web.get (web.delete h timeout_name) "user-agent" ≡ web.get h "user-agent"
  other_agent h =
      laws.get-delete_other h timeout_name "user-agent" refl refl
        (differ timeout_name "user-agent" refl)

  fill-IsOutgoing :
      (h out : H)
      → fill web default_fields (web.delete h timeout_name) ≡ some out
      → IsOutgoing h out
  unfolding fill
  fill-IsOutgoing h out e =
      let bare = web.delete h timeout_name in
      let shown : web.has bare "user-agent" ≡ is_some (web.get h "user-agent") =
        laws.has_is_get bare "user-agent" ∙ ap is_some (other_agent h) in
      elim (Option-cases (web.get h "user-agent")) [
        | inr (own, has_own) ↦
            let found : web.has bare "user-agent" ≡ true = rw has_own at shown in
            let same : bare ≡ out = some-injective _ _ (rw found at e) in
            record {
              hidden = rw (← same) (laws.get-delete h timeout_name);
              agent = rw (← same) (rw has_own (other_agent h ∙ has_own));
            }
        | inl has_none ↦
            let missing : web.has bare "user-agent" ≡ false = rw has_none at shown in
            let (filled, set, rest) =
              bind_some (web.set bare "user-agent" user_agent) _ out (rw missing at e) in
            let same : filled ≡ out = some-injective _ _ rest in
            record {
              hidden = rw (← same) (
                  laws.get-set_other bare filled "user-agent" timeout_name user_agent refl refl
                    (differ "user-agent" timeout_name refl) set
                  ∙ laws.get-delete h timeout_name);
              agent =
                  rw (← same) (rw has_none (laws.get-set bare filled "user-agent" user_agent set));
            }
      ]

  limit_for-IsLimited :
      (number : String → Option Limit) (request_timeout_ms : ℕ) (header : Option String)
      → IsLimited number request_timeout_ms header (limit_for web number request_timeout_ms header)
  unfolding limit_for
  limit_for-IsLimited number ms (some given) = record {
    by_call = λ text e. ap number (some-injective _ _ e);
    by_client = λ e. absurd (cc (e));
    unlimited = λ e. absurd (cc (e));
  }
  limit_for-IsLimited number ms none = record {
    by_call = λ text e. absurd (cc (e));
    by_client = λ e some_time. let long : ltb 0 ms ≡ true = ground arith in rw long refl;
    unlimited = λ e no_time. let long : ltb 0 ms ≡ false = ground arith in rw long refl;
  }

  -- Under the laws of the headers: what goes out never carries the limit's header, carries the
  -- caller's own user agent or else the SDK's, and is limited by the call's limit, the number of that
  -- header, if there is one, and else by the client's, of which 0 is none.
  pub prepare-IsOutgoing :
      (number : String → Option Limit) (request_timeout_ms : ℕ) (h out : H) (limit : Option Limit)
      → prepare web number request_timeout_ms h ≡ some (out, limit)
      → IsOutgoing h out × IsLimited number request_timeout_ms (web.get h timeout_name) limit
  unfolding prepare
  prepare-IsOutgoing number request_timeout_ms h out limit e =
      let (filled, done, rest) =
        bind_some (fill web default_fields (web.delete h timeout_name)) _ (out, limit) e in
      let pair = some-injective _ _ rest in
      let same : filled ≡ out = ap (λ p. p.0) pair in
      (
        fill-IsOutgoing h out (done ∙ ap some same),
        rw (← ap (λ p. p.1) pair)
            (limit_for-IsLimited number request_timeout_ms (web.get h timeout_name)),
      )
