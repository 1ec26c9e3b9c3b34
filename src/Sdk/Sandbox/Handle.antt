-- ===== src/Sdk/Sandbox/Handle.antt =====
-- sandbox.ts: what the calls of a handle do to its fields.
use fissionplane.Prelude.{ℕ, ◌≡◌, ◌⊎◌, ap, refl, ◌∙◌, inl, inr, String, Option, some, none, false}
use fissionplane.Sdk.Value.{Value, null, boolean, number, text, array, object, end}
use fissionplane.Sdk.Errors.{Thrown}
use fissionplane.Sdk.Effect.{Outcome, ok, raise, Eff, ◌>>=◌, Signal, run-cases}
use fissionplane.Sdk.Http.{CallSpec, CallInit, RequestOptions, debug}
use fissionplane.Sdk.Http.Keeping.{send-keeps}
use fissionplane.Sdk.Api.{ApiRequest, call_api, plain_request, with_field}
use fissionplane.Sdk.DataPlane.Requests.{read_items}
use fissionplane.Sdk.Sandbox.{
  ControlPlane, SandboxHandle, sandbox_id, attempt, on_sandbox, store_info, store_token, adopt,
  refresh, pause, resume, extend_deadline, mint_token,
}

-- A part of the world that neither the control plane nor the runtime writes.
pub record IsKept {W X : Type 0} (plane : ControlPlane W) (part : W → X) : Type 0 where
  pub by_api : (r : ApiRequest) (w : W) → part (plane.api r w).1 ≡ part w
  pub waiting : (d : ℕ) (s : Option Signal) (w : W) → part (plane.runtime.wait d s w).1 ≡ part w
  pub drawing : (w : W) → part (plane.runtime.random w).1 ≡ part w
  pub logging : (m : String) (w : W) → part (debug plane.requests.logger m w).1 ≡ part w

-- The two fields of the handle are a store of their own.
pub record IsStore {W : Type 0} (handle : SandboxHandle W) : Type 0 where
  pub info_back : (v : Option Value) (w : W) → handle.info (handle.set_info v w) ≡ v
  pub token_back : (v : Option Value) (w : W) → handle.token (handle.set_token v w) ≡ v
  pub info-set_token :
      (v : Option Value) (w : W) → handle.info (handle.set_token v w) ≡ handle.info w
  pub token-set_info :
      (v : Option Value) (w : W) → handle.token (handle.set_info v w) ≡ handle.token w
  pub info_kept : IsKept handle.plane handle.info
  pub token_kept : IsKept handle.plane handle.token

pub read_items-world :
    {W : Type 0} (key : String) (v : Option Value) (w : W) → (read_items key v w).1 ≡ w
unfolding read_items
read_items-world key none w = refl
read_items-world key (some null) w = refl
read_items-world key (some (boolean b)) w = refl
read_items-world key (some (number n)) w = refl
read_items-world key (some (text s)) w = refl
read_items-world key (some (array vs)) w = refl
read_items-world key (some (object fields)) w = refl

read_items-cases :
    {W : Type 0} (key : String) (v : Option Value)
    → ((field : Option Value) × ((w : W) → read_items key v w ≡ (ok field, w)))
      ⊎ ((e : Thrown) × ((key' : String) (w : W) → read_items key' v w ≡ (raise e, w)))
unfolding read_items
read_items-cases key none = inr (_, λ key' w. refl)
read_items-cases key (some null) = inr (_, λ key' w. refl)
read_items-cases key (some (boolean b)) = inl (none, λ w. refl)
read_items-cases key (some (number n)) = inl (none, λ w. refl)
read_items-cases key (some (text s)) = inl (none, λ w. refl)
read_items-cases key (some (array vs)) = inl (none, λ w. refl)
read_items-cases key (some (object fields)) = inl (_, λ w. refl)

module _ {W : Type 0} (handle : SandboxHandle W) where
  module _ {X : Type 0} (part : W → X) (kept : IsKept handle.plane part) where
    call_api-keeps : (r : ApiRequest) (w : W) → part (call_api handle.plane.api r w).1 ≡ part w
    unfolding call_api
    call_api-keeps r w = elim (run-cases (handle.plane.api r w)) [
      | inl (a, w', e) ↦ rw e (rw e at (kept.by_api r w))
      | inr (x, w', e) ↦ rw e (rw e at (kept.by_api r w))
    ]

    attempt-keeps :
        (build : Option Value → ApiRequest) (w : W) → part (attempt handle build w).1 ≡ part w
    unfolding attempt sandbox_id
    attempt-keeps build w =
        let same = read_items-world "sandbox_id" (handle.info w) w in
        elim (run-cases (read_items "sandbox_id" (handle.info w) w)) [
          | inl (id, w', e) ↦
              let same' : w' ≡ w = rw e at same in
              rw e (call_api-keeps (build id) w' ∙ ap part same')
          | inr (x, w', e) ↦ let same' : w' ≡ w = rw e at same in rw e (ap part same')
        ]

    on_sandbox-keeps :
        (spec : CallSpec) (build : CallInit → Option Value → ApiRequest) (w : W)
        → part (on_sandbox handle spec build w).1 ≡ part w
    unfolding on_sandbox
    on_sandbox-keeps spec build w =
        send-keeps part handle.plane.runtime handle.plane.requests spec
          (λ init. attempt handle (build init)) (λ v. attempt-keeps _ v) kept.waiting kept.drawing
          kept.logging w

  -- A call that fails leaves both fields as they were; one that succeeds with `v` has stored it as the
  -- handle's info and left the token.
  pub data Renews (w : W) : Outcome (Option Value) × W → Type 0 where
    refused :
        {e : Thrown} {w' : W}
        → handle.info w' ≡ handle.info w
        → handle.token w' ≡ handle.token w
        → Renews w (raise e, w')
    renewed :
        {v : Option Value} {w' : W}
        → handle.info w' ≡ v
        → handle.token w' ≡ handle.token w
        → Renews w (ok v, w')

  -- The same for the token.
  pub data Mints (w : W) : Outcome (Option Value) × W → Type 0 where
    refused :
        {e : Thrown} {w' : W}
        → handle.info w' ≡ handle.info w
        → handle.token w' ≡ handle.token w
        → Mints w (raise e, w')
    minted :
        {v : Option Value} {w' : W}
        → handle.info w' ≡ handle.info w
        → handle.token w' ≡ v
        → Mints w (ok v, w')

  -- And for both fields at once. The call fails, and both fields stay, where the control plane is
  -- not asked successfully by `ask`, or its answer has no fields; else both are those of the answer.
  pub data Resumes (ask : Eff W (Option Value)) (w : W) : Outcome (Option Value) × W → Type 0 where
    refused :
        {e : Thrown} {w' : W}
        → ask w ≡ (raise e, w')
        → handle.info w' ≡ handle.info w
        → handle.token w' ≡ handle.token w
        → Resumes ask w (raise e, w')
    unread :
        {e : Thrown} {w' : W} (answer : Option Value)
        → ask w ≡ (ok answer, w')
        → ((key : String) (v : W) → read_items key answer v ≡ (raise e, v))
        → handle.info w' ≡ handle.info w
        → handle.token w' ≡ handle.token w
        → Resumes ask w (raise e, w')
    resumed :
        {w' w'' : W} (answer info token : Option Value)
        → ask w ≡ (ok answer, w'')
        → ((v : W) → read_items "sandbox" answer v ≡ (ok info, v))
        → ((v : W) → read_items "token" answer v ≡ (ok token, v))
        → handle.info w' ≡ info
        → handle.token w' ≡ token
        → Resumes ask w (ok info, w')

  module _ (store : IsStore handle) (spec : CallSpec)
      (build : CallInit → Option Value → ApiRequest) where
    abbrev ask : Eff W (Option Value)
    ask = on_sandbox handle spec build

    store_info-Renews : (w : W) → Renews w ((ask >>= λ info. store_info handle info) w)
    unfolding store_info
    store_info-Renews w =
        let info = on_sandbox-keeps handle.info store.info_kept spec build w in
        let token = on_sandbox-keeps handle.token store.token_kept spec build w in
        elim (run-cases (ask w)) [
          | inl (v, w', e) ↦
              rw e (renewed (store.info_back v w') (store.token-set_info v w' ∙ (rw e at token)))
          | inr (x, w', e) ↦ rw e (refused (rw e at info) (rw e at token))
        ]

    store_token-Mints : (w : W) → Mints w ((ask >>= λ token. store_token handle token) w)
    unfolding store_token
    store_token-Mints w =
        let info = on_sandbox-keeps handle.info store.info_kept spec build w in
        let token = on_sandbox-keeps handle.token store.token_kept spec build w in
        elim (run-cases (ask w)) [
          | inl (v, w', e) ↦
              rw e (minted (store.info-set_token v w' ∙ (rw e at info)) (store.token_back v w'))
          | inr (x, w', e) ↦ rw e (refused (rw e at info) (rw e at token))
        ]

  -- A refresh, a pause and an extension of the deadline: all or nothing.
  pub info_calls-Renews :
      (store : IsStore handle) (options : Option RequestOptions) (deadline_seconds : Value) (w : W)
      → Renews w (refresh handle options w)
        × Renews w (pause handle options w)
        × Renews w (extend_deadline handle deadline_seconds options w)
  unfolding refresh pause extend_deadline
  info_calls-Renews store options deadline_seconds w =
      (store_info-Renews store _ _ w, store_info-Renews store _ _ w, store_info-Renews store _ _ w)

  -- A token that is minted is the handle's token from then on; a mint that fails leaves the old one.
  pub mint_token-Mints :
      (store : IsStore handle) (ttl_seconds ports : Option Value) (options : Option RequestOptions)
      (w : W)
      → Mints w (mint_token handle ttl_seconds ports options w)
  unfolding mint_token
  mint_token-Mints store ttl_seconds ports options w = store_token-Mints store _ _ w

  adopt-Resumes :
      (store : IsStore handle) (ask : Eff W (Option Value)) (start w : W) (answer : Option Value)
      → ask start ≡ (ok answer, w)
      → handle.info w ≡ handle.info start
      → handle.token w ≡ handle.token start
      → Resumes ask start (adopt handle answer w)
  unfolding adopt store_info store_token
  adopt-Resumes store ask start w answer asked info_same token_same =
      elim (read_items-cases {W = W} "sandbox" answer) [
        | inr (e, fails) ↦ rw (fails "sandbox" w) (unread answer asked fails info_same token_same)
        | inl (info, reads) ↦
            let w₁ = handle.set_info info w in
            elim (read_items-cases {W = W} "token" answer) [
              | inr (e, fails) ↦ absurd (cc (reads w, fails "sandbox" w))
              | inl (token, reads') ↦
                  rw (reads w, reads' w₁)
                    (resumed answer info token asked reads reads'
                      (store.info-set_token token w₁ ∙ store.info_back info w)
                      (store.token_back token w₁))
            ]
      ]

  -- The call of a resume: a request that is not sent again, to the sandbox's own address.
  abbrev pub resume_call : Option Value → Option RequestOptions → Eff W (Option Value)
  resume_call deadline_seconds options =
      on_sandbox handle
        (record {
          operation = "POST /v1/sandboxes/{sandboxId}/resume";
          idempotent = false;
          options = options;
        })
        λ init id. record (plain_request "POST" "/v1/sandboxes/{sandboxId}/resume" init) {
          path_params = with_field "sandboxId" id end;
          body = some (object (with_field "deadline_seconds" deadline_seconds end));
        }

  -- Over fields that only the handle writes, a resume fails, and leaves both fields, exactly where the
  -- call of a resume to the control plane fails or its answer has no fields; and else the handle's info
  -- and token are the fields `sandbox` and `token` of what the control plane answered to that call.
  pub resume-Resumes :
      (store : IsStore handle) (deadline_seconds : Option Value) (options : Option RequestOptions)
      (w : W)
      → Resumes (resume_call deadline_seconds options) w (resume handle deadline_seconds options w)
  unfolding resume
  resume-Resumes store deadline_seconds options w =
      let ask = resume_call deadline_seconds options in
      let info : handle.info (ask w).1 ≡ handle.info w =
        on_sandbox-keeps handle.info store.info_kept _ _ w in
      let token : handle.token (ask w).1 ≡ handle.token w =
        on_sandbox-keeps handle.token store.token_kept _ _ w in
      elim (run-cases (ask w)) [
        | inl (v, w', e) ↦ rw e (adopt-Resumes store ask w w' v e (rw e at info) (rw e at token))
        | inr (x, w', e) ↦ rw e (refused e (rw e at info) (rw e at token))
      ]
