-- ===== src/Console/Server/Writing.antt =====
-- What the server writes back.
use fissionplane.Prelude.{
  ◌≡◌, refl, ap, ◌∙◌, ◌⊎◌, inl, inr, true, false, String, Option, some, none, List, [], ◌∷◌, ◌==◌,
  lookup, assign, lookup-assign, Bool-cases, Option-cases, eq_iff, arith, if◌then◌else◌,
}
use fissionplane.Console.Server.{
  NodeHeader, NodeHeaders, one, several, IncomingMessage, WebResponse, Head, Call, wrote_head,
  ended, NodePlatform, NodeServerOptions, is_skipped, plain_headers, with_cookies, node_headers,
  head_of, internal_head, write_web_response, web_response, caught, answer_to, serve,
}

-- The value of the last entry of a name.
abbrev pub value_in : String → List (String × String) → Option NodeHeader → Option NodeHeader
value_in name [] before = before
value_in name ((key, value) ∷ entries) before =
    value_in name entries (if key == name then some (one value) else before)

abbrev pub all_cookies : List String → Option NodeHeader
all_cookies [] = none
all_cookies (cookie ∷ cookies) = some (several (cookie ∷ cookies))

lookup-next :
    (name key value : String) (headers : NodeHeaders)
    → lookup name (if is_skipped key then headers else assign key (one value) headers) ≡ (
        if is_skipped name
        then lookup name headers
        else if key == name
        then some (one value)
        else lookup name headers)
lookup-next name key value headers = ground (
  arith,
  eq_iff key "set-cookie",
  eq_iff name "set-cookie",
  eq_iff key "__proto__",
  eq_iff name "__proto__",
  eq_iff key name,
  lookup-assign key name (one value) headers,
)

plain-skipped :
    (name : String) (entries : List (String × String)) (headers : NodeHeaders)
    → is_skipped name ≡ true
    → lookup name (plain_headers entries headers) ≡ lookup name headers
unfolding plain_headers
plain-skipped name [] headers e = refl
plain-skipped name ((key, value) ∷ entries) headers e =
    plain-skipped name entries _ e ∙ lookup-next name key value headers ∙ rw e refl

plain-value_in :
    (name : String) (entries : List (String × String)) (headers : NodeHeaders)
    → is_skipped name ≡ false
    → lookup name (plain_headers entries headers) ≡ value_in name entries (lookup name headers)
unfolding plain_headers
plain-value_in name [] headers e = refl
plain-value_in name ((key, value) ∷ entries) headers e =
    plain-value_in name entries _ e
    ∙ ap (value_in name entries) (lookup-next name key value headers ∙ rw e refl)

-- The value of a header among the plain ones: that of its last entry.
plain-lookup :
    (name : String) (entries : List (String × String))
    → (name == "set-cookie") ≡ false
    → lookup name (plain_headers entries [])
      ≡ (if name == "__proto__" then none else value_in name entries none)
plain-lookup name entries e = elim (Bool-cases (name == "__proto__")) [
  | inl e' ↦
      let out : is_skipped name ≡ true = rw (e, e') refl in
      rw e' (plain-skipped name entries [] out)
  | inr e' ↦
      let kept : is_skipped name ≡ false = rw (e, e') refl in
      rw e' (plain-value_in name entries [] kept)
]

with_cookies-lookup :
    (name : String) (cookies : List String) (headers : NodeHeaders)
    → lookup "set-cookie" headers ≡ none
    → lookup name (with_cookies cookies headers)
      ≡ (if name == "set-cookie" then all_cookies cookies else lookup name headers)
with_cookies-lookup name [] headers h = elim (Bool-cases (name == "set-cookie")) [
  | inl e ↦ let same = (eq_iff name "set-cookie").0 e in rw (e, same) h
  | inr e ↦ rw e refl
]
with_cookies-lookup name (cookie ∷ cookies) headers h = ground (
  arith,
  eq_iff "set-cookie" name,
  eq_iff name "set-cookie",
  lookup-assign "set-cookie" name (several (cookie ∷ cookies)) headers,
)

-- The head of a response holds each header of the response as one text, its last value, but the
-- cookies, which it holds as a list: none is joined with another or lost. Only a header with the name
-- `__proto__` is left out.
pub lookup-node_headers :
    {B : Type 0} (r : WebResponse B) (name : String)
    → lookup name (node_headers r) ≡ (
        if name == "set-cookie"
        then all_cookies r.cookies
        else if name == "__proto__"
        then none
        else value_in name r.entries none)
unfolding node_headers
lookup-node_headers r name =
    let plain = plain_headers r.entries [] in
    with_cookies-lookup name r.cookies plain (plain-skipped "set-cookie" r.entries [] refl)
    ∙ elim (Bool-cases (name == "set-cookie")) [
      | inl e ↦ rw e refl
      | inr e ↦ rw e (plain-lookup name r.entries e)
    ]

module _ {H B : Type 0} (platform : NodePlatform H B) where
  -- A request is answered by one head and one end.
  pub record IsAnswer (result : Option (WebResponse B)) (calls : List (Call B)) : Type 0 where
    pub head : Head
    pub body : B
    pub once : calls ≡ wrote_head head ∷ ended body ∷ []
    pub is_known :
        (head ≡ internal_head) × (body ≡ platform.internal_body)
        ⊎ (r : WebResponse B) × (result ≡ some r)
          × (head ≡ head_of r)
          × ((r.content ≡ some body) ⊎ (r.content ≡ none) × (body ≡ platform.internal_body))

  written-IsAnswer :
      (r : WebResponse B) → IsAnswer (some r) (caught platform (write_web_response platform r))
  unfolding caught write_web_response
  written-IsAnswer r = elim (Bool-cases (platform.sendable (head_of r))) [
    | inl e ↦ elim (Option-cases r.content) [
      | inl nothing ↦ record {
        head = head_of r;
        body = platform.internal_body;
        once = rw (e, nothing) refl;
        is_known = inr (r, refl, refl, inr (nothing, refl));
      }
      | inr (content, found) ↦ record {
        head = head_of r;
        body = content;
        once = rw (e, found) refl;
        is_known = inr (r, refl, refl, inl found);
      }
    ]
    | inr e ↦ record {
      head = internal_head;
      body = platform.internal_body;
      once = rw e refl;
      is_known = inl (refl, refl);
    }
  ]

  answer_to-IsAnswer :
      (result : Option (WebResponse B)) → IsAnswer result (answer_to platform result)
  unfolding answer_to caught
  answer_to-IsAnswer none = record {
    head = internal_head;
    body = platform.internal_body;
    once = refl;
    is_known = inl (refl, refl);
  }
  answer_to-IsAnswer (some r) = written-IsAnswer r

  -- Whatever a message is, and whether or not reading it, a handler, the writing of the head or the
  -- reading of the response's content fails, one head is written and then one end: those of the
  -- response, or its head and the internal error's body, or the internal error's head and body.
  pub serve-IsAnswer :
      (options : NodeServerOptions H B) (message : IncomingMessage B)
      → IsAnswer (web_response platform options message) (serve platform options message)
  unfolding serve
  serve-IsAnswer options message = answer_to-IsAnswer (web_response platform options message)
