-- ===== src/Sdk/Sandbox/Pages/Answers.antt =====
-- sandbox.ts, Sandboxes.list: the answers of the control plane that are pages, and the others.
use fissionplane.Prelude.{◌≡◌, ◌≢◌, ◌⊎◌, refl, ap, ◌∙◌, inl, inr, Option, some, none, List}
use fissionplane.Sdk.Value.{
  Value, null, boolean, number, text, array, object, Values, Fields, property,
}
use fissionplane.Sdk.Errors.{Thrown}
use fissionplane.Sdk.Effect.{ok, raise}
use fissionplane.Sdk.DataPlane.Requests.{read_items}
use fissionplane.Sdk.Sandbox.{ControlPlane}
use fissionplane.Sdk.Sandbox.Listing.{values, array_of, page_parts}
use fissionplane.Sdk.Templates.{nullish}

-- The next cursor that a field says: none where it is absent or null.
pub data NextIs : Option Value → Option Value → Type 0 where
  absent : NextIs none none
  nothing : NextIs (some null) none
  cursor : (v : Value) → v ≢ null → NextIs (some v) (some v)

-- An object whose field `items` is the array of `items`, and which says the next cursor.
pub record IsPage (answer : Option Value) (items : List Value) (next : Option Value) : Type 0 where
  pub fields : Fields
  pub vs : Values
  pub is_object : answer ≡ some (object fields)
  pub listed : property "items" fields ≡ some (array vs)
  pub held : values vs ≡ items
  pub goes_on : NextIs (property "next_cursor" fields) next

nullish-NextIs : {v next : Option Value} → NextIs v next → nullish v ≡ next
nullish-NextIs absent = refl
nullish-NextIs nothing = refl
nullish-NextIs (cursor null h) = absurd (h refl)
nullish-NextIs (cursor (boolean b) h) = refl
nullish-NextIs (cursor (number n) h) = refl
nullish-NextIs (cursor (text s) h) = refl
nullish-NextIs (cursor (array vs) h) = refl
nullish-NextIs (cursor (object fields) h) = refl

next_of : (v : Option Value) → (next : Option Value) × NextIs v next
next_of none = (none, absent)
next_of (some null) = (none, nothing)
next_of (some (boolean b)) = (_, cursor (boolean b) λ e. absurd (cc (e)))
next_of (some (number n)) = (_, cursor (number n) λ e. absurd (cc (e)))
next_of (some (text s)) = (_, cursor (text s) λ e. absurd (cc (e)))
next_of (some (array vs)) = (_, cursor (array vs) λ e. absurd (cc (e)))
next_of (some (object fields)) = (_, cursor (object fields) λ e. absurd (cc (e)))

-- A page is read as what it holds.
pub page_parts-IsPage :
    {W : Type 0} (plane : ControlPlane W) (answer : Option Value) (items : List Value)
    (next : Option Value) (w : W)
    → IsPage answer items next
    → page_parts plane answer w ≡ (ok (items, next), w)
unfolding page_parts read_items array_of
page_parts-IsPage plane answer items next w page =
    rw (page.is_object, page.listed, page.held, nullish-NextIs page.goes_on) refl

module _ {W : Type 0} where
  items-cases :
      (v : Option Value)
      → ((vs : Values) × (v ≡ some (array vs)))
        ⊎ ((e : Thrown) × ((vs : Values) → v ≢ some (array vs))
            × ((w : W) → array_of v w ≡ (raise e, w)))
  unfolding array_of
  items-cases none = inr (_, (λ vs e. absurd (cc (e))), λ w. refl)
  items-cases (some null) = inr (_, (λ vs e. absurd (cc (e))), λ w. refl)
  items-cases (some (boolean b)) = inr (_, (λ vs e. absurd (cc (e))), λ w. refl)
  items-cases (some (number n)) = inr (_, (λ vs e. absurd (cc (e))), λ w. refl)
  items-cases (some (text s)) = inr (_, (λ vs e. absurd (cc (e))), λ w. refl)
  items-cases (some (array vs)) = inl (vs, refl)
  items-cases (some (object fields)) = inr (_, (λ vs e. absurd (cc (e))), λ w. refl)

module _ {W : Type 0} (plane : ControlPlane W) where
  -- An answer that is no page, and the error with which reading it ends.
  pub record IsMalformed (answer : Option Value) (e : Thrown) : Type 0 where
    pub no_page : (items : List Value) (next : Option Value) → ¬ IsPage answer items next
    pub thrown : (w : W) → page_parts plane answer w ≡ (raise e, w)

  abbrev Read : Option Value → Type 0
  Read answer =
      ((items : List Value) × (next : Option Value) × IsPage answer items next)
      ⊎ ((e : Thrown) × IsMalformed answer e)

  object-Read : (fields : Fields) → Read (some (object fields))
  unfolding page_parts read_items
  object-Read fields = elim (items-cases {W = W} (property "items" fields)) [
    | inl (vs, listed) ↦
        let (next, goes_on) = next_of (property "next_cursor" fields) in
        inl (
          values vs,
          next,
          record {
            fields = fields;
            vs = vs;
            is_object = refl;
            listed = listed;
            held = refl;
            goes_on = goes_on;
          },
        )
    | inr (e, other, fails) ↦ inr (
      e,
      record {
        no_page = λ items next page.
            let same : some (object fields) ≡ some (object page.fields) = page.is_object in
            let fields_same : fields ≡ page.fields = cc in
            other page.vs (ap (property "items") fields_same ∙ page.listed);
        thrown = λ w. rw (fails w) refl;
      },
    )
  ]

  no_object :
      (answer : Option Value) (e : Thrown)
      → ((fields : Fields) → answer ≢ some (object fields))
      → ((w : W) → page_parts plane answer w ≡ (raise e, w))
      → Read answer
  no_object answer e other fails =
      inr (
        e,
        record { no_page = λ items next page. other page.fields page.is_object; thrown = fails },
      )

  -- Every answer is a page or malformed.
  pub answer-cases : (answer : Option Value) → Read answer
  unfolding page_parts read_items array_of
  answer-cases none = no_object none _ (λ fields e. absurd (cc (e))) λ w. refl
  answer-cases (some null) = no_object (some null) _ (λ fields e. absurd (cc (e))) λ w. refl
  answer-cases (some (boolean b)) =
      no_object (some (boolean b)) _ (λ fields e. absurd (cc (e))) λ w. refl
  answer-cases (some (number n)) =
      no_object (some (number n)) _ (λ fields e. absurd (cc (e))) λ w. refl
  answer-cases (some (text s)) = no_object (some (text s)) _ (λ fields e. absurd (cc (e))) λ w. refl
  answer-cases (some (array vs)) =
      no_object (some (array vs)) _ (λ fields e. absurd (cc (e))) λ w. refl
  answer-cases (some (object fields)) = object-Read fields
