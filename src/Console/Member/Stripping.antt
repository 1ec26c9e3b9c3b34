-- ===== src/Console/Member/Stripping.antt =====
-- withoutAuthenticatedMember: which headers it leaves.
use fissionplane.Prelude.{
  ◌≡◌, refl, inl, inr, Bool, true, false, ◌&&◌, String, none, List, [], ◌∷◌, ◌==◌, contains,
  is_some, arith, eq_iff, Bool-cases, sym, ◌∙◌,
}
use fissionplane.Web.Headers.{WebHeaders, IsWebHeaders, WebRequest, is_lower_case}
use fissionplane.Console.Member.{
  strip, replaced, without_authenticated_member, authenticated_member_headers,
}

abbrev all_lower : List String → Bool
all_lower [] = true
all_lower (x ∷ xs) = is_lower_case x && all_lower xs

module _ {H : Type 0} (web : WebHeaders H) (laws : IsWebHeaders web) where
  delete_keeps_absent :
      (h : H) (name other : String)
      → is_lower_case name ≡ true
      → is_lower_case other ≡ true
      → web.get h other ≡ none
      → web.get (web.delete h name) other ≡ none
  delete_keeps_absent h name other low low' e = elim (Bool-cases (name == other)) [
    | inl same ↦ rw (← (eq_iff name other).0 same) (laws.get-delete h name)
    | inr differ ↦
        laws.get-delete_other h name other low low'
          (λ e'. ground (arith, eq_iff name other, e', differ))
        ∙ e
  ]

  strip_keeps_absent :
      (names : List String) (h : H) (f : Bool) (x : String)
      → all_lower names ≡ true
      → is_lower_case x ≡ true
      → web.get h x ≡ none
      → web.get (strip web names h f).0 x ≡ none
  unfolding strip
  strip_keeps_absent [] h f x low low' e = e
  strip_keeps_absent (n ∷ names) h f x low low' e =
      let here : is_lower_case n ≡ true = ground arith in
      let later : all_lower names ≡ true = ground arith in
      elim (Bool-cases (web.has h n)) [
        | inl found ↦ rw found (
            strip_keeps_absent names (web.delete h n) true x later low'
              (delete_keeps_absent h n x here low' e))
        | inr missing ↦ rw missing (strip_keeps_absent names h f x later low' e)
      ]

  has_not : (h : H) (n : String) → web.has h n ≡ false → web.get h n ≡ none
  has_not h n e =
      let g : is_some (web.get h n) ≡ false = sym (laws.has_is_get h n) ∙ e in ground arith

  strip_removes_head :
      (names : List String) (h : H) (f : Bool) (x : String)
      → all_lower names ≡ true
      → is_lower_case x ≡ true
      → web.get (strip web (x ∷ names) h f).0 x ≡ none
  unfolding strip
  strip_removes_head names h f x low low' = elim (Bool-cases (web.has h x)) [
    | inl found ↦
        rw found (strip_keeps_absent names (web.delete h x) true x low low' (laws.get-delete h x))
    | inr missing ↦ rw missing (strip_keeps_absent names h f x low low' (has_not h x missing))
  ]

  strip_removes :
      (names : List String) (h : H) (f : Bool) (x : String)
      → all_lower names ≡ true
      → is_lower_case x ≡ true
      → contains x names ≡ true
      → web.get (strip web names h f).0 x ≡ none
  unfolding strip
  strip_removes [] h f x low low' e = absurd (cc)
  strip_removes (n ∷ names) h f x low low' e =
      let here : is_lower_case n ≡ true = ground arith in
      let later : all_lower names ≡ true = ground arith in
      elim (Bool-cases (n == x)) [
        | inl same ↦ rw ((eq_iff n x).0 same) (strip_removes_head names h f x later low')
        | inr differ ↦
            let rest : contains x names ≡ true = rw differ at e in
            elim (Bool-cases (web.has h n)) [
              | inl found ↦ rw found (strip_removes names (web.delete h n) true x later low' rest)
              | inr missing ↦ rw missing (strip_removes names h f x later low' rest)
            ]
      ]

  strip_flagged : (names : List String) (h : H) → (strip web names h true).1 ≡ true
  unfolding strip
  strip_flagged [] h = refl
  strip_flagged (n ∷ names) h = elim (Bool-cases (web.has h n)) [
    | inl found ↦ rw found (strip_flagged names (web.delete h n))
    | inr missing ↦ rw missing (strip_flagged names h)
  ]

  strip_unforged :
      (names : List String) (h : H)
      → (strip web names h false).1 ≡ false
      → (strip web names h false).0 ≡ h
  unfolding strip
  strip_unforged [] h e = refl
  strip_unforged (n ∷ names) h e = elim (Bool-cases (web.has h n)) [
    | inl found ↦
        let flag = strip_flagged names (web.delete h n) in
        let clear : (strip web names (web.delete h n) true).1 ≡ false = rw found at e in
        absurd (cc (flag, clear))
    | inr missing ↦ rw missing (strip_unforged names h (rw missing at e))
  ]

  -- A request with other headers is for the same method and URL.
  replaced_target :
      (request : WebRequest H) (r : H × Bool)
      → ((replaced web request r).method ≡ request.method)
        × ((replaced web request r).url ≡ request.url)
  replaced_target request (h, true) = (refl, refl)
  replaced_target request (h, false) = (refl, refl)

  pub without_target :
      (request : WebRequest H)
      → ((without_authenticated_member web request).method ≡ request.method)
        × ((without_authenticated_member web request).url ≡ request.url)
  unfolding without_authenticated_member
  without_target request =
      replaced_target request (strip web authenticated_member_headers request.headers false)

  replaced_headers :
      (request : WebRequest H) (r : H × Bool)
      → (r.1 ≡ false → r.0 ≡ request.headers)
      → (replaced web request r).headers ≡ r.0
  replaced_headers request (h, true) e = refl
  replaced_headers request (h, false) e = sym (e refl)

  -- After the request is stripped no subject header is left, whatever the caller sent.
  pub without-absent :
      (request : WebRequest H) (x : String)
      → is_lower_case x ≡ true
      → contains x authenticated_member_headers ≡ true
      → web.get (without_authenticated_member web request).headers x ≡ none
  unfolding without_authenticated_member
  without-absent request x low e =
      rw
        (replaced_headers request (strip web authenticated_member_headers request.headers false)
          (strip_unforged authenticated_member_headers request.headers))
        (strip_removes authenticated_member_headers request.headers false x refl low e)
