-- ===== src/SignInPolicy/Confirming.antt =====
-- Which intervals the page accepts, and what is read once one was confirmed.
use group_management_ui_back.Prelude.{
  ℕ, ◌+◌, ◌≤◌, String, ◌≡◌, ◌↔◌, refl, ap, ◌∙◌, Bool, true, false, ◌&&◌, none, some, Bool-cases,
  Option-cases, inl, inr, arith, eqb, ltb,
}
use group_management_ui_back.Json.{
  Num, nan, infinite, finite, int, is_zero, is_above, unsigned_zero, Json,
}
use group_management_ui_back.Storage.{Browser}
use group_management_ui_back.SignInPolicy.{get_sign_in_policy}
use group_management_ui_back.SignInPolicy.Reading.{as_read, get-save_reauth}
use group_management_ui_back.SignInPolicy.Page.{
  State, Invalid, is_not_whole, validate, confirm_reauth,
}

-- What the tests on a number find where it is the natural number `k`, or -0 for 0.
record IsWhole (n : Num) (k : ℕ) : Type 0 where
  whole : is_not_whole n ≡ false
  zero_iff : is_zero n ≡ eqb k 0
  above : is_above 23 n ≡ ltb 23 k
  saved : (number_of : Json → Num) (fallback : Num) → as_read number_of fallback n ≡ int k

whole_inj : (j k : ℕ) → int j ≡ int k → j ≡ k
whole_inj j k h = cc h

zero-IsWhole :
    (negative : Bool) (w f k : ℕ)
    → (eqb w 0 && eqb f 0) ≡ true
    → 0 ≡ k
    → IsWhole (finite negative w f) k
zero-IsWhole negative w f k z e = record {
  whole = ground arith;
  zero_iff = ground arith;
  above = ground arith;
  saved = λ number_of fallback. ground arith;
}

parts :
    (negative : Bool) (w f k : ℕ)
    → finite negative w f ≡ int k
    → (negative ≡ false) × (w ≡ k) × (f ≡ 0)
parts negative w f k e = (cc e, cc e, cc e)

above-IsWhole :
    (negative : Bool) (w f k : ℕ)
    → (eqb w 0 && eqb f 0) ≡ false
    → (negative ≡ false) × (w ≡ k) × (f ≡ 0)
    → IsWhole (finite negative w f) k
above-IsWhole negative w f k z (e1, e2, e3) = record {
  whole = ground arith;
  zero_iff = ground arith;
  above = ground arith;
  saved = λ number_of fallback. ground arith;
}

finite-IsWhole :
    (negative : Bool) (w f k : ℕ)
    → unsigned_zero (finite negative w f) ≡ int k
    → IsWhole (finite negative w f) k
finite-IsWhole negative w f k h = elim (Bool-cases (eqb w 0 && eqb f 0)) [
  | inl z ↦ zero-IsWhole negative w f k z (whole_inj 0 k (rw z at h))
  | inr z ↦
      let e : finite negative w f ≡ int k = rw z at h in
      above-IsWhole negative w f k z (parts negative w f k e)
]

unsigned_zero-IsWhole : (n : Num) (k : ℕ) → unsigned_zero n ≡ int k → IsWhole n k
unsigned_zero-IsWhole nan k h = cc
unsigned_zero-IsWhole (infinite negative) k h = cc
unsigned_zero-IsWhole (finite negative w f) k h = finite-IsWhole negative w f k h

natural_of : (n : Num) → is_not_whole n ≡ false → (k : ℕ) × (unsigned_zero n ≡ int k)
natural_of nan h = cc
natural_of (infinite negative) h = cc
natural_of (finite negative w f) h = elim (Bool-cases (eqb w 0 && eqb f 0)) [
  | inl z ↦ let e : 0 ≡ w = ground arith in (w, rw z (ap int e))
  | inr z ↦
      let p : negative ≡ false = ground arith in
      let q : f ≡ 0 = ground arith in (w, rw z (λ i. finite (p i) w (q i)))
]

-- An interval in whole days and hours, the hours less than a day, and not empty.
pub record IsInterval (d h : Num) (days hours : ℕ) : Type 0 where
  pub days_whole : unsigned_zero d ≡ int days
  pub hours_whole : unsigned_zero h ≡ int hours
  pub in_day : hours ≤ 23
  pub not_empty : 1 ≤ days + hours

validate_of : (d h : Num) (days hours : ℕ) → IsInterval d h days hours → validate d h ≡ none
unfolding validate
validate_of d h days hours v =
    let p = unsigned_zero-IsWhole d days v.days_whole in
    let q = unsigned_zero-IsWhole h hours v.hours_whole in
    rw (p.whole, q.whole, p.zero_iff, q.zero_iff, q.above) (ground (arith, v.in_day, v.not_empty))

validate-IsInterval :
    (d h : Num) → validate d h ≡ none → (days : ℕ) × (hours : ℕ) × IsInterval d h days hours
unfolding validate
validate-IsInterval d h v =
    let (days, e) = natural_of d (ground arith) in
    let (hours, f) = natural_of h (ground arith) in
    let p = unsigned_zero-IsWhole d days e in
    let q = unsigned_zero-IsWhole h hours f in
    (
      days,
      hours,
      record {
        days_whole = e;
        hours_whole = f;
        in_day = ground (arith, q.above, v);
        not_empty = ground (arith, p.zero_iff, q.zero_iff, v);
      },
    )

module _ (number_of : Json → Num) (of_text : String → Num) (s : State) (b : Browser Json) where
  abbrev confirmed : State × Browser Json
  confirmed = confirm_reauth number_of of_text s b

  -- The page accepts the two texts exactly when what Number makes of them are whole numbers of days
  -- and of hours, the hours at most 23, and not both 0; so a text counts as 0 where Number reads 0.
  pub confirm_iff :
      (confirmed.0.error ≡ none)
      ↔ ((days : ℕ) × (hours : ℕ) × IsInterval (of_text s.days) (of_text s.hours) days hours)
  unfolding confirm_reauth
  confirm_iff = elim (Option-cases (validate (of_text s.days) (of_text s.hours))) [
    | inl v ↦
        rw (v, confirm_reauth)
          ((λ _. validate-IsInterval (of_text s.days) (of_text s.hours) v), (λ _. refl))
    | inr (i, v) ↦
        rw (v, confirm_reauth)
          ((λ e. cc), (λ x. cc (validate_of (of_text s.days) (of_text s.hours) x.0 x.1 x.2, v)))
  ]

  -- A refused interval changes nothing that is stored, and keeps the panel and the texts.
  pub confirm_refused :
      (invalid : Invalid)
      → confirmed.0.error ≡ some invalid
      → confirmed ≡ (record s { error = some invalid }, b)
  unfolding confirm_reauth
  confirm_refused invalid h = elim (Option-cases (validate (of_text s.days) (of_text s.hours))) [
    | inl v ↦ cc (rw (v, confirm_reauth) at h)
    | inr (i, v) ↦
        let e : some i ≡ some invalid = rw (v, confirm_reauth) at h in
        rw (v, confirm_reauth) (λ j. (record s { error = e j }, b))
  ]

  -- Where `window` is defined, an accepted interval is what is read from then on, the other
  -- requirement stays, and the panel is closed.
  pub confirm_saves :
      (days hours : ℕ)
      → b.has_window ≡ true
      → IsInterval (of_text s.days) (of_text s.hours) days hours
      → (get_sign_in_policy number_of confirmed.1 ≡ record {
        reauth = record { days = int days; hours = int hours };
        mfa_required = (get_sign_in_policy number_of b).mfa_required;
      })
        × (confirmed.0.panel ≡ none)
        × (confirmed.0.error ≡ none)
  unfolding confirm_reauth
  confirm_saves days hours w v =
      let p = unsigned_zero-IsWhole (of_text s.days) days v.days_whole in
      let q = unsigned_zero-IsWhole (of_text s.hours) hours v.hours_whole in
      rw (validate_of (of_text s.days) (of_text s.hours) days hours v, confirm_reauth)
        (
          get-save_reauth number_of (of_text s.days) (of_text s.hours) b w
              ∙ rw (p.saved number_of (int 30), q.saved number_of (int 0)) refl,
          refl,
          refl,
        )
