-- ===== src/Routing/Matching.antt =====
-- A router that keeps the laws of Routing/Router: it cuts the path at its slashes and takes the first
-- route that has its shape and wins. It decodes nothing, so it serves identifiers without escapes.
use Prim.Native.Char.{Char, code}
use Prim.Native.String.{[] as nil_text, ◌∷◌ as cons_text, ◌++◌ as append}
use text.Mathlib.TextLemmas.{nil-append, cons-append}
use group_management_ui_back.Prelude.{
  String, ◌≡◌, refl, sym, ap, ◌∙◌, Bool, true, ◌&&◌, ◌||◌, not, Bool-cases, inl, inr, Option, none,
  some, List, [], ◌∷◌, All, find, eq_iff, eq_refl, eqb, subst, arith, if◌then◌else◌,
}
use group_management_ui_back.Api.Encoding.{IsSegment, encode-IsSegment}
use group_management_ui_back.Routing.{Part, fixed, param, Routes, app_routes}
use group_management_ui_back.Routing.Router.{
  Branch, branches, fits, may_fit, alike, same, covers, outranks, level, wins, path_of, IsWhole,
  bindings, Screen, IsBest, Router,
}

push : Char → List String → List String
push c [] = cons_text c nil_text ∷ []
push c (w ∷ ws) = cons_text c w ∷ ws

-- The texts between the slashes
cut : String → List String
unfolding push
cut nil_text = nil_text ∷ []
cut (cons_text c s) = let ws = cut s in if eqb (code c) b'/' then nil_text ∷ ws else push c ws

split : String → List String
unfolding cut
split nil_text = []
split (cons_text c s) = cut s

cut-append : (w rest : String) → IsSegment w → cut (append w (append "/" rest)) ≡ w ∷ cut rest
unfolding cut push
cut-append nil_text rest h = rw nil-append (rw cons-append (rw nil-append refl))
cut-append (cons_text c w) rest (p, q, r, h) =
    rw (cons-append c w (append "/" rest)) (ground (arith, cut-append w rest h))

cut_whole : (w : String) → IsSegment w → cut w ≡ w ∷ []
unfolding cut push
cut_whole nil_text h = refl
cut_whole (cons_text c w) (p, q, r, h) = ground (arith, cut_whole w h)

same-eq : (ps qs : List Part) → same ps qs ≡ true → ps ≡ qs
same-eq [] [] h = refl
same-eq [] (q ∷ qs) h = cc
same-eq (p ∷ ps) [] h = cc
same-eq (fixed a ∷ ps) (fixed b ∷ qs) h =
    let heads : a ≡ b = (eq_iff a b).0 (ground arith) in
    let tails = same-eq ps qs (ground arith) in rw (heads, tails) refl
same-eq (fixed a ∷ ps) (param b ∷ qs) h = cc
same-eq (param a ∷ ps) (fixed b ∷ qs) h = cc
same-eq (param a ∷ ps) (param b ∷ qs) h =
    let heads : a ≡ b = (eq_iff a b).0 (ground arith) in
    let tails = same-eq ps qs (ground arith) in rw (heads, tails) refl

same_refl : (ps : List Part) → same ps ps ≡ true
same_refl [] = refl
same_refl (fixed a ∷ ps) = rw (eq_refl a) (same_refl ps)
same_refl (param a ∷ ps) = rw (eq_refl a) (same_refl ps)

module _ {ℓ} {A : Type ℓ} (f g : A → Bool) where
  find-holds : (xs : List A) (x : A) → find f xs ≡ some x → f x ≡ true
  find-holds [] x h = cc
  find-holds (y ∷ ys) x h = elim (Bool-cases (f y)) [
    | inl e ↦
        let taken : some y ≡ some x = sym (ap (λ b. if b then some y else find f ys) e) ∙ h in
        let one : y ≡ x = cc taken in ap f (sym one) ∙ e
    | inr e ↦ find-holds ys x (sym (ap (λ b. if b then some y else find f ys) e) ∙ h)
  ]

  -- Of two tests, the first element that passes the one is that which passes the other, if it does
  -- so too and the other asks for more.
  find-agree :
      (xs : List A) (x : A)
      → find f xs ≡ some x
      → g x ≡ true
      → All (λ y. (g y ≡ true) → f y ≡ true) xs
      → find g xs ≡ some x
  find-agree [] x h k imp = cc
  find-agree (y ∷ ys) x h k imp = elim (Bool-cases (f y)) [
    | inl e ↦
        let taken : some y ≡ some x = sym (ap (λ b. if b then some y else find f ys) e) ∙ h in
        let one : y ≡ x = cc taken in
        ap (λ b. if b then some y else find g ys) (ap g one ∙ k) ∙ taken
    | inr e ↦ elim (Bool-cases (g y)) [
      | inl t ↦ cc (imp.0 t)
      | inr t ↦
          rw t (find-agree ys x (sym (ap (λ b. if b then some y else find f ys) e) ∙ h) k imp.1)
    ]
  ]

-- Of two routes that each come first or are level, both are level.
outranks-level : (l m : Branch) → outranks l m ≡ true → outranks m l ≡ true → level l m ≡ true
outranks-level l m h k = elim (Bool-cases (same l.pattern m.pattern)) [
  | inl e ↦
      let one : l.pattern ≡ m.pattern = same-eq l.pattern m.pattern e in
      let both : covers l.pattern m.pattern ≡ covers m.pattern l.pattern = cc one in ground arith
  | inr e ↦ elim (Bool-cases (same m.pattern l.pattern)) [
    | inl t ↦
        let one : m.pattern ≡ l.pattern = same-eq m.pattern l.pattern t in
        let other : same l.pattern m.pattern ≡ same m.pattern l.pattern = cc one in ground arith
    | inr t ↦ ground arith
  ]
]

alike_refl : (s : String) → alike s s ≡ true
alike_refl nil_text = refl
alike_refl (cons_text c s) = ground (arith, alike_refl s)

fits-may_fit : (ps : List Part) (ss : List String) → fits ps ss ≡ true → may_fit ps ss ≡ true
fits-may_fit [] [] h = refl
fits-may_fit [] (s ∷ ss) h = cc
fits-may_fit (p ∷ ps) [] h = cc
fits-may_fit (fixed a ∷ ps) (s ∷ ss) h =
    let one : s ≡ a = (eq_iff s a).0 (ground arith) in
    let rest = fits-may_fit ps ss (ground arith) in rw (one, alike_refl a) rest
fits-may_fit (param a ∷ ps) (s ∷ ss) h = fits-may_fit ps ss h

module _ (ss : List String) where
  wins-find :
      (k : Branch) (f : Branch → Bool) (ls : List Branch) (l : Branch)
      → wins ss k ls ≡ true
      → find f ls ≡ some l
      → fits l.pattern ss ≡ true
      → outranks k l ≡ true
  wins-find k f [] l h found shape = cc
  wins-find k f (m ∷ ms) l h found shape = elim (Bool-cases (f m)) [
    | inl e ↦
        let taken : some m ≡ some l = sym (ap (λ b. if b then some m else find f ms) e) ∙ found in
        let one : m ≡ l = cc taken in
        let at : (not (may_fit m.pattern ss) || outranks k m) ≡ true = ground arith in
        let there = sym (ap (λ x. not (may_fit x.pattern ss) || outranks k x) one) ∙ at in
        let wide = fits-may_fit l.pattern ss shape in ground arith
    | inr e ↦
        wins-find k f ms l (ground arith)
          (sym (ap (λ b. if b then some m else find f ms) e) ∙ found) shape
  ]

  module _ (l : Branch) (f : Branch → Bool) (all : List Branch) (found : find f all ≡ some l)
      (shape : fits l.pattern ss ≡ true) where
    winners-level :
        (ms : List Branch)
        → wins ss l ms ≡ true
        → All (λ m. ((fits m.pattern ss && wins ss m all) ≡ true) → level l m ≡ true) ms
    winners-level [] h = tt
    winners-level (m ∷ ms) h = (
      λ k.
          let wide = fits-may_fit m.pattern ss (ground arith) in
          outranks-level l m (ground arith) (wins-find m f all l (ground arith) found shape),
      winners-level ms (ground arith),
    )

chosen : List String → Routes → Option Branch
chosen ss routes = find (λ m. fits m.pattern ss && wins ss m (branches routes)) (branches routes)

chosen-best :
    (routes : Routes) (l : Branch) (ss : List String)
    → IsBest routes l ss
    → chosen ss routes ≡ some l
unfolding chosen
chosen-best routes l ss (found, shape, winner) =
    find-agree (level l) (λ m. fits m.pattern ss && wins ss m (branches routes)) (branches routes) l
      found (rw (shape, winner) refl)
      (winners-level ss l (level l) (branches routes) found shape (branches routes) winner)

screen : List String → Option Branch → Option Screen
screen ss none = none
screen ss (some l) = some (l.elements, bindings (λ s. s) l.pattern ss)

whole-IsSegment : {s : String} → IsWhole s → IsSegment s
whole-IsSegment w = subst IsSegment w.encoded (encode-IsSegment w.text)

-- A path without the slash that it begins with
body : String → List String → String
body s [] = s
body s (t ∷ ss) = append s (path_of (t ∷ ss))

path_of-body : (s : String) (ss : List String) → path_of (s ∷ ss) ≡ append "/" (body s ss)
unfolding body
path_of-body s [] = refl
path_of-body s (t ∷ ss) = refl

cut-body : (s : String) (ss : List String) → All IsWhole (s ∷ ss) → cut (body s ss) ≡ s ∷ ss
unfolding body
cut-body s [] (w, h) = cut_whole s (whole-IsSegment w)
cut-body s (t ∷ ss) (w, h) =
    rw (path_of-body t ss, cut-append s (body t ss) (whole-IsSegment w), cut-body t ss h) refl

split-path_of :
    (s : String) (ss : List String) → All IsWhole (s ∷ ss) → split (path_of (s ∷ ss)) ≡ s ∷ ss
unfolding split
split-path_of s ss h = rw (path_of-body s ss) (rw cons-append (rw nil-append (cut-body s ss h)))

pub cutting_router : Router app_routes
unfolding screen
cutting_router = record {
  decode = λ s. s;
  keeps = λ s e. refl;
  render = λ path. screen (split path) (chosen (split path) app_routes);
  renders =
      λ l s ss h best. rw (split-path_of s ss h) (rw (chosen-best app_routes l (s ∷ ss) best) refl);
}
