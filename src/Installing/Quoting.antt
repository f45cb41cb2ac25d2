-- ===== src/Installing/Quoting.antt =====
-- The commands that install a connector and a tunneler: the texts between their quotes.
use Prim.Native.Char.{Char, code}
use Prim.Native.String.{[] as nil_text, ◌∷◌ as cons_text, ◌++◌ as append}
use text.Mathlib.TextLemmas.{nil-append, cons-append, append-nil, append_assoc}
use mathlib.Core.Option
use group_management_ui_back.Prelude.{
  String, ◌≡◌, refl, ap, ◌∙◌, arith, Bool, true, false, ◌&&◌, not, Bool-cases, inl, inr, some, List,
  [], ◌∷◌, map, All, eqb, is_blank, ◌++◌,
}
use group_management_ui_back.Installing.{
  or_text, assignment, assignments, curl_line, connector_values, connector_command, Form,
  tunneler_values, tunneler_command,
}

is_quote : Char → Bool
is_quote c = eqb (code c) 34

-- The texts between double quotes, read from left to right: `opened` says whether a quote is open,
-- and `acc` is what was read since.
abbrev emit : Bool → Bool → String → List String → List String
emit true true acc rest = acc ∷ rest
emit _ _ acc rest = rest

abbrev keep : Bool → Bool → String → Char → String
keep true false acc c = append acc (cons_text c nil_text)
keep _ _ acc c = nil_text

abbrev turn : Bool → Bool → Bool
turn true opened = not opened
turn false opened = opened

unfoldable scan : Bool → String → String → List String
unfolding is_quote
scan opened acc nil_text = []
scan opened acc (cons_text c s) =
    let rest = scan (turn (is_quote c) opened) (keep opened (is_quote c) acc c) s in
    emit opened (is_quote c) acc rest

unfoldable pub quoted : String → List String
unfolding scan
quoted s = scan false "" s

-- A text without a double quote.
unfoldable pub is_plain : String → Bool
unfolding is_quote
is_plain nil_text = true
is_plain (cons_text c s) = let rest = is_plain s in not (is_quote c) && rest

scan_outside :
    (s rest : String) → is_plain s ≡ true → scan false "" (append s rest) ≡ scan false "" rest
unfolding scan is_plain
scan_outside nil_text rest h = rw nil-append refl
scan_outside (cons_text c s) rest h = elim (Bool-cases (is_quote c)) [
  | inl e ↦ ground arith
  | inr e ↦ rw (cons-append, e) (scan_outside s rest (ground arith))
]

scan_inside :
    (acc s rest : String)
    → is_plain s ≡ true
    → scan true acc (append s rest) ≡ scan true (append acc s) rest
unfolding scan is_plain
scan_inside acc nil_text rest h = rw (nil-append, append-nil) refl
scan_inside acc (cons_text c s) rest h = elim (Bool-cases (is_quote c)) [
  | inl e ↦ ground arith
  | inr e ↦
      rw (cons-append, e)
        (scan_inside (append acc (cons_text c nil_text)) s rest (ground arith)
          ∙ ap (λ t. scan true t rest)
              (append_assoc acc (cons_text c nil_text) s
                ∙ ap (append acc) (cons-append c nil_text s ∙ ap (cons_text c) (nil-append s))))
]

-- Whether a quote is open after a text, and what was read since.
final_open : Bool → String → Bool
unfolding is_quote
final_open opened nil_text = opened
final_open opened (cons_text c s) = final_open (turn (is_quote c) opened) s

final_acc : Bool → String → String → String
unfolding is_quote
final_acc opened acc nil_text = acc
final_acc opened acc (cons_text c s) =
    final_acc (turn (is_quote c) opened) (keep opened (is_quote c) acc c) s

emit-append :
    (o q : Bool) (acc : String) (xs ys : List String)
    → emit o q acc (xs ++ ys) ≡ emit o q acc xs ++ ys
emit-append true true acc xs ys = refl
emit-append true false acc xs ys = refl
emit-append false true acc xs ys = refl
emit-append false false acc xs ys = refl

scan-append :
    (o : Bool) (acc s rest : String)
    → scan o acc (append s rest) ≡ scan o acc s ++ scan (final_open o s) (final_acc o acc s) rest
unfolding scan final_open final_acc
scan-append o acc nil_text rest = rw nil-append refl
scan-append o acc (cons_text c s) rest = rw cons-append (
    ap (emit o (is_quote c) acc)
      (scan-append (turn (is_quote c) o) (keep o (is_quote c) acc c) s rest)
    ∙ emit-append o (is_quote c) acc _ _)

scan-assignment :
    (name value rest : String)
    → is_plain name ≡ true
    → is_plain value ≡ true
    → scan false "" (assignment name value rest) ≡ value ∷ scan false "" rest
unfolding assignment scan final_open final_acc is_plain
scan-assignment name value rest h k =
    scan_outside "  " (append name (append "=\"" (append value (append "\" \\\n" rest)))) refl
    ∙ scan_outside name (append "=\"" (append value (append "\" \\\n" rest))) h
    ∙ scan-append false "" "=\"" (append value (append "\" \\\n" rest))
    ∙ scan_inside "" value (append "\" \\\n" rest) k
    ∙ ap (λ t. scan true t (append "\" \\\n" rest)) (nil-append value)
    ∙ scan-append true value "\" \\\n" rest

abbrev pub IsPlainLine : String × String → Type 0
IsPlainLine (name, value) = (is_plain name ≡ true) × (is_plain value ≡ true)

scan-assignments :
    (lines : List (String × String))
    → All IsPlainLine lines
    → scan false "" (assignments lines) ≡ map (λ l. l.1) lines
unfolding assignments scan
scan-assignments [] h = refl
scan-assignments ((name, value) ∷ lines) ((h, k), hs) =
    scan-assignment name value (assignments lines) h k
    ∙ ap (λ vs. value ∷ vs) (scan-assignments lines hs)

plain-or_text :
    (text fallback : String)
    → is_plain text ≡ true
    → is_plain fallback ≡ true
    → is_plain (or_text text fallback) ≡ true
plain-or_text text fallback h k = elim (Bool-cases (is_blank text)) [
  | inl e ↦ rw e k
  | inr e ↦ rw e h
]

-- Where none of the fields holds a double quote, the texts between the double quotes of the
-- tunneler's command are, in their order, the fields, or what stands for those that are empty.
pub quoted-tunneler_command :
    (s : Form)
    → is_plain s.controller_addr ≡ true
    → is_plain s.controller_http_addr ≡ true
    → is_plain s.connector_addr ≡ true
    → is_plain s.tunneler_id ≡ true
    → is_plain s.token ≡ true
    → quoted (tunneler_command s)
      ≡ or_text s.controller_addr "127.0.0.1:8443"
        ∷ or_text s.controller_http_addr "127.0.0.1:8081"
        ∷ or_text s.connector_addr "CONNECTOR_ADDR_HERE"
        ∷ or_text s.tunneler_id "tunneler-local-01"
        ∷ or_text s.token "fetching_enrollment_token"
        ∷ []
unfolding quoted tunneler_command is_plain
quoted-tunneler_command s a b c d e =
    scan_outside (curl_line "tunneler-setup.sh") (assignments (tunneler_values s)) refl
    ∙ scan-assignments (tunneler_values s) (
      (refl, plain-or_text s.controller_addr "127.0.0.1:8443" a refl),
      (
        (refl, plain-or_text s.controller_http_addr "127.0.0.1:8081" b refl),
        (
          (refl, plain-or_text s.connector_addr "CONNECTOR_ADDR_HERE" c refl),
          (
            (refl, plain-or_text s.tunneler_id "tunneler-local-01" d refl),
            ((refl, plain-or_text s.token "fetching_enrollment_token" e refl), tt),
          ),
        ),
      ),
    )

-- Likewise the connector's command, which there is once the token is not empty.
pub quoted-connector_command :
    (addr http_addr id token key : String)
    → is_blank token ≡ false
    → is_plain addr ≡ true
    → is_plain http_addr ≡ true
    → is_plain id ≡ true
    → is_plain token ≡ true
    → is_plain key ≡ true
    → Option.map quoted (connector_command addr http_addr (some id) token key)
      ≡ some (
          or_text addr "127.0.0.1:8443"
          ∷ or_text http_addr "127.0.0.1:8081"
          ∷ id
          ∷ token
          ∷ or_text key "YOUR_POLICY_SIGNING_KEY"
          ∷ [])
unfolding quoted connector_command is_plain
quoted-connector_command addr http_addr id token key t a b c d e = rw t (
    ap some (
      scan_outside (curl_line "setup.sh")
        (assignments (connector_values addr http_addr (some id) token key)) refl
      ∙ scan-assignments (connector_values addr http_addr (some id) token key) (
        (refl, plain-or_text addr "127.0.0.1:8443" a refl),
        (
          (refl, plain-or_text http_addr "127.0.0.1:8081" b refl),
          (
            (refl, c),
            ((refl, d), ((refl, plain-or_text key "YOUR_POLICY_SIGNING_KEY" e refl), tt)),
          ),
        ),
      )))
