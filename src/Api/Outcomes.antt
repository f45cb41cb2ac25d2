-- ===== src/Api/Outcomes.antt =====
-- What a call comes to, by what `fetch` does.
use Prim.Native.String.{◌++◌}
use text.Mathlib.TextLemmas.{append-eq-nil_iff, nil-append}
use text.Mathlib.Text.{starts_with}
use group_management_ui_back.Prelude.{
  ℕ, String, ◌≡◌, ◌≢◌, ◌↔◌, ◌⊎◌, subst, sym, inl, inr, refl, Bool, true, false, Option, none, some,
  is_blank, to_text, Bool-cases, eq_of_is_blank, ne_of_is_blank,
}
use group_management_ui_back.Json.{Json}
use group_management_ui_back.Api.{
  Options, Fetched, throws_error, throws_other, answers, Result, returns, fails, rejects, Fetch,
  init, full_url, request, request_local, read_answer, read_fetched, read_local,
}

-- The answer of a server that is content and sends a JSON text.
pub data Delivers : Fetched → Json → Type 0 where
  delivers :
      (status : ℕ) (message : Option String) (v : Json)
      → Delivers (answers true status message (some v)) v

-- Why a call throws an `Error` with a message.
pub data Explains : Fetched → String → Type 0 where
  network : (cause : String) → Explains (throws_error cause) ("Network error: " ++ cause)
  unknown : Explains throws_other "Network error: unknown"
  told :
      (status : ℕ) (message : String) (decoded : Option Json)
      → message ≢ ""
      → Explains (answers false status (some message) decoded) message
  untold :
      (status : ℕ) (decoded : Option Json)
      → Explains (answers false status (some "") decoded) ("Request failed with " ++ to_text status)

-- A successful answer that holds no JSON, or a failed one of which the text cannot be read.
pub data Unreadable : Fetched → Type 0 where
  undecodable :
      (status : ℕ) (message : Option String) → Unreadable (answers true status message none)
  untransmitted :
      (status : ℕ) (decoded : Option Json) → Unreadable (answers false status none decoded)

-- What an outcome says about `fetch`.
abbrev pub Accounts : Fetched → Result → Type 0
Accounts f (returns v) = Delivers f v
Accounts f (fails message) = Explains f message × (message ≢ "")
Accounts f rejects = Unreadable f

explained : {f : Fetched} {message : String} → Explains f message → Accounts f (fails message)
explained (network cause) = (network cause, λ e. cc (append-eq-nil_iff.0 e).0)
explained unknown = (unknown, λ e. cc)
explained (told status message decoded ne) = (told status message decoded ne, ne)
explained (untold status decoded) = (untold status decoded, λ e. cc (append-eq-nil_iff.0 e).0)

answer-Accounts :
    (ok : Bool) (status : ℕ) (message : Option String) (decoded : Option Json)
    → Accounts (answers ok status message decoded) (read_answer ok status message decoded)
unfolding read_answer
answer-Accounts true status message none = undecodable status message
answer-Accounts true status message (some v) = delivers status message v
answer-Accounts false status none decoded = untransmitted status decoded
answer-Accounts false status (some message) decoded = elim (Bool-cases (is_blank message)) [
  | inl h ↦ rw h (rw (eq_of_is_blank message h) (explained (untold status decoded)))
  | inr h ↦ rw h (explained (told status message decoded (ne_of_is_blank message h)))
]

read-Accounts : (f : Fetched) → Accounts f (read_fetched f)
unfolding read_fetched
read-Accounts (throws_error cause) = explained (network cause)
read-Accounts throws_other = explained unknown
read-Accounts (answers ok status message decoded) = answer-Accounts ok status message decoded

read_of-Delivers : {f : Fetched} {v : Json} → Delivers f v → read_fetched f ≡ returns v
unfolding read_fetched
read_of-Delivers (delivers status message v) = refl

read_of-Explains :
    {f : Fetched} {message : String} → Explains f message → read_fetched f ≡ fails message
unfolding read_fetched read_answer
read_of-Explains (network cause) = refl
read_of-Explains unknown = refl
read_of-Explains (told status message decoded ne) = elim (Bool-cases (is_blank message)) [
  | inl h ↦ absurd (ne (eq_of_is_blank message h))
  | inr h ↦ rw h refl
]
read_of-Explains (untold status decoded) = refl

read_of-Unreadable : {f : Fetched} → Unreadable f → read_fetched f ≡ rejects
unfolding read_fetched
read_of-Unreadable (undecodable status message) = refl
read_of-Unreadable (untransmitted status decoded) = refl

read_of : (f : Fetched) (r : Result) → Accounts f r → read_fetched f ≡ r
read_of f (returns v) h = read_of-Delivers h
read_of f (fails message) h = read_of-Explains h.0
read_of f rejects h = read_of-Unreadable h

module _ (base : String) (fetch : Fetch) (path : String) (options : Options) (r : Result) where
  -- A call of `request` returns a value just where the server is content and sends it, throws an
  -- error just where `fetch` throws or the server refuses, with a message that names the cause and
  -- is never empty, and rejects just where a successful answer holds no JSON or the text of a failed
  -- one cannot be read.
  pub request-Accounts :
      (request base fetch path options ≡ r) ↔ Accounts (fetch (full_url base path) (init options)) r
  unfolding request
  request-Accounts = (
    λ h.
        subst (Accounts (fetch (full_url base path) (init options))) h
          (read-Accounts (fetch (full_url base path) (init options))),
    read_of (fetch (full_url base path) (init options)) r,
  )

-- An error that a call throws always has a message to show.
pub request_message :
    (base : String) (fetch : Fetch) (path : String) (options : Options) (message : String)
    → request base fetch path options ≡ fails message
    → message ≢ ""
request_message base fetch path options message h =
    ((request-Accounts base fetch path options (fails message)).0 h).1

full_url-nil : (path : String) → full_url "" path ≡ path
unfolding full_url
full_url-nil path = elim (Bool-cases (starts_with path "http")) [
  | inl h ↦ rw h
  | inr h ↦ rw h (nil-append path)
]

-- How two readings of one outcome of `fetch` differ: only where it throws.
abbrev LocalCases : Result → Result → Type 0
LocalCases local through =
    ((local ≡ rejects) × ((message : String) × (through ≡ fails message))) ⊎ (local ≡ through)

read_local-cases : (f : Fetched) → LocalCases (read_local f) (read_fetched f)
unfolding read_local read_fetched
read_local-cases (throws_error cause) = inl (refl, ("Network error: " ++ cause, refl))
read_local-cases throws_other = inl (refl, ("Network error: unknown", refl))
read_local-cases (answers ok status message decoded) = inr refl

-- The call that bypasses the API base passes on what `fetch` throws, where `request` with an empty
-- base throws an error with a message; in all other cases the two have the same outcome.
pub request_local-cases :
    (fetch : Fetch) (path : String) (options : Options)
    → ((request_local fetch path options ≡ rejects)
        × ((message : String) × (request "" fetch path options ≡ fails message)))
      ⊎ (request_local fetch path options ≡ request "" fetch path options)
unfolding request request_local
request_local-cases fetch path options =
    subst
      (λ url.
        LocalCases (request_local fetch path options) (read_fetched (fetch url (init options))))
      (sym (full_url-nil path)) (read_local-cases (fetch path (init options)))
