-- ===== src/AddResource/Opening.antt =====
-- Opening the form: which policy and which network are chosen.
use group_management_ui_back.Prelude.{
  String, ◌≡◌, ◌≢◌, refl, true, List, [], ◌∷◌, Bool-cases, inl, inr, is_blank, is_blank_of_eq,
  eq_of_is_blank, if◌then◌else◌,
}
use group_management_ui_back.Storage.{Browser}
use group_management_ui_back.ResourcePolicies.{ResourcePolicy, Parsed, default_id}
use group_management_ui_back.ResourcePolicies.Listing.{listed, HasId, list-HasDefault, list-ensure}
use group_management_ui_back.AddResource.{Props, State, open_modal, first_id}

first_id-HasId :
    (k old : String) (ps : List ResourcePolicy) → HasId k ps → HasId (first_id old ps) ps
first_id-HasId k old [] h = absurd h
first_id-HasId k old (p ∷ ps) h = inl refl

kept : (id new : String) → id ≢ "" → (if is_blank id then new else id) ≡ id
kept id new ne = elim (Bool-cases (is_blank id)) [
  | inl h ↦ absurd (ne (eq_of_is_blank id h))
  | inr h ↦ rw h
]

-- Opening shows the listed policies, the default one among them; where none was chosen, a listed
-- one is, and a choice made before stays.
pub open_policies :
    (props : Props) (s : State) (b : Browser Parsed)
    → b.has_window ≡ true
    → ((open_modal props s b).0.policies ≡ listed b)
      × HasId default_id (open_modal props s b).0.policies
      × (s.policy_id ≡ "" → HasId (open_modal props s b).0.policy_id (listed b))
      × (s.policy_id ≢ "" → (open_modal props s b).0.policy_id ≡ s.policy_id)
unfolding open_modal
open_policies props s b w = rw (list-ensure b w) (
  refl,
  list-HasDefault b w,
  (λ e.
      rw (is_blank_of_eq s.policy_id e)
        (first_id-HasId default_id s.policy_id (listed b) (list-HasDefault b w))),
  kept s.policy_id (first_id s.policy_id (listed b)),
)
