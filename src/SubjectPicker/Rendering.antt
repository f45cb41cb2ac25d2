-- ===== src/SubjectPicker/Rendering.antt =====
-- What is rendered: the rows of a tab, and a tab that is active and not there.
use group_management_ui_back.Prelude.{
  String, ◌≡◌, ◌≢◌, refl, Bool, true, false, some, List, [], ◌∷◌, ◌++◌, filter, any, map, In, All,
  All-In, All-map, All-append, arith, Bool-cases, inl, inr, if◌then◌else◌,
}
use group_management_ui_back.Types.{SubjectType, user, group, service, Subject}
use group_management_ui_back.SubjectPicker.{
  Props, State, same_type, is_selected, filtered_subjects, available_tabs, initial, load_subjects,
  Row, Content, spinner, message, rows, content, tab, view, is_empty,
}
use group_management_ui_back.SubjectPicker.Filtering.{IsOffered, filtered_iff}

module _ (lower : String → String) (props : Props) (s : State) where
  -- A row is that of a subject on offer, ticked exactly when the subject is selected.
  pub record IsTrue (row : Row) : Type 0 where
    pub loaded : In row.subject s.all_subjects
    pub offered : IsOffered lower props s row.subject
    pub ticked : row.checked ≡ is_selected props.selected_subjects row.subject.id

  abbrev pub AreTrue : Content → Type 0
  AreTrue spinner = s.loading ≡ true
  AreTrue (message m) = (s.loading ≡ false) × (filtered_subjects lower props s ≡ [])
  AreTrue (rows rs) = (s.loading ≡ false) × All IsTrue rs

  eq_nil_of_is_empty : (xs : List Subject) → is_empty xs ≡ true → xs ≡ []
  eq_nil_of_is_empty [] h = refl
  eq_nil_of_is_empty (x ∷ xs) h = cc

  rows-AreTrue : All IsTrue (
      map
        (λ subject. record {
          subject = subject;
          checked = is_selected props.selected_subjects subject.id;
        })
        (filtered_subjects lower props s))
  rows-AreTrue =
      All-map (λ subject. In subject (filtered_subjects lower props s)) IsTrue
        (λ subject. record {
          subject = subject;
          checked = is_selected props.selected_subjects subject.id;
        })
        (λ subject m.
          let (l, o) = (filtered_iff lower props s subject).0 m in
          record { loaded = l; offered = o; ticked = refl })
        (filtered_subjects lower props s)
        (All-In (λ subject. In subject (filtered_subjects lower props s))
          (filtered_subjects lower props s) (λ a m. m))

  AreTrue-if :
      (b : Bool) (c d : Content)
      → (b ≡ true → AreTrue c)
      → (b ≡ false → AreTrue d)
      → AreTrue (if b then c else d)
  AreTrue-if true c d f g = f refl
  AreTrue-if false c d f g = g refl

  content-AreTrue : (type : SubjectType) → AreTrue (content lower props s type)
  unfolding content
  content-AreTrue type =
      AreTrue-if s.loading _ _ (λ h. h)
        (λ h.
          AreTrue-if (is_empty (filtered_subjects lower props s)) _ _
            (λ e. (h, eq_nil_of_is_empty (filtered_subjects lower props s) e))
            (λ e. (h, rows-AreTrue)))

  tab-AreTrue : (type : SubjectType) → All (λ t. AreTrue t.1) (tab lower props s type)
  unfolding tab
  tab-AreTrue type = elim (Bool-cases (any (same_type type) (available_tabs props s))) [
    | inl h ↦ rw h (content-AreTrue type, tt)
    | inr h ↦ rw h tt
  ]

  -- Whatever tab is shown, it holds a spinner while the subjects load, a message only when no
  -- subject is on offer, and otherwise rows of subjects on offer, ticked when selected.
  pub view-AreTrue : All (λ t. AreTrue t.1) (view lower props s).tabs
  unfolding view
  view-AreTrue =
      All-append (λ t. AreTrue t.1) (tab lower props s user)
        (tab lower props s group ++ tab lower props s service) (tab-AreTrue user)
        (All-append (λ t. AreTrue t.1) (tab lower props s group) (tab lower props s service)
          (tab-AreTrue group) (tab-AreTrue service))

-- No subject has the type.
abbrev pub NoneOf : SubjectType → List Subject → Type 0
NoneOf type = All (λ subject. subject.kind ≢ type)

any-NoneOf :
    (subjects : List Subject)
    → NoneOf user subjects
    → any (λ subject. same_type subject.kind user) subjects ≡ false
any-NoneOf [] h = refl
any-NoneOf (x ∷ xs) (ne, h) = rw (not_user x.kind ne) (any-NoneOf xs h)
  where
    not_user : (k : SubjectType) → k ≢ user → same_type k user ≡ false
    not_user user ne = absurd (ne refl)
    not_user group ne = refl
    not_user service ne = refl

user_not_available :
    (q : SubjectType → Bool) (types : List SubjectType)
    → q user ≡ false
    → any (same_type user) (filter q types) ≡ false
user_not_available q [] h = refl
user_not_available q (user ∷ ts) h = rw h (user_not_available q ts h)
user_not_available q (group ∷ ts) h = ground (arith, user_not_available q ts h)
user_not_available q (service ∷ ts) h = ground (arith, user_not_available q ts h)

tab-ne :
    (lower : String → String) (props : Props) (s : State) (type : SubjectType)
    → type ≢ user
    → All (λ t. t.0 ≢ user) (tab lower props s type)
unfolding tab
tab-ne lower props s type ne = elim (Bool-cases (any (same_type type) (available_tabs props s))) [
  | inl h ↦ rw h (ne, tt)
  | inr h ↦ rw h tt
]

user_tab_missing :
    (lower : String → String) (props : Props) (s : State)
    → NoneOf user s.all_subjects
    → tab lower props s user ≡ []
unfolding tab available_tabs
user_tab_missing lower props s h =
    rw
      (user_not_available (λ type. any (λ subject. same_type subject.kind type) s.all_subjects)
        props.subject_types (any-NoneOf s.all_subjects h))
      refl

view-ne :
    (lower : String → String) (props : Props) (s : State)
    → NoneOf user s.all_subjects
    → All (λ t. t.0 ≢ user) (view lower props s).tabs
unfolding view
view-ne lower props s h = rw (user_tab_missing lower props s h) (
    All-append (λ t. t.0 ≢ user) (tab lower props s group) (tab lower props s service)
      (tab-ne lower props s group (λ e. cc)) (tab-ne lower props s service (λ e. cc)))

-- Where users may be picked and none is loaded, the active tab is that of users, and no tab for
-- users is rendered: no list is shown until another tab is chosen by hand.
pub active_tab_missing :
    (lower : String → String) (props : Props) (subjects : List Subject)
    → any (same_type user) props.subject_types ≡ true
    → NoneOf user subjects
    → ((load_subjects (some subjects) (initial props)).active_tab ≡ some user)
      × All
          (λ t. t.0 ≢ user)
          (view lower props (load_subjects (some subjects) (initial props))).tabs
unfolding load_subjects initial
active_tab_missing lower props subjects pickable none_loaded = (
  rw pickable refl,
  view-ne lower props (load_subjects (some subjects) (initial props)) none_loaded,
)
